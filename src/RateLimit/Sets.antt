-- ===== src/RateLimit/Sets.antt =====
-- A sliding window in a sorted set of Redis, as src/syndicateclaw/api/rate_limit.py and
-- `_enforce_broadcast_rate_limit` of src/syndicateclaw/services/message_service.py count with it.
use syndicateclaw.Base.{
  ℕ, ◌+◌, ◌-◌, ◌≤◌, ◌<◌, ◌≡◌, false, not, List, [], ◌∷◌, String, ◌==◌, string_eq, nat_eq, contains,
  keep, length, leb, if◌then◌else◌,
}
use syndicateclaw.Json.{ℤ, pos, negsuc, int_leb}

-- What the program relies on of Redis. The member of a set is the text of its score, so a set is
-- the list of its scores, without repetition. ZADD, ZREMRANGEBYSCORE and EXPIRE are made at a time,
-- and a set that is past its expiry is empty.
pub record SortedSets : Type 1 where
  pub Store : Type 0
  pub scores : ℕ → String → Store → List ℕ
  pub zremrangebyscore : ℕ → String → ℤ → Store → Store
  pub zadd : ℕ → String → ℕ → Store → Store
  pub expire : ℕ → String → ℕ → Store → Store
  pub scores-zremrangebyscore :
      (now : ℕ) (k : String) (limit : ℤ) (s : Store)
      → scores now k (zremrangebyscore now k limit s)
        ≡ keep (λ x. not (int_leb (pos x) limit)) (scores now k s)
  pub scores-zadd :
      (now : ℕ) (k : String) (x : ℕ) (s : Store)
      → scores now k (zadd now k x s)
        ≡ (if contains (scores now k s) x then scores now k s else x ∷ scores now k s)
  pub scores_kept :
      (now t : ℕ) (k : String) (ttl : ℕ) (s : Store)
      → now ≤ t
      → t < now + ttl
      → scores t k (expire now k ttl s) ≡ scores now k s
  pub scores_gone :
      (now t : ℕ) (k : String) (ttl : ℕ) (s : Store)
      → now + ttl ≤ t
      → scores t k (expire now k ttl s) ≡ []
  pub other_zremrangebyscore :
      (now t : ℕ) (k j : String) (limit : ℤ) (s : Store)
      → (j == k) ≡ false
      → scores t k (zremrangebyscore now j limit s) ≡ scores t k s
  pub other_zadd :
      (now t : ℕ) (k j : String) (x : ℕ) (s : Store)
      → (j == k) ≡ false
      → scores t k (zadd now j x s) ≡ scores t k s
  pub other_expire :
      (now t : ℕ) (k j : String) (ttl : ℕ) (s : Store)
      → (j == k) ≡ false
      → scores t k (expire now j ttl s) ≡ scores t k s

-- `now - window`
abbrev pub cutoff : ℕ → ℕ → ℤ
cutoff now window = if leb window now then pos (now - window) else negsuc (window - now - 1)

module _ (R : SortedSets) where
  -- ZREMRANGEBYSCORE, ZADD, ZCARD and EXPIRE on one key: the count, and the store
  unfoldable pub hit : ℕ → String → ℕ → ℕ → R.Store → ℕ × R.Store
  hit now key window ttl s =
      let s' = R.zadd now key now (R.zremrangebyscore now key (cutoff now window) s) in
      (length (R.scores now key s'), R.expire now key ttl s')
