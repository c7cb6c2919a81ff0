-- ===== src/RateLimit/TableSets.antt =====
-- Sorted sets as functions: the assumptions on Redis can be met.
use syndicateclaw.Base.{
  ℕ, ◌+◌, ◌≤◌, ◌<◌, ◌≡◌, refl, true, false, not, List, [], ◌∷◌, String, ◌==◌, string_eq, nat_eq,
  eq_refl, contains, keep, ltb, if◌then◌else◌, arith,
}
use syndicateclaw.Json.{pos, int_leb}
use syndicateclaw.RateLimit.Sets.{SortedSets}

-- the scores under a key at a time
abbrev pub Table : Type 0
Table = String → ℕ → List ℕ

pub sets_kept :
    (now t : ℕ) (k : String) (ttl : ℕ) (s : Table)
    → t < now + ttl
    → (if k == k then if ltb t (now + ttl) then s k now else [] else s k t) ≡ s k now
sets_kept now t k ttl s h =
    let e : ltb t (now + ttl) ≡ true = ground arith in rw (eq_refl k) (rw e refl)

pub sets_gone :
    (now t : ℕ) (k : String) (ttl : ℕ) (s : Table)
    → now + ttl ≤ t
    → (if k == k then if ltb t (now + ttl) then s k now else [] else s k t) ≡ []
sets_gone now t k ttl s h =
    let e : ltb t (now + ttl) ≡ false = ground arith in rw (eq_refl k) (rw e refl)

abbrev pub sets : SortedSets
sets = record {
  Store = Table;
  scores = λ t k s. s k t;
  zremrangebyscore = λ now j limit s k t.
      if j == k then keep (λ x. not (int_leb (pos x) limit)) (s k t) else s k t;
  zadd = λ now j x s k t. if j == k then if contains (s k t) x then s k t else x ∷ s k t else s k t;
  expire = λ now j ttl s k t. if j == k then if ltb t (now + ttl) then s k now else [] else s k t;
  scores-zremrangebyscore = λ now k limit s. rw (eq_refl k) refl;
  scores-zadd = λ now k x s. rw (eq_refl k) refl;
  scores_kept = λ now t k ttl s le h. sets_kept now t k ttl s h;
  scores_gone = λ now t k ttl s h. sets_gone now t k ttl s h;
  other_zremrangebyscore = λ now t k j limit s h. rw h refl;
  other_zadd = λ now t k j x s h. rw h refl;
  other_expire = λ now t k j ttl s h. rw h refl;
}

abbrev pub nothing : Table
nothing k t = []
