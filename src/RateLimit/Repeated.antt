-- ===== src/RateLimit/Repeated.antt =====
-- Two requests of one actor at one time, and the answer 429 of `dispatch`.
use syndicateclaw.Base.{
  ℕ, ◌+◌, ◌≤◌, ◌<◌, ◌≡◌, refl, sym, ◌∙◌, ap, inl, inr, Bool, true, false, not, List, [], ◌∷◌,
  String, ◌==◌, string_eq, nat_eq, contains, keep, length, if◌then◌else◌, arith, Bool-cases,
}
use syndicateclaw.Json.{pos, int_leb}
use syndicateclaw.RateLimit.Sets.{SortedSets, cutoff, hit}
use syndicateclaw.RateLimit.Middleware.{
  Settings, rejected, sustained, window_key, burst_key, seconds, after_counts, limit,
}
use syndicateclaw.RateLimit.Keys.{keys_apart}

add_once : ℕ → List ℕ → List ℕ
add_once x xs = if contains xs x then xs else x ∷ xs

keep_twice : (p : ℕ → Bool) (xs : List ℕ) → keep p (keep p xs) ≡ keep p xs
keep_twice p [] = refl
keep_twice p (x ∷ xs) = ground (arith, keep_twice p xs)

contains_self : (x : ℕ) (xs : List ℕ) → contains (add_once x xs) x ≡ true
unfolding add_once
contains_self x xs = ground arith

add_once_again :
    (p : ℕ → Bool) (x : ℕ) (xs : List ℕ)
    → p x ≡ true
    → add_once x (keep p (add_once x (keep p xs))) ≡ add_once x (keep p xs)
unfolding add_once
add_once_again p x xs h = elim (Bool-cases (contains (keep p xs) x)) [
  | inl old ↦ rw old (rw (keep_twice p xs) (rw old refl))
  | inr new ↦ rw new (rw h (ground (arith, keep_twice p xs)))
]

module _ (R : SortedSets) (now : ℕ) (key : String) (window ttl : ℕ) where
  abbrev fresh_score : ℕ → Bool
  fresh_score x = not (int_leb (pos x) (cutoff now window))

  ScoresAfter : (s : R.Store) → R.Store → Type 0
  ScoresAfter s u = R.scores now key u ≡ add_once now (keep fresh_score (R.scores now key s))

  hit_before :
      (s : R.Store)
      → ScoresAfter s (R.zadd now key now (R.zremrangebyscore now key (cutoff now window) s))
  unfolding ScoresAfter add_once
  hit_before s =
      R.scores-zadd now key now (R.zremrangebyscore now key (cutoff now window) s)
      ∙ ap (add_once now) (R.scores-zremrangebyscore now key (cutoff now window) s)

  hit_count :
      (s : R.Store)
      → (hit R now key window ttl s).0
        ≡ length (add_once now (keep fresh_score (R.scores now key s)))
  unfolding hit ScoresAfter
  hit_count s = ap length (hit_before s)

  hit_after : 0 < ttl → (s : R.Store) → ScoresAfter s (hit R now key window ttl s).1
  unfolding hit ScoresAfter
  hit_after lasts s =
      R.scores_kept now now key ttl
        (R.zadd now key now (R.zremrangebyscore now key (cutoff now window) s)) (omega arith)
        (omega arith)
      ∙ hit_before s

  -- counted once more at the same time, in a store with the same set
  hit_again :
      0 < window
      → (s u : R.Store) → ScoresAfter s u
      → (hit R now key window ttl u).0 ≡ (hit R now key window ttl s).0
  unfolding ScoresAfter
  hit_again wide s u same =
      hit_count u
      ∙ ap (λ xs. length (add_once now (keep fresh_score xs))) same
      ∙ ap length (add_once_again fresh_score now (R.scores now key s) (ground arith))
      ∙ sym (hit_count s)

  other_scores :
      (other : String) (w l : ℕ)
      → (other == key) ≡ false
      → (s : R.Store) → R.scores now key (hit R now other w l s).1 ≡ R.scores now key s
  unfolding hit
  other_scores other w l apart s =
      R.other_expire now now key other l
        (R.zadd now other now (R.zremrangebyscore now other (cutoff now w) s)) apart
      ∙ R.other_zadd now now key other now (R.zremrangebyscore now other (cutoff now w) s) apart
      ∙ R.other_zremrangebyscore now now key other (cutoff now w) s apart

module _ (R : SortedSets) (c : Settings) (now : ℕ) (actor : String) where
  abbrev window : ℕ
  window = seconds c.rate_limit_window_seconds

  abbrev ttl : ℕ
  ttl = seconds (c.rate_limit_window_seconds + 1)

  abbrev after_window : R.Store → R.Store
  after_window s = (hit R now (window_key actor) window ttl s).1

  limit_counts :
      (s : R.Store)
      → limit R c now actor s ≡ (
        after_counts c now
            (hit R now (window_key actor) window ttl s).0
            (hit R now (burst_key actor) (seconds 1) (seconds 2) (after_window s)).0,
        (hit R now (burst_key actor) (seconds 1) (seconds 2) (after_window s)).1,
      )
  unfolding limit
  limit_counts s = refl

  window_after :
      (s : R.Store) → ScoresAfter R now (window_key actor) window ttl s (limit R c now actor s).1
  unfolding ScoresAfter
  window_after s =
      ap (λ p. R.scores now (window_key actor) p.1) (limit_counts s)
      ∙ other_scores R now (window_key actor) window ttl (burst_key actor) (seconds 1) (seconds 2)
          (keys_apart actor).1 (after_window s)
      ∙ hit_after R now (window_key actor) window ttl (omega arith) s

  burst_after :
      (s : R.Store)
      → ScoresAfter R now
          (burst_key actor)
          (seconds 1)
          (seconds 2)
          (after_window s)
          (after_window (limit R c now actor s).1)
  unfolding ScoresAfter
  burst_after s =
      other_scores R now (burst_key actor) (seconds 1) (seconds 2) (window_key actor) window ttl
        (keys_apart actor).0 (limit R c now actor s).1
      ∙ ap (λ p. R.scores now (burst_key actor) p.1) (limit_counts s)
      ∙ hit_after R now (burst_key actor) (seconds 1) (seconds 2) (omega arith) (after_window s)

  -- A further request of an actor at the time of one that was counted is answered as that was: it
  -- is not counted, so any number of requests at one time pass where the first does.
  pub limit_again :
      0 < c.rate_limit_window_seconds
      → (s : R.Store)
      → (limit R c now actor (limit R c now actor s).1).0 ≡ (limit R c now actor s).0
  limit_again wide s =
      let once = (limit R c now actor s).1 in
      let same_window =
        hit_again R now (window_key actor) window ttl (omega arith) s once (window_after s) in
      let same_burst =
        hit_again R now (burst_key actor) (seconds 1) (seconds 2) (omega arith) (after_window s)
          (after_window once) (burst_after s) in
      ap (λ p. p.0) (limit_counts once)
      ∙ ap
          (λ n.
            after_counts c now n
              (hit R now (burst_key actor) (seconds 1) (seconds 2) (after_window once)).0)
          same_window
      ∙ ap (λ n. after_counts c now (hit R now (window_key actor) window ttl s).0 n) same_burst
      ∙ sym (ap (λ p. p.0) (limit_counts s))

  -- A request that is answered with 429 for the sustained limit is told to come back after one
  -- second, however long the window is and however many requests are in it.
  pub retry_after_one :
      window ≤ now
      → (s : R.Store) (count most retry_after : ℕ)
      → (limit R c now actor s).0 ≡ rejected sustained count most retry_after
      → (limit R c now actor s).0 ≡ rejected sustained count c.rate_limit_requests 1
  retry_after_one since s count most retry_after h =
      let ruled = sym (ap (λ p. p.0) (limit_counts s)) ∙ h in
      ap (λ p. p.0) (limit_counts s) ∙ ground arith
