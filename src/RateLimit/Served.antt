-- ===== src/RateLimit/Served.antt =====
-- The set of a key after a sequence of counted requests (`hit`).
use syndicateclaw.Base.{
  ℕ, suc, ◌+◌, ◌≤◌, ◌<◌, ◌≡◌, refl, ◌∙◌, ap, inl, inr, Bool, false, not, List, [], ◌∷◌, String,
  ◌==◌, string_eq, nat_eq, contains, keep, length, leb, ltb, All, arith, Bool-cases,
}
use syndicateclaw.Json.{pos, int_leb}
use syndicateclaw.RateLimit.Sets.{SortedSets, cutoff, hit}

-- not older than the window
abbrev pub in_window : ℕ → ℕ → ℕ → Bool
in_window window now x = not (leb (x + window) now)

-- Times, the newest first, no two of them equal.
abbrev pub IsFalling : List ℕ → Type 0
IsFalling [] = Unit
IsFalling (t ∷ ts) = All (λ x. x < t) ts × IsFalling ts

keep_ext : (p q : ℕ → Bool) → ((x : ℕ) → p x ≡ q x) → (xs : List ℕ) → keep p xs ≡ keep q xs
keep_ext p q e [] = refl
keep_ext p q e (x ∷ xs) = rw (e x, keep_ext p q e xs) refl

cutoff_window :
    (now window x : ℕ) → not (int_leb (pos x) (cutoff now window)) ≡ in_window window now x
cutoff_window now window x = ground arith

keep_later :
    (window now t : ℕ)
    → now ≤ t
    → (xs : List ℕ)
    → keep (in_window window t) (keep (in_window window now) xs) ≡ keep (in_window window t) xs
keep_later window now t le [] = refl
keep_later window now t le (x ∷ xs) = ground (arith, keep_later window now t le xs)

keep_old :
    (window now t : ℕ)
    → now + window ≤ t
    → (xs : List ℕ) → All (λ x. x < now) xs
    → keep (in_window window t) xs ≡ []
keep_old window now t le [] h = refl
keep_old window now t le (x ∷ xs) h = ground (arith, keep_old window now t le xs)

not_counted :
    (window now : ℕ) (xs : List ℕ)
    → All (λ x. x < now) xs
    → contains (keep (in_window window now) xs) now ≡ false
not_counted window now [] h = refl
not_counted window now (x ∷ xs) h = ground (arith, not_counted window now xs)

module _ (R : SortedSets) (key : String) (window ttl : ℕ) (longer : window < ttl) where
  -- From the time of the newest request on, the set has the requests that are in the window.
  abbrev pub Counts : List ℕ → R.Store → Type 0
  Counts ts s =
      (t : ℕ)
      → All (λ x. x ≤ t) ts
      → keep (in_window window t) (R.scores t key s) ≡ keep (in_window window t) ts

  hit_scores :
      (now : ℕ) (ts : List ℕ) (s : R.Store)
      → All (λ x. x < now) ts
      → keep (in_window window now) (R.scores now key s) ≡ keep (in_window window now) ts
      → R.scores now key (R.zadd now key now (R.zremrangebyscore now key (cutoff now window) s))
        ≡ now ∷ keep (in_window window now) ts
  hit_scores now ts s new same =
      let old =
        R.scores-zremrangebyscore now key (cutoff now window) s
        ∙ keep_ext (λ x. not (int_leb (pos x) (cutoff now window))) (in_window window now)
            (cutoff_window now window) (R.scores now key s)
        ∙ same in
      R.scores-zadd now key now (R.zremrangebyscore now key (cutoff now window) s)
      ∙ rw old (rw (not_counted window now ts new) refl)

  All-le : (now t : ℕ) → now ≤ t → (ts : List ℕ) → All (λ x. x < now) ts → All (λ x. x ≤ t) ts
  All-le now t le [] h = tt
  All-le now t le (x ∷ ts) h = (omega arith, All-le now t le ts h.1)

  -- A request is counted with those before it that are in the window.
  pub hit_count :
      (now : ℕ) (ts : List ℕ) (s : R.Store)
      → All (λ x. x < now) ts
      → Counts ts s
      → (hit R now key window ttl s).0 ≡ suc (length (keep (in_window window now) ts))
  unfolding hit
  hit_count now ts s new c =
      ap length (hit_scores now ts s new (c now (All-le now now (omega arith) ts new)))

  pub hit-Counts :
      (now : ℕ) (ts : List ℕ) (s : R.Store)
      → All (λ x. x < now) ts
      → Counts ts s
      → Counts (now ∷ ts) (hit R now key window ttl s).1
  unfolding hit
  hit-Counts now ts s new c t (le, _) =
      let added = hit_scores now ts s new (c now (All-le now now (omega arith) ts new)) in
      let s' = R.zadd now key now (R.zremrangebyscore now key (cutoff now window) s) in
      elim (Bool-cases (ltb t (now + ttl))) [
        | inl within ↦
            let kept : R.scores t key (R.expire now key ttl s')
                ≡ now ∷ keep (in_window window now) ts =
              R.scores_kept now t key ttl s' le (ground arith) ∙ added in
            ap (keep (in_window window t)) kept ∙ ground (arith, keep_later window now t le ts)
        | inr over ↦
            let gone : R.scores t key (R.expire now key ttl s') ≡ [] =
              R.scores_gone now t key ttl s' (ground arith) in
            ap (keep (in_window window t)) gone
            ∙ ground (arith, keep_old window now t (ground arith) ts new)
      ]

  -- what is done on another key
  pub other-Counts :
      (now : ℕ) (other : String) (w l : ℕ) (ts : List ℕ) (s : R.Store)
      → (other == key) ≡ false
      → Counts ts s
      → Counts ts (hit R now other w l s).1
  unfolding hit
  other-Counts now other w l ts s apart c t newer =
      ap (keep (in_window window t)) (
        R.other_expire now t key other l
          (R.zadd now other now (R.zremrangebyscore now other (cutoff now w) s)) apart
        ∙ R.other_zadd now t key other now (R.zremrangebyscore now other (cutoff now w) s) apart
        ∙ R.other_zremrangebyscore now t key other (cutoff now w) s apart)
      ∙ c t newer
