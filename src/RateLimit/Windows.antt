-- ===== src/RateLimit/Windows.antt =====
-- Times in sliding windows, for the limits of src/syndicateclaw/api/rate_limit.py.
use syndicateclaw.Base.{
  ℕ, suc, ◌≤◌, ◌≡◌, inl, inr, Bool, true, ◌&&◌, List, [], ◌∷◌, string_eq, keep, length, leb, arith,
  Bool-cases,
}
use syndicateclaw.RateLimit.Served.{in_window}

-- in the window that ends at `t`
abbrev pub within : ℕ → ℕ → ℕ → Bool
within window t x = leb x t && in_window window t x

abbrev pub IsBounded : ℕ → ℕ → List ℕ → Type 0
IsBounded window most ts = (t : ℕ) → length (keep (within window t) ts) ≤ most

-- Each of these is one of those.
unfoldable pub Among : List ℕ → List ℕ → Type 0
Among xs ys = (p : ℕ → Bool) → length (keep p xs) ≤ length (keep p ys)

keep_fewer :
    (p q : ℕ → Bool)
    → ((x : ℕ) → p x ≡ true → q x ≡ true)
    → (xs : List ℕ) → length (keep p xs) ≤ length (keep q xs)
keep_fewer p q h [] = omega arith
keep_fewer p q h (x ∷ xs) = ground (arith, h x, keep_fewer p q h xs)

pub one_more :
    (window most now : ℕ) (admitted ts : List ℕ)
    → Among admitted ts
    → suc (length (keep (in_window window now) ts)) ≤ most
    → IsBounded window most admitted
    → IsBounded window most (now ∷ admitted)
unfolding Among
one_more window most now admitted ts among room old t = elim (Bool-cases (within window t now)) [
  | inl now_in ↦
      let fewer : length (keep (within window t) ts) ≤ length (keep (in_window window now) ts) =
        keep_fewer (within window t) (in_window window now) (λ x h. ground arith) ts in
      rw now_in (omega (arith, among (within window t)))
  | inr now_out ↦ rw now_out (old t)
]

pub Among-skip : (now : ℕ) (xs ys : List ℕ) → Among xs ys → Among xs (now ∷ ys)
unfolding Among
Among-skip now xs ys h p = ground (arith, h p)

pub Among-cons : (now : ℕ) (xs ys : List ℕ) → Among xs ys → Among (now ∷ xs) (now ∷ ys)
unfolding Among
Among-cons now xs ys h p = ground (arith, h p)
