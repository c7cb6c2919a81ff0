-- ===== src/Base/Membership.antt =====
-- `x in xs` with the place where it stands, and what comprehensions and searches keep of it.
use mathlib.Core.Path.{◌≡◌, refl, subst, ap}
use mathlib.Core.Logic.{◌⊎◌, inl, inr}
use mathlib.Core.Bool.{Bool, true, false}
use mathlib.Core.Option.{some}
use mathlib.Core.List.{List, [], ◌∷◌, ◌++◌, map}
use native.Mathlib.Omega.{arith}
use syndicateclaw.Base.Tests.{Bool-cases}
use syndicateclaw.Base.Lists.{keep, find, All, any, all}

abbrev pub In : {A : Type 0} → A → List A → Type 0
In x [] = ⊥
In x (y ∷ ys) = (y ≡ x) ⊎ In x ys

module _ {A : Type 0} where
  In-kept_cons :
      (p : A → Bool) (x y : A) (xs : List A)
      → (In x (keep p xs) → In x xs × (p x ≡ true))
      → In x (keep p (y ∷ xs))
      → In x (y ∷ xs) × (p x ≡ true)
  In-kept_cons p x y xs ih h = elim (Bool-cases (p y)) [
    | inl t ↦ elim (rw t at h) [ inl e ↦ (inl e, rw (← e) t) | inr m ↦ (inr (ih m).0, (ih m).1) ]
    | inr f ↦ let m : In x (keep p xs) = rw f at h in (inr (ih m).0, (ih m).1)
  ]

  pub In-keep : (p : A → Bool) (x : A) (xs : List A) → In x (keep p xs) → In x xs × (p x ≡ true)
  In-keep p x [] h = absurd h
  In-keep p x (y ∷ ys) h = In-kept_cons p x y ys (In-keep p x ys) h

  pub In-keep_of : (p : A → Bool) (x : A) (xs : List A) → In x xs → p x ≡ true → In x (keep p xs)
  In-keep_of p x [] m t = elim m [ ]
  In-keep_of p x (y ∷ ys) (inl e) t = let s : p y ≡ true = rw e t in rw s (inl e)
  In-keep_of p x (y ∷ ys) (inr m) t = elim (Bool-cases (p y)) [
    | inl s ↦ rw s (inr (In-keep_of p x ys m t))
    | inr s ↦ rw s (In-keep_of p x ys m t)
  ]

  pub In-find : (p : A → Bool) (x : A) (xs : List A) → find p xs ≡ some x → In x xs × (p x ≡ true)
  In-find p x [] h = ground arith
  In-find p x (y ∷ ys) h = elim (Bool-cases (p y)) [
    | inl t ↦ let e : y ≡ x = ground arith in (inl e, rw (← e) t)
    | inr f ↦ let (m, t) = In-find p x ys (rw f at h) in (inr m, t)
  ]

  pub In-append : (x : A) (xs ys : List A) → In x (xs ++ ys) → In x xs ⊎ In x ys
  In-append x [] ys h = inr h
  In-append x (z ∷ zs) ys (inl e) = inl (inl e)
  In-append x (z ∷ zs) ys (inr m) = elim (In-append x zs ys m) [
    | inl a ↦ inl (inr a)
    | inr b ↦ inr b
  ]

  pub In-append_left : (x : A) (xs ys : List A) → In x xs → In x (xs ++ ys)
  In-append_left x [] ys m = elim m [ ]
  In-append_left x (z ∷ zs) ys (inl e) = inl e
  In-append_left x (z ∷ zs) ys (inr m) = inr (In-append_left x zs ys m)

  pub In-append_right : (x : A) (xs ys : List A) → In x ys → In x (xs ++ ys)
  In-append_right x [] ys h = h
  In-append_right x (z ∷ zs) ys h = inr (In-append_right x zs ys h)

  pub All-In {κ} : (P : A → Type κ) (xs : List A) (x : A) → All P xs → In x xs → P x
  All-In P [] x ps m = elim m [ ]
  All-In P (y ∷ ys) x (p, ps) (inl e) = subst P e p
  All-In P (y ∷ ys) x (p, ps) (inr m) = All-In P ys x ps m

  -- An element that passes, and the test of the whole list.
  pub any_of_In : (p : A → Bool) (x : A) (xs : List A) → In x xs → p x ≡ true → any p xs ≡ true
  any_of_In p x [] m t = elim m [ ]
  any_of_In p x (y ∷ ys) (inl e) t = let s : p y ≡ true = rw e t in rw s
  any_of_In p x (y ∷ ys) (inr m) t = ground (arith, any_of_In p x ys m t)

  pub any-In : (p : A → Bool) (xs : List A) → any p xs ≡ true → (x : A) × In x xs × (p x ≡ true)
  any-In p [] h = ground arith
  any-In p (y ∷ ys) h = elim (Bool-cases (p y)) [
    | inl t ↦ (y, inl refl, t)
    | inr f ↦ let (x, m, t) = any-In p ys (rw f at h) in (x, inr m, t)
  ]

  pub all-In : (p : A → Bool) (xs : List A) (x : A) → all p xs ≡ true → In x xs → p x ≡ true
  all-In p [] x h m = elim m [ ]
  all-In p (y ∷ ys) x h (inl e) = let t : p y ≡ true = ground arith in rw (← e) t
  all-In p (y ∷ ys) x h (inr m) = all-In p ys x (ground arith) m

  pub keep_empty : (p : A → Bool) (x : A) (xs : List A) → keep p xs ≡ [] → In x xs → p x ≡ false
  keep_empty p x xs e m = elim (Bool-cases (p x)) [
    | inl t ↦ let m' : In x [] = rw e at (In-keep_of p x xs m t) in absurd m'
    | inr f ↦ f
  ]

  pub keep_none : (p : A → Bool) (xs : List A) → ((x : A) → In x xs → p x ≡ false) → keep p xs ≡ []
  keep_none p [] h = refl
  keep_none p (x ∷ xs) h = rw (h x (inl refl)) (keep_none p xs (λ y m. h y (inr m)))

module _ {A B : Type 0} (f : A → B) where
  pub In-map_of : (x : A) (xs : List A) → In x xs → In (f x) (map f xs)
  In-map_of x [] m = elim m [ ]
  In-map_of x (y ∷ ys) (inl e) = inl (ap f e)
  In-map_of x (y ∷ ys) (inr m) = inr (In-map_of x ys m)

  pub In-map : (b : B) (xs : List A) → In b (map f xs) → (x : A) × In x xs × (f x ≡ b)
  In-map b [] m = elim m [ ]
  In-map b (y ∷ ys) (inl e) = (y, inl refl, e)
  In-map b (y ∷ ys) (inr m) = let (x, i, e) = In-map b ys m in (x, inr i, e)

pub List-cases {ℓ} :
    {A : Type ℓ} (xs : List A) → (xs ≡ []) ⊎ ((x : A) × (ys : List A) × (xs ≡ x ∷ ys))
List-cases [] = inl refl
List-cases (x ∷ xs) = inr (x, xs, refl)
