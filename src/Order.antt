-- ===== src/Order.antt =====
-- Python's `sorted` by a key, as a stable insertion sort.
use syndicateclaw.Base.{keep, In-keep}
use syndicateclaw.Base.{
  suc, ◌≡◌, refl, Bool, true, false, List, [], ◌∷◌, ◌⊎◌, inl, inr, if◌then◌else◌, length, In, arith,
  Bool-cases, ◌∙◌, ap,
}

-- A total order, as a test.
pub record IsOrder {A : Type 0} (le : A → A → Bool) : Type 0 where
  pub total : (a b : A) → le a b ≡ false → le b a ≡ true
  pub trans : (a b c : A) → le a b ≡ true → le b c ≡ true → le a c ≡ true

module _ {A : Type 0} (le : A → A → Bool) where
  unfoldable pub insert : A → List A → List A
  insert a [] = a ∷ []
  insert a (x ∷ xs) = let rest = insert a xs in if le a x then a ∷ x ∷ xs else x ∷ rest

  unfoldable pub sort : List A → List A
  unfolding insert
  sort [] = []
  sort (x ∷ xs) = insert x (sort xs)

  -- Every element is at most those behind it.
  abbrev pub LeAll : A → List A → Type 0
  LeAll a xs = (x : A) → In x xs → le a x ≡ true

  abbrev pub IsSorted : List A → Type 0
  IsSorted [] = Unit
  IsSorted (x ∷ xs) = LeAll x xs × IsSorted xs

  pub insert-In : (a x : A) (xs : List A) → In x (insert a xs) → (a ≡ x) ⊎ In x xs
  unfolding insert
  insert-In a x [] (inl e) = inl e
  insert-In a x [] (inr m) = absurd m
  insert-In a x (y ∷ ys) m = elim (Bool-cases (le a y)) [
    | inl t ↦ rw (t, insert) at m
    | inr f ↦ elim (rw (f, insert) at m) [
      | inl e ↦ inr (inl e)
      | inr i ↦ elim (insert-In a x ys i) [ inl e ↦ inl e | inr j ↦ inr (inr j) ]
    ]
  ]

  pub In-insert : (a x : A) (xs : List A) → (a ≡ x) ⊎ In x xs → In x (insert a xs)
  unfolding insert
  In-insert a x [] h = h
  In-insert a x (y ∷ ys) h = elim (Bool-cases (le a y)) [
    | inl t ↦ rw (t, insert) h
    | inr f ↦
        rw (f, insert)
          (elim h [
            | inl e ↦ inr (In-insert a x ys (inl e))
            | inr m ↦ elim m [ inl e ↦ inl e | inr i ↦ inr (In-insert a x ys (inr i)) ]
          ])
  ]

  pub sort-In : (x : A) (xs : List A) → In x (sort xs) → In x xs
  unfolding sort
  sort-In x [] m = m
  sort-In x (y ∷ ys) m = elim (insert-In y x (sort ys) m) [
    | inl e ↦ inl e
    | inr i ↦ inr (sort-In x ys i)
  ]

  pub In-sort : (x : A) (xs : List A) → In x xs → In x (sort xs)
  unfolding sort
  In-sort x [] m = m
  In-sort x (y ∷ ys) (inl e) = In-insert y x (sort ys) (inl e)
  In-sort x (y ∷ ys) (inr m) = In-insert y x (sort ys) (inr (In-sort x ys m))

  length-insert : (a : A) (xs : List A) → length (insert a xs) ≡ suc (length xs)
  unfolding insert
  length-insert a [] = refl
  length-insert a (x ∷ xs) = ground (arith, length-insert a xs)

  pub length-sort : (xs : List A) → length (sort xs) ≡ length xs
  unfolding sort
  length-sort [] = refl
  length-sort (x ∷ xs) = length-insert x (sort xs) ∙ ap suc (length-sort xs)

-- `x` and `y` stand at two places of the list.
abbrev pub Apart : {A : Type 0} → A → A → List A → Type 0
Apart x y [] = ⊥
Apart x y (z ∷ zs) = ((z ≡ x) × In y zs) ⊎ ((z ≡ y) × In x zs) ⊎ Apart x y zs

module _ {A : Type 0} (le : A → A → Bool) where
  Apart-swap : (x y a b : A) (zs : List A) → Apart x y (a ∷ b ∷ zs) → Apart x y (b ∷ a ∷ zs)
  Apart-swap x y a b zs (inl (e, inl f)) = inr (inl (f, inl e))
  Apart-swap x y a b zs (inl (e, inr i)) = inr (inr (inl (e, i)))
  Apart-swap x y a b zs (inr (inl (e, inl f))) = inl (f, inl e)
  Apart-swap x y a b zs (inr (inl (e, inr i))) = inr (inr (inr (inl (e, i))))
  Apart-swap x y a b zs (inr (inr (inl (e, i)))) = inl (e, inr i)
  Apart-swap x y a b zs (inr (inr (inr (inl (e, i))))) = inr (inl (e, inr i))
  Apart-swap x y a b zs (inr (inr (inr (inr h)))) = inr (inr (inr (inr h)))

  -- what is apart behind `a` is so in a list that has the same elements and no fewer places
  Apart-rest :
      (x y a : A) (xs ys : List A)
      → ((z : A) → In z xs → In z ys)
      → (Apart x y xs → Apart x y ys)
      → Apart x y (a ∷ xs)
      → Apart x y (a ∷ ys)
  Apart-rest x y a xs ys into rest (inl (e, i)) = inl (e, into y i)
  Apart-rest x y a xs ys into rest (inr (inl (e, i))) = inr (inl (e, into x i))
  Apart-rest x y a xs ys into rest (inr (inr h)) = inr (inr (rest h))

  insert-Apart : (a x y : A) (xs : List A) → Apart x y (insert le a xs) → Apart x y (a ∷ xs)
  unfolding insert
  insert-Apart a x y [] h = h
  insert-Apart a x y (z ∷ zs) h = elim (Bool-cases (le a z)) [
    | inl t ↦ rw (t, insert) at h
    | inr f ↦ Apart-swap x y z a zs (
        Apart-rest x y z (insert le a zs) (a ∷ zs) (λ w. insert-In le a w zs)
          (insert-Apart a x y zs) (rw (f, insert) at h))
  ]

  pub sort-Apart : (x y : A) (xs : List A) → Apart x y (sort le xs) → Apart x y xs
  unfolding sort
  sort-Apart x y [] h = h
  sort-Apart x y (z ∷ zs) h =
      Apart-rest x y z (sort le zs) zs (λ w. sort-In le w zs) (sort-Apart x y zs)
        (insert-Apart z x y (sort le zs) h)

module _ {A : Type 0} (le : A → A → Bool) (order : IsOrder le) where
  LeAll-head : (a y : A) (ys : List A) → le a y ≡ true → LeAll le y ys → LeAll le a (y ∷ ys)
  LeAll-head a y ys t h x (inl e) = rw (← e) t
  LeAll-head a y ys t h x (inr m) = order.trans a y x t (h x m)

  LeAll-insert :
      (y a : A) (ys : List A) → le y a ≡ true → LeAll le y ys → LeAll le y (insert le a ys)
  LeAll-insert y a ys t h x m = elim (insert-In le a x ys m) [ inl e ↦ rw (← e) t | inr i ↦ h x i ]

  insert-IsSorted : (a : A) (xs : List A) → IsSorted le xs → IsSorted le (insert le a xs)
  unfolding insert
  insert-IsSorted a [] s = ((λ x m. absurd m), tt)
  insert-IsSorted a (y ∷ ys) (h, s) = elim (Bool-cases (le a y)) [
    | inl t ↦ rw (t, insert) (LeAll-head a y ys t h, (h, s))
    | inr f ↦ rw (f, insert) (LeAll-insert y a ys (order.total a y f) h, insert-IsSorted a ys s)
  ]

  pub sort-IsSorted : (xs : List A) → IsSorted le (sort le xs)
  unfolding sort
  sort-IsSorted [] = tt
  sort-IsSorted (x ∷ xs) = insert-IsSorted x (sort le xs) (sort-IsSorted xs)

module _ {A : Type 0} (le : A → A → Bool) where
  LeAll-keep : (p : A → Bool) (a : A) (xs : List A) → LeAll le a xs → LeAll le a (keep p xs)
  LeAll-keep p a xs h x m = h x (In-keep p x xs m).0

  pub keep-IsSorted : (p : A → Bool) (xs : List A) → IsSorted le xs → IsSorted le (keep p xs)
  keep-IsSorted p [] s = tt
  keep-IsSorted p (x ∷ xs) (h, s) = elim (Bool-cases (p x)) [
    | inl t ↦ rw t (LeAll-keep p x xs h, keep-IsSorted p xs s)
    | inr f ↦ rw f (keep-IsSorted p xs s)
  ]
