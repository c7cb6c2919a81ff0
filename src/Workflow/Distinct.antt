-- ===== src/Workflow/Distinct.antt =====
-- Lists of names without repetition.
use syndicateclaw.Base.{Bool-cases, eq_iff}
use syndicateclaw.Base.{
  String, ◌≡◌, refl, false, List, [], ◌∷◌, ◌++◌, ◌==◌, string_eq, contains, arith, inl, inr,
  eq_refl,
}

abbrev pub Distinct : List String → Type 0
Distinct [] = Unit
Distinct (x ∷ xs) = (contains xs x ≡ false) × Distinct xs

contains-append :
    (xs : List String) (x y : String)
    → contains xs x ≡ false
    → (y == x) ≡ false
    → contains (xs ++ y ∷ []) x ≡ false
contains-append [] x y h e = ground arith
contains-append (z ∷ zs) x y h e = ground (arith, contains-append zs x y)

str_beq_sym : (x y : String) → (x == y) ≡ false → (y == x) ≡ false
str_beq_sym x y h = elim (Bool-cases (y == x)) [
  | inr f ↦ f
  | inl t ↦ let e : y ≡ x = (eq_iff y x).0 t in ground (arith, e, eq_refl x)
]

pub append-Distinct :
    (xs : List String) (y : String) → contains xs y ≡ false → Distinct xs → Distinct (xs ++ y ∷ [])
append-Distinct [] y h d = (refl, tt)
append-Distinct (x ∷ xs) y h (n, d) =
    let apart : (x == y) ≡ false = ground arith in
    (contains-append xs x y n (str_beq_sym x y apart), append-Distinct xs y (ground arith) d)
