-- ===== src/Base/Equality.antt =====
-- Python's `==` on the types whose values the program compares, and `in` on a list.
use Prim.Native.Nat.{ℕ}
use Prim.Native.String.{String}
use mathlib.Core.Path.{◌≡◌}
use mathlib.Core.Logic.{◌↔◌}
use mathlib.Core.Bool.{Bool, true, false, ◌||◌}
use mathlib.Core.List.{List, [], ◌∷◌}
use native.Mathlib.Omega.{arith}
use text.Mathlib.Text.{◌==◌ as str_eq}
use text.Mathlib.TextEquality.{eq_iff}
use syndicateclaw.Base.Tests.{nat_beq}

-- A test that decides equality.
pub record HasEq {ℓ} (T : Type ℓ) : Type ℓ where
  pub eqb : T → T → Bool
  pub eqb_iff : (x y : T) → (eqb x y ≡ true) ↔ (x ≡ y)

instance abbrev pub string_eq : HasEq String
string_eq = record { eqb_iff = eq_iff; eqb = str_eq }

pub nat_beq_iff : (m n : ℕ) → (nat_beq m n ≡ true) ↔ (m ≡ n)
nat_beq_iff m n = ground arith

instance abbrev pub nat_eq : HasEq ℕ
nat_eq = record { eqb_iff = nat_beq_iff; eqb = nat_beq }

module _ {ℓ} {T : Type ℓ} ⦃q : HasEq T⦄ where
  infix 50 ◌==◌
  abbrev pub ◌==◌ : T → T → Bool
  x == y = q.eqb x y

  -- `t in ts`
  abbrev pub contains : List T → T → Bool
  contains [] t = false
  contains (u ∷ us) t = u == t || contains us t
