-- ===== src/Json.antt =====
-- The JSON values that conditions and contexts hold, with what Python's `==`, `<` and `in` do on
-- them. Numbers are integers; `none` stands for a TypeError.
use syndicateclaw.Base.{◌≡◌, arith}
use syndicateclaw.Base.{
  ℕ, zero, suc, String, Bool, true, false, not, ◌&&◌, ◌||◌, Option, none, some, ◌==◌, string_eq,
  nat_eq, nat_beq, leb, if◌then◌else◌,
}
use syndicateclaw.Text.{str_leb, substring}

pub data ℤ : Type 0 where
  pos : ℕ → ℤ
  negsuc : ℕ → ℤ

abbrev pub int_leb : ℤ → ℤ → Bool
int_leb (pos m) (pos n) = leb m n
int_leb (pos m) (negsuc n) = false
int_leb (negsuc m) (pos n) = true
int_leb (negsuc m) (negsuc n) = leb n m

pub int_leb_total : (a b : ℤ) → int_leb a b ≡ false → int_leb b a ≡ true
int_leb_total a b h = ground arith

pub int_leb_trans : (a b c : ℤ) → int_leb a b ≡ true → int_leb b c ≡ true → int_leb a c ≡ true
int_leb_trans a b c h k = ground arith

pub int_leb_refl : (a : ℤ) → int_leb a a ≡ true
int_leb_refl a = ground arith

mutual
  pub data Value : Type 0 where
    null : Value
    boolean : Bool → Value
    number : ℤ → Value
    text : String → Value
    list : Items → Value
    dict : Fields → Value

  pub data Items : Type 0 where
    end : Items
    item : Value → Items → Items

  pub data Fields : Type 0 where
    empty : Fields
    field : String → Value → Fields → Fields

-- `d.get(key)`, with the missing key told apart
abbrev pub find_field : String → Fields → Option Value
find_field k empty = none
find_field k (field j v fs) = if j == k then some v else find_field k fs

abbrev size : Fields → ℕ
size empty = zero
size (field k v fs) = suc (size fs)

abbrev of_bool : Bool → ℤ
of_bool true = pos 1
of_bool false = pos 0

abbrev int_eq : ℤ → ℤ → Bool
int_eq a b = int_leb a b && int_leb b a

-- a dict equals another if it has as many fields and each of them is there
abbrev mutual
  pub value_eq : Value → Value → Bool
  value_eq null null = true
  value_eq (boolean a) (boolean b) = int_eq (of_bool a) (of_bool b)
  value_eq (boolean a) (number n) = int_eq (of_bool a) n
  value_eq (number m) (boolean b) = int_eq m (of_bool b)
  value_eq (number m) (number n) = int_eq m n
  value_eq (text s) (text t) = s == t
  value_eq (list xs) (list ys) = items_eq xs ys
  value_eq (dict fs) (dict gs) = nat_beq (size fs) (size gs) && fields_held fs gs
  value_eq _ _ = false

  pub items_eq : Items → Items → Bool
  items_eq end end = true
  items_eq (item x xs) (item y ys) = value_eq x y && items_eq xs ys
  items_eq _ _ = false

  pub fields_held : Fields → Fields → Bool
  fields_held empty gs = true
  fields_held (field k v fs) gs =
      elim (find_field k gs) [ none ↦ false | some w ↦ value_eq v w ] && fields_held fs gs

-- `a < b`
abbrev mutual
  pub less : Value → Value → Option Bool
  less (boolean a) (boolean b) = some (not (int_leb (of_bool b) (of_bool a)))
  less (boolean a) (number n) = some (not (int_leb n (of_bool a)))
  less (number m) (boolean b) = some (not (int_leb (of_bool b) m))
  less (number m) (number n) = some (not (int_leb n m))
  less (text s) (text t) = some (not (str_leb t s))
  less (list xs) (list ys) = items_less xs ys
  less _ _ = none

  pub items_less : Items → Items → Option Bool
  items_less end end = some false
  items_less end (item y ys) = some true
  items_less (item x xs) end = some false
  items_less (item x xs) (item y ys) =
      let here = less x y in let behind = items_less xs ys in if value_eq x y then behind else here

-- `a <= b`
abbrev pub at_most : Value → Value → Option Bool
at_most a b = elim (less a b) [ none ↦ none | some l ↦ some (l || value_eq a b) ]

abbrev is_item : Value → Items → Bool
is_item v end = false
is_item v (item x xs) = value_eq v x || is_item v xs

abbrev has_key : String → Fields → Bool
has_key k fs = elim (find_field k fs) [ none ↦ false | some v ↦ true ]

-- `a in b`
abbrev pub is_in : Value → Value → Option Bool
is_in v (list xs) = some (is_item v xs)
is_in (text s) (text t) = some (substring s t)
is_in (text s) (dict fs) = some (has_key s fs)
is_in (list xs) (dict fs) = none
is_in (dict gs) (dict fs) = none
is_in v (dict fs) = some false
is_in _ _ = none

-- `d[k] = v`
abbrev pub put_field : String → Value → Fields → Fields
put_field k v empty = field k v empty
put_field k v (field j w fs) = if j == k then field j v fs else field j w (put_field k v fs)

-- `d.update(e)`
abbrev pub update : Fields → Fields → Fields
update fs empty = fs
update fs (field k v gs) = update (put_field k v fs) gs

-- `d.pop(k, None)`
abbrev pub remove_field : String → Fields → Fields
remove_field k empty = empty
remove_field k (field j v fs) = if j == k then fs else field j v (remove_field k fs)

-- `bool(v)`
abbrev pub truthy : Value → Bool
truthy null = false
truthy (boolean b) = b
truthy (number (pos n)) = not (nat_beq n 0)
truthy (number (negsuc n)) = true
truthy (text s) = not (s == "")
truthy (list end) = false
truthy (list (item v vs)) = true
truthy (dict empty) = false
truthy (dict (field k v fs)) = true

-- `d.get(key)`
abbrev pub get_value : String → Fields → Value
get_value k fs = elim (find_field k fs) [ none ↦ null | some v ↦ v ]
