-- ===== src/Text.antt =====
-- What the program uses of Python's strings: their order by code points, `in`, `split`, `startswith`
-- and `+`.
use Prim.Native.Char.{code}
use Prim.Native.Char.{Char}
use mathlib.Core.Path.{ap, ap₂}
use text.Mathlib.TextEquality.{codes_equal}
use text.Mathlib.TextPositions.{compare_self}
use syndicateclaw.Base.{
  ℕ, String, ◌+◌, ◌<◌, ◌≡◌, ◌≢◌, length, refl, Bool, true, false, List, [], ◌∷◌, ltb, nat_beq,
  arith, if◌then◌else◌, ◌&&◌, ◌||◌,
}
use syndicateclaw.Order.{IsOrder}

abbrev codes : String → List ℕ
codes String.[] = []
codes (String.◌∷◌ c s) = code c ∷ codes s

abbrev lex_leb : List ℕ → List ℕ → Bool
lex_leb [] ys = true
lex_leb (x ∷ xs) [] = false
lex_leb (x ∷ xs) (y ∷ ys) = ltb x y || (nat_beq x y && lex_leb xs ys)

lex_leb_total : (xs ys : List ℕ) → lex_leb xs ys ≡ false → lex_leb ys xs ≡ true
lex_leb_total [] ys h = ground arith
lex_leb_total (x ∷ xs) [] h = refl
lex_leb_total (x ∷ xs) (y ∷ ys) h = ground (arith, lex_leb_total xs ys)

lex_leb_trans :
    (xs ys zs : List ℕ) → lex_leb xs ys ≡ true → lex_leb ys zs ≡ true → lex_leb xs zs ≡ true
lex_leb_trans [] ys zs h k = refl
lex_leb_trans (x ∷ xs) [] zs h k = ground arith
lex_leb_trans (x ∷ xs) (y ∷ ys) [] h k = ground arith
lex_leb_trans (x ∷ xs) (y ∷ ys) (z ∷ zs) h k = ground (arith, lex_leb_trans xs ys zs)

unfoldable pub str_leb : String → String → Bool
str_leb s t = lex_leb (codes s) (codes t)

pub str_leb-IsOrder : IsOrder str_leb
unfolding str_leb
str_leb-IsOrder = record {
  total = λ s t. lex_leb_total (codes s) (codes t);
  trans = λ s t u. lex_leb_trans (codes s) (codes t) (codes u);
}

lex_leb_antisym : (xs ys : List ℕ) → lex_leb xs ys ≡ true → lex_leb ys xs ≡ true → xs ≡ ys
lex_leb_antisym [] [] h k = refl
lex_leb_antisym [] (y ∷ ys) h k = ground arith
lex_leb_antisym (x ∷ xs) [] h k = ground arith
lex_leb_antisym (x ∷ xs) (y ∷ ys) h k = ground (arith, lex_leb_antisym xs ys)

head_or : ℕ → List ℕ → ℕ
head_or d [] = d
head_or d (x ∷ xs) = x

rest_of : List ℕ → List ℕ
rest_of [] = []
rest_of (x ∷ xs) = xs

code-injective : (c d : Char) → code c ≡ code d → c ≡ d
code-injective c d e = codes_equal c d (rw e (compare_self (code d)))

codes-injective : (s t : String) → codes s ≡ codes t → s ≡ t
unfolding head_or rest_of
codes-injective String.[] String.[] h = refl
codes-injective String.[] (String.◌∷◌ d t) h = ground arith
codes-injective (String.◌∷◌ c s) String.[] h = ground arith
codes-injective (String.◌∷◌ c s) (String.◌∷◌ d t) h =
    ap₂ String.◌∷◌ (code-injective c d (ap (head_or 0) h)) (codes-injective s t (ap rest_of h))

pub str_leb_antisym : (s t : String) → str_leb s t ≡ true → str_leb t s ≡ true → s ≡ t
unfolding str_leb
str_leb_antisym s t h k = codes-injective s t (lex_leb_antisym (codes s) (codes t) h k)

abbrev starts_with : List ℕ → List ℕ → Bool
starts_with [] ys = true
starts_with (x ∷ xs) [] = false
starts_with (x ∷ xs) (y ∷ ys) = nat_beq x y && starts_with xs ys

abbrev within : List ℕ → List ℕ → Bool
within xs [] = starts_with xs []
within xs (y ∷ ys) = starts_with xs (y ∷ ys) || within xs ys

-- `s in t`
abbrev pub substring : String → String → Bool
substring s t = within (codes s) (codes t)

-- `s.startswith(t)`
abbrev pub has_prefix : String → String → Bool
has_prefix s t = starts_with (codes t) (codes s)

-- `s + t`
abbrev pub concat : String → String → String
concat String.[] t = t
concat (String.◌∷◌ c s) t = String.◌∷◌ c (concat s t)

abbrev put : Char → List String → List String
put c [] = String.◌∷◌ c "" ∷ []
put c (w ∷ ws) = String.◌∷◌ c w ∷ ws

-- `s.split(".")`
abbrev pub split_dots : String → List String
split_dots String.[] = "" ∷ []
split_dots (String.◌∷◌ c s) =
    let rest = split_dots s in if nat_beq (code c) 46 then "" ∷ rest else put c rest

abbrev pub size : String → ℕ
size s = length (codes s)

size-concat : (s t : String) → size (concat s t) ≡ size s + size t
size-concat String.[] t = omega arith
size-concat (String.◌∷◌ c s) t = omega (arith, size-concat s t)

rest_of_text : String → String
rest_of_text String.[] = ""
rest_of_text (String.◌∷◌ c s) = s

pub concat_cancel : (p s t : String) → concat p s ≡ concat p t → s ≡ t
unfolding rest_of_text
concat_cancel String.[] s t e = e
concat_cancel (String.◌∷◌ c p) s t e = concat_cancel p s t (ap rest_of_text e)

-- A prefix that is longer gives another string.
pub concat_apart : (p q t : String) → size p < size q → concat p t ≢ concat q t
concat_apart p q t h e = omega (arith, ap size e, size-concat p t, size-concat q t)
