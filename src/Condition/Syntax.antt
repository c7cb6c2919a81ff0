-- ===== src/Condition/Syntax.antt =====
-- The grammar of the class's docstring, with each expression's tokens and value.
use syndicateclaw.Base.{Bool, Option, none, some, List, ◌∷◌, String}
use syndicateclaw.Json.{ℤ, Value, null, boolean, number, text, Items, end, item, Fields, get_value}
use syndicateclaw.Condition.Tokens.{
  kw_and, kw_or, kw_not, kw_in, Token, ident, int, string, bool, none_token, keyword, op, lparen,
  rparen, lbracket, rbracket, comma, Op, compare_op, member_of, either_value, both_values, negate,
}

mutual
  -- or_expr: an and_expr and those behind `or`
  pub data Or : Type 0 where
    ors : And → Ors → Or

  pub data Ors : Type 0 where
    no_or : Ors
    or_then : And → Ors → Ors

  pub data And : Type 0 where
    ands : Not → Ands → And

  pub data Ands : Type 0 where
    no_and : Ands
    and_then : Not → Ands → Ands

  pub data Not : Type 0 where
    negation : Not → Not
    plain : Compare → Not

  pub data Compare : Type 0 where
    alone : Primary → Compare
    compares : Primary → Op → Primary → Compare
    member : Primary → Elements → Compare

  pub data Primary : Type 0 where
    reference : String → Primary
    integer : ℤ → Primary
    quoted : String → Primary
    truth : Bool → Primary
    nothing : Primary
    group : Or → Primary

  pub data Elements : Type 0 where
    no_elements : Elements
    elements : Primary → More → Elements

  pub data More : Type 0 where
    no_more : More
    more : Primary → More → More

-- The tokens of an expression, before `rest`.
unfoldable mutual
  pub print_or : Or → List Token → List Token
  print_or (ors a t) rest = print_and a (print_ors t rest)

  pub print_ors : Ors → List Token → List Token
  print_ors no_or rest = rest
  print_ors (or_then a t) rest = keyword kw_or ∷ print_and a (print_ors t rest)

  pub print_and : And → List Token → List Token
  print_and (ands a t) rest = print_not a (print_ands t rest)

  pub print_ands : Ands → List Token → List Token
  print_ands no_and rest = rest
  print_ands (and_then a t) rest = keyword kw_and ∷ print_not a (print_ands t rest)

  pub print_not : Not → List Token → List Token
  print_not (negation e) rest = keyword kw_not ∷ print_not e rest
  print_not (plain c) rest = print_compare c rest

  pub print_compare : Compare → List Token → List Token
  print_compare (alone p) rest = print_primary p rest
  print_compare (compares p o q) rest = print_primary p (op o ∷ print_primary q rest)
  print_compare (member p es) rest =
      print_primary p (keyword kw_in ∷ lbracket ∷ print_elements es rest)

  pub print_primary : Primary → List Token → List Token
  print_primary (reference key) rest = ident key ∷ rest
  print_primary (integer z) rest = int z ∷ rest
  print_primary (quoted s) rest = string s ∷ rest
  print_primary (truth b) rest = bool b ∷ rest
  print_primary nothing rest = none_token ∷ rest
  print_primary (group e) rest = lparen ∷ print_or e (rparen ∷ rest)

  pub print_elements : Elements → List Token → List Token
  print_elements no_elements rest = rbracket ∷ rest
  print_elements (elements p m) rest = print_primary p (print_more m rest)

  pub print_more : More → List Token → List Token
  print_more no_more rest = rbracket ∷ rest
  print_more (more p m) rest = comma ∷ print_primary p (print_more m rest)

abbrev pub then_value : {A B : Type 0} → Option A → (A → Option B) → Option B
then_value none k = none
then_value (some a) k = k a

-- The value of an expression; `none` is a TypeError. Every part is evaluated.
module _ (state : Fields) where
  unfoldable mutual
    pub or_value : Or → Option Value
    or_value (ors a t) = then_value (and_value a) (λ v. ors_value v t)

    pub ors_value : Value → Ors → Option Value
    ors_value v no_or = some v
    ors_value v (or_then a t) = then_value (and_value a) (λ w. ors_value (either_value v w) t)

    pub and_value : And → Option Value
    and_value (ands a t) = then_value (not_value a) (λ v. ands_value v t)

    pub ands_value : Value → Ands → Option Value
    ands_value v no_and = some v
    ands_value v (and_then a t) = then_value (not_value a) (λ w. ands_value (both_values v w) t)

    pub not_value : Not → Option Value
    not_value (negation e) = then_value (not_value e) (λ v. some (negate v))
    not_value (plain c) = compare_value c

    pub compare_value : Compare → Option Value
    compare_value (alone p) = primary_value p
    compare_value (compares p o q) =
        then_value (primary_value p) (λ v. then_value (primary_value q) (λ w. compare_op o v w))
    compare_value (member p es) =
        then_value (primary_value p) (λ v. then_value (elements_value es) (λ vs. member_of v vs))

    pub primary_value : Primary → Option Value
    primary_value (reference key) = some (get_value key state)
    primary_value (integer z) = some (number z)
    primary_value (quoted s) = some (text s)
    primary_value (truth b) = some (boolean b)
    primary_value nothing = some null
    primary_value (group e) = or_value e

    pub elements_value : Elements → Option Items
    elements_value no_elements = some end
    elements_value (elements p m) =
        then_value (primary_value p) (λ v. then_value (more_value m) (λ vs. some (item v vs)))

    pub more_value : More → Option Items
    more_value no_more = some end
    more_value (more p m) =
        then_value (primary_value p) (λ v. then_value (more_value m) (λ vs. some (item v vs)))
