-- ===== src/Condition/Tokens.antt =====
-- The tokens of a condition, and what the operators do on the values. A `string` token has its text
-- without the quotes, an `ident` its key without `state.`; numbers are integers.
use syndicateclaw.Base.{Bool, not, Option, none, some, String, if◌then◌else◌}
use syndicateclaw.Json.{ℤ, Value, boolean, list, Items, truthy, value_eq, less, at_most, is_in}

pub data Op : Type 0 where
  eq ne gt ge lt le : Op

pub data Keyword : Type 0 where
  kw_and kw_or kw_not kw_in : Keyword

pub data Token : Type 0 where
  ident : String → Token
  int : ℤ → Token
  string : String → Token
  bool : Bool → Token
  none_token : Token
  keyword : Keyword → Token
  op : Op → Token
  lparen rparen lbracket rbracket comma : Token

-- `_COMPARE_OPS`; `none` is a TypeError
unfoldable pub compare_op : Op → Value → Value → Option Value
compare_op eq a b = some (boolean (value_eq a b))
compare_op ne a b = some (boolean (not (value_eq a b)))
compare_op gt a b = elim (less b a) [ none ↦ none | some r ↦ some (boolean r) ]
compare_op ge a b = elim (at_most b a) [ none ↦ none | some r ↦ some (boolean r) ]
compare_op lt a b = elim (less a b) [ none ↦ none | some r ↦ some (boolean r) ]
compare_op le a b = elim (at_most a b) [ none ↦ none | some r ↦ some (boolean r) ]

-- `left in right`
unfoldable pub member_of : Value → Items → Option Value
member_of v vs = elim (is_in v (list vs)) [ none ↦ none | some r ↦ some (boolean r) ]

-- `a or b`, `a and b` and `not a`
abbrev pub either_value : Value → Value → Value
either_value a b = if truthy a then a else b

abbrev pub both_values : Value → Value → Value
both_values a b = if truthy a then b else a

abbrev pub negate : Value → Value
negate a = boolean (not (truthy a))
