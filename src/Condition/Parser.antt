-- ===== src/Condition/Parser.antt =====
-- The methods of `_ConditionParser` from `parse` to `_list`, on the tokens that are left. They
-- evaluate as they read. Each call costs a unit of fuel: 8 for each token are enough.
use syndicateclaw.Base.{ℕ, zero, suc, ◌+◌, ◌*◌, Bool, Option, none, some, List, [], ◌∷◌, length}
use syndicateclaw.Json.{
  Value, null, boolean, number, text, Items, end, item, Fields, truthy, get_value,
}
use syndicateclaw.Condition.Tokens.{
  kw_and, kw_or, kw_not, kw_in, Token, ident, int, string, bool, none_token, keyword, op, lparen,
  rparen, lbracket, rbracket, comma, compare_op, member_of, either_value, both_values, negate,
}

-- ValueError, TypeError, or a value and the tokens behind it.
pub data Parsed (A : Type 0) : Type 0 where
  parsed : A → List Token → Parsed A
  malformed : Parsed A
  type_error : Parsed A
  out_of_fuel : Parsed A

abbrev pub bind : {A B : Type 0} → Parsed A → (A → List Token → Parsed B) → Parsed B
bind (parsed a rest) k = k a rest
bind malformed k = malformed
bind type_error k = type_error
bind out_of_fuel k = out_of_fuel

-- A value that may be a TypeError.
abbrev pub outcome : {A : Type 0} → Option A → List Token → Parsed A
outcome none rest = type_error
outcome (some a) rest = parsed a rest

-- `self._expect("rparen")`
abbrev pub close : Value → List Token → Parsed Value
close v (rparen ∷ ts) = parsed v ts
close v ts = malformed

-- the end of `parse`
abbrev pub finish_parse : Value → List Token → Parsed Bool
finish_parse v [] = parsed (truthy v) []
finish_parse v (t ∷ ts) = malformed

module _ (state : Fields) where
  unfoldable mutual
    pub or_expr : ℕ → List Token → Parsed Value
    or_expr zero ts = out_of_fuel
    or_expr (suc n) ts = bind (and_expr n ts) (λ left rest. or_loop n left rest)

    pub or_loop : ℕ → Value → List Token → Parsed Value
    or_loop zero left ts = out_of_fuel
    or_loop (suc n) left (keyword kw_or ∷ ts) =
        bind (and_expr n ts) (λ right rest. or_loop n (either_value left right) rest)
    or_loop (suc n) left ts = parsed left ts

    pub and_expr : ℕ → List Token → Parsed Value
    and_expr zero ts = out_of_fuel
    and_expr (suc n) ts = bind (not_expr n ts) (λ left rest. and_loop n left rest)

    pub and_loop : ℕ → Value → List Token → Parsed Value
    and_loop zero left ts = out_of_fuel
    and_loop (suc n) left (keyword kw_and ∷ ts) =
        bind (not_expr n ts) (λ right rest. and_loop n (both_values left right) rest)
    and_loop (suc n) left ts = parsed left ts

    pub not_expr : ℕ → List Token → Parsed Value
    not_expr zero ts = out_of_fuel
    not_expr (suc n) (keyword kw_not ∷ ts) = bind (not_expr n ts) (λ v rest. parsed (negate v) rest)
    not_expr (suc n) ts = compare n ts

    pub compare : ℕ → List Token → Parsed Value
    compare zero ts = out_of_fuel
    compare (suc n) ts = bind (primary n ts) (λ left rest. compare_rest n left rest)

    pub compare_rest : ℕ → Value → List Token → Parsed Value
    compare_rest zero left ts = out_of_fuel
    compare_rest (suc n) left (op o ∷ ts) =
        bind (primary n ts) (λ right rest. outcome (compare_op o left right) rest)
    compare_rest (suc n) left (keyword kw_in ∷ ts) =
        bind (list_expr n ts) (λ right rest. outcome (member_of left right) rest)
    compare_rest (suc n) left ts = parsed left ts

    pub primary : ℕ → List Token → Parsed Value
    primary zero ts = out_of_fuel
    primary (suc n) (ident key ∷ ts) = parsed (get_value key state) ts
    primary (suc n) (int z ∷ ts) = parsed (number z) ts
    primary (suc n) (string s ∷ ts) = parsed (text s) ts
    primary (suc n) (bool b ∷ ts) = parsed (boolean b) ts
    primary (suc n) (none_token ∷ ts) = parsed null ts
    primary (suc n) (lparen ∷ ts) = bind (or_expr n ts) (λ v rest. close v rest)
    primary (suc n) ts = malformed

    pub list_expr : ℕ → List Token → Parsed Items
    list_expr zero ts = out_of_fuel
    list_expr (suc n) (lbracket ∷ rbracket ∷ ts) = parsed end ts
    list_expr (suc n) (lbracket ∷ ts) =
        bind (primary n ts)
          (λ v rest. bind (more_items n rest) (λ vs after. parsed (item v vs) after))
    list_expr (suc n) ts = malformed

    pub more_items : ℕ → List Token → Parsed Items
    more_items zero ts = out_of_fuel
    more_items (suc n) (comma ∷ ts) =
        bind (primary n ts)
          (λ v rest. bind (more_items n rest) (λ vs after. parsed (item v vs) after))
    more_items (suc n) (rbracket ∷ ts) = parsed end ts
    more_items (suc n) ts = malformed

  unfoldable pub parse : List Token → Parsed Bool
  unfolding or_expr
  parse ts = bind (or_expr (8 * length ts + 9) ts) finish_parse
