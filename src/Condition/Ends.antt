-- ===== src/Condition/Ends.antt =====
-- The parser always ends.
use syndicateclaw.Base.{
  ℕ, zero, suc, ◌+◌, ◌*◌, ◌≤◌, ◌<◌, Option, none, some, List, [], ◌∷◌, length, arith,
}
use syndicateclaw.Json.{Value, Fields, item}
use syndicateclaw.Condition.Tokens.{
  kw_and, kw_or, kw_not, kw_in, Token, ident, int, string, bool, none_token, keyword, op, lparen,
  rparen, lbracket, rbracket, comma, compare_op, member_of, either_value, both_values,
}
use syndicateclaw.Condition.Parser.{
  Parsed, parsed, malformed, type_error, out_of_fuel, bind, outcome, close, or_expr, or_loop,
  and_expr, and_loop, not_expr, compare, compare_rest, primary, list_expr, more_items, parse,
  finish_parse,
}

-- It ends, and if with a value, then with less than `n` tokens behind it.
abbrev pub Ends : {A : Type 0} → ℕ → Parsed A → Type 0
Ends n (parsed a rest) = length rest < n
Ends n malformed = Unit {0}
Ends n type_error = Unit {0}
Ends n out_of_fuel = ⊥

bind-Ends :
    {A B : Type 0} (m n : ℕ) (p : Parsed A) (k : A → List Token → Parsed B)
    → Ends m p
    → ((a : A) (rest : List Token) → length rest < m → Ends n (k a rest))
    → Ends n (bind p k)
bind-Ends m n (parsed a rest) k e f = f a rest e
bind-Ends m n malformed k e f = _
bind-Ends m n type_error k e f = _
bind-Ends m n out_of_fuel k e f = e

outcome-Ends :
    {A : Type 0} (n : ℕ) (o : Option A) (rest : List Token)
    → length rest < n
    → Ends n (outcome o rest)
outcome-Ends n none rest h = _
outcome-Ends n (some a) rest h = h

close-Ends : (n : ℕ) (v : Value) (rest : List Token) → length rest ≤ n → Ends n (close v rest)
close-Ends n v [] h = _
close-Ends n v (rparen ∷ ts) h = omega arith
close-Ends n v (_ ∷ ts) h = _

Ends-weaken : {A : Type 0} (m n : ℕ) (p : Parsed A) → m ≤ n → Ends m p → Ends n p
Ends-weaken m n (parsed a rest) h e = omega arith
Ends-weaken m n malformed h e = _
Ends-weaken m n type_error h e = _
Ends-weaken m n out_of_fuel h e = e

module _ (state : Fields) where
  -- an element and what follows it
  listed_items-Ends :
      (n m : ℕ) (ts : List Token)
      → Ends m (primary state n ts)
      → ((rest : List Token) → length rest < m → Ends (length rest) (more_items state n rest))
      → Ends m (
          bind
            (primary state n ts)
            (λ v rest. bind (more_items state n rest) (λ vs after. parsed (item v vs) after)))
  listed_items-Ends n m ts first more =
      bind-Ends _ _ (primary state n ts) _ first λ v rest e.
        bind-Ends _ _ (more_items state n rest) _ (more rest e) λ vs after f. omega arith

  finish_parse-Ends : (v : Value) (rest : List Token) → Ends 1 (finish_parse v rest)
  finish_parse-Ends v [] = omega arith
  finish_parse-Ends v (t ∷ ts) = _

  mutual
    unfolding or_expr

    pub or_expr-Ends :
        (n : ℕ) (ts : List Token) → 8 * length ts + 6 < n → Ends (length ts) (or_expr state n ts)
    or_expr-Ends zero ts h = absurd (omega arith)
    or_expr-Ends (suc n) ts h =
        bind-Ends _ _ (and_expr state n ts) _ (and_expr-Ends n ts (omega arith)) λ v rest e.
          Ends-weaken _ _ (or_loop state n v rest) (omega arith)
            (or_loop-Ends n v rest (omega arith))

    or_loop-Ends :
        (n : ℕ) (left : Value) (ts : List Token)
        → 8 * length ts + 7 < n
        → Ends (suc (length ts)) (or_loop state n left ts)
    or_loop-Ends zero left ts h = absurd (omega arith)
    or_loop-Ends (suc n) left (keyword kw_or ∷ ts) h =
        bind-Ends _ _ (and_expr state n ts) _ (and_expr-Ends n ts (omega arith)) λ v rest e.
          Ends-weaken _ _ (or_loop state n (either_value left v) rest) (omega arith)
            (or_loop-Ends n (either_value left v) rest (omega arith))
    or_loop-Ends (suc n) left [] h = omega arith
    or_loop-Ends (suc n) left (_ ∷ ts) h = omega arith

    and_expr-Ends :
        (n : ℕ) (ts : List Token) → 8 * length ts + 5 < n → Ends (length ts) (and_expr state n ts)
    and_expr-Ends zero ts h = absurd (omega arith)
    and_expr-Ends (suc n) ts h =
        bind-Ends _ _ (not_expr state n ts) _ (not_expr-Ends n ts (omega arith)) λ v rest e.
          Ends-weaken _ _ (and_loop state n v rest) (omega arith)
            (and_loop-Ends n v rest (omega arith))

    and_loop-Ends :
        (n : ℕ) (left : Value) (ts : List Token)
        → 8 * length ts + 7 < n
        → Ends (suc (length ts)) (and_loop state n left ts)
    and_loop-Ends zero left ts h = absurd (omega arith)
    and_loop-Ends (suc n) left (keyword kw_and ∷ ts) h =
        bind-Ends _ _ (not_expr state n ts) _ (not_expr-Ends n ts (omega arith)) λ v rest e.
          Ends-weaken _ _ (and_loop state n (both_values left v) rest) (omega arith)
            (and_loop-Ends n (both_values left v) rest (omega arith))
    and_loop-Ends (suc n) left [] h = omega arith
    and_loop-Ends (suc n) left (_ ∷ ts) h = omega arith

    not_expr-Ends :
        (n : ℕ) (ts : List Token) → 8 * length ts + 4 < n → Ends (length ts) (not_expr state n ts)
    not_expr-Ends zero ts h = absurd (omega arith)
    not_expr-Ends (suc n) (keyword kw_not ∷ ts) h =
        bind-Ends _ _ (not_expr state n ts) _ (not_expr-Ends n ts (omega arith))
          λ v rest e. omega arith
    not_expr-Ends (suc n) [] h = compare-Ends n [] (omega arith)
    not_expr-Ends (suc n) (t ∷ ts) h = compare-Ends n (t ∷ ts) (omega arith)

    compare-Ends :
        (n : ℕ) (ts : List Token) → 8 * length ts + 3 < n → Ends (length ts) (compare state n ts)
    compare-Ends zero ts h = absurd (omega arith)
    compare-Ends (suc n) ts h =
        bind-Ends _ _ (primary state n ts) _ (primary-Ends n ts (omega arith)) λ v rest e.
          Ends-weaken _ _ (compare_rest state n v rest) (omega arith)
            (compare_rest-Ends n v rest (omega arith))

    compare_rest-Ends :
        (n : ℕ) (left : Value) (ts : List Token)
        → 8 * length ts + 7 < n
        → Ends (suc (length ts)) (compare_rest state n left ts)
    compare_rest-Ends zero left ts h = absurd (omega arith)
    compare_rest-Ends (suc n) left (op o ∷ ts) h =
        bind-Ends _ _ (primary state n ts) _ (primary-Ends n ts (omega arith))
          λ v rest e. outcome-Ends _ (compare_op o left v) rest (omega arith)
    compare_rest-Ends (suc n) left (keyword kw_in ∷ ts) h =
        bind-Ends _ _ (list_expr state n ts) _ (list_expr-Ends n ts (omega arith))
          λ vs rest e. outcome-Ends _ (member_of left vs) rest (omega arith)
    compare_rest-Ends (suc n) left [] h = omega arith
    compare_rest-Ends (suc n) left (_ ∷ ts) h = omega arith

    primary-Ends :
        (n : ℕ) (ts : List Token) → 8 * length ts + 2 < n → Ends (length ts) (primary state n ts)
    primary-Ends zero ts h = absurd (omega arith)
    primary-Ends (suc n) [] h = _
    primary-Ends (suc n) (ident key ∷ ts) h = omega arith
    primary-Ends (suc n) (int z ∷ ts) h = omega arith
    primary-Ends (suc n) (string s ∷ ts) h = omega arith
    primary-Ends (suc n) (bool b ∷ ts) h = omega arith
    primary-Ends (suc n) (none_token ∷ ts) h = omega arith
    primary-Ends (suc n) (lparen ∷ ts) h =
        bind-Ends _ _ (or_expr state n ts) _ (or_expr-Ends n ts (omega arith))
          λ v rest e. close-Ends _ v rest (omega arith)
    primary-Ends (suc n) (_ ∷ ts) h = _

    list_expr-Ends :
        (n : ℕ) (ts : List Token) → 8 * length ts + 7 < n → Ends (length ts) (list_expr state n ts)
    list_expr-Ends zero ts h = absurd (omega arith)
    list_expr-Ends (suc n) (lbracket ∷ rbracket ∷ ts) h = omega arith
    list_expr-Ends (suc n) (lbracket ∷ []) h =
        listed_items-Ends n 1 [] (Ends-weaken _ _ _ (omega arith) (primary-Ends n [] (omega arith)))
          (λ rest e. more_items-Ends n rest (omega arith))
    list_expr-Ends (suc n) (lbracket ∷ t ∷ ts) h =
        listed_items-Ends n _ (t ∷ ts)
          (Ends-weaken _ _ _ (omega arith) (primary-Ends n (t ∷ ts) (omega arith)))
          (λ rest e. more_items-Ends n rest (omega arith))
    list_expr-Ends (suc n) _ h = _

    more_items-Ends :
        (n : ℕ) (ts : List Token) → 8 * length ts + 7 < n → Ends (length ts) (more_items state n ts)
    more_items-Ends zero ts h = absurd (omega arith)
    more_items-Ends (suc n) (comma ∷ ts) h =
        listed_items-Ends n _ ts (Ends-weaken _ _ _ (omega arith) (primary-Ends n ts (omega arith)))
          (λ rest e. more_items-Ends n rest (omega arith))
    more_items-Ends (suc n) (rbracket ∷ ts) h = omega arith
    more_items-Ends (suc n) _ h = _

  -- Whatever the tokens are, the parser ends: with a value and no token left, ValueError or TypeError.
  pub parse-Ends : (ts : List Token) → Ends 1 (parse state ts)
  unfolding parse
  parse-Ends ts =
      bind-Ends _ _ (or_expr state (8 * length ts + 9) ts) _
        (or_expr-Ends (8 * length ts + 9) ts (omega arith)) λ v rest e. finish_parse-Ends v rest
