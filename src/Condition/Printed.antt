-- ===== src/Condition/Printed.antt =====
-- The lengths of printed expressions, and what may follow an expression.
use syndicateclaw.Base.{ℕ, suc, ◌≤◌, ◌<◌, ◌≡◌, refl, List, [], ◌∷◌, length, arith}
use syndicateclaw.Json.{Value, item, Fields}
use syndicateclaw.Condition.Tokens.{kw_and, kw_or, kw_in, Token, keyword, op, rparen, lbracket}
use syndicateclaw.Condition.Parser.{
  parsed, bind, or_loop, and_loop, not_expr, compare, compare_rest, primary, list_expr, more_items,
}
use syndicateclaw.Condition.Syntax.{
  Or, ors, Ors, no_or, or_then, And, ands, Ands, no_and, and_then, Not, negation, plain, Compare,
  alone, compares, member, Primary, reference, group, Elements, no_elements, elements, More,
  no_more, more, print_or, print_ors, print_and, print_ands, print_not, print_compare,
  print_primary, print_elements, print_more,
}

mutual
  unfolding print_or

  print_or-longer : (e : Or) (rest : List Token) → length rest < length (print_or e rest)
  print_or-longer (ors a t) rest =
      omega (arith, print_and-longer a (print_ors t rest), print_ors-longer t rest)

  pub print_ors-longer : (t : Ors) (rest : List Token) → length rest ≤ length (print_ors t rest)
  print_ors-longer no_or rest = omega arith
  print_ors-longer (or_then a t) rest =
      omega (arith, print_and-longer a (print_ors t rest), print_ors-longer t rest)

  pub print_and-longer : (e : And) (rest : List Token) → length rest < length (print_and e rest)
  print_and-longer (ands a t) rest =
      omega (arith, print_not-longer a (print_ands t rest), print_ands-longer t rest)

  pub print_ands-longer : (t : Ands) (rest : List Token) → length rest ≤ length (print_ands t rest)
  print_ands-longer no_and rest = omega arith
  print_ands-longer (and_then a t) rest =
      omega (arith, print_not-longer a (print_ands t rest), print_ands-longer t rest)

  pub print_not-longer : (e : Not) (rest : List Token) → length rest < length (print_not e rest)
  print_not-longer (negation e) rest = omega (arith, print_not-longer e rest)
  print_not-longer (plain c) rest = print_compare-longer c rest

  print_compare-longer :
      (e : Compare) (rest : List Token) → length rest < length (print_compare e rest)
  print_compare-longer (alone p) rest = print_primary-longer p rest
  print_compare-longer (compares p o q) rest =
      omega
        (arith, print_primary-longer p (op o ∷ print_primary q rest), print_primary-longer q rest)
  print_compare-longer (member p es) rest = omega (
    arith,
    print_primary-longer p (keyword kw_in ∷ lbracket ∷ print_elements es rest),
    print_elements-longer es rest,
  )

  pub print_primary-longer :
      (e : Primary) (rest : List Token) → length rest < length (print_primary e rest)
  print_primary-longer (group e) rest = omega (arith, print_or-longer e (rparen ∷ rest))
  print_primary-longer _ rest = omega arith

  print_elements-longer :
      (e : Elements) (rest : List Token) → length rest < length (print_elements e rest)
  print_elements-longer no_elements rest = omega arith
  print_elements-longer (elements p m) rest =
      omega (arith, print_primary-longer p (print_more m rest), print_more-longer m rest)

  pub print_more-longer : (e : More) (rest : List Token) → length rest < length (print_more e rest)
  print_more-longer no_more rest = omega arith
  print_more-longer (more p m) rest =
      omega (arith, print_primary-longer p (print_more m rest), print_more-longer m rest)

-- How tightly the next token binds: what is at most 1 goes on with a comparison, at most 2 with an
-- and_expr, at most 3 with an or_expr.
abbrev pub rank : List Token → ℕ
rank (op o ∷ ts) = 1
rank (keyword kw_in ∷ ts) = 1
rank (keyword kw_and ∷ ts) = 2
rank (keyword kw_or ∷ ts) = 3
rank _ = 4

pub rank_ors : (t : Ors) (rest : List Token) → 4 ≤ rank rest → 3 ≤ rank (print_ors t rest)
unfolding print_ors
rank_ors no_or rest h = omega arith
rank_ors (or_then a t) rest h = omega arith

pub rank_ands : (t : Ands) (rest : List Token) → 3 ≤ rank rest → 2 ≤ rank (print_ands t rest)
unfolding print_ands
rank_ands no_and rest h = omega arith
rank_ands (and_then a t) rest h = omega arith

module _ (state : Fields) where
  pub or_loop_done :
      (n : ℕ) (v : Value) (rest : List Token)
      → 4 ≤ rank rest
      → or_loop state (suc n) v rest ≡ parsed v rest
  unfolding or_loop
  or_loop_done n v (keyword kw_or ∷ ts) h = absurd (omega arith)
  or_loop_done n v [] h = refl
  or_loop_done n v (_ ∷ ts) h = refl

  pub and_loop_done :
      (n : ℕ) (v : Value) (rest : List Token)
      → 3 ≤ rank rest
      → and_loop state (suc n) v rest ≡ parsed v rest
  unfolding and_loop
  and_loop_done n v (keyword kw_and ∷ ts) h = absurd (omega arith)
  and_loop_done n v [] h = refl
  and_loop_done n v (_ ∷ ts) h = refl

  pub compare_rest_done :
      (n : ℕ) (v : Value) (rest : List Token)
      → 2 ≤ rank rest
      → compare_rest state (suc n) v rest ≡ parsed v rest
  unfolding compare_rest
  compare_rest_done n v (keyword kw_in ∷ ts) h = absurd (omega arith)
  compare_rest_done n v (op o ∷ ts) h = absurd (omega arith)
  compare_rest_done n v [] h = refl
  compare_rest_done n v (_ ∷ ts) h = refl

  -- a printed primary starts with no keyword and no bracket
  pub not_expr-primary :
      (n : ℕ) (p : Primary) (rest : List Token)
      → not_expr state (suc n) (print_primary p rest) ≡ compare state n (print_primary p rest)
  unfolding not_expr print_primary
  not_expr-primary n (reference k) rest = refl
  not_expr-primary n _ rest = refl

  pub list_expr-primary :
      (n : ℕ) (p : Primary) (rest : List Token)
      → list_expr state (suc n) (lbracket ∷ print_primary p rest)
        ≡ bind
            (primary state n (print_primary p rest))
            (λ v after. bind (more_items state n after) (λ vs end. parsed (item v vs) end))
  unfolding list_expr print_primary
  list_expr-primary n (reference k) rest = refl
  list_expr-primary n _ rest = refl
