-- ===== src/Condition/RoundTrip.antt =====
-- What the parser makes of a printed expression.
use syndicateclaw.Base.{
  ℕ, zero, suc, ◌+◌, ◌*◌, ◌≤◌, ◌<◌, ◌≡◌, refl, ap, ◌∙◌, Option, none, some, List, [], ◌∷◌, length,
  arith,
}
use syndicateclaw.Json.{Value, Fields, truthy}
use syndicateclaw.Condition.Tokens.{
  kw_in, Token, keyword, op, rparen, lbracket, either_value, both_values,
}
use syndicateclaw.Condition.Parser.{
  Parsed, parsed, bind, outcome, close, or_expr, or_loop, and_expr, and_loop, not_expr, compare,
  compare_rest, primary, list_expr, more_items, parse,
}
use syndicateclaw.Condition.Syntax.{
  Or, ors, Ors, no_or, or_then, And, ands, Ands, no_and, and_then, Not, negation, plain, Compare,
  alone, compares, member, Primary, reference, group, Elements, no_elements, elements, More,
  no_more, more, print_or, print_ors, print_and, print_ands, print_not, print_compare,
  print_primary, print_elements, print_more, then_value, or_value, ors_value, and_value, ands_value,
  not_value, compare_value, primary_value, elements_value, more_value,
}
use syndicateclaw.Condition.Printed.{
  print_and-longer, print_not-longer, print_primary-longer, rank, rank_ors, rank_ands, or_loop_done,
  and_loop_done, compare_rest_done, not_expr-primary, list_expr-primary,
}

bind_outcome :
    {A B : Type 0} (o : Option A) (rest after : List Token) (k : A → List Token → Parsed B)
    (f : A → Option B)
    → ((a : A) → k a rest ≡ outcome (f a) after)
    → bind (outcome o rest) k ≡ outcome (then_value o f) after
bind_outcome none rest after k f h = refl
bind_outcome (some a) rest after k f h = h a

bind_same :
    {A : Type 0} (o : Option A) (rest after : List Token) (k : A → List Token → Parsed A)
    → ((a : A) → k a rest ≡ parsed a after)
    → bind (outcome o rest) k ≡ outcome o after
bind_same none rest after k h = refl
bind_same (some a) rest after k h = h a

module _ (state : Fields) where
  -- reading `p` as `o`, then going on
  after_reading :
      {A B : Type 0} (p : Parsed A) (o : Option A) (rest after : List Token)
      (k : A → List Token → Parsed B) (f : A → Option B)
      → p ≡ outcome o rest
      → ((a : A) → k a rest ≡ outcome (f a) after)
      → bind p k ≡ outcome (then_value o f) after
  after_reading p o rest after k f e h = ap (λ q. bind q k) e ∙ bind_outcome o rest after k f h

  mutual
    unfolding or_expr print_or or_value

    pub or_expr-print :
        (e : Or) (n : ℕ) (rest : List Token)
        → 8 * length (print_or e rest) + 6 < n
        → 4 ≤ rank rest
        → or_expr state n (print_or e rest) ≡ outcome (or_value state e) rest
    or_expr-print e zero rest h r = absurd (omega arith)
    or_expr-print (ors a t) (suc n) rest h r =
        after_reading _ _ _ _ _ _
          (and_expr-print a n (print_ors t rest) (omega arith) (rank_ors t rest r))
          λ v. or_loop-print t v n rest (omega (arith, print_and-longer a (print_ors t rest))) r

    or_loop-print :
        (t : Ors) (v : Value) (n : ℕ) (rest : List Token)
        → 8 * length (print_ors t rest) + 7 < n
        → 4 ≤ rank rest
        → or_loop state n v (print_ors t rest) ≡ outcome (ors_value state v t) rest
    or_loop-print t v zero rest h r = absurd (omega arith)
    or_loop-print no_or v (suc n) rest h r = or_loop_done state n v rest r
    or_loop-print (or_then a t) v (suc n) rest h r =
        after_reading _ _ _ _ _ _
          (and_expr-print a n (print_ors t rest) (omega arith) (rank_ors t rest r))
          λ w.
            or_loop-print t (either_value v w) n rest
              (omega (arith, print_and-longer a (print_ors t rest))) r

    and_expr-print :
        (e : And) (n : ℕ) (rest : List Token)
        → 8 * length (print_and e rest) + 5 < n
        → 3 ≤ rank rest
        → and_expr state n (print_and e rest) ≡ outcome (and_value state e) rest
    and_expr-print e zero rest h r = absurd (omega arith)
    and_expr-print (ands a t) (suc n) rest h r =
        after_reading _ _ _ _ _ _
          (not_expr-print a n (print_ands t rest) (omega arith) (rank_ands t rest r))
          λ v. and_loop-print t v n rest (omega (arith, print_not-longer a (print_ands t rest))) r

    and_loop-print :
        (t : Ands) (v : Value) (n : ℕ) (rest : List Token)
        → 8 * length (print_ands t rest) + 7 < n
        → 3 ≤ rank rest
        → and_loop state n v (print_ands t rest) ≡ outcome (ands_value state v t) rest
    and_loop-print t v zero rest h r = absurd (omega arith)
    and_loop-print no_and v (suc n) rest h r = and_loop_done state n v rest r
    and_loop-print (and_then a t) v (suc n) rest h r =
        after_reading _ _ _ _ _ _
          (not_expr-print a n (print_ands t rest) (omega arith) (rank_ands t rest r))
          λ w.
            and_loop-print t (both_values v w) n rest
              (omega (arith, print_not-longer a (print_ands t rest))) r

    not_expr-print :
        (e : Not) (n : ℕ) (rest : List Token)
        → 8 * length (print_not e rest) + 4 < n
        → 2 ≤ rank rest
        → not_expr state n (print_not e rest) ≡ outcome (not_value state e) rest
    not_expr-print e zero rest h r = absurd (omega arith)
    not_expr-print (negation e) (suc n) rest h r =
        after_reading _ _ _ _ _ _ (not_expr-print e n rest (omega arith) r) λ v. refl
    not_expr-print (plain (alone p)) (suc n) rest h r =
        not_expr-primary state n p rest ∙ compare-print (alone p) n rest (omega arith) r
    not_expr-print (plain (compares p o q)) (suc n) rest h r =
        not_expr-primary state n p (op o ∷ print_primary q rest)
        ∙ compare-print (compares p o q) n rest (omega arith) r
    not_expr-print (plain (member p es)) (suc n) rest h r =
        not_expr-primary state n p (keyword kw_in ∷ lbracket ∷ print_elements es rest)
        ∙ compare-print (member p es) n rest (omega arith) r

    compare-print :
        (e : Compare) (n : ℕ) (rest : List Token)
        → 8 * length (print_compare e rest) + 3 < n
        → 2 ≤ rank rest
        → compare state n (print_compare e rest) ≡ outcome (compare_value state e) rest
    compare-print e zero rest h r = absurd (omega arith)
    compare-print e (suc zero) rest h r = absurd (omega arith)
    compare-print (alone p) (suc (suc n)) rest h r =
        ap (λ q. bind q (λ left after. compare_rest state (suc n) left after))
          (primary-print p (suc n) rest (omega arith))
        ∙ bind_same (primary_value state p) rest rest _ (λ v. compare_rest_done state n v rest r)
    compare-print (compares p o q) (suc (suc n)) rest h r =
        after_reading _ _ _ _ _ _
          (primary-print p (suc n) (op o ∷ print_primary q rest) (omega arith))
          λ v.
            after_reading _ _ _ _ _ _
              (primary-print q n rest
                (omega (arith, print_primary-longer p (op o ∷ print_primary q rest))))
              λ w. refl
    compare-print (member p es) (suc (suc n)) rest h r =
        after_reading _ _ _ _ _ _
          (primary-print p (suc n) (keyword kw_in ∷ lbracket ∷ print_elements es rest)
            (omega arith))
          λ v.
            after_reading _ _ _ _ _ _
              (list_expr-print es n rest (
                omega (
                  arith,
                  print_primary-longer p (keyword kw_in ∷ lbracket ∷ print_elements es rest),
                )))
              λ vs. refl

    primary-print :
        (e : Primary) (n : ℕ) (rest : List Token)
        → 8 * length (print_primary e rest) + 2 < n
        → primary state n (print_primary e rest) ≡ outcome (primary_value state e) rest
    primary-print e zero rest h = absurd (omega arith)
    primary-print (group e) (suc n) rest h =
        ap (λ q. bind q (λ v after. close v after))
          (or_expr-print e n (rparen ∷ rest) (omega arith) (omega arith))
        ∙ bind_same (or_value state e) (rparen ∷ rest) rest _ (λ v. refl)
    primary-print (reference key) (suc n) rest h = refl
    primary-print _ (suc n) rest h = refl

    list_expr-print :
        (e : Elements) (n : ℕ) (rest : List Token)
        → 8 * length (print_elements e rest) + 8 < n
        → list_expr state n (lbracket ∷ print_elements e rest)
          ≡ outcome (elements_value state e) rest
    list_expr-print e zero rest h = absurd (omega arith)
    list_expr-print no_elements (suc n) rest h = refl
    list_expr-print (elements p m) (suc n) rest h =
        list_expr-primary state n p (print_more m rest)
        ∙ (after_reading _ _ _ _ _ _ (primary-print p n (print_more m rest) (omega arith)) λ v.
            after_reading _ _ _ _ _ _
              (more_items-print m n rest
                (omega (arith, print_primary-longer p (print_more m rest))))
              λ vs. refl)

    more_items-print :
        (e : More) (n : ℕ) (rest : List Token)
        → 8 * length (print_more e rest) + 7 < n
        → more_items state n (print_more e rest) ≡ outcome (more_value state e) rest
    more_items-print e zero rest h = absurd (omega arith)
    more_items-print no_more (suc n) rest h = refl
    more_items-print (more p m) (suc n) rest h =
        after_reading _ _ _ _ _ _ (primary-print p n (print_more m rest) (omega arith)) λ v.
          after_reading _ _ _ _ _ _
            (more_items-print m n rest (omega (arith, print_primary-longer p (print_more m rest))))
            λ vs. refl

  -- The parser gives, for the tokens of an expression of the grammar, the truth of the expression's
  -- value, or TypeError where a comparison of it has none.
  pub parse-print_or :
      (e : Or)
      → parse state (print_or e [])
        ≡ outcome (then_value (or_value state e) (λ v. some (truthy v))) []
  unfolding parse
  parse-print_or e =
      after_reading _ _ [] _ _ _
        (or_expr-print e (8 * length (print_or e []) + 9) [] (omega arith) (omega arith)) λ v. refl
