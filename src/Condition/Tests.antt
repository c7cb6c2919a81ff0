-- ===== src/Condition/Tests.antt =====
-- Conditions on a small state.
use syndicateclaw.Base.{List}
use syndicateclaw.Base.{◌≡◌, refl, true, some, [], ◌∷◌}
use syndicateclaw.Json.{pos, number, text, Fields, empty, field, truthy}
use syndicateclaw.Condition.Tokens.{
  eq, gt, kw_and, kw_or, kw_in, Token, ident, int, none_token, keyword, op, lbracket, rbracket,
  comma, string, compare_op, member_of,
}
use syndicateclaw.Condition.Parser.{parsed, type_error, malformed, outcome, parse}
use syndicateclaw.Condition.Syntax.{
  Or, ors, no_or, ands, no_and, and_then, plain, compares, member, reference, integer, quoted,
  elements, more, no_more, print_or, or_value, then_value,
}
use syndicateclaw.Condition.Ends.{Ends, parse-Ends}
use syndicateclaw.Condition.RoundTrip.{parse-print_or}

abbrev state : Fields
state = field "n" (number (pos 4)) (field "mode" (text "fast") empty)

-- `state.n > 3 and state.mode in ["fast", "slow"]`
abbrev condition : Or
condition =
    ors
      (ands (plain (compares (reference "n") gt (integer (pos 3)))) (
        and_then
          (plain
            (member (reference "mode") (elements (quoted "fast") (more (quoted "slow") no_more))))
          no_and))
      no_or

condition_tokens :
    print_or condition []
    ≡ ident "n"
      ∷ op gt
      ∷ int (pos 3)
      ∷ keyword kw_and
      ∷ ident "mode"
      ∷ keyword kw_in
      ∷ lbracket
      ∷ string "fast"
      ∷ comma
      ∷ string "slow"
      ∷ rbracket
      ∷ []
unfolding print_or
condition_tokens = refl

condition_true : parse state (print_or condition []) ≡ parsed true []
unfolding parse print_or compare_op member_of
condition_true = refl

parse-print_or_example :
    parse state (print_or condition [])
    ≡ outcome (then_value (or_value state condition) (λ v. some (truthy v))) []
parse-print_or_example = parse-print_or state condition

-- a comma with no element behind it
abbrev open_list : List Token
open_list = ident "mode" ∷ keyword kw_in ∷ lbracket ∷ string "fast" ∷ comma ∷ rbracket ∷ []

open_list_refused : parse state open_list ≡ malformed
unfolding parse
open_list_refused = refl

parse-Ends_example : Ends 1 (parse state open_list)
parse-Ends_example = parse-Ends state open_list

-- `state.x == None or state.x > 3` with no `x`: the right side is evaluated although the left holds.
guard_not_short :
    parse state
      (ident "x" ∷ op eq ∷ none_token ∷ keyword kw_or ∷ ident "x" ∷ op gt ∷ int (pos 3) ∷ [])
    ≡ type_error
unfolding parse compare_op
guard_not_short = refl
