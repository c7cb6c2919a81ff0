-- ===== src/Policy/Conditions.antt =====
-- When the conditions of a rule all hold.
use syndicateclaw.Policy.Rules.{checked}
use syndicateclaw.Base.{
  String, ◌≡◌, ◌↔◌, refl, Bool, true, false, List, [], ◌∷◌, inl, inr, arith, Result, ok,
  Result-cases, All, string_eq,
}
use syndicateclaw.Json.{Value, null, boolean, number, text, list, dict, Items, end, item, Fields}
use syndicateclaw.Policy.Rules.{Condition, Checked, condition_of, evaluate_condition, check_items}

-- the entries that are dicts; the loop passes over the others
abbrev pub dicts : Items → List Fields
dicts end = []
dicts (item (dict fs) rest) = fs ∷ dicts rest
dicts (item _ rest) = dicts rest

module _ (str : Value → String) (search : String → String → Result Bool) (context : Fields) where
  -- The entry is a condition, and it holds.
  abbrev pub Holds : Fields → Type 0
  Holds fs =
      (c : Condition) × (condition_of fs ≡ ok c)
      × (evaluate_condition str search c context ≡ ok true)

  -- The loop ends with all conditions matched exactly if every entry of the list that is a dict is
  -- a condition that holds.
  check_items-Holds :
      (items : Items)
      → ((seen : List Checked) × (check_items str search items context ≡ ok (true, seen)))
        ↔ All Holds (dicts items)
  unfolding check_items
  check_items-Holds end = ((λ h. tt), (λ h. ([], refl)))
  check_items-Holds (item null rest) = check_items-Holds rest
  check_items-Holds (item (boolean b) rest) = check_items-Holds rest
  check_items-Holds (item (number n) rest) = check_items-Holds rest
  check_items-Holds (item (text t) rest) = check_items-Holds rest
  check_items-Holds (item (list xs) rest) = check_items-Holds rest
  check_items-Holds (item (dict fs) rest) =
      let (to, from) = check_items-Holds rest in
      (
        λ (seen, h). elim (Result-cases (condition_of fs)) [
          | inr (e, c) ↦ ground arith
          | inl (x, c) ↦ elim (Result-cases (evaluate_condition str search x context)) [
            | inr (e, v) ↦ ground arith
            | inl (false, v) ↦ ground arith
            | inl (true, v) ↦ elim (Result-cases (check_items str search rest context)) [
              | inr (e, r) ↦ ground arith
              | inl ((false, s), r) ↦ ground arith
              | inl ((true, s), r) ↦ ((x, c, v), to (s, r))
            ]
          ]
        ],
        λ ((x, c, v), all_rest).
            let (s, r) = from all_rest in
            (checked str search x context true ∷ s, rw (c, check_items) (rw v (rw r refl))),
      )
