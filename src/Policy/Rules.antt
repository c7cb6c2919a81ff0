-- ===== src/Policy/Rules.antt =====
-- The rules of src/syndicateclaw/policy/engine.py: their conditions, and which rule decides.
use syndicateclaw.Base.{
  ℕ, String, Bool, true, false, not, ◌&&◌, Option, none, some, List, [], ◌∷◌, ◌==◌, string_eq, keep,
  if◌then◌else◌, value_error, Result, ok, err,
}
use syndicateclaw.Order.{sort}
use syndicateclaw.Text.{split_dots}
use syndicateclaw.Json.{
  ℤ, int_leb, Value, null, text, list, dict, Items, end, item, Fields, find_field, value_eq, less,
  at_most, is_in,
}

pub data Effect : Type 0 where
  allow deny require_approval : Effect

-- `PolicyEffect(text)`
unfoldable pub effect_of : String → Result Effect
effect_of t =
    if t == "ALLOW"
    then ok allow
    else if t == "DENY"
    then ok deny
    else if t == "REQUIRE_APPROVAL"
    then ok require_approval
    else err value_error

pub record Condition : Type 0 where
  pub name : String
  pub operator : String
  pub value : Value

-- a row of `policy_rules`
pub record PolicyRow : Type 0 where
  pub id : String
  pub name : String
  pub description : Option String
  pub resource_type : String
  pub resource_pattern : String
  pub effect : String
  pub conditions : Value
  pub priority : ℤ
  pub enabled : Bool
  pub owner : Option String
  pub updated_at : ℕ

-- an entry of `conditions_evaluated`
pub record Checked : Type 0 where
  pub condition : Condition
  pub actual : Value
  pub matched : Bool

abbrev get_or_null : Option Value → Value
get_or_null none = null
get_or_null (some v) = v

abbrev walk : List String → Value → Value
walk [] current = current
walk (part ∷ parts) (dict fs) = walk parts (get_or_null (find_field part fs))
walk (part ∷ parts) _ = null

unfoldable pub resolve_field : Fields → String → Value
resolve_field context path = walk (split_dots path) (dict context)

-- `PolicyCondition(**data)`: two texts and a value, else a ValidationError, which is a ValueError
unfoldable pub condition_of : Fields → Result Condition
condition_of fs = elim (find_field "field" fs) [
  | some (text f) ↦ elim (find_field "operator" fs) [
    | some (text op) ↦ elim (find_field "value" fs) [
      | some v ↦ ok (record { name = f; operator = op; value = v })
      | none ↦ err value_error
    ]
    | _ ↦ err value_error
  ]
  | _ ↦ err value_error
]

-- `except (TypeError, ValueError): return False`, for an operation that may raise a TypeError
abbrev or_false : Option Bool → Result Bool
or_false none = ok false
or_false (some b) = ok b

abbrev negated : Option Bool → Option Bool
negated none = none
negated (some b) = some (not b)

-- the same for one that may raise anything else, of which a ValueError is caught
abbrev caught : Result Bool → Result Bool
caught (ok b) = ok b
caught (err value_error) = ok false
caught (err e) = err e

-- the order of `get_enabled_by_resource_type`: the highest priority first
abbrev pub by_priority : PolicyRow → PolicyRow → Bool
by_priority a b = int_leb b.priority a.priority

abbrev pub is_enabled_for : String → PolicyRow → Bool
is_enabled_for resource_type r = r.resource_type == resource_type && r.enabled

unfoldable pub get_enabled_by_resource_type : String → List PolicyRow → List PolicyRow
get_enabled_by_resource_type resource_type rows =
    sort by_priority (keep (is_enabled_for resource_type) rows)

unfoldable pub matching_rules :
    (String → String → Bool) → String → String → List PolicyRow → List PolicyRow
unfolding get_enabled_by_resource_type
matching_rules fnmatch resource_type resource_id rows =
    keep (λ r. fnmatch resource_id r.resource_pattern)
      (get_enabled_by_resource_type resource_type rows)

pub record Match : Type 0 where
  pub rule : PolicyRow
  pub effect : Effect
  pub conditions_evaluated : List Checked

-- `str` and `re.search` are Python's; a wrong pattern makes `re.search` raise.
module _ (str : Value → String) (search : String → String → Result Bool) where
  unfoldable pub evaluate_condition : Condition → Fields → Result Bool
  unfolding resolve_field
  evaluate_condition c context =
      let actual = resolve_field context c.name in
      if c.operator == "eq"
      then ok (value_eq actual c.value)
      else if c.operator == "neq"
      then ok (not (value_eq actual c.value))
      else if c.operator == "in"
      then or_false (is_in actual c.value)
      else if c.operator == "not_in"
      then or_false (negated (is_in actual c.value))
      else if c.operator == "gt"
      then or_false (less c.value actual)
      else if c.operator == "lt"
      then or_false (less actual c.value)
      else if c.operator == "gte"
      then or_false (at_most c.value actual)
      else if c.operator == "lte"
      then or_false (at_most actual c.value)
      else if c.operator == "matches"
      then caught (search (str c.value) (str actual))
      else ok false

  abbrev pub checked : Condition → Fields → Bool → Checked
  checked c context b = record { condition = c; actual = resolve_field context c.name; matched = b }

  abbrev prepend : Checked → Result (Bool × List Checked) → Result (Bool × List Checked)
  prepend x (ok (b, xs)) = ok (b, x ∷ xs)
  prepend x (err e) = err e

  -- The loop over the conditions: whether all match, and what was looked at.
  unfoldable pub check_items : Items → Fields → Result (Bool × List Checked)
  unfolding evaluate_condition
  check_items end context = ok (true, [])
  check_items (item (dict fs) rest) context =
      let behind = check_items rest context in
      elim (condition_of fs) [
        | err e ↦ err e
        | ok c ↦ elim (evaluate_condition c context) [
          | err e ↦ err e
          | ok true ↦ prepend (checked c context true) behind
          | ok false ↦ ok (false, checked c context false ∷ [])
        ]
      ]
  check_items (item _ rest) context = check_items rest context

  -- the conditions column; what is not a list counts as no conditions
  unfoldable pub check_conditions : Value → Fields → Result (Bool × List Checked)
  unfolding check_items
  check_conditions (list items) context = check_items items context
  check_conditions _ context = ok (true, [])

  -- the loop over the matching rules: the first whose conditions all match
  unfoldable pub first_match : List PolicyRow → Fields → Result (Option Match)
  first_match [] context = ok none
  first_match (r ∷ rest) context =
      let behind = first_match rest context in
      elim (check_conditions r.conditions context) [
        | err e ↦ err e
        | ok (true, seen) ↦ elim (effect_of r.effect) [
          | err e ↦ err e
          | ok x ↦ ok (some (record { rule = r; effect = x; conditions_evaluated = seen }))
        ]
        | ok (false, seen) ↦ behind
      ]
