-- ===== src/Policy/Tests.antt =====
-- The policy engine on a small rule table.
use syndicateclaw.Base.{
  ℕ, String, ◌≡◌, ◌≢◌, refl, Bool, true, false, Option, none, some, List, [], ◌∷◌, ◌==◌, string_eq,
  ◌||◌, inl, inr, arith, Error, runtime_error, Result, ok, err, ◌⊎◌,
}
use syndicateclaw.Order.{sort, insert}
use syndicateclaw.Storage.{Sessions}
use syndicateclaw.Storage.ListTable.{list_table}
use syndicateclaw.Json.{pos, Value, text, list, dict, Items, end, item, empty, field}
use syndicateclaw.Policy.Rules.{
  allow, deny, effect_of, PolicyRow, Checked, Match, check_conditions, check_items, condition_of,
  evaluate_condition, resolve_field, first_match, matching_rules, get_enabled_by_resource_type,
  by_priority,
}
use syndicateclaw.Policy.Engine.{
  Query, PolicyDecision, Event, World, emit, evaluate_in_session, evaluate, concluded,
  error_decision, decision_of, delete_rule,
}
use syndicateclaw.Policy.Priority.{Applies, Passes, Fails, Wins}
use syndicateclaw.Policy.Verdict.{matching, evaluate_sound}
use syndicateclaw.Policy.Outcomes.{evaluate_decides, evaluate_fails_closed}
use syndicateclaw.Policy.Removal.{delete_rule_stops}

abbrev rules_table : Sessions PolicyRow (λ r. r.id)
rules_table = list_table (λ r. r.id)

abbrev decisions_table : Sessions PolicyDecision (λ d. d.id)
decisions_table = list_table (λ d. d.id)

abbrev str : Value → String
str (text t) = t
str _ = "None"

-- `(` is a pattern that does not compile; any other pattern is a text to equal.
abbrev search : String → String → Result Bool
search pattern t = elim (pattern == "(") [ true ↦ err runtime_error | false ↦ ok (pattern == t) ]

abbrev fnmatch : String → String → Bool
fnmatch t pattern = pattern == "*" || pattern == t

abbrev all_taken : Event → Option Error
all_taken event = none

abbrev all_refused : Event → Option Error
all_refused event = some runtime_error

abbrev role_is : String → String → Value
role_is operator role = dict (
    field "field" (text "user.role")
      (field "operator" (text operator) (field "value" (text role) empty)))

abbrev rule : String → ℕ → String → Value → PolicyRow
rule id priority effect condition = record {
  id = id;
  name = id;
  description = none;
  resource_type = "tool";
  resource_pattern = "*";
  effect = effect;
  conditions = list (item condition end);
  priority = pos priority;
  enabled = true;
  owner = none;
  updated_at = 0;
}

abbrev admins : PolicyRow
admins = rule "admins" 10 "ALLOW" (role_is "eq" "admin")

abbrev guests : PolicyRow
guests = rule "guests" 20 "DENY" (role_is "eq" "guest")

abbrev broken : PolicyRow
broken = rule "broken" 30 "ALLOW" (role_is "matches" "(")

abbrev query : String → Query
query role = record {
  resource_type = "tool";
  resource_id = "http";
  actor = "ann";
  context = field "user" (dict (field "role" (text role) empty)) empty;
}

abbrev world : World rules_table decisions_table str search fnmatch all_taken
world = record { rules = admins ∷ guests ∷ []; decisions = []; audit = [] }

abbrev with_broken : World rules_table decisions_table str search fnmatch all_taken
with_broken = record { rules = admins ∷ broken ∷ []; decisions = []; audit = [] }

abbrev deaf : World rules_table decisions_table str search fnmatch all_refused
deaf = record { rules = admins ∷ guests ∷ []; decisions = []; audit = [] }

abbrev seen : List Checked
seen =
    record {
      condition = record { name = "user.role"; operator = "eq"; value = text "admin" };
      actual = text "admin";
      matched = true;
    }
    ∷ []

abbrev granted : PolicyDecision
granted = decision_of 5 "d1" (query "admin") "admins" "admins" allow seen

granted_run :
    (evaluate rules_table decisions_table str search fnmatch all_taken none 5 "d1"
      (query "admin")
      world).0
    ≡ ok granted
unfolding evaluate evaluate_in_session first_match matching_rules get_enabled_by_resource_type
    check_conditions check_items evaluate_condition resolve_field condition_of effect_of concluded
    emit sort insert
granted_run = refl

permits : allow ≢ deny
permits h = ground arith

evaluate_sound_example :
    (m : Match) × (granted ≡ concluded 5 "d1" (query "admin") (some m))
    × Applies fnmatch "tool" "http" (admins ∷ guests ∷ []) m.rule
    × Wins str search
        (query "admin").context
        (matching rules_table decisions_table str search fnmatch all_taken (query "admin") world)
        m
    × (decisions_table.get "d1"
          (evaluate rules_table decisions_table str search fnmatch all_taken none 5 "d1"
            (query "admin")
            world).1.decisions
        ≡ some granted)
evaluate_sound_example =
    evaluate_sound rules_table decisions_table str search fnmatch all_taken none 5 "d1"
      (query "admin") world {d = granted} granted_run permits

guests-Fails : Fails str search (query "admin").context guests
unfolding check_conditions check_items evaluate_condition resolve_field condition_of
guests-Fails = record { seen = _; fails = refl }

admins-Fails : Fails str search (query "guest").context admins
unfolding check_conditions check_items evaluate_condition resolve_field condition_of
admins-Fails = record { seen = _; fails = refl }

admins-Passes : Passes str search (query "admin").context admins seen
unfolding check_conditions check_items evaluate_condition resolve_field condition_of
admins-Passes = record { passes = refl }

others :
    (y : PolicyRow)
    → Applies fnmatch "tool" "http" (admins ∷ guests ∷ []) y
    → by_priority y admins ≡ true
    → (y ≡ admins) ⊎ Fails str search (query "admin").context y
others y a h = elim a.stored [
  | inl e ↦ inl (ground (arith, e))
  | inr m ↦ elim m [ inl e ↦ inr (rw (← e) guests-Fails) | inr z ↦ absurd z ]
]

evaluate_decides_example :
    (evaluate rules_table decisions_table str search fnmatch all_taken none 5 "d1"
      (query "admin")
      world).0
    ≡ ok granted
unfolding effect_of
evaluate_decides_example =
    evaluate_decides rules_table decisions_table str search fnmatch all_taken 5 "d1" (query "admin")
      world admins seen allow (record { stored = inl refl; of_type = refl; fits = refl })
      admins-Passes refl others refl refl

abbrev only_admins : World rules_table decisions_table str search fnmatch all_taken
only_admins = record { rules = admins ∷ []; decisions = []; audit = [] }

none_applies :
    (y : PolicyRow)
    → Applies fnmatch "tool" "http" (admins ∷ []) y
    → Fails str search (query "guest").context y
none_applies y a = elim a.stored [ inl e ↦ rw (← e) admins-Fails | inr z ↦ absurd z ]

-- A pattern that does not compile, in a rule of a high priority, denies.
evaluate_fails_closed_example :
    ((evaluate rules_table decisions_table str search fnmatch all_taken none 5 "d1"
        (query "admin")
        with_broken).0
      ≡ ok (error_decision 5 "d1" (query "admin")))
    × ((error_decision 5 "d1" (query "admin")).effect ≡ deny)
    × ((evaluate rules_table decisions_table str search fnmatch all_taken none 5 "d1"
          (query "admin")
          with_broken).1.decisions
        ≡ with_broken.decisions)
    × ((evaluate rules_table decisions_table str search fnmatch all_taken none 5 "d1"
          (query "admin")
          with_broken).1.rules
        ≡ with_broken.rules)
unfolding evaluate_in_session first_match matching_rules get_enabled_by_resource_type
    check_conditions check_items evaluate_condition resolve_field condition_of sort insert
evaluate_fails_closed_example =
    evaluate_fails_closed rules_table decisions_table str search fnmatch all_taken none 5 "d1"
      (query "admin") with_broken {e = runtime_error} refl

abbrev without_guests : World rules_table decisions_table str search fnmatch all_taken
without_guests =
    (delete_rule rules_table decisions_table str search fnmatch all_taken 4 "guests" "root" world).1

granted_again :
    (evaluate rules_table decisions_table str search fnmatch all_taken none 5 "d1"
      (query "admin")
      without_guests).0
    ≡ ok granted
unfolding evaluate evaluate_in_session first_match matching_rules get_enabled_by_resource_type
    check_conditions check_items evaluate_condition resolve_field condition_of effect_of concluded
    emit sort insert delete_rule
granted_again = refl

delete_rule_stops_example : granted.rule_id ≢ "guests"
delete_rule_stops_example =
    delete_rule_stops rules_table decisions_table str search fnmatch all_taken 4 "guests" "root"
      world {row = guests} refl none 5 "d1" (query "admin") {d = granted} granted_again permits

abbrev mixed : Items
mixed = item (text "note") (item (role_is "eq" "admin") end)
