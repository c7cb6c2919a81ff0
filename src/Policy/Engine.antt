-- ===== src/Policy/Engine.antt =====
-- `PolicyEngine` of src/syndicateclaw/policy/engine.py, method by method. Its state is the table of
-- rules, the table of recorded decisions and the audit events, the oldest first. Left out are the free
-- text of a reason and, in the denial after an exception, the entry that tells of it. The argument of
-- `add_rule` is the row that it builds.
use syndicateclaw.Base.{
  ℕ, String, Bool, false, Option, none, some, List, [], ◌∷◌, ◌++◌, string_eq, Error, value_error,
  Result, ok, err, Exec,
}
use syndicateclaw.Storage.{Sessions}
use syndicateclaw.Json.{ℤ, Value, Fields}
use syndicateclaw.Policy.Rules.{
  Effect, deny, PolicyRow, Checked, Match, first_match, matching_rules,
}

-- what an evaluation is asked
pub record Query : Type 0 where
  pub resource_type : String
  pub resource_id : String
  pub actor : String
  pub context : Fields

pub record PolicyDecision : Type 0 where
  pub id : String
  pub rule_id : String
  pub rule_name : String
  pub effect : Effect
  pub resource_type : String
  pub resource_id : String
  pub actor : String
  pub conditions_evaluated : List Checked
  pub timestamp : ℕ

pub data Event : Type 0 where
  policy_evaluated : PolicyDecision → Event
  policy_denied : PolicyDecision → Event
  policy_created policy_updated policy_deleted : String → String → Event

-- one key of `updates`; a key that the row has no column for changes nothing
pub data Update : Type 0 where
  set_name set_resource_type set_resource_pattern set_effect : String → Update
  set_conditions : Value → Update
  set_priority : ℤ → Update
  set_enabled : Bool → Update
  set_unknown : Update

unfoldable pub apply_update : Update → PolicyRow → PolicyRow
apply_update (set_name t) r = record r { name = t }
apply_update (set_resource_type t) r = record r { resource_type = t }
apply_update (set_resource_pattern t) r = record r { resource_pattern = t }
apply_update (set_effect t) r = record r { effect = t }
apply_update (set_conditions v) r = record r { conditions = v }
apply_update (set_priority n) r = record r { priority = n }
apply_update (set_enabled b) r = record r { enabled = b }
apply_update set_unknown r = r

unfoldable pub apply_updates : List Update → PolicyRow → PolicyRow
unfolding apply_update
apply_updates [] r = r
apply_updates (u ∷ us) r = apply_updates us (apply_update u r)

abbrev pub decision_of :
    ℕ → String → Query → String → String → Effect → List Checked → PolicyDecision
decision_of now id q rule_id rule_name effect seen = record {
  id = id;
  rule_id = rule_id;
  rule_name = rule_name;
  effect = effect;
  resource_type = q.resource_type;
  resource_id = q.resource_id;
  actor = q.actor;
  conditions_evaluated = seen;
  timestamp = now;
}

-- the decision of the rule that matched, or the default
unfoldable pub concluded : ℕ → String → Query → Option Match → PolicyDecision
concluded now id q (some m) =
    decision_of now id q m.rule.id m.rule.name m.effect m.conditions_evaluated
concluded now id q none = decision_of now id q "__default_deny__" "default_deny" deny []

unfoldable pub error_decision : ℕ → String → Query → PolicyDecision
error_decision now id q = decision_of now id q "__evaluation_error__" "evaluation_error" deny []

-- `str`, `re.search` and `fnmatch` are Python's. `outage` is what opening a session raises, if
-- anything, and `refuses` what the audit service raises for an event.
module _ (R : Sessions PolicyRow (λ r. r.id)) (D : Sessions PolicyDecision (λ d. d.id))
    (str : Value → String) (search : String → String → Result Bool)
    (fnmatch : String → String → Bool) (refuses : Event → Option Error) where
  pub record World : Type 0 where
    pub rules : R.Db
    pub decisions : D.Db
    pub audit : List Event

  unfoldable pub emit : Event → World → Option Error × World
  emit event w = elim (refuses event) [
    | some e ↦ (some e, w)
    | none ↦ (none, record w { audit = w.audit ++ event ∷ [] })
  ]

  abbrev pub save : PolicyDecision → Exec D.Db PolicyDecision
  save x d = elim (D.add x d) [ ok d' ↦ (ok x, d') | err e ↦ (err e, d) ]

  -- the block under `session.begin()`
  unfoldable pub evaluate_in_session :
      Option Error → ℕ → String → Query → List PolicyRow → Exec D.Db PolicyDecision
  evaluate_in_session (some e) now id q rows d = (err e, d)
  evaluate_in_session none now id q rows d =
      elim (first_match str search (matching_rules fnmatch q.resource_type q.resource_id rows)
        q.context) [ err e ↦ (err e, d) | ok m ↦ save (concluded now id q m) d ]

  -- the audit event after a transaction that went well; what it raises is raised
  abbrev pub reported : PolicyDecision → Option Error × World → Result PolicyDecision × World
  reported x (some e, w) = (err e, w)
  reported x (none, w) = (ok x, w)

  -- what follows the transaction: an error is a denial, whose audit event may fail
  abbrev pub report :
      ℕ → String → Query → Result PolicyDecision × D.Db → World → Result PolicyDecision × World
  report now id q (ok x, d) w = reported x (emit (policy_evaluated x) (record w { decisions = d }))
  report now id q (err e, d) w =
      let x = error_decision now id q in
      (ok x, (emit (policy_denied x) (record w { decisions = d })).1)

  unfoldable pub evaluate : Option Error → ℕ → String → Query → Exec World PolicyDecision
  unfolding evaluate_in_session
  evaluate outage now id q w =
      report now id q
        (D.transaction PolicyDecision (evaluate_in_session outage now id q (R.rows w.rules))
          w.decisions)
        w

  abbrev pub finish : {A : Type 0} → (A → Event) → Result A × R.Db → World → Result A × World
  finish event (err e, d) w = (err e, record w { rules = d })
  finish event (ok a, d) w =
      let (refused, w') = emit (event a) (record w { rules = d }) in
      elim refused [ none ↦ (ok a, w') | some e ↦ (err e, w') ]

  abbrev insert_rule : PolicyRow → Exec R.Db PolicyRow
  insert_rule row d = elim (R.add row d) [ ok d' ↦ (ok row, d') | err e ↦ (err e, d) ]

  unfoldable pub add_rule : PolicyRow → String → Exec World PolicyRow
  add_rule row actor w =
      finish (λ r. policy_created r.id actor) (R.transaction PolicyRow (insert_rule row) w.rules) w

  -- load a rule, change it, store it
  abbrev pub change_rule : String → (PolicyRow → PolicyRow) → Exec R.Db PolicyRow
  change_rule rule_id f d = elim (R.get rule_id d) [
    | none ↦ (err value_error, d)
    | some row ↦ (ok (f row), R.merge (f row) d)
  ]

  abbrev pub updated : ℕ → List Update → PolicyRow → PolicyRow
  updated now updates row = record (apply_updates updates row) { updated_at = now }

  -- `_row_to_policy_rule` at the end of the transaction, which raises on a row that is no rule
  abbrev read_back : (PolicyRow → Option Error) → Result PolicyRow × R.Db → Result PolicyRow × R.Db
  read_back invalid (err e, d) = (err e, d)
  read_back invalid (ok row, d) = elim (invalid row) [ none ↦ (ok row, d) | some e ↦ (err e, d) ]

  unfoldable pub update_rule :
      (PolicyRow → Option Error) → ℕ → String → List Update → String → Exec World PolicyRow
  update_rule invalid now rule_id updates actor w =
      finish (λ r. policy_updated rule_id actor)
        (R.transaction PolicyRow
          (λ d. read_back invalid (change_rule rule_id (updated now updates) d)) w.rules)
        w

  abbrev pub disabled : ℕ → PolicyRow → PolicyRow
  disabled now row = record row { enabled = false; updated_at = now }

  abbrev pub ignored : Result PolicyRow × World → Result (Unit {0}) × World
  ignored (ok row, w) = (ok tt, w)
  ignored (err e, w) = (err e, w)

  unfoldable pub delete_rule : ℕ → String → String → Exec World (Unit {0})
  delete_rule now rule_id actor w = ignored (
      finish (λ r. policy_deleted rule_id actor)
        (R.transaction PolicyRow (change_rule rule_id (disabled now)) w.rules) w)
