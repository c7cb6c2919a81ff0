-- ===== src/Policy/Outcomes.antt =====
-- `PolicyEngine.evaluate` when a rule decides, when none does, and when something raises.
use syndicateclaw.Base.{
  ℕ, String, ◌≡◌, refl, Bool, true, Option, none, some, List, [], ◌⊎◌, inl, inr, arith,
  Option-cases, Error, Result, ok, err, string_eq,
}
use syndicateclaw.Storage.{Sessions}
use syndicateclaw.Json.{Value}
use syndicateclaw.Policy.Rules.{
  Effect, deny, effect_of, PolicyRow, Checked, Match, first_match, by_priority,
}
use syndicateclaw.Policy.Engine.{
  Query, PolicyDecision, Event, policy_evaluated, policy_denied, World, emit, save,
  evaluate_in_session, evaluate, concluded, error_decision, decision_of,
}
use syndicateclaw.Policy.Priority.{
  Applies, matching_rules-Applies, Applies-matching_rules, matching_rules-IsSorted, Passes, Fails,
  first_match-none, first_match_found,
}
use syndicateclaw.Policy.Verdict.{evaluate-ends, session_ok, matching, get-recorded}

module _ (R : Sessions PolicyRow (λ r. r.id)) (D : Sessions PolicyDecision (λ d. d.id))
    (str : Value → String) (search : String → String → Result Bool)
    (fnmatch : String → String → Bool) (refuses : Event → Option Error) where
  pub emit_tables :
      (event : Event) (w : World R D str search fnmatch refuses)
      → ((emit R D str search fnmatch refuses event w).1.decisions ≡ w.decisions)
        × ((emit R D str search fnmatch refuses event w).1.rules ≡ w.rules)
  unfolding emit
  emit_tables event w = elim (Option-cases (refuses event)) [
    | inl n ↦ rw (n, emit) (refl, refl)
    | inr (e, r) ↦ rw (r, emit) (refl, refl)
  ]

  concluded-id :
      (now : ℕ) (id : String) (q : Query) (m : Option Match) → (concluded now id q m).id ≡ id
  unfolding concluded
  concluded-id now id q none = refl
  concluded-id now id q (some m) = refl

  -- what is left of an evaluation that found `m`
  module _ (now : ℕ) (id : String) (q : Query) (w : World R D str search fnmatch refuses)
      (m : Option Match)
      (found : first_match str search (matching R D str search fnmatch refuses q w) q.context
        ≡ ok m)
      (fresh : D.get id w.decisions ≡ none)
      (heard : refuses (policy_evaluated (concluded now id q m)) ≡ none) where
    stores :
        (d' : D.Db) × (D.add (concluded now id q m) w.decisions ≡ ok d')
        × (evaluate_in_session R D str search fnmatch refuses none now id q
              (R.rows w.rules)
              w.decisions
            ≡ (ok (concluded now id q m), d'))
    unfolding evaluate_in_session
    stores =
        let (d', a) =
          D.add_fresh (concluded now id q m) w.decisions (rw (concluded-id now id q m) fresh) in
        (d', a, rw (found, evaluate_in_session) (rw (a, save) refl))

    evaluates :
        (evaluate R D str search fnmatch refuses none now id q w).0 ≡ ok (concluded now id q m)
    unfolding evaluate emit
    evaluates =
        let (d', a, s) = stores in
        let t =
          D.commits PolicyDecision
            (evaluate_in_session R D str search fnmatch refuses none now id q (R.rows w.rules))
            w.decisions s in
        rw (t, evaluate) (rw (heard, emit) refl)

  -- An enabled rule for the resource whose conditions all hold decides, if every other of its
  -- priority or a higher one has a condition that does not hold. No session fails, the id is new and
  -- the audit service takes the event.
  pub evaluate_decides :
      (now : ℕ) (id : String) (q : Query) (w : World R D str search fnmatch refuses) (r : PolicyRow)
      (seen : List Checked) (x : Effect)
      → Applies fnmatch q.resource_type q.resource_id (R.rows w.rules) r
      → Passes str search q.context r seen
      → effect_of r.effect ≡ ok x
      → ((y : PolicyRow)
          → Applies fnmatch q.resource_type q.resource_id (R.rows w.rules) y
          → by_priority y r ≡ true
          → (y ≡ r) ⊎ Fails str search q.context y)
      → D.get id w.decisions ≡ none
      → refuses (policy_evaluated (decision_of now id q r.id r.name x seen)) ≡ none
      → (evaluate R D str search fnmatch refuses none now id q w).0
        ≡ ok (decision_of now id q r.id r.name x seen)
  unfolding concluded
  evaluate_decides now id q w r seen x a p e others fresh heard =
      evaluates now id q w (some (record { rule = r; effect = x; conditions_evaluated = seen }))
        (first_match_found str search q.context (matching R D str search fnmatch refuses q w) r seen
          x (matching_rules-IsSorted fnmatch q.resource_type q.resource_id (R.rows w.rules))
          (Applies-matching_rules fnmatch q.resource_type q.resource_id (R.rows w.rules) r a) p e
          (λ y m.
            others y
              (matching_rules-Applies fnmatch q.resource_type q.resource_id (R.rows w.rules) y m)))
        fresh heard

  -- If every enabled rule for the resource has a condition that does not hold, the decision is the
  -- default denial. No session fails, the id is new and the audit service takes the event.
  evaluate_default :
      (now : ℕ) (id : String) (q : Query) (w : World R D str search fnmatch refuses)
      → ((y : PolicyRow)
          → Applies fnmatch q.resource_type q.resource_id (R.rows w.rules) y
          → Fails str search q.context y)
      → D.get id w.decisions ≡ none
      → refuses (policy_evaluated (decision_of now id q "__default_deny__" "default_deny" deny []))
        ≡ none
      → (evaluate R D str search fnmatch refuses none now id q w).0
        ≡ ok (decision_of now id q "__default_deny__" "default_deny" deny [])
  unfolding concluded
  evaluate_default now id q w fail fresh heard =
      evaluates now id q w none
        (first_match-none str search q.context (matching R D str search fnmatch refuses q w) (λ y m.
          fail y
            (matching_rules-Applies fnmatch q.resource_type q.resource_id (R.rows w.rules) y m)))
        fresh heard

  -- An evaluation whose transaction raises answers with a denial, and both tables are as before.
  pub evaluate_fails_closed :
      (outage : Option Error) (now : ℕ) (id : String) (q : Query)
      (w : World R D str search fnmatch refuses) {e : Error}
      → (evaluate_in_session R D str search fnmatch refuses outage now id q
          (R.rows w.rules)
          w.decisions).0
        ≡ err e
      → ((evaluate R D str search fnmatch refuses outage now id q w).0
          ≡ ok (error_decision now id q))
        × ((error_decision now id q).effect ≡ deny)
        × ((evaluate R D str search fnmatch refuses outage now id q w).1.decisions ≡ w.decisions)
        × ((evaluate R D str search fnmatch refuses outage now id q w).1.rules ≡ w.rules)
  unfolding error_decision emit
  evaluate_fails_closed outage now id q w h =
      elim (evaluate-ends R D str search fnmatch refuses outage now id q w) [
        | inl (x, d', s, e) ↦ ground (arith, s)
        | inr e ↦ rw e (
          refl,
          refl,
          (emit_tables (policy_denied (error_decision now id q)) w).0,
          (emit_tables (policy_denied (error_decision now id q)) w).1,
        )
      ]

  -- An evaluation raises only what the audit service raised for the event of its decision, which is
  -- recorded all the same.
  evaluate_raises :
      (outage : Option Error) (now : ℕ) (id : String) (q : Query)
      (w : World R D str search fnmatch refuses) {e : Error}
      → (evaluate R D str search fnmatch refuses outage now id q w).0 ≡ err e
      → (x : PolicyDecision) × (refuses (policy_evaluated x) ≡ some e)
        × (D.get x.id (evaluate R D str search fnmatch refuses outage now id q w).1.decisions
            ≡ some x)
  unfolding emit
  evaluate_raises outage now id q w h =
      elim (evaluate-ends R D str search fnmatch refuses outage now id q w) [
        | inr e ↦ ground arith
        | inl (x, d', s, e) ↦ elim (Option-cases (refuses (policy_evaluated x))) [
          | inl n ↦ ground arith
          | inr (f, r) ↦
              let (m, c, c', a) =
                session_ok R D str search fnmatch refuses outage now id q (R.rows w.rules)
                  w.decisions s in
              (
                x,
                ground arith,
                rw e
                    (rw (r, emit) (get-recorded R D str search fnmatch refuses x w.decisions d' a)),
              )
        ]
      ]
