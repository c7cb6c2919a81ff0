-- ===== src/Policy/Verdict.antt =====
-- What `PolicyEngine.evaluate` decides, records and raises.
use syndicateclaw.Base.{eq_refl}
use syndicateclaw.Base.{
  ℕ, String, ◌≡◌, ◌≢◌, refl, sym, Bool, Option, none, some, List, ◌⊎◌, inl, inr, arith,
  Option-cases, Error, Result, ok, Result-cases, ok-injective, string_eq, ◌∙◌, ap,
}
use syndicateclaw.Storage.{Sessions}
use syndicateclaw.Storage.Outcome.{transaction-Outcome}
use syndicateclaw.Json.{Value}
use syndicateclaw.Policy.Rules.{deny, PolicyRow, Match, first_match, matching_rules}
use syndicateclaw.Policy.Engine.{
  Query, PolicyDecision, Event, policy_evaluated, policy_denied, World, emit, save,
  evaluate_in_session, evaluate, concluded, error_decision, reported,
}
use syndicateclaw.Policy.Priority.{
  Applies, matching_rules-Applies, matching_rules-IsSorted, Wins, first_match-Wins,
}

module _ (R : Sessions PolicyRow (λ r. r.id)) (D : Sessions PolicyDecision (λ d. d.id))
    (str : Value → String) (search : String → String → Result Bool)
    (fnmatch : String → String → Bool) (refuses : Event → Option Error) where
  abbrev pub matching : Query → World R D str search fnmatch refuses → List PolicyRow
  matching q w = matching_rules fnmatch q.resource_type q.resource_id (R.rows w.rules)

  pub session_ok :
      (outage : Option Error) (now : ℕ) (id : String) (q : Query) (rows : List PolicyRow) (d : D.Db)
      {x : PolicyDecision} {d' : D.Db}
      → evaluate_in_session R D str search fnmatch refuses outage now id q rows d ≡ (ok x, d')
      → (m : Option Match) × (first_match str search
            (matching_rules fnmatch q.resource_type q.resource_id rows)
            q.context
          ≡ ok m)
        × (x ≡ concluded now id q m)
        × (D.add x d ≡ ok d')
  unfolding evaluate_in_session
  session_ok (some e) now id q rows d h = ground arith
  session_ok none now id q rows d {x} {d'} h =
      elim (Result-cases (
        first_match str search (matching_rules fnmatch q.resource_type q.resource_id rows)
          q.context)) [
            | inr (e, c) ↦ ground arith
            | inl (m, c) ↦
                let saved : save R D str search fnmatch refuses (concluded now id q m) d
                    ≡ (ok x, d') =
                  rw (c, evaluate_in_session) at h in
                elim (Result-cases (D.add (concluded now id q m) d)) [
                  | inr (e, a) ↦ ground arith
                  | inl (d2, a) ↦
                      let same : x ≡ concluded now id q m = ground arith in
                      (m, c, same, rw same (ground arith))
                ]
          ]

  -- how a whole evaluation ends
  abbrev pub Ended :
      Option Error → ℕ → String → Query → World R D str search fnmatch refuses → Type 0
  Ended outage now id q w =
      ((x : PolicyDecision) × (d' : D.Db) × (evaluate_in_session R D str search fnmatch refuses
            outage now id q (R.rows w.rules) w.decisions
          ≡ (ok x, d'))
        × (evaluate R D str search fnmatch refuses outage now id q w
            ≡ reported R D str search fnmatch refuses x (
                emit R D str search fnmatch refuses (policy_evaluated x)
                  (record w { decisions = d' }))))
      ⊎ (evaluate R D str search fnmatch refuses outage now id q w ≡ (
        ok (error_decision now id q),
        (emit R D str search fnmatch refuses (policy_denied (error_decision now id q)) w).1,
      ))

  pub evaluate-ends :
      (outage : Option Error) (now : ℕ) (id : String) (q : Query)
      (w : World R D str search fnmatch refuses)
      → Ended outage now id q w
  unfolding evaluate
  evaluate-ends outage now id q w =
      elim (transaction-Outcome D PolicyDecision
        (evaluate_in_session R D str search fnmatch refuses outage now id q (R.rows w.rules))
        w.decisions) [
          | inl (x, e, t) ↦ inl (x, _, e, rw (t, evaluate) refl)
          | inr (e, h, t) ↦ inr (rw (t, evaluate) refl)
        ]

  pub reported_ok :
      (x : PolicyDecision) (event : Event) (w : World R D str search fnmatch refuses)
      {d : PolicyDecision}
      → (reported R D str search fnmatch refuses x (emit R D str search fnmatch refuses event w)).0
        ≡ ok d
      → (x ≡ d)
        × ((reported R D str search fnmatch refuses x
              (emit R D str search fnmatch refuses event w)).1.decisions
            ≡ w.decisions)
  unfolding emit
  reported_ok x event w h = elim (Option-cases (refuses event)) [
    | inl n ↦ (ground arith, ground arith)
    | inr (e, r) ↦ ground arith
  ]

  pub get-recorded : (x : PolicyDecision) (d d' : D.Db) → D.add x d ≡ ok d' → D.get x.id d' ≡ some x
  get-recorded x d d' a = ground (arith, D.get-add x.id x d a, eq_refl x.id)

  won :
      (w : World R D str search fnmatch refuses) (q : Query) (m : Match)
      → first_match str search (matching q w) q.context ≡ ok (some m)
      → Wins str search q.context (matching q w) m
  won w q m =
      first_match-Wins str search q.context (matching q w)
        (matching_rules-IsSorted fnmatch q.resource_type q.resource_id (R.rows w.rules)) m

  -- A decision that is no denial is that of a stored, enabled rule for the resource whose
  -- conditions all hold and whose effect it has, while every such rule of a higher priority has a
  -- condition that does not hold; and it is recorded under its id.
  pub evaluate_sound :
      (outage : Option Error) (now : ℕ) (id : String) (q : Query)
      (w : World R D str search fnmatch refuses) {d : PolicyDecision}
      → (evaluate R D str search fnmatch refuses outage now id q w).0 ≡ ok d
      → d.effect ≢ deny
      → (m : Match) × (d ≡ concluded now id q (some m))
        × Applies fnmatch q.resource_type q.resource_id (R.rows w.rules) m.rule
        × Wins str search q.context (matching q w) m
        × (D.get d.id (evaluate R D str search fnmatch refuses outage now id q w).1.decisions
            ≡ some d)
  unfolding error_decision concluded
  evaluate_sound outage now id q w {d} h n = elim (evaluate-ends outage now id q w) [
    | inr e ↦
        let made : ok (error_decision now id q) ≡ ok d = rw e at h in
        absurd (n (ap (λ x. x.effect) (sym (ok-injective _ d made))))
    | inl (x, d', s, e) ↦
        let (same, kept) =
          reported_ok x (policy_evaluated x) (record w { decisions = d' }) (rw e at h) in
        let (m, f, c, a) = session_ok outage now id q (R.rows w.rules) w.decisions s in
        let stored = get-recorded x w.decisions d' a in
        elim (Option-cases m) [
          | inl z ↦
              let c' : x ≡ concluded now id q none = rw z at c in
              absurd (n (ap (λ x. x.effect) (sym same ∙ c')))
          | inr (m', z) ↦ (
            m',
            sym same ∙ c ∙ ap (concluded now id q) z,
            matching_rules-Applies fnmatch q.resource_type q.resource_id (R.rows w.rules) m'.rule
                (won w q m' (rw z at f)).chosen,
            won w q m' (rw z at f),
            rw e (rw (kept, ← same) stored),
          )
        ]
  ]
