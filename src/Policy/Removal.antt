-- ===== src/Policy/Removal.antt =====
-- What `PolicyEngine.delete_rule` means for later evaluations.
use syndicateclaw.Base.{
  ℕ, String, ◌≡◌, ◌≢◌, refl, sym, Bool, false, Option, some, inl, inr, arith, In, Option-cases,
  Error, Result, ok, string_eq, ◌∙◌, ap, eq_refl,
}
use syndicateclaw.Storage.{Sessions}
use syndicateclaw.Json.{Value}
use syndicateclaw.Policy.Rules.{deny, PolicyRow}
use syndicateclaw.Policy.Engine.{
  Query, PolicyDecision, Event, policy_deleted, World, emit, evaluate, concluded, delete_rule,
  change_rule, disabled, finish, ignored,
}
use syndicateclaw.Policy.Verdict.{evaluate_sound}

module _ (R : Sessions PolicyRow (λ r. r.id)) (D : Sessions PolicyDecision (λ d. d.id))
    (str : Value → String) (search : String → String → Result Bool)
    (fnmatch : String → String → Bool) (refuses : Event → Option Error) where
  finish_rules :
      (event : PolicyRow → Event) (a : PolicyRow) (d : R.Db)
      (w : World R D str search fnmatch refuses)
      → (ignored R D str search fnmatch refuses
          (finish R D str search fnmatch refuses event (ok a, d) w)).1.rules
        ≡ d
  unfolding emit
  finish_rules event a d w = elim (Option-cases (refuses (event a))) [
    | inl n ↦ ground arith
    | inr (e, r) ↦ ground arith
  ]

  delete_rule-rules :
      (now : ℕ) (rule_id actor : String) (w : World R D str search fnmatch refuses)
      {row : PolicyRow}
      → R.get rule_id w.rules ≡ some row
      → (delete_rule R D str search fnmatch refuses now rule_id actor w).1.rules
        ≡ R.merge (disabled R D str search fnmatch refuses now row) w.rules
  unfolding delete_rule emit
  delete_rule-rules now rule_id actor w {row} s =
      let changed : change_rule R D str search fnmatch refuses rule_id
            (disabled R D str search fnmatch refuses now) w.rules
          ≡ (
            ok (disabled R D str search fnmatch refuses now row),
            R.merge (disabled R D str search fnmatch refuses now row) w.rules,
          ) =
        rw (s, change_rule) refl in
      let t =
        R.commits PolicyRow
          (change_rule R D str search fnmatch refuses rule_id
            (disabled R D str search fnmatch refuses now))
          w.rules changed in
      rw (t, delete_rule) (finish_rules (λ r. policy_deleted rule_id actor) _ _ w)

  -- a row that is stored under the id after it was stored as disabled
  stored_disabled :
      (now : ℕ) (rule_id : String) (d : R.Db) {row : PolicyRow}
      → R.get rule_id d ≡ some row
      → (r : PolicyRow)
      → In r (R.rows (R.merge (disabled R D str search fnmatch refuses now row) d))
      → r.id ≡ rule_id
      → r.enabled ≡ false
  stored_disabled now rule_id d {row} s r m e =
      let key = (R.rows_all rule_id d s).1 in
      let held = R.rows_held r _ m in
      let got = R.get-merge r.id (disabled R D str search fnmatch refuses now row) d in
      ground (arith, held, got, key, e, eq_refl rule_id)

  -- In the state that the deletion of a stored rule leaves, no decision but a denial is that rule's.
  pub delete_rule_stops :
      (now : ℕ) (rule_id actor : String) (w : World R D str search fnmatch refuses)
      {row : PolicyRow}
      → R.get rule_id w.rules ≡ some row
      → (outage : Option Error) (later : ℕ) (id : String) (q : Query) {d : PolicyDecision}
      → (evaluate R D str search fnmatch refuses outage later id q
          (delete_rule R D str search fnmatch refuses now rule_id actor w).1).0
        ≡ ok d
      → d.effect ≢ deny
      → d.rule_id ≢ rule_id
  unfolding concluded
  delete_rule_stops now rule_id actor w {row} s outage later id q h n same =
      let w' = (delete_rule R D str search fnmatch refuses now rule_id actor w).1 in
      let (m, e, a, wins, recorded) =
        evaluate_sound R D str search fnmatch refuses outage later id q w' h n in
      let its : m.rule.id ≡ rule_id = sym (ap (λ d. d.rule_id) e) ∙ same in
      let there : In m.rule
          (R.rows (R.merge (disabled R D str search fnmatch refuses now row) w.rules)) =
        rw (← delete_rule-rules now rule_id actor w s) a.stored in
      let off = stored_disabled now rule_id w.rules s m.rule there its in
      ground (arith, off, a.of_type)
