-- ===== src/Approval/Decide.antt =====
-- What `approve` and `reject` accept, and what a refusal leaves behind.
use syndicateclaw.Base.{
  ℕ, String, ◌≡◌, refl, ◌∙◌, ap, ◌⊎◌, Bool-cases, if◌then◌else◌, runtime_error, true, false, some,
  [], ◌∷◌, ◌++◌, string_eq, contains, ok, err, value_error, arith, Option-cases, inl, inr,
}
use syndicateclaw.Storage.{Sessions}
use syndicateclaw.Storage.Outcome.{transaction-Outcome}
use syndicateclaw.Approval.Row.{
  Status, pending, ApprovalRow, assignees, is_requester, past_deadline,
}
use syndicateclaw.Approval.Service.{
  World, EventType, finish, decided, decide_in_session, decide, expire, decision_event,
}

-- The request may be decided by the approver at this time.
pub record MayDecide (now : ℕ) (approver : String) (row : ApprovalRow) : Type 0 where
  pub still_pending : row.status ≡ pending
  pub not_own : is_requester row.requested_by approver ≡ false
  pub assigned : contains (assignees row.assigned_to) approver ≡ true
  pub in_time : past_deadline row.expires_at now ≡ false

-- What a transaction committed stays, whether or not the audit service raises.
pub finish_db :
    (S : Sessions ApprovalRow (λ r. r.id)) (event : EventType) (actor : String) (row : ApprovalRow)
    (d : S.Db) (w : World S)
    → (finish S event actor (ok row, d) w).1.db ≡ d
finish_db S event actor row d w = elim (Bool-cases w.audit_fails) [
  | inl t ↦ rw t refl
  | inr f ↦ rw f refl
]

module _ (S : Sessions ApprovalRow (λ r. r.id)) (now : ℕ) (k a reason : String) (st : Status) where
  pub session_accepts :
      (d : S.Db) {row : ApprovalRow}
      → S.get k d ≡ some row
      → MayDecide now a row
      → decide_in_session S now k a reason st d
        ≡ (ok (decided now a reason st row), S.merge (decided now a reason st row) d)
  unfolding decide_in_session
  session_accepts d e m = ground arith

  pub session_accepted :
      (d : S.Db) {r : ApprovalRow} {d' : S.Db}
      → decide_in_session S now k a reason st d ≡ (ok r, d')
      → (row : ApprovalRow) × (S.get k d ≡ some row)
        × MayDecide now a row
        × (r ≡ decided now a reason st row)
        × (d' ≡ S.merge r d)
  unfolding decide_in_session
  session_accepted d h = elim (Option-cases (S.get k d)) [
    | inl e ↦ ground arith
    | inr (row, e) ↦ (row, e, ground arith, ground arith, ground arith)
  ]

  -- the world after an accepted decision
  abbrev pub after_decision : ApprovalRow → World S → World S
  after_decision row w = record w {
    db = S.merge (decided now a reason st row) w.db;
    audit =
        w.audit
        ++ record {
          event_type = decision_event st;
          actor = a;
          request = decided now a reason st row;
        }
          ∷ [];
  }

  -- When the request is there, pending, not the approver's own, assigned to the approver and before
  -- its deadline, the stored row carries the decision. The call then succeeds and emits one audit
  -- event, or, where the audit service raises, it raises although the request is decided.
  pub decide_accepts :
      (w : World S) {row : ApprovalRow}
      → S.get k w.db ≡ some row
      → MayDecide now a row
      → decide S now k a reason st w ≡ (
          if w.audit_fails
          then (err runtime_error, record w { db = S.merge (decided now a reason st row) w.db })
          else (ok (decided now a reason st row), after_decision row w))
  unfolding decide
  decide_accepts w {row} e m = rw (
      S.commits ApprovalRow (decide_in_session S now k a reason st) w.db (session_accepts w.db e m))

  -- It succeeds in no other case.
  pub decide_accepted :
      (w : World S) {r : ApprovalRow}
      → (decide S now k a reason st w).0 ≡ ok r
      → (row : ApprovalRow) × (S.get k w.db ≡ some row)
        × MayDecide now a row
        × (r ≡ decided now a reason st row)
        × ((decide S now k a reason st w).1 ≡ after_decision row w)
  unfolding decide
  decide_accepted w {r} h =
      elim (transaction-Outcome S ApprovalRow (decide_in_session S now k a reason st) w.db) [
        | inl (x, e, t) ↦
            let (row, held, may, shape, written) = session_accepted w.db e in
            (row, held, may, ground arith, ground arith)
        | inr (x, e, t) ↦ ground arith
      ]

  -- A call leaves the database, or decides the request, which may be decided.
  pub decide_written :
      (w : World S)
      → ((decide S now k a reason st w).1.db ≡ w.db)
        ⊎ ((row : ApprovalRow) × (S.get k w.db ≡ some row)
            × MayDecide now a row
            × ((decide S now k a reason st w).1.db ≡ S.merge (decided now a reason st row) w.db))
  unfolding decide
  decide_written w =
      elim (transaction-Outcome S ApprovalRow (decide_in_session S now k a reason st) w.db) [
        | inl (x, q, t) ↦
            let (row, held, may, shape, written) = session_accepted w.db q in
            let db =
              ap (λ p. (finish S (decision_event st) a p w).1.db) t
              ∙ finish_db S (decision_event st) a x _ w in
            inr (row, held, may, db ∙ written ∙ ap (λ r. S.merge r w.db) shape)
        | inr (x, q, t) ↦ inl (rw t refl)
      ]

  session_late :
      (d : S.Db) {row : ApprovalRow}
      → S.get k d ≡ some row
      → row.status ≡ pending
      → is_requester row.requested_by a ≡ false
      → contains (assignees row.assigned_to) a ≡ true
      → past_deadline row.expires_at now ≡ true
      → decide_in_session S now k a reason st d ≡ (err value_error, S.merge (expire now row) d)
  unfolding decide_in_session
  session_late d held p own as' late = ground arith

  -- Who decides past the deadline, with all else in order, gets an error, and the request stays
  -- pending: the mark EXPIRED that the transaction wrote is rolled back with it.
  pub late_decision :
      (w : World S) {row : ApprovalRow}
      → S.get k w.db ≡ some row
      → row.status ≡ pending
      → is_requester row.requested_by a ≡ false
      → contains (assignees row.assigned_to) a ≡ true
      → past_deadline row.expires_at now ≡ true
      → decide S now k a reason st w ≡ (err value_error, w)
  unfolding decide
  late_decision w held p own as' late = rw (
      S.rolls_back ApprovalRow (decide_in_session S now k a reason st) w.db
        (session_late w.db held p own as' late))
