-- ===== src/Approval/Lifecycle.antt =====
-- What holds of a request over any sequence of calls.
use syndicateclaw.Base.{
  ℕ, String, ◌≡◌, ◌≢◌, refl, true, false, Option, some, string_eq, contains, arith, ◌⊎◌, subst,
}
use syndicateclaw.Storage.{Sessions}
use syndicateclaw.Approval.Row.{
  Status, pending, approved, rejected, ApprovalRow, assignees, is_requester, past_deadline,
}
use syndicateclaw.Approval.Service.{World, decided}
use syndicateclaw.Approval.Decide.{MayDecide}
use syndicateclaw.Approval.Transitions.{
  Change, kept, created, decision, timed_out, Reach, here, next, Step-Change,
}

-- The decision that a stored row carries was made by an assigned approver, who is not the
-- requester, before the deadline.
abbrev pub IsProper : ApprovalRow → Type 0
IsProper r =
    (a : String) × (t : ℕ) × (r.decided_by ≡ some a)
    × (r.decided_at ≡ some t)
    × (is_requester r.requested_by a ≡ false)
    × (contains (assignees r.assigned_to) a ≡ true)
    × (past_deadline r.expires_at t ≡ false)

abbrev pub Justified : ApprovalRow → Type 0
Justified r = (r.status ≡ approved) ⊎ (r.status ≡ rejected) → IsProper r

abbrev pub JustifiedAt : Option ApprovalRow → Type 0
JustifiedAt o = (r : ApprovalRow) → o ≡ some r → Justified r

pending_undecided : (r : ApprovalRow) → r.status ≡ pending → Justified r
pending_undecided r p h = ground arith

decided-Justified :
    (now : ℕ) (a reason : String) (st : Status) (r : ApprovalRow)
    → MayDecide now a r
    → Justified (decided now a reason st r)
decided-Justified now a reason st r m h = (a, now, refl, refl, m.not_own, m.assigned, m.in_time)

Change-Justified : {o o' : Option ApprovalRow} → Change o o' → JustifiedAt o → JustifiedAt o'
Change-Justified (kept e) h x q = h x (ground arith)
Change-Justified (created r p e) h x q =
    let same : r ≡ x = ground arith in subst Justified same (pending_undecided r p)
Change-Justified (decision now a reason st r f m e e') h x q =
    let same : decided now a reason st r ≡ x = ground arith in
    subst Justified same (decided-Justified now a reason st r m)
Change-Justified (timed_out now r s e e') h x q = λ f. ground arith

Change-final :
    {o o' : Option ApprovalRow} (r : ApprovalRow)
    → Change o o'
    → o ≡ some r
    → r.status ≢ pending
    → o' ≡ some r
Change-final r (kept e) h n = ground arith
Change-final r (created x p e) h n = ground arith
Change-final r (decision now a reason st x f m e e') h n = ground arith
Change-final r (timed_out now x s e e') h n = ground arith

module _ (S : Sessions ApprovalRow (λ r. r.id)) where
  abbrev pub AllJustified : World S → Type 0
  AllJustified w = (k : String) → JustifiedAt (S.get k w.db)

  -- Whatever calls the service gets, and whether or not the audit service raises in them, every
  -- approved or rejected request was decided by an assigned approver other than its requester, before
  -- its deadline, if that held before.
  pub Reach-AllJustified : {w w' : World S} → AllJustified w → Reach S w w' → AllJustified w'
  Reach-AllJustified h here k = h k
  Reach-AllJustified h (next r st) k =
      Change-Justified (Step-Change S k st) (Reach-AllJustified h r k)

  -- A request that is approved, rejected or expired is never changed again, whether or not the audit
  -- service raises.
  pub Reach-final :
      {w w' : World S} (k : String) (row : ApprovalRow)
      → Reach S w w'
      → S.get k w.db ≡ some row
      → row.status ≢ pending
      → S.get k w'.db ≡ some row
  Reach-final k row here h n = h
  Reach-final k row (next r st) h n =
      Change-final row (Step-Change S k st) (Reach-final k row r h n) n
