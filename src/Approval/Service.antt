-- ===== src/Approval/Service.antt =====
-- `ApprovalService` of src/syndicateclaw/approval/service.py, method by method.
-- A service call reads the clock once (`now`). Its state is the database and the audit events
-- that it has handed to the audit service, the oldest first, or the audit service raises
-- (`audit_fails`): it is called after the transaction, so what was written stays.
use syndicateclaw.Base.{
  ℕ, String, Bool, true, not, ◌&&◌, Option, none, some, List, [], ◌∷◌, ◌++◌, ◌==◌, string_eq,
  contains, if◌then◌else◌, keep, length, map, Result, ok, err, Exec, raise, gets, or_raise,
  raise_if, ◌>>=◌, ◌>>◌, value_error, permission_error, runtime_error,
}
use syndicateclaw.Storage.{Sessions}
use syndicateclaw.Approval.Authority.{
  RiskLevel, ToolRule, Authorities, resolve, resolve_from_policy,
}
use syndicateclaw.Approval.Row.{
  Status, pending, approved, rejected, expired, status_eq, ApprovalRow, assignees, is_requester,
  past_deadline,
}

pub data EventType : Type 0 where
  approval_requested approval_approved approval_rejected approval_expired : EventType

pub record Event : Type 0 where
  pub event_type : EventType
  pub actor : String
  pub request : ApprovalRow

abbrev pub decision_event : Status → EventType
decision_event approved = approval_approved
decision_event _ = approval_rejected

-- The row as `_decide` leaves it.
abbrev pub decided : ℕ → String → String → Status → ApprovalRow → ApprovalRow
decided now approver reason status row = record row {
  status = status;
  decided_by = some approver;
  decided_at = some now;
  decision_reason = some reason;
  updated_at = now;
}

abbrev pub expire : ℕ → ApprovalRow → ApprovalRow
expire now row = record row { status = expired; updated_at = now }

-- `get_expired_pending`
abbrev pub is_stale : ℕ → ApprovalRow → Bool
is_stale now row = row.status == pending && past_deadline row.expires_at now

-- `ApprovalRequest` as a client hands it in.
pub record Request : Type 0 where
  pub id : String
  pub run_id : String
  pub node_execution_id : String
  pub tool_name : Option String
  pub action_description : String
  pub risk_level : RiskLevel
  pub assigned_to : List String
  pub expires_at : ℕ

-- An `ApprovalAuthorityResolver`, with what its lookup of the tools' rules finds.
pub record Resolver : Type 0 where
  pub fnmatch : String → String → Bool
  pub authorities : Authorities
  pub lookup : Option (Option (List ToolRule))

abbrev pub text_or_empty : Option String → String
text_or_empty (some t) = t
text_or_empty none = ""

unfoldable pub resolve_approvers : Resolver → Request → String → List String
resolve_approvers v request actor =
    resolve v.authorities request.risk_level actor
      (resolve_from_policy v.fnmatch v.lookup (text_or_empty request.tool_name))

-- The approvers of a new request: the resolver's where there is one and it is asked for, else the
-- client's, which must be some.
unfoldable pub approvers : Option Resolver → Bool → Request → String → Result (List String)
approvers (some v) true request actor = ok (resolve_approvers v request actor)
approvers _ _ request actor = elim request.assigned_to [
  | [] ↦ err value_error
  | a ∷ rest ↦ ok (a ∷ rest)
]

-- The row that is inserted. The database fills `updated_at` from its clock.
abbrev pub request_row : ℕ → Request → String → List String → ApprovalRow
request_row now request actor assigned = record {
  id = request.id;
  run_id = request.run_id;
  node_execution_id = request.node_execution_id;
  tool_name = text_or_empty request.tool_name;
  action_description = request.action_description;
  risk_level = request.risk_level;
  status = pending;
  requested_by = some actor;
  assigned_to = some assigned;
  decided_by = none;
  decided_at = none;
  decision_reason = none;
  expires_at = some request.expires_at;
  updated_at = now;
}

module _ (S : Sessions ApprovalRow (λ r. r.id)) where
  pub record World : Type 0 where
    pub db : S.Db
    pub audit : List Event
    pub audit_fails : Bool

  -- `repo.update`
  abbrev pub update : ApprovalRow → Exec S.Db ApprovalRow
  update row d = (ok row, S.merge row d)

  abbrev pub create : ApprovalRow → Exec S.Db ApprovalRow
  create row d = elim (S.add row d) [ ok d' ↦ (ok row, d') | err e ↦ (err e, d) ]

  -- the block under `session.begin()` in `_decide`
  unfoldable pub decide_in_session : ℕ → String → String → String → Status → Exec S.Db ApprovalRow
  decide_in_session now request_id approver reason status = do
    row ← or_raise (← gets (S.get request_id)) value_error
    raise_if (not (row.status == pending)) value_error (
        raise_if (is_requester row.requested_by approver) permission_error (
          raise_if (not (contains (assignees row.assigned_to) approver)) permission_error (
            if past_deadline row.expires_at now
            then (do update (expire now row); raise value_error)
            else update (decided now approver reason status row))))

  -- what follows a transaction: the error, or one audit event and the row
  abbrev pub finish : EventType → String → Result ApprovalRow × S.Db → Exec World ApprovalRow
  finish event actor (ok row, d) w =
      if w.audit_fails then (err runtime_error, record w { db = d }) else (
        ok row,
        record w {
          db = d;
          audit = w.audit ++ record { event_type = event; actor = actor; request = row } ∷ [];
        },
      )
  finish event actor (err e, d) w = (err e, record w { db = d })

  -- `_decide`
  unfoldable pub decide : ℕ → String → String → String → Status → Exec World ApprovalRow
  decide now request_id approver reason status w =
      finish (decision_event status) approver
        (S.transaction ApprovalRow (decide_in_session now request_id approver reason status) w.db) w

  unfoldable pub approve : ℕ → String → String → String → Exec World ApprovalRow
  unfolding decide
  approve now request_id approver reason = decide now request_id approver reason approved

  unfoldable pub reject : ℕ → String → String → String → Exec World ApprovalRow
  unfolding decide
  reject now request_id approver reason = decide now request_id approver reason rejected

  unfoldable pub request_approval :
      ℕ → Option Resolver → Bool → Request → String → Exec World ApprovalRow
  request_approval now resolver resolve_authority request actor w =
      if request.action_description == ""
      then (err value_error, w)
      else elim (approvers resolver resolve_authority request actor) [
        | err e ↦ (err e, w)
        | ok assigned ↦
            finish approval_requested actor
              (S.transaction ApprovalRow (create (request_row now request actor assigned)) w.db) w
      ]

  -- the loop of `expire_stale` over the rows that its query returned
  unfoldable pub expire_rows : ℕ → List ApprovalRow → S.Db → S.Db
  expire_rows now [] d = d
  expire_rows now (row ∷ rest) d = expire_rows now rest (S.merge (expire now row) d)

  unfoldable pub expire_in_session : ℕ → Exec S.Db (List ApprovalRow)
  unfolding expire_rows
  expire_in_session now d =
      let stale = keep (is_stale now) (S.rows d) in
      (ok (map (expire now) stale), expire_rows now stale d)

  -- the audit events and the count after the transaction; without a row there is no event
  abbrev pub report_expired : Result (List ApprovalRow) × S.Db → Exec World ℕ
  report_expired (ok [], d) w = (ok 0, record w { db = d })
  report_expired (ok (r ∷ rs), d) w =
      let rows = r ∷ rs in
      if w.audit_fails then (err runtime_error, record w { db = d }) else (
        ok (length rows),
        record w {
          db = d;
          audit =
              w.audit
              ++ map
                  (λ row. record { event_type = approval_expired; actor = "system"; request = row })
                  rows;
        },
      )
  report_expired (err e, d) w = (err e, record w { db = d })

  unfoldable pub expire_stale : ℕ → Exec World ℕ
  unfolding expire_in_session
  expire_stale now w =
      report_expired (S.transaction (List ApprovalRow) (expire_in_session now) w.db) w

  -- `get_pending`: all, or those with the assignee among the assigned
  unfoldable pub get_pending : Option String → World → List ApprovalRow
  get_pending none w = keep (λ r. r.status == pending) (S.rows w.db)
  get_pending (some a) w =
      if a == ""
      then keep (λ r. r.status == pending) (S.rows w.db)
      else keep (λ r. r.status == pending && contains (assignees r.assigned_to) a) (S.rows w.db)
