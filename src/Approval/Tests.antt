-- ===== src/Approval/Tests.antt =====
-- The approval service on concrete requests.
use syndicateclaw.Base.{
  ◌≡◌, refl, true, false, none, some, [], ◌∷◌, arith, ok, err, permission_error,
}
use syndicateclaw.Storage.{Sessions}
use syndicateclaw.Storage.ListTable.{list_table}
use syndicateclaw.Approval.Authority.{critical, high, default_authorities}
use syndicateclaw.Approval.Row.{pending, approved, ApprovalRow}
use syndicateclaw.Approval.Service.{
  World, Request, Resolver, decide, decide_in_session, decided, approve, expire_stale,
  request_approval,
}
use syndicateclaw.Approval.Decide.{MayDecide, after_decision, decide_accepts, decide_accepted}
use syndicateclaw.Approval.Transitions.{Reach, here, next, requests, approves, expires}
use syndicateclaw.Approval.Lifecycle.{AllJustified, Reach-AllJustified, Reach-final}

abbrev table : Sessions ApprovalRow (λ r. r.id)
table = list_table (λ r. r.id)

abbrev row : ApprovalRow
row = record {
  id = "q1";
  run_id = "run";
  node_execution_id = "node";
  tool_name = "http";
  action_description = "call out";
  risk_level = high;
  status = pending;
  requested_by = some "dev";
  assigned_to = some ("admin:security" ∷ "admin:lead" ∷ []);
  decided_by = none;
  decided_at = none;
  decision_reason = none;
  expires_at = some 100;
  updated_at = 1;
}

abbrev empty : World table
empty = record { db = []; audit = []; audit_fails = false }

abbrev one : World table
one = record { db = row ∷ []; audit = []; audit_fails = false }

row_may : MayDecide 50 "admin:lead" row
row_may = record { still_pending = refl; not_own = refl; assigned = refl; in_time = refl }

decide_accepts_example : decide table 50 "q1" "admin:lead" "fine" approved one ≡ (
  ok (decided 50 "admin:lead" "fine" approved row),
  after_decision table 50 "q1" "admin:lead" "fine" approved row one,
)
decide_accepts_example =
    decide_accepts table 50 "q1" "admin:lead" "fine" approved one {row = row} refl row_may

abbrev approved_row : ApprovalRow
approved_row = decided 50 "admin:lead" "fine" approved row

decide-runs : (decide table 50 "q1" "admin:lead" "fine" approved one).0 ≡ ok approved_row
unfolding decide decide_in_session
decide-runs = refl

decide_accepted_example :
    (r : ApprovalRow) × (table.get "q1" one.db ≡ some r)
    × MayDecide 50 "admin:lead" r
    × (approved_row ≡ decided 50 "admin:lead" "fine" approved r)
    × ((decide table 50 "q1" "admin:lead" "fine" approved one).1
        ≡ after_decision table 50 "q1" "admin:lead" "fine" approved r one)
decide_accepted_example = decide_accepted table 50 "q1" "admin:lead" "fine" approved one decide-runs

-- The requester may not decide.
own_decision : (decide table 50 "q1" "dev" "mine" approved one).0 ≡ err permission_error
unfolding decide decide_in_session
own_decision = refl

abbrev request : Request
request = record {
  id = "q2";
  run_id = "run";
  node_execution_id = "node";
  tool_name = none;
  action_description = "delete";
  risk_level = critical;
  assigned_to = "friend" ∷ [];
  expires_at = 300;
}

abbrev resolver : Resolver
resolver = record {
  fnmatch = λ name pattern. true;
  authorities = default_authorities;
  lookup = none;
}

abbrev after_request : World table
after_request = (request_approval table 10 (some resolver) true request "dev" empty).1

abbrev after_approval : World table
after_approval = (approve table 20 "q2" "admin:ciso" "go" after_request).1

history : Reach table empty after_approval
history =
    next (next here (requests 10 (some resolver) true request "dev" refl))
      (approves 20 "q2" "admin:ciso" "go" refl)

Reach-AllJustified_example : AllJustified table after_approval
Reach-AllJustified_example = Reach-AllJustified table (λ k r e. ground arith) history

abbrev settled : World table
settled = record { db = approved_row ∷ []; audit = []; audit_fails = false }

Reach-final_example : table.get "q1" (expire_stale table 900 settled).1.db ≡ some approved_row
Reach-final_example =
    Reach-final table "q1" approved_row (next here (expires 900 refl)) refl (λ e. ground arith)
