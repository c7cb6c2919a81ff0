-- ===== src/Workflow/ResumeTests.antt =====
-- A run that waits for an approval, resumed twice.
use syndicateclaw.Base.{
  ℕ, suc, true, ◌≡◌, ◌≤◌, refl, none, some, String, List, [], ◌∷◌, if◌then◌else◌, ◌==◌, string_eq,
}
use syndicateclaw.Json.{Value, text, empty, field}
use syndicateclaw.Approval.Row.{approved}
use syndicateclaw.Workflow.Node.{waiting_approval}
use syndicateclaw.Workflow.Resume.{
  Approval, RunRow, Tables, resume_node, consume, resume_after_approval,
}
use syndicateclaw.Workflow.OneShot.{is_consumed}
use syndicateclaw.Workflow.Resumes.{Call, KeepsConsumed, resumes, resumes_once}

abbrev text_of : Value → String
text_of (text s) = s
text_of _ = ""

abbrev granted : Approval
granted = record { run_id = "r1"; status = approved; tool_name = "http"; context = empty }

abbrev waiting : RunRow
waiting = record {
  id = "r1";
  status = waiting_approval;
  state = field "_resume_from" (text "call") empty;
}

abbrev tables : Tables
tables = record {
  approvals = λ k. if k == "q1" then some granted else none;
  runs = λ k. if k == "r1" then some waiting else none;
}

-- An engine that counts the executions.
abbrev count : RunRow → Tables × ℕ → Tables × ℕ
count run (d, n) = (d, suc n)

-- One whose node waits again and writes the approval anew, as it was granted.
abbrev reset : RunRow → Tables × ℕ → Tables × ℕ
reset run (d, n) = (tables, suc n)

abbrev call : Call
call = record { now = "12:00"; run_id = "r1"; approval_id = "q1" }

abbrev calls : List Call
calls = call ∷ call ∷ []

executed_once : (resume_after_approval text_of count "12:00" "r1" "q1" (tables, 0)).1.1 ≡ 1
unfolding resume_after_approval consume resume_node
executed_once = refl

resumed_once : resumes text_of count "q1" calls (tables, 0) ≡ 1
unfolding resumes resume_after_approval consume resume_node
resumed_once = refl

reset_twice : resumes text_of reset "q1" calls (tables, 0) ≡ 2
unfolding resumes resume_after_approval consume resume_node
reset_twice = refl

count-KeepsConsumed : KeepsConsumed text_of count "q1"
count-KeepsConsumed run d e approval stored consumed = (approval, stored, consumed)

resumes_once_example :
    (resumes text_of count "q1" calls (tables, 0) ≤ 1)
    × ((approval : Approval)
        → some granted ≡ some approval
        → is_consumed approval.context ≡ true
        → resumes text_of count "q1" calls (tables, 0) ≡ 0)
resumes_once_example =
    resumes_once text_of count "q1" calls tables 0 (refl, (refl, tt)) count-KeepsConsumed
