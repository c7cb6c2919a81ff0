-- ===== src/Workflow/Node.antt =====
-- `WorkflowEngine._execute_node` of src/syndicateclaw/orchestrator/engine.py, for an engine without a
-- database. A handler is a function of the state and the attempt; what it wrote to the state, and
-- whether the run was paused or cancelled while it was awaited, come back beside its outcome.
use syndicateclaw.Base.{
  ℕ, zero, suc, String, Bool, true, false, Option, none, some, List, [], ◌∷◌, ◌++◌, ◌+◌, ◌==◌,
  string_eq, if◌then◌else◌,
}
use syndicateclaw.Json.{
  Value, text, dict, Fields, empty, field, find_field, put_field, update, remove_field,
}
use syndicateclaw.Workflow.Graph.{Node}

pub data RunStatus : Type 0 where
  pending running paused waiting_approval waiting_agent_response completed failed cancelled :
      RunStatus

pub data ExecutionStatus : Type 0 where
  pending running completed waiting_approval waiting_agent_response failed skipped : ExecutionStatus

-- what `run.error` tells
pub data RunError : Type 0 where
  node_not_found no_handler : String → RunError
  node_failed : String → String → RunError
  bound : String → RunError

pub record Run : Type 0 where
  pub id : String
  pub status : RunStatus
  pub state : Fields
  pub error : Option RunError
  pub checkpoint : Option Fields

pub record Execution : Type 0 where
  pub node_id : String
  pub status : ExecutionStatus
  pub attempt : ℕ

pub record NodeResult : Type 0 where
  pub next_node_id : Option String
  pub should_checkpoint : Bool

-- an approval request, as far as the marker of a waiting run shows it
pub record Waiting : Type 0 where
  pub approval_id : String
  pub tool_name : String
  pub requested_at : String

pub data Outcome : Type 0 where
  returns : Fields → NodeResult → Outcome
  pauses waits_for_agent : Outcome
  waits_for_approval : Waiting → Outcome
  raises : String → Outcome

-- what `pause` or `cancel`, called while the handler is awaited, makes of the status
pub data Signal : Type 0 where
  pause_called cancel_called : Signal

pub record Handled : Type 0 where
  pub state : Fields
  pub meanwhile : Option Signal
  pub outcome : Outcome

abbrev pub Handler : Type 0
Handler = Fields → ℕ → Handled

abbrev or_status : Option Signal → RunStatus → RunStatus
or_status none s = s
or_status (some pause_called) s = paused
or_status (some cancel_called) s = cancelled

-- the run after a handler was awaited
abbrev pub awaited : Handled → Run → Run
awaited h run = record run { state = h.state; status = or_status h.meanwhile run.status }

abbrev pub no_result : NodeResult
no_result = record { next_node_id = none; should_checkpoint = false }

pub record Tried : Type 0 where
  pub run : Run
  pub execution : Execution
  pub result : NodeResult
  pub interrupt : Option Waiting

-- what an outcome makes of the run, an exception counting as the last one
unfoldable pub tried : Node → ℕ → Run → Outcome → Tried
tried node attempt after (returns output r) = record {
  run = record after { state = update after.state output };
  execution = record { node_id = node.id; status = ExecutionStatus.completed; attempt = attempt };
  result = r;
  interrupt = none;
}
tried node attempt after pauses = record {
  run = record after { status = paused };
  execution = record { node_id = node.id; status = ExecutionStatus.completed; attempt = attempt };
  result = no_result;
  interrupt = none;
}
tried node attempt after (waits_for_approval request) = record {
  run = record after { status = waiting_approval };
  execution = record {
    node_id = node.id;
    status = ExecutionStatus.waiting_approval;
    attempt = attempt;
  };
  result = no_result;
  interrupt = some request;
}
tried node attempt after waits_for_agent = record {
  run = record after { status = waiting_agent_response };
  execution = record {
    node_id = node.id;
    status = ExecutionStatus.waiting_agent_response;
    attempt = attempt;
  };
  result = no_result;
  interrupt = none;
}
tried node attempt after (raises message) = record {
  run = record after { status = failed; error = some (node_failed node.id message) };
  execution = record { node_id = node.id; status = ExecutionStatus.failed; attempt = attempt };
  result = no_result;
  interrupt = none;
}

abbrev pub is_exception : Outcome → Bool
is_exception (raises message) = true
is_exception _ = false

-- The loop over the attempts, with the number of those behind this one; a retry policy allows at
-- least one.
unfoldable pub try_attempts : Node → Handler → ℕ → ℕ → Run → Tried
unfolding tried
try_attempts node handler zero attempt run =
    let h = handler run.state attempt in tried node attempt (awaited h run) h.outcome
try_attempts node handler (suc more) attempt run =
    let h = handler run.state attempt in
    let next = try_attempts node handler more (attempt + 1) (awaited h run) in
    if is_exception h.outcome then next else tried node attempt (awaited h run) h.outcome

abbrev is_marker_for : String → Option Value → Bool
is_marker_for id (some (dict fs)) = elim (find_field "node_id" fs) [
  | some (text t) ↦ t == id
  | _ ↦ false
]
is_marker_for id _ = false

-- `_clear_consumed_resume_marker`
unfoldable pub clear_resume_marker : String → Fields → Fields
clear_resume_marker node_id state =
    if is_marker_for node_id (find_field "_approval_resume" state)
    then remove_field "_waiting_approval" (
        remove_field "_resume_from"
          (remove_field "_approved_approval_id" (remove_field "_approval_resume" state)))
    else state

-- The markers that `_prepare_approval_interrupt` leaves in the state, and the checkpoint.
unfoldable pub prepare_interrupt : Node → Waiting → Run → Run
prepare_interrupt node request run =
    let waiting = field "approval_id" (text request.approval_id) (
      field "tool_name" (text request.tool_name) (
        field "node_id" (text node.id) (
          field "run_id" (text run.id)
            (field "requested_at" (text request.requested_at) empty)))) in
    let state = put_field "_pending_approval_id" (text request.approval_id) (
      put_field "_resume_from" (text node.id)
        (put_field "_waiting_approval" (dict waiting) run.state)) in
    record run { state = state; checkpoint = some state }

-- How a node leaves: with a result, or by raising the approval interrupt.
pub record Executed : Type 0 where
  pub run : Run
  pub executions : List Execution
  pub result : Option NodeResult

abbrev pub attempts_behind : Option ℕ → ℕ
attempts_behind (some (suc more)) = more
attempts_behind _ = zero

unfoldable pub execute_node : (String → Option Handler) → Node → Run → List Execution → Executed
unfolding try_attempts prepare_interrupt clear_resume_marker
execute_node handlers node run executions = elim (handlers node.handler) [
  | none ↦ record {
    run = record run { status = failed; error = some (no_handler node.handler) };
    executions = executions;
    result = some no_result;
  }
  | some handler ↦
      let t = try_attempts node handler (attempts_behind node.max_attempts) 1 run in
      let after = executions ++ t.execution ∷ [] in
      elim t.interrupt [
        | some request ↦ record {
          run = prepare_interrupt node request t.run;
          executions = after;
          result = none;
        }
        | none ↦ record {
          run = record t.run { state = clear_resume_marker node.id t.run.state };
          executions = after;
          result = some t.result;
        }
      ]
]
