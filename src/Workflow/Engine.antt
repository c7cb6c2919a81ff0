-- ===== src/Workflow/Engine.antt =====
-- `WorkflowEngine` of src/syndicateclaw/orchestrator/engine.py without a database: the loop of
-- `execute`, and pause, cancel, resume and replay. The audit trail is the list of the events' types,
-- the oldest first. Timestamps, the state cache and the record `_execution_bound` that a bound failure
-- leaves in the state are left out. What the state cache and the audit service raise leaves `execute`
-- at once (`report_failed`), also behind the change of the status to COMPLETED or FAILED: `refuses`
-- says which events one of the two refuses, `cache_fails` after which steps the state is not cached.
-- Both take the start of the run, before which nothing is executed, and the calls of pause, cancel
-- and resume.
use syndicateclaw.Base.{
  ℕ, zero, suc, String, Bool, true, false, Option, none, some, List, [], ◌∷◌, ◌++◌, ◌+◌, ◌==◌,
  string_eq, contains, ltb, if◌then◌else◌, value_error, Result, ok, err,
}
use syndicateclaw.Json.{Value, text, Fields, find_field, put_field}
use syndicateclaw.Workflow.Graph.{
  Node, Workflow, find_start_node, node_by_id, resolve_next_node, is_end,
}
use syndicateclaw.Workflow.Node.{
  RunStatus, running, paused, waiting_approval, waiting_agent_response, completed, failed,
  cancelled, node_not_found, bound, Run, Execution, NodeResult, Handler, execute_node,
}

pub data AuditType : Type 0 where
  workflow_started workflow_completed workflow_failed workflow_paused workflow_resumed
        workflow_cancelled :
      AuditType

-- `WorkflowRunResult`, with the audit trail
pub record RunResult : Type 0 where
  pub run : Run
  pub executions : List Execution
  pub current_node_id : Option String
  pub step_count : ℕ
  pub visited_nodes : List String
  pub audit : List AuditType
  pub refuses : AuditType → Bool
  pub cache_fails : ℕ → Bool

-- what `execute` raises
pub data Stop : Type 0 where
  no_start_node cycle_detected step_limit_exceeded approval_required report_failed : Stop

-- `max_steps` as the constructor takes it
unfoldable pub checked_max_steps : ℕ → Result ℕ
checked_max_steps n =
    if ltb n 1 then err value_error else if ltb 1000 n then err value_error else ok n

abbrev pub with_status : RunStatus → RunResult → RunResult
with_status status s = record s { run = record s.run { status = status } }

abbrev pub audited : AuditType → RunResult → RunResult
audited event s = record s { audit = s.audit ++ event ∷ [] }

-- the statuses in which the loop does not start a node
abbrev pub is_halted : RunStatus → Bool
is_halted paused = true
is_halted cancelled = true
is_halted waiting_approval = true
is_halted waiting_agent_response = true
is_halted _ = false

-- the statuses in which it stops after a node
abbrev pub is_left : RunStatus → Bool
is_left failed = true
is_left paused = true
is_left waiting_approval = true
is_left waiting_agent_response = true
is_left _ = false

-- `_raise_execution_bound_failure` and what it raises. An exception of the audit service is caught
-- here, one of the state cache is not.
unfoldable pub bound_failure : Stop → String → RunResult → Stop × RunResult
bound_failure stop reason s =
    let s' = record s {
      run = record s.run {
        status = failed;
        error = some (bound reason);
        state = put_field "_failure_reason" (text reason) s.run.state;
      };
    } in
    if s.cache_fails s.step_count
    then (report_failed, s')
    else (stop, if s.refuses workflow_failed then s' else audited workflow_failed s')

-- `if result.should_checkpoint: _persist_checkpoint(run)`, unsigned
abbrev pub checkpointed : Bool → Run → Run
checkpointed true run = record run { checkpoint = some run.state }
checkpointed false run = run

module _ (holds : String → Fields → Bool) (handlers : String → Option Handler) (max_steps : ℕ)
    (workflow : Workflow) where
  -- Where the loop goes after a node, or how it ends; `out_of_fuel` is never reached.
  pub data Next : Type 0 where
    goes : String → RunResult → Next
    ends : RunResult → Next
    stops : RunResult → Next

  pub data Ended : Type 0 where
    returned : RunResult → Ended
    raised : Stop → RunResult → Ended
    out_of_fuel : Ended

  abbrev next_node : Option String → String → Fields → Option String
  next_node (some target) current state = some target
  next_node none current state = resolve_next_node holds current state workflow.edges

  abbrev pub go_on : RunResult → Option String → Next
  go_on s none = ends s
  go_on s (some target) = goes target s

  -- COMPLETED, before the state cache and the audit service are told
  abbrev pub complete : RunResult → Next
  complete s =
      if s.refuses workflow_completed
      then stops (with_status completed s)
      else ends (audited workflow_completed (with_status completed s))

  -- what follows the return of `_execute_node`
  unfoldable pub after_node : Node → NodeResult → RunResult → Next
  after_node node r s =
      if s.cache_fails s.step_count
      then stops s
      else if is_left s.run.status
      then ends s
      else let s' = record s { run = checkpointed r.should_checkpoint s.run } in
        if is_end node.node_type
        then complete s'
        else go_on s' (next_node r.next_node_id node.id s'.run.state)

  abbrev pub at_node : Node → RunResult → RunResult
  at_node node s =
      let x = execute_node handlers node s.run s.executions in
      record s { run = x.run; executions = x.executions; current_node_id = some node.id }

  abbrev pub advance : (String → RunResult → Ended) → Next → Ended
  advance f (goes target s) = f target s
  advance f (ends s) = returned s
  advance f (stops s) = raised report_failed s

  abbrev pub stopped : Stop × RunResult → Ended
  stopped (stop, s) = raised stop s

  -- The body of the loop on a node; `f` is the rest of the loop.
  unfoldable pub visit : (String → RunResult → Ended) → String → RunResult → Ended
  unfolding after_node
  visit f current s =
      if is_halted s.run.status then returned s else elim (node_by_id current workflow.nodes) [
        | none ↦ returned (record s {
          run = record s.run { status = failed; error = some (node_not_found current) };
        })
        | some node ↦ elim (execute_node handlers node s.run s.executions).result [
          | none ↦ raised approval_required (at_node node s)
          | some r ↦ advance f (after_node node r (at_node node s))
        ]
      ]

  -- The loop. It has visited `s.visited_nodes` and counted `s.step_count` steps.
  unfoldable pub loop : ℕ → String → RunResult → Ended
  unfolding visit bound_failure
  loop zero current s = out_of_fuel
  loop (suc fuel) current s =
      let counted = record s { step_count = s.step_count + 1 } in
      let entered = record counted { visited_nodes = s.visited_nodes ++ current ∷ [] } in
      let rest = visit (loop fuel) current entered in
      if contains s.visited_nodes current
      then stopped (bound_failure cycle_detected "cycle_detected" counted)
      else if ltb max_steps counted.step_count
      then stopped (bound_failure step_limit_exceeded "step_limit_exceeded" counted)
      else rest

  abbrev non_empty : Option String → Option String
  non_empty none = none
  non_empty (some t) = if t == "" then none else some t

  abbrev text_of : Option Value → Option String
  text_of (some (text t)) = some t
  text_of _ = none

  abbrev or_else : Option String → String → String
  or_else (some t) d = t
  or_else none d = d

  unfoldable pub first_node : RunResult → Node → String
  first_node s start =
      or_else (non_empty s.current_node_id)
        (or_else (non_empty (text_of (find_field "_resume_from" s.run.state))) start.id)

  abbrev pub started : RunResult → RunResult
  started s = record (audited workflow_started (with_status running s)) {
    step_count = 0;
    visited_nodes = [];
  }

  -- The fuel is one step more than `max_steps`.
  unfoldable pub execute : RunResult → Ended
  unfolding loop
  execute s = elim (find_start_node workflow) [
    | none ↦ raised no_start_node (audited workflow_started (with_status running s))
    | some start ↦ loop (suc max_steps) (first_node s start) (started s)
  ]

unfoldable pub pause : RunResult → RunResult
pause s = audited workflow_paused (with_status paused s)

unfoldable pub cancel : RunResult → RunResult
cancel s = audited workflow_cancelled (with_status cancelled s)

abbrev pub is_resumable : RunStatus → Bool
is_resumable paused = true
is_resumable waiting_approval = true
is_resumable waiting_agent_response = true
is_resumable _ = false

abbrev resume_at : Option String → RunResult → RunResult
resume_at none s = s
resume_at (some node) s = record s {
  run = record s.run { state = put_field "_resume_from" (text node) s.run.state };
  current_node_id = some node;
}

unfoldable pub resume : Option String → RunResult → Result RunResult
resume from_node s =
    if is_resumable s.run.status
    then ok (audited workflow_resumed (resume_at from_node (with_status running s)))
    else err value_error
