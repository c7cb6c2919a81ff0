-- ===== src/Workflow/Tests.antt =====
-- The workflow engine on a small graph: start, work (which fails once), and finish.
use syndicateclaw.Base.{
  true, false, ℕ, String, ◌≡◌, refl, Bool, Option, none, some, List, [], ◌∷◌, ◌==◌, string_eq,
  if◌then◌else◌, leb,
}
use syndicateclaw.Order.{sort, insert}
use syndicateclaw.Json.{pos, text, Fields, empty, field}
use syndicateclaw.Workflow.Graph.{
  Node, Edge, Workflow, start, action, NodeType, find_start_node, node_by_id, resolve_next_node,
  first_edge,
}
use syndicateclaw.Workflow.Node.{
  RunStatus, pending, completed, Handler, returns, raises, no_result, cancel_called, execute_node,
  try_attempts, tried, clear_resume_marker,
}
use syndicateclaw.Workflow.Engine.{
  RunResult, Ended, returned, raised, report_failed, workflow_completed, execute, loop, visit,
  after_node, first_node,
}
use syndicateclaw.Workflow.Bounds.{EndsWell, execute-EndsWell}
use syndicateclaw.Workflow.Completion.{CompletedAtEnd, execute-CompletedAtEnd}

abbrev node : String → NodeType → String → Node
node id t handler = record { id = id; node_type = t; handler = handler; max_attempts = some 3 }

abbrev edge : String → String → Option String → ℕ → Edge
edge a b c n = record { source_node_id = a; target_node_id = b; condition = c; priority = pos n }

abbrev edges : List Edge
edges = edge "a" "b" none 1 ∷ edge "a" "a" (some "never") 5 ∷ edge "b" "c" none 0 ∷ []

abbrev graph : Workflow
graph = record {
  nodes = node "a" start "pass" ∷ node "b" action "flaky" ∷ node "c" NodeType.end "pass" ∷ [];
  edges = edges;
}

abbrev holds : String → Fields → Bool
holds c state = c == "always"

abbrev pass : Handler
pass state n = record { state = state; meanwhile = none; outcome = returns empty no_result }

abbrev flaky : Handler
flaky state n = record {
  state = state;
  meanwhile = none;
  outcome = if leb 2 n then returns (field "done" (text "yes") empty) no_result else raises "no";
}

-- a handler that is cancelled while it runs
abbrev stopped : Handler
stopped state n = record {
  state = state;
  meanwhile = some cancel_called;
  outcome = returns empty no_result;
}

abbrev handlers : String → Option Handler
handlers name =
    if name == "pass"
    then some pass
    else if name == "flaky"
    then some flaky
    else if name == "stopped"
    then some stopped
    else none

abbrev fresh : RunResult
fresh = record {
  run = record { id = "r"; status = pending; state = empty; error = none; checkpoint = none };
  executions = [];
  current_node_id = none;
  step_count = 0;
  visited_nodes = [];
  audit = [];
  refuses = λ event. false;
  cache_fails = λ step. false;
}

abbrev visited_of : Ended holds handlers 10 graph → List String
visited_of (returned s) = s.visited_nodes
visited_of _ = []

abbrev status_of : Ended holds handlers 10 graph → Option RunStatus
status_of (returned s) = some s.run.status
status_of _ = none

ran :
    (visited_of (execute holds handlers 10 graph fresh) ≡ "a" ∷ "b" ∷ "c" ∷ [])
    × (status_of (execute holds handlers 10 graph fresh) ≡ some completed)
unfolding execute loop visit after_node first_node find_start_node node_by_id resolve_next_node
    first_edge execute_node try_attempts tried clear_resume_marker sort insert
ran = (refl, refl)

-- The audit service refuses the event of the completion: the run is completed all the same.
abbrev refused : RunResult
refused = record fresh { refuses = λ event. elim event [ workflow_completed ↦ true | _ ↦ false ] }

abbrev raised_status : Ended holds handlers 10 graph → Option RunStatus
raised_status (raised report_failed s) = some s.run.status
raised_status _ = none

completed_and_raised : raised_status (execute holds handlers 10 graph refused) ≡ some completed
unfolding execute loop visit after_node first_node find_start_node node_by_id resolve_next_node
    first_edge execute_node try_attempts tried clear_resume_marker sort insert
completed_and_raised = refl

execute-EndsWell_example : EndsWell holds handlers 10 graph (execute holds handlers 10 graph fresh)
unfolding find_start_node
execute-EndsWell_example =
    execute-EndsWell holds handlers 10 graph fresh {start = node "a" start "pass"} refl

execute-CompletedAtEnd_example :
    CompletedAtEnd holds handlers 10 graph (execute holds handlers 10 graph refused)
execute-CompletedAtEnd_example = execute-CompletedAtEnd holds handlers 10 graph refused

abbrev last_node : Workflow
last_node = record { nodes = node "c" NodeType.end "stopped" ∷ []; edges = [] }

abbrev inner_node : Workflow
inner_node = record {
  nodes = node "b" action "stopped" ∷ node "c" NodeType.end "pass" ∷ [];
  edges = edge "b" "c" none 0 ∷ [];
}
