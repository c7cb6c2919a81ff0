-- ===== src/Workflow/Cancellation.antt =====
-- A cancellation that comes while a node is at work.
use syndicateclaw.Base.{string_eq}
use syndicateclaw.Base.{◌+◌}
use syndicateclaw.Workflow.Engine.{advance}
use syndicateclaw.Base.{[], contains, ltb, Bool-cases, inl, inr, ◌∙◌}
use syndicateclaw.Workflow.Engine.{
  Stop, cycle_detected, step_limit_exceeded, stopped, workflow_failed, loop, go_on, bound_failure,
  raised, out_of_fuel,
}
use syndicateclaw.Base.{
  ℕ, zero, suc, String, ◌≡◌, refl, Bool, true, false, Option, none, some, List, ap,
}
use syndicateclaw.Json.{Fields}
use syndicateclaw.Workflow.Graph.{Node, Workflow, node_by_id, is_end}
use syndicateclaw.Workflow.Node.{
  completed, cancelled, Run, Handler, returns, NodeResult, Execution, tried, try_attempts,
  execute_node, cancel_called, attempts_behind,
}
use syndicateclaw.Workflow.Engine.{
  RunResult, Ended, returned, after_node, at_node, visit, is_left, is_halted, checkpointed, audited,
  with_status, workflow_completed, ends,
}

module _ (node : Node) (handler : Handler) (run : Run) (output : Fields) (r : NodeResult)
    (x : (handler run.state 1).outcome ≡ returns output r)
    (m : (handler run.state 1).meanwhile ≡ some cancel_called) where
  try_attempts-cancelled :
      (left : ℕ)
      → ((try_attempts node handler left 1 run).run.status ≡ cancelled)
        × ((try_attempts node handler left 1 run).interrupt ≡ none)
        × ((try_attempts node handler left 1 run).result ≡ r)
  unfolding try_attempts tried
  try_attempts-cancelled zero = rw x (rw m (refl, refl, refl))
  try_attempts-cancelled (suc more) = rw x (rw m (refl, refl, refl))

  execute_node-cancelled :
      (handlers : String → Option Handler) (xs : List Execution)
      → handlers node.handler ≡ some handler
      → ((execute_node handlers node run xs).run.status ≡ cancelled)
        × ((execute_node handlers node run xs).result ≡ some r)
  unfolding execute_node
  execute_node-cancelled handlers xs k =
      let (c, n, e) = try_attempts-cancelled (attempts_behind node.max_attempts) in
      rw (k, execute_node) (rw n (c, ap some e))

module _ (holds : String → Fields → Bool) (handlers : String → Option Handler) (max_steps : ℕ)
    (workflow : Workflow) where
  after_end_node :
      (node : Node) (r : NodeResult) (s : RunResult)
      → s.run.status ≡ cancelled
      → is_end node.node_type ≡ true
      → s.cache_fails s.step_count ≡ false
      → s.refuses workflow_completed ≡ false
      → after_node holds handlers max_steps workflow node r s
        ≡ ends (
            audited workflow_completed
              (with_status completed (record s { run = checkpointed r.should_checkpoint s.run })))
  unfolding after_node
  after_end_node node r s c e f g =
      let l : is_left s.run.status ≡ false = rw c refl in
      rw (f, after_node) (rw l (rw e (rw g refl)))

  -- A cancellation while the handler of an END node runs is lost: if the run was not halted and the
  -- handler returns at its first attempt, the run comes back completed, unless the state cache or
  -- the audit service raises.
  pub cancel_lost :
      (f : String → RunResult → Ended holds handlers max_steps workflow) (current : String)
      (s : RunResult) {node : Node} {handler : Handler} (output : Fields) (r : NodeResult)
      → is_halted s.run.status ≡ false
      → node_by_id current workflow.nodes ≡ some node
      → is_end node.node_type ≡ true
      → handlers node.handler ≡ some handler
      → (handler s.run.state 1).outcome ≡ returns output r
      → (handler s.run.state 1).meanwhile ≡ some cancel_called
      → s.cache_fails s.step_count ≡ false
      → s.refuses workflow_completed ≡ false
      → (t : RunResult) × (visit holds handlers max_steps workflow f current s ≡ returned t)
        × (t.run.status ≡ completed)
  unfolding visit
  cancel_lost f current s {node} {handler} output r t e z k x m f' g =
      let (c, q) = execute_node-cancelled node handler s.run output r x m handlers s.executions k in
      let left = at_node holds handlers max_steps workflow node s in
      (
        audited workflow_completed (
            with_status completed
              (record left { run = checkpointed r.should_checkpoint left.run })),
        rw (t, visit) (rw e (rw q (rw (after_end_node node r left c z f' g) refl))),
        refl,
      )

  -- the executions that a run has recorded when it ends
  abbrev pub executions_of : Ended holds handlers max_steps workflow → List Execution
  executions_of (returned s) = s.executions
  executions_of (raised stop s) = s.executions
  executions_of out_of_fuel = []

  stopped-executions :
      (stop : Stop) (reason : String) (s : RunResult)
      → executions_of (stopped holds handlers max_steps workflow (bound_failure stop reason s))
        ≡ s.executions
  unfolding bound_failure
  stopped-executions stop reason s = elim (Bool-cases (s.cache_fails s.step_count)) [
    | inl c ↦ rw (c, bound_failure) refl
    | inr c ↦ elim (Bool-cases (s.refuses workflow_failed)) [
      | inl t ↦ rw (c, bound_failure) (rw t refl)
      | inr f ↦ rw (c, bound_failure) (rw f refl)
    ]
  ]

  -- the loop on a cancelled run
  loop-cancelled :
      (fuel : ℕ) (current : String) (s : RunResult)
      → s.run.status ≡ cancelled
      → executions_of (loop holds handlers max_steps workflow (suc fuel) current s) ≡ s.executions
  unfolding loop visit
  loop-cancelled fuel current s c =
      let halted : is_halted s.run.status ≡ true = rw c refl in
      elim (Bool-cases (contains s.visited_nodes current)) [
        | inl v ↦
            rw (v, loop)
              (stopped-executions cycle_detected "cycle_detected"
                (record s { step_count = s.step_count + 1 }))
        | inr v ↦ elim (Bool-cases (ltb max_steps (s.step_count + 1))) [
          | inl l ↦
              rw (v, loop)
                (rw l (
                  stopped-executions step_limit_exceeded "step_limit_exceeded"
                    (record s { step_count = s.step_count + 1 })))
          | inr l ↦ rw (v, loop) (rw l (rw (halted, visit) refl))
        ]
      ]

  go_on-cancelled :
      (fuel : ℕ) (s : RunResult) (target : Option String)
      → s.run.status ≡ cancelled
      → executions_of (
          advance holds handlers max_steps workflow
            (loop holds handlers max_steps workflow (suc fuel))
            (go_on holds handlers max_steps workflow s target))
        ≡ s.executions
  go_on-cancelled fuel s none c = refl
  go_on-cancelled fuel s (some target) c = loop-cancelled fuel target s c

  checkpointed-status : (b : Bool) (run : Run) → (checkpointed b run).status ≡ run.status
  checkpointed-status true run = refl
  checkpointed-status false run = refl

  after_inner_node :
      (fuel : ℕ) (node : Node) (r : NodeResult) (s : RunResult)
      → s.run.status ≡ cancelled
      → is_end node.node_type ≡ false
      → executions_of (
          advance holds handlers max_steps workflow
            (loop holds handlers max_steps workflow (suc fuel))
            (after_node holds handlers max_steps workflow node r s))
        ≡ s.executions
  unfolding after_node
  after_inner_node fuel node r s c e =
      let l : is_left s.run.status ≡ false = rw c refl in
      elim (Bool-cases (s.cache_fails s.step_count)) [
        | inl f ↦ rw (f, after_node) refl
        | inr f ↦
            rw (f, after_node)
              (rw l (
                rw e
                  (go_on-cancelled fuel _ _ (checkpointed-status r.should_checkpoint s.run ∙ c))))
      ]

  -- A cancellation while the handler of a node that is not END runs stops the run: if the run was not
  -- halted and the handler returns at its first attempt, the run ends with no execution recorded
  -- behind that of this node.
  pub cancel_stops :
      (fuel : ℕ) (current : String) (s : RunResult) {node : Node} {handler : Handler}
      (output : Fields) (r : NodeResult)
      → is_halted s.run.status ≡ false
      → node_by_id current workflow.nodes ≡ some node
      → is_end node.node_type ≡ false
      → handlers node.handler ≡ some handler
      → (handler s.run.state 1).outcome ≡ returns output r
      → (handler s.run.state 1).meanwhile ≡ some cancel_called
      → executions_of (
          visit holds handlers max_steps workflow
            (loop holds handlers max_steps workflow (suc fuel))
            current
            s)
        ≡ (execute_node handlers node s.run s.executions).executions
  unfolding visit
  cancel_stops fuel current s {node} {handler} output r t e z k x m =
      let (c, q) = execute_node-cancelled node handler s.run output r x m handlers s.executions k in
      rw (t, visit)
        (rw e (
          rw q
            (after_inner_node fuel node r (at_node holds handlers max_steps workflow node s) c z)))
