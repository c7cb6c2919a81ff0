-- ===== src/Workflow/Completion.antt =====
-- When a run is COMPLETED.
use syndicateclaw.Workflow.Node.{attempts_behind}
use syndicateclaw.Workflow.Engine.{checkpointed}
use syndicateclaw.Base.{
  ℕ, zero, suc, String, ◌≡◌, refl, Bool, true, false, Option, none, some, List, ◌+◌, string_eq,
  contains, ltb, arith, inl, inr, Bool-cases, Option-cases,
}
use syndicateclaw.Json.{Fields}
use syndicateclaw.Workflow.Graph.{Node, Workflow, find_start_node, node_by_id, is_end}
use syndicateclaw.Workflow.Node.{
  RunStatus, completed, Run, Handler, Handled, Outcome, returns, NodeResult, Execution, awaited,
  tried, is_exception, try_attempts, prepare_interrupt, execute_node, pauses, waits_for_agent,
  waits_for_approval, raises, pause_called, cancel_called,
}
use syndicateclaw.Workflow.Engine.{
  RunResult, workflow_failed, workflow_completed, complete, Stop, cycle_detected,
  step_limit_exceeded, stopped, bound_failure, Next, goes, ends, stops, Ended, returned, raised,
  out_of_fuel, after_node, at_node, advance, visit, loop, first_node, started, execute, is_left,
  is_halted, go_on,
}

abbrev pub is_completed : RunStatus → Bool
is_completed completed = true
is_completed _ = false

-- The run is not completed.
abbrev Open : Run → Type 0
Open run = is_completed run.status ≡ false

awaited-Open : (h : Handled) (run : Run) → Open run → Open (awaited h run)
awaited-Open h run o = elim h.meanwhile as (λ m. Open (awaited (record h { meanwhile = m }) run)) [
  | none ↦ o
  | some pause_called ↦ refl
  | some cancel_called ↦ refl
]

tried-Open :
    (node : Node) (n : ℕ) (run : Run) (x : Outcome) → Open run → Open (tried node n run x).run
unfolding tried
tried-Open node n run (returns f r) o = o
tried-Open node n run pauses o = refl
tried-Open node n run waits_for_agent o = refl
tried-Open node n run (waits_for_approval w) o = refl
tried-Open node n run (raises t) o = refl

try_attempts-Open :
    (node : Node) (handler : Handler) (left n : ℕ) (run : Run)
    → Open run
    → Open (try_attempts node handler left n run).run
unfolding try_attempts
try_attempts-Open node handler zero n run o =
    tried-Open node n _ (handler run.state n).outcome (awaited-Open (handler run.state n) run o)
try_attempts-Open node handler (suc more) n run o =
    let after = awaited-Open (handler run.state n) run o in
    elim (Bool-cases (is_exception (handler run.state n).outcome)) [
      | inl e ↦ rw (e, try_attempts) (try_attempts-Open node handler more (n + 1) _ after)
      | inr e ↦ rw (e, try_attempts) (tried-Open node n _ (handler run.state n).outcome after)
    ]

execute_node-Open :
    (handlers : String → Option Handler) (node : Node) (run : Run) (xs : List Execution)
    → Open run
    → Open (execute_node handlers node run xs).run
unfolding execute_node prepare_interrupt
execute_node-Open handlers node run xs o = elim (Option-cases (handlers node.handler)) [
  | inl n ↦ rw (n, execute_node) refl
  | inr (handler, e) ↦
      let t = try_attempts node handler (attempts_behind node.max_attempts) 1 run in
      let still = try_attempts-Open node handler (attempts_behind node.max_attempts) 1 run o in
      elim (Option-cases t.interrupt) [
        | inl n ↦ rw (e, execute_node) (rw n still)
        | inr (w, n) ↦ rw (e, execute_node) (rw n still)
      ]
]

module _ (holds : String → Fields → Bool) (handlers : String → Option Handler) (max_steps : ℕ)
    (workflow : Workflow) where
  -- The run is not completed, or it stands at an END node of the workflow.
  pub record AtEnd (s : RunResult) : Type 0 where
    pub key : String
    pub node : Node
    pub found : node_by_id key workflow.nodes ≡ some node
    pub at_end : is_end node.node_type ≡ true
    pub here : s.current_node_id ≡ some node.id

  -- A run that is completed when it comes back, or when an exception leaves it, is at an END node.
  abbrev pub CompletedAtEnd : Ended holds handlers max_steps workflow → Type 0
  CompletedAtEnd (returned s) = s.run.status ≡ completed → AtEnd s
  CompletedAtEnd (raised stop s) = s.run.status ≡ completed → AtEnd s
  CompletedAtEnd out_of_fuel = Unit

  shut : (s : RunResult) → Open s.run → s.run.status ≡ completed → AtEnd s
  shut s o h = ground (arith, o, h)

  abbrev NextAtEnd : Next holds handlers max_steps workflow → Type 0
  NextAtEnd (goes target s) = Open s.run
  NextAtEnd (ends s) = s.run.status ≡ completed → AtEnd s
  NextAtEnd (stops s) = s.run.status ≡ completed → AtEnd s

  go_on-AtEnd :
      (s : RunResult) (target : Option String)
      → Open s.run
      → NextAtEnd (go_on holds handlers max_steps workflow s target)
  go_on-AtEnd s none o = shut s o
  go_on-AtEnd s (some target) o = o

  complete-AtEnd :
      (s : RunResult) (key : String) (node : Node)
      → node_by_id key workflow.nodes ≡ some node
      → is_end node.node_type ≡ true
      → s.current_node_id ≡ some node.id
      → NextAtEnd (complete holds handlers max_steps workflow s)
  complete-AtEnd s key node found e here = elim (Bool-cases (s.refuses workflow_completed)) [
    | inl t ↦ rw t (λ h. record { key = key; node = node; found = found; at_end = e; here = here })
    | inr f ↦ rw f (λ h. record { key = key; node = node; found = found; at_end = e; here = here })
  ]

  checkpointed-Open : (b : Bool) (run : Run) → Open run → Open (checkpointed b run)
  checkpointed-Open true run o = o
  checkpointed-Open false run o = o

  after_node-AtEnd :
      (key : String) (node : Node) (r : NodeResult) (s : RunResult)
      → node_by_id key workflow.nodes ≡ some node
      → s.current_node_id ≡ some node.id
      → Open s.run
      → NextAtEnd (after_node holds handlers max_steps workflow node r s)
  unfolding after_node
  after_node-AtEnd key node r s found here o = elim (Bool-cases (s.cache_fails s.step_count)) [
    | inl c ↦ rw (c, after_node) (shut s o)
    | inr c ↦ elim (Bool-cases (is_left s.run.status)) [
      | inl l ↦ rw (c, after_node) (rw l (shut s o))
      | inr l ↦ elim (Bool-cases (is_end node.node_type)) [
        | inl e ↦
            rw (c, after_node)
              (rw l (
                rw e (
                  complete-AtEnd (record s { run = checkpointed r.should_checkpoint s.run }) key
                    node found e here)))
        | inr e ↦
            rw (c, after_node)
              (rw l (rw e (go_on-AtEnd _ _ (checkpointed-Open r.should_checkpoint s.run o))))
      ]
    ]
  ]

  abbrev RestAtEnd : (String → RunResult → Ended holds handlers max_steps workflow) → Type 0
  RestAtEnd f = (target : String) (s : RunResult) → Open s.run → CompletedAtEnd (f target s)

  advance-AtEnd :
      (f : String → RunResult → Ended holds handlers max_steps workflow)
      (next : Next holds handlers max_steps workflow)
      → RestAtEnd f
      → NextAtEnd next
      → CompletedAtEnd (advance holds handlers max_steps workflow f next)
  advance-AtEnd f (goes target s) h o = h target s o
  advance-AtEnd f (ends s) h o = o
  advance-AtEnd f (stops s) h o = o

  visit-AtEnd :
      (f : String → RunResult → Ended holds handlers max_steps workflow) (current : String)
      (s : RunResult)
      → RestAtEnd f
      → Open s.run
      → CompletedAtEnd (visit holds handlers max_steps workflow f current s)
  unfolding visit
  visit-AtEnd f current s h o = elim (Bool-cases (is_halted s.run.status)) [
    | inl t ↦ rw (t, visit) (shut s o)
    | inr t ↦ elim (Option-cases (node_by_id current workflow.nodes)) [
      | inl n ↦ rw (t, visit) (rw n (shut _ refl))
      | inr (node, e) ↦
          let still = execute_node-Open handlers node s.run s.executions o in
          elim (Option-cases (execute_node handlers node s.run s.executions).result) [
            | inl n ↦ rw (t, visit) (rw e (rw n (shut _ still)))
            | inr (r, x) ↦
                rw (t, visit)
                  (rw e (
                    rw x (
                      advance-AtEnd f _ h (
                        after_node-AtEnd current node r
                          (at_node holds handlers max_steps workflow node s) e refl still))))
          ]
    ]
  ]

  stopped-AtEnd :
      (stop : Stop) (reason : String) (s : RunResult)
      → CompletedAtEnd (stopped holds handlers max_steps workflow (bound_failure stop reason s))
  unfolding bound_failure
  stopped-AtEnd stop reason s = elim (Bool-cases (s.cache_fails s.step_count)) [
    | inl c ↦ rw (c, bound_failure) (shut _ refl)
    | inr c ↦ elim (Bool-cases (s.refuses workflow_failed)) [
      | inl t ↦ rw (c, bound_failure) (rw t (shut _ refl))
      | inr f ↦ rw (c, bound_failure) (rw f (shut _ refl))
    ]
  ]

  loop-AtEnd :
      (fuel : ℕ) (current : String) (s : RunResult)
      → Open s.run
      → CompletedAtEnd (loop holds handlers max_steps workflow fuel current s)
  unfolding loop
  loop-AtEnd zero current s o = tt
  loop-AtEnd (suc fuel) current s o = elim (Bool-cases (contains s.visited_nodes current)) [
    | inl c ↦
        rw (c, loop)
          (stopped-AtEnd cycle_detected "cycle_detected"
            (record s { step_count = s.step_count + 1 }))
    | inr c ↦ elim (Bool-cases (ltb max_steps (s.step_count + 1))) [
      | inl l ↦
          rw (c, loop)
            (rw l (
              stopped-AtEnd step_limit_exceeded "step_limit_exceeded"
                (record s { step_count = s.step_count + 1 })))
      | inr l ↦
          rw (c, loop)
            (rw l (
              visit-AtEnd (loop holds handlers max_steps workflow fuel) current _
                (λ target t o'. loop-AtEnd fuel target t o') o))
    ]
  ]

  -- A run that is completed when `execute` returns it, or when `execute` raises, stands at a node of
  -- type END of the workflow, also where the exception is one of the state cache or the audit service
  -- that is told of the completion.
  pub execute-CompletedAtEnd :
      (s : RunResult) → CompletedAtEnd (execute holds handlers max_steps workflow s)
  unfolding execute
  execute-CompletedAtEnd s = elim (Option-cases (find_start_node workflow)) [
    | inl n ↦ rw (n, execute) (shut _ refl)
    | inr (start, n) ↦
        rw (n, execute)
          (loop-AtEnd (suc max_steps) (first_node holds handlers max_steps workflow s start)
            (started holds handlers max_steps workflow s) refl)
  ]
