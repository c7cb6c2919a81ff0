-- ===== src/Workflow/Bounds.antt =====
-- `execute` ends, within its bounds.
use syndicateclaw.Workflow.Engine.{go_on}
use syndicateclaw.Base.{
  ℕ, zero, suc, String, ◌≡◌, refl, Bool, Option, none, some, List, [], ◌∷◌, ◌++◌, ◌+◌, ◌≤◌, ◌<◌,
  string_eq, contains, ltb, length, length-append, arith, inl, inr, Bool-cases, Option-cases,
}
use syndicateclaw.Json.{Fields}
use syndicateclaw.Workflow.Graph.{Node, Workflow, find_start_node, node_by_id, is_end}
use syndicateclaw.Workflow.Node.{Handler, NodeResult, execute_node}
use syndicateclaw.Workflow.Engine.{
  RunResult, checkpointed, workflow_failed, workflow_completed, complete, Stop, cycle_detected,
  step_limit_exceeded, stopped, bound_failure, Next, goes, ends, stops, Ended, returned, raised,
  out_of_fuel, after_node, at_node, advance, visit, loop, first_node, started, execute, is_left,
  is_halted,
}
use syndicateclaw.Workflow.Distinct.{Distinct, append-Distinct}

-- No node was visited twice, and the counts are within the bound.
pub record Bounded (max_steps : ℕ) (s : RunResult) : Type 0 where
  pub distinct : Distinct s.visited_nodes
  pub few : length s.visited_nodes ≤ max_steps
  pub counted : s.step_count ≤ suc max_steps

module _ (holds : String → Fields → Bool) (handlers : String → Option Handler) (max_steps : ℕ)
    (workflow : Workflow) where
  -- A run that ended, and how.
  abbrev pub EndsWell : Ended holds handlers max_steps workflow → Type 0
  EndsWell (returned s) = Bounded max_steps s
  EndsWell (raised stop s) = Bounded max_steps s
  EndsWell out_of_fuel = ⊥

  -- the loop's state between two nodes
  pub record Going (s : RunResult) : Type 0 where
    pub apart : Distinct s.visited_nodes
    pub as_many : length s.visited_nodes ≡ s.step_count
    pub left : s.step_count ≤ max_steps

  Going-Bounded : (s : RunResult) → Going s → Bounded max_steps s
  Going-Bounded s g = record {
    distinct = g.apart;
    few = omega (arith, g.as_many, g.left);
    counted = omega (arith, g.left);
  }

  -- the counts of a state are these
  abbrev Counts : List String → ℕ → RunResult → Type 0
  Counts visited n s = (s.visited_nodes ≡ visited) × (s.step_count ≡ n)

  abbrev NextCounts : List String → ℕ → Next holds handlers max_steps workflow → Type 0
  NextCounts visited n (goes target s) = Counts visited n s
  NextCounts visited n (ends s) = Counts visited n s
  NextCounts visited n (stops s) = Counts visited n s

  go_on-counts :
      (s : RunResult) (target : Option String)
      → NextCounts s.visited_nodes s.step_count (go_on holds handlers max_steps workflow s target)
  go_on-counts s none = (refl, refl)
  go_on-counts s (some target) = (refl, refl)

  complete-counts :
      (s : RunResult)
      → NextCounts s.visited_nodes s.step_count (complete holds handlers max_steps workflow s)
  complete-counts s = elim (Bool-cases (s.refuses workflow_completed)) [
    | inl t ↦ rw t (refl, refl)
    | inr f ↦ rw f (refl, refl)
  ]

  -- a node changes neither the steps counted nor the nodes visited
  after_node-counts :
      (node : Node) (r : NodeResult) (s : RunResult)
      → NextCounts s.visited_nodes s.step_count
          (after_node holds handlers max_steps workflow node r s)
  unfolding after_node
  after_node-counts node r s = elim (Bool-cases (s.cache_fails s.step_count)) [
    | inl c ↦ rw (c, after_node) (refl, refl)
    | inr c ↦ elim (Bool-cases (is_left s.run.status)) [
      | inl l ↦ rw (c, after_node) (rw l (refl, refl))
      | inr l ↦ elim (Bool-cases (is_end node.node_type)) [
        | inl e ↦
            rw (c, after_node)
              (rw l (
                rw e (complete-counts (record s { run = checkpointed r.should_checkpoint s.run }))))
        | inr e ↦ rw (c, after_node) (rw l (rw e (go_on-counts _ _)))
      ]
    ]
  ]

  -- the rest of the loop ends well from the counts that it is called with
  abbrev RestEndsWell :
      List String → ℕ → (String → RunResult → Ended holds handlers max_steps workflow) → Type 0
  RestEndsWell visited n f =
      (target : String) (s : RunResult) → Counts visited n s → EndsWell (f target s)

  counted_well :
      (s t : RunResult) → Going s → Counts s.visited_nodes s.step_count t → Bounded max_steps t
  counted_well s t g (v, n) = record {
    distinct = rw v g.apart;
    few = rw v (Going-Bounded s g).few;
    counted = omega (arith, n, g.left);
  }

  advance-EndsWell :
      (f : String → RunResult → Ended holds handlers max_steps workflow) (s : RunResult)
      (next : Next holds handlers max_steps workflow)
      → Going s
      → RestEndsWell s.visited_nodes s.step_count f
      → NextCounts s.visited_nodes s.step_count next
      → EndsWell (advance holds handlers max_steps workflow f next)
  advance-EndsWell f s (goes target t) g h c = h target t c
  advance-EndsWell f s (ends t) g h c = counted_well s t g c
  advance-EndsWell f s (stops t) g h c = counted_well s t g c

  visit-EndsWell :
      (f : String → RunResult → Ended holds handlers max_steps workflow) (current : String)
      (s : RunResult)
      → Going s
      → RestEndsWell s.visited_nodes s.step_count f
      → EndsWell (visit holds handlers max_steps workflow f current s)
  unfolding visit
  visit-EndsWell f current s g h = elim (Bool-cases (is_halted s.run.status)) [
    | inl t ↦ rw (t, visit) (Going-Bounded s g)
    | inr t ↦ elim (Option-cases (node_by_id current workflow.nodes)) [
      | inl n ↦ rw (t, visit) (rw n (counted_well s _ g (refl, refl)))
      | inr (node, e) ↦ elim (Option-cases (execute_node handlers node s.run s.executions).result) [
        | inl n ↦ rw (t, visit) (rw e (rw n (counted_well s _ g (refl, refl))))
        | inr (r, x) ↦
            rw (t, visit)
              (rw e (
                rw x (
                  advance-EndsWell f s _ g h
                    (after_node-counts node r (at_node holds handlers max_steps workflow node s)))))
      ]
    ]
  ]

  stopped-EndsWell :
      (stop : Stop) (reason : String) (s : RunResult)
      → Bounded max_steps s
      → EndsWell (stopped holds handlers max_steps workflow (bound_failure stop reason s))
  unfolding bound_failure
  stopped-EndsWell stop reason s b = elim (Bool-cases (s.cache_fails s.step_count)) [
    | inl c ↦
        rw (c, bound_failure) (record { distinct = b.distinct; few = b.few; counted = b.counted })
    | inr c ↦ elim (Bool-cases (s.refuses workflow_failed)) [
      | inl t ↦
          rw (c, bound_failure)
            (rw t (record { distinct = b.distinct; few = b.few; counted = b.counted }))
      | inr f ↦
          rw (c, bound_failure)
            (rw f (record { distinct = b.distinct; few = b.few; counted = b.counted }))
    ]
  ]

  loop-EndsWell :
      (fuel : ℕ) (current : String) (s : RunResult)
      → Going s
      → max_steps < s.step_count + fuel
      → EndsWell (loop holds handlers max_steps workflow fuel current s)
  unfolding loop
  loop-EndsWell zero current s g h = absurd (omega (arith, h, g.left))
  loop-EndsWell (suc fuel) current s g h = elim (Bool-cases (contains s.visited_nodes current)) [
    | inl c ↦
        rw (c, loop)
          (stopped-EndsWell cycle_detected "cycle_detected"
            (record s { step_count = s.step_count + 1 })
            (record {
              distinct = g.apart;
              few = omega (arith, g.as_many, g.left);
              counted = omega (arith, g.left);
            }))
    | inr c ↦ elim (Bool-cases (ltb max_steps (s.step_count + 1))) [
      | inl l ↦
          rw (c, loop)
            (rw l (
              stopped-EndsWell step_limit_exceeded "step_limit_exceeded"
                (record s { step_count = s.step_count + 1 })
                (record {
                  distinct = g.apart;
                  few = omega (arith, g.as_many, g.left);
                  counted = omega (arith, g.left);
                })))
      | inr l ↦
          let within : s.step_count + 1 ≤ max_steps = ground arith in
          let size = length-append s.visited_nodes (current ∷ []) in
          let entered : Going (record s {
            step_count = s.step_count + 1;
            visited_nodes = s.visited_nodes ++ current ∷ [];
          }) =
            record {
              apart = append-Distinct s.visited_nodes current c g.apart;
              as_many = omega (arith, size, g.as_many);
              left = within;
            } in
          rw (c, loop)
            (rw l (
              visit-EndsWell (loop holds handlers max_steps workflow fuel) current _ entered
                (λ target t (v, n).
                  loop-EndsWell fuel target t
                    (record {
                      apart = rw v entered.apart;
                      as_many = rw v (omega (arith, n, entered.as_many));
                      left = omega (arith, n, within);
                    })
                    (omega (arith, n, h)))))
    ]
  ]

  -- `execute` always ends, returning or raising: it never visits a node twice, nor more nodes than
  -- `max_steps`, and never counts more than one step more, if the workflow has a start node.
  pub execute-EndsWell :
      (s : RunResult) {start : Node}
      → find_start_node workflow ≡ some start
      → EndsWell (execute holds handlers max_steps workflow s)
  unfolding execute
  execute-EndsWell s {start} e =
      rw (e, execute)
        (loop-EndsWell (suc max_steps) (first_node holds handlers max_steps workflow s start)
          (started holds handlers max_steps workflow s)
          (record { apart = tt; as_many = refl; left = omega arith }) (omega arith))
