-- ===== src/Workflow/Graph.antt =====
-- Workflow graphs, and the edge that is followed: `WorkflowDefinition` of src/syndicateclaw/models.py
-- and `_find_start_node`, `_resolve_next_node` of src/syndicateclaw/orchestrator/engine.py.
use syndicateclaw.Base.{
  ℕ, String, Bool, true, false, Option, none, some, List, [], ◌∷◌, ◌==◌, string_eq, keep, find,
  if◌then◌else◌,
}
use syndicateclaw.Order.{sort}
use syndicateclaw.Json.{ℤ, int_leb, Fields}

pub data NodeType : Type 0 where
  start end action decision approval agent checkpoint : NodeType

abbrev pub is_start : NodeType → Bool
is_start start = true
is_start _ = false

abbrev pub is_end : NodeType → Bool
is_end end = true
is_end _ = false

-- `max_attempts` is that of the retry policy, if there is one.
pub record Node : Type 0 where
  pub id : String
  pub node_type : NodeType
  pub handler : String
  pub max_attempts : Option ℕ

pub record Edge : Type 0 where
  pub source_node_id : String
  pub target_node_id : String
  pub condition : Option String
  pub priority : ℤ

pub record Workflow : Type 0 where
  pub nodes : List Node
  pub edges : List Edge

unfoldable pub find_start_node : Workflow → Option Node
find_start_node workflow = find (λ n. is_start n.node_type) workflow.nodes

-- `{n.id: n for n in workflow.nodes}`: of two nodes with one id the later counts
unfoldable pub node_by_id : String → List Node → Option Node
node_by_id k [] = none
node_by_id k (n ∷ rest) = elim (node_by_id k rest) [
  | some m ↦ some m
  | none ↦ if n.id == k then some n else none
]

-- `holds` is the evaluation of a condition on the state, with every exception read as false.
module _ (holds : String → Fields → Bool) where
  unfoldable pub first_edge : Fields → List Edge → Option String
  first_edge state [] = none
  first_edge state (e ∷ rest) =
      let later = first_edge state rest in
      elim e.condition [
        | none ↦ some e.target_node_id
        | some c ↦ if holds c state then some e.target_node_id else later
      ]

  unfoldable pub resolve_next_node : String → Fields → List Edge → Option String
  unfolding first_edge
  resolve_next_node current state edges =
      first_edge state (
        sort (λ a b. int_leb b.priority a.priority) (keep (λ e. e.source_node_id == current) edges))
