-- ===== src/Tools/Executor.antt =====
-- `ToolExecutor` of src/syndicateclaw/tools/executor.py. The policy engine, the decision ledger, the
-- snapshot store and the audit service are parameters; the boundary is that of Boundary.Authorize.
-- `O` is what the handlers act on. Of a `ToolExecution` the times are left out, its error is what was raised without the
-- seconds of a time-out, and an id that is
-- generated is "".
use syndicateclaw.Base.{
  Bool, false, not, Option, none, some, List, [], ◌∷◌, String, string_eq, if◌then◌else◌, contains,
}
use syndicateclaw.Json.{truthy, get_value, text, dict, Fields, empty, field, find_field, put_field}
use syndicateclaw.Policy.Rules.{Effect, allow, deny}
use syndicateclaw.Boundary.Chain.{Hashing}
use syndicateclaw.Boundary.Authority.{AuthorityContext, ExpectedBinding, Event}
use syndicateclaw.Boundary.Authorize.{Validator, Boundary, authorize}
use syndicateclaw.Tools.Registry.{ToolRiskLevel, low, medium, high, critical, Tool}
use syndicateclaw.Tools.Sandbox.{Libraries}

-- `context.config`, with the `authority` in it read by `AuthorityContext.from_mapping`
pub record ExecutionContext : Type 0 where
  pub run_id : String
  pub node_id : String
  pub config : Fields
  pub authority : Option AuthorityContext

-- What the ledger records of a decision.
pub record ToolDecision : Type 0 where
  pub actor : String
  pub tool_name : String
  pub input_data : Fields
  pub policy_effect : String
  pub side_effects : List String
  pub run_id : String
  pub node_execution_id : String

pub data ToolExecutionStatus : Type 0 where
  pending running completed failed_status timed_out_status : ToolExecutionStatus

pub record ToolExecution : Type 0 where
  pub run_id : String
  pub node_execution_id : String
  pub tool_name : String
  pub input_data : Fields
  pub status : ToolExecutionStatus
  pub output_data : Option Fields
  pub error : Option String
  pub policy_decision_id : String

pub record Snapshot : Type 0 where
  pub run_id : String
  pub node_execution_id : String
  pub source_identifier : String
  pub request_data : Fields
  pub response_data : Fields

pub data ToolError : Type 0 where
  not_found value_error sandbox_violation execution_failed timeout : ToolError
  denied : ToolError
  approval_required : ToolError

pub data Outcome : Type 0 where
  returned : Fields → Outcome
  raised : ToolError → Outcome

-- The policy engine: none, one with no `evaluate`, or one that answers or raises (`none`).
pub data PolicyPort : Type 0 where
  missing : PolicyPort
  without_evaluate : PolicyPort
  evaluates : (String → String → Fields → Option Effect) → PolicyPort

-- The services an executor is made with, over the state `L` of the ledger and `R` of the snapshots
-- and the audit. What `capture` and `emit` raise is swallowed. A ledger that is there gives the id
-- of its record, or raises (`none`).
pub record Services (V L R : Type 0) : Type 0 where
  pub policy_engine : PolicyPort
  pub record_tool_decision : Option (ToolDecision → L → Option String × L)
  pub runtime_boundary : Option (Validator V)
  pub capture : Option (Snapshot → R → R)
  pub emit : Option (ToolExecution → R → R)

pub record World (K : Hashing Event) (V L R O : Type 0) : Type 0 where
  pub outside : O
  pub ledger : L
  pub boundary : Boundary K V
  pub records : R

abbrev risk_name : ToolRiskLevel → String
risk_name low = "LOW"
risk_name medium = "MEDIUM"
risk_name high = "HIGH"
risk_name critical = "CRITICAL"

-- `ctx[key] = value` for the keys of `config` that are not reserved
abbrev add_config : Fields → Fields → Fields
add_config ctx empty = ctx
add_config ctx (field k v config) =
    let reserved = "input" ∷ "tool" ∷ "risk_level" ∷ "run_id" ∷ "node_id" ∷ "actor" ∷ [] in
    let kept = add_config ctx config in
    let added = add_config (put_field k v ctx) config in if contains reserved k then kept else added

abbrev or_else_text : String → Option String → String
or_else_text d none = d
or_else_text d (some s) = s

abbrev first_or : String → List String → String
first_or d [] = d
first_or d (x ∷ xs) = x

module _ (libs : Libraries) where
  unfoldable pub policy_actor : ExecutionContext → String
  policy_actor context =
      let actor = get_value "actor" context.config in
      if truthy actor then libs.str actor else context.run_id

  unfoldable pub tool_policy_context : String → Tool → Fields → ExecutionContext → Fields
  unfolding policy_actor
  tool_policy_context tool_name tool input context =
      add_config
        (field "input" (dict input) (
          field "tool" (text tool_name) (
            field "risk_level" (text (risk_name tool.risk_level)) (
              field "run_id" (text context.run_id) (
                field "node_id" (text context.node_id)
                  (field "actor" (text (policy_actor context)) empty))))))
        context.config

  unfoldable pub check_policy : PolicyPort → String → Fields → ExecutionContext → Tool → Effect
  unfolding policy_actor tool_policy_context
  check_policy missing tool_name input context tool = deny
  check_policy without_evaluate tool_name input context tool = allow
  check_policy (evaluates evaluate) tool_name input context tool =
      elim (evaluate tool_name (policy_actor context)
        (tool_policy_context tool_name tool input context)) [ none ↦ deny | some effect ↦ effect ]

  -- `str(config.get(key, ""))`
  abbrev config_text : String → ExecutionContext → String
  config_text key context = elim (find_field key context.config) [ none ↦ "" | some v ↦ libs.str v ]

  abbrev approval_of : Option AuthorityContext → Option String
  approval_of none = none
  approval_of (some ctx) = ctx.approval_id

  -- The binding that `_enforce_runtime_boundary` expects.
  unfoldable pub expected_binding : String → ExecutionContext → Tool → ExpectedBinding
  unfolding policy_actor
  expected_binding tool_name context tool = record {
    actor = policy_actor context;
    tenant_id = config_text "tenant_id" context;
    project_id = config_text "project_id" context;
    workspace_id = config_text "workspace_id" context;
    tool_identity = tool_name;
    action = first_or "execute" tool.side_effects;
    resource_scope = config_text "resource_scope" context;
    approval_id = approval_of context.authority;
    require_approval = truthy (get_value "require_approval" context.config);
  }

  module _ (K : Hashing Event) {V L R O : Type 0} (services : Services V L R) where
    -- `_record_decision`
    unfoldable pub record_decision :
        String
        → Fields
        → ExecutionContext
        → String
        → List String
        → World K V L R O
        → Option String × World K V L R O
    record_decision tool_name input context effect side_effects w =
        elim services.record_tool_decision [
          | none ↦ (none, w)
          | some write ↦
              let (answer, ledger') =
                write
                  (record {
                    actor = context.run_id;
                    tool_name = tool_name;
                    input_data = input;
                    policy_effect = effect;
                    side_effects = side_effects;
                    run_id = context.run_id;
                    node_execution_id = context.node_id;
                  })
                  w.ledger in
              (answer, record w { ledger = ledger' })
        ]

    -- `_enforce_runtime_boundary`, true where it raises
    unfoldable pub boundary_denies :
        String → ExecutionContext → Tool → String → World K V L R O → Bool × World K V L R O
    unfolding expected_binding
    boundary_denies tool_name context tool now w = elim services.runtime_boundary [
      | none ↦ (false, w)
      | some validator ↦
          let (decision, boundary') =
            authorize K validator context.authority (expected_binding tool_name context tool) now
              w.boundary in
          (not decision.allowed, record w { boundary = boundary' })
    ]

    -- `_emit_audit` and `_capture_snapshot`
    unfoldable pub emit_audit : ToolExecution → World K V L R O → World K V L R O
    emit_audit execution w = elim services.emit [
      | none ↦ w
      | some write ↦ record w { records = write execution w.records }
    ]

    unfoldable pub capture_snapshot : Snapshot → World K V L R O → World K V L R O
    capture_snapshot snapshot w = elim services.capture [
      | none ↦ w
      | some write ↦ record w { records = write snapshot w.records }
    ]
