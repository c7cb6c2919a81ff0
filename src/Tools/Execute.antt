-- ===== src/Tools/Execute.antt =====
-- `ToolExecutor.execute` of src/syndicateclaw/tools/executor.py: what comes before the side effect
-- (steps 1 to 4b), then the handler and what comes behind it.
use syndicateclaw.Base.{not, none, some, String, if◌then◌else◌}
use syndicateclaw.Json.{Fields, find_field}
use syndicateclaw.Policy.Rules.{Effect, allow, deny, require_approval}
use syndicateclaw.Boundary.Chain.{Hashing}
use syndicateclaw.Boundary.Authority.{Event}
use syndicateclaw.Tools.Registry.{Tool, ToolDefinition, gave, timed_out, failed, Registry, get}
use syndicateclaw.Tools.Sandbox.{Libraries, validate_schema, sandbox_violated, response_too_large}
use syndicateclaw.Tools.Executor.{
  ExecutionContext, running, completed, failed_status, timed_out_status, ToolExecution, ToolError,
  not_found, value_error, sandbox_violation, execution_failed, timeout, denied, approval_required,
  Outcome, returned, raised, Services, World, check_policy, record_decision, boundary_denies,
  emit_audit, capture_snapshot,
}

-- What the steps before the side effect end in.
pub data Admission (O : Type 0) : Type 0 where
  refused : ToolError → Admission O
  admitted : ToolDefinition O → String → Admission O

module _ (libs : Libraries) where
  abbrev pub execution_of : String → Fields → ExecutionContext → String → ToolExecution
  execution_of tool_name input context decision_id = record {
    run_id = context.run_id;
    node_execution_id = elim (find_field "node_execution_id" context.config) [
      | none ↦ ""
      | some v ↦ libs.str v
    ];
    tool_name = tool_name;
    input_data = input;
    status = running;
    output_data = none;
    error = none;
    policy_decision_id = decision_id;
  }

module _ (libs : Libraries) (K : Hashing Event) {V L R O : Type 0} (services : Services V L R) where
  -- step 4b
  unfoldable pub pass_boundary :
      String
      → ExecutionContext
      → ToolDefinition O
      → String
      → String
      → World K V L R O
      → Admission O × World K V L R O
  pass_boundary tool_name context d decision_id now w =
      let (denies, w') = boundary_denies libs K services tool_name context d.tool now w in
      (if denies then refused denied else admitted d decision_id, w')

  -- steps 3 and 4
  unfoldable pub decide_tool :
      Effect
      → String
      → Fields
      → ExecutionContext
      → ToolDefinition O
      → String
      → World K V L R O
      → Admission O × World K V L R O
  unfolding pass_boundary
  decide_tool deny tool_name input context d now w =
      let (_, w') =
        record_decision libs K services tool_name input context "deny" d.tool.side_effects w in
      (refused denied, w')
  decide_tool require_approval tool_name input context d now w =
      let (_, w') =
        record_decision libs K services tool_name input context "require_approval"
          d.tool.side_effects w in
      (refused approval_required, w')
  decide_tool allow tool_name input context d now w =
      let (recorded, w') =
        record_decision libs K services tool_name input context "allow" d.tool.side_effects w in
      elim recorded [
        | none ↦ (refused denied, w')
        | some id ↦ pass_boundary tool_name context d id now w'
      ]

  unfoldable pub admit :
      Registry O
      → String
      → Fields
      → ExecutionContext
      → String
      → World K V L R O
      → Admission O × World K V L R O
  unfolding decide_tool
  admit tools tool_name input context now w = elim (get tool_name tools) [
    | none ↦ (refused not_found, w)
    | some d ↦
        if not (validate_schema input d.tool.input_schema)
        then (refused value_error, w)
        else if sandbox_violated libs input d.tool.sandbox_policy
        then (refused sandbox_violation, w)
        else decide_tool (check_policy libs services.policy_engine tool_name input context d.tool)
            tool_name input context d now w
  ]

  -- steps 6 to 9, on the output of the handler
  unfoldable pub finish :
      String
      → Fields
      → ExecutionContext
      → Tool
      → ToolExecution
      → Fields
      → World K V L R O
      → Outcome × World K V L R O
  finish tool_name input context tool execution output w =
      let done = record execution { status = completed; output_data = some output } in
      let snapped =
        capture_snapshot libs K services
          (record {
            run_id = context.run_id;
            node_execution_id = context.node_id;
            source_identifier = tool_name;
            request_data = input;
            response_data = output;
          })
          w in
      if response_too_large libs output tool.sandbox_policy
      then (raised sandbox_violation, w)
      else if not (validate_schema output tool.output_schema)
      then (raised value_error, w)
      else (returned output, emit_audit libs K services done snapped)

  -- steps 5 to 9
  unfoldable pub run_tool :
      String
      → Fields
      → ExecutionContext
      → ToolDefinition O
      → String
      → World K V L R O
      → Outcome × World K V L R O
  run_tool tool_name input context d decision_id w =
      let execution = execution_of libs tool_name input context decision_id in
      let (handled, outside') = d.handler input w.outside in
      let after = record w { outside = outside' } in
      elim handled [
        | gave output ↦ finish tool_name input context d.tool execution output after
        | timed_out ↦ (
          raised timeout,
          emit_audit libs K services
              (record execution { status = timed_out_status; error = some "Timed out" }) after,
        )
        | failed message ↦ (
          raised execution_failed,
          emit_audit libs K services
              (record execution { status = failed_status; error = some message }) after,
        )
      ]

  unfoldable pub execute :
      Registry O
      → String
      → Fields
      → ExecutionContext
      → String
      → World K V L R O
      → Outcome × World K V L R O
  execute tools tool_name input context now w =
      let (admission, w') = admit tools tool_name input context now w in
      elim admission [
        | refused error ↦ (raised error, w')
        | admitted d decision_id ↦ run_tool tool_name input context d decision_id w'
      ]
