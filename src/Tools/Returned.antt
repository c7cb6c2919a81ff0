-- ===== src/Tools/Returned.antt =====
-- What a call that returns has done.
use syndicateclaw.Tools.Executor.{sandbox_violation, value_error, timeout, execution_failed}
use syndicateclaw.Base.{subst}
use syndicateclaw.Tools.Executor.{ToolExecution}
use syndicateclaw.Base.{true, false, String, ◌≡◌, inl, inr, Bool-cases, arith, ◌∙◌, ap, sym}
use syndicateclaw.Json.{Fields}
use syndicateclaw.Boundary.Chain.{Hashing}
use syndicateclaw.Boundary.Authority.{Event}
use syndicateclaw.Tools.Registry.{Tool, ToolDefinition, gave, Registry}
use syndicateclaw.Tools.Sandbox.{Libraries, validate_schema, response_too_large}
use syndicateclaw.Tools.Executor.{ExecutionContext, Outcome, returned, raised, Services, World}
use syndicateclaw.Tools.Execute.{admit, run_tool, finish, execute}
use syndicateclaw.Tools.Control.{admit-outside, Handled-cases}
use syndicateclaw.Tools.Passed.{Passed, Sound, admit-Sound, Admission-cases}

abbrev gave_output : Fields → Outcome → Fields
gave_output o (returned p) = p
gave_output o (raised e) = o

module _ (libs : Libraries) (K : Hashing Event) {V L R O : Type 0} (services : Services V L R) where
  -- The output that a call gives back.
  pub record Delivered (tools : Registry O) (tool_name : String) (input : Fields)
      (context : ExecutionContext) (now : String) (w : World K V L R O) (output : Fields)
      : Type 0 where
    pub d : ToolDefinition O
    pub id : String
    pub passed : Passed libs K services tools tool_name input context now w d id
    pub handled : (d.handler input w.outside).0 ≡ gave output
    pub small : response_too_large libs output d.tool.sandbox_policy ≡ false
    pub fits : validate_schema output d.tool.output_schema ≡ true

  finish-returned :
      (tool_name : String) (input : Fields) (context : ExecutionContext) (tool : Tool)
      (execution : ToolExecution) (out output : Fields) (w : World K V L R O)
      → (finish libs K services tool_name input context tool execution out w).0 ≡ returned output
      → (out ≡ output)
        × (response_too_large libs out tool.sandbox_policy ≡ false)
        × (validate_schema out tool.output_schema ≡ true)
  unfolding finish
  finish-returned tool_name input context tool execution out output w h =
      elim (Bool-cases (response_too_large libs out tool.sandbox_policy)) [
        | inl e ↦ let bad : raised sandbox_violation ≡ returned output = rw e at h in ground arith
        | inr e ↦ elim (Bool-cases (validate_schema out tool.output_schema)) [
          | inl s ↦
              let same : returned out ≡ returned output = rw s at (rw e at h) in
              (ap (gave_output out) same, e, s)
          | inr s ↦
              let bad : raised value_error ≡ returned output = rw s at (rw e at h) in ground arith
        ]
      ]

  run_tool-returned :
      (tool_name : String) (input : Fields) (context : ExecutionContext) (d : ToolDefinition O)
      (id : String) (w : World K V L R O) (output : Fields)
      → (run_tool libs K services tool_name input context d id w).0 ≡ returned output
      → ((d.handler input w.outside).0 ≡ gave output)
        × (response_too_large libs output d.tool.sandbox_policy ≡ false)
        × (validate_schema output d.tool.output_schema ≡ true)
  unfolding run_tool
  run_tool-returned tool_name input context d id w output h =
      elim (Handled-cases (d.handler input w.outside).0) [
        | inl (o, e) ↦
            let (same, small, fits) =
              finish-returned _ _ _ _ _ o output _ (rw (e, run_tool) at h) in
            rw (← same) (e, small, fits)
        | inr (inl e) ↦
            let bad : raised timeout ≡ returned output = rw (e, run_tool) at h in ground arith
        | inr (inr (m, e)) ↦
            let bad : raised execution_failed ≡ returned output = rw (e, run_tool) at h in
            ground arith
      ]

  -- A call that returns an output has passed all that comes before the side effect, and the output
  -- is what the handler gave, is not too large and fits the output schema.
  pub execute-returned :
      (tools : Registry O) (tool_name : String) (input : Fields) (context : ExecutionContext)
      (now : String) (w : World K V L R O) (output : Fields)
      → (execute libs K services tools tool_name input context now w).0 ≡ returned output
      → Delivered tools tool_name input context now w output
  unfolding execute
  execute-returned tools tool_name input context now w output h =
      let before = admit-outside libs K services tools tool_name input context now w in
      elim (Admission-cases libs K services
        (admit libs K services tools tool_name input context now w).0) [
          | inl (e, r) ↦ let bad : raised e ≡ returned output = rw (r, execute) at h in ground arith
          | inr (d, id, r) ↦
              let passed =
                subst (Sound libs K services tools tool_name input context now w) r
                  (admit-Sound libs K services tools tool_name input context now w) in
              let (handled, small, fits) =
                run_tool-returned tool_name input context d id _ output (rw (r, execute) at h) in
              record {
                d = d;
                id = id;
                passed = passed;
                handled = ap (λ o. (d.handler input o).0) (sym before) ∙ handled;
                small = small;
                fits = fits;
              }
        ]
