-- ===== src/Tools/Control.antt =====
-- The steps of `execute` that leave what is outside as it is.
use syndicateclaw.Base.{List}
use syndicateclaw.Tools.Executor.{Snapshot, ToolExecution}
use syndicateclaw.Base.{String, ◌≡◌, refl, inl, inr, ◌⊎◌, Bool-cases, Option-cases, ◌∙◌}
use syndicateclaw.Json.{Fields}
use syndicateclaw.Policy.Rules.{Effect, allow, deny, require_approval}
use syndicateclaw.Boundary.Chain.{Hashing}
use syndicateclaw.Boundary.Authority.{Event}
use syndicateclaw.Tools.Registry.{
  Tool, ToolDefinition, Handled, gave, timed_out, failed, Registry, get,
}
use syndicateclaw.Tools.Sandbox.{Libraries, validate_schema, sandbox_violated, response_too_large}
use syndicateclaw.Tools.Executor.{
  ExecutionContext, Services, World, record_decision, boundary_denies, emit_audit, capture_snapshot,
}
use syndicateclaw.Tools.Execute.{pass_boundary, decide_tool, admit, run_tool, finish}

pub Handled-cases :
    (h : Handled)
    → ((o : Fields) × (h ≡ gave o)) ⊎ ((h ≡ timed_out) ⊎ ((m : String) × (h ≡ failed m)))
Handled-cases (gave o) = inl (o, refl)
Handled-cases timed_out = inr (inl refl)
Handled-cases (failed m) = inr (inr (m, refl))

module _ (libs : Libraries) (K : Hashing Event) {V L R O : Type 0} (services : Services V L R) where
  boundary_denies-outside :
      (tool_name : String) (context : ExecutionContext) (tool : Tool) (now : String)
      (w : World K V L R O)
      → (boundary_denies libs K services tool_name context tool now w).1.outside ≡ w.outside
  unfolding boundary_denies
  boundary_denies-outside tool_name context tool now w =
      elim (Option-cases services.runtime_boundary) [ inl e ↦ rw e refl | inr (v, e) ↦ rw e refl ]

  record_decision-outside :
      (tool_name : String) (input : Fields) (context : ExecutionContext) (effect : String)
      (side_effects : List String) (w : World K V L R O)
      → (record_decision libs K services tool_name input context effect side_effects w).1.outside
        ≡ w.outside
  unfolding record_decision
  record_decision-outside tool_name input context effect side_effects w =
      elim (Option-cases services.record_tool_decision) [
        | inl e ↦ rw e refl
        | inr (v, e) ↦ rw e refl
      ]

  emit_audit-outside :
      (execution : ToolExecution) (w : World K V L R O)
      → (emit_audit libs K services execution w).outside ≡ w.outside
  unfolding emit_audit
  emit_audit-outside execution w = elim (Option-cases services.emit) [
    | inl e ↦ rw e refl
    | inr (v, e) ↦ rw e refl
  ]

  capture_snapshot-outside :
      (snapshot : Snapshot) (w : World K V L R O)
      → (capture_snapshot libs K services snapshot w).outside ≡ w.outside
  unfolding capture_snapshot
  capture_snapshot-outside snapshot w = elim (Option-cases services.capture) [
    | inl e ↦ rw e refl
    | inr (v, e) ↦ rw e refl
  ]

  finish-outside :
      (tool_name : String) (input : Fields) (context : ExecutionContext) (tool : Tool)
      (execution : ToolExecution) (output : Fields) (w : World K V L R O)
      → (finish libs K services tool_name input context tool execution output w).1.outside
        ≡ w.outside
  unfolding finish
  finish-outside tool_name input context tool execution output w =
      elim (Bool-cases (response_too_large libs output tool.sandbox_policy)) [
        | inl e ↦ rw e refl
        | inr e ↦ elim (Bool-cases (validate_schema output tool.output_schema)) [
          | inl s ↦ rw e (rw s (emit_audit-outside _ _ ∙ capture_snapshot-outside _ w))
          | inr s ↦ rw e (rw s refl)
        ]
      ]

  -- The handler is the one thing that changes what is outside.
  pub run_tool-outside :
      (tool_name : String) (input : Fields) (context : ExecutionContext) (d : ToolDefinition O)
      (decision_id : String) (w : World K V L R O)
      → (run_tool libs K services tool_name input context d decision_id w).1.outside
        ≡ (d.handler input w.outside).1
  unfolding run_tool
  run_tool-outside tool_name input context d decision_id w =
      let after = record w { outside = (d.handler input w.outside).1 } in
      elim (Handled-cases (d.handler input w.outside).0) [
        | inl (o, e) ↦ rw (e, run_tool) (finish-outside _ _ _ _ _ _ _)
        | inr (inl e) ↦ rw (e, run_tool) (emit_audit-outside _ after)
        | inr (inr (m, e)) ↦ rw (e, run_tool) (emit_audit-outside _ after)
      ]

  pass_boundary-outside :
      (tool_name : String) (context : ExecutionContext) (d : ToolDefinition O) (id now : String)
      (w : World K V L R O)
      → (pass_boundary libs K services tool_name context d id now w).1.outside ≡ w.outside
  unfolding pass_boundary
  pass_boundary-outside tool_name context d id now w =
      boundary_denies-outside tool_name context d.tool now w

  decide_tool-outside :
      (effect : Effect) (tool_name : String) (input : Fields) (context : ExecutionContext)
      (d : ToolDefinition O) (now : String) (w : World K V L R O)
      → (decide_tool libs K services effect tool_name input context d now w).1.outside ≡ w.outside
  unfolding decide_tool
  decide_tool-outside deny tool_name input context d now w = record_decision-outside _ _ _ _ _ w
  decide_tool-outside require_approval tool_name input context d now w =
      record_decision-outside _ _ _ _ _ w
  decide_tool-outside allow tool_name input context d now w =
      elim (Option-cases
        (record_decision libs K services tool_name input context "allow" d.tool.side_effects w).0) [
          | inl e ↦ rw (e, decide_tool) (record_decision-outside _ _ _ _ _ w)
          | inr (id, e) ↦
              rw (e, decide_tool)
                (pass_boundary-outside tool_name context d id now _
                  ∙ record_decision-outside _ _ _ _ _ w)
        ]

  pub admit-outside :
      (tools : Registry O) (tool_name : String) (input : Fields) (context : ExecutionContext)
      (now : String) (w : World K V L R O)
      → (admit libs K services tools tool_name input context now w).1.outside ≡ w.outside
  unfolding admit
  admit-outside tools tool_name input context now w = elim (Option-cases (get tool_name tools)) [
    | inl e ↦ rw (e, admit) refl
    | inr (d, e) ↦ elim (Bool-cases (validate_schema input d.tool.input_schema)) [
      | inr v ↦ rw (e, admit) (rw v refl)
      | inl v ↦ elim (Bool-cases (sandbox_violated libs input d.tool.sandbox_policy)) [
        | inl s ↦ rw (e, admit) (rw v (rw s refl))
        | inr s ↦
            rw (e, admit) (rw v (rw s (decide_tool-outside _ tool_name input context d now w)))
      ]
    ]
  ]
