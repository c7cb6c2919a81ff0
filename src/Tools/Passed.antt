-- ===== src/Tools/Passed.antt =====
-- What has passed when a tool has a side effect.
use syndicateclaw.Base.{subst}
use syndicateclaw.Base.{
  true, false, some, String, ◌≡◌, refl, inl, inr, ◌⊎◌, Bool-cases, Option-cases, ◌∙◌, ap,
}
use syndicateclaw.Json.{Fields}
use syndicateclaw.Policy.Rules.{Effect, allow, deny, require_approval}
use syndicateclaw.Boundary.Chain.{Hashing}
use syndicateclaw.Boundary.Authority.{Event}
use syndicateclaw.Tools.Registry.{ToolDefinition, Registry, get}
use syndicateclaw.Tools.Sandbox.{Libraries, validate_schema, sandbox_violated}
use syndicateclaw.Tools.Executor.{
  ExecutionContext, ToolError, Services, World, check_policy, record_decision, boundary_denies,
}
use syndicateclaw.Tools.Execute.{
  Admission, refused, admitted, pass_boundary, decide_tool, admit, execute,
}
use syndicateclaw.Tools.Control.{admit-outside, run_tool-outside}

module _ (libs : Libraries) (K : Hashing Event) {V L R O : Type 0} (services : Services V L R) where
  -- What an admission of `d` with the ledger's record `id` has passed.
  pub record Passed (tools : Registry O) (tool_name : String) (input : Fields)
      (context : ExecutionContext) (now : String) (w : World K V L R O) (d : ToolDefinition O)
      (id : String) : Type 0 where
    pub registered : get tool_name tools ≡ some d
    pub valid : validate_schema input d.tool.input_schema ≡ true
    pub contained : sandbox_violated libs input d.tool.sandbox_policy ≡ false
    pub permitted : check_policy libs services.policy_engine tool_name input context d.tool ≡ allow
    pub recorded :
        (record_decision libs K services tool_name input context "allow" d.tool.side_effects w).0
        ≡ some id
    pub cleared :
        (boundary_denies libs K services tool_name context d.tool now
          (record_decision libs K services tool_name input context "allow" d.tool.side_effects
            w).1).0
        ≡ false

  -- `admission` is a refusal, or an admission that has passed everything.
  abbrev pub Sound :
      Registry O
      → String
      → Fields
      → ExecutionContext
      → String
      → World K V L R O
      → Admission O
      → Type 0
  Sound tools tool_name input context now w (refused e) = Unit {0}
  Sound tools tool_name input context now w (admitted d id) =
      Passed tools tool_name input context now w d id

  decide_tool-Sound :
      (tools : Registry O) (tool_name : String) (input : Fields) (context : ExecutionContext)
      (now : String) (w : World K V L R O) (d : ToolDefinition O) (effect : Effect)
      → get tool_name tools ≡ some d
      → validate_schema input d.tool.input_schema ≡ true
      → sandbox_violated libs input d.tool.sandbox_policy ≡ false
      → check_policy libs services.policy_engine tool_name input context d.tool ≡ effect
      → Sound tools tool_name input context now w
          (decide_tool libs K services effect tool_name input context d now w).0
  unfolding decide_tool pass_boundary
  decide_tool-Sound tools tool_name input context now w d deny e v s c = _
  decide_tool-Sound tools tool_name input context now w d require_approval e v s c = _
  decide_tool-Sound tools tool_name input context now w d allow e v s c =
      elim (Option-cases
        (record_decision libs K services tool_name input context "allow" d.tool.side_effects w).0) [
          | inl n ↦ rw (n, decide_tool) _
          | inr (id, r) ↦
              elim (Bool-cases
                (boundary_denies libs K services tool_name context d.tool now
                  (record_decision libs K services tool_name input context "allow"
                    d.tool.side_effects w).1).0) [
                      | inl b ↦ rw (r, decide_tool) (rw b _)
                      | inr b ↦
                          rw (r, decide_tool)
                            (rw b (record {
                              registered = e;
                              valid = v;
                              contained = s;
                              permitted = c;
                              recorded = r;
                              cleared = b;
                            }))
                    ]
        ]

  pub admit-Sound :
      (tools : Registry O) (tool_name : String) (input : Fields) (context : ExecutionContext)
      (now : String) (w : World K V L R O)
      → Sound tools tool_name input context now w
          (admit libs K services tools tool_name input context now w).0
  unfolding admit
  admit-Sound tools tool_name input context now w = elim (Option-cases (get tool_name tools)) [
    | inl e ↦ rw (e, admit) _
    | inr (d, e) ↦ elim (Bool-cases (validate_schema input d.tool.input_schema)) [
      | inr v ↦ rw (e, admit) (rw v _)
      | inl v ↦ elim (Bool-cases (sandbox_violated libs input d.tool.sandbox_policy)) [
        | inl s ↦ rw (e, admit) (rw v (rw s _))
        | inr s ↦
            rw (e, admit)
              (rw v (rw s (decide_tool-Sound tools tool_name input context now w d _ e v s refl)))
      ]
    ]
  ]

  -- The admission of a call.
  abbrev admission :
      Registry O → String → Fields → ExecutionContext → String → World K V L R O → Admission O
  admission tools tool_name input context now w =
      (admit libs K services tools tool_name input context now w).0

  pub Admission-cases :
      (a : Admission O)
      → ((e : ToolError) × (a ≡ refused e))
        ⊎ ((d : ToolDefinition O) × (id : String) × (a ≡ admitted d id))
  Admission-cases (refused e) = inl (e, refl)
  Admission-cases (admitted d id) = inr (d, id, refl)

  -- A call of a tool leaves what is outside as it is, unless the tool is registered, its input fits
  -- its schema and its sandbox, the policy answers ALLOW, the ledger has taken the record of the
  -- decision and the boundary, where there is one, allows the call; then the handler acts on it,
  -- once.
  pub execute-Passed :
      (tools : Registry O) (tool_name : String) (input : Fields) (context : ExecutionContext)
      (now : String) (w : World K V L R O)
      → ((execute libs K services tools tool_name input context now w).1.outside ≡ w.outside)
        ⊎ ((d : ToolDefinition O) × (id : String) × Passed tools tool_name input context now w d id
            × ((execute libs K services tools tool_name input context now w).1.outside
                ≡ (d.handler input w.outside).1))
  unfolding execute
  execute-Passed tools tool_name input context now w =
      let before = admit-outside libs K services tools tool_name input context now w in
      elim (Admission-cases (admit libs K services tools tool_name input context now w).0) [
        | inl (e, r) ↦ rw (r, execute) (inl before)
        | inr (d, id, r) ↦
            let passed : Passed tools tool_name input context now w d id =
              subst (Sound tools tool_name input context now w) r
                (admit-Sound tools tool_name input context now w) in
            rw (r, execute)
              (inr (
                d,
                id,
                passed,
                run_tool-outside libs K services tool_name input context d id _
                    ∙ ap (λ o. (d.handler input o).1) before,
              ))
      ]
