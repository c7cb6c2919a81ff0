-- ===== src/Boundary/Authorize.antt =====
-- `ClawRuntimeBoundary` of src/syndicateclaw/runtime_boundary/boundary.py: `_emit` and `authorize`.
-- The validator is any code with the protocol of controlplane_client.py, which does not raise.
use syndicateclaw.Base.{string_eq}
use syndicateclaw.Base.{
  ℕ, Bool, true, false, not, ◌&&◌, ◌||◌, Option, none, some, String, ◌==◌, if◌then◌else◌,
}
use syndicateclaw.Boundary.Chain.{Hashing, AppendOnly, append}
use syndicateclaw.Boundary.Authority.{
  BoundaryReason, allowed, authority_missing, controlplane_unavailable, controlplane_denied,
  tenant_mismatch, project_mismatch, workspace_mismatch, actor_mismatch, tool_action_mismatch,
  approval_mismatch, permit_expired, permit_revoked, permit_consumed, gate_evidence_missing,
  audit_append_failed, ValidationStatus, allow, denied, expired, revoked, consumed, unavailable,
  AuthorityContext, ExpectedBinding, AuthorityBinding, ValidationResult, Event, BoundaryDecision,
}

-- `ControlPlaneAuthorityValidator`, over its state `V`
pub record Validator (V : Type 0) : Type 0 where
  pub validate : String → AuthorityBinding → V → ValidationResult × V

-- `x or ""`
abbrev pub or_empty : Option String → String
or_empty none = ""
or_empty (some s) = s

abbrev pub is_allow : BoundaryReason → Bool
is_allow allowed = true
is_allow _ = false

-- Steps 2 and 3 of `authorize`: the reason of the first check that fails.
unfoldable pub local_reason : AuthorityContext → ExpectedBinding → Option BoundaryReason
local_reason ctx expected =
    if not (or_empty ctx.tenant_id == expected.tenant_id)
    then some tenant_mismatch
    else if not (or_empty ctx.project_id == expected.project_id)
    then some project_mismatch
    else if not (or_empty ctx.workspace_id == expected.workspace_id)
    then some workspace_mismatch
    else if not (or_empty ctx.actor == expected.actor)
    then some actor_mismatch
    else if not (or_empty ctx.tool_identity == expected.tool_identity)
        || not (or_empty ctx.action == expected.action)
    then some tool_action_mismatch
    else if expected.require_approval
        && not (or_empty ctx.approval_id == or_empty expected.approval_id)
    then some approval_mismatch
    else if ctx.requires_gate_evidence && or_empty ctx.gate_evidence_reference == ""
    then some gate_evidence_missing
    else none

-- Step 4: the reason for the answer of the control plane, in production mode and without.
abbrev pub validated_reason : ValidationStatus → BoundaryReason
validated_reason unavailable = controlplane_unavailable
validated_reason expired = permit_expired
validated_reason revoked = permit_revoked
validated_reason consumed = permit_consumed
validated_reason denied = controlplane_denied
validated_reason allow = allowed

abbrev pub binding_of : AuthorityContext → ExpectedBinding → AuthorityBinding
binding_of ctx expected = record {
  actor = expected.actor;
  tenant_id = expected.tenant_id;
  project_id = expected.project_id;
  workspace_id = expected.workspace_id;
  tool_identity = expected.tool_identity;
  action = expected.action;
  resource_scope = expected.resource_scope;
  approval_id = ctx.approval_id;
  correlation_id = or_empty ctx.correlation_id;
}

-- `ctx.authority_reference if ctx else None`
abbrev pub reference_of : Option AuthorityContext → Option String
reference_of none = none
reference_of (some ctx) = ctx.authority_reference

abbrev pub correlation_of : Option AuthorityContext → Option String
correlation_of none = none
correlation_of (some ctx) = ctx.correlation_id

unfoldable pub event_of :
    BoundaryReason
    → Option AuthorityContext
    → ExpectedBinding
    → Option ValidationResult
    → String
    → Event
event_of reason ctx expected validation now = record {
  allows = is_allow reason;
  reason = reason;
  authority_reference = reference_of ctx;
  actor = expected.actor;
  tenant_id = expected.tenant_id;
  project_id = expected.project_id;
  workspace_id = expected.workspace_id;
  tool_identity = expected.tool_identity;
  action = expected.action;
  approval_id = expected.approval_id;
  correlation_id = correlation_of ctx;
  controlplane_validation = validation;
  emitted_at = now;
}

-- The boundary: what the validator keeps, and the chain.
pub record Boundary (K : Hashing Event) (V : Type 0) : Type 0 where
  pub upstream : V
  pub audit : AppendOnly K

module _ (K : Hashing Event) {V : Type 0} (validator : Validator V) where
  -- The decision when `append` has answered.
  abbrev pub decision_of :
      BoundaryReason
      → Option AuthorityContext
      → Option ValidationResult
      → String
      → Option (ℕ × K.H)
      → BoundaryDecision K.H
  decision_of reason ctx validation now none = record {
    allowed = false;
    reason = audit_append_failed;
    authority_reference = reference_of ctx;
    correlation_id = correlation_of ctx;
    validation = validation;
    audit_sequence = none;
    audit_hash = none;
    evaluated_at = now;
  }
  decision_of reason ctx validation now (some (seq, evt_hash)) = record {
    allowed = is_allow reason;
    reason = reason;
    authority_reference = reference_of ctx;
    correlation_id = correlation_of ctx;
    validation = validation;
    audit_sequence = some seq;
    audit_hash = some evt_hash;
    evaluated_at = now;
  }

  unfoldable pub emit :
      BoundaryReason
      → Option AuthorityContext
      → ExpectedBinding
      → Option ValidationResult
      → String
      → Boundary K V
      → BoundaryDecision K.H × Boundary K V
  emit reason ctx expected validation now b =
      let (answer, audit') = append K (event_of reason ctx expected validation now) b.audit in
      (decision_of reason ctx validation now answer, record b { audit = audit' })

  abbrev pub revalidate :
      AuthorityContext
      → String
      → ExpectedBinding
      → String
      → Boundary K V
      → BoundaryDecision K.H × Boundary K V
  revalidate ctx reference expected now b =
      let (result, upstream') = validator.validate reference (binding_of ctx expected) b.upstream in
      emit (validated_reason result.status) (some ctx) expected (some result) now
        (record b { upstream = upstream' })

  abbrev pub check_bindings :
      AuthorityContext
      → String
      → ExpectedBinding
      → String
      → Boundary K V
      → BoundaryDecision K.H × Boundary K V
  check_bindings ctx reference expected now b = elim (local_reason ctx expected) [
    | none ↦ revalidate ctx reference expected now b
    | some reason ↦ emit reason (some ctx) expected none now b
  ]

  unfoldable pub authorize :
      Option AuthorityContext
      → ExpectedBinding
      → String
      → Boundary K V
      → BoundaryDecision K.H × Boundary K V
  authorize none expected now b = emit authority_missing none expected none now b
  authorize (some ctx) expected now b =
      let reference = or_empty ctx.authority_reference in
      if reference == ""
      then emit authority_missing (some ctx) expected none now b
      else check_bindings ctx reference expected now b
