-- ===== src/Boundary/Authority.antt =====
-- The data of the gate: `AuthorityContext`, `ExpectedBinding` and `BoundaryDecision` of
-- src/syndicateclaw/runtime_boundary/boundary.py, the reasons of reason_codes.py and the answers of
-- controlplane_client.py. Times are strings.
use syndicateclaw.Base.{ℕ, Bool, Option, String}

pub data BoundaryReason : Type 0 where
  allowed authority_missing controlplane_unavailable controlplane_denied tenant_mismatch
        project_mismatch workspace_mismatch actor_mismatch tool_action_mismatch approval_mismatch
        permit_expired permit_revoked permit_consumed gate_evidence_missing audit_append_failed
        sentinel_not_authority :
      BoundaryReason

pub data ValidationStatus : Type 0 where
  allow denied expired revoked consumed unavailable : ValidationStatus

pub record AuthorityContext : Type 0 where
  pub authority_reference : Option String
  pub actor : Option String
  pub tenant_id : Option String
  pub project_id : Option String
  pub workspace_id : Option String
  pub tool_identity : Option String
  pub action : Option String
  pub resource_scope : Option String
  pub approval_id : Option String
  pub correlation_id : Option String
  pub gate_evidence_reference : Option String
  pub requires_gate_evidence : Bool

pub record ExpectedBinding : Type 0 where
  pub actor : String
  pub tenant_id : String
  pub project_id : String
  pub workspace_id : String
  pub tool_identity : String
  pub action : String
  pub resource_scope : String
  pub approval_id : Option String
  pub require_approval : Bool

pub record AuthorityBinding : Type 0 where
  pub actor : String
  pub tenant_id : String
  pub project_id : String
  pub workspace_id : String
  pub tool_identity : String
  pub action : String
  pub resource_scope : String
  pub approval_id : Option String
  pub correlation_id : String

pub record ValidationResult : Type 0 where
  pub status : ValidationStatus
  pub permit_id : Option String
  pub validated_at : String
  pub detail : String

-- What `_emit` appends to the chain.
pub record Event : Type 0 where
  pub allows : Bool
  pub reason : BoundaryReason
  pub authority_reference : Option String
  pub actor : String
  pub tenant_id : String
  pub project_id : String
  pub workspace_id : String
  pub tool_identity : String
  pub action : String
  pub approval_id : Option String
  pub correlation_id : Option String
  pub controlplane_validation : Option ValidationResult
  pub emitted_at : String

pub record BoundaryDecision (H : Type 0) : Type 0 where
  pub allowed : Bool
  pub reason : BoundaryReason
  pub authority_reference : Option String
  pub correlation_id : Option String
  pub validation : Option ValidationResult
  pub audit_sequence : Option ℕ
  pub audit_hash : Option H
  pub evaluated_at : String
