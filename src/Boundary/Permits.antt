-- ===== src/Boundary/Permits.antt =====
-- `InMemoryControlPlaneValidator` of src/syndicateclaw/runtime_boundary/controlplane_client.py.
-- The dictionary of permits is a function.
use syndicateclaw.Base.{
  Bool, true, false, not, ◌&&◌, Option, none, some, List, [], ◌∷◌, ◌++◌, String, ◌==◌, string_eq,
  if◌then◌else◌,
}
use syndicateclaw.Boundary.Authority.{
  AuthorityBinding, ValidationStatus, allow, denied, expired, revoked, consumed, unavailable,
  ValidationResult,
}
use syndicateclaw.Boundary.Authorize.{Validator}

pub record PermitState : Type 0 where
  pub binding : AuthorityBinding
  pub status : ValidationStatus
  pub single_use : Bool
  pub used : Bool

pub record InMemory : Type 0 where
  pub permits : String → Option PermitState
  pub outage : Bool
  pub calls : List (String × AuthorityBinding)

abbrev pub is_active : ValidationStatus → Bool
is_active allow = true
is_active _ = false

abbrev same_option : Option String → Option String → Bool
same_option none none = true
same_option none (some t) = false
same_option (some s) none = false
same_option (some s) (some t) = s == t

-- `f"permit {state.status}"`
abbrev permit_detail : ValidationStatus → String
permit_detail allow = "permit allow"
permit_detail denied = "permit denied"
permit_detail expired = "permit expired"
permit_detail revoked = "permit revoked"
permit_detail consumed = "permit consumed"
permit_detail unavailable = "permit unavailable"

unfoldable pub same_binding : AuthorityBinding → AuthorityBinding → Bool
same_binding a b =
    a.actor == b.actor
    && a.tenant_id == b.tenant_id
    && a.project_id == b.project_id
    && a.workspace_id == b.workspace_id
    && a.tool_identity == b.tool_identity
    && a.action == b.action
    && a.resource_scope == b.resource_scope
    && same_option a.approval_id b.approval_id
    && a.correlation_id == b.correlation_id

abbrev pub put : String → PermitState → (String → Option PermitState) → String → Option PermitState
put reference state permits r = if r == reference then some state else permits r

unfoldable pub register : String → AuthorityBinding → ValidationStatus → Bool → InMemory → InMemory
register reference binding status single_use m = record m {
  permits =
      put reference
        (record { binding = binding; status = status; single_use = single_use; used = false })
        m.permits;
}

abbrev answered : ValidationStatus → Option String → String → String → ValidationResult
answered status permit_id now detail = record {
  status = status;
  permit_id = permit_id;
  validated_at = now;
  detail = detail;
}

-- `validate` on the permit that the reference names, behind the record of the call
unfoldable pub use_permit :
    String → String → AuthorityBinding → PermitState → InMemory → ValidationResult × InMemory
use_permit now reference binding state m =
    if not (is_active state.status)
    then (answered state.status (some reference) now (permit_detail state.status), m)
    else if not (same_binding state.binding binding)
    then (answered denied (some reference) now "binding does not match issued permit", m)
    else if state.single_use && state.used
    then (answered consumed (some reference) now "single-use permit already consumed", m)
    else if state.single_use
    then (
      answered allow (some reference) now "active",
      record m { permits = put reference (record state { used = true }) m.permits },
    )
    else (answered allow (some reference) now "active", m)

unfoldable pub validate :
    String → String → AuthorityBinding → InMemory → ValidationResult × InMemory
unfolding use_permit
validate now reference binding m =
    let called = record m { calls = m.calls ++ (reference, binding) ∷ [] } in
    if m.outage
    then (answered unavailable none now "controlplane unreachable", called)
    else elim (m.permits reference) [
      | none ↦ (answered denied none now "unknown authority reference", called)
      | some state ↦ use_permit now reference binding state called
    ]

-- The validator at a time.
abbrev pub in_memory : String → Validator InMemory
in_memory now = record { validate = validate now }
