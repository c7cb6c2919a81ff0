-- ===== src/Boundary/Opens.antt =====
-- When the gate opens, and what it leaves in the chain.
use syndicateclaw.Base.{length}
use syndicateclaw.Boundary.Authority.{BoundaryDecision, audit_append_failed}
use syndicateclaw.Base.{
  ◌≡◌, ◌≢◌, ◌↔◌, ◌⊎◌, refl, true, false, Option, none, some, String, ◌==◌, string_eq, arith, inl,
  inr, Bool-cases, Option-cases, ◌∷◌, ◌++◌, [], length,
}
use syndicateclaw.Boundary.Chain.{Hashing, AppendOnly, append, next_entry}
use syndicateclaw.Boundary.Authority.{
  BoundaryReason, allowed, authority_missing, ValidationStatus, ValidationResult, allow, denied,
  expired, revoked, consumed, unavailable, AuthorityContext, ExpectedBinding, Event,
}
use syndicateclaw.Boundary.Authorize.{
  Validator, or_empty, is_allow, local_reason, validated_reason, binding_of, event_of, Boundary,
  emit, authorize, check_bindings,
}
use syndicateclaw.Boundary.Gate.{
  Matches, local_reason-Matches, Matches-local_reason, differ, differ_of,
}

validated_reason-allow : (v : ValidationStatus) → is_allow (validated_reason v) ≡ true → v ≡ allow
validated_reason-allow allow h = refl
validated_reason-allow denied h = ground arith
validated_reason-allow expired h = ground arith
validated_reason-allow revoked h = ground arith
validated_reason-allow consumed h = ground arith
validated_reason-allow unavailable h = ground arith

-- no local check has the reason of an allow
pub local_reason-refuses :
    (ctx : AuthorityContext) (expected : ExpectedBinding) (reason : BoundaryReason)
    → local_reason ctx expected ≡ some reason
    → is_allow reason ≡ false
unfolding local_reason
local_reason-refuses ctx expected reason h = ground arith

module _ (K : Hashing Event) {V : Type 0} (validator : Validator V) where
  -- The answer of the control plane, if it is asked.
  abbrev pub answer : AuthorityContext → ExpectedBinding → Boundary K V → ValidationResult × V
  answer ctx expected b =
      validator.validate (or_empty ctx.authority_reference) (binding_of ctx expected) b.upstream

  emit-allowed :
      (reason : BoundaryReason) (ctx : Option AuthorityContext) (expected : ExpectedBinding)
      (validation : Option ValidationResult) (now : String) (b : Boundary K V)
      → (emit K validator reason ctx expected validation now b).0.allowed ≡ true
      → (is_allow reason ≡ true) × (b.audit.fail ≡ false)
  unfolding emit append
  emit-allowed reason ctx expected validation now b h = elim (Bool-cases b.audit.fail) [
    | inl f ↦ let g : false ≡ true = rw f at h in ground arith
    | inr f ↦ (rw f at h, f)
  ]

  allowed-emit :
      (ctx : Option AuthorityContext) (expected : ExpectedBinding)
      (validation : Option ValidationResult) (now : String) (b : Boundary K V)
      → b.audit.fail ≡ false
      → (emit K validator allowed ctx expected validation now b).0.allowed ≡ true
  unfolding emit append
  allowed-emit ctx expected validation now b f = rw f refl

  -- What an allow rests on.
  pub record Granted (ctx : AuthorityContext) (expected : ExpectedBinding) (b : Boundary K V)
      : Type 0 where
    pub reference : or_empty ctx.authority_reference ≢ ""
    pub matches : Matches ctx expected
    pub validated : (answer ctx expected b).0.status ≡ allow
    pub recorded : b.audit.fail ≡ false

  revalidate-Granted :
      (ctx : AuthorityContext) (expected : ExpectedBinding) (now : String) (b : Boundary K V)
      → or_empty ctx.authority_reference ≢ ""
      → (check_bindings K validator ctx (or_empty ctx.authority_reference) expected now b).0.allowed
        ≡ true
      → Granted ctx expected b
  revalidate-Granted ctx expected now b r h = elim (Option-cases (local_reason ctx expected)) [
    | inl e ↦
        let (i, f) = emit-allowed _ _ _ _ _ _ (rw (e, check_bindings) at h) in
        record {
          reference = r;
          matches = local_reason-Matches ctx expected e;
          validated = validated_reason-allow _ i;
          recorded = f;
        }
    | inr (reason, e) ↦
        let (i, _) = emit-allowed reason _ _ _ _ _ (rw (e, check_bindings) at h) in
        let j = local_reason-refuses ctx expected reason e in ground arith
  ]

  authorize-allowed :
      (ctx : AuthorityContext) (expected : ExpectedBinding) (now : String) (b : Boundary K V)
      → (authorize K validator (some ctx) expected now b).0.allowed ≡ true
      → Granted ctx expected b
  unfolding authorize
  authorize-allowed ctx expected now b h =
      elim (Bool-cases (or_empty ctx.authority_reference == "")) [
        | inl t ↦ let (i, _) = emit-allowed authority_missing _ _ _ _ _ (rw t at h) in ground arith
        | inr f ↦ revalidate-Granted ctx expected now b (differ _ _ f) (rw f at h)
      ]

  -- Given a context, the gate opens exactly when it has an authority reference, its tenant, project,
  -- workspace, actor, tool and action are those of the execution, its approval is the expected one
  -- where one is required, gate evidence is there where it is required, the control plane allows the
  -- reference for the binding of the execution, and the audit chain takes the record. The resource
  -- scope of the context is compared with nothing.
  pub authorize_iff :
      (ctx : AuthorityContext) (expected : ExpectedBinding) (now : String) (b : Boundary K V)
      → ((authorize K validator (some ctx) expected now b).0.allowed ≡ true)
        ↔ Granted ctx expected b
  unfolding authorize
  authorize_iff ctx expected now b = (
    authorize-allowed ctx expected now b,
    λ g. rw (differ_of (or_empty ctx.authority_reference) "" g.reference) (
        rw (Matches-local_reason ctx expected g.matches, check_bindings)
          (rw g.validated (allowed-emit (some ctx) expected _ now _ g.recorded))),
  )

  -- The chain after a decision: the record of the decision with its number and hash, or, when the
  -- chain refuses it, a denial that leaves the chain as it is.
  abbrev pub Recorded : BoundaryDecision K.H → AppendOnly K → AppendOnly K → Type 0
  Recorded d before after =
      ((event : Event) × (event.allows ≡ d.allowed)
        × (event.reason ≡ d.reason)
        × (after.records ≡ before.records ++ next_entry K event before.records ∷ [])
        × (d.audit_sequence ≡ some (length before.records))
        × (d.audit_hash ≡ some (next_entry K event before.records).event_hash))
      ⊎ ((d.allowed ≡ false) × (d.reason ≡ audit_append_failed) × (after ≡ before))

  emit-Recorded :
      (reason : BoundaryReason) (ctx : Option AuthorityContext) (expected : ExpectedBinding)
      (validation : Option ValidationResult) (now : String) (b : Boundary K V)
      → Recorded
          (emit K validator reason ctx expected validation now b).0
          b.audit
          (emit K validator reason ctx expected validation now b).1.audit
  unfolding emit append event_of
  emit-Recorded reason ctx expected validation now b = elim (Bool-cases b.audit.fail) [
    | inl f ↦ rw f (inr (refl, refl, refl))
    | inr f ↦ rw f (inl (event_of reason ctx expected validation now, refl, refl, refl, refl, refl))
  ]

  check_bindings-Recorded :
      (ctx : AuthorityContext) (reference : String) (expected : ExpectedBinding) (now : String)
      (b : Boundary K V)
      → Recorded
          (check_bindings K validator ctx reference expected now b).0
          b.audit
          (check_bindings K validator ctx reference expected now b).1.audit
  check_bindings-Recorded ctx reference expected now b =
      elim (Option-cases (local_reason ctx expected)) [
        | inl e ↦ rw (e, check_bindings) (emit-Recorded _ (some ctx) expected _ now _)
        | inr (reason, e) ↦
            rw (e, check_bindings) (emit-Recorded reason (some ctx) expected none now b)
      ]

  -- Each decision of the gate, allow or deny, is in the chain before it is answered, with the
  -- sequence number and the hash that the answer has; a decision that the chain does not take is a
  -- denial.
  pub authorize-Recorded :
      (ctx : Option AuthorityContext) (expected : ExpectedBinding) (now : String) (b : Boundary K V)
      → Recorded
          (authorize K validator ctx expected now b).0
          b.audit
          (authorize K validator ctx expected now b).1.audit
  unfolding authorize
  authorize-Recorded none expected now b = emit-Recorded authority_missing none expected none now b
  authorize-Recorded (some ctx) expected now b =
      elim (Bool-cases (or_empty ctx.authority_reference == "")) [
        | inl t ↦ rw t (emit-Recorded authority_missing (some ctx) expected none now b)
        | inr f ↦
            rw f (check_bindings-Recorded ctx (or_empty ctx.authority_reference) expected now b)
      ]
