-- ===== src/Boundary/SingleUse.antt =====
-- A single-use permit over any sequence of decisions of the gate.
use syndicateclaw.Base.{
  ℕ, ◌≡◌, true, ◌&&◌, Option, none, some, String, ◌==◌, if◌then◌else◌, string_eq, arith, inl, inr,
  Bool-cases, Option-cases, ◌∷◌, [], List, ◌+◌, ◌≤◌,
}
use syndicateclaw.Boundary.Chain.{Hashing, append}
use syndicateclaw.Boundary.Authority.{
  BoundaryReason, BoundaryDecision, authority_missing, ValidationStatus, ValidationResult,
  AuthorityContext, ExpectedBinding, Event,
}
use syndicateclaw.Boundary.Authorize.{
  or_empty, is_allow, local_reason, validated_reason, binding_of, Boundary, emit, authorize,
  check_bindings, reference_of,
}
use syndicateclaw.Boundary.Opens.{local_reason-refuses}
use syndicateclaw.Boundary.Permits.{PermitState, InMemory, validate, in_memory}
use syndicateclaw.Boundary.Replay.{Spends, left, grants, validate-Spends}

pub record Request : Type 0 where
  pub context : Option AuthorityContext
  pub expected : ExpectedBinding
  pub now : String

-- 1 for an allow of the permit `r`
abbrev pub allows_with : {H : Type 0} → String → BoundaryDecision H → ℕ
allows_with r d = if d.allowed && or_empty d.authority_reference == r then 1 else 0

module _ (K : Hashing Event) where
  -- How often `r` is allowed in a sequence of decisions, each on what the last one left.
  unfoldable pub allows : String → List Request → Boundary K InMemory → ℕ
  allows r [] b = 0
  allows r (q ∷ qs) b =
      let (d, b') = authorize K (in_memory q.now) q.context q.expected q.now b in
      allows_with r d + allows r qs b'

  module _ (r now : String) (p : PermitState) (single : p.single_use ≡ true) where
    emit_bound :
        (reason : BoundaryReason) (ctx : Option AuthorityContext) (expected : ExpectedBinding)
        (validation : Option ValidationResult) (b : Boundary K InMemory) (n : ℕ)
        → (if is_allow reason && or_empty (reference_of ctx) == r then 1 else 0) ≤ n
        → allows_with r (emit K (in_memory now) reason ctx expected validation now b).0 ≤ n
    unfolding emit append
    emit_bound reason ctx expected validation b n h = elim (Bool-cases b.audit.fail) [
      | inl f ↦ rw f (ground arith)
      | inr f ↦ rw f h
    ]

    emit-Spends :
        (reason : BoundaryReason) (ctx : Option AuthorityContext) (expected : ExpectedBinding)
        (validation : Option ValidationResult) (b : Boundary K InMemory) (n m : ℕ)
        → (if is_allow reason && or_empty (reference_of ctx) == r then 1 else 0) ≤ n
        → Spends r n m b.upstream
        → Spends r
            (allows_with r (emit K (in_memory now) reason ctx expected validation now b).0)
            m
            (emit K (in_memory now) reason ctx expected validation now b).1.upstream
    unfolding emit
    emit-Spends reason ctx expected validation b n m h s = record {
      permit = s.permit;
      found = s.found;
      single = s.single;
      spent = omega (arith, emit_bound reason ctx expected validation b n h, s.spent);
    }

    idle : (m : InMemory) → m.permits r ≡ some p → Spends r 0 (left p) m
    idle m e = record { permit = p; found = e; single = single; spent = ground arith }

    granted :
        (reference : String) (v : ValidationStatus)
        → (if is_allow (validated_reason v) && reference == r then 1 else 0) ≤ grants r reference v
    granted reference v = ground arith

    check_bindings-Spends :
        (ctx : AuthorityContext) (expected : ExpectedBinding) (b : Boundary K InMemory)
        → b.upstream.permits r ≡ some p
        → Spends r
            (allows_with r
              (check_bindings K
                (in_memory now)
                ctx
                (or_empty ctx.authority_reference)
                expected
                now
                b).0)
            (left p)
            (check_bindings K
              (in_memory now)
              ctx
              (or_empty ctx.authority_reference)
              expected
              now
              b).1.upstream
    check_bindings-Spends ctx expected b e = elim (Option-cases (local_reason ctx expected)) [
      | inl f ↦
          let reference = or_empty ctx.authority_reference in
          rw (f, check_bindings)
            (emit-Spends _ (some ctx) expected _ _ _ _
              (granted reference
                (validate now reference (binding_of ctx expected) b.upstream).0.status)
              (validate-Spends r now p single reference (binding_of ctx expected) b.upstream e))
      | inr (reason, f) ↦
          let d = local_reason-refuses ctx expected reason f in
          rw (f, check_bindings)
            (emit-Spends reason (some ctx) expected none b 0 _ (ground arith) (idle b.upstream e))
    ]

    authorize-Spends :
        (ctx : Option AuthorityContext) (expected : ExpectedBinding) (b : Boundary K InMemory)
        → b.upstream.permits r ≡ some p
        → Spends r
            (allows_with r (authorize K (in_memory now) ctx expected now b).0)
            (left p)
            (authorize K (in_memory now) ctx expected now b).1.upstream
    unfolding authorize
    authorize-Spends none expected b e =
        emit-Spends authority_missing none expected none b 0 _ (ground arith) (idle b.upstream e)
    authorize-Spends (some ctx) expected b e =
        elim (Bool-cases (or_empty ctx.authority_reference == "")) [
          | inl t ↦ rw t (
              emit-Spends authority_missing (some ctx) expected none b 0 _ (ground arith)
                (idle b.upstream e))
          | inr f ↦ rw f (check_bindings-Spends ctx expected b e)
        ]

  allows-left :
      (r : String) (qs : List Request) (b : Boundary K InMemory) (p : PermitState)
      → p.single_use ≡ true
      → b.upstream.permits r ≡ some p
      → allows r qs b ≤ left p
  unfolding allows
  allows-left r [] b p single e = ground arith
  allows-left r (q ∷ qs) b p single e =
      let s = authorize-Spends r q.now p single q.context q.expected b e in
      let next = (authorize K (in_memory q.now) q.context q.expected q.now b).1 in
      let rest = allows-left r qs next s.permit s.single s.found in omega (arith, rest, s.spent)

  -- However often and in whatever order executions are presented, whatever they ask for and whether
  -- or not the chain takes their records, a single-use permit is allowed at most once, and never
  -- once it is used.
  pub single_use_once :
      (r : String) (qs : List Request) (b : Boundary K InMemory) (p : PermitState)
      → p.single_use ≡ true
      → b.upstream.permits r ≡ some p
      → (allows r qs b ≤ 1) × (p.used ≡ true → allows r qs b ≡ 0)
  single_use_once r qs b p single e =
      let bound = allows-left r qs b p single e in (ground arith, λ u. ground arith)
