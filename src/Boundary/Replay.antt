-- ===== src/Boundary/Replay.antt =====
-- What a single-use permit allows over a sequence of executions.
use syndicateclaw.Boundary.Gate.{differ, differ_of}
use syndicateclaw.Base.{eq_refl}
use syndicateclaw.Base.{
  ℕ, ◌≡◌, ◌≢◌, refl, sym, true, false, ◌&&◌, some, String, ◌==◌, if◌then◌else◌, string_eq, eq_iff,
  arith, inl, inr, Bool-cases, Option-cases, ◌∙◌, ◌+◌, ◌≤◌,
}
use syndicateclaw.Boundary.Authority.{ValidationStatus, AuthorityBinding}
use syndicateclaw.Boundary.Permits.{
  PermitState, InMemory, is_active, same_binding, use_permit, validate,
}

abbrev pub left : PermitState → ℕ
left p = if p.used then 0 else 1

abbrev pub grants : String → String → ValidationStatus → ℕ
grants r reference status = if is_active status && reference == r then 1 else 0

-- The permit `r` is still a single-use permit in `m`, and the grants of it with what is left are at
-- most `n`.
pub record Spends (r : String) (grants n : ℕ) (m : InMemory) : Type 0 where
  pub permit : PermitState
  pub found : m.permits r ≡ some permit
  pub single : permit.single_use ≡ true
  pub spent : grants + left permit ≤ n

module _ (r now : String) (p : PermitState) (single : p.single_use ≡ true) where
  use_permit_self :
      (binding : AuthorityBinding) (m : InMemory)
      → m.permits r ≡ some p
      → Spends r
          (grants r r (use_permit now r binding p m).0.status)
          (left p)
          (use_permit now r binding p m).1
  unfolding use_permit
  use_permit_self binding m e = elim (Bool-cases (is_active p.status)) [
    | inr a ↦ rw a (record { permit = p; found = e; single = single; spent = ground arith })
    | inl a ↦ elim (Bool-cases (same_binding p.binding binding)) [
      | inr b ↦
          rw a (rw b (record { permit = p; found = e; single = single; spent = ground arith }))
      | inl b ↦ elim (Bool-cases p.used) [
        | inl u ↦ rw a (
            rw b (
              rw (single, u)
                (record { permit = p; found = e; single = single; spent = ground arith })))
        | inr u ↦ rw a (
            rw b (
              rw (single, u)
                (record {
                  permit = record p { used = true; single_use = true };
                  found = rw (eq_refl r) refl;
                  single = refl;
                  spent = ground arith;
                })))
      ]
    ]
  ]

other_kept :
    (r now reference : String) (binding : AuthorityBinding) (q : PermitState) (m : InMemory)
    → (r == reference) ≡ false
    → (use_permit now reference binding q m).1.permits r ≡ m.permits r
unfolding use_permit
other_kept r now reference binding q m d = ground arith

no_grant : (r reference : String) (v : ValidationStatus) → reference ≢ r → grants r reference v ≡ 0
no_grant r reference v d =
    let f : (reference == r) ≡ false = differ_of reference r d in ground arith

module _ (r now : String) (p : PermitState) (single : p.single_use ≡ true) where
  use_permit-Spends :
      (reference : String) (binding : AuthorityBinding) (q : PermitState) (m : InMemory)
      → m.permits r ≡ some p
      → m.permits reference ≡ some q
      → Spends r
          (grants r reference (use_permit now reference binding q m).0.status)
          (left p)
          (use_permit now reference binding q m).1
  use_permit-Spends reference binding q m e f = elim (Bool-cases (r == reference)) [
    | inl t ↦
        let same : r ≡ reference = (eq_iff _ _).0 t in
        let pq : p ≡ q = ground arith in
        rw (← same) (rw (← pq) (use_permit_self r now p single binding m e))
    | inr t ↦
        let d : reference ≢ r = λ s. differ _ _ t (sym s) in
        record {
          permit = p;
          found = other_kept r now reference binding q m t ∙ e;
          single = single;
          spent =
              rw (no_grant r reference (use_permit now reference binding q m).0.status d)
                (omega arith);
        }
  ]

  pub validate-Spends :
      (reference : String) (binding : AuthorityBinding) (m : InMemory)
      → m.permits r ≡ some p
      → Spends r
          (grants r reference (validate now reference binding m).0.status)
          (left p)
          (validate now reference binding m).1
  unfolding validate
  validate-Spends reference binding m e = elim (Bool-cases m.outage) [
    | inl o ↦ rw o (record { permit = p; found = e; single = single; spent = ground arith })
    | inr o ↦ elim (Option-cases (m.permits reference)) [
      | inl f ↦
          rw o (rw f (record { permit = p; found = e; single = single; spent = ground arith }))
      | inr (q, f) ↦ rw o (rw f (use_permit-Spends reference binding q _ e f))
    ]
  ]
