-- ===== src/Boundary/Gate.antt =====
-- What the local checks of the gate let through (`authorize`, steps 2 and 3).
use syndicateclaw.Base.{
  ◌≡◌, ◌≢◌, refl, Bool, true, false, not, ◌&&◌, ◌||◌, Option, none, some, String, ◌==◌,
  if◌then◌else◌, string_eq, eq_iff, arith, inl, inr, Bool-cases,
}
use syndicateclaw.Boundary.Authority.{AuthorityContext, ExpectedBinding}
use syndicateclaw.Boundary.Authorize.{or_empty, local_reason}

-- What the context has to agree with before the control plane is asked.
pub record Matches (ctx : AuthorityContext) (expected : ExpectedBinding) : Type 0 where
  pub tenant : or_empty ctx.tenant_id ≡ expected.tenant_id
  pub project : or_empty ctx.project_id ≡ expected.project_id
  pub workspace : or_empty ctx.workspace_id ≡ expected.workspace_id
  pub actor : or_empty ctx.actor ≡ expected.actor
  pub tool : or_empty ctx.tool_identity ≡ expected.tool_identity
  pub action : or_empty ctx.action ≡ expected.action
  pub approval :
      expected.require_approval ≡ true → or_empty ctx.approval_id ≡ or_empty expected.approval_id
  pub evidence : ctx.requires_gate_evidence ≡ true → or_empty ctx.gate_evidence_reference ≢ ""

module _ {A : Type 0} where
  pass_not :
      (b : Bool) (x : A) (r : Option A)
      → (if not b then some x else r) ≡ none
      → (b ≡ true) × (r ≡ none)
  pass_not true x r h = (refl, h)
  pass_not false x r h = ground arith

  pass :
      (b : Bool) (x : A) (r : Option A)
      → (if b then some x else r) ≡ none
      → (b ≡ false) × (r ≡ none)
  pass true x r h = ground arith
  pass false x r h = (refl, h)

same : (a b : Bool) → (not a || not b) ≡ false → (a ≡ true) × (b ≡ true)
same true true h = (refl, refl)
same true false h = ground arith
same false b h = ground arith

unless : (a b : Bool) → (a && not b) ≡ false → a ≡ true → b ≡ true
unless true true h t = refl
unless true false h t = ground arith
unless false b h t = ground arith

second : (a b : Bool) → (a && b) ≡ false → a ≡ true → b ≡ false
second true b h t = h
second false b h t = ground arith

pub differ : (s t : String) → (s == t) ≡ false → s ≢ t
differ s t f e = let g : (s == t) ≡ true = (eq_iff s t).1 e in ground arith

pub differ_of : (s t : String) → s ≢ t → (s == t) ≡ false
differ_of s t d = elim (Bool-cases (s == t)) [ inl e ↦ absurd (d ((eq_iff s t).0 e)) | inr f ↦ f ]

pub local_reason-Matches :
    (ctx : AuthorityContext) (expected : ExpectedBinding)
    → local_reason ctx expected ≡ none
    → Matches ctx expected
unfolding local_reason
local_reason-Matches ctx expected h =
    let (a, h1) = pass_not _ _ _ h in
    let (b, h2) = pass_not _ _ _ h1 in
    let (c, h3) = pass_not _ _ _ h2 in
    let (d, h4) = pass_not _ _ _ h3 in
    let (e, h5) = pass _ _ _ h4 in
    let (f, h6) = pass _ _ _ h5 in
    let (g, _) = pass _ _ _ h6 in
    let (e1, e2) = same _ _ e in
    record {
      tenant = (eq_iff _ _).0 a;
      project = (eq_iff _ _).0 b;
      workspace = (eq_iff _ _).0 c;
      actor = (eq_iff _ _).0 d;
      tool = (eq_iff _ _).0 e1;
      action = (eq_iff _ _).0 e2;
      approval = λ r. (eq_iff _ _).0 (unless _ _ f r);
      evidence = λ r. differ _ _ (second _ _ g r);
    }

approved :
    (ctx : AuthorityContext) (expected : ExpectedBinding)
    → Matches ctx expected
    → (expected.require_approval && not (or_empty ctx.approval_id == or_empty expected.approval_id))
      ≡ false
approved ctx expected m = elim (Bool-cases expected.require_approval) [
  | inl r ↦
      rw (r, (eq_iff (or_empty ctx.approval_id) (or_empty expected.approval_id)).1 (m.approval r))
        refl
  | inr r ↦ rw r refl
]

evidenced :
    (ctx : AuthorityContext) (expected : ExpectedBinding)
    → Matches ctx expected
    → (ctx.requires_gate_evidence && or_empty ctx.gate_evidence_reference == "") ≡ false
evidenced ctx expected m = elim (Bool-cases ctx.requires_gate_evidence) [
  | inl r ↦ rw (r, differ_of (or_empty ctx.gate_evidence_reference) "" (m.evidence r)) refl
  | inr r ↦ rw r refl
]

pub Matches-local_reason :
    (ctx : AuthorityContext) (expected : ExpectedBinding)
    → Matches ctx expected
    → local_reason ctx expected ≡ none
unfolding local_reason
Matches-local_reason ctx expected m = rw ((eq_iff _ _).1 m.tenant) (
    rw ((eq_iff _ _).1 m.project) (
      rw ((eq_iff _ _).1 m.workspace) (
        rw ((eq_iff _ _).1 m.actor) (
          rw ((eq_iff _ _).1 m.tool) (
            rw ((eq_iff _ _).1 m.action)
              (rw (approved ctx expected m) (rw (evidenced ctx expected m) refl)))))))
