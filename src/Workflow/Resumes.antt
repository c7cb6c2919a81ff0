-- ===== src/Workflow/Resumes.antt =====
-- How often an approval lets a run go on, over a sequence of calls.
use syndicateclaw.Base.{
  ℕ, ◌+◌, ◌≤◌, ◌≡◌, refl, sym, ap, Bool, true, false, ◌&&◌, Option, none, some, String, ◌==◌,
  string_eq, eq_iff, if◌then◌else◌, Result, ok, err, List, [], ◌∷◌, Bool-cases, inl, inr, arith,
  Result-cases, Option-cases, All,
}
use syndicateclaw.Json.{Value}
use syndicateclaw.Workflow.Resume.{Approval, RunRow, Tables, consume, resume_after_approval}
use syndicateclaw.Workflow.OneShot.{
  is_consumed, consumed_context_consumed, Consumption, consume-Consumption,
}

pub record Call : Type 0 where
  pub now : String
  pub run_id : String
  pub approval_id : String

abbrev pub is_ok : {A : Type 0} → Result A → Bool
is_ok (ok a) = true
is_ok (err e) = false

-- What an approval can still give; one that is not there may still be written.
abbrev left : Option Approval → ℕ
left none = 1
left (some approval) = if is_consumed approval.context then 0 else 1

left_bound : (o : Option Approval) → left o ≤ 1
left_bound none = omega arith
left_bound (some approval) = ground arith

module _ (str : Value → String) where
  -- 1 for a success with the approval `a`
  abbrev used : String → String → Result RunRow → ℕ
  used a approval_id answer = if is_ok answer && approval_id == a then 1 else 0

  Consumption-left :
      (a now run_id approval_id : String) (d d' : Tables) (answer : Result RunRow)
      → (now == "") ≡ false
      → Consumption str now run_id approval_id d answer d'
      → used a approval_id answer + left (d'.approvals a) ≤ left (d.approvals a)
  Consumption-left a now run_id approval_id d d' (err e) h c =
      let same : left (d'.approvals a) ≡ left (d.approvals a) = ap (λ t. left (t.approvals a)) c in
      omega arith
  Consumption-left a now run_id approval_id d d' (ok run) h c =
      elim (Bool-cases (a == approval_id)) [
        | inl t ↦
            let e : a ≡ approval_id = (eq_iff a approval_id).0 t in
            let before : left (d.approvals a) ≡ 1 = rw e (rw c.stored (rw c.fresh refl)) in
            let after : left (d'.approvals a) ≡ 0 = rw c.spent (
              rw t
                (rw (consumed_context_consumed str now run_id c.node c.approval.context h) refl)) in
            ground arith
        | inr t ↦
            let kept : left (d'.approvals a) ≡ left (d.approvals a) = rw c.spent (rw t refl) in
            let other : (approval_id == a) ≡ false = elim (Bool-cases (approval_id == a)) [
              | inl s ↦
                  let e : a ≡ approval_id = sym ((eq_iff approval_id a).0 s) in
                  let s' : (a == approval_id) ≡ true = (eq_iff a approval_id).1 e in ground arith
              | inr f ↦ f
            ] in
            rw other (ground arith)
      ]

  module _ {E : Type 0} (execute : RunRow → Tables × E → Tables × E) where
    -- No execution takes the mark of consumption off the approval `a`.
    abbrev pub KeepsConsumed : String → Type 0
    KeepsConsumed a =
        (run : RunRow) (d : Tables) (e : E) (approval : Approval)
        → d.approvals a ≡ some approval
        → is_consumed approval.context ≡ true
        → (approval' : Approval) × ((execute run (d, e)).0.approvals a ≡ some approval')
          × (is_consumed approval'.context ≡ true)

    execute_left :
        (a : String)
        → KeepsConsumed a
        → (run : RunRow) (d : Tables) (e : E)
        → left ((execute run (d, e)).0.approvals a) ≤ left (d.approvals a)
    execute_left a keeps run d e =
        let bound = left_bound ((execute run (d, e)).0.approvals a) in
        elim (Option-cases (d.approvals a)) [
          | inl none_stored ↦ rw none_stored bound
          | inr (approval, stored) ↦ elim (Bool-cases (is_consumed approval.context)) [
            | inr fresh ↦ rw stored (rw fresh bound)
            | inl consumed ↦
                let (approval', stored', consumed') = keeps run d e approval stored consumed in
                rw stored' (rw consumed' (omega arith))
          ]
        ]

    resume_left :
        (a now run_id approval_id : String) (d : Tables) (e : E)
        → (now == "") ≡ false
        → KeepsConsumed a
        → used a approval_id (resume_after_approval str execute now run_id approval_id (d, e)).0
            + left
                ((resume_after_approval str execute now run_id approval_id (d, e)).1.0.approvals a)
          ≤ left (d.approvals a)
    unfolding resume_after_approval
    resume_left a now run_id approval_id d e h keeps =
        let c = consume-Consumption str now run_id approval_id d in
        let bound = Consumption-left a now run_id approval_id d _ _ h c in
        elim (Result-cases (consume str now run_id approval_id d).0) [
          | inl (run, r) ↦
              let kept = execute_left a keeps run (consume str now run_id approval_id d).1 e in
              rw (r, resume_after_approval) (omega (arith, rw r at bound, kept))
          | inr (x, r) ↦ rw (r, resume_after_approval) (rw r at bound)
        ]

    -- How many of the calls go on with a run by the approval `a`.
    unfoldable pub resumes : String → List Call → Tables × E → ℕ
    resumes a [] w = 0
    resumes a (c ∷ cs) w =
        let (answer, w') = resume_after_approval str execute c.now c.run_id c.approval_id w in
        used a c.approval_id answer + resumes a cs w'

    resumes_left :
        (a : String) (cs : List Call) (d : Tables) (e : E)
        → All (λ c. (c.now == "") ≡ false) cs
        → KeepsConsumed a
        → resumes a cs (d, e) ≤ left (d.approvals a)
    unfolding resumes
    resumes_left a [] d e h keeps = ground arith
    resumes_left a (c ∷ cs) d e (h, hs) keeps =
        let w' = (resume_after_approval str execute c.now c.run_id c.approval_id (d, e)).1 in
        omega (
          arith,
          resume_left a c.now c.run_id c.approval_id d e h keeps,
          resumes_left a cs w'.0 w'.1 hs keeps,
        )

    -- Over any sequence of calls, for whatever runs, an approval lets a run go on at most once, and
    -- never once it has been consumed, if no execution takes the mark of consumption off it. Else the
    -- executions may do what they like to the tables. The times of the calls are not the empty text.
    pub resumes_once :
        (a : String) (cs : List Call) (d : Tables) (e : E)
        → All (λ c. (c.now == "") ≡ false) cs
        → KeepsConsumed a
        → (resumes a cs (d, e) ≤ 1)
          × ((approval : Approval)
              → d.approvals a ≡ some approval
              → is_consumed approval.context ≡ true
              → resumes a cs (d, e) ≡ 0)
    resumes_once a cs d e h keeps =
        let bound = resumes_left a cs d e h keeps in
        (
          omega (arith, bound, left_bound (d.approvals a)),
          λ approval s c. let spent : left (d.approvals a) ≡ 0 = rw s (rw c refl) in omega arith,
        )
