-- ===== src/Workflow/Attempts.antt =====
-- The attempts at a node.
use syndicateclaw.Base.{subst}
use syndicateclaw.Base.{ℕ, zero, suc, ◌≡◌, refl, false, ◌+◌, ◌≤◌, arith, inl, inr, Bool-cases}
use syndicateclaw.Workflow.Graph.{Node}
use syndicateclaw.Workflow.Node.{
  ExecutionStatus, Run, failed, Handler, Outcome, returns, pauses, waits_for_agent,
  waits_for_approval, raises, awaited, tried, is_exception, try_attempts, Tried,
}

-- The attempts `n` up to `last` of a node.
module _ (node : Node) (handler : Handler) where
  -- what is recorded of them
  pub record Attempted (n last : ℕ) (t : Tried) : Type 0 where
    pub from_first : n ≤ t.execution.attempt
    pub to_last : t.execution.attempt ≤ last
    pub failed_last : t.execution.status ≡ ExecutionStatus.failed → t.execution.attempt ≡ last
    pub failed_run : t.execution.status ≡ ExecutionStatus.failed → t.run.status ≡ failed

  tried-Attempted :
      (n last : ℕ) (run : Run) (x : Outcome)
      → n ≤ last
      → is_exception x ≡ false
      → Attempted n last (tried node n run x)
  unfolding tried
  tried-Attempted n last run (returns f r) h e = record {
    from_first = omega arith;
    to_last = h;
    failed_last = λ b. ground arith;
    failed_run = λ b. ground arith;
  }
  tried-Attempted n last run pauses h e = record {
    from_first = omega arith;
    to_last = h;
    failed_last = λ b. ground arith;
    failed_run = λ b. ground arith;
  }
  tried-Attempted n last run waits_for_agent h e = record {
    from_first = omega arith;
    to_last = h;
    failed_last = λ b. ground arith;
    failed_run = λ b. ground arith;
  }
  tried-Attempted n last run (waits_for_approval w) h e = record {
    from_first = omega arith;
    to_last = h;
    failed_last = λ b. ground arith;
    failed_run = λ b. ground arith;
  }
  tried-Attempted n last run (raises t) h e = ground arith

  last-Attempted : (n : ℕ) (run : Run) (x : Outcome) → Attempted n n (tried node n run x)
  unfolding tried
  last-Attempted n run (raises t) = record {
    from_first = omega arith;
    to_last = omega arith;
    failed_last = λ b. refl;
    failed_run = λ b. refl;
  }
  last-Attempted n run (returns f r) = tried-Attempted n n run (returns f r) (omega arith) refl
  last-Attempted n run pauses = tried-Attempted n n run pauses (omega arith) refl
  last-Attempted n run waits_for_agent = tried-Attempted n n run waits_for_agent (omega arith) refl
  last-Attempted n run (waits_for_approval w) =
      tried-Attempted n n run (waits_for_approval w) (omega arith) refl

  later-Attempted : (n last : ℕ) (t : Tried) → Attempted (n + 1) last t → Attempted n last t
  later-Attempted n last t a = record {
    from_first = omega (arith, a.from_first);
    to_last = a.to_last;
    failed_last = a.failed_last;
    failed_run = a.failed_run;
  }

  -- From attempt `n` on, with `left` more, the attempt that is recorded is one of these; a failed
  -- execution is recorded only for the last of them, and the run has then failed.
  pub try_attempts-Attempted :
      (left n : ℕ) (run : Run) → Attempted n (n + left) (try_attempts node handler left n run)
  unfolding try_attempts
  try_attempts-Attempted zero n run =
      subst (λ k. Attempted n k (try_attempts node handler zero n run)) (omega arith)
        (last-Attempted n (awaited (handler run.state n) run) (handler run.state n).outcome)
  try_attempts-Attempted (suc more) n run =
      elim (Bool-cases (is_exception (handler run.state n).outcome)) [
        | inl e ↦
            rw (e, try_attempts)
              (later-Attempted n (n + suc more) _ (
                subst
                  (λ k.
                    Attempted (n + 1) k
                      (try_attempts node handler more (n + 1) (awaited (handler run.state n) run)))
                  (omega arith)
                  (try_attempts-Attempted more (n + 1) (awaited (handler run.state n) run))))
        | inr e ↦ rw (e, try_attempts) (tried-Attempted n (n + suc more) _ _ (omega arith) e)
      ]
