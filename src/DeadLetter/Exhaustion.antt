-- ===== src/DeadLetter/Exhaustion.antt =====
-- The retries of an event that the store never takes.
use syndicateclaw.Base.{
  ℕ, suc, ◌≤◌, ◌≡◌, refl, ◌∙◌, Bool, true, false, some, String, ◌==◌, string_eq, Bool-cases, inl,
  inr, arith, leb,
}
use syndicateclaw.Storage.{Sessions}
use syndicateclaw.DeadLetter.Queue.{
  DeadLetter, failed_permanent, World, is_eligible, exhausted, retried_at, retry_row,
}
use syndicateclaw.DeadLetter.Retry.{get-change_row}

module _ {P A : Type 0} (S : Sessions (DeadLetter P) (λ r. r.id))
    (emits : P → World S A → Bool × World S A) where
  -- The service raises for every event, and leaves the table of the queue alone.
  abbrev pub Refuses : Type 0
  Refuses = (p : P) (w : World S A) → ((emits p w).0 ≡ false) × ((emits p w).1.db ≡ w.db)

  -- The record `k` is given up.
  pub record GivenUp (k : String) (d : S.Db) : Type 0 where
    pub row : DeadLetter P
    pub stored : S.get k d ≡ some row
    pub failed : row.status ≡ failed_permanent

  -- The record `k` is to be retried, at most `m` times, of which `c` at least are over.
  pub record Waiting (k : String) (m c : ℕ) (d : S.Db) : Type 0 where
    pub row : DeadLetter P
    pub stored : S.get k d ≡ some row
    pub eligible : is_eligible row ≡ true
    pub limit : row.max_retries ≡ m
    pub count : c ≤ row.retry_count

  module _ (refuses : Refuses) (now : ℕ) (k : String) where
    pub row_other :
        (rec : DeadLetter P) (w : World S A)
        → (rec.id == k) ≡ false
        → S.get k (retry_row S emits now rec w).1.db ≡ S.get k w.db
    unfolding retry_row
    row_other rec w f = elim (Bool-cases (leb rec.max_retries rec.retry_count)) [
      | inl x ↦ rw x (get-change_row S exhausted (λ r. refl) k rec.id w.db ∙ rw f refl)
      | inr x ↦
          let (sent, kept) = refuses rec.event_payload w in
          rw x (
            rw sent
              (get-change_row S (retried_at now) (λ r. refl) k rec.id _ ∙ rw f (rw kept refl)))
    ]

    pub row_exhausted :
        (rec : DeadLetter P) (w : World S A) {r : DeadLetter P}
        → (rec.id == k) ≡ true
        → leb rec.max_retries rec.retry_count ≡ true
        → S.get k w.db ≡ some r
        → GivenUp k (retry_row S emits now rec w).1.db
    unfolding retry_row
    row_exhausted rec w {r} t x e = record {
      row = exhausted r;
      stored = rw x (get-change_row S exhausted (λ r. refl) k rec.id w.db ∙ rw t (rw e refl));
      failed = refl;
    }

    pub row_retried :
        (rec : DeadLetter P) (w : World S A) (m c : ℕ)
        → (rec.id == k) ≡ true
        → leb rec.max_retries rec.retry_count ≡ false
        → Waiting k m c w.db
        → Waiting k m (suc c) (retry_row S emits now rec w).1.db
    unfolding retry_row
    row_retried rec w m c t x h =
        let (sent, kept) = refuses rec.event_payload w in
        record {
          row = retried_at now h.row;
          stored = rw x (
              rw sent (
                get-change_row S (retried_at now) (λ r. refl) k rec.id _
                ∙ rw t (rw kept (rw h.stored refl))));
          eligible = h.eligible;
          limit = h.limit;
          count = omega (arith, h.count);
        }
