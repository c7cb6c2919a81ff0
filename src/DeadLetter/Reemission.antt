-- ===== src/DeadLetter/Reemission.antt =====
-- A retry through an audit service that hands failed events to this queue.
use syndicateclaw.DeadLetter.Queue.{handed}
use syndicateclaw.Base.{
  ℕ, ◌≡◌, refl, sym, ◌∙◌, ap, true, false, Option, none, some, String, ◌==◌, string_eq, eq_iff,
  eq_refl, Bool-cases, inl, inr, arith, leb, ok,
}
use syndicateclaw.Storage.{Sessions}
use syndicateclaw.DeadLetter.Queue.{
  DeadLetter, World, new_record, resolved_at, enqueue, emit_event, retry_row,
}
use syndicateclaw.DeadLetter.Retry.{get-change_row}
use syndicateclaw.DeadLetter.Exhaustion.{Refuses}

module _ {P A : Type 0} (S : Sessions (DeadLetter P) (λ r. r.id)) where
  -- a store that takes nothing, with no queue attached
  pub emit_event-Refuses :
      (persist : P → A → Option String × A) (fresh : String)
      → ((p : P) (a : A) → (e : String) × ((persist p a).0 ≡ some e))
      → Refuses S (emit_event S persist none fresh)
  unfolding emit_event
  emit_event-Refuses persist fresh fails p w =
      let (e, h) = fails p w.store in rw (h, emit_event) (refl, refl)

  module _ (persist : P → A → Option String × A) (lower : String → String) (fresh : String) where
    enqueue_added :
        (p : P) (w : World S A) (error : String) (d : S.Db)
        → S.add (new_record lower fresh p error) w.db ≡ ok d
        → enqueue S lower fresh p error w ≡ (ok fresh, record { db = d; store = w.store })
    unfolding enqueue
    enqueue_added p w error d added = rw (added, enqueue) refl

    emit_attached :
        (p : P) (w : World S A) (error : String) (d : S.Db)
        → (persist p w.store).0 ≡ some error
        → S.add (new_record lower fresh p error) w.db ≡ ok d
        → emit_event S persist (some lower) fresh p w
          ≡ (true, record { db = d; store = (persist p w.store).1 })
    unfolding emit_event
    emit_attached p w error d fails added =
        rw (fails, emit_event)
          (ap (handed S)
            (enqueue_added p (record w { store = (persist p w.store).1 }) error d added))

    -- When the store refuses an event that is retried, and the audit service hands failed events to
    -- the queue, the retry counts as done and the record is RESOLVED, while the event stands in a new
    -- record with no retry: its retries start again.
    pub reemitted :
        (now : ℕ) (rec : DeadLetter P) (w : World S A) (error : String)
        → (persist rec.event_payload w.store).0 ≡ some error
        → S.get rec.id w.db ≡ some rec
        → S.get fresh w.db ≡ none
        → leb rec.max_retries rec.retry_count ≡ false
        → ((retry_row S (emit_event S persist (some lower) fresh) now rec w).0 ≡ true)
          × (S.get rec.id (retry_row S (emit_event S persist (some lower) fresh) now rec w).1.db
              ≡ some (resolved_at now "system:dlq_retry" rec))
          × (S.get fresh (retry_row S (emit_event S persist (some lower) fresh) now rec w).1.db
              ≡ some (new_record lower fresh rec.event_payload error))
    unfolding retry_row
    reemitted now rec w error fails held free room =
        let row = new_record lower fresh rec.event_payload error in
        let (d, added) = S.add_fresh row w.db free in
        let apart : (rec.id == fresh) ≡ false = elim (Bool-cases (rec.id == fresh)) [
          | inl t ↦
              let bad : some rec ≡ none =
                sym held ∙ ap (λ i. S.get i w.db) ((eq_iff rec.id fresh).0 t) ∙ free in
              ground arith
          | inr f ↦ f
        ] in
        let apart' : (fresh == rec.id) ≡ false = elim (Bool-cases (fresh == rec.id)) [
          | inl t ↦
              let t' : (rec.id == fresh) ≡ true =
                (eq_iff rec.id fresh).1 (sym ((eq_iff fresh rec.id).0 t)) in
              ground arith
          | inr f ↦ f
        ] in
        let old : S.get rec.id d ≡ some rec = S.get-add rec.id row w.db added ∙ rw apart' held in
        let new : S.get fresh d ≡ some row =
          S.get-add fresh row w.db added ∙ rw (eq_refl fresh) refl in
        rw room (
          rw (emit_attached rec.event_payload w error d fails added) (
            refl,
            get-change_row S (resolved_at now "system:dlq_retry") (λ r. refl) rec.id rec.id d
                ∙ rw (eq_refl rec.id) (rw old refl),
            get-change_row S (resolved_at now "system:dlq_retry") (λ r. refl) fresh rec.id d
                ∙ rw apart new,
          ))
