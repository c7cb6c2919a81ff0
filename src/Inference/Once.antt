-- ===== src/Inference/Once.antt =====
-- One key, one inference.
use syndicateclaw.Base.{
  ℕ, String, ◌≡◌, refl, Bool, false, List, ◌==◌, string_eq, find, Result, ok, err, Error,
  conflict_error, arith, inl, inr, Bool-cases, Option-cases, eq_iff, eq_refl, ap, ok-injective,
}
use syndicateclaw.Inference.Idempotency.{
  Envelope, update_where, has_key, is_stale, as_stale, seen, new_envelope, insert_or_get,
  rolled_back, acquire,
}
use syndicateclaw.Inference.Binding.{
  Bound, Op, run, run-Bound, update_where-Bound, find-append_last, as_stale-Keeps, seen-Keeps,
}

module _ (key hash i : String) (now : ℕ) where
  -- what the insertion answers, and what the key is bound to after it
  inserted-Bound :
      (rows : List Envelope) {e : Envelope} {b : Bool}
      → (insert_or_get key hash i now rows).0 ≡ ok (e, b)
      → Bound key hash e.inference_id (insert_or_get key hash i now rows).1
  unfolding insert_or_get
  inserted-Bound rows {e} {b} h = elim (Option-cases (find (has_key key) rows)) [
    | inl n ↦
        rw (n, insert_or_get)
          (record {
            row = new_envelope key hash i now;
            found = find-append_last (has_key key) rows _ n (eq_refl key);
            has_hash = refl;
            has_inference =
                ap (λ r. r.0.inference_id) (ok-injective _ _ (rw (n, insert_or_get) at h));
          })
    | inr (row, n) ↦ elim (Bool-cases (row.request_hash == hash)) [
      | inl t ↦
          rw (n, insert_or_get)
            (rw t (
              update_where-Bound (has_key key) (seen now) (seen-Keeps now) rows (record {
                row = row;
                found = n;
                has_hash = (eq_iff _ _).0 t;
                has_inference =
                    (let q = rw (n, insert_or_get) at h in
                      ap (λ r. r.0.inference_id)
                        (ok-injective (seen now row, false) (e, b) (rw t at q)));
              })))
      | inr t ↦ ground (arith, n, t, h)
    ]
  ]

  inserted_again :
      {inference : String} (rows : List Envelope)
      → Bound key hash inference rows
      → (e : Envelope) × ((insert_or_get key hash i now rows).0 ≡ ok (e, false))
        × (e.inference_id ≡ inference)
  unfolding insert_or_get
  inserted_again rows b =
      let t = (eq_iff b.row.request_hash hash).1 b.has_hash in
      (seen now b.row, rw (b.found, insert_or_get) (rw t refl), b.has_inference)

  inserted_other :
      {other inference : String} (rows : List Envelope)
      → (other == hash) ≡ false
      → Bound key other inference rows
      → (insert_or_get key hash i now rows).0 ≡ err conflict_error
  unfolding insert_or_get
  inserted_other rows h b =
      let t : (b.row.request_hash == hash) ≡ false = rw b.has_hash h in
      rw (b.found, insert_or_get) (rw t refl)

-- the two ends of a transaction of `acquire`
pub rolled_back_ok :
    (before : List Envelope) (r : Result (Envelope × Bool) × List Envelope) {x : Envelope × Bool}
    → r.0 ≡ ok x
    → rolled_back before r ≡ (ok x, r.1)
rolled_back_ok before (ok y, rows) {x} h = λ j. (h j, rows)
rolled_back_ok before (err e, rows) h = ground arith

rolled_back_err :
    (before : List Envelope) (r : Result (Envelope × Bool) × List Envelope) {e : Error}
    → r.0 ≡ err e
    → rolled_back before r ≡ (err e, before)
rolled_back_err before (ok y, rows) h = ground arith
rolled_back_err before (err e, rows) h = λ j. (h j, before)

rolled_back_kept :
    (before : List Envelope) (r : Result (Envelope × Bool) × List Envelope) {x : Envelope × Bool}
    → (rolled_back before r).0 ≡ ok x
    → r.0 ≡ ok x
rolled_back_kept before (ok y, rows) h = h
rolled_back_kept before (err e, rows) h = h

module _ (stale_after : ℕ) where
  acquire-Bound :
      (key hash i : String) (now : ℕ) (rows : List Envelope) {e : Envelope} {b : Bool}
      → (acquire stale_after key hash i now rows).0 ≡ ok (e, b)
      → Bound key hash e.inference_id (acquire stale_after key hash i now rows).1
  unfolding acquire
  acquire-Bound key hash i now rows {e} {b} h =
      let inner =
        rolled_back_kept rows
          (insert_or_get key hash i now
            (update_where (is_stale stale_after key now) (as_stale now) rows))
          h in
      rw
        (rolled_back_ok rows
          (insert_or_get key hash i now
            (update_where (is_stale stale_after key now) (as_stale now) rows))
          inner)
        (inserted-Bound key hash i now _ inner)

  module _ (key hash : String) (i : String) (now : ℕ) (rows : List Envelope) where
    acquire_again :
        {inference : String}
        → Bound key hash inference rows
        → (e : Envelope) × ((acquire stale_after key hash i now rows).0 ≡ ok (e, false))
          × (e.inference_id ≡ inference)
    unfolding acquire
    acquire_again b =
        let (e, q, same) = inserted_again key hash i now _ (
          update_where-Bound (is_stale stale_after key now) (as_stale now) (as_stale-Keeps now) rows
            b) in
        (e, ap (λ r. r.0) (rolled_back_ok rows _ q), same)

    acquire_other :
        {other inference : String}
        → (other == hash) ≡ false
        → Bound key other inference rows
        → acquire stale_after key hash i now rows ≡ (err conflict_error, rows)
    unfolding acquire
    acquire_other h b = rolled_back_err rows _ (
        inserted_other key hash i now _ h (
          update_where-Bound (is_stale stale_after key now) (as_stale now) (as_stale-Keeps now) rows
            b))

  -- Once a key has been acquired, then after any operations of the store acquiring it again with the
  -- same hash creates nothing and answers with the same inference, and with another hash it raises and
  -- changes nothing.
  pub acquired_once :
      (key hash i : String) (now : ℕ) (rows : List Envelope) {e : Envelope} {b : Bool}
      → (acquire stale_after key hash i now rows).0 ≡ ok (e, b)
      → (ops : List Op) (i' : String) (later : ℕ)
      → ((e' : Envelope) × ((acquire stale_after key hash i' later
              (run stale_after ops (acquire stale_after key hash i now rows).1)).0
            ≡ ok (e', false))
          × (e'.inference_id ≡ e.inference_id))
        × ((hash' : String)
            → (hash == hash') ≡ false
            → acquire stale_after key hash' i' later
                (run stale_after ops (acquire stale_after key hash i now rows).1)
              ≡ (
                err conflict_error,
                run stale_after ops (acquire stale_after key hash i now rows).1,
              ))
  acquired_once key hash i now rows h ops i' later =
      let b = run-Bound stale_after ops _ (acquire-Bound key hash i now rows h) in
      (acquire_again key hash i' later _ b, λ hash' n. acquire_other key hash' i' later _ n b)
