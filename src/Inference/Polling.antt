-- ===== src/Inference/Polling.antt =====
-- When a key that is in progress goes stale.
use syndicateclaw.Base.{In-find}
use syndicateclaw.Base.{
  ℕ, String, ◌≡◌, refl, true, false, some, List, [], ◌∷◌, ◌+◌, ◌≤◌, string_eq, find, if◌then◌else◌,
  ok, arith, eq_iff, ◌∙◌, ap,
}
use syndicateclaw.Inference.Idempotency.{
  Envelope, in_progress, update_where, has_key, is_stale, as_stale, seen, insert_or_get, acquire,
}
use syndicateclaw.Inference.Binding.{find-update_where, as_stale-Keeps, seen-Keeps}
use syndicateclaw.Inference.Once.{rolled_back_ok}

-- The key's row is in progress, with this hash, and was last written at this time.
pub record Working (key hash : String) (t : ℕ) (rows : List Envelope) : Type 0 where
  pub row : Envelope
  pub found : find (has_key key) rows ≡ some row
  pub has_hash : row.request_hash ≡ hash
  pub going : in_progress row.status ≡ true
  pub written : row.updated_at ≡ t

insert_or_get-Working :
    (key hash i : String) (now t : ℕ) (rows : List Envelope)
    → Working key hash t rows
    → (e : Envelope) × ((insert_or_get key hash i now rows).0 ≡ ok (e, false))
      × Working key hash now (insert_or_get key hash i now rows).1
unfolding insert_or_get
insert_or_get-Working key hash i now t rows w =
    let same = (eq_iff w.row.request_hash hash).1 w.has_hash in
    let its : has_key key w.row ≡ true = found_key key rows w.found in
    (
      seen now w.row,
      rw (w.found, insert_or_get) (rw same refl),
      rw (w.found, insert_or_get)
          (rw same (record {
            row = seen now w.row;
            found =
                find-update_where (has_key key) (seen now) (seen-Keeps now) key rows w.found
                ∙ ap (λ c. some (if c then seen now w.row else w.row)) its;
            has_hash = w.has_hash;
            going = w.going;
            written = refl;
          })),
    )
  where
    found_key :
        (key : String) (rows : List Envelope) {row : Envelope}
        → find (has_key key) rows ≡ some row
        → has_key key row ≡ true
    found_key key rows {row} h = (In-find (has_key key) row rows h).1

module _ (stale_after : ℕ) where
  acquire-Working :
      (key hash i : String) (now t : ℕ) (rows : List Envelope)
      → now ≤ t + stale_after
      → Working key hash t rows
      → Working key hash now (acquire stale_after key hash i now rows).1
  unfolding acquire
  acquire-Working key hash i now t rows early w =
      let young : is_stale stale_after key now w.row ≡ false = ground (arith, w.written, early) in
      let kept : Working key hash t
          (update_where (is_stale stale_after key now) (as_stale now) rows) =
        record {
          row = w.row;
          found =
              find-update_where (is_stale stale_after key now) (as_stale now) (as_stale-Keeps now)
                key rows w.found
              ∙ ap (λ c. some (if c then as_stale now w.row else w.row)) young;
          has_hash = w.has_hash;
          going = w.going;
          written = w.written;
        } in
      let (e, q, w') = insert_or_get-Working key hash i now t _ kept in
      rw
        (rolled_back_ok rows
          (insert_or_get key hash i now
            (update_where (is_stale stale_after key now) (as_stale now) rows))
          q)
        w'

  -- each call comes at most `stale_after` behind the one before it, the first behind `t`
  abbrev pub Frequent : ℕ → List ℕ → Type 0
  Frequent t [] = Unit
  Frequent t (now ∷ times) = (now ≤ t + stale_after) × Frequent now times

  abbrev pub poll : String → String → String → List ℕ → List Envelope → List Envelope
  poll key hash i [] rows = rows
  poll key hash i (now ∷ times) rows =
      poll key hash i times (acquire stale_after key hash i now rows).1

  abbrev pub last_time : ℕ → List ℕ → ℕ
  last_time t [] = t
  last_time t (now ∷ times) = last_time now times

  -- A key in progress whose request is sent again and again, never more than `stale_after` apart, the
  -- first within it of the row's last write, is still in progress after the last time.
  pub polled-Working :
      (key hash i : String) (times : List ℕ) (t : ℕ) (rows : List Envelope)
      → Frequent t times
      → Working key hash t rows
      → Working key hash (last_time t times) (poll key hash i times rows)
  polled-Working key hash i [] t rows f w = w
  polled-Working key hash i (now ∷ times) t rows (early, f) w =
      polled-Working key hash i times now _ f (acquire-Working key hash i now t rows early w)
