-- ===== src/Inference/Idempotency.antt =====
-- `IdempotencyStore` of src/syndicateclaw/inference/idempotency.py. The state is the table of
-- envelopes; an UPDATE maps its rows, and a method that raises leaves the table as it was.
use syndicateclaw.Base.{
  ℕ, String, Bool, true, false, ◌&&◌, Option, none, some, List, [], ◌∷◌, ◌++◌, ◌+◌, ◌==◌, string_eq,
  find, map, ltb, if◌then◌else◌, Exec, Result, ok, err, conflict_error,
}
use syndicateclaw.Json.{Fields}

pub data EnvelopeStatus : Type 0 where
  pending executing completed failed timed_out : EnvelopeStatus

pub record Envelope : Type 0 where
  pub idempotency_key : String
  pub request_hash : String
  pub inference_id : String
  pub status : EnvelopeStatus
  pub failure_reason : Option String
  pub result_json : Option Fields
  pub last_seen_at : ℕ
  pub updated_at : ℕ

abbrev pub in_progress : EnvelopeStatus → Bool
in_progress pending = true
in_progress executing = true
in_progress _ = false

-- `UPDATE ... WHERE p` sets
abbrev pub update_where : (Envelope → Bool) → (Envelope → Envelope) → List Envelope → List Envelope
update_where p f = map (λ e. if p e then f e else e)

-- `updated_at < now - stale_after`, with the bound moved to the other side
abbrev pub is_stale : ℕ → String → ℕ → Envelope → Bool
is_stale stale_after key now e =
    e.idempotency_key == key && in_progress e.status && ltb (e.updated_at + stale_after) now

abbrev pub as_stale : ℕ → Envelope → Envelope
as_stale now e = record e {
  status = failed;
  failure_reason = some "stale_in_progress";
  updated_at = now;
}

abbrev pub has_key : String → Envelope → Bool
has_key key e = e.idempotency_key == key

abbrev pub new_envelope : String → String → String → ℕ → Envelope
new_envelope key request_hash inference_id now = record {
  idempotency_key = key;
  request_hash = request_hash;
  inference_id = inference_id;
  status = pending;
  failure_reason = none;
  result_json = none;
  last_seen_at = now;
  updated_at = now;
}

-- `row.last_seen_at = now`; the model's `onupdate` renews `updated_at` with it
abbrev pub seen : ℕ → Envelope → Envelope
seen now e = record e { last_seen_at = now; updated_at = now }

-- INSERT ... ON CONFLICT DO NOTHING, else the row that is there, if it has the request's hash
unfoldable pub insert_or_get : String → String → String → ℕ → Exec (List Envelope) (Envelope × Bool)
insert_or_get key request_hash inference_id now rows = elim (find (has_key key) rows) [
  | none ↦
      let row = new_envelope key request_hash inference_id now in (ok (row, true), rows ++ row ∷ [])
  | some row ↦
      if row.request_hash == request_hash
      then (ok (seen now row, false), update_where (has_key key) (seen now) rows)
      else (err conflict_error, rows)
]

abbrev pub rolled_back :
    List Envelope
    → Result (Envelope × Bool) × List Envelope
    → Result (Envelope × Bool) × List Envelope
rolled_back before (ok r, rows) = (ok r, rows)
rolled_back before (err e, rows) = (err e, before)

unfoldable pub acquire : ℕ → String → String → String → ℕ → Exec (List Envelope) (Envelope × Bool)
unfolding insert_or_get
acquire stale_after key request_hash inference_id now rows = rolled_back rows (
    insert_or_get key request_hash inference_id now
      (update_where (is_stale stale_after key now) (as_stale now) rows))

unfoldable pub mark_executing : String → ℕ → List Envelope → List Envelope
mark_executing inference_id now =
    update_where (λ e. e.inference_id == inference_id && in_progress e.status)
      (λ e. record e { status = executing; updated_at = now })

unfoldable pub update_completed : String → Fields → ℕ → List Envelope → List Envelope
update_completed inference_id result now =
    update_where (λ e. e.inference_id == inference_id)
      (λ e. record e {
        status = completed;
        result_json = some result;
        failure_reason = none;
        updated_at = now;
      })

abbrev or_kept : Option Fields → Option Fields → Option Fields
or_kept none old = old
or_kept (some r) old = some r

unfoldable pub update_failed : String → String → Option Fields → ℕ → List Envelope → List Envelope
update_failed inference_id reason result now =
    update_where (λ e. e.inference_id == inference_id)
      (λ e. record e {
        status = failed;
        failure_reason = some reason;
        result_json = or_kept result e.result_json;
        updated_at = now;
      })
