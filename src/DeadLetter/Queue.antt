-- ===== src/DeadLetter/Queue.antt =====
-- `DeadLetterQueue` of src/syndicateclaw/audit/dead_letter.py, with `AuditService.emit` of
-- src/syndicateclaw/audit/service.py, which it retries with and which may hand events to it. An
-- event is what it stores of one (`P`); what is added to an error message is left out.
use syndicateclaw.Base.{
  ℕ, suc, ◌+◌, Bool, true, false, ◌&&◌, Option, none, some, List, [], ◌∷◌, String, string_eq, any,
  leb, keep, length, if◌then◌else◌, Result, ok, err, value_error,
}
use syndicateclaw.Text.{substring}
use syndicateclaw.Storage.{Sessions}

pub data DeadLetterStatus : Type 0 where
  pending retried failed_permanent discarded resolved : DeadLetterStatus

pub data ErrorCategory : Type 0 where
  transient permanent : ErrorCategory

pub record DeadLetter (P : Type 0) : Type 0 where
  pub id : String
  pub event_payload : P
  pub error_message : String
  pub error_category : ErrorCategory
  pub status : DeadLetterStatus
  pub retry_count : ℕ
  pub max_retries : ℕ
  pub last_retry_at : Option ℕ
  pub resolved_at : Option ℕ
  pub resolved_by : Option String

abbrev permanent_indicators : List String
permanent_indicators =
    "validation" ∷ "schema" ∷ "invalid" ∷ "malformed" ∷ "permission" ∷ "forbidden" ∷ "not found"
    ∷ []

-- `_classify_error`
unfoldable pub classify_error : (String → String) → String → ErrorCategory
classify_error lower error =
    if any (λ indicator. substring indicator (lower error)) permanent_indicators
    then permanent
    else transient

abbrev pub is_pending : DeadLetterStatus → Bool
is_pending pending = true
is_pending _ = false

abbrev pub is_transient : ErrorCategory → Bool
is_transient transient = true
is_transient permanent = false

-- What `retry_all` selects.
abbrev pub is_eligible : {P : Type 0} → DeadLetter P → Bool
is_eligible r = is_pending r.status && is_transient r.error_category

abbrev pub retries_of : ErrorCategory → ℕ
retries_of transient = 3
retries_of permanent = 0

module _ {P : Type 0} where
  abbrev pub new_record : (String → String) → String → P → String → DeadLetter P
  new_record lower id payload error = record {
    id = id;
    event_payload = payload;
    error_message = error;
    error_category = classify_error lower error;
    status = pending;
    retry_count = 0;
    max_retries = retries_of (classify_error lower error);
    last_retry_at = none;
    resolved_at = none;
    resolved_by = none;
  }

  abbrev pub exhausted : DeadLetter P → DeadLetter P
  exhausted row = record row { status = failed_permanent }

  abbrev pub retried_at : ℕ → DeadLetter P → DeadLetter P
  retried_at now row = record row { retry_count = suc row.retry_count; last_retry_at = some now }

  abbrev pub resolved_at : ℕ → String → DeadLetter P → DeadLetter P
  resolved_at now actor row = record row {
    status = resolved;
    resolved_at = some now;
    resolved_by = some actor;
  }

-- The table of the queue, and the store of the audit events.
pub record World {P : Type 0} (S : Sessions (DeadLetter P) (λ r. r.id)) (A : Type 0) : Type 0 where
  pub db : S.Db
  pub store : A

module _ {P : Type 0} (S : Sessions (DeadLetter P) (λ r. r.id)) where
  -- `row = session.get(rec.id)`, and what is done to it if it is there
  abbrev pub change_row : String → (DeadLetter P → DeadLetter P) → S.Db → S.Db
  change_row id f d = elim (S.get id d) [ none ↦ d | some row ↦ S.merge (f row) d ]

module _ {P A : Type 0} (S : Sessions (DeadLetter P) (λ r. r.id)) where
  unfoldable pub enqueue :
      (String → String) → String → P → String → World S A → Result String × World S A
  enqueue lower id payload error w = elim (S.add (new_record lower id payload error) w.db) [
    | ok d ↦ (ok id, record w { db = d })
    | err e ↦ (err e, w)
  ]

  unfoldable pub resolve_letter : ℕ → String → String → World S A → Result (Unit {0}) × World S A
  resolve_letter now record_id actor w = elim (S.get record_id w.db) [
    | none ↦ (err value_error, w)
    | some row ↦ (ok tt, record w { db = S.merge (resolved_at now actor row) w.db })
  ]

  unfoldable pub pending_size : World S A → ℕ
  pending_size w = length (keep (λ r. is_pending r.status) (S.rows w.db))

  -- what follows the hand-over to the queue
  abbrev pub handed : Result String × World S A → Bool × World S A
  handed (ok id, w) = (true, w)
  handed (err e, w) = (false, w)

  -- `AuditService.emit`, false where it raises: `persist` answers the error of the store. With the
  -- queue attached it hands the event to it, and raises only what that raises.
  unfoldable pub emit_event :
      (P → A → Option String × A)
      → Option (String → String)
      → String
      → P
      → World S A
      → Bool × World S A
  unfolding enqueue
  emit_event persist queue fresh payload w =
      let (failure, store') = persist payload w.store in
      let after = record w { store = store' } in
      elim failure [
        | none ↦ (true, after)
        | some error ↦ elim queue [
          | none ↦ (false, after)
          | some lower ↦ handed (enqueue lower fresh payload error after)
        ]
      ]

  -- The service that is retried with, over the whole state.
  module _ (emits : P → World S A → Bool × World S A) where
    unfoldable pub retry_row : ℕ → DeadLetter P → World S A → Bool × World S A
    retry_row now rec w =
        if leb rec.max_retries rec.retry_count
        then (false, record w { db = change_row S rec.id exhausted w.db })
        else let (sent, w') = emits rec.event_payload w in
          if sent
          then (
            true,
            record w' { db = change_row S rec.id (resolved_at now "system:dlq_retry") w'.db },
          )
          else (false, record w' { db = change_row S rec.id (retried_at now) w'.db })

    unfoldable pub retry_rows : ℕ → List (DeadLetter P) → World S A → ℕ × World S A
    unfolding retry_row
    retry_rows now [] w = (0, w)
    retry_rows now (rec ∷ recs) w =
        let (done, w') = retry_row now rec w in
        let (count, w'') = retry_rows now recs w' in ((if done then 1 else 0) + count, w'')

    unfoldable pub retry_all : ℕ → World S A → ℕ × World S A
    unfolding retry_rows
    retry_all now w = retry_rows now (keep is_eligible (S.rows w.db)) w
