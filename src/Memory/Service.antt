-- ===== src/Memory/Service.antt =====
-- `read` and `delete` of src/syndicateclaw/memory/service.py. The database does not fail; a Redis
-- that is missing or fails holds nothing, since the service catches what it raises.
use syndicateclaw.Base.{
  ℕ, Bool, true, false, not, ◌&&◌, Option, none, some, List, ◌∷◌, String, ◌==◌, string_eq, find,
  if◌then◌else◌, Result, ok, err, value_error,
}
use syndicateclaw.Storage.{Sessions}
use syndicateclaw.Memory.Record.{
  MemoryRecord, MemoryRow, marked_for_deletion, db_to_domain, check_access_policy, is_active,
  is_expired, cache_ttl, cache_key,
}

-- Redis at a time: `setex now k ttl r` keeps `r` under `k` for `ttl` seconds of a million
-- microseconds. `get` is none for a
-- missing key, for a failure, and for a text that is no record.
pub record Redis : Type 1 where
  pub Store : Type 0
  pub get : ℕ → String → Store → Option MemoryRecord
  pub setex : ℕ → String → ℕ → MemoryRecord → Store → Store
  pub delete : String → Store → Store

pub data MemoryAction : Type 0 where
  read_action : String → String → MemoryAction
  soft_delete hard_delete : MemoryAction

pub record MemoryEvent : Type 0 where
  pub actor : String
  pub resource_id : String
  pub action : MemoryAction

-- `session.execute(delete(...))` by id, beside what the sessions offer
pub record Deletes (S : Sessions MemoryRow (λ r. r.id)) : Type 0 where
  pub remove : String → S.Db → S.Db

module _ (R : Redis) (S : Sessions MemoryRow (λ r. r.id)) where
  -- the rows, the audit events with the newest first, and Redis
  pub record World : Type 0 where
    pub db : S.Db
    pub events : List MemoryEvent
    pub cache : R.Store

  abbrev pub is_at : String → String → MemoryRow → Bool
  is_at namespace key r = (r.namespace == namespace) && (r.key == key)

  -- The namespace and the key of a row are unique in its table.
  abbrev pub get_by_key : String → String → S.Db → Option MemoryRow
  get_by_key namespace key d = find (is_at namespace key) (S.rows d)

  abbrev pub emit_audit : String → MemoryAction → MemoryRecord → World → World
  emit_audit actor action rec w = record w {
    events = record { actor = actor; resource_id = rec.id; action = action } ∷ w.events;
  }

  abbrev pub set_cached : ℕ → String → String → MemoryRecord → World → World
  set_cached now namespace key rec w = record w {
    cache = R.setex now (cache_key namespace key) (cache_ttl rec.ttl_seconds) rec w.cache;
  }

  abbrev pub invalidate_cache : String → String → World → World
  invalidate_cache namespace key w = record w { cache = R.delete (cache_key namespace key) w.cache }

  -- what `read` does with the record it found in the database
  unfoldable pub read_stored :
      ℕ → String → String → String → MemoryRecord → World → Option MemoryRecord × World
  read_stored now namespace key actor rec w =
      if not (is_active rec.deletion_status)
      then (none, w)
      else if is_expired now rec.expires_at
      then (none, w)
      else if not (check_access_policy rec actor)
      then (none, w)
      else (
        some rec,
        if rec.access_policy == "default"
            then set_cached now namespace key rec
                (emit_audit actor (read_action namespace key) rec w)
            else emit_audit actor (read_action namespace key) rec w,
      )

  unfoldable pub read : ℕ → String → String → String → World → Option MemoryRecord × World
  unfolding read_stored
  read now namespace key actor w = elim (R.get now (cache_key namespace key) w.cache) [
    | some cached ↦ (if check_access_policy cached actor then some cached else none, w)
    | none ↦ elim (get_by_key namespace key w.db) [
      | none ↦ (none, w)
      | some row ↦ read_stored now namespace key actor (db_to_domain row) w
    ]
  ]

  abbrev pub marked : ℕ → MemoryRow → MemoryRow
  marked now row = record row {
    deletion_status = marked_for_deletion;
    deleted_at = some now;
    updated_at = now;
  }

  module _ (D : Deletes S) where
    abbrev pub delete_row : ℕ → Bool → MemoryRow → S.Db → S.Db
    delete_row now true row d = D.remove row.id d
    delete_row now false row d = S.merge (marked now row) d

    abbrev pub delete_action : Bool → MemoryAction
    delete_action true = hard_delete
    delete_action false = soft_delete

    unfoldable pub delete : ℕ → String → String → Bool → World → Result (Unit {0}) × World
    delete now record_id actor hard w = elim (S.get record_id w.db) [
      | none ↦ (if hard then ok tt else err value_error, w)
      | some row ↦ (
        ok tt,
        invalidate_cache row.namespace row.key (
            emit_audit actor (delete_action hard) (db_to_domain row)
              (record w { db = delete_row now hard row w.db })),
      )
    ]
