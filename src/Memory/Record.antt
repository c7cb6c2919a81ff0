-- ===== src/Memory/Record.antt =====
-- The memory records of src/syndicateclaw/models.py, the rows they are stored in (db/models.py),
-- and the helpers of src/syndicateclaw/memory/service.py on them. Of a record the fields are kept
-- that `read`, `delete` and `get_lineage` look at or change, and its value; `parent_ids`
-- is that of its `lineage`.
use syndicateclaw.Base.{
  ℕ, zero, suc, Bool, true, false, Option, none, some, List, String, ◌==◌, string_eq, leb,
  if◌then◌else◌,
}
use syndicateclaw.Text.{has_prefix, concat}
use syndicateclaw.Json.{Value, dict, empty, field}

pub data DeletionStatus : Type 0 where
  active marked_for_deletion deleted : DeletionStatus

pub record MemoryRecord : Type 0 where
  pub id : String
  pub namespace : String
  pub key : String
  pub value : Value
  pub actor : String
  pub access_policy : String
  pub parent_ids : List String
  pub ttl_seconds : Option ℕ
  pub expires_at : Option ℕ
  pub deletion_status : DeletionStatus
  pub deleted_at : Option ℕ
  pub updated_at : ℕ

pub record MemoryRow : Type 0 where
  pub id : String
  pub namespace : String
  pub key : String
  pub value : Value
  pub actor : Option String
  pub access_policy : String
  pub parent_ids : List String
  pub ttl_seconds : Option ℕ
  pub expires_at : Option ℕ
  pub deletion_status : DeletionStatus
  pub deleted_at : Option ℕ
  pub updated_at : ℕ

-- A dict whose only key is "_v" holds a value that is no dict.
abbrev pub unwrap : Value → Value
unwrap (dict (field k v empty)) = if k == "_v" then v else dict (field k v empty)
unwrap v = v

-- `actor or ""`
abbrev pub or_empty : Option String → String
or_empty none = ""
or_empty (some s) = s

abbrev pub db_to_domain : MemoryRow → MemoryRecord
db_to_domain row = record {
  id = row.id;
  namespace = row.namespace;
  key = row.key;
  value = unwrap row.value;
  actor = or_empty row.actor;
  access_policy = row.access_policy;
  parent_ids = row.parent_ids;
  ttl_seconds = row.ttl_seconds;
  expires_at = row.expires_at;
  deletion_status = row.deletion_status;
  deleted_at = row.deleted_at;
  updated_at = row.updated_at;
}

unfoldable pub check_access_policy : MemoryRecord → String → Bool
check_access_policy rec actor =
    if rec.access_policy == "default"
    then true
    else if rec.access_policy == "owner_only"
    then actor == rec.actor
    else if rec.access_policy == "system_only"
    then has_prefix actor "system:"
    else if rec.access_policy == "restricted"
    then actor == rec.actor
    else false

abbrev pub is_active : DeletionStatus → Bool
is_active active = true
is_active _ = false

-- `expires_at and expires_at <= now`
abbrev pub is_expired : ℕ → Option ℕ → Bool
is_expired now none = false
is_expired now (some at) = leb at now

-- `ttl_seconds or 300`
abbrev pub cache_ttl : Option ℕ → ℕ
cache_ttl none = 300
cache_ttl (some zero) = 300
cache_ttl (some (suc n)) = suc n

unfoldable pub cache_key : String → String → String
cache_key namespace key = concat "syndicateclaw:memory:" (concat namespace (concat ":" key))
