-- ===== src/Authz/Cache.antt =====
-- The cache of resolved assignments: `_cache_get` and `_cache_set`.
-- Redis and the JSON text of the assignments are the interface `Redis`.
use syndicateclaw.Base.{String, ◌≡◌, Bool, Option, none, some, List, map, Result, ok, err}
use syndicateclaw.Authz.Tables.{Source}

-- An assignment as a Python dictionary; `expired` is `none` where the key is missing.
pub record Assignment : Type 0 where
  pub assignment_id : String
  pub role_id : String
  pub role_name : String
  pub scope_type : String
  pub scope_id : String
  pub source : Source
  pub expired : Option Bool

-- The keys "rbac:version:{principal}", which hold a version, and the keys
-- "rbac:perms:{principal}:{version}", which hold JSON. A failing server raises, a write is read back
-- until it expires, and JSON gives back what was written.
pub record Redis : Type 1 where
  pub Store : Type 0
  pub Json : Type 0
  pub version : String → Store → Result (Option String)
  pub set_version : String → String → Store → Result Store
  pub perms : String → String → Store → Result (Option Json)
  pub set_perms : String → String → Json → Store → Result Store
  pub dumps : List Assignment → Json
  pub loads : Json → Option (List Assignment)
  pub version-set_version :
      (p v : String) (s : Store) {s' : Store}
      → set_version p v s ≡ ok s'
      → version p s' ≡ ok (some v)
  pub version-set_perms :
      (p v q : String) (t : Json) (s : Store) {s' : Store}
      → set_perms p v t s ≡ ok s'
      → version q s' ≡ version q s
  pub perms-set_perms :
      (p v : String) (t : Json) (s : Store) {s' : Store}
      → set_perms p v t s ≡ ok s'
      → perms p v s' ≡ ok (some t)
  pub loads-dumps : (as' : List Assignment) → loads (dumps as') ≡ some as'

-- `{k: v for k, v in a.items() if k != "expired"}`
abbrev pub without_expired : Assignment → Assignment
without_expired a = record a { expired = none }

module _ (R : Redis) where
  -- The client may be absent; every exception counts as a miss.
  unfoldable pub cache_get : Option R.Store → String → Option (List Assignment)
  cache_get none principal = none
  cache_get (some s) principal = elim (R.version principal s) [
    | err e ↦ none
    | ok none ↦ none
    | ok (some version) ↦ elim (R.perms principal version s) [
      | err e ↦ none
      | ok none ↦ none
      | ok (some text) ↦ R.loads text
    ]
  ]

  -- what is stored if a step fails is what the steps before it stored
  abbrev pub store_or : R.Store → Result R.Store → R.Store
  store_or s (ok s') = s'
  store_or s (err e) = s

  abbrev pub write_perms : String → List Assignment → String → R.Store → R.Store
  write_perms principal as' version s =
      store_or s (R.set_perms principal version (R.dumps (map without_expired as')) s)

  unfoldable pub cache_set : String → List Assignment → Option R.Store → Option R.Store
  cache_set principal as' none = none
  cache_set principal as' (some s) = elim (R.version principal s) [
    | err e ↦ some s
    | ok (some version) ↦ some (write_perms principal as' version s)
    | ok none ↦ elim (R.set_version principal "1" s) [
      | err e ↦ some s
      | ok s' ↦ some (write_perms principal as' "1" s')
    ]
  ]
