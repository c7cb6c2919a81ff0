-- ===== src/Authz/CacheHit.antt =====
-- What a second evaluation reads from the cache that the first one filled.
use syndicateclaw.Base.{ℕ, String, ◌≡◌, Option, none, some, List, string_eq, map, ok}
use syndicateclaw.Authz.Scope.{Scope}
use syndicateclaw.Authz.Tables.{Tables, resolve_permissions}
use syndicateclaw.Authz.Cache.{Assignment, Redis, cache_get, without_expired}
use syndicateclaw.Authz.Evaluator.{to_assignment, evaluate}

module _ (R : Redis) (now later : ℕ) (db : Tables) (s s' : R.Store)
    (principal version : String) where
  abbrev stored : List Assignment
  stored = map without_expired (map (to_assignment now) (resolve_permissions db principal))

  -- The first evaluation found a version, and could store what it resolved under it.
  abbrev Filled : Type 0
  Filled =
      (R.version principal s ≡ ok (some version))
      × (R.set_perms principal version (R.dumps stored) s ≡ ok s')

module _ (R : Redis) (s : R.Store) (principal : String) where
  -- The cache holds a version of the principal and nothing under it, and takes a text there.
  pub record CanFill : Type 0 where
    pub version : String
    pub found : R.version principal s ≡ ok (some version)
    pub missed : cache_get R (some s) principal ≡ none
    pub takes : (t : R.Json) → (s' : R.Store) × (R.set_perms principal version t s ≡ ok s')

module _ (R : Redis) (now later : ℕ) (db db' : Tables) (s : R.Store) (principal : String) where
  -- the cache that the first evaluation leaves
  abbrev pub after_first : String → Option Scope → Option R.Store
  after_first permission scope = (evaluate R now db (some s) (some principal) permission scope).1
