-- ===== src/Authz/Tests.antt =====
-- The evaluator on a small directory of roles.
use syndicateclaw.Base.{
  ℕ, String, ◌≡◌, refl, true, false, Option, none, some, List, [], ◌∷◌, ◌==◌, string_eq, ◌&&◌, inl,
  inr, arith, Result, ok, ok-injective, ap, In, if◌then◌else◌, eq_refl,
}
use syndicateclaw.Authz.Scope.{Scope, platform, scope_contains}
use syndicateclaw.Authz.Tables.{
  Tables, Role, AssignmentRow, direct, resolve_permissions, resolve_denies, role_grants,
}
use syndicateclaw.Authz.Cache.{Assignment, Redis, cache_get, cache_set}
use syndicateclaw.Authz.Evaluator.{
  allow, deny, explicit_deny, check_denies, evaluate, evaluate_grants, resolve_assignments,
  search_grants,
}
use syndicateclaw.Authz.Grants.{active, grants_of, deny_overrides, allow_sound}
use syndicateclaw.Authz.RoleChain.{IsRanked}

abbrev CacheStore : Type 0
CacheStore = record {
  versions : String → Option String;
  texts : String → String → Option (List Assignment);
}

abbrev put_version : String → String → CacheStore → CacheStore
put_version p v s = record {
  versions = λ q. if p == q then some v else s.versions q;
  texts = s.texts;
}

abbrev put_perms : String → String → List Assignment → CacheStore → CacheStore
put_perms p v t s = record {
  versions = s.versions;
  texts = λ q w. if p == q && v == w then some t else s.texts q w;
}

version-put_version :
    (p v : String) (s : CacheStore) {s' : CacheStore}
    → ◌≡◌ {A = Result CacheStore} (ok (put_version p v s)) (ok s')
    → ◌≡◌ {A = Result (Option String)} (ok (s'.versions p)) (ok (some v))
version-put_version p v s {s'} h =
    let same : put_version p v s ≡ s' = ok-injective _ _ h in rw (← same) (rw (eq_refl p) refl)

version-put_perms :
    (p v q : String) (t : List Assignment) (s : CacheStore) {s' : CacheStore}
    → ◌≡◌ {A = Result CacheStore} (ok (put_perms p v t s)) (ok s')
    → ◌≡◌ {A = Result (Option String)} (ok (s'.versions q)) (ok (s.versions q))
version-put_perms p v q t s {s'} h =
    let same : put_perms p v t s ≡ s' = ok-injective _ _ h in rw (← same) refl

perms-put_perms :
    (p v : String) (t : List Assignment) (s : CacheStore) {s' : CacheStore}
    → ◌≡◌ {A = Result CacheStore} (ok (put_perms p v t s)) (ok s')
    → ◌≡◌ {A = Result (Option (List Assignment))} (ok (s'.texts p v)) (ok (some t))
perms-put_perms p v t s {s'} h =
    let same : put_perms p v t s ≡ s' = ok-injective _ _ h in
    rw (← same) (rw (eq_refl p, eq_refl v) refl)

abbrev memory : Redis
memory = record {
  Store = CacheStore;
  Json = List Assignment;
  version = λ p s. ok (s.versions p);
  set_version = λ p v s. ok (put_version p v s);
  perms = λ p v s. ok (s.texts p v);
  set_perms = λ p v t s. ok (put_perms p v t s);
  dumps = λ as'. as';
  loads = λ as'. some as';
  version-set_version = version-put_version;
  version-set_perms = version-put_perms;
  perms-set_perms = perms-put_perms;
  loads-dumps = λ as'. refl;
}

abbrev db : Tables
db = record {
  roles =
      record { id = "r1"; name = "viewer"; permissions = "run:read" ∷ []; inherits_from = none }
      ∷ record {
        id = "r2";
        name = "operator";
        permissions = "run:start" ∷ [];
        inherits_from = some "viewer";
      }
      ∷ [];
  role_assignments =
      record {
        id = "a1";
        principal_id = "ops";
        role_id = "r2";
        scope_type = "TENANT";
        scope_id = "t1";
        expires_at = some 100;
        revoked = false;
      }
      ∷ [];
  team_memberships = record { principal_id = "ann"; team_id = "ops" } ∷ [];
  deny_assignments =
      record {
        id = "d1";
        principal_id = "bob";
        permission = "*";
        scope_type = "PLATFORM";
        scope_id = "platform";
        reason = none;
        expires_at = none;
      }
      ∷ [];
}

abbrev team_scope : Scope
team_scope = record { scope_type = "TEAM"; scope_id = "x" }

deny_overrides_example :
    ((evaluate memory 50 db none (some "bob") "run:read" none).0.decision ≡ deny)
    × ((evaluate memory 50 db none (some "bob") "run:read" none).0.deny_reason ≡ some explicit_deny)
unfolding scope_contains platform
deny_overrides_example =
    deny_overrides memory 50 db none "bob" "run:read" none
      (record {
        id = "d1";
        principal_id = "bob";
        permission = "*";
        scope_type = "PLATFORM";
        scope_id = "platform";
        reason = none;
        expires_at = none;
      })
      (inl refl) refl refl (inr refl) refl

ann_allowed :
    (evaluate memory 50 db none (some "ann") "run:read" (some team_scope)).0.decision ≡ allow
unfolding evaluate evaluate_grants check_denies resolve_denies resolve_permissions role_grants
    search_grants cache_get cache_set scope_contains
ann_allowed = refl

allow_sound_example :
    (check_denies 50 db "ann" "run:read" team_scope ≡ [])
    × ((a : Assignment) × In a (resolve_assignments memory 50 db none "ann").0
        × (active (grants_of memory 50 db none "ann" "run:read" (some team_scope)) team_scope a
            ≡ true))
allow_sound_example = allow_sound memory 50 db none "ann" "run:read" (some team_scope) ann_allowed

abbrev versioned : CacheStore
versioned = put_version "ops" "1" (record { versions = λ p. none; texts = λ p v. none })

abbrev lapsed : AssignmentRow
lapsed = record {
  assignment_id = "a1";
  role_id = "r2";
  role_name = "operator";
  scope_type = "TENANT";
  scope_id = "t1";
  source = direct;
  expires_at = some 100;
}

abbrev first_cache : Option CacheStore
first_cache = (evaluate memory 200 db (some versioned) (some "ops") "run:stop" none).1

-- The assignment ended at 100; at 200 it does not grant, at 201 it does.
ops_refused :
    (evaluate memory 200 db (some versioned) (some "ops") "run:read" (some team_scope)).0.decision
    ≡ deny
unfolding evaluate evaluate_grants check_denies resolve_denies resolve_permissions role_grants
    search_grants cache_get cache_set scope_contains resolve_assignments
ops_refused = refl

abbrev rank : String → ℕ
rank name = if name == "operator" then 1 else 0

db-IsRanked : IsRanked rank db.roles
db-IsRanked r p (inl e) h = cc (ap (λ (x : Role). x.inherits_from) e)
db-IsRanked r p (inr (inl e)) h =
    let named : ◌≡◌ {A = String} "operator" r.name = ap (λ (x : Role). x.name) e in
    let above : ◌≡◌ {A = String} "viewer" p = cc (ap (λ (x : Role). x.inherits_from) e) in
    rw (← named, ← above) (omega arith)
db-IsRanked r p (inr (inr m)) h = elim m [ ]
