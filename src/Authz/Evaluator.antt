-- ===== src/Authz/Evaluator.antt =====
-- `RBACEvaluator` and `TeamContextValidator` of src/syndicateclaw/authz/evaluator.py.
-- An evaluation reads the clock once; its latency is not modelled.
use syndicateclaw.Base.{
  ℕ, String, Bool, true, false, not, ◌&&◌, ◌||◌, Option, none, some, List, [], ◌∷◌, ◌++◌, ◌==◌,
  string_eq, keep, map, contains, ltb, if◌then◌else◌, length,
}
use syndicateclaw.Authz.Scope.{Scope, platform, scope_contains}
use syndicateclaw.Authz.Tables.{
  Tables, AssignmentRow, DenyAssignment, Source, resolve_permissions, resolve_denies, role_grants,
}
use syndicateclaw.Authz.Cache.{Assignment, Redis, cache_get, cache_set}

pub data Decision : Type 0 where
  allow deny : Decision

pub data DenyReason : Type 0 where
  no_principal no_matching_grant explicit_deny scope_not_contained expired_assignments_only :
      DenyReason

pub record MatchedAssignment : Type 0 where
  pub role_id : String
  pub role_name : String
  pub scope_type : String
  pub scope_id : String
  pub source : Source

pub record MatchedDeny : Type 0 where
  pub deny_id : String
  pub permission : String
  pub scope_type : String
  pub scope_id : String
  pub reason : String

-- `permission_source` names the first match.
pub record AuthzResult : Type 0 where
  pub decision : Decision
  pub deny_reason : Option DenyReason
  pub permission_source : Option MatchedAssignment
  pub matched_assignments : List MatchedAssignment
  pub matched_denies : List MatchedDeny
  pub cache_hit : Bool

-- `expires_at is not None and expires_at.timestamp() < now`
abbrev pub has_expired : Option ℕ → ℕ → Bool
has_expired none now = false
has_expired (some t) now = ltb t now

abbrev pub deny_scope : DenyAssignment → Scope
deny_scope d = record { scope_type = d.scope_type; scope_id = d.scope_id }

-- the tests of the loop in `_check_denies`
unfoldable pub deny_matches : ℕ → String → Scope → DenyAssignment → Bool
deny_matches now permission scope d =
    not (has_expired d.expires_at now)
    && (d.permission == permission || d.permission == "*")
    && scope_contains (deny_scope d) scope

abbrev text_or_empty : Option String → String
text_or_empty (some t) = t
text_or_empty none = ""

abbrev matched_deny : DenyAssignment → MatchedDeny
matched_deny d = record {
  deny_id = d.id;
  permission = d.permission;
  scope_type = d.scope_type;
  scope_id = d.scope_id;
  reason = text_or_empty d.reason;
}

unfoldable pub check_denies : ℕ → Tables → String → String → Scope → List MatchedDeny
unfolding deny_matches
check_denies now db principal permission scope =
    map matched_deny (keep (deny_matches now permission scope) (resolve_denies db principal))

abbrev pub to_assignment : ℕ → AssignmentRow → Assignment
to_assignment now r = record {
  assignment_id = r.assignment_id;
  role_id = r.role_id;
  role_name = r.role_name;
  scope_type = r.scope_type;
  scope_id = r.scope_id;
  source = r.source;
  expired = some (has_expired r.expires_at now);
}

abbrev pub assignment_scope : Assignment → Scope
assignment_scope a = record { scope_type = a.scope_type; scope_id = a.scope_id }

-- `asgn.get("expired")` as a test
abbrev pub flagged : Option Bool → Bool
flagged (some b) = b
flagged none = false

-- the variables of the loop over the assignments
pub record Search : Type 0 where
  pub matched : List MatchedAssignment
  pub permission_source : Option MatchedAssignment
  pub has_expired_match : Bool

abbrev pub matched_assignment : Assignment → MatchedAssignment
matched_assignment a = record {
  role_id = a.role_id;
  role_name = a.role_name;
  scope_type = a.scope_type;
  scope_id = a.scope_id;
  source = a.source;
}

abbrev pub or_first : Option MatchedAssignment → MatchedAssignment → Option MatchedAssignment
or_first (some m) n = some m
or_first none n = some n

abbrev pub add_match : MatchedAssignment → Search → Search
add_match m s = record s {
  matched = s.matched ++ m ∷ [];
  permission_source = or_first s.permission_source m;
}

-- one round, where `grants` tells whether the assignment's role has the permission
unfoldable pub consider : (String → Bool) → Scope → Assignment → Search → Search
consider grants scope a s =
    if not (scope_contains (assignment_scope a) scope)
    then s
    else if flagged a.expired
    then record s { has_expired_match = true }
    else if grants a.role_name
    then add_match (matched_assignment a) s
    else s

unfoldable pub search_grants : (String → Bool) → Scope → List Assignment → Search → Search
unfolding consider
search_grants grants scope [] s = s
search_grants grants scope (a ∷ rest) s =
    search_grants grants scope rest (consider grants scope a s)

abbrev pub start : Search
start = record { matched = []; permission_source = none; has_expired_match = false }

abbrev pub denied : DenyReason → AuthzResult
denied reason = record {
  decision = deny;
  deny_reason = some reason;
  permission_source = none;
  matched_assignments = [];
  matched_denies = [];
  cache_hit = false;
}

-- the end of `evaluate`, on the variables of the loop
abbrev pub conclude : Bool → Search → AuthzResult
conclude hit s = elim s.matched [
  | m ∷ ms ↦ record {
    decision = allow;
    deny_reason = none;
    permission_source = s.permission_source;
    matched_assignments = m ∷ ms;
    matched_denies = [];
    cache_hit = hit;
  }
  | [] ↦
      record (denied
        (if s.has_expired_match then expired_assignments_only else no_matching_grant)) {
          cache_hit = hit;
        }
]

module _ (R : Redis) (now : ℕ) (db : Tables) where
  -- `_resolve_assignments`
  unfoldable pub resolve_assignments :
      Option R.Store → String → List Assignment × Bool × Option R.Store
  resolve_assignments cache principal = elim (cache_get R cache principal) [
    | some cached ↦ (cached, true, cache)
    | none ↦
        let fresh = map (to_assignment now) (resolve_permissions db principal) in
        (fresh, false, cache_set R principal fresh cache)
  ]

  -- from the assignments on
  unfoldable pub evaluate_grants :
      Option R.Store → String → String → Scope → AuthzResult × Option R.Store
  unfolding resolve_assignments
  evaluate_grants cache principal permission scope =
      let (assignments, hit, cache') = resolve_assignments cache principal in
      (
        conclude hit (
            search_grants (λ name. role_grants (length db.roles) db.roles name permission) scope
              assignments start),
        cache',
      )

  abbrev pub scope_or_platform : Option Scope → Scope
  scope_or_platform none = platform
  scope_or_platform (some s) = s

  unfoldable pub evaluate :
      Option R.Store → Option String → String → Option Scope → AuthzResult × Option R.Store
  evaluate cache none permission resource_scope = (denied no_principal, cache)
  evaluate cache (some principal) permission resource_scope =
      let scope = scope_or_platform resource_scope in
      elim (check_denies now db principal permission scope) [
        | d ∷ ds ↦ (record (denied explicit_deny) { matched_denies = d ∷ ds }, cache)
        | [] ↦ evaluate_grants cache principal permission scope
      ]

-- `TeamContextValidator.validate`, whose error is the second part
pub data TeamError : Type 0 where
  principal_has_multiple_teams team_not_in_memberships : TeamError

unfoldable pub team_memberships_of : Tables → String → List String
team_memberships_of db principal =
    map (λ tm. tm.team_id) (keep (λ tm. tm.principal_id == principal) db.team_memberships)

unfoldable pub validate_team : Tables → String → Option String → Bool × Option TeamError
unfolding team_memberships_of
validate_team db principal none =
    if ltb 1 (length (team_memberships_of db principal))
    then (false, some principal_has_multiple_teams)
    else (true, none)
validate_team db principal (some t) =
    if not (contains (team_memberships_of db principal) t)
    then (false, some team_not_in_memberships)
    else (true, none)
