-- ===== src/Authz/Tables.antt =====
-- The tables that the evaluator reads, and its three queries.
use syndicateclaw.Base.{
  ℕ, zero, suc, String, Bool, not, ◌&&◌, Option, none, some, List, [], ◌∷◌, ◌++◌, ◌==◌, string_eq,
  keep, map, contains, any,
}

pub record Role : Type 0 where
  pub id : String
  pub name : String
  pub permissions : List String
  pub inherits_from : Option String

-- Times are microseconds.
pub record RoleAssignment : Type 0 where
  pub id : String
  pub principal_id : String
  pub role_id : String
  pub scope_type : String
  pub scope_id : String
  pub expires_at : Option ℕ
  pub revoked : Bool

pub record TeamMembership : Type 0 where
  pub principal_id : String
  pub team_id : String

pub record DenyAssignment : Type 0 where
  pub id : String
  pub principal_id : String
  pub permission : String
  pub scope_type : String
  pub scope_id : String
  pub reason : Option String
  pub expires_at : Option ℕ

pub record Tables : Type 0 where
  pub roles : List Role
  pub role_assignments : List RoleAssignment
  pub team_memberships : List TeamMembership
  pub deny_assignments : List DenyAssignment

-- 'direct' or 'team:' followed by the team
pub data Source : Type 0 where
  direct : Source
  team : String → Source

pub record AssignmentRow : Type 0 where
  pub assignment_id : String
  pub role_id : String
  pub role_name : String
  pub scope_type : String
  pub scope_id : String
  pub source : Source
  pub expires_at : Option ℕ

module _ {A B : Type 0} where
  abbrev pub flat_map : (A → List B) → List A → List B
  flat_map f [] = []
  flat_map f (x ∷ xs) = f x ++ flat_map f xs

abbrev pub assignment_row : Source → RoleAssignment → Role → AssignmentRow
assignment_row source ra r = record {
  assignment_id = ra.id;
  role_id = ra.role_id;
  role_name = r.name;
  scope_type = ra.scope_type;
  scope_id = ra.scope_id;
  source = source;
  expires_at = ra.expires_at;
}

-- The rows of an assignee, joined with their roles: revoked assignments are left out, expired ones
-- are not.
unfoldable pub assigned_to : Tables → Source → String → List AssignmentRow
assigned_to db source assignee =
    flat_map (λ ra. map (assignment_row source ra) (keep (λ r. r.id == ra.role_id) db.roles))
      (keep (λ ra. ra.principal_id == assignee && not ra.revoked) db.role_assignments)

-- _RESOLVE_PERMISSIONS_SQL: direct assignments, then those of the principal's teams
unfoldable pub resolve_permissions : Tables → String → List AssignmentRow
unfolding assigned_to
resolve_permissions db principal =
    assigned_to db direct principal
    ++ flat_map (λ tm. assigned_to db (team tm.team_id) tm.team_id)
        (keep (λ tm. tm.principal_id == principal) db.team_memberships)

-- _RESOLVE_DENIES_SQL
unfoldable pub resolve_denies : Tables → String → List DenyAssignment
resolve_denies db principal = keep (λ d. d.principal_id == principal) db.deny_assignments

abbrev pub parent_chain : (String → List Role) → Option String → List Role
parent_chain up none = []
parent_chain up (some p) = up p

-- The rounds of the recursive query _RESOLVE_ROLE_PERMISSIONS_SQL, at most as many as the fuel. Where
-- roles inherit from each other in a cycle, the fuel ends what the query, a UNION ALL, does not end.
unfoldable pub role_chain : ℕ → List Role → String → List Role
role_chain zero roles name = []
role_chain (suc n) roles name =
    flat_map (λ r. r ∷ parent_chain (role_chain n roles) r.inherits_from)
      (keep (λ r. r.name == name) roles)

-- `permission in role_perms`, on what `_expand_role_permissions` returns
unfoldable pub role_grants : ℕ → List Role → String → String → Bool
unfolding role_chain
role_grants fuel roles name permission =
    any (λ r. contains r.permissions permission) (role_chain fuel roles name)
