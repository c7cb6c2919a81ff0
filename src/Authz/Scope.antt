-- ===== src/Authz/Scope.antt =====
-- `Scope` of src/syndicateclaw/authz/route_registry.py, and `_scope_contains`.
use syndicateclaw.Base.{
  ℕ, String, Bool, true, false, Option, none, some, ◌==◌, string_eq, ltb, if◌then◌else◌,
}

pub record Scope : Type 0 where
  pub scope_type : String
  pub scope_id : String

unfoldable pub platform : Scope
platform = record { scope_type = "PLATFORM"; scope_id = "platform" }

-- SCOPE_CONTAINMENT_ORDER.index(t), or `none` for the -1 of a type that is not in the list
unfoldable pub scope_index : String → Option ℕ
scope_index t =
    if t == "PLATFORM"
    then some 0
    else if t == "TENANT"
    then some 1
    else if t == "TEAM"
    then some 2
    else if t == "NAMESPACE"
    then some 3
    else none

-- the tests of `_scope_contains` behind the one for PLATFORM, on the two indices
abbrev pub contains_at : Option ℕ → Option ℕ → Scope → Scope → Bool
contains_at (some i) (some j) outer inner =
    if ltb j i
    then false
    else if outer.scope_type == inner.scope_type
    then outer.scope_id == inner.scope_id
    else true
contains_at _ _ outer inner = false

unfoldable pub scope_contains : Scope → Scope → Bool
unfolding scope_index
scope_contains outer inner =
    if outer.scope_type == "PLATFORM"
    then true
    else contains_at (scope_index outer.scope_type) (scope_index inner.scope_type) outer inner
