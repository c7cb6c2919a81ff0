-- ===== src/Approval/Authority.antt =====
-- Who may decide on a request: src/syndicateclaw/approval/authority.py.
-- `fnmatch` is Python's glob match; the rules are the enabled rules for tools, in the order in
-- which the query returns them, or a failure of the lookup.
use syndicateclaw.Base.{
  String, Bool, false, not, Option, none, some, List, [], ◌∷◌, ◌==◌, string_eq, keep, if◌then◌else◌,
}

pub data RiskLevel : Type 0 where
  low medium high critical : RiskLevel

-- A condition of a rule, as far as the lookup reads it: an entry that is no dictionary, or one
-- with its `field` and its `value`, a list of names or something else.
pub data CondValue : Type 0 where
  names : List String → CondValue
  other_value : CondValue

pub data Cond : Type 0 where
  not_dict : Cond
  cond : Option String → CondValue → Cond

-- `rule.conditions`: a list, one dictionary, or something else.
pub data RawConditions : Type 0 where
  listed : List Cond → RawConditions
  single : Cond → RawConditions
  other : RawConditions

pub record ToolRule : Type 0 where
  pub resource_pattern : String
  pub conditions : RawConditions

abbrev pub Authorities : Type 0
Authorities = RiskLevel → Option (List String)

-- DEFAULT_APPROVAL_AUTHORITIES
unfoldable pub default_authorities : Authorities
default_authorities low = some ("admin:ops" ∷ [])
default_authorities medium = some ("admin:ops" ∷ "admin:security" ∷ [])
default_authorities high = some ("admin:security" ∷ "admin:lead" ∷ [])
default_authorities critical = some ("admin:security" ∷ "admin:ciso" ∷ [])

abbrev condition_list : RawConditions → List Cond
condition_list (listed cs) = cs
condition_list (single c) = c ∷ []
condition_list other = []

abbrev is_authorities : Option String → Bool
is_authorities (some f) = f == "approval_authorities"
is_authorities none = false

-- the inner loop: the first condition that names a non-empty list of authorities
unfoldable pub authorities_of : List Cond → Option (List String)
authorities_of [] = none
authorities_of (cond f (names (a ∷ as')) ∷ cs) =
    if is_authorities f then some (a ∷ as') else authorities_of cs
authorities_of (_ ∷ cs) = authorities_of cs

module _ (fnmatch : String → String → Bool) where
  unfoldable pub first_authorities : String → List ToolRule → List String
  unfolding authorities_of
  first_authorities tool_name [] = []
  first_authorities tool_name (r ∷ rs) =
      let rest = first_authorities tool_name rs in
      if not (fnmatch tool_name r.resource_pattern)
      then rest
      else elim (authorities_of (condition_list r.conditions)) [ some found ↦ found | none ↦ rest ]

  -- `_resolve_from_policy`: no session factory and a failing lookup both give no names.
  unfoldable pub resolve_from_policy : Option (Option (List ToolRule)) → String → List String
  unfolding first_authorities
  resolve_from_policy none tool_name = []
  resolve_from_policy (some none) tool_name = []
  resolve_from_policy (some (some rules)) tool_name = first_authorities tool_name rules

-- `x or y` on a list
abbrev pub or_else : List String → List String → List String
or_else [] d = d
or_else (x ∷ xs) d = x ∷ xs

abbrev or_empty : Option (List String) → List String
or_empty none = []
or_empty (some as') = as'

-- the candidates before the requester is taken out
unfoldable pub candidates : Authorities → RiskLevel → List String → List String
candidates authorities risk from_policy =
    or_else (or_else from_policy (or_empty (authorities risk)))
      ("admin:ops" ∷ "admin:security" ∷ [])

-- `resolve`, from what the policy lookup found
unfoldable pub resolve : Authorities → RiskLevel → String → List String → List String
unfolding candidates
resolve authorities risk requester from_policy =
    or_else (keep (λ a. not (a == requester)) (candidates authorities risk from_policy))
      ("admin:security" ∷ [])
