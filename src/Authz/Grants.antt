-- ===== src/Authz/Grants.antt =====
-- When an evaluation allows: the loop over the assignments, and the whole of `evaluate`.
use syndicateclaw.Authz.Scope.{scope_contains}
use syndicateclaw.Authz.Evaluator.{has_expired, deny_scope}
use syndicateclaw.Base.{eq_refl, ◌⊎◌, false}
use syndicateclaw.Base.{
  ℕ, String, ◌≡◌, refl, sym, ap, subst, Bool, true, not, ◌&&◌, Option, some, List, [], ◌∷◌, ◌++◌,
  ◌==◌, string_eq, eq_iff, keep, map, if◌then◌else◌, arith, inl, inr, In, In-keep, In-keep_of,
  Bool-cases, List-cases, In-map, In-map_of, ◌∙◌, length,
}
use mathlib.Core.List.{append-nil, append_assoc}
use syndicateclaw.Authz.Scope.{Scope, scope_contains}
use syndicateclaw.Authz.Tables.{Tables, DenyAssignment, resolve_denies, role_grants}
use syndicateclaw.Authz.Cache.{Assignment, Redis}
use syndicateclaw.Authz.Evaluator.{
  allow, deny, explicit_deny, deny_matches, check_denies, assignment_scope, flagged, Search,
  matched_assignment, consider, search_grants, start, conclude, resolve_assignments,
  evaluate_grants, evaluate, scope_or_platform,
}

-- The assignment grants in the scope.
abbrev pub active : (String → Bool) → Scope → Assignment → Bool
active grants scope a =
    scope_contains (assignment_scope a) scope && not (flagged a.expired) && grants a.role_name

module _ (grants : String → Bool) (scope : Scope) where
  consider-matched :
      (a : Assignment) (s : Search)
      → (consider grants scope a s).matched
        ≡ s.matched ++ (if active grants scope a then matched_assignment a ∷ [] else [])
  unfolding consider
  consider-matched a s = ground (arith, append-nil s.matched)

  search_grants-matched :
      (as' : List Assignment) (s : Search)
      → (search_grants grants scope as' s).matched
        ≡ s.matched ++ map matched_assignment (keep (active grants scope) as')
  unfolding search_grants
  search_grants-matched [] s = rw append-nil
  search_grants-matched (a ∷ rest) s =
      search_grants-matched rest (consider grants scope a s)
      ∙ rw (consider-matched a s) (elim (Bool-cases (active grants scope a)) [
        | inl t ↦ rw t (
            append_assoc s.matched (matched_assignment a ∷ [])
              (map matched_assignment (keep (active grants scope) rest)))
        | inr f ↦ rw f (
            ap (λ l. l ++ map matched_assignment (keep (active grants scope) rest))
              (append-nil s.matched))
      ])

  -- The loop ends in ALLOW exactly when some assignment is active.
  conclude_allows :
      (hit : Bool) (as' : List Assignment) (a : Assignment)
      → In a as'
      → active grants scope a ≡ true
      → (conclude hit (search_grants grants scope as' start)).decision ≡ allow
  conclude_allows hit as' a m t = elim (List-cases (search_grants grants scope as' start).matched) [
    | inl e ↦
        let i = In-map_of matched_assignment a _ (In-keep_of (active grants scope) a as' m t) in
        let none_left : In (matched_assignment a) [] =
          subst (In (matched_assignment a)) (sym (search_grants-matched as' start) ∙ e) i in
        absurd none_left
    | inr (x, xs, e) ↦ rw (e, conclude) refl
  ]

  allowed_active :
      (hit : Bool) (as' : List Assignment)
      → (conclude hit (search_grants grants scope as' start)).decision ≡ allow
      → (a : Assignment) × In a as' × (active grants scope a ≡ true)
  allowed_active hit as' h = elim (List-cases (search_grants grants scope as' start).matched) [
    | inl e ↦ ground arith
    | inr (x, xs, e) ↦
        let i : In x (map matched_assignment (keep (active grants scope) as')) =
          subst (In x) (sym e ∙ search_grants-matched as' start) (inl refl) in
        let (a, j, q) = In-map matched_assignment x _ i in
        let (k, t) = In-keep (active grants scope) a as' j in (a, k, t)
  ]

module _ (R : Redis) (now : ℕ) (db : Tables) (cache : Option R.Store)
    (principal permission : String) (resource_scope : Option Scope) where
  abbrev scope_of : Scope
  scope_of = scope_or_platform R now db resource_scope

  abbrev pub grants_of : String → Bool
  grants_of name = role_grants (length db.roles) db.roles name permission

  -- the tests of a deny assignment, one by one
  matching_deny :
      (d : DenyAssignment)
      → has_expired d.expires_at now ≡ false
      → (d.permission ≡ permission) ⊎ (d.permission ≡ "*")
      → scope_contains (deny_scope d) scope_of ≡ true
      → deny_matches now permission scope_of d ≡ true
  unfolding deny_matches
  matching_deny d e (inl same) c = rw (e, c, same) (ground (arith, eq_refl permission))
  matching_deny d e (inr star) c = rw (e, c, star) (ground (arith, eq_refl "*"))

  -- A deny assignment of the principal that has not expired, names the permission or `*`, and whose
  -- scope contains the resource's, decides, whatever the roles and the cache say.
  pub deny_overrides :
      (d : DenyAssignment)
      → In d db.deny_assignments
      → d.principal_id ≡ principal
      → has_expired d.expires_at now ≡ false
      → (d.permission ≡ permission) ⊎ (d.permission ≡ "*")
      → scope_contains (deny_scope d) scope_of ≡ true
      → ((evaluate R now db cache (some principal) permission resource_scope).0.decision ≡ deny)
        × ((evaluate R now db cache (some principal) permission resource_scope).0.deny_reason
            ≡ some explicit_deny)
  unfolding evaluate check_denies resolve_denies
  deny_overrides d m own fresh names within =
      let i =
        In-keep_of (deny_matches now permission scope_of) d (resolve_denies db principal)
          (In-keep_of (λ x. x.principal_id == principal) d db.deny_assignments m
            ((eq_iff d.principal_id principal).1 own))
          (matching_deny d fresh names within) in
      elim (List-cases
        (keep (deny_matches now permission scope_of) (resolve_denies db principal))) [
          | inl e ↦ let none_left : In d [] = subst (In d) e i in absurd none_left
          | inr (x, xs, e) ↦ rw (e, evaluate) (refl, refl)
        ]

  -- An evaluation that allows found no matching deny, and an active assignment among those that it
  -- resolved.
  pub allow_sound :
      (evaluate R now db cache (some principal) permission resource_scope).0.decision ≡ allow
      → (check_denies now db principal permission scope_of ≡ [])
        × ((a : Assignment) × In a (resolve_assignments R now db cache principal).0
            × (active grants_of scope_of a ≡ true))
  unfolding evaluate evaluate_grants
  allow_sound h = elim (List-cases (check_denies now db principal permission scope_of)) [
    | inl e ↦ (
      e,
      allowed_active grants_of scope_of (resolve_assignments R now db cache principal).1
          (resolve_assignments R now db cache principal).0 (rw (e, evaluate) at h),
    )
    | inr (x, xs, e) ↦ ground arith
  ]

  pub allow_complete :
      (a : Assignment)
      → check_denies now db principal permission scope_of ≡ []
      → In a (resolve_assignments R now db cache principal).0
      → active grants_of scope_of a ≡ true
      → (evaluate R now db cache (some principal) permission resource_scope).0.decision ≡ allow
  unfolding evaluate evaluate_grants
  allow_complete a e m t =
      rw (e, evaluate)
        (conclude_allows grants_of scope_of (resolve_assignments R now db cache principal).1
          (resolve_assignments R now db cache principal).0 a m t)
