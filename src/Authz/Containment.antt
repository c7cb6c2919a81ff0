-- ===== src/Authz/Containment.antt =====
-- `_scope_contains` as a relation between scopes.
use syndicateclaw.Base.{
  ℕ, zero, suc, String, ◌≡◌, refl, sym, true, some, ◌==◌, string_eq, eq_iff, arith, Option-cases,
  Bool-cases, inl, inr, ◌≤◌, ◌⊎◌, ◌∙◌,
}
use syndicateclaw.Authz.Scope.{Scope, scope_index, scope_contains}

abbrev type_at : ℕ → String
type_at zero = "PLATFORM"
type_at (suc zero) = "TENANT"
type_at (suc (suc zero)) = "TEAM"
type_at _ = "NAMESPACE"

scope_index-type_at : (t : String) {i : ℕ} → scope_index t ≡ some i → t ≡ type_at i
unfolding scope_index
scope_index-type_at t {i} p = elim (Bool-cases (t == "PLATFORM")) [
  | inl e ↦ let z : zero ≡ i = ground arith in rw (← z) ((eq_iff t "PLATFORM").0 e)
  | inr n ↦ elim (Bool-cases (t == "TENANT")) [
    | inl e ↦ let z : 1 ≡ i = ground arith in rw (← z) ((eq_iff t "TENANT").0 e)
    | inr n2 ↦ elim (Bool-cases (t == "TEAM")) [
      | inl e ↦ let z : 2 ≡ i = ground arith in rw (← z) ((eq_iff t "TEAM").0 e)
      | inr n3 ↦ elim (Bool-cases (t == "NAMESPACE")) [
        | inl e ↦ let z : 3 ≡ i = ground arith in rw (← z) ((eq_iff t "NAMESPACE").0 e)
        | inr n4 ↦ ground arith
      ]
    ]
  ]
]

index_injective : (s t : String) {i : ℕ} → scope_index s ≡ some i → scope_index t ≡ some i → s ≡ t
index_injective s t p q = scope_index-type_at s p ∙ sym (scope_index-type_at t q)

-- Both types are known, the outer is no narrower, and of one type there is one scope.
abbrev Within : Scope → Scope → Type 0
Within a b =
    (i : ℕ) × (j : ℕ) × (scope_index a.scope_type ≡ some i)
    × (scope_index b.scope_type ≡ some j)
    × (i ≤ j)
    × (a.scope_type ≡ b.scope_type → a.scope_id ≡ b.scope_id)

contains-Within :
    (a b : Scope) → scope_contains a b ≡ true → (a.scope_type ≡ "PLATFORM") ⊎ Within a b
unfolding scope_contains
contains-Within a b h = elim (Bool-cases (a.scope_type == "PLATFORM")) [
  | inl e ↦ inl ((eq_iff a.scope_type "PLATFORM").0 e)
  | inr n ↦ elim (Option-cases (scope_index a.scope_type)) [
    | inl u ↦ ground arith
    | inr (i, p) ↦ elim (Option-cases (scope_index b.scope_type)) [
      | inl u ↦ ground arith
      | inr (j, q) ↦ inr (
        i,
        j,
        p,
        q,
        ground arith,
        λ same. ground (arith, eq_iff a.scope_type b.scope_type, eq_iff a.scope_id b.scope_id),
      )
    ]
  ]
]

Within-contains : (a b : Scope) → Within a b → scope_contains a b ≡ true
unfolding scope_contains
Within-contains a b (i, j, p, q, le, same) = elim (Bool-cases (a.scope_type == "PLATFORM")) [
  | inl e ↦ rw (e, scope_contains) refl
  | inr n ↦ ground (arith, p, q, eq_iff a.scope_type b.scope_type, eq_iff a.scope_id b.scope_id)
]

platform_contains : (a b : Scope) → a.scope_type ≡ "PLATFORM" → scope_contains a b ≡ true
unfolding scope_contains
platform_contains a b e = rw ((eq_iff a.scope_type "PLATFORM").1 e, scope_contains) refl

platform_index : (t : String) → t ≡ "PLATFORM" → scope_index t ≡ some 0
unfolding scope_index
platform_index t e = rw ((eq_iff t "PLATFORM").1 e, scope_index) refl

Within-platform : (a b : Scope) → b.scope_type ≡ "PLATFORM" → Within a b → a.scope_type ≡ "PLATFORM"
Within-platform a b e (i, j, p, q, le, same) =
    let z : j ≡ 0 = cc (platform_index b.scope_type e) in
    let y : 0 ≡ i = omega arith in
    let top : scope_index a.scope_type ≡ some 0 = rw y p in scope_index-type_at a.scope_type top

Within-trans : (a b c : Scope) → Within a b → Within b c → Within a c
Within-trans a b c (i, j, p, q, le, same) (j', k, p', q', le', same') =
    let z : j ≡ j' = cc in
    (
      i,
      k,
      p,
      q',
      omega arith,
      λ e.
          let i_k : i ≡ k = cc in
          let j_i : j ≡ i = omega arith in
          let a_b : a.scope_type ≡ b.scope_type =
            index_injective a.scope_type b.scope_type p (rw (← j_i) q) in
          same a_b ∙ same' (sym a_b ∙ e),
    )

-- Containment is transitive.
scope_contains_trans :
    (a b c : Scope)
    → scope_contains a b ≡ true
    → scope_contains b c ≡ true
    → scope_contains a c ≡ true
scope_contains_trans a b c p q = elim (contains-Within a b p) [
  | inl e ↦ platform_contains a c e
  | inr w ↦ elim (contains-Within b c q) [
    | inl e ↦ platform_contains a c (Within-platform a b e w)
    | inr v ↦ Within-contains a c (Within-trans a b c w v)
  ]
]

-- Every tenant contains every team and every namespace, also those of other tenants.
tenant_contains_all :
    (tenant other kind : String)
    → (kind ≡ "TEAM") ⊎ (kind ≡ "NAMESPACE")
    → scope_contains
        (record { scope_type = "TENANT"; scope_id = tenant })
        (record { scope_type = kind; scope_id = other })
      ≡ true
unfolding scope_contains
tenant_contains_all tenant other kind (inl e) = rw e refl
tenant_contains_all tenant other kind (inr e) = rw e refl
