-- ===== src/Authz/RoleChain.antt =====
-- The recursive query over the roles: on a hierarchy without cycles it is finished after as many
-- rounds as there are ranks.
use syndicateclaw.Base.{
  ℕ, zero, suc, String, ◌≡◌, refl, Option, none, some, List, [], ◌∷◌, ◌==◌, string_eq, keep, ◌<◌,
  arith, ap, In, In-keep, inl, inr, eq_iff,
}
use syndicateclaw.Authz.Tables.{Role, role_chain, parent_chain, flat_map}

-- Every role stands above the role that it inherits from.
abbrev pub IsRanked : (String → ℕ) → List Role → Type 0
IsRanked rank roles =
    (r : Role) (p : String) → In r roles → r.inherits_from ≡ some p → rank p < rank r.name

flat_map_same :
    {A B : Type 0} (f g : A → List B) (xs : List A)
    → ((x : A) → In x xs → f x ≡ g x)
    → flat_map f xs ≡ flat_map g xs
flat_map_same f g [] h = refl
flat_map_same f g (x ∷ xs) h = rw (h x (inl refl)) (rw (flat_map_same f g xs (λ y m. h y (inr m))))

parent_chain_same :
    (f g : String → List Role) (o : Option String)
    → ((p : String) → o ≡ some p → f p ≡ g p)
    → parent_chain f o ≡ parent_chain g o
parent_chain_same f g none h = refl
parent_chain_same f g (some p) h = h p refl

module _ (rank : String → ℕ) (roles : List Role) (ranked : IsRanked rank roles) where
  -- More rounds than the rank of the name add nothing.
  role_chain_stable :
      (m n : ℕ) (name : String)
      → rank name < m
      → rank name < n
      → role_chain m roles name ≡ role_chain n roles name
  unfolding role_chain
  role_chain_stable zero n name h k = absurd (omega arith)
  role_chain_stable (suc m) zero name h k = absurd (omega arith)
  role_chain_stable (suc m) (suc n) name h k =
      flat_map_same _ _ (keep (λ r. r.name == name) roles) λ r i. ap (◌∷◌ r) (
        parent_chain_same _ _ r.inherits_from λ p e.
          let (j, t) = In-keep (λ x. x.name == name) r roles i in
          let named : r.name ≡ name = (eq_iff r.name name).0 t in
          let above : rank p < rank r.name = ranked r p j e in
          let below : rank p < rank name = rw (← named) above in
          role_chain_stable m n p (omega arith) (omega arith))
