-- ===== src/Approval/Assignment.antt =====
-- Who a new request is assigned to.
use syndicateclaw.Base.{
  ℕ, String, ◌≡◌, ◌≢◌, refl, true, false, not, some, List, [], ◌∷◌, ◌==◌, string_eq, eq_iff, keep,
  arith, inl, inr, In, In-keep, sym, keep_empty, keep_none,
}
use syndicateclaw.Storage.{Sessions}
use syndicateclaw.Approval.Authority.{Authorities, RiskLevel, candidates, resolve, or_else}
use syndicateclaw.Approval.Row.{ApprovalRow}
use syndicateclaw.Approval.Service.{
  World, Request, Resolver, resolve_approvers, approvers, request_approval,
}

or_else_nonempty : (xs ys : List String) → ys ≢ [] → or_else xs ys ≢ []
or_else_nonempty [] ys h = h
or_else_nonempty (x ∷ xs) ys h = ground arith

or_else_self :
    (x : String) (os : List String)
    → ¬ In x os
    → In x (or_else os ("admin:security" ∷ []))
    → (os ≡ []) × (x ≡ "admin:security")
or_else_self x [] n (inl e) = (refl, sym e)
or_else_self x [] n (inr m) = absurd m
or_else_self x (o ∷ os) n m = absurd (n m)

not_other : (a b : String) → not (a == b) ≡ false → a ≡ b
not_other a b h = (eq_iff a b).0 (ground arith)

module _ (authorities : Authorities) (risk : RiskLevel) (requester : String)
    (found : List String) where
  abbrev others : List String
  others = keep (λ a. not (a == requester)) (candidates authorities risk found)

  -- There is always someone to ask.
  pub resolve_nonempty : resolve authorities risk requester found ≢ []
  unfolding resolve
  resolve_nonempty = or_else_nonempty others ("admin:security" ∷ []) (ground arith)

  others_exclude : ¬ In requester others
  others_exclude m = ground (
    arith,
    eq_iff requester requester,
    (In-keep (λ a. not (a == requester)) requester (candidates authorities risk found) m).1,
  )

  -- The requester is among the approvers in one case only: the requester is admin:security, and no
  -- candidate is anyone else.
  pub resolve_self :
      In requester (resolve authorities risk requester found)
      → (requester ≡ "admin:security")
        × ((a : String) → In a (candidates authorities risk found) → a ≡ requester)
  unfolding resolve
  resolve_self m =
      let (empty, own) = or_else_self requester others others_exclude m in
      (
        own,
        λ a i.
            not_other a requester (
              keep_empty (λ x. not (x == requester)) a (candidates authorities risk found) empty i),
      )

  -- In that case the requester is the one approver.
  pub resolve_fallback :
      ((a : String) → In a (candidates authorities risk found) → a ≡ requester)
      → resolve authorities risk requester found ≡ "admin:security" ∷ []
  unfolding resolve
  resolve_fallback all_own = rw (
      keep_none (λ x. not (x == requester)) (candidates authorities risk found)
        (λ a i. ground (arith, eq_iff a requester, all_own a i)))

module _ (S : Sessions ApprovalRow (λ r. r.id)) (now : ℕ) (v : Resolver) (actor : String) where
  -- With a resolver the stored list of approvers is the resolver's, whatever list the client sent.
  client_list_ignored :
      (q q' : Request) (mine : List String) (w : World S)
      → q' ≡ record q { assigned_to = mine }
      → request_approval S now (some v) true q' actor w
        ≡ request_approval S now (some v) true q actor w
  unfolding request_approval approvers resolve_approvers
  client_list_ignored q q' mine w e = rw e refl
