-- ===== src/Inference/Guarantee.antt =====
-- The guarantee of a routing decision, from the laws of its parts.
use syndicateclaw.Base.{ap}
use syndicateclaw.Base.{some}
use syndicateclaw.Base.{
  ℕ, suc, String, ◌≡◌, refl, sym, Bool, true, false, Option, List, [], ◌∷◌, ◌+◌, ◌-◌, ◌≤◌, length,
  keep, arith, In, In-keep, inl, inr, Bool-cases, subst, ◌∙◌, length-keep,
}
use syndicateclaw.Order.{sort, sort-In, sort-IsSorted, LeAll, length-sort, IsSorted}
use syndicateclaw.Inference.PolicyCache.{PolicyCache, Answer, allowed, denied}
use syndicateclaw.Inference.CacheLaws.{IsCoherent}
use syndicateclaw.Inference.Router.{
  Floats, Request, Registry, Entry, Routing, Scored, RoutingDecision, decided, serves,
  narrow_explicit, entry_le, pin_satisfied, Provider,
}
use syndicateclaw.Inference.Route.{
  usable, scored_entry, scan, scored_le, choose, candidates, route_candidates, route,
}
use syndicateclaw.Inference.Selection.{Given, SeparatesKeys, Fit, Good, Scan, scan-Good}
use syndicateclaw.Inference.Decision.{
  Named, In-narrow_explicit, length-narrow_explicit, Counted, scan-Counted,
}
use syndicateclaw.Inference.Keys.{scored_le-IsOrder}

module _ (N : Floats) (routing : Routing N) (request : Request) (registry : Registry) (t : ℕ)
    (gate_model : String → String → Answer) (policy_key : String → String → String)
    (catalog : List (Entry N)) (cache : PolicyCache) where
  -- Where a candidate of the decision comes from: a catalog entry that serves the capability, that
  -- the request's names fit, whose provider is usable, and that the policy allows.
  abbrev pub Admitted : Scored N → Type 0
  Admitted x =
      (entry : Entry N) × (prov : Provider) × In entry catalog
      × (serves N request.capability entry ≡ true)
      × Named N request entry
      × (registry.get_provider entry.provider_id ≡ some prov)
      × (usable registry request.sensitivity entry.provider_id prov ≡ true)
      × (gate_model entry.provider_id entry.model_id ≡ allowed)
      × (scored_entry N routing request registry t gate_model policy_key entry prov ≡ x)

  abbrev listed : List (Entry N)
  listed = candidates N routing request registry t gate_model policy_key catalog

  abbrev narrowed : List (Entry N)
  narrowed = narrow_explicit N request listed

  abbrev end : Scan N routing request registry t gate_model policy_key
  end =
      scan N routing request registry t gate_model policy_key narrowed
        (record { scored = []; dropped = 0; cache = cache })

  Fit-Admitted :
      (x : Scored N)
      → Fit N routing request registry t gate_model policy_key narrowed x
      → Admitted x
  unfolding candidates
  Fit-Admitted x (entry, prov, m, e, u, a, q) =
      let (i, named) = In-narrow_explicit N request entry listed m in
      let (j, s) =
        In-keep (serves N request.capability) entry catalog (sort-In (entry_le N) entry _ i) in
      (entry, prov, j, s, named, e, u, a, q)

  -- what a decision promises of its candidates, its choice and its counts
  pub record Promise (d : RoutingDecision N) : Type 0 where
    pub admitted : (x : Scored N) → In x (d.selected ∷ d.fallback_chain) → Admitted x
    pub best :
        LeAll
          (scored_le N routing request registry t gate_model policy_key)
          d.selected
          d.fallback_chain
    pub bounded : suc (length d.fallback_chain) ≤ routing.max_candidates
    pub counted : suc (length d.fallback_chain) + d.candidates_filtered ≤ d.candidates_considered
    pub considered : d.candidates_considered ≤ length catalog

  chosen :
      (considered filtered : ℕ) (xs : List (Scored N)) (d : RoutingDecision N)
      → choose N routing request registry t gate_model policy_key considered filtered xs ≡ decided d
      → (xs ≡ d.selected ∷ d.fallback_chain)
        × (considered ≡ d.candidates_considered)
        × (filtered ≡ d.candidates_filtered)
  chosen considered filtered [] d h = ground arith
  chosen considered filtered (x ∷ xs) d h = ground arith

  abbrev ranked : List (Scored N)
  ranked = sort (scored_le N routing request registry t gate_model policy_key) end.scored

  length-listed : length listed ≤ length catalog
  unfolding candidates
  length-listed = omega (
    arith,
    length-sort (entry_le N) (keep (serves N request.capability) catalog),
    length-keep (serves N request.capability) catalog,
  )

  module _ (separates : SeparatesKeys N routing request registry t gate_model policy_key)
      (coherent : IsCoherent (Given N routing request registry t gate_model policy_key) cache) where
    end-Good : Good N routing request registry t gate_model policy_key narrowed end
    end-Good =
        scan-Good N routing request registry t gate_model policy_key separates narrowed narrowed _
          (λ e m. m) (record { fits = λ x m. absurd m; coherent = coherent })

    end-Counted :
        Counted N routing request registry t gate_model policy_key
          (record { scored = []; dropped = 0; cache = cache })
          end
          (length narrowed)
    end-Counted =
        scan-Counted N routing request registry t gate_model policy_key narrowed _ (omega arith)

    promised :
        (d : RoutingDecision N)
        → ranked ≡ d.selected ∷ d.fallback_chain
        → length listed ≡ d.candidates_considered
        → length listed - length narrowed + end.dropped ≡ d.candidates_filtered
        → Promise d
    promised d r c f =
        let size : length end.scored ≡ suc (length d.fallback_chain) =
          sym
            (length-sort (scored_le N routing request registry t gate_model policy_key) end.scored)
          ∙ ap length r in
        let ordered : IsSorted (scored_le N routing request registry t gate_model policy_key)
            (d.selected ∷ d.fallback_chain) =
          subst (IsSorted (scored_le N routing request registry t gate_model policy_key)) r (
            sort-IsSorted (scored_le N routing request registry t gate_model policy_key)
              (scored_le-IsOrder N routing request registry t gate_model policy_key) end.scored) in
        record {
          admitted = λ x m. Fit-Admitted x (
              end-Good.fits x (
                sort-In (scored_le N routing request registry t gate_model policy_key) x end.scored
                  (subst (In x) (sym r) m)));
          best = ordered.0;
          bounded = omega (arith, end-Counted.within, size);
          counted =
              omega
                (arith, end-Counted.accounted, size, c, f, length-narrow_explicit N request listed);
          considered = omega (arith, c, length-listed);
        }

    -- A decision names only admitted candidates, the best of them first, within the bound, and its
    -- counts fit: it is reached only if inference is enabled, the policy allows the capability and
    -- the pin is satisfied. The cache's answers are the policy's, and models with one cache key get
    -- one answer.
    pub route-Promise :
        (inference_enabled : Bool) (gate_capability : Answer) (pin : Option (String × String))
        (d : RoutingDecision N)
        → (route N routing request registry t gate_model policy_key inference_enabled
            gate_capability pin catalog cache).0
          ≡ decided d
        → (inference_enabled ≡ true)
          × (gate_capability ≡ allowed)
          × (pin_satisfied request pin ≡ true)
          × Promise d
    unfolding route route_candidates
    route-Promise false gate pin d h = ground arith
    route-Promise true denied pin d h = ground arith
    route-Promise true allowed pin d h = elim (Bool-cases (pin_satisfied request pin)) [
      | inl p ↦
          let (r, c, f) = chosen _ _ ranked d (rw (p, route) at h) in
          (refl, refl, p, promised d r c f)
      | inr p ↦ ground arith
    ]
