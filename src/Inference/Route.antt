-- ===== src/Inference/Route.antt =====
-- The loop and the result of `InferenceRouter.route`. The policy port's answers and the hash that
-- keys its cache are parameters: functions of the provider and the model, for one request.
use syndicateclaw.Base.{
  ℕ, String, Bool, true, false, not, ◌&&◌, Option, none, some, List, [], ◌∷◌, ◌++◌, ◌+◌, ◌-◌, ◌==◌,
  string_eq, keep, leb, length, if◌then◌else◌,
}
use syndicateclaw.Order.{sort}
use syndicateclaw.Text.{str_leb}
use syndicateclaw.Inference.PolicyCache
use syndicateclaw.Inference.PolicyCache.{PolicyCache, Answer, allowed, denied}
use syndicateclaw.Inference.Circuit.{is_open}
use syndicateclaw.Inference.Router.{
  Floats, Sensitivity, ProviderStatus, unavailable, degraded, Request, Provider, Registry,
  inference_disabled, inference_capability_denied, model_pin_required, no_routable_candidates,
  sensitivity_allowed, pin_satisfied, Entry, Routing, Scored, Outcome, decided, failed, serves,
  entry_le, narrow_explicit, score,
}

abbrev pub is_unavailable : ProviderStatus → Bool
is_unavailable unavailable = true
is_unavailable _ = false

abbrev pub is_degraded : ProviderStatus → Bool
is_degraded degraded = true
is_degraded _ = false

-- The tests of the loop before the policy is asked, on a provider that is there.
unfoldable pub usable : Registry → Sensitivity → String → Provider → Bool
usable registry level pid prov =
    prov.enabled
    && not (registry.runtime_disabled pid)
    && not (is_open (registry.circuit_state pid))
    && not (registry.cooldown pid)
    && not (is_unavailable (registry.health_status pid))
    && sensitivity_allowed level prov.max_allowed_sensitivity

-- the answer from the cache, or from the policy, which is then stored
unfoldable pub ask : ℕ → String → Answer → PolicyCache → Answer × PolicyCache
ask t key fresh cache =
    let (cached, cache') = PolicyCache.get key t cache in
    elim cached [
      | some answer ↦ (answer, cache')
      | none ↦ (fresh, PolicyCache.set key fresh t cache')
    ]

module _ (N : Floats) (routing : Routing N) (request : Request) (registry : Registry) (t : ℕ)
    (gate_model : String → String → Answer) (policy_key : String → String → String) where
  pub record Loop : Type 0 where
    pub scored : List (Scored N)
    pub dropped : ℕ
    pub cache : PolicyCache

  abbrev pub drop : Loop → Loop
  drop s = record s { dropped = s.dropped + 1 }

  abbrev pub scored_entry : Entry N → Provider → Scored N
  scored_entry entry prov = record {
    provider_id = entry.provider_id;
    model_id = entry.model_id;
    score =
        score N entry prov request.sensitivity routing.weights routing.cost_weight_cap
          (is_degraded (registry.health_status entry.provider_id));
  }

  -- what the policy's answer does to the loop
  abbrev pub settle : Entry N → Provider → Answer × PolicyCache → Loop → Loop
  settle entry prov (allowed, cache) s = record s {
    scored = s.scored ++ scored_entry entry prov ∷ [];
    cache = cache;
  }
  settle entry prov (denied, cache) s = record s { dropped = s.dropped + 1; cache = cache }

  -- one candidate
  unfoldable pub consider : Entry N → Loop → Loop
  consider entry s = elim (registry.get_provider entry.provider_id) [
    | none ↦ drop s
    | some prov ↦
        if usable registry request.sensitivity entry.provider_id prov
        then settle entry prov
            (ask t (policy_key entry.provider_id entry.model_id)
              (gate_model entry.provider_id entry.model_id) s.cache)
            s
        else drop s
  ]

  unfoldable pub scan : List (Entry N) → Loop → Loop
  unfolding consider
  scan [] s = s
  scan (entry ∷ rest) s =
      let next = scan rest (consider entry s) in
      if leb routing.max_candidates (length s.scored) then s else next

  -- the key `(s.score, s.provider_id, s.model_id)`
  unfoldable pub scored_le : Scored N → Scored N → Bool
  scored_le a b =
      if N.le a.score b.score && N.le b.score a.score
      then (if a.provider_id == b.provider_id
          then str_leb a.model_id b.model_id
          else str_leb a.provider_id b.provider_id)
      else N.le a.score b.score

  abbrev pub choose : ℕ → ℕ → List (Scored N) → Outcome N
  choose considered filtered [] = failed no_routable_candidates
  choose considered filtered (best ∷ rest) = decided (record {
    selected = best;
    fallback_chain = rest;
    candidates_considered = considered;
    candidates_filtered = filtered;
  })

  unfoldable pub candidates : List (Entry N) → List (Entry N)
  candidates catalog = sort (entry_le N) (keep (serves N request.capability) catalog)

  unfoldable pub route_candidates : List (Entry N) → PolicyCache → Outcome N × PolicyCache
  unfolding candidates
  route_candidates catalog cache =
      let considered = candidates catalog in
      let narrowed = narrow_explicit N request considered in
      let end = scan narrowed (record { scored = []; dropped = 0; cache = cache }) in
      (
        choose (length considered) (length considered - length narrowed + end.dropped)
            (sort scored_le end.scored),
        end.cache,
      )

  -- `gate_capability` is the policy's answer for the capability.
  unfoldable pub route :
      Bool
      → Answer
      → Option (String × String)
      → List (Entry N)
      → PolicyCache
      → Outcome N × PolicyCache
  route inference_enabled gate_capability resolved_pin catalog cache =
      if not inference_enabled then (failed inference_disabled, cache) else elim gate_capability [
        | denied ↦ (failed inference_capability_denied, cache)
        | allowed ↦
            if not (pin_satisfied request resolved_pin)
            then (failed model_pin_required, cache)
            else route_candidates catalog cache
      ]
