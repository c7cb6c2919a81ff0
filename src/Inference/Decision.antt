-- ===== src/Inference/Decision.antt =====
-- The routing decision as a whole: whom it names, in which order, and how it counts.
use syndicateclaw.Inference.Route.{usable, scored_entry}
use syndicateclaw.Inference.Router.{Provider, given, equals}
use syndicateclaw.Base.{
  ℕ, suc, String, ◌≡◌, true, ◌&&◌, List, [], ◌∷◌, ◌+◌, ◌≤◌, string_eq, leb, length, arith, In,
  In-keep, inl, inr, Bool-cases, Option-cases, length-append, length-keep,
}
use syndicateclaw.Inference.PolicyCache.{PolicyCache, Answer, allowed, denied}
use syndicateclaw.Inference.Router.{Floats, Request, Registry, Entry, Routing, narrow_explicit}
use syndicateclaw.Inference.Route.{usable, scored_entry, settle, consider, scan}
use syndicateclaw.Inference.Selection.{Scan}

-- The entry is the provider's and the model's that the request names, where it names them.
abbrev pub Named : (N : Floats) → Request → Entry N → Type 0
Named N request e =
    (given request.provider_id ≡ true → equals request.provider_id e.provider_id ≡ true)
    × (given request.model_id ≡ true → equals request.model_id e.model_id ≡ true)

module _ (N : Floats) (request : Request) where
  pub length-narrow_explicit :
      (rows : List (Entry N)) → length (narrow_explicit N request rows) ≤ length rows
  unfolding narrow_explicit
  length-narrow_explicit rows = ground (
    arith,
    length-keep
        (λ r. equals request.provider_id r.provider_id && equals request.model_id r.model_id) rows,
    length-keep (λ r. equals request.provider_id r.provider_id) rows,
    length-keep (λ r. equals request.model_id r.model_id) rows,
  )

  pub In-narrow_explicit :
      (e : Entry N) (rows : List (Entry N))
      → In e (narrow_explicit N request rows)
      → In e rows × Named N request e
  unfolding narrow_explicit
  In-narrow_explicit e rows m = elim (Bool-cases (given request.provider_id)) [
    | inl p ↦ elim (Bool-cases (given request.model_id)) [
      | inl q ↦
          let (i, t) =
            In-keep
              (λ (r : Entry N).
                equals request.provider_id r.provider_id && equals request.model_id r.model_id)
              e rows (rw (p, q, narrow_explicit) at m) in
          (i, ((λ _. ground arith), (λ _. ground arith)))
      | inr g ↦
          let (i, t) =
            In-keep (λ (r : Entry N). equals request.provider_id r.provider_id) e rows
              (rw (p, g, narrow_explicit) at m) in
          (i, ((λ _. t), (λ h. ground arith)))
    ]
    | inr f ↦ elim (Bool-cases (given request.model_id)) [
      | inl q ↦
          let (i, t) =
            In-keep (λ (r : Entry N). equals request.model_id r.model_id) e rows
              (rw (f, q, narrow_explicit) at m) in
          (i, ((λ h. ground arith), (λ _. t)))
      | inr g ↦ (rw (f, g, narrow_explicit) at m, ((λ h. ground arith), (λ h. ground arith)))
    ]
  ]

module _ (N : Floats) (routing : Routing N) (request : Request) (registry : Registry) (t : ℕ)
    (gate_model : String → String → Answer) (policy_key : String → String → String) where
  abbrev pub State : Type 0
  State = Scan N routing request registry t gate_model policy_key

  -- One candidate is scored or dropped.
  record Advances (s s' : State) : Type 0 where
    counted : length s'.scored + s'.dropped ≡ suc (length s.scored + s.dropped)
    grows : length s'.scored ≤ suc (length s.scored)

  settle-Advances :
      (e : Entry N) (p : Provider) (r : Answer × PolicyCache) (s : State)
      → Advances s (settle N routing request registry t gate_model policy_key e p r s)
  settle-Advances e p (allowed, c) s = omega (
    arith,
    length-append {0} s.scored
        (scored_entry N routing request registry t gate_model policy_key e p ∷ []),
  )
  settle-Advances e p (denied, c) s = omega arith

  consider-Advances :
      (e : Entry N) (s : State)
      → Advances s (consider N routing request registry t gate_model policy_key e s)
  unfolding consider
  consider-Advances e s = elim (Option-cases (registry.get_provider e.provider_id)) [
    | inl n ↦ rw (n, consider) (omega arith)
    | inr (p, q) ↦ elim (Bool-cases (usable registry request.sensitivity e.provider_id p)) [
      | inl u ↦ rw (q, consider) (rw u (settle-Advances e p _ s))
      | inr f ↦ rw (q, consider) (rw f (omega arith))
    ]
  ]

  -- The scan scores no more than the bound, and counts no more than the candidates.
  pub record Counted (s s' : State) (n : ℕ) : Type 0 where
    pub within : length s'.scored ≤ routing.max_candidates
    pub accounted : length s'.scored + s'.dropped ≤ length s.scored + s.dropped + n

  pub scan-Counted :
      (rest : List (Entry N)) (s : State)
      → length s.scored ≤ routing.max_candidates
      → Counted s (scan N routing request registry t gate_model policy_key rest s) (length rest)
  unfolding scan
  scan-Counted [] s h = omega arith
  scan-Counted (e ∷ rest) s h = elim (Bool-cases (leb routing.max_candidates (length s.scored))) [
    | inl full ↦ rw (full, scan) (omega arith)
    | inr f ↦
        let room : suc (length s.scored) ≤ routing.max_candidates = ground arith in
        let a = consider-Advances e s in
        let c =
          scan-Counted rest (consider N routing request registry t gate_model policy_key e s)
            (omega arith) in
        rw (f, scan) (omega arith)
  ]
