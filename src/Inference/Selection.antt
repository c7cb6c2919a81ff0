-- ===== src/Inference/Selection.antt =====
-- What a routing decision guarantees.
use syndicateclaw.Base.{
  ℕ, String, ◌≡◌, refl, true, some, List, [], ◌∷◌, string_eq, leb, length, In, In-append, inl, inr,
  Bool-cases, Option-cases,
}
use syndicateclaw.Inference.PolicyCache
use syndicateclaw.Inference.PolicyCache.{PolicyCache, Answer, allowed, denied}
use syndicateclaw.Inference.CacheLaws.{IsCoherent, get-IsCoherent, get-answers, set-IsCoherent}
use syndicateclaw.Inference.Router.{Floats, Request, Provider, Registry, Entry, Routing, Scored}
use syndicateclaw.Inference.Route.{usable, ask, Loop, scored_entry, settle, consider, scan}

module _ (answers : String → Answer → Type 0) where
  -- An answer for a key comes from the cache or from the policy: either may be given.
  ask-IsCoherent :
      (t : ℕ) (key : String) (fresh : Answer) (c : PolicyCache)
      → answers key fresh
      → IsCoherent answers c
      → answers key (ask t key fresh c).0 × IsCoherent answers (ask t key fresh c).1
  unfolding ask
  ask-IsCoherent t key fresh c g h = elim (Option-cases (PolicyCache.get key t c).0) [
    | inl n ↦
        rw (n, ask) (g, set-IsCoherent answers key fresh t _ g (get-IsCoherent answers key t c h))
    | inr (a, e) ↦ rw (e, ask) (get-answers answers key t c h e, get-IsCoherent answers key t c h)
  ]

module _ (N : Floats) (routing : Routing N) (request : Request) (registry : Registry) (t : ℕ)
    (gate_model : String → String → Answer) (policy_key : String → String → String) where
  -- The answers that may be given for a key are the policy's for what it is the key of.
  abbrev pub Given : String → Answer → Type 0
  Given key a = (p q : String) → policy_key p q ≡ key → gate_model p q ≡ a

  -- Two models with one key get one answer.
  abbrev pub SeparatesKeys : Type 0
  SeparatesKeys =
      (p q p' q' : String) → policy_key p q ≡ policy_key p' q' → gate_model p q ≡ gate_model p' q'

  -- The scored candidate is an entry of the list whose provider is known and usable, which the
  -- policy allows.
  abbrev pub Fit : List (Entry N) → Scored N → Type 0
  Fit entries x =
      (entry : Entry N) × (prov : Provider) × In entry entries
      × (registry.get_provider entry.provider_id ≡ some prov)
      × (usable registry request.sensitivity entry.provider_id prov ≡ true)
      × (gate_model entry.provider_id entry.model_id ≡ allowed)
      × (scored_entry N routing request registry t gate_model policy_key entry prov ≡ x)

  abbrev pub Scan : Type 0
  Scan = Loop N routing request registry t gate_model policy_key

  pub record Good (entries : List (Entry N)) (s : Scan) : Type 0 where
    pub fits : (x : Scored N) → In x s.scored → Fit entries x
    pub coherent : IsCoherent Given s.cache

  module _ (separates : SeparatesKeys) (entries : List (Entry N)) where
    settle-Good :
        (entry : Entry N) (prov : Provider) (s : Scan) (r : Answer × PolicyCache)
        → In entry entries
        → registry.get_provider entry.provider_id ≡ some prov
        → usable registry request.sensitivity entry.provider_id prov ≡ true
        → Given (policy_key entry.provider_id entry.model_id) r.0
        → IsCoherent Given r.1
        → Good entries s
        → Good entries (settle N routing request registry t gate_model policy_key entry prov r s)
    settle-Good entry prov s (allowed, c) m e u a h g = record {
      coherent = h;
      fits = λ x i. elim (In-append x s.scored _ i) [
        | inl old ↦ g.fits x old
        | inr j ↦ elim j [
          | inl same ↦ (entry, prov, m, e, u, a entry.provider_id entry.model_id refl, same)
          | inr none_left ↦ absurd none_left
        ]
      ];
    }
    settle-Good entry prov s (denied, c) m e u a h g = record { fits = g.fits; coherent = h }

    consider-Good :
        (entry : Entry N) (s : Scan)
        → In entry entries
        → Good entries s
        → Good entries (consider N routing request registry t gate_model policy_key entry s)
    unfolding consider
    consider-Good entry s m g = elim (Option-cases (registry.get_provider entry.provider_id)) [
      | inl n ↦ rw (n, consider) (record { fits = g.fits; coherent = g.coherent })
      | inr (prov, e) ↦
          elim (Bool-cases (usable registry request.sensitivity entry.provider_id prov)) [
            | inl u ↦
                let key = policy_key entry.provider_id entry.model_id in
                let fresh = gate_model entry.provider_id entry.model_id in
                let given : Given key fresh =
                  λ p q same. separates p q entry.provider_id entry.model_id same in
                let (a, h) = ask-IsCoherent Given t key fresh s.cache given g.coherent in
                rw (e, consider) (rw u (settle-Good entry prov s _ m e u a h g))
            | inr f ↦ rw (e, consider) (rw f (record { fits = g.fits; coherent = g.coherent }))
          ]
    ]

    pub scan-Good :
        (rest : List (Entry N)) (s : Scan)
        → ((e : Entry N) → In e rest → In e entries)
        → Good entries s
        → Good entries (scan N routing request registry t gate_model policy_key rest s)
    unfolding scan
    scan-Good [] s within g = g
    scan-Good (entry ∷ rest) s within g =
        elim (Bool-cases (leb routing.max_candidates (length s.scored))) [
          | inl full ↦ rw (full, scan) g
          | inr f ↦
              rw (f, scan)
                (scan-Good rest _ (λ e m. within e (inr m))
                  (consider-Good entry s (within entry (inl refl)) g))
        ]
