-- ===== src/Inference/Router.antt =====
-- `InferenceRouter.route` of src/syndicateclaw/inference/router.py.
use Prim.Native.Nat.{max}
use syndicateclaw.Base.{
  ℕ, String, Bool, true, false, not, ◌&&◌, Option, none, some, List, ◌==◌, string_eq, keep, leb,
  is_some, if◌then◌else◌,
}
use syndicateclaw.Order.{IsOrder}
use syndicateclaw.Text.{str_leb}
use syndicateclaw.Inference.Circuit.{CircuitState}

-- Python's floats, as far as the scores use them: the values that are no NaN, in their order.
pub record Floats : Type 1 where
  pub F : Type 0
  pub zero_point : F
  pub one : F
  pub add : F → F → F
  pub sub : F → F → F
  pub mul : F → F → F
  pub div : F → F → F
  pub from_int : ℕ → F
  pub le : F → F → Bool
  pub order : IsOrder le

pub data Capability : Type 0 where
  chat embedding : Capability

pub data Sensitivity : Type 0 where
  public internal confidential restricted : Sensitivity

pub data ProviderStatus : Type 0 where
  active degraded unavailable disabled : ProviderStatus

pub data TrustTier : Type 0 where
  trusted restricted untrusted : TrustTier

pub data ModelPinning : Type 0 where
  required preferred none_ : ModelPinning

pub data EntryStatus : Type 0 where
  active quarantined rejected : EntryStatus

unfoldable pub sensitivity_rank : Sensitivity → ℕ
sensitivity_rank public = 0
sensitivity_rank internal = 1
sensitivity_rank confidential = 2
sensitivity_rank Sensitivity.restricted = 3

unfoldable pub sensitivity_allowed : Sensitivity → Sensitivity → Bool
unfolding sensitivity_rank
sensitivity_allowed level provider_max =
    leb (sensitivity_rank level) (sensitivity_rank provider_max)

-- A chat or an embedding request, as far as routing reads it.
pub record Request : Type 0 where
  pub model_id : Option String
  pub provider_id : Option String
  pub capability : Capability
  pub sensitivity : Sensitivity
  pub model_pinning : ModelPinning

pub record Provider : Type 0 where
  pub enabled : Bool
  pub max_allowed_sensitivity : Sensitivity
  pub trust_tier : TrustTier

-- `ProviderRegistryRead` at one time
pub record Registry : Type 0 where
  pub get_provider : String → Option Provider
  pub runtime_disabled : String → Bool
  pub circuit_state : String → CircuitState
  pub cooldown : String → Bool
  pub health_status : String → ProviderStatus

pub data Failure : Type 0 where
  inference_disabled inference_capability_denied model_pin_required no_routable_candidates : Failure

-- `x and ...` on an optional text: the empty text counts as missing
abbrev pub given : Option String → Bool
given none = false
given (some t) = not (t == "")

abbrev pub equals : Option String → String → Bool
equals none t = false
equals (some u) t = t == u

abbrev is_required : ModelPinning → Bool
is_required required = true
is_required _ = false

unfoldable pub pin_satisfied : Request → Option (String × String) → Bool
pin_satisfied request resolved_pin =
    if not (is_required request.model_pinning)
    then true
    else if given request.model_id && given request.provider_id
    then true
    else is_some resolved_pin

abbrev pub is_chat : Capability → Bool
is_chat chat = true
is_chat embedding = false

abbrev pub is_active : EntryStatus → Bool
is_active EntryStatus.active = true
is_active _ = false

module _ (N : Floats) where
  open N use {F, zero_point, one, add, sub, mul, div, from_int, le}

  pub record Entry : Type 0 where
    pub provider_id : String
    pub model_id : String
    pub for_chat : Bool
    pub for_embedding : Bool
    pub status : EntryStatus
    pub input_per_million : F
    pub output_per_million : F
    pub context_window : ℕ

  pub record Weights : Type 0 where
    pub cost : F
    pub latency_proxy : F
    pub sensitivity_match_bonus : F
    pub degraded_penalty : F
    pub trust_tier_trusted_bonus : F
    pub trust_tier_untrusted_penalty : F

  -- `RoutingPolicyConfig`
  pub record Routing : Type 0 where
    pub weights : Weights
    pub cost_weight_cap : F
    pub max_candidates : ℕ

  pub record Scored : Type 0 where
    pub provider_id : String
    pub model_id : String
    pub score : F

  pub record RoutingDecision : Type 0 where
    pub selected : Scored
    pub fallback_chain : List Scored
    pub candidates_considered : ℕ
    pub candidates_filtered : ℕ

  pub data Outcome : Type 0 where
    decided : RoutingDecision → Outcome
    failed : Failure → Outcome

  -- `iter_by_capability`
  abbrev pub serves : Capability → Entry → Bool
  serves cap r = (if is_chat cap then r.for_chat else r.for_embedding) && is_active r.status

  abbrev pub entry_le : Entry → Entry → Bool
  entry_le a b =
      if a.provider_id == b.provider_id
      then str_leb a.model_id b.model_id
      else str_leb a.provider_id b.provider_id

  unfoldable pub narrow_explicit : Request → List Entry → List Entry
  narrow_explicit request rows =
      if given request.provider_id && given request.model_id
      then keep
          (λ r. equals request.provider_id r.provider_id && equals request.model_id r.model_id) rows
      else if given request.provider_id
      then keep (λ r. equals request.provider_id r.provider_id) rows
      else if given request.model_id
      then keep (λ r. equals request.model_id r.model_id) rows
      else rows

  abbrev float_min : F → F → F
  float_min a b = if le a b then a else b

  -- the terms that follow one another in `_score`
  unfoldable pub trust_term : TrustTier → Weights → F → F
  trust_term trusted w s = sub s w.trust_tier_trusted_bonus
  trust_term TrustTier.restricted w s = s
  trust_term untrusted w s = add s w.trust_tier_untrusted_penalty

  unfoldable pub score : Entry → Provider → Sensitivity → Weights → F → Bool → F
  unfolding trust_term
  score entry prov level w cost_cap is_degraded =
      let cost = float_min (add entry.input_per_million entry.output_per_million) cost_cap in
      let latency = div one (from_int (max entry.context_window 1)) in
      let base = add (mul w.cost cost) (mul w.latency_proxy latency) in
      let with_health = if is_degraded then add base w.degraded_penalty else base in
      let with_trust = trust_term prov.trust_tier w with_health in
      if leb (sensitivity_rank level) (sensitivity_rank prov.max_allowed_sensitivity)
        && leb (sensitivity_rank prov.max_allowed_sensitivity) (sensitivity_rank level)
      then sub with_trust w.sensitivity_match_bonus
      else with_trust
