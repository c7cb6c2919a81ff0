-- ===== src/Inference/Tests.antt =====
-- The router, its cache and the circuit breaker on concrete inputs; scores are whole numbers here.
use syndicateclaw.Base.{◌==◌, string_eq}
use syndicateclaw.Base.{
  ℕ, String, ◌≡◌, refl, Bool, true, false, none, some, List, [], ◌∷◌, ◌+◌, ◌-◌, ◌*◌, ◌/◌, leb,
  if◌then◌else◌, arith,
}
use syndicateclaw.Order.{sort, insert}
use syndicateclaw.Inference.PolicyCache
use syndicateclaw.Inference.PolicyCache.{PolicyCache, Answer, allowed, denied, init, get, set}
use syndicateclaw.Inference.CacheLaws.{Op, gets, sets, run, IsBounded, run-IsBounded, IsCoherent}
use syndicateclaw.Inference.Circuit.{Breaker, closed}
use syndicateclaw.Inference.Router.{
  Floats, Request, Registry, Entry, Routing, RoutingDecision, decided, chat, internal, preferred,
  active, confidential, trusted, score, narrow_explicit, trust_term, sensitivity_allowed,
  pin_satisfied,
}
use syndicateclaw.Inference.Route.{
  route, route_candidates, candidates, scan, consider, usable, ask, scored_le,
}
use syndicateclaw.Inference.Selection.{Given, SeparatesKeys}
use syndicateclaw.Inference.Guarantee.{Promise, route-Promise}
use syndicateclaw.Text.{str_leb}

leb_total : (a b : ℕ) → leb a b ≡ false → leb b a ≡ true
leb_total a b h = ground arith

leb_trans : (a b c : ℕ) → leb a b ≡ true → leb b c ≡ true → leb a c ≡ true
leb_trans a b c h k = ground arith

abbrev whole : Floats
whole = record {
  F = ℕ;
  zero_point = 0;
  one = 1;
  add = ◌+◌;
  sub = ◌-◌;
  mul = ◌*◌;
  div = ◌/◌;
  from_int = λ n. n;
  le = leb;
  order = record { total = leb_total; trans = leb_trans };
}

abbrev cached : PolicyCache
cached = record { ttl = 60; max_entries = 2; entries = [] }

abbrev ops : List Op
ops = sets "a" allowed 0 ∷ sets "b" denied 1 ∷ gets "a" 2 ∷ sets "c" allowed 3 ∷ []

run-IsBounded_example : IsBounded (run ops cached)
run-IsBounded_example = run-IsBounded ops cached (omega arith)

abbrev breaker : Breaker
breaker = record {
  failure_threshold = 2;
  window = 60;
  open_for = 30;
  fail_times = 5 ∷ [];
  state = closed;
  opened_at = none;
}

abbrev entry : String → String → ℕ → Entry whole
entry p q price = record {
  provider_id = p;
  model_id = q;
  for_chat = true;
  for_embedding = false;
  status = active;
  input_per_million = price;
  output_per_million = price;
  context_window = 8000;
}

abbrev catalog : List (Entry whole)
catalog = entry "z" "large" 9 ∷ entry "a" "small" 1 ∷ entry "b" "small" 4 ∷ []

abbrev routing : Routing whole
routing = record {
  weights = record {
    cost = 1;
    latency_proxy = 1;
    sensitivity_match_bonus = 0;
    degraded_penalty = 100;
    trust_tier_trusted_bonus = 0;
    trust_tier_untrusted_penalty = 50;
  };
  cost_weight_cap = 1000;
  max_candidates = 64;
}

abbrev request : Request
request = record {
  model_id = none;
  provider_id = none;
  capability = chat;
  sensitivity = internal;
  model_pinning = preferred;
}

-- Provider "a" is switched off.
abbrev registry : Registry
registry = record {
  get_provider = λ p. some (record {
    enabled = if p == "a" then false else true;
    max_allowed_sensitivity = confidential;
    trust_tier = trusted;
  });
  runtime_disabled = λ p. false;
  circuit_state = λ p. closed;
  cooldown = λ p. false;
  health_status = λ p. active;
}

abbrev gate : String → String → Answer
gate p q = allowed

abbrev key : String → String → String
key p q = p

gate-SeparatesKeys : SeparatesKeys whole routing request registry 7 gate key
gate-SeparatesKeys p q p' q' h = refl

cached-IsCoherent : IsCoherent (Given whole routing request registry 7 gate key) cached
cached-IsCoherent e m = absurd m

abbrev decision : RoutingDecision whole
decision = record {
  selected = record { provider_id = "b"; model_id = "small"; score = 8 };
  fallback_chain = record { provider_id = "z"; model_id = "large"; score = 18 } ∷ [];
  candidates_considered = 3;
  candidates_filtered = 1;
}

routed :
    (route whole routing request registry 7 gate key true allowed none catalog cached).0
    ≡ decided decision
unfolding route route_candidates candidates scan consider usable ask PolicyCache.get PolicyCache.set
    PolicyCache.evict sort insert narrow_explicit score trust_term sensitivity_allowed pin_satisfied
    scored_le str_leb
routed = refl

route-Promise_example :
    (◌≡◌ {A = Bool} true true)
    × (allowed ≡ allowed)
    × (pin_satisfied request none ≡ true)
    × Promise whole routing request registry 7 gate key catalog cached decision
route-Promise_example =
    route-Promise whole routing request registry 7 gate key catalog cached gate-SeparatesKeys
      cached-IsCoherent true allowed none decision routed
