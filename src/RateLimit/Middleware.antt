-- ===== src/RateLimit/Middleware.antt =====
-- `RateLimitMiddleware.dispatch` of src/syndicateclaw/api/rate_limit.py. A request is its path, the
-- actor of its state and its two headers; what the next layer answers is left out.
use syndicateclaw.Base.{
  ℕ, zero, suc, ◌+◌, ◌-◌, ◌*◌, ◌/◌, Bool, Option, none, some, List, [], ◌∷◌, String, ◌==◌,
  string_eq, contains, ltb, if◌then◌else◌,
}
use syndicateclaw.Text.{has_prefix, concat}
use syndicateclaw.RateLimit.Sets.{SortedSets, hit}

pub record Request : Type 0 where
  pub path : String
  pub actor : Option String
  pub api_key : Option String
  pub authorization : String

pub record Settings : Type 0 where
  pub rate_limit_window_seconds : ℕ
  pub rate_limit_requests : ℕ
  pub rate_limit_burst : ℕ

pub data Kind : Type 0 where
  sustained burst : Kind

-- The request goes on, with the limit, what remains and the reset in its headers or without them,
-- or it is answered with 429.
pub data Answer : Type 0 where
  unlimited : Answer
  passed : (limit remaining reset : ℕ) → Answer
  rejected : (kind : Kind) (count limit retry_after : ℕ) → Answer

abbrev pub skip_paths : List String
skip_paths = "/healthz" ∷ "/readyz" ∷ "/docs" ∷ "/openapi.json" ∷ "/redoc" ∷ []

-- `s[:n]`
abbrev take : ℕ → String → String
take zero s = ""
take (suc n) String.[] = ""
take (suc n) (String.◌∷◌ c s) = String.◌∷◌ c (take n s)

-- `s[n:]`
abbrev drop : ℕ → String → String
drop zero s = s
drop (suc n) String.[] = ""
drop (suc n) (String.◌∷◌ c s) = drop n s

abbrev bearer_hint : String → Option String
bearer_hint auth =
    if has_prefix auth "Bearer " then some (concat "bearer:" (take 8 (drop 7 auth))) else none

unfoldable pub extract_actor_hint : Request → Option String
extract_actor_hint r = elim r.api_key [
  | none ↦ bearer_hint r.authorization
  | some key ↦
      if key == "" then bearer_hint r.authorization else some (concat "apikey:" (take 8 key))
]

-- the actor of the request's state, or the hint
abbrev pub actor_of : Request → Option String
actor_of r = elim r.actor [ some a ↦ some a | none ↦ extract_actor_hint r ]

unfoldable pub window_key : String → String
window_key actor = concat "syndicateclaw:ratelimit:" actor

unfoldable pub burst_key : String → String
burst_key actor = concat "syndicateclaw:ratelimit:burst:" actor

-- whole seconds
abbrev pub seconds : ℕ → ℕ
seconds n = n * 1000000

abbrev pub after_counts : Settings → ℕ → ℕ → ℕ → Answer
after_counts c now window_count burst_count =
    if ltb c.rate_limit_requests window_count
    then rejected sustained window_count c.rate_limit_requests (
        (seconds c.rate_limit_window_seconds - (now - (now - seconds c.rate_limit_window_seconds)))
          / 1000000
        + 1)
    else if ltb c.rate_limit_burst burst_count
    then rejected burst burst_count c.rate_limit_burst 1
    else passed c.rate_limit_requests (c.rate_limit_requests - window_count)
        (now / 1000000 + c.rate_limit_window_seconds)

module _ (R : SortedSets) (c : Settings) where
  -- the pipeline, and what follows it
  unfoldable pub limit : ℕ → String → R.Store → Answer × R.Store
  limit now actor s =
      let window = seconds c.rate_limit_window_seconds in
      let (window_count, s') =
        hit R now (window_key actor) window (seconds (c.rate_limit_window_seconds + 1)) s in
      let (burst_count, s'') = hit R now (burst_key actor) (seconds 1) (seconds 2) s' in
      (after_counts c now window_count burst_count, s'')

  -- `reachable`: Redis answers.
  unfoldable pub dispatch : ℕ → Bool → Request → R.Store → Answer × R.Store
  unfolding limit
  dispatch now reachable r s =
      if contains skip_paths r.path then (unlimited, s) else elim (actor_of r) [
        | none ↦ (unlimited, s)
        | some actor ↦
            if actor == "anonymous"
            then (unlimited, s)
            else if reachable
            then limit now actor s
            else (unlimited, s)
      ]
