-- ===== src/RateLimit/Keys.antt =====
-- Whose requests src/syndicateclaw/api/rate_limit.py counts, and the keys in Redis that it counts
-- them under.
use syndicateclaw.Base.{
  ℕ, ◌≡◌, ◌≢◌, sym, inl, inr, Bool, true, false, ◌&&◌, not, Option, none, some, List, [], ◌∷◌,
  String, ◌==◌, string_eq, eq_iff, contains, if◌then◌else◌, arith, Bool-cases,
}
use syndicateclaw.Text.{concat_apart, concat_cancel}
use syndicateclaw.RateLimit.Middleware.{Request, skip_paths, actor_of, window_key, burst_key}

abbrev is_named : String → Option String → Bool
is_named actor none = false
is_named actor (some b) = b == actor

-- a request of the actor, to a path that is not skipped
abbrev pub counts_for : String → Request → Bool
counts_for actor r = not (contains skip_paths r.path) && is_named actor (actor_of r)

-- the times of the actor's requests
abbrev pub times : String → List (ℕ × Request) → List ℕ
times actor [] = []
times actor ((t, r) ∷ rs) =
    let rest = times actor rs in if counts_for actor r then t ∷ rest else rest

-- A request of another actor, if it is one, has no key that is one of `actor`.
abbrev pub IsSeparate : String → ℕ × Request → Type 0
IsSeparate actor (t, r) =
    (b : String)
    → actor_of r ≡ some b
    → (b == actor) ≡ false
    → (window_key b ≢ burst_key actor) × (burst_key b ≢ window_key actor)

apart : (s t : String) → s ≢ t → (s == t) ≡ false
apart s t ne = elim (Bool-cases (s == t)) [ inl e ↦ absurd (ne ((eq_iff s t).0 e)) | inr f ↦ f ]

pub keys_apart :
    (actor : String)
    → ((window_key actor == burst_key actor) ≡ false)
      × ((burst_key actor == window_key actor) ≡ false)
unfolding window_key burst_key
keys_apart actor =
    let ne =
      concat_apart "syndicateclaw:ratelimit:" "syndicateclaw:ratelimit:burst:" actor
        (omega arith) in
    (
      apart (window_key actor) (burst_key actor) ne,
      apart (burst_key actor) (window_key actor) (λ e. ne (sym e)),
    )

-- Both keys of `b` are apart from `key`.
unfoldable pub Avoids : String → String → Type 0
Avoids b key = ((window_key b == key) ≡ false) × ((burst_key b == key) ≡ false)

pub Avoids-window_key :
    (b actor : String)
    → (b == actor) ≡ false
    → burst_key b ≢ window_key actor
    → Avoids b (window_key actor)
unfolding Avoids window_key
Avoids-window_key b actor other ne = (
  apart (window_key b) (window_key actor) (λ e.
      let same : (b == actor) ≡ true =
        (eq_iff b actor).1 (concat_cancel "syndicateclaw:ratelimit:" b actor e) in
      ground arith),
  apart (burst_key b) (window_key actor) ne,
)

pub Avoids-burst_key :
    (b actor : String)
    → (b == actor) ≡ false
    → window_key b ≢ burst_key actor
    → Avoids b (burst_key actor)
unfolding Avoids burst_key
Avoids-burst_key b actor other ne = (
  apart (window_key b) (burst_key actor) ne,
  apart (burst_key b) (burst_key actor) (λ e.
      let same : (b == actor) ≡ true =
        (eq_iff b actor).1 (concat_cancel "syndicateclaw:ratelimit:burst:" b actor e) in
      ground arith),
)
