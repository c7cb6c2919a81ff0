-- ===== src/Inference/CircuitLaws.antt =====
-- The circuit breaker over sequences of failures, successes and observations.
use syndicateclaw.Base.{
  ℕ, ◌≡◌, ◌≢◌, refl, some, List, [], ◌∷◌, ◌++◌, ◌+◌, ◌≤◌, ◌<◌, leb, ltb, length, if◌then◌else◌,
  arith, All, inl, inr, Bool-cases,
}
use syndicateclaw.Inference.Circuit.{
  Breaker, closed, open_, half_open, observe, drop_old, record_failure, record_success,
}

pub data Event : Type 0 where
  failure observation : ℕ → Event
  success : Event

unfoldable pub apply : Event → Breaker → Breaker
apply (failure now) b = record_failure now b
apply (observation now) b = (observe now b).1
apply success b = record_success b

unfoldable pub run : List Event → Breaker → Breaker
unfolding apply
run [] b = b
run (e ∷ es) b = run es (apply e b)

-- A success, or a look at the circuit before the limit.
abbrev pub IsEarly : ℕ → Event → Type 0
IsEarly limit (failure now) = ⊥
IsEarly limit (observation now) = now < limit
IsEarly limit success = Unit

record Held (t open_for : ℕ) (b : Breaker) : Type 0 where
  is_open_ : b.state ≡ open_
  since : b.opened_at ≡ some t
  lasts : b.open_for ≡ open_for

opens :
    (t : ℕ) (b : Breaker)
    → b.failure_threshold ≤ length (record_failure t b).fail_times
    → Held t b.open_for (record_failure t b)
unfolding record_failure
opens t b h =
    elim (Bool-cases
      (leb b.failure_threshold (length (drop_old b.window t (b.fail_times ++ t ∷ []))))) [
        | inl r ↦ rw (r, record_failure) (record { is_open_ = refl; since = refl; lasts = refl })
        | inr f ↦ absurd (ground arith)
      ]

apply-Held :
    (t open_for : ℕ) (e : Event) (b : Breaker)
    → IsEarly (t + open_for) e
    → Held t open_for b
    → Held t open_for (apply e b)
unfolding apply observe record_success
apply-Held t open_for (failure now) b early h = absurd early
apply-Held t open_for (observation now) b early h = ground (arith, h.is_open_, h.since, h.lasts)
apply-Held t open_for success b early h = ground (arith, h.is_open_, h.since, h.lasts)

run-Held :
    (t open_for : ℕ) (es : List Event) (b : Breaker)
    → All (IsEarly (t + open_for)) es
    → Held t open_for b
    → Held t open_for (run es b)
unfolding run
run-Held t open_for [] b early h = h
run-Held t open_for (e ∷ es) b early h =
    run-Held t open_for es (apply e b) early.1 (apply-Held t open_for e b early.0 h)

observe-Held :
    (t open_for later : ℕ) (b : Breaker)
    → Held t open_for b
    → (observe later b).0 ≡ (if leb (t + open_for) later then half_open else open_)
unfolding observe
observe-Held t open_for later b h = ground (arith, h.is_open_, h.since, h.lasts)

-- A failure at `t` that reaches the threshold opens the circuit: until its time has passed it reads
-- open, whatever successes and looks come in the meantime, and half open from then on.
open_until :
    (b : Breaker) (t later : ℕ) (es : List Event)
    → b.failure_threshold ≤ length (record_failure t b).fail_times
    → All (IsEarly (t + b.open_for)) es
    → (observe later (run es (record_failure t b))).0
      ≡ (if leb (t + b.open_for) later then half_open else open_)
open_until b t later es h early =
    observe-Held t b.open_for later _ (run-Held t b.open_for es _ early (opens t b h))

-- Times in the order in which they were recorded.
abbrev pub IsAscending : List ℕ → Type 0
IsAscending [] = Unit
IsAscending (t ∷ ts) = All (λ u. t ≤ u) ts × IsAscending ts

All-within :
    (w now t : ℕ) (ts : List ℕ) → now ≤ t + w → All (λ u. t ≤ u) ts → All (λ u. now ≤ u + w) ts
All-within w now t [] h a = tt
All-within w now t (u ∷ us) h (b, a) = (omega arith, All-within w now t us h a)

drop_old-All :
    (w now : ℕ) (ts : List ℕ) → IsAscending ts → All (λ u. now ≤ u + w) (drop_old w now ts)
unfolding drop_old
drop_old-All w now [] a = tt
drop_old-All w now (t ∷ ts) (le, a) = elim (Bool-cases (ltb (t + w) now)) [
  | inl old ↦ rw (old, drop_old) (drop_old-All w now ts a)
  | inr fresh ↦
      let near : now ≤ t + w = ground arith in
      rw (fresh, drop_old) (near, All-within w now t ts near le)
]

-- A failure opens a circuit that was not open only if at least as many failures as the threshold
-- lie in the window that ends with it.
opened_within_window :
    (b : Breaker) (now : ℕ)
    → IsAscending (b.fail_times ++ now ∷ [])
    → b.state ≢ open_
    → (record_failure now b).state ≡ open_
    → All (λ t. now ≤ t + b.window) (record_failure now b).fail_times
      × (b.failure_threshold ≤ length (record_failure now b).fail_times)
unfolding record_failure
opened_within_window b now a n h =
    elim (Bool-cases
      (leb b.failure_threshold (length (drop_old b.window now (b.fail_times ++ now ∷ []))))) [
        | inl r ↦ rw (r, record_failure) (drop_old-All b.window now _ a, ground arith)
        | inr f ↦ absurd (n (rw (f, record_failure) at h))
      ]

-- Looking at the circuit does not change what a later look sees.
observe_stable :
    (b : Breaker) (t later : ℕ)
    → t ≤ later
    → (observe later (observe t b).1).0 ≡ (observe later b).0
unfolding observe
observe_stable b t later h = ground arith

-- From half open, one success closes the circuit and forgets the failures.
pub trial_success :
    (b : Breaker)
    → b.state ≡ half_open
    → ((record_success b).state ≡ closed) × ((record_success b).fail_times ≡ [])
unfolding record_success
trial_success b h = ground arith
