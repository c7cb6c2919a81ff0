-- ===== src/Inference/Circuit.antt =====
-- `SlidingWindowCircuitBreaker` of src/syndicateclaw/inference/registry.py. Times are microseconds.
use syndicateclaw.Base.{
  ℕ, Bool, true, false, Option, none, some, List, [], ◌∷◌, ◌++◌, ◌+◌, leb, ltb, length,
  if◌then◌else◌,
}

pub data CircuitState : Type 0 where
  closed open_ half_open : CircuitState

pub record Breaker : Type 0 where
  pub failure_threshold : ℕ
  pub window : ℕ
  pub open_for : ℕ
  pub fail_times : List ℕ
  pub state : CircuitState
  pub opened_at : Option ℕ

unfoldable pub init : ℕ → ℕ → ℕ → Breaker
init failure_threshold window open_for = record {
  failure_threshold = failure_threshold;
  window = window;
  open_for = open_for;
  fail_times = [];
  state = closed;
  opened_at = none;
}

-- `opened_at is not None and now - opened_at >= open_seconds`
abbrev pub waited : Option ℕ → ℕ → ℕ → Bool
waited none open_for now = false
waited (some t) open_for now = leb (t + open_for) now

abbrev pub is_open : CircuitState → Bool
is_open open_ = true
is_open _ = false

-- `state(now)`: an open circuit that has waited becomes half open
unfoldable pub observe : ℕ → Breaker → CircuitState × Breaker
observe now b =
    let half = if is_open b.state then waited b.opened_at b.open_for now else false in
    if half then (half_open, record b { state = half_open }) else (b.state, b)

-- `while self._fail_times and self._fail_times[0] < cutoff: popleft()`, with the cutoff moved to
-- the other side: `t + window < now`
unfoldable pub drop_old : ℕ → ℕ → List ℕ → List ℕ
drop_old window now [] = []
drop_old window now (t ∷ ts) =
    let rest = drop_old window now ts in if ltb (t + window) now then rest else t ∷ ts

unfoldable pub record_failure : ℕ → Breaker → Breaker
unfolding drop_old
record_failure now b =
    let times = drop_old b.window now (b.fail_times ++ now ∷ []) in
    if leb b.failure_threshold (length times)
    then record b { fail_times = times; state = open_; opened_at = some now }
    else record b { fail_times = times }

unfoldable pub record_success : Breaker → Breaker
record_success b = elim b.state [
  | half_open ↦ record b { state = closed; fail_times = []; opened_at = none }
  | closed ↦ record b { fail_times = [] }
  | open_ ↦ b
]
