-- ===== src/RateLimit/Bounded.antt =====
-- The requests of one actor that the middleware lets pass (`dispatch`), among those of others.
use syndicateclaw.Base.{
  ℕ, suc, ◌+◌, ◌≤◌, ◌<◌, ◌≡◌, refl, sym, ◌∙◌, ap, subst, inl, inr, Bool, true, false, ◌&&◌, some,
  List, [], ◌∷◌, String, ◌==◌, string_eq, eq_iff, contains, keep, length, All, if◌then◌else◌, arith,
  Bool-cases, Option-cases, ◌⊎◌,
}
use syndicateclaw.RateLimit.Sets.{SortedSets, hit}
use syndicateclaw.RateLimit.Middleware.{
  Request, Settings, Answer, passed, skip_paths, actor_of, window_key, burst_key, seconds,
  after_counts, limit, dispatch,
}
use syndicateclaw.RateLimit.Served.{
  in_window, IsFalling, Counts, hit_count, hit-Counts, other-Counts,
}
use syndicateclaw.RateLimit.Windows.{IsBounded, Among, one_more, Among-skip, Among-cons}
use syndicateclaw.RateLimit.Keys.{
  counts_for, times, IsSeparate, keys_apart, Avoids, Avoids-window_key, Avoids-burst_key,
}

abbrev pub is_passed : Answer → Bool
is_passed (passed _ _ _) = true
is_passed _ = false

passed_room :
    (c : Settings) (now n m : ℕ)
    → is_passed (after_counts c now n m) ≡ true
    → (n ≤ c.rate_limit_requests) × (m ≤ c.rate_limit_burst)
passed_room c now n m h = ground arith

module _ (R : SortedSets) (c : Settings) where
  -- The times of the actor's requests that pass, the newest first, and the store. The requests of
  -- all actors are served.
  unfoldable pub serve : String → List (ℕ × Request) → R.Store → List ℕ × R.Store
  serve actor [] s = ([], s)
  serve actor ((now, r) ∷ rs) s =
      let (admitted, s') = serve actor rs s in
      let (answer, s'') = dispatch R c now true r s' in
      (if counts_for actor r && is_passed answer then now ∷ admitted else admitted, s'')

  module _ (actor : String) (named : (actor == "anonymous") ≡ false) where
    dispatch_limit :
        (now : ℕ) (r : Request) (s : R.Store)
        → counts_for actor r ≡ true
        → dispatch R c now true r s ≡ limit R c now actor s
    unfolding dispatch
    dispatch_limit now r s h =
        let path : contains skip_paths r.path ≡ false = ground arith in
        elim (Option-cases (actor_of r)) [
          | inl none_named ↦ let bad : false ≡ true = rw (path, none_named) at h in ground arith
          | inr (b, of) ↦
              let mine : (b == actor) ≡ true = rw (path, of) at h in
              let same : b ≡ actor = (eq_iff b actor).0 mine in
              rw (path, dispatch) (rw of (rw same (rw named refl)))
        ]

    -- A request that is not counted for the actor leaves the store or counts under others' keys.
    dispatch_other :
        (now : ℕ) (r : Request) (s : R.Store)
        → counts_for actor r ≡ false
        → ((dispatch R c now true r s).1 ≡ s)
          ⊎ ((b : String) × (actor_of r ≡ some b)
              × ((b == actor) ≡ false)
              × ((dispatch R c now true r s).1 ≡ (limit R c now b s).1))
    unfolding dispatch
    dispatch_other now r s h = elim (Bool-cases (contains skip_paths r.path)) [
      | inl skipped ↦ inl (rw (skipped, dispatch) refl)
      | inr path ↦ elim (Option-cases (actor_of r)) [
        | inl none_named ↦ inl (rw (path, dispatch) (rw none_named refl))
        | inr (b, of) ↦ elim (Bool-cases (b == "anonymous")) [
          | inl anonymous ↦ inl (rw (path, dispatch) (rw of (rw anonymous refl)))
          | inr known ↦ inr (b, of, rw (path, of) at h, rw (path, dispatch) (rw of (rw known refl)))
        ]
      ]
    ]

    abbrev window : ℕ
    window = seconds c.rate_limit_window_seconds

    abbrev ttl : ℕ
    ttl = seconds (c.rate_limit_window_seconds + 1)

    longer : window < ttl
    longer = omega arith

    longer_burst : seconds 1 < seconds 2
    longer_burst = omega arith

    record IsServed (ts admitted : List ℕ) (s : R.Store) : Type 0 where
      pub counted : Counts R (window_key actor) window ttl longer ts s
      pub counted_burst : Counts R (burst_key actor) (seconds 1) (seconds 2) longer_burst ts s
      pub among : Among admitted ts
      pub bounded : IsBounded window c.rate_limit_requests admitted
      pub bounded_burst : IsBounded (seconds 1) c.rate_limit_burst admitted

    limit_keeps :
        (b key : String) (w t : ℕ) (lt : w < t) (now : ℕ) (ts : List ℕ) (s : R.Store)
        → Avoids b key
        → Counts R key w t lt ts s
        → Counts R key w t lt ts (limit R c now b s).1
    unfolding limit Avoids
    limit_keeps b key w t lt now ts s (a, a') v =
        other-Counts R key w t lt now (burst_key b) (seconds 1) (seconds 2) ts
          (hit R now (window_key b) window ttl s).1 a'
          (other-Counts R key w t lt now (window_key b) window ttl ts s a v)

    other-IsServed :
        (now : ℕ) (r : Request) (ts admitted : List ℕ) (s : R.Store)
        → IsSeparate actor (now, r)
        → counts_for actor r ≡ false
        → IsServed ts admitted s
        → IsServed ts admitted (dispatch R c now true r s).1
    other-IsServed now r ts admitted s separate h v = elim (dispatch_other now r s h) [
      | inl same ↦ subst (IsServed ts admitted) (sym same) v
      | inr (b, of, other, same) ↦
          let (ne, ne') = separate b of other in
          subst (IsServed ts admitted) (sym same) (record {
            counted =
                limit_keeps b (window_key actor) window ttl longer now ts s
                  (Avoids-window_key b actor other ne') v.counted;
            counted_burst =
                limit_keeps b (burst_key actor) (seconds 1) (seconds 2) longer_burst now ts s
                  (Avoids-burst_key b actor other ne) v.counted_burst;
            among = v.among;
            bounded = v.bounded;
            bounded_burst = v.bounded_burst;
          })
    ]

    abbrev hit_window : ℕ → R.Store → ℕ × R.Store
    hit_window now s = hit R now (window_key actor) window ttl s

    abbrev hit_burst : ℕ → R.Store → ℕ × R.Store
    hit_burst now s = hit R now (burst_key actor) (seconds 1) (seconds 2) s

    limit_lem :
        (now : ℕ) (s : R.Store)
        → limit R c now actor s ≡ (
          after_counts c now (hit_window now s).0 (hit_burst now (hit_window now s).1).0,
          (hit_burst now (hit_window now s).1).1,
        )
    unfolding limit
    limit_lem now s = refl

    module _ (now : ℕ) (ts admitted : List ℕ) (s : R.Store) (new : All (λ x. x < now) ts)
        (v : IsServed ts admitted s) where
      counts : Counts R (window_key actor) window ttl longer (now ∷ ts) (limit R c now actor s).1
      counts =
          subst (λ u. Counts R (window_key actor) window ttl longer (now ∷ ts) u)
            (sym (ap (λ p. p.1) (limit_lem now s)))
            (other-Counts R (window_key actor) window ttl longer now (burst_key actor) (seconds 1)
              (seconds 2) (now ∷ ts) (hit_window now s).1 (keys_apart actor).1
              (hit-Counts R (window_key actor) window ttl longer now ts s new v.counted))

      burst_before :
          Counts R (burst_key actor) (seconds 1) (seconds 2) longer_burst ts (hit_window now s).1
      burst_before =
          other-Counts R (burst_key actor) (seconds 1) (seconds 2) longer_burst now
            (window_key actor) window ttl ts s (keys_apart actor).0 v.counted_burst

      counts_burst :
          Counts R
            (burst_key actor)
            (seconds 1)
            (seconds 2)
            longer_burst
            (now ∷ ts)
            (limit R c now actor s).1
      counts_burst =
          subst (λ u. Counts R (burst_key actor) (seconds 1) (seconds 2) longer_burst (now ∷ ts) u)
            (sym (ap (λ p. p.1) (limit_lem now s)))
            (hit-Counts R (burst_key actor) (seconds 1) (seconds 2) longer_burst now ts
              (hit_window now s).1 new burst_before)

      room :
          is_passed (limit R c now actor s).0 ≡ true
          → (suc (length (keep (in_window window now) ts)) ≤ c.rate_limit_requests)
            × (suc (length (keep (in_window (seconds 1) now) ts)) ≤ c.rate_limit_burst)
      room h =
          let fits =
            passed_room c now (hit_window now s).0 (hit_burst now (hit_window now s).1).0
              (ap (λ p. is_passed p.0) (sym (limit_lem now s)) ∙ h) in
          (
            subst (λ n. n ≤ c.rate_limit_requests)
                (hit_count R (window_key actor) window ttl longer now ts s new v.counted) fits.0,
            subst (λ n. n ≤ c.rate_limit_burst)
                (hit_count R (burst_key actor) (seconds 1) (seconds 2) longer_burst now ts
                  (hit_window now s).1 new burst_before)
                fits.1,
          )

      limit-IsServed :
          (b : Bool)
          → is_passed (limit R c now actor s).0 ≡ b
          → IsServed (now ∷ ts) (if b then now ∷ admitted else admitted) (limit R c now actor s).1
      limit-IsServed true h = record {
        counted = counts;
        counted_burst = counts_burst;
        among = Among-cons now admitted ts v.among;
        bounded =
            one_more window c.rate_limit_requests now admitted ts v.among (room h).0 v.bounded;
        bounded_burst =
            one_more (seconds 1) c.rate_limit_burst now admitted ts v.among (room h).1
              v.bounded_burst;
      }
      limit-IsServed false h = record {
        counted = counts;
        counted_burst = counts_burst;
        among = Among-skip now admitted ts v.among;
        bounded = v.bounded;
        bounded_burst = v.bounded_burst;
      }

    serve-IsServed :
        (rs : List (ℕ × Request)) (s : R.Store)
        → ((t : ℕ) → R.scores t (window_key actor) s ≡ [])
        → ((t : ℕ) → R.scores t (burst_key actor) s ≡ [])
        → IsFalling (times actor rs)
        → All (IsSeparate actor) rs
        → IsServed (times actor rs) (serve actor rs s).0 (serve actor rs s).1
    unfolding serve Among
    serve-IsServed [] s none_yet no_burst falling separate = record {
      counted = λ t h. rw (none_yet t) refl;
      counted_burst = λ t h. rw (no_burst t) refl;
      among = λ p. omega arith;
      bounded = λ t. omega arith;
      bounded_burst = λ t. omega arith;
    }
    serve-IsServed ((now, r) ∷ rs) s none_yet no_burst falling (one, rest) =
        elim (Bool-cases (counts_for actor r)) [
          | inl mine ↦
              let (new, older) = rw mine at falling in
              let before = serve-IsServed rs s none_yet no_burst older rest in
              let step =
                limit-IsServed now (times actor rs) (serve actor rs s).0 (serve actor rs s).1 new
                  before (is_passed (limit R c now actor (serve actor rs s).1).0) refl in
              rw (mine, serve) (rw (dispatch_limit now r (serve actor rs s).1 mine) step)
          | inr other ↦
              let before = serve-IsServed rs s none_yet no_burst (rw other at falling) rest in
              let step =
                other-IsServed now r (times actor rs) (serve actor rs s).0 (serve actor rs s).1 one
                  other before in
              rw (other, serve) step
        ]

    -- Among any requests of any actors, in any order of time, no window of the configured length has
    -- more of the actor's that pass than rate_limit_requests, and no second more than
    -- rate_limit_burst. The conditions: the times of this actor's own requests increase, no two of
    -- them equal; Redis answers and holds nothing of the actor before; the actor is not "anonymous";
    -- and no other actor has a window key that is this actor's burst key, or the other way round.
    pub serve-IsBounded :
        (rs : List (ℕ × Request)) (s : R.Store)
        → ((t : ℕ) → R.scores t (window_key actor) s ≡ [])
        → ((t : ℕ) → R.scores t (burst_key actor) s ≡ [])
        → IsFalling (times actor rs)
        → All (IsSeparate actor) rs
        → IsBounded window c.rate_limit_requests (serve actor rs s).0
          × IsBounded (seconds 1) c.rate_limit_burst (serve actor rs s).0
    serve-IsBounded rs s none_yet no_burst falling separate =
        let v = serve-IsServed rs s none_yet no_burst falling separate in
        (v.bounded, v.bounded_burst)
