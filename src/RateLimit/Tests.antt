-- ===== src/RateLimit/Tests.antt =====
-- One actor's requests.
use syndicateclaw.Base.{
  sym, subst, String, ◌==◌, eq_iff, false, ℕ, ◌≡◌, ◌≢◌, refl, true, none, some, List, [], ◌∷◌,
  string_eq, nat_eq, arith,
}
use syndicateclaw.RateLimit.TableSets.{Table, sets, nothing}
use syndicateclaw.RateLimit.Sets.{hit}
use syndicateclaw.RateLimit.Middleware.{
  Request, Settings, unlimited, extract_actor_hint, passed, rejected, sustained, window_key,
  burst_key, limit, dispatch,
}
use syndicateclaw.RateLimit.Windows.{IsBounded}
use syndicateclaw.RateLimit.Keys.{IsSeparate}
use syndicateclaw.RateLimit.Bounded.{serve, serve-IsBounded}
use syndicateclaw.RateLimit.Repeated.{limit_again, retry_after_one}

abbrev settings : Settings
settings = record { rate_limit_window_seconds = 60; rate_limit_requests = 2; rate_limit_burst = 2 }

abbrev listing : Request
listing = record { path = "/api/v1/memory"; actor = some "ann"; api_key = none; authorization = "" }

-- ann's three requests, and one of bob's between them
abbrev of_bob : Request
of_bob = record listing { actor = some "bob" }

abbrev four : List (ℕ × Request)
four = (90000000, listing) ∷ (80000000, listing) ∷ (80000000, of_bob) ∷ (70000000, listing) ∷ []

two_of_three : (serve sets settings "ann" four nothing).0 ≡ 80000000 ∷ 70000000 ∷ []
unfolding serve dispatch hit window_key burst_key
two_of_three = refl

bob_passes : (serve sets settings "bob" four nothing).0 ≡ 80000000 ∷ []
unfolding serve dispatch hit window_key burst_key
bob_passes = refl

-- The burst set of "ann" is the window set of "burst:ann".
abbrev of_burst : Request
of_burst = record listing { actor = some "burst:ann" }

abbrev mixed : List (ℕ × Request)
mixed =
    (90000000, of_burst) ∷ (80000000, listing) ∷ (75000000, of_burst) ∷ (70000000, of_burst) ∷ []

three_pass : (serve sets settings "burst:ann" mixed nothing).0 ≡ 90000000 ∷ 75000000 ∷ 70000000 ∷ []
unfolding serve dispatch hit window_key burst_key
three_pass = refl

health_unlimited :
    (dispatch sets settings 5 true (record listing { path = "/healthz" }) nothing).0 ≡ unlimited
unfolding dispatch
health_unlimited = refl

hinted :
    (dispatch sets settings 70000000 true
      (record listing { actor = none; api_key = some "0123456789" })
      nothing).0
    ≡ passed 2 1 130
unfolding dispatch hit window_key burst_key extract_actor_hint
hinted = refl

not_burst : window_key "bob" ≢ burst_key "ann"
unfolding window_key burst_key
not_burst e = let bad : false ≡ true = (eq_iff _ _).1 e in ground arith

not_window : burst_key "bob" ≢ window_key "ann"
unfolding window_key burst_key
not_window e = let bad : false ≡ true = (eq_iff _ _).1 e in ground arith

ann-IsSeparate : (t : ℕ) → IsSeparate "ann" (t, listing)
ann-IsSeparate t b of other =
    let same : ◌≡◌ {A = String} "ann" b = cc of in
    let mine : (b == "ann") ≡ true = (eq_iff b "ann").1 (sym same) in ground arith

bob-IsSeparate : (t : ℕ) → IsSeparate "ann" (t, of_bob)
bob-IsSeparate t b of other =
    let same : ◌≡◌ {A = String} "bob" b = cc of in
    subst (λ x. (window_key x ≢ burst_key "ann") × (burst_key x ≢ window_key "ann")) same
      (not_burst, not_window)

serve-IsBounded_example :
    IsBounded 60000000 2 (serve sets settings "ann" four nothing).0
    × IsBounded 1000000 2 (serve sets settings "ann" four nothing).0
serve-IsBounded_example =
    serve-IsBounded sets settings "ann" refl four nothing (λ t. refl) (λ t. refl) (omega arith)
      (
        ann-IsSeparate 90000000,
        (ann-IsSeparate 80000000, (bob-IsSeparate 80000000, (ann-IsSeparate 70000000, tt))),
      )

limited_alike :
    (limit sets settings 70000000 "ann" (limit sets settings 70000000 "ann" nothing).1).0
    ≡ (limit sets settings 70000000 "ann" nothing).0
limited_alike = limit_again sets settings 70000000 "ann" (omega arith) nothing

abbrev used : Table
used = (serve sets settings "ann" four nothing).1

third_rejected : (limit sets settings 90000000 "ann" used).0 ≡ rejected sustained 3 2 1
unfolding serve dispatch hit window_key burst_key
third_rejected = refl

told_one_second : (limit sets settings 90000000 "ann" used).0 ≡ rejected sustained 3 2 1
told_one_second =
    retry_after_one sets settings 90000000 "ann" (omega arith) used 3 2 1 third_rejected
