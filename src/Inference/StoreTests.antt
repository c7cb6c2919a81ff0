-- ===== src/Inference/StoreTests.antt =====
-- The idempotency store on one key.
use syndicateclaw.Base.{
  ℕ, String, ◌≡◌, refl, true, false, List, [], ◌∷◌, ◌==◌, string_eq, err, ok, conflict_error,
}
use syndicateclaw.Json.{empty}
use syndicateclaw.Inference.Idempotency.{Envelope, acquire, insert_or_get, new_envelope}
use syndicateclaw.Inference.Binding.{Op, executes, completes, acquires, run}
use syndicateclaw.Inference.Once.{acquired_once}
use syndicateclaw.Inference.Polling.{Working}

abbrev first_rows : List Envelope
first_rows = (acquire 300 "k" "h" "i1" 10 []).1

abbrev ops : List Op
ops = executes "i1" 20 ∷ acquires "other" "h" "i2" 30 ∷ completes "i1" empty 40 ∷ []

acquired_once_example :
    ((e' : Envelope) × ((acquire 300 "k" "h" "i3" 50 (run 300 ops first_rows)).0 ≡ ok (e', false))
      × (e'.inference_id ≡ "i1"))
    × ((hash' : String)
        → ("h" == hash') ≡ false
        → acquire 300 "k" hash' "i3" 50 (run 300 ops first_rows)
          ≡ (err conflict_error, run 300 ops first_rows))
unfolding acquire insert_or_get
acquired_once_example =
    acquired_once 300 "k" "h" "i1" 10 [] {e = new_envelope "k" "h" "i1" 10} {b = true} refl ops "i3"
      50

abbrev waiting : List Envelope
waiting = new_envelope "k" "h" "i1" 10 ∷ []

abbrev times : List ℕ
times = 200 ∷ 450 ∷ 700 ∷ []

waiting-Working : Working "k" "h" 10 waiting
waiting-Working = record {
  row = new_envelope "k" "h" "i1" 10;
  found = refl;
  has_hash = refl;
  going = refl;
  written = refl;
}
