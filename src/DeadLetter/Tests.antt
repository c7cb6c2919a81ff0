-- ===== src/DeadLetter/Tests.antt =====
-- One dead letter, and a store that takes no event.
use syndicateclaw.Base.{ℕ, suc, ◌-◌, ◌≤◌, ◌≡◌, refl, true, Option, none, some, String, [], ◌∷◌}
use syndicateclaw.Storage.{Sessions}
use syndicateclaw.Storage.ListTable.{list_table}
use syndicateclaw.DeadLetter.Queue.{
  DeadLetter, World, pending, permanent, transient, new_record, resolved_at, classify_error,
  emit_event, retry_row,
}
use syndicateclaw.DeadLetter.Exhaustion.{GivenUp}
use syndicateclaw.DeadLetter.GivesUp.{runs, retries_end}
use syndicateclaw.DeadLetter.Reemission.{emit_event-Refuses, reemitted}

abbrev table : Sessions (DeadLetter String) (λ r. r.id)
table = list_table (λ r. r.id)

abbrev letter : DeadLetter String
letter = record {
  id = "d1";
  event_payload = "created";
  error_message = "timeout";
  error_category = transient;
  status = pending;
  retry_count = 1;
  max_retries = 3;
  last_retry_at = none;
  resolved_at = none;
  resolved_by = none;
}

abbrev world : World table ℕ
world = record { db = letter ∷ []; store = 0 }

abbrev full_disk : String → ℕ → Option String × ℕ
full_disk payload n = (some "disk full", suc n)

abbrev clock : ℕ → ℕ
clock n = n

abbrev same : String → String
same s = s

malformed_is_permanent : classify_error same "malformed event" ≡ permanent
unfolding classify_error
malformed_is_permanent = refl

retries_end_example :
    (j : ℕ) × (j ≤ suc (3 - 1))
    × GivenUp table
        (emit_event table full_disk none "d2")
        "d1"
        (runs table (emit_event table full_disk none "d2") clock j world).db
retries_end_example =
    retries_end table (emit_event table full_disk none "d2")
      (emit_event-Refuses table full_disk "d2" (λ p a. ("disk full", refl))) "d1" clock world letter
      refl refl

reemitted_example :
    ((retry_row table (emit_event table full_disk (some same) "d2") 9 letter world).0 ≡ true)
    × (table.get "d1"
          (retry_row table (emit_event table full_disk (some same) "d2") 9 letter world).1.db
        ≡ some (resolved_at 9 "system:dlq_retry" letter))
    × (table.get "d2"
          (retry_row table (emit_event table full_disk (some same) "d2") 9 letter world).1.db
        ≡ some (new_record same "d2" "created" "disk full"))
reemitted_example =
    reemitted table full_disk same "d2" 9 letter world "disk full" refl refl refl refl
