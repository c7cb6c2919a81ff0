-- ===== src/Messages/Tests.antt =====
-- Two agents, and messages between them with at most 3 hops.
use syndicateclaw.Base.{
  ◌+◌, ◌<◌, ◌≡◌, refl, true, Option, none, some, List, [], ℕ, nat_beq, ◌∷◌, String, ◌==◌, string_eq,
  ok, err, runtime_error, permission_error, inl, arith, if◌then◌else◌, ◌||◌,
}
use syndicateclaw.Text.{concat}
use syndicateclaw.Json.{Value, text, empty}
use syndicateclaw.Storage.{Sessions}
use syndicateclaw.Storage.ListTable.{list_table}
use syndicateclaw.RateLimit.TableSets.{sets, nothing}
use syndicateclaw.Messages.Router.{Message, delivered, World, route}
use syndicateclaw.Messages.Service.{
  Draft, Services, resolve_recipient_id, new_row, send_row, broadcast, send, relay, ack,
}
use syndicateclaw.Messages.Sent.{IsWithin}
use syndicateclaw.Messages.Hops.{
  Call, send_call, ack_call, relay_call, run_call, run_calls, run_calls-IsWithin,
}
use syndicateclaw.Messages.Relays.{here, next, relay_chain, hop_limit_unmarked}

abbrev table : Sessions Message (λ m. m.id)
table = list_table (λ m. m.id)

abbrev text_of : Value → String
text_of (text s) = s
text_of _ = ""

abbrev agent_named : String → String → Option String
agent_named name namespace = if (name == "b") || (name == "agent-b") then some "agent-b" else none

-- what the services answer, with the id of the row that a call adds
abbrev services : String → Services
services id = record {
  has_permission = λ actor permission. actor == "ann";
  get_by_name = agent_named;
  get_subscribers = λ topic namespace. "agent-b" ∷ "agent-c" ∷ [];
  isalnum = λ s. true;
  upper = λ s. s;
  str = text_of;
  new_id = λ k. if nat_beq k 0 then id else concat id "+";
}

abbrev start : World table sets
start = record { db = []; events = []; letters = []; sets = nothing }

abbrev hello : Draft
hello = record {
  namespace = "n";
  message_type = "REQUEST";
  content = empty;
  recipient = some "b";
  topic = none;
  priority = "NORMAL";
  ttl_seconds = 60;
  conversation_id = none;
  hop_count = 0;
  parent_message_id = none;
}

abbrev tired : Draft
tired = record hello { hop_count = 3 }

abbrev first : Message
first = record (new_row (services "m1") 0 5 "ann" hello (some "agent-b") none) {
  status = delivered;
}

hello_sent : (send table sets 3 (services "m1") 5 true "ann" hello start).0 ≡ ok (first ∷ [])
unfolding send send_row resolve_recipient_id route
hello_sent = refl

bob_may_not_broadcast :
    (send table sets 3
      (services "m1")
      5
      true
      "bob"
      (record hello { message_type = "BROADCAST" })
      start).0
    ≡ err permission_error
unfolding send broadcast
bob_may_not_broadcast = refl

-- where the message is stored
abbrev held : World table sets
held = record start { db = first ∷ [] }

abbrev relayed : Message
relayed = record first {
  id = "m2";
  hop_count = 1;
  expires_at = 60000007;
  parent_message_id = some "m1";
}

first_relayed : (relay table sets 3 (services "m2") 7 true first held).0 ≡ ok (relayed ∷ [])
unfolding relay send send_row resolve_recipient_id route
first_relayed = refl

abbrev both : World table sets
both = record start { db = relayed ∷ first ∷ [] }

abbrev relayed_again : Message
relayed_again = record relayed {
  id = "m3";
  hop_count = 2;
  expires_at = 60000008;
  parent_message_id = some "m2";
}

second_relayed :
    (relay table sets 3 (services "m3") 8 true relayed both).0 ≡ ok (relayed_again ∷ [])
unfolding relay send send_row resolve_recipient_id route
second_relayed = refl

relay_chain_example :
    ((relayed_again.hop_count ≡ 0 + 2) × (0 + 2 < 3) × (relayed_again.sender ≡ "ann"))
relay_chain_example =
    relay_chain table sets 3
      (next (next here (services "m2") 7 true held (relayed ∷ []) relayed first_relayed (inl refl))
        (services "m3") 8 true both (relayed_again ∷ []) relayed_again second_relayed (inl refl))
      (omega arith)

abbrev calls : List (Services × Call)
calls =
    (services "m1", send_call 5 true "ann" hello)
    ∷ (services "m2", send_call 6 true "ann" hello)
    ∷ (services "m3", ack_call 6 "agent-b" "m1")
    ∷ (services "m4", relay_call 7 true first)
    ∷ []

abbrev hops_at : String → World table sets → Option ℕ
hops_at id w = elim (table.get id w.db) [ none ↦ none | some m ↦ some m.hop_count ]

second_sent : hops_at "m2" (run_calls table sets 3 calls start) ≡ some 0
unfolding run_calls run_call send send_row resolve_recipient_id route relay ack
second_sent = refl

relay_stored : hops_at "m4" (run_calls table sets 3 calls start) ≡ some 1
unfolding run_calls run_call send send_row resolve_recipient_id route relay ack
relay_stored = refl

run_calls-IsWithin_example : IsWithin table sets 3 (run_calls table sets 3 calls start).db
run_calls-IsWithin_example = run_calls-IsWithin table sets 3 calls start (λ id m h. ground arith)

b_known : resolve_recipient_id (services "m1") "b" "n" ≡ some "agent-b"
unfolding resolve_recipient_id
b_known = refl

hop_limit_unmarked_example : send table sets 3 (services "m1") 5 true "ann" tired start ≡ (
  err runtime_error,
  record start {
    events = record { actor = "ann"; resource_id = "m1"; hop_count = 3; max_hops = 3 } ∷ [];
    letters = record { message_id = "m1"; hop_count = 3; max_hops = 3; at = 5 } ∷ [];
  },
)
hop_limit_unmarked_example =
    hop_limit_unmarked table sets 3 (services "m1") 5 true "ann" tired start "b" "agent-b" refl refl
      b_known refl (omega arith)
