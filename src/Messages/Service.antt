-- ===== src/Messages/Service.antt =====
-- `MessageService` of src/syndicateclaw/services/message_service.py. BroadcastPermissionDeniedError
-- is a permission error here, BroadcastCapExceededError a value error, HopLimitExceededError a
-- runtime error, and a message or an agent that is not found a lookup error.
use syndicateclaw.Base.{
  ℕ, suc, ◌+◌, ◌*◌, Bool, true, false, not, ◌&&◌, ◌||◌, Option, none, some, List, [], ◌∷◌, String,
  ◌==◌, string_eq, nat_beq, length, ltb, if◌then◌else◌, Result, ok, err, permission_error,
  value_error, lookup_error,
}
use syndicateclaw.Text.{concat, size}
use syndicateclaw.Json.{Value, text, Fields, field, empty, find_field}
use syndicateclaw.Storage.{Sessions}
use syndicateclaw.RateLimit.Sets.{SortedSets, hit}
use syndicateclaw.Messages.Router.{Message, pending, delivered, acked, failed, World, route}

-- the arguments of `send` after the actor; the sender that a client names is only logged
pub record Draft : Type 0 where
  pub namespace : String
  pub message_type : String
  pub content : Fields
  pub recipient : Option String
  pub topic : Option String
  pub priority : String
  pub ttl_seconds : ℕ
  pub conversation_id : Option String
  pub hop_count : ℕ
  pub parent_message_id : Option String

-- What the service is given in a call: the evaluator's answer for the platform scope, the agents by
-- name and the subscribers of a topic from the services for agents and subscriptions, `str.isalnum`,
-- `str.upper`, `str`, and the ids that are drawn for the rows that the call adds, from 0 in their
-- order. Another call is given others: a new ULID is drawn for each row.
pub record Services : Type 0 where
  pub has_permission : String → String → Bool
  pub get_by_name : String → String → Option String
  pub get_subscribers : String → String → List String
  pub isalnum : String → Bool
  pub upper : String → String
  pub str : Value → String
  pub new_id : ℕ → String

abbrev pub or_blank : Option String → String
or_blank none = ""
or_blank (some s) = s

abbrev pub is_some_text : Option String → Bool
is_some_text none = false
is_some_text (some s) = not (s == "")

abbrev pub broadcast_key : String → String
broadcast_key actor = concat "syndicateclaw:message:broadcast:" actor

module _ (V : Services) where
  unfoldable pub resolve_recipient_id : String → String → Option String
  resolve_recipient_id recipient namespace =
      if nat_beq (size recipient) 26 && (V.isalnum recipient && V.upper recipient == recipient)
      then some recipient
      else V.get_by_name recipient namespace

  abbrev pub new_row : ℕ → ℕ → String → Draft → Option String → Option String → Message
  new_row k now actor d recipient topic = record {
    id = V.new_id k;
    conversation_id = or_blank d.conversation_id;
    sender = actor;
    recipient = recipient;
    topic = topic;
    message_type = d.message_type;
    content = d.content;
    metadata = field "namespace" (text d.namespace) empty;
    priority = d.priority;
    status = pending;
    ttl_seconds = d.ttl_seconds;
    hop_count = d.hop_count;
    parent_message_id = d.parent_message_id;
    expires_at = now + d.ttl_seconds * 1000000;
    delivered_at = none;
    acked_at = none;
    namespace = d.namespace;
  }

-- `row.status = "DELIVERED" if recipient_id or topic else "PENDING"`
abbrev pub settled : Message → Message
settled m = record m {
  status = if is_some_text m.recipient || is_some_text m.topic then delivered else pending;
}

abbrev pub as_delivered : Message → Message
as_delivered m = record m { status = delivered }

module _ (S : Sessions Message (λ m. m.id)) (R : SortedSets) (max_hops : ℕ) (V : Services) where
  -- what follows the router, in a session that holds `d`
  abbrev pub sent_row :
      Message → S.Db → Result Message × World S R → Result (List Message) × World S R
  sent_row m d (err e, w) = (err e, w)
  sent_row m d (ok _, w) = (ok (settled m ∷ []), record w { db = S.merge (settled m) d })

  -- The block of one row. The router works on what is committed.
  unfoldable pub send_row : ℕ → Message → World S R → Result (List Message) × World S R
  send_row now m w = elim (S.add m w.db) [
    | err e ↦ (err e, w)
    | ok d ↦ sent_row m d (route S R max_hops now m w)
  ]

  -- the next row, if the router did not raise
  abbrev pub next_row :
      (World S R → Result S.Db × World S R) → Result Message × World S R → Result S.Db × World S R
  next_row rest (err e, w) = (err e, w)
  next_row rest (ok _, w) = rest w

  -- The rows of a broadcast, in the session `d`.
  unfoldable pub add_rows : ℕ → List Message → S.Db → World S R → Result S.Db × World S R
  add_rows now [] d w = (ok d, w)
  add_rows now (m ∷ ms) d w = elim (S.add m d) [
    | err e ↦ (err e, w)
    | ok d' ↦ next_row (λ u. add_rows now ms d' u) (route S R max_hops now m w)
  ]

  unfoldable pub deliver_rows : List Message → S.Db → List Message × S.Db
  deliver_rows [] d = ([], d)
  deliver_rows (m ∷ ms) d =
      let (rows, d') = deliver_rows ms (S.merge (as_delivered m) d) in (as_delivered m ∷ rows, d')

  -- More than 10 in 60 seconds are refused. Where no Redis is configured (`reachable` is false),
  -- nothing is counted; one that is configured answers.
  unfoldable pub enforce_broadcast_rate_limit : ℕ → Bool → String → World S R → Bool × World S R
  enforce_broadcast_rate_limit now reachable actor w =
      if reachable
      then (let (count, s) = hit R now (broadcast_key actor) 60000000 61000000 w.sets in
          (not (ltb 10 count), record w { sets = s }))
      else (true, w)

  -- the rows of a broadcast, the first of them with the id that is drawn at `k`
  abbrev pub rows_to : ℕ → ℕ → String → Draft → List String → List Message
  rows_to k now actor d [] = []
  rows_to k now actor d (sub ∷ subs) =
      new_row V k now actor d (some sub) (some "__broadcast__") ∷ rows_to (suc k) now actor d subs

  abbrev pub commit_rows :
      List Message → Result S.Db × World S R → Result (List Message) × World S R
  commit_rows ms (err e, w) = (err e, w)
  commit_rows ms (ok d, w) = (ok (deliver_rows ms d).0, record w { db = (deliver_rows ms d).1 })

  unfoldable pub send_rows : ℕ → List Message → World S R → Result (List Message) × World S R
  send_rows now ms w = commit_rows ms (add_rows now ms w.db w)

  -- what follows the rate limit
  unfoldable pub broadcast_rows :
      ℕ → String → Draft → Bool × World S R → Result (List Message) × World S R
  broadcast_rows now actor d (false, w) = (err permission_error, w)
  broadcast_rows now actor d (true, w) =
      let subscribers = V.get_subscribers "__broadcast__" d.namespace in
      if ltb 50 (length subscribers)
      then (err value_error, w)
      else send_rows now (rows_to 0 now actor d subscribers) w

  unfoldable pub broadcast :
      ℕ → Bool → String → Draft → World S R → Result (List Message) × World S R
  unfolding enforce_broadcast_rate_limit broadcast_rows
  broadcast now reachable actor d w =
      if not (V.has_permission actor "message:broadcast")
      then (err permission_error, w)
      else broadcast_rows now actor d (enforce_broadcast_rate_limit now reachable actor w)

  -- the row to a recipient that was resolved or was not found
  abbrev pub send_resolved :
      ℕ → String → Draft → Option String → World S R → Result (List Message) × World S R
  send_resolved now actor d none w = (err lookup_error, w)
  send_resolved now actor d (some id) w = send_row now (new_row V 0 now actor d (some id) d.topic) w

  abbrev pub send_to :
      ℕ → String → Draft → Option String → World S R → Result (List Message) × World S R
  send_to now actor d none w = send_row now (new_row V 0 now actor d none d.topic) w
  send_to now actor d (some name) w =
      send_resolved now actor d (resolve_recipient_id V name d.namespace) w

  unfoldable pub send : ℕ → Bool → String → Draft → World S R → Result (List Message) × World S R
  send now reachable actor d w =
      if d.message_type == "BROADCAST"
      then broadcast now reachable actor d w
      else send_to now actor d d.recipient w

  abbrev pub is_addressee : String → Message → Bool
  is_addressee actor m = elim m.recipient [ none ↦ false | some r ↦ r == actor ]

  unfoldable pub get_for_actor : String → String → World S R → Result Message
  get_for_actor actor id w = elim (S.get id w.db) [
    | none ↦ err lookup_error
    | some m ↦ if (m.sender == actor) || is_addressee actor m then ok m else err lookup_error
  ]

  abbrev pub acked_at_time : ℕ → Message → Message
  acked_at_time now m = record m { status = acked; acked_at = some now }

  unfoldable pub ack : ℕ → String → String → World S R → Result Message × World S R
  ack now actor id w = elim (S.get id w.db) [
    | none ↦ (err lookup_error, w)
    | some m ↦
        if is_addressee actor m
        then (ok (acked_at_time now m), record w { db = S.merge (acked_at_time now m) w.db })
        else (err lookup_error, w)
  ]

  abbrev pub namespace_of : Message → String
  namespace_of m = elim (find_field "namespace" m.metadata) [ none ↦ "default" | some v ↦ V.str v ]

  abbrev pub reply_draft : Message → Fields → String → Draft
  reply_draft parent content message_type = record {
    namespace = namespace_of parent;
    message_type = message_type;
    content = content;
    recipient = some parent.sender;
    topic = none;
    priority = "NORMAL";
    ttl_seconds = 3600;
    conversation_id = some parent.conversation_id;
    hop_count = suc parent.hop_count;
    parent_message_id = some parent.id;
  }

  -- the reply to what `get_for_actor` gave
  abbrev pub reply_to :
      ℕ
      → Bool
      → String
      → Fields
      → String
      → Result Message
      → World S R
      → Result (List Message) × World S R
  reply_to now reachable actor content message_type (err e) w = (err e, w)
  reply_to now reachable actor content message_type (ok parent) w =
      send now reachable actor (reply_draft parent content message_type) w

  unfoldable pub reply :
      ℕ → Bool → String → String → Fields → String → World S R → Result (List Message) × World S R
  reply now reachable actor id content message_type w =
      reply_to now reachable actor content message_type (get_for_actor actor id w) w

  abbrev pub relay_draft : Message → Draft
  relay_draft m = record {
    namespace = namespace_of m;
    message_type = m.message_type;
    content = m.content;
    recipient = m.recipient;
    topic = m.topic;
    priority = m.priority;
    ttl_seconds = m.ttl_seconds;
    conversation_id = some m.conversation_id;
    hop_count = suc m.hop_count;
    parent_message_id = some m.id;
  }

  unfoldable pub relay : ℕ → Bool → Message → World S R → Result (List Message) × World S R
  relay now reachable m w = send now reachable m.sender (relay_draft m) w

  -- `mark_delivery_failed`, `mark_delivered` and `mark_response_consumed`: a missing row is let be
  unfoldable pub change_row : (Message → Message) → String → World S R → World S R
  change_row f id w = elim (S.get id w.db) [
    | none ↦ w
    | some m ↦ record w { db = S.merge (f m) w.db }
  ]

  abbrev pub mark_delivery_failed : String → World S R → World S R
  mark_delivery_failed = change_row (λ m. record m { status = failed })

  abbrev pub mark_delivered : ℕ → String → World S R → World S R
  mark_delivered now = change_row (λ m. record m { status = delivered; delivered_at = some now })

  abbrev pub mark_response_consumed : ℕ → String → World S R → World S R
  mark_response_consumed now = change_row (acked_at_time now)
