-- ===== src/Messages/Router.antt =====
-- `AgentMessage` of src/syndicateclaw/db/models.py and `MessageRouter` of
-- src/syndicateclaw/messaging/router.py.
use syndicateclaw.Base.{
  ℕ, Option, none, some, List, ◌∷◌, String, leb, if◌then◌else◌, Result, ok, err, runtime_error,
}
use syndicateclaw.Json.{Fields}
use syndicateclaw.Storage.{Sessions}
use syndicateclaw.RateLimit.Sets.{SortedSets}

pub data MessageStatus : Type 0 where
  pending delivered acked failed hop_limit_exceeded : MessageStatus

pub record Message : Type 0 where
  pub id : String
  pub conversation_id : String
  pub sender : String
  pub recipient : Option String
  pub topic : Option String
  pub message_type : String
  pub content : Fields
  pub metadata : Fields
  pub priority : String
  pub status : MessageStatus
  pub ttl_seconds : ℕ
  pub hop_count : ℕ
  pub parent_message_id : Option String
  pub expires_at : ℕ
  pub delivered_at : Option ℕ
  pub acked_at : Option ℕ
  pub namespace : String

-- The audit event "message.hop_limit_exceeded".
pub record HopEvent : Type 0 where
  pub actor : String
  pub resource_id : String
  pub hop_count : ℕ
  pub max_hops : ℕ

-- The record for the dead letter queue, permanent and pending.
pub record HopLetter : Type 0 where
  pub message_id : String
  pub hop_count : ℕ
  pub max_hops : ℕ
  pub at : ℕ

module _ (S : Sessions Message (λ m. m.id)) (R : SortedSets) where
  -- What is committed: the messages, the audit events and the dead letters, with the newest first;
  -- and the sorted sets of Redis.
  pub record World : Type 0 where
    pub db : S.Db
    pub events : List HopEvent
    pub letters : List HopLetter
    pub sets : R.Store

  module _ (max_hops : ℕ) where
    abbrev pub mark_row : String → S.Db → S.Db
    mark_row id d = elim (S.get id d) [
      | none ↦ d
      | some row ↦ S.merge (record row { status = hop_limit_exceeded }) d
    ]

    -- In a session of its own, which sees what is committed.
    unfoldable pub mark_hop_limit_exceeded : ℕ → Message → World → World
    mark_hop_limit_exceeded now m w = record w {
      db = mark_row m.id w.db;
      events =
          record {
            actor = m.sender;
            resource_id = m.id;
            hop_count = m.hop_count;
            max_hops = max_hops;
          }
          ∷ w.events;
      letters =
          record { message_id = m.id; hop_count = m.hop_count; max_hops = max_hops; at = now }
          ∷ w.letters;
    }

    unfoldable pub route : ℕ → Message → World → Result Message × World
    route now m w =
        if leb max_hops m.hop_count
        then (err runtime_error, mark_hop_limit_exceeded now m w)
        else (ok m, w)
