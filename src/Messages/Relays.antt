-- ===== src/Messages/Relays.antt =====
-- A message that is relayed on and on (`relay`), and one that is at the limit of hops.
use syndicateclaw.Base.{
  ℕ, suc, ◌+◌, ◌≤◌, ◌<◌, ◌≡◌, refl, ◌∙◌, ap, subst, Bool, false, none, some, List, ◌∷◌, String,
  ◌==◌, string_eq, All, All-In, In, ok, err, runtime_error, arith,
}
use syndicateclaw.Storage.{Sessions}
use syndicateclaw.RateLimit.Sets.{SortedSets}
use syndicateclaw.Messages.Router.{Message, World, mark_row, mark_hop_limit_exceeded}
use syndicateclaw.Messages.Service.{
  Draft, Services, resolve_recipient_id, new_row, send_row, send_resolved, send_to, relay_draft,
  send, relay,
}
use syndicateclaw.Messages.Sent.{IsRow, AreRows, send_row_stopped}
use syndicateclaw.Messages.Hops.{send-IsSent}

module _ (S : Sessions Message (λ m. m.id)) (R : SortedSets) (max_hops : ℕ) where
  -- `m` comes of `k` relays, each of a row that the one before returned, at any time and state and
  -- with ids and answers of the services of its own.
  pub data Relayed (start : Message) : ℕ → Message → Type 0 where
    here : Relayed start 0 start
    next :
        {k : ℕ} {m : Message}
        → Relayed start k m
        → (V : Services) (now : ℕ) (reachable : Bool) (w : World S R) (rows : List Message)
        → (n : Message) → (relay S R max_hops V now reachable m w).0 ≡ ok rows
        → In n rows
        → Relayed start (suc k) n

  relay_rows :
      (V : Services) (now : ℕ) (reachable : Bool) (m : Message) (w : World S R)
      (rows : List Message)
      → (relay S R max_hops V now reachable m w).0 ≡ ok rows
      → All (IsRow S R max_hops m.sender (suc m.hop_count)) rows
  unfolding relay
  relay_rows V now reachable m w rows h =
      subst (AreRows S R max_hops m.sender (suc m.hop_count)) h
        (send-IsSent S R max_hops V now reachable m.sender (relay_draft S R max_hops V m) w).0

  -- Relays count the hops and keep the sender, and end: after any number of them a message that was
  -- below the limit has made as many hops more, and fewer than the limit. The ids that are drawn, the states and what
  -- the other services answer are each relay's own.
  pub relay_chain :
      {start m : Message} {k : ℕ}
      → Relayed start k m
      → start.hop_count < max_hops
      → (m.hop_count ≡ start.hop_count + k)
        × (start.hop_count + k < max_hops)
        × (m.sender ≡ start.sender)
  relay_chain here lt = (omega arith, omega arith, refl)
  relay_chain (next {k} {m} before V now reachable w rows n run there) lt =
      let (hops, under, who) = relay_chain before lt in
      let (who', hops', under') =
        All-In (IsRow S R max_hops m.sender (suc m.hop_count)) rows n
          (relay_rows V now reachable m w rows run) there in
      (omega arith, omega arith, who' ∙ who)

module _ (S : Sessions Message (λ m. m.id)) (R : SortedSets) (max_hops : ℕ) (V : Services) where
  send_known :
      (now : ℕ) (reachable : Bool) (actor : String) (d : Draft) (w : World S R) (name id : String)
      → (d.message_type == "BROADCAST") ≡ false
      → d.recipient ≡ some name
      → resolve_recipient_id V name d.namespace ≡ some id
      → send S R max_hops V now reachable actor d w
        ≡ send_row S R max_hops V now (new_row V 0 now actor d (some id) d.topic) w
  unfolding send
  send_known now reachable actor d w name id one to known =
      rw (one, send)
        (ap (λ r. send_to S R max_hops V now actor d r w) to
          ∙ ap (λ r. send_resolved S R max_hops V now actor d r w) known)

  unmarked :
      (now : ℕ) (m : Message) (w : World S R)
      → S.get m.id w.db ≡ none
      → mark_hop_limit_exceeded S R max_hops now m w ≡ record w {
        events =
            record {
              actor = m.sender;
              resource_id = m.id;
              hop_count = m.hop_count;
              max_hops = max_hops;
            }
            ∷ w.events;
        letters =
            record { message_id = m.id; hop_count = m.hop_count; max_hops = max_hops; at = now }
            ∷ w.letters;
      }
  unfolding mark_hop_limit_exceeded
  unmarked now m w gone = rw (gone, mark_row) refl

  -- A message to one recipient that has made as many hops as are allowed is refused: the table of
  -- messages is as before, so the message is not marked HOP_LIMIT_EXCEEDED but not there at all, while
  -- one audit event and one dead letter name its id. The id that was drawn is new.
  pub hop_limit_unmarked :
      (now : ℕ) (reachable : Bool) (actor : String) (d : Draft) (w : World S R) (name id : String)
      → (d.message_type == "BROADCAST") ≡ false
      → d.recipient ≡ some name
      → resolve_recipient_id V name d.namespace ≡ some id
      → S.get (V.new_id 0) w.db ≡ none
      → max_hops ≤ d.hop_count
      → send S R max_hops V now reachable actor d w ≡ (
        err runtime_error,
        record w {
          events =
              record {
                actor = actor;
                resource_id = V.new_id 0;
                hop_count = d.hop_count;
                max_hops = max_hops;
              }
              ∷ w.events;
          letters =
              record {
                message_id = V.new_id 0;
                hop_count = d.hop_count;
                max_hops = max_hops;
                at = now;
              }
              ∷ w.letters;
        },
      )
  hop_limit_unmarked now reachable actor d w name id one to known fresh over =
      let m = new_row V 0 now actor d (some id) d.topic in
      let (u, added) = S.add_fresh m w.db fresh in
      send_known now reachable actor d w name id one to known
      ∙ send_row_stopped S R max_hops V now m w u added (ground arith)
      ∙ ap (λ x. (err runtime_error, x)) (unmarked now m w fresh)
