-- ===== src/Messages/Hops.antt =====
-- The hop counts of the messages that are stored, over any sequence of calls of the service.
use syndicateclaw.Base.{
  ℕ, suc, ◌<◌, ◌≡◌, refl, sym, ap, subst, inl, inr, Bool, true, false, Option, none, some, List, [],
  ◌∷◌, String, ◌==◌, string_eq, ltb, length, All, Result, ok, err, lookup_error, Bool-cases,
  Option-cases,
}
use syndicateclaw.Json.{Fields}
use syndicateclaw.Storage.{Sessions}
use syndicateclaw.RateLimit.Sets.{SortedSets}
use syndicateclaw.Messages.Router.{Message, delivered, failed, World}
use syndicateclaw.Messages.Service.{
  Draft, Services, resolve_recipient_id, new_row, as_delivered, acked_at_time, add_rows,
  deliver_rows, commit_rows, enforce_broadcast_rate_limit, rows_to, send_rows, broadcast_rows,
  broadcast, send_resolved, send_to, send, is_addressee, get_for_actor, ack, reply_draft, reply_to,
  reply, relay_draft, relay, change_row, mark_delivery_failed, mark_delivered,
  mark_response_consumed,
}
use syndicateclaw.Messages.Sent.{
  IsRow, IsWithin, IsSent, merge-IsWithin, send_row-IsSent, AreAdded, add_rows-AreAdded,
}

-- The calls, with what they are given: a time, whether Redis answers, an actor, an id.
pub data Call : Type 0 where
  send_call : ℕ → Bool → String → Draft → Call
  reply_call : ℕ → Bool → String → String → Fields → String → Call
  relay_call : ℕ → Bool → Message → Call
  ack_call : ℕ → String → String → Call
  failed_call : String → Call
  delivered_call : ℕ → String → Call
  consumed_call : ℕ → String → Call

module _ (S : Sessions Message (λ m. m.id)) (R : SortedSets) (max_hops : ℕ) (V : Services) where
  deliver_rows_lem :
      (actor : String) (hops : ℕ) (ms : List Message) (d : S.Db)
      → All (λ m. (m.sender ≡ actor) × (m.hop_count ≡ hops)) ms
      → All (λ m. m.hop_count < max_hops) ms
      → All (IsRow S R max_hops actor hops) (deliver_rows S R max_hops V ms d).0
        × (IsWithin S R max_hops d → IsWithin S R max_hops (deliver_rows S R max_hops V ms d).1)
  unfolding deliver_rows
  deliver_rows_lem actor hops [] d from under = (tt, λ v. v)
  deliver_rows_lem actor hops (m ∷ ms) d ((who, count), from) (lt, under) =
      let (all, keeps) = deliver_rows_lem actor hops ms (S.merge (as_delivered m) d) from under in
      (
        ((who, count, subst (λ n. n < max_hops) count lt), all),
        λ v. keeps (merge-IsWithin S R max_hops (as_delivered m) d lt v),
      )

  rows_to_lem :
      (k now : ℕ) (actor : String) (d : Draft) (subs : List String)
      → All
          (λ m. (m.sender ≡ actor) × (m.hop_count ≡ d.hop_count))
          (rows_to S R max_hops V k now actor d subs)
  rows_to_lem k now actor d [] = tt
  rows_to_lem k now actor d (sub ∷ subs) = ((refl, refl), rows_to_lem (suc k) now actor d subs)

  module _ (now : ℕ) where
    commit-IsSent :
        (actor : String) (hops : ℕ) (ms : List Message) (w : World S R)
        → All (λ m. (m.sender ≡ actor) × (m.hop_count ≡ hops)) ms
        → (r : Result S.Db × World S R) → AreAdded S R max_hops V now ms w.db w r
        → IsSent S R max_hops actor hops w (commit_rows S R max_hops V ms r)
    commit-IsSent actor hops ms w from (err e, u) v = (tt, v)
    commit-IsSent actor hops ms w from (ok d, u) (under, v, same) =
        let (all, keeps) = deliver_rows_lem actor hops ms d from under in
        (all, λ within. keeps (v within))

    send_rows-IsSent :
        (actor : String) (hops : ℕ) (ms : List Message) (w : World S R)
        → All (λ m. (m.sender ≡ actor) × (m.hop_count ≡ hops)) ms
        → IsSent S R max_hops actor hops w (send_rows S R max_hops V now ms w)
    unfolding send_rows
    send_rows-IsSent actor hops ms w from =
        commit-IsSent actor hops ms w from (add_rows S R max_hops V now ms w.db w)
          (add_rows-AreAdded S R max_hops V now ms w.db w)

    broadcast_rows-IsSent :
        (actor : String) (d : Draft) (b : Bool) (w : World S R)
        → IsSent S R max_hops actor d.hop_count w (broadcast_rows S R max_hops V now actor d (b, w))
    unfolding broadcast_rows
    broadcast_rows-IsSent actor d false w = (tt, λ v. v)
    broadcast_rows-IsSent actor d true w =
        let subs = V.get_subscribers "__broadcast__" d.namespace in
        let rows = rows_to S R max_hops V 0 now actor d subs in
        elim (Bool-cases (ltb 50 (length subs))) [
          | inl many ↦ rw many (tt, λ v. v)
          | inr few ↦
              rw few (send_rows-IsSent actor d.hop_count rows w (rows_to_lem 0 now actor d subs))
        ]

    limited_db :
        (reachable : Bool) (actor : String) (w : World S R)
        → (enforce_broadcast_rate_limit S R max_hops V now reachable actor w).1.db ≡ w.db
    unfolding enforce_broadcast_rate_limit
    limited_db true actor w = refl
    limited_db false actor w = refl

    broadcast-IsSent :
        (reachable : Bool) (actor : String) (d : Draft) (w : World S R)
        → IsSent S R max_hops actor d.hop_count w (broadcast S R max_hops V now reachable actor d w)
    unfolding broadcast
    broadcast-IsSent reachable actor d w =
        let (b, u) = enforce_broadcast_rate_limit S R max_hops V now reachable actor w in
        elim (Bool-cases (V.has_permission actor "message:broadcast")) [
          | inr no_permission ↦ rw no_permission (tt, λ v. v)
          | inl may ↦
              let (rows, keeps) = broadcast_rows-IsSent actor d b u in
              rw may (
                rows,
                λ v. keeps (subst (IsWithin S R max_hops) (sym (limited_db reachable actor w)) v),
              )
        ]

    resolved-IsSent :
        (actor : String) (d : Draft) (id : Option String) (w : World S R)
        → IsSent S R max_hops actor d.hop_count w (send_resolved S R max_hops V now actor d id w)
    resolved-IsSent actor d none w = (tt, λ v. v)
    resolved-IsSent actor d (some id) w =
        send_row-IsSent S R max_hops V now (new_row V 0 now actor d (some id) d.topic) w

    send_to-IsSent :
        (actor : String) (d : Draft) (recipient : Option String) (w : World S R)
        → IsSent S R max_hops actor d.hop_count w (send_to S R max_hops V now actor d recipient w)
    send_to-IsSent actor d none w =
        send_row-IsSent S R max_hops V now (new_row V 0 now actor d none d.topic) w
    send_to-IsSent actor d (some name) w =
        resolved-IsSent actor d (resolve_recipient_id V name d.namespace) w

    -- A call of `send` that returns gives rows of the actor, with the hop count that it was given and
    -- below the limit; and however it ends, the stored messages stay below the limit.
    pub send-IsSent :
        (reachable : Bool) (actor : String) (d : Draft) (w : World S R)
        → IsSent S R max_hops actor d.hop_count w (send S R max_hops V now reachable actor d w)
    unfolding send
    send-IsSent reachable actor d w = elim (Bool-cases (d.message_type == "BROADCAST")) [
      | inl all ↦ rw all (broadcast-IsSent reachable actor d w)
      | inr one ↦ rw one (send_to-IsSent actor d d.recipient w)
    ]

  unfoldable pub run_call : Call → World S R → World S R
  run_call (send_call now up actor d) w = (send S R max_hops V now up actor d w).1
  run_call (reply_call now up actor id content kind) w =
      (reply S R max_hops V now up actor id content kind w).1
  run_call (relay_call now up m) w = (relay S R max_hops V now up m w).1
  run_call (ack_call now actor id) w = (ack S R max_hops V now actor id w).1
  run_call (failed_call id) w = mark_delivery_failed S R max_hops V id w
  run_call (delivered_call now id) w = mark_delivered S R max_hops V now id w
  run_call (consumed_call now id) w = mark_response_consumed S R max_hops V now id w

  change_row_gone :
      (f : Message → Message) (id : String) (w : World S R)
      → S.get id w.db ≡ none
      → w ≡ change_row S R max_hops V f id w
  unfolding change_row
  change_row_gone f id w gone = rw (gone, change_row) refl

  change_row_found :
      (f : Message → Message) (id : String) (w : World S R) (m : Message)
      → S.get id w.db ≡ some m
      → record w { db = S.merge (f m) w.db } ≡ change_row S R max_hops V f id w
  unfolding change_row
  change_row_found f id w m found = rw (found, change_row) refl

  ack_gone :
      (now : ℕ) (actor id : String) (w : World S R)
      → S.get id w.db ≡ none
      → (err lookup_error, w) ≡ ack S R max_hops V now actor id w
  unfolding ack
  ack_gone now actor id w gone = rw (gone, ack) refl

  ack_mine :
      (now : ℕ) (actor id : String) (w : World S R) (m : Message)
      → S.get id w.db ≡ some m
      → is_addressee S R max_hops V actor m ≡ true
      → (
        ok (acked_at_time S R max_hops V now m),
        record w { db = S.merge (acked_at_time S R max_hops V now m) w.db },
      )
        ≡ ack S R max_hops V now actor id w
  unfolding ack
  ack_mine now actor id w m found mine = rw (found, ack) (rw mine refl)

  ack_other :
      (now : ℕ) (actor id : String) (w : World S R) (m : Message)
      → S.get id w.db ≡ some m
      → is_addressee S R max_hops V actor m ≡ false
      → (err lookup_error, w) ≡ ack S R max_hops V now actor id w
  unfolding ack
  ack_other now actor id w m found other = rw (found, ack) (rw other refl)

  reply-IsWithin :
      (now : ℕ) (up : Bool) (actor : String) (content : Fields) (kind : String) (r : Result Message)
      (w : World S R)
      → IsWithin S R max_hops w.db
      → IsWithin S R max_hops (reply_to S R max_hops V now up actor content kind r w).1.db
  reply-IsWithin now up actor content kind (err e) w v = v
  reply-IsWithin now up actor content kind (ok m) w v =
      (send-IsSent now up actor (reply_draft S R max_hops V m content kind) w).1 v

  change_row-IsWithin :
      (f : Message → Message)
      → ((m : Message) → (f m).hop_count ≡ m.hop_count)
      → (id : String) (w : World S R) → IsWithin S R max_hops w.db
      → IsWithin S R max_hops (change_row S R max_hops V f id w).db
  unfolding change_row
  change_row-IsWithin f same id w v = elim (Option-cases (S.get id w.db)) [
    | inl gone ↦ subst (IsWithin S R max_hops) (ap (λ u. u.db) (change_row_gone f id w gone)) v
    | inr (m, found) ↦
        subst (IsWithin S R max_hops) (ap (λ u. u.db) (change_row_found f id w m found)) (
          merge-IsWithin S R max_hops (f m) w.db
            (subst (λ n. n < max_hops) (sym (same m)) (v id m found)) v)
  ]

  ack-IsWithin :
      (now : ℕ) (actor id : String) (w : World S R)
      → IsWithin S R max_hops w.db
      → IsWithin S R max_hops (ack S R max_hops V now actor id w).1.db
  ack-IsWithin now actor id w v = elim (Option-cases (S.get id w.db)) [
    | inl gone ↦ subst (IsWithin S R max_hops) (ap (λ p. p.1.db) (ack_gone now actor id w gone)) v
    | inr (m, found) ↦ elim (Bool-cases (is_addressee S R max_hops V actor m)) [
      | inl mine ↦
          subst (IsWithin S R max_hops) (ap (λ p. p.1.db) (ack_mine now actor id w m found mine))
            (merge-IsWithin S R max_hops (acked_at_time S R max_hops V now m) w.db (v id m found) v)
      | inr other ↦
          subst (IsWithin S R max_hops) (ap (λ p. p.1.db) (ack_other now actor id w m found other))
            v
    ]
  ]

  call-IsWithin :
      (c : Call) (w : World S R)
      → IsWithin S R max_hops w.db
      → IsWithin S R max_hops (run_call c w).db
  unfolding run_call reply relay
  call-IsWithin (send_call now up actor d) w v = (send-IsSent now up actor d w).1 v
  call-IsWithin (reply_call now up actor id content kind) w v =
      reply-IsWithin now up actor content kind (get_for_actor S R max_hops V actor id w) w v
  call-IsWithin (relay_call now up m) w v =
      (send-IsSent now up m.sender (relay_draft S R max_hops V m) w).1 v
  call-IsWithin (ack_call now actor id) w v = ack-IsWithin now actor id w v
  call-IsWithin (failed_call id) w v =
      change_row-IsWithin (λ m. record m { status = failed }) (λ m. refl) id w v
  call-IsWithin (delivered_call now id) w v =
      change_row-IsWithin (λ m. record m { status = delivered; delivered_at = some now })
        (λ m. refl) id w v
  call-IsWithin (consumed_call now id) w v =
      change_row-IsWithin (acked_at_time S R max_hops V now) (λ m. refl) id w v

module _ (S : Sessions Message (λ m. m.id)) (R : SortedSets) (max_hops : ℕ) where
  -- Each call is run with what the services answer and the ids that are drawn in it.
  unfoldable pub run_calls : List (Services × Call) → World S R → World S R
  unfolding run_call
  run_calls [] w = w
  run_calls ((V, c) ∷ cs) w = run_calls cs (run_call S R max_hops V c w)

  -- Over any sequence of calls, with whatever arguments, and whatever ids are drawn and other
  -- services answer in each of them, every stored message has made fewer hops than the limit, if
  -- that held before.
  pub run_calls-IsWithin :
      (cs : List (Services × Call)) (w : World S R)
      → IsWithin S R max_hops w.db
      → IsWithin S R max_hops (run_calls cs w).db
  unfolding run_calls
  run_calls-IsWithin [] w v = v
  run_calls-IsWithin ((V, c) ∷ cs) w v =
      run_calls-IsWithin cs (run_call S R max_hops V c w) (call-IsWithin S R max_hops V c w v)
