-- ===== src/Messages/Sent.antt =====
-- The rows of the messages that `send` returns.
use syndicateclaw.Base.{
  ℕ, ◌<◌, ◌≡◌, refl, sym, ◌∙◌, ap, subst, inl, inr, true, false, none, some, List, [], ◌∷◌, String,
  ◌==◌, string_eq, leb, All, if◌then◌else◌, Error, Result, ok, err, Result-cases, runtime_error,
  arith, Bool-cases, Option-cases,
}
use syndicateclaw.Storage.{Sessions}
use syndicateclaw.RateLimit.Sets.{SortedSets}
use syndicateclaw.Messages.Router.{
  Message, hop_limit_exceeded, mark_row, World, route, mark_hop_limit_exceeded,
}
use syndicateclaw.Messages.Service.{Services, settled, sent_row, next_row, send_row, add_rows}

module _ (S : Sessions Message (λ m. m.id)) (R : SortedSets) (max_hops : ℕ) where
  pub route_passed :
      (now : ℕ) (m : Message) (w : World S R)
      → leb max_hops m.hop_count ≡ false
      → route S R max_hops now m w ≡ (ok m, w)
  unfolding route
  route_passed now m w h = rw (h, route) refl

  pub route_stopped :
      (now : ℕ) (m : Message) (w : World S R)
      → leb max_hops m.hop_count ≡ true
      → route S R max_hops now m w
        ≡ (err runtime_error, mark_hop_limit_exceeded S R max_hops now m w)
  unfolding route
  route_stopped now m w h = rw (h, route) refl

  -- The row is of this actor, and counts the hops that it was sent with, below the limit.
  abbrev pub IsRow : String → ℕ → Message → Type 0
  IsRow actor hops m = (m.sender ≡ actor) × (m.hop_count ≡ hops) × (hops < max_hops)

  abbrev pub AreRows : String → ℕ → Result (List Message) → Type 0
  AreRows actor hops (ok rows) = All (IsRow actor hops) rows
  AreRows actor hops (err e) = Unit

  module _ (V : Services) (now : ℕ) where
    send_row_taken :
        (m : Message) (w : World S R) {e : Error}
        → S.add m w.db ≡ err e
        → send_row S R max_hops V now m w ≡ (err e, w)
    unfolding send_row
    send_row_taken m w h = rw (h, send_row) refl

    pub send_row_stopped :
        (m : Message) (w : World S R) (d : S.Db)
        → S.add m w.db ≡ ok d
        → leb max_hops m.hop_count ≡ true
        → send_row S R max_hops V now m w
          ≡ (err runtime_error, mark_hop_limit_exceeded S R max_hops now m w)
    unfolding send_row
    send_row_stopped m w d h over =
        rw (h, send_row) (ap (sent_row S R max_hops V m d) (route_stopped now m w over))

    pub send_row_passed :
        (m : Message) (w : World S R) (d : S.Db)
        → S.add m w.db ≡ ok d
        → leb max_hops m.hop_count ≡ false
        → send_row S R max_hops V now m w
          ≡ (ok (settled m ∷ []), record w { db = S.merge (settled m) d })
    unfolding send_row
    send_row_passed m w d h under =
        rw (h, send_row) (ap (sent_row S R max_hops V m d) (route_passed now m w under))

    send_row-AreRows :
        (m : Message) (w : World S R)
        → AreRows m.sender m.hop_count (send_row S R max_hops V now m w).0
    send_row-AreRows m w = elim (Result-cases (S.add m w.db)) [
      | inr (e, taken) ↦ rw (send_row_taken m w taken) tt
      | inl (d, added) ↦ elim (Bool-cases (leb max_hops m.hop_count)) [
        | inl over ↦ rw (send_row_stopped m w d added over) tt
        | inr under ↦ rw (send_row_passed m w d added under) ((refl, refl, ground arith), tt)
      ]
    ]

    -- each row of a broadcast, once the router has let it pass
    abbrev AreUnder : List Message → Type 0
    AreUnder = All (λ m. m.hop_count < max_hops)

    add_rows_stopped :
        (m : Message) (ms : List Message) (d d' : S.Db) (w : World S R)
        → S.add m d ≡ ok d'
        → leb max_hops m.hop_count ≡ true
        → add_rows S R max_hops V now (m ∷ ms) d w
          ≡ (err runtime_error, mark_hop_limit_exceeded S R max_hops now m w)
    unfolding add_rows
    add_rows_stopped m ms d d' w h over =
        rw (h, add_rows)
          (ap (next_row S R max_hops V (λ u. add_rows S R max_hops V now ms d' u))
            (route_stopped now m w over))

    add_rows_passed :
        (m : Message) (ms : List Message) (d d' : S.Db) (w : World S R)
        → S.add m d ≡ ok d'
        → leb max_hops m.hop_count ≡ false
        → add_rows S R max_hops V now (m ∷ ms) d w ≡ add_rows S R max_hops V now ms d' w
    unfolding add_rows
    add_rows_passed m ms d d' w h under =
        rw (h, add_rows)
          (ap (next_row S R max_hops V (λ u. add_rows S R max_hops V now ms d' u))
            (route_passed now m w under))

    add_rows_taken :
        (m : Message) (ms : List Message) (d : S.Db) (w : World S R) (e : Error)
        → S.add m d ≡ err e
        → add_rows S R max_hops V now (m ∷ ms) d w ≡ (err e, w)
    unfolding add_rows
    add_rows_taken m ms d w e h = rw (h, add_rows) refl

module _ (S : Sessions Message (λ m. m.id)) (R : SortedSets) (max_hops : ℕ) where
  -- Every stored message has made fewer hops than the limit.
  abbrev pub IsWithin : S.Db → Type 0
  IsWithin d = (id : String) (m : Message) → S.get id d ≡ some m → m.hop_count < max_hops

  pub merge-IsWithin :
      (m : Message) (d : S.Db) → m.hop_count < max_hops → IsWithin d → IsWithin (S.merge m d)
  merge-IsWithin m d under v id n h =
      let put : (if m.id == id then some m else S.get id d) ≡ some n =
        sym (S.get-merge id m d) ∙ h in
      elim (Bool-cases (m.id == id)) [
        | inl t ↦ let e : m ≡ n = ground arith in subst (λ x. x.hop_count < max_hops) e under
        | inr f ↦ v id n (rw f at put)
      ]

  add-IsWithin :
      (m : Message) (d d' : S.Db)
      → S.add m d ≡ ok d'
      → m.hop_count < max_hops
      → IsWithin d
      → IsWithin d'
  add-IsWithin m d d' added under v id n h =
      let put : (if m.id == id then some m else S.get id d) ≡ some n =
        sym (S.get-add id m d added) ∙ h in
      elim (Bool-cases (m.id == id)) [
        | inl t ↦ let e : m ≡ n = ground arith in subst (λ x. x.hop_count < max_hops) e under
        | inr f ↦ v id n (rw f at put)
      ]

  mark_row_gone : (id : String) (d : S.Db) → S.get id d ≡ none → mark_row S R max_hops id d ≡ d
  mark_row_gone id d gone = rw (gone, mark_row) refl

  mark_row_found :
      (id : String) (d : S.Db) (row : Message)
      → S.get id d ≡ some row
      → mark_row S R max_hops id d ≡ S.merge (record row { status = hop_limit_exceeded }) d
  mark_row_found id d row found = rw (found, mark_row) refl

  pub mark-IsWithin :
      (now : ℕ) (m : Message) (w : World S R)
      → IsWithin w.db
      → IsWithin (mark_hop_limit_exceeded S R max_hops now m w).db
  unfolding mark_hop_limit_exceeded
  mark-IsWithin now m w v = elim (Option-cases (S.get m.id w.db)) [
    | inl gone ↦ subst IsWithin (sym (mark_row_gone m.id w.db gone)) v
    | inr (row, found) ↦
        subst IsWithin (sym (mark_row_found m.id w.db row found))
          (merge-IsWithin (record row { status = hop_limit_exceeded }) w.db (v m.id row found) v)
  ]

  -- How a call ends: with such rows if it returns, and within the limit if it was.
  abbrev pub IsSent : String → ℕ → World S R → Result (List Message) × World S R → Type 0
  IsSent actor hops w r = AreRows S R max_hops actor hops r.0 × (IsWithin w.db → IsWithin r.1.db)

  module _ (V : Services) (now : ℕ) where
    pub send_row-IsSent :
        (m : Message) (w : World S R)
        → IsSent m.sender m.hop_count w (send_row S R max_hops V now m w)
    send_row-IsSent m w = elim (Result-cases (S.add m w.db)) [
      | inr (e, taken) ↦
          subst (IsSent m.sender m.hop_count w) (sym (send_row_taken S R max_hops V now m w taken))
            (tt, λ v. v)
      | inl (d, added) ↦ elim (Bool-cases (leb max_hops m.hop_count)) [
        | inl over ↦
            subst (IsSent m.sender m.hop_count w)
              (sym (send_row_stopped S R max_hops V now m w d added over))
              (tt, mark-IsWithin now m w)
        | inr under ↦
            let lt : m.hop_count < max_hops = ground arith in
            subst (IsSent m.sender m.hop_count w)
              (sym (send_row_passed S R max_hops V now m w d added under))
              (
                ((refl, refl, lt), tt),
                λ v. merge-IsWithin (settled m) d lt (add-IsWithin m w.db d added lt v),
              )
      ]
    ]

    -- How the rows of a broadcast are added: all of them, or the session is given up.
    abbrev pub AreAdded : List Message → S.Db → World S R → Result S.Db × World S R → Type 0
    AreAdded ms d w (ok d', u) =
        All (λ m. m.hop_count < max_hops) ms × (IsWithin d → IsWithin d') × (u ≡ w)
    AreAdded ms d w (err e, u) = IsWithin w.db → IsWithin u.db

    later_added :
        (m : Message) (ms : List Message) (d d' : S.Db) (w : World S R)
        → S.add m d ≡ ok d'
        → m.hop_count < max_hops
        → (r : Result S.Db × World S R) → AreAdded ms d' w r
        → AreAdded (m ∷ ms) d w r
    later_added m ms d d' w added lt (ok u, x) (all, v, same) =
        ((lt, all), (λ within. v (add-IsWithin m d d' added lt within)), same)
    later_added m ms d d' w added lt (err e, x) v = v

    pub add_rows-AreAdded :
        (ms : List Message) (d : S.Db) (w : World S R)
        → AreAdded ms d w (add_rows S R max_hops V now ms d w)
    unfolding add_rows
    add_rows-AreAdded [] d w = (tt, (λ v. v), refl)
    add_rows-AreAdded (m ∷ ms) d w = elim (Result-cases (S.add m d)) [
      | inr (e, taken) ↦
          subst (AreAdded (m ∷ ms) d w) (sym (add_rows_taken S R max_hops V now m ms d w e taken))
            (λ v. v)
      | inl (d', added) ↦ elim (Bool-cases (leb max_hops m.hop_count)) [
        | inl over ↦
            subst (AreAdded (m ∷ ms) d w)
              (sym (add_rows_stopped S R max_hops V now m ms d d' w added over))
              (mark-IsWithin now m w)
        | inr under ↦
            subst (AreAdded (m ∷ ms) d w)
              (sym (add_rows_passed S R max_hops V now m ms d d' w added under))
              (later_added m ms d d' w added (ground arith) (add_rows S R max_hops V now ms d' w)
                (add_rows-AreAdded ms d' w))
      ]
    ]
