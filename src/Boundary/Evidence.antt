-- ===== src/Boundary/Evidence.antt =====
-- What a verified chain shows.
use syndicateclaw.Base.{
  ℕ, ◌≡◌, refl, sym, true, List, [], ◌∷◌, ◌++◌, length, arith, inl, inr, Bool-cases, ◌∙◌,
}
use syndicateclaw.Boundary.Chain.{
  Hashing, Entry, same_hash, last_hash, next_entry, AppendOnly, append, verify_from, verify,
}

module _ {E : Type 0} (K : Hashing E) where
  same_hash_refl : (a : K.H) → same_hash K a a ≡ true
  same_hash_refl a = (K.hash_eq.eqb_iff a a).1 refl

  -- A record that the loop accepts behind `prev`.
  pub record Linked (prev : K.H) (r : Entry K) : Type 0 where
    pub hashed : K.digest prev r.event r.sequence ≡ r.event_hash
    pub behind : r.previous_hash ≡ prev

  verify_from-step :
      (prev : K.H) (r : Entry K) (rs : List (Entry K))
      → verify_from K prev (r ∷ rs) ≡ true
      → Linked prev r × (verify_from K r.event_hash rs ≡ true)
  unfolding verify_from
  verify_from-step prev r rs h =
      let a : same_hash K (K.digest prev r.event r.sequence) r.event_hash ≡ true = ground arith in
      let b : same_hash K r.previous_hash prev ≡ true = ground arith in
      (
        record { hashed = (K.hash_eq.eqb_iff _ _).0 a; behind = (K.hash_eq.eqb_iff _ _).0 b },
        ground arith,
      )

  verify_from-Linked :
      (prev : K.H) (r : Entry K) (rs : List (Entry K))
      → Linked prev r
      → verify_from K prev (r ∷ rs) ≡ verify_from K r.event_hash rs
  unfolding verify_from
  verify_from-Linked prev r rs l =
      let a = (K.hash_eq.eqb_iff (K.digest prev r.event r.sequence) r.event_hash).1 l.hashed in
      let b = (K.hash_eq.eqb_iff r.previous_hash prev).1 l.behind in rw (a, verify_from) (rw b refl)

  -- appending a record that is linked to the last one
  verify_from-append :
      (prev : K.H) (rs : List (Entry K)) (r : Entry K)
      → verify_from K prev rs ≡ true
      → Linked (last_hash K prev rs) r
      → verify_from K prev (rs ++ r ∷ []) ≡ true
  unfolding last_hash verify_from
  verify_from-append prev [] r h l = verify_from-Linked prev r [] l
  verify_from-append prev (x ∷ xs) r h l =
      let (lx, rest) = verify_from-step prev x xs h in
      verify_from-Linked prev x (xs ++ r ∷ []) lx ∙ verify_from-append x.event_hash xs r rest l

  next_entry-Linked :
      (event : E) (rs : List (Entry K)) → Linked (last_hash K K.genesis rs) (next_entry K event rs)
  next_entry-Linked event rs = record { hashed = refl; behind = refl }

  pub verify_from-next :
      (event : E) (rs : List (Entry K))
      → verify_from K K.genesis rs ≡ true
      → verify_from K K.genesis (rs ++ next_entry K event rs ∷ []) ≡ true
  verify_from-next event rs h =
      verify_from-append K.genesis rs (next_entry K event rs) h (next_entry-Linked event rs)

  -- A chain that verifies still verifies after `append`, whether or not the store is available.
  pub verify-append :
      (event : E) (c : AppendOnly K) → verify K c ≡ true → verify K (append K event c).1 ≡ true
  unfolding append verify
  verify-append event c h = elim (Bool-cases c.fail) [
    | inl f ↦ rw (f, append) h
    | inr f ↦ rw (f, append) (verify_from-next event c.records h)
  ]

  -- No two records have one hash.
  pub record CollisionFree : Type 0 where
    pub separates :
        (p q : K.H) (e f : E) (m n : ℕ)
        → K.digest p e m ≡ K.digest q f n
        → (p ≡ q) × (e ≡ f) × (m ≡ n)

  entry_ext :
      (x y : Entry K)
      → x.event ≡ y.event
      → x.sequence ≡ y.sequence
      → x.previous_hash ≡ y.previous_hash
      → x.event_hash ≡ y.event_hash
      → x ≡ y
  entry_ext x y a b c d =
      λ i. record { event = a i; sequence = b i; previous_hash = c i; event_hash = d i }

  pinned_from :
      CollisionFree
      → (p q : K.H) (xs ys : List (Entry K)) → length xs ≡ length ys
      → verify_from K p xs ≡ true
      → verify_from K q ys ≡ true
      → last_hash K p xs ≡ last_hash K q ys
      → (p ≡ q) × (xs ≡ ys)
  unfolding last_hash
  pinned_from free p q [] [] n v w h = (h, refl)
  pinned_from free p q [] (y ∷ ys) n v w h = ground arith
  pinned_from free p q (x ∷ xs) [] n v w h = ground arith
  pinned_from free p q (x ∷ xs) (y ∷ ys) n v w h =
      let (lx, vx) = verify_from-step p x xs v in
      let (ly, vy) = verify_from-step q y ys w in
      let (heads, tails) =
        pinned_from free x.event_hash y.event_hash xs ys (ground arith) vx vy h in
      let (a, b, c) =
        free.separates p q x.event y.event x.sequence y.sequence
          (lx.hashed ∙ heads ∙ sym ly.hashed) in
      (a, λ i. entry_ext x y b c (lx.behind ∙ a ∙ sym ly.behind) heads i ∷ tails i)

  -- The number of records and the last hash, as `append` gave them back, determine every record of a
  -- chain that verifies: no record before can be changed, dropped or swapped.
  pub pinned_by_last :
      CollisionFree
      → (c d : AppendOnly K) → length c.records ≡ length d.records
      → verify K c ≡ true
      → verify K d ≡ true
      → last_hash K K.genesis c.records ≡ last_hash K K.genesis d.records
      → c.records ≡ d.records
  unfolding verify
  pinned_by_last free c d n v w h =
      (pinned_from free K.genesis K.genesis c.records d.records n v w h).1
