-- ===== src/Boundary/Refinement.antt =====
-- The file against the chain in memory, whose hashes are of other texts.
use syndicateclaw.Base.{
  ℕ, suc, ◌≡◌, refl, sym, ◌∙◌, Bool, true, false, Option, none, some, List, [], ◌∷◌, ◌++◌, ◌+◌,
  length, map, arith, inl, inr, Bool-cases, ap,
}
use syndicateclaw.Boundary.Evidence.{verify-append}
use syndicateclaw.Boundary.Chain.{
  Hashing, Entry, same_hash, next_entry, AppendOnly, append, verify_from, verify,
}
use syndicateclaw.Boundary.Durable.{
  parsed, File, records, write, append_line, verify_lines, verify_file,
}

module _ {E : Type 0} (K : Hashing E) where
  -- The file that no crash cut short and whose lines are the records of the chain.
  abbrev pub file_of : AppendOnly K → File K
  file_of c = record { lines = map parsed c.records; torn = false; fail = c.fail }

  records-map : (rs : List (Entry K)) → records K (map parsed rs) ≡ rs
  unfolding records
  records-map [] = refl
  records-map (r ∷ rs) = ap (λ x. r ∷ x) (records-map rs)

  write-map :
      (r : Entry K) (rs : List (Entry K))
      → write K false (parsed r) (map parsed rs) ≡ map parsed (rs ++ r ∷ [])
  unfolding write
  write-map r [] = refl
  write-map r (x ∷ []) = refl
  write-map r (x ∷ y ∷ rs) = ap (λ ls. parsed x ∷ ls) (write-map r (y ∷ rs))

  -- What an append leaves when `xs` is read from the lines of `rs`.
  abbrev appended : E → List (Entry K) → List (Entry K) → Option (ℕ × K.H) × File K
  appended event rs xs = (
    some (length xs, (next_entry K event xs).event_hash),
    record {
      lines = write K false (parsed (next_entry K event xs)) (map parsed rs);
      torn = false;
      fail = false;
    },
  )

  appended_whole :
      (event : E) (rs xs : List (Entry K))
      → xs ≡ rs
      → appended event rs xs ≡ (
        some (length rs, (next_entry K event rs).event_hash),
        file_of (record { records = rs ++ next_entry K event rs ∷ []; fail = false }),
      )
  appended_whole event rs xs e = rw e (
      ap {B = Option (ℕ × K.H) × File K}
        (λ ls. (
          some (length rs, (next_entry K event rs).event_hash),
          record { lines = ls; torn = false; fail = false },
        ))
        (write-map (next_entry K event rs) rs))

  appended_at :
      (event : E) (rs : List (Entry K)) (b : Bool)
      → append_line K event (file_of (record { records = rs; fail = b })) ≡ (
        (append K event (record { records = rs; fail = b })).0,
        file_of (append K event (record { records = rs; fail = b })).1,
      )
  unfolding append_line append
  appended_at event rs true = refl
  appended_at event rs false = appended_whole event rs (records K (map parsed rs)) (records-map rs)

  verify_lines-verify_from :
      (prev : K.H) (count : ℕ) (linked : Bool) (rs : List (Entry K))
      → (verify_lines K prev count linked (map parsed rs)).valid ≡ verify_from K prev rs
  unfolding verify_lines verify_from
  verify_lines-verify_from prev count linked [] = refl
  verify_lines-verify_from prev count linked (r ∷ rs) =
      elim (Bool-cases (same_hash K r.previous_hash prev)) [
        | inl a ↦ elim (Bool-cases (same_hash K (K.digest prev r.event r.sequence) r.event_hash)) [
          | inl b ↦ rw a (rw b (verify_lines-verify_from r.event_hash (count + 1) _ rs))
          | inr b ↦ rw a (rw b refl)
        ]
        | inr a ↦ ground (arith)
      ]

  -- On a chain with the file's own digest, an append to the file does what an append in memory does.
  append_line-file_of :
      (event : E) (c : AppendOnly K)
      → append_line K event (file_of c) ≡ ((append K event c).0, file_of (append K event c).1)
  append_line-file_of event c = appended_at event c.records c.fail

  verify_file-file_of : (c : AppendOnly K) → (verify_file K (file_of c)).valid ≡ verify K c
  unfolding verify_file verify
  verify_file-file_of c = verify_lines-verify_from K.genesis 0 true c.records

  abbrev pub events_of : List (Entry K) → List E
  events_of [] = []
  events_of (r ∷ rs) = r.event ∷ events_of rs

  events_of-append :
      (rs : List (Entry K)) (r : Entry K) → events_of (rs ++ r ∷ []) ≡ events_of rs ++ r.event ∷ []
  events_of-append [] r = refl
  events_of-append (x ∷ rs) r = ap (λ es. x.event ∷ es) (events_of-append rs r)

  length-events_of : (rs : List (Entry K)) → length (events_of rs) ≡ length rs
  length-events_of [] = refl
  length-events_of (r ∷ rs) = ap suc (length-events_of rs)

  -- the sequence number of an answer
  abbrev pub number_of : Option (ℕ × K.H) → Option ℕ
  number_of none = none
  number_of (some (n, h)) = some n

  append_down : (event : E) (c : AppendOnly K) → c.fail ≡ true → append K event c ≡ (none, c)
  unfolding append
  append_down event c f = rw (f, append) refl

  append_up :
      (event : E) (c : AppendOnly K)
      → c.fail ≡ false
      → append K event c ≡ (
        some (length c.records, (next_entry K event c.records).event_hash),
        record c { records = c.records ++ next_entry K event c.records ∷ [] },
      )
  unfolding append
  append_up event c f = rw (f, append) refl

module _ {E : Type 0} (K M : Hashing E) where
  -- The file, whose hashes are those of `K`, holds what the chain in memory holds, whose hashes are
  -- those of `M`: it is not torn, its records have the same events in the same order, both verify,
  -- and both stores are available or neither is.
  pub record Holds (f : File K) (c : AppendOnly M) : Type 0 where
    pub chain : AppendOnly K
    pub whole : f ≡ file_of K chain
    pub events : events_of K chain.records ≡ events_of M c.records
    pub available : chain.fail ≡ c.fail
    pub file_valid : (verify_file K f).valid ≡ true
    pub chain_valid : verify M c ≡ true

  same_answers :
      (event : E) (chain : AppendOnly K) (c : AppendOnly M)
      → events_of K chain.records ≡ events_of M c.records
      → chain.fail ≡ c.fail
      → (number_of K (append K event chain).0 ≡ number_of M (append M event c).0)
        × (events_of K (append K event chain).1.records ≡ events_of M (append M event c).1.records)
        × ((append K event chain).1.fail ≡ (append M event c).1.fail)
  same_answers event chain c e f = elim (Bool-cases c.fail) [
    | inl down ↦
        let down' : chain.fail ≡ true = f ∙ down in
        rw (append_down K event chain down', append_down M event c down) (refl, e, f)
    | inr up ↦
        let up' : chain.fail ≡ false = f ∙ up in
        let n : length chain.records ≡ length c.records =
          omega
            (arith, length-events_of K chain.records, length-events_of M c.records, ap length e) in
        rw (append_up K event chain up', append_up M event c up)
          (
            ap some n,
            events_of-append K chain.records (next_entry K event chain.records)
                ∙ ap (λ es. es ++ event ∷ []) e
                ∙ sym (events_of-append M c.records (next_entry M event c.records)),
            f,
          )
  ]

  -- An append to the file does what an append to the chain in memory does, although the two hash
  -- different texts: from a file that holds what the chain holds, both answer the same sequence
  -- number or both raise, and the file again holds what the chain holds, and both verify.
  pub append_line-Holds :
      (event : E) (f : File K) (c : AppendOnly M)
      → Holds f c
      → (number_of K (append_line K event f).0 ≡ number_of M (append M event c).0)
        × Holds (append_line K event f).1 (append M event c).1
  append_line-Holds event f c h =
      let (numbers, events, available) = same_answers event h.chain c h.events h.available in
      let step = ap (append_line K event) h.whole ∙ append_line-file_of K event h.chain in
      let valid : verify K h.chain ≡ true =
        sym (verify_file-file_of K h.chain)
        ∙ ap (λ g. (verify_file K g).valid) (sym h.whole)
        ∙ h.file_valid in
      rw step (
        numbers,
        record {
          chain = (append K event h.chain).1;
          whole = refl;
          events = events;
          available = available;
          file_valid =
              verify_file-file_of K (append K event h.chain).1
              ∙ verify-append K event h.chain valid;
          chain_valid = verify-append M event c h.chain_valid;
        },
      )
