-- ===== src/Boundary/Torn.antt =====
-- A file that ends in the part of a line that a crash left.
use syndicateclaw.Base.{◌≡◌, refl, true, false, some, List, [], ◌∷◌, ◌++◌, length, map, ap, ◌∙◌}
use syndicateclaw.Boundary.Chain.{Hashing, Entry, next_entry}
use syndicateclaw.Boundary.Durable.{Line, unparsable, parsed, File, records, write, append_line}

module _ {E : Type 0} (K : Hashing E) where
  -- The file of the records `rs` and the part of a line behind them.
  abbrev pub torn_file : List (Entry K) → File K
  torn_file rs = record { lines = map parsed rs ++ unparsable ∷ []; torn = true; fail = false }

  records-torn : (rs : List (Entry K)) → records K (map parsed rs ++ unparsable ∷ []) ≡ rs
  unfolding records
  records-torn [] = refl
  records-torn (r ∷ rs) = ap (λ x. r ∷ x) (records-torn rs)

  write-torn :
      (l : Line K) (rs : List (Entry K))
      → write K true l (map parsed rs ++ unparsable ∷ []) ≡ map parsed rs ++ unparsable ∷ []
  unfolding write
  write-torn l [] = refl
  write-torn l (r ∷ []) = refl
  write-torn l (r ∷ s ∷ rs) = ap (λ ls. parsed r ∷ ls) (write-torn l (s ∷ rs))

  -- After a crash that left part of a line, `append` answers with a sequence number and a hash, but
  -- the record is not among the records of the file, nor is it when a further event is appended:
  -- that one is answered with the same number.
  pub torn_append :
      (event later : E) (rs : List (Entry K))
      → ((append_line K event (torn_file rs)).0
          ≡ some (length rs, (next_entry K event rs).event_hash))
        × (records K (append_line K event (torn_file rs)).1.lines ≡ rs)
        × ((append_line K later (append_line K event (torn_file rs)).1).0
            ≡ some (length rs, (next_entry K later rs).event_hash))
  unfolding append_line
  torn_append event later rs =
      let kept = records-torn rs in
      let after : records K (append_line K event (torn_file rs)).1.lines ≡ rs =
        ap (records K) (write-torn _ rs) ∙ kept in
      (
        ap (λ xs. some (length xs, (next_entry K event xs).event_hash)) kept,
        after,
        ap (λ xs. some (length xs, (next_entry K later xs).event_hash)) after,
      )
