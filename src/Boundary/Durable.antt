-- ===== src/Boundary/Durable.antt =====
-- The chain in a file: `DurableAuditChain` of src/syndicateclaw/runtime_boundary/durable_audit.py.
-- A line is a record of a chain or does not parse. A file that a crash cut short ends in a line
-- without a newline (`torn`): what is written next lands on that line, which then does not parse.
-- The lock makes each append a single step. `K` hashes the text that `_canonical` makes of a record,
-- which is not the text that the chain in memory hashes.
use syndicateclaw.Base.{
  ℕ, Bool, true, false, not, ◌&&◌, Option, none, some, List, [], ◌∷◌, ◌+◌, nat_beq, if◌then◌else◌,
}
use syndicateclaw.Boundary.Chain.{Hashing, Entry, same_hash, next_entry}

module _ {E : Type 0} (K : Hashing E) where
  pub data Line : Type 0 where
    unparsable : Line
    parsed : Entry K → Line

  pub record File : Type 0 where
    pub lines : List Line
    pub torn : Bool
    pub fail : Bool

  -- `records`: up to the first line that does not parse
  unfoldable pub records : List Line → List (Entry K)
  records [] = []
  records (unparsable ∷ ls) = []
  records (parsed r ∷ ls) = r ∷ records ls

  -- what `f.write(line + "\n")` makes of the lines
  unfoldable pub write : Bool → Line → List Line → List Line
  write torn l [] = l ∷ []
  write true l (x ∷ []) = unparsable ∷ []
  write false l (x ∷ []) = x ∷ l ∷ []
  write torn l (x ∷ y ∷ ls) = x ∷ write torn l (y ∷ ls)

  unfoldable pub append_line : E → File → Option (ℕ × K.H) × File
  unfolding records write
  append_line event f =
      let body = next_entry K event (records f.lines) in
      if f.fail then (none, f) else (
        some (body.sequence, body.event_hash),
        record f { lines = write f.torn (parsed body) f.lines; torn = false },
      )

  pub record VerifyResult : Type 0 where
    pub valid : Bool
    pub record_count : ℕ
    pub genesis_linked : Bool
    pub corrupt_tail : Bool

  abbrev corrupt : ℕ → Bool → VerifyResult
  corrupt count linked = record {
    valid = false;
    record_count = count;
    genesis_linked = linked;
    corrupt_tail = true;
  }

  -- the loop of `verify`, behind `count` lines
  unfoldable pub verify_lines : K.H → ℕ → Bool → List Line → VerifyResult
  verify_lines prev count linked [] = record {
    valid = true;
    record_count = count;
    genesis_linked = linked;
    corrupt_tail = false;
  }
  verify_lines prev count linked (unparsable ∷ ls) = corrupt count linked
  verify_lines prev count linked (parsed r ∷ ls) =
      let at_genesis =
        if nat_beq count 0 && not (same_hash K r.previous_hash K.genesis) then false else linked in
      let rest = verify_lines r.event_hash (count + 1) at_genesis ls in
      if not (same_hash K r.previous_hash prev)
      then corrupt count at_genesis
      else if not (same_hash K (K.digest prev r.event r.sequence) r.event_hash)
      then corrupt count at_genesis
      else rest

  unfoldable pub verify_file : File → VerifyResult
  unfolding verify_lines
  verify_file f = verify_lines K.genesis 0 true f.lines
