-- ===== src/Boundary/Chain.antt =====
-- The hash chain of src/syndicateclaw/runtime_boundary/boundary.py (`_AppendOnlyAuditChain`).
-- `digest` is SHA-256 over the previous hash and the canonical record, of which the previous hash,
-- the event and the sequence number are all there is; hashes are a type with an equality test. The
-- chain in a file hashes another text of the same record, so its `Hashing` is another one.
use syndicateclaw.Base.{
  ℕ, Bool, true, false, not, ◌||◌, Option, none, some, List, [], ◌∷◌, ◌++◌, HasEq, length,
  if◌then◌else◌,
}

-- What the records are hashed with.
pub record Hashing (E : Type 0) : Type 1 where
  pub H : Type 0
  pub hash_eq : HasEq H
  pub genesis : H
  pub digest : H → E → ℕ → H

module _ {E : Type 0} (K : Hashing E) where
  pub record Entry : Type 0 where
    pub event : E
    pub sequence : ℕ
    pub previous_hash : K.H
    pub event_hash : K.H

  abbrev pub same_hash : K.H → K.H → Bool
  same_hash a b = K.hash_eq.eqb a b

  -- the hash of the last record, behind `prev`
  unfoldable pub last_hash : K.H → List Entry → K.H
  last_hash prev [] = prev
  last_hash prev (r ∷ rs) = last_hash r.event_hash rs

  abbrev pub next_entry : E → List Entry → Entry
  next_entry event records = record {
    event = event;
    sequence = length records;
    previous_hash = last_hash K.genesis records;
    event_hash = K.digest (last_hash K.genesis records) event (length records);
  }

  pub record AppendOnly : Type 0 where
    pub records : List Entry
    pub fail : Bool

  -- `none` is the RuntimeError of a store that is not available.
  unfoldable pub append : E → AppendOnly → Option (ℕ × K.H) × AppendOnly
  append event c = if c.fail then (none, c) else (
    some (length c.records, (next_entry event c.records).event_hash),
    record c { records = c.records ++ next_entry event c.records ∷ [] },
  )

  -- the loop of `verify`
  unfoldable pub verify_from : K.H → List Entry → Bool
  verify_from prev [] = true
  verify_from prev (r ∷ rs) =
      let rest = verify_from r.event_hash rs in
      if not (same_hash (K.digest prev r.event r.sequence) r.event_hash)
        || not (same_hash r.previous_hash prev)
      then false
      else rest

  unfoldable pub verify : AppendOnly → Bool
  unfolding verify_from
  verify c = verify_from K.genesis c.records
