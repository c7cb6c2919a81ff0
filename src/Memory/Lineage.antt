-- ===== src/Memory/Lineage.antt =====
-- `get_lineage` and `_walk_lineage` of src/syndicateclaw/memory/service.py. A call costs a unit of
-- fuel: one more than there are rows is enough, since only a row not visited before is descended
-- into.
use syndicateclaw.Base.{
  ℕ, zero, suc, true, false, Option, none, some, List, [], ◌∷◌, ◌++◌, String, string_eq, contains,
  length,
}
use syndicateclaw.Storage.{Sessions}
use syndicateclaw.Memory.Record.{MemoryRecord, MemoryRow, db_to_domain}

-- the chain, in the order of the walk, and the ids that were visited
pub record Walk : Type 0 where
  pub chain : List MemoryRecord
  pub visited : List String

abbrev pub visit : String → Walk → Walk
visit id s = record s { visited = id ∷ s.visited }

abbrev pub append_record : MemoryRecord → Walk → Walk
append_record rec s = record s { chain = s.chain ++ (rec ∷ []) }

-- the loop over the parents
abbrev pub walk_parents : (String → Walk → Option Walk) → List String → Walk → Option Walk
walk_parents walk [] s = some s
walk_parents walk (id ∷ ids) s = elim (walk id s) [ none ↦ none | some t ↦ walk_parents walk ids t ]

module _ (get : String → Option MemoryRow) where
  unfoldable pub walk_lineage : ℕ → String → Walk → Option Walk
  walk_lineage zero id s = none
  walk_lineage (suc n) id s = elim (contains s.visited id) [
    | true ↦ some s
    | false ↦ elim (get id) [
      | none ↦ some (visit id s)
      | some row ↦
          walk_parents (λ i t. walk_lineage n i t) row.parent_ids
            (append_record (db_to_domain row) (visit id s))
    ]
  ]

module _ (S : Sessions MemoryRow (λ r. r.id)) where
  unfoldable pub get_lineage : String → S.Db → Option (List MemoryRecord)
  unfolding walk_lineage
  get_lineage id d =
      elim (walk_lineage (λ i. S.get i d) (suc (length (S.rows d))) id
        (record { chain = []; visited = [] })) [ none ↦ none | some s ↦ some s.chain ]
