-- ===== src/Memory/Deletion.antt =====
-- A read of the memory after a deletion (`delete`, `read`).
use syndicateclaw.Base.{
  ℕ, ◌≡◌, ◌≢◌, refl, sym, ◌∙◌, ap, inl, inr, Bool, true, false, none, some, String, ◌==◌, string_eq,
  eq_iff, Bool-cases, Option-cases, In, arith, if◌then◌else◌,
}
use syndicateclaw.Storage.{Sessions}
use syndicateclaw.Memory.Record.{MemoryRow, is_active, cache_key}
use syndicateclaw.Memory.Service.{Redis, World, Deletes, delete, delete_row, marked, read}
use syndicateclaw.Memory.Granted.{read-Granted}

-- A key that was deleted in Redis is missing: its DELETE did not fail.
abbrev pub Forgets : Redis → Type 0
Forgets R = (k : String) (s : R.Store) (t : ℕ) → R.get t k (R.delete k s) ≡ none

apart : (s t : String) → (s == t) ≡ false → s ≢ t
apart s t f e = let t' = (eq_iff s t).1 e in ground arith

module _ (R : Redis) (S : Sessions MemoryRow (λ r. r.id)) where
  -- A row that was deleted by its id is missing, the others are as before.
  abbrev pub Removes : Deletes S → Type 0
  Removes D =
      (k id : String) (d : S.Db) → S.get k (D.remove id d) ≡ (if id == k then none else S.get k d)

  -- No two rows have the same namespace and key.
  abbrev pub IsUnique : S.Db → Type 0
  IsUnique d =
      (r s : MemoryRow)
      → In r (S.rows d)
      → In s (S.rows d)
      → r.namespace ≡ s.namespace
      → r.key ≡ s.key
      → r.id ≡ s.id

  -- Under the deleted id there is no row, or one that is not active; others are as before.
  delete_row_lem :
      (D : Deletes S)
      → Removes D
      → (now : ℕ) (hard : Bool) (row r : MemoryRow) (d : S.Db) (k : String)
      → S.get k (delete_row R S D now hard row d) ≡ some r
      → is_active r.deletion_status ≡ true
      → (row.id ≢ k) × (S.get k d ≡ some r)
  delete_row_lem D removes now true row r d k h live = elim (Bool-cases (row.id == k)) [
    | inl t ↦ let bad : none ≡ some r = sym (removes k row.id d ∙ rw t refl) ∙ h in ground arith
    | inr f ↦ (apart row.id k f, sym (removes k row.id d ∙ rw f refl) ∙ h)
  ]
  delete_row_lem D removes now false row r d k h live = elim (Bool-cases (row.id == k)) [
    | inl t ↦
        let put : some (marked R S now row) ≡ some r =
          sym (S.get-merge k (marked R S now row) d ∙ rw t refl) ∙ h in
        let off : false ≡ is_active r.deletion_status =
          ap (λ o. elim o [ none ↦ false | some x ↦ is_active x.deletion_status ]) put in
        ground arith
    | inr f ↦ (apart row.id k f, sym (S.get-merge k (marked R S now row) d ∙ rw f refl) ∙ h)
  ]

  module _ (D : Deletes S) (now : ℕ) (record_id actor : String) (hard : Bool) (w : World R S) where
    delete_found :
        (row : MemoryRow)
        → S.get record_id w.db ≡ some row
        → ((delete R S D now record_id actor hard w).1.db ≡ delete_row R S D now hard row w.db)
          × ((delete R S D now record_id actor hard w).1.cache
              ≡ R.delete (cache_key row.namespace row.key) w.cache)
    unfolding delete
    delete_found row found = rw (found, delete) (refl, refl)

    -- In the state that the deletion of a record leaves, softly or hard, with nothing done in between,
    -- a read of its namespace and key by anyone and with the clock at any time returns nothing, if no
    -- two rows have the same namespace and key and the deletions in the database and in Redis do not
    -- fail.
    pub deleted_unread :
        Forgets R
        → Removes D
        → IsUnique w.db
        → (row : MemoryRow) → S.get record_id w.db ≡ some row
        → (later : ℕ) (reader : String)
        → (read R S later row.namespace row.key reader
            (delete R S D now record_id actor hard w).1).0
          ≡ none
    deleted_unread forgets removes unique row found later reader =
        let after = (delete R S D now record_id actor hard w).1 in
        let (db, cache) = delete_found row found in
        elim (Option-cases (read R S later row.namespace row.key reader after).0) [
          | inl nothing ↦ nothing
          | inr (rec, h) ↦
              elim (read-Granted R S later row.namespace row.key reader after rec h).1 [
                | inl (hit, _) ↦
                    let bad : none ≡ some rec =
                      sym (forgets (cache_key row.namespace row.key) w.cache later)
                      ∙ ap (R.get later (cache_key row.namespace row.key)) (sym cache)
                      ∙ hit in
                    ground arith
                | inr (r, there, ns, key, _, live, _, _, _) ↦
                    let got : S.get r.id (delete_row R S D now hard row w.db) ≡ some r =
                      ap (λ d. S.get r.id d) (sym db) ∙ S.rows_held r after.db there in
                    let (other, kept) =
                      delete_row_lem D removes now hard row r w.db r.id got live in
                    absurd (
                      other (
                        unique row r (S.rows_all record_id w.db found).0
                          (S.rows_all r.id w.db kept).0 (sym ns) (sym key)))
              ]
        ]
