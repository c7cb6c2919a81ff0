-- ===== src/Memory/Granted.antt =====
-- The answer of `read` of the memory service.
use syndicateclaw.Base.{
  Option-cases, ℕ, ◌≡◌, refl, sym, ◌∙◌, ap, subst, ◌⊎◌, inl, inr, true, false, none, some, ◌∷◌,
  String, string_eq, eq_iff, Bool-cases, arith, In, In-find, if◌then◌else◌,
}
use syndicateclaw.Storage.{Sessions}
use syndicateclaw.Memory.Record.{
  MemoryRecord, MemoryRow, db_to_domain, check_access_policy, is_active, is_expired, cache_key,
}
use syndicateclaw.Memory.Service.{Redis, World, read_action, is_at, get_by_key, read_stored, read}

module _ (R : Redis) (S : Sessions MemoryRow (λ r. r.id)) where
  -- The record is that of a row under the key, in force at the time, and the read was audited.
  abbrev pub FromRow : ℕ → String → String → String → World R S → MemoryRecord → World R S → Type 0
  FromRow now namespace key actor w rec after =
      (row : MemoryRow) × In row (S.rows w.db)
      × (row.namespace ≡ namespace)
      × (row.key ≡ key)
      × (rec ≡ db_to_domain row)
      × (is_active row.deletion_status ≡ true)
      × (is_expired now row.expires_at ≡ false)
      × (after.db ≡ w.db)
      × (after.events
          ≡ record { actor = actor; resource_id = row.id; action = read_action namespace key }
            ∷ w.events)

  -- The record is what Redis holds under the key, and nothing is changed.
  abbrev pub FromCache : ℕ → String → String → World R S → MemoryRecord → World R S → Type 0
  FromCache now namespace key w rec after =
      (R.get now (cache_key namespace key) w.cache ≡ some rec) × (after ≡ w)

  module _ (now : ℕ) (namespace key actor : String) where
    pub read_hit :
        (w : World R S) (c : MemoryRecord)
        → R.get now (cache_key namespace key) w.cache ≡ some c
        → read R S now namespace key actor w
          ≡ (if check_access_policy c actor then some c else none, w)
    unfolding read
    read_hit w c hit = rw (hit, read) refl

    pub read_miss :
        (w : World R S) (row : MemoryRow)
        → R.get now (cache_key namespace key) w.cache ≡ none
        → get_by_key R S namespace key w.db ≡ some row
        → read R S now namespace key actor w
          ≡ read_stored R S now namespace key actor (db_to_domain row) w
    unfolding read
    read_miss w row miss found = rw (miss, read) (rw found refl)

    pub read_absent :
        (w : World R S)
        → R.get now (cache_key namespace key) w.cache ≡ none
        → get_by_key R S namespace key w.db ≡ none
        → read R S now namespace key actor w ≡ (none, w)
    unfolding read
    read_absent w miss gone = rw (miss, read) (rw gone refl)

    -- what a record from the database has passed
    pub read_stored_lem :
        (row : MemoryRow) (w : World R S) (rec : MemoryRecord)
        → (read_stored R S now namespace key actor (db_to_domain row) w).0 ≡ some rec
        → (rec ≡ db_to_domain row)
          × (is_active row.deletion_status ≡ true)
          × (is_expired now row.expires_at ≡ false)
          × (check_access_policy (db_to_domain row) actor ≡ true)
          × ((read_stored R S now namespace key actor (db_to_domain row) w).1.db ≡ w.db)
          × ((read_stored R S now namespace key actor (db_to_domain row) w).1.events
              ≡ record { actor = actor; resource_id = row.id; action = read_action namespace key }
                ∷ w.events)
    unfolding read_stored
    read_stored_lem row w rec h = ground arith

    hit-Granted :
        (w : World R S) (c rec : MemoryRecord)
        → R.get now (cache_key namespace key) w.cache ≡ some c
        → (read R S now namespace key actor w).0 ≡ some rec
        → (check_access_policy rec actor ≡ true)
          × FromCache now namespace key w rec (read R S now namespace key actor w).1
    hit-Granted w c rec hit h = elim (Bool-cases (check_access_policy c actor)) [
      | inl t ↦
          let run : read R S now namespace key actor w ≡ (some c, w) =
            read_hit w c hit ∙ rw t refl in
          let same : some c ≡ some rec = sym (ap (λ p. p.0) run) ∙ h in
          let e : c ≡ rec = ground arith in
          (subst (λ r. check_access_policy r actor ≡ true) e t, (hit ∙ same, ap (λ p. p.1) run))
      | inr f ↦
          let run : read R S now namespace key actor w ≡ (none, w) = read_hit w c hit ∙ rw f refl in
          let bad : none ≡ some rec = sym (ap (λ p. p.0) run) ∙ h in ground arith
    ]

    row-Granted :
        (w : World R S) (row : MemoryRow) (rec : MemoryRecord)
        → R.get now (cache_key namespace key) w.cache ≡ none
        → get_by_key R S namespace key w.db ≡ some row
        → (read R S now namespace key actor w).0 ≡ some rec
        → (check_access_policy rec actor ≡ true)
          × FromRow now namespace key actor w rec (read R S now namespace key actor w).1
    row-Granted w row rec miss found h =
        let run = read_miss w row miss found in
        let (e, live, fresh, may, db, events) =
          read_stored_lem row w rec (sym (ap (λ p. p.0) run) ∙ h) in
        let (held, at) = In-find (is_at R S namespace key) row (S.rows w.db) found in
        (
          subst (λ r. check_access_policy r actor ≡ true) (sym e) may,
          (
            row,
            held,
            (eq_iff row.namespace namespace).0 (ground arith),
            (eq_iff row.key key).0 (ground arith),
            e,
            live,
            fresh,
            ap (λ p. p.1.db) run ∙ db,
            ap (λ p. p.1.events) run ∙ events,
          ),
        )

    -- A record that a read returns passes its access policy for the actor. It is what Redis holds
    -- under the cache key, and then nothing is changed and no event written; or it is that of a row
    -- with this namespace and key that is active and not expired, and an event of the read by this
    -- actor is added.
    pub read-Granted :
        (w : World R S) (rec : MemoryRecord)
        → (read R S now namespace key actor w).0 ≡ some rec
        → (check_access_policy rec actor ≡ true)
          × (FromCache now namespace key w rec (read R S now namespace key actor w).1
              ⊎ FromRow now namespace key actor w rec (read R S now namespace key actor w).1)
    read-Granted w rec h = elim (Option-cases (R.get now (cache_key namespace key) w.cache)) [
      | inr (c, hit) ↦ let (may, from) = hit-Granted w c rec hit h in (may, inl from)
      | inl miss ↦ elim (Option-cases (get_by_key R S namespace key w.db)) [
        | inr (row, found) ↦ let (may, from) = row-Granted w row rec miss found h in (may, inr from)
        | inl gone ↦
            let bad : none ≡ some rec = sym (ap (λ p. p.0) (read_absent w miss gone)) ∙ h in
            ground arith
      ]
    ]
