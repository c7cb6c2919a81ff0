-- ===== src/Memory/Closure.antt =====
-- The parents of the records in the chain of a lineage (`get_lineage`).
use syndicateclaw.Base.{
  ℕ, zero, suc, ◌≡◌, refl, sym, ◌∙◌, ap, subst, ◌⊎◌, inl, inr, true, false, Option, none, some,
  List, [], ◌∷◌, String, ◌==◌, string_eq, eq_refl, eq_iff, contains, length, map, In, In-append,
  In-append_left, In-append_right, Bool-cases, Option-cases, arith,
}
use syndicateclaw.Storage.{Sessions}
use syndicateclaw.Memory.Record.{MemoryRecord, MemoryRow, db_to_domain}
use syndicateclaw.Memory.Lineage.{
  Walk, visit, append_record, walk_lineage, walk_parents, get_lineage,
}
use syndicateclaw.Memory.Ancestry.{parents_step, get_lineage-Distinct}
use syndicateclaw.Workflow.Distinct.{Distinct}

parents_stuck :
    (walk : String → Walk → Option Walk) (p : String) (ps : List String) (s : Walk)
    → walk p s ≡ none
    → walk_parents walk (p ∷ ps) s ≡ none
parents_stuck walk p ps s stuck = rw (walk_parents, stuck) refl

some_eq : {A : Type 0} {a b : A} → some a ≡ some b → a ≡ b
some_eq h = ground arith

cons_seen :
    (p : String) (ps : List String) (t : Walk)
    → contains t.visited p ≡ true
    → ((q : String) → In q ps → contains t.visited q ≡ true)
    → (q : String) → In q (p ∷ ps)
    → contains t.visited q ≡ true
cons_seen p ps t h k q (inl e) = subst (λ x. contains t.visited x ≡ true) e h
cons_seen p ps t h k q (inr m) = k q m

module _ (get : String → Option MemoryRow) where
  -- From one state of a walk to a later one: the visited ids and the records stay, what is visited
  -- has its record in the chain if it has a row, and the parents of each new record are visited.
  record Covers (s t : Walk) : Type 0 where
    pub still_visited : (x : String) → contains s.visited x ≡ true → contains t.visited x ≡ true
    pub still_there : (r : MemoryRecord) → In r s.chain → In r t.chain
    pub has_record :
        (x : String) (row : MemoryRow)
        → contains t.visited x ≡ true
        → get x ≡ some row
        → (contains s.visited x ≡ true) ⊎ In (db_to_domain row) t.chain
    pub has_parents :
        (r : MemoryRecord)
        → In r t.chain
        → In r s.chain ⊎ ((p : String) → In p r.parent_ids → contains t.visited p ≡ true)

  Covers-refl : (s : Walk) → Covers s s
  Covers-refl s = record {
    still_visited = λ x m. m;
    still_there = λ r m. m;
    has_record = λ x row m g. inl m;
    has_parents = λ r m. inl m;
  }

  Covers-trans : (s t u : Walk) → Covers s t → Covers t u → Covers s u
  Covers-trans s t u a b = record {
    still_visited = λ x m. b.still_visited x (a.still_visited x m);
    still_there = λ r m. b.still_there r (a.still_there r m);
    has_record = λ x row m g. elim (b.has_record x row m g) [
      | inr here ↦ inr here
      | inl before ↦ elim (a.has_record x row before g) [
        | inl m' ↦ inl m'
        | inr there ↦ inr (b.still_there (db_to_domain row) there)
      ]
    ];
    has_parents = λ r m. elim (b.has_parents r m) [
      | inr all ↦ inr all
      | inl before ↦ elim (a.has_parents r before) [
        | inl m' ↦ inl m'
        | inr all ↦ inr (λ p q. b.still_visited p (all p q))
      ]
    ];
  }

  walk_parents-Covers :
      (walk : String → Walk → Option Walk)
      → ((id : String) (s t : Walk)
          → walk id s ≡ some t
          → Covers s t × (contains t.visited id ≡ true))
      → (ps : List String) (s t : Walk) → walk_parents walk ps s ≡ some t
      → Covers s t × ((p : String) → In p ps → contains t.visited p ≡ true)
  walk_parents-Covers walk each [] s t run =
      let e : s ≡ t = ground arith in (subst (Covers s) e (Covers-refl s), λ p m. absurd m)
  walk_parents-Covers walk each (p ∷ ps) s t run = elim (Option-cases (walk p s)) [
    | inl stuck ↦
        let bad : none ≡ some t = sym (parents_stuck walk p ps s stuck) ∙ run in ground arith
    | inr (u, first) ↦
        let rest : walk_parents walk ps u ≡ some t = sym (parents_step walk p ps s u first) ∙ run in
        let (c, seen) = each p s u first in
        let (c', seen') = walk_parents-Covers walk each ps u t rest in
        (Covers-trans s u t c c', cons_seen p ps t (c'.still_visited p seen) seen')
  ]

  Covers-visit : (id : String) (s : Walk) → get id ≡ none → Covers s (visit id s)
  Covers-visit id s gone = record {
    still_visited = λ x m. rw m (ground arith);
    still_there = λ r m. m;
    has_record = λ x row m g. elim (Bool-cases (id == x)) [
      | inl t ↦
          let bad : none ≡ some row = sym gone ∙ ap get ((eq_iff id x).0 t) ∙ g in ground arith
      | inr f ↦ inl (rw f at m)
    ];
    has_parents = λ r m. inl m;
  }

  -- what the walk does to a row that is new, before and with its parents
  Covers-descend :
      (id : String) (row : MemoryRow) (s t : Walk)
      → get id ≡ some row
      → Covers (append_record (db_to_domain row) (visit id s)) t
      → ((p : String) → In p row.parent_ids → contains t.visited p ≡ true)
      → Covers s t
  Covers-descend id row s t found c all = record {
    still_visited = λ x m. c.still_visited x (rw m (ground arith));
    still_there = λ r m. c.still_there r (In-append_left r s.chain (db_to_domain row ∷ []) m);
    has_record = λ x other m g. elim (c.has_record x other m g) [
      | inr here ↦ inr here
      | inl before ↦ elim (Bool-cases (id == x)) [
        | inr f ↦ inl (rw f at before)
        | inl same ↦
            let e : row ≡ other = some_eq (sym found ∙ ap get ((eq_iff id x).0 same) ∙ g) in
            inr (
              c.still_there (db_to_domain other) (
                In-append_right (db_to_domain other) s.chain (db_to_domain row ∷ [])
                  (inl (ap db_to_domain e))))
      ]
    ];
    has_parents = λ r m. elim (c.has_parents r m) [
      | inr seen ↦ inr seen
      | inl before ↦ elim (In-append r s.chain (db_to_domain row ∷ []) before) [
        | inl old ↦ inl old
        | inr (inl e) ↦ inr (λ p q. all p (subst (λ l. In p l) (sym (ap (λ x. x.parent_ids) e)) q))
        | inr (inr none_left) ↦ absurd none_left
      ]
    ];
  }

  walk_seen :
      (n : ℕ) (id : String) (s : Walk)
      → contains s.visited id ≡ true
      → walk_lineage get (suc n) id s ≡ some s
  unfolding walk_lineage
  walk_seen n id s t = rw (t, walk_lineage) refl

  walk_gone :
      (n : ℕ) (id : String) (s : Walk)
      → contains s.visited id ≡ false
      → get id ≡ none
      → walk_lineage get (suc n) id s ≡ some (visit id s)
  unfolding walk_lineage
  walk_gone n id s f gone = rw (f, walk_lineage) (rw gone refl)

  walk_row :
      (n : ℕ) (id : String) (s : Walk) (row : MemoryRow)
      → contains s.visited id ≡ false
      → get id ≡ some row
      → walk_lineage get (suc n) id s
        ≡ walk_parents
            (walk_lineage get n)
            row.parent_ids
            (append_record (db_to_domain row) (visit id s))
  unfolding walk_lineage
  walk_row n id s row f found = rw (f, walk_lineage) (rw found refl)

  walk_lineage-Covers :
      (n : ℕ) (id : String) (s t : Walk)
      → walk_lineage get n id s ≡ some t
      → Covers s t × (contains t.visited id ≡ true)
  unfolding walk_lineage
  walk_lineage-Covers zero id s t run = ground arith
  walk_lineage-Covers (suc n) id s t run = elim (Bool-cases (contains s.visited id)) [
    | inl seen ↦
        let e : s ≡ t = some_eq (sym (walk_seen n id s seen) ∙ run) in
        (subst (Covers s) e (Covers-refl s), subst (λ u. contains u.visited id ≡ true) e seen)
    | inr f ↦ elim (Option-cases (get id)) [
      | inl gone ↦
          let e : visit id s ≡ t = some_eq (sym (walk_gone n id s f gone) ∙ run) in
          (
            subst (Covers s) e (Covers-visit id s gone),
            subst (λ u. contains u.visited id ≡ true) e (rw (eq_refl id) refl),
          )
      | inr (row, found) ↦
          let (c, all) =
            walk_parents-Covers (walk_lineage get n) (walk_lineage-Covers n) row.parent_ids
              (append_record (db_to_domain row) (visit id s)) t
              (sym (walk_row n id s row f found) ∙ run) in
          (Covers-descend id row s t found c all, c.still_visited id (rw (eq_refl id) refl))
    ]
  ]

module _ (S : Sessions MemoryRow (λ r. r.id)) (d : S.Db) where
  -- the record of the id and, with each record, those of its parents, as far as they have rows
  abbrev pub IsClosed : String → List MemoryRecord → Type 0
  IsClosed id chain =
      ((row : MemoryRow) → S.get id d ≡ some row → In (db_to_domain row) chain)
      × ((r : MemoryRecord)
          → In r chain
          → (p : String) → In p r.parent_ids
          → (row : MemoryRow) → S.get p d ≡ some row
          → In (db_to_domain row) chain)

  get_lineage-IsClosed :
      (id : String) (chain : List MemoryRecord)
      → get_lineage S id d ≡ some chain
      → IsClosed id chain
  unfolding get_lineage
  get_lineage-IsClosed id chain run =
      elim (Option-cases (
        walk_lineage (λ i. S.get i d) (suc (length (S.rows d))) id
          (record { chain = []; visited = [] }))) [
            | inl stuck ↦
                let bad : none ≡ some chain = rw (get_lineage, stuck) at run in ground arith
            | inr (t, done) ↦
                let e : t.chain ≡ chain = some_eq (rw (get_lineage, done) at run) in
                let (c, seen) =
                  walk_lineage-Covers (λ i. S.get i d) (suc (length (S.rows d))) id
                    (record { chain = []; visited = [] }) t done in
                let has : (x : String) (row : MemoryRow)
                    → contains t.visited x ≡ true
                    → S.get x d ≡ some row
                    → In (db_to_domain row) chain =
                  λ x row m g. elim (c.has_record x row m g) [
                    | inl never ↦ ground arith
                    | inr here ↦ subst (In (db_to_domain row)) e here
                  ] in
                (
                  λ row g. has id row seen g,
                  λ r m p q row g. elim (c.has_parents r (subst (In r) (sym e) m)) [
                    | inl never ↦ absurd never
                    | inr all ↦ has p row (all p q) g
                  ],
                )
          ]

  -- The walk over the lineage of any id always ends, whatever cycles the parents make. The chain that
  -- it returns has no two records with one id; it has the record of the id, if that has a row, and
  -- with each of its records those of all its parents that have a row.
  pub get_lineage_whole :
      (id : String)
      → (chain : List MemoryRecord) × (get_lineage S id d ≡ some chain)
        × Distinct (map (λ r. r.id) chain)
        × IsClosed id chain
  get_lineage_whole id =
      let (chain, run, distinct) = get_lineage-Distinct S d id in
      (chain, run, distinct, get_lineage-IsClosed id chain run)
