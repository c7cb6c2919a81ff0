-- ===== src/Memory/Ancestry.antt =====
-- The rows that the walk over a lineage (`_walk_lineage`) has left to visit, and the ids in its chain.
use syndicateclaw.Base.{
  ℕ, zero, suc, ◌≤◌, ◌<◌, ◌≡◌, refl, sym, ◌∙◌, ap, subst, ◌⊎◌, inl, inr, Bool, true, false, not,
  Option, some, List, [], ◌∷◌, ◌++◌, map, String, ◌==◌, string_eq, eq_iff, contains, length,
  length-keep, keep, In, Bool-cases, Option-cases, arith,
}
use syndicateclaw.Storage.{Sessions}
use syndicateclaw.Workflow.Distinct.{Distinct, append-Distinct}
use syndicateclaw.Memory.Record.{MemoryRecord, MemoryRow, db_to_domain}
use syndicateclaw.Memory.Lineage.{
  Walk, visit, append_record, walk_lineage, walk_parents, get_lineage,
}

abbrev is_new : List String → MemoryRow → Bool
is_new visited r = not (contains visited r.id)

abbrev unvisited : List String → List MemoryRow → ℕ
unvisited visited rows = length (keep (is_new visited) rows)

unvisited-visit :
    (id : String) (visited : List String) (rows : List MemoryRow)
    → unvisited (id ∷ visited) rows ≤ unvisited visited rows
unvisited-visit id visited [] = ground arith
unvisited-visit id visited (r ∷ rows) = ground (arith, unvisited-visit id visited rows)

fewer_unvisited :
    (id : String) (visited : List String) (row : MemoryRow) (rows : List MemoryRow)
    → In row rows
    → (id == row.id) ≡ true
    → contains visited row.id ≡ false
    → unvisited (id ∷ visited) rows < unvisited visited rows
fewer_unvisited id visited row [] h t new = absurd h
fewer_unvisited id visited row (r ∷ rows) (inl e) t new =
    let t' : (id == r.id) ≡ true = ap (λ x. id == x.id) e ∙ t in
    let new' : contains visited r.id ≡ false = ap (λ x. contains visited x.id) e ∙ new in
    rw (t', new') (ground (arith, unvisited-visit id visited rows))
fewer_unvisited id visited row (r ∷ rows) (inr h) t new =
    ground (arith, fewer_unvisited id visited row rows h t new)

abbrev ids : List MemoryRecord → List String
ids = map (λ r. r.id)

-- The records in the chain have different ids, which are visited.
abbrev IsTidy : Walk → Type 0
IsTidy s =
    Distinct (ids s.chain)
    × ((x : String) → contains (ids s.chain) x ≡ true → contains s.visited x ≡ true)

IsTidy-visit : (id : String) (s : Walk) → IsTidy s → IsTidy (visit id s)
IsTidy-visit id s (d, h) = (d, λ x m. rw (h x m) (ground arith))

ids-append :
    (rs : List MemoryRecord) (r : MemoryRecord) → ids (rs ++ (r ∷ [])) ≡ ids rs ++ (r.id ∷ [])
ids-append [] r = refl
ids-append (q ∷ rs) r = ap (λ l. q.id ∷ l) (ids-append rs r)

contains_last :
    (xs : List String) (x y : String)
    → contains (xs ++ (y ∷ [])) x ≡ true
    → (contains xs x ≡ true) ⊎ ((y == x) ≡ true)
contains_last [] x y h = ground arith
contains_last (z ∷ xs) x y h = elim (Bool-cases (z == x)) [
  | inl t ↦ inl (rw t refl)
  | inr f ↦ elim (contains_last xs x y (rw f at h)) [ inl m ↦ inl (rw (m, f) refl) | inr e ↦ inr e ]
]

IsTidy-append :
    (rec : MemoryRecord) (s : Walk)
    → contains s.visited rec.id ≡ false
    → IsTidy s
    → IsTidy (append_record rec (visit rec.id s))
IsTidy-append rec s new (d, h) =
    let fresh : contains (ids s.chain) rec.id ≡ false =
      elim (Bool-cases (contains (ids s.chain) rec.id)) [
        | inr f ↦ f
        | inl t ↦ let bad = h rec.id t in ground arith
      ] in
    (
      subst Distinct (sym (ids-append s.chain rec)) (append-Distinct (ids s.chain) rec.id fresh d),
      λ x m.
          elim (contains_last (ids s.chain) x rec.id
            (subst (λ l. contains l x ≡ true) (ids-append s.chain rec) m)) [
              | inl old ↦ rw (h x old) (ground arith)
              | inr e ↦ rw e refl
            ],
    )

pub parents_step :
    (walk : String → Walk → Option Walk) (p : String) (ps : List String) (s t : Walk)
    → walk p s ≡ some t
    → walk_parents walk (p ∷ ps) s ≡ walk_parents walk ps t
parents_step walk p ps s t run = rw (walk_parents, run) refl

module _ (S : Sessions MemoryRow (λ r. r.id)) (d : S.Db) where
  -- A walk that ends, with no more rows left to visit than before.
  abbrev Ends : Option Walk → Walk → Type 0
  Ends o s =
      (t : Walk) × (o ≡ some t)
      × (unvisited t.visited (S.rows d) ≤ unvisited s.visited (S.rows d))
      × IsTidy t

  abbrev lookup : String → Option MemoryRow
  lookup i = S.get i d

  walk_parents-Ends :
      (n : ℕ) (walk : String → Walk → Option Walk)
      → ((id : String) (s : Walk)
          → unvisited s.visited (S.rows d) < n
          → IsTidy s
          → Ends (walk id s) s)
      → (ps : List String) (s : Walk) → unvisited s.visited (S.rows d) < n
      → IsTidy s
      → Ends (walk_parents walk ps s) s
  walk_parents-Ends n walk each [] s room tidy = (s, refl, ground arith, tidy)
  walk_parents-Ends n walk each (p ∷ ps) s room tidy =
      let (t, run, le, tidy') = each p s room tidy in
      let (u, run', le', tidy'') = walk_parents-Ends n walk each ps t (ground arith) tidy' in
      (u, parents_step walk p ps s t run ∙ run', ground arith, tidy'')

  walk_lineage-Ends :
      (n : ℕ) (id : String) (s : Walk)
      → unvisited s.visited (S.rows d) < n
      → IsTidy s
      → Ends (walk_lineage lookup n id s) s
  unfolding walk_lineage
  walk_lineage-Ends zero id s room tidy = ground arith
  walk_lineage-Ends (suc n) id s room tidy = elim (Bool-cases (contains s.visited id)) [
    | inl t ↦ (s, rw (t, walk_lineage) refl, ground arith, tidy)
    | inr f ↦ elim (Option-cases (S.get id d)) [
      | inl gone ↦ (
        visit id s,
        rw (f, walk_lineage) (rw gone refl),
        unvisited-visit id s.visited (S.rows d),
        IsTidy-visit id s tidy,
      )
      | inr (row, found) ↦
          let (held, key) = S.rows_all id d found in
          let new : contains s.visited row.id ≡ false = ap (contains s.visited) key ∙ f in
          let less =
            fewer_unvisited id s.visited row (S.rows d) held ((eq_iff id row.id).1 (sym key)) new in
          let tidy' : IsTidy (append_record (db_to_domain row) (visit id s)) =
            subst (λ i. IsTidy (append_record (db_to_domain row) (visit i s))) key
              (IsTidy-append (db_to_domain row) s new tidy) in
          let (t, run, le, tidy'') =
            walk_parents-Ends n (λ i t. walk_lineage lookup n i t) (walk_lineage-Ends n)
              row.parent_ids (append_record (db_to_domain row) (visit id s)) (ground arith) tidy' in
          (t, rw (f, walk_lineage) (rw found run), ground arith, tidy'')
    ]
  ]

  pub get_lineage-Distinct :
      (id : String)
      → (chain : List MemoryRecord) × (get_lineage S id d ≡ some chain)
        × Distinct (map (λ r. r.id) chain)
  unfolding get_lineage
  get_lineage-Distinct id =
      let room : unvisited [] (S.rows d) < suc (length (S.rows d)) =
        ground (arith, length-keep (is_new []) (S.rows d)) in
      let (t, run, _, tidy) =
        walk_lineage-Ends (suc (length (S.rows d))) id (record { chain = []; visited = [] }) room
          (tt, λ x m. ground arith) in
      (t.chain, rw (get_lineage, run) refl, tidy.0)
