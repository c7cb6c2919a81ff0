-- ===== src/DeadLetter/GivesUp.antt =====
-- A record is given up after its retries.
use syndicateclaw.Base.{◌-◌}
use syndicateclaw.Base.{
  ℕ, zero, suc, ◌+◌, ◌≤◌, ◌≡◌, refl, sym, ◌∙◌, ap, Bool, true, false, some, String, ◌==◌, string_eq,
  eq_iff, Bool-cases, inl, inr, ◌⊎◌, arith, leb, List, [], ◌∷◌, In, In-keep, In-keep_of, keep,
}
use syndicateclaw.Storage.{Sessions}
use syndicateclaw.DeadLetter.Queue.{
  DeadLetter, World, is_eligible, retry_row, retry_rows, retry_all,
}
use syndicateclaw.DeadLetter.Exhaustion.{
  Refuses, GivenUp, Waiting, row_other, row_exhausted, row_retried,
}

module _ {P A : Type 0} (S : Sessions (DeadLetter P) (λ r. r.id))
    (emits : P → World S A → Bool × World S A) where
  -- `retry_all` at the times of a clock, `n` times
  unfoldable pub runs : (ℕ → ℕ) → ℕ → World S A → World S A
  runs clock zero w = w
  runs clock (suc n) w = runs (λ i. clock (suc i)) n (retry_all S emits (clock 0) w).1

  module _ (refuses : Refuses S emits) (k : String) where
    -- the records under `k` of a list are all `r`
    abbrev Only : DeadLetter P → List (DeadLetter P) → Type 0
    Only r recs = (x : DeadLetter P) → In x recs → (x.id == k) ≡ true → x ≡ r

    rest-Only : (r x : DeadLetter P) (recs : List (DeadLetter P)) → Only r (x ∷ recs) → Only r recs
    rest-Only r x recs o y m = o y (inr m)

    fewer : {m c : ℕ} {d : S.Db} → Waiting S emits k m (suc c) d → Waiting S emits k m c d
    fewer h = record {
      row = h.row;
      stored = h.stored;
      eligible = h.eligible;
      limit = h.limit;
      count = omega (arith, h.count);
    }

    module _ (now : ℕ) (r : DeadLetter P) (named : (r.id == k) ≡ true) where
      rows_exhausted :
          leb r.max_retries r.retry_count ≡ true
          → (recs : List (DeadLetter P)) (w : World S A) → Only r recs
          → (In r recs × ((x : DeadLetter P) × (S.get k w.db ≡ some x))) ⊎ GivenUp S emits k w.db
          → GivenUp S emits k (retry_rows S emits now recs w).1.db
      unfolding retry_rows
      rows_exhausted full [] w o (inl (m, _)) = elim m [ ]
      rows_exhausted full [] w o (inr g) = g
      rows_exhausted full (x ∷ recs) w o h = elim (Bool-cases (x.id == k)) [
        | inl t ↦
            let same : x ≡ r = o x (inl refl) t in
            let full' : leb x.max_retries x.retry_count ≡ true = rw same full in
            let now_given : GivenUp S emits k (retry_row S emits now x w).1.db = elim h [
              | inl (m, (y, e)) ↦ row_exhausted S emits refuses now k x w {r = y} t full' e
              | inr g ↦ row_exhausted S emits refuses now k x w {r = g.row} t full' g.stored
            ] in
            rows_exhausted full recs (retry_row S emits now x w).1 (rest-Only r x recs o)
              (inr now_given)
        | inr f ↦
            let kept = row_other S emits refuses now k x w f in
            rows_exhausted full recs (retry_row S emits now x w).1 (rest-Only r x recs o) (elim h [
              | inl (inl e, _) ↦ let t' : (x.id == k) ≡ true = rw e named in ground arith
              | inl (inr m, (y, e)) ↦ inl (m, (y, kept ∙ e))
              | inr g ↦ inr (record { row = g.row; stored = kept ∙ g.stored; failed = g.failed })
            ])
      ]

      rows_retried :
          leb r.max_retries r.retry_count ≡ false
          → (recs : List (DeadLetter P)) (w : World S A) (m c : ℕ) → Only r recs
          → Waiting S emits k m c w.db
          → Waiting S emits k m c (retry_rows S emits now recs w).1.db
            × (In r recs → Waiting S emits k m (suc c) (retry_rows S emits now recs w).1.db)
      unfolding retry_rows
      rows_retried left [] w m c o h = (h, λ i. elim i [ ])
      rows_retried left (x ∷ recs) w m c o h = elim (Bool-cases (x.id == k)) [
        | inl t ↦
            let same : x ≡ r = o x (inl refl) t in
            let left' : leb x.max_retries x.retry_count ≡ false = rw same left in
            let next = row_retried S emits refuses now k x w m c t left' h in
            let (done, _) =
              rows_retried left recs (retry_row S emits now x w).1 m (suc c) (rest-Only r x recs o)
                next in
            (fewer done, λ i. done)
        | inr f ↦
            let kept = row_other S emits refuses now k x w f in
            let same : Waiting S emits k m c (retry_row S emits now x w).1.db = record {
              row = h.row;
              stored = kept ∙ h.stored;
              eligible = h.eligible;
              limit = h.limit;
              count = h.count;
            } in
            let (first, second) =
              rows_retried left recs (retry_row S emits now x w).1 m c (rest-Only r x recs o)
                same in
            (
              first,
              λ i. elim i [
                | inl e ↦ let t' : (x.id == k) ≡ true = rw e named in ground arith
                | inr j ↦ second j
              ],
            )
      ]

    selected : (d : S.Db) → List (DeadLetter P)
    selected d = keep is_eligible (S.rows d)

    selected-Only : (d : S.Db) (r : DeadLetter P) → S.get k d ≡ some r → Only r (selected d)
    unfolding selected
    selected-Only d r e x m t =
        let (held, _) = In-keep is_eligible x (S.rows d) m in
        let here : S.get x.id d ≡ some x = S.rows_held x d held in
        let same : x.id ≡ k = (eq_iff x.id k).0 t in
        let both : some x ≡ some r = sym here ∙ ap (λ i. S.get i d) same ∙ e in ground arith

    selected_In :
        (d : S.Db) (r : DeadLetter P)
        → S.get k d ≡ some r
        → is_eligible r ≡ true
        → In r (selected d)
    unfolding selected
    selected_In d r e t = In-keep_of is_eligible r (S.rows d) (S.rows_all k d e).0 t

    under :
        {m c : ℕ} {d : S.Db}
        → (h : Waiting S emits k m c d) → leb h.row.max_retries h.row.retry_count ≡ false
        → suc c ≤ m
    under h room = let limit = h.limit in let count = h.count in ground arith

    retry_all_step :
        (now m c : ℕ) (w : World S A)
        → Waiting S emits k m c w.db
        → GivenUp S emits k (retry_all S emits now w).1.db
          ⊎ ((suc c ≤ m) × Waiting S emits k m (suc c) (retry_all S emits now w).1.db)
    unfolding retry_all selected
    retry_all_step now m c w h =
        let named : (h.row.id == k) ≡ true = (eq_iff h.row.id k).1 (S.rows_all k w.db h.stored).1 in
        let only = selected-Only w.db h.row h.stored in
        let here = selected_In w.db h.row h.stored h.eligible in
        elim (Bool-cases (leb h.row.max_retries h.row.retry_count)) [
          | inl full ↦ inl (
              rows_exhausted now h.row named full (selected w.db) w only
                (inl (here, (h.row, h.stored))))
          | inr room ↦ inr (
            under h room,
            (rows_retried now h.row named room (selected w.db) w m c only h).1 here,
          )
        ]

    runs-GivenUp :
        (n m c : ℕ) (clock : ℕ → ℕ) (w : World S A)
        → m ≤ n + c
        → Waiting S emits k m c w.db
        → (j : ℕ) × (j ≤ suc n) × GivenUp S emits k (runs clock j w).db
    unfolding runs
    runs-GivenUp zero m c clock w le h = elim (retry_all_step (clock 0) m c w h) [
      | inl g ↦ (1, omega arith, g)
      | inr (room, next) ↦ absurd (omega arith)
    ]
    runs-GivenUp (suc n) m c clock w le h = elim (retry_all_step (clock 0) m c w h) [
      | inl g ↦ (1, omega arith, g)
      | inr (room, next) ↦
          let (j, bound, g) =
            runs-GivenUp n m (suc c) (λ i. clock (suc i)) (retry_all S emits (clock 0) w).1
              (omega arith) next in
          (suc j, omega (arith, bound), g)
    ]

    -- While the store takes no event and the queue is not attached to the audit service, a pending
    -- record with a transient error is given up, FAILED_PERMANENT, after at most one run of
    -- retry_all more than the retries that it has left.
    pub retries_end :
        (clock : ℕ → ℕ) (w : World S A) (row : DeadLetter P)
        → S.get k w.db ≡ some row
        → is_eligible row ≡ true
        → (j : ℕ) × (j ≤ suc (row.max_retries - row.retry_count))
          × GivenUp S emits k (runs clock j w).db
    retries_end clock w row e t =
        runs-GivenUp (row.max_retries - row.retry_count) row.max_retries row.retry_count clock w
          (omega arith)
          (record { row = row; stored = e; eligible = t; limit = refl; count = omega arith })
