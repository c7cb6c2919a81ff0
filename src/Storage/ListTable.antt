-- ===== src/Storage/ListTable.antt =====
-- A table as a list of rows, the newest version of a row first: the assumptions on the sessions
-- can be met.
use syndicateclaw.Base.{
  String, ◌≡◌, refl, not, Option, none, some, List, [], ◌∷◌, inl, inr, arith, ◌==◌, string_eq,
  eq_iff, eq_refl, keep, find, if◌then◌else◌, is_some, Result, ok, err, integrity_error, Error,
  Bool-cases, In, In-keep, In-keep_of,
}
use syndicateclaw.Storage.{Sessions}

module _ {Row : Type 0} (key : Row → String) where
  abbrev pub get : String → List Row → Option Row
  get k = find (λ r. key r == k)

  abbrev pub rows : List Row → List Row
  rows [] = []
  rows (r ∷ d) = r ∷ keep (λ x. not (key r == key x)) (rows d)

  abbrev pub add : Row → List Row → Result (List Row)
  add r d = if is_some (get (key r) d) then err integrity_error else ok (r ∷ d)

  abbrev pub transaction :
      (A : Type 0) → (List Row → Result A × List Row) → List Row → Result A × List Row
  transaction A m d = let (r, d') = m d in elim r [ ok a ↦ (ok a, d') | err e ↦ (err e, d) ]

  pub rows_held : (r : Row) (d : List Row) → In r (rows d) → get (key r) d ≡ some r
  rows_held r [] h = absurd h
  rows_held r (x ∷ d) (inl e) = rw e (simp eq_refl)
  rows_held r (x ∷ d) (inr m) =
      let (m', ne) = In-keep (λ y. not (key x == key y)) r (rows d) m in
      ground (arith, rows_held r d m')

  pub rows_all :
      (k : String) (d : List Row) {r : Row} → get k d ≡ some r → In r (rows d) × (key r ≡ k)
  rows_all k [] h = ground arith
  rows_all k (x ∷ d) {r} h = elim (Bool-cases (key x == k)) [
    | inl t ↦ let e : x ≡ r = ground arith in (inl e, rw (← e) ((eq_iff (key x) k).0 t))
    | inr f ↦
        let (m, e) = rows_all k d {r = r} (rw f at h) in
        (inr (In-keep_of (λ y. not (key x == key y)) r (rows d) m (rw e (rw f))), e)
  ]

  pub get-add :
      (k : String) (r : Row) (d : List Row) {d' : List Row}
      → add r d ≡ ok d'
      → get k d' ≡ (if key r == k then some r else get k d)
  get-add k r d h = ground arith

  pub commits :
      (A : Type 0) (m : List Row → Result A × List Row) (d : List Row) {a : A} {d' : List Row}
      → m d ≡ (ok a, d')
      → transaction A m d ≡ (ok a, d')
  commits A m d h = ground arith

  pub rolls_back :
      (A : Type 0) (m : List Row → Result A × List Row) (d : List Row) {e : Error} {d' : List Row}
      → m d ≡ (err e, d')
      → transaction A m d ≡ (err e, d)
  rolls_back A m d h = ground arith

  pub add_fresh :
      (r : Row) (d : List Row) → get (key r) d ≡ none → (d' : List Row) × (add r d ≡ ok d')
  add_fresh r d h = (r ∷ d, rw h)

  pub add_taken :
      (r : Row) (d : List Row) {old : Row}
      → get (key r) d ≡ some old
      → add r d ≡ err integrity_error
  add_taken r d h = rw h

  abbrev pub list_table : Sessions Row key
  list_table = record {
    Db = List Row;
    get = get;
    merge = ◌∷◌;
    add = add;
    rows = rows;
    transaction = transaction;
    get-merge = λ k r d. refl;
    get-add = get-add;
    add_fresh = add_fresh;
    add_taken = add_taken;
    rows_held = rows_held;
    rows_all = rows_all;
    commits = commits;
    rolls_back = rolls_back;
  }
