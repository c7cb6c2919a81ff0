-- ===== src/Storage.antt =====
-- The database that the services keep their rows in: what they rely on of SQLAlchemy's sessions
-- (`session.get`, `session.merge`, `session.add`, a SELECT of a table, `session.begin()`).
-- A transaction commits when its block returns and rolls back when its block raises.
pub mod ListTable
pub mod Outcome
pub mod MergeAll
use syndicateclaw.Base.{
  ℕ, String, ◌≡◌, Option, none, some, List, [], ◌∷◌, ◌==◌, string_eq, In, if◌then◌else◌, Error,
  Result, ok, err, integrity_error,
}

pub record Sessions (Row : Type 0) (key : Row → String) : Type 1 where
  pub Db : Type 0
  pub get : String → Db → Option Row
  pub merge : Row → Db → Db
  pub add : Row → Db → Result Db
  pub rows : Db → List Row
  pub transaction : (A : Type 0) → (Db → Result A × Db) → Db → Result A × Db
  pub get-merge :
      (k : String) (r : Row) (d : Db) → get k (merge r d) ≡ (if key r == k then some r else get k d)
  pub get-add :
      (k : String) (r : Row) (d : Db) {d' : Db}
      → add r d ≡ ok d'
      → get k d' ≡ (if key r == k then some r else get k d)
  pub add_fresh : (r : Row) (d : Db) → get (key r) d ≡ none → (d' : Db) × (add r d ≡ ok d')
  pub add_taken :
      (r : Row) (d : Db) {old : Row} → get (key r) d ≡ some old → add r d ≡ err integrity_error
  pub rows_held : (r : Row) (d : Db) → In r (rows d) → get (key r) d ≡ some r
  pub rows_all : (k : String) (d : Db) {r : Row} → get k d ≡ some r → In r (rows d) × (key r ≡ k)
  pub commits :
      (A : Type 0) (m : Db → Result A × Db) (d : Db) {a : A} {d' : Db}
      → m d ≡ (ok a, d')
      → transaction A m d ≡ (ok a, d')
  pub rolls_back :
      (A : Type 0) (m : Db → Result A × Db) (d : Db) {e : Error} {d' : Db}
      → m d ≡ (err e, d')
      → transaction A m d ≡ (err e, d)
