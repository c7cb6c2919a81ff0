-- ===== src/DeadLetter/Retry.antt =====
-- What a change of one row, and the retry of one record, do to a row.
use mathlib.Core.Option
use syndicateclaw.Base.{
  ◌≡◌, refl, ◌∙◌, ap, none, some, String, ◌==◌, string_eq, eq_iff, if◌then◌else◌, Bool-cases,
  Option-cases, inl, inr,
}
use syndicateclaw.Storage.{Sessions}
use syndicateclaw.DeadLetter.Queue.{DeadLetter, change_row}

module _ {P : Type 0} (S : Sessions (DeadLetter P) (λ r. r.id)) where
  pub get-change_row :
      (f : DeadLetter P → DeadLetter P)
      → ((r : DeadLetter P) → (f r).id ≡ r.id)
      → (k id : String) (d : S.Db)
      → S.get k (change_row S id f d) ≡ (if id == k then Option.map f (S.get k d) else S.get k d)
  get-change_row f keeps k id d = elim (Option-cases (S.get id d)) [
    | inl n ↦ elim (Bool-cases (id == k)) [
      | inl t ↦
          let same : id ≡ k = (eq_iff id k).0 t in
          let n' : S.get k d ≡ none = rw (← same) n in rw (n, change_row) (rw t (rw n' refl))
      | inr f ↦ rw (n, change_row) (rw f refl)
    ]
    | inr (row, e) ↦
        let named : (f row).id ≡ id = keeps row ∙ (S.rows_all id d e).1 in
        let test : ((f row).id == k) ≡ (id == k) = ap (λ x. x == k) named in
        rw (e, change_row)
          (rw (S.get-merge k (f row) d) (
            rw test (elim (Bool-cases (id == k)) [
              | inl t ↦
                  let same : id ≡ k = (eq_iff id k).0 t in
                  let e' : S.get k d ≡ some row = rw (← same) e in rw t (rw e' refl)
              | inr f ↦ rw f refl
            ])))
  ]
