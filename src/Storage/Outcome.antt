-- ===== src/Storage/Outcome.antt =====
-- The two ways in which a transaction ends.
use syndicateclaw.Base.{String, ◌≡◌, refl, ◌⊎◌, inl, inr, Error, Result, ok, err}
use syndicateclaw.Storage.{Sessions}

module _ {Row : Type 0} {key : Row → String} (S : Sessions Row key) (A : Type 0) where
  -- It commits what its block wrote, or the block raised and the database is as before.
  abbrev pub Outcome : (S.Db → Result A × S.Db) → S.Db → Type 0
  Outcome m d =
      ((a : A) × (m d ≡ (ok a, (m d).1)) × (S.transaction A m d ≡ (ok a, (m d).1)))
      ⊎ ((e : Error) × ((m d).0 ≡ err e) × (S.transaction A m d ≡ (err e, d)))

  split_result : (m : S.Db → Result A × S.Db) (d : S.Db) (r : Result A) → (m d).0 ≡ r → Outcome m d
  split_result m d (ok a) h =
      let e : m d ≡ (ok a, (m d).1) = λ i. (h i, (m d).1) in inl (a, e, S.commits A m d e)
  split_result m d (err x) h =
      let e : m d ≡ (err x, (m d).1) = λ i. (h i, (m d).1) in inr (x, h, S.rolls_back A m d e)

  pub transaction-Outcome : (m : S.Db → Result A × S.Db) (d : S.Db) → Outcome m d
  transaction-Outcome m d = split_result m d (m d).0 refl
