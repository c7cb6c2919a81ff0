-- ===== src/Storage/MergeAll.antt =====
-- Rows that are read by one SELECT and written back, each changed.
use syndicateclaw.Base.{
  String, ◌≡◌, refl, ◌∙◌, ap, some, List, [], ◌∷◌, inl, inr, ◌==◌, string_eq, Bool-cases, true,
  false, In,
}
use syndicateclaw.Storage.{Sessions}

module _ {Row : Type 0} {key : Row → String} (S : Sessions Row key) (f : Row → Row) where
  unfoldable pub merge_all : List Row → S.Db → S.Db
  merge_all [] d = d
  merge_all (r ∷ rs) d = merge_all rs (S.merge (f r) d)

  module _ (same : (r : Row) → key (f r) ≡ key r) (id : String) where
    put_one : (r : Row) (d : S.Db) → (key r == id) ≡ true → S.get id (S.merge (f r) d) ≡ some (f r)
    put_one r d t = S.get-merge id (f r) d ∙ rw (same r) (rw t refl)

    put_other :
        (r : Row) (d : S.Db) → (key r == id) ≡ false → S.get id (S.merge (f r) d) ≡ S.get id d
    put_other r d n = S.get-merge id (f r) d ∙ rw (same r) (rw n refl)

    -- The rows of the list that have the id are this row.
    abbrev pub IsOnly : Row → List Row → Type 0
    IsOnly r0 rs = (r : Row) → In r rs → (key r == id) ≡ true → r ≡ r0

    still :
        (r0 : Row) (rs : List Row) (d : S.Db)
        → IsOnly r0 rs
        → S.get id d ≡ some (f r0)
        → S.get id (merge_all rs d) ≡ some (f r0)
    unfolding merge_all
    still r0 [] d only h = h
    still r0 (r ∷ rs) d only h = elim (Bool-cases (key r == id)) [
      | inl t ↦
          still r0 rs (S.merge (f r) d) (λ x m. only x (inr m))
            (put_one r d t ∙ ap (λ x. some (f x)) (only r (inl refl) t))
      | inr n ↦ still r0 rs (S.merge (f r) d) (λ x m. only x (inr m)) (put_other r d n ∙ h)
    ]

    pub get-merge_all :
        (r0 : Row) (rs : List Row) (d : S.Db)
        → In r0 rs
        → (key r0 == id) ≡ true
        → IsOnly r0 rs
        → S.get id (merge_all rs d) ≡ some (f r0)
    unfolding merge_all
    get-merge_all r0 [] d m t only = absurd m
    get-merge_all r0 (r ∷ rs) d (inl e) t only =
        still r0 rs (S.merge (f r) d) (λ x m. only x (inr m))
          (put_one r d (ap (λ x. key x == id) e ∙ t) ∙ ap (λ x. some (f x)) e)
    get-merge_all r0 (r ∷ rs) d (inr m) t only =
        get-merge_all r0 rs (S.merge (f r) d) m t (λ x q. only x (inr q))
