-- ===== src/Memory/Conflicts.antt =====
-- `detect_conflicts` of src/syndicateclaw/memory/trust.py on a table whose namespaces and keys are
-- unique.
use syndicateclaw.Base.{
  ◌⊎◌, ℕ, ◌≡◌, refl, sym, ◌∙◌, ap, inl, inr, Bool, true, ◌&&◌, some, List, [], ◌∷◌, map, String,
  ◌==◌, string_eq, eq_iff, length, leb, In, In-keep, arith, Bool-cases,
}
use syndicateclaw.Json.{Value}
use syndicateclaw.Storage.{Sessions}
use syndicateclaw.Memory.Record.{is_active}
use syndicateclaw.Memory.Trust.{TrustRow, distinct, conflicting, detect_conflicts}

-- All texts of a list that are equal count once.
distinct_once :
    (x : String) (xs : List String)
    → ((y : String) → In y xs → y ≡ x)
    → (distinct xs ≡ []) ⊎ (distinct xs ≡ x ∷ [])
distinct_once x [] h = inl refl
distinct_once x (y ∷ ys) h =
    let e : y ≡ x = h y (inl refl) in
    elim (distinct_once x ys (λ z m. h z (inr m))) [
      | inl none_yet ↦ inr (rw none_yet (ap (λ z. z ∷ []) e))
      | inr once ↦ let t : (x == y) ≡ true = (eq_iff x y).1 (sym e) in inr (rw once (rw t refl))
    ]

In-texts :
    (str : Value → String) (y : String) (rs : List TrustRow)
    → In y (map (λ r. str r.value) rs)
    → (r : TrustRow) × In r rs × (str r.value ≡ y)
In-texts str y (r ∷ rs) (inl e) = (r, inl refl, e)
In-texts str y (r ∷ rs) (inr m) = let (s, there, e) = In-texts str y rs m in (s, inr there, e)
In-texts str y [] h = absurd h

module _ (S : Sessions TrustRow (λ r. r.id)) where
  -- No two rows have the same namespace and key: the table's UniqueConstraint.
  abbrev pub IsUnique : S.Db → Type 0
  IsUnique d =
      (r s : TrustRow)
      → In r (S.rows d)
      → In s (S.rows d)
      → r.namespace ≡ s.namespace
      → r.key ≡ s.key
      → r.id ≡ s.id

  same_row :
      (namespace key : String) (d : S.Db)
      → IsUnique d
      → (r s : TrustRow) → In r (conflicting S namespace key d)
      → In s (conflicting S namespace key d)
      → r ≡ s
  same_row namespace key d unique r s m n =
      let p : TrustRow → Bool =
        λ x. (x.namespace == namespace) && ((x.key == key) && is_active x.deletion_status) in
      let (mr, tr) = In-keep p r (S.rows d) m in
      let (ms, ts) = In-keep p s (S.rows d) n in
      let ns : r.namespace ≡ s.namespace =
        (eq_iff r.namespace namespace).0 (ground arith)
        ∙ sym ((eq_iff s.namespace namespace).0 (ground arith)) in
      let ks : r.key ≡ s.key =
        (eq_iff r.key key).0 (ground arith) ∙ sym ((eq_iff s.key key).0 (ground arith)) in
      let ids = unique r s mr ms ns ks in
      let e : some r ≡ some s =
        sym (S.rows_held r d mr) ∙ ap (λ i. S.get i d) ids ∙ S.rows_held s d ms in
      ground arith

  texts_once :
      (str : Value → String) (rs : List TrustRow)
      → ((r s : TrustRow) → In r rs → In s rs → r ≡ s)
      → leb (length (distinct (map (λ r. str r.value) rs))) 1 ≡ true
  texts_once str [] same = refl
  texts_once str (r ∷ rs) same =
      elim (distinct_once (str r.value) (map (λ x. str x.value) (r ∷ rs)) (λ y m.
        let (x, there, e) = In-texts str y (r ∷ rs) m in
        sym e ∙ ap (λ z. str z.value) (same x r there (inl refl)))) [
          | inl none_yet ↦ ap (λ l. leb (length l) 1) none_yet
          | inr once ↦ ap (λ l. leb (length l) 1) once
        ]

  -- Where no two records have the same namespace and key, as the table demands, detect_conflicts
  -- finds no conflict and changes nothing, whatever the namespace and the key.
  pub detect_conflicts_never :
      (str : Value → String) (now : ℕ) (set namespace key : String) (d : S.Db)
      → IsUnique d
      → detect_conflicts S str now set namespace key d ≡ ([], d)
  unfolding detect_conflicts
  detect_conflicts_never str now set namespace key d unique =
      let rs = conflicting S namespace key d in
      let once = texts_once str rs (same_row namespace key d unique) in
      elim (Bool-cases (leb (length rs) 1)) [
        | inl few ↦ rw few refl
        | inr many ↦ rw many (rw once refl)
      ]
