-- ===== src/Approval/Expiry.antt =====
-- `expire_stale` against its description: every pending row past its deadline, and no other.
use mathlib.Core.Option
use syndicateclaw.Base.{
  ℕ, String, ◌≡◌, refl, sym, true, false, Option, none, some, List, [], ◌∷◌, map, ◌==◌, string_eq,
  eq_iff, keep, any, length, if◌then◌else◌, ok, arith, Option-cases, Bool-cases, inl, inr, In,
  In-keep, In-keep_of, any_of_In, any-In, ◌∙◌, ap, ◌+◌, length-append, length-map,
}
use syndicateclaw.Storage.{Sessions}
use syndicateclaw.Approval.Row.{ApprovalRow}
use syndicateclaw.Approval.Service.{
  World, expire, is_stale, expire_rows, expire_in_session, expire_stale, report_expired,
}

-- what the passage of time does to one row
abbrev pub expire_if : ℕ → ApprovalRow → ApprovalRow
expire_if now r = if is_stale now r then expire now r else r

module _ (S : Sessions ApprovalRow (λ r. r.id)) (now : ℕ) (k : String) where
  -- The rows that the loop runs over are those that the database held under `k` at the start.
  get-expire_rows :
      (rs : List ApprovalRow) (d : S.Db) (o : Option ApprovalRow)
      → ((r : ApprovalRow) → In r rs → (r.id == k) ≡ true → o ≡ some r)
      → S.get k (expire_rows S now rs d)
        ≡ (if any (λ r. r.id == k) rs then Option.map (expire now) o else S.get k d)
  unfolding expire_rows
  get-expire_rows [] d o held = refl
  get-expire_rows (r ∷ rs) d o held =
      rw (get-expire_rows rs (S.merge (expire now r) d) o (λ x m. held x (inr m))) (
        rw (S.get-merge k (expire now r) d) elim (Bool-cases (r.id == k)) [
          | inl t ↦ rw (held r (inl refl) t) (ground arith)
          | inr f ↦ rw f refl
        ])

  abbrev stale_rows : S.Db → List ApprovalRow
  stale_rows d = keep (is_stale now) (S.rows d)

  held_of_In :
      (d : S.Db) (r : ApprovalRow) → In r (stale_rows d) → (r.id == k) ≡ true → S.get k d ≡ some r
  held_of_In d r m t =
      let e : r.id ≡ k = (eq_iff r.id k).0 t in
      rw (← e) (S.rows_held r d (In-keep (is_stale now) r (S.rows d) m).0)

  -- The row under `k` is one of the stale rows exactly when it is stale.
  stale_found :
      (d : S.Db) {r : ApprovalRow}
      → S.get k d ≡ some r
      → any (λ x. x.id == k) (stale_rows d) ≡ is_stale now r
  stale_found d {r} e = elim (Bool-cases (any (λ x. x.id == k) (stale_rows d))) [
    | inl t ↦
        let (x, m, q) = any-In (λ x. x.id == k) (stale_rows d) t in
        let same : x ≡ r = ground (arith, held_of_In d x m q) in
        t ∙ sym (rw (← same) (In-keep (is_stale now) x (S.rows d) m).1)
    | inr f ↦ elim (Bool-cases (is_stale now r)) [
      | inl t ↦
          let (m, q) = S.rows_all k d e in
          let m' = In-keep_of (is_stale now) r (S.rows d) m t in
          any_of_In (λ x. x.id == k) r (stale_rows d) m' ((eq_iff r.id k).1 q) ∙ sym t
      | inr g ↦ f ∙ sym g
    ]
  ]

  stale_absent : (d : S.Db) → S.get k d ≡ none → any (λ x. x.id == k) (stale_rows d) ≡ false
  stale_absent d e = elim (Bool-cases (any (λ x. x.id == k) (stale_rows d))) [
    | inl t ↦
        let (x, m, q) = any-In (λ x. x.id == k) (stale_rows d) t in
        ground (arith, held_of_In d x m q)
    | inr f ↦ f
  ]

  get-expired :
      (d : S.Db)
      → S.get k (expire_rows S now (stale_rows d) d) ≡ Option.map (expire_if now) (S.get k d)
  get-expired d =
      get-expire_rows (stale_rows d) d (S.get k d) (held_of_In d)
      ∙ elim (Option-cases (S.get k d)) [
        | inl e ↦ rw (e, stale_absent d e) refl
        | inr (r, e) ↦ rw (e, stale_found d e) (ground arith)
      ]

  report_expired_db :
      (rows : List ApprovalRow) (d : S.Db) (w : World S)
      → (report_expired S (ok rows, d) w).1.db ≡ d
  report_expired_db [] d w = refl
  report_expired_db (r ∷ rs) d w = elim (Bool-cases w.audit_fails) [
    | inl t ↦ rw t refl
    | inr f ↦ rw f refl
  ]

  report_expired_taken :
      (rows : List ApprovalRow) (d : S.Db) (w : World S)
      → w.audit_fails ≡ false
      → ((report_expired S (ok rows, d) w).0 ≡ ok (length rows))
        × (length (report_expired S (ok rows, d) w).1.audit ≡ length w.audit + length rows)
  report_expired_taken [] d w up = (refl, omega arith)
  report_expired_taken (r ∷ rs) d w up = rw up (refl, simp (length-append, length-map))

  -- After `expire_stale` every stored request is as it was, but that those pending and past
  -- their deadline are expired.
  pub get-expire_stale :
      (w : World S)
      → S.get k (expire_stale S now w).1.db ≡ Option.map (expire_if now) (S.get k w.db)
  unfolding expire_stale
  get-expire_stale w =
      rw (S.commits (List ApprovalRow) (expire_in_session S now) w.db refl)
        (ap (S.get k) (report_expired_db _ _ w) ∙ get-expired w.db)

  -- It reports how many rows it expired, and emits one event for each, if the audit service takes
  -- them.
  pub expire_stale_report :
      (w : World S)
      → w.audit_fails ≡ false
      → ((expire_stale S now w).0 ≡ ok (length (stale_rows w.db)))
        × (length (expire_stale S now w).1.audit ≡ length w.audit + length (stale_rows w.db))
  unfolding expire_stale
  expire_stale_report w up =
      let same = length-map (expire now) (stale_rows w.db) in
      let (count, events) =
        report_expired_taken (map (expire now) (stale_rows w.db)) (expire_in_session S now w.db).1 w
          up in
      rw (S.commits (List ApprovalRow) (expire_in_session S now) w.db refl)
        (count ∙ ap ok same, events ∙ ap (λ n. length w.audit + n) same)
