-- ===== src/Memory/Decay.antt =====
-- Runs of `apply_decay`, one after another.
use syndicateclaw.Base.{
  ℕ, zero, suc, ◌-◌, ◌*◌, ◌≤◌, ◌<◌, ◌≡◌, refl, sym, ◌∙◌, ap, inl, inr, true, Option, none, some,
  string_eq, eq_iff, eq_refl, keep, leb, nat_beq_iff, In-keep, In-keep_of, arith, Bool-cases,
}
use syndicateclaw.Storage.{Sessions}
use syndicateclaw.Storage.MergeAll.{get-merge_all}
use syndicateclaw.Memory.Trust.{
  TrustRow, one, score_or_one, rate_or_default, decayed, is_decaying, same_score, new_score,
  decayed_row, apply_decay,
}

decayed_id : (now : ℕ) (r : TrustRow) → (decayed_row now r).id ≡ r.id
unfolding decayed_row
decayed_id now r = ground arith

same_score_lem : (n : ℕ) (o : Option ℕ) → same_score n o ≡ true → o ≡ some n
same_score_lem n none h = ground arith
same_score_lem n (some m) h = ap (λ x. some x) (sym ((nat_beq_iff n m).0 h))

-- What a run leaves in a row: the new score, and the rest of what it reads.
record IsDecayed (now : ℕ) (r s : TrustRow) : Type 0 where
  pub score : s.trust_score ≡ some (new_score now r)
  pub rate : s.decay_rate ≡ r.decay_rate
  pub last : s.last_validated_at ≡ r.last_validated_at
  pub status : s.deletion_status ≡ r.deletion_status
  pub frozen : s.trust_frozen ≡ r.trust_frozen

decayed_row-IsDecayed : (now : ℕ) (r : TrustRow) → IsDecayed now r (decayed_row now r)
unfolding decayed_row
decayed_row-IsDecayed now r = elim (Bool-cases (same_score (new_score now r) r.trust_score)) [
  | inl t ↦ rw t (record {
    score = same_score_lem (new_score now r) r.trust_score t;
    rate = refl;
    last = refl;
    status = refl;
    frozen = refl;
  })
  | inr f ↦ rw f (record { score = refl; rate = refl; last = refl; status = refl; frozen = refl })
]

new_score_lem :
    (now : ℕ) (r : TrustRow) (v : ℕ)
    → r.last_validated_at ≡ some v
    → new_score now r ≡ decayed (score_or_one r.trust_score) (rate_or_default r.decay_rate) v now
unfolding new_score
new_score_lem now r v h = rw (h, new_score) refl

score_twice :
    (t1 t2 : ℕ) (r : TrustRow) (v : ℕ)
    → r.last_validated_at ≡ some v
    → new_score t2 (decayed_row t1 r)
      ≡ decayed
          (score_or_one
            (some (decayed (score_or_one r.trust_score) (rate_or_default r.decay_rate) v t1)))
          (rate_or_default r.decay_rate)
          v
          t2
score_twice t1 t2 r v h =
    let x = decayed_row-IsDecayed t1 r in
    new_score_lem t2 (decayed_row t1 r) v (x.last ∙ h)
    ∙ ap (λ o. decayed (score_or_one o) (rate_or_default (decayed_row t1 r).decay_rate) v t2)
        x.score
    ∙ ap (λ o. decayed (score_or_one (some (new_score t1 r))) (rate_or_default o) v t2) x.rate
    ∙ ap (λ n. decayed (score_or_one (some n)) (rate_or_default r.decay_rate) v t2)
        (new_score_lem t1 r v h)

decayed_past : (s k v t : ℕ) → v ≤ t → decayed s k v t ≡ s - k * (t - v)
decayed_past s k v t le = let e : leb v t ≡ true = ground arith in rw e refl

score_pos : (n : ℕ) → 0 < n → score_or_one (some n) ≡ n
score_pos zero h = elim h [ ]
score_pos (suc n) h = refl

module _ (S : Sessions TrustRow (λ r. r.id)) (min_usable : ℕ) where
  get-apply_decay :
      (now : ℕ) (r : TrustRow) (d : S.Db)
      → S.get r.id d ≡ some r
      → is_decaying r ≡ true
      → S.get r.id (apply_decay S min_usable now d).1 ≡ some (decayed_row now r)
  unfolding apply_decay
  get-apply_decay now r d held live =
      get-merge_all S (decayed_row now) (decayed_id now) r.id r (keep is_decaying (S.rows d)) d
        (In-keep_of is_decaying r (S.rows d) (S.rows_all r.id d held).0 live) (eq_refl r.id)
        (λ x m t.
          let there = (In-keep is_decaying x (S.rows d) m).0 in
          let e : some x ≡ some r =
            sym (S.rows_held x d there) ∙ ap (λ i. S.get i d) ((eq_iff x.id r.id).0 t) ∙ held in
          ground arith)

  module _ (t1 t2 : ℕ) (r : TrustRow) (d : S.Db) (held : S.get r.id d ≡ some r) where
    twice :
        is_decaying r ≡ true
        → (s : TrustRow) × (S.get r.id
              (apply_decay S min_usable t2 (apply_decay S min_usable t1 d).1).1
            ≡ some s)
          × (s.trust_score ≡ some (new_score t2 (decayed_row t1 r)))
    twice live =
        let m = decayed_row t1 r in
        let v = decayed_row-IsDecayed t1 r in
        let first = get-apply_decay t1 r d held live in
        let named = decayed_id t1 r in
        let live' : is_decaying m ≡ true = rw (v.status, v.frozen, v.last) live in
        let held' = ap (λ i. S.get i (apply_decay S min_usable t1 d).1) named ∙ first in
        let second = get-apply_decay t2 m (apply_decay S min_usable t1 d).1 held' live' in
        (
          decayed_row t2 m,
          ap (λ i. S.get i (apply_decay S min_usable t2 (apply_decay S min_usable t1 d).1).1)
                (sym named)
              ∙ second,
          (decayed_row-IsDecayed t2 m).score,
        )

    module _ (live : is_decaying r ≡ true) (v : ℕ) (validated : r.last_validated_at ≡ some v)
        (past : v ≤ t1) (later : t1 ≤ t2) where
      -- Two runs of apply_decay take off a record what has decayed since its last validation twice,
      -- once up to the first run and again up to the second, where one run at the second time takes it
      -- off once. This holds while a score is left after the first.
      pub decay_compounds :
          rate_or_default r.decay_rate * (t1 - v) < score_or_one r.trust_score
          → (s : TrustRow) × (S.get r.id
                (apply_decay S min_usable t2 (apply_decay S min_usable t1 d).1).1
              ≡ some s)
            × (s.trust_score
                ≡ some (
                    score_or_one r.trust_score
                    - rate_or_default r.decay_rate * (t1 - v)
                    - rate_or_default r.decay_rate * (t2 - v)))
            × (u : TrustRow) × (S.get r.id (apply_decay S min_usable t2 d).1 ≡ some u)
            × (u.trust_score
                ≡ some (score_or_one r.trust_score - rate_or_default r.decay_rate * (t2 - v)))
      decay_compounds left =
          let (s, there, score) = twice live in
          let k = rate_or_default r.decay_rate in
          let q = score_or_one r.trust_score in
          (
            s,
            there,
            score
                ∙ ap (λ n. some n)
                    (score_twice t1 t2 r v validated
                      ∙ decayed_past (score_or_one (some (decayed q k v t1))) k v t2 (omega arith)
                      ∙ ap (λ n. score_or_one (some n) - k * (t2 - v)) (decayed_past q k v t1 past)
                      ∙ ap (λ n. n - k * (t2 - v)) (score_pos (q - k * (t1 - v)) (omega arith))),
            decayed_row t2 r,
            get-apply_decay t2 r d held live,
            (decayed_row-IsDecayed t2 r).score
                ∙ ap (λ n. some n)
                    (new_score_lem t2 r v validated ∙ decayed_past q k v t2 (omega arith)),
          )

      -- A record whose trust has decayed to 0.0 in one run of apply_decay has, after the next, what is
      -- left of 1.0 since its last validation.
      pub zero_revived :
          score_or_one r.trust_score ≤ rate_or_default r.decay_rate * (t1 - v)
          → (s : TrustRow) × (S.get r.id
                (apply_decay S min_usable t2 (apply_decay S min_usable t1 d).1).1
              ≡ some s)
            × (s.trust_score ≡ some (one - rate_or_default r.decay_rate * (t2 - v)))
      zero_revived gone =
          let (s, there, score) = twice live in
          let k = rate_or_default r.decay_rate in
          let q = score_or_one r.trust_score in
          let none_left : q - k * (t1 - v) ≡ 0 = omega arith in
          (
            s,
            there,
            score
                ∙ ap (λ n. some n)
                    (score_twice t1 t2 r v validated
                      ∙ decayed_past (score_or_one (some (decayed q k v t1))) k v t2 (omega arith)
                      ∙ ap (λ n. score_or_one (some n) - k * (t2 - v))
                          (decayed_past q k v t1 past ∙ none_left)),
          )
