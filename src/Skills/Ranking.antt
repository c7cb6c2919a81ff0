-- ===== src/Skills/Ranking.antt =====
-- The order of the sort keys is total, and `compare_candidates` agrees with it.
use syndicateclaw.Skills.Router.{is_zero}
use syndicateclaw.Skills.Scoring.{id_leb}
use syndicateclaw.Base.{
  ℕ, ◌≡◌, sym, Bool, true, false, String, ◌==◌, string_eq, if◌then◌else◌, eq_iff, Bool-cases, inl,
  inr, arith, ◌∙◌,
}
use syndicateclaw.Json.{ℤ, pos, negsuc}
use syndicateclaw.Order.{IsOrder}
use syndicateclaw.Text.{str_leb, str_leb-IsOrder, str_leb_antisym}
use syndicateclaw.Skills.Scoring.{
  Scored, risk_rank, determinism_rank, compare_candidates, by_number, by_negated, by_text, key_leb,
}

module _ {A : Type 0} (le : A → A → Bool) (order : IsOrder le) where
  by_number-IsOrder : (f : A → ℕ) → IsOrder (by_number f le)
  by_number-IsOrder f = record {
    total = λ a b h. ground (arith, order.total a b);
    trans = λ a b c h k. ground (arith, order.trans a b c);
  }

  by_negated-IsOrder : (f : A → ℕ) → IsOrder (by_negated f le)
  by_negated-IsOrder f = record {
    total = λ a b h. ground (arith, order.total a b);
    trans = λ a b c h k. ground (arith, order.trans a b c);
  }

  by_text_total : (f : A → String) (a b : A) → by_text f le a b ≡ false → by_text f le b a ≡ true
  by_text_total f a b h = elim (Bool-cases (f a == f b)) [
    | inl t ↦
        let s : (f b == f a) ≡ true = (eq_iff (f b) (f a)).1 (sym ((eq_iff (f a) (f b)).0 t)) in
        rw s (order.total a b (rw t at h))
    | inr t ↦ elim (Bool-cases (f b == f a)) [
      | inl s ↦
          let r : (f a == f b) ≡ true = (eq_iff (f a) (f b)).1 (sym ((eq_iff (f b) (f a)).0 s)) in
          ground arith
      | inr s ↦ rw s (str_leb-IsOrder.total (f a) (f b) (rw t at h))
    ]
  ]

  by_text_trans :
      (f : A → String) (a b c : A)
      → by_text f le a b ≡ true
      → by_text f le b c ≡ true
      → by_text f le a c ≡ true
  by_text_trans f a b c h k = elim (Bool-cases (f a == f b)) [
    | inl t ↦ elim (Bool-cases (f b == f c)) [
      | inl s ↦
          let r : (f a == f c) ≡ true =
            (eq_iff _ _).1 ((eq_iff (f a) (f b)).0 t ∙ (eq_iff (f b) (f c)).0 s) in
          rw r (order.trans a b c (rw t at h) (rw s at k))
      | inr s ↦
          let e : f a ≡ f b = (eq_iff _ _).0 t in
          let r : (f a == f c) ≡ false = rw e s in rw r (rw e (rw s at k))
    ]
    | inr t ↦ elim (Bool-cases (f b == f c)) [
      | inl s ↦
          let e : f b ≡ f c = (eq_iff _ _).0 s in
          let r : (f a == f c) ≡ false = rw (← e) t in rw r (rw (← e) (rw t at h))
      | inr s ↦
          let x : str_leb (f a) (f b) ≡ true = rw t at h in
          let y : str_leb (f b) (f c) ≡ true = rw s at k in
          elim (Bool-cases (f a == f c)) [
            | inl r ↦
                let e : f a ≡ f c = (eq_iff _ _).0 r in
                let back : str_leb (f b) (f a) ≡ true = rw e y in
                let same : f a ≡ f b = str_leb_antisym (f a) (f b) x back in
                let t' : (f a == f b) ≡ true = (eq_iff _ _).1 same in ground arith
            | inr r ↦ rw r (str_leb-IsOrder.trans (f a) (f b) (f c) x y)
          ]
    ]
  ]

  by_text-IsOrder : (f : A → String) → IsOrder (by_text f le)
  by_text-IsOrder f = record { total = by_text_total f; trans = by_text_trans f }

version-IsOrder : IsOrder {A = Scored} (λ a b. str_leb a.manifest.version b.manifest.version)
version-IsOrder = record {
  total = λ a b. str_leb-IsOrder.total a.manifest.version b.manifest.version;
  trans = λ a b c. str_leb-IsOrder.trans a.manifest.version b.manifest.version c.manifest.version;
}

pub key_leb-IsOrder : IsOrder key_leb
key_leb-IsOrder =
    by_negated-IsOrder _
      (by_number-IsOrder _
        (by_number-IsOrder _ (by_text-IsOrder _ version-IsOrder (λ c. c.manifest.skill_id))
          (λ c. determinism_rank c.manifest.determinism_target))
        (λ c. risk_rank c.manifest.risk_level))
      (λ c. c.score)

abbrev pub is_negative : ℤ → Bool
is_negative (pos n) = false
is_negative (negsuc n) = true

-- The comparison for ambiguity and the key for sorting agree: where the comparison decides, the key
-- orders as it does, and where it ties, the key orders by id and version.
pub compare_candidates-key_leb :
    (a b : Scored)
    → key_leb a b ≡ (
        if is_zero (compare_candidates a b)
        then id_leb a b
        else is_negative (compare_candidates a b))
unfolding compare_candidates
compare_candidates-key_leb a b = ground arith
