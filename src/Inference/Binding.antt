-- ===== src/Inference/Binding.antt =====
-- What an idempotency key is bound to.
use syndicateclaw.Base.{
  ℕ, String, ◌≡◌, refl, Bool, true, false, Option, none, some, List, [], ◌∷◌, ◌++◌, ◌==◌, string_eq,
  find, if◌then◌else◌, Result, ok, err, arith, inl, inr, Bool-cases, Option-cases, ◌∙◌, ap,
}
use syndicateclaw.Json.{Fields}
use syndicateclaw.Inference.Idempotency.{
  Envelope, update_where, has_key, is_stale, as_stale, seen, insert_or_get, rolled_back, acquire,
  mark_executing, update_completed, update_failed,
}

-- A change that leaves key, hash and inference alone.
pub record Keeps (f : Envelope → Envelope) : Type 0 where
  pub key : (e : Envelope) → (f e).idempotency_key ≡ e.idempotency_key
  pub hash : (e : Envelope) → (f e).request_hash ≡ e.request_hash
  pub inference : (e : Envelope) → (f e).inference_id ≡ e.inference_id

-- The first row with the key has this hash and this inference.
pub record Bound (key hash inference : String) (rows : List Envelope) : Type 0 where
  pub row : Envelope
  pub found : find (has_key key) rows ≡ some row
  pub has_hash : row.request_hash ≡ hash
  pub has_inference : row.inference_id ≡ inference

pub find-update_where :
    (p : Envelope → Bool) (f : Envelope → Envelope)
    → Keeps f
    → (key : String) (rows : List Envelope) {row : Envelope} → find (has_key key) rows ≡ some row
    → find (has_key key) (update_where p f rows) ≡ some (if p row then f row else row)
find-update_where p f k key [] h = ground arith
find-update_where p f k key (e ∷ es) {row} h = elim (Bool-cases (has_key key e)) [
  | inl t ↦
      let same : e ≡ row = ground arith in
      let t' : has_key key (f e) ≡ true = rw (k.key e) t in
      elim (Bool-cases (p e)) [
        | inl q ↦ rw q (rw t' (rw (← same, q) refl))
        | inr q ↦ rw q (rw t (rw (← same, q) refl))
      ]
  | inr t ↦
      let ih = find-update_where p f k key es (rw t at h) in
      let t' : has_key key (f e) ≡ false = rw (k.key e) t in
      elim (Bool-cases (p e)) [ inl q ↦ rw q (rw t' ih) | inr q ↦ rw q (rw t ih) ]
]

pub update_where-Bound :
    (p : Envelope → Bool) (f : Envelope → Envelope)
    → Keeps f
    → {key hash inference : String} (rows : List Envelope) → Bound key hash inference rows
    → Bound key hash inference (update_where p f rows)
update_where-Bound p f k {key} rows b =
    let found = find-update_where p f k key rows b.found in
    elim (Bool-cases (p b.row)) [
      | inl q ↦ record {
        row = f b.row;
        found = found ∙ ap (λ c. some (if c then f b.row else b.row)) q;
        has_hash = k.hash b.row ∙ b.has_hash;
        has_inference = k.inference b.row ∙ b.has_inference;
      }
      | inr q ↦ record {
        row = b.row;
        found = found ∙ ap (λ c. some (if c then f b.row else b.row)) q;
        has_hash = b.has_hash;
        has_inference = b.has_inference;
      }
    ]

find-append :
    (p : Envelope → Bool) (xs ys : List Envelope) {e : Envelope}
    → find p xs ≡ some e
    → find p (xs ++ ys) ≡ some e
find-append p [] ys h = ground arith
find-append p (x ∷ xs) ys h = elim (Bool-cases (p x)) [
  | inl t ↦ rw t (rw t at h)
  | inr t ↦ rw t (find-append p xs ys (rw t at h))
]

pub find-append_last :
    (p : Envelope → Bool) (xs : List Envelope) (y : Envelope)
    → find p xs ≡ none
    → p y ≡ true
    → find p (xs ++ y ∷ []) ≡ some y
find-append_last p [] y h t = rw t refl
find-append_last p (x ∷ xs) y h t = elim (Bool-cases (p x)) [
  | inl u ↦ ground (arith, u, h)
  | inr u ↦ rw u (find-append_last p xs y (rw u at h) t)
]

pub as_stale-Keeps : (now : ℕ) → Keeps (as_stale now)
as_stale-Keeps now = record { key = λ e. refl; hash = λ e. refl; inference = λ e. refl }

pub seen-Keeps : (now : ℕ) → Keeps (seen now)
seen-Keeps now = record { key = λ e. refl; hash = λ e. refl; inference = λ e. refl }

insert_or_get-Bound :
    (k h i : String) (now : ℕ) {key hash inference : String} (rows : List Envelope)
    → Bound key hash inference rows
    → Bound key hash inference (insert_or_get k h i now rows).1
unfolding insert_or_get
insert_or_get-Bound k h i now {key} rows b = elim (Option-cases (find (has_key k) rows)) [
  | inl n ↦
      rw (n, insert_or_get)
        (record {
          row = b.row;
          found = find-append (has_key key) rows _ b.found;
          has_hash = b.has_hash;
          has_inference = b.has_inference;
        })
  | inr (row, n) ↦ elim (Bool-cases (row.request_hash == h)) [
    | inl t ↦
        rw (n, insert_or_get)
          (rw t (update_where-Bound (has_key k) (seen now) (seen-Keeps now) rows b))
    | inr t ↦ rw (n, insert_or_get) (rw t b)
  ]
]

pub data Op : Type 0 where
  acquires : String → String → String → ℕ → Op
  executes : String → ℕ → Op
  completes : String → Fields → ℕ → Op
  fails : String → String → Option Fields → ℕ → Op

rolled_back-Bound :
    {key hash inference : String} (rows : List Envelope)
    (r : Result (Envelope × Bool) × List Envelope)
    → Bound key hash inference rows
    → Bound key hash inference r.1
    → Bound key hash inference (rolled_back rows r).1
rolled_back-Bound rows (ok a, rows') b b' = b'
rolled_back-Bound rows (err e, rows') b b' = b

module _ (stale_after : ℕ) where
  abbrev pub run_op : Op → List Envelope → List Envelope
  run_op (acquires k h i now) rows = (acquire stale_after k h i now rows).1
  run_op (executes i now) rows = mark_executing i now rows
  run_op (completes i result now) rows = update_completed i result now rows
  run_op (fails i reason result now) rows = update_failed i reason result now rows

  abbrev pub run : List Op → List Envelope → List Envelope
  run [] rows = rows
  run (op ∷ ops) rows = run ops (run_op op rows)

  run_op-Bound :
      (op : Op) {key hash inference : String} (rows : List Envelope)
      → Bound key hash inference rows
      → Bound key hash inference (run_op op rows)
  unfolding acquire mark_executing update_completed update_failed
  run_op-Bound (acquires k h i now) rows b = rolled_back-Bound rows _ b (
      insert_or_get-Bound k h i now _ (
        update_where-Bound (is_stale stale_after k now) (as_stale now) (as_stale-Keeps now) rows b))
  run_op-Bound (executes i now) rows b =
      update_where-Bound _ _ (record { key = λ e. refl; hash = λ e. refl; inference = λ e. refl })
        rows b
  run_op-Bound (completes i result now) rows b =
      update_where-Bound _ _ (record { key = λ e. refl; hash = λ e. refl; inference = λ e. refl })
        rows b
  run_op-Bound (fails i reason result now) rows b =
      update_where-Bound _ _ (record { key = λ e. refl; hash = λ e. refl; inference = λ e. refl })
        rows b

  pub run-Bound :
      (ops : List Op) {key hash inference : String} (rows : List Envelope)
      → Bound key hash inference rows
      → Bound key hash inference (run ops rows)
  run-Bound [] rows b = b
  run-Bound (op ∷ ops) rows b = run-Bound ops _ (run_op-Bound op rows b)
