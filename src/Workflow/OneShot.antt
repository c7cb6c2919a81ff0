-- ===== src/Workflow/OneShot.antt =====
-- An approval lets a run go on once.
use syndicateclaw.Base.{
  ◌≡◌, refl, ◌∙◌, ap, Bool, true, false, Option, none, some, String, ◌==◌, string_eq, eq_iff,
  eq_refl, Result, ok, err, Bool-cases, Option-cases, inl, inr,
}
use syndicateclaw.Json.{
  Value, null, text, Fields, empty, field, find_field, put_field, get_value, truthy,
}
use syndicateclaw.Approval.Row.{approved, status_eq}
use syndicateclaw.Workflow.Resume.{
  Approval, RunRow, Tables, is_waiting, assign, resume_node, consumed_context, consume_row, consume,
}

find_put : (k : String) (v : Value) (fs : Fields) → find_field k (put_field k v fs) ≡ some v
find_put k v empty = rw (eq_refl k) refl
find_put k v (field j w fs) = elim (Bool-cases (j == k)) [
  | inl t ↦ rw t (rw t refl)
  | inr f ↦ rw f (rw f (find_put k v fs))
]

find_put_other :
    (k j : String) (v : Value) (fs : Fields)
    → (j == k) ≡ false
    → find_field k (put_field j v fs) ≡ find_field k fs
find_put_other k j v empty d = rw d refl
find_put_other k j v (field i w fs) d = elim (Bool-cases (i == j)) [
  | inl t ↦
      let same : i ≡ j = (eq_iff i j).0 t in
      let e : (i == k) ≡ false = rw same d in rw t (rw e refl)
  | inr f ↦ elim (Bool-cases (i == k)) [
    | inl s ↦ rw f (rw s refl)
    | inr s ↦ rw f (rw s (find_put_other k j v fs d))
  ]
]

abbrev value_or_null : Option Value → Value
value_or_null none = null
value_or_null (some v) = v

-- `context.get("consumed_at")` is set
abbrev pub is_consumed : Fields → Bool
is_consumed context = truthy (get_value "consumed_at" context)

module _ (str : Value → String) where
  pub consumed_context_consumed :
      (now run_id node : String) (context : Fields)
      → (now == "") ≡ false
      → is_consumed (consumed_context str now run_id node context) ≡ true
  consumed_context_consumed now run_id node context h =
      let a = find_put "consumed_at" (text now) context in
      let b =
        find_put_other "consumed_at" "consumed_for_run_id" (text run_id)
          (put_field "consumed_at" (text now) context) refl in
      let c =
        find_put_other "consumed_at" "resume_node_id" (text node)
          (put_field "consumed_for_run_id" (text run_id)
            (put_field "consumed_at" (text now) context))
          refl in
      ap (λ o. truthy (value_or_null o)) (c ∙ b ∙ a) ∙ rw h refl

  -- An approval that may be consumed for the run, and what its consumption leaves.
  pub record Consumes (now run_id approval_id : String) (d : Tables) (run' : RunRow) (d' : Tables)
      : Type 0 where
    pub approval : Approval
    pub run : RunRow
    pub node : String
    pub stored : d.approvals approval_id ≡ some approval
    pub for_run : approval.run_id ≡ run_id
    pub granted : (approval.status == approved) ≡ true
    pub fresh : is_consumed approval.context ≡ false
    pub run_stored : d.runs run_id ≡ some run
    pub waits : is_waiting run.status ≡ true
    pub resumes_at : resume_node str run.state approval.context ≡ some node
    pub spent :
        d'.approvals
        ≡ assign approval_id
            (record approval { context = consumed_context str now run_id node approval.context })
            d.approvals

  -- It raises and leaves the tables as they are, or it consumes the approval.
  abbrev pub Consumption : String → String → String → Tables → Result RunRow → Tables → Type 0
  Consumption now run_id approval_id d (err e) d' = d' ≡ d
  Consumption now run_id approval_id d (ok run') d' = Consumes now run_id approval_id d run' d'

  consume_row-Consumption :
      (now run_id approval_id : String) (d : Tables) (a : Approval) (x : RunRow)
      → d.approvals approval_id ≡ some a
      → (a.run_id == run_id) ≡ true
      → (a.status == approved) ≡ true
      → is_consumed a.context ≡ false
      → d.runs run_id ≡ some x
      → Consumption now run_id approval_id d
          (consume_row str now run_id approval_id a x d).0
          (consume_row str now run_id approval_id a x d).1
  unfolding consume_row
  consume_row-Consumption now run_id approval_id d a x s r g c t =
      elim (Bool-cases (is_waiting x.status)) [
        | inr f ↦ rw (f, consume_row) refl
        | inl w ↦ elim (Option-cases (resume_node str x.state a.context)) [
          | inl n ↦ rw (w, consume_row) (rw n refl)
          | inr (node, k) ↦
              rw (w, consume_row)
                (rw k (record {
                  approval = a;
                  run = x;
                  node = node;
                  stored = s;
                  for_run = (eq_iff a.run_id run_id).0 r;
                  granted = g;
                  fresh = c;
                  run_stored = t;
                  waits = w;
                  resumes_at = k;
                  spent = refl;
                }))
        ]
      ]

  pub consume-Consumption :
      (now run_id approval_id : String) (d : Tables)
      → Consumption now run_id approval_id d
          (consume str now run_id approval_id d).0
          (consume str now run_id approval_id d).1
  unfolding consume
  consume-Consumption now run_id approval_id d = elim (Option-cases (d.approvals approval_id)) [
    | inl n ↦ rw (n, consume) refl
    | inr (a, s) ↦ elim (Bool-cases (a.run_id == run_id)) [
      | inr f ↦ rw (s, consume) (rw f refl)
      | inl r ↦ elim (Bool-cases (a.status == approved)) [
        | inr f ↦ rw (s, consume) (rw r (rw f refl))
        | inl g ↦ elim (Bool-cases (truthy (get_value "consumed_at" a.context))) [
          | inl c ↦ rw (s, consume) (rw r (rw g (rw c refl)))
          | inr c ↦ elim (Option-cases (d.runs run_id)) [
            | inl n ↦ rw (s, consume) (rw r (rw g (rw c (rw n refl))))
            | inr (x, t) ↦
                rw (s, consume)
                  (rw r (
                    rw g (
                      rw c
                        (rw t (consume_row-Consumption now run_id approval_id d a x s r g c t)))))
          ]
        ]
      ]
    ]
  ]
