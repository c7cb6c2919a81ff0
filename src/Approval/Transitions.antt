-- ===== src/Approval/Transitions.antt =====
-- The life of one request, as a step relation over the service's calls.

use syndicateclaw.Base.{
  ℕ, String, ◌≡◌, refl, Bool, true, Option, none, some, ◌==◌, string_eq, ok, arith, Option-cases,
  Bool-cases, Result-cases, List, inl, inr, ◌⊎◌, ap, subst, eq_iff, ◌∙◌, sym,
}
use syndicateclaw.Storage.{Sessions}
use syndicateclaw.Storage.Outcome.{transaction-Outcome}
use syndicateclaw.Approval.Row.{Status, pending, approved, rejected, ApprovalRow}
use syndicateclaw.Approval.Service.{
  World, Request, Resolver, request_row, approvers, decided, expire, is_stale, decide, approve,
  reject, request_approval, expire_stale, create, finish, approval_requested,
}
use syndicateclaw.Approval.Decide.{MayDecide, decide_written, finish_db}
use syndicateclaw.Approval.Expiry.{get-expire_stale}

-- One call of the service, successful or not, or a change of the audit service.
pub data Step (S : Sessions ApprovalRow (λ r. r.id)) (w w' : World S) : Type 0 where
  requests :
      (now : ℕ) (v : Option Resolver) (b : Bool) (q : Request) (actor : String)
      → w' ≡ (request_approval S now v b q actor w).1
      → Step S w w'
  approves : (now : ℕ) (k a reason : String) → w' ≡ (approve S now k a reason w).1 → Step S w w'
  rejects : (now : ℕ) (k a reason : String) → w' ≡ (reject S now k a reason w).1 → Step S w w'
  expires : (now : ℕ) → w' ≡ (expire_stale S now w).1 → Step S w w'
  -- the audit service fails from now on, or no longer
  turns : (b : Bool) → w' ≡ record w { audit_fails = b } → Step S w w'

pub data Reach (S : Sessions ApprovalRow (λ r. r.id)) (w : World S) : World S → Type 0 where
  here : Reach S w w
  next : {u v : World S} → Reach S w u → Step S u v → Reach S w v

-- What one call may do to what is stored under a key.
pub data Change : Option ApprovalRow → Option ApprovalRow → Type 0 where
  kept : {o o' : Option ApprovalRow} → o' ≡ o → Change o o'
  created :
      {o' : Option ApprovalRow} (r : ApprovalRow)
      → r.status ≡ pending
      → o' ≡ some r
      → Change none o'
  decision :
      {o o' : Option ApprovalRow} (now : ℕ) (a reason : String) (st : Status) (r : ApprovalRow)
      → (st ≡ approved) ⊎ (st ≡ rejected)
      → MayDecide now a r
      → o ≡ some r
      → o' ≡ some (decided now a reason st r)
      → Change o o'
  timed_out :
      {o o' : Option ApprovalRow} (now : ℕ) (r : ApprovalRow)
      → is_stale now r ≡ true
      → o ≡ some r
      → o' ≡ some (expire now r)
      → Change o o'

module _ (S : Sessions ApprovalRow (λ r. r.id)) (k : String) where
  abbrev at : World S → Option ApprovalRow
  at w = S.get k w.db

  held_under :
      (i : String) (row : ApprovalRow) (d : S.Db)
      → S.get i d ≡ some row
      → row.id ≡ k
      → S.get k d ≡ some row
  held_under i row d held e = let q : i ≡ k = sym (S.rows_all i d held).1 ∙ e in rw (← q) held

  decide-Change :
      (now : ℕ) (i a reason : String) (st : Status) (w : World S)
      → (st ≡ approved) ⊎ (st ≡ rejected)
      → Change (at w) (at (decide S now i a reason st w).1)
  decide-Change now i a reason st w final = elim (decide_written S now i a reason st w) [
    | inl same ↦ kept (ap (S.get k) same)
    | inr (row, held, may, written) ↦
        let found = ap (S.get k) written ∙ S.get-merge k (decided now a reason st row) w.db in
        elim (Bool-cases (row.id == k)) [
          | inl t ↦
              decision now a reason st row final may
                (held_under i row w.db held ((eq_iff row.id k).0 t)) (found ∙ rw t refl)
          | inr f ↦ kept (found ∙ rw f refl)
        ]
  ]

  approve-Change :
      (now : ℕ) (i a reason : String) (w : World S)
      → Change (at w) (at (approve S now i a reason w).1)
  unfolding approve
  approve-Change now i a reason w = decide-Change now i a reason approved w (inl refl)

  reject-Change :
      (now : ℕ) (i a reason : String) (w : World S)
      → Change (at w) (at (reject S now i a reason w).1)
  unfolding reject
  reject-Change now i a reason w = decide-Change now i a reason rejected w (inr refl)

  expire_stale-Change : (now : ℕ) (w : World S) → Change (at w) (at (expire_stale S now w).1)
  expire_stale-Change now w = rw get-expire_stale (elim (Option-cases (at w)) [
    | inl e ↦ kept (rw e refl)
    | inr (r, e) ↦ elim (Bool-cases (is_stale now r)) [
      | inl t ↦ timed_out now r t e (rw e (rw t refl))
      | inr f ↦ kept (rw e (rw f refl))
    ]
  ])

  create-Change :
      (r : ApprovalRow) (d d' : S.Db)
      → r.status ≡ pending
      → S.add r d ≡ ok d'
      → Change (S.get k d) (S.get k d')
  create-Change r d d' p e = elim (Bool-cases (r.id == k)) [
    | inl t ↦ elim (Option-cases (S.get k d)) [
      | inl free ↦ rw free (created r p (S.get-add k r d e ∙ rw t refl))
      | inr (old, held) ↦
          ground (arith, S.add_taken r d {old = old} (rw ((eq_iff r.id k).0 t) held))
    ]
    | inr f ↦ kept (S.get-add k r d e ∙ rw f refl)
  ]

  insert-Change :
      (now : ℕ) (q : Request) (actor : String) (as' : List String) (w : World S)
      → Change (at w) (
          at
            (finish S approval_requested actor
              (S.transaction ApprovalRow (create S (request_row now q actor as')) w.db)
              w).1)
  insert-Change now q actor as' w =
      elim (transaction-Outcome S ApprovalRow (create S (request_row now q actor as')) w.db) [
        | inl (r, e, t) ↦ elim (Result-cases (S.add (request_row now q actor as') w.db)) [
          | inl (d', fresh) ↦
              let db =
                ap (λ p. (finish S approval_requested actor p w).1.db) t
                ∙ finish_db S approval_requested actor r _ w in
              let made : (create S (request_row now q actor as') w.db).1 ≡ d' =
                rw (fresh, create) refl in
              subst (Change (at w)) (sym (ap (S.get k) (db ∙ made)))
                (create-Change (request_row now q actor as') w.db d' refl fresh)
          | inr (x, taken) ↦ ground arith
        ]
        | inr (x, e, t) ↦ rw t (kept refl)
      ]

  request_approval-Change :
      (now : ℕ) (v : Option Resolver) (b : Bool) (q : Request) (actor : String) (w : World S)
      → Change (at w) (at (request_approval S now v b q actor w).1)
  unfolding request_approval
  request_approval-Change now v b q actor w = elim (Bool-cases (q.action_description == "")) [
    | inl t ↦ rw t (kept refl)
    | inr f ↦ rw f (elim (Result-cases (approvers v b q actor)) [
      | inl (as', e) ↦ rw e (insert-Change now q actor as' w)
      | inr (x, e) ↦ rw e (kept refl)
    ])
  ]

  -- Every call of the service makes one of four changes to what is stored under a key: none, a new
  -- pending request, a decision by someone who may decide, or the expiry of a stale request.
  pub Step-Change : {w w' : World S} → Step S w w' → Change (at w) (at w')
  Step-Change {w} (requests now v b q actor e) = rw e (request_approval-Change now v b q actor w)
  Step-Change {w} (approves now i a reason e) = rw e (approve-Change now i a reason w)
  Step-Change {w} (rejects now i a reason e) = rw e (reject-Change now i a reason w)
  Step-Change {w} (expires now e) = rw e (expire_stale-Change now w)
  Step-Change {w} (turns b e) = rw e (kept refl)
