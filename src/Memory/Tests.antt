-- ===== src/Memory/Tests.antt =====
-- A row with the default policy and one of its owner, and a Redis that is a list of entries.
use syndicateclaw.Base.{
  ℕ, ◌+◌, ◌*◌, ◌≡◌, ◌≢◌, ◌⊎◌, refl, ◌∙◌, ap, Bool, true, false, not, ◌&&◌, Option, none, some,
  String, List, [], ◌∷◌, ◌==◌, string_eq, eq_refl, eq_iff, sym, map, find, keep, ltb, arith, inl,
  inr, Bool-cases,
}
use syndicateclaw.Storage.{Sessions}
use syndicateclaw.Storage.ListTable.{list_table}
use syndicateclaw.Json.{number, pos, dict, field, empty}
use syndicateclaw.Memory.Record.{
  MemoryRecord, MemoryRow, active, db_to_domain, check_access_policy, cache_key,
}
use syndicateclaw.Memory.Service.{Redis, World, Deletes, read, delete}
use syndicateclaw.Memory.Granted.{FromCache, FromRow, read-Granted}
use syndicateclaw.Memory.Deletion.{Forgets, Removes, IsUnique, deleted_unread}
use syndicateclaw.Workflow.Distinct.{Distinct}
use syndicateclaw.Memory.Lineage.{walk_lineage, get_lineage}
use syndicateclaw.Memory.Closure.{IsClosed, get_lineage_whole}
use syndicateclaw.Memory.Cached.{Keeps, served_again}

record Entry : Type 0 where
  pub name : String
  pub until : ℕ
  pub held : MemoryRecord

abbrev entry_at : ℕ → String → Entry → Bool
entry_at now k e = (e.name == k) && ltb now e.until

abbrev held_of : Option Entry → Option MemoryRecord
held_of none = none
held_of (some e) = some e.held

abbrev entries : Redis
entries = record {
  Store = List Entry;
  get = λ now k s. held_of (find (entry_at now k) s);
  setex = λ now k ttl r s. record { name = k; until = now + ttl * 1000000; held = r } ∷ s;
  delete = λ k s. keep (λ e. not (e.name == k)) s;
}

entries-Keeps : Keeps entries
entries-Keeps k now ttl t r s h =
    let e : ltb t (now + ttl * 1000000) ≡ true = ground arith in rw (eq_refl k) (rw e refl)

entries-Forgets : Forgets entries
entries-Forgets k [] t = refl
entries-Forgets k (e ∷ s) t = elim (Bool-cases (e.name == k)) [
  | inl same ↦ rw same (entries-Forgets k s t)
  | inr other ↦ rw other (rw other (entries-Forgets k s t))
]

abbrev table : Sessions MemoryRow (λ r. r.id)
table = list_table (λ r. r.id)

abbrev row : MemoryRow
row = record {
  id = "m1";
  namespace = "a";
  key = "b:c";
  value = dict (field "_v" (number (pos 7)) empty);
  actor = some "ann";
  access_policy = "default";
  parent_ids = "m2" ∷ "m9" ∷ [];
  ttl_seconds = none;
  expires_at = some 20;
  deletion_status = active;
  deleted_at = none;
  updated_at = 1;
}

abbrev owned : MemoryRow
owned = record row { id = "m2"; key = "d"; access_policy = "owner_only"; parent_ids = "m1" ∷ [] }

abbrev world : World entries table
world = record { db = row ∷ owned ∷ []; events = []; cache = [] }

-- after a read of the row
abbrev warm : World entries table
warm = record world {
  cache = record { name = cache_key "a" "b:c"; until = 300000005; held = db_to_domain row } ∷ [];
}

abbrev by_id : Deletes table
by_id = record { remove = λ id d. keep (λ r. not (r.id == id)) d }

other_id : (a b k : String) → (a == b) ≡ false → (a == k) ≡ true → (b == k) ≡ false
other_id a b k f t = elim (Bool-cases (b == k)) [
  | inr h ↦ h
  | inl h ↦
      let e : a ≡ b = (eq_iff a k).0 t ∙ sym ((eq_iff b k).0 h) in
      let t' = (eq_iff a b).1 e in ground arith
]

by_id-Removes : Removes entries table by_id
by_id-Removes k id [] = elim (Bool-cases (id == k)) [ inl t ↦ rw t refl | inr f ↦ rw f refl ]
by_id-Removes k id (r ∷ d) = elim (Bool-cases (r.id == id)) [
  | inl same ↦ rw same (
      by_id-Removes k id d ∙ elim (Bool-cases (id == k)) [
        | inl t ↦ rw t refl
        | inr f ↦ rw (f, (eq_iff r.id id).0 same) (rw f refl)
      ])
  | inr other ↦ elim (Bool-cases (r.id == k)) [
    | inl t ↦ rw (other, t) (rw (other_id r.id id k other t) refl)
    | inr f ↦ rw (other, f) (by_id-Removes k id d)
  ]
]

stranger_refused : (read entries table 5 "a" "d" "bob" world).0 ≡ none
unfolding read check_access_policy
stranger_refused = refl

owner_reads : (read entries table 5 "a" "d" "ann" world).0 ≡ some (db_to_domain owned)
unfolding read check_access_policy
owner_reads = refl

bob_reads : (read entries table 5 "a" "b:c" "bob" world).0 ≡ some (db_to_domain row)
unfolding read check_access_policy
bob_reads = refl

one_cache_key : cache_key "a:b" "c" ≡ cache_key "a" "b:c"
unfolding cache_key
one_cache_key = refl

read-Granted_example :
    (check_access_policy (db_to_domain row) "bob" ≡ true)
    × (FromCache entries table 5 "a" "b:c" world
          (db_to_domain row)
          (read entries table 5 "a" "b:c" "bob" world).1
        ⊎ FromRow entries table 5 "a" "b:c" "bob" world
            (db_to_domain row)
            (read entries table 5 "a" "b:c" "bob" world).1)
read-Granted_example =
    read-Granted entries table 5 "a" "b:c" "bob" world (db_to_domain row) bob_reads

served_again_example :
    read entries table 30 "a:b" "c" "eve" (read entries table 5 "a" "b:c" "bob" world).1
    ≡ (some (db_to_domain row), (read entries table 5 "a" "b:c" "bob" world).1)
served_again_example =
    served_again entries table 5 "a" "b:c" "bob" world (db_to_domain row) entries-Keeps refl
      bob_reads refl 30 "a:b" "c" "eve" (ground arith) one_cache_key

keys_apart : row.key ≢ owned.key
keys_apart e = let bad : false ≡ true = (eq_iff row.key owned.key).1 e in ground arith

world-IsUnique : IsUnique entries table world.db
world-IsUnique r s (inl e) (inl f) ns key = ap (λ x. x.id) (sym e ∙ f)
world-IsUnique r s (inl e) (inr (inl f)) ns key =
    absurd (keys_apart (ap (λ x. x.key) e ∙ key ∙ sym (ap (λ x. x.key) f)))
world-IsUnique r s (inr (inl e)) (inl f) ns key =
    absurd (keys_apart (sym (ap (λ x. x.key) e ∙ key ∙ sym (ap (λ x. x.key) f))))
world-IsUnique r s (inr (inl e)) (inr (inl f)) ns key = ap (λ x. x.id) (sym e ∙ f)
world-IsUnique r s (inl e) (inr (inr h)) ns key = absurd h
world-IsUnique r s (inr (inl e)) (inr (inr h)) ns key = absurd h
world-IsUnique r s (inr (inr h)) m ns key = absurd h

deleted_unread_example :
    (read entries table 9 "a" "b:c" "ann" (delete entries table by_id 8 "m1" "ann" true warm).1).0
    ≡ none
deleted_unread_example =
    deleted_unread entries table by_id 8 "m1" "ann" true warm entries-Forgets by_id-Removes
      world-IsUnique row refl 9 "ann"

-- `row` and `owned` are each other's parent
get_lineage_whole_example :
    (chain : List MemoryRecord) × (get_lineage table "m1" world.db ≡ some chain)
    × Distinct (map (λ r. r.id) chain)
    × IsClosed table world.db "m1" chain
get_lineage_whole_example = get_lineage_whole table world.db "m1"

cycle_walked : get_lineage table "m1" world.db ≡ some (db_to_domain row ∷ db_to_domain owned ∷ [])
unfolding get_lineage walk_lineage
cycle_walked = refl
