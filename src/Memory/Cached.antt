-- ===== src/Memory/Cached.antt =====
-- A read that Redis answers after another read (`read`, `_set_cached`).
use syndicateclaw.Base.{
  ℕ, ◌+◌, ◌*◌, ◌<◌, ◌≡◌, refl, sym, ◌∙◌, ap, inl, inr, true, none, some, String, ◌==◌, string_eq,
  eq_iff, arith, Option-cases,
}
use syndicateclaw.Storage.{Sessions}
use syndicateclaw.Memory.Record.{
  MemoryRecord, MemoryRow, db_to_domain, check_access_policy, cache_ttl, cache_key,
}
use syndicateclaw.Memory.Service.{Redis, World, get_by_key, read_stored, read}
use syndicateclaw.Memory.Granted.{read_hit, read_miss, read_absent, read_stored_lem}

-- What SETEX stored is there until its time is over: it did not fail, and nothing was evicted.
abbrev pub Keeps : Redis → Type 0
Keeps R =
    (k : String) (now ttl t : ℕ) (r : MemoryRecord) (s : R.Store)
    → t < now + ttl * 1000000
    → R.get t k (R.setex now k ttl r s) ≡ some r

default_allowed :
    (rec : MemoryRecord) (actor : String)
    → rec.access_policy ≡ "default"
    → check_access_policy rec actor ≡ true
unfolding check_access_policy
default_allowed rec actor h =
    rw ((eq_iff rec.access_policy "default").1 h, check_access_policy) refl

module _ (R : Redis) (S : Sessions MemoryRow (λ r. r.id)) (now : ℕ)
    (namespace key actor : String) where
  stored_cache :
      (rec r : MemoryRecord) (w : World R S)
      → (rec.access_policy == "default") ≡ true
      → (read_stored R S now namespace key actor rec w).0 ≡ some r
      → (read_stored R S now namespace key actor rec w).1.cache
        ≡ R.setex now (cache_key namespace key) (cache_ttl rec.ttl_seconds) rec w.cache
  unfolding read_stored
  stored_cache rec r w d h = ground arith

  module _ (w : World R S) (rec : MemoryRecord) where
    read_cache :
        R.get now (cache_key namespace key) w.cache ≡ none
        → rec.access_policy ≡ "default"
        → (read R S now namespace key actor w).0 ≡ some rec
        → (read R S now namespace key actor w).1.cache
          ≡ R.setex now (cache_key namespace key) (cache_ttl rec.ttl_seconds) rec w.cache
    read_cache miss d h = elim (Option-cases (get_by_key R S namespace key w.db)) [
      | inl gone ↦
          let run = read_absent R S now namespace key actor w miss gone in
          let bad : none ≡ some rec = sym (ap (λ p. p.0) run) ∙ h in ground arith
      | inr (row, found) ↦
          let run = read_miss R S now namespace key actor w row miss found in
          let got = sym (ap (λ p. p.0) run) ∙ h in
          let (e, _, _, _, _, _) = read_stored_lem R S now namespace key actor row w rec got in
          let d' = (eq_iff row.access_policy "default").1 (sym (ap (λ r. r.access_policy) e) ∙ d) in
          ap (λ p. p.1.cache) run
          ∙ stored_cache (db_to_domain row) rec w d' got
          ∙ ap (λ r. R.setex now (cache_key namespace key) (cache_ttl r.ttl_seconds) r w.cache)
              (sym e)
    ]

    -- After a read that found nothing in Redis and returned a record with the default policy, a read
    -- by anyone within its time in Redis, of any namespace and key with the same cache key, returns
    -- this record and changes nothing: it looks neither at the expiry of the record nor at its
    -- namespace, and writes no audit event. This holds while Redis keeps what it is given.
    pub served_again :
        Keeps R
        → R.get now (cache_key namespace key) w.cache ≡ none
        → (read R S now namespace key actor w).0 ≡ some rec
        → rec.access_policy ≡ "default"
        → (later : ℕ) (other_namespace other_key reader : String)
        → later < now + cache_ttl rec.ttl_seconds * 1000000
        → cache_key other_namespace other_key ≡ cache_key namespace key
        → read R S later other_namespace other_key reader (read R S now namespace key actor w).1
          ≡ (some rec, (read R S now namespace key actor w).1)
    served_again keeps miss h d later other_namespace other_key reader within same =
        let after = (read R S now namespace key actor w).1 in
        let hit : R.get later (cache_key other_namespace other_key) after.cache ≡ some rec =
          ap (λ k. R.get later k after.cache) same
          ∙ ap (R.get later (cache_key namespace key)) (read_cache miss d h)
          ∙ keeps (cache_key namespace key) now (cache_ttl rec.ttl_seconds) later rec w.cache
              within in
        read_hit R S later other_namespace other_key reader after rec hit
        ∙ rw (default_allowed rec reader d) refl
