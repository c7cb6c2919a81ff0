-- ===== src/Memory/Trust.antt =====
-- `MemoryTrustService` of src/syndicateclaw/memory/trust.py, on the columns of a memory record that
-- it reads or writes. Numbers are exact: a decay rate is in millionths a day and a time in
-- microseconds, so a score in units of their product; half a score is rounded down.
use syndicateclaw.Base.{
  ℕ, zero, suc, ◌+◌, ◌-◌, ◌*◌, ◌/◌, Bool, true, false, not, ◌&&◌, Option, none, some, List, [], ◌∷◌,
  map, String, ◌==◌, string_eq, nat_beq, contains, keep, length, leb, ltb, if◌then◌else◌, Result,
  ok, err, value_error,
}
use syndicateclaw.Json.{Value}
use syndicateclaw.Storage.{Sessions}
use syndicateclaw.Storage.MergeAll.{merge_all}
use syndicateclaw.Memory.Record.{DeletionStatus, is_active}

pub record TrustRow : Type 0 where
  pub id : String
  pub namespace : String
  pub key : String
  pub value : Value
  pub deletion_status : DeletionStatus
  pub source_type : String
  pub trust_score : Option ℕ
  pub decay_rate : Option ℕ
  pub last_validated_at : Option ℕ
  pub validation_count : ℕ
  pub trust_frozen : Bool
  pub conflict_set_id : Option String
  pub updated_at : ℕ

-- the score 1.0
abbrev pub one : ℕ
one = 1000000 * 86400000000

-- a score of so many hundredths
abbrev hundredths : ℕ → ℕ
hundredths n = n * 864000000000000

unfoldable pub trust_ceiling : String → ℕ
trust_ceiling source =
    if source == "HUMAN"
    then hundredths 100
    else if source == "SYSTEM"
    then hundredths 95
    else if source == "EXTERNAL"
    then hundredths 80
    else if source == "LLM"
    then hundredths 70
    else if source == "DERIVED"
    then hundredths 60
    else hundredths 80

-- `trust_score or 1.0`
abbrev pub score_or_one : Option ℕ → ℕ
score_or_one none = one
score_or_one (some zero) = one
score_or_one (some (suc n)) = suc n

-- `decay_rate or 0.01`
abbrev pub rate_or_default : Option ℕ → ℕ
rate_or_default none = 10000
rate_or_default (some zero) = 10000
rate_or_default (some (suc n)) = suc n

-- `max(0.0, score - rate * elapsed_days)`
abbrev pub decayed : ℕ → ℕ → ℕ → ℕ → ℕ
decayed score rate last now =
    if leb last now then score - rate * (now - last) else score + rate * (last - now)

abbrev at_most_one : ℕ → ℕ
at_most_one n = if leb one n then one else n

unfoldable pub compute_effective_trust : ℕ → ℕ → ℕ → Option ℕ → Bool → ℕ
compute_effective_trust now score rate last true = score
compute_effective_trust now score rate none false = score
compute_effective_trust now score rate (some t) false = at_most_one (decayed score rate t now)

unfoldable pub is_usable : ℕ → ℕ → Bool
is_usable min_usable trust = leb min_usable trust

-- what `apply_decay` selects
abbrev pub is_decaying : TrustRow → Bool
is_decaying r =
    is_active r.deletion_status
    && (not r.trust_frozen && elim r.last_validated_at [ none ↦ false | some t ↦ true ])

abbrev pub same_score : ℕ → Option ℕ → Bool
same_score n none = false
same_score n (some m) = nat_beq n m

-- The new score of a selected row. A row whose score stays as it is is written as it is.
unfoldable pub new_score : ℕ → TrustRow → ℕ
new_score now r = elim r.last_validated_at [
  | none ↦ 0
  | some t ↦ decayed (score_or_one r.trust_score) (rate_or_default r.decay_rate) t now
]

unfoldable pub decayed_row : ℕ → TrustRow → TrustRow
unfolding new_score
decayed_row now r =
    if same_score (new_score now r) r.trust_score
    then r
    else record r { trust_score = some (new_score now r); updated_at = now }

abbrev pub is_degraded : ℕ → ℕ → TrustRow → Bool
is_degraded min_usable now r =
    not (same_score (new_score now r) r.trust_score) && ltb (new_score now r) min_usable

abbrev pub validated_row : ℕ → TrustRow → TrustRow
validated_row now r = record r {
  trust_score = some (trust_ceiling r.source_type);
  last_validated_at = some now;
  validation_count = suc r.validation_count;
  updated_at = now;
}

abbrev pub frozen_row : ℕ → TrustRow → TrustRow
frozen_row now r = record r { trust_frozen = true; updated_at = now }

-- a row of a conflict
abbrev pub conflict_row : ℕ → String → TrustRow → TrustRow
conflict_row now set r = record r {
  conflict_set_id = some set;
  trust_score = if r.trust_frozen then r.trust_score else some (score_or_one r.trust_score / 2);
  updated_at = now;
}

-- the keys of `values_seen`
abbrev pub distinct : List String → List String
distinct [] = []
distinct (x ∷ xs) = let rest = distinct xs in if contains rest x then rest else x ∷ rest

module _ (S : Sessions TrustRow (λ r. r.id)) where
  unfoldable pub apply_decay : ℕ → ℕ → S.Db → ℕ × S.Db
  apply_decay min_usable now d =
      let records = keep is_decaying (S.rows d) in
      (length (keep (is_degraded min_usable now) records), merge_all S (decayed_row now) records d)

  unfoldable pub validate_record : ℕ → String → S.Db → Result ℕ × S.Db
  validate_record now id d = elim (S.get id d) [
    | none ↦ (err value_error, d)
    | some r ↦ (ok (trust_ceiling r.source_type), S.merge (validated_row now r) d)
  ]

  unfoldable pub freeze_record : ℕ → String → S.Db → Result (Unit {0}) × S.Db
  freeze_record now id d = elim (S.get id d) [
    | none ↦ (err value_error, d)
    | some r ↦ (ok tt, S.merge (frozen_row now r) d)
  ]

  abbrev pub conflicting : String → String → S.Db → List TrustRow
  conflicting namespace key d =
      keep (λ r. (r.namespace == namespace) && ((r.key == key) && is_active r.deletion_status))
        (S.rows d)

  -- `set` is the new ULID, and `str` Python's.
  unfoldable pub detect_conflicts :
      (Value → String) → ℕ → String → String → String → S.Db → List String × S.Db
  detect_conflicts str now set namespace key d =
      let records = conflicting namespace key d in
      if leb (length records) 1
      then ([], d)
      else if leb (length (distinct (map (λ r. str r.value) records))) 1
      then ([], d)
      else (set ∷ [], merge_all S (conflict_row now set) records d)
