-- ===== src/Memory/TrustTests.antt =====
-- A record of a person, validated at time 0, that loses a hundredth a day.
use syndicateclaw.Base.{
  ℕ, ◌-◌, ◌*◌, ◌/◌, ◌≡◌, refl, sym, ◌∙◌, ap, false, none, some, [], ◌∷◌, String, string_eq, ok, inl,
  inr, arith,
}
use syndicateclaw.Json.{Value, text}
use syndicateclaw.Storage.{Sessions}
use syndicateclaw.Storage.ListTable.{list_table}
use syndicateclaw.Memory.Record.{active}
use syndicateclaw.Memory.Trust.{
  TrustRow, one, trust_ceiling, apply_decay, compute_effective_trust, validate_record,
  detect_conflicts,
}
use syndicateclaw.Memory.Decay.{decay_compounds, zero_revived}
use syndicateclaw.Memory.Conflicts.{IsUnique, detect_conflicts_never}

abbrev table : Sessions TrustRow (λ r. r.id)
table = list_table (λ r. r.id)

abbrev day : ℕ
day = 86400000000

abbrev note : TrustRow
note = record {
  id = "m1";
  namespace = "a";
  key = "k";
  value = text "v";
  deletion_status = active;
  source_type = "HUMAN";
  trust_score = some one;
  decay_rate = some 10000;
  last_validated_at = some 0;
  validation_count = 1;
  trust_frozen = false;
  conflict_set_id = none;
  updated_at = 0;
}

abbrev stored : table.Db
stored = note ∷ []

-- one day's loss
abbrev hundredth : ℕ
hundredth = 10000 * day

effective_after_ten :
    compute_effective_trust (10 * day) one 10000 (some 0) false ≡ one - 10 * hundredth
unfolding compute_effective_trust
effective_after_ten = refl

validated_again : (validate_record table 5 "m1" stored).0 ≡ ok one
unfolding validate_record trust_ceiling
validated_again = refl

decay_compounds_example :
    (s : TrustRow) × (table.get "m1"
        (apply_decay table 3 (10 * day) (apply_decay table 3 (5 * day) stored).1).1
      ≡ some s)
    × (s.trust_score ≡ some (one - 10000 * (5 * day - 0) - 10000 * (10 * day - 0)))
    × (u : TrustRow) × (table.get "m1" (apply_decay table 3 (10 * day) stored).1 ≡ some u)
    × (u.trust_score ≡ some (one - 10000 * (10 * day - 0)))
decay_compounds_example =
    decay_compounds table 3 (5 * day) (10 * day) note stored refl refl 0 refl (omega arith)
      (omega arith) (omega arith)

zero_revived_example :
    (s : TrustRow) × (table.get "m1"
        (apply_decay table 3
          (70 * day)
          (apply_decay table 3 (69 * day) (record note { trust_score = some (one / 2) } ∷ [])).1).1
      ≡ some s)
    × (s.trust_score ≡ some (one - 10000 * (70 * day - 0)))
zero_revived_example =
    zero_revived table 3 (69 * day) (70 * day) (record note { trust_score = some (one / 2) })
      (record note { trust_score = some (one / 2) } ∷ []) refl refl 0 refl (omega arith)
      (omega arith) (omega arith)

stored-IsUnique : IsUnique table stored
stored-IsUnique r s (inl e) (inl f) ns key = ap (λ x. x.id) (sym e ∙ f)
stored-IsUnique r s (inl e) (inr h) ns key = absurd h
stored-IsUnique r s (inr h) m ns key = absurd h

abbrev text_of : Value → String
text_of (text s) = s
text_of _ = ""

detect_conflicts_never_example : detect_conflicts table text_of 7 "c1" "a" "k" stored ≡ ([], stored)
detect_conflicts_never_example =
    detect_conflicts_never table text_of 7 "c1" "a" "k" stored stored-IsUnique
