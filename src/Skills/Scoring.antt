-- ===== src/Skills/Scoring.antt =====
-- src/syndicateclaw/runtime/router/scoring.py, and what it reads of the manifests in
-- src/syndicateclaw/runtime/contracts/. `Unicode` is what it uses of Python's strings beyond `in`.
use syndicateclaw.Base.{
  ℕ, suc, ◌+◌, ◌-◌, Bool, not, ◌&&◌, List, [], ◌∷◌, String, ◌==◌, string_eq, nat_beq, ltb, any,
  if◌then◌else◌,
}
use syndicateclaw.Json.{ℤ, pos, negsuc}
use syndicateclaw.Text.{str_leb, substring}

pub data SkillRisk : Type 0 where
  low_risk medium_risk high_risk : SkillRisk

pub data DeterminismTarget : Type 0 where
  low_target medium_target high_target : DeterminismTarget

-- INTENT is the one type of a trigger.
pub record IntentTrigger : Type 0 where
  pub phrases : List String

pub record SkillManifest : Type 0 where
  pub skill_id : String
  pub version : String
  pub triggers : List IntentTrigger
  pub non_triggers : List IntentTrigger
  pub risk_level : SkillRisk
  pub determinism_target : DeterminismTarget

pub record Unicode : Type 0 where
  pub nfc : String → String
  pub lower_strip : String → String
  pub code_points : String → ℕ

abbrev pub risk_rank : SkillRisk → ℕ
risk_rank low_risk = 0
risk_rank medium_risk = 1
risk_rank high_risk = 2

abbrev pub determinism_rank : DeterminismTarget → ℕ
determinism_rank high_target = 0
determinism_rank medium_target = 1
determinism_rank low_target = 2

module _ (u : Unicode) where
  abbrev pub normalize_goal : String → String
  normalize_goal goal = u.lower_strip (u.nfc goal)

  -- `p and p in goal_norm`, on the phrase in lower case and stripped
  abbrev pub phrase_matches : String → String → Bool
  phrase_matches goal phrase = let p = u.lower_strip phrase in not (p == "") && substring p goal

  unfoldable pub goal_matches_non_trigger : String → List IntentTrigger → Bool
  goal_matches_non_trigger goal triggers = any (λ t. any (phrase_matches goal) t.phrases) triggers

  abbrev phrases_score : String → List String → ℕ
  phrases_score goal [] = 0
  phrases_score goal (phrase ∷ phrases) =
      let rest = phrases_score goal phrases in
      if phrase_matches goal phrase then u.code_points (u.lower_strip phrase) + rest else rest

  unfoldable pub trigger_match_score : String → List IntentTrigger → ℕ
  trigger_match_score goal [] = 0
  trigger_match_score goal (t ∷ ts) = phrases_score goal t.phrases + trigger_match_score goal ts

-- A manifest with its score.
pub record Scored : Type 0 where
  pub manifest : SkillManifest
  pub score : ℕ

abbrev pub difference : ℕ → ℕ → ℤ
difference a b = if ltb a b then negsuc (b - suc a) else pos (a - b)

-- Less than zero if `a` wins.
unfoldable pub compare_candidates : Scored → Scored → ℤ
compare_candidates a b =
    let ra = risk_rank a.manifest.risk_level in
    let rb = risk_rank b.manifest.risk_level in
    let da = determinism_rank a.manifest.determinism_target in
    let db = determinism_rank b.manifest.determinism_target in
    if not (nat_beq a.score b.score)
    then difference b.score a.score
    else if not (nat_beq ra rb)
    then difference ra rb
    else if not (nat_beq da db)
    then difference da db
    else pos 0

module _ {A : Type 0} where
  -- The order of tuples that begin with a number, with a number that counts down, or with a string.
  abbrev pub by_number : (A → ℕ) → (A → A → Bool) → A → A → Bool
  by_number f le a b = if nat_beq (f a) (f b) then le a b else ltb (f a) (f b)

  abbrev pub by_negated : (A → ℕ) → (A → A → Bool) → A → A → Bool
  by_negated f le a b = if nat_beq (f a) (f b) then le a b else ltb (f b) (f a)

  abbrev pub by_text : (A → String) → (A → A → Bool) → A → A → Bool
  by_text f le a b = if f a == f b then le a b else str_leb (f a) (f b)

-- the end of the key: id, then version
abbrev pub id_leb : Scored → Scored → Bool
id_leb = by_text (λ c. c.manifest.skill_id) (λ a b. str_leb a.manifest.version b.manifest.version)

-- `sort_key_for_manifest`, as the order of its tuples
abbrev pub key_leb : Scored → Scored → Bool
key_leb =
    by_negated (λ c. c.score)
      (by_number (λ c. risk_rank c.manifest.risk_level)
        (by_number (λ c. determinism_rank c.manifest.determinism_target) id_leb))
