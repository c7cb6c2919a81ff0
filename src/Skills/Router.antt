-- ===== src/Skills/Router.antt =====
-- `SkillRouter.route_task` of src/syndicateclaw/runtime/router/router.py, on the manifests that the
-- registry lists. The reasons and notes of a decision are left out.
use syndicateclaw.Base.{
  ℕ, Bool, false, Option, none, some, List, [], ◌∷◌, String, map, nat_beq, if◌then◌else◌,
}
use syndicateclaw.Json.{ℤ, pos, negsuc}
use syndicateclaw.Order.{sort}
use syndicateclaw.Skills.Scoring.{
  SkillManifest, Unicode, normalize_goal, goal_matches_non_trigger, trigger_match_score, Scored,
  compare_candidates, key_leb,
}

pub data RoutingStatus : Type 0 where
  selected uncertain blocked : RoutingStatus

pub record SelectedSkill : Type 0 where
  pub skill_id : String
  pub version : String

pub record SkillCandidate : Type 0 where
  pub skill_id : String
  pub version : String
  pub score : ℕ

pub record RoutingDecision : Type 0 where
  pub task_id : String
  pub selected_skill : Option SelectedSkill
  pub candidates : List SkillCandidate
  pub routing_status : RoutingStatus
  pub timestamp : String

abbrev pub skill_of : Scored → SelectedSkill
skill_of c = record { skill_id = c.manifest.skill_id; version = c.manifest.version }

abbrev candidate_of : Scored → SkillCandidate
candidate_of c = record {
  skill_id = c.manifest.skill_id;
  version = c.manifest.version;
  score = c.score;
}

abbrev pub is_zero : ℤ → Bool
is_zero (pos n) = nat_beq n 0
is_zero (negsuc n) = false

-- Whether the second candidate ties with the first.
abbrev pub ambiguous : Scored → List Scored → Bool
ambiguous best [] = false
ambiguous best (second ∷ others) = is_zero (compare_candidates best second)

module _ (u : Unicode) where
  -- The loop over the manifests.
  unfoldable pub scored_candidates : String → List SkillManifest → List Scored
  scored_candidates goal [] = []
  scored_candidates goal (m ∷ ms) =
      let rest = scored_candidates goal ms in
      let score = trigger_match_score u goal m.triggers in
      if goal_matches_non_trigger u goal m.non_triggers
      then rest
      else if nat_beq score 0
      then rest
      else record { manifest = m; score = score } ∷ rest

  -- What is decided on the sorted candidates.
  unfoldable pub decide_route : String → String → List Scored → RoutingDecision
  decide_route task_id now [] = record {
    task_id = task_id;
    selected_skill = none;
    candidates = [];
    routing_status = blocked;
    timestamp = now;
  }
  decide_route task_id now (best ∷ others) =
      if ambiguous best others
      then record {
        task_id = task_id;
        selected_skill = none;
        candidates = map candidate_of (best ∷ others);
        routing_status = uncertain;
        timestamp = now;
      }
      else record {
        task_id = task_id;
        selected_skill = some (skill_of best);
        candidates = map candidate_of (best ∷ others);
        routing_status = selected;
        timestamp = now;
      }

  unfoldable pub route_task : String → String → List SkillManifest → String → RoutingDecision
  unfolding scored_candidates decide_route
  route_task task_id goal manifests now =
      decide_route task_id now (sort key_leb (scored_candidates (normalize_goal u goal) manifests))
