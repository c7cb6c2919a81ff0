-- ===== src/Skills/Tests.antt =====
-- Two skills and a goal.
use syndicateclaw.Base.{◌≡◌, refl, List, [], ◌∷◌, some, if◌then◌else◌}
use syndicateclaw.Order.{sort}
use syndicateclaw.Skills.Scoring.{
  Unicode, normalize_goal, low_risk, high_risk, high_target, SkillManifest, Scored,
  compare_candidates, id_leb, key_leb, goal_matches_non_trigger, trigger_match_score,
}
use syndicateclaw.Skills.Router.{is_zero, route_task}
use syndicateclaw.Skills.Ranking.{is_negative, compare_candidates-key_leb}
use syndicateclaw.Skills.Verdict.{Verdict, route_task-Verdict}

abbrev ascii : Unicode
ascii = record { nfc = λ s. s; lower_strip = λ s. s; code_points = λ s. 5 }

abbrev writer : SkillManifest
writer = record {
  skill_id = "writer";
  version = "1.0";
  triggers = record { phrases = "write" ∷ [] } ∷ [];
  non_triggers = record { phrases = "delete" ∷ [] } ∷ [];
  risk_level = low_risk;
  determinism_target = high_target;
}

abbrev editor : SkillManifest
editor = record writer { skill_id = "editor"; risk_level = high_risk; non_triggers = [] }

abbrev skills : List SkillManifest
skills = editor ∷ writer ∷ []

routes_to_writer :
    (route_task ascii "t" "write a letter" skills "now").selected_skill
    ≡ some (record { skill_id = "writer"; version = "1.0" })
unfolding route_task compare_candidates goal_matches_non_trigger trigger_match_score sort
routes_to_writer = refl

vetoed_writer :
    (route_task ascii "t" "write then delete" skills "now").selected_skill
    ≡ some (record { skill_id = "editor"; version = "1.0" })
unfolding route_task compare_candidates goal_matches_non_trigger trigger_match_score sort
vetoed_writer = refl

route_task-Verdict_example :
    Verdict ascii
      (normalize_goal ascii "write a letter")
      skills
      (route_task ascii "t" "write a letter" skills "now").routing_status
      (route_task ascii "t" "write a letter" skills "now").selected_skill
route_task-Verdict_example = route_task-Verdict ascii "t" "write a letter" skills "now"

abbrev one : Scored
one = record { manifest = writer; score = 5 }

abbrev two : Scored
two = record { manifest = editor; score = 5 }

compare_candidates-key_leb_example : key_leb one two ≡ (
    if is_zero (compare_candidates one two)
    then id_leb one two
    else is_negative (compare_candidates one two))
compare_candidates-key_leb_example = compare_candidates-key_leb one two
