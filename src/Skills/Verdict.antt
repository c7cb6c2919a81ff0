-- ===== src/Skills/Verdict.antt =====
-- What the decision says about the skills that the registry lists.
use syndicateclaw.Skills.Scoring.{
  difference, SkillRisk, low_risk, medium_risk, high_risk, DeterminismTarget, low_target,
  medium_target, high_target,
}
use syndicateclaw.Base.{◌+◌, ◌*◌, ◌≤◌, ◌<◌}
use syndicateclaw.Base.{
  ℕ, ◌≡◌, refl, sym, true, false, List, [], ◌∷◌, String, nat_beq, ltb, Bool-cases, inl, inr, arith,
  ◌∙◌, In, Option, none, some, ◌⊎◌, ap, subst,
}
use syndicateclaw.Order.{sort, IsSorted, sort-IsSorted, sort-In, In-sort, Apart, sort-Apart}
use syndicateclaw.Skills.Scoring.{
  Unicode, normalize_goal, goal_matches_non_trigger, trigger_match_score, Scored, SkillManifest,
  risk_rank, determinism_rank, compare_candidates, key_leb,
}
use syndicateclaw.Skills.Router.{
  RoutingStatus, selected, uncertain, blocked, SelectedSkill, skill_of, is_zero, ambiguous,
  scored_candidates, decide_route, route_task,
}
use syndicateclaw.Skills.Ranking.{key_leb-IsOrder, is_negative, compare_candidates-key_leb}

-- `a` is before `b` on score, risk and determinism, or level with it.
abbrev pub Beats : Scored → Scored → Type 0
Beats a b = is_negative (compare_candidates a b) ≡ true

abbrev pub Ties : Scored → Scored → Type 0
Ties a b = is_zero (compare_candidates a b) ≡ true

key_leb-Beats : (a b : Scored) → key_leb a b ≡ true → Beats a b ⊎ Ties a b
key_leb-Beats a b h = elim (Bool-cases (is_zero (compare_candidates a b))) [
  | inl z ↦ inr z
  | inr z ↦ inl (rw z at (sym (compare_candidates-key_leb a b) ∙ h))
]

-- The three dimensions as one number: ranks are at most 2.
abbrev dimension_rank : Scored → ℕ
dimension_rank c =
    3 * risk_rank c.manifest.risk_level + determinism_rank c.manifest.determinism_target

risk_rank_bound : (r : SkillRisk) → risk_rank r ≤ 2
risk_rank_bound low_risk = omega arith
risk_rank_bound medium_risk = omega arith
risk_rank_bound high_risk = omega arith

determinism_rank_bound : (d : DeterminismTarget) → determinism_rank d ≤ 2
determinism_rank_bound low_target = omega arith
determinism_rank_bound medium_target = omega arith
determinism_rank_bound high_target = omega arith

difference_sign : (a b : ℕ) → is_negative (difference a b) ≡ ltb a b
difference_sign a b = ground arith

module _ (a b : Scored) where
  Beats-measure : Beats a b → 9 * b.score + dimension_rank a < 9 * a.score + dimension_rank b
  unfolding compare_candidates
  Beats-measure h =
      let p = risk_rank_bound a.manifest.risk_level in
      let q = risk_rank_bound b.manifest.risk_level in
      let m = determinism_rank_bound a.manifest.determinism_target in
      let n = determinism_rank_bound b.manifest.determinism_target in ground arith

  measure-Beats : 9 * b.score + dimension_rank a < 9 * a.score + dimension_rank b → Beats a b
  unfolding compare_candidates
  measure-Beats h =
      let p = risk_rank_bound a.manifest.risk_level in
      let q = risk_rank_bound b.manifest.risk_level in
      let m = determinism_rank_bound a.manifest.determinism_target in
      let n = determinism_rank_bound b.manifest.determinism_target in ground arith

  Ties-measure : Ties a b → 9 * b.score + dimension_rank a ≡ 9 * a.score + dimension_rank b
  unfolding compare_candidates
  Ties-measure h = ground arith

Beats-trans : (a b c : Scored) → Beats a b → Beats b c ⊎ Ties b c → Beats a c
Beats-trans a b c h (inl k) =
    measure-Beats a c (omega (arith, Beats-measure a b h, Beats-measure b c k))
Beats-trans a b c h (inr k) =
    measure-Beats a c (omega (arith, Beats-measure a b h, Ties-measure b c k))

not_beaten : (a b : Scored) → key_leb a b ≡ true → is_negative (compare_candidates b a) ≡ false
unfolding compare_candidates
not_beaten a b h = ground arith

first_le : (a : Scored) → key_leb a a ≡ true
first_le a = elim (Bool-cases (key_leb a a)) [ inl t ↦ t | inr f ↦ key_leb-IsOrder.total a a f ]

-- the first of a sorted list that does not tie with the second beats all others
first-Beats :
    (best : Scored) (others : List Scored)
    → IsSorted key_leb (best ∷ others)
    → ambiguous best others ≡ false
    → (x : Scored) → In x others
    → Beats best x
first-Beats best [] s a x m = elim m [ ]
first-Beats best (y ∷ ys) (le, (le', s)) a x m =
    let first : Beats best y = elim (key_leb-Beats best y (le y (inl refl))) [
      | inl b ↦ b
      | inr z ↦ let bad : true ≡ false = sym z ∙ a in ground arith
    ] in
    elim m [
      | inl e ↦ rw (← e) first
      | inr i ↦ Beats-trans best y x first (key_leb-Beats y x (le' x i))
    ]

module _ (u : Unicode) (goal : String) where
  abbrev pub score_of : SkillManifest → Scored
  score_of m = record { manifest = m; score = trigger_match_score u goal m.triggers }

  -- A skill that may be routed to: no phrase of its non-triggers matches, and one of its triggers
  -- does.
  pub record Eligible (manifests : List SkillManifest) (m : SkillManifest) : Type 0 where
    pub listed : In m manifests
    pub allowed : goal_matches_non_trigger u goal m.non_triggers ≡ false
    pub matched : nat_beq (trigger_match_score u goal m.triggers) 0 ≡ false

  later :
      (m : SkillManifest) (ms : List SkillManifest) (x : SkillManifest)
      → Eligible ms x
      → Eligible (m ∷ ms) x
  later m ms x e = record { listed = inr e.listed; allowed = e.allowed; matched = e.matched }

  from_rest :
      (m : SkillManifest) (ms : List SkillManifest) (c : Scored)
      → (x : SkillManifest) × Eligible ms x × (score_of x ≡ c)
      → (x : SkillManifest) × Eligible (m ∷ ms) x × (score_of x ≡ c)
  from_rest m ms c (x, e, s) = (x, later m ms x e, s)

  In-scored_candidates :
      (ms : List SkillManifest) (c : Scored)
      → In c (scored_candidates u goal ms)
      → (m : SkillManifest) × Eligible ms m × (score_of m ≡ c)
  unfolding scored_candidates
  In-scored_candidates [] c i = elim i [ ]
  In-scored_candidates (m ∷ ms) c i =
      elim (Bool-cases (goal_matches_non_trigger u goal m.non_triggers)) [
        | inl v ↦ from_rest m ms c (In-scored_candidates ms c (rw v at i))
        | inr v ↦ elim (Bool-cases (nat_beq (trigger_match_score u goal m.triggers) 0)) [
          | inl z ↦ from_rest m ms c (In-scored_candidates ms c (rw z at (rw v at i)))
          | inr z ↦ elim (rw z at (rw v at i)) [
            | inl e ↦ (m, record { listed = inl refl; allowed = v; matched = z }, e)
            | inr j ↦ from_rest m ms c (In-scored_candidates ms c j)
          ]
        ]
      ]

  listed_of :
      (ms : List SkillManifest) (c : Scored) → In c (scored_candidates u goal ms) → In c.manifest ms
  listed_of ms c i =
      let (m, e, s) = In-scored_candidates ms c i in
      subst (λ x. In x ms) (ap (λ s. s.manifest) s) e.listed

  scored_In :
      (ms : List SkillManifest) (m : SkillManifest)
      → In m ms
      → goal_matches_non_trigger u goal m.non_triggers ≡ false
      → nat_beq (trigger_match_score u goal m.triggers) 0 ≡ false
      → In (score_of m) (scored_candidates u goal ms)
  unfolding scored_candidates
  scored_In [] m i v z = elim i [ ]
  scored_In (x ∷ xs) m (inl e) v z =
      let v' : goal_matches_non_trigger u goal x.non_triggers ≡ false = rw e v in
      let z' : nat_beq (trigger_match_score u goal x.triggers) 0 ≡ false = rw e z in
      rw v' (rw z' (inl (ap score_of e)))
  scored_In (x ∷ xs) m (inr i) v z =
      let rest = scored_In xs m i v z in
      elim (Bool-cases (goal_matches_non_trigger u goal x.non_triggers)) [
        | inl v' ↦ rw v' rest
        | inr v' ↦ elim (Bool-cases (nat_beq (trigger_match_score u goal x.triggers) 0)) [
          | inl z' ↦ rw v' (rw z' rest)
          | inr z' ↦ rw v' (rw z' (inr rest))
        ]
      ]

  Apart-scored_candidates :
      (ms : List SkillManifest) (c d : Scored)
      → Apart c d (scored_candidates u goal ms)
      → Apart c.manifest d.manifest ms
  unfolding scored_candidates
  Apart-scored_candidates [] c d h = h
  Apart-scored_candidates (m ∷ ms) c d h =
      elim (Bool-cases (goal_matches_non_trigger u goal m.non_triggers)) [
        | inl v ↦ inr (inr (Apart-scored_candidates ms c d (rw v at h)))
        | inr v ↦ elim (Bool-cases (nat_beq (trigger_match_score u goal m.triggers) 0)) [
          | inl z ↦ inr (inr (Apart-scored_candidates ms c d (rw z at (rw v at h))))
          | inr z ↦ elim (rw z at (rw v at h)) [
            | inl (e, i) ↦ inl (ap (λ s. s.manifest) e, listed_of ms d i)
            | inr (inl (e, i)) ↦ inr (inl (ap (λ s. s.manifest) e, listed_of ms c i))
            | inr (inr k) ↦ inr (inr (Apart-scored_candidates ms c d k))
          ]
        ]
      ]

  -- What a decision with a status says.
  abbrev pub Verdict : List SkillManifest → RoutingStatus → Option SelectedSkill → Type 0
  Verdict ms selected chosen =
      (m : SkillManifest) × Eligible ms m
      × (chosen ≡ some (skill_of (score_of m)))
      × ((x : SkillManifest)
          → Eligible ms x
          → (score_of m ≡ score_of x) ⊎ Beats (score_of m) (score_of x))
  Verdict ms uncertain chosen =
      (chosen ≡ none)
      × (m : SkillManifest) × (n : SkillManifest) × Apart m n ms
      × Eligible ms m
      × Eligible ms n
      × Ties (score_of m) (score_of n)
      × ((x : SkillManifest)
          → Eligible ms x
          → is_negative (compare_candidates (score_of x) (score_of m)) ≡ false)
  Verdict ms blocked chosen = (chosen ≡ none) × ((x : SkillManifest) → Eligible ms x → ⊥)

  -- the sorted candidates are the eligible skills
  record Covers (ms : List SkillManifest) (cs : List Scored) : Type 0 where
    sound : (c : Scored) → In c cs → (m : SkillManifest) × Eligible ms m × (score_of m ≡ c)
    complete : (m : SkillManifest) → Eligible ms m → In (score_of m) cs
    apart : (c d : Scored) → Apart c d cs → Apart c.manifest d.manifest ms

  covers : (ms : List SkillManifest) → Covers ms (sort key_leb (scored_candidates u goal ms))
  covers ms = record {
    sound = λ c i. In-scored_candidates ms c (sort-In key_leb c _ i);
    complete = λ m e. In-sort key_leb (score_of m) _ (scored_In ms m e.listed e.allowed e.matched);
    apart = λ c d h. Apart-scored_candidates ms c d (sort-Apart key_leb c d _ h);
  }

  selected-Verdict :
      (ms : List SkillManifest) (best : Scored) (others : List Scored)
      → Covers ms (best ∷ others)
      → IsSorted key_leb (best ∷ others)
      → ambiguous best others ≡ false
      → Verdict ms selected (some (skill_of best))
  selected-Verdict ms best others cover sorted a =
      let (m, e, s) = cover.sound best (inl refl) in
      (
        m,
        e,
        ap (λ c. some (skill_of c)) (sym s),
        λ x ex. elim (cover.complete x ex) [
          | inl same ↦ inl (s ∙ same)
          | inr i ↦ inr (rw s (first-Beats best others sorted a (score_of x) i))
        ],
      )

  uncertain-Verdict :
      (ms : List SkillManifest) (best : Scored) (others : List Scored)
      → Covers ms (best ∷ others)
      → IsSorted key_leb (best ∷ others)
      → ambiguous best others ≡ true
      → Verdict ms uncertain none
  uncertain-Verdict ms best [] cover sorted a = ground arith
  uncertain-Verdict ms best (y ∷ ys) cover (le, rest) a =
      let (m, e, s) = cover.sound best (inl refl) in
      let (n, f, t) = cover.sound y (inr (inl refl)) in
      (
        refl,
        m,
        n,
        subst (λ x. Apart x n ms) (sym (ap (λ c. c.manifest) s))
            (subst (λ x. Apart best.manifest x ms) (sym (ap (λ c. c.manifest) t))
              (cover.apart best y (inl (refl, inl refl)))),
        e,
        f,
        rw s (rw t a),
        λ x ex. rw s (elim (cover.complete x ex) [
          | inl same ↦ rw (← same) (not_beaten best best (first_le best))
          | inr i ↦ not_beaten best (score_of x) (le (score_of x) i)
        ]),
      )

  decide_route-Verdict :
      (task_id now : String) (ms : List SkillManifest) (cs : List Scored)
      → Covers ms cs
      → IsSorted key_leb cs
      → Verdict ms
          (decide_route u task_id now cs).routing_status
          (decide_route u task_id now cs).selected_skill
  unfolding decide_route
  decide_route-Verdict task_id now ms [] cover sorted = (refl, λ x e. absurd (cover.complete x e))
  decide_route-Verdict task_id now ms (best ∷ others) cover sorted =
      elim (Bool-cases (ambiguous best others)) [
        | inl a ↦ rw a (uncertain-Verdict ms best others cover sorted a)
        | inr a ↦ rw a (selected-Verdict ms best others cover sorted a)
      ]

-- A task is routed to an eligible skill of the registry that beats every other eligible skill on
-- score, risk and determinism, compared in this order; or the decision is uncertain, with no skill,
-- and two eligible skills, at two places of the registry's list, tie that no eligible skill beats; or
-- it is blocked, with no skill, and no skill is eligible.
pub route_task-Verdict :
    (u : Unicode) (task_id goal : String) (manifests : List SkillManifest) (now : String)
    → Verdict u
        (normalize_goal u goal)
        manifests
        (route_task u task_id goal manifests now).routing_status
        (route_task u task_id goal manifests now).selected_skill
unfolding route_task
route_task-Verdict u task_id goal manifests now =
    decide_route-Verdict u (normalize_goal u goal) task_id now manifests _
      (covers u (normalize_goal u goal) manifests) (sort-IsSorted key_leb key_leb-IsOrder _)
