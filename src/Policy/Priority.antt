-- ===== src/Policy/Priority.antt =====
-- Which rule decides: the loop over the rules, against the order of their priorities.
use syndicateclaw.Json.{int_leb_total, int_leb_trans, int_leb_refl}
use syndicateclaw.Base.{
  String, ◌≡◌, refl, Bool, true, false, none, some, List, [], ◌∷◌, ◌⊎◌, inl, inr, arith, In,
  In-keep, In-keep_of, Result, ok, Result-cases, string_eq,
}
use syndicateclaw.Order.{IsOrder, sort-In, In-sort, IsSorted, sort-IsSorted, keep-IsSorted}
use syndicateclaw.Json.{Value, Fields}
use syndicateclaw.Policy.Rules.{
  Effect, effect_of, PolicyRow, Checked, check_conditions, by_priority, is_enabled_for,
  get_enabled_by_resource_type, matching_rules, Match, first_match,
}

by_priority-IsOrder : IsOrder by_priority
by_priority-IsOrder = record {
  total = λ a b h. int_leb_total b.priority a.priority h;
  trans = λ a b c h k. int_leb_trans c.priority b.priority a.priority k h;
}

module _ (fnmatch : String → String → Bool) (resource_type resource_id : String) where
  -- An enabled rule for the type whose pattern matches the resource.
  pub record Applies (rows : List PolicyRow) (r : PolicyRow) : Type 0 where
    pub stored : In r rows
    pub of_type : is_enabled_for resource_type r ≡ true
    pub fits : fnmatch resource_id r.resource_pattern ≡ true

  pub matching_rules-Applies :
      (rows : List PolicyRow) (r : PolicyRow)
      → In r (matching_rules fnmatch resource_type resource_id rows)
      → Applies rows r
  unfolding matching_rules get_enabled_by_resource_type
  matching_rules-Applies rows r m =
      let (i, f) = In-keep (λ r. fnmatch resource_id r.resource_pattern) r _ m in
      let (j, t) = In-keep (is_enabled_for resource_type) r rows (sort-In by_priority r _ i) in
      record { stored = j; of_type = t; fits = f }

  pub Applies-matching_rules :
      (rows : List PolicyRow) (r : PolicyRow)
      → Applies rows r
      → In r (matching_rules fnmatch resource_type resource_id rows)
  unfolding matching_rules get_enabled_by_resource_type
  Applies-matching_rules rows r a =
      In-keep_of (λ r. fnmatch resource_id r.resource_pattern) r _
        (In-sort by_priority r _
          (In-keep_of (is_enabled_for resource_type) r rows a.stored a.of_type))
        a.fits

  pub matching_rules-IsSorted :
      (rows : List PolicyRow)
      → IsSorted by_priority (matching_rules fnmatch resource_type resource_id rows)
  unfolding matching_rules get_enabled_by_resource_type
  matching_rules-IsSorted rows =
      keep-IsSorted by_priority (λ r. fnmatch resource_id r.resource_pattern) _
        (sort-IsSorted by_priority by_priority-IsOrder _)

module _ (str : Value → String) (search : String → String → Result Bool) (context : Fields) where
  pub record Passes (r : PolicyRow) (seen : List Checked) : Type 0 where
    pub passes : check_conditions str search r.conditions context ≡ ok (true, seen)

  pub record Fails (r : PolicyRow) : Type 0 where
    pub seen : List Checked
    pub fails : check_conditions str search r.conditions context ≡ ok (false, seen)

  -- The match is a rule of the list whose conditions all hold, with that rule's effect, and every
  -- rule of a higher priority has a condition that does not hold.
  pub record Wins (rows : List PolicyRow) (m : Match) : Type 0 where
    pub chosen : In m.rule rows
    pub passes : Passes m.rule m.conditions_evaluated
    pub says : effect_of m.rule.effect ≡ ok m.effect
    pub before : (r : PolicyRow) → In r rows → by_priority m.rule r ≡ false → Fails r

  Wins-behind :
      (r : PolicyRow) (rest : List PolicyRow) (m : Match)
      → Fails r
      → Wins rest m
      → Wins (r ∷ rest) m
  Wins-behind r rest m f w = record {
    chosen = inr w.chosen;
    passes = w.passes;
    says = w.says;
    before = λ x i h. elim i [ inl e ↦ subst_Fails e f | inr j ↦ w.before x j h ];
  }
    where
      subst_Fails : {x y : PolicyRow} → x ≡ y → Fails x → Fails y
      subst_Fails e f = rw (← e) f

  pub first_match-Wins :
      (rows : List PolicyRow)
      → IsSorted by_priority rows
      → (m : Match) → first_match str search rows context ≡ ok (some m)
      → Wins rows m
  unfolding first_match
  first_match-Wins [] s m h = ground arith
  first_match-Wins (r ∷ rest) (above, s) m h =
      elim (Result-cases (check_conditions str search r.conditions context)) [
        | inr (e, c) ↦ ground arith
        | inl ((false, seen), c) ↦
            Wins-behind r rest m (record { seen = seen; fails = c })
              (first_match-Wins rest s m (rw (c, first_match) at h))
        | inl ((true, seen), c) ↦ elim (Result-cases (effect_of r.effect)) [
          | inr (e, c') ↦ ground arith
          | inl (x, c') ↦
              let same : record { rule = r; effect = x; conditions_evaluated = seen } ≡ m =
                ground arith in
              rw (← same) (record {
                chosen = inl refl;
                passes = record { passes = c };
                says = c';
                before = λ y i h'. elim i [
                  | inl e ↦ ground (arith, int_leb_refl r.priority)
                  | inr j ↦ ground (arith, above y j)
                ];
              })
        ]
      ]

  -- If no rule of the list has all its conditions, none is found.
  pub first_match-none :
      (rows : List PolicyRow)
      → ((r : PolicyRow) → In r rows → Fails r)
      → first_match str search rows context ≡ ok none
  unfolding first_match
  first_match-none [] h = refl
  first_match-none (r ∷ rest) h =
      let f = h r (inl refl) in
      rw (f.fails, first_match) (first_match-none rest (λ x m. h x (inr m)))

  -- A rule of the list whose conditions all hold is the match, if every rule of its priority or a
  -- higher one is itself or has a condition that does not hold.
  pub first_match_found :
      (rows : List PolicyRow) (r : PolicyRow) (seen : List Checked) (x : Effect)
      → IsSorted by_priority rows
      → In r rows
      → Passes r seen
      → effect_of r.effect ≡ ok x
      → ((y : PolicyRow) → In y rows → by_priority y r ≡ true → (y ≡ r) ⊎ Fails y)
      → first_match str search rows context
        ≡ ok (some (record { rule = r; effect = x; conditions_evaluated = seen }))
  unfolding first_match
  first_match_found [] r seen x s m p e h = absurd m
  first_match_found (y ∷ rest) r seen x (above, s) (inl same) p e h =
      let c : check_conditions str search y.conditions context ≡ ok (true, seen) =
        rw same p.passes in
      let c' : effect_of y.effect ≡ ok x = rw same e in rw (c, first_match) (rw c' (rw same refl))
  first_match_found (y ∷ rest) r seen x (above, s) (inr m) p e h =
      elim (h y (inl refl) (above r m)) [
        | inl same ↦
            let c : check_conditions str search y.conditions context ≡ ok (true, seen) =
              rw same p.passes in
            let c' : effect_of y.effect ≡ ok x = rw same e in
            rw (c, first_match) (rw c' (rw same refl))
        | inr f ↦
            rw (f.fails, first_match) (first_match_found rest r seen x s m p e (λ z i. h z (inr i)))
      ]
