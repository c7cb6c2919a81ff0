-- ===== src/Workflow/Edges.antt =====
-- Which edge a run follows.
use syndicateclaw.Base.{◌∙◌}
use syndicateclaw.Base.{
  String, ◌≡◌, refl, sym, Bool, true, false, none, some, List, [], ◌∷◌, inl, inr, arith, In,
  In-keep, Bool-cases, Option-cases, keep, ◌==◌, string_eq, In-keep_of,
}
use syndicateclaw.Order.{IsOrder, sort, sort-In, In-sort, IsSorted, sort-IsSorted}
use syndicateclaw.Json.{int_leb, int_leb_total, int_leb_trans, int_leb_refl, Fields}
use syndicateclaw.Workflow.Graph.{Edge, first_edge, resolve_next_node}

abbrev pub higher_first : Edge → Edge → Bool
higher_first a b = int_leb b.priority a.priority

higher_first-IsOrder : IsOrder higher_first
higher_first-IsOrder = record {
  total = λ a b h. int_leb_total b.priority a.priority h;
  trans = λ a b c h k. int_leb_trans c.priority b.priority a.priority k h;
}

module _ (holds : String → Fields → Bool) (state : Fields) where
  -- The edge has no condition, or one that holds.
  abbrev pub is_open : Edge → Bool
  is_open e = elim e.condition [ none ↦ true | some c ↦ holds c state ]

  first_edge-open :
      (x : Edge) (xs : List Edge)
      → is_open x ≡ true
      → first_edge holds state (x ∷ xs) ≡ some x.target_node_id
  unfolding first_edge
  first_edge-open x xs o = elim (Option-cases x.condition) [
    | inl n ↦ rw (n, first_edge) refl
    | inr (c, n) ↦ let t : holds c state ≡ true = rw n at o in rw (n, first_edge) (rw t refl)
  ]

  first_edge-shut :
      (x : Edge) (xs : List Edge)
      → is_open x ≡ false
      → first_edge holds state (x ∷ xs) ≡ first_edge holds state xs
  unfolding first_edge
  first_edge-shut x xs o = elim (Option-cases x.condition) [
    | inl n ↦ ground (arith, n, o)
    | inr (c, n) ↦ let t : holds c state ≡ false = rw n at o in rw (n, first_edge) (rw t refl)
  ]

  -- The target is that of an open edge of the list, and no edge of a higher priority is open.
  pub record Chosen (edges : List Edge) (target : String) (e : Edge) : Type 0 where
    pub listed : In e edges
    pub leads : e.target_node_id ≡ target
    pub opens : is_open e ≡ true
    pub first : (f : Edge) → In f edges → higher_first e f ≡ false → is_open f ≡ false

  first_edge-Chosen :
      (edges : List Edge) (target : String)
      → IsSorted higher_first edges
      → first_edge holds state edges ≡ some target
      → (e : Edge) × Chosen edges target e
  unfolding first_edge
  first_edge-Chosen [] target s h = ground arith
  first_edge-Chosen (x ∷ xs) target (above, s) h = elim (Bool-cases (is_open x)) [
    | inl o ↦ (
      x,
      record {
        listed = inl refl;
        leads = (let q = first_edge-open x xs o in ground (arith, q, h));
        opens = o;
        first = λ f m n. elim m [
          | inl e ↦ ground (arith, int_leb_refl x.priority)
          | inr j ↦ ground (arith, above f j)
        ];
      },
    )
    | inr o ↦
        let behind : first_edge holds state xs ≡ some target = sym (first_edge-shut x xs o) ∙ h in
        let (e, c) = first_edge-Chosen xs target s behind in
        (
          e,
          record {
            listed = inr c.listed;
            leads = c.leads;
            opens = c.opens;
            first = λ f m n. elim m [ inl q ↦ rw (← q) o | inr j ↦ c.first f j n ];
          },
        )
  ]

  abbrev leaving : String → List Edge → List Edge
  leaving current edges = keep (λ e. e.source_node_id == current) edges

  -- The run goes on to the target of an edge that leaves the node and that is open, and no edge that
  -- leaves the node with a higher priority is open.
  resolve_next_node_sound :
      (current : String) (edges : List Edge) {target : String}
      → resolve_next_node holds current state edges ≡ some target
      → (e : Edge) × In e edges
        × ((e.source_node_id == current) ≡ true)
        × (e.target_node_id ≡ target)
        × (is_open e ≡ true)
        × ((f : Edge)
            → In f edges
            → (f.source_node_id == current) ≡ true
            → higher_first e f ≡ false
            → is_open f ≡ false)
  unfolding resolve_next_node
  resolve_next_node_sound current edges {target} h =
      let (e, c) =
        first_edge-Chosen (sort higher_first (leaving current edges)) target
          (sort-IsSorted higher_first higher_first-IsOrder _) h in
      let (i, t) =
        In-keep (λ e. e.source_node_id == current) e edges (sort-In higher_first e _ c.listed) in
      (
        e,
        i,
        t,
        c.leads,
        c.opens,
        λ f m from above.
            c.first f
              (In-sort higher_first f _
                (In-keep_of (λ e. e.source_node_id == current) f edges m from))
              above,
      )
