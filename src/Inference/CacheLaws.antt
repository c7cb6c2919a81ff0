-- ===== src/Inference/CacheLaws.antt =====
-- The policy cache: its bound, what a reader gets, and what stays coherent.
use syndicateclaw.Base.{
  ℕ, suc, String, ◌≡◌, refl, false, not, none, some, List, [], ◌∷◌, ◌++◌, ◌+◌, ◌≤◌, ◌==◌, string_eq,
  eq_iff, leb, ltb, length, if◌then◌else◌, arith, In, In-keep, In-find, In-append, inl, inr,
  Bool-cases, Option-cases, length-append, length-keep,
}
use syndicateclaw.Inference.PolicyCache.{
  PolicyCache, Entry, Answer, lookup, without, get, evict, set, clear,
}

length-evict : (bound : ℕ) (es : List Entry) → length (evict bound es) ≤ bound
unfolding evict
length-evict bound [] = omega arith
length-evict bound (e ∷ es) = ground (arith, length-evict bound es)

In-evict : (bound : ℕ) (x : Entry) (es : List Entry) → In x (evict bound es) → In x es
unfolding evict
In-evict bound x [] m = m
In-evict bound x (e ∷ es) m = elim (Bool-cases (ltb bound (length (e ∷ es)))) [
  | inl t ↦ inr (In-evict bound x es (rw (t, evict) at m))
  | inr f ↦ rw (f, evict) at m
]

pub data Op : Type 0 where
  gets : String → ℕ → Op
  sets : String → Answer → ℕ → Op
  clears : Op

pub run_op : Op → PolicyCache → PolicyCache
run_op (gets k t) c = (get k t c).1
run_op (sets k a t) c = set k a t c
run_op clears c = clear c

pub run : List Op → PolicyCache → PolicyCache
run [] c = c
run (op ∷ ops) c = run ops (run_op op c)

abbrev pub IsBounded : PolicyCache → Type 0
IsBounded c = length c.entries ≤ c.max_entries

length-without :
    (k : String) (es : List Entry) (e : Entry)
    → lookup k es ≡ some e
    → suc (length (without k es)) ≤ length es
length-without k [] e h = ground arith
length-without k (x ∷ xs) e h =
    ground (arith, length-without k xs e, length-keep (λ y. not (y.key == k)) xs)

get-IsBounded : (k : String) (t : ℕ) (c : PolicyCache) → IsBounded c → IsBounded (get k t c).1
unfolding get
get-IsBounded k t c h = elim (Option-cases (lookup k c.entries)) [
  | inl e ↦ rw (e, get) h
  | inr (x, e) ↦
      ground
        (arith, length-without k c.entries x e, length-append {0} (without k c.entries) (x ∷ []))
]

run_op-IsBounded : (op : Op) (c : PolicyCache) → IsBounded c → IsBounded (run_op op c)
unfolding run_op set clear
run_op-IsBounded (gets k t) c h = get-IsBounded k t c h
run_op-IsBounded (sets k a t) c h = length-evict c.max_entries _
run_op-IsBounded clears c h = omega arith

-- Whatever is asked of it, a cache that is within its bound stays within it.
pub run-IsBounded : (ops : List Op) (c : PolicyCache) → IsBounded c → IsBounded (run ops c)
unfolding run
run-IsBounded [] c h = h
run-IsBounded (op ∷ ops) c h = run-IsBounded ops (run_op op c) (run_op-IsBounded op c h)

lookup_last :
    (k : String) (es : List Entry) (e : Entry)
    → e.key ≡ k
    → ((x : Entry) → In x es → (x.key == k) ≡ false)
    → lookup k (es ++ e ∷ []) ≡ some e
lookup_last k [] e own other = ground (arith, eq_iff e.key k)
lookup_last k (x ∷ xs) e own other =
    rw (other x (inl refl)) (lookup_last k xs e own (λ y m. other y (inr m)))

lookup-evict_last :
    (bound : ℕ) (k : String) (es : List Entry) (e : Entry)
    → 1 ≤ bound
    → e.key ≡ k
    → ((x : Entry) → In x es → (x.key == k) ≡ false)
    → lookup k (evict bound (es ++ e ∷ [])) ≡ some e
unfolding evict
lookup-evict_last bound k [] e h own other = ground (arith, eq_iff e.key k)
lookup-evict_last bound k (x ∷ xs) e h own other =
    elim (Bool-cases (ltb bound (length (x ∷ (xs ++ e ∷ []))))) [
      | inl t ↦ rw (t, evict) (lookup-evict_last bound k xs e h own (λ y m. other y (inr m)))
      | inr f ↦ rw (f, evict) (lookup_last k (x ∷ xs) e own other)
    ]

without-lacks :
    (k : String) (es : List Entry) (x : Entry) → In x (without k es) → (x.key == k) ≡ false
without-lacks k es x m = let (i, t) = In-keep (λ e. not (e.key == k)) x es m in ground arith

-- An answer that was stored at `t` is read until the time to live has passed, and not from then on.
get-set_self :
    (k : String) (a : Answer) (t later : ℕ) (c : PolicyCache)
    → 1 ≤ c.max_entries
    → (get k later (set k a t c)).0 ≡ (if leb (t + c.ttl) later then none else some a)
unfolding get set
get-set_self k a t later c h =
    rw
      (
        lookup-evict_last c.max_entries k (without k c.entries)
            (record { key = k; expires_at = t + c.ttl; answer = a }) h refl
            (without-lacks k c.entries),
        get,
      )
      (ground arith)

module _ (answers : String → Answer → Type 0) where
  -- Every stored answer is one that may be given for its key.
  abbrev pub IsCoherent : PolicyCache → Type 0
  IsCoherent c = (e : Entry) → In e c.entries → answers e.key e.answer

  pub get-IsCoherent :
      (k : String) (t : ℕ) (c : PolicyCache) → IsCoherent c → IsCoherent (get k t c).1
  unfolding get
  get-IsCoherent k t c h e m = elim (Option-cases (lookup k c.entries)) [
    | inl n ↦ h e (rw (n, get) at m)
    | inr (x, q) ↦ elim (Bool-cases (leb x.expires_at t)) [
      | inl old ↦
          let m' : In e (without k c.entries) = rw old at (rw (q, get) at m) in
          h e (In-keep (λ y. not (y.key == k)) e c.entries m').0
      | inr live ↦
          let m' : In e (without k c.entries ++ x ∷ []) = rw live at (rw (q, get) at m) in
          elim (In-append e (without k c.entries) (x ∷ []) m') [
            | inl i ↦ h e (In-keep (λ y. not (y.key == k)) e c.entries i).0
            | inr i ↦ elim i [
              | inl same ↦ rw (← same) (h x (In-find (λ y. y.key == k) x c.entries q).0)
              | inr none_left ↦ absurd none_left
            ]
          ]
    ]
  ]

  pub get-answers :
      (k : String) (t : ℕ) (c : PolicyCache) {a : Answer}
      → IsCoherent c
      → (get k t c).0 ≡ some a
      → answers k a
  unfolding get
  get-answers k t c {a} h e = elim (Option-cases (lookup k c.entries)) [
    | inl n ↦ ground arith
    | inr (x, q) ↦
        let (i, own) = In-find (λ y. y.key == k) x c.entries q in
        let same : x.answer ≡ a = ground arith in rw (← same, ← (eq_iff x.key k).0 own) (h x i)
  ]

  pub set-IsCoherent :
      (k : String) (a : Answer) (t : ℕ) (c : PolicyCache)
      → answers k a
      → IsCoherent c
      → IsCoherent (set k a t c)
  unfolding set
  set-IsCoherent k a t c g h e m =
      elim (In-append e (without k c.entries) _ (In-evict c.max_entries e _ m)) [
        | inl i ↦ h e (In-keep (λ y. not (y.key == k)) e c.entries i).0
        | inr i ↦ elim i [ inl same ↦ rw (← same) g | inr none_left ↦ absurd none_left ]
      ]
