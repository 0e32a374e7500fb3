-- ===== src/Kanban/Edges.antt =====
-- The branches that `layout` draws between siblings (tools/kanban-tree/tree.go).
use millstrand.Base.{
  ℕ, Str, str_eq, str_eq→eq, ◌≡◌, ◌↔◌, ◌⊎◌, refl, sym, ap, ◌∙◌, subst, inl, inr, Bool-cases,
  Option-cases, some, some_cancel, List, [], ◌∷◌, ◌++◌, length, In, here, there, In-cases,
  In-of_append, get_elem?, items_at, push, items_at-push, items_at-push_other,
}
use millstrand.Kanban.Scope.{
  SharedGroup, Scope, empty_scope, push_all, place, within, place_all, shared_ids, dependents,
  reachable, first_unseen, promote_rounds, promote_unreached, arrange,
}
use millstrand.Kanban.Placing.{
  get_elem?-append, get_elem?-length, In-of_shared_ids, place-dependents, place_new,
}

pub In-of_push :
    {A : Type 0} (o key : Str) (a x : A) (m : List (Str × List A))
    → In x (items_at o (push key a m))
    → In x (items_at o m) ⊎ ((o ≡ key) × (x ≡ a))
In-of_push o key a x m i = elim (Bool-cases (str_eq o key)) [
  | inl e ↦
      let same = str_eq→eq o key e in
      elim (In-of_append (items_at key m) (a ∷ []) (rw (same, items_at-push key a m) at i)) [
        | inl j ↦ inl (rw same j)
        | inr j ↦ elim (In-cases j) [ inl q ↦ inr (same, q) | inr k ↦ elim k [ ] ]
      ]
  | inr e ↦ inl (rw (items_at-push_other key o a m e) at i)
]

In-of_push_all :
    (o : Str) (bs : List Str) (idx n : ℕ) (by : List (Str × List ℕ))
    → In n (items_at o (push_all bs idx by))
    → In n (items_at o by) ⊎ (In o bs × (n ≡ idx))
unfolding push_all
In-of_push_all o [] idx n by i = inl i
In-of_push_all o (b ∷ bs) idx n by i = elim (In-of_push_all o bs idx n (push b idx by) i) [
  | inl j ↦ elim (In-of_push o b idx n by j) [ inl k ↦ inl k | inr (e, q) ↦ inr (here e, q) ]
  | inr (j, q) ↦ inr (there j, q)
]

module _ (Blocks : Str → Str → Type 0) where
  -- What a scope records of its children are true blocks.
  record Honest (sc : Scope) : Type 0 where
    alone : (b x : Str) → In x (items_at b sc.deps) → Blocks b x
    together :
        (b : Str) (n : ℕ)
        → In n (items_at b sc.shared_by)
        → (g : SharedGroup) × (get_elem? sc.shared n ≡ some g) × Blocks b g.id

  place-Honest :
      (id : Str) (ws : List Str) (sc : Scope)
      → ((b : Str) → In b ws → Blocks b id)
      → Honest sc
      → Honest (place id ws sc)
  place-Honest id [] sc h c = record { alone = c.alone; together = c.together }
  place-Honest id (w ∷ []) sc h c = record {
    alone = λ b x i. elim (In-of_push b w id x sc.deps i) [
      | inl j ↦ c.alone b x j
      | inr (e, q) ↦ subst (λ y. Blocks b y) (sym q) (h b (here e))
    ];
    together = c.together;
  }
  place-Honest id (w ∷ v ∷ ws) sc h c = record {
    alone = c.alone;
    together = λ b n i. elim (In-of_push_all b (w ∷ v ∷ ws) (length sc.shared) n sc.shared_by i) [
      | inl j ↦
          let (g, e, blocks) = c.together b n j in (g, get_elem?-append sc.shared _ n g e, blocks)
      | inr (j, q) ↦
          (record { blockers = w ∷ v ∷ ws; id = id }, rw q (get_elem?-length sc.shared _), h b j)
    ];
  }

  Honest-dependents : (sc : Scope) → Honest sc → (b x : Str) → In x (dependents sc b) → Blocks b x
  unfolding dependents
  Honest-dependents sc c b x i =
      elim (In-of_append (items_at b sc.deps) (shared_ids sc.shared (items_at b sc.shared_by)) i) [
        | inl j ↦ c.alone b x j
        | inr j ↦
            let (n, g, k, e, q) = In-of_shared_ids sc.shared (items_at b sc.shared_by) x j in
            let (g', e', blocks) = c.together b n k in
            let same : g' ≡ g = some_cancel (sym e' ∙ e) in
            subst (λ y. Blocks b y) (ap (λ (h : SharedGroup). h.id) same ∙ sym q) blocks
      ]

  place_all-Honest :
      (blockers : Str → List Str) (siblings children : List Str) (sc : Scope)
      → ((x b : Str) → In x children → In b (within blockers siblings x) → Blocks b x)
      → Honest sc
      → Honest (place_all blockers siblings children sc)
  unfolding place_all
  place_all-Honest blockers siblings [] sc h c = c
  place_all-Honest blockers siblings (x ∷ xs) sc h c =
      place_all-Honest blockers siblings xs _ (λ y b i. h y b (there i))
        (place-Honest x (within blockers siblings x) sc (λ b. h x b (here refl)) c)

module _ (blockers : Str → List Str) (siblings : List Str) where
  place_all-dependents :
      (children : List Str) (sc : Scope) (b x : Str)
      → In x (dependents sc b)
      → In x (dependents (place_all blockers siblings children sc) b)
  unfolding place_all
  place_all-dependents [] sc b x i = i
  place_all-dependents (y ∷ ys) sc b x i =
      place_all-dependents ys _ b x (place-dependents y (within blockers siblings y) sc b x i)

  pub place_all_new :
      (children : List Str) (sc : Scope) (b x : Str)
      → In x children
      → In b (within blockers siblings x)
      → In x (dependents (place_all blockers siblings children sc) b)
  unfolding place_all
  place_all_new [] sc b x i j = elim i [ ]
  place_all_new (y ∷ ys) sc b x i j = elim (In-cases i) [
    | inl e ↦ place_all-dependents ys _ b x (
        subst (λ z. In x (dependents (place z (within blockers siblings z) sc) b)) e
          (place_new x (within blockers siblings x) sc b j))
    | inr k ↦ place_all_new ys _ b x k j
  ]

-- Promotion adds no branch.
promote_rounds-dependents :
    (rounds children : List Str) (sc : Scope) (b : Str)
    → dependents (promote_rounds rounds children sc) b ≡ dependents sc b
unfolding dependents promote_rounds
promote_rounds-dependents [] children sc b = refl
promote_rounds-dependents (r ∷ rounds) children sc b =
    elim (Option-cases (first_unseen (reachable sc) children)) [
      | inl e ↦ rw (promote_rounds, e) refl
      | inr (id, e) ↦
          rw (promote_rounds, e)
            (promote_rounds-dependents rounds children (record sc { tops = sc.tops ++ id ∷ [] }) b)
    ]

pub no_items : {A : Type 0} {y : A} (c : Str) → In y (items_at c []) → ⊥
unfolding items_at
no_items c i = elim i [ ]

-- In a laid out scope a child hangs under an id exactly if the id is a sibling that blocks it,
-- whether it is blocked by that one alone or by several.
pub arrange-dependents_iff :
    (blockers : Str → List Str) (children : List Str) (b x : Str)
    → In x (dependents (arrange blockers children) b)
      ↔ (In x children × In b (within blockers children x))
unfolding arrange promote_unreached
arrange-dependents_iff blockers children b x =
    rw
      (promote_rounds-dependents children children
        (place_all blockers children children empty_scope) b)
      (
        Honest-dependents (λ c y. In y children × In c (within blockers children y)) _
            (place_all-Honest _ blockers children children empty_scope (λ y c i j. (i, j))
              (record {
                alone = λ c y i. elim (no_items c i) [ ];
                together = λ c n i. elim (no_items c i) [ ];
              }))
            b x,
        λ (i, j). place_all_new blockers children children empty_scope b x i j,
      )
