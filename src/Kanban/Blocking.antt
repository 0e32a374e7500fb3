-- ===== src/Kanban/Blocking.antt =====
-- Who blocks whom in the model that `build` returns (tools/kanban-tree/tree.go).
use millstrand.Base.{
  Str, str_eq, ◌≡◌, ◌↔◌, ◌⊎◌, refl, subst, inl, inr, Bool, true, false, not, ◌&&◌, Bool-cases,
  Option-cases, List, [], ◌∷◌, if◌then◌else◌, ok, err, ok-injective, In, here, there, In-cases, has,
  has_sound, has_complete, lookup, keys, items_at, push, arith,
}
use millstrand.Kanban.Board.{Strand, Edge, Export, Filters, Model}
use millstrand.Kanban.Build.{index, parents, block_all, kept_nodes, assemble, build, missing_root}
use millstrand.Kanban.Placing.{In-items_at-push_keep, In-items_at-push_new}
use millstrand.Kanban.Edges.{In-of_push, no_items}
use millstrand.Kanban.Kids.{In-items_at-sort_entries}

module _ (keep : List Str) where
  -- The guards of the loop.
  abbrev is_drawn : Edge → Bool
  is_drawn e = not (str_eq e.from e.to) && has e.from keep && has e.to keep

  abbrev blocked : Edge → List (Str × List Str) → List (Str × List Str)
  blocked e blockers = if is_drawn e then push e.from e.to blockers else blockers

  block_all_keep :
      (es : List Edge) (x b : Str) (blockers : List (Str × List Str))
      → In b (items_at x blockers)
      → In b (items_at x (block_all keep es blockers))
  unfolding block_all
  block_all_keep [] x b blockers i = i
  block_all_keep (e ∷ es) x b blockers i =
      block_all_keep es x b (blocked e blockers) (elim (Bool-cases (is_drawn e)) [
        | inl d ↦ rw d (In-items_at-push_keep x e.from e.to b blockers i)
        | inr d ↦ rw d i
      ])

  block_all_sound :
      (es : List Edge) (x b : Str) (blockers : List (Str × List Str))
      → In b (items_at x (block_all keep es blockers))
      → In b (items_at x blockers)
        ⊎ ((e : Edge) × In e es × (is_drawn e ≡ true) × (x ≡ e.from) × (b ≡ e.to))
  unfolding block_all
  block_all_sound [] x b blockers i = inl i
  block_all_sound (e ∷ es) x b blockers i = elim (block_all_sound es x b (blocked e blockers) i) [
    | inl j ↦ elim (Bool-cases (is_drawn e)) [
      | inl d ↦ elim (In-of_push x e.from e.to b blockers (rw d at j)) [
        | inl k ↦ inl k
        | inr (s, t) ↦ inr (e, here refl, d, s, t)
      ]
      | inr d ↦ inl (rw d at j)
    ]
    | inr (g, j, d, s, t) ↦ inr (g, there j, d, s, t)
  ]

  block_all_complete :
      (es : List Edge) (e : Edge) (blockers : List (Str × List Str))
      → In e es
      → is_drawn e ≡ true
      → In e.to (items_at e.from (block_all keep es blockers))
  unfolding block_all
  block_all_complete [] e blockers i d = elim i [ ]
  block_all_complete (g ∷ es) e blockers i d = elim (In-cases i) [
    | inl q ↦ block_all_keep es e.from e.to (blocked g blockers) (
        subst (λ (h : Edge). In e.to (items_at e.from (blocked h blockers))) q
          (rw d (In-items_at-push_new e.from e.to blockers)))
    | inr j ↦ block_all_complete es e (blocked g blockers) j d
  ]

  drawn_iff :
      (e : Edge)
      → (is_drawn e ≡ true) ↔ ((str_eq e.from e.to ≡ false) × In e.from keep × In e.to keep)
  drawn_iff e = (
    λ d. (ground arith, has_sound e.from keep (ground arith), has_sound e.to keep (ground arith)),
    λ (s, i, j). rw (s, has_complete e.from keep i, has_complete e.to keep j) refl,
  )

assemble-blockers :
    (ex : Export) (f : Filters) (root : Strand) (by : List (Str × Strand)) (x b : Str)
    → In b (items_at x (assemble ex f root by).blockers) ↔ (
        (e : Edge) × In e ex.depends_on
        × (x ≡ e.from)
        × (b ≡ e.to)
        × (str_eq e.from e.to ≡ false)
        × In e.from (keys (assemble ex f root by).nodes)
        × In e.to (keys (assemble ex f root by).nodes))
unfolding assemble
assemble-blockers ex f root by x b =
    let keep = kept_nodes root.id f (parents ex.parent_of []) by in
    let (to, of) = In-items_at-sort_entries keep x b (block_all (keys keep) ex.depends_on []) in
    (
      λ i. elim (block_all_sound (keys keep) ex.depends_on x b [] (to i)) [
        | inl j ↦ elim (no_items x j) [ ]
        | inr (e, j, d, s, t) ↦
            let (differ, k, l) = (drawn_iff (keys keep) e).0 d in (e, j, s, t, differ, k, l)
      ],
      λ (e, j, s, t, differ, k, l). of (
          rw (s, t)
            (block_all_complete (keys keep) ex.depends_on e [] j
              ((drawn_iff (keys keep) e).1 (differ, k, l)))),
    )

-- In the model that `build` returns a strand is blocked by exactly the targets of the depends-on
-- edges from it that join two different kept strands.
pub build-blockers_iff :
    (ex : Export) (f : Filters) (m : Model) (x b : Str)
    → build ex f ≡ ok m
    → In b (items_at x m.blockers) ↔ (
        (e : Edge) × In e ex.depends_on
        × (x ≡ e.from)
        × (b ≡ e.to)
        × (str_eq e.from e.to ≡ false)
        × In e.from (keys m.nodes)
        × In e.to (keys m.nodes))
unfolding build
build-blockers_iff ex f m x b h = elim (Option-cases (lookup ex.root_id (index ex.strands []))) [
  | inl e ↦ elim (refused (rw (build, e) at h)) [ ]
  | inr (root, e) ↦
      let made : assemble ex f root (index ex.strands []) ≡ m = ok-injective (rw (build, e) at h) in
      rw (← made) (assemble-blockers ex f root (index ex.strands []) x b)
]
  where
    refused : err (missing_root ex.root_id) ≡ ok m → ⊥
    refused q = cc
