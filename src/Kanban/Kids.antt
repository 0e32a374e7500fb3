-- ===== src/Kanban/Kids.antt =====
-- Who hangs under whom in the model that `build` returns (tools/kanban-tree/tree.go).
use millstrand.Base.{
  ℕ, Str, str_eq, ◌≡◌, ◌↔◌, ◌⊎◌, refl, inl, inr, false, Bool-cases, Option-cases, some, List, [],
  ◌∷◌, if◌then◌else◌, ok, err, ok-injective, In, here, there, In-cases, lookup, keys, items_at,
  arith,
}
use millstrand.Kanban.Board.{Strand, Export, Filters, Model, insert_id, sort_ids, before, node_at}
use millstrand.Kanban.Build.{
  index, parents, parent_of, nearest_kept, attach, attach_all, sort_entries, kept_nodes, assemble,
  build, missing_root,
}
use millstrand.Kanban.Placing.{In-items_at-push_keep, In-items_at-push_new}
use millstrand.Kanban.Edges.{In-of_push, no_items}
use millstrand.Kanban.Ancestors.{Nearest, nearest_kept_iff}

pub In-insert_id :
    (nodes : List (Str × Strand)) (x y : Str) (ys : List Str)
    → In x (insert_id nodes y ys) ↔ In x (y ∷ ys)
unfolding insert_id
In-insert_id nodes x y [] = (λ i. i, λ i. i)
In-insert_id nodes x y (z ∷ zs) = elim (Bool-cases (before (node_at nodes z) (node_at nodes y))) [
  | inl e ↦
      let (to, of) = In-insert_id nodes x y zs in
      rw e (
        λ i. elim (In-cases i) [
          | inl q ↦ there (here q)
          | inr j ↦ elim (In-cases (to j)) [ inl q ↦ here q | inr k ↦ there (there k) ]
        ],
        λ i. elim (In-cases i) [
          | inl q ↦ there (of (here q))
          | inr j ↦ elim (In-cases j) [ inl q ↦ here q | inr k ↦ there (of (there k)) ]
        ],
      )
  | inr e ↦ rw e (λ i. i, λ i. i)
]

pub In-sort_ids :
    (nodes : List (Str × Strand)) (x : Str) (xs : List Str) → In x (sort_ids nodes xs) ↔ In x xs
unfolding sort_ids
In-sort_ids nodes x [] = (λ i. i, λ i. i)
In-sort_ids nodes x (y ∷ ys) =
    let (to, of) = In-sort_ids nodes x ys in
    let (into, out) = In-insert_id nodes x y (sort_ids nodes ys) in
    (
      λ i. elim (In-cases (into i)) [ inl q ↦ here q | inr j ↦ there (to j) ],
      λ i. out (elim (In-cases i) [ inl q ↦ here q | inr j ↦ there (of j) ]),
    )

items_at-sort_entries :
    (nodes : List (Str × Strand)) (key : Str) (m : List (Str × List Str))
    → items_at key (sort_entries nodes m) ≡ sort_ids nodes (items_at key m)
unfolding items_at sort_ids
items_at-sort_entries nodes key [] = refl
items_at-sort_entries nodes key ((k, ids) ∷ m) = ground (arith, items_at-sort_entries nodes key m)

pub In-items_at-sort_entries :
    (nodes : List (Str × Strand)) (key x : Str) (m : List (Str × List Str))
    → In x (items_at key (sort_entries nodes m)) ↔ In x (items_at key m)
In-items_at-sort_entries nodes key x m =
    rw (items_at-sort_entries nodes key m) (In-sort_ids nodes x (items_at key m))

module _ (root : Str) (parent : List (Str × Str)) (keep : List Str) where
  -- A kept strand but the root, and its nearest kept ancestor.
  abbrev Hangs : Str → Str → List Str → Type 0
  Hangs anc x ids = In x ids × (str_eq x root ≡ false) × (nearest_kept x parent keep ≡ some anc)

  abbrev attached : Str → List (Str × List Str) → List (Str × List Str)
  attached id kids = if str_eq id root then kids else attach (nearest_kept id parent keep) id kids

  attached_keep :
      (id anc x : Str) (kids : List (Str × List Str))
      → In x (items_at anc kids)
      → In x (items_at anc (attached id kids))
  attached_keep id anc x kids i = elim (Bool-cases (str_eq id root)) [
    | inl e ↦ rw e i
    | inr e ↦ elim (Option-cases (nearest_kept id parent keep)) [
      | inl q ↦ rw (e, q) i
      | inr (a, q) ↦ rw (e, q) (In-items_at-push_keep anc a id x kids i)
    ]
  ]

  In-of_attached :
      (id anc x : Str) (kids : List (Str × List Str))
      → In x (items_at anc (attached id kids))
      → In x (items_at anc kids) ⊎ Hangs anc x (id ∷ [])
  In-of_attached id anc x kids i = elim (Bool-cases (str_eq id root)) [
    | inl e ↦ inl (rw e at i)
    | inr e ↦ elim (Option-cases (nearest_kept id parent keep)) [
      | inl q ↦ inl (rw (e, q) at i)
      | inr (a, q) ↦ elim (In-of_push anc a id x kids (rw (e, q) at i)) [
        | inl j ↦ inl j
        | inr (s, t) ↦ inr (here t, rw t e, rw (t, s) q)
      ]
    ]
  ]

  attach_all_keep :
      (ids : List Str) (anc x : Str) (kids : List (Str × List Str))
      → In x (items_at anc kids)
      → In x (items_at anc (attach_all root parent keep ids kids))
  unfolding attach_all
  attach_all_keep [] anc x kids i = i
  attach_all_keep (id ∷ ids) anc x kids i =
      attach_all_keep ids anc x (attached id kids) (attached_keep id anc x kids i)

  attach_all_sound :
      (ids : List Str) (anc x : Str) (kids : List (Str × List Str))
      → In x (items_at anc (attach_all root parent keep ids kids))
      → In x (items_at anc kids) ⊎ Hangs anc x ids
  unfolding attach_all
  attach_all_sound [] anc x kids i = inl i
  attach_all_sound (id ∷ ids) anc x kids i =
      elim (attach_all_sound ids anc x (attached id kids) i) [
        | inl j ↦ elim (In-of_attached id anc x kids j) [
          | inl k ↦ inl k
          | inr (k, e, n) ↦ elim (In-cases k) [ inl q ↦ inr (here q, e, n) | inr l ↦ elim l [ ] ]
        ]
        | inr (j, e, n) ↦ inr (there j, e, n)
      ]

  attach_all_complete :
      (ids : List Str) (anc x : Str) (kids : List (Str × List Str))
      → Hangs anc x ids
      → In x (items_at anc (attach_all root parent keep ids kids))
  unfolding attach_all
  attach_all_complete [] anc x kids (i, e, q) = elim i [ ]
  attach_all_complete (id ∷ ids) anc x kids (i, e, q) = elim (In-cases i) [
    | inl s ↦
        attach_all_keep ids anc x (attached id kids)
          (rw (← s, e, q) (In-items_at-push_new anc x kids))
    | inr j ↦ attach_all_complete ids anc x (attached id kids) (j, e, q)
  ]

assemble-kids :
    (ex : Export) (f : Filters) (root : Strand) (by : List (Str × Strand)) (anc x : Str)
    → In x (items_at anc (assemble ex f root by).kids) ↔ (
        In x (keys (assemble ex f root by).nodes)
        × (str_eq x root.id ≡ false)
        × ((h : ℕ) × Nearest
              (parents ex.parent_of [])
              (keys (assemble ex f root by).nodes)
              h
              (parent_of (parents ex.parent_of []) x)
              anc))
unfolding assemble
assemble-kids ex f root by anc x =
    let parent = parents ex.parent_of [] in
    let keep = kept_nodes root.id f parent by in
    let (near, far) = nearest_kept_iff parent (keys keep) x anc in
    let (to, of) =
      In-items_at-sort_entries keep anc x (attach_all root.id parent (keys keep) (keys keep) []) in
    (
      λ i. elim (attach_all_sound root.id parent (keys keep) (keys keep) anc x [] (to i)) [
        | inl j ↦ elim (no_items anc j) [ ]
        | inr (j, e, q) ↦ (j, e, near q)
      ],
      λ (i, e, r).
          of (attach_all_complete root.id parent (keys keep) (keys keep) anc x [] (i, e, far r)),
    )

-- In the model that `build` returns the children of a strand are exactly the kept strands, other
-- than the root, of which it is the nearest kept ancestor by the edges of the export.
pub build-kids_iff :
    (ex : Export) (f : Filters) (m : Model) (anc x : Str)
    → build ex f ≡ ok m
    → In x (items_at anc m.kids) ↔ (
        In x (keys m.nodes)
        × (str_eq x m.root_id ≡ false)
        × ((h : ℕ) × Nearest
              (parents ex.parent_of [])
              (keys m.nodes)
              h
              (parent_of (parents ex.parent_of []) x)
              anc))
unfolding assemble build
build-kids_iff ex f m anc x h = elim (Option-cases (lookup ex.root_id (index ex.strands []))) [
  | inl e ↦ elim (refused (rw (build, e) at h)) [ ]
  | inr (root, e) ↦
      let made : assemble ex f root (index ex.strands []) ≡ m = ok-injective (rw (build, e) at h) in
      rw (← made) (assemble-kids ex f root (index ex.strands []) anc x)
]
  where
    refused : err (missing_root ex.root_id) ≡ ok m → ⊥
    refused q = cc
