-- ===== src/Kanban/Layout.antt =====
-- `layout` and its cache (tools/kanban-tree/tree.go).
use mathlib.Core.List.{append_assoc, append-nil}
use millstrand.Base.{
  put, lookup-put, ℕ, zero, suc, ◌<◌, Str, str_eq, str_eq→eq, ◌≡◌, refl, sym, ap, ◌∙◌, ◌⊎◌, inl,
  inr, Bool, true, false, Bool-cases, Option-cases, none, some, some_cancel, List, [], ◌∷◌, ◌++◌,
  keep_if, if◌then◌else◌, In, here, there, In-cases, has, has_sound, lookup, items_at, arith,
}
use millstrand.Kanban.Scope.{Scope, empty_scope, place, within, place_all, arrange}
use millstrand.Kanban.Reach.{Reaches, top, under}
use millstrand.Kanban.Promote.{promote_unreached-Reaches, promote_unreached-settled}
use millstrand.Kanban.Edges.{place_all_new}
use millstrand.Kanban.Board.{Model}

abbrev pub blockers_of : Model → Str → List Str
blockers_of m id = items_at id m.blockers

abbrev pub kids_of : Model → Str → List Str
kids_of m id = items_at id m.kids

abbrev pub arranged : Model → Str → Scope
arranged m container = arrange (blockers_of m) (kids_of m container)

unfoldable pub layout : Model → Str → Model × Scope
layout m container = elim (lookup container m.scopes) [
  | some cached ↦ (m, cached)
  | none ↦ let sc = arranged m container in (record m { scopes = put container sc m.scopes }, sc)
]

-- Every scope in the cache is the one of its container.
unfoldable pub IsCached : Model → Type 0
IsCached m =
    (container : Str) (sc : Scope) → lookup container m.scopes ≡ some sc → sc ≡ arranged m container

-- Where every cached scope is its container's arrangement, `layout` returns the container's
-- arrangement, cached or not, keeps the cache so, and changes neither the children nor the blockers.
pub layout-IsCached :
    (m : Model) (container : Str)
    → IsCached m
    → ((layout m container).1 ≡ arranged m container)
      × IsCached (layout m container).0
      × ((layout m container).0.kids ≡ m.kids)
      × ((layout m container).0.blockers ≡ m.blockers)
unfolding layout IsCached
layout-IsCached m container c = elim (Option-cases (lookup container m.scopes)) [
  | inl e ↦ rw (layout, e) (refl, (λ x sc h. kept x sc h), refl, refl)
  | inr (sc, e) ↦ rw (layout, e) (c container sc e, c, refl, refl)
]
  where
    kept :
        (x : Str) (sc : Scope)
        → lookup x (put container (arranged m container) m.scopes) ≡ some sc
        → sc ≡ arranged m x
    kept x sc h = elim (Bool-cases (str_eq x container)) [
      | inl e ↦
          rw (str_eq→eq x container e) (
            sym (some_cancel (rw (lookup-put container x (arranged m container) m.scopes, e) at h)))
      | inr e ↦ c x sc (rw (lookup-put container x (arranged m container) m.scopes, e) at h)
    ]

-- Where every cached scope is its container's arrangement, the top children of a container and
-- the branches under them lead to each of its children, also where their dependencies form a cycle.
pub layout-Reaches :
    (m : Model) (container id : Str)
    → IsCached m
    → In id (kids_of m container)
    → Reaches (layout m container).1 id
unfolding arrange
layout-Reaches m container id c i =
    rw (layout-IsCached m container c).0 (promote_unreached-Reaches (kids_of m container) _ id i)

abbrev is_empty : List Str → Bool
is_empty [] = true
is_empty (x ∷ xs) = false

-- A child that no sibling blocks.
abbrev pub is_free : (Str → List Str) → List Str → Str → Bool
is_free blockers siblings id = is_empty (within blockers siblings id)

place-tops_lem :
    (id : Str) (ws : List Str) (sc : Scope)
    → (place id ws sc).tops ≡ sc.tops ++ (if is_empty ws then id ∷ [] else [])
place-tops_lem id [] sc = refl
place-tops_lem id (w ∷ []) sc = sym (append-nil sc.tops)
place-tops_lem id (w ∷ v ∷ ws) sc = sym (append-nil sc.tops)

module _ (blockers : Str → List Str) (siblings : List Str) where
  place_all-tops :
      (children : List Str) (sc : Scope)
      → (place_all blockers siblings children sc).tops
        ≡ sc.tops ++ keep_if (is_free blockers siblings) children
  unfolding place_all keep_if
  place_all-tops [] sc = sym (append-nil sc.tops)
  place_all-tops (x ∷ xs) sc =
      place_all-tops xs (place x (within blockers siblings x) sc)
      ∙ elim (Bool-cases (is_free blockers siblings x)) [
        | inl e ↦
            rw (place-tops_lem x (within blockers siblings x) sc, e)
              (append_assoc sc.tops (x ∷ []) (keep_if (is_free blockers siblings) xs))
        | inr e ↦ rw (place-tops_lem x (within blockers siblings x) sc, e, append-nil sc.tops) refl
      ]

  In-keep_if :
      (p : Str → Bool) (x : Str) (xs : List Str) → p x ≡ true → In x xs → In x (keep_if p xs)
  unfolding keep_if
  In-keep_if p x [] h i = elim i [ ]
  In-keep_if p x (y ∷ ys) h i = elim (In-cases i) [
    | inl e ↦ rw (← e, h) (here refl)
    | inr j ↦ elim (Bool-cases (p y)) [
      | inl e ↦ rw e (there (In-keep_if p x ys h j))
      | inr e ↦ rw e (In-keep_if p x ys h j)
    ]
  ]

  some_blocker : (ws : List Str) → (is_empty ws ≡ true) ⊎ ((b : Str) × In b ws)
  some_blocker [] = inl refl
  some_blocker (w ∷ ws) = inr (w, here refl)

  In-of_keep_if : (p : Str → Bool) (x : Str) (xs : List Str) → In x (keep_if p xs) → p x ≡ true
  unfolding keep_if
  In-of_keep_if p x [] i = elim i [ ]
  In-of_keep_if p x (y ∷ ys) i = elim (Bool-cases (p y)) [
    | inl e ↦ elim (In-cases (rw e at i)) [ inl q ↦ rw q e | inr j ↦ In-of_keep_if p x ys j ]
    | inr e ↦ In-of_keep_if p x ys (rw e at i)
  ]

module _ (blockers : Str → List Str) (children : List Str) (rank : Str → ℕ)
    (falls : (id b : Str)
      → In id children
      → In b (within blockers children id)
      → rank b < rank id) where
  abbrev placed : Scope
  placed = place_all blockers children children empty_scope

  ranked-Reaches : (n : ℕ) (id : Str) → rank id < n → In id children → Reaches placed id
  unfolding within
  ranked-Reaches zero id h i = elim (no_rank h) [ ]
    where
      no_rank : {n : ℕ} → n < 0 → ⊥
      no_rank q = omega arith
  ranked-Reaches (suc n) id h i =
      elim (some_blocker blockers children (within blockers children id)) [
        | inl free ↦ top (
            rw (place_all-tops blockers children children empty_scope)
              (In-keep_if blockers children (is_free blockers children) id children free i))
        | inr (b, j) ↦
            under
              (ranked-Reaches n b (omega (arith, h, falls id b i j)) (
                has_sound b children
                  (In-of_keep_if blockers children (λ c. has c children) b (blockers id) j)))
              (place_all_new blockers children children empty_scope b id i j)
      ]

  -- Where the children's dependencies form no cycle, so that every child can be ranked above the
  -- siblings that block it, no child is promoted: the top of the scope holds the children that no
  -- sibling blocks, in their order.
  arrange-tops : (arrange blockers children).tops ≡ keep_if (is_free blockers children) children
  unfolding arrange
  arrange-tops =
      ap (λ (sc : Scope). sc.tops)
        (promote_unreached-settled children placed
          (λ id i. ranked-Reaches (suc (rank id)) id (omega arith) i))
      ∙ place_all-tops blockers children children empty_scope
