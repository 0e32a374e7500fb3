-- ===== src/Kanban/Reach.antt =====
-- What `reachable` walks over (tools/kanban-tree/tree.go).
use millstrand.Base.{
  ℕ, zero, suc, ◌+◌, ◌≤◌, Str, str_eq_refl, ◌≡◌, refl, sym, ◌∙◌, subst, ◌⊎◌, inl, inr, false,
  Bool-cases, ◌||◌, List, [], ◌∷◌, ◌++◌, length, length-append, if◌then◌else◌, In, here, there,
  In-cases, In-append_left, In-append_right, In-of_append, has, has-append, has_sound, keys,
  items_at-keys, ◌↔◌, arith,
}
use millstrand.Kanban.Scope.{
  Scope, dependents, shared_ids, visit, walk, weight, blocking, walk_fuel, reachable,
}

-- A child that a branch of the tree draws: at the top, or under a sibling that blocks it.
pub data Reaches (sc : Scope) : Str → Type 0 where
  top : {id : Str} → In id sc.tops → Reaches sc id
  under : {by id : Str} → Reaches sc by → In id (dependents sc by) → Reaches sc id

module _ (sc : Scope) where
  abbrev Sound : List Str → Type 0
  Sound ids = (id : Str) → In id ids → Reaches sc id

  visit-Sound :
      (id : Str) (seen queue : List Str)
      → Sound seen
      → Sound (id ∷ queue)
      → Sound (visit sc id seen queue).0 × Sound (visit sc id seen queue).1
  visit-Sound id seen queue s q = elim (Bool-cases (has id seen)) [
    | inl e ↦ rw e (s, λ x i. q x (there i))
    | inr e ↦ rw e (
      (λ x i. elim (In-cases i) [ inl eq ↦ q x (here eq) | inr j ↦ s x j ]),
      (λ x i. elim (In-of_append queue (dependents sc id) i) [
        | inl j ↦ q x (there j)
        | inr j ↦ under (q id (here refl)) j
      ]),
    )
  ]

  walk-Sound :
      (n : ℕ) (seen queue : List Str) → Sound seen → Sound queue → Sound (walk n sc (seen, queue))
  unfolding walk
  walk-Sound zero seen queue s q = s
  walk-Sound (suc n) seen [] s q = s
  walk-Sound (suc n) seen (id ∷ queue) s q =
      let (s', q') = visit-Sound id seen queue s q in walk-Sound n _ _ s' q'

  -- What an id that is not seen may still queue.
  abbrev pending : List Str → Str → ℕ
  pending seen b = if has b seen then 0 else length (dependents sc b)

  weight_le :
      (id : Str) (seen ids : List Str)
      → weight (pending (id ∷ seen)) ids ≤ weight (pending seen) ids
  unfolding weight has
  weight_le id seen [] = omega arith
  weight_le id seen (b ∷ ids) = ground (arith, weight_le id seen ids)

  weight_In :
      (id : Str) (seen ids : List Str)
      → has id seen ≡ false
      → In id ids
      → weight (pending (id ∷ seen)) ids + length (dependents sc id) ≤ weight (pending seen) ids
  unfolding weight has
  weight_In id seen [] h i = elim i [ ]
  weight_In id seen (b ∷ ids) h i = elim (In-cases i) [
    | inl e ↦ rw (← e, str_eq_refl id, h) (omega (arith, weight_le id seen ids))
    | inr j ↦ ground (arith, weight_In id seen ids h j)
  ]

  dependents_none : (id : Str) → has id (blocking sc) ≡ false → dependents sc id ≡ []
  unfolding dependents shared_ids
  dependents_none id h =
      let split : (has id (keys sc.deps) || has id (keys sc.shared_by)) ≡ false =
        sym (has-append id (keys sc.deps) (keys sc.shared_by)) ∙ h in
      let none_alone : has id (keys sc.deps) ≡ false = ground arith in
      let none_shared : has id (keys sc.shared_by) ≡ false = ground arith in
      rw (items_at-keys id sc.deps none_alone, items_at-keys id sc.shared_by none_shared) refl

  weight-visit :
      (id : Str) (seen : List Str)
      → has id seen ≡ false
      → weight (pending (id ∷ seen)) (blocking sc) + length (dependents sc id)
        ≤ weight (pending seen) (blocking sc)
  weight-visit id seen h = elim (Bool-cases (has id (blocking sc))) [
    | inl e ↦ weight_In id seen (blocking sc) h (has_sound id (blocking sc) e)
    | inr e ↦ rw (dependents_none id e) (omega (arith, weight_le id seen (blocking sc)))
  ]

  -- Every id that must be seen is seen or queued.
  record Covered (seen queue : List Str) : Type 0 where
    starts : (id : Str) → In id sc.tops → In id seen ⊎ In id queue
    follows :
        (by : Str) → In by seen → (id : Str) → In id (dependents sc by) → In id seen ⊎ In id queue

  Covered-Reaches : (seen : List Str) → Covered seen [] → (id : Str) → Reaches sc id → In id seen
  Covered-Reaches seen c id (top i) = elim (c.starts id i) [ inl j ↦ j | inr j ↦ elim j [ ] ]
  Covered-Reaches seen c id (under {by = by} r i) =
      elim (c.follows by (Covered-Reaches seen c by r) id i) [ inl j ↦ j | inr j ↦ elim j [ ] ]

  visit-Covered :
      (id : Str) (seen queue : List Str)
      → Covered seen (id ∷ queue)
      → Covered (visit sc id seen queue).0 (visit sc id seen queue).1
  visit-Covered id seen queue c = elim (Bool-cases (has id seen)) [
    | inl e ↦
        let drop : (x : Str) → In x seen ⊎ In x (id ∷ queue) → In x seen ⊎ In x queue = λ x o.
          elim o [
            | inl i ↦ inl i
            | inr i ↦ elim (In-cases i) [
              | inl eq ↦ inl (subst (λ y. In y seen) (sym eq) (has_sound id seen e))
              | inr j ↦ inr j
            ]
          ] in
        rw e (record {
          starts = λ x i. drop x (c.starts x i);
          follows = λ by i x j. drop x (c.follows by i x j);
        })
    | inr e ↦
        let move : (x : Str)
            → In x seen ⊎ In x (id ∷ queue)
            → In x (id ∷ seen) ⊎ In x (queue ++ dependents sc id) =
          λ x o. elim o [
            | inl i ↦ inl (there i)
            | inr i ↦ elim (In-cases i) [
              | inl eq ↦ inl (here eq)
              | inr j ↦ inr (In-append_left queue (dependents sc id) j)
            ]
          ] in
        rw e (record {
          starts = λ x i. move x (c.starts x i);
          follows = λ by i x j. elim (In-cases i) [
            | inl eq ↦ inr (
                In-append_right queue (dependents sc id) (subst (λ y. In x (dependents sc y)) eq j))
            | inr k ↦ move x (c.follows by k x j)
          ];
        })
  ]

  visit_le :
      (n : ℕ) (id : Str) (seen queue : List Str)
      → length (id ∷ queue) + weight (pending seen) (blocking sc) ≤ suc n
      → length (visit sc id seen queue).1
          + weight (pending (visit sc id seen queue).0) (blocking sc)
        ≤ n
  visit_le n id seen queue h = elim (Bool-cases (has id seen)) [
    | inl e ↦ rw e (omega (arith, h))
    | inr e ↦
        rw (e, length-append queue (dependents sc id)) (omega (arith, h, weight-visit id seen e))
  ]

  walk_complete :
      (n : ℕ) (seen queue : List Str)
      → length queue + weight (pending seen) (blocking sc) ≤ n
      → Covered seen queue
      → (id : Str) → Reaches sc id
      → In id (walk n sc (seen, queue))
  unfolding walk
  walk_complete zero seen [] h c id r = Covered-Reaches seen c id r
  walk_complete zero seen (x ∷ queue) h c id r =
      elim (no_room (weight (pending seen) (blocking sc)) h) [ ]
    where
      no_room : (w : ℕ) → length (x ∷ queue) + w ≤ 0 → ⊥
      no_room w q = omega (arith, q)
  walk_complete (suc n) seen [] h c id r = Covered-Reaches seen c id r
  walk_complete (suc n) seen (x ∷ queue) h c id r =
      walk_complete n _ _ (visit_le n x seen queue h) (visit-Covered x seen queue c) id r

-- `reachable` returns exactly the ids that the top children lead to, on the fuel it is given.
pub reachable_iff : (sc : Scope) (id : Str) → (In id (reachable sc) ↔ Reaches sc id)
unfolding reachable walk_fuel has
reachable_iff sc id = (
  walk-Sound sc (walk_fuel sc) [] sc.tops (λ x i. elim i [ ]) (λ x i. top i) id,
  walk_complete sc (walk_fuel sc) [] sc.tops (omega arith)
      (record { starts = λ x i. inr i; follows = λ by i. elim i [ ] }) id,
)
