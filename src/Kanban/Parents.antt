-- ===== src/Kanban/Parents.antt =====
-- `validateParents`, where an export enters (tools/kanban-tree/export.go).
use millstrand.Base.{
  put, ℕ, zero, suc, ◌≤◌, ◌<◌, Str, str_eq, ◌≡◌, ◌↔◌, refl, ap, subst, inl, inr, Bool, true, false,
  not, Bool-cases, Option, none, some, List, [], ◌∷◌, length, if◌then◌else◌, Result, ok, err, ◌>>=◌,
  In, here, there, In-cases, has, has_sound, has_complete, lookup, keys, arith,
}
use millstrand.Kanban.Board.{Edge}
use millstrand.Kanban.Build.{parent_of}
use millstrand.Kanban.Promote.{count_unseen, count_unseen_le, count_unseen_lt}
use millstrand.Kanban.Ancestors.{parent-keys, length-keys}

-- Go's text names a strand on the cycle, which one depends on the order of its map.
pub data ParentError : Type 0 where
  multiple_parents : Str → ParentError
  parent_cycle : ParentError

-- `exists && parent != edge.From`
abbrev pub conflicts : Option Str → Str → Bool
conflicts none from_id = false
conflicts (some parent) from_id = not (str_eq parent from_id)

-- The first loop.
unfoldable pub single_parents : List Edge → List (Str × Str) → Result ParentError (List (Str × Str))
single_parents [] parents = ok parents
single_parents (e ∷ es) parents =
    let rest = single_parents es (put e.to e.from parents) in
    if conflicts (lookup e.to parents) e.from then err (multiple_parents e.to) else rest

-- The walk up from a child, on fuel: whether it comes to a blank id before it repeats one.
unfoldable pub ascend : ℕ → List (Str × Str) → List Str → Str → Bool
ascend zero parents seen current = false
ascend (suc n) parents seen current =
    let rest = ascend n parents (current ∷ seen) (parent_of parents current) in
    if str_eq current [] then true else if has current seen then false else rest

-- At most every parent is passed, then the root and the blank id.
abbrev pub ascends : List (Str × Str) → Str → Bool
ascends parents child = ascend (suc (suc (length parents))) parents [] child

-- The second loop.
unfoldable pub check_cycles : List (Str × Str) → List Str → Result ParentError (Unit {0})
check_cycles parents [] = ok tt
check_cycles parents (child ∷ children) =
    let rest = check_cycles parents children in
    if ascends parents child then rest else err parent_cycle

unfoldable pub validate_parents : List Edge → Result ParentError (Unit {0})
validate_parents es = single_parents es [] >>= λ parents. check_cycles parents (keys parents)

module _ (parents : List (Str × Str)) where
  -- A chain of parents that ends.
  pub data Roots : ℕ → Str → Type 0 where
    ends : {cur : Str} → str_eq cur [] ≡ true → Roots 0 cur
    climbs :
        {n : ℕ} {cur : Str}
        → str_eq cur [] ≡ false
        → Roots n (parent_of parents cur)
        → Roots (suc n) cur

  ascend_sound :
      (n : ℕ) (seen : List Str) (cur : Str)
      → ascend n parents seen cur ≡ true
      → (h : ℕ) × Roots h cur
  unfolding ascend
  ascend_sound zero seen cur h = cc
  ascend_sound (suc n) seen cur h = elim (Bool-cases (str_eq cur [])) [
    | inl e ↦ (0, ends e)
    | inr e ↦ elim (Bool-cases (has cur seen)) [
      | inl k ↦ elim (never (rw (e, k) at h)) [ ]
      | inr k ↦
          let (g, r) = ascend_sound n (cur ∷ seen) (parent_of parents cur) (rw (e, k) at h) in
          (suc g, climbs e r)
    ]
  ]
    where
      never : false ≡ true → ⊥
      never q = cc

  Roots-unique : (h g : ℕ) (cur : Str) → Roots h cur → Roots g cur → h ≡ g
  Roots-unique _ _ cur (ends e) (ends e') = refl
  Roots-unique _ _ cur (ends e) (climbs e' r) = cc
  Roots-unique _ _ cur (climbs e r) (ends e') = cc
  Roots-unique _ _ cur (climbs {n = h} e r) (climbs {n = g} e' r') =
      ap suc (Roots-unique h g (parent_of parents cur) r r')

  abbrev Higher : ℕ → List Str → Type 0
  Higher h seen = (g : ℕ) (x : Str) → In x seen → Roots g x → h < g

  Higher-fresh :
      (h : ℕ) (cur : Str) (seen : List Str) → Roots h cur → Higher h seen → has cur seen ≡ false
  Higher-fresh h cur seen r higher = elim (Bool-cases (has cur seen)) [
    | inl p ↦ elim (itself (higher h cur (has_sound cur seen p) r)) [ ]
    | inr p ↦ p
  ]
    where
      itself : h < h → ⊥
      itself q = omega arith

  Higher-next :
      (h : ℕ) (cur : Str) (seen : List Str)
      → Roots (suc h) cur
      → Higher (suc h) seen
      → Higher h (cur ∷ seen)
  Higher-next h cur seen r higher g x i s = elim (In-cases i) [
    | inl q ↦
        let same : suc h ≡ g = Roots-unique (suc h) g cur r (subst (λ y. Roots g y) q s) in
        omega (arith, same)
    | inr j ↦ omega (arith, higher g x j s)
  ]

  ascend_complete :
      (n h : ℕ) (seen : List Str) (cur : Str)
      → Roots h cur
      → h < n
      → Higher h seen
      → ascend n parents seen cur ≡ true
  unfolding ascend
  ascend_complete zero h seen cur r l higher = elim (none_below l) [ ]
    where
      none_below : h < 0 → ⊥
      none_below q = omega arith
  ascend_complete (suc n) _ seen cur (ends e) l higher = rw e refl
  ascend_complete (suc n) _ seen cur (climbs {n = h} e r) l higher =
      rw (e, Higher-fresh (suc h) cur seen (climbs e r) higher)
        (ascend_complete n h (cur ∷ seen) (parent_of parents cur) r (omega (arith, l))
          (Higher-next h cur seen (climbs e r) higher))

  Roots-le :
      (h : ℕ) (cur : Str) (seen : List Str)
      → Roots h cur
      → Higher h seen
      → h ≤ suc (count_unseen seen (keys parents))
  Roots-le _ cur seen (ends e) higher = omega arith
  Roots-le _ cur seen (climbs e (ends e')) higher = omega arith
  Roots-le _ cur seen (climbs {n = suc h} e (climbs e' r)) higher =
      let whole : Roots (suc (suc h)) cur = climbs e (climbs e' r) in
      let fewer =
        count_unseen_lt seen (cur ∷ seen) (keys parents) cur (λ x i. there i)
          (parent-keys parents [] parents cur e') (Higher-fresh (suc (suc h)) cur seen whole higher)
          (has_complete cur (cur ∷ seen) (here refl)) in
      let rest =
        Roots-le (suc h) (parent_of parents cur) (cur ∷ seen) (climbs e' r)
          (Higher-next (suc h) cur seen whole higher) in
      omega (arith, fewer, rest)

  pub ascends_iff : (child : Str) → (ascends parents child ≡ true) ↔ ((h : ℕ) × Roots h child)
  ascends_iff child = (
    ascend_sound (suc (suc (length parents))) [] child,
    λ (h, r).
        let none : Higher h [] = λ g x i. elim i [ ] in
        let bound = Roots-le h child [] r none in
        ascend_complete (suc (suc (length parents))) h [] child r
          (omega (arith, bound, count_unseen_le [] (keys parents), length-keys parents [] parents))
          none,
  )
