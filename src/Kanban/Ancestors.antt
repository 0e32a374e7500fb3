-- ===== src/Kanban/Ancestors.antt =====
-- `nearestKept` (tools/kanban-tree/tree.go).
use millstrand.Base.{
  ℕ, zero, suc, ◌≤◌, ◌<◌, Str, str_eq, str_eq→eq, ◌≡◌, ◌↔◌, refl, ap, subst, inl, inr, true, false,
  Bool-cases, none, some, some_cancel, List, [], ◌∷◌, length, In, here, there, In-cases, has,
  has_sound, has_complete, lookup, keys, arith,
}
use millstrand.Kanban.Promote.{count_unseen, count_unseen_le, count_unseen_lt}
use millstrand.Kanban.Build.{parent_of, climb, nearest_kept}

module _ (parent : List (Str × Str)) (keep : List Str) where
  -- The first kept strand from a strand up, some number of parents above it.
  pub data Nearest : ℕ → Str → Str → Type 0 where
    found : {cur : Str} → str_eq cur [] ≡ false → has cur keep ≡ true → Nearest 0 cur cur
    above :
        {n : ℕ} {cur anc : Str}
        → str_eq cur [] ≡ false
        → has cur keep ≡ false
        → Nearest n (parent_of parent cur) anc
        → Nearest (suc n) cur anc

  climb_sound :
      (n : ℕ) (cur anc : Str) → climb n parent keep cur ≡ some anc → (h : ℕ) × Nearest h cur anc
  unfolding climb
  climb_sound zero cur anc h = cc
  climb_sound (suc n) cur anc h = elim (Bool-cases (str_eq cur [])) [
    | inl e ↦ elim (empty_stops (rw e at h)) [ ]
    | inr e ↦ elim (Bool-cases (has cur keep)) [
      | inl k ↦
          let same : cur ≡ anc = some_cancel (rw (e, k) at h) in
          (0, subst (λ a. Nearest 0 cur a) same (found e k))
      | inr k ↦
          let (g, r) = climb_sound n (parent_of parent cur) anc (rw (e, k) at h) in
          (suc g, above e k r)
    ]
  ]
    where
      empty_stops : none ≡ some anc → ⊥
      empty_stops q = cc

  climb_complete :
      (n h : ℕ) (cur anc : Str) → Nearest h cur anc → h < n → climb n parent keep cur ≡ some anc
  unfolding climb
  climb_complete zero h cur anc r l = elim (none_below l) [ ]
    where
      none_below : h < 0 → ⊥
      none_below q = omega arith
  climb_complete (suc n) _ cur _ (found e k) l = rw (e, k) refl
  climb_complete (suc n) _ cur anc (above {n = m} e k r) l =
      rw (e, k) (climb_complete n m (parent_of parent cur) anc r (omega (arith, l)))

  Nearest-unique : (h g : ℕ) (cur a b : Str) → Nearest h cur a → Nearest g cur b → h ≡ g
  Nearest-unique _ _ cur _ _ (found e k) (found e' k') = refl
  Nearest-unique _ _ cur _ _ (found e k) (above e' k' r) = cc
  Nearest-unique _ _ cur _ _ (above e k r) (found e' k') = cc
  Nearest-unique _ _ cur a b (above {n = h} e k r) (above {n = g} e' k' r') =
      ap suc (Nearest-unique h g (parent_of parent cur) a b r r')

  pub parent-keys :
      (entries : List (Str × Str)) (cur : Str)
      → str_eq (parent_of entries cur) [] ≡ false
      → In cur (keys entries)
  unfolding parent_of lookup keys str_eq
  parent-keys [] cur h = cc
  parent-keys ((k, p) ∷ entries) cur h = elim (Bool-cases (str_eq cur k)) [
    | inl e ↦ here (str_eq→eq cur k e)
    | inr e ↦ there (parent-keys entries cur (rw (parent_of, e) at h))
  ]

  nonempty : (h : ℕ) (cur anc : Str) → Nearest h cur anc → str_eq cur [] ≡ false
  nonempty _ cur _ (found e k) = e
  nonempty _ cur _ (above e k r) = e

  -- The strands passed on the way are all different, since each stands at its own height.
  height_le :
      (h : ℕ) (cur anc : Str) (passed : List Str)
      → Nearest h cur anc
      → ((g : ℕ) (x b : Str) → In x passed → Nearest g x b → h < g)
      → h ≤ count_unseen passed (keys parent)
  height_le _ cur _ passed (found e k) higher = omega arith
  height_le _ cur anc passed (above {n = h} e k r) higher =
      let fresh : has cur passed ≡ false = elim (Bool-cases (has cur passed)) [
        | inl p ↦ elim (itself (higher (suc h) cur anc (has_sound cur passed p) (above e k r))) [ ]
        | inr p ↦ p
      ] in
      let fewer =
        count_unseen_lt passed (cur ∷ passed) (keys parent) cur (λ x i. there i)
          (parent-keys parent cur (nonempty h (parent_of parent cur) anc r)) fresh
          (has_complete cur (cur ∷ passed) (here refl)) in
      let rest = height_le h (parent_of parent cur) anc (cur ∷ passed) r (λ g x b i s.
        elim (In-cases i) [
          | inl q ↦
              let same : suc h ≡ g =
                Nearest-unique (suc h) g cur anc b (above e k r) (subst (λ y. Nearest g y b) q s) in
              omega (arith, same)
          | inr j ↦ omega (arith, higher g x b j s)
        ]) in
      omega (arith, fewer, rest)
    where
      itself : suc h < suc h → ⊥
      itself q = omega arith

  pub length-keys : {A : Type 0} (entries : List (Str × A)) → length (keys entries) ≡ length entries
  unfolding keys
  length-keys [] = refl
  length-keys ((k, a) ∷ entries) = ap suc (length-keys entries)

  -- `nearestKept` returns a strand exactly if it is the first kept one above, and finds one
  -- wherever there is one: as many hops as the map has parents are enough, with cycles as well.
  pub nearest_kept_iff :
      (id anc : Str)
      → (nearest_kept id parent keep ≡ some anc) ↔ ((h : ℕ) × Nearest h (parent_of parent id) anc)
  unfolding nearest_kept
  nearest_kept_iff id anc = (
    climb_sound (suc (length parent)) (parent_of parent id) anc,
    λ (h, r).
        let bound = height_le h (parent_of parent id) anc [] r (λ g x b i s. elim i [ ]) in
        climb_complete (suc (length parent)) h (parent_of parent id) anc r
          (omega (arith, bound, count_unseen_le [] (keys parent), length-keys parent)),
  )
