-- ===== src/Kanban/Prune.antt =====
-- `pruneClosed` (tools/kanban-tree/tree.go).
use millstrand.Base.{
  ℕ, zero, suc, ◌≤◌, ◌<◌, Str, str_eq, ◌≡◌, ◌↔◌, ◌⊎◌, refl, sym, subst, inl, inr, Bool, true, false,
  Bool-cases, List, [], ◌∷◌, length, keep_if, if◌then◌else◌, In, here, there, In-cases,
  In-append_left, In-append_right, In-of_append, has, has_sound, has_complete, arith,
}
use millstrand.Kanban.Board.{Strand, Filters, is_active}
use millstrand.Kanban.Build.{parent_of, is_kept, chain, live_ids, prune_closed, kept_nodes}

-- The strand some number of parents above another, with no blank id on the way.
pub data Above (parent : List (Str × Str)) : ℕ → Str → Str → Type 0 where
  self : {cur : Str} → str_eq cur [] ≡ false → Above parent 0 cur cur
  up :
      {n : ℕ} {cur anc : Str}
      → str_eq cur [] ≡ false
      → Above parent n (parent_of parent cur) anc
      → Above parent (suc n) cur anc

module _ (parent : List (Str × Str)) where
  chain_sound :
      (n : ℕ) (cur anc : Str)
      → In anc (chain n parent cur)
      → (k : ℕ) × (k < n) × Above parent k cur anc
  unfolding chain
  chain_sound zero cur anc i = elim i [ ]
  chain_sound (suc n) cur anc i = elim (Bool-cases (str_eq cur [])) [
    | inl e ↦ elim (rw e at i) [ ]
    | inr e ↦ elim (In-cases (rw e at i)) [
      | inl q ↦ (0, omega arith, subst (λ a. Above parent 0 cur a) (sym q) (self e))
      | inr j ↦
          let (k, l, r) = chain_sound n (parent_of parent cur) anc j in
          (suc k, omega (arith, l), up e r)
    ]
  ]

  chain_complete :
      (n k : ℕ) (cur anc : Str) → Above parent k cur anc → k < n → In anc (chain n parent cur)
  unfolding chain
  chain_complete zero k cur anc r l = elim (none_below l) [ ]
    where
      none_below : k < 0 → ⊥
      none_below q = omega arith
  chain_complete (suc n) _ cur _ (self e) l = rw e (here refl)
  chain_complete (suc n) _ cur anc (up {n = k} e r) l =
      rw e (there (chain_complete n k (parent_of parent cur) anc r (omega (arith, l))))

  -- An active strand of the list, and how far the id is above it.
  abbrev pub IsLive : ℕ → List (Str × Strand) → Str → Type 0
  IsLive n keep id =
      (y : Str) × (t : Strand) × (k : ℕ) × In (y, t) keep
      × (is_active t ≡ true)
      × (k < n)
      × Above parent k y id

  live_ids_sound :
      (n : ℕ) (keep : List (Str × Strand)) (id : Str)
      → In id (live_ids n parent keep)
      → IsLive n keep id
  unfolding live_ids
  live_ids_sound n [] id i = elim i [ ]
  live_ids_sound n ((y, t) ∷ keep) id i =
      elim (In-of_append (if is_active t then chain n parent y else []) (live_ids n parent keep)
        i) [
          | inl j ↦ elim (Bool-cases (is_active t)) [
            | inl e ↦
                let (k, l, r) = chain_sound n y id (rw e at j) in (y, t, k, here refl, e, l, r)
            | inr e ↦ elim (rw e at j) [ ]
          ]
          | inr j ↦
              let (z, u, k, m, a, l, r) = live_ids_sound n keep id j in (z, u, k, there m, a, l, r)
        ]

  live_ids_complete :
      (n : ℕ) (keep : List (Str × Strand)) (id y : Str) (t : Strand) (k : ℕ)
      → In (y, t) keep
      → is_active t ≡ true
      → k < n
      → Above parent k y id
      → In id (live_ids n parent keep)
  unfolding live_ids
  live_ids_complete n [] id y t k i a l r = elim i [ ]
  live_ids_complete n ((z, u) ∷ keep) id y t k i a l r = elim (In-cases i) [
    | inl e ↦
        let active : is_active u ≡ true = subst (λ (w : Str × Strand). is_active w.1 ≡ true) e a in
        let chained : In id (chain n parent z) =
          subst (λ (w : Str × Strand). In id (chain n parent w.0)) e
            (chain_complete n k y id r l) in
        In-append_left _ (live_ids n parent keep) (rw active chained)
    | inr j ↦
        In-append_right (if is_active u then chain n parent z else []) _
          (live_ids_complete n keep id y t k j a l r)
  ]

pub In-keep_if_iff :
    {A : Type 0} (p : A → Bool) (a : A) (xs : List A)
    → In a (keep_if p xs) ↔ (In a xs × (p a ≡ true))
unfolding keep_if
In-keep_if_iff p a [] = (λ i. elim i [ ], λ (i, e). elim i [ ])
In-keep_if_iff p a (x ∷ xs) =
    let (to, of) = In-keep_if_iff p a xs in
    elim (Bool-cases (p x)) [
      | inl e ↦ rw e (
        λ i. elim (In-cases i) [
          | inl q ↦ (here q, rw q e)
          | inr j ↦ let (k, h) = to j in (there k, h)
        ],
        λ (i, h). elim (In-cases i) [ inl q ↦ here q | inr j ↦ there (of (j, h)) ],
      )
      | inr e ↦ rw e (
        λ i. let (k, h) = to i in (there k, h),
        λ (i, h). elim (In-cases i) [
          | inl q ↦ elim (differ (rw (q, e) at h)) [ ]
          | inr j ↦ of (j, h)
        ],
      )
    ]
  where
    differ : false ≡ true → ⊥
    differ q = cc

-- Pruning keeps of the kept strands exactly the root and those that an active kept strand reaches
-- in at most as many parents as there are kept strands.
prune_closed_iff :
    (keep : List (Str × Strand)) (parent : List (Str × Str)) (root id : Str) (s : Strand)
    → In (id, s) (prune_closed keep parent root) ↔ (
        In (id, s) keep
        × ((id ≡ root)
            ⊎ ((y : Str) × (t : Strand) × (k : ℕ) × In (y, t) keep
                × (is_active t ≡ true)
                × (k ≤ length keep)
                × Above parent k y id)))
unfolding prune_closed
prune_closed_iff keep parent root id s =
    let live : List Str = root ∷ live_ids (suc (length keep)) parent keep in
    let (to, of) = In-keep_if_iff (λ (e : Str × Strand). has e.0 live) (id, s) keep in
    (
      λ i.
          let (j, h) = to i in
          (
            j,
            elim (In-cases (has_sound id live h)) [
              | inl e ↦ inl e
              | inr l ↦
                  let (y, t, k, m, a, b, r) = live_ids_sound parent (suc (length keep)) keep id l in
                  inr (y, t, k, m, a, omega (arith, b), r)
            ],
          ),
      λ (j, why). of (
        j,
        has_complete id live (elim why [
          | inl e ↦ here e
          | inr (y, t, k, m, a, b, r) ↦
              there (
                live_ids_complete parent (suc (length keep)) keep id y t k m a (omega (arith, b)) r)
        ]),
      ),
    )

-- With `--open`, the strands of the view are exactly those that pass its filters and are the root,
-- or are met on the way up from an active strand that passes the filters as well, in at most as
-- many parents as strands pass them. An active strand that the filters drop, such as a task where
-- tasks are not shown, keeps no strand above it.
pub kept_nodes_iff :
    (f : Filters) (by : List (Str × Strand)) (parent : List (Str × Str)) (root id : Str)
    (s : Strand)
    → f.only_open ≡ true
    → In (id, s) (kept_nodes root f parent by) ↔ (
        In (id, s) by
        × (is_kept root f (id, s) ≡ true)
        × ((id ≡ root)
            ⊎ ((y : Str) × (t : Strand) × (k : ℕ) × In (y, t) by
                × (is_kept root f (y, t) ≡ true)
                × (is_active t ≡ true)
                × (k ≤ length (keep_if (is_kept root f) by))
                × Above parent k y id)))
unfolding kept_nodes is_kept
kept_nodes_iff f by parent root id s only =
    let keep : List (Str × Strand) = keep_if (is_kept root f) by in
    let (to, of) = prune_closed_iff keep parent root id s in
    let kept = In-keep_if_iff (is_kept root f) in
    rw only (
      λ i.
          let (j, why) = to i in
          let (m, p) = kept (id, s) by in
          let (b, h) = m j in
          (
            b,
            h,
            elim why [
              | inl e ↦ inl e
              | inr (y, t, k, l, a, n, r) ↦
                  let (c, g) = (kept (y, t) by).0 l in inr (y, t, k, c, g, a, n, r)
            ],
          ),
      λ (b, h, why). of (
        (kept (id, s) by).1 (b, h),
        elim why [
          | inl e ↦ inl e
          | inr (y, t, k, c, g, a, n, r) ↦ inr (y, t, k, (kept (y, t) by).1 (c, g), a, n, r)
        ],
      ),
    )
