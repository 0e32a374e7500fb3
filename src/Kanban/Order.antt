-- ===== src/Kanban/Order.antt =====
-- The order of the board that `sortIDs` puts ids in (tools/kanban-tree/tree.go).
use millstrand.Base.{
  Str, str_eq, str_eq→eq, str_eq_refl, str_lt, str_lt_irrefl, str_lt_trans, str_lt_total, ◌≡◌, refl,
  sym, ◌∙◌, suc, length, ◌⊎◌, inl, inr, true, false, Bool-cases, List, [], ◌∷◌, In, In-cases, arith,
  ◌↔◌,
}
use millstrand.Kanban.Board.{Strand, node_at, before, insert_id, sort_ids}
use millstrand.Kanban.Kids.{In-insert_id, In-sort_ids}

-- Any third string lies above the lower or below the higher of two.
str_lt_between : (s t u : Str) → str_lt s u ≡ true → (str_lt s t ≡ true) ⊎ (str_lt t u ≡ true)
str_lt_between s t u h = elim (Bool-cases (str_lt s t)) [
  | inl e ↦ inl e
  | inr e ↦ elim (Bool-cases (str_eq s t)) [
    | inl q ↦ inr (rw (← str_eq→eq s t q) h)
    | inr q ↦ inr (str_lt_trans t s u (str_lt_total s t e q) h)
  ]
]

never : false ≡ true → ⊥
never q = cc

lt-differs : (s t : Str) → str_lt s t ≡ true → str_eq s t ≡ false
lt-differs s t h = elim (Bool-cases (str_eq s t)) [
  | inl e ↦ elim (never (sym (str_lt_irrefl t) ∙ (rw (str_eq→eq s t e) at h))) [ ]
  | inr e ↦ e
]

before_older : (a b : Strand) → str_lt a.created_at b.created_at ≡ true → before a b ≡ true
unfolding before
before_older a b h = rw (lt-differs a.created_at b.created_at h) h

before_between : (a b c : Strand) → before a c ≡ true → (before a b ≡ true) ⊎ (before b c ≡ true)
unfolding before
before_between a b c h = elim (Bool-cases (str_eq a.created_at c.created_at)) [
  | inl e ↦
      let same = str_eq→eq a.created_at c.created_at e in
      let ids : str_lt a.id c.id ≡ true = rw e at h in
      elim (Bool-cases (str_lt a.created_at b.created_at)) [
        | inl l ↦ inl (before_older a b l)
        | inr l ↦ elim (Bool-cases (str_eq a.created_at b.created_at)) [
          | inl q ↦
              let third : str_eq b.created_at c.created_at ≡ true =
                rw (← str_eq→eq a.created_at b.created_at q) e in
              elim (str_lt_between a.id b.id c.id ids) [
                | inl k ↦ inl (rw q k)
                | inr k ↦ inr (rw third k)
              ]
          | inr q ↦
              inr (before_older b c (rw (← same) (str_lt_total a.created_at b.created_at l q)))
        ]
      ]
  | inr e ↦ elim (str_lt_between a.created_at b.created_at c.created_at (rw e at h)) [
    | inl l ↦ inl (before_older a b l)
    | inr l ↦ inr (before_older b c l)
  ]
]

str_lt_asym : (s t : Str) → str_lt s t ≡ true → str_lt t s ≡ false
str_lt_asym s t h = elim (Bool-cases (str_lt t s)) [
  | inl e ↦ elim (never (sym (str_lt_irrefl s) ∙ str_lt_trans s t s h e)) [ ]
  | inr e ↦ e
]

before_asym : (a b : Strand) → before a b ≡ true → before b a ≡ false
unfolding before
before_asym a b h = elim (Bool-cases (str_eq a.created_at b.created_at)) [
  | inl e ↦
      let same = str_eq→eq a.created_at b.created_at e in
      let ids : str_lt a.id b.id ≡ true = rw e at h in
      let back : str_eq b.created_at a.created_at ≡ true = rw same (str_eq_refl b.created_at) in
      rw back (str_lt_asym a.id b.id ids)
  | inr e ↦
      let older : str_lt a.created_at b.created_at ≡ true = rw e at h in
      elim (Bool-cases (str_eq b.created_at a.created_at)) [
        | inl q ↦
            let same = str_eq→eq b.created_at a.created_at q in
            let equal : str_eq a.created_at b.created_at ≡ true =
              rw same (str_eq_refl a.created_at) in
            elim (never (sym e ∙ equal)) [ ]
        | inr q ↦ rw q (str_lt_asym a.created_at b.created_at older)
      ]
]

-- No id stands behind one that it comes before.
pub data IsOrdered (nodes : List (Str × Strand)) : List Str → Type 0 where
  nil : IsOrdered nodes []
  cons :
      {x : Str} {xs : List Str}
      → ((y : Str) → In y xs → before (node_at nodes y) (node_at nodes x) ≡ false)
      → IsOrdered nodes xs
      → IsOrdered nodes (x ∷ xs)

module _ (nodes : List (Str × Strand)) where
  not_before :
      (a b c : Str)
      → before (node_at nodes a) (node_at nodes b) ≡ false
      → before (node_at nodes b) (node_at nodes c) ≡ false
      → before (node_at nodes a) (node_at nodes c) ≡ false
  not_before a b c p q = elim (Bool-cases (before (node_at nodes a) (node_at nodes c))) [
    | inl h ↦ elim (before_between (node_at nodes a) (node_at nodes b) (node_at nodes c) h) [
      | inl k ↦ cc
      | inr k ↦ cc
    ]
    | inr h ↦ h
  ]

  insert_id-IsOrdered :
      (x : Str) (ys : List Str) → IsOrdered nodes ys → IsOrdered nodes (insert_id nodes x ys)
  unfolding insert_id
  insert_id-IsOrdered x [] o = cons (λ y i. elim i [ ]) nil
  insert_id-IsOrdered x (y ∷ ys) (cons h o) =
      elim (Bool-cases (before (node_at nodes y) (node_at nodes x))) [
        | inl e ↦ rw e (
            cons {x = y}
              (λ z i. elim (In-cases ((In-insert_id nodes z x ys).0 i)) [
                | inl q ↦ rw q (before_asym (node_at nodes y) (node_at nodes x) e)
                | inr j ↦ h z j
              ])
              (insert_id-IsOrdered x ys o))
        | inr e ↦ rw e (
            cons {x = x}
              (λ z i. elim (In-cases i) [ inl q ↦ rw q e | inr j ↦ not_before z y x (h z j) e ])
              (cons h o))
      ]

  sort_ids-IsOrdered : (ids : List Str) → IsOrdered nodes (sort_ids nodes ids)
  unfolding sort_ids
  sort_ids-IsOrdered [] = nil
  sort_ids-IsOrdered (x ∷ xs) = insert_id-IsOrdered x (sort_ids nodes xs) (sort_ids-IsOrdered xs)

  length-insert_id : (x : Str) (ys : List Str) → length (insert_id nodes x ys) ≡ suc (length ys)
  unfolding insert_id
  length-insert_id x [] = refl
  length-insert_id x (y ∷ ys) = ground (arith, length-insert_id x ys)

  length-sort_ids : (ids : List Str) → length (sort_ids nodes ids) ≡ length ids
  unfolding sort_ids
  length-sort_ids [] = refl
  length-sort_ids (x ∷ xs) =
      omega (arith, length-insert_id x (sort_ids nodes xs), length-sort_ids xs)

-- `sortIDs` returns as many ids as it is given, and the same ones, and puts no strand behind one
-- that is younger, or as old with a greater id.
sort_ids_lem :
    (nodes : List (Str × Strand)) (ids : List Str)
    → IsOrdered nodes (sort_ids nodes ids)
      × ((x : Str) → (In x (sort_ids nodes ids) ↔ In x ids))
      × (length (sort_ids nodes ids) ≡ length ids)
sort_ids_lem nodes ids =
    (sort_ids-IsOrdered nodes ids, λ x. In-sort_ids nodes x ids, length-sort_ids nodes ids)
