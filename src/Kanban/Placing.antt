-- ===== src/Kanban/Placing.antt =====
-- What the loop of `layout` records of each child (tools/kanban-tree/tree.go).
use millstrand.Base.{
  ℕ, zero, suc, Str, str_eq, str_eq→eq, ◌≡◌, refl, sym, subst, inl, inr, Bool-cases, Option-cases,
  some, List, [], ◌∷◌, ◌++◌, length, In, here, there, In-cases, In-append_left, In-append_right,
  In-of_append, get_elem?, items_at, push, items_at-push, items_at-push_other,
}
use millstrand.Kanban.Scope.{SharedGroup, Scope, push_all, place, shared_id, shared_ids, dependents}

module _ {A : Type 0} where
  pub get_elem?-append :
      (xs ys : List A) (n : ℕ) (a : A) → get_elem? xs n ≡ some a → get_elem? (xs ++ ys) n ≡ some a
  get_elem?-append [] ys n a h = cc
  get_elem?-append (x ∷ xs) ys zero a h = h
  get_elem?-append (x ∷ xs) ys (suc n) a h = get_elem?-append xs ys n a h

  pub get_elem?-length : (xs : List A) (a : A) → get_elem? (xs ++ a ∷ []) (length xs) ≡ some a
  get_elem?-length [] a = refl
  get_elem?-length (x ∷ xs) a = get_elem?-length xs a

  pub In-items_at-push_keep :
      (o key : Str) (a x : A) (m : List (Str × List A))
      → In x (items_at o m)
      → In x (items_at o (push key a m))
  In-items_at-push_keep o key a x m i = elim (Bool-cases (str_eq o key)) [
    | inl e ↦
        rw (str_eq→eq o key e, items_at-push key a m)
          (In-append_left (items_at key m) (a ∷ []) (rw (str_eq→eq o key e) at i))
    | inr e ↦ rw (items_at-push_other key o a m e) i
  ]

  pub In-items_at-push_new :
      (key : Str) (a : A) (m : List (Str × List A)) → In a (items_at key (push key a m))
  In-items_at-push_new key a m =
      rw (items_at-push key a m) (In-append_right (items_at key m) (a ∷ []) (here refl))

In-push_all_keep :
    (o : Str) (bs : List Str) (idx n : ℕ) (by : List (Str × List ℕ))
    → In n (items_at o by)
    → In n (items_at o (push_all bs idx by))
unfolding push_all
In-push_all_keep o [] idx n by i = i
In-push_all_keep o (b ∷ bs) idx n by i =
    In-push_all_keep o bs idx n (push b idx by) (In-items_at-push_keep o b idx n by i)

In-push_all_new :
    (o : Str) (bs : List Str) (idx : ℕ) (by : List (Str × List ℕ))
    → In o bs
    → In idx (items_at o (push_all bs idx by))
unfolding push_all
In-push_all_new o [] idx by i = elim i [ ]
In-push_all_new o (b ∷ bs) idx by i = elim (In-cases i) [
  | inl e ↦
      In-push_all_keep o bs idx idx (push b idx by)
        (subst (λ p. In idx (items_at p (push b idx by))) (sym e) (In-items_at-push_new b idx by))
  | inr j ↦ In-push_all_new o bs idx (push b idx by) j
]

In-shared_ids :
    (groups : List SharedGroup) (idxs : List ℕ) (n : ℕ) (g : SharedGroup)
    → In n idxs
    → get_elem? groups n ≡ some g
    → In g.id (shared_ids groups idxs)
unfolding shared_ids
In-shared_ids groups [] n g i h = elim i [ ]
In-shared_ids groups (m ∷ idxs) n g i h = elim (In-cases i) [
  | inl e ↦ rw (← e, h) (here refl)
  | inr j ↦
      In-append_right (shared_id (get_elem? groups m)) (shared_ids groups idxs)
        (In-shared_ids groups idxs n g j h)
]

pub In-of_shared_ids :
    (groups : List SharedGroup) (idxs : List ℕ) (x : Str)
    → In x (shared_ids groups idxs)
    → (n : ℕ) × (g : SharedGroup) × In n idxs × (get_elem? groups n ≡ some g) × (x ≡ g.id)
unfolding shared_ids
In-of_shared_ids groups [] x i = elim i [ ]
In-of_shared_ids groups (m ∷ idxs) x i =
    elim (In-of_append (shared_id (get_elem? groups m)) (shared_ids groups idxs) i) [
      | inl j ↦ elim (Option-cases (get_elem? groups m)) [
        | inl e ↦ elim (rw e at j) [ ]
        | inr (g, e) ↦ elim (In-cases (rw e at j)) [
          | inl q ↦ (m, g, here refl, e, q)
          | inr k ↦ elim k [ ]
        ]
      ]
      | inr j ↦ let (n, g, k, e, q) = In-of_shared_ids groups idxs x j in (n, g, there k, e, q)
    ]

-- A later child leaves what is recorded.
pub place-dependents :
    (id : Str) (ws : List Str) (sc : Scope) (b x : Str)
    → In x (dependents sc b)
    → In x (dependents (place id ws sc) b)
unfolding dependents
place-dependents id [] sc b x i = i
place-dependents id (w ∷ []) sc b x i =
    elim (In-of_append (items_at b sc.deps) (shared_ids sc.shared (items_at b sc.shared_by)) i) [
      | inl j ↦ In-append_left _ _ (In-items_at-push_keep b w id x sc.deps j)
      | inr j ↦ In-append_right (items_at b (push w id sc.deps)) _ j
    ]
place-dependents id (w ∷ v ∷ ws) sc b x i =
    elim (In-of_append (items_at b sc.deps) (shared_ids sc.shared (items_at b sc.shared_by)) i) [
      | inl j ↦ In-append_left _ _ j
      | inr j ↦
          let (n, g, k, e, q) = In-of_shared_ids sc.shared (items_at b sc.shared_by) x j in
          In-append_right (items_at b sc.deps) _ (
            subst
              (λ y. In y (
                shared_ids (place id (w ∷ v ∷ ws) sc).shared
                  (items_at b (place id (w ∷ v ∷ ws) sc).shared_by)))
              (sym q)
              (In-shared_ids _ _ n g
                (In-push_all_keep b (w ∷ v ∷ ws) (length sc.shared) n sc.shared_by k)
                (get_elem?-append sc.shared _ n g e)))
    ]

pub place-tops :
    (id : Str) (ws : List Str) (sc : Scope) (x : Str) → In x sc.tops → In x (place id ws sc).tops
place-tops id [] sc x i = In-append_left sc.tops (id ∷ []) i
place-tops id (w ∷ []) sc x i = i
place-tops id (w ∷ v ∷ ws) sc x i = i

pub place_new :
    (id : Str) (ws : List Str) (sc : Scope) (b : Str)
    → In b ws
    → In id (dependents (place id ws sc) b)
unfolding dependents
place_new id [] sc b i = elim i [ ]
place_new id (w ∷ []) sc b i = elim (In-cases i) [
  | inl e ↦ In-append_left _ _ (
      subst (λ p. In id (items_at p (push w id sc.deps))) (sym e)
        (In-items_at-push_new w id sc.deps))
  | inr j ↦ elim j [ ]
]
place_new id (w ∷ v ∷ ws) sc b i = In-append_right (items_at b sc.deps) _ (
    In-shared_ids _ _ (length sc.shared) (record { blockers = w ∷ v ∷ ws; id = id })
      (In-push_all_new b (w ∷ v ∷ ws) (length sc.shared) sc.shared_by i)
      (get_elem?-length sc.shared _))
