-- ===== src/Kanban/Forest.antt =====
-- The exports whose parents `validateParents` accepts (tools/kanban-tree/export.go).
use millstrand.Base.{
  ℕ, suc, Str, str_eq, str_eq→eq, str_eq_refl, ◌≡◌, ◌≢◌, ◌↔◌, refl, inl, inr, true, false,
  Bool-cases, Option, none, some, Option-cases, some_cancel, List, [], ◌∷◌, ok, err, >>=-eq-ok, In,
  here, there, In-cases, lookup, keys, subst, sym, ◌∙◌,
}
use millstrand.Kanban.Board.{Edge}
use millstrand.Kanban.Build.{parent_of}
use millstrand.Kanban.Parents.{
  parent_cycle, single_parents, ascends, check_cycles, validate_parents, Roots, ends, climbs,
  ascends_iff,
}
use millstrand.Kanban.Singles.{
  Parented, HaveOneParent, single_parents_sound, single_parents_from, single_parents_complete,
}

check_cycles_iff :
    (parents : List (Str × Str)) (children : List Str)
    → (check_cycles parents children ≡ ok tt)
      ↔ ((c : Str) → In c children → ascends parents c ≡ true)
unfolding check_cycles
check_cycles_iff parents [] = (λ h c i. elim i [ ], λ h. refl)
check_cycles_iff parents (x ∷ xs) =
    let (to, of) = check_cycles_iff parents xs in
    (
      λ h c i. elim (Bool-cases (ascends parents x)) [
        | inl e ↦ elim (In-cases i) [ inl q ↦ rw q e | inr j ↦ to (rw e at h) c j ]
        | inr e ↦ elim (never (rw e at h)) [ ]
      ],
      λ h. rw (h x (here refl)) (of (λ c i. h c (there i))),
    )
  where
    never : err parent_cycle ≡ ok tt → ⊥
    never q = cc

-- A chain of edges, each from the parent of the child before, that comes to a strand with no
-- parent, or to a blank id.
pub data Rises (es : List Edge) : Str → Type 0 where
  blank : Rises es []
  root : {cur : Str} → ((e : Edge) → In e es → e.to ≢ cur) → Rises es cur
  up : {cur : Str} (e : Edge) → In e es → e.to ≡ cur → Rises es e.from → Rises es cur

In-keys : (c p : Str) (m : List (Str × Str)) → lookup c m ≡ some p → In c (keys m)
unfolding lookup keys
In-keys c p [] h = cc
In-keys c p ((k, a) ∷ m) h = elim (Bool-cases (str_eq c k)) [
  | inl e ↦ here (str_eq→eq c k e)
  | inr e ↦ there (In-keys c p m (rw e at h))
]

lookup-keys : (c : Str) (m : List (Str × Str)) → In c (keys m) → (p : Str) × (lookup c m ≡ some p)
unfolding lookup keys
lookup-keys c [] i = elim i [ ]
lookup-keys c ((k, a) ∷ m) i = elim (Bool-cases (str_eq c k)) [
  | inl e ↦ (a, rw e refl)
  | inr e ↦ elim (In-cases i) [
    | inl q ↦ absurd (never (sym e ∙ rw q (str_eq_refl k)))
    | inr j ↦ let (p, h) = lookup-keys c m j in (p, rw e h)
  ]
]
  where
    never : false ≡ true → ⊥
    never q = cc

empty : (c p : Str) → Parented [] c p → ⊥
unfolding lookup
empty c p q = cc

-- `m` records the parents of the edges, and nothing else.
module _ (es : List Edge) (m : List (Str × Str)) where
  abbrev Records : Type 0
  Records =
      ((e : Edge) → In e es → Parented m e.to e.from)
      × ((c p : Str) → Parented m c p → (e : Edge) × In e es × (e.to ≡ c) × (e.from ≡ p))

  Roots-Rises : (h : ℕ) (cur : Str) → Records → Roots m h cur → Rises es cur
  unfolding parent_of
  Roots-Rises _ cur (to, of) (ends e) = subst (Rises es) (sym (str_eq→eq cur [] e)) blank
  Roots-Rises _ cur (to, of) (climbs {n = h} e r) = elim (Option-cases (lookup cur m)) [
    | inl free ↦ root (λ g i q.
        let one : lookup g.to m ≡ some g.from = to g i in
        let two : lookup g.to m ≡ none = rw q free in absurd (clash one two))
    | inr (p, q) ↦
        let (g, i, t, f) = of cur p q in
        let rest = Roots-Rises h (parent_of m cur) (to, of) r in
        up g i t (subst (Rises es) (sym f) (rw (parent_of, q) at rest))
  ]
    where
      clash : {o : Option Str} {x : Str} → o ≡ some x → o ≡ none → ⊥
      clash a b = cc

  Rises-Roots : (cur : Str) → Records → Rises es cur → (h : ℕ) × Roots m h cur
  unfolding parent_of
  Rises-Roots _ both blank = (0, ends (str_eq_refl []))
  Rises-Roots cur (to, of) (root free) = elim (Bool-cases (str_eq cur [])) [
    | inl e ↦ (0, ends e)
    | inr e ↦ elim (Option-cases (lookup cur m)) [
      | inl q ↦ (1, climbs e (rw (parent_of, q) (ends (str_eq_refl []))))
      | inr (p, q) ↦ let (g, i, t, f) = of cur p q in absurd (free g i t)
    ]
  ]
  Rises-Roots cur (to, of) (up e i t r) = elim (Bool-cases (str_eq cur [])) [
    | inl b ↦ (0, ends b)
    | inr b ↦
        let (h, above) = Rises-Roots e.from (to, of) r in
        let found : lookup cur m ≡ some e.from = subst (λ c. lookup c m ≡ some e.from) t (to e i) in
        (suc h, climbs b (rw (parent_of, found) above))
  ]

-- `validateParents` accepts the edges exactly if the edges to one child all come from one parent,
-- and from each child the chain of parents comes to a strand without one, or to a blank id: a
-- chain that comes back to itself is refused.
pub validate_parents_iff :
    (es : List Edge)
    → (validate_parents es ≡ ok tt) ↔ (HaveOneParent es × ((e : Edge) → In e es → Rises es e.to))
unfolding validate_parents
validate_parents_iff es = (
  λ h.
      let (m, made, checked) = >>=-eq-ok (single_parents es []) (λ p. check_cycles p (keys p)) h in
      let records = recorded m made in
      (
        λ e e' i j q. one_parent m records e e' i j q,
        λ e i.
            let key = In-keys e.to e.from m (records.0 e i) in
            let (g, r) =
              (ascends_iff m e.to).0 ((check_cycles_iff m (keys m)).0 checked e.to key) in
            Roots-Rises es m g e.to records r,
      ),
  λ (one, rises).
      let (m, made) = single_parents_complete es [] one (λ e p i q. absurd (empty e.to p q)) in
      let records = recorded m made in
      rw made (
        (check_cycles_iff m (keys m)).1 (λ c i.
          let (p, q) = lookup-keys c m i in
          let (e, j, t, f) = records.1 c p q in
          (ascends_iff m c).1 (Rises-Roots es m c records (subst (Rises es) t (rises e j))))),
)
  where
    recorded : (m : List (Str × Str)) → single_parents es [] ≡ ok m → Records es m
    recorded m made = (
      (single_parents_sound es [] m made).1,
      λ c p q. elim (single_parents_from es [] m c p made q) [
        | inl n ↦ absurd (empty c p n)
        | inr w ↦ w
      ],
    )

    one_parent : (m : List (Str × Str)) → Records es m → HaveOneParent es
    one_parent m (to, of) e e' i j q =
        some_cancel (sym (to e i) ∙ subst (λ c. lookup c m ≡ some e'.from) (sym q) (to e' j))
