-- ===== src/Kanban/Singles.antt =====
-- The first loop of `validateParents`, which records one parent of each child
-- (tools/kanban-tree/export.go).
use millstrand.Base.{
  put, lookup-put, Str, str_eq, str_eq→eq, str_eq_refl, ◌≡◌, ◌⊎◌, refl, inl, inr, false, not,
  Bool-cases, Option, none, some, some_cancel, List, [], ◌∷◌, ok, err, ok-injective, In, here,
  there, In-cases, lookup, arith, subst, sym, ◌∙◌,
}
use millstrand.Kanban.Board.{Edge}
use millstrand.Kanban.Parents.{multiple_parents, conflicts, single_parents}

abbrev pub Parented : List (Str × Str) → Str → Str → Type 0
Parented parents child parent = lookup child parents ≡ some parent

-- A parent that is recorded stays.
put-Parented :
    (parents : List (Str × Str)) (e : Edge) (child parent : Str)
    → conflicts (lookup e.to parents) e.from ≡ false
    → Parented parents child parent
    → Parented (put e.to e.from parents) child parent
put-Parented parents e child parent c h = elim (Bool-cases (str_eq child e.to)) [
  | inl q ↦
      let kept : not (str_eq parent e.from) ≡ false = rw (← str_eq→eq child e.to q, h) at c in
      let same : e.from ≡ parent = sym (str_eq→eq parent e.from (ground arith)) in
      rw (lookup-put e.to child e.from parents, q, same) refl
  | inr q ↦ rw (lookup-put e.to child e.from parents, q) h
]

pub single_parents_sound :
    (es : List Edge) (parents m : List (Str × Str))
    → single_parents es parents ≡ ok m
    → ((child parent : Str) → Parented parents child parent → Parented m child parent)
      × ((e : Edge) → In e es → Parented m e.to e.from)
unfolding single_parents
single_parents_sound [] parents m h = (
  λ child parent p. subst (λ (x : List (Str × Str)). Parented x child parent) (ok-injective h) p,
  λ e i. elim i [ ],
)
single_parents_sound (e ∷ es) parents m h =
    elim (Bool-cases (conflicts (lookup e.to parents) e.from)) [
      | inl c ↦ elim (never (rw c at h)) [ ]
      | inr c ↦
          let (stays, all_in) = single_parents_sound es (put e.to e.from parents) m (rw c at h) in
          let first : Parented (put e.to e.from parents) e.to e.from =
            rw (lookup-put e.to e.to e.from parents, str_eq_refl e.to) refl in
          (
            λ child parent p. stays child parent (put-Parented parents e child parent c p),
            λ g i. elim (In-cases i) [
              | inl q ↦
                  subst (λ (x : Edge). Parented m x.to x.from) (sym q) (stays e.to e.from first)
              | inr j ↦ all_in g j
            ],
          )
    ]
  where
    never : err (multiple_parents e.to) ≡ ok m → ⊥
    never q = cc

-- A parent that is recorded is that of an edge.
pub single_parents_from :
    (es : List Edge) (parents m : List (Str × Str)) (child parent : Str)
    → single_parents es parents ≡ ok m
    → Parented m child parent
    → Parented parents child parent ⊎ ((e : Edge) × In e es × (e.to ≡ child) × (e.from ≡ parent))
unfolding single_parents
single_parents_from [] parents m child parent h p =
    inl (subst (λ (x : List (Str × Str)). Parented x child parent) (sym (ok-injective h)) p)
single_parents_from (e ∷ es) parents m child parent h p =
    elim (Bool-cases (conflicts (lookup e.to parents) e.from)) [
      | inl c ↦ elim (never (rw c at h)) [ ]
      | inr c ↦
          elim (single_parents_from es (put e.to e.from parents) m child parent (rw c at h) p) [
            | inr (g, i, t, f) ↦ inr (g, there i, t, f)
            | inl q ↦ elim (Bool-cases (str_eq child e.to)) [
              | inl k ↦ inr (
                e,
                here refl,
                sym (str_eq→eq child e.to k),
                some_cancel (rw (lookup-put e.to child e.from parents, k) at q),
              )
              | inr k ↦ inl (rw (lookup-put e.to child e.from parents, k) at q)
            ]
          ]
    ]
  where
    never : err (multiple_parents e.to) ≡ ok m → ⊥
    never q = cc

-- Edges to one child come from one parent.
abbrev pub HaveOneParent : List Edge → Type 0
HaveOneParent es = (e e' : Edge) → In e es → In e' es → e.to ≡ e'.to → e.from ≡ e'.from

pub single_parents_complete :
    (es : List Edge) (parents : List (Str × Str))
    → HaveOneParent es
    → ((e : Edge) (p : Str) → In e es → Parented parents e.to p → p ≡ e.from)
    → (m : List (Str × Str)) × (single_parents es parents ≡ ok m)
unfolding single_parents
single_parents_complete [] parents one agrees = (parents, refl)
single_parents_complete (e ∷ es) parents one agrees =
    let (m, h) =
      single_parents_complete es (put e.to e.from parents) (λ a b i j. one a b (there i) (there j))
        (λ a p i q. elim (Bool-cases (str_eq a.to e.to)) [
          | inl k ↦
              some_cancel (sym (rw (lookup-put e.to a.to e.from parents, k) at q))
              ∙ one e a (here refl) (there i) (sym (str_eq→eq a.to e.to k))
          | inr k ↦ agrees a p (there i) (rw (lookup-put e.to a.to e.from parents, k) at q)
        ]) in
    (m, rw (settled (lookup e.to parents) (λ p q. agrees e p (here refl) q)) h)
  where
    settled : (o : Option Str) → ((p : Str) → o ≡ some p → p ≡ e.from) → conflicts o e.from ≡ false
    settled none k = refl
    settled (some p) k = rw (k p refl, str_eq_refl e.from) refl
