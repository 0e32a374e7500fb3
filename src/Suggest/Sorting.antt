-- ===== src/Suggest/Sorting.antt =====
-- The stable sort of matches by distance (cli/internal/errfmt/suggest.go).
use millstrand.Base.{
  ℕ, zero, suc, ◌≤◌, ◌≡◌, ◌⊎◌, inl, inr, subst, Bool-cases, leb, leb→le, List, [], ◌∷◌, take, In,
  here, there, In-cases, if◌then◌else◌, arith,
}
use millstrand.Suggest.Rank.{Match, insert_match, sort_matches}

-- Each match's distance is at most that of every later one.
abbrev pub Bounded : ℕ → List Match → Type 0
Bounded d [] = Unit
Bounded d (m ∷ ms) = (d ≤ m.distance) × Bounded d ms

abbrev pub Sorted : List Match → Type 0
Sorted [] = Unit
Sorted (m ∷ ms) = Bounded m.distance ms × Sorted ms

Bounded-insert :
    (d : ℕ) (m : Match) (ms : List Match)
    → d ≤ m.distance
    → Bounded d ms
    → Bounded d (insert_match m ms)
unfolding insert_match
Bounded-insert d m [] p h = (p, tt)
Bounded-insert d m (x ∷ xs) p h = elim (Bool-cases (leb m.distance x.distance)) [
  | inl e ↦ rw e (p, h)
  | inr e ↦ rw e (h.0, Bounded-insert d m xs p h.1)
]

Bounded-mono : (d e : ℕ) (ms : List Match) → d ≤ e → Bounded e ms → Bounded d ms
Bounded-mono d e [] p h = tt
Bounded-mono d e (m ∷ ms) p h = (omega (arith, h.0), Bounded-mono d e ms p h.1)

Sorted-insert : (m : Match) (ms : List Match) → Sorted ms → Sorted (insert_match m ms)
unfolding insert_match
Sorted-insert m [] h = (tt, tt)
Sorted-insert m (x ∷ xs) h = elim (Bool-cases (leb m.distance x.distance)) [
  | inl e ↦ rw e (
    (
      leb→le m.distance x.distance e,
      Bounded-mono m.distance x.distance xs (leb→le m.distance x.distance e) h.0,
    ),
    h,
  )
  | inr e ↦ rw e (Bounded-insert x.distance m xs (ground arith) h.0, Sorted-insert m xs h.1)
]

pub Sorted-sort : (ms : List Match) → Sorted (sort_matches ms)
unfolding sort_matches
Sorted-sort [] = tt
Sorted-sort (m ∷ ms) = Sorted-insert m (sort_matches ms) (Sorted-sort ms)

In-of_insert : (y m : Match) (ms : List Match) → In y (insert_match m ms) → (y ≡ m) ⊎ In y ms
unfolding insert_match
In-of_insert y m [] i = In-cases i
In-of_insert y m (x ∷ xs) i = elim (Bool-cases (leb m.distance x.distance)) [
  | inl e ↦ In-cases (subst (λ b. In y (if b then m ∷ x ∷ xs else x ∷ insert_match m xs)) e i)
  | inr e ↦
      elim (In-cases (subst (λ b. In y (if b then m ∷ x ∷ xs else x ∷ insert_match m xs)) e i)) [
        | inl p ↦ inr (here p)
        | inr j ↦ elim (In-of_insert y m xs j) [ inl p ↦ inl p | inr k ↦ inr (there k) ]
      ]
]

In-insert : (y m : Match) (ms : List Match) → (y ≡ m) ⊎ In y ms → In y (insert_match m ms)
unfolding insert_match
In-insert y m [] (inl p) = here p
In-insert y m [] (inr i) = elim i [ ]
In-insert y m (x ∷ xs) h = elim (Bool-cases (leb m.distance x.distance)) [
  | inl e ↦ rw e (elim h [ inl p ↦ here p | inr i ↦ there i ])
  | inr e ↦ rw e (elim h [
    | inl p ↦ there (In-insert y m xs (inl p))
    | inr i ↦ elim (In-cases i) [ inl p ↦ here p | inr j ↦ there (In-insert y m xs (inr j)) ]
  ])
]

pub In-of_sort : (y : Match) (ms : List Match) → In y (sort_matches ms) → In y ms
unfolding sort_matches
In-of_sort y [] i = i
In-of_sort y (m ∷ ms) i = elim (In-of_insert y m (sort_matches ms) i) [
  | inl p ↦ here p
  | inr j ↦ there (In-of_sort y ms j)
]

pub In-sort : (y : Match) (ms : List Match) → In y ms → In y (sort_matches ms)
unfolding sort_matches
In-sort y [] i = i
In-sort y (m ∷ ms) i = elim (In-cases i) [
  | inl p ↦ In-insert y m (sort_matches ms) (inl p)
  | inr j ↦ In-insert y m (sort_matches ms) (inr (In-sort y ms j))
]

Bounded-In : (d : ℕ) (y : Match) (ms : List Match) → Bounded d ms → In y ms → d ≤ y.distance
Bounded-In d y [] h i = elim i [ ]
Bounded-In d y (m ∷ ms) h i = elim (In-cases i) [
  | inl p ↦ rw p h.0
  | inr j ↦ Bounded-In d y ms h.1 j
]

-- What a cut of a sorted list leaves out is no closer than what it keeps.
pub cut_closest :
    (n : ℕ) (ms : List Match) (x y : Match)
    → Sorted ms
    → In x (take n ms)
    → In y ms
    → In y (take n ms) ⊎ (x.distance ≤ y.distance)
unfolding take
cut_closest zero ms x y s i j = elim i [ ]
cut_closest (suc n) [] x y s i j = elim i [ ]
cut_closest (suc n) (m ∷ ms) x y s i j = elim (In-cases j) [
  | inl p ↦ inl (here p)
  | inr k ↦ elim (In-cases i) [
    | inl q ↦ inr (rw q (Bounded-In m.distance y ms s.0 k))
    | inr l ↦ elim (cut_closest n ms x y s.1 l k) [ inl t ↦ inl (there t) | inr t ↦ inr t ]
  ]
]
