-- ===== src/Kanban/Counts.antt =====
-- `countChildren` and `progress` (tools/kanban-tree/tree.go).
use mathlib.Core.Bool.{and-false}
use millstrand.Base.{
  put, lookup-put, ℕ, ◌+◌, Str, str_eq, str_eq→eq, ◌≡◌, refl, ap, ap₂, inl, inr, Bool, true, false,
  not, ◌&&◌, Bool-cases, Option-cases, Option, none, some, List, [], ◌∷◌, length, keep_if,
  if◌then◌else◌, lookup, ok, err, ok-injective, arith,
}
use millstrand.Kanban.Board.{Strand, Edge, Export, Filters, Model, is_active, kanban, progress}
use millstrand.Kanban.Build.{
  tally, count_at, count_child, count_children, index, assemble, build, missing_root,
}

abbrev pub is_board : Option Strand → Bool
is_board none = false
is_board (some s) = kanban s

abbrev pub is_closed_board : Option Strand → Bool
is_closed_board none = false
is_closed_board (some s) = kanban s && not (is_active s)

-- An edge from a strand to a card or a task of the export, and such an edge to one that is closed.
abbrev pub is_child : List (Str × Strand) → Str → Edge → Bool
is_child by id e = str_eq id e.from && is_board (lookup e.to by)

abbrev pub is_closed_child : List (Str × Strand) → Str → Edge → Bool
is_closed_child by id e = str_eq id e.from && is_closed_board (lookup e.to by)

abbrev one_if : Bool → ℕ
one_if b = if b then 1 else 0

count_at-put :
    (key id : Str) (c : ℕ × ℕ) (counts : List (Str × (ℕ × ℕ)))
    → count_at id (put key c counts) ≡ (if str_eq id key then c else count_at id counts)
count_at-put key id c counts = rw (count_at, lookup-put key id c counts) (branch (str_eq id key))
  where
    branch :
        (t : Bool)
        → elim (if t then some c else lookup id counts) [ none ↦ (0, 0) | some d ↦ d ]
          ≡ (if t then c else count_at id counts)
    branch true = refl
    branch false = refl

pair_add_zero : (c : ℕ × ℕ) → c ≡ (c.0 + 0, c.1 + 0)
pair_add_zero (a, b) = ap₂ (λ x y. (x, y)) (omega arith) (omega arith)

split_active :
    (t : Bool) (c : ℕ × ℕ)
    → ◌≡◌ {A = ℕ × ℕ} (if t then c.0 else c.0 + 1, c.1 + 1) (c.0 + one_if (not t), c.1 + 1)
split_active true (a, b) = ap₂ (λ x y. (x, y)) (omega arith) refl
split_active false (a, b) = refl

count_child_lem :
    (o : Option Strand) (source id : Str) (counts : List (Str × (ℕ × ℕ)))
    → (count_at id (count_child o source counts) ≡ (
      (count_at id counts).0 + one_if (str_eq id source && is_closed_board o),
      (count_at id counts).1 + one_if (str_eq id source && is_board o),
    ))
count_child_lem none source id counts =
    rw (and-false (str_eq id source)) (pair_add_zero (count_at id counts))
count_child_lem (some s) source id counts = elim (Bool-cases (kanban s)) [
  | inl e ↦
      rw (e, count_at-put source id (tally s (count_at source counts)) counts)
        (elim (Bool-cases (str_eq id source)) [
          | inl q ↦
              rw (q, ← str_eq→eq id source q) (split_active (is_active s) (count_at id counts))
          | inr q ↦ rw q (pair_add_zero (count_at id counts))
        ])
  | inr e ↦ rw (e, and-false (str_eq id source)) (pair_add_zero (count_at id counts))
]

length_if :
    (t : Bool) (e : Edge) (es : List Edge)
    → length (if t then e ∷ es else es) ≡ one_if t + length es
length_if true e es = omega arith
length_if false e es = omega arith

count_children_lem :
    (by : List (Str × Strand)) (edges : List Edge) (counts : List (Str × (ℕ × ℕ))) (id : Str)
    → ((count_at id (count_children by edges counts)).0
        ≡ (count_at id counts).0 + length (keep_if (is_closed_child by id) edges))
      × ((count_at id (count_children by edges counts)).1
          ≡ (count_at id counts).1 + length (keep_if (is_child by id) edges))
unfolding count_children keep_if
count_children_lem by [] counts id = (omega arith, omega arith)
count_children_lem by (e ∷ es) counts id =
    let (done, total) = count_children_lem by es (count_child (lookup e.to by) e.from counts) id in
    let step = count_child_lem (lookup e.to by) e.from id counts in
    (
      omega (
        arith,
        done,
        ap (λ (c : ℕ × ℕ). c.0) step,
        length_if (is_closed_child by id e) e (keep_if (is_closed_child by id) es),
      ),
      omega (
        arith,
        total,
        ap (λ (c : ℕ × ℕ). c.1) step,
        length_if (is_child by id e) e (keep_if (is_child by id) es),
      ),
    )

-- The progress of a strand is the number of parent-of edges from it to closed cards and tasks of
-- the export, out of those to cards and tasks of the export, whatever the filters leave out.
pub build-progress :
    (ex : Export) (f : Filters) (m : Model) (id : Str)
    → build ex f ≡ ok m
    → progress m id ≡ (
      length (keep_if (is_closed_child (index ex.strands []) id) ex.parent_of),
      length (keep_if (is_child (index ex.strands []) id) ex.parent_of),
    )
unfolding build assemble progress lookup
build-progress ex f m id h = elim (Option-cases (lookup ex.root_id (index ex.strands []))) [
  | inl e ↦ elim (refused (rw (build, e) at h)) [ ]
  | inr (root, e) ↦
      let made : assemble ex f root (index ex.strands []) ≡ m = ok-injective (rw (build, e) at h) in
      let (done, total) = count_children_lem (index ex.strands []) ex.parent_of [] id in
      rw (← made) (ap₂ (λ x y. (x, y)) (omega (arith, done)) (omega (arith, total)))
]
  where
    refused : err (missing_root ex.root_id) ≡ ok m → ⊥
    refused q = cc
