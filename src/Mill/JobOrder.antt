-- ===== src/Mill/JobOrder.antt =====
-- The order in which a starting mill sorts its jobs (cli/cmd/mill/autostart.go).
use millstrand.Base.{
  str_lt, str_eq, str_lt_trans, str_lt_total, ◌≡◌, ◌↔◌, ◌⊎◌, inl, inr, refl, true, false,
  Bool-cases, List, [], ◌∷◌, In, here, there, In-cases,
}
use millstrand.Mill.Autostart.{Registration, insert_job, sort_jobs}

-- Each directory is below all that follow, so none stands twice.
abbrev pub Sorted : List Registration → Type 0
Sorted [] = Unit
Sorted (r ∷ rs) =
    ((x : Registration) → In x rs → str_lt r.config_dir x.config_dir ≡ true) × Sorted rs

In-of_insert :
    (x r : Registration) (rs : List Registration) → In x (insert_job r rs) → (x ≡ r) ⊎ In x rs
unfolding insert_job
In-of_insert x r [] i = In-cases i
In-of_insert x r (y ∷ ys) i = elim (Bool-cases (str_lt y.config_dir r.config_dir)) [
  | inl e ↦ elim (In-cases (rw e at i)) [
    | inl q ↦ inr (here q)
    | inr j ↦ elim (In-of_insert x r ys j) [ inl q ↦ inl q | inr k ↦ inr (there k) ]
  ]
  | inr e ↦ In-cases (rw e at i)
]

In-insert :
    (x r : Registration) (rs : List Registration) → (x ≡ r) ⊎ In x rs → In x (insert_job r rs)
unfolding insert_job
In-insert x r [] (inl q) = here q
In-insert x r [] (inr i) = elim i [ ]
In-insert x r (y ∷ ys) (inl q) = elim (Bool-cases (str_lt y.config_dir r.config_dir)) [
  | inl e ↦ rw e (there (In-insert x r ys (inl q)))
  | inr e ↦ rw e (here q)
]
In-insert x r (y ∷ ys) (inr i) = elim (Bool-cases (str_lt y.config_dir r.config_dir)) [
  | inl e ↦ rw e (elim (In-cases i) [ inl q ↦ here q | inr j ↦ there (In-insert x r ys (inr j)) ])
  | inr e ↦ rw e (there i)
]

pub In-sort_iff : (x : Registration) (rs : List Registration) → In x (sort_jobs rs) ↔ In x rs
unfolding sort_jobs
In-sort_iff x [] = (λ i. i, λ i. i)
In-sort_iff x (r ∷ rs) = (
  λ i. elim (In-of_insert x r (sort_jobs rs) i) [
    | inl q ↦ here q
    | inr j ↦ there ((In-sort_iff x rs).0 j)
  ],
  λ i. elim (In-cases i) [
    | inl q ↦ In-insert x r (sort_jobs rs) (inl q)
    | inr j ↦ In-insert x r (sort_jobs rs) (inr ((In-sort_iff x rs).1 j))
  ],
)

-- No directory stands twice, in any order.
abbrev pub Apart : List Registration → Type 0
Apart [] = Unit
Apart (r ∷ rs) =
    ((x : Registration) → In x rs → str_eq x.config_dir r.config_dir ≡ false) × Apart rs

Sorted-insert :
    (r : Registration) (rs : List Registration)
    → ((x : Registration) → In x rs → str_eq x.config_dir r.config_dir ≡ false)
    → Sorted rs
    → Sorted (insert_job r rs)
unfolding insert_job
Sorted-insert r [] new h = (λ x i. elim i [ ], tt)
Sorted-insert r (y ∷ ys) new (low, rest) = elim (Bool-cases (str_lt y.config_dir r.config_dir)) [
  | inl e ↦ rw e (
    λ x i. elim (In-of_insert x r ys i) [ inl q ↦ rw q e | inr j ↦ low x j ],
    Sorted-insert r ys (λ x i. new x (there i)) rest,
  )
  | inr e ↦
      let above = str_lt_total y.config_dir r.config_dir e (new y (here refl)) in
      rw e (
        λ x i. elim (In-cases i) [
          | inl q ↦ rw q above
          | inr j ↦ str_lt_trans r.config_dir y.config_dir x.config_dir above (low x j)
        ],
        (low, rest),
      )
]

pub Sorted-sort : (rs : List Registration) → Apart rs → Sorted (sort_jobs rs)
unfolding sort_jobs
Sorted-sort [] h = tt
Sorted-sort (r ∷ rs) (new, apart) =
    Sorted-insert r (sort_jobs rs) (λ x i. new x ((In-sort_iff x rs).0 i)) (Sorted-sort rs apart)
