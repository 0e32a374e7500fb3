-- ===== src/Pools/Rows.antt =====
-- The rows as a finite map from config directories, and the sorting of rows.
use millstrand.Base.{
  Str, str_eq, str_eq_iff, str_eq→eq, str_lt, str_lt_irrefl, str_lt_trans, str_lt_total, ◌≡◌, refl,
  true, false, Bool-cases, inl, inr, Option, none, some, List, [], ◌∷◌, if◌then◌else◌, arith,
}
use millstrand.Pools.Membership.{Member}
use millstrand.Pools.Store.{insert_member, sort_members}

-- The row of a directory.
unfoldable pub find : Str → List Member → Option Member
find dir [] = none
find dir (m ∷ ms) = if str_eq m.config_dir dir then some m else find dir ms

abbrev pub All : (Member → Type 0) → List Member → Type 0
All P [] = Unit
All P (m ∷ ms) = P m × All P ms

-- No directory has two rows.
abbrev pub Distinct : List Member → Type 0
Distinct [] = Unit
Distinct (m ∷ ms) = (find m.config_dir ms ≡ none) × Distinct ms

-- Every row's directory is greater.
abbrev pub Above : Str → List Member → Type 0
Above dir ms = All (λ m. str_lt dir m.config_dir ≡ true) ms

-- The directories ascend strictly.
abbrev pub Ascending : List Member → Type 0
Ascending [] = Unit
Ascending (m ∷ ms) = Above m.config_dir ms × Ascending ms

pub str_lt-ne : (s t : Str) → str_lt s t ≡ true → str_eq t s ≡ false
str_lt-ne s t h = elim (Bool-cases (str_eq t s)) [
  | inl e ↦ cc (h, str_eq→eq t s e, str_lt_irrefl s)
  | inr n ↦ n
]

pub find-Above : (dir : Str) (ms : List Member) → Above dir ms → find dir ms ≡ none
unfolding find
find-Above dir [] h = refl
find-Above dir (m ∷ ms) h = rw (str_lt-ne dir m.config_dir h.0) (find-Above dir ms h.1)

pub Ascending-Distinct : (ms : List Member) → Ascending ms → Distinct ms
Ascending-Distinct [] h = tt
Ascending-Distinct (m ∷ ms) h = (find-Above m.config_dir ms h.0, Ascending-Distinct ms h.1)

pub Above-trans : (a b : Str) (ms : List Member) → str_lt a b ≡ true → Above b ms → Above a ms
Above-trans a b [] h k = tt
Above-trans a b (m ∷ ms) h k = (str_lt_trans a b m.config_dir h k.0, Above-trans a b ms h k.1)

module _ (P : Member → Type 0) where
  All-insert : (m : Member) (ms : List Member) → P m → All P ms → All P (insert_member m ms)
  unfolding insert_member
  All-insert m [] p h = (p, tt)
  All-insert m (x ∷ xs) p h = elim (Bool-cases (str_lt m.config_dir x.config_dir)) [
    | inl e ↦ rw e (p, h)
    | inr e ↦ rw e (h.0, All-insert m xs p h.1)
  ]

  pub All-sort : (ms : List Member) → All P ms → All P (sort_members ms)
  unfolding sort_members
  All-sort [] h = tt
  All-sort (m ∷ ms) h = All-insert m (sort_members ms) h.0 (All-sort ms h.1)

find-insert :
    (dir : Str) (m : Member) (ms : List Member)
    → find m.config_dir ms ≡ none
    → find dir (insert_member m ms) ≡ (if str_eq m.config_dir dir then some m else find dir ms)
unfolding find insert_member
find-insert dir m [] h = refl
find-insert dir m (x ∷ xs) h = ground (
  arith,
  find-insert dir m xs,
  str_eq_iff x.config_dir m.config_dir,
  str_eq_iff m.config_dir dir,
  str_eq_iff x.config_dir dir,
)

pub find-sort :
    (dir : Str) (ms : List Member) → Distinct ms → find dir (sort_members ms) ≡ find dir ms
unfolding find sort_members
find-sort dir [] h = refl
find-sort dir (m ∷ ms) h =
    rw (find-insert dir m (sort_members ms) (rw (find-sort m.config_dir ms h.1) h.0))
      (rw (find-sort dir ms h.1))

pub find-miss :
    (dir : Str) (m : Member) (ms : List Member)
    → find dir (m ∷ ms) ≡ none
    → (str_eq m.config_dir dir ≡ false) × (find dir ms ≡ none)
unfolding find
find-miss dir m ms h = ground arith

insert-Ascending :
    (m : Member) (ms : List Member)
    → find m.config_dir ms ≡ none
    → Ascending ms
    → Ascending (insert_member m ms)
unfolding find insert_member
insert-Ascending m [] n h = (tt, tt)
insert-Ascending m (x ∷ xs) n h = elim (Bool-cases (str_lt m.config_dir x.config_dir)) [
  | inl e ↦ rw e ((e, Above-trans m.config_dir x.config_dir xs e h.0), h)
  | inr e ↦ rw e (
    All-insert (λ y. str_lt x.config_dir y.config_dir ≡ true) m xs
        (str_lt_total m.config_dir x.config_dir e (
          ground (
            arith,
            find-miss m.config_dir x xs n,
            str_eq_iff m.config_dir x.config_dir,
            str_eq_iff x.config_dir m.config_dir,
          )))
        h.0,
    insert-Ascending m xs (find-miss m.config_dir x xs n).1 h.1,
  )
]

pub sort-Ascending : (ms : List Member) → Distinct ms → Ascending (sort_members ms)
unfolding sort_members
sort-Ascending [] h = tt
sort-Ascending (m ∷ ms) h =
    insert-Ascending m (sort_members ms) (rw (find-sort m.config_dir ms h.1) h.0)
      (sort-Ascending ms h.1)
