-- ===== src/Pools/Updates.antt =====
-- The loops of `Reconcile` and `Remove` as updates of a finite map
-- (cli/internal/jvmpool/registry.go).
use millstrand.Base.{
  Str, str_eq, str_eq_iff, str_eq→eq, str_eq_refl, ◌≡◌, refl, ◌∙◌, true, Bool-cases, inl, inr,
  Option, none, some, List, [], ◌∷◌, ◌++◌, if◌then◌else◌, arith,
}
use millstrand.Pools.Membership.{Member, LiveOwner}
use millstrand.Pools.Rows.{find, All, Distinct, find-miss}
use millstrand.Pools.Registry.{Found, missing, behind, meet, member_eq, find_row, drop_row}

-- The rows with the first one of the member's directory replaced.
unfoldable pub replace_row : Member → List Member → List Member
replace_row member [] = []
replace_row member (m ∷ ms) =
    if str_eq m.config_dir member.config_dir then member ∷ ms else m ∷ replace_row member ms

-- The rows without the first one of the directory.
unfoldable pub without : Str → List Member → List Member
without dir [] = []
without dir (m ∷ ms) = if str_eq m.config_dir dir then ms else m ∷ without dir ms

abbrev pub judge : Option LiveOwner → Member → List Member → Option Member → Found
judge owner member ms none = missing
judge owner member ms (some current) = meet owner member current ms

behind-judge :
    (owner : Option LiveOwner) (member m : Member) (ms : List Member) (o : Option Member)
    → behind m (judge owner member ms o) ≡ judge owner member (m ∷ ms) o
behind-judge owner member m ms o = ground arith

-- The loop's finding depends on the directory's row alone.
pub find_row_lem :
    (owner : Option LiveOwner) (member : Member) (ms : List Member)
    → find_row owner member ms
      ≡ judge owner member (replace_row member ms) (find member.config_dir ms)
unfolding find_row find replace_row
find_row_lem owner member [] = refl
find_row_lem owner member (m ∷ ms) = elim (Bool-cases (str_eq m.config_dir member.config_dir)) [
  | inl e ↦ rw e
  | inr e ↦
      rw (e, find_row_lem owner member ms)
        (behind-judge owner member m (replace_row member ms) (find member.config_dir ms))
]

abbrev pub left_without : List Member → Option Member → Option (List Member)
left_without ms none = none
left_without ms (some _) = some ms

pub drop_row_lem :
    (dir : Str) (ms : List Member) → drop_row dir ms ≡ left_without (without dir ms) (find dir ms)
unfolding drop_row find without
drop_row_lem dir [] = refl
drop_row_lem dir (m ∷ ms) = ground (arith, drop_row_lem dir ms)

pub find-replace_row :
    (member current : Member) (ms : List Member) (dir : Str)
    → find member.config_dir ms ≡ some current
    → find dir (replace_row member ms)
      ≡ (if str_eq member.config_dir dir then some member else find dir ms)
unfolding find replace_row
find-replace_row member current [] dir h = cc
find-replace_row member current (m ∷ ms) dir h = ground (
  arith,
  find-replace_row member current ms dir,
  str_eq_iff m.config_dir member.config_dir,
  str_eq_iff member.config_dir dir,
  str_eq_iff m.config_dir dir,
)

pub find-without :
    (gone dir : Str) (ms : List Member)
    → Distinct ms
    → find dir (without gone ms) ≡ (if str_eq gone dir then none else find dir ms)
unfolding find without
find-without gone dir [] d = ground arith
find-without gone dir (m ∷ ms) d = ground (
  arith,
  find-without gone dir ms,
  str_eq_iff m.config_dir gone,
  str_eq_iff gone dir,
  str_eq_iff m.config_dir dir,
)

pub find-append :
    (dir : Str) (ms : List Member) (member : Member)
    → find member.config_dir ms ≡ none
    → find dir (ms ++ member ∷ [])
      ≡ (if str_eq member.config_dir dir then some member else find dir ms)
unfolding find
find-append dir [] member h = refl
find-append dir (m ∷ ms) member h = ground (
  arith,
  find-append dir ms member,
  str_eq_iff m.config_dir member.config_dir,
  str_eq_iff member.config_dir dir,
  str_eq_iff m.config_dir dir,
)

pub Distinct-replace_row :
    (member current : Member) (ms : List Member)
    → find member.config_dir ms ≡ some current
    → Distinct ms
    → Distinct (replace_row member ms)
unfolding find replace_row
Distinct-replace_row member current [] h d = cc
Distinct-replace_row member current (m ∷ ms) h d =
    elim (Bool-cases (str_eq m.config_dir member.config_dir)) [
      | inl e ↦ rw e (rw (← str_eq→eq m.config_dir member.config_dir e) d.0, d.1)
      | inr e ↦ rw e (
        find-replace_row member current ms m.config_dir (ground arith)
            ∙ ground (
              arith,
              str_eq_iff m.config_dir member.config_dir,
              str_eq_iff member.config_dir m.config_dir,
            ),
        Distinct-replace_row member current ms (ground arith) d.1,
      )
    ]

pub Distinct-without : (gone : Str) (ms : List Member) → Distinct ms → Distinct (without gone ms)
unfolding without
Distinct-without gone [] d = tt
Distinct-without gone (m ∷ ms) d = elim (Bool-cases (str_eq m.config_dir gone)) [
  | inl e ↦ rw e d.1
  | inr e ↦
      rw e (find-without gone m.config_dir ms d.1 ∙ ground arith, Distinct-without gone ms d.1)
]

pub Distinct-append :
    (ms : List Member) (member : Member)
    → find member.config_dir ms ≡ none
    → Distinct ms
    → Distinct (ms ++ member ∷ [])
unfolding find
Distinct-append [] member h d = (refl, tt)
Distinct-append (m ∷ ms) member h d =
    let (apart, rest) = find-miss member.config_dir m ms h in
    (
      find-append m.config_dir ms member rest
          ∙ ground (
            arith,
            str_eq_iff m.config_dir member.config_dir,
            str_eq_iff member.config_dir m.config_dir,
          ),
      Distinct-append ms member rest d.1,
    )

module _ (P : Member → Type 0) where
  pub All-replace_row :
      (member : Member) (ms : List Member) → P member → All P ms → All P (replace_row member ms)
  unfolding replace_row
  All-replace_row member [] p h = tt
  All-replace_row member (m ∷ ms) p h = elim (Bool-cases (str_eq m.config_dir member.config_dir)) [
    | inl e ↦ rw e (p, h.1)
    | inr e ↦ rw e (h.0, All-replace_row member ms p h.1)
  ]

  pub All-without : (gone : Str) (ms : List Member) → All P ms → All P (without gone ms)
  unfolding without
  All-without gone [] h = tt
  All-without gone (m ∷ ms) h = elim (Bool-cases (str_eq m.config_dir gone)) [
    | inl e ↦ rw e h.1
    | inr e ↦ rw e (h.0, All-without gone ms h.1)
  ]

  pub All-append :
      (ms : List Member) (member : Member) → P member → All P ms → All P (ms ++ member ∷ [])
  All-append [] member p h = (p, tt)
  All-append (m ∷ ms) member p h = (h.0, All-append ms member p h.1)

pub member_eq→eq : (a b : Member) → member_eq a b ≡ true → a ≡ b
unfolding member_eq
member_eq→eq a b h = ground (
  arith,
  str_eq_iff a.config_dir b.config_dir,
  str_eq_iff a.source_cwd b.source_cwd,
  str_eq_iff a.jvm_pool b.jvm_pool,
)

pub member_eq_refl : (a : Member) → member_eq a a ≡ true
unfolding member_eq
member_eq_refl a = rw (str_eq_refl a.config_dir, str_eq_refl a.source_cwd, str_eq_refl a.jvm_pool)
