-- ===== src/Pools/Snapshots.antt =====
-- The rows of one pool, and their check against the effective configurations
-- (cli/internal/jvmpool/registry.go).
use millstrand.Base.{
  Str, str_eq, str_eq_iff, str_eq→eq, is_blank, ◌≡◌, refl, sym, subst, ◌∙◌, ap, ◌↔◌, ◌⊎◌, inl, inr,
  false, Bool-cases, Option, none, some, List, [], ◌∷◌, ◌++◌, map, keep_if, if◌then◌else◌, ok,
  ok-injective, >>=-eq-ok, arith,
}
use millstrand.Pools.Membership.{
  Member, Document, MemberFault, wrong_config_dir, wrong_source_cwd, items, validate_pool_name,
}
use millstrand.Pools.Rows.{find, All, Distinct, Ascending-Distinct}
use millstrand.Pools.Store.{Disk, read_locked}
use millstrand.Pools.Registry.{
  PoolSnapshot, pool_rows, take_snapshot, snapshot, EffectiveConfig, Resolver, mismatch,
  pool_faults, member_faults, collect_faults, unless_faults, validate_pool,
}
use millstrand.Pools.Outcomes.{row, read_locked-rows}
use millstrand.Pools.Refinement.{row_of_read}

abbrev pub of_pool : Str → Option Member → Option Member
of_pool pool none = none
of_pool pool (some m) = if str_eq m.jvm_pool pool then some m else none

find-keep_if :
    (pool dir : Str) (ms : List Member)
    → Distinct ms
    → find dir (keep_if (λ m. str_eq m.jvm_pool pool) ms) ≡ of_pool pool (find dir ms)
unfolding find keep_if
find-keep_if pool dir [] n = refl
find-keep_if pool dir (m ∷ ms) n =
    ground (arith, find-keep_if pool dir ms n.1, str_eq_iff m.config_dir dir)

-- What a snapshot that succeeded is.
snapshot_inversion :
    (pool : Str) (d : Disk) (s : PoolSnapshot)
    → snapshot pool d ≡ ok s
    → (is_blank pool ≡ false)
      × ((doc : Document) × (read_locked d.file ≡ ok doc) × (take_snapshot pool doc ≡ s))
unfolding snapshot validate_pool_name
snapshot_inversion pool d s h =
    let (u, named, rest) = >>=-eq-ok (validate_pool_name pool) _ h in
    let (doc, reads, e) = >>=-eq-ok (read_locked d.file) _ rest in
    (ground arith, (doc, reads, ok-injective e))

-- A snapshot has, under each directory, the registered row if that is of the pool, and no other.
find-snapshot :
    (pool dir : Str) (d : Disk) (s : PoolSnapshot)
    → snapshot pool d ≡ ok s
    → find dir s.members ≡ of_pool pool (row d.file dir)
unfolding pool_rows
find-snapshot pool dir d s h =
    let (named, (doc, reads, e)) = snapshot_inversion pool d s h in
    let sorted = read_locked-rows d.file doc reads in
    ap (λ (t : PoolSnapshot). find dir t.members) (sym e)
    ∙ find-keep_if pool dir (items doc.members) (Ascending-Distinct (items doc.members) sorted.1)
    ∙ ap (of_pool pool) (sym (row_of_read d.file doc dir reads))

-- The effective configuration is there, confirms the directories as far as it names them, and has
-- the member's pool.
abbrev pub Agrees : Str → Str → Type 0
Agrees effective registered = (effective ≡ []) ⊎ (effective ≡ registered)

pub record Conforms (resolve : Resolver) (m : Member) : Type 0 where
  pub effective : EffectiveConfig
  pub resolved : resolve m.config_dir ≡ some effective
  pub config_dir : Agrees effective.config_dir m.config_dir
  pub source_cwd : Agrees effective.source_cwd m.source_cwd
  pub jvm_pool : effective.jvm_pool ≡ some m.jvm_pool

Agrees-mismatch : (a b : Str) (f : MemberFault) → (mismatch a b f ≡ []) ↔ Agrees a b
Agrees-mismatch a b f = (
  λ h. elim (Bool-cases (str_eq a [])) [
    | inl e ↦ inl (str_eq→eq a [] e)
    | inr e ↦ inr (str_eq→eq a b (ground arith))
  ],
  λ h. ground (arith, str_eq_iff a [], str_eq_iff a b),
)

pool_faults_lem :
    (o : Option Str) (registered : Str)
    → is_blank registered ≡ false
    → (pool_faults o registered ≡ []) ↔ (o ≡ some registered)
pool_faults_lem none registered n = (λ h. cc, λ h. cc)
pool_faults_lem (some p) registered n = (
  λ h. ap some (str_eq→eq p registered (ground arith)),
  λ h. ground (arith, str_eq_iff p registered),
)

append-eq-nil : {A : Type 0} (xs ys : List A) → (xs ++ ys ≡ []) ↔ ((xs ≡ []) × (ys ≡ []))
append-eq-nil [] ys = (λ h. (refl, h), λ h. h.1)
append-eq-nil (x ∷ xs) ys = (λ h. cc, λ h. cc)

member_faults_complete :
    (resolve : Resolver) (m : Member) (o : Option EffectiveConfig)
    → is_blank m.jvm_pool ≡ false
    → resolve m.config_dir ≡ o
    → member_faults o m ≡ []
    → Conforms resolve m
unfolding member_faults
member_faults_complete resolve m none n r h = cc
member_faults_complete resolve m (some e) n r h =
    let (first, rest) =
      (append-eq-nil (mismatch e.config_dir m.config_dir wrong_config_dir) _).0 h in
    let (second, third) =
      (append-eq-nil (mismatch e.source_cwd m.source_cwd wrong_source_cwd) _).0 rest in
    record {
      effective = e;
      resolved = r;
      config_dir = (Agrees-mismatch e.config_dir m.config_dir wrong_config_dir).0 first;
      source_cwd = (Agrees-mismatch e.source_cwd m.source_cwd wrong_source_cwd).0 second;
      jvm_pool = (pool_faults_lem e.jvm_pool m.jvm_pool n).0 third;
    }

member_faults_sound :
    (resolve : Resolver) (m : Member)
    → is_blank m.jvm_pool ≡ false
    → Conforms resolve m
    → member_faults (resolve m.config_dir) m ≡ []
unfolding member_faults
member_faults_sound resolve m n c = rw c.resolved (
    (append-eq-nil (mismatch c.effective.config_dir m.config_dir wrong_config_dir) _).1 (
      (Agrees-mismatch c.effective.config_dir m.config_dir wrong_config_dir).1 c.config_dir,
      (append-eq-nil (mismatch c.effective.source_cwd m.source_cwd wrong_source_cwd) _).1 (
        (Agrees-mismatch c.effective.source_cwd m.source_cwd wrong_source_cwd).1 c.source_cwd,
        (pool_faults_lem c.effective.jvm_pool m.jvm_pool n).1 c.jvm_pool,
      ),
    ))

map-eq-nil : {A B : Type 0} (f : A → B) (xs : List A) → map f xs ≡ [] → xs ≡ []
map-eq-nil f [] h = refl
map-eq-nil f (x ∷ xs) h = cc

abbrev IsNamed : Member → Type 0
IsNamed m = is_blank m.jvm_pool ≡ false

collect_faults_complete :
    (resolve : Resolver) (ms : List Member)
    → All IsNamed ms
    → collect_faults resolve ms ≡ []
    → All (Conforms resolve) ms
unfolding collect_faults
collect_faults_complete resolve [] n h = tt
collect_faults_complete resolve (m ∷ ms) n h =
    let (first, rest) =
      (append-eq-nil (map (λ f. (m.config_dir, f)) (member_faults (resolve m.config_dir) m)) _).0
        h in
    (
      member_faults_complete resolve m (resolve m.config_dir) n.0 refl
          (map-eq-nil _ (member_faults (resolve m.config_dir) m) first),
      collect_faults_complete resolve ms n.1 rest,
    )

collect_faults_sound :
    (resolve : Resolver) (ms : List Member)
    → All IsNamed ms
    → All (Conforms resolve) ms
    → collect_faults resolve ms ≡ []
unfolding collect_faults
collect_faults_sound resolve [] n h = refl
collect_faults_sound resolve (m ∷ ms) n h =
    rw (member_faults_sound resolve m n.0 h.0) (collect_faults_sound resolve ms n.1 h.1)

rows-IsNamed :
    (pool : Str) (ms : List Member)
    → is_blank pool ≡ false
    → All IsNamed (keep_if (λ m. str_eq m.jvm_pool pool) ms)
unfolding keep_if
rows-IsNamed pool [] n = tt
rows-IsNamed pool (m ∷ ms) n = elim (Bool-cases (str_eq m.jvm_pool pool)) [
  | inl e ↦ rw e (rw (str_eq→eq m.jvm_pool pool e) n, rows-IsNamed pool ms n)
  | inr e ↦ rw e (rows-IsNamed pool ms n)
]

unless_faults_lem :
    {A : Type 0} (fs : List (Str × MemberFault)) (a b : A)
    → (unless_faults fs a ≡ ok b) ↔ ((fs ≡ []) × (a ≡ b))
unless_faults_lem [] a b = (λ h. (refl, ok-injective h), λ h. ap ok h.1)
unless_faults_lem (f ∷ fs) a b = (λ h. cc, λ h. cc)

validated :
    (pool : Str) (resolve : Resolver) (d : Disk) (s : PoolSnapshot)
    → validate_pool pool (some resolve) d ≡ ok s
    → (snapshot pool d ≡ ok s) × All (Conforms resolve) s.members
unfolding validate_pool snapshot validate_pool_name pool_rows
validated pool resolve d s h =
    let (u, named, rest) = >>=-eq-ok (validate_pool_name pool) _ h in
    let (doc, reads, e) = >>=-eq-ok (read_locked d.file) _ rest in
    let (none_there, same) =
      (unless_faults_lem (collect_faults resolve (pool_rows pool doc)) (take_snapshot pool doc) s).0
        e in
    let n : is_blank pool ≡ false = ground arith in
    (
      rw (n, reads) (ap ok same),
      rw (← same) (
          collect_faults_complete resolve (pool_rows pool doc)
            (rows-IsNamed pool (items doc.members) n) none_there),
    )

unvalidated :
    (pool : Str) (resolve : Resolver) (d : Disk) (s : PoolSnapshot)
    → snapshot pool d ≡ ok s
    → All (Conforms resolve) s.members
    → validate_pool pool (some resolve) d ≡ ok s
unfolding validate_pool validate_pool_name pool_rows
unvalidated pool resolve d s h c =
    let (named, (doc, reads, e)) = snapshot_inversion pool d s h in
    rw (named, reads)
      ((unless_faults_lem (collect_faults resolve (pool_rows pool doc)) (take_snapshot pool doc)
          s).1
        (
          collect_faults_sound resolve (pool_rows pool doc)
              (rows-IsNamed pool (items doc.members) named)
              (subst (λ t. All (Conforms resolve) t.members) (sym e) c),
          e,
        ))

-- `validate_pool` returns a snapshot exactly when that is the pool's snapshot and the effective
-- configuration of each of its members conforms to the row.
pub validate_pool_iff :
    (pool : Str) (resolve : Resolver) (d : Disk) (s : PoolSnapshot)
    → (validate_pool pool (some resolve) d ≡ ok s)
      ↔ ((snapshot pool d ≡ ok s) × All (Conforms resolve) s.members)
validate_pool_iff pool resolve d s =
    (validated pool resolve d s, λ h. unvalidated pool resolve d s h.0 h.1)
