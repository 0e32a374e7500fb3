-- ===== src/Pools/Ownership.antt =====
-- When a live host refuses a change of membership (cli/internal/jvmpool/registry.go).
use millstrand.Base.{
  Str, str_eq, str_eq→eq, ◌≡◌, refl, ◌∙◌, ap, inl, inr, Bool, true, false, not, ◌||◌, Bool-cases,
  Option, none, some, Option-cases, List, [], ◌∷◌, ◌++◌, Result, ok, err, arith,
}
use millstrand.Pools.Membership.{
  Member, Document, LiveOwner, LiveOwnership, Error, stop_required, items, validate_member,
  validate_canonical_config_dir,
}
use millstrand.Pools.Rows.{find}
use millstrand.Pools.Store.{
  File, Disk, System, Mutation, read_locked, new_revision, atomic_write, replace_locked,
}
use millstrand.Pools.Registry.{
  when_valid, reconcile_found, reconcile_read, reconcile, remove_owned, drop_row, remove,
}
use millstrand.Pools.Validity.{IsMember}
use millstrand.Pools.Updates.{replace_row, judge, find_row_lem}
use millstrand.Pools.Outcomes.{row}
use millstrand.Pools.Refinement.{Contract, refusal, unchanged, written, put, delete, row_of_read}
use millstrand.Pools.Refinement.Reconcile.{reconcile-Contract}
use millstrand.Pools.Refinement.Remove.{remove-Contract}

-- Whether a result is the error that a host must be stopped first.
unfoldable pub is_stop : Result Error Mutation → Bool
is_stop (err (stop_required dir owner)) = true
is_stop _ = false

abbrev in_pool : Str → Option Member → Bool
in_pool pool none = true
in_pool pool (some current) = str_eq current.jvm_pool pool

-- A live host of another pool, or a live host whose pool the registered row contradicts.
unfoldable pub blocks : Option LiveOwner → Member → Option Member → Bool
blocks none member o = false
blocks (some w) member o = not (str_eq w.pool member.jvm_pool) || not (in_pool w.pool o)

replace_locked-not_stop :
    (sys : System) (ms : List Member) (d : Disk) → is_stop (replace_locked sys ms d).1 ≡ false
unfolding replace_locked new_revision atomic_write is_stop
replace_locked-not_stop sys ms d = ground arith

is_stop-judge :
    (sys : System) (owner : Option LiveOwner) (member : Member) (doc : Document) (d : Disk)
    (ms : List Member) (o : Option Member)
    → is_stop (reconcile_found sys owner member doc d (judge owner member ms o)).1
      ≡ blocks owner member o
unfolding is_stop blocks
is_stop-judge sys owner member doc d ms o = ground (
  arith,
  replace_locked-not_stop sys ms d,
  replace_locked-not_stop sys (items doc.members ++ member ∷ []) d,
)

-- For a valid member and a readable registry, `reconcile` asks for a host to be stopped exactly
-- when a live host owns the workspace for another pool than the member's, or for another pool than
-- the registered row's.
pub is_stop-reconcile :
    (sys : System) (member : Member) (live : LiveOwnership) (d : Disk) (doc : Document)
    → IsMember member
    → read_locked d.file ≡ ok doc
    → is_stop (reconcile sys member live d).1
      ≡ blocks (live member.config_dir) member (row d.file member.config_dir)
unfolding reconcile
is_stop-reconcile sys member live d doc v reads =
    rw
      (
        v,
        reads,
        row_of_read d.file doc member.config_dir reads,
        find_row_lem (live member.config_dir) member (items doc.members),
      )
      (is_stop-judge sys (live member.config_dir) member doc d
        (replace_row member (items doc.members)) (find member.config_dir (items doc.members)))

abbrev pub is_owned : Option LiveOwner → Bool
is_owned none = false
is_owned (some _) = true

is_stop-remove_owned :
    (sys : System) (gone : Str) (owner : Option LiveOwner) (doc : Document) (d : Disk)
    → is_stop (remove_owned sys gone owner doc d).1 ≡ is_owned owner
unfolding is_stop
is_stop-remove_owned sys gone (some w) doc d = refl
is_stop-remove_owned sys gone none doc d = elim (Option-cases (drop_row gone (items doc.members))) [
  | inl e ↦ rw e
  | inr (ms, e) ↦ rw e (replace_locked-not_stop sys ms d)
]

-- For a canonical directory and a readable registry, `remove` asks for a host to be stopped exactly
-- when a live host owns the directory.
is_stop-remove :
    (sys : System) (gone : Str) (live : LiveOwnership) (d : Disk) (doc : Document)
    → validate_canonical_config_dir gone ≡ ok tt
    → read_locked d.file ≡ ok doc
    → is_stop (remove sys gone live d).1 ≡ is_owned (live gone)
unfolding remove
is_stop-remove sys gone live d doc v reads =
    rw (v, reads) (is_stop-remove_owned sys gone (live gone) doc d)

-- Every row whose directory a live host owns is of that host's pool.
pub record IsConsistent (live : LiveOwnership) (file : File) : Type 0 where
  pub at :
      (dir : Str) (w : LiveOwner) (m : Member)
      → live dir ≡ some w
      → row file dir ≡ some m
      → m.jvm_pool ≡ w.pool

kept_of_found :
    (sys : System) (w : LiveOwner) (member : Member) (doc : Document) (d : Disk) (ms : List Member)
    (o : Option Member)
    → str_eq w.pool member.jvm_pool ≡ false
    → (reconcile_found sys (some w) member doc d (judge (some w) member ms o)).0 ≡ d
kept_of_found sys w member doc d ms o h = ground arith

kept_of_read :
    (sys : System) (w : LiveOwner) (member : Member) (live : LiveOwnership) (d : Disk)
    (r : Result Error Document)
    → live member.config_dir ≡ some w
    → str_eq w.pool member.jvm_pool ≡ false
    → (reconcile_read sys member live d r).0 ≡ d
kept_of_read sys w member live d (err e) owned h = refl
kept_of_read sys w member live d (ok doc) owned h =
    rw (owned, find_row_lem (some w) member (items doc.members))
      (kept_of_found sys w member doc d (replace_row member (items doc.members))
        (find member.config_dir (items doc.members)) h)

-- A host of another pool keeps the disk as it is.
reconcile-kept :
    (sys : System) (w : LiveOwner) (member : Member) (live : LiveOwnership) (d : Disk)
    → live member.config_dir ≡ some w
    → str_eq w.pool member.jvm_pool ≡ false
    → (reconcile sys member live d).0 ≡ d
unfolding reconcile
reconcile-kept sys w member live d owned h =
    elim (validate_member member)
      as (λ v. (when_valid v d (reconcile_read sys member live d (read_locked d.file))).0 ≡ d) [
        | ok u ↦ kept_of_read sys w member live d (read_locked d.file) owned h
        | err e ↦ refl
      ]

module _ (live : LiveOwnership) (old new : File) (r : Result Error Mutation)
    (c : IsConsistent live old) where
  IsConsistent-after_put :
      (member : Member)
      → ((w : LiveOwner) → live member.config_dir ≡ some w → member.jvm_pool ≡ w.pool)
      → Contract (put member (row old)) old new r
      → IsConsistent live new
  IsConsistent-after_put member agree (refusal e h k) = rw k c
  IsConsistent-after_put member agree (unchanged doc h k s q) = rw k c
  IsConsistent-after_put member agree (written doc h s l) = record {
    at = λ dir w m owned there. elim (Bool-cases (str_eq member.config_dir dir)) [
      | inl same ↦
          ground (arith, s dir, agree w (ap live (str_eq→eq member.config_dir dir same) ∙ owned))
      | inr apart ↦ ground (arith, s dir, c.at dir w m owned)
    ];
  }

  IsConsistent-after_delete :
      (gone : Str) → Contract (delete gone (row old)) old new r → IsConsistent live new
  IsConsistent-after_delete gone (refusal e h k) = rw k c
  IsConsistent-after_delete gone (unchanged doc h k s q) = rw k c
  IsConsistent-after_delete gone (written doc h s l) = record {
    at = λ dir w m owned there. ground (arith, s dir, c.at dir w m owned);
  }

-- However it ends, `reconcile` leaves no live-owned workspace registered for another pool than its
-- host's, if there was none before.
pub reconcile-IsConsistent :
    (sys : System) (member : Member) (live : LiveOwnership) (d : Disk)
    → IsConsistent live d.file
    → IsConsistent live (reconcile sys member live d).0.file
reconcile-IsConsistent sys member live d c = elim (Option-cases (live member.config_dir)) [
  | inl free ↦ step (λ w owned. cc)
  | inr (w, owned) ↦ elim (Bool-cases (str_eq w.pool member.jvm_pool)) [
    | inl e ↦ step (λ v h. ground (arith, str_eq→eq w.pool member.jvm_pool e))
    | inr e ↦ rw (reconcile-kept sys w member live d owned e) c
  ]
]
  where
    step :
        ((w : LiveOwner) → live member.config_dir ≡ some w → member.jvm_pool ≡ w.pool)
        → IsConsistent live (reconcile sys member live d).0.file
    step agree =
        IsConsistent-after_put live d.file (reconcile sys member live d).0.file
          (reconcile sys member live d).1 c member agree (reconcile-Contract sys member live d)

-- However it ends, `remove` leaves no live-owned workspace registered for another pool than its
-- host's, if there was none before.
remove-IsConsistent :
    (sys : System) (gone : Str) (live : LiveOwnership) (d : Disk)
    → IsConsistent live d.file
    → IsConsistent live (remove sys gone live d).0.file
remove-IsConsistent sys gone live d c =
    IsConsistent-after_delete live d.file (remove sys gone live d).0.file (remove sys gone live d).1
      c gone (remove-Contract sys gone live d)
