-- ===== src/Pools/Registry.antt =====
-- The operations of the registry (cli/internal/jvmpool/registry.go). Each holds the registry's
-- mutex from its read to its last write, so a call is one step on the directory.
use millstrand.Base.{
  Str, str_eq, is_blank, Bool, false, not, ◌&&◌, ◌||◌, Option, none, some, List, [], ◌∷◌, ◌++◌, map,
  if◌then◌else◌, keep_if, Result, ok, err, ◌>>=◌, ◌>>◌,
}
use millstrand.Pools.Membership.{
  Member, Document, LiveOwner, LiveOwnership, MemberFault, unresolved, wrong_config_dir,
  wrong_source_cwd, omitted_pool, blank_pool_value, wrong_pool, Error, stop_required,
  resolver_required, invalid_members, items, validate_canonical_config_dir, validate_member,
  validate_pool_name,
}
use millstrand.Pools.Store.{Disk, System, Mutation, read_locked, mutation_from, replace_locked}

pub record PoolSnapshot : Type 0 where
  pub pool : Str
  pub revision : Str
  pub members : List Member

unfoldable pub pool_rows : Str → Document → List Member
pool_rows pool doc = keep_if (λ m. str_eq m.jvm_pool pool) (items doc.members)

abbrev pub take_snapshot : Str → Document → PoolSnapshot
take_snapshot pool doc = record {
  pool = pool;
  revision = doc.revision;
  members = pool_rows pool doc;
}

unfoldable pub snapshot : Str → Disk → Result Error PoolSnapshot
snapshot pool d = do validate_pool_name pool; doc ← read_locked d.file; ok (take_snapshot pool doc)

pub record EffectiveConfig : Type 0 where
  pub config_dir : Str
  pub source_cwd : Str
  pub jvm_pool : Option Str

-- `none` is an error of the resolver.
abbrev pub Resolver : Type 0
Resolver = Str → Option EffectiveConfig

abbrev pub mismatch : Str → Str → MemberFault → List MemberFault
mismatch effective registered fault =
    if not (str_eq effective []) && not (str_eq effective registered) then fault ∷ [] else []

abbrev pub pool_faults : Option Str → Str → List MemberFault
pool_faults none registered = omitted_pool ∷ []
pool_faults (some pool) registered =
    if is_blank pool
    then blank_pool_value ∷ []
    else if not (str_eq pool registered)
    then wrong_pool ∷ []
    else []

-- The failures that one turn of the loop appends.
unfoldable pub member_faults : Option EffectiveConfig → Member → List MemberFault
member_faults none m = unresolved ∷ []
member_faults (some e) m =
    mismatch e.config_dir m.config_dir wrong_config_dir
    ++ (mismatch e.source_cwd m.source_cwd wrong_source_cwd ++ pool_faults e.jvm_pool m.jvm_pool)

unfoldable pub collect_faults : Resolver → List Member → List (Str × MemberFault)
collect_faults resolve [] = []
collect_faults resolve (m ∷ ms) =
    map (λ f. (m.config_dir, f)) (member_faults (resolve m.config_dir) m)
    ++ collect_faults resolve ms

abbrev pub unless_faults : {A : Type 0} → List (Str × MemberFault) → A → Result Error A
unless_faults [] a = ok a
unless_faults (f ∷ fs) a = err (invalid_members (f ∷ fs))

abbrev pub validate_rows : Str → Resolver → Document → Result Error PoolSnapshot
validate_rows pool resolve doc =
    unless_faults (collect_faults resolve (pool_rows pool doc)) (take_snapshot pool doc)

-- The resolver is a function value that may be nil.
unfoldable pub validate_pool : Str → Option Resolver → Disk → Result Error PoolSnapshot
validate_pool pool none d = do validate_pool_name pool; err resolver_required
validate_pool pool (some resolve) d = do
  validate_pool_name pool
  doc ← read_locked d.file
  validate_rows pool resolve doc

unfoldable pub member_eq : Member → Member → Bool
member_eq a b =
    str_eq a.config_dir b.config_dir
    && str_eq a.source_cwd b.source_cwd
    && str_eq a.jvm_pool b.jvm_pool

-- What the loop of `Reconcile` finds: no row for the workspace, a live host in the way, the row as
-- it is to be, or the rows with that one replaced.
pub data Found : Type 0 where
  missing same : Found
  blocked : LiveOwner → Found
  updated : List Member → Found

abbrev pub behind : Member → Found → Found
behind m (updated ms) = updated (m ∷ ms)
behind m other = other

-- The row of the workspace, `current`, against the wanted one; `ms` are the rows with it replaced.
abbrev pub meet : Option LiveOwner → Member → Member → List Member → Found
meet none member current ms = if member_eq current member then same else updated ms
meet (some owner) member current ms =
    if not (str_eq owner.pool member.jvm_pool) || not (str_eq current.jvm_pool owner.pool)
    then blocked owner
    else if member_eq current member
    then same
    else updated ms

unfoldable pub find_row : Option LiveOwner → Member → List Member → Found
find_row owner member [] = missing
find_row owner member (current ∷ rest) =
    let later = find_row owner member rest in
    if not (str_eq current.config_dir member.config_dir)
    then behind current later
    else meet owner member current (member ∷ rest)

abbrev pub add_row :
    System → Option LiveOwner → Member → List Member → Disk → Disk × Result Error Mutation
add_row sys none member ms d = replace_locked sys (ms ++ member ∷ []) d
add_row sys (some owner) member ms d =
    if not (str_eq owner.pool member.jvm_pool)
    then (d, err (stop_required member.config_dir owner))
    else replace_locked sys (ms ++ member ∷ []) d

abbrev pub reconcile_found :
    System → Option LiveOwner → Member → Document → Disk → Found → Disk × Result Error Mutation
reconcile_found sys owner member doc d missing = add_row sys owner member (items doc.members) d
reconcile_found sys owner member doc d same = (d, ok (mutation_from doc false))
reconcile_found sys owner member doc d (blocked by) = (d, err (stop_required member.config_dir by))
reconcile_found sys owner member doc d (updated ms) = replace_locked sys ms d

abbrev pub reconcile_read :
    System → Member → LiveOwnership → Disk → Result Error Document → Disk × Result Error Mutation
reconcile_read sys member live d (err e) = (d, err e)
reconcile_read sys member live d (ok doc) =
    let owner = live member.config_dir in
    reconcile_found sys owner member doc d (find_row owner member (items doc.members))

abbrev pub when_valid :
    Result Error (Unit {0}) → Disk → Disk × Result Error Mutation → Disk × Result Error Mutation
when_valid (err e) d rest = (d, err e)
when_valid (ok _) d rest = rest

unfoldable pub reconcile : System → Member → LiveOwnership → Disk → Disk × Result Error Mutation
reconcile sys member live d =
    when_valid (validate_member member) d (reconcile_read sys member live d (read_locked d.file))

-- The rows without the workspace's, if it has one.
unfoldable pub drop_row : Str → List Member → Option (List Member)
drop_row dir [] = none
drop_row dir (m ∷ ms) =
    let later = drop_row dir ms in
    if not (str_eq m.config_dir dir)
    then (elim later [ none ↦ none | some rest ↦ some (m ∷ rest) ])
    else some ms

abbrev pub remove_found :
    System → Document → Disk → Option (List Member) → Disk × Result Error Mutation
remove_found sys doc d none = (d, ok (mutation_from doc false))
remove_found sys doc d (some ms) = replace_locked sys ms d

abbrev pub remove_owned :
    System → Str → Option LiveOwner → Document → Disk → Disk × Result Error Mutation
remove_owned sys dir (some owner) doc d = (d, err (stop_required dir owner))
remove_owned sys dir none doc d = remove_found sys doc d (drop_row dir (items doc.members))

abbrev pub remove_read :
    System → Str → LiveOwnership → Disk → Result Error Document → Disk × Result Error Mutation
remove_read sys dir live d (err e) = (d, err e)
remove_read sys dir live d (ok doc) = remove_owned sys dir (live dir) doc d

unfoldable pub remove : System → Str → LiveOwnership → Disk → Disk × Result Error Mutation
remove sys dir live d =
    when_valid (validate_canonical_config_dir dir) d
      (remove_read sys dir live d (read_locked d.file))
