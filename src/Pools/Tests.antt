-- ===== src/Pools/Tests.antt =====
-- Runs of the registry on a small disk, and each theorem at a concrete input.
use millstrand.Base.{
  is_abs, Option, Bool-cases, some_cancel, str_eq→eq, inl, inr, ℕ, Str, text, str_eq, str_lt,
  has_prefix, is_blank, clean, take, drop, any, keep_if, ◌≡◌, refl, ◌↔◌, true, false, none, some,
  List, [], ◌∷◌, if◌then◌else◌, ok, err, has,
}
use millstrand.Pools.Membership.{
  Member, Document, LiveOwner, LiveOwnership, WriteStep, close_file, remove_temporary,
  sync_directory, Error, write_failed, stop_required, membership_format, items,
  validate_canonical_path, validate_canonical_config_dir, validate_pool_name, validate_member,
  check_rows, check_sorted, validate_document,
}
use millstrand.Pools.Rows.{find, All}
use millstrand.Pools.Store.{
  absent, holds, Disk, System, run_steps, empty_document, read_locked, sort_members, new_revision,
  atomic_write, mutation_from, replace_locked,
}
use millstrand.Pools.Registry.{
  PoolSnapshot, pool_rows, snapshot, Resolver, validate_pool, find_row, reconcile, remove,
}
use millstrand.Pools.Writes.{file_after, temporaries_after, atomic_write_lem}
use millstrand.Pools.Outcomes.{row, IsReadable}
use millstrand.Pools.Refinement.{Contract, put, delete}
use millstrand.Pools.Refinement.Reconcile.{reconcile-Contract}
use millstrand.Pools.Refinement.Remove.{remove-Contract}
use millstrand.Pools.Ownership.{
  is_stop, blocks, is_stop-reconcile, IsConsistent, reconcile-IsConsistent,
}
use millstrand.Pools.Repeats.{reconciling, removing, run, run-IsReadable, reconcile-reconcile}
use millstrand.Pools.Success.{healthy}
use millstrand.Pools.Snapshots.{Conforms, validate_pool_iff}

abbrev alpha : Member
alpha = record { config_dir = text "/w/a"; source_cwd = text "/w"; jvm_pool = text "one" }

abbrev beta : Member
beta = record { config_dir = text "/w/b"; source_cwd = text "/w"; jvm_pool = text "two" }

abbrev raw : List ℕ
raw = 0 ∷ 1 ∷ 2 ∷ 3 ∷ 4 ∷ 5 ∷ 255 ∷ 7 ∷ 255 ∷ 9 ∷ 10 ∷ 11 ∷ 12 ∷ 13 ∷ 14 ∷ 15 ∷ []

abbrev fresh : Disk
fresh = record { file = absent; temporaries = [] }

abbrev nobody : LiveOwnership
nobody dir = none

abbrev one_host : LiveOwner
one_host = record { pool = text "one"; host_id = text "h" }

abbrev hosted : LiveOwnership
hosted dir = if str_eq dir (text "/w/a") then some one_host else none

abbrev revision : Str
revision = text "membership-00010203-0405-4f07-bf09-0a0b0c0d0e0f"

abbrev stored : List Member → Document
stored ms = record { format = membership_format; revision = revision; members = some ms }

abbrev full : Disk
full = record { file = holds (stored (alpha ∷ beta ∷ [])); temporaries = [] }

new_revision-raw : new_revision (some raw) ≡ ok revision
unfolding new_revision take drop
new_revision-raw = refl

alpha-valid : validate_member alpha ≡ ok tt
unfolding validate_member validate_canonical_config_dir validate_pool_name clean is_blank
alpha-valid = refl

relative :
    validate_canonical_config_dir (text "w/../a")
    ≡ err (Error.bad_path millstrand.Pools.Membership.config_dir_label (text "w/../a"))
unfolding validate_canonical_config_dir clean
relative = refl

clean_paths :
    (clean (text "/w//a/./b/..") ≡ text "/w/a")
    × (clean (text "../../a/..") ≡ text "../..")
    × (clean (text "/..") ≡ text "/")
    × (clean [] ≡ text ".")
unfolding clean
clean_paths = (refl, refl, refl, refl)

full-reads : read_locked full.file ≡ ok (stored (alpha ∷ beta ∷ []))
unfolding read_locked validate_document check_rows check_sorted validate_member
    validate_canonical_config_dir validate_pool_name clean is_blank str_lt has_prefix any
full-reads = refl

fresh-reads : read_locked absent ≡ ok empty_document
unfolding read_locked
fresh-reads = refl

registered :
    (reconcile (healthy raw) alpha nobody fresh).0
    ≡ record { file = holds (stored (alpha ∷ [])); temporaries = [] }
unfolding reconcile read_locked find_row replace_locked sort_members new_revision atomic_write take
    drop validate_member validate_canonical_config_dir validate_pool_name clean is_blank
registered = refl

registered_ok :
    (reconcile (healthy raw) alpha nobody fresh).1 ≡ ok (mutation_from (stored (alpha ∷ [])) true)
unfolding reconcile read_locked find_row replace_locked sort_members new_revision atomic_write take
    drop validate_member validate_canonical_config_dir validate_pool_name clean is_blank
registered_ok = refl

-- The old temporary file stays, and the one of a write that fails and cannot clean up.
abbrev littered : Disk
littered = record full { temporaries = text "old" ∷ [] }

abbrev failing : System
failing = record {
  random = some raw;
  temporary = text "new";
  fails = λ s. elim s [ close_file ↦ true | remove_temporary ↦ true | _ ↦ false ];
}

atomic_write-failing :
    (atomic_write failing (stored []) littered).0
    ≡ record littered { temporaries = text "new" ∷ text "old" ∷ [] }
unfolding atomic_write run_steps
atomic_write-failing = refl

atomic_write_lem_example : (atomic_write failing (stored []) littered).0 ≡ record {
  file = file_after (stored []) littered.file (atomic_write failing (stored []) littered).1;
  temporaries =
      temporaries_after failing littered.temporaries (atomic_write failing (stored []) littered).1;
}
unfolding has str_eq
atomic_write_lem_example = atomic_write_lem failing (stored []) littered refl

reconcile-Contract_example :
    Contract
      (put alpha (row fresh.file))
      fresh.file
      (reconcile (healthy raw) alpha nobody fresh).0.file
      (reconcile (healthy raw) alpha nobody fresh).1
reconcile-Contract_example = reconcile-Contract (healthy raw) alpha nobody fresh

remove-Contract_example :
    Contract
      (delete (text "/w/b") (row full.file))
      full.file
      (remove (healthy raw) (text "/w/b") hosted full).0.file
      (remove (healthy raw) (text "/w/b") hosted full).1
remove-Contract_example = remove-Contract (healthy raw) (text "/w/b") hosted full

run-IsReadable_example :
    IsReadable
      (run
        (reconciling (healthy raw) beta hosted ∷ removing (healthy raw) (text "/w/a") nobody ∷ [])
        fresh).file
run-IsReadable_example =
    run-IsReadable
      (reconciling (healthy raw) beta hosted ∷ removing (healthy raw) (text "/w/a") nobody ∷ [])
      fresh (empty_document, fresh-reads)

abbrev moved : Member
moved = record alpha { jvm_pool = text "two" }

moved-valid : validate_member moved ≡ ok tt
unfolding validate_member validate_canonical_config_dir validate_pool_name clean is_blank
moved-valid = refl

is_stop-reconcile_example :
    is_stop (reconcile (healthy raw) moved hosted full).1
    ≡ blocks (hosted (text "/w/a")) moved (row full.file (text "/w/a"))
is_stop-reconcile_example =
    is_stop-reconcile (healthy raw) moved hosted full (stored (alpha ∷ beta ∷ [])) moved-valid
      full-reads

moved_blocked : blocks (hosted (text "/w/a")) moved (row full.file (text "/w/a")) ≡ true
unfolding blocks str_eq
moved_blocked = refl

canonical : validate_canonical_config_dir (text "/w/a") ≡ ok tt
unfolding validate_canonical_config_dir clean
canonical = refl

no_host : {w : LiveOwner} → ◌≡◌ {A = Option LiveOwner} none (some w) → ⊥
no_host q = cc

-- The host of the one workspace serves the pool that the workspace is registered for.
consistent : IsConsistent hosted full.file
unfolding row read_locked validate_document find str_eq has_prefix check_rows validate_member
    validate_canonical_config_dir is_abs clean validate_pool_name is_blank any check_sorted str_lt
consistent = record {
  at = λ dir w m owned there. elim (Bool-cases (str_eq dir (text "/w/a"))) [
    | inl e ↦
        let here_a = str_eq→eq dir (text "/w/a") e in
        let member : alpha ≡ m = some_cancel (rw here_a at there) in
        let host : one_host ≡ w = some_cancel (rw here_a at owned) in rw (← member, ← host) refl
    | inr e ↦ elim (no_host (rw e at owned)) [ ]
  ];
}

reconcile-IsConsistent_example :
    IsConsistent hosted (reconcile (healthy raw) alpha hosted full).0.file
reconcile-IsConsistent_example = reconcile-IsConsistent (healthy raw) alpha hosted full consistent

reconcile-reconcile_example :
    reconcile (healthy []) alpha nobody (reconcile (healthy raw) alpha nobody fresh).0 ≡ (
      (reconcile (healthy raw) alpha nobody fresh).0,
      ok (record { changed = false; revision = revision; members = alpha ∷ [] }),
    )
reconcile-reconcile_example =
    reconcile-reconcile (healthy raw) (healthy []) alpha nobody fresh
      (record { changed = true; revision = revision; members = alpha ∷ [] })
      (unfold mutation_from in registered_ok)

free : blocks (nobody (text "/w/a")) alpha (row fresh.file (text "/w/a")) ≡ false
unfolding blocks
free = refl

abbrev configs : Resolver
configs dir =
    some (record { config_dir = []; source_cwd = text "/w"; jvm_pool = some (text "one") })

abbrev ones : PoolSnapshot
ones = record { pool = text "one"; revision = revision; members = alpha ∷ [] }

ones_taken : snapshot (text "one") full ≡ ok ones
unfolding snapshot pool_rows keep_if read_locked validate_document check_rows check_sorted
    validate_member validate_canonical_config_dir validate_pool_name clean is_blank str_lt
    has_prefix any
ones_taken = refl

validate_pool_iff_example :
    (validate_pool (text "one") (some configs) full ≡ ok ones)
    ↔ ((snapshot (text "one") full ≡ ok ones) × All (Conforms configs) (alpha ∷ []))
validate_pool_iff_example = validate_pool_iff (text "one") configs full ones
