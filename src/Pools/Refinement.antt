-- ===== src/Pools/Refinement.antt =====
-- `Reconcile` and `Remove` against a finite map (cli/internal/jvmpool/registry.go).
pub mod Reconcile
pub mod Remove
use millstrand.Base.{
  Str, str_eq, str_eq→eq, ◌≡◌, refl, sym, ◌∙◌, ap, ◌⊎◌, inl, inr, Bool, true, false, Bool-cases,
  Option, none, some, List, [], ◌∷◌, ◌++◌, if◌then◌else◌, Option-cases, Result, ok, err,
  ok-injective, arith,
}
use millstrand.Pools.Membership.{
  Member, Document, LiveOwner, LiveOwnership, Error, stop_required, items, validate_member,
  validate_canonical_config_dir,
}
use millstrand.Pools.Rows.{find, All, Distinct, Ascending-Distinct, find-sort}
use millstrand.Pools.Store.{
  File, holds, Disk, System, Mutation, mutation_from, read_locked, sort_members, replace_locked,
}
use millstrand.Pools.Registry.{
  Found, missing, same, blocked, updated, meet, member_eq, find_row, drop_row, add_row,
  reconcile_found, reconcile_read, when_valid, reconcile, remove_found, remove_owned, remove_read,
  remove,
}
use millstrand.Pools.Validity.{IsMember, IsValid}
use millstrand.Pools.Updates.{
  replace_row, without, judge, find_row_lem, left_without, drop_row_lem, find-replace_row,
  find-without, find-append, Distinct-replace_row, Distinct-without, Distinct-append,
  All-replace_row, All-without, All-append, member_eq→eq,
}
use millstrand.Pools.Outcomes.{
  row, IsReadable, read_locked-rows, read_locked-holds, Lands, Replaced, refused, landed,
  replace_locked_lem,
}

-- The abstract registry: at most one row for each config directory.
abbrev pub Registry : Type 0
Registry = Str → Option Member

abbrev pub put : Member → Registry → Registry
put member registry dir = if str_eq member.config_dir dir then some member else registry dir

abbrev pub delete : Str → Registry → Registry
delete gone registry dir = if str_eq gone dir then none else registry dir

-- How a call that is to turn the registry into `goal` may end. A refusal keeps the file; an
-- unchanged result means that the file shows `goal` already; otherwise the new document shows it,
-- and the call succeeded or failed in a step after the rename.
pub data Contract (goal : Registry) (old new : File) (r : Result Error Mutation) : Type 0 where
  refusal : (e : Error) → r ≡ err e → new ≡ old → Contract goal old new r
  unchanged :
      (doc : Document)
      → read_locked old ≡ ok doc
      → new ≡ old
      → ((dir : Str) → row old dir ≡ goal dir)
      → r ≡ ok (mutation_from doc false)
      → Contract goal old new r
  written :
      (doc : Document)
      → read_locked new ≡ ok doc
      → ((dir : Str) → row new dir ≡ goal dir)
      → Lands doc r
      → Contract goal old new r

pub row_of_read :
    (file : File) (doc : Document) (dir : Str)
    → read_locked file ≡ ok doc
    → row file dir ≡ find dir (items doc.members)
unfolding row
row_of_read file doc dir h = rw h

-- A replacement by rows that show the goal meets the contract.
pub replaced :
    (goal : Registry) (ms : List Member) (old new : File) (r : Result Error Mutation)
    → Distinct ms
    → ((dir : Str) → find dir ms ≡ goal dir)
    → Replaced ms old new r
    → Contract goal old new r
replaced goal ms old new r n shows (refused e h k) = refusal e h k
replaced goal ms old new r n shows (landed doc v m k l) =
    let reads : read_locked new ≡ ok doc = rw k (read_locked-holds doc v) in
    written doc reads
      (λ dir.
        row_of_read new doc dir reads
        ∙ ap (λ o. find dir (items o)) m
        ∙ find-sort dir ms n
        ∙ shows dir)
      l
