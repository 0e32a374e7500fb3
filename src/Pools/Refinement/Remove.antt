-- ===== src/Pools/Refinement/Remove.antt =====
-- `Remove` meets its contract (cli/internal/jvmpool/registry.go).
use millstrand.Base.{
  Str, str_eq, str_eq→eq, ◌≡◌, refl, ◌∙◌, inl, inr, Bool-cases, Option, none, some, List, Result,
  ok, err,
}
use millstrand.Pools.Membership.{
  Member, Document, LiveOwner, LiveOwnership, Error, stop_required, items,
  validate_canonical_config_dir,
}
use millstrand.Pools.Rows.{find, Ascending-Distinct}
use millstrand.Pools.Store.{Disk, System, Mutation, read_locked}
use millstrand.Pools.Registry.{when_valid, remove_found, remove_owned, remove_read, remove}
use millstrand.Pools.Validity.{IsMember}
use millstrand.Pools.Updates.{
  without, left_without, drop_row_lem, find-without, Distinct-without, All-without,
}
use millstrand.Pools.Outcomes.{row, read_locked-rows, replace_locked_lem}
use millstrand.Pools.Refinement.{Contract, refusal, unchanged, delete, row_of_read, replaced}

module _ (sys : System) (gone : Str) (d : Disk) (doc : Document)
    (reads : read_locked d.file ≡ ok doc) where
  abbrev kept : List Member
  kept = without gone (items doc.members)

  abbrev leaving : Option Member → Disk × Result Error Mutation
  leaving o = remove_found sys doc d (left_without kept o)

  dropped :
      (o : Option Member)
      → find gone (items doc.members) ≡ o
      → Contract (delete gone (row d.file)) d.file (leaving o).0.file (leaving o).1
  dropped none h =
      unchanged doc reads refl
        (λ dir. elim (Bool-cases (str_eq gone dir)) [
          | inl q ↦ rw q (row_of_read d.file doc dir reads ∙ rw (← str_eq→eq gone dir q) h)
          | inr q ↦ rw q refl
        ])
        refl
  dropped (some m) h =
      let sorted = read_locked-rows d.file doc reads in
      let n = Ascending-Distinct (items doc.members) sorted.1 in
      replaced _ kept _ _ _ (Distinct-without gone (items doc.members) n)
        (λ dir.
          find-without gone dir (items doc.members) n ∙ rw (row_of_read d.file doc dir reads) refl)
        (replace_locked_lem sys kept d (All-without IsMember gone (items doc.members) sorted.0)
          (Distinct-without gone (items doc.members) n))

  removed :
      (owner : Option LiveOwner)
      → Contract
          (delete gone (row d.file))
          d.file
          (remove_owned sys gone owner doc d).0.file
          (remove_owned sys gone owner doc d).1
  removed (some w) = refusal (stop_required gone w) refl refl
  removed none =
      rw (drop_row_lem gone (items doc.members)) (dropped (find gone (items doc.members)) refl)

remove_after_read :
    (sys : System) (gone : Str) (live : LiveOwnership) (d : Disk) (r : Result Error Document)
    → read_locked d.file ≡ r
    → Contract
        (delete gone (row d.file))
        d.file
        (remove_read sys gone live d r).0.file
        (remove_read sys gone live d r).1
remove_after_read sys gone live d (err e) h = refusal e refl refl
remove_after_read sys gone live d (ok doc) h = removed sys gone d doc h (live gone)

-- Whatever the disk, the live hosts and the system do, `remove` either refuses and keeps the file,
-- or the file holds a readable registry in which the directory has no row and every other row is
-- as it was.
pub remove-Contract :
    (sys : System) (gone : Str) (live : LiveOwnership) (d : Disk)
    → Contract
        (delete gone (row d.file))
        d.file
        (remove sys gone live d).0.file
        (remove sys gone live d).1
unfolding remove
remove-Contract sys gone live d = valid (validate_canonical_config_dir gone)
  where
    valid :
        (v : Result Error (Unit {0}))
        → Contract
            (delete gone (row d.file))
            d.file
            (when_valid v d (remove_read sys gone live d (read_locked d.file))).0.file
            (when_valid v d (remove_read sys gone live d (read_locked d.file))).1
    valid (err e) = refusal e refl refl
    valid (ok u) = remove_after_read sys gone live d (read_locked d.file) refl
