-- ===== src/Pools/Writes.antt =====
-- What one replacement of the membership file leaves behind (cli/internal/jvmpool/registry.go).
use millstrand.Base.{
  Str, str_eq_refl, has, List, [], ◌∷◌, ◌&&◌, refl, ◌≡◌, Bool, true, false, if◌then◌else◌, Result,
  ok, err, arith,
}
use millstrand.Pools.Membership.{
  Document, WriteStep, change_mode, write_bytes, sync_file, close_file, rename, open_directory,
  sync_directory, remove_temporary, Error, write_failed,
}
use millstrand.Pools.Store.{File, holds, Disk, System, drop_name, run_steps, atomic_write}

-- The steps after the rename: when they fail, the new file is in place already.
unfoldable pub is_late : WriteStep → Bool
is_late open_directory = true
is_late sync_directory = true
is_late _ = false

-- The file that a call which ended in `r` leaves, if it set out to write `doc` over `old`.
unfoldable pub file_after : {A : Type 0} → Document → File → Result Error A → File
unfolding is_late
file_after doc old (ok _) = holds doc
file_after doc old (err (write_failed s)) = if is_late s then holds doc else old
file_after doc old (err _) = old

pub atomic_write-file :
    (sys : System) (doc : Document) (d : Disk)
    → (atomic_write sys doc d).0.file ≡ file_after doc d.file (atomic_write sys doc d).1
unfolding atomic_write file_after run_steps
atomic_write-file sys doc d = ground arith

-- The steps after the creation of the temporary file and up to its renaming.
unfoldable pub is_between : WriteStep → Bool
is_between change_mode = true
is_between write_bytes = true
is_between sync_file = true
is_between close_file = true
is_between rename = true
is_between _ = false

-- The temporary files that a write which ended in `r` leaves: its own is one of them only if the
-- write failed while it was there and it could not be removed.
unfoldable pub temporaries_after : System → List Str → Result Error (Unit {0}) → List Str
unfolding is_between
temporaries_after sys old (err (write_failed s)) =
    if is_between s && sys.fails remove_temporary then sys.temporary ∷ old else old
temporaries_after sys old _ = old

drop_name-fresh :
    (name : Str) (names : List Str) → has name names ≡ false → drop_name name names ≡ names
unfolding has
drop_name-fresh name [] h = refl
drop_name-fresh name (x ∷ xs) h =
    let rest = drop_name-fresh name xs (ground arith) in ground (arith, rest)

-- A write under a fresh temporary name leaves the new document if it succeeds or fails after the
-- rename, and the old file if it fails at an earlier step. It leaves the temporary files that
-- there were, and its own besides only if it fails between the creation and the rename and the
-- deferred removal fails too.
pub atomic_write_lem :
    (sys : System) (doc : Document) (d : Disk)
    → has sys.temporary d.temporaries ≡ false
    → (atomic_write sys doc d).0 ≡ record {
      file = file_after doc d.file (atomic_write sys doc d).1;
      temporaries = temporaries_after sys d.temporaries (atomic_write sys doc d).1;
    }
unfolding atomic_write file_after temporaries_after run_steps
atomic_write_lem sys doc d unused =
    let kept = drop_name-fresh sys.temporary d.temporaries unused in
    let same = str_eq_refl sys.temporary in ground (arith, kept, same)
