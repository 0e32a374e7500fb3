-- ===== src/Pools/Outcomes.antt =====
-- How a replacement of the membership file can end (cli/internal/jvmpool/registry.go).
use millstrand.Base.{
  ℕ, Str, has_prefix, has_prefix-append, ◌≡◌, refl, ◌⊎◌, inl, inr, true, Bool-cases, Option, none,
  some, List, Result, ok, err, >>=-eq-ok, ok-injective, arith,
}
use millstrand.Pools.Membership.{
  Member, Document, WriteStep, Error, write_failed, membership_format, revision_prefix, items,
  validate_document,
}
use millstrand.Pools.Rows.{find, All, Distinct, Ascending, All-sort, sort-Ascending}
use millstrand.Pools.Store.{
  File, absent, unreadable, undecodable, trailing, holds, Disk, System, Mutation, mutation_from,
  read_locked, sort_members, new_revision, atomic_write, with_mutation, replace_with,
  replace_locked,
}
use millstrand.Pools.Validity.{
  IsMember, IsValid, validate_document_sound, validate_document_complete,
}
use millstrand.Pools.Writes.{is_late, file_after, atomic_write-file}

abbrev found_in : Str → Result Error Document → Option Member
found_in dir (ok doc) = find dir (items doc.members)
found_in dir (err _) = none

-- The registry as a finite map from config directories to rows.
unfoldable pub row : File → Str → Option Member
row file dir = found_in dir (read_locked file)

abbrev pub IsReadable : File → Type 0
IsReadable file = (doc : Document) × (read_locked file ≡ ok doc)

pub read_locked-rows :
    (file : File) (doc : Document)
    → read_locked file ≡ ok doc
    → All IsMember (items doc.members) × Ascending (items doc.members)
unfolding read_locked
read_locked-rows absent doc h = rw (← ok-injective h) (tt, tt)
read_locked-rows (holds stored) doc h =
    let (u, valid, e) = >>=-eq-ok (validate_document stored true) _ h in
    let v = validate_document_sound stored valid in rw (← ok-injective e) (v.rows, v.ascending)
read_locked-rows unreadable doc h = cc
read_locked-rows undecodable doc h = cc
read_locked-rows trailing doc h = cc

pub read_locked-holds : (doc : Document) → IsValid doc → read_locked (holds doc) ≡ ok doc
unfolding read_locked
read_locked-holds doc v = rw (validate_document_complete doc v)

-- The result of a call whose new document is in place.
abbrev pub Lands : Document → Result Error Mutation → Type 0
Lands doc r =
    (r ≡ ok (mutation_from doc true))
    ⊎ ((s : WriteStep) × (is_late s ≡ true) × (r ≡ err (write_failed s)))

pub data Replaced (ms : List Member) (old new : File) (r : Result Error Mutation) : Type 0 where
  refused : (e : Error) → r ≡ err e → new ≡ old → Replaced ms old new r
  landed :
      (doc : Document)
      → IsValid doc
      → doc.members ≡ some (sort_members ms)
      → new ≡ holds doc
      → Lands doc r
      → Replaced ms old new r

pub new_revision-prefix :
    (random : Option (List ℕ)) (revision : Str)
    → new_revision random ≡ ok revision
    → has_prefix revision revision_prefix ≡ true
unfolding new_revision
new_revision-prefix none revision h = cc
new_revision-prefix (some raw) revision h =
    rw (← ok-injective h) (has_prefix-append revision_prefix _)

module _ (sys : System) (ms : List Member) (d : Disk) where
  abbrev drafted : Str → Document
  drafted revision = record {
    format = membership_format;
    revision = revision;
    members = some (sort_members ms);
  }

  drafted-IsValid :
      (revision : Str)
      → has_prefix revision revision_prefix ≡ true
      → All IsMember ms
      → Distinct ms
      → IsValid (drafted revision)
  drafted-IsValid revision p v n = record {
    named = refl;
    revised = p;
    array = λ e. cc;
    rows = All-sort IsMember ms v;
    ascending = sort-Ascending ms n;
  }

  ended :
      (doc : Document) (p : Disk × Result Error (Unit {0}))
      → IsValid doc
      → doc.members ≡ some (sort_members ms)
      → p.0.file ≡ file_after doc d.file p.1
      → Replaced ms d.file (with_mutation doc p).0.file (with_mutation doc p).1
  unfolding file_after
  ended doc (d', ok u) v m e = landed doc v m e (inl refl)
  ended doc (d', err (write_failed s)) v m e = elim (Bool-cases (is_late s)) [
    | inl l ↦ landed doc v m (ground arith) (inr (s, l, refl))
    | inr l ↦ refused (write_failed s) refl (ground arith)
  ]
  ended doc (d', err x) v m e = refused x refl e

  revised :
      (r : Result Error Str)
      → ((revision : Str) → r ≡ ok revision → has_prefix revision revision_prefix ≡ true)
      → All IsMember ms
      → Distinct ms
      → Replaced ms d.file
          (replace_with sys (sort_members ms) d r).0.file
          (replace_with sys (sort_members ms) d r).1
  revised (err e) p v n = refused e refl refl
  revised (ok revision) p v n =
      ended (drafted revision) (atomic_write sys (drafted revision) d)
        (drafted-IsValid revision (p revision refl) v n) refl
        (atomic_write-file sys (drafted revision) d)

  -- A replacement either leaves the file, with an error, or puts the sorted rows in place.
  pub replace_locked_lem :
      All IsMember ms
      → Distinct ms
      → Replaced ms d.file (replace_locked sys ms d).0.file (replace_locked sys ms d).1
  unfolding replace_locked
  replace_locked_lem v n =
      revised (new_revision sys.random) (λ revision e. new_revision-prefix sys.random revision e) v
        n
