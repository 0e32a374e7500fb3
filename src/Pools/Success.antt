-- ===== src/Pools/Success.antt =====
-- When a change of membership succeeds (cli/internal/jvmpool/registry.go).
use millstrand.Base.{
  text, ℕ, ◌≡◌, refl, sym, ap, ◌∙◌, Bool, true, false, Option, some, List, [], ◌∷◌, ◌++◌, Result,
  ok, err, arith,
}
use millstrand.Pools.Membership.{Member, Document, LiveOwner, LiveOwnership, Error, items}
use millstrand.Pools.Rows.{find}
use millstrand.Pools.Store.{
  Disk, System, Mutation, read_locked, new_revision, atomic_write, replace_locked,
}
use millstrand.Pools.Registry.{reconcile_found, reconcile}
use millstrand.Pools.Validity.{IsMember}
use millstrand.Pools.Updates.{replace_row, judge, find_row_lem}
use millstrand.Pools.Outcomes.{row}
use millstrand.Pools.Refinement.{row_of_read}
use millstrand.Pools.Ownership.{blocks}

abbrev pub is_ok : Result Error Mutation → Bool
is_ok (ok _) = true
is_ok (err _) = false

-- A system that gives random bytes and fails at no step.
abbrev pub healthy : List ℕ → System
healthy raw = record { random = some raw; temporary = text "new"; fails = λ s. false }

replace_locked-healthy :
    (raw : List ℕ) (ms : List Member) (d : Disk)
    → is_ok (replace_locked (healthy raw) ms d).1 ≡ true
unfolding replace_locked new_revision atomic_write
replace_locked-healthy raw ms d = refl

judge-healthy :
    (raw : List ℕ) (owner : Option LiveOwner) (member : Member) (doc : Document) (d : Disk)
    (ms : List Member) (o : Option Member)
    → blocks owner member o ≡ false
    → is_ok (reconcile_found (healthy raw) owner member doc d (judge owner member ms o)).1 ≡ true
unfolding blocks
judge-healthy raw owner member doc d ms o h = ground (
  arith,
  replace_locked-healthy raw ms d,
  replace_locked-healthy raw (items doc.members ++ member ∷ []) d,
)

-- A valid member that no live host blocks is registered, if the registry can be read and the
-- system does its part.
reconcile-healthy :
    (raw : List ℕ) (member : Member) (live : LiveOwnership) (d : Disk) (doc : Document)
    → IsMember member
    → read_locked d.file ≡ ok doc
    → blocks (live member.config_dir) member (row d.file member.config_dir) ≡ false
    → is_ok (reconcile (healthy raw) member live d).1 ≡ true
unfolding reconcile
reconcile-healthy raw member live d doc v reads h =
    rw (v, reads, find_row_lem (live member.config_dir) member (items doc.members))
      (judge-healthy raw (live member.config_dir) member doc d
        (replace_row member (items doc.members)) (find member.config_dir (items doc.members))
        (ap (blocks (live member.config_dir) member)
            (sym (row_of_read d.file doc member.config_dir reads))
          ∙ h))
