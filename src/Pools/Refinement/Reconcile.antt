-- ===== src/Pools/Refinement/Reconcile.antt =====
-- `Reconcile` meets its contract (cli/internal/jvmpool/registry.go).
use millstrand.Base.{
  str_eq, str_eq→eq, ◌≡◌, refl, ◌∙◌, ap, inl, inr, true, false, Bool-cases, Option, none, some,
  List, [], ◌∷◌, ◌++◌, Result, ok, err,
}
use millstrand.Pools.Membership.{
  Member, Document, LiveOwner, LiveOwnership, Error, stop_required, items, validate_member,
}
use millstrand.Pools.Rows.{find, Distinct, Ascending-Distinct}
use millstrand.Pools.Store.{Disk, System, Mutation, mutation_from, read_locked, replace_locked}
use millstrand.Pools.Registry.{
  member_eq, find_row, reconcile_found, reconcile_read, when_valid, reconcile,
}
use millstrand.Pools.Validity.{IsMember}
use millstrand.Pools.Updates.{
  replace_row, judge, find_row_lem, find-replace_row, find-append, Distinct-replace_row,
  Distinct-append, All-replace_row, All-append, member_eq→eq,
}
use millstrand.Pools.Outcomes.{row, read_locked-rows, replace_locked_lem}
use millstrand.Pools.Refinement.{Contract, refusal, unchanged, put, row_of_read, replaced}

module _ (sys : System) (member : Member) (d : Disk) (doc : Document)
    (reads : read_locked d.file ≡ ok doc) (good : IsMember member) where
  abbrev listed : List Member
  listed = items doc.members

  distinct : Distinct listed
  distinct = Ascending-Distinct listed (read_locked-rows d.file doc reads).1

  appended :
      find member.config_dir listed ≡ none
      → Contract
          (put member (row d.file))
          d.file
          (replace_locked sys (listed ++ member ∷ []) d).0.file
          (replace_locked sys (listed ++ member ∷ []) d).1
  appended none_there =
      replaced _ (listed ++ member ∷ []) _ _ _ (Distinct-append listed member none_there distinct)
        (λ dir.
          find-append dir listed member none_there ∙ rw (row_of_read d.file doc dir reads) refl)
        (replace_locked_lem sys (listed ++ member ∷ []) d
          (All-append IsMember listed member good (read_locked-rows d.file doc reads).0)
          (Distinct-append listed member none_there distinct))

  changed :
      (current : Member)
      → find member.config_dir listed ≡ some current
      → Contract
          (put member (row d.file))
          d.file
          (replace_locked sys (replace_row member listed) d).0.file
          (replace_locked sys (replace_row member listed) d).1
  changed current there =
      replaced _ (replace_row member listed) _ _ _
        (Distinct-replace_row member current listed there distinct)
        (λ dir.
          find-replace_row member current listed dir there
          ∙ rw (row_of_read d.file doc dir reads) refl)
        (replace_locked_lem sys (replace_row member listed) d
          (All-replace_row IsMember member listed good (read_locked-rows d.file doc reads).0)
          (Distinct-replace_row member current listed there distinct))

  settled :
      (current : Member)
      → find member.config_dir listed ≡ some current
      → member_eq current member ≡ true
      → Contract (put member (row d.file)) d.file d.file (ok (mutation_from doc false))
  settled current there e =
      unchanged doc reads refl
        (λ dir. elim (Bool-cases (str_eq member.config_dir dir)) [
          | inl q ↦ rw q (
              row_of_read d.file doc dir reads
              ∙ rw (← str_eq→eq member.config_dir dir q) there
              ∙ ap some (member_eq→eq current member e))
          | inr q ↦ rw q refl
        ])
        refl

  -- `Reconcile` once the loop has judged the row.
  abbrev ending : Option LiveOwner → Option Member → Disk × Result Error Mutation
  ending owner o =
      reconcile_found sys owner member doc d (judge owner member (replace_row member listed) o)

  judged :
      (owner : Option LiveOwner) (o : Option Member)
      → find member.config_dir listed ≡ o
      → Contract (put member (row d.file)) d.file (ending owner o).0.file (ending owner o).1
  judged none none h = appended h
  judged (some w) none h = elim (Bool-cases (str_eq w.pool member.jvm_pool)) [
    | inl p ↦ rw p (appended h)
    | inr p ↦ rw p (refusal (stop_required member.config_dir w) refl refl)
  ]
  judged none (some current) h = elim (Bool-cases (member_eq current member)) [
    | inl p ↦ rw p (settled current h p)
    | inr p ↦ rw p (changed current h)
  ]
  judged (some w) (some current) h = elim (Bool-cases (str_eq w.pool member.jvm_pool)) [
    | inl p ↦ elim (Bool-cases (str_eq current.jvm_pool w.pool)) [
      | inl q ↦ elim (Bool-cases (member_eq current member)) [
        | inl e ↦ rw (p, q, e) (settled current h e)
        | inr e ↦ rw (p, q, e) (changed current h)
      ]
      | inr q ↦ rw (p, q) (refusal (stop_required member.config_dir w) refl refl)
    ]
    | inr p ↦ rw p (refusal (stop_required member.config_dir w) refl refl)
  ]

  reconciled :
      (owner : Option LiveOwner)
      → Contract
          (put member (row d.file))
          d.file
          (reconcile_found sys owner member doc d (find_row owner member listed)).0.file
          (reconcile_found sys owner member doc d (find_row owner member listed)).1
  reconciled owner =
      rw (find_row_lem owner member listed) (judged owner (find member.config_dir listed) refl)

reconcile_after_read :
    (sys : System) (member : Member) (live : LiveOwnership) (d : Disk) (r : Result Error Document)
    → read_locked d.file ≡ r
    → IsMember member
    → Contract
        (put member (row d.file))
        d.file
        (reconcile_read sys member live d r).0.file
        (reconcile_read sys member live d r).1
reconcile_after_read sys member live d (err e) h v = refusal e refl refl
reconcile_after_read sys member live d (ok doc) h v =
    reconciled sys member d doc h v (live member.config_dir)

-- Whatever the disk, the live hosts and the system do, `reconcile` either refuses and keeps the
-- file, or the file holds a readable registry in which the member's directory has the member as
-- its row and every other row is as it was.
pub reconcile-Contract :
    (sys : System) (member : Member) (live : LiveOwnership) (d : Disk)
    → Contract
        (put member (row d.file))
        d.file
        (reconcile sys member live d).0.file
        (reconcile sys member live d).1
unfolding reconcile
reconcile-Contract sys member live d = valid (validate_member member) refl
  where
    valid :
        (v : Result Error (Unit {0}))
        → validate_member member ≡ v
        → Contract
            (put member (row d.file))
            d.file
            (when_valid v d (reconcile_read sys member live d (read_locked d.file))).0.file
            (when_valid v d (reconcile_read sys member live d (read_locked d.file))).1
    valid (err e) h = refusal e refl refl
    valid (ok u) h = reconcile_after_read sys member live d (read_locked d.file) refl h
