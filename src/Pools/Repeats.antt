-- ===== src/Pools/Repeats.antt =====
-- Calls made again, and sequences of calls (cli/internal/jvmpool/registry.go).
use millstrand.Base.{
  Str, str_eq_iff, str_eq_refl, ◌≡◌, refl, sym, ◌∙◌, false, Option, none, some, List, [], ◌∷◌,
  Result, ok, err, arith,
}
use millstrand.Pools.Membership.{
  Member, Document, LiveOwner, LiveOwnership, Error, items, validate_member,
}
use millstrand.Pools.Store.{File, Disk, System, Mutation, mutation_from, read_locked}
use millstrand.Pools.Registry.{reconcile_found, reconcile_read, when_valid, reconcile, remove}
use millstrand.Pools.Validity.{IsMember}
use millstrand.Pools.Updates.{replace_row, judge, find_row_lem, member_eq_refl}
use millstrand.Pools.Outcomes.{row, IsReadable}
use millstrand.Pools.Refinement.{Contract, refusal, unchanged, written, put, row_of_read}
use millstrand.Pools.Refinement.Reconcile.{reconcile-Contract}
use millstrand.Pools.Refinement.Remove.{remove-Contract}
use millstrand.Pools.Ownership.{is_stop, blocks, is_stop-reconcile}

-- The member stands registered and no live host is in the way.
record Settled (live : LiveOwnership) (member : Member) (file : File) (doc : Document)
    : Type 0 where
  valid : IsMember member
  reads : read_locked file ≡ ok doc
  registered : row file member.config_dir ≡ some member
  free : blocks (live member.config_dir) member (some member) ≡ false

settled_found :
    (sys : System) (owner : Option LiveOwner) (member : Member) (doc : Document) (d : Disk)
    (ms : List Member)
    → blocks owner member (some member) ≡ false
    → reconcile_found sys owner member doc d (judge owner member ms (some member))
      ≡ (d, ok (mutation_from doc false))
unfolding blocks
settled_found sys owner member doc d ms h = ground (arith, member_eq_refl member)

reconcile-Settled :
    (sys : System) (member : Member) (live : LiveOwnership) (d : Disk) (doc : Document)
    → Settled live member d.file doc
    → reconcile sys member live d ≡ (d, ok (mutation_from doc false))
unfolding reconcile
reconcile-Settled sys member live d doc s =
    rw
      (
        s.valid,
        s.reads,
        find_row_lem (live member.config_dir) member (items doc.members),
        (sym (row_of_read d.file doc member.config_dir s.reads) ∙ s.registered),
      )
      (settled_found sys (live member.config_dir) member doc d
        (replace_row member (items doc.members)) s.free)

-- A call that succeeded had a valid member and met no host.
reconcile_ok-IsMember :
    (sys : System) (member : Member) (live : LiveOwnership) (d : Disk) (mut : Mutation)
    → (reconcile sys member live d).1 ≡ ok mut
    → IsMember member
unfolding reconcile
reconcile_ok-IsMember sys member live d mut h = ground arith

reads_of_ok :
    (sys : System) (member : Member) (live : LiveOwnership) (d : Disk) (mut : Mutation)
    (v : Result Error (Unit {0})) (r : Result Error Document)
    → (when_valid v d (reconcile_read sys member live d r)).1 ≡ ok mut
    → (doc : Document) × (r ≡ ok doc)
reads_of_ok sys member live d mut (ok u) (ok doc) h = (doc, refl)
reads_of_ok sys member live d mut (ok u) (err e) h = cc
reads_of_ok sys member live d mut (err e) r h = cc

reconcile_ok-reads :
    (sys : System) (member : Member) (live : LiveOwnership) (d : Disk) (mut : Mutation)
    → (reconcile sys member live d).1 ≡ ok mut
    → IsReadable d.file
unfolding reconcile
reconcile_ok-reads sys member live d mut h =
    reads_of_ok sys member live d mut (validate_member member) (read_locked d.file) h

-- What a successful call leaves: the document that its result describes.
left_behind :
    (member : Member) (old new : File) (mut : Mutation) (r : Result Error Mutation)
    → r ≡ ok mut
    → Contract (put member (row old)) old new r
    → (doc : Document) × (read_locked new ≡ ok doc)
      × (row new member.config_dir ≡ some member)
      × (doc.revision ≡ mut.revision)
      × (items doc.members ≡ mut.members)
unfolding mutation_from
left_behind member old new mut r q (refusal e h k) = cc
left_behind member old new mut r q (unchanged doc h k s e) = (
  doc,
  rw k h,
  rw k (s member.config_dir ∙ rw (str_eq_refl member.config_dir)),
  ground arith,
  ground arith,
)
left_behind member old new mut r q (written doc h s l) =
    (doc, h, s member.config_dir ∙ rw (str_eq_refl member.config_dir), ground arith, ground arith)

free_again :
    (owner : Option LiveOwner) (member : Member) (o : Option Member)
    → blocks owner member o ≡ false
    → blocks owner member (some member) ≡ false
unfolding blocks
free_again none member o h = refl
free_again (some w) member o h =
    ground (arith, str_eq_iff w.pool member.jvm_pool, str_eq_iff member.jvm_pool w.pool)

reconcile_ok-free :
    (sys : System) (member : Member) (live : LiveOwnership) (d : Disk) (mut : Mutation)
    → (reconcile sys member live d).1 ≡ ok mut
    → blocks (live member.config_dir) member (some member) ≡ false
unfolding is_stop
reconcile_ok-free sys member live d mut h =
    let (doc, reads) = reconcile_ok-reads sys member live d mut h in
    free_again (live member.config_dir) member (row d.file member.config_dir) (
      sym (
        is_stop-reconcile sys member live d doc (reconcile_ok-IsMember sys member live d mut h)
          reads)
      ∙ rw h)

-- After a call of `reconcile` that succeeded, the same call under the same live hosts changes
-- nothing on the disk, whatever the system would do, and returns the revision and the rows of the
-- first result as unchanged.
pub reconcile-reconcile :
    (sys sys' : System) (member : Member) (live : LiveOwnership) (d : Disk) (mut : Mutation)
    → (reconcile sys member live d).1 ≡ ok mut
    → reconcile sys' member live (reconcile sys member live d).0
      ≡ ((reconcile sys member live d).0, ok (record mut { changed = false }))
unfolding mutation_from
reconcile-reconcile sys sys' member live d mut h =
    let (doc, reads, there, revision, rows) =
      left_behind member d.file (reconcile sys member live d).0.file mut
        (reconcile sys member live d).1 h (reconcile-Contract sys member live d) in
    reconcile-Settled sys' member live (reconcile sys member live d).0 doc (record {
      valid = reconcile_ok-IsMember sys member live d mut h;
      reads = reads;
      registered = there;
      free = reconcile_ok-free sys member live d mut h;
    })
    ∙ cc (revision, rows)

-- A call of the registry.
pub data Call : Type 0 where
  reconciling : System → Member → LiveOwnership → Call
  removing : System → Str → LiveOwnership → Call

unfoldable pub apply : Call → Disk → Disk
apply (reconciling sys member live) d = (reconcile sys member live d).0
apply (removing sys gone live) d = (remove sys gone live d).0

-- Calls one after the other, as the mutex orders them.
unfoldable pub run : List Call → Disk → Disk
run [] d = d
run (c ∷ cs) d = run cs (apply c d)

IsReadable-after :
    (goal : Str → Option Member) (old new : File) (r : Result Error Mutation)
    → IsReadable old
    → Contract goal old new r
    → IsReadable new
IsReadable-after goal old new r h (refusal e q k) = rw k h
IsReadable-after goal old new r h (unchanged doc q k s e) = rw k h
IsReadable-after goal old new r h (written doc q s l) = (doc, q)

apply-IsReadable : (c : Call) (d : Disk) → IsReadable d.file → IsReadable (apply c d).file
unfolding apply
apply-IsReadable (reconciling sys member live) d h =
    IsReadable-after _ _ _ _ h (reconcile-Contract sys member live d)
apply-IsReadable (removing sys gone live) d h =
    IsReadable-after _ _ _ _ h (remove-Contract sys gone live d)

-- From a readable registry, such as an absent one, every sequence of calls, with whatever failures
-- of the system and whatever live hosts, leaves a registry that the next read accepts.
pub run-IsReadable : (cs : List Call) (d : Disk) → IsReadable d.file → IsReadable (run cs d).file
unfolding run
run-IsReadable [] d h = h
run-IsReadable (c ∷ cs) d h = run-IsReadable cs (apply c d) (apply-IsReadable c d h)
