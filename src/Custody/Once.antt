-- ===== src/Custody/Once.antt =====
-- A key starts one process at most, and what is terminal stays (cli/internal/process/custody.go).
use millstrand.Base.{
  Str, str_eq_refl, is_blank, ◌≡◌, inl, inr, refl, sym, ap, ◌∙◌, Bool, true, ◌||◌, Bool-cases,
  Option-cases, Option, none, some, Result, ok, err, ok-injective, lookup, lookup-put,
}
use millstrand.Custody.Spec.{LaunchSpec, SpecError, validate_launch_spec, same_spec}
use millstrand.Custody.Row.{Row, Record, record_of}
use millstrand.Custody.Service.{
  Custody, CustodyError, Outputs, no_output_directory, no_stdout_file, no_stderr_file, opened,
  Answers, admit, started, new_row, reservation, open_outputs, launch_new, launch_again,
  launch_checked, launch, conflicting_spec, invalid_spec, blank_identity, no_handle, no_directory,
  no_stdout, no_stderr, closed_service,
}
use millstrand.Custody.Runs.{Reach, empty_custody}
use millstrand.Custody.Validity.{IsValid, started-IsSame}
use millstrand.Custody.Invariant.{Reach-IsValid}
use millstrand.Custody.Keys.{Reach-reservation}

-- A launch of a reserved key changes nothing; it returns the row of the reservation's handle, if
-- that was launched by an equal spec, or an error.
module _ (sys : Answers) (owner key : Str) (spec : LaunchSpec) (c : Custody) (handle : Str) where
  unfoldable pub Converges : Type 0
  Converges =
      ((launch sys owner key spec c).0 ≡ c)
      × ((rec : Record)
          → (launch sys owner key spec c).1 ≡ ok rec
          → (r : Row) × (lookup handle c.by_handle ≡ some r)
            × (same_spec r.spec spec ≡ true)
            × (rec ≡ record_of r))

  again_lem :
      (o : Option Row) (rec : Record)
      → launch_again spec o ≡ ok rec
      → (r : Row) × (o ≡ some r) × (same_spec r.spec spec ≡ true) × (rec ≡ record_of r)
  again_lem none rec h = cc
  again_lem (some r) rec h = elim (Bool-cases (same_spec r.spec spec)) [
    | inl e ↦ (r, refl, e, sym (ok-injective (rw e at h)))
    | inr e ↦ absurd (refused (rw e at h))
  ]
    where
      refused : err conflicting_spec ≡ ok rec → ⊥
      refused q = cc

  checked_lem :
      (v : Result SpecError (Unit {0}))
      → lookup (reservation owner key) c.reservations ≡ some handle
      → ((launch_checked sys owner key spec c v).0 ≡ c)
        × ((rec : Record)
            → (launch_checked sys owner key spec c v).1 ≡ ok rec
            → (r : Row) × (lookup handle c.by_handle ≡ some r)
              × (same_spec r.spec spec ≡ true)
              × (rec ≡ record_of r))
  checked_lem (err e) h = (refl, λ rec q. absurd (refused rec q))
    where
      refused : (rec : Record) → err (invalid_spec e) ≡ ok rec → ⊥
      refused rec q = cc
  checked_lem (ok u) h = elim (Bool-cases c.closed) [
    | inl e ↦ simp e (refl, λ rec q. absurd (refused rec q))
    | inr e ↦ simp (e, h) (refl, λ rec q. again_lem (lookup handle c.by_handle) rec q)
  ]
    where
      refused : (rec : Record) → err closed_service ≡ ok rec → ⊥
      refused rec q = cc

  pub launch-Converges : lookup (reservation owner key) c.reservations ≡ some handle → Converges
  unfolding launch Converges
  launch-Converges h = elim (Bool-cases (is_blank owner || is_blank key)) [
    | inl e ↦ rw e (refl, λ rec q. absurd (refused rec q))
    | inr e ↦ rw e (checked_lem (validate_launch_spec sys.stat spec) h)
  ]
    where
      refused : (rec : Record) → err blank_identity ≡ ok rec → ⊥
      refused rec q = cc

-- A launch that succeeds leaves its key reserved for the handle that it returns.
module _ (fallible : Bool) (sys : Answers) (owner key : Str) (spec : LaunchSpec) (c : Custody) where
  Reserves : Custody × Result CustodyError Record → Type 0
  Reserves (d, result) =
      (rec : Record)
      → result ≡ ok rec
      → lookup (reservation owner key) d.reservations ≡ some rec.handle

  refused : (e : CustodyError) (d : Custody) → Reserves (d, err e)
  unfolding Reserves
  refused e d rec q = absurd (clash q)
    where
      clash : ◌≡◌ {A = Result CustodyError Record} (err e) (ok rec) → ⊥
      clash p = cc

  admit-Reserves :
      (handle : Str)
      → Reserves (admit handle (started sys.start_fails (new_row handle owner key spec)) c)
  unfolding Reserves
  admit-Reserves handle rec q =
      let r : Row = started sys.start_fails (new_row handle owner key spec) in
      let s = started-IsSame fallible sys.start_fails (new_row handle owner key spec) in
      let named : reservation r.owner r.key ≡ reservation owner key = rw (s.owner, s.key) refl in
      let whole : rec ≡ record_of r = sym (ok-injective q) in
      let handled : rec.handle ≡ handle = ap (λ (x : Record). x.handle) whole ∙ s.handle in
      rw
        (
          handled,
          named,
          lookup-put (reservation owner key) (reservation owner key) handle c.reservations,
          str_eq_refl (reservation owner key),
        )
        refl

  new-Reserves : (o : Option Str) → Reserves (launch_new sys owner key spec c o)
  new-Reserves none = refused no_handle c
  new-Reserves (some handle) = by_outputs sys.outputs
    where
      by_outputs : (o : Outputs) → Reserves (open_outputs sys handle owner key spec c o)
      by_outputs no_output_directory = refused no_directory c
      by_outputs no_stdout_file = refused no_stdout c
      by_outputs no_stderr_file = refused no_stderr c
      by_outputs opened = admit-Reserves handle

  again-Reserves :
      (handle : Str)
      → IsValid fallible c
      → lookup (reservation owner key) c.reservations ≡ some handle
      → Reserves (c, launch_again spec (lookup handle c.by_handle))
  unfolding Reserves IsValid
  again-Reserves handle v h rec q =
      let (r, found, equal, whole) =
        again_lem sys owner key spec c handle (lookup handle c.by_handle) rec q in
      let named = (v handle r found).named in rw (ap (λ (x : Record). x.handle) whole, named) h

  checked-Reserves :
      (v : Result SpecError (Unit {0}))
      → IsValid fallible c
      → Reserves (launch_checked sys owner key spec c v)
  checked-Reserves (err e) valid = refused (invalid_spec e) c
  checked-Reserves (ok u) valid = elim (Bool-cases c.closed) [
    | inl e ↦ simp e (refused closed_service c)
    | inr e ↦ elim (Option-cases (lookup (reservation owner key) c.reservations)) [
      | inl h ↦ simp (e, h) (new-Reserves sys.new_handle)
      | inr (handle, h) ↦ simp (e, h) (again-Reserves handle valid h)
    ]
  ]

  launch-Reserves : IsValid fallible c → Reserves (launch sys owner key spec c)
  unfolding launch
  launch-Reserves valid = elim (Bool-cases (is_blank owner || is_blank key)) [
    | inl e ↦ rw e (refused blank_identity c)
    | inr e ↦ rw e (checked-Reserves (validate_launch_spec sys.stat spec) valid)
  ]

-- A key is launched once at most: after a launch that succeeded, whatever the service has done
-- since, cancellation, acknowledgement and shutdown included, another launch of the same key by
-- the same owner changes nothing, and returns the row of the first launch or an error.
pub launch-once :
    {fallible : Bool} (sys later_sys : Answers) (owner key : Str) (spec later_spec : LaunchSpec)
    (c d : Custody) (rec : Record)
    → Reach fallible empty_custody c
    → (launch sys owner key spec c).1 ≡ ok rec
    → Reach fallible (launch sys owner key spec c).0 d
    → Converges later_sys owner key later_spec d rec.handle
unfolding Reserves
launch-once {fallible} sys later_sys owner key spec later_spec c d rec run succeeded since =
    launch-Converges later_sys owner key later_spec d rec.handle (
      Reach-reservation (reservation owner key) rec.handle since
        (launch-Reserves fallible sys owner key spec c (Reach-IsValid run) rec succeeded))
