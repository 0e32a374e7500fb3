-- ===== src/Custody/Runs.antt =====
-- Every run of the custody service (cli/internal/process/custody.go).
use millstrand.Base.{
  Str, is_blank, ◌≡◌, ◌≢◌, inl, inr, refl, Bool, false, ◌||◌, Bool-cases, Option, none, some, [],
  Result, ok, err, lookup, put,
}
use millstrand.Custody.Spec.{LaunchSpec, SpecError, validate_launch_spec}
use millstrand.Custody.Row.{Row}
use millstrand.Custody.Steps.{WaitStep}
use millstrand.Custody.Service.{
  Custody, Outputs, no_output_directory, no_stdout_file, no_stderr_file, opened, Answers,
  reservation, new_row, started, admit, open_outputs, launch_new, launch_reserved, launch_checked,
  launch, cancel, acknowledge, shutdown,
}

-- No row and no reservation has the handle.
pub record IsUnused (handle : Str) (c : Custody) : Type 0 where
  pub no_row : lookup handle c.by_handle ≡ none
  pub no_reservation : (k : Str) → lookup k c.reservations ≢ some handle

-- One step of the service: a call, or a critical section of a goroutine of one of its processes.
-- A new handle is random, and here not one that is in use.
pub data Step (fallible : Bool) : Custody → Custody → Type 0 where
  launches :
      (sys : Answers) (owner key : Str) (spec : LaunchSpec) (c : Custody)
      → ((handle : Str) → sys.new_handle ≡ some handle → IsUnused handle c)
      → Step fallible c (launch sys owner key spec c).0
  cancels_row : (owner handle : Str) (c : Custody) → Step fallible c (cancel owner handle c).0
  acknowledges :
      (owner handle : Str) (removed : Bool) (c : Custody)
      → Step fallible c (acknowledge owner handle removed c).0
  shuts_down : (c : Custody) → Step fallible c (shutdown c).0
  goes_on :
      (handle : Str) (r t : Row) (c : Custody)
      → lookup handle c.by_handle ≡ some r
      → WaitStep fallible r t
      → Step fallible c (record c { by_handle = put handle t c.by_handle })

pub data Reach (fallible : Bool) (c : Custody) : Custody → Type 0 where
  start : Reach fallible c c
  later : {d e : Custody} → Reach fallible c d → Step fallible d e → Reach fallible c e

abbrev pub empty_custody : Custody
empty_custody = record { by_handle = []; reservations = []; closed = false }

-- What a call of `launch` does to the store.
pub data Launched (sys : Answers) (owner key : Str) (spec : LaunchSpec) (c : Custody)
    : Custody → Type 0 where
  nothing : {d : Custody} → d ≡ c → Launched sys owner key spec c d
  adds :
      {d : Custody} (handle : Str)
      → sys.new_handle ≡ some handle
      → c.closed ≡ false
      → lookup (reservation owner key) c.reservations ≡ none
      → d ≡ (admit handle (started sys.start_fails (new_row handle owner key spec)) c).0
      → Launched sys owner key spec c d

module _ (sys : Answers) (owner key : Str) (spec : LaunchSpec) (c : Custody) where
  launch_new_lem :
      (o : Option Str)
      → sys.new_handle ≡ o
      → c.closed ≡ false
      → lookup (reservation owner key) c.reservations ≡ none
      → Launched sys owner key spec c (launch_new sys owner key spec c o).0
  launch_new_lem none e f g = nothing refl
  launch_new_lem (some handle) e f g = by_outputs sys.outputs
    where
      by_outputs :
          (o : Outputs)
          → Launched sys owner key spec c (open_outputs sys handle owner key spec c o).0
      by_outputs no_output_directory = nothing refl
      by_outputs no_stdout_file = nothing refl
      by_outputs no_stderr_file = nothing refl
      by_outputs opened = adds handle e f g refl

  launch_reserved_lem :
      (o : Option Str)
      → lookup (reservation owner key) c.reservations ≡ o
      → c.closed ≡ false
      → Launched sys owner key spec c (launch_reserved sys owner key spec c o).0
  launch_reserved_lem none g f = launch_new_lem sys.new_handle refl f g
  launch_reserved_lem (some handle) g f = nothing refl

  launch_checked_lem :
      (v : Result SpecError (Unit {0}))
      → Launched sys owner key spec c (launch_checked sys owner key spec c v).0
  launch_checked_lem (err e) = nothing refl
  launch_checked_lem (ok _) = elim (Bool-cases c.closed) [
    | inl e ↦ simp e (nothing refl)
    | inr e ↦ simp e (launch_reserved_lem (lookup (reservation owner key) c.reservations) refl e)
  ]

  pub launch_lem : Launched sys owner key spec c (launch sys owner key spec c).0
  unfolding launch
  launch_lem = elim (Bool-cases (is_blank owner || is_blank key)) [
    | inl e ↦ rw e (nothing refl)
    | inr e ↦ rw e (launch_checked_lem (validate_launch_spec sys.stat spec))
  ]
