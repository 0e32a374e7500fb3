-- ===== src/Custody/Service.antt =====
-- The custody service: its store, and its operations up to where they leave the mutex
-- (cli/internal/process/custody.go).
use millstrand.Base.{
  Str, str_eq, is_blank, Bool, true, false, not, ◌||◌, Option, none, some, List, [], ◌∷◌, ◌++◌, map,
  keep_if, if◌then◌else◌, Result, ok, err, lookup, put, erase,
}
use millstrand.Custody.Spec.{LaunchSpec, SpecError, Directory, validate_launch_spec, same_spec}
use millstrand.Custody.Row.{
  starting, terminal, Row, no_tree, unstarted, entering, Record, record_of, is_terminal, CancelTurn,
  wrong_owner, cancel_enter, ShutdownTurn, shutdown_enter,
}

pub record Custody : Type 0 where
  pub by_handle : List (Str × Row)
  pub reservations : List (Str × Str)
  pub closed : Bool

pub data CustodyError : Type 0 where
  blank_identity closed_service acknowledged_key conflicting_spec : CustodyError
  no_handle no_directory no_stdout no_stderr : CustodyError
  unknown_handle different_owner not_terminal not_removed : CustodyError
  invalid_spec : SpecError → CustodyError

-- How far the output files are made.
pub data Outputs : Type 0 where
  no_output_directory no_stdout_file no_stderr_file opened : Outputs

-- What the system answers in one launch: the working directory, a handle from the random bytes,
-- the output files, and the message of a process that does not start.
pub record Answers : Type 0 where
  pub stat : Str → Directory
  pub new_handle : Option Str
  pub outputs : Outputs
  pub start_fails : Option Str

abbrev pub reservation : Str → Str → Str
reservation owner key = owner ++ (0 ∷ key)

abbrev pub new_row : Str → Str → Str → LaunchSpec → Row
new_row handle owner key spec = record {
  handle = handle;
  owner = owner;
  key = key;
  phase = starting;
  exit = none;
  cancellation = none;
  launch_failure = none;
  spec = spec;
  process = true;
  cancelled = [];
  stop = none;
  tree = no_tree;
  tree_err = [];
  reap_claimed = false;
  done = false;
  cleanup_err = false;
  waiter = entering;
}

-- `cmd.Start`, and the goroutine of `wait` if it succeeds.
abbrev pub started : Option Str → Row → Row
started none r = r
started (some message) r = record r {
  phase = terminal;
  launch_failure = some message;
  process = false;
  waiter = unstarted;
}

abbrev pub admit : Str → Row → Custody → Custody × Result CustodyError Record
admit handle r c = (
  record c {
    by_handle = put handle r c.by_handle;
    reservations = put (reservation r.owner r.key) handle c.reservations;
  },
  ok (record_of r),
)

abbrev pub open_outputs :
    Answers
    → Str
    → Str
    → Str
    → LaunchSpec
    → Custody
    → Outputs
    → Custody × Result CustodyError Record
open_outputs sys handle owner key spec c no_output_directory = (c, err no_directory)
open_outputs sys handle owner key spec c no_stdout_file = (c, err no_stdout)
open_outputs sys handle owner key spec c no_stderr_file = (c, err no_stderr)
open_outputs sys handle owner key spec c opened =
    admit handle (started sys.start_fails (new_row handle owner key spec)) c

abbrev pub launch_new :
    Answers → Str → Str → LaunchSpec → Custody → Option Str → Custody × Result CustodyError Record
launch_new sys owner key spec c none = (c, err no_handle)
launch_new sys owner key spec c (some handle) = open_outputs sys handle owner key spec c sys.outputs

-- A key that is reserved: the row that its handle still has, if any.
abbrev pub launch_again : LaunchSpec → Option Row → Result CustodyError Record
launch_again spec none = err acknowledged_key
launch_again spec (some r) =
    if not (same_spec r.spec spec) then err conflicting_spec else ok (record_of r)

abbrev pub launch_reserved :
    Answers → Str → Str → LaunchSpec → Custody → Option Str → Custody × Result CustodyError Record
launch_reserved sys owner key spec c (some handle) =
    (c, launch_again spec (lookup handle c.by_handle))
launch_reserved sys owner key spec c none = launch_new sys owner key spec c sys.new_handle

abbrev pub launch_checked :
    Answers
    → Str
    → Str
    → LaunchSpec
    → Custody
    → Result SpecError (Unit {0})
    → Custody × Result CustodyError Record
launch_checked sys owner key spec c (err e) = (c, err (invalid_spec e))
launch_checked sys owner key spec c (ok _) =
    if c.closed
    then (c, err closed_service)
    else launch_reserved sys owner key spec c (lookup (reservation owner key) c.reservations)

unfoldable pub launch :
    Answers → Str → Str → LaunchSpec → Custody → Custody × Result CustodyError Record
launch sys owner key spec c =
    if is_blank owner || is_blank key
    then (c, err blank_identity)
    else launch_checked sys owner key spec c (validate_launch_spec sys.stat spec)

abbrev pub get_found : Option Row → Result CustodyError Record
get_found none = err unknown_handle
get_found (some r) = ok (record_of r)

unfoldable pub get : Str → Custody → Result CustodyError Record
get handle c = get_found (lookup handle c.by_handle)

unfoldable pub list_owned : Str → Custody → List Record
list_owned owner c = map (λ e. record_of e.1) (keep_if (λ e. str_eq e.1.owner owner) c.by_handle)

abbrev pub cancel_turned :
    Str → Custody → Row × CancelTurn → Custody × Result CustodyError (Record × CancelTurn)
cancel_turned handle c (r, wrong_owner) = (c, err different_owner)
cancel_turned handle c (r, turn) =
    (record c { by_handle = put handle r c.by_handle }, ok (record_of r, turn))

abbrev pub cancel_found :
    Str → Str → Custody → Option Row → Custody × Result CustodyError (Record × CancelTurn)
cancel_found owner handle c none = (c, err unknown_handle)
cancel_found owner handle c (some r) = cancel_turned handle c (cancel_enter owner r)

-- `Cancel` up to where it waits or terminates the tree.
unfoldable pub cancel : Str → Str → Custody → Custody × Result CustodyError (Record × CancelTurn)
cancel owner handle c = cancel_found owner handle c (lookup handle c.by_handle)

abbrev pub acknowledge_found :
    Str → Str → Bool → Custody → Option Row → Custody × Result CustodyError (Unit {0})
acknowledge_found owner handle removed c none = (c, err unknown_handle)
acknowledge_found owner handle removed c (some r) =
    if not (str_eq r.owner owner)
    then (c, err different_owner)
    else if not (is_terminal r.phase)
    then (c, err not_terminal)
    else if not removed
    then (c, err not_removed)
    else (record c { by_handle = erase handle c.by_handle }, ok tt)

-- `removed` is whether the output directory can be removed.
unfoldable pub acknowledge : Str → Str → Bool → Custody → Custody × Result CustodyError (Unit {0})
acknowledge owner handle removed c =
    acknowledge_found owner handle removed c (lookup handle c.by_handle)

-- `Shutdown` up to where it waits for the rows.
unfoldable pub shutdown : Custody → Custody × List (Str × ShutdownTurn)
shutdown c = (
  record c { by_handle = map (λ e. (e.0, (shutdown_enter e.1).0)) c.by_handle; closed = true },
  map (λ e. (e.0, (shutdown_enter e.1).1)) c.by_handle,
)
