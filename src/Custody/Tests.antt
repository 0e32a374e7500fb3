-- ===== src/Custody/Tests.antt =====
-- Runs of the custody service, and each theorem at a concrete input.
use millstrand.Base.{
  Str, text, str_eq, is_blank, is_abs, ◌≡◌, ◌≤◌, ◌+◌, ◌≢◌, ◌↔◌, refl, Bool, true, false, none, some,
  List, [], ◌∷◌, any, err, lookup, put, keys, trim_space, has_prefix, arith,
}
use millstrand.Custody.Spec.{
  LaunchSpec, directory, unavailable, cwd_unavailable, validate_launch_spec, same_argv, same_values,
  same_spec,
}
use millstrand.Custody.Terminate.{
  graceful, forced, uncertain, live, gone, Kernel, terminate_process_tree,
}
use millstrand.Custody.Row.{
  is_terminal, Row, stopping, begin_wait, observed, cancel_enter, shutdown_enter, record_of,
}
use millstrand.Custody.Steps.{WaitStep, begins, observes, is_reaping, IsSound}
use millstrand.Custody.Service.{
  Custody, Answers, opened, new_row, started, launch, cancel, shutdown,
}
use millstrand.Custody.Runs.{
  IsUnused, launches, cancels_row, goes_on, Reach, start, later, empty_custody,
}
use millstrand.Custody.Parse.{
  Any, strings, string, object, nil, text_item, parse_launch_spec, arguments, env_entries,
}
use millstrand.Custody.Boundary.{parse_launch_spec-validate_launch_spec}
use millstrand.Custody.Validity.{IsValid}
use millstrand.Custody.Ends.{sections_left, Chain, stays, goes, Chain-ends}
use millstrand.Custody.Once.{Converges, launch-once}
use millstrand.Custody.Closing.{IsClosing, Reach-IsClosing}
use millstrand.Custody.Stopping.{Vanishes, Lives, terminate_process_tree_lem}
use millstrand.Custody.Invariant.{Reach-unreaped, Reach-IsValid}

abbrev spec : LaunchSpec
spec = record {
  argv = text "sleep" ∷ text "9" ∷ [];
  cwd = text "/";
  env = (text "A", []) ∷ [];
  stdin = none;
}

abbrev other_spec : LaunchSpec
other_spec = record spec { env = (text "B", []) ∷ [] }

abbrev handle : Str
handle = text "p1"

abbrev owner : Str
owner = text "o"

abbrev key : Str
key = text "k"

abbrev sys : Answers
sys = record {
  stat = λ path. directory;
  new_handle = some handle;
  outputs = opened;
  start_fails = none;
}

abbrev launched_row : Row
launched_row = new_row handle owner key spec

abbrev launched_store : Custody
launched_store = (launch sys owner key spec empty_custody).0

fresh : (x : Str) → some handle ≡ some x → IsUnused x empty_custody
unfolding lookup
fresh x e = record { no_row = refl; no_reservation = λ k q. absurd (none_some q) }
  where
    none_some : none ≡ some x → ⊥
    none_some q = cc

abbrev launch_run : {fallible : Bool} → Reach fallible empty_custody launched_store
launch_run = later start (launches sys owner key spec empty_custody fresh)

-- The owner cancels the launched process before it is observed.
abbrev cancelled_row : Row
cancelled_row = (cancel_enter owner launched_row).0

abbrev cancelled_store : Custody
cancelled_store = (cancel owner handle launched_store).0

abbrev cancel_run : {fallible : Bool} → Reach fallible empty_custody cancelled_store
cancel_run = later launch_run (cancels_row owner handle launched_store)

Reach-unreaped_example : is_reaping cancelled_row.waiter ≡ false
unfolding launch cancel shutdown cancel_enter shutdown_enter validate_launch_spec lookup put str_eq
    is_blank is_abs trim_space has_prefix any keys
Reach-unreaped_example = Reach-unreaped handle cancelled_row cancel_run refl refl

-- With an observer that fails the same is not so: the waiting goroutine goes on to the reaping,
-- and a cancellation that comes next sends its signals all the same.
abbrev lost_row : Row
lost_row = observed true (begin_wait launched_row)

abbrev begun_store : Custody
begun_store = record launched_store {
  by_handle = put handle (begin_wait launched_row) launched_store.by_handle;
}

abbrev lost_store : Custody
lost_store = record begun_store { by_handle = put handle lost_row begun_store.by_handle }

lost_run : Reach true empty_custody lost_store
unfolding launch cancel shutdown cancel_enter shutdown_enter validate_launch_spec lookup put str_eq
    is_blank is_abs trim_space has_prefix any keys
lost_run =
    later
      (later launch_run (
        goes_on handle launched_row (begin_wait launched_row) launched_store refl
          (begins launched_row refl)))
      (goes_on handle (begin_wait launched_row) lost_row begun_store refl
        (observes (begin_wait launched_row) true refl refl))

reaped_while_signalled :
    (c : Custody) × Reach true empty_custody c
    × ((r : Row) × (lookup handle c.by_handle ≡ some r)
        × (r.tree ≡ stopping)
        × (is_reaping r.waiter ≡ true))
unfolding launch cancel shutdown cancel_enter shutdown_enter validate_launch_spec lookup put str_eq
    is_blank is_abs trim_space has_prefix any keys
reaped_while_signalled = (
  (cancel owner handle lost_store).0,
  later lost_run (cancels_row owner handle lost_store),
  ((cancel_enter owner lost_row).0, refl, refl, refl),
)

same_spec_test : same_spec spec other_spec ≡ true
unfolding same_spec same_argv same_values str_eq lookup
same_spec_test = refl

-- The second launch comes after the cancellation, and with another handle at hand.
abbrev later_sys : Answers
later_sys = record sys { new_handle = some (text "p2") }

launch-once_example : Converges later_sys owner key other_spec cancelled_store handle
unfolding launch cancel shutdown cancel_enter shutdown_enter validate_launch_spec lookup put str_eq
    is_blank is_abs trim_space has_prefix any keys
launch-once_example =
    launch-once {fallible = false} sys later_sys owner key spec other_spec empty_custody
      cancelled_store (record_of launched_row) start refl
      (later start (cancels_row owner handle launched_store))

Reach-IsValid_example : IsValid false cancelled_store
Reach-IsValid_example = Reach-IsValid cancel_run

-- A process that did not start is terminal at once.
abbrev broken_sys : Answers
broken_sys = record sys { start_fails = some (text "no such file") }

abbrev failed_row : Row
failed_row = started (some (text "no such file")) launched_row

abbrev failed_store : Custody
failed_store = (launch broken_sys owner key spec empty_custody).0

Reach-IsClosing_example :
    IsClosing launched_store (cancel owner handle (shutdown launched_store).0).0
Reach-IsClosing_example =
    Reach-IsClosing {fallible = false} launch_run
      (later start (cancels_row owner handle (shutdown launched_store).0))

launched-IsSound : IsSound false launched_row
unfolding launch cancel shutdown cancel_enter shutdown_enter validate_launch_spec lookup put str_eq
    is_blank is_abs trim_space has_prefix any keys
launched-IsSound = ground arith

begun-Chain : Chain false 1 launched_row (begin_wait launched_row)
begun-Chain = goes (begins launched_row refl) stays

Chain-ends_example :
    (1 + sections_left (begin_wait launched_row) ≤ sections_left launched_row)
    × (((u : Row) → WaitStep false (begin_wait launched_row) u → ⊥)
        → is_terminal (begin_wait launched_row).phase ≡ true)
Chain-ends_example = Chain-ends false launched-IsSound begun-Chain

abbrev kernel : Kernel
kernel = record {
  term_fails = false;
  after_term = live;
  term_looks = live ∷ [];
  kill_fails = false;
  after_kill = live;
  kill_looks = gone ∷ [];
}

terminate_process_tree_lem_example :
    (((terminate_process_tree kernel).stop ≡ graceful)
      ↔ ((kernel.term_fails ≡ false) × Vanishes kernel.after_term kernel.term_looks))
    × (((terminate_process_tree kernel).stop ≡ forced) ↔ (
        (kernel.term_fails ≡ false)
        × Lives kernel.after_term kernel.term_looks
        × (kernel.kill_fails ≡ false)
        × Vanishes kernel.after_kill kernel.kill_looks))
    × (((terminate_process_tree kernel).failure ≢ [])
        ↔ ((terminate_process_tree kernel).stop ≡ uncertain))
terminate_process_tree_lem_example = terminate_process_tree_lem kernel

abbrev boundary : List (Str × Any)
boundary =
    (text "argv", strings (text "sleep" ∷ text "9" ∷ []))
    ∷ (text "cwd", string (text "/"))
    ∷ (text "env", object ((text "A", text_item []) ∷ []))
    ∷ (text "stdin", nil)
    ∷ []

parse_launch_spec-validate_launch_spec_example :
    validate_launch_spec (λ path. unavailable) spec ≡ err cwd_unavailable
unfolding parse_launch_spec arguments env_entries lookup any keys str_eq is_blank is_abs trim_space
    has_prefix
parse_launch_spec-validate_launch_spec_example =
    parse_launch_spec-validate_launch_spec (some boundary) spec (λ path. unavailable) refl
