-- ===== src/Custody/Row.antt =====
-- One process in custody, by the critical sections that change it (cli/internal/process/custody.go).
use millstrand.Base.{
  Str, text, str_eq, Bool, true, false, not, ◌&&◌, ◌||◌, Option, none, some, List, [],
  if◌then◌else◌, ℤ, pos, negsuc,
}
use millstrand.Custody.Spec.{LaunchSpec}
use millstrand.Custody.Terminate.{Stop, uncertain, TreeError, Stopped}

pub data Phase : Type 0 where
  starting running terminal : Phase

pub record ExitResult : Type 0 where
  pub code : ℤ
  pub signal : Option Str

pub record CancellationResult : Type 0 where
  pub reason : Str
  pub stop : Stop
  pub observed_exit : ExitResult

-- `treeDone`: no channel, an open one, or a closed one. While it is open, one goroutine is sending
-- signals to the process group.
pub data Tree : Type 0 where
  no_tree stopping stopped : Tree

-- Where the goroutine of `wait` stands. `holding` has read an open or closed `treeDone` and waits
-- for it; `reaping` is past that, and calls `cmd.Wait`. Both carry the failure of the observer.
pub data Waiter : Type 0 where
  unstarted entering observing finished : Waiter
  holding reaping : Bool → Waiter

-- `Record` and the private fields. `process` is `cmd.Process != nil`.
pub record Row : Type 0 where
  pub handle : Str
  pub owner : Str
  pub key : Str
  pub phase : Phase
  pub exit : Option ExitResult
  pub cancellation : Option CancellationResult
  pub launch_failure : Option Str
  pub spec : LaunchSpec
  pub process : Bool
  pub cancelled : Str
  pub stop : Option Stop
  pub tree : Tree
  pub tree_err : List TreeError
  pub reap_claimed : Bool
  pub done : Bool
  pub cleanup_err : Bool
  pub waiter : Waiter

-- The public projection.
pub record Record : Type 0 where
  pub handle : Str
  pub owner : Str
  pub key : Str
  pub phase : Phase
  pub exit : Option ExitResult
  pub cancellation : Option CancellationResult
  pub launch_failure : Option Str

abbrev pub record_of : Row → Record
record_of r = record {
  handle = r.handle;
  owner = r.owner;
  key = r.key;
  phase = r.phase;
  exit = r.exit;
  cancellation = r.cancellation;
  launch_failure = r.launch_failure;
}

abbrev pub is_terminal : Phase → Bool
is_terminal terminal = true
is_terminal _ = false

abbrev pub has_tree : Tree → Bool
has_tree no_tree = false
has_tree _ = true

abbrev pub is_cancelled : Row → Bool
is_cancelled r = not (str_eq r.cancelled [])

-- The first section of `wait`.
abbrev pub begin_wait : Row → Row
begin_wait r =
    if is_cancelled r
    then record r { waiter = observing }
    else record r { phase = running; waiter = observing }

-- The section after `observeProcessExit`; `failed` is its error.
abbrev pub observed : Bool → Row → Row
observed true r = record r { waiter = if has_tree r.tree then holding true else reaping true }
observed false r =
    if not (is_cancelled r)
    then record r { reap_claimed = true; waiter = reaping false }
    else record r { waiter = if has_tree r.tree then holding false else reaping false }

-- `<-treeDone`
abbrev pub released : Bool → Row → Row
released failed r = record r { waiter = reaping failed }

-- `exitResult`: the state of the process, if `cmd.Wait` got one, and whether it failed.
abbrev pub exit_result : Option ExitResult → Bool → ExitResult
exit_result (some state) failed = state
exit_result none failed = record { code = if failed then negsuc 0 else pos 0; signal = none }

abbrev pub stop_or_uncertain : Option Stop → Stop
stop_or_uncertain none = uncertain
stop_or_uncertain (some s) = s

-- `finishWait`; `close_fails` is the error of closing the two outputs.
abbrev pub finish_wait : ExitResult → Bool → Bool → Row → Row
finish_wait result failed close_fails r =
    let settled : Row = record r {
      phase = terminal;
      cleanup_err = failed || close_fails;
      done = true;
      waiter = finished;
    } in
    if is_cancelled r
    then record settled {
      exit = none;
      cancellation = some (record {
        reason = r.cancelled;
        stop = stop_or_uncertain r.stop;
        observed_exit = result;
      });
    }
    else record settled { exit = some result; cancellation = none }

-- The section in which the terminating goroutine closes `treeDone`.
abbrev pub tree_stopped : Stopped → Row → Row
tree_stopped s r = record r { stop = some s.stop; tree_err = s.failure; tree = stopped }

-- What `Cancel` goes on with: it returns, waits for the reaping or for the tree, or terminates it.
pub data CancelTurn : Type 0 where
  returns wrong_owner awaits_reap awaits_tree terminates : CancelTurn

abbrev pub by_owner : Str
by_owner = text "cancelled by owner"

abbrev pub by_shutdown : Str
by_shutdown = text "Mill shutdown"

abbrev pub await_tree : Tree → CancelTurn
await_tree no_tree = returns
await_tree _ = awaits_tree

-- The first section of `Cancel`, of a known handle.
unfoldable pub cancel_enter : Str → Row → Row × CancelTurn
cancel_enter owner r =
    if not (str_eq r.owner owner)
    then (r, wrong_owner)
    else if is_terminal r.phase && not (has_tree r.tree)
    then (r, returns)
    else if r.reap_claimed
    then (r, awaits_reap)
    else if not (is_cancelled r)
    then (if r.process
        then (record r { cancelled = by_owner; tree = stopping }, terminates)
        else (record r { cancelled = by_owner }, returns))
    else (r, await_tree r.tree)

-- What `Shutdown` does with a row: it passes over it, waits for its end, or also for its tree,
-- which it may have to terminate itself.
pub data ShutdownTurn : Type 0 where
  passes waits waits_tree stops_tree : ShutdownTurn

abbrev pub mark_shutdown : Row → Row
mark_shutdown r = if is_cancelled r then r else record r { cancelled = by_shutdown }

unfoldable pub shutdown_enter : Row → Row × ShutdownTurn
shutdown_enter r =
    if is_terminal r.phase
    then (r, passes)
    else if r.reap_claimed
    then (r, waits)
    else if not r.process
    then (mark_shutdown r, waits)
    else if has_tree r.tree
    then (mark_shutdown r, waits_tree)
    else (record (mark_shutdown r) { tree = stopping }, stops_tree)
