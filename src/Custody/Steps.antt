-- ===== src/Custody/Steps.antt =====
-- What can happen to a process in custody, and what holds of it all along
-- (cli/internal/process/custody.go).
use millstrand.Base.{
  Str, str_eq, ◌≡◌, Bool, true, false, not, ◌&&◌, ◌||◌, Option, none, some, if◌then◌else◌, arith,
}
use millstrand.Custody.Terminate.{Kernel, terminate_process_tree}
use millstrand.Custody.Row.{
  ExitResult, Tree, stopping, stopped, Waiter, unstarted, entering, observing, finished, holding,
  reaping, Row, is_terminal, has_tree, is_cancelled, begin_wait, observed, released, exit_result,
  finish_wait, tree_stopped, cancel_enter, shutdown_enter,
}

-- One critical section of the goroutine of `wait`, or of the one that terminates the tree.
-- `fallible` is whether the observer may fail; what the kernel and the process do is free.
pub data WaitStep (fallible : Bool) : Row → Row → Type 0 where
  begins : (r : Row) → r.waiter ≡ entering → WaitStep fallible r (begin_wait r)
  observes :
      (r : Row) (failed : Bool)
      → r.waiter ≡ observing
      → (failed && not fallible) ≡ false
      → WaitStep fallible r (observed failed r)
  releases :
      (r : Row) (failed : Bool)
      → r.waiter ≡ holding failed
      → r.tree ≡ stopped
      → WaitStep fallible r (released failed r)
  reaps :
      (r : Row) (failed : Bool) (state : Option ExitResult) (wait_fails close_fails : Bool)
      → r.waiter ≡ reaping failed
      → WaitStep fallible r (finish_wait (exit_result state wait_fails) failed close_fails r)
  stops :
      (r : Row) (k : Kernel)
      → r.tree ≡ stopping
      → WaitStep fallible r (tree_stopped (terminate_process_tree k) r)

-- One critical section of any goroutine.
pub data RowStep (fallible : Bool) : Row → Row → Type 0 where
  runs : {r t : Row} → WaitStep fallible r t → RowStep fallible r t
  cancels : (r : Row) (owner : Str) → RowStep fallible r (cancel_enter owner r).0
  shuts : (r : Row) → RowStep fallible r (shutdown_enter r).0

-- The leader may be reaped, or has been.
abbrev pub is_reaping : Waiter → Bool
is_reaping (reaping failed) = true
is_reaping finished = true
is_reaping _ = false

abbrev pub is_holding : Waiter → Bool
is_holding (holding failed) = true
is_holding _ = false

abbrev pub is_finished : Waiter → Bool
is_finished finished = true
is_finished _ = false

abbrev pub is_unstarted : Waiter → Bool
is_unstarted unstarted = true
is_unstarted _ = false

abbrev pub is_stopped : Tree → Bool
is_stopped stopped = true
is_stopped _ = false

abbrev pub is_some : {A : Type 0} → Option A → Bool
is_some none = false
is_some (some a) = true

-- Either, exactly one.
abbrev pub one_of : Bool → Bool → Bool
one_of a b = if a then not b else b

pub record IsSound (fallible : Bool) (r : Row) : Type 0 where
  -- The tree of a cancelled process is stopped, and of no other.
  pub cancelled : r.process ≡ true → has_tree r.tree ≡ is_cancelled r
  -- A process whose reaping is claimed is not cancelled, and is past its observer.
  pub claimed : r.reap_claimed ≡ true → (is_cancelled r ≡ false) × (is_reaping r.waiter ≡ true)
  -- A leader is reaped when that is claimed, or when its tree has stopped.
  pub anchored :
      fallible ≡ false → is_reaping r.waiter ≡ true → (r.reap_claimed || is_stopped r.tree) ≡ true
  pub held : is_holding r.waiter ≡ true → has_tree r.tree ≡ true
  pub unlaunched : is_unstarted r.waiter ≡ not r.process
  pub untouched : r.process ≡ false → (is_terminal r.phase ≡ true) × (has_tree r.tree ≡ false)
  -- A process is terminal when it has been waited for, and then its outputs are closed.
  pub ended : r.process ≡ true → is_terminal r.phase ≡ is_finished r.waiter
  pub settled : r.done ≡ is_finished r.waiter
  -- A terminal process has one of the three facts, any other process none.
  pub failed : is_some r.launch_failure ≡ not r.process
  pub outcome : is_finished r.waiter ≡ one_of (is_some r.exit) (is_some r.cancellation)
  pub alone : (is_some r.exit && is_some r.cancellation) ≡ false

module _ (fallible : Bool) where
  begins-IsSound :
      (r : Row) → r.waiter ≡ entering → IsSound fallible r → IsSound fallible (begin_wait r)
  begins-IsSound r w s = ground arith

  observes-IsSound :
      (r : Row) (failed : Bool)
      → r.waiter ≡ observing
      → (failed && not fallible) ≡ false
      → IsSound fallible r
      → IsSound fallible (observed failed r)
  observes-IsSound r true w f s = ground arith
  observes-IsSound r false w f s = ground arith

  releases-IsSound :
      (r : Row) (failed : Bool)
      → r.waiter ≡ holding failed
      → r.tree ≡ stopped
      → IsSound fallible r
      → IsSound fallible (released failed r)
  releases-IsSound r failed w t s = ground arith

  reaps-IsSound :
      (r : Row) (failed : Bool) (result : ExitResult) (close_fails : Bool)
      → r.waiter ≡ reaping failed
      → IsSound fallible r
      → IsSound fallible (finish_wait result failed close_fails r)
  reaps-IsSound r failed result close_fails w s = ground arith

  stops-IsSound :
      (r : Row) (k : Kernel)
      → r.tree ≡ stopping
      → IsSound fallible r
      → IsSound fallible (tree_stopped (terminate_process_tree k) r)
  stops-IsSound r k t s = ground arith

  cancels-IsSound :
      (r : Row) (owner : Str) → IsSound fallible r → IsSound fallible (cancel_enter owner r).0
  unfolding cancel_enter str_eq
  cancels-IsSound r owner s = ground arith

  shuts-IsSound : (r : Row) → IsSound fallible r → IsSound fallible (shutdown_enter r).0
  unfolding shutdown_enter str_eq
  shuts-IsSound r s = ground arith

  WaitStep-IsSound : {r t : Row} → WaitStep fallible r t → IsSound fallible r → IsSound fallible t
  WaitStep-IsSound (begins r w) s = begins-IsSound r w s
  WaitStep-IsSound (observes r failed w f) s = observes-IsSound r failed w f s
  WaitStep-IsSound (releases r failed w t) s = releases-IsSound r failed w t s
  WaitStep-IsSound (reaps r failed state wait_fails close_fails w) s =
      reaps-IsSound r failed (exit_result state wait_fails) close_fails w s
  WaitStep-IsSound (stops r k t) s = stops-IsSound r k t s

  pub RowStep-IsSound : {r t : Row} → RowStep fallible r t → IsSound fallible r → IsSound fallible t
  RowStep-IsSound (runs st) s = WaitStep-IsSound st s
  RowStep-IsSound (cancels r owner) s = cancels-IsSound r owner s
  RowStep-IsSound (shuts r) s = shuts-IsSound r s

-- While signals are sent to a process group, its leader has not been reaped.
pub IsSound-unreaped : (r : Row) → IsSound false r → r.tree ≡ stopping → is_reaping r.waiter ≡ false
IsSound-unreaped r s t = ground arith
