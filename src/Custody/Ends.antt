-- ===== src/Custody/Ends.antt =====
-- The end of a process in custody (cli/internal/process/custody.go).
use millstrand.Base.{
  ℕ, ◌+◌, ◌<◌, ◌≤◌, Str, str_eq, ◌≡◌, ◌⊎◌, inl, inr, refl, Bool, true, false, not, ◌&&◌, ◌||◌, [],
  Bool-cases, none, some, pos, arith,
}
use millstrand.Custody.Terminate.{Kernel, gone}
use millstrand.Custody.Row.{
  ExitResult, Tree, no_tree, stopping, stopped, Waiter, unstarted, entering, observing, finished,
  holding, reaping, Row, record_of, is_terminal, has_tree, is_cancelled, cancel_enter,
  shutdown_enter,
}
use millstrand.Custody.Steps.{
  WaitStep, begins, observes, releases, reaps, stops, RowStep, runs, cancels, shuts, IsSound,
  RowStep-IsSound,
}

module _ (fallible : Bool) where
  -- The public record of a terminal process does not change any more.
  pub RowStep-record_of :
      {r t : Row}
      → RowStep fallible r t
      → IsSound fallible r
      → is_terminal r.phase ≡ true
      → record_of t ≡ record_of r
  unfolding cancel_enter shutdown_enter
  RowStep-record_of (runs (begins r w)) s h = ground arith
  RowStep-record_of (runs (observes r true w f)) s h = ground arith
  RowStep-record_of (runs (observes r false w f)) s h = ground arith
  RowStep-record_of (runs (releases r failed w t)) s h = refl
  RowStep-record_of (runs (reaps r failed state wait_fails close_fails w)) s h = ground arith
  RowStep-record_of (runs (stops r k t)) s h = refl
  RowStep-record_of (cancels r owner) s h = ground arith
  RowStep-record_of (shuts r) s h = ground arith

-- A kernel under which the group is gone at once, and a process that exits with 0.
abbrev quick : Kernel
quick = record {
  term_fails = false;
  after_term = gone;
  term_looks = [];
  kill_fails = false;
  after_kill = gone;
  kill_looks = [];
}

abbrev exited_zero : ExitResult
exited_zero = record { code = pos 0; signal = none }

abbrev waiter_rank : Waiter → ℕ
waiter_rank entering = 4
waiter_rank observing = 3
waiter_rank (holding failed) = 2
waiter_rank (reaping failed) = 1
waiter_rank finished = 0
waiter_rank unstarted = 0

abbrev tree_rank : Tree → ℕ
tree_rank no_tree = 2
tree_rank stopping = 1
tree_rank stopped = 0

-- How many sections of its own goroutines may still come for the process; at most 6.
abbrev pub sections_left : Row → ℕ
sections_left r = waiter_rank r.waiter + tree_rank r.tree

module _ (fallible : Bool) where
  WaitStep-sections_left : {r t : Row} → WaitStep fallible r t → sections_left t < sections_left r
  WaitStep-sections_left (begins r w) = ground arith
  WaitStep-sections_left (observes r true w f) = ground arith
  WaitStep-sections_left (observes r false w f) = ground arith
  WaitStep-sections_left (releases r failed w t) = ground arith
  WaitStep-sections_left (reaps r failed state wait_fails close_fails w) = ground arith
  WaitStep-sections_left (stops r k t) = ground arith

  cancels_rank :
      (r : Row) (owner : Str)
      → IsSound fallible r
      → ((cancel_enter owner r).0 ≡ r) ⊎ (sections_left (cancel_enter owner r).0 < sections_left r)
  unfolding cancel_enter str_eq
  cancels_rank r owner s = elim (Bool-cases (str_eq r.owner owner)) [
    | inr a ↦ inl (ground arith)
    | inl a ↦ elim (Bool-cases (is_terminal r.phase && not (has_tree r.tree))) [
      | inl b ↦ inl (ground arith)
      | inr b ↦ elim (Bool-cases (r.reap_claimed)) [
        | inl c ↦ inl (ground arith)
        | inr c ↦ elim (Bool-cases (is_cancelled r)) [
          | inl d ↦ inl (ground arith)
          | inr d ↦ inr (ground arith)
        ]
      ]
    ]
  ]

  shuts_rank :
      (r : Row)
      → IsSound fallible r
      → ((shutdown_enter r).0 ≡ r) ⊎ (sections_left (shutdown_enter r).0 < sections_left r)
  unfolding shutdown_enter str_eq
  shuts_rank r s = elim (Bool-cases (is_terminal r.phase || r.reap_claimed)) [
    | inl a ↦ inl (ground arith)
    | inr a ↦ elim (Bool-cases (has_tree r.tree)) [
      | inl b ↦ inl (ground arith)
      | inr b ↦ inr (ground arith)
    ]
  ]

  -- Every critical section leaves a process as it is or lowers its sections_left.
  RowStep-sections_left :
      {r t : Row}
      → RowStep fallible r t
      → IsSound fallible r
      → (t ≡ r) ⊎ (sections_left t < sections_left r)
  RowStep-sections_left (runs st) s = inr (WaitStep-sections_left st)
  RowStep-sections_left (cancels r owner) s = cancels_rank r owner s
  RowStep-sections_left (shuts r) s = shuts_rank r s

  step_of_tree :
      (r : Row) (failed : Bool) (tree : Tree)
      → IsSound fallible r
      → r.waiter ≡ holding failed
      → r.tree ≡ tree
      → (t : Row) × WaitStep fallible r t
  step_of_tree r failed no_tree s w e = absurd (ground arith)
  step_of_tree r failed stopping s w e = (_, stops r quick e)
  step_of_tree r failed stopped s w e = (_, releases r failed w e)

  step_of_waiter :
      (r : Row) (waiter : Waiter)
      → IsSound fallible r
      → r.process ≡ true
      → is_terminal r.phase ≡ false
      → r.waiter ≡ waiter
      → (t : Row) × WaitStep fallible r t
  step_of_waiter r unstarted s p h e = absurd (ground arith)
  step_of_waiter r entering s p h e = (_, begins r e)
  step_of_waiter r observing s p h e = (_, observes r false e refl)
  step_of_waiter r (holding failed) s p h e = step_of_tree r failed r.tree s e refl
  step_of_waiter r (reaping failed) s p h e = (_, reaps r failed (some exited_zero) false false e)
  step_of_waiter r finished s p h e = absurd (ground arith)

  -- A process that is not terminal goes on by itself, to one of lower sections_left: no wait of its
  -- goroutines is for ever, and none depends on a caller.
  IsSound-progress :
      (r : Row)
      → IsSound fallible r
      → is_terminal r.phase ≡ false
      → (t : Row) × WaitStep fallible r t × (sections_left t < sections_left r)
  IsSound-progress r s h =
      let p : r.process ≡ true = ground arith in
      let (t, st) = step_of_waiter r r.waiter s p h refl in (t, st, WaitStep-sections_left st)

-- A sequence of sections of a process's own goroutines.
pub data Chain (fallible : Bool) : ℕ → Row → Row → Type 0 where
  stays : {r : Row} → Chain fallible 0 r r
  goes :
      {n : ℕ} {r t u : Row}
      → WaitStep fallible r t
      → Chain fallible n t u
      → Chain fallible (1 + n) r u

module _ (fallible : Bool) where
  Chain-IsSound :
      {n : ℕ} {r t : Row} → Chain fallible n r t → IsSound fallible r → IsSound fallible t
  Chain-IsSound stays s = s
  Chain-IsSound (goes st chain) s = Chain-IsSound chain (RowStep-IsSound fallible (runs st) s)

  Chain-sections_left :
      {n : ℕ} {r t : Row} → Chain fallible n r t → n + sections_left t ≤ sections_left r
  Chain-sections_left stays = omega arith
  Chain-sections_left (goes st chain) =
      let one = WaitStep-sections_left fallible st in
      let rest = Chain-sections_left chain in omega arith

  -- The goroutines of a process bring it to its end without any other call, in whatever order
  -- their sections come: of these there are at most as many as are left, six at first, and where
  -- none can come any more the process is terminal.
  pub Chain-ends :
      {n : ℕ} {r t : Row}
      → IsSound fallible r
      → Chain fallible n r t
      → (n + sections_left t ≤ sections_left r)
        × (((u : Row) → WaitStep fallible t u → ⊥) → is_terminal t.phase ≡ true)
  Chain-ends {t = t} s chain = (
    Chain-sections_left chain,
    λ stuck. elim (Bool-cases (is_terminal t.phase)) [
      | inl h ↦ h
      | inr h ↦
          let (u, st, fewer) = IsSound-progress fallible t (Chain-IsSound chain s) h in
          absurd (stuck u st)
    ],
  )
