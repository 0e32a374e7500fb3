-- ===== src/Quality/Scheduler.antt =====
-- The scheduler of the quality checks (tools/land-quality/main.go).
use millstrand.Base.{
  ℕ, ◌+◌, ◌-◌, ◌/◌, Str, ltb, Bool, true, false, not, ◌&&◌, ◌||◌, Option, none, some, List, [], ◌∷◌,
  if◌then◌else◌, lookup, put, In, ◌≡◌,
}

-- `baseline` and `timeout` are durations in nanoseconds.
pub record Check : Type 0 where
  pub name : Str
  pub argv : List Str
  pub heavy : Bool
  pub deps : List Str
  pub baseline : ℕ
  pub timeout : ℕ

pub data Outcome : Type 0 where
  pass warn fail timeout : Outcome

pub data Status : Type 0 where
  pending running blocked : Status
  ended : Outcome → Status

abbrev pub growth_budget : ℕ → ℕ
growth_budget baseline = baseline + baseline / 10

-- `classifyResult`: whether the deadline has passed, and whether the execution failed.
unfoldable pub classify_result : Check → ℕ → Bool → Bool → Outcome
classify_result c elapsed timed_out execution_fails =
    if timed_out
    then timeout
    else if execution_fails
    then fail
    else if ltb (growth_budget c.baseline) elapsed
    then warn
    else pass

abbrev pub has_passed : Option Status → Bool
has_passed (some (ended pass)) = true
has_passed (some (ended warn)) = true
has_passed _ = false

abbrev pub has_failed : Option Status → Bool
has_failed (some (ended fail)) = true
has_failed (some (ended timeout)) = true
has_failed (some blocked) = true
has_failed _ = false

abbrev pub States : Type 0
States = List (Str × Status)

unfoldable pub all_passed : List Str → States → Bool
all_passed [] states = true
all_passed (dep ∷ deps) states = has_passed (lookup dep states) && all_passed deps states

abbrev pub dependencies_passed : Check → States → Bool
dependencies_passed c states = all_passed c.deps states

unfoldable pub first_failed : List Str → States → Option Str
first_failed [] states = none
first_failed (dep ∷ deps) states =
    if has_failed (lookup dep states) then some dep else first_failed deps states

abbrev pub failed_dependency : Check → States → Option Str
failed_dependency c states = first_failed c.deps states

-- The variables of `run`.
pub record Run : Type 0 where
  pub states : States
  pub running : ℕ
  pub heavy_running : ℕ

unfoldable pub initial_states : List Check → States
initial_states [] = []
initial_states (c ∷ checks) = put c.name pending (initial_states checks)

abbrev pub initial : List Check → Run
initial checks = record { states = initial_states checks; running = 0; heavy_running = 0 }

abbrev pub block : Check → Run → Run
block c r = record r { states = put c.name blocked r.states }

abbrev pub begin : Check → Run → Run
begin c r = record {
  states = put c.name running r.states;
  running = r.running + 1;
  heavy_running = if c.heavy then r.heavy_running + 1 else r.heavy_running;
}

abbrev pub consider_ready : ℕ → Bool → Check → Run → Run
consider_ready limit cancelled c r =
    if not (dependencies_passed c r.states) || c.heavy && not (ltb r.heavy_running limit)
    then r
    else if cancelled
    then block c r
    else begin c r

abbrev pub consider_pending : ℕ → Bool → Check → Run → Option Str → Run
consider_pending limit cancelled c r (some dep) = block c r
consider_pending limit cancelled c r none = consider_ready limit cancelled c r

abbrev pub consider_state : ℕ → Bool → Check → Run → Option Status → Run
consider_state limit cancelled c r (some pending) =
    consider_pending limit cancelled c r (failed_dependency c r.states)
consider_state limit cancelled c r _ = r

-- The body of the loop over the checks; `cancelled` is the error of the context.
unfoldable pub consider : ℕ → Bool → Check → Run → Run
consider limit cancelled c r = consider_state limit cancelled c r (lookup c.name r.states)

-- An outcome that comes from the channel.
unfoldable pub receive : Check → Outcome → Run → Run
receive c outcome r = record {
  states = put c.name (ended outcome) r.states;
  running = r.running - 1;
  heavy_running = if c.heavy then r.heavy_running - 1 else r.heavy_running;
}

-- What `run` does in any number of rounds: it considers checks, and receives the outcome of one
-- that it has started and not heard of.
pub data Step (checks : List Check) (limit : ℕ) : Run → Run → Type 0 where
  considers :
      (c : Check) (cancelled : Bool) (r : Run)
      → In c checks
      → Step checks limit r (consider limit cancelled c r)
  receives :
      (c : Check) (outcome : Outcome) (r : Run)
      → In c checks
      → lookup c.name r.states ≡ some running
      → Step checks limit r (receive c outcome r)

pub data Reach (checks : List Check) (limit : ℕ) : Run → Type 0 where
  starts : Reach checks limit (initial checks)
  later : {r t : Run} → Reach checks limit r → Step checks limit r t → Reach checks limit t
