-- ===== src/Quality/Limits.antt =====
-- What the scheduler keeps in every run (tools/land-quality/main.go).
use millstrand.Base.{ℕ, ◌≤◌, ◌≡◌, Bool, true, false, Option, some, List, lookup, In}
use millstrand.Quality.Scheduler.{Check, Status, running, ended, dependencies_passed, Run}
use millstrand.Quality.Counting.{heavy_count}

-- The check runs, or has run.
abbrev pub has_started : Option Status → Bool
has_started (some running) = true
has_started (some (ended outcome)) = true
has_started _ = false

pub record IsScheduled (checks : List Check) (limit : ℕ) (r : Run) : Type 0 where
  -- At most the limit of heavy checks run at once.
  pub counted : r.heavy_running ≡ heavy_count checks r.states
  pub bounded : r.heavy_running ≤ limit
  -- A check that has started has all its prerequisites passed.
  pub ready :
      (c : Check)
      → In c checks
      → has_started (lookup c.name r.states) ≡ true
      → dependencies_passed c r.states ≡ true
