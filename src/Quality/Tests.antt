-- ===== src/Quality/Tests.antt =====
-- A run of three checks, and each theorem at a concrete input.
use millstrand.Base.{text, str_eq, ◌≡◌, refl, true, false, List, [], ◌∷◌, lookup, put, some}
use millstrand.Quality.Scheduler.{
  Check, Run, running, all_passed, first_failed, initial, initial_states, consider, receive, warn,
}

abbrev builder : Check
builder = record {
  name = text "build";
  argv = text "make" ∷ [];
  heavy = true;
  deps = [];
  baseline = 100;
  timeout = 1000;
}

abbrev docs : Check
docs = record builder { name = text "docs"; deps = text "build" ∷ [] }

abbrev checks : List Check
checks = builder ∷ docs ∷ []

abbrev begun : Run
begun = consider 1 false builder (initial checks)

-- The second check waits for the first, and starts when that has passed.
abbrev going : Run
going = consider 1 false docs (receive builder warn (consider 1 false docs begun))

docs_running : lookup (text "docs") going.states ≡ some running
unfolding consider initial_states put lookup str_eq first_failed all_passed receive
docs_running = refl
