-- ===== src/Custody/Final.antt =====
-- What is terminal in the custody service stays (cli/internal/process/custody.go).
use millstrand.Base.{Str, ◌≡◌, Bool, some, ok, lookup}
use millstrand.Custody.Row.{Row, record_of}
use millstrand.Custody.Service.{Custody, acknowledge}
use millstrand.Custody.Runs.{Step, launches, cancels_row, acknowledges, shuts_down, goes_on}

-- The step is an acknowledgement of that handle, which succeeds.
abbrev pub Acknowledges : {fallible : Bool} {c d : Custody} → Str → Step fallible c d → Type 0
Acknowledges handle (launches sys owner key spec c fresh) = ⊥
Acknowledges handle (cancels_row owner x c) = ⊥
Acknowledges handle (acknowledges owner x removed c) =
    (handle ≡ x) × ((acknowledge owner x removed c).1 ≡ ok tt)
Acknowledges handle (shuts_down c) = ⊥
Acknowledges handle (goes_on x r t c found st) = ⊥

-- The handle still has a row, with that public record.
abbrev pub Keeps : Str → Row → Custody → Type 0
Keeps handle r d = (t : Row) × (lookup handle d.by_handle ≡ some t) × (record_of t ≡ record_of r)
