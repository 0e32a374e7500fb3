-- ===== src/Mill/Jobs.antt =====
-- The jobs of a starting mill (cli/cmd/mill/autostart.go).
use millstrand.Base.{Str, ◌≡◌, ◌↔◌, some, List, In}
use millstrand.Mill.Autostart.{Registration, Surroundings, Grouping}
use millstrand.Mill.Grouping.{first_of}
use millstrand.Mill.JobOrder.{Sorted}

module _ (s : Surroundings) where
  -- The jobs ascend by their directories, and are the first registrations of their hosts.
  abbrev pub AreJobs : List Registration → List Registration → Type 0
  AreJobs entries jobs =
      Sorted jobs
      × ((r : Registration) → In r jobs ↔ ((key : Str) × (first_of s key entries ≡ some r)))
