-- ===== src/Custody/Terminate.antt =====
-- How a process tree is stopped (cli/internal/process/custody.go).
use millstrand.Base.{Bool, List, [], ◌∷◌, if◌then◌else◌}

pub data Stop : Type 0 where
  graceful forced uncertain : Stop

-- One look at the group.
pub data Probe : Type 0 where
  live gone failed : Probe

-- What the wait reports: the group is gone, it outlived the deadline, or a look failed.
pub data Waited : Type 0 where
  vanished outlived unknown : Waited

-- `waitProcessGroupGone`, over the looks that the deadline leaves time for; there is always one.
unfoldable pub wait_group_gone : Probe → List Probe → Waited
wait_group_gone gone later = vanished
wait_group_gone failed later = unknown
wait_group_gone live [] = outlived
wait_group_gone live (p ∷ ps) = wait_group_gone p ps

-- What the kernel answers in one termination.
pub record Kernel : Type 0 where
  pub term_fails : Bool
  pub after_term : Probe
  pub term_looks : List Probe
  pub kill_fails : Bool
  pub after_kill : Probe
  pub kill_looks : List Probe

pub data TreeError : Type 0 where
  term_refused kill_refused look_failed survived : TreeError

pub record Stopped : Type 0 where
  pub stop : Stop
  pub failure : List TreeError

abbrev pub stopped_as : Stop → Stopped
stopped_as s = record { stop = s; failure = [] }

abbrev pub uncertain_by : TreeError → Stopped
uncertain_by e = record { stop = uncertain; failure = e ∷ [] }

abbrev pub after_second : Waited → Stopped
after_second vanished = stopped_as forced
after_second outlived = uncertain_by survived
after_second unknown = uncertain_by look_failed

abbrev pub after_first : Kernel → Waited → Stopped
after_first k vanished = stopped_as graceful
after_first k unknown = uncertain_by look_failed
after_first k outlived =
    if k.kill_fails
    then uncertain_by kill_refused
    else after_second (wait_group_gone k.after_kill k.kill_looks)

-- `terminateProcessTreeWithSignal`
unfoldable pub terminate_process_tree : Kernel → Stopped
terminate_process_tree k =
    if k.term_fails
    then uncertain_by term_refused
    else after_first k (wait_group_gone k.after_term k.term_looks)
