-- ===== src/Mill/Tests.antt =====
-- A mill that starts, and each theorem at a concrete input.
use millstrand.Base.{
  Str, text, str_eq, str_lt, is_blank, trim_space, ◌≡◌, refl, true, false, some, none, [], ◌∷◌,
  if◌then◌else◌, lookup, put,
}
use millstrand.Mill.Autostart.{
  Registration, unreadable, decoded, AutostartStore, read_failure, config_failure, Surroundings,
  read_registrations, remove_autostart, group_entries, insert_job, sort_jobs, start_autostart,
}

abbrev entry : Str → Registration
entry dir = record { config_dir = dir; cwd = text "/"; name = []; enabled = true }

-- Two members of a pool, a workspace of its own, one that opts out, and one without configuration.
abbrev store : AutostartStore
store = record {
  files =
      (text "1", decoded (entry (text "/w/b")))
      ∷ (text "2", decoded (entry (text "/w/a")))
      ∷ (text "3", decoded (entry (text "/w/c")))
      ∷ (text "4", decoded (entry (text "/w/off")))
      ∷ (text "5", decoded (entry (text "/w/gone")))
      ∷ (text "6", unreadable)
      ∷ (text "startup-failure.json", unreadable)
      ∷ [];
  failure = none;
}

abbrev surroundings : Surroundings
surroundings = record {
  file_of = λ dir. if str_eq dir (text "/w/off") then some (text "4") else none;
  load = λ dir.
      if str_eq dir (text "/w/gone")
      then none
      else if str_eq dir (text "/w/off")
      then some (record { auto_start = false; jvm_pool = none })
      else if str_eq dir (text "/w/c")
      then some (record { auto_start = true; jvm_pool = none })
      else some (record { auto_start = true; jvm_pool = some (text "p") });
  removes = λ file. true;
  persists = true;
  shutting_down = false;
}

start_autostart_jobs :
    (start_autostart surroundings store).1 ≡ entry (text "/w/b") ∷ entry (text "/w/c") ∷ []
unfolding start_autostart read_registrations group_entries remove_autostart sort_jobs insert_job
    str_eq str_lt is_blank trim_space lookup put
start_autostart_jobs = refl

start_autostart_failures :
    (start_autostart surroundings store).2
    ≡ read_failure (text "6") ∷ config_failure (text "/w/gone") ∷ []
unfolding start_autostart read_registrations group_entries remove_autostart sort_jobs insert_job
    str_eq str_lt is_blank trim_space lookup put
start_autostart_failures = refl
