-- ===== src/Mill/Autostart.antt =====
-- Which weavers a starting mill launches by itself, and the evidence of what failed
-- (cli/cmd/mill/autostart.go).
use millstrand.Base.{
  Str, text, str_eq, str_lt, is_blank, Bool, true, false, not, ◌&&◌, Option, none, some, List, [],
  ◌∷◌, ◌++◌, map, if◌then◌else◌, lookup, put, erase,
}

pub record Registration : Type 0 where
  pub config_dir : Str
  pub cwd : Str
  pub name : Str
  pub enabled : Bool

-- What the read and the decoding of one file give.
pub data EntryFile : Type 0 where
  unreadable undecoded : EntryFile
  decoded : Registration → EntryFile

pub data AutostartError : Type 0 where
  read_failure decode_failure invalid_registration : Str → AutostartError
  config_failure cleanup_failure : Str → AutostartError

-- The two settings that the mill asks of a workspace's configuration.
pub record StartConfig : Type 0 where
  pub auto_start : Bool
  pub jvm_pool : Option Str

-- The files of the autostart directory by base name, in the order of `filepath.Glob`, and the
-- failure record beside them.
pub record AutostartStore : Type 0 where
  pub files : List (Str × EntryFile)
  pub failure : Option (List AutostartError)

-- What the system answers: the base name of a workspace's registration, `config.Load`, whether a
-- file can be removed, whether the failure record can be written or removed, and whether the mill
-- shuts down.
pub record Surroundings : Type 0 where
  pub file_of : Str → Option Str
  pub load : Str → Option StartConfig
  pub removes : Str → Bool
  pub persists : Bool
  pub shutting_down : Bool

abbrev failure_file : Str
failure_file = text "startup-failure.json"

abbrev pub is_usable : Registration → Bool
is_usable r = r.enabled && not (is_blank r.config_dir) && not (is_blank r.cwd)

abbrev pub read_entry :
    Str
    → EntryFile
    → List Registration × List AutostartError
    → List Registration × List AutostartError
read_entry path unreadable (entries, failures) = (entries, read_failure path ∷ failures)
read_entry path undecoded (entries, failures) = (entries, decode_failure path ∷ failures)
read_entry path (decoded r) (entries, failures) =
    if is_usable r then (r ∷ entries, failures) else (entries, invalid_registration path ∷ failures)

-- The usable registrations, and the failures that their error joins.
unfoldable pub read_registrations : List (Str × EntryFile) → List Registration × List AutostartError
read_registrations [] = ([], [])
read_registrations ((path, file) ∷ files) =
    let rest = read_registrations files in
    if str_eq path failure_file then rest else read_entry path file rest

-- `removeAutoStart`; a file that is not there is no failure.
unfoldable pub remove_autostart : Surroundings → Str → AutostartStore → Option AutostartStore
remove_autostart s dir store = elim (s.file_of dir) [
  | none ↦ none
  | some file ↦
      if s.removes file then some (record store { files = erase file store.files }) else none
]

-- `registerAutoStart`, of an absolute working directory; `writes` is whether the file is written.
unfoldable pub register_autostart :
    Surroundings → Bool → Str → Str → Str → AutostartStore → Option AutostartStore
register_autostart s writes dir cwd name store =
    if is_blank cwd then none else elim (s.file_of dir) [
      | none ↦ none
      | some file ↦
          if writes
          then some (record store {
            files =
                put file
                  (decoded (record { config_dir = dir; cwd = cwd; name = name; enabled = true }))
                  store.files;
          })
          else none
    ]

abbrev pub group_key : Registration → Option Str → Str
group_key entry none = text "world:" ++ entry.config_dir
group_key entry (some pool) = text "pool:" ++ pool

-- The loop of `startAutostart` over the registrations.
pub record Grouping : Type 0 where
  pub grouped : List (Str × Registration)
  pub opted_out : Bool
  pub failures : List AutostartError
  pub store : AutostartStore

abbrev pub keep_found : Str → Registration → Grouping → Option Registration → Grouping
keep_found key entry g none = record g { grouped = put key entry g.grouped }
keep_found key entry g (some first) = g

abbrev pub keep_first : Str → Registration → Grouping → Grouping
keep_first key entry g = keep_found key entry g (lookup key g.grouped)

abbrev pub opt_out : Registration → Option AutostartStore → Grouping → Grouping
opt_out entry none g = record g { failures = g.failures ++ cleanup_failure entry.config_dir ∷ [] }
opt_out entry (some store) g = record g { opted_out = true; store = store }

abbrev pub group_entry : Surroundings → Registration → Option StartConfig → Grouping → Grouping
group_entry s entry none g = record g {
  failures = g.failures ++ config_failure entry.config_dir ∷ [];
}
group_entry s entry (some config) g =
    if not config.auto_start
    then opt_out entry (remove_autostart s entry.config_dir g.store) g
    else keep_first (group_key entry config.jvm_pool) entry g

unfoldable pub group_entries : Surroundings → List Registration → Grouping → Grouping
group_entries s [] g = g
group_entries s (entry ∷ entries) g =
    group_entries s entries (group_entry s entry (s.load entry.config_dir) g)

-- `writeAutostartFailure`, with `clearAutostartFailure`.
abbrev pub evidence : List AutostartError → Option (List AutostartError)
evidence [] = none
evidence (e ∷ es) = some (e ∷ es)

unfoldable pub persist_failures :
    Surroundings → List AutostartError → Bool → AutostartStore → AutostartStore
persist_failures s failures explicit_opt_out store =
    if s.shutting_down && not explicit_opt_out
    then store
    else if s.persists
    then record store { failure = evidence failures }
    else store

unfoldable pub insert_job : Registration → List Registration → List Registration
insert_job r [] = r ∷ []
insert_job r (x ∷ xs) =
    let rest = insert_job r xs in if str_lt x.config_dir r.config_dir then x ∷ rest else r ∷ x ∷ xs

unfoldable pub sort_jobs : List Registration → List Registration
sort_jobs [] = []
sort_jobs (r ∷ rs) = insert_job r (sort_jobs rs)

abbrev pub is_none : {A : Type 0} → List A → Bool
is_none [] = true
is_none (x ∷ xs) = false

abbrev pub start_grouped :
    Surroundings → Grouping → AutostartStore × List Registration × List AutostartError
start_grouped s g =
    if is_none g.grouped
    then (persist_failures s g.failures (g.opted_out && is_none g.failures) g.store, [], g.failures)
    else (g.store, sort_jobs (map (λ e. e.1) g.grouped), g.failures)

-- The loop over what was read; the failures of the reading are one error, here in a row.
abbrev pub start_read :
    Surroundings
    → AutostartStore
    → List Registration × List AutostartError
    → AutostartStore × List Registration × List AutostartError
start_read s store ([], failures) = (persist_failures s failures false store, [], failures)
start_read s store (entry ∷ entries, failures) = start_grouped s (
    group_entries s (entry ∷ entries)
      (record { grouped = []; opted_out = false; failures = failures; store = store }))

-- `startAutostart` up to the launch of its jobs: the directory, the jobs in their order, and the
-- failures so far.
unfoldable pub start_autostart :
    Surroundings → AutostartStore → AutostartStore × List Registration × List AutostartError
start_autostart s store = start_read s store (read_registrations store.files)
