-- ===== src/Client/Metadata.antt =====
-- The metadata of the running mill (cli/internal/client/mill.go), and the storage identity of a
-- weaver (cli/internal/client/client.go).
use millstrand.Base.{
  ℕ, Str, text, str_eq, is_blank, Bool, true, false, not, ◌||◌, Option, none, some, List, [], ◌∷◌,
  ◌==◌, if◌then◌else◌, ℤ, pos, Result, ok, err, ◌>>◌, ◌>>=◌,
}

pub record MillMetadata : Type 0 where
  pub protocol_version : ℤ
  pub mill_version : Str
  pub pid : ℤ
  pub mill_id : Str
  pub state_root : Str
  pub socket_path : Str
  pub started_at : Str
  pub mill_build : Str

pub data MetadataError : Type 0 where
  no_metadata_path no_running_mill unreadable_metadata malformed_metadata no_state_root :
      MetadataError
  missing_fields : List Str → MetadataError
  state_root_mismatch socket_mismatch stale_metadata mill_protocol_mismatch : MetadataError

-- `os.ReadFile`
pub data MetadataFile : Type 0 where
  absent unreadable : MetadataFile
  content : Str → MetadataFile

-- What the system and the configuration answer: the file, `json.Unmarshal`, the state root, the
-- socket path in it, `samePath` and whether a process is alive.
pub record MillWorld : Type 0 where
  pub has_metadata_path : Bool
  pub file : MetadataFile
  pub decode : Str → Option MillMetadata
  pub state_root : Option Str
  pub socket_in : Str → Str
  pub same_path : Str → Str → Bool
  pub pid_alive : ℤ → Bool

abbrev pub mill_protocol_version : ℕ
mill_protocol_version = 3

abbrev pub is_int : ℕ → ℤ → Bool
is_int n (pos k) = n == k
is_int n _ = false

abbrev pub missing_if : Bool → Str → List Str → List Str
missing_if true name names = name ∷ names
missing_if false name names = names

unfoldable pub missing_metadata_fields : MillMetadata → List Str
missing_metadata_fields m = missing_if (is_int 0 m.protocol_version) (text "protocol_version") (
    missing_if (is_int 0 m.pid) (text "pid") (
      missing_if (str_eq m.mill_id []) (text "mill_id") (
        missing_if (str_eq m.state_root []) (text "state_root") (
          missing_if (str_eq m.socket_path []) (text "socket_path")
            (missing_if (str_eq m.started_at []) (text "started_at") [])))))

abbrev pub ensure : Bool → MetadataError → Result MetadataError (Unit {0})
ensure true e = ok tt
ensure false e = err e

abbrev pub or_else : {A : Type 0} → Option A → MetadataError → Result MetadataError A
or_else none e = err e
or_else (some a) e = ok a

abbrev pub read_file : MetadataFile → Result MetadataError Str
read_file absent = err no_running_mill
read_file unreadable = err unreadable_metadata
read_file (content s) = ok s

abbrev pub complete : List Str → Result MetadataError (Unit {0})
complete [] = ok tt
complete (name ∷ names) = err (missing_fields (name ∷ names))

abbrev pub check_metadata : MillWorld → MillMetadata → Str → Result MetadataError MillMetadata
check_metadata w m root = do
  complete (missing_metadata_fields m)
  ensure (w.same_path m.state_root root) state_root_mismatch
  ensure (w.same_path m.socket_path (w.socket_in root)) socket_mismatch
  ensure (w.pid_alive m.pid) stale_metadata
  ensure (is_int mill_protocol_version m.protocol_version) mill_protocol_mismatch
  ok m

unfoldable pub read_mill_metadata : MillWorld → Result MetadataError MillMetadata
read_mill_metadata w = do
  ensure w.has_metadata_path no_metadata_path
  s ← read_file w.file
  m ← or_else (w.decode s) malformed_metadata
  root ← or_else w.state_root no_state_root
  check_metadata w m root

unfoldable pub build_label : Str → Str
build_label [] = text "unstamped"
build_label (c ∷ build) = c ∷ build

-- The storage fields of a weaver's metadata.
pub record Storage : Type 0 where
  pub kind : Str
  pub label : Str
  pub path : Option Str

pub data StorageError : Type 0 where
  blank_label inconsistent_file inconsistent_memory unknown_kind : StorageError

unfoldable pub database_path_string : Storage → Str
database_path_string m = elim m.path [ none ↦ [] | some path ↦ path ]

abbrev pub check_file : Str → Option Str → Result StorageError (Unit {0})
check_file label none = err inconsistent_file
check_file label (some path) =
    if is_blank path || not (str_eq label path) then err inconsistent_file else ok tt

abbrev pub check_memory : Option Str → Result StorageError (Unit {0})
check_memory none = ok tt
check_memory (some path) = err inconsistent_memory

unfoldable pub validate_storage_identity : Storage → Result StorageError (Unit {0})
validate_storage_identity m =
    if is_blank m.label
    then err blank_label
    else if str_eq m.kind (text "sqlite-file")
    then check_file m.label m.path
    else if str_eq m.kind (text "sqlite-memory")
    then check_memory m.path
    else err unknown_kind
