-- ===== src/Pools/Membership.antt =====
-- The rows of the registry and their validation (cli/internal/jvmpool/registry.go).
use millstrand.Base.{
  Str, text, str_eq, str_lt, has_prefix, is_blank, is_abs, clean, Bool, not, ◌&&◌, ◌||◌, Option,
  none, some, List, [], ◌∷◌, any, if◌then◌else◌, Result, ok, err, ◌>>◌,
}

pub record Member : Type 0 where
  pub config_dir : Str
  pub source_cwd : Str
  pub jvm_pool : Str

-- `members` is a Go slice: `none` is nil, which JSON `null` or a missing key leaves.
pub record Document : Type 0 where
  pub format : Str
  pub revision : Str
  pub members : Option (List Member)

pub record LiveOwner : Type 0 where
  pub pool : Str
  pub host_id : Str

-- The map from config directories to the hosts that own them.
abbrev pub LiveOwnership : Type 0
LiveOwnership = Str → Option LiveOwner

-- The steps of `atomicWrite` that may fail; the last is its deferred `os.Remove`, whose failure is
-- ignored.
pub data WriteStep : Type 0 where
  make_directory encode create_temporary change_mode write_bytes sync_file close_file : WriteStep
  rename open_directory sync_directory remove_temporary : WriteStep

pub data Label : Type 0 where
  config_dir_label source_cwd_label state_root_label membership_path_label : Label

-- What `ValidatePool` collects of one member.
pub data MemberFault : Type 0 where
  unresolved wrong_config_dir wrong_source_cwd omitted_pool blank_pool_value wrong_pool :
      MemberFault

pub data Error : Type 0 where
  bad_path : Label → Str → Error
  blank_pool : Error
  bad_format bad_revision nil_members unsorted_members : Error
  duplicate_member : Str → Error
  read_failed malformed trailing_json : Error
  stop_required : Str → LiveOwner → Error
  revision_failed : Error
  write_failed : WriteStep → Error
  resolver_required : Error
  invalid_members : List (Str × MemberFault) → Error
  wrong_artifact_key : Error

abbrev pub membership_format : Str
membership_format = text "millstrand.jvm-pool-membership/v1"

abbrev pub revision_prefix : Str
revision_prefix = text "membership-"

-- The slice as a list: nil has no element.
abbrev pub items : Option (List Member) → List Member
items none = []
items (some ms) = ms

unfoldable pub validate_canonical_path : Label → Str → Result Error (Unit {0})
validate_canonical_path label path =
    if str_eq path [] || not (is_abs path) || not (str_eq (clean path) path)
    then err (bad_path label path)
    else ok tt

unfoldable pub validate_canonical_config_dir : Str → Result Error (Unit {0})
unfolding validate_canonical_path
validate_canonical_config_dir path = validate_canonical_path config_dir_label path

unfoldable pub validate_pool_name : Str → Result Error (Unit {0})
validate_pool_name pool = if is_blank pool then err blank_pool else ok tt

unfoldable pub validate_member : Member → Result Error (Unit {0})
validate_member m = do
  validate_canonical_config_dir m.config_dir
  validate_canonical_path source_cwd_label m.source_cwd
  validate_pool_name m.jvm_pool

-- The loop with the set `seen`.
unfoldable pub check_rows : List Str → List Member → Result Error (Unit {0})
check_rows seen [] = ok tt
check_rows seen (m ∷ ms) = do
  validate_member m
  if any (str_eq m.config_dir) seen
      then err (duplicate_member m.config_dir)
      else check_rows (m.config_dir ∷ seen) ms

-- The loop over neighbours: `a >= b` is the failure of `a < b`.
unfoldable pub check_sorted : List Member → Result Error (Unit {0})
check_sorted (a ∷ b ∷ rest) =
    if str_lt a.config_dir b.config_dir then check_sorted (b ∷ rest) else err unsorted_members
check_sorted _ = ok tt

abbrev pub check_members : Option (List Member) → Result Error (Unit {0})
check_members none = err nil_members
check_members (some ms) = do check_rows [] ms; check_sorted ms

unfoldable pub validate_document : Document → Bool → Result Error (Unit {0})
validate_document doc persisted =
    if not (str_eq doc.format membership_format)
    then err bad_format
    else if persisted && (str_eq doc.revision [] || not (has_prefix doc.revision revision_prefix))
    then err bad_revision
    else check_members doc.members
