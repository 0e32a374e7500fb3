-- ===== src/Dispatch/Args.antt =====
-- `parse`: the dispatcher's flags, the op and its argv (cli/internal/dispatch/dispatch.go).
use millstrand.Base.{
  Str, text, str_eq, has_prefix, trim_prefix, Bool, true, false, ◌||◌, List, [], ◌∷◌, ◌++◌,
  if◌then◌else◌, Result, ok, err,
}

pub record Parsed : Type 0 where
  pub workspace : Str
  pub cwd : Str
  pub worktree_root : Str
  pub git_common_dir : Str
  pub stdin : Bool
  pub payloads : List Str
  pub timeout : Str
  pub timeout_set : Bool
  pub dry_run : Bool
  pub version : Bool
  pub help : Bool
  pub have_op : Bool
  pub op_name : Str
  pub argv : List Str

-- `var p parsed`
abbrev pub zero_parsed : Parsed
zero_parsed = record {
  workspace = [];
  cwd = [];
  worktree_root = [];
  git_common_dir = [];
  stdin = false;
  payloads = [];
  timeout = [];
  timeout_set = false;
  dry_run = false;
  version = false;
  help = false;
  have_op = false;
  op_name = [];
  argv = [];
}

-- The flags that take a value.
pub data ValueFlag : Type 0 where
  workspace_flag cwd_flag worktree_root_flag git_common_dir_flag timeout_flag payload_flag :
      ValueFlag

pub data ParseError : Type 0 where
  unknown_flag : Str → ParseError
  flag_needs_argument : ValueFlag → ParseError

abbrev pub flag_name : ValueFlag → Str
flag_name workspace_flag = text "--workspace"
flag_name cwd_flag = text "--cwd"
flag_name worktree_root_flag = text "--worktree-root"
flag_name git_common_dir_flag = text "--git-common-dir"
flag_name timeout_flag = text "--timeout"
flag_name payload_flag = text "--payload"

unfoldable pub flag_matches : Str → Str → Bool
flag_matches arg name = str_eq arg name || has_prefix arg (name ++ text "=")

-- The assignments of the value cases.
abbrev pub set_flag : ValueFlag → Str → Parsed → Parsed
set_flag workspace_flag v p = record p { workspace = v }
set_flag cwd_flag v p = record p { cwd = v }
set_flag worktree_root_flag v p = record p { worktree_root = v }
set_flag git_common_dir_flag v p = record p { git_common_dir = v }
set_flag timeout_flag v p = record p { timeout = v; timeout_set = true }
set_flag payload_flag v p = record p { payloads = p.payloads ++ v ∷ [] }

-- What the switch does with one word.
pub data Turn : Type 0 where
  next : Parsed → Turn
  needs : ValueFlag → Turn
  unknown operation : Turn

-- A value flag: the value behind `=`, or the next word.
abbrev value_turn : ValueFlag → Parsed → Str → Turn
value_turn flag p a =
    if has_prefix a (flag_name flag ++ text "=")
    then next (set_flag flag (trim_prefix a (flag_name flag ++ text "=")) p)
    else needs flag

unfoldable pub turn : Parsed → Str → Turn
unfolding flag_matches
turn p a =
    if str_eq a (text "--help") || str_eq a (text "-h")
    then next (record p { help = true })
    else if str_eq a (text "--version")
    then next (record p { version = true })
    else if str_eq a (text "--dry-run")
    then next (record p { dry_run = true })
    else if str_eq a (text "--stdin")
    then next (record p { stdin = true })
    else if flag_matches a (flag_name workspace_flag)
    then value_turn workspace_flag p a
    else if flag_matches a (flag_name cwd_flag)
    then value_turn cwd_flag p a
    else if flag_matches a (flag_name worktree_root_flag)
    then value_turn worktree_root_flag p a
    else if flag_matches a (flag_name git_common_dir_flag)
    then value_turn git_common_dir_flag p a
    else if flag_matches a (flag_name timeout_flag)
    then value_turn timeout_flag p a
    else if flag_matches a (flag_name payload_flag)
    then value_turn payload_flag p a
    else if has_prefix a (text "-")
    then unknown
    else operation

-- The loop, over the words from index i on. The rest behind the op is opaque.
unfoldable pub parse_from : Parsed → List Str → Result ParseError Parsed
parse_from p [] = ok p
parse_from p (a ∷ []) = elim (turn p a) [
  | next q ↦ ok q
  | needs flag ↦ err (flag_needs_argument flag)
  | unknown ↦ err (unknown_flag a)
  | operation ↦ ok (record p { have_op = true; op_name = a; argv = [] })
]
parse_from p (a ∷ b ∷ rest) = elim (turn p a) [
  | next q ↦ parse_from q (b ∷ rest)
  | needs flag ↦ parse_from (set_flag flag b p) rest
  | unknown ↦ err (unknown_flag a)
  | operation ↦ ok (record p { have_op = true; op_name = a; argv = b ∷ rest })
]

unfoldable pub parse : List Str → Result ParseError Parsed
unfolding parse_from
parse args = parse_from zero_parsed args
