-- ===== src/Dispatch/RoundTrip.antt =====
-- Flags printed and parsed again (cli/internal/dispatch/dispatch.go).
use mathlib.Core.Bool.{or-true}
use mathlib.Core.List.{append_assoc, append-nil}
use millstrand.Base.{
  Str, text, str_eq, has_prefix, trim_prefix, ◌≡◌, refl, ap, ◌∙◌, Bool, true, false, ◌||◌, any,
  if◌then◌else◌, List, [], ◌∷◌, ◌++◌, Result, ok, arith,
}
use millstrand.Dispatch.Args.{
  Parsed, ParseError, zero_parsed, ValueFlag, workspace_flag, cwd_flag, worktree_root_flag,
  git_common_dir_flag, timeout_flag, payload_flag, flag_name, set_flag, next, needs, operation,
  turn, parse_from, parse,
}
use millstrand.Dispatch.Parsing.{step_next, step_needs, step_operation}

-- A flag as a user writes it.
pub data Word : Type 0 where
  help_word short_help_word version_word dry_run_word stdin_word : Word
  spaced : ValueFlag → Str → Word
  joined : ValueFlag → Str → Word

abbrev pub print_word : Word → List Str
print_word help_word = text "--help" ∷ []
print_word short_help_word = text "-h" ∷ []
print_word version_word = text "--version" ∷ []
print_word dry_run_word = text "--dry-run" ∷ []
print_word stdin_word = text "--stdin" ∷ []
print_word (spaced flag v) = flag_name flag ∷ v ∷ []
print_word (joined flag v) = (flag_name flag ++ (text "=" ++ v)) ∷ []

-- What the flag means.
abbrev mean : Parsed → Word → Parsed
mean p help_word = record p { help = true }
mean p short_help_word = record p { help = true }
mean p version_word = record p { version = true }
mean p dry_run_word = record p { dry_run = true }
mean p stdin_word = record p { stdin = true }
mean p (spaced flag v) = set_flag flag v p
mean p (joined flag v) = set_flag flag v p

unfoldable pub print_words : List Word → List Str
print_words [] = []
print_words (w ∷ ws) = print_word w ++ print_words ws

meaning : Parsed → List Word → Parsed
meaning p [] = p
meaning p (w ∷ ws) = meaning (mean p w) ws

spaced_turn : (p : Parsed) (flag : ValueFlag) → turn p (flag_name flag) ≡ needs flag
unfolding turn str_eq has_prefix trim_prefix
spaced_turn p workspace_flag = refl
spaced_turn p cwd_flag = refl
spaced_turn p worktree_root_flag = refl
spaced_turn p git_common_dir_flag = refl
spaced_turn p timeout_flag = refl
spaced_turn p payload_flag = refl

joined_turn :
    (p : Parsed) (flag : ValueFlag) (v : Str)
    → turn p (flag_name flag ++ (text "=" ++ v)) ≡ next (set_flag flag v p)
unfolding turn str_eq has_prefix trim_prefix
joined_turn p workspace_flag v = refl
joined_turn p cwd_flag v = refl
joined_turn p worktree_root_flag v = refl
joined_turn p git_common_dir_flag v = refl
joined_turn p timeout_flag v = refl
joined_turn p payload_flag v = refl

operation_turn : (p : Parsed) (a : Str) → has_prefix a (text "-") ≡ false → turn p a ≡ operation
unfolding turn str_eq has_prefix
operation_turn p [] h = refl
operation_turn p (c ∷ a) h = ground arith

parse_from-print_word :
    (p : Parsed) (w : Word) (words : List Str)
    → parse_from p (print_word w ++ words) ≡ parse_from (mean p w) words
unfolding turn str_eq
parse_from-print_word p help_word words = step_next p (text "--help") _ words refl
parse_from-print_word p short_help_word words = step_next p (text "-h") _ words refl
parse_from-print_word p version_word words = step_next p (text "--version") _ words refl
parse_from-print_word p dry_run_word words = step_next p (text "--dry-run") _ words refl
parse_from-print_word p stdin_word words = step_next p (text "--stdin") _ words refl
parse_from-print_word p (spaced flag v) words =
    step_needs p (flag_name flag) flag v words (spaced_turn p flag)
parse_from-print_word p (joined flag v) words =
    step_next p (flag_name flag ++ (text "=" ++ v)) (set_flag flag v p) words (joined_turn p flag v)

parse_from-print_words :
    (p : Parsed) (ws : List Word) (words : List Str)
    → parse_from p (print_words ws ++ words) ≡ parse_from (meaning p ws) words
unfolding print_words meaning
parse_from-print_words p [] words = refl
parse_from-print_words p (w ∷ ws) words = rw (append_assoc (print_word w) (print_words ws) words) (
    parse_from-print_word p w (print_words ws ++ words)
    ∙ parse_from-print_words (mean p w) ws words)

abbrev flag_eq : ValueFlag → ValueFlag → Bool
flag_eq workspace_flag workspace_flag = true
flag_eq cwd_flag cwd_flag = true
flag_eq worktree_root_flag worktree_root_flag = true
flag_eq git_common_dir_flag git_common_dir_flag = true
flag_eq timeout_flag timeout_flag = true
flag_eq payload_flag payload_flag = true
flag_eq _ _ = false

abbrev word_values : ValueFlag → Word → List Str
word_values flag (spaced other v) = if flag_eq flag other then v ∷ [] else []
word_values flag (joined other v) = if flag_eq flag other then v ∷ [] else []
word_values flag _ = []

-- The values of a flag, in the order they are written in.
abbrev pub values : ValueFlag → List Word → List Str
values flag [] = []
values flag (w ∷ ws) = word_values flag w ++ values flag ws

abbrev pub last : Str → List Str → Str
last s [] = s
last s (t ∷ ts) = last t ts

abbrev filled : List Str → Bool
filled [] = false
filled (s ∷ ss) = true

abbrev is_help : Word → Bool
is_help help_word = true
is_help short_help_word = true
is_help _ = false

abbrev is_version : Word → Bool
is_version version_word = true
is_version _ = false

abbrev is_dry_run : Word → Bool
is_dry_run dry_run_word = true
is_dry_run _ = false

abbrev is_stdin : Word → Bool
is_stdin stdin_word = true
is_stdin _ = false

-- The words as a whole: of a flag that is repeated the last value counts, and all payloads do.
abbrev pub described : Parsed → List Word → Parsed
described p ws = record p {
  workspace = last p.workspace (values workspace_flag ws);
  cwd = last p.cwd (values cwd_flag ws);
  worktree_root = last p.worktree_root (values worktree_root_flag ws);
  git_common_dir = last p.git_common_dir (values git_common_dir_flag ws);
  timeout = last p.timeout (values timeout_flag ws);
  timeout_set = filled (values timeout_flag ws) || p.timeout_set;
  payloads = p.payloads ++ values payload_flag ws;
  help = any is_help ws || p.help;
  version = any is_version ws || p.version;
  dry_run = any is_dry_run ws || p.dry_run;
  stdin = any is_stdin ws || p.stdin;
}

described-set_flag :
    (p : Parsed) (flag : ValueFlag) (v : Str) (ws : List Word)
    → described (set_flag flag v p) ws ≡ described p (spaced flag v ∷ ws)
unfolding any
described-set_flag p workspace_flag v ws = refl
described-set_flag p cwd_flag v ws = refl
described-set_flag p worktree_root_flag v ws = refl
described-set_flag p git_common_dir_flag v ws = refl
described-set_flag p timeout_flag v ws = rw (or-true (filled (values timeout_flag ws))) refl
described-set_flag p payload_flag v ws =
    rw (append_assoc p.payloads (v ∷ []) (values payload_flag ws)) refl

described-mean :
    (p : Parsed) (w : Word) (ws : List Word) → described (mean p w) ws ≡ described p (w ∷ ws)
unfolding any
described-mean p help_word ws = rw (or-true (any is_help ws)) refl
described-mean p short_help_word ws = rw (or-true (any is_help ws)) refl
described-mean p version_word ws = rw (or-true (any is_version ws)) refl
described-mean p dry_run_word ws = rw (or-true (any is_dry_run ws)) refl
described-mean p stdin_word ws = rw (or-true (any is_stdin ws)) refl
described-mean p (spaced flag v) ws = described-set_flag p flag v ws
described-mean p (joined flag v) ws = described-set_flag p flag v ws

meaning_lem : (p : Parsed) (ws : List Word) → meaning p ws ≡ described p ws
unfolding meaning any
meaning_lem p [] = rw (append-nil p.payloads) refl
meaning_lem p (w ∷ ws) = meaning_lem (mean p w) ws ∙ described-mean p w ws

-- Flags in any order and in either form, an op that does not begin with a dash, and any words
-- behind it are parsed: each value flag holds the last value given for it, the payloads are all
-- of them in order, a Boolean flag is set exactly if it is given, the timeout is noted exactly if
-- one is given, and the op and the words behind it are kept as they are.
pub parse-print_words :
    (ws : List Word) (op : Str) (argv : List Str)
    → has_prefix op (text "-") ≡ false
    → parse (print_words ws ++ op ∷ argv)
      ≡ ok (record (described zero_parsed ws) { have_op = true; op_name = op; argv = argv })
unfolding parse
parse-print_words ws op argv h =
    parse_from-print_words zero_parsed ws (op ∷ argv)
    ∙ step_operation (meaning zero_parsed ws) op argv (operation_turn (meaning zero_parsed ws) op h)
    ∙ ap {A = Parsed} {B = Result ParseError Parsed}
        (λ p. ok (record p { have_op = true; op_name = op; argv = argv }))
        (meaning_lem zero_parsed ws)
