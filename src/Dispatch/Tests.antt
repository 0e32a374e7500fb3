-- ===== src/Dispatch/Tests.antt =====
-- Command lines, and each theorem at a concrete input.
use millstrand.Base.{
  Str, text, str_eq, has_prefix, trim_prefix, any, ◌≡◌, refl, ◌↔◌, true, false, some, none, List,
  [], ◌∷◌, ◌++◌, if◌then◌else◌, ok, err,
}
use millstrand.Dispatch.Args.{
  Parsed, zero_parsed, workspace_flag, payload_flag, timeout_flag, flag_needs_argument,
  unknown_flag, turn, parse_from, parse,
}
use millstrand.Dispatch.RoundTrip.{
  Word, stdin_word, spaced, joined, print_words, described, parse-print_words,
}
use millstrand.Dispatch.Envelope.{
  World, Context, Slots, slot, cut, build_payloads, resolve_context, duplicate_slot,
}
use millstrand.Dispatch.Run.{Envelope, Process, no_error, assemble_envelope, prepare, run}
use millstrand.Dispatch.Outcomes.{Requests, sent_iff}
use millstrand.Dispatch.Payloads.{Payloads, build_payloads-Payloads}
use millstrand.Dispatch.Selection.{start, Kept, resolve_context-Kept}

abbrev words : List Word
words =
    stdin_word ∷ spaced workspace_flag (text "w") ∷ joined payload_flag (text "body=notes.md") ∷ []

abbrev argv : List Str
argv = text "Title" ∷ text "--attr" ∷ text "body=:stdin" ∷ []

abbrev line : List Str
line = print_words words ++ text "add" ∷ argv

abbrev added : Parsed
added = record zero_parsed {
  stdin = true;
  workspace = text "w";
  payloads = text "body=notes.md" ∷ [];
  have_op = true;
  op_name = text "add";
  argv = argv;
}

parse-line : parse line ≡ ok added
unfolding parse turn print_words str_eq has_prefix trim_prefix
parse-line = refl

parse-missing :
    parse (text "--cwd" ∷ []) ≡ err (flag_needs_argument millstrand.Dispatch.Args.cwd_flag)
unfolding parse turn str_eq has_prefix
parse-missing = refl

dash_free : has_prefix (text "add") (text "-") ≡ false
unfolding has_prefix
dash_free = refl

parse-print_words_example :
    parse (print_words words ++ text "add" ∷ argv)
    ≡ ok
        (record (described zero_parsed words) { have_op = true; op_name = text "add"; argv = argv })
parse-print_words_example = parse-print_words words (text "add") argv dash_free

abbrev world : World
world = record {
  stdin = some (text "notes");
  read_file = λ path. if str_eq path (text "notes.md") then some (text "file") else none;
  getwd = some (text "/w");
  derive_git_context = λ cwd. none;
}

abbrev process : Process
process = record {
  world = world;
  error_format = text "json";
  stdout_writable = true;
  stdout_terminal = true;
  terminal_width = some 0;
  parse_duration = λ s. none;
  send_invoke = λ workspace env. (0, no_error);
}

abbrev slots : Slots
slots = (text "stdin", text "notes") ∷ (text "body", text "file") ∷ []

payloads_read : build_payloads world added ≡ ok slots
unfolding build_payloads slot cut str_eq
payloads_read = refl

stdin_twice :
    build_payloads world (record added { payloads = text "stdin=notes.md" ∷ [] })
    ≡ err (duplicate_slot (text "stdin"))
unfolding build_payloads slot cut str_eq
stdin_twice = refl

build_payloads-Payloads_example : Payloads world added slots
build_payloads-Payloads_example = build_payloads-Payloads world added slots payloads_read

abbrev context : Context
context = record { cwd = text "/w"; worktree_root = []; git_common_dir = [] }

context_resolved : resolve_context world added ≡ ok context
unfolding resolve_context str_eq
context_resolved = refl

resolve_context-Kept_example :
    (cwd : Str) × (start world added ≡ ok cwd) × Kept world added cwd context
resolve_context-Kept_example = resolve_context-Kept world added context context_resolved

abbrev shipped : Envelope
shipped = record {
  name = text "add";
  argv = argv;
  payloads = slots;
  cwd = text "/w";
  is_tty = true;
  tty_col = some 80;
  worktree_root = none;
  git_common_dir = none;
  workspace = some (text "w");
  timeout = none;
}

run-line : (run process line).sent ≡ some shipped
unfolding run parse turn print_words str_eq has_prefix trim_prefix prepare any build_payloads slot
    cut resolve_context assemble_envelope
run-line = refl

sent_iff_example : ((run process line).sent ≡ some shipped) ↔ Requests process line shipped
sent_iff_example = sent_iff process line shipped

abbrev broken : Process
broken = record process { error_format = text "xml"; send_invoke = λ workspace env. (7, no_error) }

abbrev asks_version : Parsed
asks_version = record zero_parsed { version = true }

parse-version : parse (text "--version" ∷ []) ≡ ok asks_version
unfolding parse turn str_eq
parse-version = refl
