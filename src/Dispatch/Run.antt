-- ===== src/Dispatch/Run.antt =====
-- `assembleEnvelope` and `Run` (cli/internal/dispatch/dispatch.go), with `ValidateFormat`
-- (cli/internal/errfmt/errfmt.go).
use millstrand.Base.{
  ℕ, Str, text, str_eq, Bool, true, false, not, ◌&&◌, ◌||◌, Option, none, some, List, [], ◌∷◌,
  if◌then◌else◌, ◌==◌, any, Result, ok, err, ◌>>=◌, ◌>>◌,
}
use millstrand.Dispatch.Args.{Parsed, ParseError, parse}
use millstrand.Dispatch.Envelope.{Slots, World, Context, build_payloads, resolve_context}

-- A parsed duration in milliseconds.
pub data Millis : Type 0 where
  positive : ℕ → Millis
  not_positive : Millis

-- The map that ships, without the identity of the client.
pub record Envelope : Type 0 where
  pub name : Str
  pub argv : List Str
  pub payloads : Slots
  pub cwd : Str
  pub is_tty : Bool
  pub tty_col : Option ℕ
  pub worktree_root : Option Str
  pub git_common_dir : Option Str
  pub workspace : Option Str
  pub timeout : Option ℕ

-- How `sendInvoke` failed: not, with an error that the relay has rendered, or with another.
pub data SendError : Type 0 where
  no_error rendered unrendered : SendError

-- The process around `Run`: its system, its standard output, the error format variable,
-- `time.ParseDuration` and the mill.
pub record Process : Type 0 where
  pub world : World
  pub error_format : Str
  pub stdout_writable : Bool
  pub stdout_terminal : Bool
  pub terminal_width : Option ℕ
  pub parse_duration : Str → Option Millis
  pub send_invoke : Str → Envelope → ℕ × SendError

pub data Code : Type 0 where
  invalid_invocation invalid_error_format payload_unreadable : Code
  context_unresolved output_unwritable mill_failure : Code

pub data Report : Type 0 where
  version_report help_report relayed : Report
  dry_run_report : Envelope → Report
  failed : Code → Report

pub record Exit : Type 0 where
  pub code : ℕ
  pub report : Report
  pub sent : Option Envelope

abbrev pub given : Str → Option Str
given value = if str_eq value [] then none else some value

-- The columns of a terminal, 80 where they cannot be told.
unfoldable pub tty_width : Bool → Option ℕ → Option ℕ
tty_width false width = none
tty_width true none = some 80
tty_width true (some width) = if width == 0 then some 80 else some width

abbrev pub timeout_of : Option Millis → Result Code (Option ℕ)
timeout_of (some (positive ms)) = ok (some ms)
timeout_of (some not_positive) = err invalid_invocation
timeout_of none = err invalid_invocation

unfoldable pub assemble_envelope : Process → Parsed → Slots → Context → Result Code Envelope
unfolding tty_width
assemble_envelope r p payloads c = do
  timeout ← (if p.timeout_set then timeout_of (r.parse_duration p.timeout) else ok none)
  ok (record {
    name = p.op_name;
    argv = p.argv;
    payloads = payloads;
    cwd = c.cwd;
    is_tty = r.stdout_terminal;
    tty_col = tty_width r.stdout_terminal r.terminal_width;
    worktree_root = given c.worktree_root;
    git_common_dir = given c.git_common_dir;
    workspace = given p.workspace;
    timeout = timeout;
  })

abbrev pub accepted_formats : List Str
accepted_formats = text "json" ∷ text "plain" ∷ text "pretty" ∷ []

unfoldable pub validate_format : Str → Bool
validate_format value = str_eq value [] || any (str_eq value) accepted_formats

abbrev pub under : {E A : Type 0} → Code → Result E A → Result Code A
under code (ok a) = ok a
under code (err e) = err code

-- The checks and the assembly between the local flags and the dispatch.
unfoldable pub prepare : Process → Parsed → Result Code Envelope
unfolding validate_format
prepare r p = do
  (if validate_format r.error_format then ok tt else err invalid_error_format)
  payloads ← under payload_unreadable (build_payloads r.world p)
  context ← under context_unresolved (resolve_context r.world p)
  assemble_envelope r p payloads context

abbrev pub fail : Code → Exit
fail code = record { code = 1; report = failed code; sent = none }

abbrev pub print : Process → Report → Exit
print r report =
    if r.stdout_writable
    then record { code = 0; report = report; sent = none }
    else fail output_unwritable

-- The exit code of a relay, which an error never leaves at 0.
abbrev pub relay : Envelope → ℕ × SendError → Exit
relay env (code, no_error) = record { code = code; report = relayed; sent = some env }
relay env (code, rendered) = record {
  code = if code == 0 then 1 else code;
  report = relayed;
  sent = some env;
}
relay env (code, unrendered) = record {
  code = if code == 0 then 1 else code;
  report = failed mill_failure;
  sent = some env;
}

abbrev pub dispatch : Process → Parsed → Result Code Envelope → Exit
dispatch r p (err code) = fail code
dispatch r p (ok env) =
    if p.dry_run then print r (dry_run_report env) else relay env (r.send_invoke p.workspace env)

abbrev pub run_parsed : Process → Result ParseError Parsed → Exit
run_parsed r (err e) = fail invalid_invocation
run_parsed r (ok p) =
    if p.version
    then print r version_report
    else if p.help && p.have_op
    then fail invalid_invocation
    else if p.help || not p.have_op
    then print r help_report
    else dispatch r p (prepare r p)

unfoldable pub run : Process → List Str → Exit
run r args = run_parsed r (parse args)
