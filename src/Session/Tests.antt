-- ===== src/Session/Tests.antt =====
-- A command whose request the weaver refuses, and each theorem at a concrete input.
use millstrand.Base.{
  Str, text, str_eq, ◌+◌, ◌≡◌, refl, true, false, some, none, List, any, trim_prefix, [], ◌∷◌, pos,
  lookup, has_prefix,
}
use millstrand.Client.Frames.{
  Json, ResponseError, frame_lines, is_stream_header, valid_response_error,
}
use millstrand.Client.Relay.{relay_response, relay_single, surface_error}
use millstrand.Client.Metadata.{MillMetadata, content, read_mill_metadata, missing_metadata_fields}
use millstrand.Client.Calls.{invoke_through_mill, as_transport}
use millstrand.Dispatch.Args.{turn, parse}
use millstrand.Dispatch.Envelope.{build_payloads, resolve_context, slot, cut}
use millstrand.Dispatch.Run.{Envelope, Process, no_error, prepare, assemble_envelope, run}
use millstrand.Session.{Line, with_client, invoke_on, by_run, by_relay, errors, run-renderings}

abbrev refusal : ResponseError
refusal = record {
  type = text "domain";
  code = text "unknown-op";
  message = text "no such op";
  details = some (text "{}");
}

-- Every line is one frame, with an error.
abbrev json : Json
json = record {
  frame = λ s. some ((text "ok", text "false") ∷ (text "error", text "{}") ∷ []);
  bool = λ s. some (str_eq s (text "true"));
  int = λ s. none;
  string = λ s. none;
  error = λ s. some refusal;
  result = λ s. none;
  encode = λ s. none;
}

abbrev mill : MillMetadata
mill = record {
  protocol_version = pos 3;
  mill_version = [];
  pid = pos 7;
  mill_id = text "m";
  state_root = text "/s";
  socket_path = text "/s/mill.sock";
  started_at = text "now";
  mill_build = [];
}

abbrev line : Line
line = record {
  json = json;
  mill = record {
    has_metadata_path = true;
    file = content [];
    decode = λ s. some mill;
    state_root = some (text "/s");
    socket_in = λ root. text "/s/mill.sock";
    same_path = str_eq;
    pid_alive = λ pid. true;
  };
  socket = λ workspace env. record {
    dials = true;
    accepts = true;
    response = none;
    bytes = text "x\n";
    interrupt = none;
  };
  stdout = record { written = []; faults = [] };
}

abbrev process : Process
process = record {
  world = record {
    stdin = none;
    read_file = λ path. none;
    getwd = some (text "/w");
    derive_git_context = λ cwd. none;
  };
  error_format = text "json";
  stdout_writable = true;
  stdout_terminal = false;
  terminal_width = none;
  parse_duration = λ s. none;
  send_invoke = λ workspace env. (0, no_error);
}

abbrev words : List Str
words = text "--workspace" ∷ text "w" ∷ text "--cwd" ∷ text "/w" ∷ text "add" ∷ []

abbrev request : Envelope
request = record {
  name = text "add";
  argv = [];
  payloads = [];
  cwd = text "/w";
  is_tty = false;
  tty_col = none;
  worktree_root = none;
  git_common_dir = none;
  workspace = some (text "w");
  timeout = none;
}

request_sent : (run (with_client line process) words).sent ≡ some request
unfolding run parse turn str_eq has_prefix trim_prefix prepare any build_payloads slot cut
    resolve_context assemble_envelope invoke_through_mill read_mill_metadata missing_metadata_fields
    relay_response frame_lines is_stream_header lookup relay_single surface_error
    valid_response_error as_transport
request_sent = refl

run-renderings_example :
    (workspace : Str) × ((run (with_client line process) words).code
      ≡ (invoke_on line workspace request).code)
    × (by_run (run (with_client line process) words).report
          + by_relay (invoke_on line workspace request).rendered
        ≡ errors (invoke_on line workspace request).error)
run-renderings_example = run-renderings line process words request request_sent (λ workspace. refl)
