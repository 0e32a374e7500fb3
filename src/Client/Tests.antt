-- ===== src/Client/Tests.antt =====
-- Responses of a weaver and a mill, and each theorem at a concrete input.
use millstrand.Base.{
  Str, text, str_eq, ◌≡◌, ◌↔◌, refl, true, Option, none, some, [], ◌∷◌, ◌++◌, all, pos, lookup,
  keys, ok, err, if◌then◌else◌,
}
use millstrand.Client.Frames.{
  Frame, Json, frame_lines, ends_with_newline, stream_identity, is_stream_header,
  is_closed_stream_terminator, ResponseError,
}
use millstrand.Client.Relay.{Writer, write, succeeds, relay_frames, relay_response}
use millstrand.Client.Metadata.{
  MillMetadata, MillWorld, content, missing_metadata_fields, read_mill_metadata,
}
use millstrand.Client.Calls.{
  Socket, MillResponse, is_heard, check_response, declared, invoke_through_mill,
}
use millstrand.Client.Streams.{sound_writer}
use millstrand.Client.Invocations.{IsAnswer, is_connected, invoke_through_mill-IsAnswer}
use millstrand.Client.Admission.{
  IsRunning, read_mill_metadata_iff, IsSuccess, IsRefusal, check_response_iff,
}

abbrev header_frame : Frame
header_frame =
    (text "protocol_version", text "3")
    ∷ (text "request_id", text "q")
    ∷ (text "stream", text "true")
    ∷ []

abbrev end_frame : Frame
end_frame =
    (text "protocol_version", text "3")
    ∷ (text "request_id", text "q")
    ∷ (text "done", text "true")
    ∷ (text "success", text "true")
    ∷ (text "result", text "null")
    ∷ []

-- A decoder of the few texts of these tests.
abbrev json : Json
json = record {
  frame = λ s.
      if str_eq s (text "h\n")
      then some header_frame
      else if str_eq s (text "e\n")
      then some end_frame
      else some [];
  bool = λ s. some (str_eq s (text "true"));
  int = λ s. if str_eq s (text "3") then some (pos 3) else none;
  string = λ s. if str_eq s [] then none else some s;
  error = λ s. none;
  result = λ s. some s;
  encode = λ s. some s;
}

abbrev stdout : Writer
stdout = record { written = []; faults = [] }

-- A stream of two lines.
relay_response_test :
    relay_response json (frame_lines (text "h\n1\n2\ne\nx")) stdout
    ≡ succeeds (sound_writer (text "1\n2\n"))
unfolding relay_response relay_frames frame_lines ends_with_newline write stream_identity
    is_stream_header is_closed_stream_terminator lookup str_eq all keys
relay_response_test = refl

abbrev mill : MillMetadata
mill = record {
  protocol_version = pos 3;
  mill_version = [];
  pid = pos 7;
  mill_id = text "m";
  state_root = text "/s";
  socket_path = text "/s/mill.sock";
  started_at = text "now";
  mill_build = [];
}

abbrev world : MillWorld
world = record {
  has_metadata_path = true;
  file = content (text "mill");
  decode = λ s. some mill;
  state_root = some (text "/s");
  socket_in = λ root. root ++ text "/mill.sock";
  same_path = str_eq;
  pid_alive = λ pid. true;
}

abbrev socket : Socket
socket = record {
  dials = true;
  accepts = true;
  response = none;
  bytes = text "h\n1\ne\n";
  interrupt = some 1500;
}

invoke_through_mill-IsAnswer_example :
    IsAnswer
      (is_connected world socket)
      (is_heard socket.interrupt)
      (invoke_through_mill json world socket stdout)
invoke_through_mill-IsAnswer_example = invoke_through_mill-IsAnswer json world socket stdout

-- An interrupt after the first second changes nothing.
late_interrupt : (invoke_through_mill json world socket stdout).code ≡ 0
unfolding invoke_through_mill read_mill_metadata missing_metadata_fields relay_response relay_frames
    frame_lines ends_with_newline write stream_identity is_stream_header is_closed_stream_terminator
    lookup str_eq all keys
late_interrupt = refl

read_mill_metadata_iff_example : (read_mill_metadata world ≡ ok mill) ↔ IsRunning world mill
read_mill_metadata_iff_example = read_mill_metadata_iff world mill

abbrev response : MillResponse
response = record {
  protocol_version = pos 3;
  request_id = text "q";
  succeeded = true;
  result = some (text "1");
  error = none;
}

check_response_iff_example :
    ((result : Option Str)
      → (check_response (text "q") response ≡ ok result) ↔ IsSuccess (text "q") response result)
    × ((e : ResponseError)
        → (check_response (text "q") response ≡ err (declared e)) ↔ IsRefusal (text "q") response e)
check_response_iff_example = check_response_iff (text "q") response
