-- ===== src/Client/Calls.antt =====
-- The calls of the mill: one request and one response, or an invocation whose response is relayed
-- (cli/internal/client/mill.go, cli/internal/client/invoke.go and cli/internal/client/client.go).
use millstrand.Base.{
  ℕ, ◌+◌, Str, text, str_eq, Bool, true, false, not, ◌||◌, Option, none, some, ltb, if◌then◌else◌,
  ℤ, Result, ok, err, ◌>>◌, ◌>>=◌,
}
use millstrand.Client.Frames.{Json, ResponseError, frame_lines, valid_response_error}
use millstrand.Client.Relay.{
  Writer, RelayError, response_error, malformed_error, Relayed, relay_response,
}
use millstrand.Client.Metadata.{
  MillMetadata, MetadataError, MillWorld, read_mill_metadata, is_int, mill_protocol_version,
}

-- The codes of a transport error.
pub data TransportCode : Type 0 where
  mill_unreachable weaver_response_malformed mill_transport_failed : TransportCode

-- What fails in a call.
pub data CallError : Type 0 where
  metadata_failed : MetadataError → CallError
  socket_unreachable write_refused response_undecoded : CallError
  response_mismatch error_mismatch success_with_error : CallError
  declared : ResponseError → CallError
  relay_error : RelayError → CallError

-- What a caller sees: the envelope that the weaver or mill declared, or a failure of the transport.
pub data Failure : Type 0 where
  declared_failure : ResponseError → Failure
  transport : TransportCode → CallError → Failure

abbrev pub relay_transport : RelayError → Failure
relay_transport (response_error e) = declared_failure e
relay_transport malformed_error = transport weaver_response_malformed (relay_error malformed_error)
relay_transport e = transport mill_transport_failed (relay_error e)

-- `asTransport`, with the codes that `ReadMillMetadata`, the dialling and the relay put themselves.
unfoldable pub as_transport : CallError → Failure
as_transport (metadata_failed e) = transport mill_unreachable (metadata_failed e)
as_transport socket_unreachable = transport mill_unreachable socket_unreachable
as_transport (declared e) = declared_failure e
as_transport (relay_error e) = relay_transport e
as_transport e = transport mill_transport_failed e

-- `MillResponse`; a result that is JSON null is `none`.
pub record MillResponse : Type 0 where
  pub protocol_version : ℤ
  pub request_id : Str
  pub succeeded : Bool
  pub result : Option Str
  pub error : Option ResponseError

-- The socket in one call: whether it can be dialled and written, the response that comes first,
-- the bytes that come, and after how many milliseconds from the dialling an interrupt comes.
pub record Socket : Type 0 where
  pub dials : Bool
  pub accepts : Bool
  pub response : Option MillResponse
  pub bytes : Str
  pub interrupt : Option ℕ

abbrev pub guard_call : Bool → CallError → Result CallError (Unit {0})
guard_call true e = ok tt
guard_call false e = err e

abbrev pub metadata : Result MetadataError MillMetadata → Result CallError MillMetadata
metadata (err e) = err (metadata_failed e)
metadata (ok m) = ok m

abbrev pub is_nil : {A : Type 0} → Option A → Bool
is_nil none = true
is_nil (some a) = false

-- An error envelope, of which the response must be one.
abbrev pub declared_error : Option Str → Option ResponseError → CallError
declared_error result none = error_mismatch
declared_error result (some e) =
    if not (valid_response_error e) || not (is_nil result) then error_mismatch else declared e

-- The checks of a decoded response. The result may be null.
unfoldable pub check_response : Str → MillResponse → Result CallError (Option Str)
check_response request_id resp =
    if not (is_int mill_protocol_version resp.protocol_version)
      || not (str_eq resp.request_id request_id)
    then err response_mismatch
    else if not resp.succeeded
    then err (declared_error resp.result resp.error)
    else if not (is_nil resp.error)
    then err success_with_error
    else ok resp.result

abbrev pub decoded_response : Option MillResponse → Result CallError MillResponse
decoded_response none = err response_undecoded
decoded_response (some resp) = ok resp

unfoldable pub mill_call_payload : MillWorld → Socket → Str → Result CallError (Option Str)
mill_call_payload w socket request_id = do
  meta ← metadata (read_mill_metadata w)
  guard_call socket.dials socket_unreachable
  guard_call socket.accepts write_refused
  resp ← decoded_response socket.response
  check_response request_id resp

abbrev pub call_result : Result CallError (Option Str) → Result Failure (Option Str)
call_result (err e) = err (as_transport e)
call_result (ok result) = ok result

unfoldable pub mill_call : MillWorld → Socket → Str → Result Failure (Option Str)
mill_call w socket request_id = call_result (mill_call_payload w socket request_id)

-- The deadline of the socket in milliseconds; `ready` is the positive `ReadyTimeoutMs`, if any.
abbrev pub boot_deadline : Option ℕ → ℕ
boot_deadline none = 300000 + 5000
boot_deadline (some ready) = ready + 5000

unfoldable pub call_deadline : Str → Bool → Option ℕ → ℕ
call_deadline operation auto_start ready =
    if str_eq operation (text "init")
    then (if auto_start then boot_deadline ready else 5000)
    else if str_eq operation (text "weaver-start")
        || str_eq operation (text "weaver-start-temp")
        || str_eq operation (text "weaver-restart")
    then boot_deadline ready
    else if str_eq operation (text "weaver-stop")
    then 15000
    else 5000

-- What an invocation returns: the exit code, the error, and what it put out.
pub record Invoked : Type 0 where
  pub code : ℕ
  pub error : Option Failure
  pub stdout : Writer
  pub rendered : Option ResponseError

abbrev pub failure_of : Option RelayError → Option Failure
failure_of none = none
failure_of (some e) = some (as_transport (relay_error e))

-- The goroutine that waits for the interrupt also ends with the context of the dialling.
abbrev pub is_heard : Option ℕ → Bool
is_heard none = false
is_heard (some ms) = ltb ms 1000

-- An interrupt that is heard closes the connection; whatever the relay then returned, the code is 130.
abbrev pub relayed_code : Bool → Relayed → Invoked
relayed_code true r = record { code = 130; error = none; stdout = r.stdout; rendered = r.rendered }
relayed_code false r = record {
  code = r.code;
  error = failure_of r.error;
  stdout = r.stdout;
  rendered = r.rendered;
}

abbrev pub invoke_connected : Json → Socket → Writer → Result CallError (Unit {0}) → Invoked
invoke_connected json socket stdout (err e) = record {
  code = 1;
  error = some (as_transport e);
  stdout = stdout;
  rendered = none;
}
invoke_connected json socket stdout (ok _) =
    relayed_code (is_heard socket.interrupt) (relay_response json (frame_lines socket.bytes) stdout)

abbrev pub connect : MillWorld → Socket → Result CallError (Unit {0})
connect w socket = do
  meta ← metadata (read_mill_metadata w)
  guard_call socket.dials socket_unreachable
  guard_call socket.accepts write_refused
  ok tt

unfoldable pub invoke_through_mill : Json → MillWorld → Socket → Writer → Invoked
invoke_through_mill json w socket stdout = invoke_connected json socket stdout (connect w socket)
