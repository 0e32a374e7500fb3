-- ===== src/Client/Relay.antt =====
-- `RelayResponse`: the frames of a weaver's response to the standard output, and its error to the
-- standard error (cli/internal/client/invoke.go).
use millstrand.Base.{
  ℕ, Str, text, Bool, true, false, not, Option, none, some, List, [], ◌∷◌, ◌++◌, take,
  if◌then◌else◌,
}
use millstrand.Client.Frames.{
  Frame, ResponseError, Json, ends_with_newline, raw_at, frame_bool, is_set, stream_identity,
  is_stream_header, is_closed_stream_terminator, valid_response_error,
}

-- The standard output: what is written, and how the next writes go; a write that fails has put
-- out that many bytes. After the list no write fails.
pub record Writer : Type 0 where
  pub written : Str
  pub faults : List (Option ℕ)

-- The writer after a write, and whether the write succeeded.
unfoldable pub write : Str → Writer → Writer × Bool
write s w = write_by w.faults
  where
    write_by : List (Option ℕ) → Writer × Bool
    write_by [] = (record { written = w.written ++ s; faults = [] }, true)
    write_by (none ∷ faults) = (record { written = w.written ++ s; faults = faults }, true)
    write_by (some n ∷ faults) =
        (record { written = w.written ++ take n s; faults = faults }, false)

pub data RelayError : Type 0 where
  read_failed malformed_frame malformed_response malformed_verbatim not_encoded : RelayError
  write_failed malformed_header malformed_terminator ended_early malformed_error : RelayError
  response_error : ResponseError → RelayError

-- The exit code, the error, the standard output, and the envelope rendered to the standard error.
pub record Relayed : Type 0 where
  pub code : ℕ
  pub error : Option RelayError
  pub stdout : Writer
  pub rendered : Option ResponseError

abbrev pub fails : RelayError → Writer → Relayed
fails e w = record { code = 1; error = some e; stdout = w; rendered = none }

abbrev pub succeeds : Writer → Relayed
succeeds w = record { code = 0; error = none; stdout = w; rendered = none }

abbrev pub surface_decoded : Option ResponseError → Writer → Relayed
surface_decoded none w = fails malformed_error w
surface_decoded (some e) w =
    if not (valid_response_error e)
    then fails malformed_error w
    else record { code = 1; error = some (response_error e); stdout = w; rendered = some e }

-- After the last write of a response.
abbrev pub wrote_last : Writer × Bool → Relayed
wrote_last (w, true) = succeeds w
wrote_last (w, false) = fails write_failed w

module _ (json : Json) where
  unfoldable pub surface_error : Str → Writer → Relayed
  surface_error [] w = fails malformed_error w
  surface_error (c ∷ raw) w = surface_decoded (json.error (c ∷ raw)) w

  abbrev pub end_text : Str → Writer × Bool → Relayed
  end_text s (w, false) = fails write_failed w
  end_text s (w, true) =
      if ends_with_newline s then succeeds w else wrote_last (write (text "\n") w)

  abbrev pub verbatim_decoded : Option Str → Writer → Relayed
  verbatim_decoded none w = fails malformed_verbatim w
  verbatim_decoded (some s) w = end_text s (write s w)

  unfoldable pub relay_verbatim : Str → Writer → Relayed
  relay_verbatim raw w = verbatim_decoded (json.string raw) w

  abbrev pub encoded : Option Str → Writer → Relayed
  encoded none w = fails not_encoded w
  encoded (some b) w = wrote_last (write (b ++ text "\n") w)

  abbrev pub result_decoded : Option Str → Writer → Relayed
  result_decoded none w = fails malformed_response w
  result_decoded (some result) w = encoded (json.encode result) w

  abbrev pub relay_ok : Frame → Str → Option Bool → Writer → Relayed
  relay_ok frame line none w = fails malformed_response w
  relay_ok frame line (some true) w =
      if is_set json frame (text "verbatim")
      then relay_verbatim (raw_at (text "result") frame) w
      else result_decoded (json.result line) w
  relay_ok frame line (some false) w = surface_error (raw_at (text "error") frame) w

  unfoldable pub relay_single : Frame → Str → Writer → Relayed
  relay_single frame line w = relay_ok frame line (frame_bool json frame (text "ok")) w

  abbrev pub finish_stream : Frame → Option Bool → Writer → Relayed
  finish_stream frame none w = fails malformed_terminator w
  finish_stream frame (some true) w = succeeds w
  finish_stream frame (some false) w = surface_error (raw_at (text "error") frame) w

  -- An emitted line, with the newline that it may lack.
  abbrev pub write_newline : Str → Writer × Bool → Writer × Bool
  write_newline line (w, false) = (w, false)
  write_newline line (w, true) = if ends_with_newline line then (w, true) else write (text "\n") w

  abbrev pub write_line : Str → Writer → Writer × Bool
  write_line line w = write_newline line (write line w)

  -- The loop of `relayStream`, over the lines that are still to be read.
  unfoldable pub relay_frames : Str → List Str → Writer → Relayed
  relay_frames id [] w = fails ended_early w
  relay_frames id (line ∷ lines) w =
      let rest = relay_frames id lines (write_line line w).0 in
      elim (json.frame line) [
        | none ↦ fails malformed_frame w
        | some frame ↦
            if is_closed_stream_terminator json frame id
            then finish_stream frame (frame_bool json frame (text "success")) w
            else if (write_line line w).1
            then rest
            else fails write_failed (write_line line w).0
      ]

  abbrev pub relay_stream : Option Str → List Str → Writer → Relayed
  relay_stream none lines w = fails malformed_header w
  relay_stream (some id) lines w = relay_frames id lines w

  abbrev pub relay_first : Str → List Str → Option Frame → Writer → Relayed
  relay_first line lines none w = fails malformed_frame w
  relay_first line lines (some frame) w =
      if is_stream_header json frame
      then relay_stream (stream_identity json frame) lines w
      else relay_single frame line w

  -- Over what the reads of the connection return.
  unfoldable pub relay_response : List Str → Writer → Relayed
  relay_response [] w = fails read_failed w
  relay_response (line ∷ lines) w = relay_first line lines (json.frame line) w
