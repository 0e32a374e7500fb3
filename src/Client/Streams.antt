-- ===== src/Client/Streams.antt =====
-- What the relay of a stream writes (cli/internal/client/invoke.go).
use millstrand.Base.{Str, text, none, some, List, [], ◌∷◌, ◌++◌, if◌then◌else◌}
use millstrand.Client.Frames.{
  Frame, Json, ends_with_newline, frame_bool, is_closed_stream_terminator,
}
use millstrand.Client.Relay.{Writer, Relayed, fails, malformed_frame, ended_early, finish_stream}

-- A line as it is put out.
abbrev pub finished_line : Str → Str
finished_line line = if ends_with_newline line then line else line ++ text "\n"

-- How a stream ends: it breaks off, or has a line that is no frame, or its terminator.
pub data Ending : Type 0 where
  broken_off not_a_frame : Ending
  terminated : Frame → Ending

-- No write fails.
abbrev pub sound_writer : Str → Writer
sound_writer s = record { written = s; faults = [] }

module _ (json : Json) where
  -- All the lines before the first that is the terminator or no frame, each finished.
  unfoldable pub emitted : Str → List Str → Str
  emitted id [] = []
  emitted id (line ∷ lines) =
      let rest = emitted id lines in
      elim (json.frame line) [
        | none ↦ []
        | some frame ↦
            if is_closed_stream_terminator json frame id then [] else finished_line line ++ rest
      ]

  unfoldable pub ending : Str → List Str → Ending
  ending id [] = broken_off
  ending id (line ∷ lines) =
      let rest = ending id lines in
      elim (json.frame line) [
        | none ↦ not_a_frame
        | some frame ↦ if is_closed_stream_terminator json frame id then terminated frame else rest
      ]

  -- The result of a stream of that ending.
  unfoldable pub ended_by : Ending → Writer → Relayed
  ended_by broken_off w = fails ended_early w
  ended_by not_a_frame w = fails malformed_frame w
  ended_by (terminated frame) w =
      finish_stream json frame (frame_bool json frame (text "success")) w
