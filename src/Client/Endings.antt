-- ===== src/Client/Endings.antt =====
-- How a relay and an invocation can end (cli/internal/client/invoke.go).
use millstrand.Base.{
  Str, text, ◌≡◌, inl, inr, refl, Bool, true, false, Bool-cases, Option-cases, Option, none, some,
  List, [], ◌∷◌, ◌++◌,
}
use millstrand.Client.Frames.{
  Frame, Json, ResponseError, ends_with_newline, raw_at, frame_bool, is_set, stream_identity,
  is_stream_header, is_closed_stream_terminator, valid_response_error,
}
use millstrand.Client.Relay.{
  Writer, write, RelayError, read_failed, malformed_frame, malformed_response, malformed_verbatim,
  not_encoded, write_failed, malformed_header, malformed_terminator, ended_early, malformed_error,
  response_error, Relayed, fails, succeeds, surface_decoded, wrote_last, surface_error, end_text,
  verbatim_decoded, relay_verbatim, encoded, result_decoded, relay_ok, relay_single, finish_stream,
  write_line, relay_frames, relay_stream, relay_first, relay_response,
}

-- The error is of the relay's own making.
abbrev pub is_own : RelayError → Bool
is_own (response_error e) = false
is_own _ = true

-- The three ways in which a relay ends.
pub data IsEnding : Relayed → Type 0 where
  success : (w : Writer) → IsEnding (succeeds w)
  failure : (e : RelayError) (w : Writer) → is_own e ≡ true → IsEnding (fails e w)
  declares :
      (e : ResponseError) (w : Writer)
      → valid_response_error e ≡ true
      → IsEnding
          (record { code = 1; error = some (response_error e); stdout = w; rendered = some e })

surface_decoded-IsEnding : (o : Option ResponseError) (w : Writer) → IsEnding (surface_decoded o w)
surface_decoded-IsEnding none w = failure malformed_error w refl
surface_decoded-IsEnding (some e) w = elim (Bool-cases (valid_response_error e)) [
  | inl v ↦ rw v (declares e w v)
  | inr v ↦ rw v (failure malformed_error w refl)
]

wrote_last-IsEnding : (o : Writer × Bool) → IsEnding (wrote_last o)
wrote_last-IsEnding (w, true) = success w
wrote_last-IsEnding (w, false) = failure write_failed w refl

module _ (json : Json) where
  surface_error-IsEnding : (raw : Str) (w : Writer) → IsEnding (surface_error json raw w)
  unfolding surface_error
  surface_error-IsEnding [] w = failure malformed_error w refl
  surface_error-IsEnding (c ∷ raw) w = surface_decoded-IsEnding (json.error (c ∷ raw)) w

  end_text-IsEnding : (s : Str) (o : Writer × Bool) → IsEnding (end_text json s o)
  end_text-IsEnding s (w, false) = failure write_failed w refl
  end_text-IsEnding s (w, true) = elim (Bool-cases (ends_with_newline s)) [
    | inl e ↦ rw e (success w)
    | inr e ↦ rw e (wrote_last-IsEnding (write (text "\n") w))
  ]

  verbatim-IsEnding : (o : Option Str) (w : Writer) → IsEnding (verbatim_decoded json o w)
  verbatim-IsEnding none w = failure malformed_verbatim w refl
  verbatim-IsEnding (some s) w = end_text-IsEnding s (write s w)

  encoded-IsEnding : (o : Option Str) (w : Writer) → IsEnding (encoded json o w)
  encoded-IsEnding none w = failure not_encoded w refl
  encoded-IsEnding (some b) w = wrote_last-IsEnding (write (b ++ text "\n") w)

  result-IsEnding : (o : Option Str) (w : Writer) → IsEnding (result_decoded json o w)
  result-IsEnding none w = failure malformed_response w refl
  result-IsEnding (some r) w = encoded-IsEnding (json.encode r) w

  relay_ok-IsEnding :
      (frame : Frame) (line : Str) (o : Option Bool) (w : Writer)
      → IsEnding (relay_ok json frame line o w)
  unfolding relay_verbatim
  relay_ok-IsEnding frame line none w = failure malformed_response w refl
  relay_ok-IsEnding frame line (some false) w =
      surface_error-IsEnding (raw_at (text "error") frame) w
  relay_ok-IsEnding frame line (some true) w =
      elim (Bool-cases (is_set json frame (text "verbatim"))) [
        | inl e ↦ rw e (verbatim-IsEnding (json.string (raw_at (text "result") frame)) w)
        | inr e ↦ rw e (result-IsEnding (json.result line) w)
      ]

  finish_stream-IsEnding :
      (frame : Frame) (o : Option Bool) (w : Writer) → IsEnding (finish_stream json frame o w)
  finish_stream-IsEnding frame none w = failure malformed_terminator w refl
  finish_stream-IsEnding frame (some true) w = success w
  finish_stream-IsEnding frame (some false) w =
      surface_error-IsEnding (raw_at (text "error") frame) w

  relay_frames-IsEnding :
      (id : Str) (lines : List Str) (w : Writer) → IsEnding (relay_frames json id lines w)
  unfolding relay_frames
  relay_frames-IsEnding id [] w = failure ended_early w refl
  relay_frames-IsEnding id (line ∷ lines) w = elim (Option-cases (json.frame line)) [
    | inl e ↦ rw (e, relay_frames) (failure malformed_frame w refl)
    | inr (frame, e) ↦ elim (Bool-cases (is_closed_stream_terminator json frame id)) [
      | inl t ↦
          rw (e, relay_frames, t)
            (finish_stream-IsEnding frame (frame_bool json frame (text "success")) w)
      | inr t ↦ elim (Bool-cases (write_line json line w).1) [
        | inl q ↦
            rw (e, relay_frames, t, q) (relay_frames-IsEnding id lines (write_line json line w).0)
        | inr q ↦ rw (e, relay_frames, t, q) (failure write_failed (write_line json line w).0 refl)
      ]
    ]
  ]

  relay_stream-IsEnding :
      (o : Option Str) (lines : List Str) (w : Writer) → IsEnding (relay_stream json o lines w)
  relay_stream-IsEnding none lines w = failure malformed_header w refl
  relay_stream-IsEnding (some id) lines w = relay_frames-IsEnding id lines w

  relay_first-IsEnding :
      (line : Str) (lines : List Str) (o : Option Frame) (w : Writer)
      → IsEnding (relay_first json line lines o w)
  unfolding relay_single
  relay_first-IsEnding line lines none w = failure malformed_frame w refl
  relay_first-IsEnding line lines (some frame) w = elim (Bool-cases (is_stream_header json frame)) [
    | inl e ↦ rw e (relay_stream-IsEnding (stream_identity json frame) lines w)
    | inr e ↦ rw e (relay_ok-IsEnding frame line (frame_bool json frame (text "ok")) w)
  ]

  pub relay_response-IsEnding :
      (lines : List Str) (w : Writer) → IsEnding (relay_response json lines w)
  unfolding relay_response
  relay_response-IsEnding [] w = failure read_failed w refl
  relay_response-IsEnding (line ∷ lines) w = relay_first-IsEnding line lines (json.frame line) w
