-- ===== src/Client/Frames.antt =====
-- Response frames: how they are read, decoded and told apart (cli/internal/client/invoke.go, and
-- `validResponseError` of cli/internal/client/client.go).
use millstrand.Base.{
  Str, text, str_eq, Bool, true, false, not, ◌&&◌, ◌||◌, Option, none, some, List, [], ◌∷◌, all,
  length, ◌==◌, if◌then◌else◌, ℤ, pos, lookup, keys, ℕ,
}

-- `map[string]json.RawMessage`
abbrev pub Frame : Type 0
Frame = List (Str × Str)

-- The details are raw JSON, or nil.
pub record ResponseError : Type 0 where
  pub type : Str
  pub code : Str
  pub message : Str
  pub details : Option Str

-- `encoding/json`: what `Unmarshal` makes of a text as each of the types that the relay asks for,
-- the `result` of a whole response, and the encoding of such a result.
pub record Json : Type 0 where
  pub frame : Str → Option Frame
  pub bool : Str → Option Bool
  pub int : Str → Option ℤ
  pub string : Str → Option Str
  pub error : Str → Option ResponseError
  pub result : Str → Option Str
  pub encode : Str → Option Str

abbrev newline : ℕ
newline = 10

-- Puts a byte in front of the first line.
abbrev pub extend_line : ℕ → List Str → List Str
extend_line c [] = (c ∷ []) ∷ []
extend_line c (l ∷ ls) = (c ∷ l) ∷ ls

-- What `readFrameLine` returns call after call: each line with its newline, and an unterminated
-- rest. After these it fails.
unfoldable pub frame_lines : Str → List Str
frame_lines [] = []
frame_lines (c ∷ s) =
    let rest = frame_lines s in if c == newline then (c ∷ []) ∷ rest else extend_line c rest

unfoldable pub ends_with_newline : Str → Bool
ends_with_newline [] = false
ends_with_newline (c ∷ []) = c == newline
ends_with_newline (c ∷ d ∷ s) = ends_with_newline (d ∷ s)

abbrev pub raw_at : Str → Frame → Str
raw_at key frame = elim (lookup key frame) [ none ↦ [] | some raw ↦ raw ]

abbrev pub has_field : Str → Frame → Bool
has_field key frame = elim (lookup key frame) [ none ↦ false | some raw ↦ true ]

module _ (json : Json) where
  -- `none` is the error.
  abbrev pub frame_bool : Frame → Str → Option Bool
  frame_bool frame key = elim (lookup key frame) [ none ↦ none | some raw ↦ json.bool raw ]

  abbrev pub is_set : Frame → Str → Bool
  is_set frame key = elim (frame_bool frame key) [ none ↦ false | some b ↦ b ]

  abbrev pub is_protocol : Option ℤ → Bool
  is_protocol (some (pos n)) = n == 3
  is_protocol _ = false

  abbrev pub identity_of : Bool → Option Str → Option Str
  identity_of false id = none
  identity_of true none = none
  identity_of true (some id) = if str_eq id [] then none else some id

  -- `streamIdentity`, but for the protocol version, which is always its constant.
  unfoldable pub stream_identity : Frame → Option Str
  stream_identity frame =
      identity_of (is_protocol (json.int (raw_at (text "protocol_version") frame)))
        (json.string (raw_at (text "request_id") frame))

  abbrev pub has_value : {A : Type 0} → Option A → Bool
  has_value none = false
  has_value (some a) = true

  unfoldable pub is_stream_header : Frame → Bool
  is_stream_header frame =
      is_set frame (text "stream") && has_value (stream_identity frame) && length frame == 3

  abbrev pub is_terminator_key : Str → Bool
  is_terminator_key key =
      str_eq key (text "protocol_version")
      || str_eq key (text "request_id")
      || str_eq key (text "done")
      || str_eq key (text "success")
      || str_eq key (text "result")
      || str_eq key (text "error")

  -- A success has a result and no error, a failure the reverse.
  abbrev pub has_outcome : Frame → Option Bool → Bool
  has_outcome frame none = false
  has_outcome frame (some true) =
      has_field (text "result") frame && not (has_field (text "error") frame)
  has_outcome frame (some false) =
      has_field (text "error") frame && not (has_field (text "result") frame)

  abbrev pub is_request : Str → Option Str → Bool
  is_request id none = false
  is_request id (some actual) = str_eq actual id

  unfoldable pub is_closed_stream_terminator : Frame → Str → Bool
  is_closed_stream_terminator frame id =
      is_set frame (text "done")
      && has_outcome frame (frame_bool frame (text "success"))
      && length frame == 5
      && all is_terminator_key (keys frame)
      && is_request id (stream_identity frame)

unfoldable pub valid_response_error : ResponseError → Bool
valid_response_error e =
    not (str_eq e.code [] || str_eq e.message [] || not (has_details e.details))
    && (str_eq e.type (text "domain")
        || str_eq e.type (text "protocol")
        || str_eq e.type (text "transport"))
  where
    has_details : Option Str → Bool
    has_details none = false
    has_details (some raw) = true
