-- ===== src/Client/Invocations.antt =====
-- What an invocation returns (cli/internal/client/invoke.go).
use millstrand.Base.{
  ◌≡◌, ◌≢◌, ◌↔◌, refl, some_cancel, Bool, true, false, none, some, Result, ok, err, ◌>>◌, ◌>>=◌,
  arith,
}
use millstrand.Client.Frames.{Json, ResponseError, valid_response_error, frame_lines}
use millstrand.Client.Relay.{Writer, RelayError, Relayed, relay_response}
use millstrand.Client.Metadata.{MillMetadata, MetadataError, MillWorld, read_mill_metadata}
use millstrand.Client.Calls.{
  CallError, metadata_failed, socket_unreachable, write_refused, declared_failure, as_transport,
  relay_transport, guard_call, metadata, Socket, is_heard, Invoked, relayed_code, invoke_connected,
  connect, invoke_through_mill,
}
use millstrand.Client.Endings.{
  is_own, IsEnding, success, failure, declares, relay_response-IsEnding,
}

-- What holds of a returned code and error.
pub record IsAnswer (connected heard : Bool) (r : Invoked) : Type 0 where
  -- 0 comes without an error, and only from a relay that was connected and not interrupted.
  pub zero : r.code ≡ 0 → (r.error ≡ none) × (connected ≡ true) × (heard ≡ false)
  -- 130 comes from an interrupt and from nothing else.
  pub interrupted : (r.code ≡ 130) ↔ ((connected ≡ true) × (heard ≡ true))
  -- Any other end is 1, with an error.
  pub failed : r.code ≢ 0 → r.code ≢ 130 → (r.code ≡ 1) × (r.error ≢ none)
  -- An error that is the weaver's own is one that the protocol admits, and is rendered.
  pub declared :
      (e : ResponseError)
      → r.error ≡ some (declared_failure e)
      → (valid_response_error e ≡ true) × (r.rendered ≡ some e)
  -- Without an interrupt, any other end leaves the rendering to the caller.
  pub unrendered :
      heard ≡ false
      → ((e : ResponseError) → r.error ≢ some (declared_failure e))
      → r.rendered ≡ none

is_own-declared_failure :
    (e : RelayError) (x : ResponseError) → is_own e ≡ true → relay_transport e ≢ declared_failure x
is_own-declared_failure e x own = grind arith

relayed-IsAnswer :
    (heard : Bool) (r : Relayed) → IsEnding r → IsAnswer true heard (relayed_code heard r)
unfolding as_transport
relayed-IsAnswer true r i = record {
  zero = λ h. absurd (ground arith);
  interrupted = (λ h. (refl, refl), λ h. refl);
  failed = λ h k. absurd (k refl);
  declared = λ e h. cc;
  unrendered = λ h k. absurd (ground arith);
}
relayed-IsAnswer false r (success w) = record {
  zero = λ h. (refl, refl, refl);
  interrupted = (λ h. absurd (ground arith), λ h. absurd (ground arith));
  failed = λ h k. absurd (h refl);
  declared = λ e h. cc;
  unrendered = λ h k. refl;
}
relayed-IsAnswer false r (failure e w own) = record {
  zero = λ h. absurd (ground arith);
  interrupted = (λ h. absurd (ground arith), λ h. absurd (ground arith));
  failed = λ h k. (refl, λ q. cc);
  declared = λ x h. absurd (is_own-declared_failure e x own (some_cancel h));
  unrendered = λ h k. refl;
}
relayed-IsAnswer false r (declares e w v) = record {
  zero = λ h. absurd (ground arith);
  interrupted = (λ h. absurd (ground arith), λ h. absurd (ground arith));
  failed = λ h k. (refl, λ q. cc);
  declared = λ x h. let same : e ≡ x = injected (some_cancel h) in (rw (← same) v, rw same refl);
  unrendered = λ h k. absurd (k e refl);
}
  where
    injected : {y z : ResponseError} → declared_failure y ≡ declared_failure z → y ≡ z
    injected q = cc

-- An error of the transport, before any response.
abbrev pub is_early : CallError → Bool
is_early (metadata_failed e) = true
is_early socket_unreachable = true
is_early write_refused = true
is_early _ = false

metadata-is_early :
    (r : Result MetadataError MillMetadata) (e : CallError) → metadata r ≡ err e → is_early e ≡ true
metadata-is_early (ok m) e h = cc
metadata-is_early (err x) e h = rw (← err_injective h) refl
  where
    err_injective :
        ◌≡◌ {A = Result CallError MillMetadata} (err (metadata_failed x)) (err e)
        → metadata_failed x ≡ e
    err_injective p = cc

refused-IsAnswer :
    (heard : Bool) (e : CallError) (w : Writer)
    → is_early e ≡ true
    → IsAnswer false heard
        (record { code = 1; error = some (as_transport e); stdout = w; rendered = none })
unfolding as_transport
refused-IsAnswer heard e w early = record {
  zero = λ h. absurd (ground arith);
  interrupted = (λ h. absurd (ground arith), λ h. absurd (ground arith));
  failed = λ h k. (refl, λ q. cc);
  declared = λ x h. absurd (of_transport e early (some_cancel h));
  unrendered = λ h k. refl;
}
  where
    of_transport :
        (f : CallError) {x : ResponseError}
        → is_early f ≡ true
        → as_transport f ≢ declared_failure x
    of_transport f own = grind arith

-- The socket takes the request.
abbrev pub is_connected : MillWorld → Socket → Bool
is_connected w socket = elim (connect w socket) [ ok _ ↦ true | err e ↦ false ]

connect-is_early :
    (r : Result CallError MillMetadata) (dials accepts : Bool) (e : CallError)
    → ((x : CallError) → r ≡ err x → is_early x ≡ true)
    → (do meta ← r; guard_call dials socket_unreachable; guard_call accepts write_refused; ok tt)
      ≡ err e
    → is_early e ≡ true
connect-is_early (err x) dials accepts e early h = rw (← err_injective h) (early x refl)
  where
    err_injective : ◌≡◌ {A = Result CallError (Unit {0})} (err x) (err e) → x ≡ e
    err_injective p = cc
connect-is_early (ok m) false accepts e early h = rw (← err_injective h) refl
  where
    err_injective :
        ◌≡◌ {A = Result CallError (Unit {0})} (err socket_unreachable) (err e)
        → socket_unreachable ≡ e
    err_injective p = cc
connect-is_early (ok m) true false e early h = rw (← err_injective h) refl
  where
    err_injective :
        ◌≡◌ {A = Result CallError (Unit {0})} (err write_refused) (err e) → write_refused ≡ e
    err_injective p = cc
connect-is_early (ok m) true true e early h = cc

connected-IsAnswer :
    (json : Json) (socket : Socket) (stdout : Writer) (r : Result CallError (Unit {0}))
    → ((e : CallError) → r ≡ err e → is_early e ≡ true)
    → IsAnswer
        (elim r [ ok _ ↦ true | err e ↦ false ])
        (is_heard socket.interrupt)
        (invoke_connected json socket stdout r)
connected-IsAnswer json socket stdout (err e) early =
    refused-IsAnswer (is_heard socket.interrupt) e stdout (early e refl)
connected-IsAnswer json socket stdout (ok u) early =
    relayed-IsAnswer (is_heard socket.interrupt)
      (relay_response json (frame_lines socket.bytes) stdout)
      (relay_response-IsEnding json (frame_lines socket.bytes) stdout)

-- Whatever the mill, the socket, the response and the standard output do: an invocation returns
-- 0 only if it was connected and heard no interrupt, and then without an error; it returns 130
-- exactly if it was connected and heard an interrupt; any other return is 1, with an error; an error that passes for the weaver's
-- own is one that the protocol admits, and has been rendered; and without an interrupt nothing else
-- has.
pub invoke_through_mill-IsAnswer :
    (json : Json) (w : MillWorld) (socket : Socket) (stdout : Writer)
    → IsAnswer
        (is_connected w socket)
        (is_heard socket.interrupt)
        (invoke_through_mill json w socket stdout)
unfolding invoke_through_mill
invoke_through_mill-IsAnswer json w socket stdout =
    connected-IsAnswer json socket stdout (connect w socket) (λ e h.
      connect-is_early (metadata (read_mill_metadata w)) socket.dials socket.accepts e
        (metadata-is_early (read_mill_metadata w)) h)
