-- ===== src/Session.antt =====
-- The strand command together with the mill's client: `Run` of cli/internal/dispatch/dispatch.go
-- with `InvokeThroughMill` of cli/internal/client/invoke.go in the place of `sendInvoke`.
mod Tests
use millstrand.Base.{
  ℕ, ◌+◌, Str, ◌≡◌, ◌≢◌, subst, inl, inr, refl, Bool, true, false, Bool-cases, Option, none, some,
  List, if◌then◌else◌, ◌==◌, arith,
}
use millstrand.Client.Frames.{Json, ResponseError}
use millstrand.Client.Relay.{Writer}
use millstrand.Client.Metadata.{MillWorld}
use millstrand.Client.Calls.{
  Failure, declared_failure, transport, Socket, is_heard, Invoked, invoke_through_mill,
}
use millstrand.Client.Invocations.{IsAnswer, is_connected, invoke_through_mill-IsAnswer}
use millstrand.Dispatch.Run.{
  Envelope, Process, SendError, no_error, rendered, unrendered, Report, failed, Exit, relay, run,
}
use millstrand.Dispatch.Outcomes.{run-relay}

-- `errors.As`: whether the relay has rendered the error.
abbrev pub sent_error : Option Failure → SendError
sent_error none = no_error
sent_error (some (declared_failure e)) = rendered
sent_error (some (transport code e)) = unrendered

abbrev pub send_result : Invoked → ℕ × SendError
send_result i = (i.code, sent_error i.error)

-- The client of one process: its JSON, its mill, what each request meets, and its output.
pub record Line : Type 0 where
  pub json : Json
  pub mill : MillWorld
  pub socket : Str → Envelope → Socket
  pub stdout : Writer

abbrev pub invoke_on : Line → Str → Envelope → Invoked
invoke_on line workspace env =
    invoke_through_mill line.json line.mill (line.socket workspace env) line.stdout

abbrev pub with_client : Line → Process → Process
with_client line r = record r {
  send_invoke = λ workspace env. send_result (invoke_on line workspace env);
}

-- How often an error is rendered: by `Run`, and by the relay.
abbrev pub by_run : Report → ℕ
by_run (failed code) = 1
by_run _ = 0

abbrev pub by_relay : Option ResponseError → ℕ
by_relay none = 0
by_relay (some e) = 1

abbrev pub errors : Option Failure → ℕ
errors none = 0
errors (some e) = 1

relay-send_result :
    (env : Envelope) (connected : Bool) (i : Invoked)
    → IsAnswer connected false i
    → ((relay env (send_result i)).code ≡ i.code)
      × (by_run (relay env (send_result i)).report + by_relay i.rendered ≡ errors i.error)
relay-send_result env connected i a = (by_code i.error refl, by_error i.error refl)
  where
    by_code : (o : Option Failure) → i.error ≡ o → (relay env (send_result i)).code ≡ i.code
    by_code none q = simp q refl
    by_code (some e) q = elim (Bool-cases (i.code == 0)) [
      | inl z ↦ let (silent, c, d) = a.zero (ground arith) in cc
      | inr z ↦ ground arith
    ]

    by_error :
        (o : Option Failure)
        → i.error ≡ o
        → by_run (relay env (send_result i)).report + by_relay i.rendered ≡ errors i.error
    by_error none q = let silent = a.unrendered refl (λ e h. cc) in simp (q, silent) refl
    by_error (some (transport code e)) q =
        let silent = a.unrendered refl (λ e h. cc) in simp (q, silent) refl
    by_error (some (declared_failure e)) q =
        let (valid, shown) = a.declared e q in simp (q, shown) refl

-- Where the command sends a request and no interrupt is heard, it exits with the code of the
-- relay of the mill's response, and an error is rendered once, by the relay or by the command, and
-- where there is none nothing is.
pub run-renderings :
    (line : Line) (r : Process) (args : List Str) (env : Envelope)
    → (run (with_client line r) args).sent ≡ some env
    → ((workspace : Str) → is_heard (line.socket workspace env).interrupt ≡ false)
    → (workspace : Str) × ((run (with_client line r) args).code
        ≡ (invoke_on line workspace env).code)
      × (by_run (run (with_client line r) args).report
            + by_relay (invoke_on line workspace env).rendered
          ≡ errors (invoke_on line workspace env).error)
run-renderings line r args env sent quiet =
    let (workspace, same) = run-relay (with_client line r) args env sent in
    let answer =
      subst
        (λ heard.
          IsAnswer (is_connected line.mill (line.socket workspace env)) heard
            (invoke_on line workspace env))
        (quiet workspace)
        (invoke_through_mill-IsAnswer line.json line.mill (line.socket workspace env)
          line.stdout) in
    let (code, count) = relay-send_result env _ (invoke_on line workspace env) answer in
    (workspace, rw same code, rw same count)
