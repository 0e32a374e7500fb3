-- ===== src/Dispatch/Outcomes.antt =====
-- When `Run` sends a request, and how it exits (cli/internal/dispatch/dispatch.go).
use millstrand.Base.{
  ℕ, Str, ◌≡◌, refl, ◌↔◌, ◌⊎◌, inl, inr, true, false, some, List, Result, ok, err, arith,
}
use millstrand.Dispatch.Args.{Parsed, parse}
use millstrand.Dispatch.Run.{
  Envelope, Process, version_report, help_report, dry_run_report, Exit, relay, SendError, no_error,
  prepare, run_parsed, run,
}

-- A command line that names an op and asks for it to be run.
pub record Requests (r : Process) (args : List Str) (env : Envelope) : Type 0 where
  pub parsed : Parsed
  pub parses : parse args ≡ ok parsed
  pub no_version : parsed.version ≡ false
  pub no_help : parsed.help ≡ false
  pub names_op : parsed.have_op ≡ true
  pub no_dry_run : parsed.dry_run ≡ false
  pub prepares : prepare r parsed ≡ ok env

pub Result-cases :
    {E A : Type 0} (m : Result E A) → ((a : A) × (m ≡ ok a)) ⊎ ((e : E) × (m ≡ err e))
Result-cases (ok a) = inl (a, refl)
Result-cases (err e) = inr (e, refl)

sent_parsed :
    (r : Process) (p : Parsed) (env : Envelope)
    → (run_parsed r (ok p)).sent ≡ some env
    → (p.version ≡ false)
      × (p.help ≡ false)
      × (p.have_op ≡ true)
      × (p.dry_run ≡ false)
      × (prepare r p ≡ ok env)
sent_parsed r p env h = ground arith

sent-relay : (env : Envelope) (m : ℕ × SendError) → (relay env m).sent ≡ some env
sent-relay env m = ground arith

-- A request is sent exactly when the command line parses and names an op, none of the flags that
-- are answered locally is given, and the envelope is assembled without an error: and it is that
-- envelope.
pub sent_iff :
    (r : Process) (args : List Str) (env : Envelope)
    → ((run r args).sent ≡ some env) ↔ Requests r args env
unfolding run
sent_iff r args env = (forth, back)
  where
    forth : (run r args).sent ≡ some env → Requests r args env
    forth h = elim (Result-cases (parse args)) [
      | inl (p, e) ↦
          let (a, b, c, d, f) = sent_parsed r p env (rw e at h) in
          record {
            parsed = p;
            parses = e;
            no_version = a;
            no_help = b;
            names_op = c;
            no_dry_run = d;
            prepares = f;
          }
      | inr (x, e) ↦ cc (rw e at h)
    ]

    back : Requests r args env → (run r args).sent ≡ some env
    back q =
        simp (q.parses, q.no_version, q.no_help, q.names_op, q.prepares, q.no_dry_run)
          (sent-relay env (r.send_invoke q.parsed.workspace env))

-- Where a request is sent, `Run` ends as the mill's answer to it says.
pub run-relay :
    (r : Process) (args : List Str) (env : Envelope)
    → (run r args).sent ≡ some env
    → (workspace : Str) × (run r args ≡ relay env (r.send_invoke workspace env))
unfolding run
run-relay r args env h =
    let q = (sent_iff r args env).0 h in
    (
      q.parsed.workspace,
      simp (q.parses, q.no_version, q.no_help, q.names_op, q.prepares, q.no_dry_run) refl,
    )

-- The version, the help and a misplaced help flag are answered alike whatever the error format,
-- the files, the repository and the mill are.
run-local :
    (r s : Process) (args : List Str) (p : Parsed)
    → parse args ≡ ok p
    → (p.version ≡ true) ⊎ (p.help ≡ true) ⊎ (p.have_op ≡ false)
    → r.stdout_writable ≡ s.stdout_writable
    → run r args ≡ run s args
unfolding run
run-local r s args p e local w = rw e (ground arith)

-- What an exit with 0 means.
abbrev pub Answered : Process → Exit → Type 0
Answered r exit =
    (exit.report ≡ version_report)
    ⊎ (exit.report ≡ help_report)
    ⊎ ((env : Envelope) × (exit.report ≡ dry_run_report env))
    ⊎ ((env : Envelope) × (p : Parsed) × (exit.sent ≡ some env)
        × (r.send_invoke p.workspace env ≡ (0, no_error)))
