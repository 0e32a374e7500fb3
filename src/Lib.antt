-- ===== src/Lib.antt =====
-- Verification of the Go programs of millstrand: the strand CLI, the mill's registry of JVM pools
-- and its custody of processes, the mill's client and its autostart, the kanban-tree viewer, and
-- the scheduler of the quality gate.
--
-- The parts and where they are:
-- * Pools models cli/internal/jvmpool/registry.go, the registry that assigns workspaces to shared
--   JVM pools. Its state is the membership file (`Disk`); `Reconcile`, `Remove`, `Snapshot` and
--   `ValidatePool` are `reconcile`, `remove`, `snapshot` and `validate_pool`, functions from the
--   directory to the directory after the call and the returned value or error. A call holds the
--   registry's mutex from its read to its last write, so a call is one step. Membership has the
--   rows and their validation, Store the reading and the atomic replacement, Registry the
--   operations. Validity, Rows, Writes, Outcomes and Updates are lemmas on these; Refinement
--   compares the operations with a finite map of rows; Ownership, Repeats, Success and Snapshots
--   have the rest.
-- * Suggest models cli/internal/errfmt/suggest.go, which offers names near a mistyped one, and
--   `QuotedDetails` of cli/internal/errfmt/errfmt.go, which it reads. Distance is `levenshtein`,
--   Rank is `rank`, Offer is `agreed` and `suggest`; Edits compares the distance with edit
--   scripts, Sorting, Ranking, Agreement, Details and Tiers are about the order and the choice of names.
-- * Dispatch models cli/internal/dispatch/dispatch.go, the strand command up to the request that
--   it sends to the mill, with `ValidateFormat` of cli/internal/errfmt/errfmt.go. Args is `parse`,
--   Envelope is `buildPayloads` and `resolveContext`, Run is `assembleEnvelope` and `Run`.
--   Parsing, RoundTrip, Payloads, Selection and Outcomes are the proofs.
-- * Kanban models tools/kanban-tree/tree.go and the strands of tools/kanban-tree/export.go. Scope
--   is `layout` of one container without its cache, with `reachable` and `promoteUnreached`; Board
--   is the model with `sortIDs`, `status`, `kind`, `external` and `progress`; Build is `build`
--   with `pruneClosed`, `nearestKept` and `countChildren`; Layout is `layout` with its cache;
--   Export is `validateEdges` and Parents `validateParents`, with Singles and Forest about its
--   two loops. Reach, Promote, Placing, Edges, Shown, Ancestors, Kids, Blocking, Order, Prune and
--   Counts are the proofs.
-- * Custody models cli/internal/process/custody.go, which launches processes for the owners of a
--   workspace and stops their trees. Parse is `ParseLaunchSpec`, Spec is `validateLaunchSpec` and
--   `sameSpec`, Terminate is `terminateProcessTreeWithSignal`, Row is one process with the
--   critical sections that change it, Service is the store with `Launch`, `Get`, `ListOwned`,
--   `Cancel`, `Acknowledge` and `Shutdown` up to where they leave the mutex. Steps has the
--   sections as a relation on one process, Runs the calls and sections as a relation on the store:
--   a run is any sequence of them, so any interleaving of the goroutines. A channel is what a
--   reader sees of it, and where the waiting goroutine stands is a field of the row. Ends,
--   Validity, Invariant, Keys, Once, Final, Closing, Stopping and Boundary are the proofs.
-- * Client models cli/internal/client, the strand command's side of the mill's socket. Frames and
--   Relay are `RelayResponse` of invoke.go with all it calls, over the lines that the reads of the
--   connection return and a writer that may fail at any write; Metadata is `readMillMetadata` of
--   mill.go and `ValidateStorageIdentity` of client.go; Calls is `MillCallPayload`, `asTransport`
--   and `InvokeThroughMill`. Streams, Endings, Invocations and Admission are the proofs.
-- * Mill models cli/cmd/mill/autostart.go, the workspaces of whose weavers a starting mill makes jobs.
--   Autostart is `readAutoStartRegistrations`, `registerAutoStart`, `removeAutoStart`,
--   `persistAutostartFailures` and `startAutostart` up to its jobs; Grouping, Grouped, JobOrder and
--   Jobs are the proofs. The launches of the jobs, and their stop on shutdown, are not modelled.
-- * Quality models tools/land-quality/main.go, the gate's scheduler: Scheduler is the body of the
--   loop of `run` over the checks and the receipt of an outcome, as functions on its variables,
--   and the runs that these make up; Counting and Limits are the proofs.
-- * Base has what they share: Boolean tests on native numbers, lists and sets, strings as lists of
--   code points, Go's pairs of a value and an error, and the cleaned absolute paths of the
--   registry. Tests in each part has runs at concrete inputs.
--
-- How they interact: Run parses the words, assembles the envelope and hands it to the mill, whose
-- answer is a parameter there; Session puts Client's `invoke_through_mill` in its place. Suggest
-- renders a failed invocation; the registry is called by the mill under its own lock, with the
-- live hosts as an argument; kanban-tree reads an export through strand.
--
-- Conventions. A Go string is the list of its code points; the order of code points is the
-- bytewise order of UTF-8. A Go map is an association list where its order of iteration cannot be
-- told from its results, and a missing key reads as the zero value. An error is a constructor with
-- the values that the error carries, without its text. `int` counts lengths and distances of
-- values in memory, so it does not overflow and is a natural number.
--
-- What is a parameter: the random bytes, the temporary name and the failing steps of a write (`System`), what the JSON
-- decoder makes of the membership file (`File`), the resolver and the live hosts, the lower-case
-- table of Unicode, the files, the working directory and the repository of the dispatcher
-- (`World`), and its terminal, `time.ParseDuration` and the mill (`Process`). For custody these
-- are the directory, the output files, the new handle and the start of the process (`Answers`),
-- and what the kernel says of signals and of looks at a group (`Kernel`); that a new handle, made
-- of 16 random bytes, is not in use is a hypothesis of the step that launches, and whether
-- observers may fail is an index of the runs. For the client these are `encoding/json` (`Json`),
-- the mill's file and process (`MillWorld`) and what comes over the socket (`Socket`); for the
-- autostart, the paths, the configurations, the removals and writes and the shutdown
-- (`Surroundings`).
--
-- Loops are recursion on their list. Five loops are on fuel: `walk` of `reachable` may take as
-- many turns as the top children and the dependents of all blocking ids together, since each id is
-- expanded once at most; `ascend` of `validateParents` takes two turns more than there are
-- parents, enough for every chain that ends; `chain`, `climb` and the rounds of `promoteUnreached`
-- have the limits of the source, on hops and on children.
--
-- Not modelled: the artifact key and the path constructors of the registry, the layout and the
-- JSON of errors and of printed values, the decoder of the kanban export and the validation of its
-- strands, so that an attribute holds one of the scalars it lets pass, the renderer of the tree,
-- the waits of custody's Cancel and Shutdown for their deadlines and the errors that they then
-- join, the environment and output paths of a launch, the requests that the client encodes, and
-- the rest of the mill, with its launches, lifecycle, restart and configuration; of the quality
-- gate, the validation and execution of its checks and its summary.
mod Base
pub mod Session
pub mod Mill
pub mod Quality
pub mod Custody
pub mod Client
pub mod Kanban
pub mod Pools
pub mod Suggest
pub mod Dispatch
