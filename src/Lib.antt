-- ===== src/Lib.antt =====
-- kmonad-device-manager: a model of its control plane, with the theorems that make it correct.
--
-- The program supervises one KMonad process for each keyboard configuration. One goroutine, the
-- reconciliation owner (internal/manager/service.go), holds the state; requests of clients reach it
-- through a mailbox of commands, so each call below is one function from a state to a result and a
-- state. The privileged broker (internal/platform) authorizes starts and stops for controllers of
-- several users. The parts and the files that model them:
--
-- - Broker, Broker/Authorizer: `BrokerAuthorizer` of internal/platform/broker.go, with its requests,
--   grants, active configurations and audit trail. A mutex makes each call one step; `BrokerCall`,
--   `step` and `run` put the calls in sequence. Start, Rejected, SingleUse, Keyed, Isolation, Ids
--   and AuditTrail prove what `RegisterGrant`, `Authorize` and `AbortStart` promise.
-- - Broker/Frames, Broker/Wire: `ReadBrokerFrame`, `ParseBrokerWireRequest`,
--   `HandleBrokerWireRequest` and `MarshalBrokerWireResponse` of internal/platform/broker_wire.go.
-- - Domain, Domain/Resources: the vocabulary of internal/manager/domain.go that the other parts use.
-- - Events, Events/Publish, Events/Subscriptions: `publishEvent`, `subscribeEvents`,
--   `unsubscribeEvents` and `retainedEvents` of internal/manager/events.go: a ring of 1024 events
--   and a queue of 1024 for each subscriber. Ring, Logs and Retained relate the ring to the list of
--   all that was published; Deliver, Stream, Client, Replay and Session follow one client. Changes is
--   `publishStateChangesBetween` and `publishOperationChange`, and Silent and Announced prove
--   what they announce.
-- - Service: `submitCommand` and `executeCommand` of internal/manager/commands.go. What channels and
--   contexts did to a command is an argument, `Delivery`.
-- - Idempotency, Idempotency/Journal, Run and Request: the journal of
--   internal/manager/idempotency.go, and its opening in internal/manager/managed_store.go. The file
--   is part of the state; what a write did is an argument, `WriteOutcome`. `JournalCall`, `step` and
--   `run` put admissions, completions and restarts in sequence.
-- - Supervisor, Supervisor/Process, Supervisor/Start, Supervisor/Reconcile: phases, back-off,
--   validation, launch and stop of one configuration's process, and one pass of `reconcile` over it,
--   from internal/manager/supervisor.go and internal/manager/service.go. What is done to the
--   operating system is a list of `Effect`; what it answers is an argument. Supervisor/Output is
--   `limitedOutputBuffer`. Supervisor/Sweep is the whole of `reconcile`, from the check of the
--   directory to the removal of what is no longer listed, with `stopStates`, `stopAll` and `cleanup`;
--   a `Visit` is what the pass finds out about one configuration. Claims, Exclusive, Listed, Clash
--   and Shutdown prove which device a process may have and what is left behind.
-- - Operations, Operations/Prune, Target, Identify and Probe: `startIdentification`,
--   `finishIdentification`, `startProbe`, `finishProbe`, the calls that cancel them, and
--   `pruneOperations`, of internal/manager/identify.go and internal/manager/inputscan.go. Where the
--   code starts a goroutine that waits for a key, the end of the wait is a call of its own;
--   `SessionCall`, `step` and `run` of Final put the calls in sequence. Keys is the constants of
--   internal/platform/keycodes.go, Vocabulary and Scan are the vocabulary kmonad-v1 and `inputScan`.
-- - Config, Config/Render, Config/Read, Config/Adopt: the tokens of a configuration and its device,
--   from internal/manager/state.go; its rendering, from internal/manager/render.go and
--   internal/platform/linux.go; its limited read; and the adoption of one that was written by hand,
--   from internal/manager/adopt.go. Quoting says what is relied on of quoted strings.
-- - Location, Location/Diagnostics: `lineColumnOffset`, `offsetLineColumn`, `nextRuneOffset` and
--   `candidateDiagnosticLocation` of internal/manager/validation_location.go. Forms is
--   `parseBehaviorForms` and `newBehaviorSourceMap`; Nested and Assignments prove where the spans lie.
-- - Prelude: the names that all parts share; lists with native lengths, Go strings as lists of
--   bytes, and Go maps as association lists.
--
-- The files that end in Tests hold runs at concrete inputs.
--
-- Numbers are natural. Counters and identifiers of 64 bits wrap around; times are nanoseconds, with
-- 0 for the zero time, and are far from the bounds of their type. Loops are structural
-- recursion. The parser of Location/Forms alone takes fuel, three units for each byte and three more,
-- and Nested proves that they are enough. The order in which Go ranges over a map is unspecified; no
-- theorem depends on it.
--
-- Parameters stand for code that is not in the repository: `encoding/json` (decode, decode_next,
-- marshal, canonical; that an encoding has no control characters is a hypothesis), the hash of keys
-- and requests (hash), `strings.TrimSpace` (is_blank), `reflect.DeepEqual` (same_device,
-- same_runtime, same_operation, same_diagnostic) and the random number of the back-off (int63n,
-- which its theorem takes to be below its bound, as documented), `strconv.Quote` and
-- `strconv.Unquote` (quote, unquote: one undoes the other, and the quoted text has no quote that is
-- not escaped), `strings.TrimSpace` of a text (trim, which takes white space off both ends), and
-- the functions of paths (base, join, remove). `bufio.Reader.ReadSlice` is modelled as documented.
--
-- Not modelled: sockets, request dispatch and the client of the API (internal/manager/api_*.go), the
-- command line, metrics, file watching, logging and the writing of status files, the adapters of the
-- operating systems (internal/platform/linux.go, save the two functions above, and the others),
-- dry runs, the managed store and the lifecycle of its configurations (managed_store.go, apply.go,
-- lifecycle.go, configurations.go), the device registry, the snapshots of the broker, and in
-- validation_location.go the parsing of the validator's output.
pub mod Prelude
pub mod Domain
pub mod Service
pub mod Broker
pub mod Events
pub mod Idempotency
pub mod Supervisor
pub mod Location
pub mod Operations
pub mod Config
