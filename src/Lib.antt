-- ===== src/Lib.antt =====
-- Deckhand: the core of the broker, its identity tokens, and the macOS agent.
--
-- The broker takes action requests from a control surface, has a policy decide them, asks for a
-- confirmation where one is needed, and queues a job. A worker process claims jobs under a lease and
-- drives an adapter; a scheduler process expires leases and stale jobs and reconciles jobs whose
-- outcome is unknown. All of them share one SQLite file, which apps/broker/src/deckhand/store.py
-- reads and writes; every change appends an event to a hash-chained audit log. Callers are known by
-- signed identity tokens, which an issuer on the operator's machine mints; an agent on that machine
-- executes local actions from an inventory. This library models these parts and proves what the
-- processes rely on.
--
-- Which file models what (paths below apps/broker/src/deckhand):
-- - Models/State, Models/Request: the enumerations and records of models.py.
-- - StateMachine: ALLOWED_TRANSITIONS and require_transition of state_machine.py; StateMachine/Reach
--   is about the graph they span.
-- - Digests: the idempotency digest and the confirmation digest of digests.py; Digests/Binding says
--   what they bind.
-- - Store/Rows, Store/Tx: the tables of SCHEMA, SQL's selections and updates as functions on lists
--   of rows, and `connect` as a transaction: a function of the database into an error or a value
--   with the database that is left. An error leaves the database as it was.
-- - Store/Audit: _chain_hash, _append_audit, verify_audit_chain and list_audit_events;
--   Store/Audit/Chain and Store/Audit/Tamper are about the chain.
-- - Store/Views: _job_view and _job_error. Store/Jobs: create_job, get_job, get_job_context,
--   list_jobs and record_policy_denial. Store/Updates, Store/Leases: claim_next_job, renew_lease,
--   transition_job. Store/Sweeps: expire_leases, expire_stale_queued, claim_reconcile_candidates.
--   Store/Confirmations: create_confirmation, consume_confirmation, cancel_confirmation.
-- - Store/Operation: the public operations that write, as data, and `run`, which applies a list of
--   them. BEGIN IMMEDIATE lets one writer in at a time, so every behaviour of the processes on the
--   file is such a list, in some order.
-- - Catalog: the dict of action definitions, get, latest and validate_request of catalog.py, with
--   the JSON Schema validator as a parameter; Catalog/Lookup is about the look-ups.
-- - Policy: DevelopmentPolicyEngine of policy.py.
-- - Adapters: the errors and the answers of adapters.py; Adapters/Registry: the protocol of an
--   adapter, FakeAdapter, DisabledMutationAdapter and AdapterRegistry.
-- - Process: a process on the shared database, as a function of the database and of the number of
--   its steps: each transaction of its own, and each call of an adapter, is a step, and a schedule
--   says what others commit before it and at which moment it is made. An exception keeps what was
--   committed. Worker: run_once of worker.py; Worker/Round and Worker/Returns are about a round
--   that returns a job. Reconciler: run_once of reconciler.py; Reconciler/Returns is about a turn of
--   its loop. Canceller: cancel of cancellation.py; Canceller/Refusals is about who may cancel.
--   Interleaving is about any of these beside any others.
-- - Api: execute of api.py, Api/Plan: plan, Api/Cancellation: cancel_job and cancel_confirmation;
--   Api/Authority is about the jobs that execute creates.
-- - Identity: mint_token and verify_token of identity.py, Identity/Base64: its base64 helpers,
--   Identity/Issuer: mint of apps/macos-agent/src/deckhand_macos/issuer.py; Identity/Accepts is
--   about the tokens that are accepted, Identity/RoundTrip about those that are minted.
-- - WasmHost/Frames: _encode_frame, _recv_exact and _read_frame_sync of wasm_host_transport.py;
--   WasmHost/Frames/Delivery and WasmHost/Frames/RoundTrip are about them. WasmHost/PublicJson:
--   _validate_public_json; WasmHost/PublicJson/Bounds is about it.
-- - MacAgent (apps/macos-agent/src/deckhand_macos): the actions of models.py; MacAgent/Inventory:
--   the inventory of config.py; MacAgent/Agent: what a handler does to the machine; MacAgent/Obs:
--   the operations of obs.py; MacAgent/Handlers, MacAgent/Executor: `class MacExecutor` of
--   executor.py; MacAgent/Permitted is about the commands it gives.
-- - Resilience: the circuit breaker of ResilienceGuard in resilience.py, whose methods are the steps
--   of concurrent calls; Resilience/Circuit and Resilience/Refusals are about any sequence of these
--   steps.
--
-- How proofs are laid out: Store/Ensures has Hoare-style rules for a transaction that commits.
-- Store/Growth has the relation of a log that only grows and confirmations that are only used up;
-- Store/Growth/Rules, Store/Growth/Calls and Store/Operation/Kept carry any such relation through
-- each way to build a transaction, each operation and any list of operations;
-- Store/Frame that confirmations leave jobs alone; Store/Table how a job table may change;
-- Store/Commits what each operation did when it committed; Store/Advance that each operation keeps
-- the table well-formed and follows the state machine; Store/Advance/Expiry what the sweeps do to
-- the table, and Store/Advance/Expiry/Exactly to which rows. Store/Contracts has what callers rely
-- on, and Store/Operation/History what holds after any operations. Process/History has the rules for a
-- process whose transactions are operations of the store, Process/Permits those transactions, and
-- Process/Returns what a process that returned has done. Tests applies the results to concrete
-- databases.
--
-- What stands for code outside the repository: External has, as functions without assumed laws, the
-- ISO text of a time, json.dumps and json.loads, SHA-256, HMAC, and pydantic's dumping and parsing.
-- Identity has Crypto, the same for tokens, with Ed25519 and base64, and MacAgent/Agent has
-- Platform, what the agent's machine answers at each step. Laws are hypotheses of the theorems that
-- use them: IsHex (digests are ASCII), IsFaithful (what a token is made of is read back), IsBinding
-- (they do not collide) and IsSeparating (canonical texts separate values). Fresh identifiers, fresh
-- tokens and the clock are arguments, so they hold for every choice.
--
-- Conventions: a time is a number of microseconds since the epoch; the columns hold ISO texts in
-- UTC, whose order is that of the times. Where SQL leaves the order of equal keys open, rows are
-- taken in the order of insertion. A subtraction of times stops at 0. Every function is total and
-- structurally recursive; the loop of _recv_exact runs on the number of bytes that it still needs,
-- which is enough as each call gives a byte at least.
--
-- Not modelled: audit_is_writable, initialize and the column migrations (they create and probe
-- files); Catalog.from_path, list_actions and serializable (reading, sorting and printing); the
-- bounds and patterns of fields, which pydantic checks; the rate limit, the semaphore, the snapshot
-- and the metrics of resilience.py; items and health of AdapterRegistry; OpaPolicyEngine of
-- policy.py (a remote service), status.py, supervision.py, the plugins, the rest of the WASM host,
-- which are other components; of the HTTP interface, the authentication by headers, the routes that
-- only read and the event stream; its clients; the loading of keys; of the macOS agent, the HTTP
-- interfaces of it and of its issuer, the socket of obs.py, and the validators and the loading of
-- the inventory; configuration, metrics and entry points, which keep no state of their own; the
-- Stream Deck plugin, which is TypeScript.
pub mod Base
pub mod Result
pub mod Json
pub mod Models
pub mod StateMachine
pub mod External
pub mod Adapters
pub mod Resilience
pub mod Catalog
pub mod Policy
pub mod Digests
pub mod Store
pub mod Process
pub mod Worker
pub mod Reconciler
pub mod Canceller
pub mod Interleaving
pub mod Api
pub mod WasmHost
pub mod MacAgent
pub mod Identity
pub mod Tests
