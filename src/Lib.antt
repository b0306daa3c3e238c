-- ===== src/Lib.antt =====
-- serctl, a persistent SSH control tool: models and proofs of its core crates.
--
-- Jobs.antt and Jobs/ model crates/serctl_jobs/src/lib.rs, the job records of the remote helper:
--   Jobs/Defs.antt: `JobRecord` and its methods (`submitted` is `submit`), `JobDeadlines::validate_at`
--     and `JobIdentity::validate`.
--   Jobs/Lifecycle.antt: sequences of the mutating methods.
--   Jobs/ReceiptFields.antt, Jobs/Receipt.antt: the bytes of a receipt, `issue`, `decode`, `verify`.
--   Jobs/RoundTrip.antt: an issued receipt is decoded and verified.
--   Jobs/Reconcile.antt: `reconcile`.
--
-- Grants.antt and Grants/ model crates/serctl_protocol/src/grant.rs and, of
-- crates/serctl_daemon/src/daemon.rs, the registry of grants and what a request does with it:
--   Grants/Defs.antt: `OperationGrant` with `new_with_ttl`, `policy_ttl`, `covers`, and the proof of
--     possession, `verify_prelude_pop`.
--   Grants/Registry.antt: `GrantRegistry` (`insert` is `insert_grant`) and `GrantRecord`.
--   Grants/Requests.antt: `validate_request`, and the parts of `dispatch` that find a grant (`admit`)
--     and spend a unit of it (`claim_unit`). Grants/Issue.antt: `issue_grant`.
--   Grants/Steps.antt: sequences of these calls, in any order; Grants/Prune.antt, Budget.antt,
--     Invariant.antt, Terminal.antt, Admission.antt and Policy.antt hold the proofs.
--
-- Audit.antt and Audit/ model crates/serctl_core/src/audit.rs: Audit/Defs.antt the events and their
-- validation, Audit/Ledger.antt the records and `verify_log`, Audit/Files.antt `append`,
-- `verify_internal` and `reconcile` on a log and a checkpoint; Audit/Lines.antt, Records.antt,
-- Append.antt and Reconcile.antt hold the proofs. A request of the daemon
-- records its Intent here before it spends a unit of its grant.
--
-- Remote.antt and Remote/ model crates/serctl_remote_protocol/src/lib.rs: Remote/Frames.antt the
-- frames, Rules.antt the rules on their fields, Encode.antt `encode`, Decode.antt and Envelopes.antt
-- `decode_exact`, Sessions.antt `ControllerSessionValidator` and `HelperSessionValidator`;
-- Fields.antt, Payloads.antt, StartFields.antt, StartReads.antt and RoundTrip.antt the proofs on
-- the wire;
-- Histories.antt the calls that a validator has accepted, SessionOrder.antt, SessionOutput.antt and
-- SessionEnd.antt the proofs. A receipt of Jobs/ is what a helper sends as a Receipt frame.
--
-- Policy.antt and Policy/ model crates/serctl_policy/src/lib.rs: Policy/Defs.antt the documents, base
-- templates and intents, Names.antt the rules on names, Paths.antt `normalize_path`, Compile.antt
-- `compile_ir`, Evaluate.antt `compile_policy` and `evaluate_intent`. Steps.antt, Bounds.antt,
-- Keys.antt, Permits.antt, Ceiling.antt, Deny.antt, Order.antt, Reasons.antt, Invariants.antt,
-- Slashes.antt, Local.antt and NormalForm.antt hold the proofs.
--
-- Transfer.antt and Transfer/ model crates/serctl_transfer_protocol/src/lib.rs: Transfer/Defs.antt the
-- control messages and data frames with their validation, Frames.antt `read_frame`, `write_control`,
-- `write_data` and `DataSequenceValidator`. Reads.antt, RoundTrip.antt and Streams.antt hold the
-- proofs on the wire, Sequence.antt and Accepted.antt those on what is accepted.
--
-- Registries.antt and Registries/ model `TransferRegistry` and `ManagedTunnelRegistry` of
-- crates/serctl_daemon/src/daemon.rs, with `TransferProgress` and `TunnelStatus` of
-- crates/serctl_protocol/src/lib.rs: Registries/Progress.antt, Transfers.antt and Snapshots.antt the
-- transfers, TunnelStatus.antt, Tunnels.antt and TunnelCalls.antt the tunnels, Caps.antt the removal of
-- the oldest finished records, which both do. CapBounds.antt, SnapshotKeeps.antt, TransferCases.antt,
-- TransferBounds.antt, TransferCaps.antt, TransferAdvance.antt and Discovery.antt hold the proofs on
-- transfers, TunnelSound.antt, TunnelSafety.antt, TunnelKeeps.antt and TunnelRuns.antt those on tunnels.
-- The waiting of `cancel_and_wait` is not modelled.
--
-- Channel.antt and Channel/ model `SharedV6State` of crates/serctl_protocol/src/v6.rs, the encrypted
-- frames of a session: Channel/Defs.antt the calls (`receive` is `read_data_frame` once a ciphertext has
-- arrived), Channel/RoundTrip.antt and Channel/Nonces.antt the proofs.
--
-- Common.antt and Common/ hold shared names: tests on numbers, lists, byte strings, text as UTF-8
-- bytes, `Result` with `ensure!`, a byte reader with a cursor and the relation `Reads`, which
-- says that a reader returns a value from the bytes that a writer made of it, and a `BTreeSet` as an
-- ascending list.
--
-- Conventions: an integer is a native number, and its width is a hypothesis where it matters;
-- subtraction stops at 0, as `saturating_sub` does; an array or a text is the list of its bytes; each
-- `ensure!` or `bail!` has an error constructor in the place of its message. A lock that guards a
-- registry is not modelled: each method is one step on the state. Hash functions and signatures
-- are parameters.
-- A loop is a recursion on a list or on a number. `enforce_cap`, which stands for the two loops of
-- `enforce_finished_caps_locked`, runs on fuel: the number of records, of which each round removes one.
-- `read_stream` reads at most the number of frames that it is given.
--
-- Not modelled: asynchronous I/O, processes, SSH and the file system, which are calls of other
-- systems; the vault, recovery, the journal of jobs and the command line.
pub mod Audit
pub mod Channel
pub mod Common
pub mod Grants
pub mod Jobs
pub mod Policy
pub mod Registries
pub mod Remote
pub mod Transfer
