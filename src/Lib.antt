-- ===== src/Lib.antt =====
-- pi-persona: its core logic, modelled from the sources under src/, and what holds of it.
--
-- pi-persona is an extension of a coding agent. It runs personas and sub-agents, folds the answers of
-- several agents into one, and lets separate instances exchange messages. All text of other agents is
-- untrusted, and every tool call is gated. The parts interact so: a broker carries frames between
-- processes (Bus); the exocom layer decides on each message that arrives, and hands what it accepts
-- to the fence, which quotes it and names its sender (Exocom, Core.Fence); it also keeps a ledger of
-- claims, asks and shared tasks, in which write sets may not overlap (Core.Ownership); the permission
-- resolver decides which tools, skills and agents a persona may use (Core.Permissions); the
-- strategies run agents under a semaphore and reduce their votes (Orchestration); the output of
-- processes is kept in a sanitized ring (Core.MonitorOutput). Within one process the agents ask and
-- tell each other by a bus of bounded inboxes (Bus.Inproc); monitors watch processes and announce
-- their lines and ends (Core.Monitor); the gate of a persona lets tool calls through by its
-- capabilities, which stand on the permissions (Core.Capabilities, Persona.Gating); a flow orders
-- the phases of a run by what they need, and its run goes through them in rounds
-- (Orchestration.Flow, Orchestration.FlowRun).
--
-- Base: names of the libraries passed on; Base/Tests (Boolean tests and rulesets), Base/Lists,
--   Base/Texts, Base/Maps, Base/Pairs, Base/Outcomes: shared types, functions and lemmas.
-- Bus/Framing: src/bus/broker/framing.ts. encodeFrame is encode_frame; the closure of
--   createFrameReader is the record Reader with the step feed, whose loop is drain, and its
--   callbacks are the events that a step hands on.
-- Bus/Inproc: the class InProcessBus of src/bus/inproc.ts; send, ask, reply, take and pending are
--   send_note, ask_peer, reply_to, take_all and unread. The settlements are the last result of a
--   call. Bus/Inproc/History: the buses that calls lead to.
-- Core/Ownership: src/core/ownership.ts. normalizeWritePath, pathsOverlap, findWriteSetOverlaps,
--   writeSetPathError and validateParallelWriteSets have their names; the loops are collisions,
--   overlaps_of, overlaps_behind and overlaps_from. Core/Ownership/Windows, Core/Ownership/Forms,
--   Core/Ownership/Inside and Core/Ownership/Relations say what the normal form and the tests of
--   paths mean.
-- Core/Fence: src/core/fence.ts. stripTerminalControls is strip_terminal_controls, a loop of
--   strip_step; safeAttribution, fenceUntrusted, fencePeer, attributeInbound and attributePeer have
--   their names.
-- Core/MonitorOutput: src/core/monitor-output.ts. The class MonitorOutputTail is a record with the
--   steps append and push; the ring is a function from indices to units.
-- Core/Monitor: src/core/monitor.ts, the requests and their validation and the kept texts.
--   Core/Monitor/Active: the objects of the class MonitorManager and what ends them.
--   Core/Monitor/Manager: its operations and handlers; arm has the phases arm, arm_started and
--   arm_failed, and timeout and cancel are time_out and cancel_monitor.
--   Core/Monitor/Manager/Lifecycle: the states that they lead to.
-- Core/Permissions: src/core/permissions.ts. globToRegExp is glob_to_reg_exp, matchesAny is
--   matches_any, isAllowed is is_allowed; the module-level cache is an argument and a result.
--   Core/Permissions/Globs says what the regular expressions match, Core/Permissions/Documented what
--   the comments of the source promise, and where the two differ.
-- Exocom/Frames: the semantic frames of src/exocom/envelope.ts, isSemanticFrame and
--   frameSigningPayload (payload_values is the array before it is written as JSON).
-- Exocom/Collaboration: src/exocom/collaboration.ts. transition, applyCollaborationEvent,
--   staleCollaboration, releaseCollaboration and pruneCollaboration have their names; the record
--   Runtime gathers Date.parse, the size of a state as JSON, and the path module. The state is in
--   Exocom/Collaboration, what changes it in Exocom/Collaboration/Transitions.
-- Exocom/Ledger: src/exocom/ledger.ts. applyLedgerEvent is apply_ledger_event: guarded holds the
--   tests that all kinds share, and each kind has a function (make_claim, make_ask, make_answer,
--   make_release, do_work). pruneLedger is prune_ledger. The state and its queries are in
--   Exocom/Ledger, the events in Exocom/Ledger/Events. Exocom/Samples: values for tests.
-- Exocom/Guards: src/exocom/guards.ts, and the decision in buildInboundDelivery of
--   src/exocom/inbound.ts (decide_inbound). The two classes are records, their methods allow,
--   seen_before and forget steps.
-- Orchestration/Results: AgentResult of src/orchestration/types.ts. Orchestration/Voting:
--   src/orchestration/voting.ts; voteReduce is vote_reduce, and its inner functions have their
--   names.
-- Orchestration/Parallel: the class Semaphore of src/orchestration/parallel.ts; begin_call, cancel
--   and settle_call are what a call of `with` does when it begins, when its signal aborts, and when
--   its callback settles.
-- Results/Paging: pageLiveResult of src/results/retrieval.ts.
-- Core/Capabilities: src/core/capabilities.ts, with isAllowed as the interface Resolver;
--   Core/Capabilities/Grants fills it with the resolver of Core/Permissions. Persona/Gating:
--   src/persona/gating.ts.
-- Orchestration/Flow: src/orchestration/flow.ts. topoOrder has its name; wire fills the tables,
--   place is the loop on the queue and release_each its inner loop. Orchestration/Flow/Order says
--   what an order is. Orchestration/FlowFile: parseFlow and verifyFlowRefs of the same file.
-- Orchestration/FlowRun: the loop of runFlow in src/orchestration/flow-run.ts. seed and resumed
--   make the state of a resumed run, round is one wave, answer_gate a checkpoint; the record Runner
--   gathers runPhase, approveGate, readArchivedResult and the order in which results come in.
--
-- Conventions. A text is the list of its UTF-16 code units, and a position in a text is the rest of
-- it. A refusal is a constructor of an error type in place of its message. A number is a natural
-- number; where the source subtracts, the model writes the comparison by addition. A clock is an
-- argument of each call. A JavaScript Map is the list of its entries in insertion order. An object
-- that the source compares by reference has a handle.
--
-- Fuel. drain has one round for each byte of its buffer and one more, and every round takes the
-- four bytes of a header. strip_terminal_controls has one round for each unit of its text, and
-- every round takes at least one. The loop on the queue of a flow has one round for each phase, and
-- every round places one: Orchestration/Flow/Placing shows that the queue is empty at the end. A
-- flow run has one round for each phase without a result, and every round records one:
-- Orchestration/FlowRun/Rounds.
--
-- Not modelled: JSON, Date.parse, the path module and toLowerCase, which are parameters of what
-- calls them, the regular expressions of the host language other than the ones written out here,
-- and sockets, files, processes, prompts and the user interface.
pub mod Base
pub mod Bus
pub mod Core
pub mod Exocom
pub mod Orchestration
pub mod Persona
pub mod Results
