-- ===== src/Lib.antt =====
-- The coordination core of the swarm extension (extensions/swarm/src): task graphs whose nodes are
-- worked on by agents, the life of nodes and attempts, the write scopes that attempts hold, the
-- attention and notification rules, closure reports, the messages that are shown to the root, the pool
-- of model slots, and the collection of stopped agents.
--
-- How the parts interact. A task (types/tasks.ts) holds nodes, edges and a ledger of rework firings.
-- taskgraph/graph.ts decides which nodes can start, reopens nodes over rework edges and validates a
-- graph. taskgraph/lifecycle.ts says which transitions a node may take, derives the task's status
-- from its nodes by the terminal nodes of the graph, and mints an attempt when a node is handed to an
-- agent; the attempt is stamped with the scope that taskgraph/scope.ts resolves over the graph.
-- taskgraph/attention.ts reads node, attempt, assignment message and agent to decide on reminders and
-- on stale notifications. taskgraph/closure.ts reports from the same state which nodes and tasks are
-- closed and what blocks them. taskgraph/stale.ts stamps the nodes whose assignee stopped working and
-- reports them. mailbox.ts keeps the records of messages: it finds the one with a key, and supersedes a
-- node's assignments when the node is handed out anew. A message for the root goes through
-- surface/actionable.ts (may the root act on it, by the task and the node that its ids name),
-- surface/staleness.ts (is it moot by now), surface/coalesce.ts (which of its group is kept)
-- and surface/pump-decision.ts (which messages the session shows). nudges/ says who is alive and
-- idle. A turn that a provider's error ends goes to hooks/pool-swap.ts, which leaves it to the
-- engine's retries (hooks/streaks.ts keeps the counts) or lets pool.ts bench the slot and pick
-- another, by the strategy or, where none is healthy, by a round that probes the slots in turn.
-- agent-gc.ts removes the records of stopped agents that nothing refers to.
--
-- Which file models which part.
--   Prelude       Boolean tests, lists, texts, sets, plain objects as association lists
--   Types         types/tasks.ts, types/messages.ts, types/agents.ts, types/pool.ts and part of
--                 types/state.ts
--   Graph         taskgraph/graph.ts: Activation (edgeMatchesActivation, sourceAttemptIdentity), Rework
--                 (activateReworkNodes, suppressPriorAttemptForForceReopen), Readiness
--                 (computeReadyNodes and the questions on edges), Cycle (graphHasCycle), Validate
--                 (validateTaskGraph), Default (buildDefaultGraph, collectDeclaredArtifacts)
--   Agents        utils.ts: inferRoleKind, ensureAgentDefaults
--   Lifecycle     taskgraph/lifecycle.ts: Transition, Status (computeTaskStatus, applyTaskStatus),
--                 Attempt (mintNodeAttempt, release, activity stamps, gates)
--   Scope         taskgraph/scope.ts: Resolve (resolveNodeScope), Pattern (normalizeScopePattern),
--                 Overlap (segmentsOverlap, scopesOverlap), Lease (collectActiveLeases); Path says what
--                 a pattern matches
--   Attention     taskgraph/attention.ts: Evidence (the answer and the timestamps that it
--                 rests on), Derive (deriveNodeAttention), Fence (the two staleness checks)
--   Gc            agent-gc.ts
--   Closure       taskgraph/closure.ts: nodeVerdict, computeNodeClosureSummary; Task is
--                 computeTaskClosure
--   Autoclose     taskgraph/evidence.ts: autoCloseRootTerminalNodes
--   Mailbox       mailbox.ts: the debts of messages, Result (validateResultMessage), Index
--                 (findIdempotentMessage), supersedeOpenAssignments with its proofs in Waived, Cancelled
--                 (supersedeTaskAssignmentMessages)
--   Stale         taskgraph/stale.ts: staleOpenAssignmentScanLocked
--   Pool          pool.ts: Pick (pickSlot), Health (recordProviderError, recordSlotSuccess,
--                 setSlotCooldown), Probe (advanceProbeRound)
--   Streaks       hooks/streaks.ts: the chain of swaps and the notices to the operator; Retry is the
--                 gate for the engine's retries and the choice of a slot in hooks/pool-swap.ts
--   Nudges        nudges/status-predicates.ts, and the idle tests of nudges/
--   Surface       surface/: Keys (the expressions that read ids), Rank (ranking.ts), Actionable,
--                 Staleness, Coalesce, Session (session.ts) and Decision (pump-decision.ts)
--   Examples      runs on small inputs, and the theorems at those inputs
--
-- State. An operation that mutates a task or the swarm's state takes the old value and returns the
-- new one. A plain object is an association list in the order in which its keys were added, which is
-- the order of Object.entries for keys that are not integers; names that every object inherits, such
-- as "constructor", are not modelled. Messages for people (errors, evidence, traces) are constructors
-- that carry what the text interpolates, except that closure reports keep texts, which the code
-- searches. The file test of closure reports, the answers of git and the
-- protocol switch are arguments. A time stamp is its text and the milliseconds that Date reads
-- from it; the current time and the random part of an attempt's id are arguments. So are the text of a
-- time stamp, localeCompare, toLowerCase, the number that a sha-256 digest starts with, the random roll
-- of a weighted pick, whether a slot's model is in the registry, and the thresholds that environment
-- variables set. Weights of slots are whole numbers. A regular expression that reads an id is the
-- condition on the pieces between its colons. A sort is the stable one that the language promises for a
-- consistent order, so what an engine does with dates that cannot be read is not modelled.
--
-- Fuel. The depth-first search of graphHasCycle gets one more than the number of vertices, the search
-- of validateTaskGraph as many rounds as there are nodes, resolveNodeScope one more round than there
-- are nodes, segmentsOverlap as many calls as there are segments on both sides,
-- autoCloseRootTerminalNodes one more round than there are nodes. The loop of advanceProbeRound
-- has as many rounds as there are slots, as the code has.
--
-- Not modelled: the delivery of messages with its retries and dead letters, files, locks, terminals,
-- dialogs, the registration of tools and hooks with the host, and the text of messages.
pub mod Prelude
pub mod Types
pub mod Graph
pub mod Agents
pub mod Lifecycle
pub mod Attention
pub mod Gc
pub mod Closure
pub mod Autoclose
pub mod Scope
pub mod Mailbox
pub mod Stale
pub mod Pool
pub mod Streaks
pub mod Surface
pub mod Nudges
mod Examples
