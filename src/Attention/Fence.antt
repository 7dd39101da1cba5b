-- ===== src/Attention/Fence.antt =====
-- attention.ts: the staleness of lifecycle notifications. The texts of evidence are left out: they
-- are log lines of the branch taken, which `reason` names.
pub mod Fresh
use pi_graph_loop.Prelude.{
  ℕ, ◌+◌, String, Bool, true, false, not, ◌&&◌, ◌||◌, Option, none, some, List, lookup, get_last?,
  ltb, is_some, opt_eq, or_else, ◌==◌, if◌then◌else◌, is_truthy,
}
use pi_graph_loop.Types.{
  HealthStatus, SwarmAgent, SwarmState, TaskNode, TaskNodeAttempt, TaskState, Stamp, is_active,
}
use pi_graph_loop.Graph.Rework.{prior_attempt}
use pi_graph_loop.Lifecycle.Transition.{is_terminal_node_status}
use pi_graph_loop.Lifecycle.Status.{is_closed_status}
use pi_graph_loop.Attention.Evidence.{is_stopped, is_ready}

pub data StaleReason : Type 0 where
  task_closed node_terminal superseded superseded_attempt agent_stopped assignee_drift : StaleReason
  node_missing reopened_reassigned : StaleReason

-- `{ stale, reason }`: `stale` is true exactly when there is a reason.
abbrev Staleness : Type 0
Staleness = Option StaleReason

abbrev settle_notify_cooldown_ms : ℕ
settle_notify_cooldown_ms = 120_000

abbrev is_unhealthy : HealthStatus → Bool
is_unhealthy HealthStatus.unhealthy = true
is_unhealthy _ = false

-- `agent.status === "stopped" || agent.health === "unhealthy"`.
abbrev pub is_down : SwarmAgent → Bool
is_down agent = is_stopped agent.status || is_unhealthy agent.health

-- `nowMs - new Date(at).getTime() > SETTLE_NOTIFY_COOLDOWN_MS`, false where the date is NaN.
unfoldable pub is_beyond_grace : ℕ → Stamp → Bool
is_beyond_grace now_ms at = elim at.ms [
  | none ↦ false
  | some t ↦ ltb (t + settle_notify_cooldown_ms) now_ms
]

-- `assignedAt ? new Date(assignedAt).getTime() : 0`.
abbrev attempt_beyond_grace : ℕ → Option Stamp → Bool
attempt_beyond_grace now_ms none = ltb settle_notify_cooldown_ms now_ms
attempt_beyond_grace now_ms (some at) = is_beyond_grace now_ms at

-- (4), for the last attempt of a node that has no assignee.
unfoldable pub is_orphaned : SwarmState → ℕ → Option TaskNodeAttempt → Bool
is_orphaned st now_ms none = false
is_orphaned st now_ms (some last) =
    if is_truthy last.assignee
    then elim (lookup last.assignee st.agents) [
      | none ↦ false
      | some prior ↦ is_down prior && attempt_beyond_grace now_ms last.assigned_at
    ]
    else false

abbrev last_of : Option (List TaskNodeAttempt) → Option TaskNodeAttempt
last_of none = none
last_of (some history) = get_last? history

abbrev is_inactive : Option TaskNodeAttempt → Bool
is_inactive none = false
is_inactive (some a) = not (is_active a.status)

-- (4): nothing without attempt metadata.
unfoldable pub attempt_staleness : SwarmState → TaskNode → ℕ → Staleness
attempt_staleness st node now_ms =
    if is_some node.active_attempt_id && is_some node.attempt_history
    then if is_inactive (prior_attempt node)
      then some superseded_attempt
      else if not (is_some node.assignee)
          && is_orphaned st now_ms (or_else (prior_attempt node) (last_of node.attempt_history))
      then some agent_stopped
      else none
    else none

-- (3)
unfoldable pub message_is_superseded : SwarmState → TaskNode → Bool
unfolding lookup
message_is_superseded st node = elim node.assignment_message_id [
  | none ↦ false
  | some id ↦ elim (lookup id st.messages) [ none ↦ false | some rec ↦ is_some rec.superseded ]
]

-- The age of the canonical assignment is infinite where there is no such message.
unfoldable pub assignment_beyond_grace : SwarmState → TaskNode → ℕ → Bool
assignment_beyond_grace st node now_ms = elim node.assignment_message_id [
  | none ↦ true
  | some id ↦ elim (lookup id st.messages) [
    | none ↦ true
    | some rec ↦ is_beyond_grace now_ms rec.created_at
  ]
]

-- (6)
unfoldable pub agent_staleness : SwarmState → TaskNode → String → ℕ → Staleness
agent_staleness st node agent_id now_ms = elim (lookup agent_id st.agents) [
  | none ↦ none
  | some agent ↦
      if is_down agent && assignment_beyond_grace st node now_ms then some agent_stopped else none
]

-- (5) and (6).
unfoldable pub drift_staleness : SwarmState → TaskNode → String → ℕ → Bool → Staleness
drift_staleness st node agent_id now_ms fresh =
    if not (opt_eq node.assignee (some agent_id)) && not (agent_id == "root")
    then some assignee_drift
    else if fresh
    then none
    else agent_staleness st node agent_id now_ms

unfoldable pub check_stall_notification_stale :
    SwarmState → TaskState → String → String → ℕ → Bool → Staleness
check_stall_notification_stale st task node_id agent_id now_ms fresh =
    elim (lookup node_id task.nodes) [
      | none ↦ none
      | some node ↦
          if is_closed_status task.status
          then some task_closed
          else if is_terminal_node_status node.status
          then some node_terminal
          else if message_is_superseded st node
          then some superseded
          else or_else (attempt_staleness st node now_ms)
              (drift_staleness st node agent_id now_ms fresh)
    ]

unfoldable pub check_closure_notification_stale : TaskState → String → Option String → Staleness
unfolding lookup
check_closure_notification_stale task node_id triggering_assignee =
    elim (lookup node_id task.nodes) [
      | none ↦ some node_missing
      | some node ↦
          if is_ready node.status
            && is_some node.assignee
            && not (opt_eq node.assignee triggering_assignee)
          then some reopened_reassigned
          else none
    ]
