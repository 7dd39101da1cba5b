-- ===== src/Attention/Derive.antt =====
-- attention.ts: `deriveNodeAttention`.
pub mod Reminder
use pi_graph_loop.Prelude.{
  ℕ, ◌+◌, ◌-◌, ◌/◌, max, String, Bool, true, false, not, ◌&&◌, ◌||◌, Option, none, some, List, [],
  ◌∷◌, ◌++◌, lookup, ltb, is_some, is_set, default_to, or_else, ◌==◌, if◌then◌else◌,
}
use pi_graph_loop.Types.{
  TaskNodeStatus, AttemptStatus, MessageStatus, MessageResponseStatus, AgentStatus, MessageRecord,
  SwarmAgent, SwarmState, TaskNode, TaskNodeAttempt, TaskState, Stamp, LastAck, iso_ms, is_active,
}
use pi_graph_loop.Graph.Rework.{prior_attempt}
use pi_graph_loop.Lifecycle.Transition.{
  is_terminal_node_status, is_task_cancelled, is_node_cancelled,
}
use pi_graph_loop.Lifecycle.Attempt.{is_open_assignment}
use pi_graph_loop.Attention.Evidence.{
  AttentionCategory, Evidence, NodeAttention, task_stale_ms, task_nudge_ms, ack_missing_ms,
  reminder_no_progress_ms, minutes_of, ack_at, ack_status, attempt_activity, attempt_assigned,
  reminder_anchor_ms, is_progress_ack, receipt_confirmed, is_final_ack, is_settled_response,
  response_status, is_dead_letter, is_message_failed, is_stopped, is_ready, verdict, when_late,
  ack_text, transport_unavailable, delivery_failed, dead_letter, ack_missing, response_missing,
  stale_assignment, unassigned_ready, no_progress, reminder_eligible, reminder_sent, superseded,
  cancelled, terminal, nothing, node_does_not_exist, task_cancelled, node_cancelled, terminal_node,
  superseded_message, superseded_attempt, unassigned, dead_lettered, undelivered, assignee_stopped,
  unacknowledged, unanswered, reminded, idle_minutes, legacy_idle_minutes, receipt_confirmed_at,
  receipt_confirmed_within, receipt_missing, node_blocked, waiting,
}

module _ (node : TaskNode) (now_ms : ℕ) where
  -- The branch `if (attemptCurrent && canonical)`.
  unfoldable pub fenced_attention : MessageRecord → TaskNodeAttempt → NodeAttention
  fenced_attention msg attempt =
      let age = now_ms - reminder_anchor_ms msg node attempt in
      elim attempt.reminder [
        | some r ↦ record {
          category = reminder_sent;
          evidence =
              reminded r.message_id r.sent_at r.no_progress_since
              ∷ when_late (ltb task_nudge_ms age) (idle_minutes (minutes_of age) task_nudge_ms);
          worker_reminder_eligible = false;
          root_decision = ltb task_stale_ms age;
        }
        | none ↦
            if receipt_confirmed msg && ltb reminder_no_progress_ms age
            then record {
              category = reminder_eligible;
              evidence =
                  elim msg.last_ack [ none ↦ [] | some a ↦ receipt_confirmed_at a.status a.at ∷ [] ]
                  ++ idle_minutes (minutes_of age) reminder_no_progress_ms ∷ [];
              worker_reminder_eligible = true;
              root_decision = false;
            }
            else if receipt_confirmed msg && ltb task_nudge_ms age
            then verdict no_progress (idle_minutes (minutes_of age) task_nudge_ms) false
            else if receipt_confirmed msg
            then verdict nothing (receipt_confirmed_within (ack_text msg.last_ack)) false
            else verdict nothing
                (receipt_missing msg.id msg.status msg.acked_at (ack_status msg.last_ack)) false
      ]

  -- The branch for an open assignment without attempt metadata.
  unfoldable pub unfenced_attention : Option MessageRecord → Option TaskNodeAttempt → NodeAttention
  unfenced_attention msg attempt =
      let anchor =
        max (iso_ms node.last_activity_at) (max (iso_ms (ack_at msg)) (attempt_assigned attempt)) in
      let age = now_ms - anchor in
      record {
        category = if ltb task_nudge_ms age then no_progress else nothing;
        evidence = when_late (ltb task_nudge_ms age) (legacy_idle_minutes (minutes_of age));
        worker_reminder_eligible = false;
        root_decision = false;
      }

  -- `attemptCurrent` needs the attempt to be active, `canonical` the message not superseded.
  unfoldable pub open_attention : Option MessageRecord → Option TaskNodeAttempt → NodeAttention
  open_attention none attempt = unfenced_attention none attempt
  open_attention (some msg) none = unfenced_attention (some msg) none
  open_attention (some msg) (some attempt) =
      if is_active attempt.status && not (is_some msg.superseded)
      then fenced_attention msg attempt
      else unfenced_attention (some msg) (some attempt)

  -- The last two cases: an open assignment, and any other open state.
  unfoldable pub progress_attention : Option MessageRecord → Option TaskNodeAttempt → NodeAttention
  progress_attention msg attempt =
      if is_open_assignment node.status then open_attention msg attempt else elim node.status [
        | TaskNodeStatus.blocked ↦ verdict nothing node_blocked false
        | s ↦ verdict nothing (waiting s) false
      ]

  -- Problems of the protocol, 5 and 6. `minimal` is `PI_SWARM_MINIMAL_PROTOCOL === 1`.
  unfoldable pub protocol_problem : Bool → Option MessageRecord → Option NodeAttention
  protocol_problem minimal none = none
  protocol_problem minimal (some msg) =
      let since =
        max (max (iso_ms msg.injected_at) (iso_ms msg.intercepted_at))
          (iso_ms (some msg.created_at)) in
      let age = now_ms - since in
      if not minimal
        && msg.requires_ack
        && not (is_some msg.acked_at)
        && not (is_some msg.last_ack)
        && ltb ack_missing_ms age
      then some (verdict ack_missing (unacknowledged msg.id (minutes_of age) msg.status) false)
      else if is_set msg.requires_response
          && is_final_ack msg.last_ack
          && not (is_settled_response (response_status msg))
      then some (
          verdict response_missing (unanswered msg.id (ack_text msg.last_ack) (response_status msg))
            true)
      else none

-- Problems of the transport, 4.
unfoldable pub message_problem : Option MessageRecord → Option NodeAttention
message_problem none = none
message_problem (some msg) =
    if is_dead_letter msg.status
    then some
        (verdict dead_letter (dead_lettered msg.id (default_to "unknown" msg.last_error)) true)
    else if is_message_failed msg.status && not (is_some msg.last_ack)
    then some
        (verdict delivery_failed (undelivered msg.id (default_to "unknown" msg.last_error)) true)
    else none

unfoldable pub agent_problem : Option SwarmAgent → Option NodeAttention
agent_problem none = none
agent_problem (some agent) =
    if is_stopped agent.status
    then some (verdict transport_unavailable (assignee_stopped agent.id) true)
    else none

-- The guard against obsolete assignments, 2.
abbrev obsolete_message : Option MessageRecord → Option NodeAttention
obsolete_message none = none
obsolete_message (some m) = elim m.superseded [
  | none ↦ none
  | some s ↦ some (verdict superseded (superseded_message m.id s.superseded_by s.at) false)
]

abbrev obsolete_attempt : Option TaskNodeAttempt → Option NodeAttention
obsolete_attempt none = none
obsolete_attempt (some a) =
    if is_active a.status
    then none
    else some (verdict superseded (superseded_attempt a.attempt_id a.status) false)

unfoldable pub supersession : Option MessageRecord → Option TaskNodeAttempt → Option NodeAttention
supersession msg attempt = or_else (obsolete_message msg) (obsolete_attempt attempt)

abbrev pub assignment_message : SwarmState → TaskNode → Option MessageRecord
assignment_message st node = elim node.assignment_message_id [
  | none ↦ none
  | some id ↦ lookup id st.messages
]

abbrev pub assignee_agent : SwarmState → TaskNode → Option SwarmAgent
assignee_agent st node = elim node.assignee [ none ↦ none | some id ↦ lookup id st.agents ]

-- The first early return that is taken, or the end of the function.
abbrev pub returning : Option NodeAttention → NodeAttention → NodeAttention
returning (some v) rest = v
returning none rest = rest

-- The problems 4 to 6 and the progress, for a node that is not ready and unassigned.
unfoldable pub problem_attention : Bool → SwarmState → TaskNode → ℕ → NodeAttention
problem_attention minimal st node now_ms =
    let msg = assignment_message st node in
    returning (message_problem msg) (
      returning (agent_problem (assignee_agent st node)) (
        returning (protocol_problem node now_ms minimal msg)
          (progress_attention node now_ms msg (prior_attempt node))))

unfoldable pub live_attention : Bool → SwarmState → String → TaskNode → ℕ → NodeAttention
live_attention minimal st node_id node now_ms =
    returning (supersession (assignment_message st node) (prior_attempt node)) (
      if is_ready node.status && not (is_some node.assignee)
      then verdict unassigned_ready (unassigned node_id node.role) true
      else problem_attention minimal st node now_ms)

unfoldable pub derive_node_attention : Bool → SwarmState → TaskState → String → ℕ → NodeAttention
derive_node_attention minimal st task node_id now_ms = elim (lookup node_id task.nodes) [
  | none ↦ verdict nothing node_does_not_exist false
  | some node ↦
      if is_task_cancelled task.status
      then verdict cancelled (task_cancelled task.task_id) false
      else if is_node_cancelled node.status
      then verdict cancelled (node_cancelled node_id) false
      else if is_terminal_node_status node.status
      then verdict terminal (terminal_node node.status) false
      else live_attention minimal st node_id node now_ms
]
