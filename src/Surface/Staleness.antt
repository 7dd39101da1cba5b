-- ===== src/Surface/Staleness.antt =====
-- surface/staleness.ts: `staleSurfaceReason`. The evidence, which is traced, is left out.
use pi_graph_loop.Prelude.{
  ℕ, String, Bool, false, not, ◌&&◌, Option, none, some, ◌++◌, Record, any, filter, lookup, ltb,
  has_text, is_some, or_else, default_to, ◌==◌, if◌then◌else◌,
}
use pi_graph_loop.Types.{
  TaskNode, TaskState, MessageRecord, SwarmMessage, SwarmState, SwarmGoal, Stamp,
}
use pi_graph_loop.Graph.Readiness.{compute_ready_nodes}
use pi_graph_loop.Lifecycle.Transition.{is_terminal_node_status}
use pi_graph_loop.Attention.Evidence.{is_ready}
use pi_graph_loop.Attention.Fence.{StaleReason, check_stall_notification_stale}
use pi_graph_loop.Nudges.{Windows, all_effective_idle_agents}
use pi_graph_loop.Surface.Keys.{TaskNodeRef, GoalKey, split_colon, task_nudge_ref, goal_key}
use pi_graph_loop.Surface.Rank.{KeyedRecord}

pub data SurfaceStale : Type 0 where
  goal_missing idle_epoch_advanced goal_nudge_superseded agent_busy : SurfaceStale
  task_missing no_active_node : SurfaceStale
  node_stale : StaleReason → SurfaceStale

abbrev pub keyed_record : MessageRecord → KeyedRecord
keyed_record r = record {
  id = r.id;
  from = r.from;
  to = r.to;
  subject = r.subject;
  conversation_id = r.conversation_id;
  reply_to = r.reply_to;
  requires_ack = r.requires_ack;
  requires_response = r.requires_response;
  idempotency_key = r.idempotency_key;
  created_at = some r.created_at;
}

abbrev pub keyed_message : SwarmMessage → KeyedRecord
keyed_message m = record {
  id = m.id;
  from = m.from;
  to = m.to;
  subject = m.subject;
  conversation_id = m.conversation_id;
  reply_to = m.reply_to;
  requires_ack = m.requires_ack;
  requires_response = m.requires_response;
  idempotency_key = m.idempotency_key;
  created_at = m.created_at;
}

abbrev pub keyed_or : SwarmMessage → Option MessageRecord → KeyedRecord
keyed_or m none = keyed_message m
keyed_or m (some r) = keyed_record r

-- `st.messages[msg.id] || msg`.
unfoldable pub record_of : SwarmState → SwarmMessage → KeyedRecord
record_of st m = keyed_or m (lookup m.id st.messages)

-- `st.idleNudgeState?.allIdleSinceAt`, as a finite number of milliseconds.
abbrev pub ms_of : Option Stamp → Option ℕ
ms_of none = none
ms_of (some at) = at.ms

abbrev before_anchor : Option ℕ → ℕ → Bool
before_anchor none anchor = false
before_anchor (some t) anchor = ltb t anchor

abbrev is_superseded_seq : ℕ → Option ℕ → Bool
is_superseded_seq seq none = false
is_superseded_seq seq (some active) = ltb seq active

abbrev epoch_staleness : GoalKey → SwarmGoal → Option ℕ → Option ℕ → Option SurfaceStale
epoch_staleness key goal created none =
    if is_superseded_seq key.seq goal.nudge_seq then some goal_nudge_superseded else none
epoch_staleness key goal created (some anchor) =
    if before_anchor created anchor then some idle_epoch_advanced else none

unfoldable pub goal_staleness :
    GoalKey → Option SwarmGoal → Option ℕ → Option ℕ → Option SurfaceStale
goal_staleness key none created anchor = some goal_missing
goal_staleness key (some goal) created anchor =
    if not (goal.id == key.goal_id)
    then some goal_missing
    else epoch_staleness key goal created anchor

-- A node that is there, has no assignee and is not terminal.
abbrev can_be_assigned : Option TaskNode → Bool
can_be_assigned none = false
can_be_assigned (some n) = not (is_some n.assignee) && not (is_terminal_node_status n.status)

abbrev is_ready_unassigned : Option TaskNode → Bool
is_ready_unassigned none = false
is_ready_unassigned (some n) = is_ready n.status && not (is_some n.assignee)

unfoldable pub has_actionable_node : TaskState → Bool
has_actionable_node task =
    let r = compute_ready_nodes task in
    any (λ (id : String). can_be_assigned (lookup id task.nodes))
      (r.ready ++ filter (λ (id : String). is_ready_unassigned (lookup id task.nodes)) r.current)

abbrev as_node_stale : Option StaleReason → Option SurfaceStale
as_node_stale none = none
as_node_stale (some r) = some (node_stale r)

-- `node?.assignee || "root"`.
abbrev assignee_or_root : Option TaskNode → String
assignee_or_root none = "root"
assignee_or_root (some n) = default_to "root" n.assignee

module _ (w : Windows) (st : SwarmState) (tasks : Record TaskState) (now_ms : ℕ) where
  abbrev node_staleness : TaskState → String → Option String → Option SurfaceStale
  node_staleness task key (some node_id) = as_node_stale (
      check_stall_notification_stale st task node_id (assignee_or_root (lookup node_id task.nodes))
        now_ms false)
  node_staleness task key none =
      if has_text key ":nudge:initial-ready"
        && not (is_ready_unassigned (lookup task.start task.nodes))
      then some no_active_node
      else none

  abbrev task_staleness : String → Option String → Option TaskState → Option SurfaceStale
  task_staleness key node_id none = some task_missing
  task_staleness key node_id (some task) =
      if has_text key ":nudge:graph-stall:"
      then if has_actionable_node task then none else some no_active_node
      else node_staleness task key node_id

  abbrev nudge_staleness : String → Option TaskNodeRef → Option SurfaceStale
  nudge_staleness key none = none
  nudge_staleness key (some r) =
      if not (all_effective_idle_agents w st now_ms).all_idle
      then some agent_busy
      else task_staleness key r.node_id (lookup r.task_id tasks)

  abbrev key_staleness : String → Option ℕ → Option GoalKey → Option SurfaceStale
  key_staleness key created (some g) = goal_staleness g st.goal created (ms_of st.all_idle_since_at)
  key_staleness key created none = nudge_staleness key (task_nudge_ref (split_colon key))

  -- `none` is `stale: false`.
  unfoldable pub stale_surface_reason : SwarmMessage → Option SurfaceStale
  stale_surface_reason m =
      let rec = record_of st m in
      let key = default_to "" (or_else rec.idempotency_key m.idempotency_key) in
      key_staleness key (ms_of (or_else rec.created_at m.created_at)) (goal_key (split_colon key))
