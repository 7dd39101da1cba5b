-- ===== src/Examples/Notices.antt =====
-- Attention, notification fences and the collection of stopped agents.
use pi_graph_loop.Prelude.{
  keys, includes, IsDistinct, ℕ, true, false, ◌≡◌, refl, none, some, [], ◌∷◌, lookup, values,
  default_to,
}
use pi_graph_loop.Types.{
  TaskNodeStatus, AttemptStatus, MessageStatus, AgentStatus, RuntimeStatus, HealthStatus, TaskNode,
  TaskState, MessageRecord, SwarmAgent, SwarmState,
}
use pi_graph_loop.Graph.Default.{new_node}
use pi_graph_loop.Graph.Rework.{prior_attempt}
use pi_graph_loop.Attention.Derive.{
  derive_node_attention, live_attention, supersession, problem_attention, message_problem,
  agent_problem, protocol_problem, progress_attention, open_attention, fenced_attention,
}
use pi_graph_loop.Attention.Evidence.{receipt_confirmed, reminder_anchor_ms}
use pi_graph_loop.Attention.Derive.Reminder.{IsReminderDue, derive_node_attention-IsReminderDue}
use pi_graph_loop.Attention.Fence.{
  message_is_superseded, attempt_staleness, drift_staleness, check_stall_notification_stale,
  agent_staleness,
}
use pi_graph_loop.Attention.Fence.Fresh.{IsCurrent, stall_passes-IsCurrent}
use pi_graph_loop.Gc.{
  candidates_of, apply_candidate, candidate, stopped_since_ms, is_task_referenced,
  has_response_debt, owes_response, apply_stopped_gc, stopped_gc_candidates,
  default_stopped_older_than_ms,
}
use pi_graph_loop.Gc.Safe.{IsPurge, IsDisposable, apply_stopped_gc-IsPurge, apply_stopped_gc-dry}
use pi_graph_loop.Examples.Samples.{noon, fresh_task, closed_attempt}

abbrev noon_ms : ℕ
noon_ms = 1_791_115_200_000

-- Two hours after noon.
abbrev two_ms : ℕ
two_ms = 1_791_122_400_000

abbrev worker : AgentStatus → SwarmAgent
worker status = record {
  id = "tester-01";
  role = "tester";
  role_kind = "tester";
  role_kind_explicit = false;
  capabilities = [];
  active_task_ids = [];
  max_concurrent_tasks = 1;
  status = status;
  runtime_status = RuntimeStatus.idle;
  health = HealthStatus.healthy;
  last_heartbeat_at = none;
  last_agent_settled_at = none;
  last_shutdown_at = some noon;
  created_at = some noon;
  updated_at = some noon;
  last_tool_at = none;
  tmux_target = none;
  tmux_alive = none;
}

abbrev pub assignment : MessageRecord
assignment = record {
  id = "msg-1";
  from = "root";
  to = "tester-01";
  status = MessageStatus.acked;
  created_at = noon;
  injected_at = some noon;
  intercepted_at = none;
  acked_at = some noon;
  requires_ack = true;
  requires_response = some true;
  updated_at = noon;
  surfaced_at = none;
  conversation_id = none;
  reply_to = none;
  subject = none;
  idempotency_key = none;
  response = none;
  last_error = none;
  last_ack = some (record { by = "tester-01"; status = "processing"; at = noon });
  superseded = none;
}

abbrev pub swarm : AgentStatus → SwarmState
swarm status = record {
  agents = ("tester-01", worker status) ∷ [];
  messages = ("msg-1", assignment) ∷ [];
  delivered = [];
  root_receipts = record { entries = []; revision = 0 };
  goal = none;
  all_idle_since_at = none;
  taskless_nudge_state = [];
  idle_gc_nudge_state = [];
}

-- The test node is in progress since noon.
abbrev testing : TaskNode
testing = record (new_node TaskNodeStatus.in_progress "tester" [] [] [] (some 3)) {
  assignee = some "tester-01";
  assignment_message_id = some "msg-1";
  active_attempt_id = some "attempt-1";
  attempt_history = some (closed_attempt "attempt-1" AttemptStatus.active ∷ []);
  last_activity_at = some noon;
}

unfoldable testing_task : TaskState
unfolding fresh_task
testing_task = record fresh_task { nodes = ("test", testing) ∷ [] }

reminder_due :
    (derive_node_attention true
      (swarm AgentStatus.running)
      testing_task
      "test"
      two_ms).worker_reminder_eligible
    ≡ true
unfolding derive_node_attention testing_task lookup live_attention supersession prior_attempt
    problem_attention message_problem agent_problem protocol_problem progress_attention
    open_attention fenced_attention receipt_confirmed reminder_anchor_ms
reminder_due = refl

testing_found : lookup "test" testing_task.nodes ≡ some testing
unfolding lookup testing_task
testing_found = refl

passes :
    check_stall_notification_stale
      (swarm AgentStatus.running)
      testing_task
      "test"
      "tester-01"
      two_ms
      false
    ≡ none
unfolding check_stall_notification_stale testing_task lookup message_is_superseded attempt_staleness
    prior_attempt drift_staleness agent_staleness
passes = refl

derive_node_attention-IsReminderDue_example :
    IsReminderDue (swarm AgentStatus.running) testing_task "test" two_ms
derive_node_attention-IsReminderDue_example =
    derive_node_attention-IsReminderDue true (swarm AgentStatus.running) testing_task "test" two_ms
      reminder_due

stall_passes-IsCurrent_example :
    IsCurrent (swarm AgentStatus.running) testing_task testing "tester-01"
stall_passes-IsCurrent_example =
    stall_passes-IsCurrent (swarm AgentStatus.running) testing_task "test" "tester-01" two_ms
      testing testing_found false passes

-- A day and a second after noon, with no task graph loaded.
abbrev late_ms : ℕ
late_ms = 1_791_201_601_000

-- The message that is still to be answered keeps the stopped agent.
debt_keeps :
    (apply_stopped_gc
      (swarm AgentStatus.stopped)
      (stopped_gc_candidates (swarm AgentStatus.stopped) none late_ms [])
      false).blocked
    ≡ "tester-01" ∷ []
unfolding apply_stopped_gc stopped_gc_candidates candidates_of apply_candidate candidate
    stopped_since_ms is_task_referenced has_response_debt values owes_response
debt_keeps = refl

abbrev quiet_swarm : SwarmState
quiet_swarm = record (swarm AgentStatus.stopped) { messages = [] }

old_agent_goes :
    (apply_stopped_gc quiet_swarm (stopped_gc_candidates quiet_swarm none late_ms []) false).purged
    ≡ "tester-01" ∷ []
unfolding apply_stopped_gc stopped_gc_candidates candidates_of apply_candidate candidate
    stopped_since_ms is_task_referenced has_response_debt values owes_response
old_agent_goes = refl

quiet-IsDistinct : IsDistinct (keys quiet_swarm.agents)
unfolding keys includes
quiet-IsDistinct = (refl, tt)

apply_stopped_gc-IsPurge_example :
    IsPurge quiet_swarm
      (IsDisposable quiet_swarm (default_to default_stopped_older_than_ms none) late_ms [])
      (apply_stopped_gc quiet_swarm (stopped_gc_candidates quiet_swarm none late_ms []) false)
apply_stopped_gc-IsPurge_example =
    apply_stopped_gc-IsPurge quiet_swarm none late_ms [] quiet-IsDistinct

apply_stopped_gc-dry_example :
    ((apply_stopped_gc quiet_swarm (stopped_gc_candidates quiet_swarm none late_ms []) true).st
      ≡ quiet_swarm)
    × ((apply_stopped_gc quiet_swarm
          (stopped_gc_candidates quiet_swarm none late_ms [])
          true).purged
        ≡ (apply_stopped_gc quiet_swarm
            (stopped_gc_candidates quiet_swarm none late_ms [])
            false).purged)
apply_stopped_gc-dry_example =
    apply_stopped_gc-dry quiet_swarm (stopped_gc_candidates quiet_swarm none late_ms [])
