-- ===== src/Types/Status.antt =====
-- The enumerations of types/tasks.ts, types/messages.ts and types/agents.ts, as texts and tests.
use pi_graph_loop.Prelude.{String, Bool, true, false}

pub data TaskStatus : Type 0 where
  draft ready in_progress blocked reviewing validating done failed cancelled : TaskStatus

pub data TaskNodeStatus : Type 0 where
  pending ready assigned in_progress blocked done failed skipped cancelled : TaskNodeStatus

pub data AttemptStatus : Type 0 where
  active superseded completed failed cancelled skipped : AttemptStatus

pub data ReleaseReason : Type 0 where
  reassign rework terminal cancel root_override force_reopen : ReleaseReason

pub data TaskGateStatus : Type 0 where
  opened passed failed waived : TaskGateStatus  -- `opened` is "open"

pub data MessageStatus : Type 0 where
  queued mailbox_delivered injected intercepted acked failed dead_letter : MessageStatus

pub data MessageResponseStatus : Type 0 where
  not_required missing sent verified waived : MessageResponseStatus

pub data AgentStatus : Type 0 where
  running stopped unknown : AgentStatus

pub data RuntimeStatus : Type 0 where
  starting idle busy tool_running response_missing shutting_down stopped : RuntimeStatus

pub data HealthStatus : Type 0 where
  healthy degraded unhealthy : HealthStatus

unfoldable pub task_status_text : TaskStatus → String
task_status_text TaskStatus.draft = "draft"
task_status_text TaskStatus.ready = "ready"
task_status_text TaskStatus.in_progress = "in_progress"
task_status_text TaskStatus.blocked = "blocked"
task_status_text TaskStatus.reviewing = "reviewing"
task_status_text TaskStatus.validating = "validating"
task_status_text TaskStatus.done = "done"
task_status_text TaskStatus.failed = "failed"
task_status_text TaskStatus.cancelled = "cancelled"

unfoldable pub node_status_text : TaskNodeStatus → String
node_status_text TaskNodeStatus.pending = "pending"
node_status_text TaskNodeStatus.ready = "ready"
node_status_text TaskNodeStatus.assigned = "assigned"
node_status_text TaskNodeStatus.in_progress = "in_progress"
node_status_text TaskNodeStatus.blocked = "blocked"
node_status_text TaskNodeStatus.done = "done"
node_status_text TaskNodeStatus.failed = "failed"
node_status_text TaskNodeStatus.skipped = "skipped"
node_status_text TaskNodeStatus.cancelled = "cancelled"

unfoldable pub attempt_status_text : AttemptStatus → String
attempt_status_text AttemptStatus.active = "active"
attempt_status_text AttemptStatus.superseded = "superseded"
attempt_status_text AttemptStatus.completed = "completed"
attempt_status_text AttemptStatus.failed = "failed"
attempt_status_text AttemptStatus.cancelled = "cancelled"
attempt_status_text AttemptStatus.skipped = "skipped"

unfoldable message_status_text : MessageStatus → String
message_status_text MessageStatus.queued = "queued"
message_status_text MessageStatus.mailbox_delivered = "mailbox_delivered"
message_status_text MessageStatus.injected = "injected"
message_status_text MessageStatus.intercepted = "intercepted"
message_status_text MessageStatus.acked = "acked"
message_status_text MessageStatus.failed = "failed"
message_status_text MessageStatus.dead_letter = "dead_letter"

unfoldable pub agent_status_text : AgentStatus → String
agent_status_text AgentStatus.running = "running"
agent_status_text AgentStatus.stopped = "stopped"
agent_status_text AgentStatus.unknown = "unknown"

unfoldable pub health_text : HealthStatus → String
health_text HealthStatus.healthy = "healthy"
health_text HealthStatus.degraded = "degraded"
health_text HealthStatus.unhealthy = "unhealthy"

-- `===` between statuses.
abbrev pub same_node_status : TaskNodeStatus → TaskNodeStatus → Bool
same_node_status TaskNodeStatus.pending TaskNodeStatus.pending = true
same_node_status TaskNodeStatus.ready TaskNodeStatus.ready = true
same_node_status TaskNodeStatus.assigned TaskNodeStatus.assigned = true
same_node_status TaskNodeStatus.in_progress TaskNodeStatus.in_progress = true
same_node_status TaskNodeStatus.blocked TaskNodeStatus.blocked = true
same_node_status TaskNodeStatus.done TaskNodeStatus.done = true
same_node_status TaskNodeStatus.failed TaskNodeStatus.failed = true
same_node_status TaskNodeStatus.skipped TaskNodeStatus.skipped = true
same_node_status TaskNodeStatus.cancelled TaskNodeStatus.cancelled = true
same_node_status _ _ = false

abbrev pub same_task_status : TaskStatus → TaskStatus → Bool
same_task_status TaskStatus.draft TaskStatus.draft = true
same_task_status TaskStatus.ready TaskStatus.ready = true
same_task_status TaskStatus.in_progress TaskStatus.in_progress = true
same_task_status TaskStatus.blocked TaskStatus.blocked = true
same_task_status TaskStatus.reviewing TaskStatus.reviewing = true
same_task_status TaskStatus.validating TaskStatus.validating = true
same_task_status TaskStatus.done TaskStatus.done = true
same_task_status TaskStatus.failed TaskStatus.failed = true
same_task_status TaskStatus.cancelled TaskStatus.cancelled = true
same_task_status _ _ = false

abbrev pub is_active : AttemptStatus → Bool
is_active AttemptStatus.active = true
is_active _ = false
