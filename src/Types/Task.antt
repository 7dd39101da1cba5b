-- ===== src/Types/Task.antt =====
-- types/tasks.ts: a task, its graph and the attempts at its nodes.
use pi_graph_loop.Prelude.{ℕ, String, Bool, Option, List, Record}
use pi_graph_loop.Types.Time.{Stamp}
use pi_graph_loop.Types.Status.{
  TaskStatus, TaskNodeStatus, AttemptStatus, ReleaseReason, TaskGateStatus,
}

pub data ScopeSource : Type 0 where
  node_explicit node_inherited task_default : ScopeSource

pub record ResolvedScope : Type 0 where
  pub source : ScopeSource
  pub source_node_id : Option String
  pub files : List String

pub record ReminderRecord : Type 0 where
  pub reminder_id : String
  pub sent_at : Stamp
  pub message_id : String
  pub attempt_id : String
  pub no_progress_since : Stamp

pub record TaskNodeAttempt : Type 0 where
  pub attempt_id : String
  pub attempt_number : ℕ
  pub assignment_message_id : String
  pub assignee : String
  pub assigned_at : Option Stamp
  pub superseded_at : Option Stamp
  pub superseded_by : Option String
  pub status : AttemptStatus
  pub outcome : Option String
  pub last_activity_at : Option Stamp
  pub released_at : Option Stamp
  pub release_reason : Option ReleaseReason
  pub reminder : Option ReminderRecord
  pub scope : Option ResolvedScope

pub record TaskNode : Type 0 where
  pub status : TaskNodeStatus
  pub outcome : Option String
  pub role : String
  pub assignee : Option String
  pub assignee_policy : Option String
  pub depends_on : List String
  pub allowed_files : List String
  pub allowed_files_from : Option String
  pub read_artifacts : List String
  pub write_artifacts : List String
  pub message_ids : List String
  pub assignment_message_id : Option String
  pub attempts : ℕ
  pub max_attempts : Option ℕ
  pub terminal : Bool
  pub last_activity_at : Option Stamp
  pub stale_at : Option Stamp
  pub active_attempt_id : Option String
  pub attempt_history : Option (List TaskNodeAttempt)
  pub last_progress_at : Option Stamp
  pub stale_open_surfaced_at : Option Stamp
  pub supersession_count : ℕ
  pub supersession_window_start : Option Stamp
  pub artifact_progress_nudge_at : Option Stamp
  pub artifact_progress_nudge_count : ℕ
  pub artifact_progress_cap_surfaced : Bool

pub record TaskEdge : Type 0 where
  pub from : String
  pub to : String
  pub when : String
  pub rework : Bool
  pub parallel : Bool

pub record ReworkConsumptionRecord : Type 0 where
  pub edge_key : String
  pub source_node_id : String
  pub source_attempt_id : String
  pub reopened_node_id : String
  pub consumed_at : Stamp
  pub source_status : TaskNodeStatus
  pub source_outcome : Option String

pub record TaskGate : Type 0 where
  pub status : TaskGateStatus
  pub by : Option String
  pub artifact : Option String

pub record EditLock : Type 0 where
  pub node_id : String
  pub by : String

-- The entries of `handoffs` are open objects; these are the properties that the code reads.
pub record Handoff : Type 0 where
  pub to_node : Option String
  pub kind : Option String
  pub message_id : Option String
  pub idempotency_key : Option String

pub record TaskState : Type 0 where
  pub task_id : String
  pub status : TaskStatus
  pub allowed_files : List String
  pub start : String
  pub nodes : Record TaskNode
  pub edges : List TaskEdge
  pub handoffs : List Handoff
  pub gates : Record TaskGate
  pub edit_locks : Record EditLock
  pub rework_consumption : List ReworkConsumptionRecord
