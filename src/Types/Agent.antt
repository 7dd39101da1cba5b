-- ===== src/Types/Agent.antt =====
-- types/messages.ts, types/agents.ts and the part of types/state.ts that the task graph reads.
use pi_graph_loop.Prelude.{ℕ, String, Bool, Option, List, Record}
use pi_graph_loop.Types.Time.{Stamp}
use pi_graph_loop.Types.Status.{
  MessageStatus, MessageResponseStatus, AgentStatus, RuntimeStatus, HealthStatus,
}

pub record LastAck : Type 0 where
  pub by : String
  pub status : String
  pub at : Stamp

pub record MessageResponse : Type 0 where
  pub status : MessageResponseStatus
  pub result_message_id : Option String
  pub missing_at : Option Stamp
  pub sent_at : Option Stamp
  pub verified_at : Option Stamp
  pub waived_at : Option Stamp
  pub waived_by : Option String
  pub last_error : Option String

pub record Superseded : Type 0 where
  pub at : Stamp
  pub by : String
  pub superseded_by : String

pub record MessageRecord : Type 0 where
  pub id : String
  pub from : String
  pub to : String
  pub status : MessageStatus
  pub created_at : Stamp
  pub injected_at : Option Stamp
  pub intercepted_at : Option Stamp
  pub acked_at : Option Stamp
  pub requires_ack : Bool
  pub requires_response : Option Bool
  pub updated_at : Stamp
  pub surfaced_at : Option Stamp
  pub conversation_id : Option String
  pub reply_to : Option String
  pub subject : Option String
  pub idempotency_key : Option String
  pub response : Option MessageResponse
  pub last_error : Option String
  pub last_ack : Option LastAck
  pub superseded : Option Superseded

pub record SwarmAgent : Type 0 where
  pub id : String
  pub role : String
  pub role_kind : String
  pub role_kind_explicit : Bool
  pub capabilities : List String
  pub active_task_ids : List String
  pub max_concurrent_tasks : ℕ
  pub status : AgentStatus
  pub runtime_status : RuntimeStatus
  pub health : HealthStatus
  pub last_heartbeat_at : Option Stamp
  pub last_agent_settled_at : Option Stamp
  pub last_shutdown_at : Option Stamp
  pub created_at : Option Stamp
  pub updated_at : Option Stamp
  pub last_tool_at : Option Stamp
  pub tmux_target : Option String
  pub tmux_alive : Option Bool

pub record SwarmGoal : Type 0 where
  pub id : String
  pub nudge_seq : Option ℕ

pub record RootReceiptEntry : Type 0 where
  pub surfaced_at : Stamp
  pub acked_at : Option Stamp
  pub requires_ack : Bool
  pub conversation_id : Option String
  pub fingerprint : String

-- `consumerReceipts.root`; absent parts are empty and of revision 0.
pub record RootReceipts : Type 0 where
  pub entries : Record RootReceiptEntry
  pub revision : ℕ

pub record SwarmState : Type 0 where
  pub agents : Record SwarmAgent
  pub messages : Record MessageRecord
  pub delivered : Record (List String)
  pub root_receipts : RootReceipts
  pub goal : Option SwarmGoal
  -- `idleNudgeState?.allIdleSinceAt`.
  pub all_idle_since_at : Option Stamp
  -- The nudge ledgers; the code here only deletes their entries.
  pub taskless_nudge_state : Record String
  pub idle_gc_nudge_state : Record String

-- An entry of a mailbox. `updated_at` is no property of the type, but the code reads it.
pub record SwarmMessage : Type 0 where
  pub id : String
  pub from : String
  pub to : String
  pub subject : Option String
  pub priority : String
  pub created_at : Option Stamp
  pub updated_at : Option Stamp
  pub conversation_id : Option String
  pub reply_to : Option String
  pub requires_ack : Bool
  pub requires_response : Option Bool
  pub idempotency_key : Option String
