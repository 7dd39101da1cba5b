-- ===== src/Attention/Evidence.antt =====
-- attention.ts: the answer of `deriveNodeAttention`, its evidence, and what it reads of a message and
-- an attempt. A line of evidence is a constructor with what it interpolates.
use pi_graph_loop.Prelude.{
  ℕ, ◌+◌, ◌/◌, max, String, Bool, true, false, ◌&&◌, ◌||◌, Option, none, some, List, [], ◌∷◌,
  is_some, ◌==◌,
}
use pi_graph_loop.Types.{
  TaskNodeStatus, AttemptStatus, MessageStatus, MessageResponseStatus, AgentStatus, MessageRecord,
  TaskNode, TaskNodeAttempt, Stamp, LastAck, iso_ms,
}

pub data AttentionCategory : Type 0 where
  transport_unavailable delivery_failed dead_letter ack_missing response_missing : AttentionCategory
  stale_assignment unassigned_ready no_progress reminder_eligible reminder_sent : AttentionCategory
  superseded cancelled terminal nothing : AttentionCategory

pub data Evidence : Type 0 where
  node_does_not_exist : Evidence
  task_cancelled node_cancelled : (id : String) → Evidence
  terminal_node : TaskNodeStatus → Evidence
  superseded_message : (id by : String) (at : Stamp) → Evidence
  superseded_attempt : (id : String) (status : AttemptStatus) → Evidence
  unassigned : (id role : String) → Evidence
  dead_lettered undelivered : (id error : String) → Evidence
  assignee_stopped : (id : String) → Evidence
  unacknowledged : (id : String) (minutes : ℕ) (status : MessageStatus) → Evidence
  unanswered : (id ack : String) (response : Option MessageResponseStatus) → Evidence
  reminded : (message_id : String) (sent_at anchor : Stamp) → Evidence
  idle_minutes : (minutes threshold : ℕ) → Evidence
  legacy_idle_minutes : (minutes : ℕ) → Evidence
  receipt_confirmed_at : (ack : String) (at : Stamp) → Evidence
  receipt_confirmed_within : (ack : String) → Evidence
  receipt_missing :
      (id : String) (status : MessageStatus) (acked_at : Option Stamp) (ack : Option String)
      → Evidence
  node_blocked : Evidence
  waiting : TaskNodeStatus → Evidence

pub record NodeAttention : Type 0 where
  pub category : AttentionCategory
  pub evidence : List Evidence
  pub worker_reminder_eligible : Bool
  pub root_decision : Bool

-- The thresholds of constants.ts, in milliseconds.
abbrev pub task_stale_ms : ℕ
task_stale_ms = 86_400_000

abbrev pub task_nudge_ms : ℕ
task_nudge_ms = 1_800_000

abbrev pub ack_missing_ms : ℕ
ack_missing_ms = 300_000

abbrev pub reminder_no_progress_ms : ℕ
reminder_no_progress_ms = 3_600_000

-- `Math.round(age / 60000)` of an age that is not negative.
abbrev pub minutes_of : ℕ → ℕ
minutes_of age = (age + 30_000) / 60_000

abbrev pub ack_at : Option MessageRecord → Option Stamp
ack_at none = none
ack_at (some m) = elim m.last_ack [ none ↦ none | some a ↦ some a.at ]

abbrev pub ack_status : Option LastAck → Option String
ack_status none = none
ack_status (some a) = some a.status

abbrev pub attempt_activity : Option TaskNodeAttempt → ℕ
attempt_activity none = 0
attempt_activity (some a) = iso_ms a.last_activity_at

abbrev pub attempt_assigned : Option TaskNodeAttempt → ℕ
attempt_assigned none = 0
attempt_assigned (some a) = iso_ms a.assigned_at

unfoldable pub reminder_anchor_ms : MessageRecord → TaskNode → TaskNodeAttempt → ℕ
reminder_anchor_ms msg node attempt =
    max (max (iso_ms (ack_at (some msg))) (iso_ms node.last_activity_at))
      (max (iso_ms attempt.last_activity_at) (iso_ms attempt.assigned_at))

-- `s === "seen" || s === "processing"`.
abbrev pub is_progress_ack : Option LastAck → Bool
is_progress_ack none = false
is_progress_ack (some a) = a.status == "seen" || a.status == "processing"

unfoldable pub receipt_confirmed : MessageRecord → Bool
receipt_confirmed msg = is_some msg.acked_at && is_progress_ack msg.last_ack

-- `lastAck?.status === "done" || lastAck?.status === "failed"`.
abbrev pub is_final_ack : Option LastAck → Bool
is_final_ack none = false
is_final_ack (some a) = a.status == "done" || a.status == "failed"

abbrev pub is_settled_response : Option MessageResponseStatus → Bool
is_settled_response (some MessageResponseStatus.verified) = true
is_settled_response (some MessageResponseStatus.waived) = true
is_settled_response _ = false

abbrev pub response_status : MessageRecord → Option MessageResponseStatus
response_status msg = elim msg.response [ none ↦ none | some r ↦ some r.status ]

abbrev pub is_dead_letter : MessageStatus → Bool
is_dead_letter MessageStatus.dead_letter = true
is_dead_letter _ = false

abbrev pub is_message_failed : MessageStatus → Bool
is_message_failed MessageStatus.failed = true
is_message_failed _ = false

abbrev pub is_stopped : AgentStatus → Bool
is_stopped AgentStatus.stopped = true
is_stopped _ = false

abbrev pub is_ready : TaskNodeStatus → Bool
is_ready TaskNodeStatus.ready = true
is_ready _ = false

abbrev pub verdict : AttentionCategory → Evidence → Bool → NodeAttention
verdict category e root_decision = record {
  category = category;
  evidence = e ∷ [];
  worker_reminder_eligible = false;
  root_decision = root_decision;
}

abbrev pub when_late : Bool → Evidence → List Evidence
when_late true e = e ∷ []
when_late false e = []

abbrev pub ack_text : Option LastAck → String
ack_text none = ""
ack_text (some a) = a.status
