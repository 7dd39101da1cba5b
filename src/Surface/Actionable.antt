-- ===== src/Surface/Actionable.antt =====
-- surface/actionable.ts: `isActionableRootMessage`. The trace that a superseded record leaves is not
-- modelled.
pub mod Sound
use pi_graph_loop.Prelude.{
  opt_is, ℕ, String, Bool, true, false, not, ◌&&◌, ◌||◌, Option, none, some, List, [], ◌∷◌, Record,
  lookup, has_text, is_some, leb, default_to, ◌==◌, if◌then◌else◌,
}
use pi_graph_loop.Types.{TaskStatus, TaskNode, TaskState, MessageRecord, Handoff}
use pi_graph_loop.Lifecycle.Transition.{is_terminal_node_status}
use pi_graph_loop.Attention.Evidence.{is_dead_letter}
use pi_graph_loop.Nudges.{is_false}
use pi_graph_loop.Surface.Keys.{
  TaskNodeRef, split_colon, parse_task_node_ref, idempotency_ref, is_escalation, or_ref,
}

pub data ActionReason : Type 0 where
  acked dead_letter superseded wrong_recipient self_origin task_missing node_missing : ActionReason
  node_terminal node_reassigned retrigger_budget_exhausted actionable : ActionReason
  exempt_node_terminal : ActionReason
  task_closed exempt_task_closed : TaskStatus → ActionReason  -- `task_done`, and so on

pub record ActionVerdict : Type 0 where
  pub ok : Bool
  pub reason : ActionReason

abbrev pub refuse : ActionReason → ActionVerdict
refuse reason = record { ok = false; reason = reason }

abbrev pub admit : ActionReason → ActionVerdict
admit reason = record { ok = true; reason = reason }

abbrev pub pump_retrigger_max : ℕ
pump_retrigger_max = 3

abbrev text_has_nudge : Option String → Bool
text_has_nudge none = false
text_has_nudge (some s) = has_text s ":nudge:"

abbrev text_escalates : Option String → Bool
text_escalates none = false
text_escalates (some s) = is_escalation (split_colon s)

unfoldable pub is_engine_nudge : MessageRecord → Bool
is_engine_nudge rec =
    text_has_nudge rec.idempotency_key
    || text_has_nudge rec.conversation_id
    || text_escalates rec.idempotency_key
    || text_escalates rec.conversation_id

abbrev key_ref : Option String → Option TaskNodeRef
key_ref none = none
key_ref (some key) = idempotency_ref (split_colon key)

-- The task and node, from the conversation or else from the idempotency key.
unfoldable pub reference_of : MessageRecord → Option TaskNodeRef
reference_of rec = or_ref (parse_task_node_ref rec.conversation_id) (key_ref rec.idempotency_key)

abbrev pub is_closed_task : TaskStatus → Bool
is_closed_task TaskStatus.done = true
is_closed_task TaskStatus.failed = true
is_closed_task TaskStatus.cancelled = true
is_closed_task _ = false

abbrev or_handoff : Option Handoff → Option Handoff → Option Handoff
or_handoff (some h) o = some h
or_handoff none o = o

-- `[...handoffs].reverse().find(…)`: the last assignment of the node.
abbrev is_assignment_of : String → Handoff → Bool
is_assignment_of node_id h = opt_is h.to_node node_id && opt_is h.kind "assign"

unfoldable pub last_assignment : String → List Handoff → Option Handoff
last_assignment node_id [] = none
last_assignment node_id (h ∷ hs) =
    or_handoff (last_assignment node_id hs) (if is_assignment_of node_id h then some h else none)

abbrev other_key : Option String → Option String → Bool
other_key (some a) (some b) = not (a == b)
other_key _ _ = false

abbrev key_of_handoff : Option Handoff → Option String
key_of_handoff none = none
key_of_handoff (some h) = h.idempotency_key

unfoldable pub is_reassigned : TaskState → String → MessageRecord → Bool
is_reassigned task node_id rec =
    other_key (key_of_handoff (last_assignment node_id task.handoffs)) rec.idempotency_key

module _ (minimal : Bool) (rec : MessageRecord) (retrigger_counts : Record ℕ) (strict : Bool) where
  unfoldable pub is_result_class : Bool
  is_result_class =
      (rec.requires_ack || minimal) && is_false rec.requires_response && is_some rec.reply_to

  -- The bounded re-trigger gate at the end.
  unfoldable pub budget_verdict : ActionVerdict
  budget_verdict =
      if rec.requires_ack
        && not (is_some rec.acked_at)
        && leb pump_retrigger_max (default_to 0 (lookup rec.id retrigger_counts))
        && strict
      then refuse retrigger_budget_exhausted
      else admit actionable

  abbrev pub node_gate : TaskState → String → Option TaskNode → ActionVerdict
  node_gate task node_id none = refuse node_missing
  node_gate task node_id (some node) =
      if is_result_class
      then admit exempt_node_terminal
      else if is_terminal_node_status node.status
      then refuse node_terminal
      else if is_reassigned task node_id rec
      then refuse node_reassigned
      else budget_verdict

  abbrev pub task_gate : String → Option TaskState → ActionVerdict
  task_gate node_id none = refuse task_missing
  task_gate node_id (some task) =
      if is_closed_task task.status
      then if is_result_class
        then admit (exempt_task_closed task.status)
        else refuse (task_closed task.status)
      else node_gate task node_id (lookup node_id task.nodes)

  abbrev pub ref_verdict : Record TaskState → Option TaskNodeRef → ActionVerdict
  ref_verdict tasks none = budget_verdict
  ref_verdict tasks (some r) = elim r.node_id [
    | none ↦ budget_verdict
    | some node_id ↦ task_gate node_id (lookup r.task_id tasks)
  ]

  unfoldable pub is_actionable_root_message : Record TaskState → ActionVerdict
  is_actionable_root_message tasks =
      if is_some rec.acked_at
      then refuse acked
      else if is_dead_letter rec.status
      then refuse dead_letter
      else if is_some rec.superseded
      then refuse superseded
      else if not (rec.to == "root")
      then refuse wrong_recipient
      else if rec.from == "root" && rec.requires_ack && not (is_engine_nudge rec)
      then refuse self_origin
      else ref_verdict tasks (reference_of rec)
