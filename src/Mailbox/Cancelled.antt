-- ===== src/Mailbox/Cancelled.antt =====
-- mailbox.ts: `supersedeTaskAssignmentMessages`, which a cancellation calls. Every message gets one time.
use text.Mathlib.Text.{starts_with}
use pi_graph_loop.Prelude.{
  opt_is, ℕ, suc, String, Bool, not, ◌&&◌, ◌||◌, Option, none, some, List, [], ◌∷◌, ◌++◌, foldl,
  Record, lookup, modify, values, is_some, is_truthy, if◌then◌else◌,
}
use pi_graph_loop.Types.{Stamp, MessageRecord, TaskNode, TaskState, Handoff}
use pi_graph_loop.Mailbox.{superseded_record, is_failed_message, is_dead}

pub record Cancellation : Type 0 where
  pub messages : Record MessageRecord
  pub superseded_ids : List String
  pub skipped : ℕ

-- May a cancellation supersede the message?
unfoldable pub is_cancellable : MessageRecord → Bool
is_cancellable rec =
    not (is_failed_message rec.status || is_dead rec.status) && not (is_some rec.superseded)

module _ (at : Stamp) (by reason : String) where
  abbrev pub cancel_found : Cancellation → String → Option MessageRecord → Cancellation
  cancel_found run mid none = record run { skipped = suc run.skipped }
  cancel_found run mid (some rec) =
      if is_cancellable rec
      then record run {
        messages = modify mid (superseded_record at by reason) run.messages;
        superseded_ids = run.superseded_ids ++ mid ∷ [];
      }
      else record run { skipped = suc run.skipped }

  -- `trySupersede`; an id that starts with two underscores is a synthetic marker.
  unfoldable pub try_supersede : Cancellation → Option String → Cancellation
  try_supersede run none = run
  try_supersede run (some mid) =
      if not (is_truthy mid) || starts_with mid "__"
      then run
      else cancel_found run mid (lookup mid run.messages)

  unfoldable pub cancel_node : Cancellation → TaskNode → Cancellation
  cancel_node run node = try_supersede run node.assignment_message_id

  unfoldable pub cancel_handoff : Cancellation → Handoff → Cancellation
  cancel_handoff run h = if opt_is h.kind "assign" then try_supersede run h.message_id else run

  unfoldable pub supersede_task_assignment_messages :
      Record MessageRecord → TaskState → Cancellation
  supersede_task_assignment_messages messages task =
      foldl cancel_handoff
        (foldl cancel_node (record { messages = messages; superseded_ids = []; skipped = 0 })
          (values task.nodes))
        task.handoffs
