-- ===== src/Surface/Coalesce.antt =====
-- surface/coalesce.ts: `coalesceSurfacePlanLocked`. Traces are left out.
pub mod Merge
pub mod Dropped
pub mod Groups
pub mod Freshest
use pi_graph_loop.Prelude.{
  ℕ, suc, String, Bool, true, false, not, ◌&&◌, ◌||◌, Option, none, some, List, [], ◌∷◌, ◌++◌,
  Record, lookup, put, modify, values, foldl, map, leb, is_some, is_truthy, includes, set_add,
  or_else, default_to, is_nil, ◌==◌, ◌<>◌, if◌then◌else◌,
}
use mathlib.Core.List.{reverse}
use pi_graph_loop.Types.{
  TaskStatus, TaskNode, TaskState, MessageRecord, SwarmMessage, SwarmAgent, SwarmState,
  RootReceiptEntry, RootReceipts, Stamp,
}
use pi_graph_loop.Lifecycle.Transition.{is_terminal_node_status}
use pi_graph_loop.Attention.Fence.{StaleReason}
use pi_graph_loop.Surface.Keys.{
  TaskNodeRef, split_colon, task_nudge_ref, parse_task_node_ref, or_ref,
}
use pi_graph_loop.Surface.Actionable.{is_closed_task}
use pi_graph_loop.Surface.Rank.{
  KeyedRecord, root_surface_group_key, surfaces_before, sort_by, time_of_message,
}
use pi_graph_loop.Surface.Staleness.{SurfaceStale, record_of}

-- An entry of the map `coalesced`.
pub record CoalescedEntry : Type 0 where
  pub msg : SwarmMessage
  pub dropped : List String

pub record Coalescing : Type 0 where
  pub coalesced : Record CoalescedEntry
  pub consumed : List String

abbrev ref_of_key : Option String → Option TaskNodeRef
ref_of_key none = none
ref_of_key (some key) = task_nudge_ref (split_colon key)

-- The task and node that the liveness gate looks up.
unfoldable pub liveness_ref : KeyedRecord → SwarmMessage → Option TaskNodeRef
liveness_ref rec m =
    or_ref (ref_of_key (or_else rec.idempotency_key m.idempotency_key))
      (parse_task_node_ref (or_else rec.conversation_id m.conversation_id))

abbrev node_is_terminal : Option TaskNode → Bool
node_is_terminal none = false
node_is_terminal (some n) = is_terminal_node_status n.status

abbrev node_at : TaskState → Option String → Option TaskNode
node_at task none = none
node_at task (some id) = lookup id task.nodes

abbrev task_is_over : Option String → Option TaskState → Bool
task_is_over node_id none = true
task_is_over node_id (some task) =
    is_closed_task task.status || node_is_terminal (node_at task node_id)

abbrev ref_is_over : Record TaskState → Option TaskNodeRef → Bool
ref_is_over tasks none = false
ref_is_over tasks (some r) = task_is_over r.node_id (lookup r.task_id tasks)

-- `liveTaskIsTerminal`.
unfoldable pub is_over : Record TaskState → KeyedRecord → SwarmMessage → Bool
is_over tasks rec m = ref_is_over tasks (liveness_ref rec m)

-- `!recipient.tmuxTarget || recipient.tmuxTarget === "unknown"` of the root's own record.
abbrev is_unknown_target : Option SwarmAgent → Bool
is_unknown_target none = false
is_unknown_target (some a) = a.id == "root" && default_to "unknown" a.tmux_target == "unknown"

abbrev is_busy : SurfaceStale → Bool
is_busy SurfaceStale.agent_busy = true
is_busy _ = false

-- The reasons that are permanent; the others of the list in the code are never given.
abbrev pub is_permanent : SurfaceStale → Bool
is_permanent SurfaceStale.goal_missing = true
is_permanent SurfaceStale.idle_epoch_advanced = true
is_permanent SurfaceStale.goal_nudge_superseded = true
is_permanent SurfaceStale.task_missing = true
is_permanent (SurfaceStale.node_stale StaleReason.node_terminal) = true
is_permanent _ = false

-- `incomingTs >= existingTs`, false where one is NaN.
abbrev pub is_as_new : Option ℕ → Option ℕ → Bool
is_as_new (some incoming) (some existing) = leb existing incoming
is_as_new _ _ = false

unfoldable pub merge_entry : SwarmMessage → CoalescedEntry → CoalescedEntry
merge_entry m e =
    if is_as_new (time_of_message m) (time_of_message e.msg)
    then record { msg = m; dropped = e.dropped ++ e.msg.id ∷ [] }
    else record e { dropped = e.dropped ++ m.id ∷ [] }

abbrev group_with :
    Record CoalescedEntry → String → SwarmMessage → Option CoalescedEntry → Record CoalescedEntry
group_with groups key m none = put key (record { msg = m; dropped = [] }) groups
group_with groups key m (some e) = put key (merge_entry m e) groups

-- `coalesced.set` of a new group, or the newer of two messages.
unfoldable pub coalesce : Record CoalescedEntry → String → SwarmMessage → Record CoalescedEntry
coalesce groups key m = group_with groups key m (lookup key groups)

-- What becomes of a message of the plan.
pub data Fate : Type 0 where
  shown consumed_now suppressed : Fate

module _ (priority_lower : String → String) (tasks : Record TaskState) (st : SwarmState) where
  -- `rec.priority` is never there, so the mailbox entry's counts; `priority_lower` is `toLowerCase`.
  unfoldable pub bypasses_busy : SwarmMessage → SurfaceStale → Bool
  bypasses_busy m reason =
      priority_lower m.priority == "high"
      && is_unknown_target (lookup (record_of st m).to st.agents)
      && is_busy reason
      && not (is_over tasks (record_of st m) m)

  abbrev pub fate_of : SwarmMessage → Option SurfaceStale → Fate
  fate_of m none = shown
  fate_of m (some reason) =
      if is_over tasks (record_of st m) m
      then consumed_now
      else if bypasses_busy m reason
      then shown
      else if is_permanent reason
      then consumed_now
      else suppressed

  -- The body of the loop over the plan; `stale` is the answer of `staleSurfaceReason`.
  unfoldable pub plan_step :
      (SwarmMessage → Option SurfaceStale) → Coalescing → SwarmMessage → Coalescing
  plan_step stale run m = elim (fate_of m (stale m)) [
    | shown ↦ record run {
      coalesced = coalesce run.coalesced (root_surface_group_key (record_of st m)) m;
    }
    | consumed_now ↦ record run { consumed = set_add run.consumed m.id }
    | suppressed ↦ run
  ]

-- `entry.dropped` of every group is consumed.
unfoldable pub consume_dropped : List CoalescedEntry → List String → List String
consume_dropped [] consumed = consumed
consume_dropped (e ∷ es) consumed = consume_dropped es (foldl set_add consumed e.dropped)

-- `updatedAt || createdAt || now()`; both are there. The digest is `hash`.
abbrev pub fingerprint_message : (String → String) → MessageRecord → String
fingerprint_message hash rec = hash (rec.id <> ":" <> rec.updated_at.text)

pub record Receipts : Type 0 where
  pub st : SwarmState
  pub surfaced : List String

abbrev receipt_of : (String → String) → Stamp → MessageRecord → RootReceiptEntry
receipt_of hash ts rec = record {
  surfaced_at = ts;
  acked_at = none;
  requires_ack = true;
  conversation_id = rec.conversation_id;
  fingerprint = fingerprint_message hash rec;
}

abbrev stamp_surfaced : Stamp → MessageRecord → MessageRecord
stamp_surfaced ts rec =
    if is_some rec.surfaced_at then rec else record rec { surfaced_at = some ts; updated_at = ts }

abbrev add_receipt : RootReceipts → String → RootReceiptEntry → RootReceipts
add_receipt r id entry =
    if is_some (lookup id r.entries)
    then r
    else record { entries = put id entry r.entries; revision = suc r.revision }

unfoldable pub write_back :
    (String → String) → Stamp → SwarmState → String → MessageRecord → SwarmState
write_back hash ts st id rec =
    if rec.requires_ack
    then record st { root_receipts = add_receipt st.root_receipts id (receipt_of hash ts rec) }
    else record st {
      delivered =
          put "root" (foldl set_add [] (default_to [] (lookup "root" st.delivered) ++ id ∷ []))
            st.delivered;
      messages = modify id (stamp_surfaced ts) st.messages;
    }

abbrev receipt_for : (String → String) → Stamp → Receipts → String → Option MessageRecord → Receipts
receipt_for hash ts run id none = run
receipt_for hash ts run id (some rec) =
    if rec.to == "root"
    then record { st = write_back hash ts run.st id rec; surfaced = set_add run.surfaced id }
    else run

-- The body of the loop over the consumed ids.
unfoldable pub receipt_step : (String → String) → Stamp → Receipts → String → Receipts
receipt_step hash ts run id = receipt_for hash ts run id (lookup id run.st.messages)

pub record SurfacePlan : Type 0 where
  pub to_surface : List SwarmMessage
  pub consumed : List String
  pub st : SwarmState
  pub surfaced : List String

abbrev pub messages_of : List CoalescedEntry → List SwarmMessage
messages_of [] = []
messages_of (e ∷ es) = e.msg ∷ messages_of es

-- What the function takes from its surroundings.
pub record SurfaceContext : Type 0 where
  pub locale_lt : String → String → Bool
  pub lower : String → String
  pub hash : String → String
  pub tasks : Record TaskState
  pub ts : Stamp

module _ (ctx : SurfaceContext) (stale : SwarmMessage → Option SurfaceStale) (st : SwarmState) where
  unfoldable pub surface_plan : List SwarmMessage → List SwarmMessage
  surface_plan candidates = reverse (sort_by (surfaces_before ctx.locale_lt) candidates)

  unfoldable pub coalesced_plan : List SwarmMessage → Coalescing
  coalesced_plan candidates =
      foldl (plan_step ctx.lower ctx.tasks st stale) (record { coalesced = []; consumed = [] })
        (surface_plan candidates)

  unfoldable pub coalesce_surface_plan : List SwarmMessage → List String → SurfacePlan
  coalesce_surface_plan candidates surfaced =
      let run = coalesced_plan candidates in
      let consumed = consume_dropped (values run.coalesced) run.consumed in
      let written =
        foldl (receipt_step ctx.hash ctx.ts) (record { st = st; surfaced = surfaced }) consumed in
      record {
        to_surface = sort_by (surfaces_before ctx.locale_lt) (messages_of (values run.coalesced));
        consumed = consumed;
        st = written.st;
        surfaced = written.surfaced;
      }
