-- ===== src/Surface/Actionable/Sound.antt =====
-- surface/actionable.ts: what holds of a message that `isActionableRootMessage` lets through.
use pi_graph_loop.Prelude.{
  ℕ, String, Bool, true, false, ◌≡◌, refl, Option, none, some, Record, lookup, ◌==◌, eq_iff, arith,
  Bool-cases, inl, inr, ◌⊎◌,
}
use pi_graph_loop.Types.{TaskNode, TaskState, MessageRecord}
use pi_graph_loop.Lifecycle.Transition.{is_terminal_node_status}
use pi_graph_loop.Attention.Evidence.{is_dead_letter}
use pi_graph_loop.Surface.Keys.{TaskNodeRef}
use pi_graph_loop.Surface.Actionable.{
  is_engine_nudge, reference_of, is_closed_task, is_reassigned, is_result_class, node_gate,
  task_gate, ref_verdict, is_actionable_root_message,
}

module _ (minimal : Bool) (rec : MessageRecord) (counts : Record ℕ) (strict : Bool)
    (tasks : Record TaskState) where
  -- The node of the task is open and still handed out under the message's key.
  abbrev pub IsOpenNode : TaskState → String → Type 0
  IsOpenNode task node_id =
      (is_closed_task task.status ≡ false)
      × (node : TaskNode) × (lookup node_id task.nodes ≡ some node)
      × (is_terminal_node_status node.status ≡ false)
      × (is_reassigned task node_id rec ≡ false)

  -- The task exists, and the message is a result or its node is open.
  abbrev pub IsLive : String → Option TaskState → Type 0
  IsLive node_id found =
      (task : TaskState) × (found ≡ some task)
      × ((is_result_class minimal rec counts strict ≡ true) ⊎ IsOpenNode task node_id)

  pub record IsShowable : Type 0 where
    unacked : rec.acked_at ≡ none
    deliverable : is_dead_letter rec.status ≡ false
    current : rec.superseded ≡ none
    addressed : rec.to ≡ "root"
    no_echo : (rec.from == "root") ≡ true → rec.requires_ack ≡ true → is_engine_nudge rec ≡ true
    live :
        (r : TaskNodeRef) (node_id : String)
        → reference_of rec ≡ some r
        → r.node_id ≡ some node_id
        → IsLive node_id (lookup r.task_id tasks)

  node-IsLive :
      (task : TaskState) (node_id : String) (found : Option TaskNode)
      → lookup node_id task.nodes ≡ found
      → is_closed_task task.status ≡ false
      → (node_gate minimal rec counts strict task node_id found).ok ≡ true
      → (is_result_class minimal rec counts strict ≡ true) ⊎ IsOpenNode task node_id
  node-IsLive task node_id none e open_task h = cc h
  node-IsLive task node_id (some node) e open_task h =
      elim (Bool-cases (is_result_class minimal rec counts strict)) [
        | inl result ↦ inl result
        | inr other ↦ inr (open_task, node, e, ground (arith, other, h), ground (arith, other, h))
      ]

  task-IsLive :
      (node_id : String) (found : Option TaskState)
      → (task_gate minimal rec counts strict node_id found).ok ≡ true
      → IsLive node_id found
  task-IsLive node_id none h = cc h
  task-IsLive node_id (some task) h = elim (Bool-cases (is_closed_task task.status)) [
    | inl closed ↦ (task, refl, inl (ground (arith, closed, h)))
    | inr open_task ↦ (
      task,
      refl,
      node-IsLive task node_id (lookup node_id task.nodes) refl open_task
          (ground (arith, open_task, h)),
    )
  ]

  ref-IsLive :
      (o : Option TaskNodeRef) (r : TaskNodeRef) (node_id : String)
      → (ref_verdict minimal rec counts strict tasks o).ok ≡ true
      → o ≡ some r
      → r.node_id ≡ some node_id
      → IsLive node_id (lookup r.task_id tasks)
  ref-IsLive o r node_id h e n =
      task-IsLive node_id (lookup r.task_id tasks) (ground (arith, h, e, n))

  -- A message that is let through is not acknowledged, dead or superseded, is addressed to the root,
  -- and is no echo of the root's own that asks for an acknowledgement, engine nudges aside; where it
  -- refers to a node of a task, the task exists, and it is a result or the task is not closed, the node
  -- exists, is not terminal and was not handed out under another key.
  pub is_actionable-IsShowable :
      (is_actionable_root_message minimal rec counts strict tasks).ok ≡ true → IsShowable
  unfolding is_actionable_root_message
  is_actionable-IsShowable h = record {
    unacked = ground (arith, h);
    deliverable = ground (arith, h);
    current = ground (arith, h);
    addressed = (eq_iff rec.to "root").0 (ground (arith, h));
    no_echo = λ from_root asks. ground (arith, h, from_root, asks);
    live = λ r node_id e n. ref-IsLive (reference_of rec) r node_id (ground (arith, h)) e n;
  }
