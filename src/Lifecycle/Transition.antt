-- ===== src/Lifecycle/Transition.antt =====
-- lifecycle.ts: the allowed transitions of a node, with the tables of constants.ts.
pub mod Reach
use pi_graph_loop.Prelude.{
  String, Bool, true, false, Option, none, some, lookup, if◌then◌else◌, is_truthy,
}
use pi_graph_loop.Types.{TaskNodeStatus, TaskStatus, TaskState, same_node_status}

-- `TERMINAL_NODE_STATUSES.has(status)`.
abbrev pub is_terminal_node_status : TaskNodeStatus → Bool
is_terminal_node_status TaskNodeStatus.done = true
is_terminal_node_status TaskNodeStatus.failed = true
is_terminal_node_status TaskNodeStatus.skipped = true
is_terminal_node_status TaskNodeStatus.cancelled = true
is_terminal_node_status _ = false

-- `Boolean(ALLOWED_NODE_TRANSITIONS[from]?.has(to))`.
unfoldable allowed_node_transitions : TaskNodeStatus → TaskNodeStatus → Bool
allowed_node_transitions TaskNodeStatus.pending TaskNodeStatus.ready = true
allowed_node_transitions TaskNodeStatus.pending TaskNodeStatus.assigned = true
allowed_node_transitions TaskNodeStatus.pending TaskNodeStatus.blocked = true
allowed_node_transitions TaskNodeStatus.pending TaskNodeStatus.skipped = true
allowed_node_transitions TaskNodeStatus.pending TaskNodeStatus.failed = true
allowed_node_transitions TaskNodeStatus.pending TaskNodeStatus.cancelled = true
allowed_node_transitions TaskNodeStatus.ready TaskNodeStatus.assigned = true
allowed_node_transitions TaskNodeStatus.ready TaskNodeStatus.blocked = true
allowed_node_transitions TaskNodeStatus.ready TaskNodeStatus.skipped = true
allowed_node_transitions TaskNodeStatus.ready TaskNodeStatus.cancelled = true
allowed_node_transitions TaskNodeStatus.assigned TaskNodeStatus.in_progress = true
allowed_node_transitions TaskNodeStatus.assigned TaskNodeStatus.done = true
allowed_node_transitions TaskNodeStatus.assigned TaskNodeStatus.failed = true
allowed_node_transitions TaskNodeStatus.assigned TaskNodeStatus.blocked = true
allowed_node_transitions TaskNodeStatus.assigned TaskNodeStatus.ready = true
allowed_node_transitions TaskNodeStatus.assigned TaskNodeStatus.cancelled = true
allowed_node_transitions TaskNodeStatus.in_progress TaskNodeStatus.done = true
allowed_node_transitions TaskNodeStatus.in_progress TaskNodeStatus.failed = true
allowed_node_transitions TaskNodeStatus.in_progress TaskNodeStatus.blocked = true
allowed_node_transitions TaskNodeStatus.in_progress TaskNodeStatus.cancelled = true
allowed_node_transitions TaskNodeStatus.blocked TaskNodeStatus.assigned = true
allowed_node_transitions TaskNodeStatus.blocked TaskNodeStatus.in_progress = true
allowed_node_transitions TaskNodeStatus.blocked TaskNodeStatus.ready = true
allowed_node_transitions TaskNodeStatus.blocked TaskNodeStatus.skipped = true
allowed_node_transitions TaskNodeStatus.blocked TaskNodeStatus.cancelled = true
allowed_node_transitions TaskNodeStatus.done TaskNodeStatus.ready = true
allowed_node_transitions _ _ = false

unfoldable pub is_allowed_node_transition : TaskNodeStatus → TaskNodeStatus → Bool
unfolding allowed_node_transitions
is_allowed_node_transition from to =
    if same_node_status from to
    then true
    else if is_terminal_node_status from
    then false
    else allowed_node_transitions from to

abbrev pub is_task_cancelled : TaskStatus → Bool
is_task_cancelled TaskStatus.cancelled = true
is_task_cancelled _ = false

abbrev pub is_node_cancelled : TaskNodeStatus → Bool
is_node_cancelled TaskNodeStatus.cancelled = true
is_node_cancelled _ = false

-- `nodeId` is optional, and the empty id counts as absent.
unfoldable is_task_or_node_cancelled : TaskState → Option String → Bool
unfolding lookup
is_task_or_node_cancelled task node_id =
    if is_task_cancelled task.status then true else elim node_id [
      | none ↦ false
      | some id ↦
          if is_truthy id
          then elim (lookup id task.nodes) [
            | none ↦ false
            | some node ↦ is_node_cancelled node.status
          ]
          else false
    ]
