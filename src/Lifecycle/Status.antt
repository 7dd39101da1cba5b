-- ===== src/Lifecycle/Status.antt =====
-- lifecycle.ts: the status of a task, derived from its nodes.
pub mod Closure
use pi_graph_loop.Prelude.{
  is_nil, String, Bool, true, false, not, ◌&&◌, List, values, any, all, filter, if◌then◌else◌,
}
use pi_graph_loop.Types.{TaskNodeStatus, TaskStatus, TaskNode, TaskState, same_task_status}
use pi_graph_loop.Graph.Readiness.{is_done_or_skipped, is_current, is_graph_terminal_node}
use pi_graph_loop.Lifecycle.Transition.{is_node_cancelled, is_task_cancelled}

abbrev pub is_failed : TaskNodeStatus → Bool
is_failed TaskNodeStatus.failed = true
is_failed _ = false

-- `assigned`, `in_progress` or `ready`.
abbrev pub is_live : TaskNodeStatus → Bool
is_live TaskNodeStatus.assigned = true
is_live TaskNodeStatus.in_progress = true
is_live TaskNodeStatus.ready = true
is_live _ = false

abbrev is_blocked : TaskNodeStatus → Bool
is_blocked TaskNodeStatus.blocked = true
is_blocked _ = false

-- The disjunction of `started`.
abbrev is_started : TaskNodeStatus → Bool
is_started TaskNodeStatus.assigned = true
is_started TaskNodeStatus.in_progress = true
is_started TaskNodeStatus.blocked = true
is_started TaskNodeStatus.done = true
is_started TaskNodeStatus.failed = true
is_started TaskNodeStatus.skipped = true
is_started _ = false

-- `nodes`: the nodes that are not cancelled.
unfoldable pub open_nodes : TaskState → List TaskNode
unfolding values
open_nodes task = filter (λ n. not (is_node_cancelled n.status)) (values task.nodes)

-- `terminals`: the graph's terminal nodes that are not cancelled.
unfoldable pub terminal_nodes : TaskState → List TaskNode
unfolding values is_graph_terminal_node
terminal_nodes task = values (
    filter
      (λ (entry : String × TaskNode).
        is_graph_terminal_node task entry.0 && not (is_node_cancelled entry.1.status))
      task.nodes)

abbrev nodes_where : (TaskNodeStatus → Bool) → TaskState → List TaskNode
nodes_where p task = filter (λ n. p n.status) (open_nodes task)

-- The conditions of the four early returns. They stay shut where `compute_task_status` is unfolded.
unfoldable pub has_failed : TaskState → Bool
unfolding open_nodes
has_failed task = any (λ n. is_failed n.status) (open_nodes task)

unfoldable pub has_live : TaskState → Bool
unfolding open_nodes
has_live task = any (λ n. is_live n.status) (open_nodes task)

unfoldable pub has_settled : TaskState → Bool
unfolding terminal_nodes has_live
has_settled task =
    not (is_nil (terminal_nodes task))
    && not (has_live task)
    && all (λ n. is_done_or_skipped n.status) (terminal_nodes task)

unfoldable pub has_all_blocked : TaskState → Bool
unfolding open_nodes
has_all_blocked task =
    not (is_nil (nodes_where is_current task))
    && all (λ n. is_blocked n.status) (nodes_where is_current task)

unfoldable pub has_started : TaskState → Bool
unfolding open_nodes
has_started task = any (λ n. is_started n.status) (open_nodes task)

unfoldable pub compute_task_status : TaskState → TaskStatus
compute_task_status task =
    if has_failed task
    then TaskStatus.failed
    else if has_settled task
    then TaskStatus.done
    else if has_all_blocked task
    then TaskStatus.blocked
    else if has_started task
    then TaskStatus.in_progress
    else TaskStatus.ready

abbrev pub is_closed_status : TaskStatus → Bool
is_closed_status TaskStatus.done = true
is_closed_status TaskStatus.failed = true
is_closed_status TaskStatus.cancelled = true
is_closed_status _ = false

pub record StatusChange : Type 0 where
  pub changed : Bool
  pub terminal : Bool

unfoldable pub apply_task_status : TaskState → TaskState × StatusChange
apply_task_status task =
    if is_task_cancelled task.status
    then (task, record { changed = false; terminal = true })
    else let status = compute_task_status task in
      (
        record task { status = status },
        record {
          changed = not (same_task_status status task.status);
          terminal = is_closed_status status;
        },
      )
