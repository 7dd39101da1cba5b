-- ===== src/Closure/Task.antt =====
-- taskgraph/closure.ts: `computeTaskClosure`, the report over all nodes of a task.
pub mod Report
use pi_graph_loop.Prelude.{
  ℕ, suc, String, Bool, true, false, not, ◌&&◌, ◌||◌, Option, none, some, List, [], ◌∷◌, ◌++◌, map,
  filter, find, any, length, has_text, is_some, ◌<>◌, when, if◌then◌else◌, is_nil,
}
use pi_graph_loop.Types.{
  TaskStatus, TaskNodeStatus, SwarmState, TaskNode, TaskState, same_task_status, task_status_text,
}
use pi_graph_loop.Lifecycle.Transition.{is_task_cancelled}
use pi_graph_loop.Lifecycle.Attempt.{is_open_assignment}
use pi_graph_loop.Lifecycle.Status.{compute_task_status, is_closed_status}
use pi_graph_loop.Closure.{NodeClosureSummary, is_open_verdict, settle_assignee, summary_of}

pub record OpenAssignment : Type 0 where
  pub node_id : String
  pub assignee : String
  pub status : TaskNodeStatus

pub record StaleAssignment : Type 0 where
  pub node_id : String
  pub assignee : String
  pub reason : String

pub record TaskClosure : Type 0 where
  pub task_id : String
  pub stored_status : TaskStatus
  pub derived_status : TaskStatus
  pub closed : Bool
  pub closed_nodes : ℕ
  pub open_nodes : ℕ
  pub stale_nodes : ℕ
  pub open_assignments : List OpenAssignment
  pub stale_assignments : List StaleAssignment
  pub blocking : List String
  pub node_closure : List NodeClosureSummary

module _ (minimal : Bool) (file_exists : String → Bool) (task : TaskState) where
  -- `Object.keys(task.nodes).map(...)`, with the state that the calls leave.
  unfoldable pub close_nodes :
      SwarmState → List (String × TaskNode) → SwarmState × List NodeClosureSummary
  close_nodes st [] = (st, [])
  close_nodes st ((id, node) ∷ entries) =
      let st' = settle_assignee st node in
      let rest = close_nodes st' entries in
      (rest.0, summary_of minimal file_exists st' task id node ∷ rest.1)

abbrev pub assignment_entry : String → TaskNodeStatus → Option String → List OpenAssignment
assignment_entry id status none = []
assignment_entry id status (some a) =
    when (is_open_assignment status) (record { node_id = id; assignee = a; status = status })

unfoldable pub open_assignments_of : List NodeClosureSummary → List OpenAssignment
open_assignments_of [] = []
open_assignments_of (n ∷ ns) =
    assignment_entry n.node_id n.status n.assignee ++ open_assignments_of ns

abbrev is_stale_reason : String → Bool
is_stale_reason b =
    has_text b "stale"
    || has_text b "stopped"
    || has_text b "unhealthy"
    || has_text b "dead-lettered"

unfoldable pub stale_reason : NodeClosureSummary → Option String
stale_reason n = find is_stale_reason n.blocking

unfoldable pub stale_assignments_of : List NodeClosureSummary → List StaleAssignment
stale_assignments_of [] = []
stale_assignments_of (n ∷ ns) =
    elim n.assignee [
      | none ↦ []
      | some a ↦ elim (stale_reason n) [
        | none ↦ []
        | some r ↦ record { node_id = n.node_id; assignee = a; reason = r } ∷ []
      ]
    ]
    ++ stale_assignments_of ns

abbrev pub is_closed_node : NodeClosureSummary → Bool
is_closed_node n = n.closed

unfoldable pub drift_blocking : TaskState → List String
drift_blocking task =
    when
      (not (same_task_status (compute_task_status task) task.status)
        && not (is_task_cancelled task.status))
      ("stored task.status="
        <> task_status_text task.status
        <> " but nodes derive "
        <> task_status_text (compute_task_status task))

unfoldable pub stall_blocking : TaskState → List NodeClosureSummary → List String
stall_blocking task ns =
    when
      (not (is_closed_status task.status)
        && is_nil (open_assignments_of ns)
        && any (λ n. is_open_verdict n.verdict) ns)
      "task open but no active assignments (stalled)"

unfoldable pub compute_task_closure :
    Bool → (String → Bool) → SwarmState → TaskState → SwarmState × TaskClosure
compute_task_closure minimal file_exists st task =
    let (st', ns) = close_nodes minimal file_exists task st task.nodes in
    (
      st',
      record {
        task_id = task.task_id;
        stored_status = task.status;
        derived_status = compute_task_status task;
        closed = is_closed_status task.status;
        closed_nodes = length (filter is_closed_node ns);
        open_nodes = length (filter (λ n. not n.closed) ns);
        stale_nodes = length (stale_assignments_of ns);
        open_assignments = open_assignments_of ns;
        stale_assignments = stale_assignments_of ns;
        blocking = drift_blocking task ++ stall_blocking task ns;
        node_closure = ns;
      },
    )
