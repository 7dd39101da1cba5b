-- ===== src/Graph/Rework/Reopened.antt =====
-- graph.ts: the nodes that `activateReworkNodes` reopens, and those that it leaves alone.
use pi_graph_loop.Prelude.{String, true, false, ◌≡◌, none, some, lookup, keys, includes, IsDistinct}
use pi_graph_loop.Types.{TaskNodeStatus, TaskNode, TaskState, Stamp}
use pi_graph_loop.Graph.Rework.{ReworkRun, is_reopenable}

-- A node after it was reopened: ready, with no assignee, no assignment message, no active attempt, no
-- outcome and no stale mark; what does not belong to its present attempt is as before.
pub record IsReopened (now : Stamp) (n m : TaskNode) : Type 0 where
  pub status : m.status ≡ TaskNodeStatus.ready
  pub assignee : m.assignee ≡ none
  pub assignment_message_id : m.assignment_message_id ≡ none
  pub active_attempt_id : m.active_attempt_id ≡ none
  pub outcome : m.outcome ≡ none
  pub stale_at : m.stale_at ≡ none
  pub last_activity_at : m.last_activity_at ≡ some now
  pub role : m.role ≡ n.role
  pub depends_on : m.depends_on ≡ n.depends_on
  pub allowed_files : m.allowed_files ≡ n.allowed_files
  pub allowed_files_from : m.allowed_files_from ≡ n.allowed_files_from
  pub write_artifacts : m.write_artifacts ≡ n.write_artifacts
  pub attempts : m.attempts ≡ n.attempts
  pub max_attempts : m.max_attempts ≡ n.max_attempts
  pub terminal : m.terminal ≡ n.terminal

-- The node `id` of the task at the start, and what the run has made of it.
pub record IsReopenedFrom (now : Stamp) (task after : TaskState) (id : String) : Type 0 where
  pub node : TaskNode
  pub ready_node : TaskNode
  pub before : lookup id task.nodes ≡ some node
  pub reopenable : is_reopenable node.status ≡ true
  pub now_ready : lookup id after.nodes ≡ some ready_node
  pub reopened : IsReopened now node ready_node

pub record IsTracked (now : Stamp) (task : TaskState) (run : ReworkRun) : Type 0 where
  pub changed :
      (id : String) → includes run.reopened id ≡ true → IsReopenedFrom now task run.task id
  pub unchanged :
      (id : String)
      → includes run.reopened id ≡ false
      → lookup id run.task.nodes ≡ lookup id task.nodes
  pub distinct : IsDistinct run.reopened
  pub same_keys : keys run.task.nodes ≡ keys task.nodes
  pub same_edges : run.task.edges ≡ task.edges
