-- ===== src/Graph/Readiness.antt =====
-- graph.ts: `computeReadyNodes` and the questions that other code asks of the graph.
pub mod Startable
pub mod Frontier
use pi_graph_loop.Prelude.{
  is_nil, String, Bool, true, false, not, ◌&&◌, ◌||◌, none, some, List, [], ◌∷◌, ◌++◌, foldl, ◌==◌,
  lookup, values, any, all, filter, includes, set_add, if◌then◌else◌,
}
use pi_graph_loop.Types.{TaskNodeStatus, TaskNode, TaskEdge, TaskState}
use pi_graph_loop.Graph.Activation.{edge_matches_activation}

-- `status === "done" || status === "skipped"`.
abbrev pub is_done_or_skipped : TaskNodeStatus → Bool
is_done_or_skipped TaskNodeStatus.done = true
is_done_or_skipped TaskNodeStatus.skipped = true
is_done_or_skipped _ = false

-- `ready`, `assigned`, `in_progress` or `blocked`.
abbrev pub is_current : TaskNodeStatus → Bool
is_current TaskNodeStatus.ready = true
is_current TaskNodeStatus.assigned = true
is_current TaskNodeStatus.in_progress = true
is_current TaskNodeStatus.blocked = true
is_current _ = false

abbrev pub is_pending : TaskNodeStatus → Bool
is_pending TaskNodeStatus.pending = true
is_pending _ = false

-- `incoming.get(nodeId) || []`.
unfoldable pub incoming : TaskState → String → List TaskEdge
incoming task node_id = filter (λ edge. edge.to == node_id) task.edges

unfoldable pub dep_ok : TaskState → String → String → Bool
dep_ok task node_id dep_id = elim (lookup dep_id task.nodes) [
  | none ↦ false
  | some dep ↦
      if is_done_or_skipped dep.status
      then true
      else any (λ edge. edge.from == dep_id && edge_matches_activation task edge)
          (incoming task node_id)
]

-- The tests below `if (node.status !== "pending") continue`.
unfoldable pub becomes_ready : TaskState → String → TaskNode → Bool
becomes_ready task node_id node =
    if all (dep_ok task node_id) node.depends_on
    then if node_id == task.start
      then true
      else if is_nil (incoming task node_id)
      then true
      else any (edge_matches_activation task) (incoming task node_id)
    else false

pub record Readiness : Type 0 where
  pub ready : List String
  pub current : List String

-- The body of the loop over the nodes.
unfoldable pub visit_node : TaskState → Readiness → String × TaskNode → Readiness
visit_node task r (node_id, node) =
    let seen =
      if is_current node.status then record r { current = set_add r.current node_id } else r in
    if is_pending node.status && becomes_ready task node_id node
    then record { ready = seen.ready ++ node_id ∷ []; current = set_add seen.current node_id }
    else seen

unfoldable pub compute_ready_nodes : TaskState → Readiness
compute_ready_nodes task = foldl (visit_node task) (record { ready = []; current = [] }) task.nodes

unfoldable pub has_outgoing_task_edge : TaskState → String → Bool
has_outgoing_task_edge task id =
    any (λ e. e.from == id) task.edges
    || any (λ (n : TaskNode). includes n.depends_on id) (values task.nodes)

-- The loop of `outgoingOutcomes`.
unfoldable collect_outcomes : String → List String → List TaskEdge → List String
collect_outcomes node_id outs [] = outs
collect_outcomes node_id outs (e ∷ edges) =
    collect_outcomes node_id
      (if e.from == node_id && not (includes outs e.when) then outs ++ e.when ∷ [] else outs) edges

unfoldable outgoing_outcomes : TaskState → String → List String
outgoing_outcomes task node_id = collect_outcomes node_id [] task.edges

unfoldable pub is_graph_terminal_node : TaskState → String → Bool
is_graph_terminal_node task node_id = elim (lookup node_id task.nodes) [
  | none ↦ false
  | some node ↦ node.terminal || not (has_outgoing_task_edge task node_id)
]
