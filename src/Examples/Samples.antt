-- ===== src/Examples/Samples.antt =====
-- Sample data for the tests.
use pi_graph_loop.Prelude.{String, none, some, List, [], ◌∷◌, modify}
use pi_graph_loop.Types.{
  ScopeSource, TaskStatus, TaskNodeStatus, AttemptStatus, TaskNode, TaskNodeAttempt, TaskState,
  Stamp,
}
use pi_graph_loop.Scope.Resolve.{EffectiveScope, resolved}
use pi_graph_loop.Graph.Default.{build_default_graph}

abbrev pub noon : Stamp
noon = record { text = "2026-10-04T12:00:00.000Z"; ms = some 1_791_115_200_000 }

-- A new task over the default graph.
unfoldable pub fresh_task : TaskState
unfolding build_default_graph
fresh_task =
    let g = build_default_graph ("src/a.ts" ∷ []) in
    record {
      task_id = "task-1";
      status = TaskStatus.in_progress;
      allowed_files = "src/a.ts" ∷ [];
      start = g.start;
      nodes = g.nodes;
      edges = g.edges;
      handoffs = [];
      gates = g.gates;
      edit_locks = [];
      rework_consumption = [];
    }

abbrev pub closed_attempt : String → AttemptStatus → TaskNodeAttempt
closed_attempt id status = record {
  attempt_id = id;
  attempt_number = 1;
  assignment_message_id = "msg-1";
  assignee = "tester-01";
  assigned_at = some noon;
  superseded_at = none;
  superseded_by = none;
  status = status;
  outcome = none;
  last_activity_at = some noon;
  released_at = none;
  release_reason = none;
  reminder = none;
  scope = none;
}

abbrev fail_node : TaskNode → TaskNode
fail_node n = record n {
  status = TaskNodeStatus.failed;
  outcome = some "failed";
  active_attempt_id = some "attempt-t1";
  attempt_history = some (closed_attempt "attempt-t1" AttemptStatus.failed ∷ []);
}

abbrev finish_node : String → TaskNode → TaskNode
finish_node outcome n = record n { status = TaskNodeStatus.done; outcome = some outcome }

-- The same task after the tests failed.
unfoldable pub failed_task : TaskState
unfolding fresh_task modify
failed_task = record fresh_task {
  nodes = modify "test" fail_node (
      modify "implement" (finish_node "implemented")
        (modify "plan" (finish_node "planned") fresh_task.nodes));
}

abbrev pub scope_of_files : List String → EffectiveScope
scope_of_files files =
    resolved (record { source = ScopeSource.node_explicit; source_node_id = none; files = files })
