-- ===== src/Examples/Graphs.antt =====
-- The graph of a task: rework, readiness, cycles.
use pi_graph_loop.Prelude.{
  collect, ◌+◌, String, true, false, ◌≡◌, refl, ◌⊎◌, some, List, [], ◌∷◌, Record, length, lookup,
  includes, keys, set_add, put, values, ◌↔◌, Member,
}
use pi_graph_loop.Types.{TaskState}
use pi_graph_loop.Graph.Rework.{activate_rework_nodes}
use pi_graph_loop.Graph.Rework.Ledger.{IsLedger, activate_rework_nodes-IsLedger}
use pi_graph_loop.Graph.Cycle.{Colors, found, finished, search_cycle, graph_has_cycle}
use pi_graph_loop.Graph.Cycle.Walk.{Walk, Cycle}
use pi_graph_loop.Graph.Cycle.Correct.{graph_has_cycle_correct}
use pi_graph_loop.Types.{TaskNodeStatus}
use pi_graph_loop.Graph.Default.{new_node}
use pi_graph_loop.Graph.Validate.{
  validate_task_graph, GraphError, is_safe_id, node_errors, edge_errors, incoming_count,
  terminal_errors, terminal_ids, branch_errors, count_branches, branch_key, cycle_errors,
  non_rework_adj, add_adjacent, path_errors, is_safe_relative_path, reachable_nodes, reach_search,
  reach_loop, reach_start, next_nodes, add_edge_target, add_dependent, enqueue,
}
use pi_graph_loop.Graph.Validate.Sound.{IsValid, validate_task_graph-IsValid}
use pi_graph_loop.Graph.Validate.Flow.{Reach}
use pi_graph_loop.Graph.Validate.Reachable.{reachable_nodes_correct}
use pi_graph_loop.Graph.Readiness.{
  visit_node, becomes_ready, dep_ok, incoming, has_outgoing_task_edge, compute_ready_nodes,
}
use pi_graph_loop.Graph.Readiness.Frontier.{IsFrontier, compute_ready_nodes-IsFrontier}
use pi_graph_loop.Examples.Samples.{noon, fresh_task, failed_task}

-- A failed test reopens the fix node, once.
fix_reopens : (activate_rework_nodes noon failed_task).reopened ≡ "fix" ∷ []
unfolding activate_rework_nodes failed_task
fix_reopens = refl

fix_reopens_once :
    (activate_rework_nodes noon (activate_rework_nodes noon failed_task).task).reopened ≡ []
unfolding activate_rework_nodes failed_task
fix_reopens_once = refl

activate_rework_nodes-IsLedger_example :
    IsLedger (activate_rework_nodes noon failed_task).task.rework_consumption
    × (length (activate_rework_nodes noon failed_task).task.rework_consumption
        ≡ length failed_task.rework_consumption
          + length (activate_rework_nodes noon failed_task).reopened)
activate_rework_nodes-IsLedger_example =
    activate_rework_nodes-IsLedger noon failed_task (unfold failed_task in tt)

abbrev ring : Record (List String)
ring = ("a", "b" ∷ []) ∷ ("b", "c" ∷ []) ∷ ("c", "a" ∷ []) ∷ []

ring_has_cycle : graph_has_cycle ring ("a" ∷ "b" ∷ "c" ∷ []) ≡ true
unfolding graph_has_cycle
ring_has_cycle = refl

chain_has_no_cycle :
    graph_has_cycle (("a", "b" ∷ "c" ∷ []) ∷ ("b", "c" ∷ []) ∷ []) ("a" ∷ "b" ∷ "c" ∷ []) ≡ false
unfolding graph_has_cycle
chain_has_no_cycle = refl

graph_has_cycle_correct_example :
    (search_cycle ring ("a" ∷ []) ≡ found)
      × (graph_has_cycle ring ("a" ∷ []) ≡ true)
      × ((x : String) × Cycle ring x)
    ⊎ ((c : Colors) × (search_cycle ring ("a" ∷ []) ≡ finished c))
      × (graph_has_cycle ring ("a" ∷ []) ≡ false)
      × ((u v : String) → Member u ("a" ∷ []) → Walk ring u v → ¬ Cycle ring v)
graph_has_cycle_correct_example = graph_has_cycle_correct ring ("a" ∷ [])

-- The whole of the validation, for runs.
unfoldable errors_of : TaskState → List GraphError
unfolding validate_task_graph is_safe_id collect node_errors edge_errors incoming_count
    terminal_errors terminal_ids branch_errors count_branches branch_key cycle_errors non_rework_adj
    add_adjacent path_errors is_safe_relative_path reachable_nodes reach_search reach_loop
    reach_start next_nodes add_edge_target add_dependent enqueue has_outgoing_task_edge
    graph_has_cycle includes keys lookup set_add put values
errors_of task = (validate_task_graph task).errors

-- The default graph has no errors.
fresh_is_valid : errors_of fresh_task ≡ []
unfolding errors_of fresh_task
fresh_is_valid = refl

validate_task_graph-IsValid_example : IsValid fresh_task
validate_task_graph-IsValid_example =
    validate_task_graph-IsValid fresh_task (unfold errors_of in fresh_is_valid)

plan_found :
    lookup fresh_task.start fresh_task.nodes
    ≡ some (new_node TaskNodeStatus.ready "planner" [] [] ("artifacts/plan.md" ∷ []) (some 1))
unfolding lookup fresh_task
plan_found = refl

reachable_nodes_correct_example :
    ((reach_search fresh_task).queue ≡ [])
    × ((k : String)
        → (includes (reachable_nodes fresh_task) k ≡ true) ↔ Reach fresh_task fresh_task.start k)
reachable_nodes_correct_example =
    reachable_nodes_correct fresh_task
      (new_node TaskNodeStatus.ready "planner" [] [] ("artifacts/plan.md" ∷ []) (some 1)) plan_found

-- After the failed test the fix node can start.
fix_is_ready :
    (compute_ready_nodes (activate_rework_nodes noon failed_task).task).current ≡ "fix" ∷ []
unfolding compute_ready_nodes activate_rework_nodes failed_task visit_node becomes_ready dep_ok
    incoming set_add
fix_is_ready = refl

compute_ready_nodes-IsFrontier_example : IsFrontier failed_task (compute_ready_nodes failed_task)
compute_ready_nodes-IsFrontier_example = compute_ready_nodes-IsFrontier failed_task
