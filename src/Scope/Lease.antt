-- ===== src/Scope/Lease.antt =====
-- scope.ts: the write scopes that active attempts hold.
use pi_graph_loop.Prelude.{
  String, Option, none, some, List, [], ◌∷◌, ◌++◌, find, ◌==◌, if◌then◌else◌,
}
use pi_graph_loop.Types.{TaskNode, TaskNodeAttempt, TaskState, is_active}
use pi_graph_loop.Scope.Resolve.{EffectiveScope, resolved, resolve_node_scope}

-- `scope` is `none` only where the model's resolution runs out of fuel.
pub record ActiveLease : Type 0 where
  pub task_id : String
  pub node_id : String
  pub assignee : String
  pub attempt_id : String
  pub scope : Option EffectiveScope

-- `attempt.scope ? attempt.scope : resolveNodeScope(task, nodeId)`.
unfoldable lease_scope : TaskState → String → TaskNodeAttempt → Option EffectiveScope
unfolding resolve_node_scope
lease_scope task node_id attempt = elim attempt.scope [
  | some s ↦ some (resolved s)
  | none ↦ resolve_node_scope task node_id
]

-- The record of the active attempt, if there is one and it is active.
unfoldable held_attempt : TaskNode → Option TaskNodeAttempt
held_attempt node = elim node.active_attempt_id [
  | none ↦ none
  | some id ↦ elim node.attempt_history [
    | none ↦ none
    | some history ↦ elim (find (λ a. a.attempt_id == id) history) [
      | none ↦ none
      | some attempt ↦ if is_active attempt.status then some attempt else none
    ]
  ]
]

-- The body of the loop.
unfoldable node_lease : TaskState → String × TaskNode → List ActiveLease
unfolding held_attempt lease_scope
node_lease task (node_id, node) = elim (held_attempt node) [
  | none ↦ []
  | some attempt ↦
      record {
        task_id = task.task_id;
        node_id = node_id;
        assignee = attempt.assignee;
        attempt_id = attempt.attempt_id;
        scope = lease_scope task node_id attempt;
      }
      ∷ []
]

abbrev leases_of : TaskState → List (String × TaskNode) → List ActiveLease
unfolding node_lease
leases_of task [] = []
leases_of task (entry ∷ entries) = node_lease task entry ++ leases_of task entries

unfoldable collect_active_leases : TaskState → List ActiveLease
unfolding node_lease
collect_active_leases task = leases_of task task.nodes
