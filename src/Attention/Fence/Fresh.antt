-- ===== src/Attention/Fence/Fresh.antt =====
-- attention.ts: which stall notifications `checkStallNotificationStale` lets through.
use pi_graph_loop.Prelude.{
  ℕ, String, Bool, true, false, ◌≡◌, refl, ◌↔◌, ◌⊎◌, Option, none, some, opt_eq, eq_iff, lookup,
  arith,
}
use pi_graph_loop.Types.{SwarmState, TaskNode, TaskState}
use pi_graph_loop.Lifecycle.Transition.{is_terminal_node_status}
use pi_graph_loop.Lifecycle.Status.{is_closed_status}
use pi_graph_loop.Attention.Fence.{
  message_is_superseded, drift_staleness, check_stall_notification_stale,
}

opt_eq_iff : (a b : Option String) → (opt_eq a b ≡ true) ↔ (a ≡ b)
opt_eq_iff none none = (λ h. refl, λ h. refl)
opt_eq_iff none (some b) = (λ h. cc h, λ h. cc h)
opt_eq_iff (some a) none = (λ h. cc h, λ h. cc h)
opt_eq_iff (some a) (some b) = (λ h. ground (arith, eq_iff a b), λ h. ground (arith, eq_iff a b))

-- A stall notification that is let through concerns work that is still open: the task and the node
-- are not closed, the assignment message is not superseded, and the notified agent is the assignee,
-- or it is the root.
pub record IsCurrent (st : SwarmState) (task : TaskState) (node : TaskNode) (agent_id : String)
    : Type 0 where
  pub task_open : is_closed_status task.status ≡ false
  pub node_open : is_terminal_node_status node.status ≡ false
  pub message_current : message_is_superseded st node ≡ false
  pub addressed : (node.assignee ≡ some agent_id) ⊎ (agent_id ≡ "root")

module _ (st : SwarmState) (task : TaskState) (node_id agent_id : String) (now_ms : ℕ)
    (node : TaskNode) (found : lookup node_id task.nodes ≡ some node) where
  pub stall_passes-IsCurrent :
      (fresh : Bool)
      → check_stall_notification_stale st task node_id agent_id now_ms fresh ≡ none
      → IsCurrent st task node agent_id
  unfolding check_stall_notification_stale drift_staleness
  stall_passes-IsCurrent fresh h =
      ground (arith, found, opt_eq_iff node.assignee (some agent_id), eq_iff agent_id "root")
