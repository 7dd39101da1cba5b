-- ===== src/Examples/Attempts.antt =====
-- Attempts and statuses: assignment, reopening, closure.
use pi_graph_loop.Prelude.{true, false, ◌≡◌, ◌↔◌, refl, some, [], ◌∷◌, All, includes}
use pi_graph_loop.Types.{TaskStatus, TaskNodeStatus, AttemptStatus, TaskNode}
use pi_graph_loop.Graph.Rework.{reopen_target, suppress_prior_attempt_for_force_reopen}
use pi_graph_loop.Lifecycle.Transition.{is_task_cancelled, is_allowed_node_transition}
use pi_graph_loop.Lifecycle.Transition.Reach.{Reach, stay, next, terminal_forever}
use pi_graph_loop.Lifecycle.Status.{compute_task_status, apply_task_status, is_closed_status}
use pi_graph_loop.Lifecycle.Status.Closure.{
  IsFinished, apply_task_status_settles, compute_task_status-done_iff,
}
use pi_graph_loop.Lifecycle.Attempt.{mint_node_attempt}
use pi_graph_loop.Lifecycle.Attempt.Lease.{IsLeased, Inactive, history_of, reopen-IsLeased, ids}
use pi_graph_loop.Lifecycle.Attempt.Mint.{IsMinted, mint_node_attempt-IsMinted}
use pi_graph_loop.Graph.Default.{new_node}
use pi_graph_loop.Examples.Samples.{noon, fresh_task, closed_attempt, scope_of_files}

-- A node whose first attempt failed and whose second is active.
abbrev held_node : TaskNode
held_node = record (new_node TaskNodeStatus.in_progress "tester" [] [] [] (some 3)) {
  assignee = some "tester-01";
  active_attempt_id = some "attempt-2";
  attempt_history = some (
      closed_attempt "attempt-1" AttemptStatus.failed
      ∷ closed_attempt "attempt-2" AttemptStatus.active
      ∷ []);
}

held_node-IsLeased : IsLeased held_node
unfolding includes
held_node-IsLeased = record { distinct = (refl, (refl, tt)); owned = (λ h. cc h, (λ h. refl, tt)) }

reopen-IsLeased_example :
    (IsLeased (reopen_target noon held_node)
      × All Inactive (history_of (reopen_target noon held_node)))
    × (IsLeased (suppress_prior_attempt_for_force_reopen noon held_node).0
        × All Inactive (history_of (suppress_prior_attempt_for_force_reopen noon held_node).0))
reopen-IsLeased_example = reopen-IsLeased noon held_node held_node-IsLeased

third_is_new : includes (ids (history_of held_node)) "attempt-3" ≡ false
unfolding includes
third_is_new = refl

mint_node_attempt-IsMinted_example :
    IsMinted held_node "attempt-3"
      (mint_node_attempt noon held_node "tester-02" "attempt-3" (scope_of_files []))
mint_node_attempt-IsMinted_example =
    mint_node_attempt-IsMinted noon held_node "tester-02" "attempt-3" (scope_of_files [])
      held_node-IsLeased third_is_new

done_to_done : Reach TaskNodeStatus.done TaskNodeStatus.done
unfolding is_allowed_node_transition
done_to_done = next stay refl

terminal_forever_example : TaskNodeStatus.done ≡ TaskNodeStatus.done
terminal_forever_example =
    terminal_forever {s = TaskNodeStatus.done} {t = TaskNodeStatus.done} refl done_to_done

compute_task_status-done_iff_example :
    (compute_task_status fresh_task ≡ TaskStatus.done) ↔ IsFinished fresh_task
compute_task_status-done_iff_example = compute_task_status-done_iff fresh_task

apply_task_status_settles_example :
    (is_task_cancelled fresh_task.status ≡ true → (apply_task_status fresh_task).0 ≡ fresh_task)
    × (is_task_cancelled fresh_task.status ≡ false
        → ((apply_task_status (apply_task_status fresh_task).0).0
            ≡ (apply_task_status fresh_task).0)
          × ((apply_task_status (apply_task_status fresh_task).0).1.changed ≡ false)
          × ((apply_task_status fresh_task).1.terminal
              ≡ is_closed_status (apply_task_status fresh_task).0.status)
          × (is_task_cancelled (apply_task_status fresh_task).0.status ≡ false))
apply_task_status_settles_example = apply_task_status_settles fresh_task
