-- ===== src/Examples/Closures.antt =====
-- Closure: the summary of a node and the report on a task.
use pi_graph_loop.Prelude.{
  String, Bool, true, false, ◌≡◌, ◌==◌, refl, some, [], ◌∷◌, lookup, collect,
}
use pi_graph_loop.Types.{TaskStatus, TaskNodeStatus, AgentStatus, TaskNode, TaskState}
use pi_graph_loop.Graph.Default.{new_node}
use pi_graph_loop.Lifecycle.Status.{compute_task_status, has_failed, has_settled}
use pi_graph_loop.Lifecycle.Status.Closure.{IsFinished}
use pi_graph_loop.Closure.{
  summary_of, node_verdict, status_blocking, agent_blocking, message_blocking, record_blocking,
  artifacts_of, artifact_blocking,
}
use pi_graph_loop.Closure.Clear.{IsClear, summary_of-IsClear}
use pi_graph_loop.Closure.Task.{drift_blocking, stall_blocking, compute_task_closure}
use pi_graph_loop.Closure.Task.Report.{
  IsReport, compute_task_closure-IsReport, compute_task_closure-IsFinished,
}
use pi_graph_loop.Examples.Samples.{fresh_task}
use pi_graph_loop.Examples.Notices.{swarm}

-- The plan node after its work: it references the assignment message and has declared an artifact.
abbrev planned : TaskNode
planned =
    record (new_node TaskNodeStatus.done "planner" [] [] ("artifacts/plan.md" ∷ []) (some 1)) {
      assignee = some "tester-01";
      message_ids = "msg-1" ∷ [];
      terminal = true;
    }

unfoldable planned_task : TaskState
unfolding fresh_task
planned_task = record fresh_task { status = TaskStatus.done; nodes = ("plan", planned) ∷ [] }

abbrev has_plan : String → Bool
has_plan p = p == "artifacts/plan.md"

plan_is_clear :
    (summary_of true has_plan (swarm AgentStatus.running) planned_task "plan" planned).blocking ≡ []
unfolding summary_of planned_task status_blocking node_verdict agent_blocking lookup collect
    message_blocking record_blocking artifacts_of artifact_blocking
plan_is_clear = refl

lost_plan_blocks :
    (summary_of true (λ p. false) (swarm AgentStatus.running) planned_task "plan" planned).blocking
    ≡ "declared artifact artifacts/plan.md missing" ∷ []
unfolding summary_of planned_task status_blocking node_verdict agent_blocking lookup collect
    message_blocking record_blocking artifacts_of artifact_blocking
lost_plan_blocks = refl

summary_of-IsClear_example :
    IsClear true has_plan (swarm AgentStatus.running) planned_task "plan" planned
summary_of-IsClear_example =
    summary_of-IsClear true has_plan (swarm AgentStatus.running) planned_task "plan" planned
      plan_is_clear

compute_task_closure-IsReport_example :
    IsReport planned_task
      (compute_task_closure true has_plan (swarm AgentStatus.running) planned_task).1
compute_task_closure-IsReport_example =
    compute_task_closure-IsReport true has_plan (swarm AgentStatus.running) planned_task

is_done : planned_task.status ≡ TaskStatus.done
unfolding planned_task
is_done = refl

nothing_blocks :
    (compute_task_closure true has_plan (swarm AgentStatus.running) planned_task).1.blocking ≡ []
unfolding compute_task_closure planned_task drift_blocking compute_task_status has_failed
    has_settled lookup stall_blocking
nothing_blocks = refl

compute_task_closure-IsFinished_example : IsFinished planned_task
compute_task_closure-IsFinished_example =
    compute_task_closure-IsFinished true has_plan (swarm AgentStatus.running) planned_task is_done
      nothing_blocks
