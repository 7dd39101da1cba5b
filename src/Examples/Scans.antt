-- ===== src/Examples/Scans.antt =====
-- The stale-open scan.
use pi_graph_loop.Prelude.{
  ℕ, ◌+◌, ◌≤◌, ◌≡◌, refl, String, none, some, List, [], ◌∷◌, length, lookup,
}
use pi_graph_loop.Types.{AgentStatus, TaskNodeStatus, TaskState}
use pi_graph_loop.Graph.Default.{new_node}
use pi_graph_loop.Stale.{
  SurfacedNode, stale_open_assignment_scan, scan_tasks, scan_nodes, scan_node, inspect, surface,
  assignee_working, is_working, is_fresh, is_surfaced, default_stale_open_threshold_ms,
}
use pi_graph_loop.Stale.Surfaced.{stamp_tasks, due_tasks, stale_open_assignment_scan-IsScan}
use pi_graph_loop.Examples.Samples.{noon, fresh_task}
use pi_graph_loop.Examples.Notices.{swarm}

abbrev iso : ℕ → String
iso t = "2026-10-04T14:00:00.000Z"

-- Two hours after noon.
abbrev two_ms : ℕ
two_ms = 1_791_122_400_000

unfoldable open_task : TaskState
unfolding fresh_task
open_task = record fresh_task {
  nodes =
      (
        "test",
        record (new_node TaskNodeStatus.assigned "tester" [] [] [] none) {
          assignee = some "tester-01";
          last_activity_at = some noon;
        },
      )
      ∷ [];
}

abbrev ids_of : List SurfacedNode → List String
ids_of [] = []
ids_of (n ∷ ns) = n.node_id ∷ ids_of ns

surfaces_test :
    ids_of
      (stale_open_assignment_scan iso
        (swarm AgentStatus.running)
        two_ms
        default_stale_open_threshold_ms
        (some open_task ∷ none ∷ [])).1.surfaced_nodes
    ≡ "test" ∷ []
unfolding stale_open_assignment_scan scan_tasks scan_nodes scan_node inspect surface
    assignee_working is_working is_fresh is_surfaced lookup open_task
surfaces_test = refl

stale_open_assignment_scan-IsScan_example :
    ((stale_open_assignment_scan iso
        (swarm AgentStatus.running)
        two_ms
        30_000
        (some open_task ∷ [])).0
      ≡ stamp_tasks iso (swarm AgentStatus.running) two_ms 30_000 (some open_task ∷ []))
    × ((stale_open_assignment_scan iso
          (swarm AgentStatus.running)
          two_ms
          30_000
          (some open_task ∷ [])).1.surfaced_nodes
        ≡ due_tasks iso (swarm AgentStatus.running) two_ms 30_000 (some open_task ∷ []))
    × ((stale_open_assignment_scan iso
          (swarm AgentStatus.running)
          two_ms
          30_000
          (some open_task ∷ [])).1.surfaced
        ≡ length (due_tasks iso (swarm AgentStatus.running) two_ms 30_000 (some open_task ∷ [])))
    × ((stale_open_assignment_scan iso
            (swarm AgentStatus.running)
            two_ms
            30_000
            (some open_task ∷ [])).1.surfaced
          + (stale_open_assignment_scan iso
              (swarm AgentStatus.running)
              two_ms
              30_000
              (some open_task ∷ [])).1.already_surfaced
        ≤ (stale_open_assignment_scan iso
            (swarm AgentStatus.running)
            two_ms
            30_000
            (some open_task ∷ [])).1.inspected)
stale_open_assignment_scan-IsScan_example =
    stale_open_assignment_scan-IsScan iso (swarm AgentStatus.running) two_ms 30_000
      (some open_task ∷ [])
