-- ===== src/Examples/Commits.antt =====
-- Closing the root's terminal nodes on evidence from git.
use pi_graph_loop.Prelude.{
  ℕ, String, Bool, true, false, ◌≡◌, refl, Option, none, some, List, [], ◌∷◌, lookup, modify, put,
}
use pi_graph_loop.Types.{TaskNodeStatus, TaskState}
use pi_graph_loop.Graph.Default.{new_node}
use pi_graph_loop.Autoclose.{
  auto_close, close_candidate, is_closable, close, record_evidence, close_node, GitEvidence,
  CloseRun, auto_close_root_terminal_nodes,
}
use pi_graph_loop.Agents.Role.{infer_role_kind}
use pi_graph_loop.Graph.Readiness.{
  compute_ready_nodes, visit_node, becomes_ready, is_graph_terminal_node,
}
use pi_graph_loop.Examples.Samples.{noon, fresh_task}

-- A task of which the commit is left.
unfoldable commit_task : TaskState
unfolding fresh_task
commit_task = record fresh_task {
  start = "commit";
  nodes =
      ("commit", record (new_node TaskNodeStatus.pending "root" [] [] [] none) { terminal = true })
      ∷ [];
  edges = [];
}

abbrev git_says : Bool → ℕ → GitEvidence
git_says b call = record { verified = b; reason = "diff"; baseline = none; head = none }

abbrev closed_of : Option CloseRun → List String
closed_of none = "out of fuel" ∷ []
closed_of (some run) = run.closed

commit_closes :
    closed_of (auto_close_root_terminal_nodes noon (git_says true) commit_task) ≡ "commit" ∷ []
unfolding auto_close_root_terminal_nodes commit_task auto_close close_candidate compute_ready_nodes
    visit_node becomes_ready is_closable lookup infer_role_kind is_graph_terminal_node close modify
    record_evidence close_node put
commit_closes = refl

unfoldable stopped_run : CloseRun
unfolding commit_task
stopped_run = record {
  task = commit_task;
  evidence = ("commit", record { git = git_says false 0; at = noon; node_id = "commit" }) ∷ [];
  closed = [];
}
