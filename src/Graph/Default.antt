-- ===== src/Graph/Default.antt =====
-- graph.ts: `buildDefaultGraph` and `collectDeclaredArtifacts`.
use pi_graph_loop.Prelude.{
  ℕ, String, Bool, true, false, Option, none, some, List, [], ◌∷◌, ◌++◌, foldl, Record, values,
  set_add,
}
use pi_graph_loop.Types.{TaskNodeStatus, TaskGateStatus, TaskNode, TaskEdge, TaskGate, TaskState}

pub record TaskGraph : Type 0 where
  pub start : String
  pub nodes : Record TaskNode
  pub edges : List TaskEdge
  pub gates : Record TaskGate

-- A node literal: what the literals leave out is absent.
abbrev pub new_node :
    TaskNodeStatus → String → List String → List String → List String → Option ℕ → TaskNode
new_node status role depends_on read_artifacts write_artifacts max_attempts = record {
  status = status;
  outcome = none;
  role = role;
  assignee = none;
  assignee_policy = none;
  depends_on = depends_on;
  allowed_files = [];
  allowed_files_from = none;
  read_artifacts = read_artifacts;
  write_artifacts = write_artifacts;
  message_ids = [];
  assignment_message_id = none;
  attempts = 0;
  max_attempts = max_attempts;
  terminal = false;
  last_activity_at = none;
  stale_at = none;
  active_attempt_id = none;
  attempt_history = none;
  last_progress_at = none;
  stale_open_surfaced_at = none;
  supersession_count = 0;
  supersession_window_start = none;
  artifact_progress_nudge_at = none;
  artifact_progress_nudge_count = 0;
  artifact_progress_cap_surfaced = false;
}

abbrev new_edge : String → String → String → Bool → TaskEdge
new_edge from to when rework = record {
  from = from;
  to = to;
  when = when;
  rework = rework;
  parallel = false;
}

abbrev open_gate : TaskGate
open_gate = record { status = TaskGateStatus.opened; by = none; artifact = none }

abbrev default_nodes : List String → Record TaskNode
default_nodes allowed_files =
    ("plan", new_node TaskNodeStatus.ready "planner" [] [] ("artifacts/plan.md" ∷ []) (some 1))
    ∷ (
      "implement",
      record (new_node TaskNodeStatus.pending "implementer" ("plan" ∷ []) ("artifacts/plan.md" ∷ [])
          ("artifacts/implementation-report.md" ∷ []) (some 3)) { allowed_files = allowed_files },
    )
    ∷ (
      "test",
      new_node TaskNodeStatus.pending "tester" ("implement" ∷ [])
          ("artifacts/implementation-report.md" ∷ []) ("artifacts/test-report.md" ∷ []) (some 3),
    )
    ∷ (
      "fix",
      record (new_node TaskNodeStatus.pending "implementer" ("test" ∷ [])
          ("artifacts/test-report.md" ∷ []) ("artifacts/fix-report.md" ∷ []) (some 3)) {
            allowed_files_from = some "implement";
          },
    )
    ∷ (
      "review",
      new_node TaskNodeStatus.pending "reviewer" ("test" ∷ [])
          ("artifacts/implementation-report.md" ∷ "artifacts/test-report.md" ∷ [])
          ("artifacts/review.md" ∷ []) (some 2),
    )
    ∷ (
      "commit",
      record (new_node TaskNodeStatus.pending "root" ("review" ∷ []) []
          ("artifacts/final-summary.md" ∷ []) none) { terminal = true },
    )
    ∷ []

abbrev default_edges : List TaskEdge
default_edges =
    new_edge "plan" "implement" "planned" false
    ∷ new_edge "implement" "test" "implemented" false
    ∷ new_edge "test" "review" "passed" false
    ∷ new_edge "test" "fix" "failed" true
    ∷ new_edge "fix" "test" "implemented" true
    ∷ new_edge "review" "commit" "approved" false
    ∷ new_edge "review" "fix" "rejected" true
    ∷ []

unfoldable pub build_default_graph : List String → TaskGraph
build_default_graph allowed_files = record {
  start = "plan";
  nodes = default_nodes allowed_files;
  edges = default_edges;
  gates = ("reviewApproved", open_gate) ∷ ("testsPassed", open_gate) ∷ [];
}

unfoldable collect_declared_artifacts : TaskState → List String
unfolding set_add values
collect_declared_artifacts task =
    foldl
      (λ (set : List String) (node : TaskNode).
        foldl set_add set (node.read_artifacts ++ node.write_artifacts))
      [] (values task.nodes)
