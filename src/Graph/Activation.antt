-- ===== src/Graph/Activation.antt =====
-- graph.ts: which edges of the task graph are active, and what identifies a firing of an edge.
use pi_graph_loop.Prelude.{
  String, Bool, true, false, ◌&&◌, ◌||◌, Option, none, some, List, [], ◌∷◌, ◌<>◌, lookup, includes,
  opt_eq, default_to, or_else, get_last?, if◌then◌else◌,
}
use pi_graph_loop.Types.{
  TaskNodeStatus, TaskNodeAttempt, TaskNode, TaskEdge, TaskState, Stamp, node_status_text,
}

-- `node.status === "done"`, `"skipped"` or `"failed"`, and their disjunctions in the source.
abbrev pub is_done : TaskNodeStatus → Bool
is_done TaskNodeStatus.done = true
is_done _ = false

abbrev pub is_failed_or_skipped : TaskNodeStatus → Bool
is_failed_or_skipped TaskNodeStatus.failed = true
is_failed_or_skipped TaskNodeStatus.skipped = true
is_failed_or_skipped _ = false

abbrev pub fix_completion_outcomes : List String
fix_completion_outcomes = "implemented" ∷ "fixed" ∷ []

unfoldable pub outcome_matches_edge_when : String → Option String → Bool
unfolding includes
outcome_matches_edge_when when outcome =
    opt_eq outcome (some when)
    || includes fix_completion_outcomes when
      && includes fix_completion_outcomes (default_to "" outcome)

-- The part of `edgeMatchesActivation` below the look-up of the source node.
unfoldable pub node_activates_edge : TaskNode → TaskEdge → Bool
unfolding outcome_matches_edge_when
node_activates_edge from edge =
    outcome_matches_edge_when edge.when from.outcome
    && (is_done from.status || edge.rework && is_failed_or_skipped from.status)

unfoldable pub edge_matches_activation : TaskState → TaskEdge → Bool
unfolding node_activates_edge lookup
edge_matches_activation task edge = elim (lookup edge.from task.nodes) [
  | none ↦ false
  | some from ↦ node_activates_edge from edge
]

unfoldable pub rework_edge_key : TaskEdge → String
rework_edge_key edge =
    edge.from <> "=>" <> edge.to <> ":" <> edge.when <> ":" <> (if edge.rework then "1" else "0")

-- `attemptHistory?.[attemptHistory.length - 1]?.attemptId`.
abbrev last_attempt_id : Option (List TaskNodeAttempt) → Option String
last_attempt_id none = none
last_attempt_id (some history) = elim (get_last? history) [
  | none ↦ none
  | some a ↦ some a.attempt_id
]

abbrev stamp_text : Option Stamp → String
stamp_text none = ""
stamp_text (some v) = v.text

-- The `attemptId` of `sourceAttemptIdentity`; the status and the outcome beside it are the node's.
unfoldable pub attempt_identity : String → TaskNode → String
unfolding node_status_text
attempt_identity from_id from =
    elim (or_else from.active_attempt_id (last_attempt_id from.attempt_history)) [
      | some id ↦ id
      | none ↦
          "legacy:"
          <> from_id
          <> ":"
          <> node_status_text from.status
          <> ":"
          <> default_to "" from.outcome
          <> ":"
          <> stamp_text from.last_activity_at
    ]
