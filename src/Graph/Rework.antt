-- ===== src/Graph/Rework.antt =====
-- graph.ts: the reopening of nodes by rework edges, and the ledger of the firings.
pub mod Loop
pub mod Ledger
pub mod Reopened
use pi_graph_loop.Prelude.{
  String, Bool, true, false, ◌&&◌, ◌||◌, Option, none, some, List, [], ◌∷◌, ◌++◌, foldl, ◌==◌,
  lookup, modify, keys, any, filter, find, modify_first, opt_eq, or_else, is_some, if◌then◌else◌,
}
use pi_graph_loop.Types.{
  TaskNodeStatus, AttemptStatus, ReleaseReason, TaskNodeAttempt, TaskNode, TaskEdge, TaskState,
  ReworkConsumptionRecord, Stamp, attempt_status_text,
}
use pi_graph_loop.Graph.Activation.{edge_matches_activation, rework_edge_key, attempt_identity}

-- The traces that `activateReworkNodes` writes, with the fields that are not copied from the task.
pub data ReworkTrace : Type 0 where
  suppressed :
      (node_id edge_key source_node_id source_attempt_id : String)
      (target_status source_status : TaskNodeStatus) (source_outcome reason : Option String)
      → ReworkTrace
  reopened :
      (node_id prior_status : String) (prior_attempt_id : Option String)
      (edge_key source_node_id source_attempt_id : String)
      → ReworkTrace

-- The task, the nodes reopened and the traces written so far.
pub record ReworkRun : Type 0 where
  pub task : TaskState
  pub reopened : List String
  pub traces : List ReworkTrace

unfoldable pub consumes : TaskEdge → String → String → ReworkConsumptionRecord → Bool
unfolding rework_edge_key
consumes edge source_attempt_id reopened_node_id record' =
    record'.edge_key == rework_edge_key edge
    && record'.source_node_id == edge.from
    && record'.source_attempt_id == source_attempt_id
    && record'.reopened_node_id == reopened_node_id

unfoldable pub has_consumed_rework : TaskState → TaskEdge → String → String → Bool
unfolding consumes
has_consumed_rework task edge source_attempt_id reopened_node_id =
    any (consumes edge source_attempt_id reopened_node_id) task.rework_consumption

module _ (now : Stamp) where
  unfoldable record_rework_consumption :
      TaskState → TaskEdge → String → String → TaskNodeStatus → Option String → TaskState
  unfolding has_consumed_rework
  record_rework_consumption task edge reopened_node_id source_attempt_id source_status
        source_outcome =
      if has_consumed_rework task edge source_attempt_id reopened_node_id
      then task
      else record task {
        rework_consumption =
            task.rework_consumption
            ++ record {
              edge_key = rework_edge_key edge;
              source_node_id = edge.from;
              source_attempt_id = source_attempt_id;
              reopened_node_id = reopened_node_id;
              consumed_at = now;
              source_status = source_status;
              source_outcome = source_outcome;
            }
              ∷ [];
      }

-- `node.attemptHistory.some((a) => a?.supersededBy === "<rework>")`.
unfoldable pub source_was_rework_reopened : TaskNode → Bool
source_was_rework_reopened node = elim node.attempt_history [
  | none ↦ false
  | some history ↦ any (λ a. opt_eq a.superseded_by (some "<rework>")) history
]

abbrev pub is_reopenable : TaskNodeStatus → Bool
is_reopenable TaskNodeStatus.pending = true
is_reopenable TaskNodeStatus.failed = true
is_reopenable TaskNodeStatus.skipped = true
is_reopenable TaskNodeStatus.done = true
is_reopenable _ = false

abbrev pub is_rework_source : TaskNodeStatus → Bool
is_rework_source TaskNodeStatus.failed = true
is_rework_source TaskNodeStatus.skipped = true
is_rework_source TaskNodeStatus.done = true
is_rework_source _ = false

-- `activeAttemptId && attemptHistory ? attemptHistory.find(...) : undefined`.
abbrev pub find_prior : Option String → Option (List TaskNodeAttempt) → Option TaskNodeAttempt
find_prior (some id) (some history) = find (λ a. a.attempt_id == id) history
find_prior (some id) none = none
find_prior none history = none

unfoldable pub prior_attempt : TaskNode → Option TaskNodeAttempt
prior_attempt node = find_prior node.active_attempt_id node.attempt_history

-- The history in which the attempt that `find_prior` returns is changed.
abbrev pub mark_prior :
    (TaskNodeAttempt → TaskNodeAttempt)
    → Option String
    → Option (List TaskNodeAttempt)
    → Option (List TaskNodeAttempt)
mark_prior f (some id) (some history) = some (modify_first (λ a. a.attempt_id == id) f history)
mark_prior f (some id) none = none
mark_prior f none history = history

unfoldable pub with_prior_attempt : (TaskNodeAttempt → TaskNodeAttempt) → TaskNode → TaskNode
with_prior_attempt f node = record node {
  attempt_history = mark_prior f node.active_attempt_id node.attempt_history;
}

abbrev is_supersedable : AttemptStatus → Bool
is_supersedable AttemptStatus.active = true
is_supersedable AttemptStatus.completed = true
is_supersedable AttemptStatus.failed = true
is_supersedable AttemptStatus.skipped = true
is_supersedable _ = false

abbrev if_active : AttemptStatus → TaskNodeAttempt → TaskNodeAttempt → TaskNodeAttempt
if_active AttemptStatus.active x y = x
if_active _ x y = y

module _ (now : Stamp) where
  unfoldable pub supersede_by_rework : TaskNodeAttempt → TaskNodeAttempt
  supersede_by_rework prior =
      let marked = record prior {
        superseded_at = or_else prior.superseded_at (some now);
        superseded_by = some "<rework>";
      } in
      let closed = record marked {
        status = AttemptStatus.superseded;
        outcome = none;
        released_at = or_else prior.released_at (some now);
        release_reason = some ReleaseReason.terminal;
      } in
      if is_supersedable prior.status then if_active prior.status closed marked else prior

  unfoldable pub supersede_by_force_reopen : TaskNodeAttempt → TaskNodeAttempt
  supersede_by_force_reopen prior =
      if is_supersedable prior.status
      then record prior {
        status = AttemptStatus.superseded;
        outcome = none;
        superseded_at = or_else prior.superseded_at (some now);
        superseded_by = some "<force-reopen>";
        released_at = or_else prior.released_at (some now);
        release_reason = some ReleaseReason.force_reopen;
      }
      else prior

  unfoldable pub suppress_prior_attempt_for_force_reopen : TaskNode → TaskNode × Option String
  unfolding with_prior_attempt supersede_by_force_reopen
  suppress_prior_attempt_for_force_reopen node =
      let marked = with_prior_attempt supersede_by_force_reopen node in
      (record marked { active_attempt_id = none }, node.active_attempt_id)

  -- The target node of an edge that fires.
  unfoldable pub reopen_target : TaskNode → TaskNode
  unfolding with_prior_attempt supersede_by_rework
  reopen_target target =
      let marked = with_prior_attempt supersede_by_rework target in
      record marked {
        status = TaskNodeStatus.ready;
        assignee = none;
        assignment_message_id = none;
        active_attempt_id = none;
        outcome = none;
        stale_at = none;
        last_activity_at = some now;
      }

  -- `priorAttempt ? priorAttempt.status : priorActiveAttemptId ? "unknown" : "done"`, read after
  -- the prior attempt was changed.
  unfoldable prior_status_text : TaskNode → String
  unfolding prior_attempt supersede_by_rework attempt_status_text
  prior_status_text target = elim (prior_attempt target) [
    | some a ↦ attempt_status_text (supersede_by_rework a).status
    | none ↦ if is_some target.active_attempt_id then "unknown" else "done"
  ]

  -- The end of the loop's body: the edge fires.
  unfoldable pub fire : TaskEdge → TaskNode → TaskNode → ReworkRun → ReworkRun
  unfolding attempt_identity reopen_target record_rework_consumption modify prior_status_text
  fire edge from target run =
      let source_attempt_id = attempt_identity edge.from from in
      let opened = record run.task { nodes = modify edge.to reopen_target run.task.nodes } in
      record {
        task =
            record_rework_consumption now opened edge edge.to source_attempt_id from.status
              from.outcome;
        reopened = run.reopened ++ edge.to ∷ [];
        traces =
            run.traces
            ++ ReworkTrace.reopened edge.to (prior_status_text target) target.active_attempt_id
                (rework_edge_key edge) edge.from source_attempt_id
              ∷ [];
      }

  unfoldable pub suppress : Option String → TaskEdge → TaskNode → TaskNode → ReworkRun → ReworkRun
  unfolding attempt_identity rework_edge_key
  suppress reason edge from target run = record run {
    traces =
        run.traces
        ++ suppressed edge.to (rework_edge_key edge) edge.from (attempt_identity edge.from from)
            target.status from.status from.outcome reason
          ∷ [];
  }

  -- The loop's body once the source and the target are found and the edge is active.
  unfoldable pub fire_or_suppress : TaskEdge → TaskNode → TaskNode → ReworkRun → ReworkRun
  unfolding has_consumed_rework fire suppress
  fire_or_suppress edge from target run =
      if has_consumed_rework run.task edge (attempt_identity edge.from from) edge.to
      then suppress none edge from target run
      else if is_reopenable target.status
      then fire edge from target run
      else suppress (some "target_not_reopenable") edge from target run

  -- `if (!source) continue` and `if (!target) continue`.
  unfoldable pub activate_found :
      Option TaskNode → Option TaskNode → TaskEdge → ReworkRun → ReworkRun
  unfolding fire_or_suppress
  activate_found (some from) (some target) edge run = fire_or_suppress edge from target run
  activate_found (some from) none edge run = run
  activate_found none target edge run = run

  -- The body of the inner loop of `activateReworkNodes`, for one outgoing edge.
  unfoldable pub activate_edge : ReworkRun → TaskEdge → ReworkRun
  unfolding edge_matches_activation activate_found
  activate_edge run edge =
      if edge_matches_activation run.task edge
      then activate_found (lookup edge.from run.task.nodes) (lookup edge.to run.task.nodes) edge run
      else run

  abbrev pub outgoing : TaskState → String → Bool → List TaskEdge
  outgoing task source_node_id in_cycle =
      filter (λ edge. edge.from == source_node_id && (edge.rework || in_cycle)) task.edges

  -- The inner loop, for a source node that may fire.
  unfoldable pub activate_source : Option TaskNode → ReworkRun → String → ReworkRun
  unfolding activate_edge source_was_rework_reopened
  activate_source none run source_node_id = run
  activate_source (some source) run source_node_id =
      if is_rework_source source.status
      then foldl activate_edge run
          (outgoing run.task source_node_id (source_was_rework_reopened source))
      else run

  -- The body of the outer loop, for one node.
  unfoldable pub activate_from : ReworkRun → String → ReworkRun
  unfolding activate_source lookup
  activate_from run source_node_id =
      activate_source (lookup source_node_id run.task.nodes) run source_node_id

  -- `activateReworkNodes`; the ids are those at the start, and no node is added on the way.
  unfoldable pub activate_rework_nodes : TaskState → ReworkRun
  unfolding activate_from keys
  activate_rework_nodes task =
      foldl activate_from (record { task = task; reopened = []; traces = [] }) (keys task.nodes)
