-- ===== src/Graph/Validate.antt =====
-- graph.ts: `validateTaskGraph`. An error is a constructor with what its message interpolates.
pub mod Flow
pub mod Queue
pub mod Reachable
pub mod Forward
pub mod Sound
use pi_graph_loop.Prelude.{
  is_nil, ℕ, zero, suc, ◌+◌, String, Bool, true, false, not, ◌&&◌, ◌||◌, List, [], ◌∷◌, ◌++◌, foldl,
  ◌==◌, ◌<>◌, Record, lookup, put, keys, any, all, filter, includes, set_add, length, is_some,
  is_truthy, codes, ltb, leb, nat_eq, default_to, if◌then◌else◌, when, collect, has_text,
}
use text.Mathlib.Text.{starts_with}
use pi_graph_loop.Types.{TaskNode, TaskEdge, TaskState}
use pi_graph_loop.Graph.Readiness.{has_outgoing_task_edge}
use pi_graph_loop.Graph.Cycle.{graph_has_cycle}

pub data GraphError : Type 0 where
  unsafe_task_id missing_start unsafe_node_id : (id : String) → GraphError
  missing_dependency : (node_id dep : String) → GraphError
  undeclared_fan_in : (node_id : String) → GraphError
  missing_from missing_to : (id : String) → GraphError
  no_terminal_reachable : GraphError
  ambiguous_branch : (count : ℕ) (key : String) → GraphError
  cycle_detected : GraphError
  unsafe_task_file unsafe_node_file unsafe_artifact : (id path : String) → GraphError

-- `node … is not reachable from start …`.
pub data GraphWarning : Type 0 where
  unreachable : (node_id start : String) → GraphWarning

pub record GraphValidation : Type 0 where
  pub errors : List GraphError
  pub warnings : List GraphWarning

-- `SAFE_ID_RE`, /^[a-z0-9_-]+$/.
abbrev is_safe_code : ℕ → Bool
is_safe_code c =
    leb b'a' c && leb c b'z' || leb b'0' c && leb c b'9' || nat_eq c b'_' || nat_eq c b'-'

unfoldable pub is_safe_id : String → Bool
is_safe_id id = not (is_nil (codes id)) && all is_safe_code (codes id)

-- utils.ts.
unfoldable pub is_safe_relative_path : String → Bool
is_safe_relative_path value =
    is_truthy value && not (starts_with value "/") && not (has_text value "..")

-- `incoming.get(id) || 0`.
unfoldable pub incoming_count : TaskState → String → ℕ
incoming_count task id = length (filter (λ e. e.to == id) task.edges)

unfoldable pub node_errors : TaskState → String × TaskNode → List GraphError
node_errors task (id, node) =
    collect (λ dep. when (not (includes (keys task.nodes) dep)) (missing_dependency id dep))
      node.depends_on
    ++ when (not (id == task.start) && ltb 0 (incoming_count task id) && is_nil node.depends_on)
        (undeclared_fan_in id)

unfoldable pub edge_errors : TaskState → TaskEdge → List GraphError
edge_errors task edge =
    when (not (includes (keys task.nodes) edge.from)) (missing_from edge.from)
    ++ when (not (includes (keys task.nodes) edge.to)) (missing_to edge.to)

-- The breadth-first search: the set of nodes reached and the queue.
pub record Search : Type 0 where
  pub reachable : List String
  pub queue : List String

unfoldable pub add_edge_target : TaskState → String → List String → TaskEdge → List String
add_edge_target task cur next edge =
    if edge.from == cur && includes (keys task.nodes) edge.to then set_add next edge.to else next

unfoldable pub add_dependent : String → List String → String × TaskNode → List String
add_dependent cur next (id, node) = if includes node.depends_on cur then set_add next id else next

-- The set `next` of one round.
unfoldable pub next_nodes : TaskState → String → List String
next_nodes task cur =
    foldl (add_dependent cur) (foldl (add_edge_target task cur) [] task.edges) task.nodes

unfoldable pub enqueue : Search → String → Search
enqueue s n =
    if includes s.reachable n
    then s
    else record { reachable = s.reachable ++ n ∷ []; queue = s.queue ++ n ∷ [] }

-- The `while` loop. A node enters the queue once, so as many rounds as there are nodes are enough.
unfoldable pub reach_loop : TaskState → ℕ → (reachable queue : List String) → Search
reach_loop task zero reachable queue = record { reachable = reachable; queue = queue }
reach_loop task (suc fuel) reachable [] = record { reachable = reachable; queue = [] }
reach_loop task (suc fuel) reachable (cur ∷ queue) =
    let s = foldl enqueue (record { reachable = reachable; queue = queue }) (next_nodes task cur) in
    reach_loop task fuel s.reachable s.queue

unfoldable pub reach_start : TaskState → List String
reach_start task = if is_some (lookup task.start task.nodes) then task.start ∷ [] else []

-- The search at its end.
unfoldable pub reach_search : TaskState → Search
reach_search task = reach_loop task (length task.nodes) (reach_start task) (reach_start task)

unfoldable pub reachable_nodes : TaskState → List String
reachable_nodes task = (reach_search task).reachable

abbrev is_terminal_entry : TaskState → String × TaskNode → Bool
is_terminal_entry task (id, node) = node.terminal || not (has_outgoing_task_edge task id)

unfoldable pub terminal_ids : TaskState → List String
terminal_ids task = keys (filter (is_terminal_entry task) task.nodes)

unfoldable pub branch_key : TaskEdge → String
branch_key edge = edge.from <> "::" <> edge.when

-- The map `branchKeys`.
unfoldable pub count_branches : Record ℕ → List TaskEdge → Record ℕ
count_branches m [] = m
count_branches m (edge ∷ edges) =
    count_branches
      (if edge.parallel
        then m
        else put (branch_key edge) (default_to 0 (lookup (branch_key edge) m) + 1) m)
      edges

unfoldable pub add_adjacent : Record (List String) → TaskEdge → Record (List String)
add_adjacent m edge =
    if edge.rework then m else put edge.from (default_to [] (lookup edge.from m) ++ edge.to ∷ []) m

-- The map `nonReworkAdj`.
unfoldable pub non_rework_adj : Record (List String) → List TaskEdge → Record (List String)
non_rework_adj m [] = m
non_rework_adj m (edge ∷ edges) = non_rework_adj (add_adjacent m edge) edges

unfoldable pub path_errors : TaskState → String × TaskNode → List GraphError
path_errors task (id, node) =
    collect (λ f. when (not (is_safe_relative_path f)) (unsafe_node_file id f)) node.allowed_files
    ++ collect (λ a. when (not (is_safe_relative_path a)) (unsafe_artifact id a))
        (node.read_artifacts ++ node.write_artifacts)

unfoldable pub branch_errors : TaskState → List GraphError
branch_errors task =
    collect (λ (kn : String × ℕ). when (ltb 1 kn.1) (ambiguous_branch kn.1 kn.0))
      (count_branches [] task.edges)

unfoldable pub cycle_errors : TaskState → List GraphError
cycle_errors task =
    when (graph_has_cycle (non_rework_adj [] task.edges) (keys task.nodes)) cycle_detected

unfoldable pub terminal_errors : TaskState → List GraphError
terminal_errors task =
    when (not (any (includes (reachable_nodes task)) (terminal_ids task))) no_terminal_reachable

unfoldable pub validate_task_graph : TaskState → GraphValidation
validate_task_graph task = record {
  errors =
      when (not (is_safe_id task.task_id)) (unsafe_task_id task.task_id)
      ++ when (not (is_some (lookup task.start task.nodes))) (missing_start task.start)
      ++ collect (λ id. when (not (is_safe_id id)) (unsafe_node_id id)) (keys task.nodes)
      ++ collect (node_errors task) task.nodes
      ++ collect (edge_errors task) task.edges
      ++ terminal_errors task
      ++ branch_errors task
      ++ cycle_errors task
      ++ collect (λ f. when (not (is_safe_relative_path f)) (unsafe_task_file task.task_id f))
          task.allowed_files
      ++ collect (path_errors task) task.nodes;
  warnings =
      collect (λ id. when (not (includes (reachable_nodes task) id)) (unreachable id task.start))
        (keys task.nodes);
}
