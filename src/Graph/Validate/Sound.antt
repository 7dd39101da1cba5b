-- ===== src/Graph/Validate/Sound.antt =====
-- graph.ts: what a graph without validation errors is.
use pi_graph_loop.Prelude.{
  any_sound, ◌++◌, when, collect, IsNil, append-IsNil, when-IsNil, when_not-IsNil, collect-IsNil,
  String, true, not, ◌≡◌, inl, inr, refl, sym, ◌∙◌, ||-split, Option, none, some, List, [], ◌∷◌,
  lookup, keys, includes, is_some, Member, here, there, ◌==◌, eq_iff, subst,
}
use pi_graph_loop.Types.{TaskNode, TaskEdge, TaskState}
use pi_graph_loop.Graph.Cycle.Walk.{stay}
use pi_graph_loop.Graph.Cycle.Correct.{graph_has_cycle_correct}
use pi_graph_loop.Graph.Validate.{
  unsafe_artifact, GraphError, is_safe_id, is_safe_relative_path, node_errors, edge_errors,
  path_errors, branch_errors, cycle_errors, terminal_errors, terminal_ids, reachable_nodes,
  non_rework_adj, validate_task_graph, missing_start, missing_dependency, missing_from, missing_to,
  unsafe_node_id, unsafe_task_id, unsafe_task_file, unsafe_node_file,
}
use pi_graph_loop.Graph.Validate.Flow.{Reach}
use pi_graph_loop.Graph.Validate.Forward.{ForwardPath, forward-Leads, path_source}
use pi_graph_loop.Graph.Validate.Reachable.{reachable_nodes_correct}

-- What a graph without errors is.
pub record IsValid (task : TaskState) : Type 0 where
  pub safe_id : is_safe_id task.task_id ≡ true
  pub start_node : TaskNode
  pub start_exists : lookup task.start task.nodes ≡ some start_node
  pub safe_node_ids : (id : String) → Member id (keys task.nodes) → is_safe_id id ≡ true
  pub dependencies_exist :
      (id : String) (node : TaskNode) (dep : String)
      → Member (id, node) task.nodes
      → Member dep node.depends_on
      → includes (keys task.nodes) dep ≡ true
  pub sources_exist :
      (edge : TaskEdge) → Member edge task.edges → includes (keys task.nodes) edge.from ≡ true
  pub targets_exist :
      (edge : TaskEdge) → Member edge task.edges → includes (keys task.nodes) edge.to ≡ true
  pub can_end : (id : String) × Member id (terminal_ids task) × Reach task task.start id
  pub acyclic : (u : String) → ¬ ForwardPath task u u
  pub safe_task_files : (f : String) → Member f task.allowed_files → is_safe_relative_path f ≡ true
  pub safe_files :
      (id : String) (node : TaskNode) (f : String)
      → Member (id, node) task.nodes
      → Member f node.allowed_files
      → is_safe_relative_path f ≡ true
  pub safe_artifacts :
      (id : String) (node : TaskNode) (a : String)
      → Member (id, node) task.nodes
      → Member a (node.read_artifacts ++ node.write_artifacts)
      → is_safe_relative_path a ≡ true

-- The errors that the whole list ends with, one group after the other.
record NoErrors (task : TaskState) : Type 0 where
  task_id : IsNil (when (not (is_safe_id task.task_id)) (unsafe_task_id task.task_id))
  missing : IsNil (when (not (is_some (lookup task.start task.nodes))) (missing_start task.start))
  ids : IsNil (collect (λ id. when (not (is_safe_id id)) (unsafe_node_id id)) (keys task.nodes))
  nodes : IsNil (collect (node_errors task) task.nodes)
  edges : IsNil (collect (edge_errors task) task.edges)
  terminal : IsNil (terminal_errors task)
  branch : IsNil (branch_errors task)
  cycle : IsNil (cycle_errors task)
  files : IsNil (
      collect
        (λ f. when (not (is_safe_relative_path f)) (unsafe_task_file task.task_id f))
        task.allowed_files)
  paths : IsNil (collect (path_errors task) task.nodes)

no_errors : (task : TaskState) → IsNil (validate_task_graph task).errors → NoErrors task
unfolding validate_task_graph
no_errors task h =
    let (h8, m) = append-IsNil _ _ h in
    let (h7, l) = append-IsNil _ _ h8 in
    let (h6, k) = append-IsNil _ _ h7 in
    let (h5, g) = append-IsNil _ _ h6 in
    let (h4, f) = append-IsNil _ _ h5 in
    let (h3, e) = append-IsNil _ _ h4 in
    let (h2, d) = append-IsNil _ _ h3 in
    let (h1, c) = append-IsNil _ _ h2 in
    let (a, b) = append-IsNil _ _ h1 in
    record {
      task_id = a;
      missing = b;
      ids = c;
      nodes = d;
      edges = e;
      terminal = f;
      branch = g;
      cycle = k;
      files = l;
      paths = m;
    }

member_of_includes : (xs : List String) (k : String) → includes xs k ≡ true → Member k xs
unfolding includes
member_of_includes [] k h = cc h
member_of_includes (x ∷ xs) k h = elim (||-split (x == k) (includes xs k) h) [
  | inl e ↦ here (sym ((eq_iff x k).0 e))
  | inr later ↦ there (member_of_includes xs k later)
]

module _ (task : TaskState) where
  edge_ends :
      (edge : TaskEdge)
      → IsNil (collect (edge_errors task) task.edges)
      → Member edge task.edges
      → (includes (keys task.nodes) edge.from ≡ true) × (includes (keys task.nodes) edge.to ≡ true)
  unfolding edge_errors
  edge_ends edge h m =
      let (f, t) = append-IsNil _ _ (collect-IsNil (edge_errors task) task.edges h m) in
      (when_not-IsNil _ (missing_from edge.from) f, when_not-IsNil _ (missing_to edge.to) t)

  dependency :
      (id : String) (node : TaskNode) (dep : String)
      → IsNil (collect (node_errors task) task.nodes)
      → Member (id, node) task.nodes
      → Member dep node.depends_on
      → includes (keys task.nodes) dep ≡ true
  unfolding node_errors
  dependency id node dep h m k =
      let (d, _) = append-IsNil _ _ (collect-IsNil (node_errors task) task.nodes h m) in
      when_not-IsNil _ (missing_dependency id dep) (
        collect-IsNil
          (λ (x : String). when (not (includes (keys task.nodes) x)) (missing_dependency id x))
          node.depends_on d k)

  safe_file :
      (id : String) (node : TaskNode) (f : String)
      → IsNil (collect (path_errors task) task.nodes)
      → Member (id, node) task.nodes
      → Member f node.allowed_files
      → is_safe_relative_path f ≡ true
  unfolding path_errors
  safe_file id node f h m k =
      let (d, _) = append-IsNil _ _ (collect-IsNil (path_errors task) task.nodes h m) in
      when_not-IsNil _ (unsafe_node_file id f) (
        collect-IsNil (λ (x : String). when (not (is_safe_relative_path x)) (unsafe_node_file id x))
          node.allowed_files d k)

  safe_artifact :
      (id : String) (node : TaskNode) (f : String)
      → IsNil (collect (path_errors task) task.nodes)
      → Member (id, node) task.nodes
      → Member f (node.read_artifacts ++ node.write_artifacts)
      → is_safe_relative_path f ≡ true
  unfolding path_errors
  safe_artifact id node f h m k =
      let (_, d) = append-IsNil _ _ (collect-IsNil (path_errors task) task.nodes h m) in
      when_not-IsNil _ (unsafe_artifact id f) (
        collect-IsNil (λ (x : String). when (not (is_safe_relative_path x)) (unsafe_artifact id x))
          (node.read_artifacts ++ node.write_artifacts) d k)

  no_forward_cycle :
      IsNil (cycle_errors task)
      → ((edge : TaskEdge) → Member edge task.edges → includes (keys task.nodes) edge.from ≡ true)
      → (u : String) → ¬ ForwardPath task u u
  unfolding cycle_errors
  no_forward_cycle h ends u p =
      elim (graph_has_cycle_correct (non_rework_adj [] task.edges) (keys task.nodes)) [
        | inl (_, found, _) ↦ cc (sym found ∙ when-IsNil _ GraphError.cycle_detected h)
        | inr (_, _, none_found) ↦
            let (edge, m, e) = path_source task u u p in
            none_found u u
              (member_of_includes (keys task.nodes) u
                (subst (λ x. includes (keys task.nodes) x ≡ true) e (ends edge m)))
              stay (forward-Leads task u u p)
      ]

  reaches_end :
      (node : TaskNode)
      → lookup task.start task.nodes ≡ some node
      → IsNil (terminal_errors task)
      → (id : String) × Member id (terminal_ids task) × Reach task task.start id
  unfolding terminal_errors
  reaches_end node e h =
      let (id, m, r) =
        any_sound (includes (reachable_nodes task)) (terminal_ids task)
          (when_not-IsNil _ GraphError.no_terminal_reachable h) in
      (id, m, ((reachable_nodes_correct task node e).1 id).0 r)

-- A graph for which `validateTaskGraph` reports no error has safe ids and paths, a start node, no
-- dependency or edge end outside its nodes, a terminal node that flow leads to from the start, and no
-- cycle over edges that are not marked as rework.
pub validate_task_graph-IsValid :
    (task : TaskState) → (validate_task_graph task).errors ≡ [] → IsValid task
validate_task_graph-IsValid task h =
    let n = no_errors task h in
    let (node, e) =
      start_of (lookup task.start task.nodes)
        (when_not-IsNil _ (missing_start task.start) n.missing) in
    record {
      safe_id = when_not-IsNil _ (unsafe_task_id task.task_id) n.task_id;
      start_node = node;
      start_exists = e;
      safe_node_ids = λ id m. when_not-IsNil _ (unsafe_node_id id) (
          collect-IsNil (λ (x : String). when (not (is_safe_id x)) (unsafe_node_id x))
            (keys task.nodes) n.ids m);
      dependencies_exist = λ id node dep. dependency task id node dep n.nodes;
      sources_exist = λ edge m. (edge_ends task edge n.edges m).0;
      targets_exist = λ edge m. (edge_ends task edge n.edges m).1;
      can_end = reaches_end task node e n.terminal;
      acyclic = no_forward_cycle task n.cycle (λ edge m. (edge_ends task edge n.edges m).0);
      safe_task_files = λ f m. when_not-IsNil _ (unsafe_task_file task.task_id f) (
          collect-IsNil
            (λ (x : String). when (not (is_safe_relative_path x)) (unsafe_task_file task.task_id x))
            task.allowed_files n.files m);
      safe_files = λ id node f. safe_file task id node f n.paths;
      safe_artifacts = λ id node a. safe_artifact task id node a n.paths;
    }
  where
    start_of : (o : Option TaskNode) → is_some o ≡ true → (node : TaskNode) × (o ≡ some node)
    start_of none h = cc h
    start_of (some node) h = (node, refl)
