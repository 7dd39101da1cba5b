-- ===== src/Scope/Resolve.antt =====
-- scope.ts: the effective write scope of a node.
pub mod Chain
use pi_graph_loop.Prelude.{
  is_nil, ℕ, zero, suc, String, Bool, true, false, Option, none, some, List, [], ◌∷◌, ◌<>◌, lookup,
  includes, set_add, length, if◌then◌else◌,
}
use pi_graph_loop.Types.{TaskNode, TaskState, ScopeSource, ResolvedScope}

pub data EffectiveScope : Type 0 where
  resolved : ResolvedScope → EffectiveScope
  unresolved : (reason : String) → EffectiveScope

abbrev missing_reason : String → String → String
missing_reason cur node_id =
    "node " <> cur <> " does not exist (inheritance chain from " <> node_id <> ")"

abbrev cycle_reason : String → String → String
cycle_reason cur node_id = "allowedFilesFrom cycle at " <> cur <> " in chain from " <> node_id

abbrev scope_of : Option String → List String → EffectiveScope
scope_of none files =
    resolved (record { source = ScopeSource.node_explicit; source_node_id = none; files = files })
scope_of (some id) files =
    resolved
      (record { source = ScopeSource.node_inherited; source_node_id = some id; files = files })

-- One round of the `for (;;)`: the scope, or the set `seen` and the node to go on with. `source`
-- is "node-inherited" exactly when `sourceNodeId` is set, so the latter stands for both.
pub data Round : Type 0 where
  returned : EffectiveScope → Round
  continued : (seen : List String) (cur : String) → Round

module _ (task : TaskState) (node_id : String) (seen : List String) (cur : String) where
  unfoldable pub inherit_round : Option String → Round
  inherit_round none = returned (
      resolved (record {
        source = ScopeSource.task_default;
        source_node_id = none;
        files = task.allowed_files;
      }))
  inherit_round (some from) =
      if includes seen cur
      then returned (unresolved (cycle_reason cur node_id))
      else continued (set_add seen cur) from

  unfoldable pub round_at : Option String → Option TaskNode → Round
  round_at source none = returned (unresolved (missing_reason cur node_id))
  round_at source (some node) =
      if is_nil node.allowed_files
      then inherit_round node.allowed_files_from
      else returned (scope_of source node.allowed_files)

unfoldable pub resolve_round : TaskState → String → List String → String → Option String → Round
resolve_round task node_id seen cur source =
    round_at task node_id seen cur source (lookup cur task.nodes)

-- What follows a round, `go` being the rest of the loop.
abbrev pub after_round :
    (List String → String → Option String → Option EffectiveScope) → Round → Option EffectiveScope
after_round go (returned scope) = some scope
after_round go (continued seen cur) = go seen cur (some cur)

-- `none` is the model's fuel.
unfoldable pub resolve_loop :
    TaskState → String → ℕ → List String → String → Option String → Option EffectiveScope
resolve_loop task node_id zero seen cur source = none
resolve_loop task node_id (suc fuel) seen cur source =
    after_round (resolve_loop task node_id fuel) (resolve_round task node_id seen cur source)

-- Each round but the last puts one more node of the task into `seen`.
unfoldable pub resolve_node_scope : TaskState → String → Option EffectiveScope
resolve_node_scope task node_id =
    resolve_loop task node_id (suc (length task.nodes)) [] node_id none
