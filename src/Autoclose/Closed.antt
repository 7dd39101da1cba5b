-- ===== src/Autoclose/Closed.antt =====
-- evidence.ts: `autoCloseRootTerminalNodes` ends, and closes only nodes that it may close.
use pi_graph_loop.Prelude.{
  ℕ, suc, String, true, ◌≡◌, ◌⊎◌, Option, some, [], ◌∷◌, Record, lookup, modify, if◌then◌else◌,
}
use pi_graph_loop.Types.{TaskNode, TaskState, Stamp}
use pi_graph_loop.Graph.Readiness.{is_pending, is_graph_terminal_node}
use pi_graph_loop.Autoclose.{GitEvidence, CloseRun, is_root_kind, close_node}

-- The nodes that are pending.
unfoldable pending_count : Record TaskNode → ℕ
pending_count [] = 0
pending_count ((id, node) ∷ nodes) =
    if is_pending node.status then suc (pending_count nodes) else pending_count nodes

module _ (now : Stamp) (git : ℕ → GitEvidence) where
  -- What the run did to a node: nothing, or it closed a pending terminal node of root kind.
  pub record WasClosed (from to : TaskState) (id : String) : Type 0 where
    pub node : TaskNode
    pub found : lookup id from.nodes ≡ some node
    pub pending : is_pending node.status ≡ true
    pub root_kind : is_root_kind id node ≡ true
    pub terminal : is_graph_terminal_node from id ≡ true
    pub now_closed : lookup id to.nodes ≡ some (close_node now git node)

  abbrev Treated : TaskState → TaskState → String → Type 0
  Treated from to id = (lookup id to.nodes ≡ lookup id from.nodes) ⊎ WasClosed from to id

  abbrev after : String → TaskState → TaskState
  after c task = record task { nodes = modify c (close_node now git) task.nodes }

  -- A run that ended, and treated every node in one of the two ways.
  abbrev pub Ends : TaskState → Option CloseRun → Type 0
  Ends from r = (run : CloseRun) × (r ≡ some run) × ((id : String) → Treated from run.task id)
