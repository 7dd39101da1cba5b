-- ===== src/Autoclose.antt =====
-- taskgraph/evidence.ts: `autoCloseRootTerminalNodes`. What git says is a parameter, one answer per call
-- of `resolveCommitNodeEvidence`.
pub mod Closed
use pi_graph_loop.Prelude.{
  ℕ, zero, suc, String, Bool, true, false, ◌&&◌, Option, none, some, List, [], ◌∷◌, ◌++◌, find,
  length, ◌==◌, Record, lookup, modify, put, or_else, if◌then◌else◌,
}
use pi_graph_loop.Types.{TaskNodeStatus, TaskNode, TaskState, Stamp}
use pi_graph_loop.Agents.Role.{infer_role_kind}
use pi_graph_loop.Graph.Readiness.{is_pending, compute_ready_nodes, is_graph_terminal_node}

pub record GitEvidence : Type 0 where
  pub verified : Bool
  pub reason : String
  pub baseline : Option String
  pub head : Option String

-- An entry of `task.evidence`; its status is "verified" or "unverified".
pub record CommitRecord : Type 0 where
  pub git : GitEvidence
  pub at : Stamp
  pub node_id : String

pub record CloseRun : Type 0 where
  pub task : TaskState
  pub evidence : Record CommitRecord
  pub closed : List String

abbrev pub is_root_kind : String → TaskNode → Bool
is_root_kind id node = infer_role_kind id node.role == "root"

unfoldable pub is_closable : TaskState → String → Bool
is_closable task id = elim (lookup id task.nodes) [
  | none ↦ false
  | some node ↦ is_pending node.status && is_root_kind id node && is_graph_terminal_node task id
]

module _ (now : Stamp) (git : ℕ → GitEvidence) where
  unfoldable pub close_node : TaskNode → TaskNode
  close_node node = record node {
    assignee = or_else node.assignee (some "root");
    status = TaskNodeStatus.done;
    last_activity_at = some now;
  }

  unfoldable pub close : String → CloseRun → CloseRun
  close id run = record run {
    task = record run.task { nodes = modify id close_node run.task.nodes };
    closed = run.closed ++ id ∷ [];
  }

  unfoldable pub record_evidence : ℕ → String → CloseRun → CloseRun
  record_evidence call id run = record run {
    evidence = put id (record { git = git call; at = now; node_id = id }) run.evidence;
  }

  -- A candidate always passes the test `isCommitLike`, which repeats two of its three conditions.
  -- The rest of a round once the candidate was looked for; `go` is the next round.
  unfoldable pub close_candidate :
      (ℕ → CloseRun → Option CloseRun) → ℕ → CloseRun → Option String → Option CloseRun
  close_candidate go call run none = some run
  close_candidate go call run (some id) =
      if (git call).verified
      then go (suc call) (close id (record_evidence call id run))
      else some (record_evidence call id run)

  -- `none` is the model's fuel.
  unfoldable pub auto_close : ℕ → ℕ → CloseRun → Option CloseRun
  auto_close zero call run = none
  auto_close (suc fuel) call run =
      close_candidate (auto_close fuel) call run
        (find (is_closable run.task) (compute_ready_nodes run.task).ready)

  -- The `for (;;)`. Each round but the last closes a pending node.
  unfoldable pub auto_close_root_terminal_nodes : TaskState → Option CloseRun
  auto_close_root_terminal_nodes task =
      auto_close (suc (length task.nodes)) 0 (record { task = task; evidence = []; closed = [] })
