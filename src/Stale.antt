-- ===== src/Stale.antt =====
-- extensions/swarm/src/taskgraph/stale.ts: the scan for nodes that are assigned and make no progress,
-- and the nudge for a node that the scan surfaced.

pub mod Surfaced
use pi_graph_loop.Prelude.{
  ℕ, suc, ◌+◌, ◌-◌, max, String, Bool, true, false, not, ◌&&◌, ◌||◌, Option, none, some, List, [],
  ◌∷◌, ◌++◌, Record, lookup, ltb, leb, nat_eq, if◌then◌else◌,
}
use pi_graph_loop.Types.{
  stamp_at, AgentStatus, RuntimeStatus, TaskNodeStatus, SwarmAgent, SwarmState, TaskNode, TaskState,
  Stamp,
}

-- `at ? new Date(at).getTime() : 0`; `none` is NaN.
abbrev pub time_of : Option Stamp → Option ℕ
time_of none = some 0
time_of (some at) = at.ms

-- `nowMs - t <= limit`, false where `t` is NaN; a `t` ahead of the clock is within any limit.
abbrev pub is_within : ℕ → ℕ → Option ℕ → Bool
is_within now_ms limit none = false
is_within now_ms limit (some t) = leb (now_ms - t) limit

-- `t && nowMs - t <= limit`.
abbrev pub is_recent : ℕ → ℕ → Option ℕ → Bool
is_recent now_ms limit none = false
is_recent now_ms limit (some t) = not (nat_eq t 0) && leb (now_ms - t) limit

abbrev pub heartbeat_stale_ms : ℕ
heartbeat_stale_ms = 600_000

abbrev pub default_stale_open_threshold_ms : ℕ
default_stale_open_threshold_ms = 30_000

abbrev pub is_running : AgentStatus → Bool
is_running AgentStatus.running = true
is_running _ = false

abbrev settled_recently : ℕ → ℕ → Option Stamp → Bool
settled_recently now_ms threshold none = false
settled_recently now_ms threshold (some at) = is_recent now_ms threshold at.ms

-- The tests on `runtimeStatus`, of which one applies at most.
abbrev is_engaged : ℕ → ℕ → SwarmAgent → RuntimeStatus → Bool
is_engaged now_ms threshold a RuntimeStatus.tool_running = true
is_engaged now_ms threshold a RuntimeStatus.busy =
    is_within now_ms heartbeat_stale_ms (time_of a.last_heartbeat_at)
is_engaged now_ms threshold a RuntimeStatus.idle =
    settled_recently now_ms threshold a.last_agent_settled_at
is_engaged now_ms threshold a _ = false

-- The active worker gate, for an agent record.
unfoldable pub is_working : ℕ → ℕ → SwarmAgent → Bool
is_working now_ms threshold a =
    is_running a.status && is_engaged now_ms threshold a a.runtime_status

abbrev found_working : ℕ → ℕ → Option SwarmAgent → Bool
found_working now_ms threshold none = false
found_working now_ms threshold (some a) = is_working now_ms threshold a

-- `node.assignee ? st.agents[node.assignee] : undefined`, and the gate.
unfoldable pub assignee_working : SwarmState → ℕ → ℕ → Option String → Bool
assignee_working st now_ms threshold none = false
assignee_working st now_ms threshold (some id) =
    found_working now_ms threshold (lookup id st.agents)

abbrev pub is_held : TaskNodeStatus → Bool
is_held TaskNodeStatus.assigned = true
is_held TaskNodeStatus.in_progress = true
is_held _ = false

-- `Math.max(progress, activity)`, NaN where one of them is.
abbrev max_time : Option ℕ → Option ℕ → Option ℕ
max_time (some a) (some b) = some (max a b)
max_time _ _ = none

abbrev pub anchor_ms : TaskNode → Option ℕ
anchor_ms node = max_time (time_of node.last_progress_at) (time_of node.last_activity_at)

-- `staleAtMs <= thresholdMs`, where `staleAtMs` is infinite without an anchor.
unfoldable pub is_fresh : ℕ → ℕ → TaskNode → Bool
is_fresh now_ms threshold node = is_recent now_ms threshold (anchor_ms node)

unfoldable pub is_surfaced : ℕ → ℕ → TaskNode → Bool
is_surfaced now_ms threshold node = is_recent now_ms threshold (time_of node.stale_open_surfaced_at)

pub record SurfacedNode : Type 0 where
  pub task_id : String
  pub node_id : String
  pub assignee : Option String

-- The counters of the scan.
pub record Tally : Type 0 where
  pub surfaced : ℕ
  pub inspected : ℕ
  pub already_surfaced : ℕ
  pub surfaced_nodes : List SurfacedNode

module _ (iso : ℕ → String) (st : SwarmState) (now_ms threshold : ℕ) where
  -- The node is stamped and pushed.
  unfoldable pub surface : String → String → TaskNode → Tally → TaskNode × Tally
  surface task_id node_id node tally = (
    record node { stale_open_surfaced_at = some (stamp_at iso now_ms) },
    record tally {
      surfaced = suc tally.surfaced;
      surfaced_nodes =
          tally.surfaced_nodes
          ++ record { task_id = task_id; node_id = node_id; assignee = node.assignee } ∷ [];
    },
  )

  -- The body of the loop, after `inspected++`.
  unfoldable pub inspect : String → String → TaskNode → Tally → TaskNode × Tally
  inspect task_id node_id node tally =
      if is_fresh now_ms threshold node
      then (node, tally)
      else if is_surfaced now_ms threshold node
      then (node, record tally { already_surfaced = suc tally.already_surfaced })
      else surface task_id node_id node tally

  -- The body of the loop over `Object.entries(task.nodes)`.
  unfoldable pub scan_node : String → String → TaskNode → Tally → TaskNode × Tally
  scan_node task_id node_id node tally =
      if is_held node.status && not (assignee_working st now_ms threshold node.assignee)
      then inspect task_id node_id node (record tally { inspected = suc tally.inspected })
      else (node, tally)

  unfoldable pub scan_nodes : String → Record TaskNode → Tally → Record TaskNode × Tally
  scan_nodes task_id [] tally = ([], tally)
  scan_nodes task_id ((id, node) ∷ nodes) tally =
      let (scanned, counted) = scan_node task_id id node tally in
      let (rest, total) = scan_nodes task_id nodes counted in ((id, scanned) ∷ rest, total)

  -- The loop over the task folders; a file that cannot be read is passed over. `writeTaskState` writes
  -- what changed, so the tasks are the files after the scan.
  unfoldable pub scan_tasks : List (Option TaskState) → Tally → List (Option TaskState) × Tally
  scan_tasks [] tally = ([], tally)
  scan_tasks (none ∷ tasks) tally =
      let (rest, total) = scan_tasks tasks tally in (none ∷ rest, total)
  scan_tasks (some task ∷ tasks) tally =
      let (nodes, counted) = scan_nodes task.task_id task.nodes tally in
      let (rest, total) = scan_tasks tasks counted in
      (some (record task { nodes = nodes }) ∷ rest, total)

  -- `staleOpenAssignmentScanLocked`.
  unfoldable pub stale_open_assignment_scan :
      List (Option TaskState) → List (Option TaskState) × Tally
  stale_open_assignment_scan tasks =
      scan_tasks tasks
        (record { surfaced = 0; inspected = 0; already_surfaced = 0; surfaced_nodes = [] })
