-- ===== src/Lifecycle/Attempt.antt =====
-- lifecycle.ts: the minting of attempts, and the release of what a node holds.
pub mod Lease
pub mod Mint
use pi_graph_loop.Prelude.{
  String, Bool, true, false, not, ◌&&◌, Option, none, some, [], ◌∷◌, ◌++◌, lookup, put, modify,
  Record, filter, map, foldl, default_to, or_else, opt_eq, ◌==◌, if◌then◌else◌, is_truthy,
}
use pi_graph_loop.Types.{
  TaskNodeStatus, AttemptStatus, ReleaseReason, TaskGateStatus, TaskNodeAttempt, TaskNode, TaskGate,
  TaskState, EditLock, ResolvedScope, SwarmState, SwarmAgent, Stamp, is_active,
}
use pi_graph_loop.Graph.Rework.{prior_attempt, with_prior_attempt}
use pi_graph_loop.Scope.Resolve.{EffectiveScope, resolved, unresolved}
use pi_graph_loop.Agents.Role.{ensure_agent_defaults}

pub record Minted : Type 0 where
  pub node : TaskNode
  pub attempt_id : String
  pub created : Bool

-- Neither `pending`, `ready` nor `blocked`.
abbrev is_past_assignment : TaskNodeStatus → Bool
is_past_assignment TaskNodeStatus.pending = false
is_past_assignment TaskNodeStatus.ready = false
is_past_assignment TaskNodeStatus.blocked = false
is_past_assignment _ = true

-- The other conditions of `sameActiveAssignment`, on the attempt that the node names.
abbrev pub still_held : TaskNode → String → Option TaskNodeAttempt → Option TaskNodeAttempt
still_held node assignee none = none
still_held node assignee (some a) =
    if is_past_assignment node.status && opt_eq node.assignee (some assignee) && is_active a.status
    then some a
    else none

-- `sameActiveAssignment`, with the attempt that it is about.
unfoldable pub same_active_assignment : TaskNode → String → Option TaskNodeAttempt
unfolding prior_attempt
same_active_assignment node assignee = still_held node assignee (prior_attempt node)

-- Unresolved inheritance is not stamped.
abbrev stamped_scope : EffectiveScope → Option ResolvedScope
stamped_scope (resolved s) = some s
stamped_scope (unresolved _) = none

module _ (now : Stamp) where
  unfoldable pub supersede_by_mint : String → TaskNodeAttempt → TaskNodeAttempt
  supersede_by_mint attempt_id prior =
      if is_active prior.status
      then record prior {
        status = AttemptStatus.superseded;
        superseded_at = some now;
        superseded_by = some attempt_id;
        released_at = or_else prior.released_at (some now);
        release_reason = some ReleaseReason.reassign;
      }
      else prior

  abbrev pub new_attempt : TaskNode → String → String → EffectiveScope → TaskNodeAttempt
  new_attempt node assignee attempt_id scope = record {
    attempt_id = attempt_id;
    attempt_number = node.attempts;
    assignment_message_id = "";
    assignee = assignee;
    assigned_at = some now;
    superseded_at = none;
    superseded_by = none;
    status = AttemptStatus.active;
    outcome = none;
    last_activity_at = some now;
    released_at = none;
    release_reason = none;
    reminder = none;
    scope = stamped_scope scope;
  }

  -- A genuine assignment: `attempt_id` is the identity that the source draws at random.
  unfoldable mint_fresh : TaskNode → String → String → EffectiveScope → TaskNode
  unfolding with_prior_attempt supersede_by_mint
  mint_fresh node assignee attempt_id scope =
      let marked = with_prior_attempt (supersede_by_mint attempt_id) node in
      record marked {
        attempt_history = some (
            default_to [] marked.attempt_history
            ++ new_attempt node assignee attempt_id scope ∷ []);
        active_attempt_id = some attempt_id;
      }

  abbrev pub touch : TaskNodeAttempt → TaskNodeAttempt
  touch a = record a { last_activity_at = some now }

  -- The duplicate that was detected, or none.
  unfoldable pub mint_or_reuse :
      Option TaskNodeAttempt → TaskNode → String → String → EffectiveScope → Minted
  unfolding mint_fresh with_prior_attempt
  mint_or_reuse (some a) node assignee attempt_id scope = record {
    node = with_prior_attempt touch node;
    attempt_id = a.attempt_id;
    created = false;
  }
  mint_or_reuse none node assignee attempt_id scope = record {
    node = mint_fresh node assignee attempt_id scope;
    attempt_id = attempt_id;
    created = true;
  }

  unfoldable pub mint_node_attempt : TaskNode → String → String → EffectiveScope → Minted
  unfolding same_active_assignment mint_or_reuse
  mint_node_attempt node assignee attempt_id scope =
      mint_or_reuse (same_active_assignment node assignee) node assignee attempt_id scope

-- `activeTaskIds.filter((t) => t !== taskId)`, after `ensureAgentDefaults`.
unfoldable drop_task : String → SwarmAgent → SwarmAgent
unfolding ensure_agent_defaults
drop_task task_id agent =
    let a = ensure_agent_defaults agent in
    record a { active_task_ids = filter (λ t. not (t == task_id)) a.active_task_ids }

-- done, failed, blocked, skipped or cancelled.
abbrev is_terminalish : TaskNodeStatus → Bool
is_terminalish TaskNodeStatus.done = true
is_terminalish TaskNodeStatus.failed = true
is_terminalish TaskNodeStatus.blocked = true
is_terminalish TaskNodeStatus.skipped = true
is_terminalish TaskNodeStatus.cancelled = true
is_terminalish _ = false

abbrev drop_locks : String → Record EditLock → Record EditLock
drop_locks node_id locks =
    filter (λ (entry : String × EditLock). not (entry.1.node_id == node_id)) locks

abbrev release_from : SwarmState → TaskState → String → TaskNode → SwarmState × TaskState
unfolding drop_task modify
release_from st task node_id node = elim node.assignee [
  | none ↦ (st, task)
  | some id ↦
      if is_terminalish node.status
      then (
        record st { agents = modify id (drop_task task.task_id) st.agents },
        record task { edit_locks = drop_locks node_id task.edit_locks },
      )
      else (st, task)
]

unfoldable release_node_assignment : SwarmState → TaskState → String → SwarmState × TaskState
unfolding drop_task modify lookup
release_node_assignment st task node_id = elim (lookup node_id task.nodes) [
  | none ↦ (st, task)
  | some node ↦ release_from st task node_id node
]

unfoldable release_task_from_all_agents : SwarmState → String → SwarmState
unfolding drop_task
release_task_from_all_agents st task_id = record st {
  agents = map (λ (e : String × SwarmAgent). (e.0, drop_task task_id e.1)) st.agents;
}

-- assigned or in_progress.
abbrev pub is_open_assignment : TaskNodeStatus → Bool
is_open_assignment TaskNodeStatus.assigned = true
is_open_assignment TaskNodeStatus.in_progress = true
is_open_assignment _ = false

-- `workerAgentId && node.assignee !== workerAgentId`.
abbrev is_other_worker : Option String → TaskNode → Bool
is_other_worker none node = false
is_other_worker (some worker) node = is_truthy worker && not (opt_eq node.assignee (some worker))

abbrev stamp_progress : Stamp → TaskNode → TaskNode
stamp_progress ts node = record node { last_progress_at = some ts; stale_open_surfaced_at = none }

unfoldable ensure_node_activity_stamp :
    TaskState → String → Stamp → Option String → TaskState × Bool
unfolding lookup modify
ensure_node_activity_stamp task node_id ts worker = elim (lookup node_id task.nodes) [
  | none ↦ (task, false)
  | some node ↦
      if is_open_assignment node.status && not (is_other_worker worker node)
      then (record task { nodes = modify node_id (stamp_progress ts) task.nodes }, true)
      else (task, false)
]

-- An update of a gate; `artifact` is absent, or present and possibly null.
pub record GateUpdate : Type 0 where
  pub status : TaskGateStatus
  pub by : Option String
  pub artifact : Option (Option String)

unfoldable apply_gate_update : String → Record TaskGate → String × GateUpdate → Record TaskGate
unfolding lookup put
apply_gate_update by gates (name, upd) =
    let prev =
      default_to (record { status = TaskGateStatus.opened; by = none; artifact = none })
        (lookup name gates) in
    put name
      (record {
        status = upd.status;
        by = or_else upd.by (some by);
        artifact = default_to prev.artifact upd.artifact;
      })
      gates

unfoldable apply_gate_updates : TaskState → Record GateUpdate → String → TaskState
unfolding apply_gate_update
apply_gate_updates task updates by = record task {
  gates = foldl (apply_gate_update by) task.gates updates;
}
