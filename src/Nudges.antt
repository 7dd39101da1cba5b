-- ===== src/Nudges.antt =====
-- extensions/swarm/src/nudges: status-predicates.ts, and of goal-epoch.ts who is alive and idle.
pub mod Idle
use pi_graph_loop.Prelude.{
  ℕ, ◌-◌, String, Bool, true, false, not, ◌&&◌, ◌||◌, Option, none, some, List, [], ◌∷◌, any, all,
  filter, values, leb, is_nil, is_some, ◌==◌, if◌then◌else◌,
}
use pi_graph_loop.Types.{AgentStatus, RuntimeStatus, TaskStatus, SwarmAgent, SwarmState, Stamp}

abbrev pub is_actionable_task_status : TaskStatus → Bool
is_actionable_task_status TaskStatus.ready = true
is_actionable_task_status TaskStatus.in_progress = true
is_actionable_task_status _ = false

abbrev pub is_recoverable_task_status : TaskStatus → Bool
is_recoverable_task_status TaskStatus.failed = true
is_recoverable_task_status _ = false

abbrev pub is_stall_nudge_eligible_task_status : TaskStatus → Bool
is_stall_nudge_eligible_task_status s = is_actionable_task_status s || is_recoverable_task_status s

abbrev pub is_terminal_or_abandoned_task_status : TaskStatus → Bool
is_terminal_or_abandoned_task_status TaskStatus.failed = true
is_terminal_or_abandoned_task_status TaskStatus.cancelled = true
is_terminal_or_abandoned_task_status TaskStatus.blocked = true
is_terminal_or_abandoned_task_status _ = false

-- The windows of the environment or constants.ts.
pub record Windows : Type 0 where
  pub alive_heartbeat_ms : ℕ
  pub boot_grace_ms : ℕ

-- `Number.isFinite(t) && nowMs - t <= window` of a date that is there.
abbrev pub is_fresh_at : ℕ → ℕ → Option Stamp → Bool
is_fresh_at now_ms window none = false
is_fresh_at now_ms window (some at) = elim at.ms [ none ↦ false | some t ↦ leb (now_ms - t) window ]

abbrev pub is_true : Option Bool → Bool
is_true (some true) = true
is_true _ = false

abbrev pub is_false : Option Bool → Bool
is_false (some false) = true
is_false _ = false

abbrev pub is_running : AgentStatus → Bool
is_running AgentStatus.running = true
is_running _ = false

abbrev pub is_runtime_stopped : RuntimeStatus → Bool
is_runtime_stopped RuntimeStatus.stopped = true
is_runtime_stopped _ = false

abbrev pub is_idle : RuntimeStatus → Bool
is_idle RuntimeStatus.idle = true
is_idle _ = false

abbrev pub is_settled_or_tool : RuntimeStatus → Bool
is_settled_or_tool RuntimeStatus.idle = true
is_settled_or_tool RuntimeStatus.tool_running = true
is_settled_or_tool _ = false

unfoldable pub agent_is_effectively_alive : Windows → SwarmAgent → ℕ → Bool
agent_is_effectively_alive w a now_ms =
    is_running a.status
    && not (is_false a.tmux_alive)
    && not (is_runtime_stopped a.runtime_status)
    && (is_true a.tmux_alive && is_settled_or_tool a.runtime_status
        || is_fresh_at now_ms w.alive_heartbeat_ms a.last_heartbeat_at
        || not (is_some a.last_heartbeat_at) && is_fresh_at now_ms w.boot_grace_ms a.created_at)

unfoldable pub effective_agents : Windows → SwarmState → ℕ → List SwarmAgent
effective_agents w st now_ms =
    filter (λ (a : SwarmAgent). not (a.id == "root") && agent_is_effectively_alive w a now_ms)
      (values st.agents)

pub record EffectiveIdle : Type 0 where
  pub idle_agents : List SwarmAgent
  pub all_idle : Bool
  pub vacuous : Bool

abbrev pub has_pointer : SwarmAgent → Bool
has_pointer a = is_idle a.runtime_status && not (is_nil a.active_task_ids)

unfoldable pub idle_of : List SwarmAgent → EffectiveIdle
idle_of agents =
    if is_nil agents
    then record { idle_agents = agents; all_idle = false; vacuous = true }
    else if not (is_nil (filter has_pointer agents))
    then record { idle_agents = agents; all_idle = false; vacuous = false }
    else record {
      idle_agents = agents;
      all_idle = all (λ (a : SwarmAgent). is_idle a.runtime_status) agents;
      vacuous = false;
    }

unfoldable pub all_effective_idle_agents : Windows → SwarmState → ℕ → EffectiveIdle
all_effective_idle_agents w st now_ms = idle_of (effective_agents w st now_ms)
