-- ===== src/Gc.antt =====
-- extensions/swarm/src/agent-gc.ts: the removal of the records of stopped agents.
pub mod Safe
use pi_graph_loop.Prelude.{
  ℕ, ◌-◌, String, Bool, true, false, not, ◌&&◌, ◌||◌, Option, none, some, List, [], ◌∷◌, ◌++◌,
  Record, erase, values, any, foldl, leb, is_some, is_set, opt_eq, or_else, ◌==◌, default_to,
  if◌then◌else◌,
}
use pi_graph_loop.Types.{MessageStatus, MessageRecord, SwarmAgent, SwarmState, TaskNode}
use pi_graph_loop.Lifecycle.Transition.{is_terminal_node_status}
use pi_graph_loop.Mailbox.{is_queued, is_failed_message, is_dead}
use pi_graph_loop.Attention.Evidence.{is_stopped, is_settled_response, response_status}

abbrev pub default_stopped_older_than_ms : ℕ
default_stopped_older_than_ms = 86_400_000

abbrev pub Graphs : Type 0
Graphs = List (Record TaskNode)

-- `new Date(raw).getTime()`, `null` where there is no stamp or it is NaN.
unfoldable pub stopped_since_ms : SwarmAgent → Option ℕ
stopped_since_ms agent =
    elim (or_else agent.last_shutdown_at (or_else agent.updated_at agent.created_at)) [
      | none ↦ none
      | some at ↦ at.ms
    ]

abbrev references : String → TaskNode → Bool
references agent_id node =
    opt_eq node.assignee (some agent_id) && not (is_terminal_node_status node.status)

unfoldable pub is_task_referenced : String → Graphs → Bool
is_task_referenced agent_id graphs =
    any (λ (g : Record TaskNode). any (references agent_id) (values g)) graphs

-- `trackingActive`.
abbrev is_tracked : MessageRecord → Bool
is_tracked rec =
    is_set rec.requires_response
    && not (is_dead rec.status)
    && not (is_queued rec.status)
    && (not (is_failed_message rec.status) || is_some rec.last_ack)

-- Does this message leave a debt?
unfoldable pub owes_response : MessageRecord → Bool
owes_response rec =
    is_tracked rec && not (is_settled_response (response_status rec))
    || is_queued rec.status
    || is_failed_message rec.status

unfoldable pub has_response_debt : SwarmState → String → Bool
has_response_debt st agent_id =
    any (λ (m : MessageRecord). m.to == agent_id && owes_response m) (values st.messages)

pub record StoppedGcCandidate : Type 0 where
  pub agent_id : String
  pub age_ms : Option ℕ
  pub aged : Bool
  pub unreferenced : Bool
  pub debt_free : Bool
  pub eligible : Bool

-- `since === null ? null : Math.max(0, nowMs - since)`; `-` on ℕ stops at 0.
abbrev pub age_of : ℕ → Option ℕ → Option ℕ
age_of now_ms none = none
age_of now_ms (some since) = some (now_ms - since)

abbrev pub is_aged : ℕ → Option ℕ → Bool
is_aged min_age none = false
is_aged min_age (some age) = leb min_age age

module _ (st : SwarmState) (min_age now_ms : ℕ) (graphs : Graphs) where
  -- `eligible` is that none of the three reasons to block was pushed.
  unfoldable pub candidate : String → SwarmAgent → StoppedGcCandidate
  candidate agent_id agent =
      let age_ms = age_of now_ms (stopped_since_ms agent) in
      let aged = is_aged min_age age_ms in
      let unreferenced = not (is_task_referenced agent_id graphs) in
      let debt_free = not (has_response_debt st agent_id) in
      record {
        agent_id = agent_id;
        age_ms = age_ms;
        aged = aged;
        unreferenced = unreferenced;
        debt_free = debt_free;
        eligible = aged && unreferenced && debt_free;
      }

  unfoldable pub candidates_of : Record SwarmAgent → List StoppedGcCandidate
  candidates_of [] = []
  candidates_of ((agent_id, agent) ∷ agents) =
      if not (agent_id == "root") && is_stopped agent.status
      then candidate agent_id agent ∷ candidates_of agents
      else candidates_of agents

unfoldable pub stopped_gc_candidates : SwarmState → Option ℕ → ℕ → Graphs → List StoppedGcCandidate
stopped_gc_candidates st older_than now_ms graphs =
    candidates_of st (default_to default_stopped_older_than_ms older_than) now_ms graphs st.agents

pub record GcRun : Type 0 where
  pub st : SwarmState
  pub purged : List String
  pub blocked : List String

unfoldable pub purge_agent_ledgers : SwarmState → String → SwarmState
purge_agent_ledgers st agent_id = record st {
  taskless_nudge_state = erase agent_id st.taskless_nudge_state;
  idle_gc_nudge_state = erase agent_id st.idle_gc_nudge_state;
}

unfoldable pub purge_agent : SwarmState → String → SwarmState
purge_agent st agent_id =
    purge_agent_ledgers
      (record st { agents = erase agent_id st.agents; delivered = erase agent_id st.delivered })
      agent_id

-- The body of the loop of `applyStoppedGc`.
unfoldable pub apply_candidate : Bool → GcRun → StoppedGcCandidate → GcRun
apply_candidate dry_run run c =
    if c.eligible
    then record {
      st = if dry_run then run.st else purge_agent run.st c.agent_id;
      purged = run.purged ++ c.agent_id ∷ [];
      blocked = run.blocked;
    }
    else record run { blocked = run.blocked ++ c.agent_id ∷ [] }

unfoldable pub apply_stopped_gc : SwarmState → List StoppedGcCandidate → Bool → GcRun
apply_stopped_gc st candidates dry_run =
    foldl (apply_candidate dry_run) (record { st = st; purged = []; blocked = [] }) candidates
