-- ===== src/Streaks.antt =====
-- extensions/swarm/src/hooks/streaks.ts: the watchers that the hooks share. A module-level map is an
-- association list that each operation takes and returns.
pub mod Chain
pub mod Throttle
pub mod Retry
pub mod Gate
use pi_graph_loop.Prelude.{
  ℕ, suc, ◌+◌, ◌-◌, String, Bool, true, false, Option, none, some, List, [], Record, lookup, put,
  erase, ltb, leb, default_to, if◌then◌else◌,
}

pub record SwapChain : Type 0 where
  pub count : ℕ
  pub at : ℕ

abbrev pub Chains : Type 0
Chains = Record SwapChain

abbrev pub max_swap_chain : ℕ
max_swap_chain = 2

abbrev pub swap_chain_reset_ms : ℕ
swap_chain_reset_ms = 300_000

abbrev pub pool_swap_settle_grace_ms : ℕ
pool_swap_settle_grace_ms = 30_000

-- `nowMs - at > SWAP_CHAIN_RESET_MS`.
abbrev pub is_quiet_gap : ℕ → ℕ → Bool
is_quiet_gap at now_ms = ltb (at + swap_chain_reset_ms) now_ms

abbrev pub bumped : Option SwapChain → ℕ → SwapChain
bumped chain now_ms =
    let c = default_to (record { count = 0; at = 0 }) chain in
    record { count = suc (if is_quiet_gap c.at now_ms then 0 else c.count); at = now_ms }

unfoldable pub bump_swap_chain : Chains → String → ℕ → Chains × ℕ
bump_swap_chain chains agent_id now_ms =
    let chain = bumped (lookup agent_id chains) now_ms in (put agent_id chain chains, chain.count)

abbrev pub chain_count : Option SwapChain → ℕ → ℕ
chain_count none now_ms = 0
chain_count (some c) now_ms = if is_quiet_gap c.at now_ms then 0 else c.count

unfoldable pub get_swap_chain_count : Chains → String → ℕ → ℕ
get_swap_chain_count chains agent_id now_ms = chain_count (lookup agent_id chains) now_ms

abbrev in_handoff : Option SwapChain → ℕ → Bool
in_handoff none now_ms = false
in_handoff (some c) now_ms = leb (now_ms - c.at) pool_swap_settle_grace_ms

unfoldable pub is_agent_in_pool_swap_handoff : Chains → String → ℕ → Bool
is_agent_in_pool_swap_handoff chains agent_id now_ms = in_handoff (lookup agent_id chains) now_ms

-- The cap of hooks/pool-swap.ts on the chain that `peekSwapChain` returns, reset after a quiet gap.
unfoldable pub is_swap_capped : Chains → String → ℕ → Bool
is_swap_capped chains agent_id now_ms =
    leb max_swap_chain (chain_count (lookup agent_id chains) now_ms)

-- The throttle of the operator's notice that no slot is left.
abbrev pub notify_due : Option ℕ → ℕ → Bool
notify_due none now_ms = true
notify_due (some last) now_ms = is_quiet_gap last now_ms

unfoldable pub should_notify_no_candidate : Record ℕ → String → ℕ → Bool
should_notify_no_candidate notified agent_id now_ms = notify_due (lookup agent_id notified) now_ms

unfoldable pub note_no_candidate_notified : Record ℕ → String → ℕ → Record ℕ
note_no_candidate_notified notified agent_id now_ms = put agent_id now_ms notified

-- `lastTurnStartAt`.
unfoldable pub note_turn_start : Record ℕ → String → ℕ → Record ℕ
note_turn_start starts agent_id now_ms = put agent_id now_ms starts

abbrev started_after : Option ℕ → ℕ → Bool
started_after none last_seen_at = false
started_after (some at) last_seen_at = ltb last_seen_at at

unfoldable pub has_attempt_since_incident : Record ℕ → String → ℕ → Bool
has_attempt_since_incident starts agent_id last_seen_at =
    started_after (lookup agent_id starts) last_seen_at

-- The root's edit streak, with the warning of hooks/tools.ts at every third edit.
abbrev pub bump_root_edit_streak : ℕ → ℕ
bump_root_edit_streak streak = suc streak
