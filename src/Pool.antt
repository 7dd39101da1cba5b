-- ===== src/Pool.antt =====
-- extensions/swarm/src/pool.ts: the choice of a model slot, the health of slots and the probe rounds.
-- The configuration is an argument; the lock and the files are left out.
pub mod Pick
pub mod Health
pub mod Probe
use pi_graph_loop.Prelude.{
  ℕ, ◌<◌, String, Bool, true, false, not, ◌&&◌, ◌||◌, Option, none, some, List, [], ◌∷◌, Record,
  lookup, ltb, default_to, ◌==◌, ◌<>◌, is_nil, is_truthy, includes, if◌then◌else◌,
}
use pi_graph_loop.Types.{ModelSlot, PoolSlotHealth, PoolHealthState, Stamp}

unfoldable pub slot_key : ModelSlot → String
slot_key slot = default_to "(default)" slot.provider <> "/" <> slot.model

-- `new Date(at).getTime() > nowMs`, false where the date is NaN.
abbrev pub is_after : ℕ → Option Stamp → Bool
is_after now_ms none = false
is_after now_ms (some at) = elim at.ms [ none ↦ false | some t ↦ ltb now_ms t ]

unfoldable pub in_cooldown : ℕ → Option PoolSlotHealth → Bool
in_cooldown now_ms none = false
in_cooldown now_ms (some h) = is_after now_ms h.cooldown_until

unfoldable pub slot_matches_role : ModelSlot → Option String → Bool
slot_matches_role slot none = true
slot_matches_role slot (some role_kind) =
    is_nil slot.roles || not (is_truthy role_kind) || includes slot.roles role_kind
