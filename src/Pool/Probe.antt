-- ===== src/Pool/Probe.antt =====
-- pool.ts: `advanceProbeRound`, which tries every slot once where none is healthy.
pub mod Walked
pub mod Offsets
pub mod Answer
pub mod Once
pub mod Ends
use pi_graph_loop.Prelude.{
  ℕ, zero, suc, ◌+◌, ◌-◌, max, String, Bool, true, false, not, ◌&&◌, ◌||◌, Option, none, some, List,
  [], ◌∷◌, ◌++◌, Record, lookup, length, ltb, nat_eq, default_to, is_some, is_nil, includes,
  set_add, ◌==◌, if◌then◌else◌,
}
use Prim.Native.Nat.{◌%◌, min}
use pi_graph_loop.Types.{
  stamp_at, ModelSlot, RotationConfig, PoolSlotHealth, PoolProbeRound, ProbeAnswer, Stamp,
}
use pi_graph_loop.Pool.{slot_key, is_after}
use pi_graph_loop.Pool.Pick.{get_elem?}

-- `canonical.findIndex((c) => c.key === key)`; the length where there is none.
unfoldable pub find_index : String → List ModelSlot → ℕ
find_index key [] = 0
find_index key (s ∷ slots) =
    let rest = find_index key slots in if slot_key s == key then 0 else suc rest

-- The keys that the round has tried, and the index that the loop stopped at.
pub record SlotWalk : Type 0 where
  pub tried : List String
  pub picked : Option ℕ

module _ (slots : List ModelSlot) (resolvable : ModelSlot → Bool) (start : ℕ) where
  abbrev pub index_at : ℕ → ℕ
  index_at off = (start + off) % length slots

  -- The body of the loop, for the slot at an index; `go` goes on with the keys tried.
  unfoldable pub visit_slot : (List String → SlotWalk) → List String → ℕ → ModelSlot → SlotWalk
  visit_slot go tried idx s =
      if includes tried (slot_key s)
      then go tried
      else if not (nat_eq (find_index (slot_key s) slots) idx)
      then go tried
      else if not (resolvable s)
      then go (tried ++ slot_key s ∷ [])
      else record { tried = tried; picked = some idx }

  -- Every index is that of a slot where there are slots.
  abbrev pub visit_found : (List String → SlotWalk) → List String → ℕ → Option ModelSlot → SlotWalk
  visit_found go tried idx none = go tried
  visit_found go tried idx (some s) = visit_slot go tried idx s

  -- The rounds of the loop that are left, from the offset on.
  unfoldable pub walk_slots : ℕ → ℕ → List String → SlotWalk
  walk_slots zero off tried = record { tried = tried; picked = none }
  walk_slots (suc left) off tried =
      visit_found (walk_slots left (suc off)) tried (index_at off) (get_elem? slots (index_at off))

abbrev pub min_cooldown : Option ℕ → Option Stamp → Option ℕ
min_cooldown earliest none = earliest
min_cooldown earliest (some at) = elim at.ms [
  | none ↦ earliest
  | some t ↦ some (elim earliest [ none ↦ t | some e ↦ min e t ])
]

abbrev cooldown_of : Option PoolSlotHealth → Option Stamp
cooldown_of none = none
cooldown_of (some h) = h.cooldown_until

-- The earliest end of a cooldown of the keys tried.
unfoldable pub earliest_cooldown : Record PoolSlotHealth → List String → Option ℕ → Option ℕ
earliest_cooldown health [] earliest = earliest
earliest_cooldown health (key ∷ tried) earliest =
    earliest_cooldown health tried (min_cooldown earliest (cooldown_of (lookup key health)))

-- `round?.exhaustedAt && round.nextProbeAt`.
abbrev pub is_closed : PoolProbeRound → Bool
is_closed round = is_some round.exhausted_at && is_some round.next_probe_at

module _ (iso : ℕ → String) (round_id_of : ℕ → String) (slots : List ModelSlot)
    (rotation : RotationConfig) (resolvable : ModelSlot → Bool) (health : Record PoolSlotHealth)
    (now_ms : ℕ) where
  unfoldable pub fresh_round : PoolProbeRound
  fresh_round = record {
    round_id = round_id_of now_ms;
    started_at = stamp_at iso now_ms;
    tried_slots = [];
    cursor = 0;
    exhausted_at = none;
    next_probe_at = none;
    wake_sent_at = none;
  }

  -- The round that goes on: the open one, or a fresh one in place of none or of one that is over.
  unfoldable pub current_round : Option PoolProbeRound → PoolProbeRound
  current_round none = fresh_round
  current_round (some round) = if is_closed round then fresh_round else round

  unfoldable pub due_ms : List String → ℕ
  due_ms tried =
      min (max (default_to now_ms (earliest_cooldown health tried none)) now_ms)
        (now_ms + rotation.bench_max_ms)

  unfoldable pub exhaust : PoolProbeRound → List String → ProbeAnswer
  exhaust round tried = record {
    slot = none;
    round = record round {
      tried_slots = tried;
      cursor = 0;
      exhausted_at = some (stamp_at iso now_ms);
      next_probe_at = some (stamp_at iso (due_ms tried));
    };
  }

  unfoldable pub probe_slot : PoolProbeRound → List String → ℕ → ModelSlot → ProbeAnswer
  probe_slot round tried idx slot = record {
    slot = some slot;
    round = record round {
      tried_slots = tried ++ slot_key slot ∷ [];
      cursor = suc idx % length slots;
      exhausted_at = none;
      next_probe_at = none;
      wake_sent_at = none;
    };
  }

  abbrev pub probe_found : PoolProbeRound → List String → ℕ → Option ModelSlot → ProbeAnswer
  probe_found round tried idx none = exhaust round tried
  probe_found round tried idx (some slot) = probe_slot round tried idx slot

  abbrev pub answer_of : PoolProbeRound → SlotWalk → ProbeAnswer
  answer_of round w = elim w.picked [
    | none ↦ exhaust round w.tried
    | some idx ↦ probe_found round w.tried idx (get_elem? slots idx)
  ]

  -- `triedSlots` with the slot that failed.
  unfoldable pub tried_with : ModelSlot → PoolProbeRound → List String
  tried_with failed round = set_add round.tried_slots (slot_key failed)

  unfoldable pub walk_round : ModelSlot → PoolProbeRound → SlotWalk
  walk_round failed round =
      walk_slots slots resolvable (min round.cursor (length slots - 1)) (length slots) 0
        (tried_with failed round)

  unfoldable pub probe_round : ModelSlot → PoolProbeRound → ProbeAnswer
  probe_round failed round = answer_of round (walk_round failed round)

  abbrev fence : Option PoolProbeRound → ProbeAnswer → ProbeAnswer
  fence none answer = answer
  fence (some round) answer =
      if is_closed round && is_after now_ms round.next_probe_at
      then record { slot = none; round = round }
      else answer

  unfoldable pub advance_probe_round : ModelSlot → Option PoolProbeRound → Option ProbeAnswer
  advance_probe_round failed round =
      if not rotation.force_probe_round || is_nil slots
      then none
      else some (fence round (probe_round failed (current_round round)))
