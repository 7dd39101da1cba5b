-- ===== src/Pool/Pick.antt =====
-- pool.ts: `pickSlot`.
pub mod Servable
pub mod Served
use pi_graph_loop.Prelude.{
  ℕ, zero, suc, ◌+◌, ◌-◌, String, Bool, true, false, not, ◌&&◌, ◌||◌, Option, none, some, List, [],
  ◌∷◌, map, filter, length, lookup, leb, ltb, nat_eq, default_to, is_nil, ◌==◌, if◌then◌else◌,
}
use Prim.Native.Nat.{◌%◌}
use pi_graph_loop.Types.{ModelSlot, RotationStrategy, RotationConfig, PoolHealthState}
use pi_graph_loop.Pool.{slot_key, in_cooldown, slot_matches_role}

pub record PickOptions : Type 0 where
  pub sticky_key : Option String
  pub avoid_key : Option String
  pub role_kind : Option String
  pub bypass_roles_filter : Bool

-- An element of `eligible` or `fallbacks`.
pub record Candidate : Type 0 where
  pub slot : ModelSlot
  pub index : ℕ

pub data PickReason : Type 0 where
  sticky_pick : (key : String) → PickReason
  round_robin_pick : (cursor : ℕ) → PickReason
  weighted_pick : (weight : ℕ) → PickReason
  fallback_only : PickReason

pub record PickResult : Type 0 where
  pub slot : ModelSlot
  pub index : ℕ
  pub reason : PickReason

abbrev pub get_elem? {ℓ} : {A : Type ℓ} → List A → ℕ → Option A
get_elem? [] n = none
get_elem? (x ∷ xs) zero = some x
get_elem? (x ∷ xs) (suc n) = get_elem? xs n

abbrev pub weight_of : ModelSlot → ℕ
weight_of slot = default_to 1 slot.weight

abbrev pub total_weight : List Candidate → ℕ
total_weight [] = 0
total_weight (c ∷ cs) = weight_of c.slot + total_weight cs

-- `weightedPick`: `roll` is `Math.random() * total`, rounded up, which decides `roll <= 0` alike.
unfoldable pub weighted_choice : ℕ → List Candidate → Option Candidate
weighted_choice roll [] = none
weighted_choice roll (c ∷ []) = some c
weighted_choice roll (c ∷ d ∷ cs) =
    let rest = weighted_choice (roll - weight_of c.slot) (d ∷ cs) in
    if leb roll (weight_of c.slot) then some c else rest

-- Is the slot any other than the one that failed?
abbrev pub is_not : Option String → ModelSlot → Bool
is_not none slot = true
is_not (some key) slot = not (slot_key slot == key)

unfoldable pub filter_avoiding : List Candidate → Option String → List Candidate
filter_avoiding items avoid_key = filter (λ (c : Candidate). is_not avoid_key c.slot) items

abbrev pub numbered : ℕ → List ModelSlot → List Candidate
numbered i [] = []
numbered i (slot ∷ slots) = record { slot = slot; index = i } ∷ numbered (suc i) slots

abbrev pub is_tagged : ModelSlot → Bool
is_tagged slot = not (is_nil slot.roles)

abbrev pub tagged_or_all : List ModelSlot → List ModelSlot → List ModelSlot
tagged_or_all [] visible = visible
tagged_or_all (slot ∷ tagged) visible = slot ∷ tagged

abbrev pub visible_to : List ModelSlot → Option String → List ModelSlot
visible_to slots none = slots
visible_to slots (some role_kind) =
    let visible = filter (λ (s : ModelSlot). slot_matches_role s (some role_kind)) slots in
    tagged_or_all (filter is_tagged visible) visible

-- The slots that the role may use: where one is tagged for it, only those.
unfoldable pub visible_slots : List ModelSlot → PickOptions → List ModelSlot
visible_slots slots opts =
    if opts.bypass_roles_filter then slots else visible_to slots opts.role_kind

module _ (h : PoolHealthState) (now_ms : ℕ) where
  abbrev pub is_cool : ModelSlot → Bool
  is_cool slot = not (in_cooldown now_ms (lookup (slot_key slot) h.slots))

  unfoldable pub eligible_slots : List ModelSlot → List Candidate
  eligible_slots visible =
      filter (λ (c : Candidate). ltb 0 (weight_of c.slot) && is_cool c.slot) (numbered 0 visible)

  unfoldable pub fallback_slots : List ModelSlot → List Candidate
  fallback_slots visible =
      filter (λ (c : Candidate). nat_eq (weight_of c.slot) 0 && is_cool c.slot) (numbered 0 visible)

abbrev pub picked_as : (Candidate → PickReason) → Option Candidate → Option PickResult
picked_as why none = none
picked_as why (some c) = some (record { slot = c.slot; index = c.index; reason = why c })

-- `eligibleAlt.length > 1 && slotKey(eligibleAlt[cursor].slot) === avoidKey`.
abbrev pub is_avoided : Option String → Option Candidate → Bool
is_avoided (some key) (some c) = slot_key c.slot == key
is_avoided _ _ = false

-- The cursor of the round-robin pick.
unfoldable pub pick_cursor : ℕ → Option String → List Candidate → ℕ
pick_cursor rr_cursor avoid_key alt =
    let cursor = rr_cursor % length alt in
    if ltb 1 (length alt) && is_avoided avoid_key (get_elem? alt cursor)
    then suc cursor % length alt
    else cursor

abbrev keeping : PoolHealthState → Option PickResult → PoolHealthState × Option PickResult
keeping h pick = (h, pick)

-- `hash` is the number that the sha-256 digest of a text starts with.
module _ (hash : String → ℕ) (roll : ℕ) where
  abbrev by_weight : PoolHealthState → List Candidate → PoolHealthState × Option PickResult
  by_weight h alt =
      keeping h
        (picked_as (λ (c : Candidate). weighted_pick (weight_of c.slot)) (weighted_choice roll alt))

  abbrev pub by_key :
      PoolHealthState → Option String → List Candidate → PoolHealthState × Option PickResult
  by_key h none alt = by_weight h alt
  by_key h (some key) alt =
      keeping h
        (picked_as (λ (c : Candidate). sticky_pick key) (get_elem? alt (hash key % length alt)))

  -- The pick among the eligible slots, by the strategy; the round-robin cursor moves on.
  unfoldable pub pick_by :
      RotationStrategy
      → PickOptions
      → PoolHealthState
      → List Candidate
      → PoolHealthState × Option PickResult
  pick_by RotationStrategy.sticky opts h alt = by_key h opts.sticky_key alt
  pick_by RotationStrategy.round_robin opts h alt =
      let cursor = pick_cursor h.rr_cursor opts.avoid_key alt in
      (
        record h { rr_cursor = suc cursor },
        picked_as (λ (c : Candidate). round_robin_pick cursor) (get_elem? alt cursor),
      )
  pick_by RotationStrategy.weighted opts h alt = by_weight h alt

  abbrev pub first_fallback : List Candidate → Option PickResult
  first_fallback [] = none
  first_fallback (c ∷ cs) = picked_as (λ (d : Candidate). fallback_only) (some c)

  unfoldable pub pick_slot :
      List ModelSlot
      → RotationConfig
      → PickOptions
      → ℕ
      → PoolHealthState
      → PoolHealthState × Option PickResult
  pick_slot slots rotation opts now_ms h =
      let visible = visible_slots slots opts in
      let alt = filter_avoiding (eligible_slots h now_ms visible) opts.avoid_key in
      let fallback_alt = filter_avoiding (fallback_slots h now_ms visible) opts.avoid_key in
      if is_nil alt
      then keeping h (first_fallback fallback_alt)
      else pick_by rotation.strategy opts h alt
