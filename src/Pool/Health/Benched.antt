-- ===== src/Pool/Health/Benched.antt =====
-- pool.ts: how long errors bench a slot, and which errors end a bench.
use pi_graph_loop.Prelude.{
  ℕ, ◌+◌, ◌≤◌, ◌<◌, String, false, ◌≡◌, ◌↔◌, some, List, [], ◌∷◌, ◌==◌, opt_eq, arith,
}
use pi_graph_loop.Types.{ModelSlot, RotationConfig, ProviderErrorKind, PoolSlotHealth}
use pi_graph_loop.Pool.Health.{
  bench_ms_for_streak, is_immediate, end_ms, same_incident, failures_after, noted, next_bench_ms,
  carried, benched, after_error, after_success,
}

-- At a time, the slot has fewer failures than bench it, and is benched for no longer than the ceiling.
pub record IsContained (rotation : RotationConfig) (now_ms : ℕ) (h : PoolSlotHealth) : Type 0 where
  pub few : h.failures < rotation.max_retries
  pub short : end_ms h.cooldown_until ≤ now_ms + rotation.bench_max_ms

module _ (iso : ℕ → String) (rotation : RotationConfig) (floor_ms : ℕ) (slot : ModelSlot)
    (kind : ProviderErrorKind) (text : String) (now_ms : ℕ) where
  next_bench-le :
      (prev : PoolSlotHealth)
      → next_bench_ms iso rotation floor_ms slot kind text now_ms prev ≤ rotation.bench_max_ms
  unfolding next_bench_ms bench_ms_for_streak
  next_bench-le prev = omega arith

  -- An error keeps a slot contained.
  pub after_error-IsContained :
      (prev : PoolSlotHealth)
      → 0 < rotation.max_retries
      → IsContained rotation now_ms prev
      → IsContained rotation now_ms (after_error iso rotation floor_ms slot kind text now_ms prev)
  unfolding after_error carried benched noted
  after_error-IsContained prev some_retries h = record {
    few = ground (arith, h.few);
    short = ground (arith, h.short, next_bench-le prev);
  }

  -- An error on a benched slot ends the bench exactly where its own bench would outlast the present
  -- one, but it is neither a kind that benches at once nor the last retry.
  pub after_error-unbenches_iff :
      (prev : PoolSlotHealth)
      → now_ms < end_ms prev.cooldown_until
      → (end_ms (after_error iso rotation floor_ms slot kind text now_ms prev).cooldown_until
          ≤ now_ms)
        ↔ ((end_ms prev.cooldown_until
              < now_ms + next_bench_ms iso rotation floor_ms slot kind text now_ms prev)
            × (is_immediate kind ≡ false)
            × (failures_after iso rotation floor_ms slot kind text now_ms prev
                < rotation.max_retries))
  unfolding after_error carried benched noted
  after_error-unbenches_iff prev on = (
    λ off. (ground (arith, on, off), ground (arith, on, off), ground (arith, on, off)),
    λ (longer, later, left). ground (arith, on, longer, later, left),
  )

-- What happens to a slot: an error turn or a healthy one, each at a time.
pub data SlotEvent : Type 0 where
  errored : (floor_ms : ℕ) (kind : ProviderErrorKind) (text : String) (at : ℕ) → SlotEvent
  served : (at : ℕ) → SlotEvent

abbrev at_of : SlotEvent → ℕ
at_of (errored floor_ms kind text at) = at
at_of (served at) = at

module _ (iso : ℕ → String) (rotation : RotationConfig) (slot : ModelSlot) where
  abbrev slot_step : PoolSlotHealth → SlotEvent → PoolSlotHealth
  slot_step h (errored floor_ms kind text at) =
      after_error iso rotation floor_ms slot kind text at h
  slot_step h (served at) = after_success rotation at h

  -- The health after the events, and the time of the last one.
  unfoldable pub run_slot : List SlotEvent → ℕ × PoolSlotHealth → ℕ × PoolSlotHealth
  run_slot [] now = now
  run_slot (event ∷ events) (now_ms, h) = run_slot events (at_of event, slot_step h event)

  -- Each event comes no earlier than the one before it.
  unfoldable pub IsForward : ℕ → List SlotEvent → Type 0
  IsForward now_ms [] = Unit
  IsForward now_ms (event ∷ events) = (now_ms ≤ at_of event) × IsForward (at_of event) events

module _ (iso : ℕ → String) (rotation : RotationConfig) (floor_ms : ℕ) (slot : ModelSlot)
    (kind : ProviderErrorKind) (first second : String) (at later : ℕ) where
  -- Two different errors of a kind that does not bench at once, on a slot without failures whose
  -- cooldown is over, where two failures bench: the bench that follows is counted as the slot's first,
  -- however often it was benched before.
  pub after_error-forgets_streak :
      (prev : PoolSlotHealth)
      → is_immediate kind ≡ false
      → rotation.max_retries ≡ 2
      → prev.failures ≡ 0
      → opt_eq prev.last_error (some first) ≡ false
      → (first == second) ≡ false
      → end_ms prev.cooldown_until ≤ at
      → (after_error iso rotation floor_ms slot kind second later
          (after_error iso rotation floor_ms slot kind first at prev)).bench_streak
        ≡ 1
  unfolding after_error carried benched noted failures_after same_incident
  after_error-forgets_streak prev later_kind two fresh other different over =
      ground (arith, later_kind, two, fresh, other, different, over)
