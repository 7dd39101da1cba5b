-- ===== src/Pool/Health.antt =====
-- pool.ts: `recordProviderError`, `recordSlotSuccess` and `setSlotCooldown`.
pub mod Benched
use pi_graph_loop.Prelude.{
  ℕ, suc, ◌+◌, ◌-◌, ◌*◌, max, String, Bool, true, false, not, ◌&&◌, ◌||◌, Option, none, some,
  Record, lookup, put, ltb, leb, nat_eq, default_to, is_some, opt_eq, ◌==◌, ◌<>◌, if◌then◌else◌,
}
use Prim.Native.Nat.{◌^◌, min}
use pi_graph_loop.Types.{
  stamp_at, ModelSlot, RotationConfig, ProviderErrorKind, PoolSlotHealth, PoolHealthState, Stamp,
}
use pi_graph_loop.Pool.{slot_key, is_after}

-- `floor_ms` is `readQuotaResetMsFor(cwd, key) || QUOTA_RESET_DEFAULT_MS`, from configuration files.
abbrev floor_of : ModelSlot → ℕ → ℕ
floor_of slot floor_ms = elim slot.quota_reset_ms [
  | none ↦ floor_ms
  | some ms ↦ if ltb 0 ms then ms else floor_ms
]

unfoldable pub effective_bench_ms : ModelSlot → RotationConfig → ℕ → ℕ
effective_bench_ms slot rotation floor_ms = max rotation.cooldown_ms (floor_of slot floor_ms)

unfoldable pub bench_base_ms : ModelSlot → RotationConfig → ℕ → ℕ
bench_base_ms slot rotation floor_ms =
    min (effective_bench_ms slot rotation floor_ms) rotation.bench_max_ms

-- A streak is 1 at least where this is called.
unfoldable pub bench_ms_for_streak : ModelSlot → RotationConfig → ℕ → ℕ → ℕ
bench_ms_for_streak slot rotation floor_ms streak =
    min (bench_base_ms slot rotation floor_ms * 2 ^ (streak - 1)) rotation.bench_max_ms

abbrev kind_text : ProviderErrorKind → String
kind_text ProviderErrorKind.quota = "quota"
kind_text ProviderErrorKind.auth = "auth"
kind_text ProviderErrorKind.request_limit = "request_limit"
kind_text ProviderErrorKind.rate_limit = "rate_limit"
kind_text ProviderErrorKind.transient = "transient"
kind_text ProviderErrorKind.unknown = "unknown"

abbrev pub is_immediate : ProviderErrorKind → Bool
is_immediate ProviderErrorKind.quota = true
is_immediate ProviderErrorKind.auth = true
is_immediate ProviderErrorKind.request_limit = true
is_immediate _ = false

-- `prev.cooldownUntil ? new Date(prev.cooldownUntil).getTime() : 0`; NaN is after nothing, like 0.
abbrev pub end_ms : Option Stamp → ℕ
end_ms none = 0
end_ms (some at) = default_to 0 at.ms

abbrev pub no_failures : PoolSlotHealth
no_failures = record {
  failures = 0;
  last_error = none;
  last_error_at = none;
  cooldown_until = none;
  bench_streak = 0;
  last_bench_reason = none;
  last_bench_ms = none;
  last_recovered_at = none;
  last_bench_at = none;
}

-- `prev.lastErrorAt && nowMs - new Date(prev.lastErrorAt).getTime() < 30_000`.
abbrev seen_just_now : ℕ → Option Stamp → Bool
seen_just_now now_ms none = false
seen_just_now now_ms (some at) = elim at.ms [ none ↦ false | some t ↦ ltb (now_ms - t) 30_000 ]

-- One error on a slot: `text` is `${kind}: ${error}`, cut after 200 characters.
module _ (iso : ℕ → String) (rotation : RotationConfig) (floor_ms : ℕ) (slot : ModelSlot)
    (kind : ProviderErrorKind) (text : String) (now_ms : ℕ) where
  unfoldable pub same_incident : PoolSlotHealth → Bool
  same_incident prev = opt_eq prev.last_error (some text) && seen_just_now now_ms prev.last_error_at

  unfoldable pub failures_after : PoolSlotHealth → ℕ
  failures_after prev = if same_incident prev then prev.failures else suc prev.failures

  -- `next`, before the bench is decided: what it does not name is absent.
  unfoldable pub noted : PoolSlotHealth → PoolSlotHealth
  noted prev = record no_failures {
    failures = failures_after prev;
    last_error = some text;
    last_error_at = some (stamp_at iso now_ms);
  }

  -- The length of the next bench.
  unfoldable pub next_bench_ms : PoolSlotHealth → ℕ
  next_bench_ms prev = bench_ms_for_streak slot rotation floor_ms (suc prev.bench_streak)

  -- The bench that the slot has already goes on.
  unfoldable pub carried : PoolSlotHealth → PoolSlotHealth
  carried prev = record (noted prev) {
    failures = 0;
    cooldown_until = prev.cooldown_until;
    bench_streak = prev.bench_streak;
    last_bench_reason = prev.last_bench_reason;
    last_bench_ms = prev.last_bench_ms;
    last_bench_at = prev.last_bench_at;
    last_recovered_at = prev.last_recovered_at;
  }

  unfoldable pub benched : PoolSlotHealth → PoolSlotHealth
  benched prev = record (noted prev) {
    failures = 0;
    cooldown_until = some (stamp_at iso (now_ms + next_bench_ms prev));
    bench_streak = suc prev.bench_streak;
    last_bench_reason = some kind;
    last_bench_ms = some (next_bench_ms prev);
    last_bench_at = some (stamp_at iso now_ms);
  }

  unfoldable pub after_error : PoolSlotHealth → PoolSlotHealth
  after_error prev =
      if ltb now_ms (end_ms prev.cooldown_until)
        && leb (now_ms + next_bench_ms prev) (end_ms prev.cooldown_until)
      then carried prev
      else if leb rotation.max_retries (failures_after prev) || is_immediate kind
      then benched prev
      else noted prev

  unfoldable pub record_provider_error : PoolHealthState → PoolHealthState
  record_provider_error h =
      let key = slot_key slot in
      record h {
        slots = put key (after_error (default_to no_failures (lookup key h.slots))) h.slots;
      }

-- `lastBenchAt ? new Date(lastBenchAt).getTime() : 0`, truthy.
abbrev pub bench_age_reached : ℕ → ℕ → Option Stamp → Bool
bench_age_reached now_ms decay_ms none = false
bench_age_reached now_ms decay_ms (some at) = elim at.ms [
  | none ↦ false
  | some t ↦ ltb 0 t && leb (t + decay_ms) now_ms
]

unfoldable pub decay_fires : RotationConfig → ℕ → PoolSlotHealth → Bool
decay_fires rotation now_ms prev =
    ltb 0 prev.bench_streak
    && ltb 0 rotation.bench_streak_decay_ms
    && bench_age_reached now_ms rotation.bench_streak_decay_ms prev.last_bench_at

unfoldable pub after_success : RotationConfig → ℕ → PoolSlotHealth → PoolSlotHealth
after_success rotation now_ms prev =
    if nat_eq prev.failures 0
      && not (is_some prev.cooldown_until)
      && not (is_some prev.last_error)
      && not (decay_fires rotation now_ms prev)
    then prev
    else record prev {
      failures = 0;
      last_error = none;
      last_error_at = none;
      cooldown_until = none;
      bench_streak = if decay_fires rotation now_ms prev then 0 else prev.bench_streak;
    }

abbrev success_of :
    RotationConfig → ℕ → String → PoolHealthState → Option PoolSlotHealth → PoolHealthState
success_of rotation now_ms key h none = h
success_of rotation now_ms key h (some prev) = record h {
  slots = put key (after_success rotation now_ms prev) h.slots;
}

unfoldable pub record_slot_success :
    RotationConfig → ModelSlot → ℕ → PoolHealthState → PoolHealthState
record_slot_success rotation slot now_ms h =
    success_of rotation now_ms (slot_key slot) h (lookup (slot_key slot) h.slots)

abbrev cleared : PoolSlotHealth → PoolSlotHealth
cleared prev = record prev {
  cooldown_until = none;
  last_bench_reason = none;
  last_bench_ms = none;
  last_recovered_at = none;
  last_bench_at = none;
}

abbrev clear_slot : String → PoolHealthState → Option PoolSlotHealth → PoolHealthState × Bool
clear_slot key h none = (h, false)
clear_slot key h (some prev) = (record h { slots = put key (cleared prev) h.slots }, true)

-- `ms` is `none` for `clear`.
unfoldable pub set_slot_cooldown :
    (ℕ → String) → String → Option ℕ → ℕ → PoolHealthState → PoolHealthState × Bool
set_slot_cooldown iso key none now_ms h = clear_slot key h (lookup key h.slots)
set_slot_cooldown iso key (some ms) now_ms h = (
  record h {
    slots =
        put key
          (record (default_to no_failures (lookup key h.slots)) {
            cooldown_until = some (stamp_at iso (now_ms + ms));
            last_bench_at = some (stamp_at iso now_ms);
          })
          h.slots;
  },
  true,
)
