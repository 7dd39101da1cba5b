-- ===== src/Examples/Pools.antt =====
-- The model pool: picks, benches and probe rounds.
use pi_graph_loop.Prelude.{
  none_is_some, ◌+◌, ℕ, ◌+◌, ◌<◌, ◌≤◌, ◌≡◌, ◌↔◌, refl, String, Bool, true, false, Option, none,
  some, List, [], ◌∷◌, lookup, arith,
}
use pi_graph_loop.Types.{
  ModelSlot, RotationStrategy, RotationConfig, ProviderErrorKind, PoolSlotHealth, PoolHealthState,
  PoolProbeRound, ProbeAnswer,
}
use pi_graph_loop.Pool.{slot_key, in_cooldown, slot_matches_role}
use pi_graph_loop.Pool.Pick.{
  PickOptions, PickResult, pick_slot, pick_by, visible_slots, eligible_slots, fallback_slots,
  filter_avoiding, pick_cursor,
}
use pi_graph_loop.Pool.Pick.Served.{IsPick, pick_slot_correct}
use pi_graph_loop.Pool.Health.{
  no_failures, after_error, end_ms, is_immediate, failures_after, next_bench_ms, carried, benched,
  noted, bench_ms_for_streak, bench_base_ms, effective_bench_ms, same_incident,
}
use pi_graph_loop.Pool.Health.Benched.{
  SlotEvent, errored, served, after_error-unbenches_iff, after_error-forgets_streak,
}
use pi_graph_loop.Pool.Probe.{probe_round}
use pi_graph_loop.Pool.Probe.Ends.{IsEnded, probe_all, probe_all-IsEnded}

abbrev slot : String → ModelSlot
slot model = record {
  model = model;
  provider = some "ccs";
  weight = none;
  roles = [];
  quota_reset_ms = none;
}

abbrev slots : List ModelSlot
slots = slot "glm" ∷ slot "terra" ∷ slot "fable" ∷ []

abbrev rotation : RotationConfig
rotation = record {
  strategy = RotationStrategy.round_robin;
  cooldown_ms = 900_000;
  max_retries = 2;
  bench_max_ms = 3_600_000;
  bench_streak_decay_ms = 21_600_000;
  force_probe_round = true;
}

abbrev iso : ℕ → String
iso t = "iso"

abbrev until : ℕ → PoolSlotHealth
until t = record no_failures {
  cooldown_until = some (record { text = "iso"; ms = some t });
  bench_streak = 1;
  last_bench_reason = some ProviderErrorKind.quota;
}

abbrev health : PoolHealthState
health = record { slots = ("ccs/glm", until 2_000_000) ∷ []; rr_cursor = 1 }

abbrev after_terra : PickOptions
after_terra = record {
  sticky_key = some "tester-01";
  avoid_key = some "ccs/terra";
  role_kind = some "tester";
  bypass_roles_filter = false;
}

abbrev hash : String → ℕ
hash s = 7

abbrev model_of : Option PickResult → String
model_of none = "none"
model_of (some r) = r.slot.model

picks_fable : model_of (pick_slot hash 1 slots rotation after_terra 1_000_000 health).1 ≡ "fable"
unfolding pick_slot pick_by visible_slots eligible_slots fallback_slots filter_avoiding pick_cursor
    slot_key in_cooldown slot_matches_role lookup
picks_fable = refl

pick_slot_correct_example :
    IsPick hash 1 slots after_terra 1_000_000 health
      (pick_slot hash 1 slots rotation after_terra 1_000_000 health).1
pick_slot_correct_example = pick_slot_correct hash 1 slots after_terra 1_000_000 health rotation

-- A transient error on a slot that a quota error benched for another second.
transient_unbenches :
    end_ms
      (after_error iso rotation 0
        (slot "glm")
        ProviderErrorKind.transient
        "transient: timeout"
        1_999_000
        (until 2_000_000)).cooldown_until
    ≡ 0
unfolding after_error carried benched noted next_bench_ms bench_ms_for_streak bench_base_ms
    effective_bench_ms failures_after same_incident
transient_unbenches = refl

after_error-unbenches_iff_example :
    (end_ms
        (after_error iso rotation 0
          (slot "glm")
          ProviderErrorKind.transient
          "transient: timeout"
          1_999_000
          (until 2_000_000)).cooldown_until
      ≤ 1_999_000)
    ↔ ((2_000_000
          < 1_999_000
            + next_bench_ms iso rotation 0
                (slot "glm")
                ProviderErrorKind.transient
                "transient: timeout"
                1_999_000
                (until 2_000_000))
        × (is_immediate ProviderErrorKind.transient ≡ false)
        × (failures_after iso rotation 0
              (slot "glm")
              ProviderErrorKind.transient
              "transient: timeout"
              1_999_000
              (until 2_000_000)
            < 2))
after_error-unbenches_iff_example =
    after_error-unbenches_iff iso rotation 0 (slot "glm") ProviderErrorKind.transient
      "transient: timeout" 1_999_000 (until 2_000_000) (omega arith)

abbrev events : List SlotEvent
events =
    errored 0 ProviderErrorKind.quota "quota: exceeded" 1_000
    ∷ served 2_000
    ∷ errored 0 ProviderErrorKind.transient "transient: timeout" 3_000
    ∷ []

after_error-forgets_streak_example :
    (after_error iso rotation 0 (slot "glm") ProviderErrorKind.rate_limit "b" 2_200_000 (
      after_error iso rotation 0
        (slot "glm")
        ProviderErrorKind.rate_limit
        "a"
        2_100_000
        (until 2_000_000))).bench_streak
    ≡ 1
after_error-forgets_streak_example =
    after_error-forgets_streak iso rotation 0 (slot "glm") ProviderErrorKind.rate_limit "a" "b"
      2_100_000 2_200_000 (until 2_000_000) refl refl refl refl refl (omega arith)

abbrev id_of : ℕ → String
id_of t = "probe-1"

abbrev resolvable : ModelSlot → Bool
resolvable s = true

abbrev open_round : PoolProbeRound
open_round = record {
  round_id = "probe-1";
  started_at = record { text = "iso"; ms = some 1_000_000 };
  tried_slots = [];
  cursor = 0;
  exhausted_at = none;
  next_probe_at = none;
  wake_sent_at = none;
}

unfoldable first_answer : ProbeAnswer
first_answer = probe_round iso id_of slots rotation resolvable [] 1_000_000 (slot "glm") open_round

probe_all-IsEnded_example :
    IsEnded iso id_of slots rotation resolvable
      (λ n. [])
      (λ n. 1_000_000 + n)
      (probe_all iso id_of slots rotation resolvable
        (λ n. [])
        (λ n. 1_000_000 + n)
        4
        (slot "glm")
        none)
probe_all-IsEnded_example =
    probe_all-IsEnded iso id_of slots rotation resolvable (λ n. []) (λ n. 1_000_000 + n) refl refl
      (slot "glm") none tt (λ r e shut. none_is_some e)
