-- ===== src/Types/Pool.antt =====
-- types/pool.ts: the slots of the model pool, their health and the probe rounds.
use pi_graph_loop.Prelude.{ℕ, String, Bool, true, false, Option, List, Record}
use pi_graph_loop.Types.Time.{Stamp}

pub data RotationStrategy : Type 0 where
  weighted round_robin sticky : RotationStrategy

pub data ProviderErrorKind : Type 0 where
  quota auth request_limit rate_limit transient unknown : ProviderErrorKind

abbrev pub same_kind : ProviderErrorKind → ProviderErrorKind → Bool
same_kind ProviderErrorKind.quota ProviderErrorKind.quota = true
same_kind ProviderErrorKind.auth ProviderErrorKind.auth = true
same_kind ProviderErrorKind.request_limit ProviderErrorKind.request_limit = true
same_kind ProviderErrorKind.rate_limit ProviderErrorKind.rate_limit = true
same_kind ProviderErrorKind.transient ProviderErrorKind.transient = true
same_kind ProviderErrorKind.unknown ProviderErrorKind.unknown = true
same_kind _ _ = false

-- A weight is a whole number; `roles` absent and empty are read alike.
pub record ModelSlot : Type 0 where
  pub model : String
  pub provider : Option String
  pub weight : Option ℕ
  pub roles : List String
  pub quota_reset_ms : Option ℕ

-- `Required<RotationConfig>`, as `effectiveConfig` returns it.
pub record RotationConfig : Type 0 where
  pub strategy : RotationStrategy
  pub cooldown_ms : ℕ
  pub max_retries : ℕ
  pub bench_max_ms : ℕ
  pub bench_streak_decay_ms : ℕ
  pub force_probe_round : Bool

pub record PoolSlotHealth : Type 0 where
  pub failures : ℕ
  pub last_error : Option String
  pub last_error_at : Option Stamp
  pub cooldown_until : Option Stamp
  pub bench_streak : ℕ
  pub last_bench_reason : Option ProviderErrorKind
  pub last_bench_ms : Option ℕ
  pub last_recovered_at : Option Stamp
  pub last_bench_at : Option Stamp

pub record PoolHealthState : Type 0 where
  pub slots : Record PoolSlotHealth
  pub rr_cursor : ℕ

pub record PoolProbeRound : Type 0 where
  pub round_id : String
  pub started_at : Stamp
  pub tried_slots : List String
  pub cursor : ℕ
  pub exhausted_at : Option Stamp
  pub next_probe_at : Option Stamp
  pub wake_sent_at : Option Stamp

-- The answer of `advanceProbeRound`, where it is not undefined.
pub record ProbeAnswer : Type 0 where
  pub slot : Option ModelSlot
  pub round : PoolProbeRound
