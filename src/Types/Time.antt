-- ===== src/Types/Time.antt =====
-- Time stamps. They are persisted as ISO texts, and read by `new Date(text).getTime()`.
use pi_graph_loop.Prelude.{ℕ, String, Option, none, some}

-- The text, and the milliseconds since the epoch that `Date` reads from it; `none` is NaN.
pub record Stamp : Type 0 where
  pub text : String
  pub ms : Option ℕ

-- `v ? new Date(v).getTime() || 0 : 0`, the `isoMs` of taskgraph/attention.ts.
abbrev pub iso_ms : Option Stamp → ℕ
iso_ms none = 0
iso_ms (some v) = elim v.ms [ none ↦ 0 | some t ↦ t ]

-- The stamp of a time; `iso` is `new Date(ms).toISOString()`.
abbrev pub stamp_at : (ℕ → String) → ℕ → Stamp
stamp_at iso now_ms = record { text = iso now_ms; ms = some now_ms }
