-- ===== src/Surface/Session.antt =====
-- surface/pump-decision.ts and surface/session.ts: the session of the pump, what a run reads and what
-- it answers.
use Prim.Native.String.{compare}
use text.Mathlib.Text.{is_lt}
use pi_graph_loop.Prelude.{
  ℕ, suc, ◌-◌, zero, String, Bool, Option, none, some, List, [], ◌∷◌, Record, length, if◌then◌else◌,
}
use pi_graph_loop.Types.{SwarmMessage, SwarmState, Stamp}
use pi_graph_loop.Nudges.{Windows}
use pi_graph_loop.Surface.Coalesce.{SurfaceContext}

pub record PumpSession : Type 0 where
  pub ids : List String
  pub triggered_at : Record Stamp
  pub retrigger_count : Record ℕ
  pub last_at : Stamp

-- The constants of constants.ts, two of which the environment may override.
abbrev pub pump_scan_window : ℕ
pump_scan_window = 50

abbrev pub pump_session_id_cap : ℕ
pump_session_id_cap = 200

abbrev pub pump_retrigger_delay_ms : ℕ
pump_retrigger_delay_ms = 60_000

pub record PumpLimits : Type 0 where
  pub stuck_defer_escalate_ms : ℕ
  pub busy_active_execution_ms : ℕ

module _ {A : Type 0} where
  unfoldable pub drop : ℕ → List A → List A
  drop zero xs = xs
  drop (suc n) [] = []
  drop (suc n) (x ∷ xs) = drop n xs

  unfoldable pub take : ℕ → List A → List A
  take zero xs = []
  take (suc n) [] = []
  take (suc n) (x ∷ xs) = x ∷ take n xs

  -- `xs.slice(-n)`, and `capMap` on the entries of a map.
  unfoldable pub take_last : ℕ → List A → List A
  take_last n xs = drop (length xs - n) xs

-- What the decision reads: `minimal` is the protocol switch.
pub record PumpInput : Type 0 where
  pub minimal : Bool
  pub windows : Windows
  pub limits : PumpLimits
  pub ctx : SurfaceContext
  pub mailbox : List SwarmMessage
  pub now : Stamp
  pub now_ms : ℕ
  pub idle_at_start : Bool

pub record Decision : Type 0 where
  pub st : SwarmState
  pub sess : PumpSession
  pub to_surface : List SwarmMessage
  pub retriggered : List SwarmMessage  -- the code returns their number
  pub escalated_stuck : Bool

abbrev pub earlier_of : Option Stamp → Option Stamp → Option Stamp
earlier_of none o = o
earlier_of (some a) none = some a
earlier_of (some a) (some b) = if is_lt (compare b.text a.text) then some b else some a
