-- ===== src/Streaks/Retry.antt =====
-- hooks/pool-swap.ts: the gate that leaves a failing slot to the engine's own retries, and the choice
-- of another slot once they are used up.
use pi_graph_loop.Prelude.{
  ℕ, suc, ◌-◌, String, Bool, true, false, not, ◌&&◌, ◌||◌, Option, none, some, Record, lookup, put,
  erase, leb, ◌==◌, is_some, if◌then◌else◌,
}
use pi_graph_loop.Types.{ModelSlot, ProbeAnswer, PoolProbeRound, ProviderErrorKind, same_kind}
use pi_graph_loop.Streaks.{has_attempt_since_incident}

pub record Incident : Type 0 where
  pub provider_key : String
  pub kind : ProviderErrorKind
  pub error_message : String
  pub first_seen_at : ℕ
  pub last_seen_at : ℕ
  pub count : ℕ

abbrev pub engine_max_retries : ℕ
engine_max_retries = 2

abbrev pub engine_retry_window_ms : ℕ
engine_retry_window_ms = 14_000

-- An error turn of an agent: `slotKey(currentSlot)`, the error's kind and `scrubErrorIdentity` of its
-- text.
pub record ErrorTurn : Type 0 where
  pub agent_id : String
  pub provider_key : String
  pub kind : ProviderErrorKind
  pub error_message : String
  pub at : ℕ

pub record Strike : Type 0 where
  pub incidents : Record Incident
  pub exhausted : Bool
  pub count : ℕ

abbrev pub is_request_limit : ProviderErrorKind → Bool
is_request_limit ProviderErrorKind.request_limit = true
is_request_limit _ = false

-- The previous incident is this one, and it is still live.
unfoldable pub continues : Record ℕ → ErrorTurn → Incident → Bool
continues starts e prev =
    prev.provider_key == e.provider_key
    && same_kind prev.kind e.kind
    && (leb (e.at - prev.last_seen_at) engine_retry_window_ms
        || has_attempt_since_incident starts e.agent_id prev.last_seen_at)

abbrev pub opened : ErrorTurn → Incident
opened e = record {
  provider_key = e.provider_key;
  kind = e.kind;
  error_message = e.error_message;
  first_seen_at = e.at;
  last_seen_at = e.at;
  count = 1;
}

abbrev pub counted_again : ErrorTurn → Incident → Incident
counted_again e prev = record prev {
  kind = e.kind;
  error_message = e.error_message;
  last_seen_at = e.at;
  count = suc prev.count;
}

-- The incident after the turn.
unfoldable pub next_incident : Record ℕ → ErrorTurn → Option Incident → Incident
next_incident starts e none = opened e
next_incident starts e (some prev) =
    if continues starts e prev then counted_again e prev else opened e

-- Is it the engine's last retry? A fresh incident is not tested.
unfoldable pub is_exhausted : Record ℕ → ErrorTurn → Option Incident → Bool
is_exhausted starts e none = is_request_limit e.kind
is_exhausted starts e (some prev) =
    continues starts e prev && leb engine_max_retries (suc prev.count) || is_request_limit e.kind

-- The gate: an exhausted incident is deleted, and only then a swap is tried.
unfoldable pub engine_strike : Record ℕ → Record Incident → ErrorTurn → Strike
engine_strike starts incidents e =
    let prev = lookup e.agent_id incidents in
    let incident = next_incident starts e prev in
    let noted = put e.agent_id incident incidents in
    if is_exhausted starts e prev
    then record { incidents = erase e.agent_id noted; exhausted = true; count = incident.count }
    else record { incidents = noted; exhausted = false; count = incident.count }

-- A turn that ends with "stop" closes the agent's incident.
unfoldable pub engine_recovered : Record Incident → String → Record Incident
engine_recovered incidents agent_id = erase agent_id incidents

-- The slot that an error turn ends up with.
pub record Picked : Type 0 where
  pub slot : ModelSlot
  pub roles_bypassed : Bool
  pub by_round : Option PoolProbeRound

pub data SwapDecision : Type 0 where
  swap_capped : SwapDecision
  no_candidate : (exhausted_round : Option PoolProbeRound) → SwapDecision
  swap_to : Picked → SwapDecision

abbrev pub found_slot : Bool → Option ModelSlot → Option Picked
found_slot bypassed none = none
found_slot bypassed (some s) =
    some (record { slot = s; roles_bypassed = bypassed; by_round = none })

abbrev pub probed : Option ProbeAnswer → Option Picked
probed none = none
probed (some a) = elim a.slot [
  | none ↦ none
  | some s ↦ some (record { slot = s; roles_bypassed = false; by_round = some a.round })
]

abbrev pub or_pick : Option Picked → Option Picked → Option Picked
or_pick (some p) q = some p
or_pick none q = q

-- `picked` after the three attempts; the second is made only for an agent with a role kind and where
-- the configuration allows it.
unfoldable pub picked_slot :
    Option ModelSlot → Bool → Option ModelSlot → Option ProbeAnswer → Option Picked
picked_slot by_role may_bypass bypass probe =
    or_pick (found_slot false by_role)
      (or_pick (if may_bypass then found_slot true bypass else none) (probed probe))

-- `probeRound` of a pick; only a probe sets it.
abbrev round_of : Option Picked → Option PoolProbeRound
round_of none = none
round_of (some p) = p.by_round

-- `probeRound && !probeRoundSwap && probeRound.exhaustedAt ? probeRound : undefined`, where
-- `probeRoundSwap` is set together with `probeRound`.
abbrev exhausted_round : Option PoolProbeRound → Bool → Option PoolProbeRound
exhausted_round none probe_swap = none
exhausted_round (some r) probe_swap =
    if not probe_swap && is_some r.exhausted_at then some r else none

-- The cap spares a probe.
abbrev decide_swap : Bool → Option Picked → SwapDecision
decide_swap is_capped none =
    no_candidate (exhausted_round (round_of none) (is_some (round_of none)))
decide_swap is_capped (some p) =
    if not (is_some p.by_round) && is_capped then swap_capped else swap_to p

unfoldable pub choose_swap :
    Option ModelSlot → Bool → Option ModelSlot → Option ProbeAnswer → Bool → SwapDecision
choose_swap by_role may_bypass bypass probe is_capped =
    decide_swap is_capped (picked_slot by_role may_bypass bypass probe)
