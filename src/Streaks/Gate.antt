-- ===== src/Streaks/Gate.antt =====
-- hooks/pool-swap.ts: what the events of an agent's engine leave of its open incident, and the round
-- that a turn without a slot names.
use pi_graph_loop.Prelude.{
  ℕ, String, Bool, false, ◌≡◌, refl, Option, none, some, List, [], ◌∷◌, Record, lookup, foldl,
  Option-cases, put, lookup-put, lookup-erase, arith, eq_iff, Bool-cases, inl, inr,
}
use pi_graph_loop.Types.{ModelSlot, ProbeAnswer, PoolProbeRound}
use pi_graph_loop.Streaks.Retry.{
  Incident, ErrorTurn, next_incident, is_exhausted, engine_strike, engine_recovered, choose_swap,
  picked_slot, no_candidate,
}

-- What an agent's engine does: a turn starts, fails or ends well.
pub data EngineEvent : Type 0 where
  failed : (starts : Record ℕ) → ErrorTurn → EngineEvent
  recovered : (agent_id : String) → EngineEvent

unfoldable pub engine_step : Record Incident → EngineEvent → Record Incident
engine_step incidents (failed starts e) = (engine_strike starts incidents e).incidents
engine_step incidents (recovered id) = engine_recovered incidents id

-- Every open incident has been seen once.
unfoldable pub IsSeenOnce : Record Incident → Type 0
IsSeenOnce incidents = (id : String) (i : Incident) → lookup id incidents ≡ some i → i.count ≡ 1

next_incident_once :
    (starts : Record ℕ) (e : ErrorTurn) (prev : Option Incident)
    → ((i : Incident) → prev ≡ some i → i.count ≡ 1)
    → is_exhausted starts e prev ≡ false
    → (next_incident starts e prev).count ≡ 1
unfolding next_incident is_exhausted
next_incident_once starts e none once live = refl
next_incident_once starts e (some i) once live = ground (arith, once i refl)

strike-IsSeenOnce :
    (starts : Record ℕ) (e : ErrorTurn) (incidents : Record Incident)
    → IsSeenOnce incidents
    → IsSeenOnce (engine_strike starts incidents e).incidents
unfolding IsSeenOnce engine_strike
strike-IsSeenOnce starts e incidents once id i h =
    elim (Bool-cases (is_exhausted starts e (lookup e.agent_id incidents))) [
      | inl gone ↦ ground (
        arith,
        gone,
        h,
        once id i,
        eq_iff e.agent_id id,
        lookup-erase e.agent_id id
            (put e.agent_id (next_incident starts e (lookup e.agent_id incidents)) incidents),
        lookup-put e.agent_id id (next_incident starts e (lookup e.agent_id incidents)) incidents,
      )
      | inr live ↦ ground (
        arith,
        live,
        h,
        once id i,
        lookup-put e.agent_id id (next_incident starts e (lookup e.agent_id incidents)) incidents,
        next_incident_once starts e (lookup e.agent_id incidents) (once e.agent_id) live,
      )
    ]

step-IsSeenOnce :
    (incidents : Record Incident) (event : EngineEvent)
    → IsSeenOnce incidents
    → IsSeenOnce (engine_step incidents event)
unfolding engine_step engine_recovered IsSeenOnce
step-IsSeenOnce incidents (failed starts e) once = strike-IsSeenOnce starts e incidents once
step-IsSeenOnce incidents (recovered j) once =
    λ id i h. once id i (ground (arith, h, lookup-erase j id incidents))

-- After any events of the engines, an agent's open incident has been seen once, so the next error of
-- the same kind on the same slot, while it is live, exhausts it.
pub engine_steps-IsSeenOnce :
    (events : List EngineEvent) (incidents : Record Incident)
    → IsSeenOnce incidents
    → IsSeenOnce (foldl engine_step incidents events)
engine_steps-IsSeenOnce [] incidents once = once
engine_steps-IsSeenOnce (event ∷ events) incidents once =
    engine_steps-IsSeenOnce events (engine_step incidents event)
      (step-IsSeenOnce incidents event once)

-- An error turn that finds no slot never carries a probe round that is used up, whatever
-- `advanceProbeRound` answered; so the operator is not told when the next round opens.
pub no_candidate-unannounced :
    (by_role : Option ModelSlot) (may_bypass : Bool) (bypass : Option ModelSlot)
    (probe : Option ProbeAnswer) (is_capped : Bool) (round : Option PoolProbeRound)
    → choose_swap by_role may_bypass bypass probe is_capped ≡ no_candidate round
    → round ≡ none
unfolding choose_swap
no_candidate-unannounced by_role may_bypass bypass probe is_capped round h =
    elim (Option-cases (picked_slot by_role may_bypass bypass probe)) [
      | inl nothing ↦ ground (arith, nothing, h)
      | inr (p, e) ↦ ground (arith, e, h)
    ]
