-- ===== src/Examples/Streaks.antt =====
-- The streak watchers and the engine's retries.
use pi_graph_loop.Prelude.{
  ℕ, ◌≤◌, ◌≡◌, refl, String, true, false, none, some, List, [], ◌∷◌, lookup, put, erase,
}
use pi_graph_loop.Types.{PoolProbeRound, ProviderErrorKind}
use pi_graph_loop.Streaks.{get_swap_chain_count, bump_swap_chain, is_swap_capped, max_swap_chain}
use pi_graph_loop.Streaks.Chain.{
  Swaps, replay, times, run_length, IsPermitted, get_swap_chain_count-IsRun, permitted_swaps-le,
}
use pi_graph_loop.Streaks.Retry.{
  ErrorTurn, no_candidate, choose_swap, picked_slot, engine_strike, is_exhausted, continues,
  next_incident,
}
use pi_graph_loop.Streaks.Gate.{EngineEvent, failed, recovered, engine_step}

-- Two swaps within a minute, and one of another agent.
abbrev swaps : Swaps
swaps = ("root", 1_060_000) ∷ ("tester-01", 1_030_000) ∷ ("root", 1_000_000) ∷ []

get_swap_chain_count-IsRun_example :
    get_swap_chain_count (replay swaps) "root" 1_100_000 ≡ run_length 1_100_000 (times "root" swaps)
get_swap_chain_count-IsRun_example = get_swap_chain_count-IsRun swaps "root" 1_100_000

two_swaps : get_swap_chain_count (replay swaps) "root" 1_100_000 ≡ 2
unfolding get_swap_chain_count replay bump_swap_chain lookup put
two_swaps = refl

all-IsPermitted : IsPermitted swaps
unfolding IsPermitted is_swap_capped replay bump_swap_chain lookup put
all-IsPermitted = (refl, (refl, (refl, tt)))

permitted_swaps-le_example : get_swap_chain_count (replay swaps) "root" 1_100_000 ≤ max_swap_chain
permitted_swaps-le_example = permitted_swaps-le swaps "root" 1_100_000 all-IsPermitted

abbrev turns : List (String × ℕ)
turns = ("root", 1_000_000) ∷ ("root", 1_100_000) ∷ ("root", 1_400_000) ∷ []

abbrev error_at : ℕ → ErrorTurn
error_at t = record {
  agent_id = "root";
  provider_key = "ccs/glm";
  kind = ProviderErrorKind.quota;
  error_message = "usage limit";
  at = t;
}

abbrev events : List EngineEvent
events = failed [] (error_at 1_000_000) ∷ failed [] (error_at 1_004_000) ∷ recovered "root" ∷ []

second_exhausts :
    (engine_strike []
      (engine_step [] (failed [] (error_at 1_000_000)))
      (error_at 1_004_000)).exhausted
    ≡ true
unfolding engine_strike engine_step lookup put erase is_exhausted continues next_incident
second_exhausts = refl

abbrev spent_round : PoolProbeRound
spent_round = record {
  round_id = "probe-1";
  started_at = record { text = "iso"; ms = some 1_000_000 };
  tried_slots = "ccs/glm" ∷ [];
  cursor = 0;
  exhausted_at = some (record { text = "iso"; ms = some 1_000_000 });
  next_probe_at = some (record { text = "iso"; ms = some 2_000_000 });
  wake_sent_at = none;
}

-- The round is used up, and the turn finds no candidate without naming it.
spent_unannounced :
    choose_swap none true none (some (record { slot = none; round = spent_round })) false
    ≡ no_candidate none
unfolding choose_swap picked_slot
spent_unannounced = refl
