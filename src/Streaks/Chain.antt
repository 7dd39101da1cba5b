-- ===== src/Streaks/Chain.antt =====
-- hooks/streaks.ts: the swap chain against the history of an agent's swaps.
use pi_graph_loop.Prelude.{
  ℕ, suc, ◌≤◌, String, false, ◌≡◌, refl, sym, subst, Option, none, some, List, [], ◌∷◌, lookup,
  lookup-put, if◌then◌else◌, ◌==◌, eq_iff, arith, ap, ◌∙◌, Bool-cases, inl, inr,
}
use pi_graph_loop.Streaks.{
  SwapChain, Chains, max_swap_chain, is_quiet_gap, bump_swap_chain, get_swap_chain_count,
  is_swap_capped, bumped, chain_count,
}

-- A swap of an agent at a time; the latest swap comes first.
abbrev pub Swaps : Type 0
Swaps = List (String × ℕ)

unfoldable pub replay : Swaps → Chains
replay [] = []
replay ((id, t) ∷ swaps) = (bump_swap_chain (replay swaps) id t).0

-- The times of an agent's swaps.
unfoldable pub times : String → Swaps → List ℕ
times id [] = []
times id ((j, t) ∷ swaps) = if j == id then t ∷ times id swaps else times id swaps

-- Counting back from a time, how many swaps follow one another without a quiet gap.
unfoldable pub run_length : ℕ → List ℕ → ℕ
run_length now_ms [] = 0
run_length now_ms (t ∷ ts) = if is_quiet_gap t now_ms then 0 else suc (run_length t ts)

abbrev chain_of : List ℕ → Option SwapChain
chain_of [] = none
chain_of (t ∷ ts) = some (record { count = suc (run_length t ts); at = t })

bumped-chain_of :
    (ts : List ℕ) (t : ℕ)
    → bumped (chain_of ts) t ≡ record { count = suc (run_length t ts); at = t }
unfolding run_length
bumped-chain_of [] t = ground arith
bumped-chain_of (u ∷ ts) t = ground arith

lookup-replay : (id : String) (swaps : Swaps) → lookup id (replay swaps) ≡ chain_of (times id swaps)
unfolding lookup replay times bump_swap_chain
lookup-replay id [] = refl
lookup-replay id ((j, t) ∷ swaps) = elim (Bool-cases (j == id)) [
  | inl e ↦ ground (
    arith,
    e,
    eq_iff j id,
    lookup-put j id (bumped (lookup j (replay swaps)) t) (replay swaps),
    lookup-replay id swaps,
    bumped-chain_of (times id swaps) t,
  )
  | inr e ↦ ground (
    arith,
    e,
    lookup-put j id (bumped (lookup j (replay swaps)) t) (replay swaps),
    lookup-replay id swaps,
  )
]

chain_count-chain_of :
    (ts : List ℕ) (now_ms : ℕ) → chain_count (chain_of ts) now_ms ≡ run_length now_ms ts
unfolding run_length
chain_count-chain_of [] now_ms = refl
chain_count-chain_of (t ∷ ts) now_ms = refl

-- After any swaps of any agents, the count that the engine reads for an agent at a time is the
-- number of that agent's swaps, counting back from the time, that follow one another without a gap
-- of more than five minutes.
pub get_swap_chain_count-IsRun :
    (swaps : Swaps) (id : String) (now_ms : ℕ)
    → get_swap_chain_count (replay swaps) id now_ms ≡ run_length now_ms (times id swaps)
unfolding get_swap_chain_count
get_swap_chain_count-IsRun swaps id now_ms =
    ap (λ (c : Option SwapChain). chain_count c now_ms) (lookup-replay id swaps)
    ∙ chain_count-chain_of (times id swaps) now_ms

-- Every swap passed the cap test against the swaps before it.
unfoldable pub IsPermitted : Swaps → Type 0
IsPermitted [] = Unit
IsPermitted ((id, t) ∷ swaps) = (is_swap_capped (replay swaps) id t ≡ false) × IsPermitted swaps

permitted-run :
    (swaps : Swaps) (id : String) (now_ms : ℕ)
    → IsPermitted swaps
    → run_length now_ms (times id swaps) ≤ max_swap_chain
unfolding run_length times IsPermitted is_swap_capped get_swap_chain_count
permitted-run [] id now_ms h = omega arith
permitted-run ((j, t) ∷ swaps) id now_ms h = elim (Bool-cases (j == id)) [
  | inl e ↦
      let before = get_swap_chain_count-IsRun swaps id t in
      ground (arith, e, eq_iff j id, h.0, before)
  | inr e ↦ ground (arith, e, permitted-run swaps id now_ms h.1)
]

-- Where every swap passed the cap test, no agent ever has more than two swaps in a run without a
-- quiet gap, whatever other agents do in between.
pub permitted_swaps-le :
    (swaps : Swaps) (id : String) (now_ms : ℕ)
    → IsPermitted swaps
    → get_swap_chain_count (replay swaps) id now_ms ≤ max_swap_chain
permitted_swaps-le swaps id now_ms h =
    subst (λ n. n ≤ max_swap_chain) (sym (get_swap_chain_count-IsRun swaps id now_ms))
      (permitted-run swaps id now_ms h)
