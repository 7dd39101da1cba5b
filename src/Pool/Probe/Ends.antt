-- ===== src/Pool/Probe/Ends.antt =====
-- pool.ts: a probe round in which every slot that is probed fails in turn.
use pi_graph_loop.Prelude.{
  below_zero, none_is_some, some_inj, ℕ, zero, suc, ◌<◌, String, Bool, true, false, ◌≡◌, refl, sym,
  ◌∙◌, ap, subst, Option, none, some, List, [], ◌∷◌, Member, Record, length, includes, arith, inl,
  inr, unseen, is_nil, unseen-lt_of_keeps, unseen-le_length, IsDistinct, Option-cases,
}
use pi_graph_loop.Types.{
  ModelSlot, RotationConfig, PoolSlotHealth, PoolProbeRound, ProbeAnswer, Stamp,
}
use pi_graph_loop.Pool.{slot_key}
use pi_graph_loop.Pool.Probe.{advance_probe_round}
use pi_graph_loop.Pool.Probe.Once.{tried_in, IsShut, advance_probe_round-IsStep}
use pi_graph_loop.Pool.Probe.Offsets.{keys_of, keys_of-includes}

length-keys_of : (slots : List ModelSlot) → length (keys_of slots) ≡ length slots
length-keys_of [] = refl
length-keys_of (s ∷ slots) = ap suc (length-keys_of slots)

suc_inj : {m n : ℕ} → suc m ≡ suc n → m ≡ n
suc_inj h = omega (arith, h)

-- `health_at` and `now_at` are the health and the time at a call, by the number of calls that may follow.
module _ (iso : ℕ → String) (round_id_of : ℕ → String) (slots : List ModelSlot)
    (rotation : RotationConfig) (resolvable : ModelSlot → Bool)
    (health_at : ℕ → Record PoolSlotHealth) (now_at : ℕ → ℕ) where
  abbrev advance : ℕ → ModelSlot → Option PoolProbeRound → Option ProbeAnswer
  advance n failed round =
      advance_probe_round iso round_id_of slots rotation resolvable (health_at n) (now_at n) failed
        round

  abbrev next_call :
      (ModelSlot → Option PoolProbeRound → Option PoolProbeRound)
      → PoolProbeRound
      → Option ModelSlot
      → Option PoolProbeRound
  next_call go round none = some round
  next_call go round (some s) = go s (some round)

  abbrev after_call :
      (ModelSlot → Option PoolProbeRound → Option PoolProbeRound)
      → Option ProbeAnswer
      → Option PoolProbeRound
  after_call go none = none
  after_call go (some a) = next_call go a.round a.slot

  -- The round after calls of `advanceProbeRound`, each for the slot that the one before it probed and
  -- on the round that it stored; `none` where the calls did not come to an answer without a slot.
  unfoldable pub probe_all : ℕ → ModelSlot → Option PoolProbeRound → Option PoolProbeRound
  probe_all zero failed round = none
  probe_all (suc n) failed round = after_call (probe_all n) (advance n failed round)

  abbrev left_over : Option PoolProbeRound → ℕ
  left_over round = unseen (keys_of slots) (tried_in round)

  -- The round is over, and every slot was tried.
  abbrev pub IsEnded : Option PoolProbeRound → Type 0
  IsEnded end =
      (r : PoolProbeRound) × (end ≡ some r)
      × ((over : Stamp) × (r.exhausted_at ≡ some over))
      × ((s : ModelSlot) → Member s slots → includes r.tried_slots (slot_key s) ≡ true)

  -- No shut round is left.
  abbrev pub IsOpenAt : ℕ → Option PoolProbeRound → Type 0
  IsOpenAt n round =
      (r : PoolProbeRound)
      → round ≡ some r
      → ¬ IsShut iso round_id_of slots rotation resolvable (health_at n) (now_at n) r

  -- A round that is not exhausted is not shut, at any time.
  open_later : (n : ℕ) (r : PoolProbeRound) → r.exhausted_at ≡ none → IsOpenAt n (some r)
  open_later n r h q e ((over, x), due) =
      none_is_some (sym h ∙ ap (λ (p : PoolProbeRound). p.exhausted_at) (some_inj e) ∙ x)

  tried_later : (r : PoolProbeRound) → r.exhausted_at ≡ none → tried_in (some r) ≡ r.tried_slots
  tried_later r h = ground (arith, h)

  module _ (forced : rotation.force_probe_round ≡ true) (configured : is_nil slots ≡ false) where
    answered :
        (n : ℕ) (failed : ModelSlot) (round : Option PoolProbeRound)
        → (a : ProbeAnswer) × (advance n failed round ≡ some a)
    unfolding advance_probe_round
    answered n failed round = elim (Option-cases (advance n failed round)) [
      | inl nothing ↦ absurd (ground (arith, forced, configured, nothing))
      | inr found ↦ found
    ]

    ends_in :
        (n : ℕ) (failed : ModelSlot) (round : Option PoolProbeRound)
        → ((k : ℕ) → n ≡ suc k → IsOpenAt k round)
        → IsDistinct (tried_in round)
        → left_over round < n
        → IsEnded (probe_all n failed round)
    unfolding probe_all
    ends_in zero failed round fresh distinct h = elim (below_zero h) [ ]
    ends_in (suc n) failed round fresh distinct h =
        let (a, e) = answered n failed round in
        let call : after_call (probe_all n) (advance n failed round)
            ≡ next_call (probe_all n) a.round a.slot =
          ap (after_call (probe_all n)) e in
        elim (advance_probe_round-IsStep iso round_id_of slots rotation resolvable (health_at n)
          (now_at n) failed round a e distinct) [
            | inl (r, q, shut, same) ↦ absurd (fresh n refl r q shut)
            | inr (_, inr (none_left, all, over, due)) ↦
                (a.round, call ∙ ap (next_call (probe_all n) a.round) none_left, (_, over), all)
            | inr (_, inl (s, found, m, ok, other, new, old, open_now, kept, keeps)) ↦
                let tried = tried_later a.round open_now in
                subst IsEnded (sym (call ∙ ap (next_call (probe_all n) a.round) found)) (
                  ends_in n s (some a.round) (λ k _. open_later k a.round open_now)
                    (subst IsDistinct (sym tried) kept)
                    (omega (
                      arith,
                      h,
                      ap (unseen (keys_of slots)) tried,
                      unseen-lt_of_keeps (keys_of slots) (tried_in round) a.round.tried_slots
                          (slot_key s) keeps (keys_of-includes slots s m) new old,
                    )))
          ]

    -- Where probe rounds are configured on and there is a slot: calls of `advanceProbeRound` that begin
    -- with a round that tried no slot twice and is not shut, each after the slot probed before it failed
    -- too and on the round that it left, at whatever times, end the round with every slot tried, within one
    -- call more than there are slots.
    pub probe_all-IsEnded :
        (failed : ModelSlot) (round : Option PoolProbeRound)
        → IsDistinct (tried_in round)
        → IsOpenAt (length slots) round
        → IsEnded (probe_all (suc (length slots)) failed round)
    probe_all-IsEnded failed round distinct fresh =
        ends_in (suc (length slots)) failed round
          (λ k e. subst (λ (n : ℕ). IsOpenAt n round) (suc_inj e) fresh) distinct
          (omega (arith, unseen-le_length (keys_of slots) (tried_in round), length-keys_of slots))
