-- ===== src/Pool/Probe/Answer.antt =====
-- pool.ts: what the walk of `advanceProbeRound` over the slots leads to.
use pi_graph_loop.Prelude.{
  ℕ, ◌+◌, ◌-◌, ◌≤◌, String, Bool, true, false, ◌≡◌, refl, sym, ◌∙◌, ap, subst, none, some, List,
  Member, Record, length, includes, ==-refl, arith, Bool-cases, Option-cases, inl, inr, ◌⊎◌,
  IsDistinct, IsDistinct-concat, includes-concat, set_add-IsDistinct, unseen,
}
use Prim.Native.Nat.{min}
use pi_graph_loop.Types.{ModelSlot, RotationConfig, PoolSlotHealth, PoolProbeRound, ProbeAnswer}
use pi_graph_loop.Pool.{slot_key}
use pi_graph_loop.Pool.Pick.{get_elem?}
use pi_graph_loop.Pool.Probe.{
  find_index, SlotWalk, due_ms, exhaust, probe_slot, tried_with, walk_round, probe_round,
}
use pi_graph_loop.Pool.Probe.Walked.{
  walk_slots-keeps, walk_slots-IsDistinct, walk_slots-IsFresh, walk_slots-covers, IsFresh,
}
use pi_graph_loop.Pool.Probe.Offsets.{first_lem, offset_lem, get_elem?-of, start_lem}

module _ (iso : ℕ → String) (round_id_of : ℕ → String) (slots : List ModelSlot)
    (rotation : RotationConfig) (resolvable : ModelSlot → Bool) (health : Record PoolSlotHealth)
    (now_ms : ℕ) where
  abbrev walked : ModelSlot → PoolProbeRound → SlotWalk
  walked failed round =
      walk_round iso round_id_of slots rotation resolvable health now_ms failed round

  abbrev pub tried_of : ModelSlot → PoolProbeRound → List String
  tried_of failed round =
      tried_with iso round_id_of slots rotation resolvable health now_ms failed round

  -- Where the loop picks nothing, every slot was tried.
  walked-covers :
      (failed : ModelSlot) (round : PoolProbeRound) (s : ModelSlot)
      → (walked failed round).picked ≡ none
      → Member s slots
      → includes (walked failed round).tried (slot_key s) ≡ true
  unfolding walk_round
  walked-covers failed round s nothing m =
      let start = min round.cursor (length slots - 1) in
      let (r, e, k, l) = first_lem slots s m in
      let (o, before, at) =
        offset_lem (length slots) start (find_index (slot_key s) slots)
          (start_lem slots s round.cursor m) l in
      subst (λ (key : String). includes (walked failed round).tried key ≡ true) k
        (walk_slots-covers slots resolvable start (length slots) 0 (tried_of failed round) o r
          nothing (omega arith) (omega (arith, before)) (ap (get_elem? slots) at ∙ e)
          (ap (λ (key : String). find_index key slots) k ∙ sym at))

  -- The slots' keys are all in the list.
  abbrev pub AllTried : List String → Type 0
  AllTried tried = (s : ModelSlot) → Member s slots → includes tried (slot_key s) ≡ true

  -- A slot is probed that can be resolved and that the round had not tried; it is tried now, and the round
  -- is open.
  abbrev pub IsProbe : List String → ProbeAnswer → Type 0
  IsProbe tried answer =
      (s : ModelSlot) × (answer.slot ≡ some s)
      × Member s slots
      × (resolvable s ≡ true)
      × (includes tried (slot_key s) ≡ false)
      × (includes answer.round.tried_slots (slot_key s) ≡ true)
      × (answer.round.exhausted_at ≡ none)
      × IsDistinct answer.round.tried_slots
      × ((key : String) → includes tried key ≡ true → includes answer.round.tried_slots key ≡ true)

  -- Nothing is probed: every slot was tried, the round is over, and the next one may start within the
  -- ceiling.
  abbrev pub IsExhausted : ProbeAnswer → Type 0
  IsExhausted answer =
      (answer.slot ≡ none)
      × AllTried answer.round.tried_slots
      × (answer.round.exhausted_at ≡ some (record { text = iso now_ms; ms = some now_ms }))
      × ((t : ℕ) × (now_ms ≤ t)
          × (t ≤ now_ms + rotation.bench_max_ms)
          × (answer.round.next_probe_at ≡ some (record { text = iso t; ms = some t })))

  abbrev pub answer : ModelSlot → PoolProbeRound → ProbeAnswer
  answer failed round =
      probe_round iso round_id_of slots rotation resolvable health now_ms failed round

  walked-keeps :
      (failed : ModelSlot) (round : PoolProbeRound) (key : String)
      → includes (tried_of failed round) key ≡ true
      → includes (walked failed round).tried key ≡ true
  unfolding walk_round
  walked-keeps failed round key seen =
      walk_slots-keeps slots resolvable (min round.cursor (length slots - 1)) key (length slots) 0
        (tried_of failed round) seen

  walked-unseen :
      (failed : ModelSlot) (round : PoolProbeRound) (key : String)
      → includes (walked failed round).tried key ≡ false
      → includes (tried_of failed round) key ≡ false
  unfolding walk_round
  walked-unseen failed round key h = elim (Bool-cases (includes (tried_of failed round) key)) [
    | inr unseen ↦ unseen
    | inl seen ↦ cc (h, walked-keeps failed round key seen)
  ]

  walked-IsDistinct :
      (failed : ModelSlot) (round : PoolProbeRound)
      → IsDistinct round.tried_slots
      → IsDistinct (walked failed round).tried
  unfolding walk_round tried_with
  walked-IsDistinct failed round h =
      walk_slots-IsDistinct slots resolvable (min round.cursor (length slots - 1)) (length slots) 0
        (tried_of failed round) (set_add-IsDistinct round.tried_slots (slot_key failed) h)

  walked-IsFresh :
      (failed : ModelSlot) (round : PoolProbeRound)
      → IsFresh slots resolvable
          (min round.cursor (length slots - 1))
          (walked failed round)
          (walked failed round).picked
  unfolding walk_round
  walked-IsFresh failed round =
      walk_slots-IsFresh slots resolvable (min round.cursor (length slots - 1)) (length slots) 0
        (tried_of failed round)

  exhaust-IsExhausted :
      (failed : ModelSlot) (round : PoolProbeRound)
      → (walked failed round).picked ≡ none
      → IsExhausted (
          exhaust iso round_id_of slots rotation resolvable health now_ms round
            (walked failed round).tried)
  unfolding exhaust due_ms
  exhaust-IsExhausted failed round nothing = (
    refl,
    (λ s m. walked-covers failed round s nothing m),
    refl,
    (
      due_ms iso round_id_of slots rotation resolvable health now_ms (walked failed round).tried,
      omega arith,
      omega arith,
      refl,
    ),
  )

  probe_slot-IsProbe :
      (failed : ModelSlot) (round : PoolProbeRound) (idx : ℕ) (s : ModelSlot)
      → IsDistinct round.tried_slots
      → get_elem? slots idx ≡ some s
      → includes (walked failed round).tried (slot_key s) ≡ false
      → resolvable s ≡ true
      → IsProbe (tried_of failed round) (
          probe_slot iso round_id_of slots rotation resolvable health now_ms round
            (walked failed round).tried
            idx
            s)
  unfolding probe_slot
  probe_slot-IsProbe failed round idx s distinct e unseen ok = (
    s,
    refl,
    get_elem?-of slots idx s e,
    ok,
    walked-unseen failed round (slot_key s) unseen,
    includes-concat (walked failed round).tried (slot_key s) (slot_key s)
        ∙ ground (arith, ==-refl (slot_key s)),
    refl,
    IsDistinct-concat (walked failed round).tried (slot_key s)
        (walked-IsDistinct failed round distinct) unseen,
    λ key h.
        includes-concat (walked failed round).tried (slot_key s) key
        ∙ ground (arith, walked-keeps failed round key h),
  )

  pub answer_step :
      (failed : ModelSlot) (round : PoolProbeRound)
      → IsDistinct round.tried_slots
      → IsProbe (tried_of failed round) (answer failed round) ⊎ IsExhausted (answer failed round)
  unfolding probe_round
  answer_step failed round distinct = elim (Option-cases (walked failed round).picked) [
    | inl nothing ↦
        let now : exhaust iso round_id_of slots rotation resolvable health now_ms round
              (walked failed round).tried
            ≡ answer failed round =
          ground (arith, nothing) in
        inr (subst IsExhausted now (exhaust-IsExhausted failed round nothing))
    | inr (idx, e) ↦
        let (s, f, unseen, ok) =
          subst
            (IsFresh slots resolvable (min round.cursor (length slots - 1)) (walked failed round)) e
            (walked-IsFresh failed round) in
        let now : probe_slot iso round_id_of slots rotation resolvable health now_ms round
              (walked failed round).tried idx s
            ≡ answer failed round =
          ground (arith, e, f) in
        inl (
          subst (IsProbe (tried_of failed round)) now
            (probe_slot-IsProbe failed round idx s distinct f unseen ok))
  ]
