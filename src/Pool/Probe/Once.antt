-- ===== src/Pool/Probe/Once.antt =====
-- pool.ts: what one call of `advanceProbeRound` may answer.
use pi_graph_loop.Prelude.{
  ℕ, ◌<◌, String, Bool, true, false, ◌≡◌, ◌≢◌, refl, sym, ◌∙◌, ap, subst, ◌&&◌, Option, none, some,
  List, [], Member, Record, includes, includes-set_add, eq_iff, arith, Bool-cases, Option-cases,
  inl, inr, ◌⊎◌, IsDistinct, set_add, true_is_false, none_is_some, some_inj,
}
use pi_graph_loop.Types.{
  ModelSlot, RotationConfig, PoolSlotHealth, PoolProbeRound, ProbeAnswer, Stamp,
}
use pi_graph_loop.Pool.{slot_key, is_after}
use pi_graph_loop.Pool.Probe.{
  is_closed, current_round, fresh_round, tried_with, advance_probe_round,
}
use pi_graph_loop.Pool.Probe.Answer.{IsProbe, IsExhausted, tried_of, answer, answer_step}

-- The keys that the round which goes on has tried: none where there is no round, or where the last one is
-- over.
abbrev pub tried_in : Option PoolProbeRound → List String
tried_in none = []
tried_in (some r) = elim r.exhausted_at [
  | none ↦ r.tried_slots
  | some over ↦ elim r.next_probe_at [ none ↦ r.tried_slots | some due ↦ [] ]
]

module _ (iso : ℕ → String) (round_id_of : ℕ → String) (slots : List ModelSlot)
    (rotation : RotationConfig) (resolvable : ModelSlot → Bool) (health : Record PoolSlotHealth)
    (now_ms : ℕ) where
  -- The round is over and the next one is not due.
  abbrev pub IsShut : PoolProbeRound → Type 0
  IsShut r =
      ((over : Stamp) × (r.exhausted_at ≡ some over))
      × ((due : Stamp) × (t : ℕ) × (r.next_probe_at ≡ some due) × (due.ms ≡ some t) × (now_ms < t))

  -- A slot is probed that is configured, can be resolved, is not the one that failed and was not tried in
  -- this round; it is tried now, with all that was tried, nothing twice, and the round is open.
  abbrev pub IsProbed : ModelSlot → Option PoolProbeRound → ProbeAnswer → Type 0
  IsProbed failed round a =
      (s : ModelSlot) × (a.slot ≡ some s)
      × Member s slots
      × (resolvable s ≡ true)
      × (slot_key s ≢ slot_key failed)
      × (includes (tried_in round) (slot_key s) ≡ false)
      × (includes a.round.tried_slots (slot_key s) ≡ true)
      × (a.round.exhausted_at ≡ none)
      × IsDistinct a.round.tried_slots
      × ((key : String)
          → includes (tried_in round) key ≡ true
          → includes a.round.tried_slots key ≡ true)

  abbrev pub IsOver : ProbeAnswer → Type 0
  IsOver a = IsExhausted iso round_id_of slots rotation resolvable health now_ms a

  -- A shut round is answered as it is, without a slot; otherwise a slot is probed or the round ends.
  abbrev pub IsStep : ModelSlot → Option PoolProbeRound → ProbeAnswer → Type 0
  IsStep failed round a =
      ((r : PoolProbeRound) × (round ≡ some r) × IsShut r × (a ≡ record { slot = none; round = r }))
      ⊎ ((r : PoolProbeRound) → round ≡ some r → ¬ IsShut r) × (IsProbed failed round a ⊎ IsOver a)

  abbrev current : Option PoolProbeRound → PoolProbeRound
  current round = current_round iso round_id_of slots rotation resolvable health now_ms round

  current-tried : (round : Option PoolProbeRound) → (current round).tried_slots ≡ tried_in round
  unfolding current_round fresh_round
  current-tried none = refl
  current-tried (some r) = elim (Option-cases r.exhausted_at) [
    | inl open_now ↦ ground (arith, open_now)
    | inr (over, e) ↦ elim (Option-cases r.next_probe_at) [
      | inl undated ↦ ground (arith, e, undated)
      | inr (due, d) ↦ ground (arith, e, d)
    ]
  ]

  abbrev shuts : PoolProbeRound → Bool
  shuts r = is_closed r && is_after now_ms r.next_probe_at

  shuts_sound : (r : PoolProbeRound) → shuts r ≡ true → IsShut r
  shuts_sound r h = elim (Option-cases r.exhausted_at) [
    | inl open_now ↦ absurd (ground (arith, h, open_now))
    | inr (over, e) ↦ elim (Option-cases r.next_probe_at) [
      | inl undated ↦ absurd (ground (arith, h, undated))
      | inr (due, d) ↦ elim (Option-cases due.ms) [
        | inl unread ↦ absurd (ground (arith, h, d, unread))
        | inr (t, at) ↦ ((over, e), (due, t, d, at, ground (arith, h, d, at)))
      ]
    ]
  ]

  shuts_complete : (r : PoolProbeRound) → IsShut r → shuts r ≡ true
  shuts_complete r ((over, e), (due, t, d, at, later)) = ground (arith, e, d, at, later)

  seen_failed :
      (failed s : ModelSlot) (r : PoolProbeRound)
      → slot_key s ≡ slot_key failed
      → includes (set_add r.tried_slots (slot_key failed)) (slot_key s) ≡ true
  seen_failed failed s r same =
      includes-set_add r.tried_slots (slot_key failed) (slot_key s)
      ∙ ground (arith, same, eq_iff (slot_key failed) (slot_key s))

  probed :
      (failed : ModelSlot) (round : Option PoolProbeRound) (a : ProbeAnswer)
      → IsProbe iso round_id_of slots rotation resolvable health now_ms
          (tried_of iso round_id_of slots rotation resolvable health now_ms failed (current round))
          a
      → IsProbed failed round a
  unfolding tried_with
  probed failed round a (s, e, m, ok, new, old, open_now, distinct, keeps) =
      let base : (current round).tried_slots ≡ tried_in round = current-tried round in
      (
        s,
        e,
        m,
        ok,
        λ same. true_is_false (sym (seen_failed failed s (current round) same) ∙ new),
        ground (
          arith,
          new,
          base,
          includes-set_add (current round).tried_slots (slot_key failed) (slot_key s),
        ),
        old,
        open_now,
        distinct,
        λ key h. keeps key (
            includes-set_add (current round).tried_slots (slot_key failed) key
            ∙ ground (arith, h, base)),
      )

  abbrev answer_now : ModelSlot → Option PoolProbeRound → ProbeAnswer
  answer_now failed round =
      answer iso round_id_of slots rotation resolvable health now_ms failed (current round)

  stepped :
      (failed : ModelSlot) (round : Option PoolProbeRound) (a : ProbeAnswer)
      → IsDistinct (tried_in round)
      → answer_now failed round ≡ a
      → IsProbed failed round a ⊎ IsOver a
  stepped failed round a distinct now =
      subst (λ (b : ProbeAnswer). IsProbed failed round b ⊎ IsOver b) now
        (elim (answer_step iso round_id_of slots rotation resolvable health now_ms failed
          (current round) (subst IsDistinct (sym (current-tried round)) distinct)) [
            | inl p ↦ inl (probed failed round (answer_now failed round) p)
            | inr x ↦ inr x
          ])

  pub advance_probe_round-IsStep :
      (failed : ModelSlot) (round : Option PoolProbeRound) (a : ProbeAnswer)
      → advance_probe_round iso round_id_of slots rotation resolvable health now_ms failed round
        ≡ some a
      → IsDistinct (tried_in round)
      → IsStep failed round a
  unfolding advance_probe_round
  advance_probe_round-IsStep failed none a h distinct =
      let now : answer_now failed none ≡ a = ground (arith, h) in
      inr (λ r e shut. none_is_some e, stepped failed none a distinct now)
  advance_probe_round-IsStep failed (some r) a h distinct = elim (Bool-cases (shuts r)) [
    | inl shut ↦ inl (r, refl, shuts_sound r shut, ground (arith, h, shut))
    | inr open_now ↦
        let now : answer_now failed (some r) ≡ a = ground (arith, h, open_now) in
        inr (
          λ q e shut.
              true_is_false (sym (shuts_complete q shut) ∙ ap shuts (sym (some_inj e)) ∙ open_now),
          stepped failed (some r) a distinct now,
        )
  ]
