-- ===== src/Pool/Pick/Served.antt =====
-- pool.ts: which slots can serve a turn, and what `pickSlot` picks of them.
use pi_graph_loop.Prelude.{
  Member-not_nil, below_zero, ℕ, zero, suc, ◌-◌, ◌<◌, String, Bool, true, false, ◌≡◌, refl, sym, ap,
  subst, ◌&&◌, Option, none, some, List, [], ◌∷◌, Member, here, there, filter, filter_sound,
  filter_complete, length, leb, ltb, nat_eq, is_nil, arith, &&-split, Bool-cases, if_ind, inl, inr,
  ◌⊎◌,
}
use Prim.Native.Nat.{◌%◌}
use native.Mathlib.Nat.{mod-lt}
use pi_graph_loop.Types.{ModelSlot, RotationStrategy, RotationConfig, PoolHealthState}
use pi_graph_loop.Pool.Pick.Servable.{IsServable, IsServable-iff}
use pi_graph_loop.Pool.Pick.{
  PickOptions, Candidate, PickResult, PickReason, get_elem?, weight_of, weighted_choice, is_not,
  filter_avoiding, numbered, visible_slots, is_cool, eligible_slots, fallback_slots, picked_as,
  pick_cursor, pick_by, first_fallback, pick_slot, by_key, is_avoided, sticky_pick, weighted_pick,
  round_robin_pick, fallback_only,
}

get_elem?-Member :
    {A : Type 0} (xs : List A) (n : ℕ)
    → n < length xs
    → (a : A) × (get_elem? xs n ≡ some a) × Member a xs
get_elem?-Member [] n h = elim (below_zero h) [ ]
get_elem?-Member (x ∷ xs) zero h = (x, refl, here refl)
get_elem?-Member (x ∷ xs) (suc n) h =
    let (a, e, m) = get_elem?-Member xs n (omega arith) in (a, e, there m)

weighted_choice-Member :
    (roll : ℕ) (cs : List Candidate)
    → is_nil cs ≡ false
    → (c : Candidate) × (weighted_choice roll cs ≡ some c) × Member c cs
unfolding weighted_choice
weighted_choice-Member roll [] h = cc h
weighted_choice-Member roll (c ∷ []) h = (c, refl, here refl)
weighted_choice-Member roll (c ∷ d ∷ cs) h = elim (Bool-cases (leb roll (weight_of c.slot))) [
  | inl e ↦ (c, ground (arith, e), here refl)
  | inr e ↦
      let (b, q, m) = weighted_choice-Member (roll - weight_of c.slot) (d ∷ cs) refl in
      (b, ground (arith, e, q), there m)
]

length-pos : {A : Type 0} (xs : List A) → is_nil xs ≡ false → 0 < length xs
length-pos [] h = cc h
length-pos (x ∷ xs) h = omega arith

-- The pick is one of the candidates.
abbrev IsOf : List Candidate → Option PickResult → Type 0
IsOf cs pick =
    (c : Candidate) × (r : PickResult) × (pick ≡ some r) × (r.slot ≡ c.slot) × Member c cs

picked_as-IsOf :
    (why : Candidate → PickReason) (o : Option Candidate) (cs : List Candidate)
    → (c : Candidate) × (o ≡ some c) × Member c cs
    → IsOf cs (picked_as why o)
picked_as-IsOf why o cs (c, e, m) =
    (c, record { slot = c.slot; index = c.index; reason = why c }, ap (picked_as why) e, refl, m)

module _ (hash : String → ℕ) (roll : ℕ) where
  nth-IsOf :
      (why : Candidate → PickReason) (n : ℕ) (cs : List Candidate)
      → is_nil cs ≡ false
      → IsOf cs (picked_as why (get_elem? cs (n % length cs)))
  nth-IsOf why n cs h =
      picked_as-IsOf why (get_elem? cs (n % length cs)) cs
        (get_elem?-Member cs (n % length cs) (mod-lt n (length-pos cs h)))

  by_weight-IsOf :
      (why : Candidate → PickReason) (cs : List Candidate)
      → is_nil cs ≡ false
      → IsOf cs (picked_as why (weighted_choice roll cs))
  by_weight-IsOf why cs h =
      picked_as-IsOf why (weighted_choice roll cs) cs (weighted_choice-Member roll cs h)

  by_key-IsOf :
      (h : PoolHealthState) (key : Option String) (cs : List Candidate)
      → is_nil cs ≡ false
      → IsOf cs (by_key hash roll h key cs).1
  by_key-IsOf h none cs e = by_weight-IsOf (λ c. weighted_pick (weight_of c.slot)) cs e
  by_key-IsOf h (some key) cs e = nth-IsOf (λ c. sticky_pick key) (hash key) cs e

  pick_by-IsOf :
      (s : RotationStrategy) (opts : PickOptions) (h : PoolHealthState) (cs : List Candidate)
      → is_nil cs ≡ false
      → IsOf cs (pick_by hash roll s opts h cs).1
  unfolding pick_by pick_cursor
  pick_by-IsOf RotationStrategy.weighted opts h cs e =
      by_weight-IsOf (λ c. weighted_pick (weight_of c.slot)) cs e
  pick_by-IsOf RotationStrategy.sticky opts h cs e = by_key-IsOf h opts.sticky_key cs e
  pick_by-IsOf RotationStrategy.round_robin opts h cs e =
      picked_as-IsOf (λ c. round_robin_pick (pick_cursor h.rr_cursor opts.avoid_key cs))
        (get_elem? cs (pick_cursor h.rr_cursor opts.avoid_key cs)) cs
        (get_elem?-Member cs (pick_cursor h.rr_cursor opts.avoid_key cs) (
          if_ind (λ n. n < length cs)
            (ltb 1 (length cs)
              && is_avoided opts.avoid_key (get_elem? cs (h.rr_cursor % length cs)))
            (λ moved. mod-lt (suc (h.rr_cursor % length cs)) (length-pos cs e))
            (λ kept. mod-lt h.rr_cursor (length-pos cs e))))

numbered_sound :
    (i : ℕ) (slots : List ModelSlot) {c : Candidate}
    → Member c (numbered i slots)
    → Member c.slot slots
numbered_sound i [] m = elim m [ ]
numbered_sound i (s ∷ slots) (here e) = here (ap (λ (c : Candidate). c.slot) e)
numbered_sound i (s ∷ slots) (there m) = there (numbered_sound (suc i) slots m)

numbered_complete :
    (i : ℕ) (slots : List ModelSlot) {s : ModelSlot}
    → Member s slots
    → (c : Candidate) × Member c (numbered i slots) × (c.slot ≡ s)
numbered_complete i [] m = elim m [ ]
numbered_complete i (t ∷ slots) (here e) = (record { slot = t; index = i }, here refl, sym e)
numbered_complete i (t ∷ slots) (there m) =
    let (c, n, e) = numbered_complete (suc i) slots m in (c, there n, e)

clash : {b : Bool} → b ≡ false → b ≡ true → ⊥
clash f t = cc (f, t)

module _ (hash : String → ℕ) (roll : ℕ) (slots : List ModelSlot) (opts : PickOptions) (now_ms : ℕ)
    (h : PoolHealthState) where
  -- The tests of the code.
  abbrev IsCandidate : ModelSlot → Type 0
  IsCandidate s =
      Member s (visible_slots slots opts)
      × (is_cool h now_ms s ≡ true)
      × (is_not opts.avoid_key s ≡ true)

  alternatives_sound :
      (good : ModelSlot → Bool) {c : Candidate}
      → Member c (
          filter_avoiding
            (filter
              (λ (d : Candidate). good d.slot && is_cool h now_ms d.slot)
              (numbered 0 (visible_slots slots opts)))
            opts.avoid_key)
      → IsCandidate c.slot × (good c.slot ≡ true)
  unfolding filter_avoiding
  alternatives_sound good {c} m =
      let (inner, other) =
        filter_sound (λ (d : Candidate). is_not opts.avoid_key d.slot)
          (filter (λ (d : Candidate). good d.slot && is_cool h now_ms d.slot)
            (numbered 0 (visible_slots slots opts)))
          m in
      let (seen, both) =
        filter_sound (λ (d : Candidate). good d.slot && is_cool h now_ms d.slot)
          (numbered 0 (visible_slots slots opts)) inner in
      let (ok, cool) = &&-split (good c.slot) (is_cool h now_ms c.slot) both in
      ((numbered_sound 0 (visible_slots slots opts) seen, cool, other), ok)

  alternatives_complete :
      (good : ModelSlot → Bool) (s : ModelSlot)
      → IsCandidate s
      → good s ≡ true
      → is_nil (
          filter_avoiding
            (filter
              (λ (d : Candidate). good d.slot && is_cool h now_ms d.slot)
              (numbered 0 (visible_slots slots opts)))
            opts.avoid_key)
        ≡ false
  unfolding filter_avoiding
  alternatives_complete good s (m, cool, other) ok =
      let (c, n, e) = numbered_complete 0 (visible_slots slots opts) m in
      Member-not_nil _ (
        filter_complete (λ (d : Candidate). is_not opts.avoid_key d.slot)
          (filter (λ (d : Candidate). good d.slot && is_cool h now_ms d.slot)
            (numbered 0 (visible_slots slots opts)))
          (filter_complete (λ (d : Candidate). good d.slot && is_cool h now_ms d.slot)
            (numbered 0 (visible_slots slots opts)) n
            (subst (λ (t : ModelSlot). (good t && is_cool h now_ms t) ≡ true) (sym e)
              (ground (arith, ok, cool))))
          (subst (λ (t : ModelSlot). is_not opts.avoid_key t ≡ true) (sym e) other))

  abbrev IsOk : ModelSlot → Type 0
  IsOk s = IsServable slots opts now_ms h s

  passes : (s : ModelSlot) → IsOk s → IsCandidate s
  passes s ok = (IsServable-iff slots opts now_ms h s).1 ok

  -- The pick serves a slot, and one without weight only where no slot with a weight can serve.
  abbrev pub IsServed : Option PickResult → Type 0
  IsServed pick =
      (r : PickResult) × (pick ≡ some r)
      × IsOk r.slot
      × ((s : ModelSlot) → IsOk s → 0 < weight_of s → 0 < weight_of r.slot)

  abbrev pub IsPick : Option PickResult → Type 0
  IsPick pick = ((pick ≡ none) × ((s : ModelSlot) → ¬ IsOk s)) ⊎ IsServed pick

  abbrev alt : List Candidate
  alt = filter_avoiding (eligible_slots h now_ms (visible_slots slots opts)) opts.avoid_key

  abbrev fallback_alt : List Candidate
  fallback_alt = filter_avoiding (fallback_slots h now_ms (visible_slots slots opts)) opts.avoid_key

  weighted_alternative : (s : ModelSlot) → IsOk s → 0 < weight_of s → is_nil alt ≡ false
  unfolding eligible_slots
  weighted_alternative s servable weighted =
      alternatives_complete (λ (t : ModelSlot). ltb 0 (weight_of t)) s (passes s servable)
        (ground arith)

  weightless_alternative : (s : ModelSlot) → IsOk s → weight_of s ≡ 0 → is_nil fallback_alt ≡ false
  unfolding fallback_slots
  weightless_alternative s servable weightless =
      alternatives_complete (λ (t : ModelSlot). nat_eq (weight_of t) 0) s (passes s servable)
        (ground arith)

  of_weighted : (pick : Option PickResult) → IsOf alt pick → IsServed pick
  unfolding eligible_slots
  of_weighted pick (c, r, e, q, m) =
      let (servable, weighted) = alternatives_sound (λ (t : ModelSlot). ltb 0 (weight_of t)) m in
      (
        r,
        e,
        subst IsOk (sym q) ((IsServable-iff slots opts now_ms h c.slot).0 servable),
        λ s ok heavy. subst (λ (t : ModelSlot). 0 < weight_of t) (sym q) (ground (arith, weighted)),
      )

  fallback-IsPick :
      is_nil alt ≡ true
      → (cs : List Candidate) → cs ≡ fallback_alt
      → IsPick (first_fallback hash roll cs)
  unfolding fallback_slots
  fallback-IsPick idle [] e = inl (
    refl,
    λ s ok. elim (Bool-cases (ltb 0 (weight_of s))) [
      | inl heavy ↦ cc (weighted_alternative s ok (ground (arith, heavy)), idle)
      | inr light ↦ cc (weightless_alternative s ok (ground (arith, light)), ap is_nil e)
    ],
  )
  fallback-IsPick idle (c ∷ cs) e = inr (
    record { slot = c.slot; index = c.index; reason = fallback_only },
    refl,
    (IsServable-iff slots opts now_ms h c.slot).0
        (alternatives_sound (λ (t : ModelSlot). nat_eq (weight_of t) 0)
          (subst (Member c) e (here refl))).0,
    λ s ok heavy. elim (clash (weighted_alternative s ok heavy) idle) [ ],
  )

  -- `pickSlot` returns a slot exactly where one can serve: it is for the role that is asked for (one
  -- without roles only where no slot with roles is), off cooldown and not the one that failed; where
  -- every such slot is benched it returns none. Under every strategy the slot it returns can serve, and
  -- it is one kept as a fallback only where no slot with a weight can.
  pub pick_slot_correct :
      (rotation : RotationConfig) → IsPick (pick_slot hash roll slots rotation opts now_ms h).1
  unfolding pick_slot
  pick_slot_correct rotation = elim (Bool-cases (is_nil alt)) [
    | inl idle ↦ subst IsPick (ground (arith, idle)) (fallback-IsPick idle fallback_alt refl)
    | inr busy ↦ subst IsPick (ground (arith, busy)) (
        inr (
          of_weighted (pick_by hash roll rotation.strategy opts h alt).1
            (pick_by-IsOf hash roll rotation.strategy opts h alt busy)))
  ]
