-- ===== src/Surface/Coalesce/Merge.antt =====
-- surface/coalesce.ts: what one message does to the map of groups.
use pi_graph_loop.Prelude.{
  none_is_some, some_inj, ℕ, ◌≤◌, String, true, ◌≡◌, refl, sym, ◌∙◌, ap, subst, some, [], Record,
  lookup, put, includes, includes-concat, ==-refl, eq_iff, arith, Bool-cases, Option-cases, inl,
  inr, ◌⊎◌,
}
use pi_graph_loop.Types.{SwarmMessage}
use pi_graph_loop.Surface.Rank.{time_of_message}
use pi_graph_loop.Surface.Coalesce.{
  CoalescedEntry, Fate, shown, consumed_now, suppressed, is_as_new, merge_entry, coalesce,
}

pub shown_not_consumed : shown ≡ consumed_now → ⊥
shown_not_consumed h = cc h

pub shown_not_suppressed : shown ≡ suppressed → ⊥
shown_not_suppressed h = cc h

pub consumed_not_suppressed : consumed_now ≡ suppressed → ⊥
consumed_not_suppressed h = cc h

pub Fate-cases : (f : Fate) → (f ≡ shown) ⊎ ((f ≡ consumed_now) ⊎ (f ≡ suppressed))
Fate-cases shown = inl refl
Fate-cases consumed_now = inr (inl refl)
Fate-cases suppressed = inr (inr refl)

-- Where both times are numbers, the first is no later.
abbrev pub LeTime : SwarmMessage → SwarmMessage → Type 0
LeTime a b = (s t : ℕ) → time_of_message a ≡ some s → time_of_message b ≡ some t → s ≤ t

pub LeTime-refl : (a : SwarmMessage) → LeTime a a
LeTime-refl a s t e f = ground (arith, e, f)

-- The entry keeps the message or drops it, and keeps none that is older.
abbrev pub IsPlaced : SwarmMessage → CoalescedEntry → Type 0
IsPlaced m e = ((e.msg ≡ m) ⊎ (includes e.dropped m.id ≡ true)) × LeTime m e.msg

pub merge_dropped :
    (m n : SwarmMessage) (e : CoalescedEntry)
    → (e.msg ≡ n) ⊎ (includes e.dropped n.id ≡ true)
    → ((merge_entry m e).msg ≡ n) ⊎ (includes (merge_entry m e).dropped n.id ≡ true)
unfolding merge_entry
merge_dropped m n e kept =
    elim (Bool-cases (is_as_new (time_of_message m) (time_of_message e.msg))) [
      | inl newer ↦ elim kept [
        | inl same ↦ inr (
            ground (
              arith,
              newer,
              includes-concat e.dropped e.msg.id n.id,
              eq_iff e.msg.id n.id,
              ap (λ (k : SwarmMessage). k.id) same,
            ))
        | inr old ↦ inr (ground (arith, newer, old, includes-concat e.dropped e.msg.id n.id))
      ]
      | inr older ↦ elim kept [
        | inl same ↦ inl (ground (arith, older, same))
        | inr old ↦ inr (ground (arith, older, old, includes-concat e.dropped m.id n.id))
      ]
    ]

pub merge_new :
    (m : SwarmMessage) (e : CoalescedEntry)
    → ((merge_entry m e).msg ≡ m) ⊎ (includes (merge_entry m e).dropped m.id ≡ true)
unfolding merge_entry
merge_new m e = elim (Bool-cases (is_as_new (time_of_message m) (time_of_message e.msg))) [
  | inl newer ↦ inl (ground (arith, newer))
  | inr older ↦ inr (ground (arith, older, includes-concat e.dropped m.id m.id, ==-refl m.id))
]

pub merge_msg :
    (m : SwarmMessage) (e : CoalescedEntry)
    → ((merge_entry m e).msg ≡ m) ⊎ ((merge_entry m e).msg ≡ e.msg)
unfolding merge_entry
merge_msg m e = elim (Bool-cases (is_as_new (time_of_message m) (time_of_message e.msg))) [
  | inl newer ↦ inl (ground (arith, newer))
  | inr older ↦ inr (ground (arith, older))
]

pub merge_le_new : (m : SwarmMessage) (e : CoalescedEntry) → LeTime m (merge_entry m e).msg
unfolding merge_entry
merge_le_new m e s t f g = ground (arith, f, g)

pub merge_le_old :
    (m n : SwarmMessage) (e : CoalescedEntry) → LeTime n e.msg → LeTime n (merge_entry m e).msg
unfolding merge_entry
merge_le_old m n e le s t f g =
    elim (Bool-cases (is_as_new (time_of_message m) (time_of_message e.msg))) [
      | inl newer ↦ elim (Option-cases (time_of_message e.msg)) [
        | inl nothing ↦ ground (arith, newer, nothing)
        | inr (u, h) ↦ ground (arith, newer, le s u f h, f, g, h)
      ]
      | inr older ↦ le s t f (ground (arith, older, g))
    ]

-- How the map changes: one group's entry becomes the message's, or takes it in.
pub coalesce_lem :
    (groups : Record CoalescedEntry) (key : String) (m : SwarmMessage)
    → (e : CoalescedEntry) × (coalesce groups key m ≡ put key e groups)
      × IsPlaced m e
      × ((e.msg ≡ m)
          ⊎ ((old : CoalescedEntry) × (lookup key groups ≡ some old) × (e.msg ≡ old.msg)))
      × ((n : SwarmMessage) (old : CoalescedEntry)
          → lookup key groups ≡ some old
          → IsPlaced n old
          → IsPlaced n e)
unfolding coalesce
coalesce_lem groups key m = elim (Option-cases (lookup key groups)) [
  | inl nothing ↦ (
    record { msg = m; dropped = [] },
    ground (arith, nothing),
    (inl refl, LeTime-refl m),
    inl refl,
    λ n old f p. elim (none_is_some (sym nothing ∙ f)) [ ],
  )
  | inr (old, found) ↦ (
    merge_entry m old,
    ground (arith, found),
    (merge_new m old, merge_le_new m old),
    elim (merge_msg m old) [ inl new ↦ inl new | inr same ↦ inr (old, found, same) ],
    λ n o f p.
        let q : IsPlaced n old =
          subst (λ (x : CoalescedEntry). IsPlaced n x) (some_inj (sym f ∙ found)) p in
        (merge_dropped m n old q.0, merge_le_old m n old q.1),
  )
]
