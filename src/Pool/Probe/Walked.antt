-- ===== src/Pool/Probe/Walked.antt =====
-- pool.ts: the loop of `advanceProbeRound`, the keys that it adds and where it stops.
use pi_graph_loop.Prelude.{
  none_is_some, some_inj, ℕ, zero, suc, ◌+◌, ◌≤◌, ◌<◌, String, Bool, true, false, ◌≡◌, refl, sym,
  ◌∙◌, ap, subst, not, Option, none, some, List, [], ◌∷◌, ◌++◌, nat_eq, includes, ==-refl, if_ind,
  arith, Bool-cases, inl, inr, ◌⊎◌, IsDistinct, IsDistinct-concat, includes-concat,
}
use pi_graph_loop.Types.{ModelSlot}
use pi_graph_loop.Pool.{slot_key}
use pi_graph_loop.Pool.Pick.{get_elem?}
use pi_graph_loop.Pool.Probe.{find_index, SlotWalk, index_at, visit_slot, visit_found, walk_slots}

between : (off o : ℕ) → off ≤ o → o < off + 0 → ⊥
between off o a b = omega arith

split_at : (off o : ℕ) → off ≤ o → (off ≡ o) ⊎ (suc off ≤ o)
split_at off o h = elim (Bool-cases (nat_eq off o)) [
  | inl e ↦ inl (ground (arith, e))
  | inr e ↦ inr (ground (arith, e))
]

module _ (slots : List ModelSlot) (resolvable : ModelSlot → Bool) (start : ℕ) where
  -- A fact about a walk_slots that holds where the loop stops, and that passes on over a key that is added,
  -- holds of the whole loop.
  module _ (P : List String → SlotWalk → Type 0)
      (ends : (tried : List String) → P tried (record { tried = tried; picked = none }))
      (stops : (tried : List String) (idx : ℕ) (s : ModelSlot)
        → get_elem? slots idx ≡ some s
        → includes tried (slot_key s) ≡ false
        → resolvable s ≡ true
        → P tried (record { tried = tried; picked = some idx }))
      (adds : (tried : List String) (s : ModelSlot) (w : SlotWalk)
        → includes tried (slot_key s) ≡ false
        → P (tried ++ slot_key s ∷ []) w
        → P tried w) where
    visit_slot_ind :
        (go : List String → SlotWalk) (tried : List String) (idx : ℕ) (s : ModelSlot)
        → get_elem? slots idx ≡ some s
        → ((t : List String) → P t (go t))
        → P tried (visit_slot slots resolvable start go tried idx s)
    unfolding visit_slot
    visit_slot_ind go tried idx s e rest =
        if_ind (P tried) (includes tried (slot_key s)) (λ seen. rest tried)
          (λ unseen.
            if_ind (P tried) (not (nat_eq (find_index (slot_key s) slots) idx))
              (λ again. rest tried)
              (λ first.
                if_ind (P tried) (not (resolvable s))
                  (λ skipped.
                    adds tried s (go (tried ++ slot_key s ∷ [])) unseen
                      (rest (tried ++ slot_key s ∷ [])))
                  (λ ok. stops tried idx s e unseen (ground (arith, ok)))))

    visit_found_ind :
        (go : List String → SlotWalk) (tried : List String) (idx : ℕ) (o : Option ModelSlot)
        → get_elem? slots idx ≡ o
        → ((t : List String) → P t (go t))
        → P tried (visit_found slots resolvable start go tried idx o)
    visit_found_ind go tried idx none e rest = rest tried
    visit_found_ind go tried idx (some s) e rest = visit_slot_ind go tried idx s e rest

    pub walk_ind :
        (left off : ℕ) (tried : List String)
        → P tried (walk_slots slots resolvable start left off tried)
    unfolding walk_slots
    walk_ind zero off tried = ends tried
    walk_ind (suc left) off tried =
        visit_found_ind (walk_slots slots resolvable start left (suc off)) tried
          (index_at slots resolvable start off)
          (get_elem? slots (index_at slots resolvable start off)) refl (walk_ind left (suc off))

  pub walk_slots-keeps :
      (key : String) (left off : ℕ) (tried : List String)
      → includes tried key ≡ true
      → includes (walk_slots slots resolvable start left off tried).tried key ≡ true
  walk_slots-keeps key left off tried =
      walk_ind (λ t w. includes t key ≡ true → includes w.tried key ≡ true) (λ t h. h)
        (λ t idx s e unseen ok h. h)
        (λ t s w unseen rest h. rest (includes-concat t (slot_key s) key ∙ ground (arith, h))) left
        off tried

  pub walk_slots-IsDistinct :
      (left off : ℕ) (tried : List String)
      → IsDistinct tried
      → IsDistinct (walk_slots slots resolvable start left off tried).tried
  walk_slots-IsDistinct left off tried =
      walk_ind (λ t w. IsDistinct t → IsDistinct w.tried) (λ t h. h) (λ t idx s e unseen ok h. h)
        (λ t s w unseen rest h. rest (IsDistinct-concat t (slot_key s) h unseen)) left off tried

  -- The loop stopped at a slot of the list that was not tried and can be resolved.
  abbrev pub IsFresh : SlotWalk → Option ℕ → Type 0
  IsFresh w none = Unit
  IsFresh w (some idx) =
      (s : ModelSlot) × (get_elem? slots idx ≡ some s)
      × (includes w.tried (slot_key s) ≡ false)
      × (resolvable s ≡ true)

  pub walk_slots-IsFresh :
      (left off : ℕ) (tried : List String)
      → IsFresh
          (walk_slots slots resolvable start left off tried)
          (walk_slots slots resolvable start left off tried).picked
  walk_slots-IsFresh left off tried =
      walk_ind (λ t w. IsFresh w w.picked) (λ t. tt) (λ t idx s e unseen ok. (s, e, unseen, ok))
        (λ t s w unseen rest. rest) left off tried

  visit_slot-none :
      (go : List String → SlotWalk) (tried : List String) (idx : ℕ) (s : ModelSlot)
      → (visit_slot slots resolvable start go tried idx s).picked ≡ none
      → (t : List String) × (visit_slot slots resolvable start go tried idx s ≡ go t)
        × (find_index (slot_key s) slots ≡ idx → includes t (slot_key s) ≡ true)
  unfolding visit_slot
  visit_slot-none go tried idx s h = elim (Bool-cases (includes tried (slot_key s))) [
    | inl seen ↦ (tried, ground (arith, seen), λ first. seen)
    | inr unseen ↦ elim (Bool-cases (nat_eq (find_index (slot_key s) slots) idx)) [
      | inr again ↦ (tried, ground (arith, unseen, again), λ first. ground (arith, again, first))
      | inl first ↦ elim (Bool-cases (resolvable s)) [
        | inl ok ↦ elim (none_is_some {a = idx} (sym h ∙ ground (arith, unseen, first, ok))) [ ]
        | inr skipped ↦ (
          tried ++ slot_key s ∷ [],
          ground (arith, unseen, first, skipped),
          λ e.
              includes-concat tried (slot_key s) (slot_key s)
              ∙ ground (arith, ==-refl (slot_key s)),
        )
      ]
    ]
  ]

  visit_found-none :
      (go : List String → SlotWalk) (tried : List String) (idx : ℕ) (o : Option ModelSlot)
      → (visit_found slots resolvable start go tried idx o).picked ≡ none
      → (t : List String) × (visit_found slots resolvable start go tried idx o ≡ go t)
        × ((s : ModelSlot)
            → o ≡ some s
            → find_index (slot_key s) slots ≡ idx
            → includes t (slot_key s) ≡ true)
  visit_found-none go tried idx none h =
      (tried, refl, λ s e first. elim (none_is_some {a = s} e) [ ])
  visit_found-none go tried idx (some r) h =
      let (t, e, f) = visit_slot-none go tried idx r h in
      (
        t,
        e,
        λ s q first.
            subst (λ (z : ModelSlot). includes t (slot_key z) ≡ true) (some_inj q)
              (f (
                subst (λ (z : ModelSlot). find_index (slot_key z) slots ≡ idx) (sym (some_inj q))
                  first)),
      )

  -- Where the loop picked nothing, the first slot of each key that it came by was tried.
  pub walk_slots-covers :
      (left off : ℕ) (tried : List String) (o : ℕ) (s : ModelSlot)
      → (walk_slots slots resolvable start left off tried).picked ≡ none
      → off ≤ o
      → o < off + left
      → get_elem? slots (index_at slots resolvable start o) ≡ some s
      → find_index (slot_key s) slots ≡ index_at slots resolvable start o
      → includes (walk_slots slots resolvable start left off tried).tried (slot_key s) ≡ true
  unfolding walk_slots
  walk_slots-covers zero off tried o s h from before e first = elim (between off o from before) [ ]
  walk_slots-covers (suc left) off tried o s h from before e first =
      let (t, q, f) =
        visit_found-none (walk_slots slots resolvable start left (suc off)) tried
          (index_at slots resolvable start off)
          (get_elem? slots (index_at slots resolvable start off)) h in
      subst (λ (w : SlotWalk). includes w.tried (slot_key s) ≡ true) (sym q)
        (elim (split_at off o from) [
          | inl same ↦ walk_slots-keeps (slot_key s) left (suc off) t (
              f s (ap (λ n. get_elem? slots (index_at slots resolvable start n)) same ∙ e)
                (first ∙ ap (index_at slots resolvable start) (sym same)))
          | inr later ↦
              walk_slots-covers left (suc off) t o s (ap (λ (w : SlotWalk). w.picked) (sym q) ∙ h)
                later (omega arith) e first
        ])
