-- ===== src/Nudges/Idle.antt =====
-- nudges/goal-epoch.ts: who counts as alive and idle.
use pi_graph_loop.Prelude.{
  ℕ, Bool, true, false, ◌≡◌, refl, sym, not, ◌&&◌, List, [], ◌∷◌, Member, here, there, all, filter,
  filter_sound, filter_complete, values, is_nil, ◌==◌, arith, Bool-cases, inl, inr, ◌↔◌, &&-split,
  subst,
}
use pi_graph_loop.Types.{SwarmAgent, SwarmState}
use pi_graph_loop.Nudges.{
  Windows, is_idle, has_pointer, agent_is_effectively_alive, effective_agents, idle_of,
  all_effective_idle_agents,
}

all_sound :
    {A : Type 0} (p : A → Bool) (xs : List A) {a : A} → all p xs ≡ true → Member a xs → p a ≡ true
all_sound p [] h m = elim m [ ]
all_sound p (x ∷ xs) h (here e) = subst (λ y. p y ≡ true) (sym e) (&&-split (p x) (all p xs) h).0
all_sound p (x ∷ xs) h (there m) = all_sound p xs (&&-split (p x) (all p xs) h).1 m

all_complete :
    {A : Type 0} (p : A → Bool) (xs : List A)
    → ((a : A) → Member a xs → p a ≡ true)
    → all p xs ≡ true
all_complete p [] h = refl
all_complete p (x ∷ xs) h =
    ground (arith, h x (here refl), all_complete p xs (λ a m. h a (there m)))

not_nil : {A : Type 0} (xs : List A) {a : A} → is_nil xs ≡ true → Member a xs → ⊥
not_nil [] h m = elim m [ ]
not_nil (x ∷ xs) h m = cc h

none_of :
    {A : Type 0} (p : A → Bool) (xs : List A)
    → ((a : A) → Member a xs → p a ≡ false)
    → is_nil (filter p xs) ≡ true
none_of p [] h = refl
none_of p (x ∷ xs) h = ground (arith, h x (here refl), none_of p xs (λ a m. h a (there m)))

filter-IsNil_iff :
    {A : Type 0} (p : A → Bool) (xs : List A)
    → (is_nil (filter p xs) ≡ true) ↔ ((a : A) → Member a xs → p a ≡ false)
filter-IsNil_iff p xs = (
  λ h a m. elim (Bool-cases (p a)) [
    | inr e ↦ e
    | inl e ↦ elim (not_nil (filter p xs) h (filter_complete p xs m e)) [ ]
  ],
  λ h. none_of p xs h,
)

module _ (w : Windows) (st : SwarmState) (now_ms : ℕ) where
  -- An agent other than the root that counts as alive.
  abbrev pub IsEffective : SwarmAgent → Type 0
  IsEffective a =
      Member a (values st.agents)
      × (not (a.id == "root") ≡ true)
      × (agent_is_effectively_alive w a now_ms ≡ true)

  -- Some effective agent exists, and each is idle and has no task assigned.
  pub record IsAllIdle : Type 0 where
    pub some_alive : is_nil (effective_agents w st now_ms) ≡ false
    pub each :
        (a : SwarmAgent)
        → IsEffective a
        → (is_idle a.runtime_status ≡ true) × (is_nil a.active_task_ids ≡ true)

  effective_complete : (a : SwarmAgent) → IsEffective a → Member a (effective_agents w st now_ms)
  unfolding effective_agents
  effective_complete a (m, other, alive) =
      filter_complete
        (λ (b : SwarmAgent). not (b.id == "root") && agent_is_effectively_alive w b now_ms)
        (values st.agents) m (ground (arith, other, alive))

  IsEffective-sound : (a : SwarmAgent) → Member a (effective_agents w st now_ms) → IsEffective a
  unfolding effective_agents
  IsEffective-sound a k =
      let (m, both) =
        filter_sound
          (λ (b : SwarmAgent). not (b.id == "root") && agent_is_effectively_alive w b now_ms)
          (values st.agents) k in
      let (other, alive) =
        &&-split (not (a.id == "root")) (agent_is_effectively_alive w a now_ms) both in
      (m, other, alive)

  -- The swarm counts as idle exactly where an agent other than the root is alive and every such agent
  -- is idle with no task assigned to it.
  pub all_effective_idle_iff : ((all_effective_idle_agents w st now_ms).all_idle ≡ true) ↔ IsAllIdle
  unfolding all_effective_idle_agents idle_of
  all_effective_idle_iff = (
    λ h. record {
      some_alive = ground (arith, h);
      each = λ a ok.
          let m = effective_complete a ok in
          let idle =
            all_sound (λ (b : SwarmAgent). is_idle b.runtime_status) (effective_agents w st now_ms)
              (ground (arith, h)) m in
          let free =
            (filter-IsNil_iff has_pointer (effective_agents w st now_ms)).0 (ground (arith, h)) a
              m in
          (idle, ground (arith, idle, free));
    },
    λ all_idle.
        let free =
          (filter-IsNil_iff has_pointer (effective_agents w st now_ms)).1
            (λ a m. ground (arith, all_idle.each a (IsEffective-sound a m))) in
        let idle =
          all_complete (λ (b : SwarmAgent). is_idle b.runtime_status) (effective_agents w st now_ms)
            (λ a m. (all_idle.each a (IsEffective-sound a m)).0) in
        ground (arith, all_idle.some_alive, free, idle),
  )
