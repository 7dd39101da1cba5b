-- ===== src/Pool/Pick/Servable.antt =====
-- pool.ts: what the filters of `pickSlot` ask of a slot, in terms of the configuration and the stored
-- health.
use pi_graph_loop.Prelude.{
  ℕ, ◌<◌, String, true, false, ◌≡◌, ◌≢◌, ◌↔◌, refl, sym, ◌∙◌, ap, subst, ◌⊎◌, inl, inr, Option,
  none, some, List, [], ◌∷◌, Member, here, filter, filter_sound, filter_complete, Member-not_nil,
  lookup, includes, is_nil, arith, eq_iff, Bool-cases, Option-cases, ◌==◌, some_inj,
}
use pi_graph_loop.Types.{ModelSlot, PoolSlotHealth, PoolHealthState, Stamp}
use pi_graph_loop.Pool.{slot_key, in_cooldown, slot_matches_role}
use pi_graph_loop.Pool.Pick.{PickOptions, is_not, is_tagged, tagged_or_all, visible_slots, is_cool}

-- The slot has no roles, no role is asked for, or the role is one of the slot's.
abbrev pub IsForRole : String → ModelSlot → Type 0
IsForRole role s = (s.roles ≡ []) ⊎ (role ≡ "") ⊎ (includes s.roles role ≡ true)

-- A slot of the pool that the role may use; one without roles only where no slot with roles is for it.
abbrev pub IsForRoleIn : List ModelSlot → String → ModelSlot → Type 0
IsForRoleIn slots role s =
    IsForRole role s
    × ((t : ModelSlot) → Member t slots → IsForRole role t → t.roles ≢ [] → s.roles ≢ [])

-- Which slots of the pool are visible: all where the filter is bypassed or no role is asked for.
abbrev pub IsVisible : List ModelSlot → PickOptions → ModelSlot → Type 0
IsVisible slots opts s =
    Member s slots
    × ((role : String)
        → opts.bypass_roles_filter ≡ false
        → opts.role_kind ≡ some role
        → IsForRoleIn slots role s)

-- No time that its cooldown ends at is yet to come.
abbrev pub IsOffCooldown : PoolHealthState → ℕ → ModelSlot → Type 0
IsOffCooldown h now_ms s =
    (health : PoolSlotHealth) (until : Stamp) (t : ℕ)
    → lookup (slot_key s) h.slots ≡ some health
    → health.cooldown_until ≡ some until
    → until.ms ≡ some t
    → ¬ (now_ms < t)

-- The slot is visible, off cooldown, and another than the one that failed.
abbrev pub IsServable : List ModelSlot → PickOptions → ℕ → PoolHealthState → ModelSlot → Type 0
IsServable slots opts now_ms h s =
    IsVisible slots opts s × IsOffCooldown h now_ms s × (opts.avoid_key ≢ some (slot_key s))

nil_iff {ℓ} : {A : Type ℓ} (xs : List A) → (is_nil xs ≡ true) ↔ (xs ≡ [])
nil_iff [] = (λ h. refl, λ h. refl)
nil_iff (x ∷ xs) = (λ h. cc h, λ h. cc h)

is_not_iff :
    (avoid_key : Option String) (s : ModelSlot)
    → (is_not avoid_key s ≡ true) ↔ (avoid_key ≢ some (slot_key s))
is_not_iff none s = (λ h e. cc e, λ h. refl)
is_not_iff (some key) s = (
  λ h e. ground (arith, h, eq_iff (slot_key s) key, some_inj e),
  λ h. elim (Bool-cases (slot_key s == key)) [
    | inl same ↦ absurd (h (ap some (sym ((eq_iff (slot_key s) key).0 same))))
    | inr other ↦ ground (arith, other)
  ],
)

is_cool_sound :
    (h : PoolHealthState) (now_ms : ℕ) (s : ModelSlot)
    → is_cool h now_ms s ≡ true
    → IsOffCooldown h now_ms s
unfolding in_cooldown
is_cool_sound h now_ms s cool health until t e d u later = ground (arith, cool, e, d, u, later)

is_cool_complete :
    (h : PoolHealthState) (now_ms : ℕ) (s : ModelSlot)
    → IsOffCooldown h now_ms s
    → is_cool h now_ms s ≡ true
unfolding in_cooldown
is_cool_complete h now_ms s off = elim (Option-cases (lookup (slot_key s) h.slots)) [
  | inl unknown ↦ ground (arith, unknown)
  | inr (health, e) ↦ elim (Option-cases health.cooldown_until) [
    | inl uncooled ↦ ground (arith, e, uncooled)
    | inr (until, d) ↦ elim (Option-cases until.ms) [
      | inl unread ↦ ground (arith, e, d, unread)
      | inr (t, u) ↦ ground (arith, e, d, u, off health until t e d u)
    ]
  ]
]

role_iff :
    (role : String) (s : ModelSlot) → (slot_matches_role s (some role) ≡ true) ↔ IsForRole role s
unfolding slot_matches_role
role_iff role s = (
  λ h. ground (arith, h, nil_iff s.roles, eq_iff role ""),
  λ h. ground (arith, h, nil_iff s.roles, eq_iff role ""),
)

module _ (slots : List ModelSlot) (role : String) (s : ModelSlot) where
  abbrev matching : List ModelSlot
  matching = filter (λ (t : ModelSlot). slot_matches_role t (some role)) slots

  tagged_iff : (t : ModelSlot) → (is_tagged t ≡ true) ↔ (t.roles ≢ [])
  tagged_iff t = (
    λ h e. ground (arith, h, e),
    λ h. elim (Bool-cases (is_nil t.roles)) [
      | inl untagged ↦ absurd (h ((nil_iff t.roles).0 untagged))
      | inr tagged ↦ ground (arith, tagged)
    ],
  )

  matching_iff : (t : ModelSlot) → Member t matching ↔ (Member t slots × IsForRole role t)
  matching_iff t = (
    λ m.
        let (n, ok) = filter_sound (λ (u : ModelSlot). slot_matches_role u (some role)) slots m in
        (n, (role_iff role t).0 ok),
    λ (n, ok).
        filter_complete (λ (u : ModelSlot). slot_matches_role u (some role)) slots n
          ((role_iff role t).1 ok),
  )

  tagged_or_all-Member :
      (tagged : List ModelSlot)
      → filter is_tagged matching ≡ tagged
      → Member s (tagged_or_all tagged matching) ↔ (Member s slots × IsForRoleIn slots role s)
  tagged_or_all-Member [] none_tagged = (
    λ m.
        let (n, ok) = (matching_iff s).0 m in
        (
          n,
          (
            ok,
            λ t mt okt tagged untagged. cc (
              Member-not_nil (filter is_tagged matching) (
                  filter_complete is_tagged matching ((matching_iff t).1 (mt, okt))
                    ((tagged_iff t).1 tagged)),
              ap is_nil none_tagged,
            ),
          ),
        ),
    λ (n, (ok, only)). (matching_iff s).1 (n, ok),
  )
  tagged_or_all-Member (t ∷ tagged) some_tagged = (
    λ m.
        let (inner, mine) =
          filter_sound is_tagged matching (subst (Member s) (sym some_tagged) m) in
        let (n, ok) = (matching_iff s).0 inner in
        (n, (ok, λ u mu oku tagged_u. (tagged_iff s).0 mine)),
    λ (n, (ok, only)).
        let (inner, first) =
          filter_sound is_tagged matching (subst (Member t) (sym some_tagged) (here refl)) in
        let (nt, okt) = (matching_iff t).0 inner in
        subst (Member s) some_tagged (
          filter_complete is_tagged matching ((matching_iff s).1 (n, ok))
            ((tagged_iff s).1 (only t nt okt ((tagged_iff t).0 first)))),
  )

visible_slots_iff :
    (slots : List ModelSlot) (opts : PickOptions) (s : ModelSlot)
    → Member s (visible_slots slots opts) ↔ IsVisible slots opts s
unfolding visible_slots
visible_slots_iff slots opts s = elim (Bool-cases opts.bypass_roles_filter) [
  | inl bypassed ↦ (
    λ m.
        (subst (Member s) (ground (arith, bypassed)) m, λ role filtered e. cc (bypassed, filtered)),
    λ (m, ok). subst (Member s) (ground (arith, bypassed)) m,
  )
  | inr filtered ↦ elim (Option-cases opts.role_kind) [
    | inl unasked ↦ (
      λ m. (
        subst (Member s) (ground (arith, filtered, unasked)) m,
        λ role f e. absurd (ground (arith, e, unasked)),
      ),
      λ (m, ok). subst (Member s) (ground (arith, filtered, unasked)) m,
    )
    | inr (role, e) ↦
        let (to, from) =
          tagged_or_all-Member slots role s (filter is_tagged (matching slots role s)) refl in
        (
          λ m.
              let (n, ok) = to (subst (Member s) (ground (arith, filtered, e)) m) in
              (
                n,
                λ asked f q.
                    subst (λ (x : String). IsForRoleIn slots x s) (some_inj (sym e ∙ q)) ok,
              ),
          λ (n, ok). subst (Member s) (ground (arith, filtered, e)) (from (n, ok role filtered e)),
        )
  ]
]

pub IsServable-iff :
    (slots : List ModelSlot) (opts : PickOptions) (now_ms : ℕ) (h : PoolHealthState) (s : ModelSlot)
    → (Member s (visible_slots slots opts)
        × (is_cool h now_ms s ≡ true)
        × (is_not opts.avoid_key s ≡ true))
      ↔ IsServable slots opts now_ms h s
IsServable-iff slots opts now_ms h s = (
  λ (m, cool, other). (
    (visible_slots_iff slots opts s).0 m,
    is_cool_sound h now_ms s cool,
    (is_not_iff opts.avoid_key s).0 other,
  ),
  λ (m, cool, other). (
    (visible_slots_iff slots opts s).1 m,
    is_cool_complete h now_ms s cool,
    (is_not_iff opts.avoid_key s).1 other,
  ),
)
