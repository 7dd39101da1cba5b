-- ===== src/Surface/Coalesce/Freshest.antt =====
-- surface/coalesce.ts: what `coalesceSurfacePlanLocked` returns of each group.
use pi_graph_loop.Prelude.{
  none_is_some, some_inj, String, true, ◌≡◌, sym, ◌∙◌, ap, subst, Option, some, List, [], Member,
  lookup, keys, values, includes, inl, inr, ◌⊎◌, ◌↔◌, IsDistinct, member-values_of_lookup,
  lookup_of_member-values,
}
use pi_graph_loop.Types.{SwarmMessage, SwarmState}
use pi_graph_loop.Surface.Rank.{surfaces_before, sort_by}
use pi_graph_loop.Surface.Rank.Sorted.{sort_sound, sort_complete}
use pi_graph_loop.Surface.Staleness.{SurfaceStale}
use pi_graph_loop.Surface.Coalesce.{
  CoalescedEntry, Coalescing, Fate, shown, consumed_now, messages_of, SurfaceContext, SurfacePlan,
  surface_plan, coalesced_plan, coalesce_surface_plan,
}
use pi_graph_loop.Surface.Coalesce.Groups.{IsCoalesced, fate, group, fold-IsCoalesced}
use pi_graph_loop.Surface.Coalesce.Merge.{LeTime}
use pi_graph_loop.Surface.Coalesce.Dropped.{
  member-reverse, member_of_reverse, consume_dropped-keeps, consume_dropped-adds, messages_sound,
  messages_complete,
}

module _ (ctx : SurfaceContext) (stale : SwarmMessage → Option SurfaceStale) (st : SwarmState)
    (candidates : List SwarmMessage) (surfaced : List String) where
  abbrev pub fate_in : SwarmMessage → Fate
  fate_in m = fate ctx.lower ctx.tasks st stale m

  abbrev pub group_in : SwarmMessage → String
  group_in m = group ctx.lower ctx.tasks st stale m

  abbrev pub plan : SurfacePlan
  plan = coalesce_surface_plan ctx stale st candidates surfaced

  -- Each group that is to be shown is represented once, by a message that is as new as any.
  pub record IsFreshest : Type 0 where
    pub drawn :
        (m : SwarmMessage) → Member m plan.to_surface → Member m candidates × (fate_in m ≡ shown)
    pub once :
        (m n : SwarmMessage)
        → Member m plan.to_surface
        → Member n plan.to_surface
        → group_in m ≡ group_in n
        → m ≡ n
    pub freshest :
        (m : SwarmMessage)
        → Member m candidates
        → fate_in m ≡ shown
        → (k : SwarmMessage) × Member k plan.to_surface
          × (group_in k ≡ group_in m)
          × LeTime m k
          × ((k ≡ m) ⊎ (includes plan.consumed m.id ≡ true))
    pub gone :
        (m : SwarmMessage)
        → Member m candidates
        → fate_in m ≡ consumed_now
        → includes plan.consumed m.id ≡ true

  abbrev run : Coalescing
  run = coalesced_plan ctx stale st candidates

  surface_plan_iff :
      (m : SwarmMessage) → Member m candidates ↔ Member m (surface_plan ctx stale st candidates)
  unfolding surface_plan
  surface_plan_iff m = (
    λ k.
        member-reverse (sort_by (surfaces_before ctx.locale_lt) candidates)
          (sort_complete (surfaces_before ctx.locale_lt) candidates k),
    λ k.
        sort_sound (surfaces_before ctx.locale_lt) candidates
          (member_of_reverse (sort_by (surfaces_before ctx.locale_lt) candidates) k),
  )

  run-IsCoalesced :
      (seen : List SwarmMessage) × ((m : SwarmMessage) → Member m candidates ↔ Member m seen)
      × IsCoalesced ctx.lower ctx.tasks st stale seen run
  unfolding coalesced_plan lookup keys
  run-IsCoalesced =
      let (seen, same, inv) =
        fold-IsCoalesced ctx.lower ctx.tasks st stale (surface_plan ctx stale st candidates) []
          (record { coalesced = []; consumed = [] })
          (record {
            distinct = tt;
            kept = λ key e h. elim (none_is_some h) [ ];
            placed = λ m k h. elim k [ ];
            gone = λ m k h. elim k [ ];
          }) in
      (
        seen,
        λ m. (
          λ k. (same m).1 (inl ((surface_plan_iff m).0 k)),
          λ k. elim ((same m).0 k) [ inl l ↦ (surface_plan_iff m).1 l | inr l ↦ elim l [ ] ],
        ),
        inv,
      )

  to_surface_sound :
      IsDistinct (keys run.coalesced)
      → (m : SwarmMessage) → Member m plan.to_surface
      → (key : String) × (e : CoalescedEntry) × (lookup key run.coalesced ≡ some e) × (e.msg ≡ m)
  unfolding coalesce_surface_plan
  to_surface_sound distinct m k =
      let (e, l, q) =
        messages_sound m (values run.coalesced)
          (sort_sound (surfaces_before ctx.locale_lt) (messages_of (values run.coalesced)) k) in
      let (key, f) = lookup_of_member-values e run.coalesced distinct l in (key, e, f, q)

  to_surface_complete :
      (key : String) (e : CoalescedEntry)
      → lookup key run.coalesced ≡ some e
      → Member e.msg plan.to_surface
  unfolding coalesce_surface_plan
  to_surface_complete key e h =
      sort_complete (surfaces_before ctx.locale_lt) (messages_of (values run.coalesced))
        (messages_complete e (values run.coalesced) (member-values_of_lookup key e run.coalesced h))

  dropped_consumed :
      (key id : String) (e : CoalescedEntry)
      → lookup key run.coalesced ≡ some e
      → includes e.dropped id ≡ true
      → includes plan.consumed id ≡ true
  unfolding coalesce_surface_plan
  dropped_consumed key id e h d =
      consume_dropped-adds (values run.coalesced) run.consumed id e
        (member-values_of_lookup key e run.coalesced h) d

  gone_consumed : (id : String) → includes run.consumed id ≡ true → includes plan.consumed id ≡ true
  unfolding coalesce_surface_plan
  gone_consumed id h = consume_dropped-keeps (values run.coalesced) run.consumed id h

  module _ (seen : List SwarmMessage)
      (same : (m : SwarmMessage) → Member m candidates ↔ Member m seen)
      (inv : IsCoalesced ctx.lower ctx.tasks st stale seen run) where
    drawn_lem :
        (m : SwarmMessage) → Member m plan.to_surface → Member m candidates × (fate_in m ≡ shown)
    drawn_lem m k =
        let (key, e, f, q) = to_surface_sound inv.distinct m k in
        let (l, sh, g) = inv.kept key e f in
        (
          (same m).1 (subst (λ (x : SwarmMessage). Member x seen) q l),
          subst (λ (x : SwarmMessage). fate_in x ≡ shown) q sh,
        )

    once_lem :
        (m n : SwarmMessage)
        → Member m plan.to_surface
        → Member n plan.to_surface
        → group_in m ≡ group_in n
        → m ≡ n
    once_lem m n k l same_group =
        let (key, e, f, q) = to_surface_sound inv.distinct m k in
        let (other, d, g, r) = to_surface_sound inv.distinct n l in
        let key_group : group_in m ≡ key = ap group_in (sym q) ∙ (inv.kept key e f).2 in
        let other_group : group_in n ≡ other = ap group_in (sym r) ∙ (inv.kept other d g).2 in
        let keys_same : key ≡ other = sym key_group ∙ same_group ∙ other_group in
        sym q
        ∙ ap (λ (x : CoalescedEntry). x.msg)
            (some_inj (sym f ∙ ap (λ (j : String). lookup j run.coalesced) keys_same ∙ g))
        ∙ r

    freshest_lem :
        (m : SwarmMessage)
        → Member m candidates
        → fate_in m ≡ shown
        → (k : SwarmMessage) × Member k plan.to_surface
          × (group_in k ≡ group_in m)
          × LeTime m k
          × ((k ≡ m) ⊎ (includes plan.consumed m.id ≡ true))
    freshest_lem m k sh =
        let (e, f, p) = inv.placed m ((same m).0 k) sh in
        (
          e.msg,
          to_surface_complete (group_in m) e f,
          (inv.kept (group_in m) e f).2,
          p.1,
          elim p.0 [ inl q ↦ inl q | inr d ↦ inr (dropped_consumed (group_in m) m.id e f d) ],
        )

  -- The messages returned are candidates that are to be shown, one of each group; every candidate that
  -- is to be shown has one of its group returned that is no older, and is that one or is consumed;
  -- every candidate that is moot for good is consumed.
  pub coalesce_surface_plan-IsFreshest : IsFreshest
  coalesce_surface_plan-IsFreshest =
      let (seen, same, inv) = run-IsCoalesced in
      record {
        drawn = λ m k. drawn_lem seen same inv m k;
        once = λ m n k l g. once_lem seen same inv m n k l g;
        freshest = λ m k sh. freshest_lem seen same inv m k sh;
        gone = λ m k h. gone_consumed m.id (inv.gone m ((same m).0 k) h);
      }
