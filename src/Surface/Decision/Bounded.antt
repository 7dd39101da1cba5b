-- ===== src/Surface/Decision/Bounded.antt =====
-- surface/pump-decision.ts: how much a pump surfaces and remembers.
use mathlib.Core.List.{reverse, reverse-cons}
use pi_graph_loop.Prelude.{
  true_is_false, ℕ, zero, suc, ◌+◌, ◌-◌, ◌≤◌, String, Bool, false, ◌≡◌, refl, sym, ◌∙◌, ap, subst,
  not, ◌&&◌, Option, List, [], ◌∷◌, Record, put, values, foldl, length, length-append, is_nil,
  if_ind, arith, inl, inr, set_add,
}
use pi_graph_loop.Types.{SwarmMessage, SwarmState}
use pi_graph_loop.Surface.Rank.{surfaces_before, sort_by, root_surface_group_key}
use pi_graph_loop.Surface.Rank.Sorted.{length-sort}
use pi_graph_loop.Surface.Staleness.{SurfaceStale, stale_surface_reason, record_of}
use pi_graph_loop.Surface.Coalesce.{
  CoalescedEntry, Coalescing, SurfaceContext, SurfacePlan, coalesce, plan_step, surface_plan,
  coalesced_plan, coalesce_surface_plan, messages_of, fate_of,
}
use pi_graph_loop.Surface.Coalesce.Merge.{coalesce_lem, Fate-cases}
use pi_graph_loop.Surface.Decision.{
  backfill, surface_candidates, surface_now, decide, decide_surface, should_escalate,
  waiting_messages, overdue_messages,
}
use pi_graph_loop.Surface.Session.{
  drop, take, take_last, PumpSession, PumpInput, Decision, pump_session_id_cap,
}
use pi_graph_loop.Surface.Decision.Shown.{plan_of}

module _ {A : Type 0} where
  length-take_le : (n : ℕ) (xs : List A) → length (take n xs) ≤ n
  unfolding take
  length-take_le zero xs = omega arith
  length-take_le (suc n) [] = omega arith
  length-take_le (suc n) (x ∷ xs) = omega (arith, length-take_le n xs)

  length-drop : (n : ℕ) (xs : List A) → length (drop n xs) ≡ length xs - n
  unfolding drop
  length-drop zero xs = omega arith
  length-drop (suc n) [] = omega arith
  length-drop (suc n) (x ∷ xs) = omega (arith, length-drop n xs)

  length-take_last_le : (n : ℕ) (xs : List A) → length (take_last n xs) ≤ n
  unfolding take_last
  length-take_last_le n xs = omega (arith, length-drop (length xs - n) xs)

  length-reverse : (xs : List A) → length (reverse xs) ≡ length xs
  length-reverse [] = refl
  length-reverse (x ∷ xs) =
      ap length (reverse-cons x xs)
      ∙ length-append (reverse xs) (x ∷ [])
      ∙ omega (arith, length-reverse xs)

length-values-put :
    (k : String) (v : CoalescedEntry) (r : Record CoalescedEntry)
    → length (values (put k v r)) ≤ suc (length (values r))
unfolding values put
length-values-put k v [] = omega arith
length-values-put k v ((j, w) ∷ r) = ground (arith, length-values-put k v r)

length-coalesce :
    (groups : Record CoalescedEntry) (key : String) (m : SwarmMessage)
    → length (values (coalesce groups key m)) ≤ suc (length (values groups))
length-coalesce groups key m =
    let (e, put_e, placed, from, old) = coalesce_lem groups key m in
    subst (λ (r : Record CoalescedEntry). length (values r) ≤ suc (length (values groups)))
      (sym put_e) (length-values-put key e groups)

length-messages_of : (es : List CoalescedEntry) → length (messages_of es) ≡ length es
length-messages_of [] = refl
length-messages_of (e ∷ es) = ap suc (length-messages_of es)

module _ (ctx : SurfaceContext) (stale : SwarmMessage → Option SurfaceStale) (st : SwarmState) where
  length-step :
      (run : Coalescing) (m : SwarmMessage)
      → length (values (plan_step ctx.lower ctx.tasks st stale run m).coalesced)
        ≤ suc (length (values run.coalesced))
  unfolding plan_step
  length-step run m = elim (Fate-cases (fate_of ctx.lower ctx.tasks st m (stale m))) [
    | inl h ↦
        let e : coalesce run.coalesced (root_surface_group_key (record_of st m)) m
            ≡ (plan_step ctx.lower ctx.tasks st stale run m).coalesced =
          ground (arith, h) in
        subst
          (λ (r : Record CoalescedEntry). length (values r) ≤ suc (length (values run.coalesced))) e
          (length-coalesce run.coalesced (root_surface_group_key (record_of st m)) m)
    | inr other ↦
        let e : run.coalesced ≡ (plan_step ctx.lower ctx.tasks st stale run m).coalesced =
          elim other [ inl h ↦ ground (arith, h) | inr h ↦ ground (arith, h) ] in
        subst
          (λ (r : Record CoalescedEntry). length (values r) ≤ suc (length (values run.coalesced))) e
          (omega arith)
  ]

  length-fold :
      (plan : List SwarmMessage) (run : Coalescing)
      → length (values (foldl (plan_step ctx.lower ctx.tasks st stale) run plan).coalesced)
        ≤ length plan + length (values run.coalesced)
  length-fold [] run = omega arith
  length-fold (m ∷ plan) run =
      omega
        (arith, length-fold plan (plan_step ctx.lower ctx.tasks st stale run m), length-step run m)

  length-to_surface :
      (candidates : List SwarmMessage) (surfaced : List String)
      → length (coalesce_surface_plan ctx stale st candidates surfaced).to_surface
        ≤ length candidates
  unfolding coalesce_surface_plan coalesced_plan surface_plan values
  length-to_surface candidates surfaced = omega (
    arith,
    length-sort (surfaces_before ctx.locale_lt)
        (messages_of (values (coalesced_plan ctx stale st candidates).coalesced)),
    length-messages_of (values (coalesced_plan ctx stale st candidates).coalesced),
    length-fold (surface_plan ctx stale st candidates) (record { coalesced = []; consumed = [] }),
    length-reverse (sort_by (surfaces_before ctx.locale_lt) candidates),
    length-sort (surfaces_before ctx.locale_lt) candidates,
  )

module _ (i : PumpInput) where
  -- At most ten messages are surfaced; where one is, the session keeps at most 200 ids and as many
  -- stamps and counts.
  abbrev pub IsBounded : Decision → Type 0
  IsBounded d =
      (length d.to_surface ≤ 10)
      × (is_nil d.to_surface ≡ false
          → (length d.sess.ids ≤ pump_session_id_cap)
            × (length d.sess.triggered_at ≤ pump_session_id_cap)
            × (length d.sess.retrigger_count ≤ pump_session_id_cap))

  surface_now-IsBounded :
      (sess : PumpSession) (overdue : List SwarmMessage) (plan : SurfacePlan) (escalated : Bool)
      → length plan.to_surface ≤ 10
      → IsBounded (surface_now i sess overdue plan escalated)
  unfolding surface_now
  surface_now-IsBounded sess overdue plan escalated few =
      if_ind IsBounded (is_nil plan.to_surface)
        (λ nothing. (omega arith, λ h. elim (true_is_false h) [ ]))
        (λ some_left. (
          few,
          λ h. (
            length-take_last_le pump_session_id_cap _,
            length-take_last_le pump_session_id_cap _,
            length-take_last_le pump_session_id_cap _,
          ),
        ))

  plan-few : (st : SwarmState) (sess : PumpSession) → length (plan_of i st sess).to_surface ≤ 10
  unfolding surface_candidates
  plan-few st sess = omega (
    arith,
    length-to_surface i.ctx (stale_surface_reason i.windows st i.ctx.tasks i.now_ms) st
        (surface_candidates i st sess) (foldl set_add [] sess.ids),
    length-take_le 10 _,
  )

  decide-IsBounded : (st : SwarmState) (sess : PumpSession) → IsBounded (decide i st sess)
  unfolding decide
  decide-IsBounded st sess =
      if_ind IsBounded
        (not i.idle_at_start && not (should_escalate i st (waiting_messages i st sess)))
        (λ busy. (omega arith, λ h. elim (true_is_false h) [ ]))
        (λ idle.
          surface_now-IsBounded sess (overdue_messages i st sess) (plan_of i st sess)
            (should_escalate i st (waiting_messages i st sess)) (plan-few st sess))

  -- A pump surfaces ten messages at most; where it surfaces one, the session keeps at most 200 ids and
  -- as many time stamps and counts.
  pub decide_surface-IsBounded :
      (st : SwarmState) (sess : PumpSession) → IsBounded (decide_surface i st sess)
  unfolding decide_surface
  decide_surface-IsBounded st sess = decide-IsBounded (backfill i st sess) sess
