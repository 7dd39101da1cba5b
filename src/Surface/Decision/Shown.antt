-- ===== src/Surface/Decision/Shown.antt =====
-- surface/pump-decision.ts: which messages the pump surfaces.
use pi_graph_loop.Prelude.{
  ℕ, zero, suc, ◌-◌, String, Bool, true, false, ◌≡◌, refl, sym, ◌∙◌, ap, subst, not, ◌&&◌, Option,
  none, some, List, [], ◌∷◌, ◌++◌, Member, here, there, lookup, foldl, filter, filter_sound, length,
  includes, set_add, is_nil, if_ind, arith, Bool-cases, inl, inr,
}
use mathlib.Core.List.{append-nil}
use pi_graph_loop.Types.{MessageRecord, SwarmMessage, SwarmState}
use pi_graph_loop.Surface.Actionable.Sound.{IsShowable, is_actionable-IsShowable}
use pi_graph_loop.Surface.Staleness.{stale_surface_reason}
use pi_graph_loop.Surface.Coalesce.{SurfacePlan, coalesce_surface_plan, shown}
use pi_graph_loop.Surface.Coalesce.Freshest.{coalesce_surface_plan-IsFreshest, fate_in}
use pi_graph_loop.Surface.Decision.{
  verdict_of, backfill, window_test, in_window, window_messages, is_overdue, never_displayed,
  overdue_messages, surface_candidates, has_id, surface_now, decide, decide_surface,
  should_escalate, waiting_messages,
}
use pi_graph_loop.Surface.Session.{
  drop, take, take_last, PumpSession, PumpInput, Decision, pump_scan_window,
}

module _ {A : Type 0} {a : A} where
  member_of_drop : (n : ℕ) (xs : List A) → Member a (drop n xs) → Member a xs
  unfolding drop
  member_of_drop zero xs m = m
  member_of_drop (suc n) [] m = m
  member_of_drop (suc n) (x ∷ xs) m = there (member_of_drop n xs m)

  member_of_take : (n : ℕ) (xs : List A) → Member a (take n xs) → Member a xs
  unfolding take
  member_of_take zero xs m = elim m [ ]
  member_of_take (suc n) [] m = m
  member_of_take (suc n) (x ∷ xs) (here e) = here e
  member_of_take (suc n) (x ∷ xs) (there m) = there (member_of_take n xs m)

filter_excludes :
    {A : Type 0} (p q : A → Bool)
    → ((x : A) → q x ≡ true → p x ≡ false)
    → (xs : List A) → filter p (filter q xs) ≡ []
filter_excludes p q h [] = refl
filter_excludes p q h (x ∷ xs) = elim (Bool-cases (q x)) [
  | inl e ↦ ground (arith, e, h x e, filter_excludes p q h xs)
  | inr e ↦ ground (arith, e, filter_excludes p q h xs)
]

filter-false :
    {A : Type 0} (p : A → Bool) → ((x : A) → p x ≡ false) → (xs : List A) → filter p xs ≡ []
filter-false p h [] = refl
filter-false p h (x ∷ xs) = ground (arith, h x, filter-false p h xs)

module _ (i : PumpInput) where
  -- What the window's test says of a message.
  abbrev IsInWindow : SwarmState → PumpSession → String → Option MessageRecord → Type 0
  IsInWindow st sess id found =
      (rec : MessageRecord) × (found ≡ some rec)
      × (lookup id st.root_receipts.entries ≡ none)
      × (includes sess.ids id ≡ false)
      × ((verdict_of i sess.retrigger_count false rec).ok ≡ true)

  window_test_sound :
      (st : SwarmState) (sess : PumpSession) (id : String) (found : Option MessageRecord)
      → window_test i st sess id found ≡ true
      → IsInWindow st sess id found
  window_test_sound st sess id none h = cc h
  window_test_sound st sess id (some rec) h =
      (rec, refl, ground (arith, h), ground (arith, h), ground (arith, h))

  in_window_sound :
      (st : SwarmState) (sess : PumpSession) (m : SwarmMessage)
      → in_window i st sess m ≡ true
      → IsInWindow st sess m.id (lookup m.id st.messages)
  unfolding in_window
  in_window_sound st sess m h = window_test_sound st sess m.id (lookup m.id st.messages) h

  -- A message of the window was not surfaced in this session, so none of it is overdue.
  pub overdue_messages-IsNil :
      (st : SwarmState) (sess : PumpSession) → overdue_messages i st sess ≡ []
  unfolding overdue_messages window_messages is_overdue
  overdue_messages-IsNil st sess =
      filter_excludes (is_overdue i st sess) (in_window i st sess)
        (λ m h. ground (arith, (in_window_sound st sess m h).3))
        (take_last pump_scan_window i.mailbox)

  candidates_sound :
      (st : SwarmState) (sess : PumpSession) (m : SwarmMessage)
      → Member m (surface_candidates i st sess)
      → Member m i.mailbox × IsInWindow st sess m.id (lookup m.id st.messages)
  unfolding surface_candidates window_messages take_last
  candidates_sound st sess m k =
      let in_both : Member m (filter (never_displayed i sess) (window_messages i st sess)) =
        subst (Member m)
          (ap
              (λ (xs : List SwarmMessage).
                filter (never_displayed i sess) (window_messages i st sess) ++ xs)
              (overdue_messages-IsNil st sess)
            ∙ append-nil (filter (never_displayed i sess) (window_messages i st sess)))
          (member_of_take 10
            (filter (never_displayed i sess) (window_messages i st sess)
              ++ overdue_messages i st sess)
            k) in
      let (l, fresh) = filter_sound (never_displayed i sess) (window_messages i st sess) in_both in
      let (n, ok) = filter_sound (in_window i st sess) (take_last pump_scan_window i.mailbox) l in
      (
        member_of_drop (length i.mailbox - pump_scan_window) i.mailbox n,
        in_window_sound st sess m ok,
      )

  abbrev pub plan_of : SwarmState → PumpSession → SurfacePlan
  plan_of st sess =
      coalesce_surface_plan i.ctx (stale_surface_reason i.windows st i.ctx.tasks i.now_ms) st
        (surface_candidates i st sess) (foldl set_add [] sess.ids)

  surface_now_sound :
      (sess : PumpSession) (overdue : List SwarmMessage) (plan : SurfacePlan) (escalated : Bool)
      (m : SwarmMessage)
      → Member m (surface_now i sess overdue plan escalated).to_surface
      → Member m plan.to_surface
  unfolding surface_now
  surface_now_sound sess overdue plan escalated m =
      if_ind (λ (d : Decision). Member m d.to_surface → Member m plan.to_surface)
        (is_nil plan.to_surface) (λ nothing k. elim k [ ]) (λ some_left k. k)

  decide_sound :
      (st : SwarmState) (sess : PumpSession) (m : SwarmMessage)
      → Member m (decide i st sess).to_surface
      → Member m (plan_of st sess).to_surface
  unfolding decide
  decide_sound st sess m =
      if_ind (λ (d : Decision). Member m d.to_surface → Member m (plan_of st sess).to_surface)
        (not i.idle_at_start && not (should_escalate i st (waiting_messages i st sess)))
        (λ busy k. elim k [ ])
        (λ idle k.
          surface_now_sound sess (overdue_messages i st sess) (plan_of st sess)
            (should_escalate i st (waiting_messages i st sess)) m k)

  -- After the migration of the receipts: the message is in the mailbox, no receipt or session has it,
  -- its record may be shown, and it is not stale, or is an urgent message to a root without a pane.
  abbrev pub IsSurfaced : SwarmState → PumpSession → SwarmMessage → Type 0
  IsSurfaced st sess m =
      Member m i.mailbox
      × ((rec : MessageRecord) × (lookup m.id st.messages ≡ some rec)
          × (lookup m.id st.root_receipts.entries ≡ none)
          × (includes sess.ids m.id ≡ false)
          × IsShowable i.minimal rec sess.retrigger_count false i.ctx.tasks)
      × (fate_in i.ctx (stale_surface_reason i.windows st i.ctx.tasks i.now_ms) st
            (surface_candidates i st sess) (foldl set_add [] sess.ids) m
          ≡ shown)

  -- Every message that a pump surfaces is in the mailbox, was neither receipted nor surfaced in this
  -- session, has a record that may be shown, and is to be shown by the staleness tests.
  pub decide_surface-IsSurfaced :
      (st : SwarmState) (sess : PumpSession) (m : SwarmMessage)
      → Member m (decide_surface i st sess).to_surface
      → IsSurfaced (backfill i st sess) sess m
  unfolding decide_surface
  decide_surface-IsSurfaced st sess m k =
      let after = backfill i st sess in
      let fresh =
        coalesce_surface_plan-IsFreshest i.ctx
          (stale_surface_reason i.windows after i.ctx.tasks i.now_ms) after
          (surface_candidates i after sess) (foldl set_add [] sess.ids) in
      let (l, to_show) = fresh.drawn m (decide_sound after sess m k) in
      let (mailed, (rec, found, unreceipted, unseen, ok)) = candidates_sound after sess m l in
      (
        mailed,
        (
          rec,
          found,
          unreceipted,
          unseen,
          is_actionable-IsShowable i.minimal rec sess.retrigger_count false i.ctx.tasks ok,
        ),
        to_show,
      )

  surface_now_unprompted :
      (sess : PumpSession) (plan : SurfacePlan) (escalated : Bool)
      → (surface_now i sess [] plan escalated).retriggered ≡ []
  unfolding surface_now has_id
  surface_now_unprompted sess plan escalated =
      if_ind (λ (d : Decision). d.retriggered ≡ []) (is_nil plan.to_surface) (λ nothing. refl)
        (λ some_left. filter-false (has_id i []) (λ m. refl) plan.to_surface)

  -- A pump never prompts again for a message that it has surfaced: none is overdue, and none of those
  -- it surfaces counts as prompted again.
  pub decide_surface-unprompted :
      (st : SwarmState) (sess : PumpSession)
      → (overdue_messages i (backfill i st sess) sess ≡ [])
        × ((decide_surface i st sess).retriggered ≡ [])
  unfolding decide_surface decide
  decide_surface-unprompted st sess =
      let after = backfill i st sess in
      (
        overdue_messages-IsNil after sess,
        if_ind (λ (d : Decision). d.retriggered ≡ [])
            (not i.idle_at_start && not (should_escalate i after (waiting_messages i after sess)))
            (λ busy. refl)
            (λ idle.
              subst
                (λ (xs : List SwarmMessage).
                  (surface_now i sess xs (plan_of after sess)
                    (should_escalate i after (waiting_messages i after sess))).retriggered
                  ≡ [])
                (sym (overdue_messages-IsNil after sess))
                (surface_now_unprompted sess (plan_of after sess)
                  (should_escalate i after (waiting_messages i after sess)))),
      )
