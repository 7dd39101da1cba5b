-- ===== src/Surface/Decision.antt =====
-- surface/pump-decision.ts: `decideSurfaceLocked`. The task folder and the mailbox are arguments, the
-- counts of suppressed messages, which are traced, are left out.
pub mod Shown
pub mod Bounded
use Prim.Native.String.{compare}
use text.Mathlib.Text.{is_lt}
use pi_graph_loop.Prelude.{
  ℕ, suc, ◌+◌, ◌-◌, zero, String, Bool, true, false, not, ◌&&◌, ◌||◌, Option, none, some, List, [],
  ◌∷◌, ◌++◌, Record, lookup, put, values, foldl, filter, length, ltb, leb, nat_eq, is_some, is_nil,
  includes, set_add, or_else, default_to, ◌==◌, ◌<>◌, if◌then◌else◌,
}
use pi_graph_loop.Types.{
  TaskState, MessageRecord, SwarmMessage, SwarmAgent, SwarmState, SwarmGoal, RootReceiptEntry,
  RootReceipts, Stamp,
}
use pi_graph_loop.Nudges.{Windows}
use pi_graph_loop.Surface.Keys.{GoalKey, split_colon, goal_key}
use pi_graph_loop.Surface.Actionable.{ActionVerdict, pump_retrigger_max, is_actionable_root_message}
use pi_graph_loop.Surface.Staleness.{record_of, stale_surface_reason, ms_of}
use pi_graph_loop.Surface.Coalesce.{
  SurfaceContext, SurfacePlan, coalesce_surface_plan, fingerprint_message,
}
use pi_graph_loop.Surface.Session.{
  take, take_last, PumpSession, pump_scan_window, pump_session_id_cap, pump_retrigger_delay_ms,
  PumpLimits, PumpInput, Decision, earlier_of,
}

-- An entry of `rootPumpSessions`.
module _ (i : PumpInput) where
  abbrev pub verdict_of : Record ℕ → Bool → MessageRecord → ActionVerdict
  verdict_of counts strict rec = is_actionable_root_message i.minimal rec counts strict i.ctx.tasks

  abbrev backfill_entry : MessageRecord → RootReceiptEntry
  backfill_entry rec = record {
    surfaced_at = rec.updated_at;
    acked_at = rec.acked_at;
    requires_ack = true;
    conversation_id = rec.conversation_id;
    fingerprint = fingerprint_message i.ctx.hash rec;
  }

  -- The body of the loop over the messages.
  unfoldable pub backfill_step :
      Record ℕ → Record RootReceiptEntry → MessageRecord → Record RootReceiptEntry
  backfill_step counts entries rec =
      if rec.to == "root" && rec.requires_ack && not (verdict_of counts true rec).ok
      then put rec.id (backfill_entry rec) entries
      else entries

  -- The migration, which runs while the receipts have no revision.
  unfoldable pub backfill : SwarmState → PumpSession → SwarmState
  backfill st sess =
      if nat_eq st.root_receipts.revision 0
      then record st {
        root_receipts = record {
          entries =
              foldl (backfill_step sess.retrigger_count) st.root_receipts.entries
                (values st.messages);
          revision = 1;
        };
      }
      else st

  -- The filter of `windowMsgs`, on a message's record.
  abbrev pub window_test : SwarmState → PumpSession → String → Option MessageRecord → Bool
  window_test st sess id none = false
  window_test st sess id (some rec) =
      if is_some (lookup id st.root_receipts.entries)
      then false
      else if not rec.requires_ack
          && (is_some rec.surfaced_at || includes (default_to [] (lookup "root" st.delivered)) id)
      then false
      else if includes sess.ids id
      then false
      else (verdict_of sess.retrigger_count false rec).ok

  unfoldable pub in_window : SwarmState → PumpSession → SwarmMessage → Bool
  in_window st sess m = window_test st sess m.id (lookup m.id st.messages)

  unfoldable pub window_messages : SwarmState → PumpSession → List SwarmMessage
  window_messages st sess = filter (in_window st sess) (take_last pump_scan_window i.mailbox)

  abbrev pub is_old_seq : Option SwarmGoal → Option GoalKey → Bool
  is_old_seq (some goal) (some key) = elim goal.nudge_seq [
    | none ↦ false
    | some seq ↦ goal.id == key.goal_id && ltb key.seq seq
  ]
  is_old_seq _ _ = false

  abbrev pub is_current_nudge : SwarmState → SwarmMessage → Bool
  is_current_nudge st m =
      let key = default_to "" (or_else (record_of st m).idempotency_key m.idempotency_key) in
      not (is_old_seq st.goal (goal_key (split_colon key)))

  -- `….map((m) => createdAt).sort()[0]`: the first in the order of texts.
  unfoldable pub earliest : SwarmState → List SwarmMessage → Option Stamp
  earliest st [] = none
  earliest st (m ∷ ms) =
      earlier_of (or_else (record_of st m).created_at m.created_at) (earliest st ms)

  abbrev waited : Option Stamp → Bool
  waited none = false
  waited (some at) = elim at.ms [
    | none ↦ false
    | some t ↦ leb (t + i.limits.stuck_defer_escalate_ms) i.now_ms
  ]

  -- `oldestWaitMs >= PUMP_STUCK_DEFER_ESCALATE_MS`.
  unfoldable pub has_waited : SwarmState → List SwarmMessage → Bool
  has_waited st waiting_messages =
      if is_nil waiting_messages
      then nat_eq i.limits.stuck_defer_escalate_ms 0
      else waited (or_else (earliest st waiting_messages) (some i.now))

  abbrev last_tool : Option SwarmAgent → Option ℕ
  last_tool none = some 0
  last_tool (some a) = elim a.last_tool_at [ none ↦ some 0 | some at ↦ at.ms ]

  abbrev is_recent_tool : Option ℕ → Bool
  is_recent_tool none = false
  is_recent_tool (some t) = ltb (i.now_ms - t) i.limits.busy_active_execution_ms

  unfoldable pub should_escalate : SwarmState → List SwarmMessage → Bool
  should_escalate st waiting_messages =
      not i.idle_at_start
      && has_waited st waiting_messages
      && not (is_recent_tool (last_tool (lookup "root" st.agents)))

  -- `nowMs - new Date(last).getTime() < PUMP_RETRIGGER_DELAY_MS`.
  abbrev is_within_delay : Stamp → Bool
  is_within_delay last = elim last.ms [
    | none ↦ false
    | some t ↦ ltb (i.now_ms - t) pump_retrigger_delay_ms
  ]

  abbrev overdue_at : Record ℕ → String → Option Stamp → Bool
  overdue_at counts id none = false
  overdue_at counts id (some last) =
      not (is_within_delay last) && ltb (default_to 0 (lookup id counts)) pump_retrigger_max

  abbrev overdue_record : PumpSession → String → Option MessageRecord → Bool
  overdue_record sess id none = false
  overdue_record sess id (some rec) =
      rec.requires_ack
      && not (is_some rec.acked_at)
      && overdue_at sess.retrigger_count id (lookup id sess.triggered_at)

  -- The filter of `overdueRetrigger`.
  unfoldable pub is_overdue : SwarmState → PumpSession → SwarmMessage → Bool
  is_overdue st sess m =
      includes sess.ids m.id && overdue_record sess m.id (lookup m.id st.messages)

  abbrev pub never_displayed : PumpSession → SwarmMessage → Bool
  never_displayed sess m = not (includes sess.ids m.id)

  unfoldable pub overdue_messages : SwarmState → PumpSession → List SwarmMessage
  overdue_messages st sess = filter (is_overdue st sess) (window_messages st sess)

  unfoldable pub surface_candidates : SwarmState → PumpSession → List SwarmMessage
  surface_candidates st sess =
      take 10 (filter (never_displayed sess) (window_messages st sess) ++ overdue_messages st sess)

  -- Is the message among those, by its id?
  unfoldable pub has_id : List SwarmMessage → SwarmMessage → Bool
  has_id [] m = false
  has_id (x ∷ xs) m = x.id == m.id || has_id xs m

  -- The body of the loop that marks the messages surfaced.
  unfoldable pub mark_surfaced : List SwarmMessage → PumpSession → SwarmMessage → PumpSession
  mark_surfaced overdue sess m = record sess {
    ids = set_add sess.ids m.id;
    triggered_at = put m.id i.now sess.triggered_at;
    retrigger_count =
        if has_id overdue m
        then put m.id (suc (default_to 0 (lookup m.id sess.retrigger_count))) sess.retrigger_count
        else sess.retrigger_count;
  }

  abbrev pub capped : PumpSession → PumpSession
  capped sess = record {
    ids = take_last pump_session_id_cap sess.ids;
    triggered_at = take_last pump_session_id_cap sess.triggered_at;
    retrigger_count = take_last pump_session_id_cap sess.retrigger_count;
    last_at = i.now;
  }

  -- `keepalive`, with the ids that coalescing has consumed.
  abbrev kept_alive : PumpSession → SurfacePlan → PumpSession
  kept_alive sess plan = record sess {
    ids = if is_nil plan.consumed then sess.ids else plan.surfaced;
    last_at = i.now;
  }

  unfoldable pub surface_now : PumpSession → List SwarmMessage → SurfacePlan → Bool → Decision
  surface_now sess overdue plan escalated =
      if is_nil plan.to_surface
      then record {
        st = plan.st;
        sess = kept_alive sess plan;
        to_surface = [];
        retriggered = [];
        escalated_stuck = false;
      }
      else record {
        st = plan.st;
        sess =
            capped
              (foldl (mark_surfaced overdue) (record sess { ids = plan.surfaced }) plan.to_surface);
        to_surface = plan.to_surface;
        retriggered = filter (has_id overdue) plan.to_surface;
        escalated_stuck = escalated;
      }

  -- `actionableBusyMsgs`.
  unfoldable pub waiting_messages : SwarmState → PumpSession → List SwarmMessage
  waiting_messages st sess =
      filter (is_current_nudge st) (filter (never_displayed sess) (window_messages st sess))

  -- After the migration.
  unfoldable pub decide : SwarmState → PumpSession → Decision
  decide st sess =
      let escalate = should_escalate st (waiting_messages st sess) in
      if not i.idle_at_start && not escalate
      then record {
        st = st;
        sess = record sess { last_at = i.now };
        to_surface = [];
        retriggered = [];
        escalated_stuck = false;
      }
      else surface_now sess (overdue_messages st sess)
          (coalesce_surface_plan i.ctx (stale_surface_reason i.windows st i.ctx.tasks i.now_ms) st
            (surface_candidates st sess) (foldl set_add [] sess.ids))
          escalate

  unfoldable pub decide_surface : SwarmState → PumpSession → Decision
  decide_surface st sess = decide (backfill st sess) sess
