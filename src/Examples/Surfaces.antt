-- ===== src/Examples/Surfaces.antt =====
-- The messages that a pump shows to the root.
use pi_graph_loop.Prelude.{
  ℕ, ◌≡◌, refl, String, Bool, true, false, Option, none, some, List, [], ◌∷◌, Member, here, lookup,
  put, modify, values, set_add, includes,
}
use pi_graph_loop.Types.{AgentStatus, MessageStatus, SwarmState, SwarmMessage, MessageRecord, Stamp}
use pi_graph_loop.Surface.Keys.{ref, split_colon, parse_task_node_ref, task_nudge_ref, goal_key}
use pi_graph_loop.Surface.Keys.Format.{
  has_no_colon, IsPiece, conversation_of, nudge_key_of, parse_task_node_ref-format,
}
use pi_graph_loop.Surface.Actionable.{
  is_actionable_root_message, reference_of, is_engine_nudge, budget_verdict,
}
use pi_graph_loop.Surface.Actionable.Sound.{IsShowable, is_actionable-IsShowable}
use pi_graph_loop.Surface.Rank.{
  root_surface_group_key, subject_key, trim, trim_start, trim_end, surfaces_before, sort_by,
  insert_sorted,
}
use pi_graph_loop.Surface.Staleness.{SurfaceStale, record_of, stale_surface_reason}
use pi_graph_loop.Surface.Coalesce.{
  SurfaceContext, coalesce_surface_plan, coalesced_plan, surface_plan, plan_step, coalesce,
  merge_entry, consume_dropped, receipt_step, write_back,
}
use pi_graph_loop.Surface.Coalesce.Freshest.{IsFreshest, coalesce_surface_plan-IsFreshest}
use pi_graph_loop.Surface.Decision.{
  decide_surface, backfill, overdue_messages, decide, surface_candidates, window_messages,
  in_window, is_overdue, has_id, mark_surfaced, surface_now, should_escalate, waiting_messages,
  has_waited, earliest,
}
use pi_graph_loop.Surface.Session.{take_last, drop, take, PumpInput, PumpSession}
use pi_graph_loop.Surface.Decision.Shown.{
  IsSurfaced, decide_surface-IsSurfaced, decide_surface-unprompted,
}
use pi_graph_loop.Surface.Decision.Bounded.{IsBounded, decide_surface-IsBounded}
use pi_graph_loop.Examples.Samples.{noon}
use pi_graph_loop.Examples.Notices.{swarm}

abbrev noon_ms : ℕ
noon_ms = 1_791_115_200_000

-- A report from a worker, outside any task.
abbrev report : String → Stamp → SwarmMessage
report id at = record {
  id = id;
  from = "tester-01";
  to = "root";
  subject = some "build report";
  priority = "normal";
  created_at = some at;
  updated_at = none;
  conversation_id = none;
  reply_to = none;
  requires_ack = true;
  requires_response = none;
  idempotency_key = none;
}

abbrev earlier : Stamp
earlier = record { text = "2026-10-04T11:00:00.000Z"; ms = some 1_791_111_600_000 }

abbrev record_for : String → Stamp → MessageRecord
record_for id at = record {
  id = id;
  from = "tester-01";
  to = "root";
  status = MessageStatus.mailbox_delivered;
  created_at = at;
  injected_at = none;
  intercepted_at = none;
  acked_at = none;
  requires_ack = true;
  requires_response = none;
  updated_at = at;
  surfaced_at = none;
  conversation_id = none;
  reply_to = none;
  subject = some "build report";
  idempotency_key = none;
  response = none;
  last_error = none;
  last_ack = none;
  superseded = none;
}

abbrev state : SwarmState
state = record (swarm AgentStatus.running) {
  messages = ("m1", record_for "m1" earlier) ∷ ("m2", record_for "m2" noon) ∷ [];
  root_receipts = record { entries = []; revision = 1 };
}

abbrev context : SurfaceContext
context = record { locale_lt = λ a b. false; lower = λ s. s; hash = λ s. s; tasks = []; ts = noon }

abbrev mail : List SwarmMessage
mail = report "m1" earlier ∷ report "m2" noon ∷ []

abbrev input : Bool → PumpInput
input idle = record {
  minimal = true;
  windows = record { alive_heartbeat_ms = 600_000; boot_grace_ms = 60_000 };
  limits = record { stuck_defer_escalate_ms = 120_000; busy_active_execution_ms = 30_000 };
  ctx = context;
  mailbox = mail;
  now = noon;
  now_ms = noon_ms;
  idle_at_start = idle;
}

abbrev session : PumpSession
session = record { ids = []; triggered_at = []; retrigger_count = []; last_at = noon }

abbrev ids_of : List SwarmMessage → List String
ids_of [] = []
ids_of (m ∷ ms) = m.id ∷ ids_of ms

abbrev never_stale : SwarmMessage → Option SurfaceStale
never_stale m = none

-- Of the two reports on one subject, the newer is shown.
newer_shown :
    ids_of (coalesce_surface_plan context never_stale state mail []).to_surface ≡ "m2" ∷ []
unfolding coalesce_surface_plan coalesced_plan surface_plan plan_step coalesce merge_entry
    root_surface_group_key subject_key trim trim_start trim_end surfaces_before sort_by
    insert_sorted record_of lookup put values consume_dropped receipt_step write_back modify set_add
    includes
newer_shown = refl

coalesce_surface_plan-IsFreshest_example : IsFreshest context never_stale state mail []
coalesce_surface_plan-IsFreshest_example =
    coalesce_surface_plan-IsFreshest context never_stale state mail []

pump_shows : ids_of (decide_surface (input true) state session).to_surface ≡ "m2" ∷ []
unfolding coalesce_surface_plan coalesced_plan surface_plan plan_step coalesce merge_entry
    root_surface_group_key subject_key trim trim_start trim_end surfaces_before sort_by
    insert_sorted record_of lookup put values consume_dropped receipt_step write_back modify set_add
    includes decide_surface backfill decide surface_candidates window_messages in_window take_last
    drop take is_actionable_root_message reference_of parse_task_node_ref budget_verdict
    is_engine_nudge is_overdue overdue_messages stale_surface_reason has_id mark_surfaced
    surface_now should_escalate waiting_messages has_waited earliest goal_key split_colon
    task_nudge_ref
pump_shows = refl

newest_in : Member (report "m2" noon) (decide_surface (input true) state session).to_surface
unfolding coalesce_surface_plan coalesced_plan surface_plan plan_step coalesce merge_entry
    root_surface_group_key subject_key trim trim_start trim_end surfaces_before sort_by
    insert_sorted record_of lookup put values consume_dropped receipt_step write_back modify set_add
    includes decide_surface backfill decide surface_candidates window_messages in_window take_last
    drop take is_actionable_root_message reference_of parse_task_node_ref budget_verdict
    is_engine_nudge is_overdue overdue_messages stale_surface_reason has_id mark_surfaced
    surface_now should_escalate waiting_messages has_waited earliest goal_key split_colon
    task_nudge_ref
newest_in = here refl

decide_surface-IsSurfaced_example :
    IsSurfaced (input true) (backfill (input true) state session) session (report "m2" noon)
decide_surface-IsSurfaced_example =
    decide_surface-IsSurfaced (input true) state session (report "m2" noon) newest_in

decide_surface-unprompted_example :
    (overdue_messages (input true) (backfill (input true) state session) session ≡ [])
    × ((decide_surface (input true) state session).retriggered ≡ [])
decide_surface-unprompted_example = decide_surface-unprompted (input true) state session

decide_surface-IsBounded_example :
    IsBounded (input true) (decide_surface (input true) state session)
decide_surface-IsBounded_example = decide_surface-IsBounded (input true) state session

may_show : (is_actionable_root_message true (record_for "m2" noon) [] false []).ok ≡ true
unfolding is_actionable_root_message reference_of parse_task_node_ref budget_verdict is_engine_nudge
    lookup
may_show = refl

is_actionable-IsShowable_example : IsShowable true (record_for "m2" noon) [] false []
is_actionable-IsShowable_example =
    is_actionable-IsShowable true (record_for "m2" noon) [] false [] may_show

task-IsPiece : IsPiece "task-1"
unfolding has_no_colon
task-IsPiece = (refl, refl)

node-IsPiece : IsPiece "test"
unfolding has_no_colon
node-IsPiece = (refl, refl)

parse_task_node_ref-format_example :
    (parse_task_node_ref (some (conversation_of "task-1" "test"))
      ≡ some (ref "task-1" (some "test")))
    × (parse_task_node_ref (some (nudge_key_of "task-1" "test" "stale-open:seq:1"))
        ≡ some (ref "task-1" (some "test")))
    × (task_nudge_ref (split_colon (nudge_key_of "task-1" "test" "stale-open:seq:1"))
        ≡ some (ref "task-1" (some "test")))
parse_task_node_ref-format_example =
    parse_task_node_ref-format "task-1" "test" "stale-open:seq:1" task-IsPiece node-IsPiece refl
