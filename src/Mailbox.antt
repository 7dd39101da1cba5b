-- ===== src/Mailbox.antt =====
-- extensions/swarm/src/mailbox.ts: the debts that messages leave, the check of a result message, and
-- the supersession of assignments. Delivery itself is not modelled.
pub mod Cancelled
pub mod Index
pub mod Result
pub mod Waived
use pi_graph_loop.Prelude.{
  opt_is, ℕ, String, Bool, true, false, not, ◌&&◌, ◌||◌, Option, none, some, List, [], ◌∷◌, ◌++◌,
  foldl, Record, lookup, modify, values, filter, length, is_some, is_set, is_nil, is_truthy,
  default_to, set_add, includes, ◌==◌, if◌then◌else◌,
}
use pi_graph_loop.Types.{
  Stamp, MessageStatus, MessageResponseStatus, MessageResponse, MessageRecord, Superseded, LastAck,
  RuntimeStatus, SwarmAgent, SwarmState, TaskState, TaskNode, Handoff,
}
use pi_graph_loop.Attention.Evidence.{is_settled_response, response_status}

abbrev pub is_failed_message : MessageStatus → Bool
is_failed_message MessageStatus.failed = true
is_failed_message _ = false

abbrev pub is_dead : MessageStatus → Bool
is_dead MessageStatus.dead_letter = true
is_dead _ = false

abbrev pub is_queued : MessageStatus → Bool
is_queued MessageStatus.queued = true
is_queued _ = false

abbrev pub is_verified : Option MessageResponseStatus → Bool
is_verified (some MessageResponseStatus.verified) = true
is_verified _ = false

-- The statuses in which a message asks for an acknowledgement that is still owed.
abbrev pub is_underway : MessageStatus → Bool
is_underway MessageStatus.mailbox_delivered = true
is_underway MessageStatus.injected = true
is_underway MessageStatus.intercepted = true
is_underway MessageStatus.queued = true
is_underway _ = false

unfoldable pub is_response_tracking_active : MessageRecord → Bool
is_response_tracking_active rec =
    is_set rec.requires_response
    && not (is_dead rec.status)
    && not (is_queued rec.status)
    && (not (is_failed_message rec.status) || is_some rec.last_ack)

unfoldable pub misses_response : String → MessageRecord → Bool
misses_response agent_id m =
    m.to == agent_id
    && is_response_tracking_active m
    && not (is_settled_response (response_status m))

unfoldable pub response_missing_records : SwarmState → String → List MessageRecord
response_missing_records st agent_id = filter (misses_response agent_id) (values st.messages)

unfoldable pub owes_ack : String → MessageRecord → Bool
owes_ack agent_id m =
    m.to == agent_id
    && m.requires_ack
    && not (is_some m.acked_at)
    && not (is_some m.superseded)
    && is_underway m.status

unfoldable pub unacked_requires_ack_records : Bool → SwarmState → String → List MessageRecord
unacked_requires_ack_records minimal st agent_id =
    if minimal then [] else filter (owes_ack agent_id) (values st.messages)

unfoldable pub verified_response_count : SwarmState → String → ℕ
verified_response_count st agent_id = length (
    filter
      (λ (m : MessageRecord).
        m.to == agent_id && is_set m.requires_response && is_verified (response_status m))
      (values st.messages))

-- `{ status: "missing" }`.
abbrev pub missing_response : MessageResponse
missing_response = record {
  status = MessageResponseStatus.missing;
  result_message_id = none;
  missing_at = none;
  sent_at = none;
  verified_at = none;
  waived_at = none;
  waived_by = none;
  last_error = none;
}

-- What supersession writes to a record.
unfoldable pub superseded_record : Stamp → String → String → MessageRecord → MessageRecord
superseded_record at by superseded_by rec = record rec {
  superseded = some (record { at = at; by = by; superseded_by = superseded_by });
  response = some (record (default_to missing_response rec.response) {
    status = MessageResponseStatus.waived;
    waived_at = some at;
    waived_by = some by;
    last_error = none;
  });
  updated_at = at;
}

abbrev is_acked_done : Option LastAck → Bool
is_acked_done none = false
is_acked_done (some a) = a.status == "done"

-- An assignment that can be superseded.
unfoldable pub may_supersede : MessageRecord → Bool
may_supersede rec =
    not (is_failed_message rec.status || is_dead rec.status)
    && not (is_acked_done rec.last_ack)
    && not (is_some rec.superseded)

abbrev other_id : String → Option String → List String
other_id new_id none = []
other_id new_id (some mid) = if is_truthy mid && not (mid == new_id) then mid ∷ [] else []

-- The message ids of the assignments of a node, other than the new one.
unfoldable pub prior_ids : String → String → List Handoff → List String
prior_ids node_id new_id [] = []
prior_ids node_id new_id (h ∷ hs) =
    let rest = prior_ids node_id new_id hs in
    if opt_is h.to_node node_id && opt_is h.kind "assign"
    then other_id new_id h.message_id ++ rest
    else rest

abbrev pub prior_set : String → String → TaskState → List String
prior_set node_id new_id task = foldl set_add [] (prior_ids node_id new_id task.handoffs)

pub record Supersession : Type 0 where
  pub messages : Record MessageRecord
  pub superseded_ids : List String

abbrev pub is_response_missing : RuntimeStatus → Bool
is_response_missing RuntimeStatus.response_missing = true
is_response_missing _ = false

abbrev pub is_stuck : Option SwarmAgent → Bool
is_stuck none = false
is_stuck (some a) = is_response_missing a.runtime_status

-- `clock` is `now()` when a message is visited.
module _ (clock : String → Stamp) (by new_id : String) where
  abbrev pub supersede_found : Supersession → String → Option MessageRecord → Supersession
  supersede_found run mid none = run
  supersede_found run mid (some rec) =
      if may_supersede rec
      then record {
        messages = modify mid (superseded_record (clock mid) by new_id) run.messages;
        superseded_ids = run.superseded_ids ++ mid ∷ [];
      }
      else run

  -- The body of the loop.
  unfoldable pub supersede_step : Supersession → String → Supersession
  supersede_step run mid = supersede_found run mid (lookup mid run.messages)

abbrev pub set_idle : Stamp → SwarmAgent → SwarmAgent
set_idle at a = record a { runtime_status = RuntimeStatus.idle; updated_at = some at }

-- The assignee is idle again where its last missing response was waived.
unfoldable pub unstick : Stamp → SwarmState → Option String → SwarmState
unstick at st none = st
unstick at st (some id) =
    if is_stuck (lookup id st.agents) && is_nil (response_missing_records st id)
    then record st { agents = modify id (set_idle at) st.agents }
    else st

abbrev pub assignee_at : Option TaskNode → Option String
assignee_at none = none
assignee_at (some n) = n.assignee

-- The loop goes over a set, so its own test of ids seen before never fires. What it throws is traced.
unfoldable pub supersede_open_assignments :
    (String → Stamp)
    → Stamp
    → SwarmState
    → TaskState
    → String
    → String
    → String
    → SwarmState × List String
supersede_open_assignments clock now st task node_id new_id by =
    let run : Supersession =
      foldl (supersede_step clock by new_id)
        (record { messages = st.messages; superseded_ids = [] })
        (foldl set_add [] (prior_ids node_id new_id task.handoffs)) in
    (
      unstick now (record st { messages = run.messages }) (assignee_at (lookup node_id task.nodes)),
      run.superseded_ids,
    )
