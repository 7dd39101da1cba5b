-- ===== src/Closure.antt =====
-- taskgraph/closure.ts: `nodeVerdict` and `computeNodeClosureSummary`. Reasons to block are texts, since
-- `computeTaskClosure` searches them.
pub mod Task
pub mod Clear
use pi_graph_loop.Prelude.{
  ℕ, String, Bool, true, false, not, ◌&&◌, ◌||◌, Option, none, some, List, [], ◌∷◌, ◌++◌, map,
  filter, ◌==◌, ◌<>◌, Record, lookup, modify, is_some, opt_eq, is_truthy, if◌then◌else◌, when,
  collect,
}
use pi_graph_loop.Types.{
  TaskNodeStatus, MessageStatus, AgentStatus, HealthStatus, MessageRecord, SwarmAgent, SwarmState,
  TaskNode, EditLock, TaskState, LastAck, Stamp, node_status_text, agent_status_text, health_text,
}
use pi_graph_loop.Agents.Role.{ensure_agent_defaults}
use pi_graph_loop.Attention.Fence.{is_down}

pub data Verdict : Type 0 where
  done failed skipped open_verdict : Verdict  -- the last is "open"

unfoldable pub node_verdict : TaskNodeStatus → Verdict
node_verdict TaskNodeStatus.done = done
node_verdict TaskNodeStatus.failed = failed
node_verdict TaskNodeStatus.skipped = skipped
node_verdict _ = open_verdict

abbrev pub is_open_verdict : Verdict → Bool
is_open_verdict open_verdict = true
is_open_verdict _ = false

abbrev is_done_verdict : Verdict → Bool
is_done_verdict done = true
is_done_verdict _ = false

pub record AssignmentAck : Type 0 where
  pub message_id : String
  pub status : MessageStatus
  pub acked : Bool
  pub ack_status : Option String

pub record Artifact : Type 0 where
  pub path : String
  pub exists : Bool

pub record NodeClosureSummary : Type 0 where
  pub node_id : String
  pub role : String
  pub assignee : Option String
  pub status : TaskNodeStatus
  pub closed : Bool
  pub verdict : Verdict
  pub blocking : List String
  pub assignment_ack : Option AssignmentAck
  pub artifacts : List Artifact
  pub evidence : List String

abbrev pub is_dead_lettered : MessageStatus → Bool
is_dead_lettered MessageStatus.dead_letter = true
is_dead_lettered _ = false

-- `rec.lastError || "unknown"`.
abbrev or_unknown : Option String → String
or_unknown none = "unknown"
or_unknown (some e) = if is_truthy e then e else "unknown"

abbrev last_ack_status : MessageRecord → Option String
last_ack_status rec = elim rec.last_ack [ none ↦ none | some a ↦ some a.status ]

abbrev ack_of : String → MessageRecord → AssignmentAck
ack_of id rec = record {
  message_id = id;
  status = rec.status;
  acked = is_some rec.acked_at;
  ack_status = last_ack_status rec;
}

unfoldable pub status_blocking : TaskNode → List String
status_blocking node =
    when (is_open_verdict (node_verdict node.status))
      ("status is " <> node_status_text node.status <> " (not terminal)")
    ++ elim node.stale_at [ none ↦ [] | some at ↦ ("marked stale at " <> at.text) ∷ [] ]

abbrev pub assignee_of : SwarmState → TaskNode → Option SwarmAgent
assignee_of st node = elim node.assignee [ none ↦ none | some id ↦ lookup id st.agents ]

unfoldable pub agent_blocking : Option SwarmAgent → List String
agent_blocking none = []
agent_blocking (some agent) = when (is_down agent) (
    "assignee "
    <> agent.id
    <> " is "
    <> agent_status_text agent.status
    <> "/"
    <> health_text agent.health)

-- What one message that the node references adds.
unfoldable pub record_blocking : Bool → TaskNode → String → Option MessageRecord → List String
record_blocking minimal node id none = ("references missing message " <> id) ∷ []
record_blocking minimal node id (some rec) =
    if is_some rec.superseded
    then []
    else when (is_dead_lettered rec.status)
        ("message " <> id <> " is dead-lettered (" <> or_unknown rec.last_error <> ")")
      ++ when (not minimal && rec.requires_ack && not (is_some rec.acked_at))
          ("assignment message " <> id <> " not acknowledged")
      ++ when
          (opt_eq (last_ack_status rec) (some "done") && is_open_verdict (node_verdict node.status))
          ("message " <> id <> " acked done but node is still " <> node_status_text node.status)

unfoldable pub message_blocking : Bool → SwarmState → TaskNode → String → List String
message_blocking minimal st node id = record_blocking minimal node id (lookup id st.messages)

-- `assignmentAck` after the canonical message was looked at, and after the loop over the messages.
unfoldable pub current_ack : SwarmState → String → Option AssignmentAck
current_ack st id = elim (lookup id st.messages) [
  | none ↦ none
  | some rec ↦ if is_some rec.superseded then none else some (ack_of id rec)
]

unfoldable pub first_ack : SwarmState → Option AssignmentAck → List String → Option AssignmentAck
first_ack st ack [] = ack
first_ack st ack (id ∷ ids) =
    first_ack st (elim ack [ some a ↦ some a | none ↦ current_ack st id ]) ids

unfoldable pub assignment_ack : SwarmState → TaskNode → Option AssignmentAck
assignment_ack st node =
    first_ack st (elim node.assignment_message_id [ none ↦ none | some id ↦ current_ack st id ])
      node.message_ids

-- `existsSync(join(tp.root, path))` is `file_exists`.
unfoldable pub artifacts_of : (String → Bool) → TaskNode → List Artifact
artifacts_of file_exists node =
    map (λ (p : String). record { path = p; exists = file_exists p }) node.write_artifacts

unfoldable pub artifact_blocking : TaskNode → Artifact → List String
artifact_blocking node a =
    when (is_done_verdict (node_verdict node.status) && not a.exists)
      ("declared artifact " <> a.path <> " missing")

unfoldable pub lock_blocking : String → TaskNode → String × EditLock → List String
lock_blocking node_id node (file, lock) =
    when (lock.node_id == node_id && not (is_open_verdict (node_verdict node.status)))
      ("holds editLock for " <> file)

-- The existing artifacts' paths.
unfoldable pub existing_paths : List Artifact → List String
existing_paths [] = []
existing_paths (a ∷ rest) = if a.exists then a.path ∷ existing_paths rest else existing_paths rest

-- `ensureAgentDefaults(agent)`, where the node's assignee has a record.
unfoldable pub settle_assignee : SwarmState → TaskNode → SwarmState
settle_assignee st node = elim node.assignee [
  | none ↦ st
  | some id ↦ record st { agents = modify id ensure_agent_defaults st.agents }
]

module _ (minimal : Bool) (file_exists : String → Bool) where
  unfoldable pub summary_of : SwarmState → TaskState → String → TaskNode → NodeClosureSummary
  summary_of st task node_id node =
      let artifacts = artifacts_of file_exists node in
      record {
        node_id = node_id;
        role = node.role;
        assignee = node.assignee;
        status = node.status;
        closed = not (is_open_verdict (node_verdict node.status));
        verdict = node_verdict node.status;
        blocking =
            status_blocking node
            ++ agent_blocking (assignee_of st node)
            ++ collect (message_blocking minimal st node) node.message_ids
            ++ collect (artifact_blocking node) artifacts
            ++ collect (lock_blocking node_id node) task.edit_locks;
        assignment_ack = assignment_ack st node;
        artifacts = artifacts;
        evidence = ("task.md node \"" <> node_id <> "\"") ∷ existing_paths artifacts;
      }

  -- The summary, and the state with the defaults of the assignee; a missing node throws.
  unfoldable compute_node_closure_summary :
      SwarmState → TaskState → String → Option (SwarmState × NodeClosureSummary)
  compute_node_closure_summary st task node_id = elim (lookup node_id task.nodes) [
    | none ↦ none
    | some node ↦ let st' = settle_assignee st node in some (st', summary_of st' task node_id node)
  ]
