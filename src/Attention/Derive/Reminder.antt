-- ===== src/Attention/Derive/Reminder.antt =====
-- attention.ts: when `deriveNodeAttention` lets a worker be reminded.
use pi_graph_loop.Prelude.{
  ℕ, ◌-◌, ◌<◌, String, Bool, true, false, ◌≡◌, refl, Option, none, some, subst, is_some, lookup,
  arith,
}
use pi_graph_loop.Types.{
  MessageRecord, SwarmAgent, SwarmState, TaskNode, TaskNodeAttempt, TaskState, is_active,
}
use pi_graph_loop.Graph.Rework.{prior_attempt}
use pi_graph_loop.Lifecycle.Transition.{is_task_cancelled}
use pi_graph_loop.Lifecycle.Attempt.{is_open_assignment}
use pi_graph_loop.Attention.Derive.{
  fenced_attention, unfenced_attention, open_attention, progress_attention, protocol_problem,
  message_problem, agent_problem, supersession, assignment_message, assignee_agent, returning,
  problem_attention, live_attention, derive_node_attention,
}
use pi_graph_loop.Attention.Evidence.{
  NodeAttention, reminder_no_progress_ms, reminder_anchor_ms, receipt_confirmed, is_dead_letter,
  is_stopped,
}

abbrev Eligible : NodeAttention → Type 0
Eligible v = v.worker_reminder_eligible ≡ true

-- What a reminder needs of the message and the attempt.
pub record IsDue (node : TaskNode) (now_ms : ℕ) (msg : MessageRecord) (a : TaskNodeAttempt)
    : Type 0 where
  pub active : is_active a.status ≡ true
  pub not_superseded : is_some msg.superseded ≡ false
  pub not_reminded : a.reminder ≡ none
  pub received : receipt_confirmed msg ≡ true
  pub idle : reminder_no_progress_ms < now_ms - reminder_anchor_ms msg node a

module _ (node : TaskNode) (now_ms : ℕ) where
  fenced_due :
      (msg : MessageRecord) (a : TaskNodeAttempt)
      → Eligible (fenced_attention node now_ms msg a)
      → (a.reminder ≡ none)
        × (receipt_confirmed msg ≡ true)
        × (reminder_no_progress_ms < now_ms - reminder_anchor_ms msg node a)
  unfolding fenced_attention
  fenced_due msg a h = ground arith

  open_tests :
      (m : MessageRecord) (b : TaskNodeAttempt)
      → Eligible (open_attention node now_ms (some m) (some b))
      → (is_active b.status ≡ true)
        × (is_some m.superseded ≡ false)
        × Eligible (fenced_attention node now_ms m b)
  unfolding open_attention unfenced_attention
  open_tests m b h = ground arith

  open-IsDue :
      (msg : Option MessageRecord) (a : Option TaskNodeAttempt)
      → Eligible (open_attention node now_ms msg a)
      → (m : MessageRecord) × (b : TaskNodeAttempt) × (msg ≡ some m)
        × (a ≡ some b)
        × IsDue node now_ms m b
  unfolding open_attention unfenced_attention
  open-IsDue none a h = cc h
  open-IsDue (some m) none h = cc h
  open-IsDue (some m) (some b) h =
      let (active, current, due) = open_tests m b h in
      let (unused, received, idle) = fenced_due m b due in
      (
        m,
        b,
        refl,
        refl,
        record {
          active = active;
          not_superseded = current;
          not_reminded = unused;
          received = received;
          idle = idle;
        },
      )

  progress_due :
      (msg : Option MessageRecord) (a : Option TaskNodeAttempt)
      → Eligible (progress_attention node now_ms msg a)
      → (is_open_assignment node.status ≡ true) × Eligible (open_attention node now_ms msg a)
  unfolding progress_attention
  progress_due msg a h = ground arith

-- The early returns do not remind.
abbrev Silent : Option NodeAttention → Type 0
Silent none = Unit
Silent (some v) = v.worker_reminder_eligible ≡ false

returning_due :
    (o : Option NodeAttention) (rest : NodeAttention)
    → Silent o
    → Eligible (returning o rest)
    → (o ≡ none) × Eligible rest
returning_due none rest s h = (refl, h)
returning_due (some v) rest s h = cc (s, h)

message-Silent : (msg : Option MessageRecord) → Silent (message_problem msg)
unfolding message_problem
message-Silent none = tt
message-Silent (some m) = at (message_problem (some m)) refl
  where
    at : (o : Option NodeAttention) → message_problem (some m) ≡ o → Silent o
    at none e = tt
    at (some v) e = ground arith

agent-Silent : (agent : Option SwarmAgent) → Silent (agent_problem agent)
unfolding agent_problem
agent-Silent none = tt
agent-Silent (some a) = at (agent_problem (some a)) refl
  where
    at : (o : Option NodeAttention) → agent_problem (some a) ≡ o → Silent o
    at none e = tt
    at (some v) e = ground arith

protocol-Silent :
    (node : TaskNode) (now_ms : ℕ) (minimal : Bool) (msg : Option MessageRecord)
    → Silent (protocol_problem node now_ms minimal msg)
unfolding protocol_problem
protocol-Silent node now_ms minimal none = tt
protocol-Silent node now_ms minimal (some m) =
    at (protocol_problem node now_ms minimal (some m)) refl
  where
    at : (o : Option NodeAttention) → protocol_problem node now_ms minimal (some m) ≡ o → Silent o
    at none e = tt
    at (some v) e = ground arith

supersession-Silent :
    (msg : Option MessageRecord) (a : Option TaskNodeAttempt) → Silent (supersession msg a)
unfolding supersession
supersession-Silent msg a = at (supersession msg a) refl
  where
    at : (o : Option NodeAttention) → supersession msg a ≡ o → Silent o
    at none e = tt
    at (some v) e = ground arith

-- The state in which a worker may be reminded of the node `node_id`.
pub record IsReminderDue (st : SwarmState) (task : TaskState) (node_id : String) (now_ms : ℕ)
    : Type 0 where
  pub node : TaskNode
  pub found : lookup node_id task.nodes ≡ some node
  pub task_live : is_task_cancelled task.status ≡ false
  pub assigned : is_open_assignment node.status ≡ true
  pub msg : MessageRecord
  pub canonical : assignment_message st node ≡ some msg
  pub attempt : TaskNodeAttempt
  pub current : prior_attempt node ≡ some attempt
  pub due : IsDue node now_ms msg attempt
  pub delivered : is_dead_letter msg.status ≡ false
  pub agent_up :
      (agent : SwarmAgent) → assignee_agent st node ≡ some agent → is_stopped agent.status ≡ false

delivered_of :
    (msg : MessageRecord) → message_problem (some msg) ≡ none → is_dead_letter msg.status ≡ false
unfolding message_problem
delivered_of msg h = ground arith

agent_up_of :
    (o : Option SwarmAgent)
    → agent_problem o ≡ none
    → (agent : SwarmAgent) → o ≡ some agent
    → is_stopped agent.status ≡ false
unfolding agent_problem
agent_up_of none h agent e = cc e
agent_up_of (some a) h agent e = ground arith

module _ (minimal : Bool) (st : SwarmState) (task : TaskState) (node_id : String) (now_ms : ℕ) where
  problem_due :
      (node : TaskNode)
      → lookup node_id task.nodes ≡ some node
      → is_task_cancelled task.status ≡ false
      → Eligible (problem_attention minimal st node now_ms)
      → IsReminderDue st task node_id now_ms
  unfolding problem_attention
  problem_due node found live h =
      let msg = assignment_message st node in
      let agent = assignee_agent st node in
      let (no_message_problem, h1) = returning_due (message_problem msg) _ (message-Silent msg) h in
      let (no_agent_problem, h2) = returning_due (agent_problem agent) _ (agent-Silent agent) h1 in
      let (none_protocol, h3) =
        returning_due (protocol_problem node now_ms minimal msg) _
          (protocol-Silent node now_ms minimal msg) h2 in
      let (assigned, h4) = progress_due node now_ms msg (prior_attempt node) h3 in
      let (m, a, em, ea, due) = open-IsDue node now_ms msg (prior_attempt node) h4 in
      record {
        node = node;
        found = found;
        task_live = live;
        assigned = assigned;
        msg = m;
        canonical = em;
        attempt = a;
        current = ea;
        due = due;
        delivered = delivered_of m (subst (λ o. message_problem o ≡ none) em no_message_problem);
        agent_up = agent_up_of agent no_agent_problem;
      }

  live_due :
      (node : TaskNode)
      → Eligible (live_attention minimal st node_id node now_ms)
      → Eligible (problem_attention minimal st node now_ms)
  unfolding live_attention
  live_due node h =
      let (e, h1) =
        returning_due (supersession (assignment_message st node) (prior_attempt node)) _
          (supersession-Silent (assignment_message st node) (prior_attempt node)) h in
      ground (arith, h1)

  derive_live :
      (node : TaskNode)
      → lookup node_id task.nodes ≡ some node
      → Eligible (derive_node_attention minimal st task node_id now_ms)
      → (is_task_cancelled task.status ≡ false)
        × Eligible (live_attention minimal st node_id node now_ms)
  unfolding derive_node_attention
  derive_live node found h = ground (arith, found)

  derive_missing :
      lookup node_id task.nodes ≡ none
      → ¬ Eligible (derive_node_attention minimal st task node_id now_ms)
  unfolding derive_node_attention
  derive_missing e h = ground (arith, e)

  -- A worker is reminded only of a node that is assigned or in progress in a task that is not
  -- cancelled, whose assignment message is neither superseded nor a dead letter and was received and
  -- acknowledged as seen or processing, whose current attempt is active and was not reminded before,
  -- whose last durable activity is over an hour ago, and whose assignee is not stopped.
  pub derive_node_attention-IsReminderDue :
      Eligible (derive_node_attention minimal st task node_id now_ms)
      → IsReminderDue st task node_id now_ms
  derive_node_attention-IsReminderDue h = at (lookup node_id task.nodes) refl
    where
      at :
          (o : Option TaskNode)
          → lookup node_id task.nodes ≡ o
          → IsReminderDue st task node_id now_ms
      at none e = absurd (derive_missing e h)
      at (some node) e =
          let (live, h1) = derive_live node e h in problem_due node e live (live_due node h1)
