-- ===== src/Closure/Clear.antt =====
-- closure.ts: what a node is whose closure summary lists nothing that blocks.
use pi_graph_loop.Prelude.{
  String, Bool, true, false, not, ◌&&◌, ◌≡◌, ◌⊎◌, inl, inr, refl, Option, none, some, List, [], ◌∷◌,
  ◌++◌, map, lookup, is_some, ◌==◌, Member, here, there, arith, ap, when, IsNil, append-IsNil,
  when-IsNil, collect-IsNil, if_ind,
}
use pi_graph_loop.Types.{
  TaskNodeStatus, MessageRecord, SwarmAgent, SwarmState, TaskNode, EditLock, TaskState,
}
use pi_graph_loop.Attention.Fence.{is_down}
use pi_graph_loop.Closure.{
  node_verdict, is_open_verdict, is_dead_lettered, assignee_of, Artifact, status_blocking,
  agent_blocking, record_blocking, message_blocking, artifacts_of, artifact_blocking, lock_blocking,
  summary_of,
}

-- A message that the node references is superseded, or it is delivered and, where the protocol asks
-- for it, acknowledged.
pub record IsSettled (minimal : Bool) (rec : MessageRecord) : Type 0 where
  pub alive : is_dead_lettered rec.status ≡ false
  pub acknowledged : (not minimal && rec.requires_ack && not (is_some rec.acked_at)) ≡ false

pub record IsClear (minimal : Bool) (file_exists : String → Bool) (st : SwarmState)
    (task : TaskState) (node_id : String) (node : TaskNode) : Type 0 where
  pub closed : is_open_verdict (node_verdict node.status) ≡ false
  pub fresh : node.stale_at ≡ none
  pub agent_up : (agent : SwarmAgent) → assignee_of st node ≡ some agent → is_down agent ≡ false
  pub messages :
      (id : String)
      → Member id node.message_ids
      → (rec : MessageRecord) × (lookup id st.messages ≡ some rec)
        × ((is_some rec.superseded ≡ true) ⊎ IsSettled minimal rec)
  pub artifacts :
      (p : String)
      → node.status ≡ TaskNodeStatus.done
      → Member p node.write_artifacts
      → file_exists p ≡ true
  pub unlocked :
      (file : String) (lock : EditLock)
      → Member (file, lock) task.edit_locks
      → (lock.node_id == node_id) ≡ false

status_clear :
    (node : TaskNode)
    → IsNil (status_blocking node)
    → (is_open_verdict (node_verdict node.status) ≡ false) × (node.stale_at ≡ none)
unfolding status_blocking
status_clear node h =
    let (unclosed, stale) = append-IsNil _ _ h in (when-IsNil _ _ unclosed, ground (arith, stale))

agent_clear :
    (o : Option SwarmAgent) (agent : SwarmAgent)
    → o ≡ some agent
    → IsNil (agent_blocking o)
    → is_down agent ≡ false
unfolding agent_blocking
agent_clear none agent e h = cc e
agent_clear (some a) agent e h = ground (arith, e, when-IsNil (is_down a) _ h)

-- What is pushed for a message that is not superseded.
IsSettled-of :
    {minimal : Bool} {rec : MessageRecord} (last : Bool) (a b c : String)
    → IsNil (
        when (is_dead_lettered rec.status) a
        ++ when (not minimal && rec.requires_ack && not (is_some rec.acked_at)) b
        ++ when last c)
    → IsSettled minimal rec
IsSettled-of last a b c h =
    let (first, _) = append-IsNil _ _ h in
    let (dead, unread) = append-IsNil _ _ first in
    record { alive = when-IsNil _ _ dead; acknowledged = when-IsNil _ _ unread }

record_clear :
    (minimal : Bool) (node : TaskNode) (id : String) (o : Option MessageRecord)
    → IsNil (record_blocking minimal node id o)
    → (rec : MessageRecord) × (o ≡ some rec)
      × ((is_some rec.superseded ≡ true) ⊎ IsSettled minimal rec)
unfolding record_blocking
record_clear minimal node id none h = cc h
record_clear minimal node id (some rec) h = (
  rec,
  refl,
  if_ind (λ (xs : List String). IsNil xs → (is_some rec.superseded ≡ true) ⊎ IsSettled minimal rec)
      (is_some rec.superseded) (λ old _. inl old) (λ _ k. inr (IsSettled-of _ _ _ _ k)) h,
)

member_map :
    {A B : Type 0} (f : A → B) (xs : List A) {x : A} → Member x xs → Member (f x) (map f xs)
member_map f [] m = elim m [ ]
member_map f (y ∷ ys) (here e) = here (ap f e)
member_map f (y ∷ ys) (there m) = there (member_map f ys m)

artifact_clear :
    (node : TaskNode) (a : Artifact)
    → IsNil (artifact_blocking node a)
    → node.status ≡ TaskNodeStatus.done
    → a.exists ≡ true
unfolding artifact_blocking node_verdict
artifact_clear node a h e = ground (arith, e, when-IsNil _ _ h)

lock_clear :
    (node_id : String) (node : TaskNode) (file : String) (lock : EditLock)
    → IsNil (lock_blocking node_id node (file, lock))
    → is_open_verdict (node_verdict node.status) ≡ false
    → (lock.node_id == node_id) ≡ false
unfolding lock_blocking
lock_clear node_id node file lock h c = ground (arith, c, when-IsNil _ _ h)

message_lem :
    (minimal : Bool) (st : SwarmState) (node : TaskNode) (id : String)
    → IsNil (message_blocking minimal st node id)
    → IsNil (record_blocking minimal node id (lookup id st.messages))
unfolding message_blocking
message_lem minimal st node id h = h

artifact_member :
    (file_exists : String → Bool) (node : TaskNode) (p : String)
    → Member p node.write_artifacts
    → Member (record { path = p; exists = file_exists p }) (artifacts_of file_exists node)
unfolding artifacts_of
artifact_member file_exists node p m =
    member_map (λ (q : String). record { path = q; exists = file_exists q }) node.write_artifacts m

-- A node whose closure summary lists nothing that blocks is done, failed or skipped and not marked
-- stale; its assignee is neither stopped nor unhealthy; each message that it references exists and is
-- superseded, or neither a dead letter nor unacknowledged where the protocol asks for it; it holds no
-- edit lock; and if it is done, its declared artifacts exist.
pub summary_of-IsClear :
    (minimal : Bool) (file_exists : String → Bool) (st : SwarmState) (task : TaskState)
    (node_id : String) (node : TaskNode)
    → (summary_of minimal file_exists st task node_id node).blocking ≡ []
    → IsClear minimal file_exists st task node_id node
unfolding summary_of
summary_of-IsClear minimal file_exists st task node_id node h =
    let (h4, locks) = append-IsNil _ _ h in
    let (h3, missing) = append-IsNil _ _ h4 in
    let (h2, messages) = append-IsNil _ _ h3 in
    let (status, agent) = append-IsNil _ _ h2 in
    let (closed, fresh) = status_clear node status in
    record {
      closed = closed;
      fresh = fresh;
      agent_up = λ a e. agent_clear (assignee_of st node) a e agent;
      messages = λ id m. record_clear minimal node id (lookup id st.messages) (
          message_lem minimal st node id
            (collect-IsNil (message_blocking minimal st node) node.message_ids messages m));
      artifacts = λ p e m.
          artifact_clear node (record { path = p; exists = file_exists p })
            (collect-IsNil (artifact_blocking node) (artifacts_of file_exists node) missing
              (artifact_member file_exists node p m))
            e;
      unlocked = λ file lock m.
          lock_clear node_id node file lock
            (collect-IsNil (lock_blocking node_id node) task.edit_locks locks m) closed;
    }
