-- ===== src/Closure/Task/Report.antt =====
-- closure.ts: what the report of `computeTaskClosure` says about the task.
use pi_graph_loop.Prelude.{
  Option, none, some, Member, here, there, All, member_of_all, All-of_members, append-split,
  member-append_left, member-append_right, nonempty-Member, when, when-Member, ◌↔◌, subst, String,
  Bool, true, false, not, ◌≡◌, ◌⊎◌, inl, inr, refl, sym, ◌∙◌, List, [], ◌∷◌, filter, any, length,
  is_nil, arith, IsNil, append-IsNil, when-IsNil, ap, Bool-cases,
}
use pi_graph_loop.Types.{
  TaskStatus, TaskNodeStatus, SwarmState, TaskNode, TaskState, same_task_status,
}
use pi_graph_loop.Lifecycle.Transition.{is_task_cancelled}
use pi_graph_loop.Lifecycle.Status.{compute_task_status, is_closed_status}
use pi_graph_loop.Lifecycle.Status.Closure.{IsFinished, compute_task_status-done_iff}
use pi_graph_loop.Closure.{NodeClosureSummary, is_open_verdict, settle_assignee, summary_of}
use pi_graph_loop.Lifecycle.Attempt.{is_open_assignment}
use pi_graph_loop.Closure.{node_verdict}
use pi_graph_loop.Closure.Task.{
  OpenAssignment, assignment_entry, TaskClosure, close_nodes, open_assignments_of, drift_blocking,
  stall_blocking, compute_task_closure,
}

path_of_same_task_status : (a b : TaskStatus) → same_task_status a b ≡ true → a ≡ b
path_of_same_task_status a b h = ground (arith, h)

-- An entry of the task whose node is assigned or in progress and has an assignee.
abbrev IsAtWork : String × TaskNode → Type 0
IsAtWork e =
    ((a : String) × (e.1.assignee ≡ some a))
    × ((e.1.status ≡ TaskNodeStatus.assigned) ⊎ (e.1.status ≡ TaskNodeStatus.in_progress))

-- A node that is done, failed or skipped.
abbrev IsOver : TaskNode → Type 0
IsOver n =
    (n.status ≡ TaskNodeStatus.done)
    ⊎ (n.status ≡ TaskNodeStatus.failed)
    ⊎ (n.status ≡ TaskNodeStatus.skipped)

-- The assignment that an entry of the report describes: the node's assignee and its status, which is
-- assigned or in progress.
abbrev IsAssignment : TaskNode → OpenAssignment → Type 0
IsAssignment n o =
    (n.assignee ≡ some o.assignee)
    × (n.status ≡ o.status)
    × ((o.status ≡ TaskNodeStatus.assigned) ⊎ (o.status ≡ TaskNodeStatus.in_progress))

-- What a report says of the nodes of the task.
pub record IsReport (task : TaskState) (c : TaskClosure) : Type 0 where
  pub assigned :
      (o : OpenAssignment)
      → Member o c.open_assignments
        ↔ ((n : TaskNode) × Member (o.node_id, n) task.nodes × IsAssignment n o)
  pub all_over : c.open_nodes ≡ 0 ↔ ((e : String × TaskNode) → Member e task.nodes → IsOver e.1)
  pub no_drift :
      c.blocking ≡ []
      → is_task_cancelled task.status ≡ false
      → compute_task_status task ≡ task.status
  pub no_stall :
      c.blocking ≡ []
      → is_closed_status task.status ≡ false
      → ((e : String × TaskNode) × Member e task.nodes × IsAtWork e)
        ⊎ ((e : String × TaskNode) → Member e task.nodes → IsOver e.1)

entry_sound :
    (id : String) (status : TaskNodeStatus) (a : Option String) (o : OpenAssignment)
    → Member o (assignment_entry id status a)
    → (o.node_id ≡ id)
      × ((a ≡ some o.assignee)
          × (status ≡ o.status)
          × ((o.status ≡ TaskNodeStatus.assigned) ⊎ (o.status ≡ TaskNodeStatus.in_progress)))
entry_sound id status none o m = elim m [ ]
entry_sound id status (some a) o m =
    let (is_open, e) = when-Member (is_open_assignment status) _ m in
    (
      ap (λ (p : OpenAssignment). p.node_id) e,
      (
        ap (λ (p : OpenAssignment). some p.assignee) (sym e),
        ap (λ (p : OpenAssignment). p.status) (sym e),
        subst
            (λ (s : TaskNodeStatus).
              (s ≡ TaskNodeStatus.assigned) ⊎ (s ≡ TaskNodeStatus.in_progress))
            (ap (λ (p : OpenAssignment). p.status) (sym e)) (ground (arith, is_open)),
      ),
    )

entry_complete :
    (n : TaskNode) (o : OpenAssignment)
    → IsAssignment n o
    → Member o (assignment_entry o.node_id n.status n.assignee)
entry_complete n o (held, same, work) =
    let is_open : is_open_assignment o.status ≡ true = ground (arith, work) in
    rw (held, same) (subst (λ (b : Bool). Member o (when b o)) (sym is_open) (here refl))

IsOver-iff : (n : TaskNode) → (is_open_verdict (node_verdict n.status) ≡ false) ↔ IsOver n
unfolding node_verdict
IsOver-iff n = ground arith

at_work :
    (n : TaskNode) (o : OpenAssignment)
    → n.status ≡ o.status
    → (o.status ≡ TaskNodeStatus.assigned) ⊎ (o.status ≡ TaskNodeStatus.in_progress)
    → (n.status ≡ TaskNodeStatus.assigned) ⊎ (n.status ≡ TaskNodeStatus.in_progress)
at_work n o same work =
    subst (λ (s : TaskNodeStatus). (s ≡ TaskNodeStatus.assigned) ⊎ (s ≡ TaskNodeStatus.in_progress))
      (sym same) work

none_open :
    (ns : List NodeClosureSummary)
    → any (λ n. not n.closed) ns ≡ false
    → length (filter (λ n. not n.closed) ns) ≡ 0
none_open [] h = refl
none_open (n ∷ ns) h = ground (arith, h, none_open ns (ground (arith, h)))

module _ (minimal : Bool) (file_exists : String → Bool) (task : TaskState) where
  close_nodes_open :
      (st : SwarmState) (es : List (String × TaskNode))
      → any (λ n. is_open_verdict n.verdict) (close_nodes minimal file_exists task st es).1
        ≡ any (λ n. not n.closed) (close_nodes minimal file_exists task st es).1
  unfolding close_nodes summary_of
  close_nodes_open st [] = refl
  close_nodes_open st ((id, node) ∷ es) =
      ground (arith, close_nodes_open (settle_assignee st node) es)

  -- The open assignments that the report names are the entries of the task that are at work.
  assigned_sound :
      (st : SwarmState) (es : List (String × TaskNode)) (o : OpenAssignment)
      → Member o (open_assignments_of (close_nodes minimal file_exists task st es).1)
      → (n : TaskNode) × Member (o.node_id, n) es × IsAssignment n o
  unfolding close_nodes summary_of open_assignments_of
  assigned_sound st [] o m = elim m [ ]
  assigned_sound st ((id, node) ∷ es) o m =
      elim (append-split (assignment_entry id node.status node.assignee) _ m) [
        | inl now ↦
            let (named, work) = entry_sound id node.status node.assignee o now in
            (node, here (ap (λ (k : String). (k, node)) named), work)
        | inr later ↦
            let (n, k, work) = assigned_sound (settle_assignee st node) es o later in
            (n, there k, work)
      ]

  assigned_complete :
      (st : SwarmState) (es : List (String × TaskNode)) (o : OpenAssignment) (n : TaskNode)
      → Member (o.node_id, n) es
      → IsAssignment n o
      → Member o (open_assignments_of (close_nodes minimal file_exists task st es).1)
  unfolding close_nodes summary_of open_assignments_of
  assigned_complete st [] o n m work = elim m [ ]
  assigned_complete st ((id, node) ∷ es) o n (here e) work =
      member-append_left (assignment_entry id node.status node.assignee) _ (
        subst (λ (x : String × TaskNode). Member o (assignment_entry x.0 x.1.status x.1.assignee)) e
          (entry_complete n o work))
  assigned_complete st ((id, node) ∷ es) o n (there m) work =
      member-append_right (assignment_entry id node.status node.assignee) _
        (assigned_complete (settle_assignee st node) es o n m work)

  open_zero :
      (st : SwarmState) (es : List (String × TaskNode))
      → length (filter (λ n. not n.closed) (close_nodes minimal file_exists task st es).1) ≡ 0
        ↔ All (λ (e : String × TaskNode). IsOver e.1) es
  unfolding close_nodes summary_of
  open_zero st [] = (λ h. tt, λ h. refl)
  open_zero st ((id, node) ∷ es) =
      let (sound, complete) = open_zero (settle_assignee st node) es in
      elim (Bool-cases (is_open_verdict (node_verdict node.status))) [
        | inl is_open ↦ (
          λ h. absurd (ground (arith, is_open, h)),
          λ (o, rest). absurd (ground (arith, is_open, (IsOver-iff node).1 o)),
        )
        | inr over ↦ (
          λ h. ((IsOver-iff node).0 over, sound (ground (arith, over, h))),
          λ (o, rest). ground (arith, over, complete rest),
        )
      ]

drift_lem :
    (task : TaskState)
    → IsNil (drift_blocking task)
    → is_task_cancelled task.status ≡ false
    → compute_task_status task ≡ task.status
unfolding drift_blocking
drift_lem task h live =
    path_of_same_task_status (compute_task_status task) task.status
      (ground (arith, live, when-IsNil _ _ h))

stall_lem :
    (task : TaskState) (ns : List NodeClosureSummary)
    → IsNil (stall_blocking task ns)
    → any (λ n. is_open_verdict n.verdict) ns ≡ any (λ n. not n.closed) ns
    → is_closed_status task.status ≡ false
    → (is_nil (open_assignments_of ns) ≡ false) ⊎ (length (filter (λ n. not n.closed) ns) ≡ 0)
unfolding stall_blocking
stall_lem task ns h same going = elim (Bool-cases (is_nil (open_assignments_of ns))) [
  | inr some_open ↦ inl some_open
  | inl nothing ↦ inr (none_open ns (sym same ∙ ground (arith, going, nothing, when-IsNil _ _ h)))
]

-- The open assignments in the report of `computeTaskClosure` are exactly the nodes of the task that have
-- an assignee and are assigned or in progress; it counts no node as open exactly where every node is
-- done, failed or skipped; and where nothing blocks, a task that is not cancelled has the status
-- that its nodes derive, and a task that is not closed has such an assignment or only such nodes.
pub compute_task_closure-IsReport :
    (minimal : Bool) (file_exists : String → Bool) (st : SwarmState) (task : TaskState)
    → IsReport task (compute_task_closure minimal file_exists st task).1
unfolding compute_task_closure
compute_task_closure-IsReport minimal file_exists st task =
    let ns = (close_nodes minimal file_exists task st task.nodes).1 in
    let (sound, complete) = open_zero minimal file_exists task st task.nodes in
    let over : (length (filter (λ n. not n.closed) ns) ≡ 0)
        → (e : String × TaskNode) → Member e task.nodes
        → IsOver e.1 =
      λ h e m. member_of_all (λ (x : String × TaskNode). IsOver x.1) task.nodes (sound h) m in
    record {
      assigned = λ o. (
        assigned_sound minimal file_exists task st task.nodes o,
        λ (n, m, work). assigned_complete minimal file_exists task st task.nodes o n m work,
      );
      all_over = (
        over,
        λ h. complete (All-of_members (λ (x : String × TaskNode). IsOver x.1) task.nodes h),
      );
      no_drift =
          λ h. drift_lem task (append-IsNil (drift_blocking task) (stall_blocking task ns) h).0;
      no_stall = λ h going.
          elim (stall_lem task ns (append-IsNil (drift_blocking task) (stall_blocking task ns) h).1
            (close_nodes_open minimal file_exists task st task.nodes) going) [
              | inr none_left ↦ inr (over none_left)
              | inl some_open ↦
                  let (o, m) = nonempty-Member (open_assignments_of ns) some_open in
                  let (n, k, (held, same, work)) =
                    assigned_sound minimal file_exists task st task.nodes o m in
                  inl ((o.node_id, n), k, ((o.assignee, held), at_work n o same work))
            ];
    }

-- A task that is stored as done, and whose report lists nothing that blocks, is finished: none of its
-- nodes failed or is still at work, and all its terminal nodes, of which there is one at least, are
-- done or skipped, cancelled nodes aside.
pub compute_task_closure-IsFinished :
    (minimal : Bool) (file_exists : String → Bool) (st : SwarmState) (task : TaskState)
    → task.status ≡ TaskStatus.done
    → (compute_task_closure minimal file_exists st task).1.blocking ≡ []
    → IsFinished task
compute_task_closure-IsFinished minimal file_exists st task e h =
    let r = compute_task_closure-IsReport minimal file_exists st task in
    (compute_task_status-done_iff task).0 (r.no_drift h (ground (arith, e)) ∙ e)
