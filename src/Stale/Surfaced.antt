-- ===== src/Stale/Surfaced.antt =====
-- taskgraph/stale.ts: the specification of the stale-open scan, and the scan against it.
use pi_graph_loop.Prelude.{
  ℕ, ◌+◌, ◌≤◌, ◌<◌, String, Bool, false, ◌≡◌, refl, sym, ap, ◌∙◌, not, ◌&&◌, Option, none, some,
  List, [], ◌∷◌, ◌++◌, length, length-append, Record, arith, if◌then◌else◌,
}
use mathlib.Core.Path.{ap₂}
use mathlib.Core.List.{append-nil, append_assoc}
use pi_graph_loop.Types.{stamp_at, SwarmState, TaskNode, TaskState}
use pi_graph_loop.Stale.{
  Tally, SurfacedNode, is_held, assignee_working, is_fresh, is_surfaced, inspect, surface,
  scan_node, scan_nodes, scan_tasks, stale_open_assignment_scan,
}

module _ (iso : ℕ → String) (st : SwarmState) (now_ms threshold : ℕ) where
  -- The node is worked on by nobody, made no progress within the threshold and was not surfaced
  -- within it.
  unfoldable pub is_due : TaskNode → Bool
  is_due node =
      is_held node.status
      && not (assignee_working st now_ms threshold node.assignee)
      && not (is_fresh now_ms threshold node)
      && not (is_surfaced now_ms threshold node)

  unfoldable pub stamp_if_due : TaskNode → TaskNode
  stamp_if_due node =
      if is_due node
      then record node { stale_open_surfaced_at = some (stamp_at iso now_ms) }
      else node

  unfoldable pub stamp_nodes : Record TaskNode → Record TaskNode
  stamp_nodes [] = []
  stamp_nodes ((id, node) ∷ nodes) = (id, stamp_if_due node) ∷ stamp_nodes nodes

  unfoldable pub due_nodes : String → Record TaskNode → List SurfacedNode
  due_nodes task_id [] = []
  due_nodes task_id ((id, node) ∷ nodes) =
      (if is_due node
        then record { task_id = task_id; node_id = id; assignee = node.assignee } ∷ []
        else [])
      ++ due_nodes task_id nodes

  unfoldable pub stamp_tasks : List (Option TaskState) → List (Option TaskState)
  stamp_tasks [] = []
  stamp_tasks (none ∷ tasks) = none ∷ stamp_tasks tasks
  stamp_tasks (some task ∷ tasks) =
      some (record task { nodes = stamp_nodes task.nodes }) ∷ stamp_tasks tasks

  unfoldable pub due_tasks : List (Option TaskState) → List SurfacedNode
  due_tasks [] = []
  due_tasks (none ∷ tasks) = due_tasks tasks
  due_tasks (some task ∷ tasks) = due_nodes task.task_id task.nodes ++ due_tasks tasks

  -- From `before` to `after`, the due nodes were counted and pushed, and all that was counted was
  -- inspected.
  abbrev pub IsCounted : Tally → Tally → List SurfacedNode → Type 0
  IsCounted before after due =
      (after.surfaced_nodes ≡ before.surfaced_nodes ++ due)
      × (after.surfaced ≡ before.surfaced + length due)
      × (after.surfaced + after.already_surfaced + before.inspected
          ≤ before.surfaced + before.already_surfaced + after.inspected)

  IsCounted-refl : (t : Tally) → IsCounted t t []
  IsCounted-refl t = (sym (append-nil t.surfaced_nodes), omega arith, omega arith)

  IsCounted-trans :
      (a b c : Tally) (xs ys : List SurfacedNode)
      → IsCounted a b xs
      → IsCounted b c ys
      → IsCounted a c (xs ++ ys)
  IsCounted-trans a b c xs ys (e, n, m) (f, k, l) = (
    f ∙ ap (λ (zs : List SurfacedNode). zs ++ ys) e ∙ append_assoc a.surfaced_nodes xs ys,
    omega (arith, length-append xs ys),
    omega arith,
  )

  scan_node_step :
      (task_id id : String) (node : TaskNode) (tally : Tally)
      → ((scan_node iso st now_ms threshold task_id id node tally).0 ≡ stamp_if_due node)
        × IsCounted tally (scan_node iso st now_ms threshold task_id id node tally).1 (
            if is_due node
            then record { task_id = task_id; node_id = id; assignee = node.assignee } ∷ []
            else [])
  unfolding scan_node inspect surface is_due stamp_if_due
  scan_node_step task_id id node tally = ground (arith, append-nil tally.surfaced_nodes)

  scan_nodes_steps :
      (task_id : String) (nodes : Record TaskNode) (tally : Tally)
      → ((scan_nodes iso st now_ms threshold task_id nodes tally).0 ≡ stamp_nodes nodes)
        × IsCounted tally
            (scan_nodes iso st now_ms threshold task_id nodes tally).1
            (due_nodes task_id nodes)
  unfolding scan_nodes stamp_nodes due_nodes
  scan_nodes_steps task_id [] tally = (refl, IsCounted-refl tally)
  scan_nodes_steps task_id ((id, node) ∷ nodes) tally =
      let first = scan_node_step task_id id node tally in
      let counted = (scan_node iso st now_ms threshold task_id id node tally).1 in
      let rest = scan_nodes_steps task_id nodes counted in
      (
        ap₂ (λ (n : TaskNode) (r : Record TaskNode). (id, n) ∷ r) first.0 rest.0,
        IsCounted-trans tally counted (scan_nodes iso st now_ms threshold task_id nodes counted).1
            (if is_due node
              then record { task_id = task_id; node_id = id; assignee = node.assignee } ∷ []
              else [])
            (due_nodes task_id nodes) first.1 rest.1,
      )

  scan_tasks_steps :
      (tasks : List (Option TaskState)) (tally : Tally)
      → ((scan_tasks iso st now_ms threshold tasks tally).0 ≡ stamp_tasks tasks)
        × IsCounted tally (scan_tasks iso st now_ms threshold tasks tally).1 (due_tasks tasks)
  unfolding scan_tasks stamp_tasks due_tasks
  scan_tasks_steps [] tally = (refl, IsCounted-refl tally)
  scan_tasks_steps (none ∷ tasks) tally =
      let rest = scan_tasks_steps tasks tally in (ap (none ∷◌) rest.0, rest.1)
  scan_tasks_steps (some task ∷ tasks) tally =
      let first = scan_nodes_steps task.task_id task.nodes tally in
      let counted = (scan_nodes iso st now_ms threshold task.task_id task.nodes tally).1 in
      let rest = scan_tasks_steps tasks counted in
      (
        ap₂
            (λ (n : Record TaskNode) (r : List (Option TaskState)).
              some (record task { nodes = n }) ∷ r)
            first.0 rest.0,
        IsCounted-trans tally counted (scan_tasks iso st now_ms threshold tasks counted).1
            (due_nodes task.task_id task.nodes) (due_tasks tasks) first.1 rest.1,
      )

-- The scan stamps the nodes that are due, and nothing else; it counts and reports exactly those, in
-- the order of the tasks and their nodes; what it surfaces and what it skips as surfaced already was
-- inspected.
pub stale_open_assignment_scan-IsScan :
    (iso : ℕ → String) (st : SwarmState) (now_ms threshold : ℕ) (tasks : List (Option TaskState))
    → ((stale_open_assignment_scan iso st now_ms threshold tasks).0
        ≡ stamp_tasks iso st now_ms threshold tasks)
      × ((stale_open_assignment_scan iso st now_ms threshold tasks).1.surfaced_nodes
          ≡ due_tasks iso st now_ms threshold tasks)
      × ((stale_open_assignment_scan iso st now_ms threshold tasks).1.surfaced
          ≡ length (due_tasks iso st now_ms threshold tasks))
      × ((stale_open_assignment_scan iso st now_ms threshold tasks).1.surfaced
            + (stale_open_assignment_scan iso st now_ms threshold tasks).1.already_surfaced
          ≤ (stale_open_assignment_scan iso st now_ms threshold tasks).1.inspected)
unfolding stale_open_assignment_scan
stale_open_assignment_scan-IsScan iso st now_ms threshold tasks =
    let (stamped, (reported, counted, within)) =
      scan_tasks_steps iso st now_ms threshold tasks
        (record { surfaced = 0; inspected = 0; already_surfaced = 0; surfaced_nodes = [] }) in
    (stamped, reported, omega arith, omega arith)

module _ (iso : ℕ → String) (st : SwarmState) (now_ms threshold : ℕ) (started : 0 < now_ms) where
  -- A node that was stamped at this time is not due at it.
  stamp_if_due_quiet :
      (node : TaskNode)
      → is_due iso st now_ms threshold (stamp_if_due iso st now_ms threshold node) ≡ false
  unfolding is_due stamp_if_due is_surfaced
  stamp_if_due_quiet node = ground arith

  stamp_nodes_quiet :
      (task_id : String) (nodes : Record TaskNode)
      → due_nodes iso st now_ms threshold task_id (stamp_nodes iso st now_ms threshold nodes) ≡ []
  unfolding due_nodes stamp_nodes
  stamp_nodes_quiet task_id [] = refl
  stamp_nodes_quiet task_id ((id, node) ∷ nodes) =
      ground (arith, stamp_if_due_quiet node, stamp_nodes_quiet task_id nodes)

  stamp_tasks_quiet :
      (tasks : List (Option TaskState))
      → due_tasks iso st now_ms threshold (stamp_tasks iso st now_ms threshold tasks) ≡ []
  unfolding due_tasks stamp_tasks
  stamp_tasks_quiet [] = refl
  stamp_tasks_quiet (none ∷ tasks) = stamp_tasks_quiet tasks
  stamp_tasks_quiet (some task ∷ tasks) =
      ground (arith, stamp_nodes_quiet task.task_id task.nodes, stamp_tasks_quiet tasks)

  stamp_if_not_due :
      (node : TaskNode)
      → is_due iso st now_ms threshold node ≡ false
      → stamp_if_due iso st now_ms threshold node ≡ node
  unfolding stamp_if_due
  stamp_if_not_due node h = ground (arith, h)

  stamp_if_due_again :
      (node : TaskNode)
      → stamp_if_due iso st now_ms threshold (stamp_if_due iso st now_ms threshold node)
        ≡ stamp_if_due iso st now_ms threshold node
  stamp_if_due_again node =
      stamp_if_not_due (stamp_if_due iso st now_ms threshold node) (stamp_if_due_quiet node)

  stamp_nodes_again :
      (nodes : Record TaskNode)
      → stamp_nodes iso st now_ms threshold (stamp_nodes iso st now_ms threshold nodes)
        ≡ stamp_nodes iso st now_ms threshold nodes
  unfolding stamp_nodes
  stamp_nodes_again [] = refl
  stamp_nodes_again ((id, node) ∷ nodes) =
      ap₂ (λ (n : TaskNode) (r : Record TaskNode). (id, n) ∷ r) (stamp_if_due_again node)
        (stamp_nodes_again nodes)

  stamp_tasks_again :
      (tasks : List (Option TaskState))
      → stamp_tasks iso st now_ms threshold (stamp_tasks iso st now_ms threshold tasks)
        ≡ stamp_tasks iso st now_ms threshold tasks
  unfolding stamp_tasks
  stamp_tasks_again [] = refl
  stamp_tasks_again (none ∷ tasks) = ap (none ∷◌) (stamp_tasks_again tasks)
  stamp_tasks_again (some task ∷ tasks) =
      ap₂
        (λ (n : Record TaskNode) (r : List (Option TaskState)).
          some (record task { nodes = n }) ∷ r)
        (stamp_nodes_again task.nodes) (stamp_tasks_again tasks)

  -- A second scan at the time of the first surfaces no node and leaves the files as the first left
  -- them.
  pub stale_open_assignment_scan_again :
      (tasks : List (Option TaskState))
      → ((stale_open_assignment_scan iso st now_ms threshold
            (stale_open_assignment_scan iso st now_ms threshold tasks).0).1.surfaced
          ≡ 0)
        × ((stale_open_assignment_scan iso st now_ms threshold
              (stale_open_assignment_scan iso st now_ms threshold tasks).0).0
            ≡ (stale_open_assignment_scan iso st now_ms threshold tasks).0)
  stale_open_assignment_scan_again tasks =
      let scan = stale_open_assignment_scan iso st now_ms threshold in
      let first = (stale_open_assignment_scan-IsScan iso st now_ms threshold tasks).0 in
      let (stamped, reported, counted, within) =
        stale_open_assignment_scan-IsScan iso st now_ms threshold (scan tasks).0 in
      (
        counted
            ∙ ap (λ (ts : List (Option TaskState)). length (due_tasks iso st now_ms threshold ts))
                first
            ∙ ap length (stamp_tasks_quiet tasks),
        stamped
            ∙ ap (stamp_tasks iso st now_ms threshold) first
            ∙ stamp_tasks_again tasks
            ∙ sym first,
      )
