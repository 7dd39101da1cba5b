-- ===== src/Graph/Readiness/Startable.antt =====
-- graph.ts: when a pending node can start, in terms of its dependencies and of the edges that enter it.
use pi_graph_loop.Prelude.{
  String, Bool, true, ◌&&◌, ◌≡◌, ◌≢◌, refl, sym, ◌∙◌, subst, ◌↔◌, ◌⊎◌, inl, inr, Option, none, some,
  Member, lookup, filter_sound, filter_complete, any, all, any_sound, any_complete, all_sound,
  all_complete, nonempty-Member, Member-not_nil, true_is_false, is_nil, includes, eq_iff, arith,
  ◌==◌, Bool-cases, Option-cases, if◌then◌else◌,
}
use pi_graph_loop.Types.{TaskNode, TaskNodeStatus, TaskEdge, TaskState}
use pi_graph_loop.Graph.Activation.{
  edge_matches_activation, node_activates_edge, outcome_matches_edge_when,
}
use pi_graph_loop.Graph.Readiness.{incoming, dep_ok, becomes_ready, is_pending, is_done_or_skipped}

abbrev pub IsFix : String → Type 0
IsFix s = (s ≡ "implemented") ⊎ (s ≡ "fixed")

-- The outcome is the one that the edge waits for; "implemented" and "fixed" count as the same.
abbrev pub IsMatch : String → Option String → Type 0
IsMatch when outcome =
    (outcome ≡ some when) ⊎ (IsFix when × ((o : String) × (outcome ≡ some o) × IsFix o))

-- A node that ended in a way that lets the edge go on: done, or over a rework edge failed or skipped.
abbrev pub IsSource : TaskNode → TaskEdge → Type 0
IsSource n edge =
    IsMatch edge.when n.outcome
    × ((n.status ≡ TaskNodeStatus.done)
        ⊎ ((edge.rework ≡ true)
            × ((n.status ≡ TaskNodeStatus.failed) ⊎ (n.status ≡ TaskNodeStatus.skipped))))

IsMatch-iff :
    (when : String) (outcome : Option String)
    → (outcome_matches_edge_when when outcome ≡ true) ↔ IsMatch when outcome
unfolding outcome_matches_edge_when includes
IsMatch-iff when none = ground arith
IsMatch-iff when (some o) = ground (
  arith,
  eq_iff o when,
  eq_iff "implemented" when,
  eq_iff "fixed" when,
  eq_iff "implemented" o,
  eq_iff "fixed" o,
)

IsSource-iff :
    (n : TaskNode) (edge : TaskEdge) → (node_activates_edge n edge ≡ true) ↔ IsSource n edge
unfolding node_activates_edge
IsSource-iff n edge = (
  λ h. ((IsMatch-iff edge.when n.outcome).0 (ground (arith, h)), ground (arith, h)),
  λ (m, s).
      let match : outcome_matches_edge_when edge.when n.outcome ≡ true =
        (IsMatch-iff edge.when n.outcome).1 m in
      ground (arith, match, s),
)

module _ (task : TaskState) where
  -- The edge has fired: its source is there and ended as the edge asks for.
  abbrev pub IsFired : TaskEdge → Type 0
  IsFired edge = (n : TaskNode) × (lookup edge.from task.nodes ≡ some n) × IsSource n edge

  IsFired-iff : (edge : TaskEdge) → (edge_matches_activation task edge ≡ true) ↔ IsFired edge
  unfolding edge_matches_activation
  IsFired-iff edge = elim (Option-cases (lookup edge.from task.nodes)) [
    | inl gone ↦ (λ h. absurd (ground (arith, h, gone)), λ (n, e, s). absurd (cc (gone, e)))
    | inr (n, found) ↦ (
      λ h. (n, found, (IsSource-iff n edge).0 (ground (arith, h, found))),
      λ (m, e, s).
          let same : m ≡ n = ground (arith, found, e) in
          let fires : node_activates_edge n edge ≡ true =
            (IsSource-iff n edge).1 (subst (λ (x : TaskNode). IsSource x edge) same s) in
          ground (arith, found, fires),
    )
  ]

  -- An edge from one node to another that has fired.
  abbrev pub HasFired : String → String → Type 0
  HasFired from to =
      (edge : TaskEdge) × Member edge task.edges
      × (edge.from ≡ from)
      × (edge.to ≡ to)
      × IsFired edge

  -- A dependency is met: it is a node of the task that is done or skipped, or an edge from it has fired.
  abbrev pub IsMet : String → String → Type 0
  IsMet id dep_id =
      (dep : TaskNode) × (lookup dep_id task.nodes ≡ some dep)
      × ((dep.status ≡ TaskNodeStatus.done)
          ⊎ (dep.status ≡ TaskNodeStatus.skipped)
          ⊎ HasFired dep_id id)

  -- The start node, a node that no edge enters, or one that a fired edge enters.
  abbrev pub IsEntered : String → Type 0
  IsEntered id =
      (id ≡ task.start)
      ⊎ ((edge : TaskEdge) → Member edge task.edges → edge.to ≢ id)
      ⊎ ((from : String) × HasFired from id)

  -- What lets a node start, apart from the code.
  pub record IsStartable (id : String) (node : TaskNode) : Type 0 where
    pub pending : node.status ≡ TaskNodeStatus.pending
    pub met : (dep_id : String) → Member dep_id node.depends_on → IsMet id dep_id
    pub entered : IsEntered id

  HasFired-iff :
      (id dep_id : String)
      → (any
            (λ (edge : TaskEdge). edge.from == dep_id && edge_matches_activation task edge)
            (incoming task id)
          ≡ true)
        ↔ HasFired dep_id id
  unfolding incoming
  HasFired-iff id dep_id = (
    λ h.
        let (edge, m, e) = any_sound _ (incoming task id) h in
        let (k, t) = filter_sound (λ (edge : TaskEdge). edge.to == id) task.edges m in
        (
          edge,
          k,
          (eq_iff edge.from dep_id).0 (ground (arith, e)),
          (eq_iff edge.to id).0 t,
          (IsFired-iff edge).0 (ground (arith, e)),
        ),
    λ (edge, m, from, to, fired).
        let fires : edge_matches_activation task edge ≡ true = (IsFired-iff edge).1 fired in
        any_complete _ (incoming task id) edge
          (filter_complete (λ (edge : TaskEdge). edge.to == id) task.edges m
            ((eq_iff edge.to id).1 to))
          (ground (arith, fires, from, eq_iff edge.from dep_id)),
  )

  IsMet-iff : (id dep_id : String) → (dep_ok task id dep_id ≡ true) ↔ IsMet id dep_id
  unfolding dep_ok
  IsMet-iff id dep_id = elim (Option-cases (lookup dep_id task.nodes)) [
    | inl gone ↦ (λ h. absurd (ground (arith, h, gone)), λ (n, e, s). absurd (cc (gone, e)))
    | inr (dep, found) ↦ (
      λ h. (
        dep,
        found,
        elim (Bool-cases (is_done_or_skipped dep.status)) [
          | inl over ↦ ended dep over
          | inr going ↦ inr (inr ((HasFired-iff id dep_id).0 (ground (arith, h, found, going))))
        ],
      ),
      λ (d, e, m). elim m [
        | inl done ↦ ground (arith, e, done)
        | inr (inl skipped) ↦ ground (arith, e, skipped)
        | inr (inr fired) ↦ let fires = (HasFired-iff id dep_id).1 fired in ground (arith, e, fires)
      ],
    )
  ]
    where
      ended :
          (n : TaskNode)
          → is_done_or_skipped n.status ≡ true
          → (n.status ≡ TaskNodeStatus.done)
            ⊎ (n.status ≡ TaskNodeStatus.skipped)
            ⊎ HasFired dep_id id
      ended n over = ground (arith, over)

  abbrev is_entered : String → Bool
  is_entered id =
      if id == task.start
      then true
      else if is_nil (incoming task id)
      then true
      else any (edge_matches_activation task) (incoming task id)

  IsEntered-sound : (id : String) → is_entered id ≡ true → IsEntered id
  unfolding incoming
  IsEntered-sound id h = elim (Bool-cases (id == task.start)) [
    | inl start ↦ inl ((eq_iff id task.start).0 start)
    | inr later ↦ elim (Bool-cases (is_nil (incoming task id))) [
      | inl nothing ↦ inr (
          inl (λ edge m e. true_is_false (
            sym nothing
            ∙ Member-not_nil (incoming task id) (
                filter_complete (λ (edge : TaskEdge). edge.to == id) task.edges m
                  ((eq_iff edge.to id).1 e)))))
      | inr some_in ↦
          let (edge, m, fires) =
            any_sound (edge_matches_activation task) (incoming task id)
              (ground (arith, h, later, some_in)) in
          let (k, t) = filter_sound (λ (edge : TaskEdge). edge.to == id) task.edges m in
          inr
            (inr (edge.from, (edge, k, refl, (eq_iff edge.to id).0 t, (IsFired-iff edge).0 fires)))
    ]
  ]

  entered_complete : (id : String) → IsEntered id → is_entered id ≡ true
  unfolding incoming
  entered_complete id (inl start) = ground (arith, start, eq_iff id task.start)
  entered_complete id (inr (inl unentered)) = elim (Bool-cases (is_nil (incoming task id))) [
    | inl nothing ↦ ground (arith, nothing)
    | inr some_in ↦
        let (edge, m) = nonempty-Member (incoming task id) some_in in
        let (k, t) = filter_sound (λ (edge : TaskEdge). edge.to == id) task.edges m in
        absurd (unentered edge k ((eq_iff edge.to id).0 t))
  ]
  entered_complete id (inr (inr (from, (edge, m, _, to, fired)))) =
      let fires : any (edge_matches_activation task) (incoming task id) ≡ true =
        any_complete (edge_matches_activation task) (incoming task id) edge
          (filter_complete (λ (edge : TaskEdge). edge.to == id) task.edges m
            ((eq_iff edge.to id).1 to))
          ((IsFired-iff edge).1 fired) in
      ground (arith, fires)

  pub IsStartable-iff :
      (id : String) (node : TaskNode)
      → (is_pending node.status && becomes_ready task id node ≡ true) ↔ IsStartable id node
  unfolding becomes_ready
  IsStartable-iff id node = (
    λ h. record {
      pending = ground (arith, h);
      met = λ dep_id m.
          (IsMet-iff id dep_id).0
            (all_sound (dep_ok task id) node.depends_on dep_id (ground (arith, h)) m);
      entered = IsEntered-sound id (ground (arith, h));
    },
    λ s.
        let deps : all (dep_ok task id) node.depends_on ≡ true =
          all_complete (dep_ok task id) node.depends_on
            (λ dep_id m. (IsMet-iff id dep_id).1 (s.met dep_id m)) in
        let enters : is_entered id ≡ true = entered_complete id s.entered in
        ground (arith, s.pending, deps, enters),
  )
