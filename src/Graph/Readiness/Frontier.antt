-- ===== src/Graph/Readiness/Frontier.antt =====
-- graph.ts: which nodes `computeReadyNodes` returns.
use pi_graph_loop.Prelude.{
  subst, Bool-cases, String, Bool, true, false, ◌&&◌, ◌||◌, ◌≡◌, ◌↔◌, ◌⊎◌, inl, inr, refl, sym, ◌∙◌,
  List, [], ◌∷◌, ◌++◌, foldl, foldl_sound, foldl_complete, includes, includes-concat, set_add,
  includes-set_add, set_add-IsDistinct, IsDistinct, Member, arith, ◌==◌, eq_iff, ap, ||-split,
  if_ind, if◌then◌else◌,
}
use pi_graph_loop.Types.{TaskNode, TaskNodeStatus, TaskState}
use pi_graph_loop.Graph.Readiness.{
  is_current, is_pending, becomes_ready, Readiness, visit_node, compute_ready_nodes,
}
use pi_graph_loop.Graph.Readiness.Startable.{IsStartable, IsStartable-iff}

module _ (task : TaskState) where
  -- What one entry adds to the two lists.
  abbrev is_startable : String → TaskNode → Bool
  is_startable id node = is_pending node.status && becomes_ready task id node

  abbrev is_open : String → TaskNode → Bool
  is_open id node = is_current node.status || is_startable id node

  unfoldable add_ready : List String → String × TaskNode → List String
  add_ready s (id, node) = if is_startable id node then s ++ id ∷ [] else s

  unfoldable add_open : List String → String × TaskNode → List String
  add_open s (id, node) = if is_open id node then set_add s id else s

  current_not_pending : (s : TaskNodeStatus) → is_current s ≡ true → is_pending s ≡ false
  current_not_pending s h = ground (arith, h)

  visit_node-lists :
      (r : Readiness) (entry : String × TaskNode)
      → ((visit_node task r entry).ready ≡ add_ready r.ready entry)
        × ((visit_node task r entry).current ≡ add_open r.current entry)
  unfolding visit_node add_ready add_open
  visit_node-lists r (id, node) = (ground arith, ground (arith, current_not_pending node.status))

  visit_all-lists :
      (es : List (String × TaskNode)) (r : Readiness)
      → ((foldl (visit_node task) r es).ready ≡ foldl add_ready r.ready es)
        × ((foldl (visit_node task) r es).current ≡ foldl add_open r.current es)
  visit_all-lists [] r = (refl, refl)
  visit_all-lists (e ∷ es) r =
      let (ready, current) = visit_node-lists r e in
      let (rest, others) = visit_all-lists es (visit_node task r e) in
      (
        rest ∙ ap (λ (s : List String). foldl add_ready s es) ready,
        others ∙ ap (λ (s : List String). foldl add_open s es) current,
      )

  -- An entry of the task with the given id that passes a test.
  abbrev Passes : (String → TaskNode → Bool) → String × TaskNode → String → Type 0
  Passes p (id, node) k = (p id node ≡ true) × (id ≡ k)

  add_ready_sound :
      (s : List String) (e : String × TaskNode) (k : String)
      → includes (add_ready s e) k ≡ true
      → (includes s k ≡ true) ⊎ Passes is_startable e k
  unfolding add_ready
  add_ready_sound s (id, node) k =
      if_ind
        (λ (s' : List String).
          includes s' k ≡ true → (includes s k ≡ true) ⊎ Passes is_startable (id, node) k)
        (is_startable id node)
        (λ t h. elim (||-split (includes s k) (id == k) (sym (includes-concat s id k) ∙ h)) [
          | inl old ↦ inl old
          | inr e ↦ inr (t, (eq_iff id k).0 e)
        ])
        (λ f h. inl h)

  add_ready-keeps :
      (s : List String) (e : String × TaskNode) (k : String)
      → includes s k ≡ true
      → includes (add_ready s e) k ≡ true
  unfolding add_ready
  add_ready-keeps s (id, node) k h = ground (arith, h, includes-concat s id k)

  add_ready_complete :
      (s : List String) (e : String × TaskNode) (k : String)
      → Passes is_startable e k
      → includes (add_ready s e) k ≡ true
  unfolding add_ready
  add_ready_complete s (id, node) k (p, e) =
      ground (arith, p, e, includes-concat s id k, eq_iff id k)

  add_open_sound :
      (s : List String) (e : String × TaskNode) (k : String)
      → includes (add_open s e) k ≡ true
      → (includes s k ≡ true) ⊎ Passes is_open e k
  unfolding add_open
  add_open_sound s (id, node) k =
      if_ind
        (λ (s' : List String).
          includes s' k ≡ true → (includes s k ≡ true) ⊎ Passes is_open (id, node) k)
        (is_open id node)
        (λ t h. elim (||-split (includes s k) (id == k) (sym (includes-set_add s id k) ∙ h)) [
          | inl old ↦ inl old
          | inr e ↦ inr (t, (eq_iff id k).0 e)
        ])
        (λ f h. inl h)

  add_open-keeps :
      (s : List String) (e : String × TaskNode) (k : String)
      → includes s k ≡ true
      → includes (add_open s e) k ≡ true
  unfolding add_open
  add_open-keeps s (id, node) k h = ground (arith, h, includes-set_add s id k)

  add_open_complete :
      (s : List String) (e : String × TaskNode) (k : String)
      → Passes is_open e k
      → includes (add_open s e) k ≡ true
  unfolding add_open
  add_open_complete s (id, node) k (p, e) =
      ground (arith, p, e, includes-set_add s id k, eq_iff id k)

  opened-IsDistinct :
      (es : List (String × TaskNode)) (s : List String)
      → IsDistinct s
      → IsDistinct (foldl add_open s es)
  unfolding add_open
  opened-IsDistinct [] s h = h
  opened-IsDistinct ((id, node) ∷ es) s h =
      opened-IsDistinct es (add_open s (id, node))
        (if_ind IsDistinct (is_open id node) (λ _. set_add-IsDistinct s id h) (λ _. h))

  -- A node of the task, by its id, that passes a test.
  abbrev Node : (String → TaskNode → Bool) → String → Type 0
  Node p k = (e : String × TaskNode) × Member e task.nodes × Passes p e k

  -- The statuses of a node that is under way.
  abbrev pub IsUnderWay : TaskNode → Type 0
  IsUnderWay n =
      (n.status ≡ TaskNodeStatus.ready)
      ⊎ (n.status ≡ TaskNodeStatus.assigned)
      ⊎ (n.status ≡ TaskNodeStatus.in_progress)
      ⊎ (n.status ≡ TaskNodeStatus.blocked)

  pub record IsFrontier (r : Readiness) : Type 0 where
    pub ready_iff :
        (k : String)
        → (includes r.ready k ≡ true)
          ↔ ((n : TaskNode) × Member (k, n) task.nodes × IsStartable task k n)
    pub current_iff :
        (k : String)
        → (includes r.current k ≡ true)
          ↔ ((n : TaskNode) × Member (k, n) task.nodes × (IsUnderWay n ⊎ IsStartable task k n))
    pub distinct : IsDistinct r.current

  ready_key_iff :
      (k : String)
      → Node is_startable k ↔ ((n : TaskNode) × Member (k, n) task.nodes × IsStartable task k n)
  ready_key_iff k = (
    λ ((id, n), m, (h, e)). (
      n,
      subst (λ (i : String). Member (i, n) task.nodes) e m,
      subst (λ (i : String). IsStartable task i n) e ((IsStartable-iff task id n).0 h),
    ),
    λ (n, m, s). ((k, n), m, ((IsStartable-iff task k n).1 s, refl)),
  )

  is_open_iff :
      (k : String) (n : TaskNode) → (is_open k n ≡ true) ↔ (IsUnderWay n ⊎ IsStartable task k n)
  is_open_iff k n = (
    λ h. elim (Bool-cases (is_current n.status)) [
      | inl now ↦ inl (ground (arith, now))
      | inr not_now ↦ inr ((IsStartable-iff task k n).0 (ground (arith, h, not_now)))
    ],
    λ s. elim s [
      | inl now ↦ ground (arith, now)
      | inr start ↦ let ok = (IsStartable-iff task k n).1 start in ground (arith, ok)
    ],
  )

  current_key_iff :
      (k : String)
      → Node is_open k
        ↔ ((n : TaskNode) × Member (k, n) task.nodes × (IsUnderWay n ⊎ IsStartable task k n))
  current_key_iff k = (
    λ ((id, n), m, (h, e)). (
      n,
      subst (λ (i : String). Member (i, n) task.nodes) e m,
      subst (λ (i : String). IsUnderWay n ⊎ IsStartable task i n) e ((is_open_iff id n).0 h),
    ),
    λ (n, m, s). ((k, n), m, ((is_open_iff k n).1 s, refl)),
  )

  -- `computeReadyNodes` returns as ready exactly the pending nodes that can start: each dependency is a
  -- node that is done or skipped, or an edge from it to the node has fired; and the node is the
  -- start, no edge enters it, or an edge into it has fired. An edge has fired where its source has the
  -- outcome that it waits for and is done, or failed or skipped over a rework edge. It returns as
  -- current exactly those and the nodes that are ready, assigned, in progress or blocked, each once.
  pub compute_ready_nodes-IsFrontier : IsFrontier (compute_ready_nodes task)
  unfolding compute_ready_nodes includes
  compute_ready_nodes-IsFrontier =
      let (ready, current) = visit_all-lists task.nodes (record { ready = []; current = [] }) in
      record {
        ready_iff = λ k.
            let (sound, complete) = ready_lem k in
            let (to, from) = ready_key_iff k in
            rw ready ((λ h. to (sound h)), λ n. complete (from n));
        current_iff = λ k.
            let (sound, complete) = current_lem k in
            let (to, from) = current_key_iff k in
            rw current ((λ h. to (sound h)), λ n. complete (from n));
        distinct = rw current (opened-IsDistinct task.nodes [] tt);
      }
    where
      ready_lem :
          (k : String) → (includes (foldl add_ready [] task.nodes) k ≡ true) ↔ Node is_startable k
      ready_lem k = (
        λ h.
            elim (foldl_sound add_ready (Passes is_startable) add_ready_sound add_ready-keeps
              add_ready_complete task.nodes [] k h) [ inl old ↦ cc old | inr e ↦ e ],
        λ (e, m, p).
            foldl_complete add_ready (Passes is_startable) add_ready_sound add_ready-keeps
              add_ready_complete task.nodes [] k e m p,
      )

      current_lem :
          (k : String) → (includes (foldl add_open [] task.nodes) k ≡ true) ↔ Node is_open k
      current_lem k = (
        λ h.
            elim (foldl_sound add_open (Passes is_open) add_open_sound add_open-keeps
              add_open_complete task.nodes [] k h) [ inl old ↦ cc old | inr e ↦ e ],
        λ (e, m, p).
            foldl_complete add_open (Passes is_open) add_open_sound add_open-keeps add_open_complete
              task.nodes [] k e m p,
      )
