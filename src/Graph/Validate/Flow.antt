-- ===== src/Graph/Validate/Flow.antt =====
-- graph.ts: the flow of a task graph, which one round of the search in `validateTaskGraph` follows.
use pi_graph_loop.Prelude.{
  String, true, false, ◌&&◌, ◌≡◌, ◌⊎◌, inl, inr, refl, sym, ◌∙◌, List, [], foldl_sound, foldl-keeps,
  foldl_complete, keys, includes, set_add, includes-set_add, Member, arith, ◌==◌, eq_iff, ||-split,
  &&-split, if_ind, subst,
}
use pi_graph_loop.Types.{TaskNode, TaskEdge, TaskState}
use pi_graph_loop.Graph.Validate.{add_edge_target, add_dependent, next_nodes}

-- An edge to a node of the task leads from `a` to `b`, or `b` depends on `a`.
pub data Flow (task : TaskState) (a : String) : String → Type 0 where
  over_edge :
      {edge : TaskEdge}
      → Member edge task.edges
      → edge.from ≡ a
      → includes (keys task.nodes) edge.to ≡ true
      → Flow task a edge.to
  over_dependency :
      {id : String} {node : TaskNode}
      → Member (id, node) task.nodes
      → includes node.depends_on a ≡ true
      → Flow task a id

pub data Reach (task : TaskState) (a : String) : String → Type 0 where
  start : Reach task a a
  next : {b c : String} → Reach task a b → Flow task b c → Reach task a c

pub includes-nil : (k : String) → includes [] k ≡ false
unfolding includes
includes-nil k = refl

module _ (task : TaskState) (cur : String) where
  abbrev EdgeAdds : TaskEdge → String → Type 0
  EdgeAdds edge k = (edge.from ≡ cur) × (includes (keys task.nodes) edge.to ≡ true) × (edge.to ≡ k)

  abbrev EntryAdds : String × TaskNode → String → Type 0
  EntryAdds (id, node) k = (includes node.depends_on cur ≡ true) × (id ≡ k)

  add_edge_target_sound :
      (s : List String) (edge : TaskEdge) (k : String)
      → includes (add_edge_target task cur s edge) k ≡ true
      → (includes s k ≡ true) ⊎ EdgeAdds edge k
  unfolding add_edge_target
  add_edge_target_sound s edge k =
      if_ind (λ (s' : List String). includes s' k ≡ true → (includes s k ≡ true) ⊎ EdgeAdds edge k)
        (edge.from == cur && includes (keys task.nodes) edge.to)
        (λ t h.
          let (e, m) = &&-split (edge.from == cur) (includes (keys task.nodes) edge.to) t in
          set_add_cases s edge.to k h ((eq_iff edge.from cur).0 e, m))
        (λ f h. inl h)
    where
      set_add_cases :
          (s : List String) (j k : String)
          → includes (set_add s j) k ≡ true
          → {P Q : Type 0} → P × Q
          → (includes s k ≡ true) ⊎ (P × Q × (j ≡ k))
      set_add_cases s j k h (p, q) =
          elim (||-split (includes s k) (j == k) (sym (includes-set_add s j k) ∙ h)) [
            | inl old ↦ inl old
            | inr e ↦ inr (p, q, (eq_iff j k).0 e)
          ]

  add_edge_target-keeps :
      (s : List String) (edge : TaskEdge) (k : String)
      → includes s k ≡ true
      → includes (add_edge_target task cur s edge) k ≡ true
  unfolding add_edge_target
  add_edge_target-keeps s edge k h = ground (arith, h, includes-set_add s edge.to k)

  add_edge_target_complete :
      (s : List String) (edge : TaskEdge) (k : String)
      → EdgeAdds edge k
      → includes (add_edge_target task cur s edge) k ≡ true
  unfolding add_edge_target
  add_edge_target_complete s edge k (e, m, t) =
      ground (arith, m, includes-set_add s edge.to k, eq_iff edge.from cur, eq_iff edge.to k, e, t)

  add_dependent_sound :
      (s : List String) (entry : String × TaskNode) (k : String)
      → includes (add_dependent cur s entry) k ≡ true
      → (includes s k ≡ true) ⊎ EntryAdds entry k
  unfolding add_dependent
  add_dependent_sound s (id, node) k =
      if_ind
        (λ (s' : List String).
          includes s' k ≡ true → (includes s k ≡ true) ⊎ EntryAdds (id, node) k)
        (includes node.depends_on cur)
        (λ t h. elim (||-split (includes s k) (id == k) (sym (includes-set_add s id k) ∙ h)) [
          | inl old ↦ inl old
          | inr e ↦ inr (t, (eq_iff id k).0 e)
        ])
        (λ f h. inl h)

  add_dependent-keeps :
      (s : List String) (entry : String × TaskNode) (k : String)
      → includes s k ≡ true
      → includes (add_dependent cur s entry) k ≡ true
  unfolding add_dependent
  add_dependent-keeps s (id, node) k h = ground (arith, h, includes-set_add s id k)

  add_dependent_complete :
      (s : List String) (entry : String × TaskNode) (k : String)
      → EntryAdds entry k
      → includes (add_dependent cur s entry) k ≡ true
  unfolding add_dependent
  add_dependent_complete s (id, node) k (d, e) =
      ground (arith, d, includes-set_add s id k, eq_iff id k, e)

  pub next_nodes_sound : (k : String) → includes (next_nodes task cur) k ≡ true → Flow task cur k
  unfolding next_nodes
  next_nodes_sound k h =
      elim (foldl_sound (add_dependent cur) EntryAdds add_dependent_sound add_dependent-keeps
        add_dependent_complete task.nodes _ k h) [
          | inr ((id, node), m, (d, e)) ↦ subst (Flow task cur) e (over_dependency m d)
          | inl over ↦
              elim (foldl_sound (add_edge_target task cur) EdgeAdds add_edge_target_sound
                add_edge_target-keeps add_edge_target_complete task.edges [] k over) [
                  | inr (edge, m, (f, t, e)) ↦ subst (Flow task cur) e (over_edge m f t)
                  | inl none_yet ↦ cc (sym (includes-nil k) ∙ none_yet)
                ]
        ]

  pub next_nodes_complete : {k : String} → Flow task cur k → includes (next_nodes task cur) k ≡ true
  unfolding next_nodes
  next_nodes_complete (over_edge {edge = edge} m f t) =
      foldl-keeps (add_dependent cur) EntryAdds add_dependent_sound add_dependent-keeps
        add_dependent_complete task.nodes _ _
        (foldl_complete (add_edge_target task cur) EdgeAdds add_edge_target_sound
          add_edge_target-keeps add_edge_target_complete task.edges [] _ edge m (f, t, refl))
  next_nodes_complete (over_dependency {id = id} {node = node} m d) =
      foldl_complete (add_dependent cur) EntryAdds add_dependent_sound add_dependent-keeps
        add_dependent_complete task.nodes _ _ (id, node) m (d, refl)
