-- ===== src/Graph/Validate/Reachable.antt =====
-- graph.ts: the search of `validateTaskGraph` finds exactly the nodes that can be reached from start.
use pi_graph_loop.Prelude.{
  ℕ, zero, suc, ◌≤◌, String, true, ◌≡◌, ◌↔◌, ◌⊎◌, inl, inr, refl, sym, ◌∙◌, some, List, [], ◌∷◌,
  foldl, lookup, keys, includes, length, arith, ◌==◌, eq_iff, unseen-concat_lt, unseen-le_length,
  includes-keys, length-keys, ||-split, subst,
}
use pi_graph_loop.Types.{TaskNode, TaskState}
use pi_graph_loop.Graph.Validate.{
  Search, next_nodes, enqueue, reach_loop, reach_start, reach_search, reachable_nodes,
}
use pi_graph_loop.Graph.Validate.Flow.{
  includes-nil, Flow, over_edge, over_dependency, Reach, start, next, next_nodes_sound,
  next_nodes_complete,
}
use pi_graph_loop.Graph.Validate.Queue.{
  work, includes-one, includes-cons, includes-head, enqueue_all-IsGrown, enqueue_all-work,
  member_known,
}

module _ (task : TaskState) where
  -- All that was reached is within reach, and what has left the queue was followed.
  record IsSearching (s : Search) : Type 0 where
    sound : (k : String) → includes s.reachable k ≡ true → Reach task task.start k
    followed :
        (k : String)
        → includes s.reachable k ≡ true
        → (includes s.queue k ≡ true)
          ⊎ ((m : String) → Flow task k m → includes s.reachable m ≡ true)
    queue_reached : (k : String) → includes s.queue k ≡ true → includes s.reachable k ≡ true
    start_found : includes s.reachable task.start ≡ true

  abbrev round : String → List String → List String → Search
  round cur reachable queue =
      foldl enqueue (record { reachable = reachable; queue = queue }) (next_nodes task cur)

  round-IsSearching :
      (cur : String) (reachable queue : List String)
      → IsSearching (record { reachable = reachable; queue = cur ∷ queue })
      → IsSearching (round cur reachable queue)
  round-IsSearching cur reachable queue i =
      let here_reached = i.queue_reached cur (includes-head cur queue) in
      let g =
        enqueue_all-IsGrown (next_nodes task cur)
          (record { reachable = reachable; queue = queue }) in
      record {
        sound = λ k h. elim (g.only_new k h) [
          | inl old ↦ i.sound k old
          | inr (new, _) ↦ next (i.sound cur here_reached) (next_nodes_sound task cur k new)
        ];
        followed = λ k h. elim (g.only_new k h) [
          | inr (_, queued) ↦ inl queued
          | inl old ↦ elim (i.followed k old) [
            | inr all ↦ inr (λ m f. g.reached m (all m f))
            | inl waiting ↦
                elim (||-split (cur == k) (includes queue k)
                  (sym (includes-cons cur queue k) ∙ waiting)) [
                    | inl e ↦ inr (λ m f. g.all_new m (
                        next_nodes_complete task cur
                          (subst (λ x. Flow task x m) (sym ((eq_iff cur k).0 e)) f)))
                    | inr later ↦ inl (g.queued k later)
                  ]
          ]
        ];
        queue_reached = λ k h. elim (g.queue_only k h) [
          | inl old ↦
              g.reached k (i.queue_reached k (ground (arith, old, includes-cons cur queue k)))
          | inr new ↦ g.all_new k new
        ];
        start_found = g.reached task.start i.start_found;
      }

  -- Every node that flow leads to is one of the task's.
  Flow-known : (a b : String) → Flow task a b → includes (keys task.nodes) b ≡ true
  Flow-known a b (over_edge m f t) = t
  Flow-known a b (over_dependency {id = id} {node = node} m d) = member_known task.nodes id node m

  reached_all :
      (s : Search) (k : String)
      → IsSearching s
      → s.queue ≡ []
      → Reach task task.start k
      → includes s.reachable k ≡ true
  reached_all s k i e start = i.start_found
  reached_all s k i e (next {b = b} r f) = elim (i.followed b (reached_all s b i e r)) [
    | inl waiting ↦ cc (sym (includes-nil b) ∙ subst (λ q. includes q b ≡ true) e waiting)
    | inr all ↦ all k f
  ]

  -- A search that came to its end: the queue is empty, and exactly what is within reach was reached.
  abbrev IsSearched : Search → Type 0
  IsSearched s =
      (s.queue ≡ []) × ((k : String) → (includes s.reachable k ≡ true) ↔ Reach task task.start k)

  ended :
      (reachable : List String)
      → IsSearching (record { reachable = reachable; queue = [] })
      → IsSearched (record { reachable = reachable; queue = [] })
  ended reachable i = (refl, λ k. (i.sound k, reached_all _ k i refl))

  reach_loop_lem :
      (n : ℕ) (reachable queue : List String)
      → work (keys task.nodes) (record { reachable = reachable; queue = queue }) ≤ n
      → IsSearching (record { reachable = reachable; queue = queue })
      → IsSearched (reach_loop task n reachable queue)
  unfolding reach_loop
  reach_loop_lem zero reachable [] le i = ended reachable i
  reach_loop_lem zero reachable (cur ∷ queue) le i = absurd (omega (arith, le))
  reach_loop_lem (suc n) reachable [] le i = ended reachable i
  reach_loop_lem (suc n) reachable (cur ∷ queue) le i =
      let s = round cur reachable queue in
      reach_loop_lem n s.reachable s.queue
        (omega (
          arith,
          le,
          enqueue_all-work (keys task.nodes) (next_nodes task cur)
              (record { reachable = reachable; queue = queue })
              (λ m h. Flow-known cur m (next_nodes_sound task cur m h)),
        ))
        (round-IsSearching cur reachable queue i)

  start-IsSearching : IsSearching (record { reachable = task.start ∷ []; queue = task.start ∷ [] })
  start-IsSearching = record {
    sound = λ k h.
        subst (Reach task task.start)
          ((eq_iff task.start k).0 (sym (includes-one task.start k) ∙ h)) start;
    followed = λ k h. inl h;
    queue_reached = λ k h. h;
    start_found = includes-head task.start [];
  }

  search_ends :
      (node : TaskNode) → lookup task.start task.nodes ≡ some node → IsSearched (reach_search task)
  unfolding reach_search reach_start
  search_ends node e = rw e (
      reach_loop_lem (length task.nodes) (task.start ∷ []) (task.start ∷ [])
        (omega (
          arith,
          unseen-concat_lt (keys task.nodes) [] task.start
              (includes-keys task.start node task.nodes e) (includes-nil task.start),
          unseen-le_length (keys task.nodes) [],
          length-keys task.nodes,
        ))
        start-IsSearching)

  -- Where the start node exists, the search ends within as many rounds as there are nodes: its queue is
  -- empty then, and it has collected exactly the nodes that flow leads to from the start.
  pub reachable_nodes_correct :
      (node : TaskNode)
      → lookup task.start task.nodes ≡ some node
      → ((reach_search task).queue ≡ [])
        × ((k : String) → (includes (reachable_nodes task) k ≡ true) ↔ Reach task task.start k)
  unfolding reachable_nodes
  reachable_nodes_correct node e = search_ends node e
