-- ===== src/Graph/Validate/Forward.antt =====
-- graph.ts: the map of the edges that are not marked as rework, in `validateTaskGraph`.
use pi_graph_loop.Prelude.{
  String, false, ◌≡◌, refl, sym, List, [], ◌∷◌, ◌++◌, Record, put, lookup-put, Member, here, there,
  arith, ◌==◌, eq_iff, ==-refl, member-append_left, member-append_right, subst, if_ind,
  if◌then◌else◌,
}
use pi_graph_loop.Types.{TaskEdge, TaskState}
use pi_graph_loop.Graph.Cycle.{successors}
use pi_graph_loop.Graph.Cycle.Walk.{Edge, stay, step, Leads}
use pi_graph_loop.Graph.Validate.{non_rework_adj, add_adjacent}

successors-put :
    (m : Record (List String)) (u w : String) (vs : List String)
    → successors (put u vs m) w ≡ (if u == w then vs else successors m w)
unfolding successors
successors-put m u w vs = ground (arith, lookup-put u w vs m)

add_adjacent-keeps :
    (m : Record (List String)) (edge : TaskEdge) (u v : String)
    → Member v (successors m u)
    → Member v (successors (add_adjacent m edge) u)
unfolding add_adjacent successors
add_adjacent-keeps m edge u v k =
    if_ind (λ (m' : Record (List String)). Member v (successors m' u)) edge.rework (λ e. k)
      (λ e. rw (successors-put m edge.from u (successors m edge.from ++ edge.to ∷ [])) (
        if_ind (Member v) (edge.from == u)
          (λ t.
            member-append_left (successors m edge.from) (edge.to ∷ [])
              (subst (λ x. Member v (successors m x)) (sym ((eq_iff edge.from u).0 t)) k))
          (λ f. k)))

add_adjacent-adds :
    (m : Record (List String)) (edge : TaskEdge)
    → edge.rework ≡ false
    → Member edge.to (successors (add_adjacent m edge) edge.from)
unfolding add_adjacent successors
add_adjacent-adds m edge e =
    rw
      (
        e,
        successors-put m edge.from edge.from (successors m edge.from ++ edge.to ∷ []),
        ==-refl edge.from,
      )
      (member-append_right (successors m edge.from) (edge.to ∷ []) (here refl))

-- An edge that is not marked as rework stands in the adjacency that is searched for cycles.
adj_keeps :
    (edges : List TaskEdge) (m : Record (List String)) (u v : String)
    → Member v (successors m u)
    → Member v (successors (non_rework_adj m edges) u)
unfolding non_rework_adj
adj_keeps [] m u v k = k
adj_keeps (edge ∷ edges) m u v k =
    adj_keeps edges (add_adjacent m edge) u v (add_adjacent-keeps m edge u v k)

adj_edge :
    (edges : List TaskEdge) (m : Record (List String)) (edge : TaskEdge)
    → Member edge edges
    → edge.rework ≡ false
    → Member edge.to (successors (non_rework_adj m edges) edge.from)
unfolding non_rework_adj
adj_edge [] m edge k e = elim k [ ]
adj_edge (x ∷ edges) m edge (here p) e = adj_keeps edges (add_adjacent m x) edge.from edge.to (
    subst (λ y. Member edge.to (successors (add_adjacent m y) edge.from)) p
      (add_adjacent-adds m edge e))
adj_edge (x ∷ edges) m edge (there k) e = adj_edge edges (add_adjacent m x) edge k e

-- A path over at least one edge of the task that is not marked as rework.
pub data ForwardPath (task : TaskState) (u : String) : String → Type 0 where
  first :
      {edge : TaskEdge}
      → Member edge task.edges
      → edge.rework ≡ false
      → edge.from ≡ u
      → ForwardPath task u edge.to
  more :
      {v : String} {edge : TaskEdge}
      → ForwardPath task u v
      → Member edge task.edges
      → edge.rework ≡ false
      → edge.from ≡ v
      → ForwardPath task u edge.to

forward-Edge :
    (task : TaskState) (u : String) (edge : TaskEdge)
    → Member edge task.edges
    → edge.rework ≡ false
    → edge.from ≡ u
    → Edge (non_rework_adj [] task.edges) u edge.to
forward-Edge task u edge m r e =
    subst (λ x. Member edge.to (successors (non_rework_adj [] task.edges) x)) e
      (adj_edge task.edges [] edge m r)

pub forward-Leads :
    (task : TaskState) (u v : String)
    → ForwardPath task u v
    → Leads (non_rework_adj [] task.edges) u v
forward-Leads task u v (first {edge = edge} m r e) = record {
  last = u;
  walk = stay;
  edge = forward-Edge task u edge m r e;
}
forward-Leads task u v (more {v = w} {edge = edge} p m r e) =
    let l = forward-Leads task u w p in
    record { last = w; walk = step l.walk l.edge; edge = forward-Edge task w edge m r e }

-- The first node of such a path is the source of an edge.
pub path_source :
    (task : TaskState) (u v : String)
    → ForwardPath task u v
    → (edge : TaskEdge) × Member edge task.edges × (edge.from ≡ u)
path_source task u v (first {edge = edge} m r e) = (edge, m, e)
path_source task u v (more {v = w} p m r e) = path_source task u w p
