-- ===== src/Graph/Cycle/Walk.antt =====
-- graph.ts: what `graphHasCycle` decides, independently of the search: walks over an adjacency map,
-- and orders in which every edge leads backwards.
use pi_graph_loop.Prelude.{
  String, ◌≡◌, List, [], ◌∷◌, Record, Member, here, there, All, member_of_all, subst,
}
use pi_graph_loop.Graph.Cycle.{successors}

-- An edge of the map.
abbrev pub Edge : Record (List String) → String → String → Type 0
Edge adj u v = Member v (successors adj u)

-- A walk of any length.
pub data Walk (adj : Record (List String)) (u : String) : String → Type 0 where
  stay : Walk adj u u
  step : {v w : String} → Walk adj u v → Edge adj v w → Walk adj u w

-- A walk over at least one edge.
pub record Leads (adj : Record (List String)) (u v : String) : Type 0 where
  pub last : String
  pub walk : Walk adj u last
  pub edge : Edge adj last v

abbrev pub Cycle : Record (List String) → String → Type 0
Cycle adj u = Leads adj u u

module _ (adj : Record (List String)) where
  -- Each vertex's successors stand behind it.
  abbrev pub IsTopological : List String → Type 0
  IsTopological [] = Unit
  IsTopological (x ∷ xs) = All (λ y. Member y xs) (successors adj x) × IsTopological xs

  -- An edge from a member leads to a member.
  edge_stays :
      (order : List String) {u v : String}
      → IsTopological order
      → Member u order
      → Edge adj u v
      → Member v order
  edge_stays [] t m k = elim m [ ]
  edge_stays (x ∷ xs) {u} {v} t (here e) k = there (
      member_of_all (λ y. Member y xs) (successors adj x) t.0
        (subst (λ z. Member v (successors adj z)) e k))
  edge_stays (x ∷ xs) t (there m) k = there (edge_stays xs t.1 m k)

  pub walk_stays :
      (order : List String) {u v : String}
      → IsTopological order
      → Member u order
      → Walk adj u v
      → Member v order
  walk_stays order t m stay = m
  walk_stays order t m (step w k) = edge_stays order t (walk_stays order t m w) k

  -- A walk over at least one edge, cut behind its first edge.
  pub data FirstEdge (u v : String) : Type 0 where
    first : (w : String) → Edge adj u w → Walk adj w v → FirstEdge u v

  extend_first : {u v w : String} → FirstEdge u v → Edge adj v w → FirstEdge u w
  extend_first (first x e s) l = first x e (step s l)

  first_edge : {u v w : String} → Walk adj u v → Edge adj v w → FirstEdge u w
  first_edge {w} stay k = first w k stay
  first_edge (step s k) l = extend_first (first_edge s k) l

  -- A cycle at the head of such an order comes back to it in the tail.
  cycle_in_tail :
      (x : String) (xs : List String) {u : String}
      → IsTopological (x ∷ xs)
      → u ≡ x
      → FirstEdge u u
      → Member u xs
  cycle_in_tail x xs t e (first w k s) =
      walk_stays xs t.1
        (member_of_all (λ y. Member y xs) (successors adj x) t.0
          (subst (λ z. Member w (successors adj z)) e k))
        s

  -- No member of such an order lies on a cycle.
  pub no-Cycle :
      (order : List String) {u : String} → IsTopological order → Member u order → ¬ Cycle adj u
  no-Cycle [] t m c = elim m [ ]
  no-Cycle (x ∷ xs) t (there m) c = no-Cycle xs t.1 m c
  no-Cycle (x ∷ xs) t (here e) c =
      no-Cycle xs t.1 (cycle_in_tail x xs t e (first_edge c.walk c.edge)) c
