-- ===== src/Graph/Cycle.antt =====
-- graph.ts: `graphHasCycle`, the depth-first search with three colours.
pub mod Walk
pub mod Search
pub mod Dfs
pub mod Correct
use pi_graph_loop.Prelude.{
  ℕ, zero, suc, String, Bool, true, false, List, [], ◌∷◌, ◌++◌, Record, lookup, put, values, length,
  default_to,
}

pub data Color : Type 0 where
  white gray black : Color

abbrev pub Colors : Type 0
Colors = Record Color

-- `color.get(v) ?? WHITE`.
unfoldable pub color_of : Colors → String → Color
unfolding lookup
color_of c v = default_to white (lookup v c)

-- The call returned true, it returned false, or the model's fuel ran out.
pub data Outcome : Type 0 where
  found : Outcome
  finished : Colors → Outcome
  out_of_fuel : Outcome

-- The loop over the successors, `go` being the recursive call of `dfs`.
unfoldable pub visit_all : (String → Colors → Outcome) → List String → Colors → Outcome
unfolding color_of
visit_all go [] c = finished c
visit_all go (v ∷ vs) c = elim (color_of c v) [
  | gray ↦ found
  | black ↦ visit_all go vs c
  | white ↦ elim (go v c) [
    | found ↦ found
    | finished c' ↦ visit_all go vs c'
    | out_of_fuel ↦ out_of_fuel
  ]
]

abbrev pub blacken : String → Outcome → Outcome
blacken u (finished c) = finished (put u black c)
blacken u found = found
blacken u out_of_fuel = out_of_fuel

-- `adj.get(u) || []`.
unfoldable pub successors : Record (List String) → String → List String
unfolding lookup
successors adj u = default_to [] (lookup u adj)

-- The recursion is as deep as there are vertices that are not yet coloured.
unfoldable pub dfs : Record (List String) → ℕ → String → Colors → Outcome
unfolding visit_all put successors
dfs adj zero u c = out_of_fuel
dfs adj (suc fuel) u c = blacken u (visit_all (dfs adj fuel) (successors adj u) (put u gray c))

-- The last loop: a start vertex that is not white is passed over.
unfoldable pub visit_roots : (String → Colors → Outcome) → List String → Colors → Outcome
unfolding color_of
visit_roots go [] c = finished c
visit_roots go (v ∷ vs) c = elim (color_of c v) [
  | gray ↦ visit_roots go vs c
  | black ↦ visit_roots go vs c
  | white ↦ elim (go v c) [
    | found ↦ found
    | finished c' ↦ visit_roots go vs c'
    | out_of_fuel ↦ out_of_fuel
  ]
]

unfoldable pub concat : List (List String) → List String
concat [] = []
concat (xs ∷ xss) = xs ++ concat xss

-- All that a walk can meet.
unfoldable pub vertices : Record (List String) → List String → List String
unfolding concat values
vertices adj nodes = nodes ++ concat (values adj)

-- `for (const n of nodes) color.set(n, WHITE)`.
unfoldable pub paint_white : List String → Colors → Colors
unfolding put
paint_white [] c = c
paint_white (n ∷ ns) c = paint_white ns (put n white c)

unfoldable pub search_cycle : Record (List String) → List String → Outcome
unfolding visit_roots dfs paint_white vertices
search_cycle adj nodes =
    visit_roots (dfs adj (suc (length (vertices adj nodes)))) nodes (paint_white nodes [])

abbrev is_found : Outcome → Bool
is_found found = true
is_found _ = false

unfoldable pub graph_has_cycle : Record (List String) → List String → Bool
unfolding search_cycle
graph_has_cycle adj nodes = is_found (search_cycle adj nodes)
