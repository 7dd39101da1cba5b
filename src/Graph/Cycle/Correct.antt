-- ===== src/Graph/Cycle/Correct.antt =====
-- graph.ts: `graphHasCycle` decides whether a cycle can be reached.
use pi_graph_loop.Prelude.{
  ℕ, suc, ◌≤◌, ◌<◌, String, true, false, ◌≡◌, ◌≢◌, refl, Option, none, some, List, [], ◌∷◌, Record,
  lookup, put, values, default_to, length, Member, here, there, subst, member_of_all,
  member-append_left, member-append_right, Bool-cases, inl, inr, ◌==◌, ◌⊎◌, arith,
}
use pi_graph_loop.Graph.Cycle.{
  Color, white, gray, black, Colors, color_of, Outcome, found, finished, out_of_fuel, successors,
  visit_roots, concat, vertices, paint_white, search_cycle, graph_has_cycle,
}
use pi_graph_loop.Graph.Cycle.Walk.{Edge, Walk, Cycle, walk_stays, no-Cycle}
use pi_graph_loop.Graph.Cycle.Search.{
  color_of-put, whites, whites_mono, HasOrder, Keeps, Post, Keeps-Darkens,
}
use pi_graph_loop.Graph.Cycle.Dfs.{GoSpec, AllBlack, Keeps-refl, Post-cons, dfs-Post}

-- Each edge leads to a vertex of the list.
lookup_closed :
    (adj : Record (List String)) (u : String) {vs : List String} {v : String}
    → lookup u adj ≡ some vs
    → Member v vs
    → Member v (concat (values adj))
unfolding lookup concat values
lookup_closed [] u e m = cc e
lookup_closed ((k, ws) ∷ adj) u {vs} {v} e m = elim (Bool-cases (k == u)) [
  | inl t ↦ member-append_left ws (concat (values adj)) (subst (Member v) (ground (arith, e, t)) m)
  | inr t ↦
      member-append_right ws (concat (values adj)) (lookup_closed adj u (ground (arith, e, t)) m)
]

edge_closed :
    (adj : Record (List String)) (u v : String) → Edge adj u v → Member v (concat (values adj))
unfolding successors
edge_closed adj u v m = at (lookup u adj) refl m
  where
    at :
        (o : Option (List String))
        → lookup u adj ≡ o
        → Member v (default_to [] o)
        → Member v (concat (values adj))
    at none e k = elim k [ ]
    at (some vs) e k = lookup_closed adj u e k

paint_white-white :
    (ns : List String) (c : Colors) (v : String)
    → color_of c v ≡ white
    → color_of (paint_white ns c) v ≡ white
unfolding paint_white
paint_white-white [] c v h = h
paint_white-white (n ∷ ns) c v h =
    paint_white-white ns (put n white c) v (ground (arith, color_of-put n v white c))

whites-le_length : (vs : List String) (c : Colors) → whites vs c ≤ length vs
unfolding whites
whites-le_length [] c = omega arith
whites-le_length (v ∷ vs) c = ground (arith, whites-le_length vs c)

module _ (adj : Record (List String)) (universe : List String)
    (closed : (u v : String) → Edge adj u v → Member v universe) where
  abbrev RootSpec : (String → Colors → Outcome) → ℕ → List String → Colors → Type 0
  RootSpec go n vs c =
      whites universe c < n
      → HasOrder adj c
      → ((w : String) → color_of c w ≢ gray)
      → Post adj c (AllBlack adj universe closed vs) (visit_roots go vs c)

  visit_roots_step :
      (n : ℕ) (go : String → Colors → Outcome)
      → GoSpec adj universe closed n go
      → (v : String) (vs : List String) (c : Colors) → Member v universe
      → ((c' : Colors) → RootSpec go n vs c')
      → RootSpec go n (v ∷ vs) c
  unfolding visit_roots
  visit_roots_step n go spec v vs c m ih lt o g = at (color_of c v) refl
    where
      rest :
          (c' : Colors)
          → Keeps adj c c'
          → HasOrder adj c'
          → Post adj c' (AllBlack adj universe closed vs) (visit_roots go vs c')
      rest c' k o' =
          ih c' (omega (arith, whites_mono universe c c' (Keeps-Darkens adj c c' k), lt)) o'
            (λ w h. g w (k.gray_old w h))

      after :
          (r : Outcome)
          → Post adj c (λ c'. color_of c' v ≡ black) r
          → Post adj c (AllBlack adj universe closed (v ∷ vs)) (elim r [
            | found ↦ found
            | finished c' ↦ visit_roots go vs c'
            | out_of_fuel ↦ out_of_fuel
          ])
      after found p = p
      after out_of_fuel p = p
      after (finished c') (k, o', b) = Post-cons adj universe closed v vs c c' _ k b (rest c' k o')

      at :
          (x : Color)
          → color_of c v ≡ x
          → Post adj c (AllBlack adj universe closed (v ∷ vs)) (visit_roots go (v ∷ vs) c)
      at gray e = absurd (g v e)
      at black e =
          rw (e, visit_roots)
            (Post-cons adj universe closed v vs c c _ (Keeps-refl adj universe closed c) e
              (rest c (Keeps-refl adj universe closed c) o))
      at white e = rw (e, visit_roots) (after (go v c) (spec v c e m lt o (λ w h. absurd (g w h))))

  visit_roots-Post :
      (n : ℕ) (go : String → Colors → Outcome)
      → GoSpec adj universe closed n go
      → (vs : List String) (c : Colors) → ((v : String) → Member v vs → Member v universe)
      → RootSpec go n vs c
  unfolding visit_roots
  visit_roots-Post n go spec [] c sub lt o g = (Keeps-refl adj universe closed c, o, tt)
  visit_roots-Post n go spec (v ∷ vs) c sub lt o g =
      visit_roots_step n go spec v vs c (sub v (here refl))
        (λ c'. visit_roots-Post n go spec vs c' (λ x k. sub x (there k))) lt o g

module _ (adj : Record (List String)) (nodes : List String) where
  vertices_closed : (u v : String) → Edge adj u v → Member v (vertices adj nodes)
  unfolding vertices
  vertices_closed u v e = member-append_right nodes (concat (values adj)) (edge_closed adj u v e)

  all_white : (v : String) → color_of (paint_white nodes []) v ≡ white
  unfolding color_of
  all_white v = paint_white-white nodes [] v refl

  search_cycle-Post :
      Post adj
        (paint_white nodes [])
        (AllBlack adj (vertices adj nodes) vertices_closed nodes)
        (search_cycle adj nodes)
  unfolding search_cycle
  search_cycle-Post =
      visit_roots-Post adj (vertices adj nodes) vertices_closed _ _
        (dfs-Post adj (vertices adj nodes) vertices_closed (suc (length (vertices adj nodes))))
        nodes (paint_white nodes [])
        (λ v m. unfold vertices in member-append_left nodes (concat (values adj)) m)
        (omega (arith, whites-le_length (vertices adj nodes) (paint_white nodes [])))
        (record { order = []; topological = tt; blacks = λ w h. cc (all_white w) })
        (λ w h. cc (all_white w))

  found_or_acyclic :
      (r : Outcome)
      → Post adj (paint_white nodes []) (AllBlack adj (vertices adj nodes) vertices_closed nodes) r
      → (r ≡ found) × ((x : String) × Cycle adj x)
        ⊎ (((c : Colors) × (r ≡ finished c))
            × ((u v : String) → Member u nodes → Walk adj u v → ¬ Cycle adj v))
  found_or_acyclic found p = inl (refl, p)
  found_or_acyclic out_of_fuel p = absurd p
  found_or_acyclic (finished c) (k, o, a) = inr (
    (c, refl),
    λ u v m w. no-Cycle adj o.order o.topological (
        walk_stays adj o.order o.topological
          (o.blacks u (member_of_all (λ x. color_of c x ≡ black) nodes a m)) w),
  )

-- The search that `graphHasCycle` runs ends within the model's fuel: it finds a cycle, `graphHasCycle`
-- returns true and the edges have one, or it finishes, `graphHasCycle` returns false and no vertex that
-- can be reached from `nodes` lies on one.
pub graph_has_cycle_correct :
    (adj : Record (List String)) (nodes : List String)
    → (search_cycle adj nodes ≡ found)
        × (graph_has_cycle adj nodes ≡ true)
        × ((x : String) × Cycle adj x)
      ⊎ ((c : Colors) × (search_cycle adj nodes ≡ finished c))
        × (graph_has_cycle adj nodes ≡ false)
        × ((u v : String) → Member u nodes → Walk adj u v → ¬ Cycle adj v)
unfolding graph_has_cycle
graph_has_cycle_correct adj nodes =
    elim (found_or_acyclic adj nodes (search_cycle adj nodes) (search_cycle-Post adj nodes)) [
      | inl (e, x) ↦ inl (e, rw e, x)
      | inr ((c, e), h) ↦ inr ((c, e), rw e, h)
    ]
