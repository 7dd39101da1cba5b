-- ===== src/Graph/Cycle/Search.antt =====
-- graph.ts: what `dfs` leaves behind, by induction on its fuel.
use pi_graph_loop.Prelude.{
  ℕ, suc, ◌≤◌, ◌<◌, String, Bool, true, false, ◌≡◌, ◌≢◌, refl, List, [], ◌∷◌, Record, put,
  lookup-put, Member, here, there, subst, inl, inr, ◌⊎◌, ◌==◌, if◌then◌else◌, arith,
}
use pi_graph_loop.Graph.Cycle.{
  Color, white, gray, black, Colors, color_of, Outcome, found, finished, out_of_fuel,
}
use pi_graph_loop.Graph.Cycle.Walk.{Cycle, IsTopological}

pub color_of-put :
    (k v : String) (x : Color) (c : Colors)
    → color_of (put k x c) v ≡ (if k == v then x else color_of c v)
unfolding color_of
color_of-put k v x c = ground (arith, lookup-put k v x c)

Color-cases : (c : Color) → (c ≡ white) ⊎ (c ≡ gray) ⊎ (c ≡ black)
Color-cases white = inl refl
Color-cases gray = inr (inl refl)
Color-cases black = inr (inr refl)

abbrev is_white : Color → Bool
is_white white = true
is_white _ = false

-- How many of the vertices are white.
unfoldable pub whites : List String → Colors → ℕ
whites [] c = 0
whites (v ∷ vs) c = let rest = whites vs c in if is_white (color_of c v) then suc rest else rest

-- No vertex turns white.
abbrev pub Darkens : Colors → Colors → Type 0
Darkens c c' = (w : String) → color_of c' w ≡ white → color_of c w ≡ white

pub whites_mono : (vs : List String) (c c' : Colors) → Darkens c c' → whites vs c' ≤ whites vs c
unfolding whites
whites_mono [] c c' h = omega arith
whites_mono (v ∷ vs) c c' h = ground (arith, whites_mono vs c c' h, h v)

pub whites_strict :
    (vs : List String) (c c' : Colors) {u : String}
    → Darkens c c'
    → Member u vs
    → color_of c u ≡ white
    → color_of c' u ≢ white
    → whites vs c' < whites vs c
unfolding whites
whites_strict [] c c' h m w n = elim m [ ]
whites_strict (v ∷ vs) c c' {u} h (here e) w n = ground (
  arith,
  whites_mono vs c c' h,
  h v,
  subst (λ z. color_of c z ≡ white) e w,
  subst (λ z. color_of c' z ≢ white) e n,
)
whites_strict (v ∷ vs) c c' h (there m) w n = ground (arith, whites_strict vs c c' h m w n, h v)

module _ (adj : Record (List String)) where
  -- The black vertices have an order in which the edges lead backwards.
  pub record HasOrder (c : Colors) : Type 0 where
    pub order : List String
    pub topological : IsTopological adj order
    pub blacks : (w : String) → color_of c w ≡ black → Member w order

  -- A finished call leaves the grey vertices grey, makes none grey, and keeps the black ones.
  pub record Keeps (c c' : Colors) : Type 0 where
    pub gray_kept : (w : String) → color_of c w ≡ gray → color_of c' w ≡ gray
    pub gray_old : (w : String) → color_of c' w ≡ gray → color_of c w ≡ gray
    pub black_kept : (w : String) → color_of c w ≡ black → color_of c' w ≡ black

  -- The postcondition: a cycle where one was found, and never out of fuel.
  abbrev pub Post : Colors → (Colors → Type 0) → Outcome → Type 0
  Post c Q found = (x : String) × Cycle adj x
  Post c Q (finished c') = Keeps c c' × HasOrder c' × Q c'
  Post c Q out_of_fuel = ⊥

pub Keeps-Darkens : (adj : Record (List String)) (c c' : Colors) → Keeps adj c c' → Darkens c c'
Keeps-Darkens adj c c' k w h = elim (Color-cases (color_of c w)) [
  | inl e ↦ e
  | inr (inl e) ↦ cc (k.gray_kept w e)
  | inr (inr e) ↦ cc (k.black_kept w e)
]
