-- ===== src/Graph/Cycle/Dfs.antt =====
-- graph.ts: the induction over `dfs` and its loop.
use pi_graph_loop.Prelude.{
  ℕ, zero, suc, ◌<◌, String, ◌≡◌, refl, sym, List, [], ◌∷◌, Record, put, Member, here, there, All,
  subst, member_of_all, All-of_members, inl, inr, ◌⊎◌, Bool-cases, eq_iff, ==-refl, ◌==◌, arith,
}
use pi_graph_loop.Graph.Cycle.{
  Color, white, gray, black, Colors, color_of, Outcome, found, finished, out_of_fuel, visit_all,
  successors, dfs, blacken,
}
use pi_graph_loop.Graph.Cycle.Walk.{Edge, Walk, stay, step, Leads}
use pi_graph_loop.Graph.Cycle.Search.{
  color_of-put, whites, Darkens, whites_mono, whites_strict, HasOrder, Keeps, Post, Keeps-Darkens,
}

module _ (adj : Record (List String)) (universe : List String)
    (closed : (u v : String) → Edge adj u v → Member v universe) where
  -- What the recursive call promises, with fuel for `n` white vertices.
  abbrev pub GoSpec : ℕ → (String → Colors → Outcome) → Type 0
  GoSpec n go =
      (v : String) (c : Colors)
      → color_of c v ≡ white
      → Member v universe
      → whites universe c < n
      → HasOrder adj c
      → ((w : String) → color_of c w ≡ gray → Leads adj w v)
      → Post adj c (λ c'. color_of c' v ≡ black) (go v c)

  pub Keeps-refl : (c : Colors) → Keeps adj c c
  Keeps-refl c = record { gray_kept = λ w h. h; gray_old = λ w h. h; black_kept = λ w h. h }

  Keeps-trans : (a b c : Colors) → Keeps adj a b → Keeps adj b c → Keeps adj a c
  Keeps-trans a b c k l = record {
    gray_kept = λ w h. l.gray_kept w (k.gray_kept w h);
    gray_old = λ w h. k.gray_old w (l.gray_old w h);
    black_kept = λ w h. l.black_kept w (k.black_kept w h);
  }

  abbrev pub AllBlack : List String → Colors → Type 0
  AllBlack vs c = All (λ v. color_of c v ≡ black) vs

  -- One vertex more in front of a loop that went on from `c'`.
  pub Post-cons :
      (v : String) (vs : List String) (c c' : Colors) (r : Outcome)
      → Keeps adj c c'
      → color_of c' v ≡ black
      → Post adj c' (AllBlack vs) r
      → Post adj c (AllBlack (v ∷ vs)) r
  Post-cons v vs c c' found k b p = p
  Post-cons v vs c c' out_of_fuel k b p = p
  Post-cons v vs c c' (finished d) k b (l, o, a) =
      (Keeps-trans c c' d k l, o, (l.black_kept v b, a))

  abbrev AllSpec : ℕ → (String → Colors → Outcome) → String → List String → Colors → Type 0
  AllSpec n go u vs c =
      whites universe c < n
      → HasOrder adj c
      → ((w : String) → color_of c w ≡ gray → Walk adj w u)
      → Post adj c (AllBlack vs) (visit_all go vs c)

  -- One round of the loop, if the rest of the loop meets its specification.
  visit_all_step :
      (n : ℕ) (go : String → Colors → Outcome)
      → GoSpec n go
      → (u v : String) (vs : List String) (c : Colors) → Edge adj u v
      → ((c' : Colors) → AllSpec n go u vs c')
      → AllSpec n go u (v ∷ vs) c
  unfolding visit_all
  visit_all_step n go spec u v vs c edge ih m o g = at (color_of c v) refl
    where
      rest :
          (c' : Colors)
          → Keeps adj c c'
          → HasOrder adj c'
          → Post adj c' (AllBlack vs) (visit_all go vs c')
      rest c' k o' =
          ih c' (omega (arith, whites_mono universe c c' (Keeps-Darkens adj c c' k), m)) o'
            (λ w h. g w (k.gray_old w h))

      after :
          (r : Outcome)
          → Post adj c (λ c'. color_of c' v ≡ black) r
          → Post adj c (AllBlack (v ∷ vs)) (elim r [
            | found ↦ found
            | finished c' ↦ visit_all go vs c'
            | out_of_fuel ↦ out_of_fuel
          ])
      after found p = p
      after out_of_fuel p = p
      after (finished c') (k, o', b) = Post-cons v vs c c' _ k b (rest c' k o')

      at : (x : Color) → color_of c v ≡ x → Post adj c (AllBlack (v ∷ vs)) (visit_all go (v ∷ vs) c)
      at gray e = rw (e, visit_all) (v, record { last = u; walk = g v e; edge = edge })
      at black e =
          rw (e, visit_all) (Post-cons v vs c c _ (Keeps-refl c) e (rest c (Keeps-refl c) o))
      at white e =
          rw (e, visit_all)
            (after (go v c) (
              spec v c e (closed u v edge) m o
                (λ w h. record { last = u; walk = g w h; edge = edge })))

  visit_all-Post :
      (n : ℕ) (go : String → Colors → Outcome)
      → GoSpec n go
      → (u : String) (vs : List String) (c : Colors) → ((v : String) → Member v vs → Edge adj u v)
      → AllSpec n go u vs c
  unfolding visit_all
  visit_all-Post n go spec u [] c sub m o g = (Keeps-refl c, o, tt)
  visit_all-Post n go spec u (v ∷ vs) c sub m o g =
      visit_all_step n go spec u v vs c (sub v (here refl))
        (λ c'. visit_all-Post n go spec u vs c' (λ x k. sub x (there k))) m o g

  -- The vertex itself: grey while its successors are searched, black afterwards.
  module _ (u : String) (c : Colors) (w : color_of c u ≡ white) where
    gray_put : (v : String) → color_of (put u gray c) v ≡ gray → (u ≡ v) ⊎ (color_of c v ≡ gray)
    gray_put v h = ground (arith, color_of-put u v gray c, eq_iff u v)

    black_put : (v : String) → color_of (put u gray c) v ≡ black → color_of c v ≡ black
    black_put v h = ground (arith, color_of-put u v gray c, eq_iff u v)

    start_Darkens : Darkens c (put u gray c)
    start_Darkens v h = ground (arith, color_of-put u v gray c, eq_iff u v)

    start_gray : color_of (put u gray c) u ≡ gray
    start_gray = rw (color_of-put, ==-refl u)

    start_HasOrder : HasOrder adj c → HasOrder adj (put u gray c)
    start_HasOrder o = record {
      order = o.order;
      topological = o.topological;
      blacks = λ v h. o.blacks v (black_put v h);
    }

    darker :
        Member u universe → {n : ℕ} → whites universe c < suc n → whites universe (put u gray c) < n
    darker m lt =
        omega (
          arith,
          whites_strict universe c (put u gray c) start_Darkens m w (λ e. cc start_gray),
          lt,
        )

    end_Keeps : (d : Colors) → Keeps adj (put u gray c) d → Keeps adj c (put u black d)
    end_Keeps d k = record {
      gray_kept = λ v h.
          ground
            (arith, color_of-put u v black d, color_of-put u v gray c, eq_iff u v, k.gray_kept v);
      gray_old = λ v h.
          ground
            (arith, color_of-put u v black d, color_of-put u v gray c, eq_iff u v, k.gray_old v);
      black_kept = λ v h.
          ground
            (arith, color_of-put u v black d, color_of-put u v gray c, eq_iff u v, k.black_kept v);
    }

    end_HasOrder :
        (d : Colors) → HasOrder adj d → AllBlack (successors adj u) d → HasOrder adj (put u black d)
    end_HasOrder d o a = record {
      order = u ∷ o.order;
      topological = (
        All-of_members (λ y. Member y o.order) (successors adj u)
            (λ y m. o.blacks y (member_of_all (λ v. color_of d v ≡ black) (successors adj u) a m)),
        o.topological,
      );
      blacks = λ v h. elim (Bool-cases (u == v)) [
        | inl same ↦ here (sym ((eq_iff u v).0 same))
        | inr other ↦ there (o.blacks v (subst (λ x. x ≡ black) (rw (color_of-put, other)) h))
      ];
    }

    end_Post :
        (r : Outcome)
        → Post adj (put u gray c) (AllBlack (successors adj u)) r
        → Post adj c (λ c'. color_of c' u ≡ black) (blacken u r)
    end_Post found p = p
    end_Post out_of_fuel p = p
    end_Post (finished d) (k, o, a) =
        (end_Keeps d k, end_HasOrder d o a, rw (color_of-put, ==-refl u))

  pub dfs-Post : (fuel : ℕ) → GoSpec fuel (dfs adj fuel)
  unfolding dfs
  dfs-Post zero u c w m lt o g = absurd (omega arith)
  dfs-Post (suc fuel) u c w m lt o g =
      end_Post u c w (visit_all (dfs adj fuel) (successors adj u) (put u gray c)) (
        visit_all-Post fuel (dfs adj fuel) (dfs-Post fuel) u (successors adj u) (put u gray c)
          (λ v e. e) (darker u c w m lt) (start_HasOrder u c w o)
          (λ v h. elim (gray_put u c w v h) [
            | inl e ↦ subst (λ z. Walk adj z u) e stay
            | inr old ↦ let l = g v old in step l.walk l.edge
          ]))
