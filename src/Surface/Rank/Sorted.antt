-- ===== src/Surface/Rank/Sorted.antt =====
-- surface/ranking.ts: the elements of a sorted list.
use pi_graph_loop.Prelude.{
  suc, Bool, ◌≡◌, refl, List, [], ◌∷◌, Member, here, there, length, if◌then◌else◌, if_ind, arith,
  inl, inr, subst, Bool-cases,
}
use pi_graph_loop.Surface.Rank.{insert_sorted, sort_by}

module _ {A : Type 0} (before : A → A → Bool) {a : A} where
  insert_sound : (x : A) (ys : List A) → Member a (insert_sorted before x ys) → Member a (x ∷ ys)
  unfolding insert_sorted
  insert_sound x [] m = m
  insert_sound x (y ∷ ys) m = elim (Bool-cases (before y x)) [
    | inr e ↦
        subst (λ (b : Bool). Member a (if b then y ∷ insert_sorted before x ys else x ∷ y ∷ ys)) e m
    | inl e ↦
        elim (subst
          (λ (b : Bool). Member a (if b then y ∷ insert_sorted before x ys else x ∷ y ∷ ys)) e m) [
            | here q ↦ there (here q)
            | there n ↦ elim (insert_sound x ys n) [ here q ↦ here q | there k ↦ there (there k) ]
          ]
  ]

  insert_complete : (x : A) (ys : List A) → Member a (x ∷ ys) → Member a (insert_sorted before x ys)
  unfolding insert_sorted
  insert_complete x [] m = m
  insert_complete x (y ∷ ys) m =
      if_ind (Member a) (before y x)
        (λ e. elim m [
          | here q ↦ there (insert_complete x ys (here q))
          | there n ↦ elim n [ here q ↦ here q | there k ↦ there (insert_complete x ys (there k)) ]
        ])
        (λ e. m)

  pub sort_sound : (xs : List A) → Member a (sort_by before xs) → Member a xs
  unfolding sort_by
  sort_sound [] m = m
  sort_sound (x ∷ xs) m = elim (insert_sound x (sort_by before xs) m) [
    | here q ↦ here q
    | there n ↦ there (sort_sound xs n)
  ]

  pub sort_complete : (xs : List A) → Member a xs → Member a (sort_by before xs)
  unfolding sort_by
  sort_complete [] m = m
  sort_complete (x ∷ xs) m =
      insert_complete x (sort_by before xs)
        (elim m [ here q ↦ here q | there n ↦ there (sort_complete xs n) ])

module _ {A : Type 0} (before : A → A → Bool) where
  length-insert : (x : A) (ys : List A) → length (insert_sorted before x ys) ≡ suc (length ys)
  unfolding insert_sorted
  length-insert x [] = refl
  length-insert x (y ∷ ys) = ground (arith, length-insert x ys)

  pub length-sort : (xs : List A) → length (sort_by before xs) ≡ length xs
  unfolding sort_by
  length-sort [] = refl
  length-sort (x ∷ xs) = ground (arith, length-insert x (sort_by before xs), length-sort xs)
