-- ===== src/Prelude/Sets.antt =====
-- Folds that add to a set, for any accumulator that grows by the elements of a list.
use Prim.Native.String.{String}
use mathlib.Core.Path.{◌≡◌, refl, subst}
use mathlib.Core.Logic.{◌⊎◌, inl, inr}
use mathlib.Core.Bool.{true}
use mathlib.Core.List.{List, [], ◌∷◌, foldl}
use pi_graph_loop.Prelude.Lists.{Member, here, there}
use pi_graph_loop.Prelude.Texts.{includes}

-- A fold that adds to a set: what it holds is what it held, or what some element of the list added.
module _ {A : Type 0} (f : List String → A → List String) (Adds : A → String → Type 0)
    (sound : (s : List String) (x : A) (k : String)
      → includes (f s x) k ≡ true
      → (includes s k ≡ true) ⊎ Adds x k)
    (keeps : (s : List String) (x : A) (k : String)
      → includes s k ≡ true
      → includes (f s x) k ≡ true)
    (complete : (s : List String) (x : A) (k : String) → Adds x k → includes (f s x) k ≡ true) where
  pub foldl_sound :
      (xs : List A) (s : List String) (k : String)
      → includes (foldl f s xs) k ≡ true
      → (includes s k ≡ true) ⊎ ((x : A) × Member x xs × Adds x k)
  foldl_sound [] s k h = inl h
  foldl_sound (x ∷ xs) s k h = elim (foldl_sound xs (f s x) k h) [
    | inr (y, m, a) ↦ inr (y, there m, a)
    | inl old ↦ elim (sound s x k old) [ inl older ↦ inl older | inr a ↦ inr (x, here refl, a) ]
  ]

  pub foldl-keeps :
      (xs : List A) (s : List String) (k : String)
      → includes s k ≡ true
      → includes (foldl f s xs) k ≡ true
  foldl-keeps [] s k h = h
  foldl-keeps (x ∷ xs) s k h = foldl-keeps xs (f s x) k (keeps s x k h)

  pub foldl_complete :
      (xs : List A) (s : List String) (k : String) (x : A)
      → Member x xs
      → Adds x k
      → includes (foldl f s xs) k ≡ true
  foldl_complete [] s k x m a = elim m [ ]
  foldl_complete (y ∷ xs) s k x (here e) a =
      foldl-keeps xs (f s y) k (complete s y k (subst (λ z. Adds z k) e a))
  foldl_complete (y ∷ xs) s k x (there m) a = foldl_complete xs (f s y) k x m a
