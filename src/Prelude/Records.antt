-- ===== src/Prelude/Records.antt =====
-- Plain objects as association lists, in the order in which `Object.entries` enumerates them.
use Prim.Native.String.{String}
use mathlib.Core.Path.{◌≡◌, refl}
use mathlib.Core.List.{List, [], ◌∷◌}
use mathlib.Core.Option.{Option, none, some}
use mathlib.Core.Option
use native.Mathlib.Omega.{arith}
use text.Mathlib.Text.{◌==◌}
use text.Mathlib.TextEquality.{eq_iff}
use pi_graph_loop.Prelude.Tests.{if◌then◌else◌}

module _ {ℓ} where
  abbrev pub Record : Type ℓ → Type ℓ
  Record V = List (String × V)

module _ {ℓ} {V : Type ℓ} where
  -- `r[k]`.
  unfoldable pub lookup : String → Record V → Option V
  lookup k [] = none
  lookup k ((j, v) ∷ r) = if j == k then some v else lookup k r

  -- `r[k] = v`: an old key keeps its place, a new one goes to the end.
  unfoldable pub put : String → V → Record V → Record V
  put k v [] = (k, v) ∷ []
  put k v ((j, w) ∷ r) = if j == k then (j, v) ∷ r else (j, w) ∷ put k v r

  -- A change of the object that `r[k]` refers to, if there is one.
  unfoldable pub modify : String → (V → V) → Record V → Record V
  modify k f [] = []
  modify k f ((j, w) ∷ r) = if j == k then (j, f w) ∷ r else (j, w) ∷ modify k f r

  -- `delete r[k]`.
  unfoldable pub erase : String → Record V → Record V
  erase k [] = []
  erase k ((j, w) ∷ r) = if j == k then erase k r else (j, w) ∷ erase k r

  -- `Object.keys` and `Object.values`.
  unfoldable pub keys : Record V → List String
  keys [] = []
  keys ((k, v) ∷ r) = k ∷ keys r

  unfoldable pub values : Record V → List V
  values [] = []
  values ((k, v) ∷ r) = v ∷ values r

  pub lookup-put :
      (k j : String) (v : V) (r : Record V)
      → lookup j (put k v r) ≡ (if k == j then some v else lookup j r)
  unfolding lookup put
  lookup-put k j v [] = refl
  lookup-put k j v ((i, w) ∷ r) =
      ground (arith, eq_iff k j, eq_iff i k, eq_iff i j, lookup-put k j v r)

  pub lookup-modify :
      (k j : String) (f : V → V) (r : Record V)
      → lookup j (modify k f r) ≡ (if k == j then Option.map f (lookup j r) else lookup j r)
  unfolding lookup modify
  lookup-modify k j f [] = ground (arith, eq_iff k j)
  lookup-modify k j f ((i, w) ∷ r) =
      ground (arith, eq_iff k j, eq_iff i k, eq_iff i j, lookup-modify k j f r)

  pub lookup-erase :
      (k j : String) (r : Record V) → lookup j (erase k r) ≡ (if k == j then none else lookup j r)
  unfolding lookup erase
  lookup-erase k j [] = ground (arith, eq_iff k j)
  lookup-erase k j ((i, w) ∷ r) =
      ground (arith, eq_iff k j, eq_iff i k, eq_iff i j, lookup-erase k j r)

  pub keys-modify : (k : String) (f : V → V) (r : Record V) → keys (modify k f r) ≡ keys r
  unfolding keys modify
  keys-modify k f [] = refl
  keys-modify k f ((i, w) ∷ r) = ground (arith, keys-modify k f r)
