-- ===== src/Prelude/Unseen.antt =====
-- Counting the texts that a growing set does not hold yet: the measure of searches over a set.
use Prim.Native.Nat.{ℕ, suc, ◌≤◌, ◌<◌}
use Prim.Native.String.{String}
use mathlib.Core.Path.{◌≡◌, refl}
use mathlib.Core.Logic.{inl, inr}
use mathlib.Core.Bool.{true, false}
use mathlib.Core.Option.{some}
use mathlib.Core.List.{List, [], ◌∷◌, ◌++◌}
use text.Mathlib.Text.{◌==◌}
use text.Mathlib.TextEquality.{eq_iff}
use native.Mathlib.Omega.{arith}
use pi_graph_loop.Prelude.Tests.{if◌then◌else◌, Bool-cases}
use pi_graph_loop.Prelude.Lists.{length}
use pi_graph_loop.Prelude.Texts.{includes, includes-concat}
use pi_graph_loop.Prelude.Records.{Record, lookup, keys}

unfoldable pub unseen : List String → List String → ℕ
unseen [] seen = 0
unseen (k ∷ ks) seen = if includes seen k then unseen ks seen else suc (unseen ks seen)

pub unseen-le_length : (ks seen : List String) → unseen ks seen ≤ length ks
unfolding unseen
unseen-le_length [] seen = omega arith
unseen-le_length (k ∷ ks) seen = ground (arith, unseen-le_length ks seen)

pub unseen-concat_le :
    (ks seen : List String) (j : String) → unseen ks (seen ++ j ∷ []) ≤ unseen ks seen
unfolding unseen
unseen-concat_le [] seen j = omega arith
unseen-concat_le (k ∷ ks) seen j =
    ground (arith, unseen-concat_le ks seen j, includes-concat seen j k)

-- A text of the list that was not seen, once seen, is counted no more.
pub unseen-concat_lt :
    (ks seen : List String) (j : String)
    → includes ks j ≡ true
    → includes seen j ≡ false
    → unseen ks (seen ++ j ∷ []) < unseen ks seen
unfolding unseen includes
unseen-concat_lt [] seen j h n = cc h
unseen-concat_lt (k ∷ ks) seen j h n = elim (Bool-cases (k == j)) [
  | inl e ↦ ground (arith, unseen-concat_le ks seen j, includes-concat seen j k, eq_iff k j, e, n)
  | inr e ↦
      ground
        (arith, unseen-concat_lt ks seen j (ground (arith, h, e)) n, includes-concat seen j k, e)
]

-- A set that holds what another does counts no more texts.
pub unseen-le_of_keeps :
    (ks a b : List String)
    → ((k : String) → includes a k ≡ true → includes b k ≡ true)
    → unseen ks b ≤ unseen ks a
unfolding unseen
unseen-le_of_keeps [] a b keeps = omega arith
unseen-le_of_keeps (k ∷ ks) a b keeps = ground (arith, keeps k, unseen-le_of_keeps ks a b keeps)

-- It counts fewer where it holds a text of the list that the other does not.
pub unseen-lt_of_keeps :
    (ks a b : List String) (j : String)
    → ((k : String) → includes a k ≡ true → includes b k ≡ true)
    → includes ks j ≡ true
    → includes a j ≡ false
    → includes b j ≡ true
    → unseen ks b < unseen ks a
unfolding unseen includes
unseen-lt_of_keeps [] a b j keeps h n y = cc h
unseen-lt_of_keeps (k ∷ ks) a b j keeps h n y = elim (Bool-cases (k == j)) [
  | inl e ↦ ground (arith, unseen-le_of_keeps ks a b keeps, eq_iff k j, e, n, y)
  | inr e ↦ ground (arith, unseen-lt_of_keeps ks a b j keeps (ground (arith, h, e)) n y, keeps k, e)
]

pub includes-keys {ℓ} :
    {V : Type ℓ} (k : String) (v : V) (r : Record V)
    → lookup k r ≡ some v
    → includes (keys r) k ≡ true
unfolding lookup keys includes
includes-keys k v [] h = cc h
includes-keys k v ((j, w) ∷ r) h = elim (Bool-cases (j == k)) [
  | inl e ↦ ground (arith, e)
  | inr e ↦ ground (arith, e, includes-keys k v r (ground (arith, e, h)))
]

pub length-keys {ℓ} : {V : Type ℓ} (r : Record V) → length (keys r) ≡ length r
unfolding keys
length-keys [] = refl
length-keys ((k, v) ∷ r) = omega (arith, length-keys r)
