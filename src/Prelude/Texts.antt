-- ===== src/Prelude/Texts.antt =====
-- Texts: concatenation, `includes`, and lists of texts as sets.
use Prim.Native.Char.{code}
use Prim.Native.Nat.{ℕ}
use Prim.Native.String
use Prim.Native.String.{String}
use mathlib.Core.Path.{◌≡◌, refl}
use mathlib.Core.Bool.{Bool, true, false, not, ◌||◌}
use mathlib.Core.List.{List, [], ◌∷◌, ◌++◌}
use mathlib.Core.Option.{Option, none, some}
use text.Mathlib.Text.{◌==◌, find?}
use text.Mathlib.TextEquality.{eq_iff}
use native.Mathlib.Omega.{arith}
use pi_graph_loop.Prelude.Tests.{if◌then◌else◌, is_some, if_ind}

-- A template literal's concatenation.
infixr 65 ◌<>◌
abbrev pub ◌<>◌ : String → String → String
s <> t = String.◌++◌ s t

-- The code points of a text.
abbrev pub codes : String → List ℕ
codes String.[] = []
codes (String.◌∷◌ c s) = code c ∷ codes s

-- `s.includes(t)`.
abbrev pub has_text : String → String → Bool
has_text s t = is_some (find? s t)

-- The empty text is falsy.
abbrev pub is_truthy : String → Bool
is_truthy s = not (s == "")

-- `===` between values that are a text, or absent.
abbrev pub opt_eq : Option String → Option String → Bool
opt_eq none none = true
opt_eq (some a) (some b) = a == b
opt_eq _ _ = false

-- `===` between a value that may be absent and a text.
abbrev pub opt_is : Option String → String → Bool
opt_is none s = false
opt_is (some t) s = t == s

pub ==-refl : (s : String) → (s == s) ≡ true
==-refl s = (eq_iff s s).1 refl

-- `xs.includes(k)` on an array, `has` on a set.
unfoldable pub includes : List String → String → Bool
includes [] k = false
includes (x ∷ xs) k = x == k || includes xs k

-- `set.add(k)`: a set enumerates its elements in the order of insertion.
unfoldable pub set_add : List String → String → List String
set_add s k = if includes s k then s else s ++ k ∷ []

pub includes-concat :
    (xs : List String) (k j : String) → includes (xs ++ k ∷ []) j ≡ (includes xs j || k == j)
unfolding includes
includes-concat [] k j = ground arith
includes-concat (x ∷ xs) k j = ground (arith, includes-concat xs k j)

-- No text stands twice in the list.
abbrev pub IsDistinct : List String → Type 0
IsDistinct [] = Unit
IsDistinct (x ∷ xs) = (includes xs x ≡ false) × IsDistinct xs

pub IsDistinct-concat :
    (xs : List String) (k : String)
    → IsDistinct xs
    → includes xs k ≡ false
    → IsDistinct (xs ++ k ∷ [])
unfolding includes
IsDistinct-concat [] k h n = (refl, tt)
IsDistinct-concat (x ∷ xs) k h n = (
  ground (arith, includes-concat xs k x, eq_iff x k, eq_iff k x),
  IsDistinct-concat xs k h.1 (ground arith),
)

pub set_add-IsDistinct : (xs : List String) (k : String) → IsDistinct xs → IsDistinct (set_add xs k)
unfolding set_add
set_add-IsDistinct xs k h = if_ind IsDistinct (includes xs k) (λ old. h) (IsDistinct-concat xs k h)

pub includes-set_add :
    (xs : List String) (k j : String) → includes (set_add xs k) j ≡ (includes xs j || k == j)
unfolding set_add
includes-set_add xs k j = ground (arith, includes-concat xs k j, eq_iff k j)
