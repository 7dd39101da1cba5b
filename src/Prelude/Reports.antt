-- ===== src/Prelude/Reports.antt =====
-- Lists of findings that a loop pushes, and what follows where none was pushed.
use mathlib.Core.Path.{◌≡◌, refl, sym, subst}
use mathlib.Core.Bool.{Bool, true, false, not}
use mathlib.Core.List.{List, [], ◌∷◌, ◌++◌}
use pi_graph_loop.Prelude.Lists.{Member, here, there}

abbrev pub when {ℓ} : {A : Type ℓ} → Bool → A → List A
when true e = e ∷ []
when false e = []

-- `for (const x of xs) errors.push(...f(x))`.
unfoldable pub collect {ℓ κ} : {A : Type ℓ} {B : Type κ} → (A → List B) → List A → List B
collect f [] = []
collect f (x ∷ xs) = f x ++ collect f xs

abbrev pub IsNil {ℓ} : {A : Type ℓ} → List A → Type ℓ
IsNil xs = xs ≡ []

pub append-IsNil {ℓ} : {A : Type ℓ} (xs ys : List A) → IsNil (xs ++ ys) → IsNil xs × IsNil ys
append-IsNil [] ys h = (refl, h)
append-IsNil (x ∷ xs) ys h = cc h

pub when-IsNil {ℓ} : {A : Type ℓ} (b : Bool) (e : A) → IsNil (when b e) → b ≡ false
when-IsNil true e h = cc h
when-IsNil false e h = refl

pub when-Member {ℓ} :
    {A : Type ℓ} {x : A} (b : Bool) (e : A) → Member x (when b e) → (b ≡ true) × (x ≡ e)
when-Member true e (here q) = (refl, q)
when-Member true e (there m) = elim m [ ]
when-Member false e m = elim m [ ]

pub when_not-IsNil {ℓ} : {A : Type ℓ} (b : Bool) (e : A) → IsNil (when (not b) e) → b ≡ true
when_not-IsNil true e h = refl
when_not-IsNil false e h = cc h

pub collect-IsNil {ℓ κ} :
    {A : Type ℓ} {B : Type κ} (f : A → List B) (xs : List A) {x : A}
    → IsNil (collect f xs)
    → Member x xs
    → IsNil (f x)
unfolding collect
collect-IsNil f [] h m = elim m [ ]
collect-IsNil f (y ∷ ys) h (here e) =
    subst (λ z. IsNil (f z)) (sym e) (append-IsNil (f y) (collect f ys) h).0
collect-IsNil f (y ∷ ys) h (there m) = collect-IsNil f ys (append-IsNil (f y) (collect f ys) h).1 m
