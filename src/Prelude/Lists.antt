-- ===== src/Prelude/Lists.antt =====
-- Lists measured by native numbers, with Boolean tests over them and the predicates that they
-- decide.
use Prim.Native.Nat.{ℕ, suc, ◌+◌}
use mathlib.Core.Path.{◌≡◌, refl, sym, subst}
use mathlib.Core.Bool.{Bool, true, false, ◌&&◌, ◌||◌}
use mathlib.Core.List.{List, [], ◌∷◌, ◌++◌}
use mathlib.Core.Option.{Option, none, some}
use native.Mathlib.Omega.{arith}
use mathlib.Core.Logic.{◌⊎◌, inl, inr}
use pi_graph_loop.Prelude.Tests.{if◌then◌else◌, Bool-cases}

module _ {ℓ} {A : Type ℓ} where
  abbrev pub is_nil : List A → Bool
  is_nil [] = true
  is_nil (x ∷ xs) = false

  abbrev pub length : List A → ℕ
  length [] = 0
  length (x ∷ xs) = suc (length xs)

  -- `xs.some(p)`, `xs.every(p)`, `xs.filter(p)` and `xs.find(p)`.
  abbrev pub any : (A → Bool) → List A → Bool
  any p [] = false
  any p (x ∷ xs) = p x || any p xs

  abbrev pub all : (A → Bool) → List A → Bool
  all p [] = true
  all p (x ∷ xs) = p x && all p xs

  abbrev pub filter : (A → Bool) → List A → List A
  filter p [] = []
  filter p (x ∷ xs) = if p x then x ∷ filter p xs else filter p xs

  abbrev pub find : (A → Bool) → List A → Option A
  find p [] = none
  find p (x ∷ xs) = if p x then some x else find p xs

  -- Applies `f` to the element that `find p` returns, where it stands.
  abbrev pub modify_first : (A → Bool) → (A → A) → List A → List A
  modify_first p f [] = []
  modify_first p f (x ∷ xs) = if p x then f x ∷ xs else x ∷ modify_first p f xs

  -- `xs[xs.length - 1]`.
  abbrev pub get_last? : List A → Option A
  get_last? [] = none
  get_last? (x ∷ []) = some x
  get_last? (x ∷ y ∷ ys) = get_last? (y ∷ ys)

  pub length-append : (xs ys : List A) → length (xs ++ ys) ≡ length xs + length ys
  length-append [] ys = omega arith
  length-append (x ∷ xs) ys = omega (arith, length-append xs ys)

-- Membership as data, which can be matched.
pub data Member {ℓ} {A : Type ℓ} (a : A) : List A → Type ℓ where
  here : {x : A} {xs : List A} → a ≡ x → Member a (x ∷ xs)
  there : {x : A} {xs : List A} → Member a xs → Member a (x ∷ xs)

module _ {ℓ κ} {A : Type ℓ} (P : A → Type κ) where
  abbrev pub All : List A → Type κ
  All [] = Unit
  All (x ∷ xs) = P x × All xs

  pub All-append : (xs ys : List A) → All xs → All ys → All (xs ++ ys)
  All-append [] ys hx hy = hy
  All-append (x ∷ xs) ys hx hy = (hx.0, All-append xs ys hx.1 hy)

module _ {ℓ κ} {A : Type ℓ} (P : A → Type κ) where
  pub member_of_all : {y : A} (ys : List A) → All P ys → Member y ys → P y
  member_of_all [] h m = elim m [ ]
  member_of_all (x ∷ xs) h (here e) = subst P (sym e) h.0
  member_of_all (x ∷ xs) h (there m) = member_of_all xs h.1 m

  pub All-of_members : (ys : List A) → ((y : A) → Member y ys → P y) → All P ys
  All-of_members [] h = tt
  All-of_members (x ∷ xs) h = (h x (here refl), All-of_members xs (λ y m. h y (there m)))

module _ {ℓ} {A : Type ℓ} {a : A} where
  pub member-append_left : (xs ys : List A) → Member a xs → Member a (xs ++ ys)
  member-append_left [] ys m = elim m [ ]
  member-append_left (x ∷ xs) ys (here e) = here e
  member-append_left (x ∷ xs) ys (there m) = there (member-append_left xs ys m)

  pub member-append_right : (xs ys : List A) → Member a ys → Member a (xs ++ ys)
  member-append_right [] ys m = m
  member-append_right (x ∷ xs) ys m = there (member-append_right xs ys m)

  pub append-split : (xs ys : List A) → Member a (xs ++ ys) → Member a xs ⊎ Member a ys
  append-split [] ys m = inr m
  append-split (x ∷ xs) ys (here e) = inl (here e)
  append-split (x ∷ xs) ys (there m) = elim (append-split xs ys m) [
    | inl n ↦ inl (there n)
    | inr n ↦ inr n
  ]

module _ {ℓ} {A : Type ℓ} (p : A → Bool) {a : A} where
  pub filter_sound : (xs : List A) → Member a (filter p xs) → Member a xs × (p a ≡ true)
  filter_sound [] m = elim m [ ]
  filter_sound (x ∷ xs) m = elim (Bool-cases (p x)) [
    | inl e ↦
        elim (subst (λ (b : Bool). Member a (if b then x ∷ filter p xs else filter p xs)) e m) [
          | here q ↦ (here q, subst (λ y. p y ≡ true) (sym q) e)
          | there n ↦ let rest = filter_sound xs n in (there rest.0, rest.1)
        ]
    | inr e ↦
        let rest =
          filter_sound xs
            (subst (λ (b : Bool). Member a (if b then x ∷ filter p xs else filter p xs)) e m) in
        (there rest.0, rest.1)
  ]

  pub filter_complete : (xs : List A) → Member a xs → p a ≡ true → Member a (filter p xs)
  filter_complete [] m h = elim m [ ]
  filter_complete (x ∷ xs) (here q) h =
      subst (λ (b : Bool). Member a (if b then x ∷ filter p xs else filter p xs))
        (sym (subst (λ y. p y ≡ true) q h)) (here q)
  filter_complete (x ∷ xs) (there m) h = elim (Bool-cases (p x)) [
    | inl e ↦
        subst (λ (b : Bool). Member a (if b then x ∷ filter p xs else filter p xs)) (sym e)
          (there (filter_complete xs m h))
    | inr e ↦
        subst (λ (b : Bool). Member a (if b then x ∷ filter p xs else filter p xs)) (sym e)
          (filter_complete xs m h)
  ]

pub nonempty-Member {ℓ} : {A : Type ℓ} (xs : List A) → is_nil xs ≡ false → (x : A) × Member x xs
nonempty-Member [] h = cc h
nonempty-Member (x ∷ xs) h = (x, here refl)

module _ {ℓ} {A : Type ℓ} (p : A → Bool) where
  pub any_sound : (xs : List A) → any p xs ≡ true → (x : A) × Member x xs × (p x ≡ true)
  any_sound [] h = cc h
  any_sound (x ∷ xs) h = elim (Bool-cases (p x)) [
    | inl e ↦ (x, here refl, e)
    | inr e ↦ let (y, m, t) = any_sound xs (ground (arith, h, e)) in (y, there m, t)
  ]

  pub any_complete : (xs : List A) (x : A) → Member x xs → p x ≡ true → any p xs ≡ true
  any_complete [] x m h = elim m [ ]
  any_complete (y ∷ xs) x (here e) h =
      let t : p y ≡ true = subst (λ (z : A). p z ≡ true) e h in ground (arith, t)
  any_complete (y ∷ xs) x (there m) h = ground (arith, any_complete xs x m h)

  pub all_sound : (xs : List A) (x : A) → all p xs ≡ true → Member x xs → p x ≡ true
  all_sound [] x h m = elim m [ ]
  all_sound (y ∷ xs) x h (here e) =
      let t : p y ≡ true = ground (arith, h) in subst (λ (z : A). p z ≡ true) (sym e) t
  all_sound (y ∷ xs) x h (there m) = all_sound xs x (ground (arith, h)) m

  pub all_complete : (xs : List A) → ((x : A) → Member x xs → p x ≡ true) → all p xs ≡ true
  all_complete [] h = refl
  all_complete (x ∷ xs) h = ground (arith, h x (here refl), all_complete xs (λ y m. h y (there m)))

pub Member-not_nil {ℓ} : {A : Type ℓ} (xs : List A) {a : A} → Member a xs → is_nil xs ≡ false
Member-not_nil [] m = elim m [ ]
Member-not_nil (x ∷ xs) m = refl
