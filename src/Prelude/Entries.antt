-- ===== src/Prelude/Entries.antt =====
-- Association lists without repeated keys: their values are what `lookup` finds.
use Prim.Native.String.{String}
use mathlib.Core.Path.{◌≡◌, refl, sym, ap, ◌∙◌}
use mathlib.Core.Logic.{inl, inr}
use mathlib.Core.Bool.{Bool, true, false, ◌||◌}
use mathlib.Core.Option.{some}
use mathlib.Core.List.{[], ◌∷◌}
use text.Mathlib.Text.{◌==◌}
use text.Mathlib.TextEquality.{eq_iff}
use native.Mathlib.Omega.{arith}
use pi_graph_loop.Prelude.Tests.{if◌then◌else◌, Bool-cases, if_ind, none_is_some, some_inj}
use pi_graph_loop.Prelude.Lists.{Member, here, there, All}
use pi_graph_loop.Prelude.Texts.{includes, IsDistinct, ==-refl}
use pi_graph_loop.Prelude.Records.{Record, lookup, put, keys, values}
use pi_graph_loop.Prelude.Unseen.{includes-keys}

clash : false ≡ true → ⊥
clash h = cc h

module _ {ℓ} {V : Type ℓ} where
  pub includes-keys-put :
      (k j : String) (v : V) (r : Record V)
      → includes (keys (put k v r)) j ≡ (k == j || includes (keys r) j)
  unfolding includes keys put
  includes-keys-put k j v [] = refl
  includes-keys-put k j v ((i, w) ∷ r) =
      ground (arith, eq_iff i k, eq_iff k j, eq_iff i j, includes-keys-put k j v r)

  pub put-IsDistinct :
      (k : String) (v : V) (r : Record V) → IsDistinct (keys r) → IsDistinct (keys (put k v r))
  unfolding includes keys put
  put-IsDistinct k v [] h = (refl, tt)
  put-IsDistinct k v ((i, w) ∷ r) h =
      if_ind (λ (q : Record V). IsDistinct (keys q)) (i == k) (λ same. h)
        (λ other. (
          ground (arith, other, h.0, includes-keys-put k i v r, eq_iff i k, eq_iff k i),
          put-IsDistinct k v r h.1,
        ))

  pub member-values_of_lookup :
      (k : String) (v : V) (r : Record V) → lookup k r ≡ some v → Member v (values r)
  unfolding lookup values
  member-values_of_lookup k v [] h = elim (none_is_some h) [ ]
  member-values_of_lookup k v ((i, w) ∷ r) h = elim (Bool-cases (i == k)) [
    | inl e ↦ here (some_inj (sym h ∙ ap (λ (b : Bool). if b then some w else lookup k r) e))
    | inr e ↦ there (
        member-values_of_lookup k v r
          (sym (ap (λ (b : Bool). if b then some w else lookup k r) e) ∙ h))
  ]

  pub lookup_of_member-values :
      (v : V) (r : Record V)
      → IsDistinct (keys r)
      → Member v (values r)
      → (k : String) × (lookup k r ≡ some v)
  unfolding lookup values keys
  lookup_of_member-values v [] h m = elim m [ ]
  lookup_of_member-values v ((i, w) ∷ r) h (here e) =
      (i, ap (λ (b : Bool). if b then some w else lookup i r) (==-refl i) ∙ ap some (sym e))
  lookup_of_member-values v ((i, w) ∷ r) h (there m) =
      let (k, f) = lookup_of_member-values v r h.1 m in
      elim (Bool-cases (i == k)) [
        | inl e ↦
            elim (clash
              (sym h.0 ∙ ap (includes (keys r)) ((eq_iff i k).0 e) ∙ includes-keys k v r f)) [ ]
        | inr e ↦ (k, ap (λ (b : Bool). if b then some w else lookup k r) e ∙ f)
      ]

  stored_later :
      (k : String) (v : V) (r : Record V) (es : Record V)
      → includes (keys es) k ≡ false
      → All (λ (e : String × V). lookup e.0 r ≡ some e.1) es
      → All (λ (e : String × V). lookup e.0 ((k, v) ∷ r) ≡ some e.1) es
  unfolding includes keys lookup
  stored_later k v r [] h a = tt
  stored_later k v r ((j, w) ∷ es) h (found, a) = (
    ground (arith, h, found, eq_iff j k, eq_iff k j),
    stored_later k v r es (ground (arith, h)) a,
  )

  -- Where no key stands twice, each entry is the one that `lookup` finds.
  pub All-stored :
      (r : Record V) → IsDistinct (keys r) → All (λ (e : String × V). lookup e.0 r ≡ some e.1) r
  unfolding keys lookup
  All-stored [] h = tt
  All-stored ((k, v) ∷ r) h = (
    ap (λ (b : Bool). if b then some v else lookup k r) (==-refl k),
    stored_later k v r r h.0 (All-stored r h.1),
  )
