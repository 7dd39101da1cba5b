-- ===== src/Pool/Probe/Offsets.antt =====
-- pool.ts: the indices that the loop of `advanceProbeRound` visits.
use pi_graph_loop.Prelude.{
  none_is_some, some_inj, ℕ, zero, suc, ◌+◌, ◌-◌, ◌<◌, String, true, false, ◌≡◌, sym, ◌∙◌, ap,
  subst, some, List, [], ◌∷◌, Member, here, there, length, leb, includes, ◌==◌, eq_iff, ==-refl,
  arith, Bool-cases, inl, inr,
}
use Prim.Native.Nat.{◌%◌, min}
use native.Mathlib.Nat.{mod-eq_of_lt, add-mod_right}
use pi_graph_loop.Types.{ModelSlot}
use pi_graph_loop.Pool.{slot_key}
use pi_graph_loop.Pool.Pick.{get_elem?}
use pi_graph_loop.Pool.Probe.{find_index}

pub other_key : (s : ModelSlot) → (slot_key s == slot_key s) ≡ false → ⊥
other_key s h = cc (h, ==-refl (slot_key s))

-- The first slot with the key of a slot of the list.
pub first_lem :
    (slots : List ModelSlot) (s : ModelSlot)
    → Member s slots
    → (r : ModelSlot) × (get_elem? slots (find_index (slot_key s) slots) ≡ some r)
      × (slot_key r ≡ slot_key s)
      × (find_index (slot_key s) slots < length slots)
unfolding find_index
first_lem [] s m = elim m [ ]
first_lem (t ∷ slots) s m = elim (Bool-cases (slot_key t == slot_key s)) [
  | inl e ↦ (t, ground (arith, e), (eq_iff (slot_key t) (slot_key s)).0 e, ground (arith, e))
  | inr e ↦ elim m [
    | here q ↦
        elim (other_key s
          (subst (λ (z : ModelSlot). (slot_key z == slot_key s) ≡ false) (sym q) e)) [ ]
    | there n ↦
        let (r, f, k, l) = first_lem slots s n in (r, ground (arith, e, f), k, ground (arith, e, l))
  ]
]

-- From any start, some offset reaches an index.
pub offset_lem : (n start i : ℕ) → start < n → i < n → (o : ℕ) × (o < n) × ((start + o) % n ≡ i)
offset_lem n start i s h = elim (Bool-cases (leb start i)) [
  | inl after ↦ (
    i - start,
    ground (arith, after, h),
    ap (λ k. k % n) (ground (arith, after)) ∙ mod-eq_of_lt h,
  )
  | inr before ↦ (
    i + n - start,
    ground (arith, before, h, s),
    ap (λ k. k % n) (ground (arith, before, s)) ∙ add-mod_right i n ∙ mod-eq_of_lt h,
  )
]

-- The keys of slots, in the order of the list.
abbrev pub keys_of : List ModelSlot → List String
keys_of [] = []
keys_of (s ∷ slots) = slot_key s ∷ keys_of slots

pub keys_of-includes :
    (slots : List ModelSlot) (s : ModelSlot)
    → Member s slots
    → includes (keys_of slots) (slot_key s) ≡ true
unfolding includes
keys_of-includes [] s m = elim m [ ]
keys_of-includes (t ∷ slots) s (here e) =
    ground (arith, ap slot_key e, eq_iff (slot_key t) (slot_key s))
keys_of-includes (t ∷ slots) s (there m) = ground (arith, keys_of-includes slots s m)

pub get_elem?-of :
    {A : Type 0} (xs : List A) (n : ℕ) (a : A) → get_elem? xs n ≡ some a → Member a xs
get_elem?-of [] n a h = elim (none_is_some h) [ ]
get_elem?-of (x ∷ xs) zero a h = here (sym (some_inj h))
get_elem?-of (x ∷ xs) (suc n) a h = there (get_elem?-of xs n a h)

pub start_lem :
    (slots : List ModelSlot) (s : ModelSlot) (cursor : ℕ)
    → Member s slots
    → min cursor (length slots - 1) < length slots
start_lem [] s cursor m = elim m [ ]
start_lem (t ∷ slots) s cursor m = omega arith
