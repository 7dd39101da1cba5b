-- ===== src/Surface/Coalesce/Dropped.antt =====
-- surface/coalesce.ts: the ids that are dropped, and the messages that the map holds.
use mathlib.Core.List.{reverse, reverse-cons}
use pi_graph_loop.Prelude.{
  append-split, String, true, ◌≡◌, refl, sym, ◌∙◌, ap, subst, List, [], ◌∷◌, Member, here, there,
  member-append_left, member-append_right, foldl, includes, set_add, includes-set_add, ||-split,
  ◌==◌, arith, inl, inr,
}
use pi_graph_loop.Types.{SwarmMessage}
use pi_graph_loop.Surface.Coalesce.{CoalescedEntry, consume_dropped, messages_of}

module _ {A : Type 0} {a : A} where
  pub member-reverse : (xs : List A) → Member a xs → Member a (reverse xs)
  member-reverse [] m = elim m [ ]
  member-reverse (x ∷ xs) m = subst (Member a) (sym (reverse-cons x xs)) (elim m [
    | here e ↦ member-append_right (reverse xs) (x ∷ []) (here e)
    | there n ↦ member-append_left (reverse xs) (x ∷ []) (member-reverse xs n)
  ])

  pub member_of_reverse : (xs : List A) → Member a (reverse xs) → Member a xs
  member_of_reverse [] m = m
  member_of_reverse (x ∷ xs) m =
      elim (append-split (reverse xs) (x ∷ []) (subst (Member a) (reverse-cons x xs) m)) [
        | inl n ↦ there (member_of_reverse xs n)
        | inr n ↦ elim n [ here e ↦ here e | there k ↦ elim k [ ] ]
      ]

pub foldl-set_add_keeps :
    (xs s : List String) (k : String) → includes s k ≡ true → includes (foldl set_add s xs) k ≡ true
foldl-set_add_keeps [] s k h = h
foldl-set_add_keeps (x ∷ xs) s k h =
    foldl-set_add_keeps xs (set_add s x) k (includes-set_add s x k ∙ ground (arith, h))

pub foldl-set_add_adds :
    (xs s : List String) (k : String)
    → includes xs k ≡ true
    → includes (foldl set_add s xs) k ≡ true
unfolding includes
foldl-set_add_adds [] s k h = cc h
foldl-set_add_adds (x ∷ xs) s k h = elim (||-split (x == k) (includes xs k) h) [
  | inl e ↦ foldl-set_add_keeps xs (set_add s x) k (includes-set_add s x k ∙ ground (arith, e))
  | inr e ↦ foldl-set_add_adds xs (set_add s x) k e
]

pub consume_dropped-keeps :
    (es : List CoalescedEntry) (s : List String) (k : String)
    → includes s k ≡ true
    → includes (consume_dropped es s) k ≡ true
unfolding consume_dropped
consume_dropped-keeps [] s k h = h
consume_dropped-keeps (e ∷ es) s k h =
    consume_dropped-keeps es (foldl set_add s e.dropped) k (foldl-set_add_keeps e.dropped s k h)

pub consume_dropped-adds :
    (es : List CoalescedEntry) (s : List String) (k : String) (e : CoalescedEntry)
    → Member e es
    → includes e.dropped k ≡ true
    → includes (consume_dropped es s) k ≡ true
unfolding consume_dropped
consume_dropped-adds [] s k e m h = elim m [ ]
consume_dropped-adds (x ∷ es) s k e (here q) h =
    consume_dropped-keeps es (foldl set_add s x.dropped) k (
      foldl-set_add_adds x.dropped s k
        (subst (λ (y : CoalescedEntry). includes y.dropped k ≡ true) q h))
consume_dropped-adds (x ∷ es) s k e (there m) h =
    consume_dropped-adds es (foldl set_add s x.dropped) k e m h

pub messages_sound :
    (m : SwarmMessage) (es : List CoalescedEntry)
    → Member m (messages_of es)
    → (e : CoalescedEntry) × Member e es × (e.msg ≡ m)
messages_sound m [] k = elim k [ ]
messages_sound m (e ∷ es) (here q) = (e, here refl, sym q)
messages_sound m (e ∷ es) (there k) = let (x, l, q) = messages_sound m es k in (x, there l, q)

pub messages_complete :
    (e : CoalescedEntry) (es : List CoalescedEntry) → Member e es → Member e.msg (messages_of es)
messages_complete e [] k = elim k [ ]
messages_complete e (x ∷ es) (here q) = here (ap (λ (y : CoalescedEntry). y.msg) q)
messages_complete e (x ∷ es) (there k) = there (messages_complete e es k)
