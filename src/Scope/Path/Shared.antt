-- ===== src/Scope/Path/Shared.antt =====
-- scope.ts: when `segmentsOverlap` returns true, some path is matched by both patterns.
use pi_graph_loop.Prelude.{
  ℕ, zero, suc, Bool, true, false, ◌≡◌, refl, sym, ◌∙◌, List, [], ◌∷◌, arith, ||-split, &&-split,
  ◌&&◌, Bool-cases, inl, inr,
}
use pi_graph_loop.Scope.Pattern.{Text, ScopeSegment, plain, intra}
use pi_graph_loop.Scope.Overlap.{
  is_stars, segment_overlap, any_suffix, segments_overlap, intra_regex,
}
use pi_graph_loop.Scope.Path.{
  done, skip, deeper, one, Shared, segment_matches, segment_matches_self, text_eq_refl,
  path_of_text_eq, intra_regex_self,
}

-- Two segments that overlap match a text.
segment_overlap_sound :
    (x y : ScopeSegment)
    → segment_overlap x y ≡ true
    → (t : Text) × (segment_matches x t ≡ true) × (segment_matches y t ≡ true)
unfolding segment_overlap
segment_overlap_sound (intra xs) (intra ys) h =
    elim (||-split (intra_regex xs ys) (intra_regex ys xs) h) [
      | inl l ↦ (ys, l, intra_regex_self ys)
      | inr r ↦ (xs, intra_regex_self xs, r)
    ]
segment_overlap_sound (intra xs) (plain ys) h = (ys, h, text_eq_refl ys)
segment_overlap_sound (plain xs) (intra ys) h = (xs, text_eq_refl xs, h)
segment_overlap_sound (plain xs) (plain ys) h =
    (xs, text_eq_refl xs, rw (path_of_text_eq xs ys h) (text_eq_refl ys))

swap : {a b : List ScopeSegment} → Shared a b → Shared b a
swap (p, l, r) = (p, r, l)

-- A path of the rest, with a segment that `s` matches in front, which `**` on the other side takes.
absorb :
    (x s : ScopeSegment) (xs ss : List ScopeSegment)
    → is_stars x ≡ true
    → Shared (x ∷ xs) ss
    → Shared (x ∷ xs) (s ∷ ss)
absorb x s xs ss e (p, l, r) = at (is_stars s) refl
  where
    at : (b : Bool) → is_stars s ≡ b → Shared (x ∷ xs) (s ∷ ss)
    at true f = (p, l, skip f r)
    at false f = let (t, m) = segment_matches_self s in (t ∷ p, deeper e l, one f m r)

-- Where a suffix shares a path with `xs`, the whole shares one with `** ∷ xs`.
any_suffix-Shared :
    (x : ScopeSegment) (xs : List ScopeSegment) (f : List ScopeSegment → Bool)
    → is_stars x ≡ true
    → ((ss : List ScopeSegment) → f ss ≡ true → Shared xs ss)
    → (ss : List ScopeSegment) → any_suffix f ss ≡ true
    → Shared (x ∷ xs) ss
unfolding any_suffix
any_suffix-Shared x xs f e sound [] h = let (p, l, r) = sound [] h in (p, skip e l, r)
any_suffix-Shared x xs f e sound (s ∷ ss) h = elim (||-split (f (s ∷ ss)) (any_suffix f ss) h) [
  | inl now ↦ let (p, l, r) = sound (s ∷ ss) now in (p, skip e l, r)
  | inr later ↦ absorb x s xs ss e (any_suffix-Shared x xs f e sound ss later)
]

-- The branches of `segmentsOverlap` where both sides have a segment.
module _ (n : ℕ) (x y : ScopeSegment) (xs ys : List ScopeSegment) where
  pub segments_overlap-stars_left :
      is_stars x ≡ true
      → segments_overlap (suc n) (x ∷ xs) (y ∷ ys) ≡ any_suffix (segments_overlap n xs) (y ∷ ys)
  unfolding segments_overlap
  segments_overlap-stars_left e = rw (e, segments_overlap)

  pub segments_overlap-stars_right :
      is_stars x ≡ false
      → is_stars y ≡ true
      → segments_overlap (suc n) (x ∷ xs) (y ∷ ys)
        ≡ any_suffix (λ (a : List ScopeSegment). segments_overlap n a ys) (x ∷ xs)
  unfolding segments_overlap
  segments_overlap-stars_right e f = rw (e, segments_overlap) (rw (f, segments_overlap))

  pub segments_overlap-plain :
      is_stars x ≡ false
      → is_stars y ≡ false
      → segments_overlap (suc n) (x ∷ xs) (y ∷ ys)
        ≡ (segment_overlap x y && segments_overlap n xs ys)
  unfolding segments_overlap
  segments_overlap-plain e f = ground (arith, e, f)

pub segments_overlap-end_left :
    (n : ℕ) (y : ScopeSegment) (ys : List ScopeSegment)
    → segments_overlap (suc n) [] (y ∷ ys) ≡ (is_stars y && segments_overlap n [] ys)
unfolding segments_overlap
segments_overlap-end_left n y ys = ground arith

pub segments_overlap-end_right :
    (n : ℕ) (x : ScopeSegment) (xs : List ScopeSegment)
    → segments_overlap (suc n) (x ∷ xs) [] ≡ (is_stars x && segments_overlap n xs [])
unfolding segments_overlap
segments_overlap-end_right n x xs = ground arith

out_of_fuel :
    (x : ScopeSegment) (xs b : List ScopeSegment) → segments_overlap zero (x ∷ xs) b ≡ false
unfolding segments_overlap
out_of_fuel x xs b = refl

out_of_fuel_left :
    (y : ScopeSegment) (bs : List ScopeSegment) → segments_overlap zero [] (y ∷ bs) ≡ false
unfolding segments_overlap
out_of_fuel_left y bs = refl

-- The last of the three branches.
plain_step :
    (n : ℕ) (x y : ScopeSegment) (xs ys : List ScopeSegment)
    → is_stars x ≡ false
    → is_stars y ≡ false
    → (segment_overlap x y && segments_overlap n xs ys) ≡ true
    → (segments_overlap n xs ys ≡ true → Shared xs ys)
    → Shared (x ∷ xs) (y ∷ ys)
plain_step n x y xs ys e f h sound =
    let (now, later) = &&-split (segment_overlap x y) (segments_overlap n xs ys) h in
    let (t, m, k) = segment_overlap_sound x y now in
    let (p, l, r) = sound later in (t ∷ p, one e m l, one f k r)

-- When `segmentsOverlap` returns true, there is a path that both patterns match.
pub segments_overlap-Shared :
    (n : ℕ) (a b : List ScopeSegment) → segments_overlap n a b ≡ true → Shared a b
segments_overlap-Shared zero [] [] h = ([], done, done)
segments_overlap-Shared zero [] (y ∷ bs) h = cc (sym (out_of_fuel_left y bs) ∙ h)
segments_overlap-Shared zero (x ∷ xs) b h = cc (sym (out_of_fuel x xs b) ∙ h)
segments_overlap-Shared (suc n) [] [] h = ([], done, done)
segments_overlap-Shared (suc n) [] (y ∷ ys) h =
    let (e, rest) =
      &&-split (is_stars y) (segments_overlap n [] ys)
        (sym (segments_overlap-end_left n y ys) ∙ h) in
    let (p, l, r) = segments_overlap-Shared n [] ys rest in (p, l, skip e r)
segments_overlap-Shared (suc n) (x ∷ xs) [] h =
    let (e, rest) =
      &&-split (is_stars x) (segments_overlap n xs [])
        (sym (segments_overlap-end_right n x xs) ∙ h) in
    let (p, l, r) = segments_overlap-Shared n xs [] rest in (p, skip e l, r)
segments_overlap-Shared (suc n) (x ∷ xs) (y ∷ ys) h = elim (Bool-cases (is_stars x)) [
  | inl e ↦
      any_suffix-Shared x xs (segments_overlap n xs) e (segments_overlap-Shared n xs) (y ∷ ys)
        (sym (segments_overlap-stars_left n x y xs ys e) ∙ h)
  | inr e ↦ elim (Bool-cases (is_stars y)) [
    | inl f ↦ swap (
        any_suffix-Shared y ys (λ a. segments_overlap n a ys) f
          (λ a k. swap (segments_overlap-Shared n a ys k)) (x ∷ xs)
          (sym (segments_overlap-stars_right n x y xs ys e f) ∙ h))
    | inr f ↦
        plain_step n x y xs ys e f (sym (segments_overlap-plain n x y xs ys e f) ∙ h)
          (segments_overlap-Shared n xs ys)
  ]
]
