-- ===== src/Scope/Path/Literal.antt =====
-- scope.ts: when one of two patterns has no wildcard inside a segment, `segmentsOverlap` finds every
-- path that both match.
use pi_graph_loop.Prelude.{
  ℕ, zero, suc, ◌+◌, ◌≤◌, Bool, true, false, ◌≡◌, ◌⊎◌, inl, inr, refl, ◌∙◌, List, [], ◌∷◌, length,
  arith, ◌&&◌, Bool-cases, All,
}
use pi_graph_loop.Scope.Pattern.{Text, ScopeSegment, plain, intra}
use pi_graph_loop.Scope.Overlap.{is_stars, segment_overlap, any_suffix, segments_overlap}
use pi_graph_loop.Scope.Path.{
  Matches, done, skip, deeper, one, segment_matches, text_eq_refl, path_of_text_eq,
}
use pi_graph_loop.Scope.Path.Shared.{
  segments_overlap-stars_left, segments_overlap-stars_right, segments_overlap-plain,
  segments_overlap-end_left, segments_overlap-end_right,
}

-- No wildcard inside a segment: names and `**` only.
pub data IsPlain : ScopeSegment → Type 0 where
  is_plain : {w : Text} → IsPlain (plain w)

abbrev IsLiteral : List ScopeSegment → Type 0
IsLiteral = All IsPlain

abbrev pub Comparable : List ScopeSegment → List ScopeSegment → Type 0
Comparable a b = IsLiteral a ⊎ IsLiteral b

-- Of two segments one of which is plain, a text that both match shows the overlap.
segment_overlap_complete :
    (x y : ScopeSegment) (t : Text)
    → IsPlain x ⊎ IsPlain y
    → segment_matches x t ≡ true
    → segment_matches y t ≡ true
    → segment_overlap x y ≡ true
unfolding segment_overlap
segment_overlap_complete (plain xs) (plain ys) t c h k =
    rw (path_of_text_eq xs t h, path_of_text_eq ys t k) (text_eq_refl t)
segment_overlap_complete (plain xs) (intra ys) t c h k = rw (path_of_text_eq xs t h) k
segment_overlap_complete (intra xs) (plain ys) t c h k = rw (path_of_text_eq ys t k) h
segment_overlap_complete (intra xs) (intra ys) t (inl i) h k = elim i [ ]
segment_overlap_complete (intra xs) (intra ys) t (inr i) h k = elim i [ ]

-- `P` holds of the suffixes of what it holds of.
abbrev Tails : (List ScopeSegment → Type 0) → Type 0
Tails P = (s : ScopeSegment) (ss : List ScopeSegment) → P (s ∷ ss) → P ss

any_suffix-here :
    (f : List ScopeSegment → Bool) (ss : List ScopeSegment) → f ss ≡ true → any_suffix f ss ≡ true
unfolding any_suffix
any_suffix-here f [] h = h
any_suffix-here f (s ∷ ss) h = ground (arith, h)

any_suffix-there :
    (f : List ScopeSegment → Bool) (s : ScopeSegment) (ss : List ScopeSegment)
    → any_suffix f ss ≡ true
    → any_suffix f (s ∷ ss) ≡ true
unfolding any_suffix
any_suffix-there f s ss h = ground (arith, h)

-- What follows the path that `**` took is matched by a suffix of the other side.
module _ (x : ScopeSegment) (xs : List ScopeSegment) (f : List ScopeSegment → Bool)
    (P : List ScopeSegment → Type 0) (tails : Tails P)
    (complete : (b : List ScopeSegment) (p : List Text)
      → P b
      → Matches xs p
      → Matches b p
      → f b ≡ true) where
  any_suffix_complete :
      {b : List ScopeSegment} {p : List Text}
      → is_stars x ≡ true
      → Matches b p
      → P b
      → Matches (x ∷ xs) p
      → any_suffix f b ≡ true
  any_suffix_complete e done q (skip _ m) = any_suffix-here f _ (complete _ _ q m done)
  any_suffix_complete e (skip h k) q (skip _ m) = any_suffix-here f _ (complete _ _ q m (skip h k))
  any_suffix_complete e (skip h k) q (deeper g m) =
      any_suffix-there f _ _ (any_suffix_complete e k (tails _ _ q) (deeper g m))
  any_suffix_complete e (deeper h k) q (skip _ m) =
      any_suffix-here f _ (complete _ _ q m (deeper h k))
  any_suffix_complete e (deeper h k) q (deeper g m) = any_suffix_complete e k q m
  any_suffix_complete e (one h j k) q (skip _ m) =
      any_suffix-here f _ (complete _ _ q m (one h j k))
  any_suffix_complete e (one h j k) q (deeper g m) =
      any_suffix-there f _ _ (any_suffix_complete e k (tails _ _ q) m)
  any_suffix_complete e (skip h k) q (one g _ _) = cc (e, g)
  any_suffix_complete e (deeper h k) q (one g _ _) = cc (e, g)
  any_suffix_complete e (one h j k) q (one g _ _) = cc (e, g)

-- The suffixes that are short enough for the fuel, and comparable with what is left of the other.
abbrev Fits : ℕ → List ScopeSegment → List ScopeSegment → Type 0
Fits n a b = (length a + length b ≤ n) × Comparable a b

Fits-right : (n : ℕ) (a : List ScopeSegment) → Tails (Fits n a)
Fits-right n a s ss (le, inl l) = (omega (arith, le), inl l)
Fits-right n a s ss (le, inr r) = (omega (arith, le), inr r.1)

Fits-left : (n : ℕ) (b : List ScopeSegment) → Tails (λ a. Fits n a b)
Fits-left n b s ss (le, inl l) = (omega (arith, le), inl l.1)
Fits-left n b s ss (le, inr r) = (omega (arith, le), inr r)

Fits-drop_left :
    (n : ℕ) (x : ScopeSegment) (xs b : List ScopeSegment) → Fits (suc n) (x ∷ xs) b → Fits n xs b
Fits-drop_left n x xs b (le, inl l) = (omega (arith, le), inl l.1)
Fits-drop_left n x xs b (le, inr r) = (omega (arith, le), inr r)

Fits-drop_right :
    (n : ℕ) (y : ScopeSegment) (a ys : List ScopeSegment) → Fits (suc n) a (y ∷ ys) → Fits n a ys
Fits-drop_right n y a ys (le, inl l) = (omega (arith, le), inl l)
Fits-drop_right n y a ys (le, inr r) = (omega (arith, le), inr r.1)

heads-Comparable :
    (x y : ScopeSegment) (xs ys : List ScopeSegment)
    → Comparable (x ∷ xs) (y ∷ ys)
    → IsPlain x ⊎ IsPlain y
heads-Comparable x y xs ys (inl l) = inl l.0
heads-Comparable x y xs ys (inr r) = inr r.0

-- The branch for two segments of which none is `**`.
plain_complete :
    (n : ℕ) (x y : ScopeSegment) (xs ys : List ScopeSegment) (p : List Text)
    → is_stars x ≡ false
    → is_stars y ≡ false
    → IsPlain x ⊎ IsPlain y
    → Matches (x ∷ xs) p
    → Matches (y ∷ ys) p
    → ((q : List Text) → Matches xs q → Matches ys q → segments_overlap n xs ys ≡ true)
    → segments_overlap (suc n) (x ∷ xs) (y ∷ ys) ≡ true
plain_complete n x y xs ys p e f c (skip g _) k ih = cc (e, g)
plain_complete n x y xs ys p e f c (deeper g _) k ih = cc (e, g)
plain_complete n x y xs ys p e f c (one _ h m) (skip g _) ih = cc (f, g)
plain_complete n x y xs ys p e f c (one _ h m) (deeper g _) ih = cc (f, g)
plain_complete n x y xs ys p e f c (one _ h m) (one _ j k) ih =
    segments_overlap-plain n x y xs ys e f ∙ both (segment_overlap_complete x y _ c h j) (ih _ m k)
  where
    both : {a b : Bool} → a ≡ true → b ≡ true → (a && b) ≡ true
    both h k = ground (arith, h, k)

-- With fuel for all segments, a path that both patterns match makes `segmentsOverlap` return true
-- if one of the patterns has no wildcard inside a segment.
pub segments_overlap_complete :
    (n : ℕ) (a b : List ScopeSegment) (p : List Text)
    → Fits n a b
    → Matches a p
    → Matches b p
    → segments_overlap n a b ≡ true
segments_overlap_complete zero [] [] p fits m k = unfold segments_overlap in refl
segments_overlap_complete (suc n) [] [] p fits m k = unfold segments_overlap in refl
segments_overlap_complete zero [] (y ∷ ys) p fits m k = absurd (omega (arith, fits.0))
segments_overlap_complete zero (x ∷ xs) b p fits m k = absurd (omega (arith, fits.0))
segments_overlap_complete (suc n) [] (y ∷ ys) p fits done (skip h k) =
    segments_overlap-end_left n y ys
    ∙ ground
        (arith, h, segments_overlap_complete n [] ys [] (Fits-drop_right n y [] ys fits) done k)
segments_overlap_complete (suc n) (x ∷ xs) [] p fits (skip h m) done =
    segments_overlap-end_right n x xs
    ∙ ground (arith, h, segments_overlap_complete n xs [] [] (Fits-drop_left n x xs [] fits) m done)
segments_overlap_complete (suc n) (x ∷ xs) [] p fits (deeper _ _) k = elim k [ ]
segments_overlap_complete (suc n) (x ∷ xs) [] p fits (one _ _ _) k = elim k [ ]
segments_overlap_complete (suc n) (x ∷ xs) (y ∷ ys) p fits m k = elim (Bool-cases (is_stars x)) [
  | inl e ↦
      segments_overlap-stars_left n x y xs ys e
      ∙ any_suffix_complete x xs (segments_overlap n xs) (Fits n xs) (Fits-right n xs)
          (segments_overlap_complete n xs) e k (Fits-drop_left n x xs (y ∷ ys) fits) m
  | inr e ↦ elim (Bool-cases (is_stars y)) [
    | inl f ↦
        segments_overlap-stars_right n x y xs ys e f
        ∙ any_suffix_complete y ys (λ a. segments_overlap n a ys) (λ a. Fits n a ys)
            (Fits-left n ys) (λ a q g l r. segments_overlap_complete n a ys q g r l) f m
            (Fits-drop_right n y (x ∷ xs) ys fits) k
    | inr f ↦ plain_complete n x y xs ys p e f (heads-Comparable x y xs ys fits.1) m k (λ q l r.
        segments_overlap_complete n xs ys q
          (Fits-left n ys x xs (Fits-drop_right n y (x ∷ xs) ys fits)) l r)
  ]
]
