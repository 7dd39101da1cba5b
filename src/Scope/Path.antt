-- ===== src/Scope/Path.antt =====
-- What a scope pattern of scope.ts means: the paths that it matches, a path being its segments.
pub mod Shared
pub mod Literal
pub mod Scopes
use pi_graph_loop.Prelude.{
  ℕ, Bool, true, false, ◌≡◌, refl, List, [], ◌∷◌, All, nat_eq, arith, ◌&&◌, &&-split,
}
use pi_graph_loop.Scope.Pattern.{Text, ScopeSegment, plain, intra, text_eq}
use pi_graph_loop.Scope.Overlap.{star, match_code, intra_regex, is_stars}

-- Does a segment other than `**` match one segment of a path?
abbrev pub segment_matches : ScopeSegment → Text → Bool
segment_matches (plain w) t = text_eq w t
segment_matches (intra w) t = intra_regex w t

-- `**` matches any number of segments.
pub data Matches : List ScopeSegment → List Text → Type 0 where
  done : Matches [] []
  skip :
      {x : ScopeSegment} {xs : List ScopeSegment} {p : List Text}
      → is_stars x ≡ true
      → Matches xs p
      → Matches (x ∷ xs) p
  deeper :
      {x : ScopeSegment} {xs : List ScopeSegment} {t : Text} {p : List Text}
      → is_stars x ≡ true
      → Matches (x ∷ xs) p
      → Matches (x ∷ xs) (t ∷ p)
  one :
      {x : ScopeSegment} {xs : List ScopeSegment} {t : Text} {p : List Text}
      → is_stars x ≡ false
      → segment_matches x t ≡ true
      → Matches xs p
      → Matches (x ∷ xs) (t ∷ p)

-- A path that both patterns match.
abbrev pub Shared : List ScopeSegment → List ScopeSegment → Type 0
Shared a b = (p : List Text) × Matches a p × Matches b p

pub text_eq_refl : (t : Text) → text_eq t t ≡ true
unfolding text_eq
text_eq_refl [] = refl
text_eq_refl (c ∷ t) = ground (arith, text_eq_refl t)

pub path_of_text_eq : (s t : Text) → text_eq s t ≡ true → s ≡ t
unfolding text_eq
path_of_text_eq [] [] h = refl
path_of_text_eq [] (d ∷ t) h = cc h
path_of_text_eq (c ∷ s) [] h = cc h
path_of_text_eq (c ∷ s) (d ∷ t) h =
    let (e, f) = &&-split (nat_eq c d) (text_eq s t) h in
    cons_cong (ground (arith, e)) (path_of_text_eq s t f)
  where
    cons_cong : c ≡ d → s ≡ t → (c ∷ s) ≡ (d ∷ t)
    cons_cong e f = cc (e, f)

star_self :
    (rest : Text → Bool) (c : ℕ) (t : Text)
    → nat_eq c b'*' ≡ true
    → rest t ≡ true
    → star rest (c ∷ t) ≡ true
unfolding star
star_self rest c [] e h = ground arith
star_self rest c (d ∷ t) e h = ground arith

-- A wildcard segment matches its own text.
pub intra_regex_self : (w : Text) → intra_regex w w ≡ true
unfolding intra_regex match_code
intra_regex_self [] = refl
intra_regex_self (c ∷ w) = at (intra_regex_self w) (nat_eq c b'*') refl
  where
    at :
        intra_regex w w ≡ true
        → (wild : Bool) → nat_eq c b'*' ≡ wild
        → match_code wild c (intra_regex w) (c ∷ w) ≡ true
    at h true e = star_self (intra_regex w) c w e h
    at h false e = ground (arith, h)

-- A text that a segment other than `**` matches: its own.
pub segment_matches_self : (x : ScopeSegment) → (t : Text) × (segment_matches x t ≡ true)
segment_matches_self (plain w) = (w, text_eq_refl w)
segment_matches_self (intra w) = (w, intra_regex_self w)
