-- ===== src/Scope/Overlap.antt =====
-- scope.ts: do two patterns, and two scopes, have a path in common?
use pi_graph_loop.Prelude.{
  ℕ, zero, suc, ◌+◌, String, Bool, true, false, not, ◌&&◌, ◌||◌, Option, none, some, List, [], ◌∷◌,
  nat_eq, length, ◌==◌, if◌then◌else◌,
}
use pi_graph_loop.Scope.Resolve.{EffectiveScope, resolved, unresolved}
use pi_graph_loop.Scope.Pattern.{
  Text, ScopeSegment, plain, intra, text_eq, stars, normalize_scope_pattern,
}

-- What `.` does not match.
abbrev is_line_end : ℕ → Bool
is_line_end c = nat_eq c 10 || nat_eq c 13 || nat_eq c 0x2028 || nat_eq c 0x2029

-- `.*` followed by what `rest` matches.
unfoldable pub star : (Text → Bool) → Text → Bool
star rest [] = rest []
star rest (c ∷ t) = rest (c ∷ t) || not (is_line_end c) && star rest t

-- One code point `p` of a segment, which `wild` tells to be a star, followed by what `rest` matches.
unfoldable pub match_code : (wild : Bool) → ℕ → (Text → Bool) → Text → Bool
match_code true p rest t = star rest t
match_code false p rest [] = false
match_code false p rest (c ∷ t) = nat_eq p c && rest t

-- `intraRegex(seg).test(text)`: the regex is the segment with `.*` for each star.
unfoldable pub intra_regex : Text → Text → Bool
intra_regex [] [] = true
intra_regex [] (c ∷ t) = false
intra_regex (p ∷ seg) t = match_code (nat_eq p b'*') p (intra_regex seg) t

-- `x === "**"`.
unfoldable pub is_stars : ScopeSegment → Bool
is_stars (plain w) = text_eq w stars
is_stars (intra w) = false

-- The tests for two segments of which none is `**`.
unfoldable pub segment_overlap : ScopeSegment → ScopeSegment → Bool
segment_overlap (intra xs) (intra ys) = intra_regex xs ys || intra_regex ys xs
segment_overlap (intra xs) (plain ys) = intra_regex xs ys
segment_overlap (plain xs) (intra ys) = intra_regex ys xs
segment_overlap (plain xs) (plain ys) = text_eq xs ys

-- The loop `for (let k = oi; k <= other.length; k++)`, over the suffixes that are left.
unfoldable pub any_suffix : (List ScopeSegment → Bool) → List ScopeSegment → Bool
any_suffix f [] = f []
any_suffix f (s ∷ ss) = f (s ∷ ss) || any_suffix f ss

-- `segmentsOverlap` on the suffixes from `i` and `j`. No branch of it returns "unknown". Each call
-- drops a segment of one side, so the number of segments is enough fuel.
unfoldable pub segments_overlap : ℕ → List ScopeSegment → List ScopeSegment → Bool
segments_overlap zero a b = elim a [ [] ↦ elim b [ [] ↦ true | y ∷ bs ↦ false ] | x ∷ as' ↦ false ]
segments_overlap (suc fuel) [] [] = true
segments_overlap (suc fuel) [] (y ∷ bs) = elim (is_stars y) [
  | true ↦ segments_overlap fuel [] bs
  | false ↦ false
]
segments_overlap (suc fuel) (x ∷ xs) [] = elim (is_stars x) [
  | true ↦ segments_overlap fuel xs []
  | false ↦ false
]
segments_overlap (suc fuel) (x ∷ xs) (y ∷ ys) = elim (is_stars x) [
  | true ↦ any_suffix (segments_overlap fuel xs) (y ∷ ys)
  | false ↦ elim (is_stars y) [
    | true ↦ any_suffix (λ a. segments_overlap fuel a ys) (x ∷ xs)
    | false ↦ elim (segment_overlap x y) [ true ↦ segments_overlap fuel xs ys | false ↦ false ]
  ]
]

-- A result `boolean | "unknown"`.
pub data Answer : Type 0 where
  overlapping disjoint unknown : Answer

abbrev pub answer : Bool → Answer
answer true = overlapping
answer false = disjoint

abbrev pub overlap_of : Option (List ScopeSegment) → Option (List ScopeSegment) → Answer
overlap_of none nb = unknown
overlap_of (some a) none = unknown
overlap_of (some a) (some b) = answer (segments_overlap (length a + length b) a b)

unfoldable pub scope_patterns_overlap : String → String → Answer
scope_patterns_overlap a b = overlap_of (normalize_scope_pattern a) (normalize_scope_pattern b)

pub data ScopeRelation : Type 0 where
  equal glob_match unknown_syntax unresolved_inheritance : ScopeRelation
  no_overlap : ScopeRelation

-- The inner loop: the relation that it returns with, or `none` when it ends.
unfoldable pub file_overlap : String → List String → Option ScopeRelation
file_overlap fa [] = none
file_overlap fa (fb ∷ files) = elim (scope_patterns_overlap fa fb) [
  | overlapping ↦ some (if fa == fb then equal else glob_match)
  | unknown ↦ some unknown_syntax
  | disjoint ↦ file_overlap fa files
]

unfoldable pub files_overlap : List String → List String → ScopeRelation
files_overlap [] b = no_overlap
files_overlap (fa ∷ files) b = elim (file_overlap fa b) [
  | some r ↦ r
  | none ↦ files_overlap files b
]

unfoldable pub scopes_overlap : EffectiveScope → EffectiveScope → ScopeRelation
scopes_overlap (unresolved _) b = unresolved_inheritance
scopes_overlap (resolved a) (unresolved _) = unresolved_inheritance
scopes_overlap (resolved a) (resolved b) = files_overlap a.files b.files
