-- ===== src/Scope/Pattern.antt =====
-- scope.ts: the grammar of scope patterns. A text is the list of its code points.
use pi_graph_loop.Prelude.{
  is_nil, ℕ, String, Bool, true, false, not, ◌&&◌, ◌||◌, Option, none, some, List, [], ◌∷◌, ◌++◌,
  any, all, codes, nat_eq, leb, if◌then◌else◌,
}

abbrev pub Text : Type 0
Text = List ℕ

pub data ScopeSegment : Type 0 where
  plain intra : Text → ScopeSegment

-- `===` between texts.
unfoldable pub text_eq : Text → Text → Bool
text_eq [] [] = true
text_eq (a ∷ s) (b ∷ t) = nat_eq a b && text_eq s t
text_eq _ _ = false

unfoldable has_code : ℕ → Text → Bool
has_code c [] = false
has_code c (a ∷ s) = nat_eq a c || has_code c s

-- `s.includes("..")`.
unfoldable has_dot_dot : Text → Bool
has_dot_dot [] = false
has_dot_dot (a ∷ []) = false
has_dot_dot (a ∷ b ∷ s) = nat_eq a b'.' && nat_eq b b'.' || has_dot_dot (b ∷ s)

abbrev starts_with_slash : Text → Bool
starts_with_slash [] = false
starts_with_slash (a ∷ s) = nat_eq a b'/'

unfoldable ends_with_slash : Text → Bool
ends_with_slash [] = false
ends_with_slash (a ∷ []) = nat_eq a b'/'
ends_with_slash (a ∷ b ∷ s) = ends_with_slash (b ∷ s)

-- `pattern.replace(/\/+$/, "")`: drops the slashes at the end.
unfoldable trim_slashes : Text → Text
trim_slashes [] = []
trim_slashes (a ∷ s) =
    let rest = trim_slashes s in if nat_eq a b'/' && is_nil rest then [] else a ∷ rest

abbrev cons_first : ℕ → List Text → List Text
cons_first c [] = (c ∷ []) ∷ []
cons_first c (w ∷ ws) = (c ∷ w) ∷ ws

-- `trimmed.split("/")`.
unfoldable split_slash : Text → List Text
split_slash [] = [] ∷ []
split_slash (a ∷ s) =
    let rest = split_slash s in if nat_eq a b'/' then [] ∷ rest else cons_first a rest

abbrev pub stars : Text
stars = b'*' ∷ b'*' ∷ []

-- /[*?\[\]{}!]/
abbrev is_glob_code : ℕ → Bool
is_glob_code c =
    nat_eq c b'*'
    || nat_eq c b'?'
    || nat_eq c b'['
    || nat_eq c b']'
    || nat_eq c b'{'
    || nat_eq c b'}'
    || nat_eq c b'!'

-- /[\w.\-*]/
abbrev is_wildcard_code : ℕ → Bool
is_wildcard_code c =
    leb b'a' c && leb c b'z'
    || leb b'A' c && leb c b'Z'
    || leb b'0' c && leb c b'9'
    || nat_eq c b'_'
    || nat_eq c b'.'
    || nat_eq c b'-'
    || nat_eq c b'*'

-- The body of the loop over the segments; `none` is `return null`.
unfoldable normalize_segment : Text → Option ScopeSegment
unfolding text_eq has_dot_dot
normalize_segment seg =
    if is_nil seg || text_eq seg (b'.' ∷ [])
    then none
    else if has_dot_dot seg
    then none
    else if not (text_eq seg stars) && any is_glob_code seg
    then if all is_wildcard_code seg then some (intra seg) else none
    else some (plain seg)

unfoldable normalize_segments : List Text → Option (List ScopeSegment)
unfolding normalize_segment
normalize_segments [] = some []
normalize_segments (seg ∷ segs) = elim (normalize_segment seg) [
  | none ↦ none
  | some s ↦ elim (normalize_segments segs) [ none ↦ none | some out ↦ some (s ∷ out) ]
]

abbrev end_with_stars : Bool → Option (List ScopeSegment) → Option (List ScopeSegment)
end_with_stars dir_subtree none = none
end_with_stars dir_subtree (some out) = some (if dir_subtree then out ++ plain stars ∷ [] else out)

unfoldable normalize_text : Text → Option (List ScopeSegment)
unfolding has_code ends_with_slash trim_slashes split_slash normalize_segments
normalize_text pattern =
    if is_nil pattern || has_code b'\\' pattern || starts_with_slash pattern
    then none
    else let dir_subtree = ends_with_slash pattern in
      let trimmed = if dir_subtree then trim_slashes pattern else pattern in
      if is_nil trimmed
      then none
      else end_with_stars dir_subtree (normalize_segments (split_slash trimmed))

unfoldable pub normalize_scope_pattern : String → Option (List ScopeSegment)
unfolding normalize_text
normalize_scope_pattern pattern = normalize_text (codes pattern)
