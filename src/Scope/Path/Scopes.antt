-- ===== src/Scope/Path/Scopes.antt =====
-- scope.ts: what each answer of `scopesOverlap` says about the paths of two scopes.
use pi_graph_loop.Prelude.{
  String, false, ◌≡◌, ◌⊎◌, Option, none, some, List, [], ◌∷◌, ◌==◌, Member, All,
}
use pi_graph_loop.Scope.Resolve.{EffectiveScope, resolved, unresolved}
use pi_graph_loop.Scope.Pattern.{ScopeSegment, normalize_scope_pattern}
use pi_graph_loop.Scope.Overlap.{
  Answer, overlapping, disjoint, unknown, ScopeRelation, equal, glob_match, unknown_syntax,
  unresolved_inheritance, no_overlap,
}
use pi_graph_loop.Scope.Path.{Shared}
use pi_graph_loop.Scope.Path.Literal.{Comparable}

abbrev Parses : String → List ScopeSegment → Type 0
Parses f p = normalize_scope_pattern f ≡ some p

-- Two patterns with a path that both match.
pub record Meet (fa fb : String) : Type 0 where
  pub a : List ScopeSegment
  pub b : List ScopeSegment
  pub parse_a : Parses fa a
  pub parse_b : Parses fb b
  pub shared : Shared a b

-- Two patterns that have no path in common, as far as one has no wildcard inside a segment.
pub record Apart (fa fb : String) : Type 0 where
  pub a : List ScopeSegment
  pub b : List ScopeSegment
  pub parse_a : Parses fa a
  pub parse_b : Parses fb b
  pub apart : Comparable a b → ¬ Shared a b

abbrev Unparsed : String → Type 0
Unparsed f = normalize_scope_pattern f ≡ none

abbrev AnswerMeans : Answer → String → String → Type 0
AnswerMeans overlapping fa fb = Meet fa fb
AnswerMeans disjoint fa fb = Apart fa fb
AnswerMeans unknown fa fb = Unparsed fa ⊎ Unparsed fb

-- The pair of patterns that decided the answer.
abbrev Found : (String → String → Type 0) → List String → List String → Type 0
Found P a b = (fa : String) × (fb : String) × Member fa a × Member fb b × P fa fb

abbrev FilesMean : ScopeRelation → List String → List String → Type 0
FilesMean equal a b = Found (λ fa fb. (fa ≡ fb) × Meet fa fb) a b
FilesMean glob_match a b = Found (λ fa fb. ((fa == fb) ≡ false) × Meet fa fb) a b
FilesMean unknown_syntax a b = Found (λ fa fb. Unparsed fa ⊎ Unparsed fb) a b
FilesMean unresolved_inheritance a b = ⊥
FilesMean no_overlap a b = All (λ fa. All (Apart fa) b) a

-- What the inner loop found for one pattern.
abbrev FileMeans : Option ScopeRelation → String → List String → Type 0
FileMeans none fa b = All (Apart fa) b
FileMeans (some no_overlap) fa b = ⊥
FileMeans (some r) fa b = FilesMean r (fa ∷ []) b

-- What an answer about two scopes says.
abbrev pub ScopesMean : ScopeRelation → EffectiveScope → EffectiveScope → Type 0
ScopesMean unresolved_inheritance (resolved a) (resolved b) = ⊥
ScopesMean unresolved_inheritance (unresolved r) b = Unit
ScopesMean unresolved_inheritance (resolved a) (unresolved r) = Unit
ScopesMean r (resolved a) (resolved b) = FilesMean r a.files b.files
ScopesMean r (unresolved _) b = ⊥
ScopesMean r (resolved a) (unresolved _) = ⊥
