-- ===== src/Examples/Scopes.antt =====
-- Scopes: inheritance, patterns and their overlap.
use pi_graph_loop.Prelude.{String, ◌≡◌, refl, some, [], ◌∷◌, lookup, includes}
use pi_graph_loop.Types.{ScopeSource}
use pi_graph_loop.Scope.Resolve.{
  EffectiveScope, resolved, resolve_loop, resolve_round, round_at, inherit_round,
  resolve_node_scope,
}
use pi_graph_loop.Scope.Resolve.Chain.{ScopeMeans, resolve_node_scope_correct}
use pi_graph_loop.Scope.Overlap.{
  Answer, segments_overlap, is_stars, segment_overlap, any_suffix, intra_regex, match_code, star,
  overlapping, disjoint, unknown, scope_patterns_overlap,
}
use pi_graph_loop.Scope.Pattern.{normalize_scope_pattern}
use pi_graph_loop.Examples.Samples.{fresh_task}

-- The fix node takes the files of the implement node.
fix_inherits :
    resolve_node_scope fresh_task "fix"
    ≡ some (
        resolved (record {
          source = ScopeSource.node_inherited;
          source_node_id = some "implement";
          files = "src/a.ts" ∷ [];
        }))
unfolding resolve_node_scope fresh_task resolve_loop resolve_round round_at lookup inherit_round
    includes
fix_inherits = refl

resolve_node_scope_correct_example :
    (s : EffectiveScope) × (resolve_node_scope fresh_task "fix" ≡ some s)
    × ScopeMeans fresh_task "fix" s
resolve_node_scope_correct_example = resolve_node_scope_correct fresh_task "fix"

-- The whole of the code, for runs.
unfoldable overlap : String → String → Answer
unfolding scope_patterns_overlap normalize_scope_pattern segments_overlap is_stars segment_overlap
    any_suffix intra_regex match_code star
overlap a b = scope_patterns_overlap a b

-- A subtree and a file in it, two directories, and a pattern outside the grammar.
subtree_meets_file : overlap "src/" "src/lib/a.ts" ≡ overlapping
unfolding overlap
subtree_meets_file = refl

siblings_are_apart : overlap "src/**" "docs/a.md" ≡ disjoint
unfolding overlap
siblings_are_apart = refl

braces_are_unknown : overlap "src/{a,b}.ts" "docs/a.md" ≡ unknown
unfolding overlap
braces_are_unknown = refl

-- Two wildcards inside a segment: both match the file `ab`, but neither matches the other's text.
wildcards_miss : overlap "a*" "*b" ≡ disjoint
unfolding overlap
wildcards_miss = refl
