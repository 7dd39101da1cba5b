-- ===== src/Agents/Role.antt =====
-- utils.ts: the kind of an agent or a node, inferred from its id and its role, and the defaults of
-- an agent's record. Texts are lists of code points; `toLowerCase` and `trim` are those of ASCII.
use pi_graph_loop.Prelude.{
  ℕ, ◌+◌, String, Bool, true, false, ◌&&◌, ◌||◌, List, [], ◌∷◌, ◌++◌, map, codes, nat_eq, leb, ◌==◌,
  if◌then◌else◌,
}
use pi_graph_loop.Types.{SwarmAgent}

abbrev Text : Type 0
Text = List ℕ

abbrev to_lower : ℕ → ℕ
to_lower c = if leb b'A' c && leb c b'Z' then c + 32 else c

unfoldable begins_with : Text → Text → Bool
begins_with s [] = true
begins_with [] (k ∷ t) = false
begins_with (c ∷ s) (k ∷ t) = nat_eq c k && begins_with s t

-- `s.includes(t)`.
unfoldable contains : Text → Text → Bool
unfolding begins_with
contains [] t = begins_with [] t
contains (c ∷ s) t = begins_with (c ∷ s) t || contains s t

-- The white space of ASCII.
abbrev is_space : ℕ → Bool
is_space c = leb 9 c && leb c 13 || nat_eq c 32

unfoldable trim_start : Text → Text
trim_start [] = []
trim_start (c ∷ s) = if is_space c then trim_start s else c ∷ s

abbrev is_blank : Text → Bool
is_blank [] = true
is_blank (c ∷ s) = is_space c && is_blank s

unfoldable trim_end : Text → Text
trim_end [] = []
trim_end (c ∷ s) = if is_blank (c ∷ s) then [] else c ∷ trim_end s

abbrev text_eq : Text → Text → Bool
text_eq [] [] = true
text_eq (c ∷ s) (k ∷ t) = nat_eq c k && text_eq s t
text_eq _ _ = false

-- /^root[\s:]/
unfoldable root_prefixed : Text → Bool
root_prefixed (a ∷ b ∷ c ∷ d ∷ e ∷ s) =
    text_eq (a ∷ b ∷ c ∷ d ∷ []) (codes "root") && (is_space e || nat_eq e b':')
root_prefixed _ = false

unfoldable text_ownership : Text → Bool
unfolding root_prefixed contains
text_ownership text =
    root_prefixed text
    || contains text (codes "root pseudo-agent")
    || contains text (codes "root-owned")
    || contains text (codes "root closes")
    || contains text (codes "assigned to root")

-- The tests on the text of id and role.
unfoldable infer_from_text : Text → String
unfolding text_ownership contains
infer_from_text text =
    let has = λ (kw : String). contains text (codes kw) in
    if text_ownership text
    then "root"
    else if has "planner" || has "plan"
    then "planner"
    else if has "reviewer" || has "review"
    then "reviewer"
    else if has "auditor" || has "audit"
    then "auditor"
    else if has "tester" || has "test" || has "qa"
    then "tester"
    else if has "observer"
    then "observer"
    else if has "implementer" || has "coder" || has "developer" || has "fix"
    then "implementer"
    else "worker"

-- The tests on the id, below that for "root".
unfoldable infer_from_id : Text → Text → String
unfolding infer_from_text contains
infer_from_id lid text =
    let id_has = λ (kw : String). contains lid (codes kw) in
    if id_has "planner"
    then "planner"
    else if id_has "reviewer"
    then "reviewer"
    else if id_has "auditor" || id_has "audit"
    then "auditor"
    else if id_has "tester" || id_has "qa"
    then "tester"
    else if id_has "observer"
    then "observer"
    else if id_has "implementer" || id_has "coder" || id_has "developer"
    then "implementer"
    else infer_from_text text

unfoldable pub infer_role_kind : String → String → String
unfolding infer_from_id contains trim_start trim_end
infer_role_kind id role =
    let lid = map to_lower (codes id) in
    let role_text = map to_lower (codes role) in
    if contains lid (codes "root")
    then "root"
    else if text_eq (trim_end (trim_start role_text)) (codes "root")
    then "root"
    else infer_from_id lid (lid ++ b' ' ∷ role_text)

abbrev or_default : ℕ → ℕ → ℕ
or_default n d = if nat_eq n 0 then d else n

unfoldable pub ensure_agent_defaults : SwarmAgent → SwarmAgent
unfolding infer_role_kind
ensure_agent_defaults agent =
    let kind =
      if agent.role_kind_explicit then agent.role_kind else infer_role_kind agent.id agent.role in
    record agent {
      role_kind = kind;
      max_concurrent_tasks =
          or_default agent.max_concurrent_tasks (if kind == "root" then 99 else 1);
    }
