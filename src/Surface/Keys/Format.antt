-- ===== src/Surface/Keys/Format.antt =====
-- surface/actionable.ts: the keys that the engine writes, and what parseTaskNodeRef reads from them.
use Prim.Native.Char.{Char, code}
use text.Mathlib.TextLemmas.{nil-append, cons-append}
use pi_graph_loop.Prelude.{
  String, Bool, true, false, ◌≡◌, refl, ap, ◌∙◌, not, ◌&&◌, &&-split, some, List, [], ◌∷◌, nat_eq,
  is_truthy, ◌<>◌, arith, if_ind,
}
use pi_graph_loop.Surface.Keys.{
  split_colon, cons_char, ref, is_reserved, compact_ref, node_nudge, parse_task_node_ref,
  task_nudge_ref, long_ref, ref_of_parts,
}

unfoldable pub has_no_colon : String → Bool
has_no_colon String.[] = true
has_no_colon (String.◌∷◌ c s) = not (nat_eq (code c) b':') && has_no_colon s

abbrev colon : Char
colon = ":"

colon_append : (t : String) → ":" <> t ≡ String.◌∷◌ colon t
colon_append t = cons-append colon String.[] t ∙ ap (String.◌∷◌ colon) (nil-append t)

split-piece :
    (a t : String) → has_no_colon a ≡ true → split_colon (a <> (":" <> t)) ≡ a ∷ split_colon t
unfolding split_colon has_no_colon
split-piece String.[] t h = ap split_colon (nil-append (":" <> t) ∙ colon_append t)
split-piece (String.◌∷◌ c s) t h =
    ap split_colon (cons-append c s (":" <> t))
    ∙ ground
        (arith, h, split-piece s t (&&-split (not (nat_eq (code c) b':')) (has_no_colon s) h).1)

split-last : (a : String) → has_no_colon a ≡ true → split_colon a ≡ a ∷ []
unfolding split_colon has_no_colon
split-last String.[] h = refl
split-last (String.◌∷◌ c s) h =
    ground (arith, h, split-last s (&&-split (not (nat_eq (code c) b':')) (has_no_colon s) h).1)

abbrev IsCons : List String → Type 0
IsCons parts = (w : String) × (ws : List String) × (parts ≡ w ∷ ws)

cons_char-IsCons : (c : Char) (parts : List String) → IsCons (cons_char c parts)
cons_char-IsCons c [] = (String.◌∷◌ c String.[], [], refl)
cons_char-IsCons c (w ∷ ws) = (String.◌∷◌ c w, ws, refl)

split-IsCons : (s : String) → IsCons (split_colon s)
unfolding split_colon
split-IsCons String.[] = (String.[], [], refl)
split-IsCons (String.◌∷◌ c s) =
    if_ind IsCons (nat_eq (code c) b':') (λ colon. (String.[], split_colon s, refl))
      (λ other. cons_char-IsCons c (split_colon s))

-- A piece that can be a group of the expressions.
abbrev pub IsPiece : String → Type 0
IsPiece s = (is_truthy s ≡ true) × (has_no_colon s ≡ true)

-- `task:${taskId}:${nodeId}`
abbrev pub conversation_of : String → String → String
conversation_of task_id node_id = "task" <> (":" <> (task_id <> (":" <> node_id)))

-- `task:${taskId}:node:${nodeId}:nudge:${rest}`
abbrev pub nudge_key_of : String → String → String → String
nudge_key_of task_id node_id rest =
    "task"
    <> (":"
        <> (task_id
            <> (":" <> ("node" <> (":" <> (node_id <> (":" <> ("nudge" <> (":" <> rest)))))))))

split-conversation :
    (task_id node_id : String)
    → has_no_colon task_id ≡ true
    → has_no_colon node_id ≡ true
    → split_colon (conversation_of task_id node_id) ≡ "task" ∷ task_id ∷ node_id ∷ []
unfolding has_no_colon
split-conversation task_id node_id a b =
    split-piece "task" (task_id <> (":" <> node_id)) refl
    ∙ ap ("task" ∷◌) (split-piece task_id node_id a ∙ ap (task_id ∷◌) (split-last node_id b))

split-nudge_key :
    (task_id node_id rest : String)
    → has_no_colon task_id ≡ true
    → has_no_colon node_id ≡ true
    → split_colon (nudge_key_of task_id node_id rest)
      ≡ "task" ∷ task_id ∷ "node" ∷ node_id ∷ "nudge" ∷ split_colon rest
unfolding has_no_colon
split-nudge_key task_id node_id rest a b =
    split-piece "task"
      (task_id <> (":" <> ("node" <> (":" <> (node_id <> (":" <> ("nudge" <> (":" <> rest))))))))
      refl
    ∙ ap ("task" ∷◌) (
        split-piece task_id ("node" <> (":" <> (node_id <> (":" <> ("nudge" <> (":" <> rest)))))) a
        ∙ ap (task_id ∷◌) (
            split-piece "node" (node_id <> (":" <> ("nudge" <> (":" <> rest)))) refl
            ∙ ap ("node" ∷◌) (
                split-piece node_id ("nudge" <> (":" <> rest)) b
                ∙ ap (node_id ∷◌) (split-piece "nudge" rest refl))))

compact_of_parts :
    (a b : String)
    → is_truthy a ≡ true
    → is_truthy b ≡ true
    → is_reserved b ≡ false
    → ref_of_parts ("task" ∷ a ∷ b ∷ []) ≡ some (ref a (some b))
unfolding compact_ref
compact_of_parts a b ha hb hr = ground (arith, ha, hb, hr)

nudge_of_parts :
    (a b w : String) (ws : List String)
    → is_truthy a ≡ true
    → is_truthy b ≡ true
    → (ref_of_parts ("task" ∷ a ∷ "node" ∷ b ∷ "nudge" ∷ w ∷ ws) ≡ some (ref a (some b)))
      × (task_nudge_ref ("task" ∷ a ∷ "node" ∷ b ∷ "nudge" ∷ w ∷ ws) ≡ some (ref a (some b)))
unfolding compact_ref long_ref task_nudge_ref node_nudge
nudge_of_parts a b w ws ha hb = (ground (arith, ha, hb), ground (arith, ha, hb))

-- A conversation id `task:T:N`, where neither part is empty or holds a colon and `N` is none of the
-- reserved words, is parsed as the task `T` and the node `N`; so is every key of the form
-- `task:T:node:N:nudge:…`, which the nudge expression reads as the same pair.
pub parse_task_node_ref-format :
    (task_id node_id rest : String)
    → IsPiece task_id
    → IsPiece node_id
    → is_reserved node_id ≡ false
    → (parse_task_node_ref (some (conversation_of task_id node_id))
        ≡ some (ref task_id (some node_id)))
      × (parse_task_node_ref (some (nudge_key_of task_id node_id rest))
          ≡ some (ref task_id (some node_id)))
      × (task_nudge_ref (split_colon (nudge_key_of task_id node_id rest))
          ≡ some (ref task_id (some node_id)))
unfolding parse_task_node_ref
parse_task_node_ref-format task_id node_id rest a b free =
    let (w, ws, e) = split-IsCons rest in
    let key =
      split-nudge_key task_id node_id rest a.1 b.1
      ∙ ap (λ (r : List String). "task" ∷ task_id ∷ "node" ∷ node_id ∷ "nudge" ∷ r) e in
    let (long, nudge) = nudge_of_parts task_id node_id w ws a.0 b.0 in
    (
      ap ref_of_parts (split-conversation task_id node_id a.1 b.1)
          ∙ compact_of_parts task_id node_id a.0 b.0 free,
      ap ref_of_parts key ∙ long,
      ap task_nudge_ref key ∙ nudge,
    )
