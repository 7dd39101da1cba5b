-- ===== src/Surface/Keys.antt =====
-- The keys that nudges and conversations are named by: the regular expressions of
-- surface/actionable.ts, surface/staleness.ts and surface/coalesce.ts. None of their groups matches a
-- colon, so each is a condition on the pieces between the colons.
pub mod Format
use Prim.Native.Char.{code}
use Prim.Native.String
use pi_graph_loop.Prelude.{
  ℕ, ◌+◌, ◌-◌, ◌*◌, String, Bool, true, false, not, ◌&&◌, ◌||◌, Option, none, some, List, [], ◌∷◌,
  all, codes, nat_eq, leb, or_else, is_truthy, ◌==◌, if◌then◌else◌,
}

abbrev pub cons_char : Prim.Native.Char.Char → List String → List String
cons_char c [] = String.◌∷◌ c String.[] ∷ []
cons_char c (w ∷ ws) = String.◌∷◌ c w ∷ ws

-- `s.split(":")`.
unfoldable pub split_colon : String → List String
split_colon String.[] = String.[] ∷ []
split_colon (String.◌∷◌ c s) =
    let rest = split_colon s in if nat_eq (code c) b':' then String.[] ∷ rest else cons_char c rest

-- A task, and a node of it or none.
pub record TaskNodeRef : Type 0 where
  pub task_id : String
  pub node_id : Option String

abbrev pub ref : String → Option String → TaskNodeRef
ref task_id node_id = record { task_id = task_id; node_id = node_id }

abbrev pub when_ref : Bool → TaskNodeRef → Option TaskNodeRef
when_ref b r = if b then some r else none

-- ["node", "pool_depleted", "nudge"].includes(part)
abbrev pub is_reserved : String → Bool
is_reserved part = part == "node" || part == "pool_depleted" || part == "nudge"

abbrev pub or_ref : Option TaskNodeRef → Option TaskNodeRef → Option TaskNodeRef
or_ref (some r) o = some r
or_ref none o = o

-- /^task:([^:]+):([^:]+)$/ with a second group that is not reserved
unfoldable pub compact_ref : List String → Option TaskNodeRef
compact_ref (t ∷ a ∷ b ∷ []) =
    when_ref (t == "task" && is_truthy a && is_truthy b && not (is_reserved b)) (ref a (some b))
compact_ref _ = none

-- …node:([^:]+):nudge:
unfoldable pub node_nudge : List String → Option String
node_nudge (n ∷ b ∷ g ∷ _ ∷ _) = if n == "node" && is_truthy b && g == "nudge" then some b else none
node_nudge _ = none

abbrev pub starts_with_part : String → List String → Bool
starts_with_part part [] = false
starts_with_part part (p ∷ ps) = p == part

abbrev pub nudge_or_depleted : String → List String → Option String → Option TaskNodeRef
nudge_or_depleted a rest (some b) = some (ref a (some b))
nudge_or_depleted a rest none = when_ref (starts_with_part "pool_depleted" rest) (ref a none)

-- /^task:([^:]+):(?:node:([^:]+):nudge:|pool_depleted(?:$|:))/
unfoldable pub long_ref : List String → Option TaskNodeRef
long_ref (t ∷ a ∷ rest) =
    if t == "task" && is_truthy a then nudge_or_depleted a rest (node_nudge rest) else none
long_ref _ = none

-- /^task:([^:]+):/
unfoldable pub task_only_ref : List String → Option TaskNodeRef
task_only_ref (t ∷ a ∷ _ ∷ _) = when_ref (t == "task" && is_truthy a) (ref a none)
task_only_ref _ = none

abbrev pub ref_of_parts : List String → Option TaskNodeRef
ref_of_parts parts = or_ref (compact_ref parts) (or_ref (long_ref parts) (task_only_ref parts))

unfoldable pub parse_task_node_ref : Option String → Option TaskNodeRef
parse_task_node_ref none = none
parse_task_node_ref (some conversation_id) = ref_of_parts (split_colon conversation_id)

-- (?:node:([^:]+):)?
unfoldable pub node_part : List String → Option String
node_part (n ∷ b ∷ _ ∷ _) = if n == "node" && is_truthy b then some b else none
node_part _ = none

-- /^task:([^:]+):(?:node:([^:]+):)?/
unfoldable pub idempotency_ref : List String → Option TaskNodeRef
idempotency_ref (t ∷ a ∷ p ∷ ps) =
    when_ref (t == "task" && is_truthy a) (ref a (node_part (p ∷ ps)))
idempotency_ref _ = none

-- nudge:…
unfoldable pub bare_nudge : List String → Bool
bare_nudge (g ∷ _ ∷ _) = g == "nudge"
bare_nudge _ = false

abbrev nudge_of : String → List String → Option String → Option TaskNodeRef
nudge_of a rest (some b) = some (ref a (some b))
nudge_of a rest none = when_ref (bare_nudge rest) (ref a none)

-- /^task:([^:]+):(?:node:([^:]+):)?nudge:/
unfoldable pub task_nudge_ref : List String → Option TaskNodeRef
task_nudge_ref (t ∷ a ∷ rest) =
    if t == "task" && is_truthy a then nudge_of a rest (node_nudge rest) else none
task_nudge_ref _ = none

-- \d+
unfoldable pub is_digits : List ℕ → Bool
is_digits [] = false
is_digits (c ∷ []) = leb b'0' c && leb c b'9'
is_digits (c ∷ d ∷ cs) = leb b'0' c && leb c b'9' && is_digits (d ∷ cs)

-- `Number` of a run of digits.
unfoldable pub number_of : ℕ → List ℕ → ℕ
number_of n [] = n
number_of n (c ∷ cs) = number_of (n * 10 + (c - b'0')) cs

pub record GoalKey : Type 0 where
  pub goal_id : String
  pub seq : ℕ

-- /^goal:([^:]+):nudge:idle-streak:(\d+)$/
unfoldable pub goal_key : List String → Option GoalKey
goal_key (g ∷ a ∷ n ∷ i ∷ d ∷ []) =
    if g == "goal" && is_truthy a && n == "nudge" && i == "idle-streak" && is_digits (codes d)
    then some (record { goal_id = a; seq = number_of 0 (codes d) })
    else none
goal_key _ = none

-- /^goal:[^:]*:escalation:/
unfoldable pub is_escalation : List String → Bool
is_escalation (g ∷ _ ∷ e ∷ _ ∷ _) = g == "goal" && e == "escalation"
is_escalation _ = false
