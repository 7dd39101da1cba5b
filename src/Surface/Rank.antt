-- ===== src/Surface/Rank.antt =====
-- surface/ranking.ts: the key by which messages are coalesced, and their order.
pub mod Sorted
use Prim.Native.Char.{code}
use Prim.Native.String
use pi_graph_loop.Prelude.{
  ℕ, String, Bool, true, false, not, ◌&&◌, ◌||◌, Option, none, some, List, [], ◌∷◌, all, codes,
  nat_eq, ltb, leb, is_nil, is_set, is_truthy, or_else, default_to, ◌==◌, ◌<>◌, if◌then◌else◌,
}
use pi_graph_loop.Types.{SwarmMessage, Stamp}
use pi_graph_loop.Surface.Keys.{split_colon, is_digits}

-- White space and line ends, which `trim` strips.
abbrev is_space : ℕ → Bool
is_space c =
    leb 9 c && leb c 13
    || nat_eq c 32
    || nat_eq c 160
    || nat_eq c 5760
    || leb 8192 c && leb c 8202
    || nat_eq c 8232
    || nat_eq c 8233
    || nat_eq c 8239
    || nat_eq c 8287
    || nat_eq c 12288
    || nat_eq c 65279

unfoldable pub trim_start : String → String
trim_start String.[] = String.[]
trim_start (String.◌∷◌ c s) =
    let rest = trim_start s in if is_space (code c) then rest else String.◌∷◌ c s

unfoldable pub trim_end : String → String
trim_end String.[] = String.[]
trim_end (String.◌∷◌ c s) =
    let rest = trim_end s in
    if is_space (code c) && rest == "" then String.[] else String.◌∷◌ c rest

unfoldable pub trim : String → String
trim s = trim_end (trim_start s)

-- [a-z0-9_-]
abbrev is_id_code : ℕ → Bool
is_id_code c =
    leb b'a' c && leb c b'z' || leb b'0' c && leb c b'9' || nat_eq c b'_' || nat_eq c b'-'

abbrev is_id : String → Bool
is_id s = is_truthy s && all is_id_code (codes s)

-- The two replacements: the number at the end of an idle-streak or a graph-stall key is dropped.
unfoldable pub normalized_parts : String → List String → String
normalized_parts key (t ∷ a ∷ n ∷ k ∷ d ∷ []) =
    if n == "nudge"
      && is_id a
      && is_digits (codes d)
      && (t == "goal" && k == "idle-streak" || t == "task" && k == "graph-stall")
    then t <> ":" <> a <> ":" <> n <> ":" <> k <> ":"
    else key
normalized_parts key _ = key

-- What `rootSurfaceGroupKey` reads of a record, or of a mailbox entry that has none.
pub record KeyedRecord : Type 0 where
  pub id : String
  pub from : String
  pub to : String
  pub subject : Option String
  pub conversation_id : Option String
  pub reply_to : Option String
  pub requires_ack : Bool
  pub requires_response : Option Bool
  pub idempotency_key : Option String
  pub created_at : Option Stamp

abbrev bit : Bool → String
bit true = "1"
bit false = "0"

unfoldable pub subject_key : KeyedRecord → String → String
subject_key rec subject =
    if is_truthy subject
    then "subj:"
      <> subject
      <> "|from:"
      <> rec.from
      <> "|replyTo:"
      <> default_to "" rec.reply_to
      <> "|ack:"
      <> bit rec.requires_ack
      <> "|resp:"
      <> bit (is_set rec.requires_response)
    else "msg:" <> rec.id

abbrev conversation_key : KeyedRecord → Option String → String
conversation_key rec none = subject_key rec (trim (default_to "" rec.subject))
conversation_key rec (some c) = "conv:" <> c

abbrev key_of : KeyedRecord → Option String → String
key_of rec none = conversation_key rec rec.conversation_id
key_of rec (some raw) = "idk:" <> normalized_parts raw (split_colon raw)

unfoldable pub root_surface_group_key : KeyedRecord → String
root_surface_group_key rec = key_of rec rec.idempotency_key

-- `new Date(updatedAt || createdAt || 0).getTime()`; `none` is NaN.
abbrev pub rank_time : Option Stamp → Option ℕ
rank_time none = some 0
rank_time (some at) = at.ms

abbrev pub time_of_message : SwarmMessage → Option ℕ
time_of_message m = rank_time (or_else m.updated_at m.created_at)

abbrev time_before : Option ℕ → Option ℕ → Bool → Bool
time_before (some a) (some b) tie = ltb a b || nat_eq a b && tie
time_before _ _ tie = false

-- Is `compareSurfaceCandidates(a, b)` negative? `locale_lt` is whether `localeCompare` is.
unfoldable pub surfaces_before : (String → String → Bool) → SwarmMessage → SwarmMessage → Bool
surfaces_before locale_lt a b =
    time_before (time_of_message a) (time_of_message b) (locale_lt a.id b.id)

-- `sort` with a comparison, of which `before` says whether it is negative: stable insertion.
module _ {A : Type 0} (before : A → A → Bool) where
  unfoldable pub insert_sorted : A → List A → List A
  insert_sorted x [] = x ∷ []
  insert_sorted x (y ∷ ys) =
      let rest = insert_sorted x ys in if before y x then y ∷ rest else x ∷ y ∷ ys

  unfoldable pub sort_by : List A → List A
  sort_by [] = []
  sort_by (x ∷ xs) = insert_sorted x (sort_by xs)
