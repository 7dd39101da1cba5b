-- ===== src/Mailbox/Index.antt =====
-- mailbox.ts: `findIdempotentMessage` and the index that it keeps.
pub mod Found
use pi_graph_loop.Prelude.{
  ℕ, String, Bool, true, false, not, ◌&&◌, ◌||◌, Option, none, some, List, [], ◌∷◌, foldl, Record,
  lookup, put, erase, keys, values, length, nat_eq, is_truthy, ◌<>◌, if◌then◌else◌,
}
use pi_graph_loop.Types.{MessageRecord}

-- `idempotencyIndex` and `idempotencyIndexCount`.
pub record KeyIndex : Type 0 where
  pub index : Option (Record String)
  pub count : ℕ

-- The entry of a sender, a recipient and a key, with the character 0 between them.
unfoldable pub entry_key : String → String → String → String
entry_key from to key = from <> "\0" <> to <> "\0" <> key

abbrev pub keyed_entry : MessageRecord → Option String → Option String
keyed_entry rec none = none
keyed_entry rec (some key) = if is_truthy key then some (entry_key rec.from rec.to key) else none

-- The entry of a record, where it has a key.
unfoldable pub entry_of : MessageRecord → Option String
entry_of rec = keyed_entry rec rec.idempotency_key

abbrev pub add_at : Record String → String → Option String → Record String
add_at index id none = index
add_at index id (some entry) = put entry id index

unfoldable pub add_entry : Record String → MessageRecord → Record String
add_entry index rec = add_at index rec.id (entry_of rec)

unfoldable pub build_index : Record MessageRecord → Record String
build_index messages = foldl add_entry [] (values messages)

unfoldable pub current_index : KeyIndex → Record MessageRecord → Record String
current_index cache messages = elim cache.index [
  | none ↦ build_index messages
  | some index ↦ if nat_eq cache.count (length (keys messages)) then index else build_index messages
]

abbrev pub KeyLookup : Type 0
KeyLookup = KeyIndex × Option MessageRecord

-- An entry whose message is gone is deleted.
abbrev pub resolve_found : Record String → ℕ → String → Option MessageRecord → KeyLookup
resolve_found index count entry none =
    (record { index = some (erase entry index); count = count }, none)
resolve_found index count entry (some rec) =
    (record { index = some index; count = count }, some rec)

abbrev pub resolve_entry : Record String → Record MessageRecord → String → Option String → KeyLookup
resolve_entry index messages entry none =
    (record { index = some index; count = length (keys messages) }, none)
resolve_entry index messages entry (some id) =
    if is_truthy id
    then resolve_found index (length (keys messages)) entry (lookup id messages)
    else (record { index = some index; count = length (keys messages) }, none)

unfoldable pub find_idempotent_message :
    KeyIndex → Record MessageRecord → String → String → String → KeyLookup
find_idempotent_message cache messages from to key =
    let index = current_index cache messages in
    let entry = entry_key from to key in resolve_entry index messages entry (lookup entry index)
