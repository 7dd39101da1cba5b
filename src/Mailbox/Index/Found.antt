-- ===== src/Mailbox/Index/Found.antt =====
-- mailbox.ts: what `findIdempotentMessage` finds through an index that is up to date.
use pi_graph_loop.Prelude.{
  none_is_some, String, true, ◌≡◌, ◌≢◌, refl, sym, subst, ◌∙◌, Option, none, some, List, [], ◌∷◌,
  foldl, Record, lookup, keys, values, length, is_truthy, lookup-put, Member, here, there,
  Option-cases, Bool-cases, inl, inr, ◌⊎◌, eq_iff, arith, ◌==◌,
}
use pi_graph_loop.Types.{MessageRecord}
use pi_graph_loop.Mailbox.Index.{
  KeyIndex, entry_of, entry_key, add_entry, build_index, current_index, KeyLookup, resolve_entry,
  find_idempotent_message,
}

-- What the fold over the records leaves at an entry: the id of a record of that entry, or what was there.
fold_sound :
    (recs : List MessageRecord) (index : Record String) (entry id : String)
    → lookup entry (foldl add_entry index recs) ≡ some id
    → (lookup entry index ≡ some id)
      ⊎ ((rec : MessageRecord) × Member rec recs × (entry_of rec ≡ some entry) × (rec.id ≡ id))
unfolding add_entry
fold_sound [] index entry id h = inl h
fold_sound (rec ∷ recs) index entry id h = elim (fold_sound recs (add_entry index rec) entry id h) [
  | inr (r, m, e, i) ↦ inr (r, there m, e, i)
  | inl old ↦ elim (Option-cases (entry_of rec)) [
    | inl unkeyed ↦ inl (ground (arith, unkeyed, old))
    | inr (k, e) ↦ elim (Bool-cases (k == entry)) [
      | inl same ↦ inr (
        rec,
        here refl,
        ground (arith, e, same, eq_iff k entry),
        ground (arith, e, same, old, lookup-put k entry rec.id index),
      )
      | inr other ↦ inl (ground (arith, e, other, old, lookup-put k entry rec.id index))
    ]
  ]
]

-- No record of that entry is passed over.
fold-keeps :
    (recs : List MessageRecord) (index : Record String) (entry id : String)
    → lookup entry index ≡ some id
    → (j : String) × (lookup entry (foldl add_entry index recs) ≡ some j)
unfolding add_entry
fold-keeps [] index entry id h = (id, h)
fold-keeps (rec ∷ recs) index entry id h = elim (Option-cases (entry_of rec)) [
  | inl unkeyed ↦ fold-keeps recs (add_entry index rec) entry id (ground (arith, unkeyed, h))
  | inr (k, e) ↦ elim (Bool-cases (k == entry)) [
    | inl same ↦
        fold-keeps recs (add_entry index rec) entry rec.id
          (ground (arith, e, same, lookup-put k entry rec.id index))
    | inr other ↦
        fold-keeps recs (add_entry index rec) entry id
          (ground (arith, e, other, h, lookup-put k entry rec.id index))
  ]
]

fold_complete :
    (recs : List MessageRecord) (index : Record String) (entry : String) (rec : MessageRecord)
    → Member rec recs
    → entry_of rec ≡ some entry
    → (j : String) × (lookup entry (foldl add_entry index recs) ≡ some j)
unfolding add_entry
fold_complete [] index entry rec m e = elim m [ ]
fold_complete (r ∷ recs) index entry rec (here same) e =
    fold-keeps recs (add_entry index r) entry r.id
      (ground (arith, e, same, lookup-put entry entry r.id index, eq_iff entry entry))
fold_complete (r ∷ recs) index entry rec (there m) e =
    fold_complete recs (add_entry index r) entry rec m e

-- Every message is stored under its own id, and no id is empty.
unfoldable pub IsFiled : Record MessageRecord → Type 0
IsFiled messages =
    (rec : MessageRecord)
    → Member rec (values messages)
    → (lookup rec.id messages ≡ some rec) × (is_truthy rec.id ≡ true)

-- The cache has no index, one to be built again, or the one of these messages.
unfoldable pub IsCurrent : KeyIndex → Record MessageRecord → Type 0
IsCurrent cache messages = current_index cache messages ≡ build_index messages

-- The answer is a message with that sender, recipient and key, and none only where there is none.
unfoldable pub IsFound : Record MessageRecord → String → Option MessageRecord → Type 0
IsFound messages entry none =
    (rec : MessageRecord) → Member rec (values messages) → entry_of rec ≢ some entry
IsFound messages entry (some rec) = Member rec (values messages) × (entry_of rec ≡ some entry)

abbrev pub IsAnswer : Record MessageRecord → String → KeyLookup → Type 0
IsAnswer messages entry out = IsCurrent out.0 messages × IsFound messages entry out.1

built-IsCurrent :
    (messages : Record MessageRecord)
    → IsCurrent
        (record { index = some (build_index messages); count = length (keys messages) })
        messages
unfolding IsCurrent current_index
built-IsCurrent messages = ground arith

resolve_stored :
    (messages : Record MessageRecord) (entry : String) (index : Record String) (rec : MessageRecord)
    → lookup rec.id messages ≡ some rec
    → is_truthy rec.id ≡ true
    → resolve_entry index messages entry (some rec.id)
      ≡ (record { index = some index; count = length (keys messages) }, some rec)
resolve_stored messages entry index rec stored named = ground (arith, stored, named)

resolve-IsAnswer :
    (messages : Record MessageRecord) (entry : String) (o : Option String)
    → IsFiled messages
    → lookup entry (build_index messages) ≡ o
    → IsAnswer messages entry (resolve_entry (build_index messages) messages entry o)
unfolding IsFound IsFiled build_index lookup
resolve-IsAnswer messages entry none filed h = (
  built-IsCurrent messages,
  λ rec m e.
      let (j, g) = fold_complete (values messages) [] entry rec m e in none_is_some (sym h ∙ g),
)
resolve-IsAnswer messages entry (some id) filed h =
    elim (fold_sound (values messages) [] entry id h) [
      | inl nothing ↦ elim (none_is_some nothing) [ ]
      | inr (rec, m, e, i) ↦
          let (stored, named) = filed rec m in
          subst
            (λ j.
              IsAnswer messages entry
                (resolve_entry (build_index messages) messages entry (some j)))
            i
            (subst (IsAnswer messages entry)
              (sym (resolve_stored messages entry (build_index messages) rec stored named))
              (built-IsCurrent messages, (m, e)))
    ]

-- Where every message is stored under its own id, none of them empty, and the index that is kept is
-- none, one to be built again, or the one of the present messages, findIdempotentMessage answers a
-- message with the entry that joins the sender, the recipient and the key, answers nothing only where
-- no message has that entry, and keeps an index that is the one of the present messages.
pub find_idempotent_message-IsAnswer :
    (cache : KeyIndex) (messages : Record MessageRecord) (from to key : String)
    → IsFiled messages
    → IsCurrent cache messages
    → IsAnswer messages (entry_key from to key) (find_idempotent_message cache messages from to key)
unfolding IsCurrent find_idempotent_message
find_idempotent_message-IsAnswer cache messages from to key filed current =
    let entry : String = entry_key from to key in
    subst
      (λ (index : Record String).
        IsAnswer messages entry (resolve_entry index messages entry (lookup entry index)))
      (sym current)
      (resolve-IsAnswer messages entry (lookup entry (build_index messages)) filed refl)
