-- ===== src/Mailbox/Waived.antt =====
-- mailbox.ts: which messages `supersedeOpenAssignments` supersedes.
use mathlib.Core.Option
use pi_graph_loop.Prelude.{
  String, Bool, true, false, ◌≡◌, Option, none, some, List, [], foldl, Record, lookup, filter,
  includes, is_nil, IsDistinct, if◌then◌else◌,
}
use pi_graph_loop.Types.{Stamp, MessageRecord, SwarmState, TaskState}
use pi_graph_loop.Mailbox.{
  Supersession, superseded_record, may_supersede, is_stuck, supersede_step, prior_set, assignee_at,
  response_missing_records,
}

-- Is there an open message of this id?
abbrev pub open_in : Record MessageRecord → String → Bool
open_in ms id = elim (lookup id ms) [ none ↦ false | some rec ↦ may_supersede rec ]

module _ (clock : String → Stamp) (by new_id : String) where
  abbrev superseding : String → MessageRecord → MessageRecord
  superseding id rec = superseded_record (clock id) by new_id rec

-- What the supersession of a node's assignments does to the messages, the agents and its answer.
unfoldable pub IsSuperseded :
    (String → Stamp)
    → SwarmState
    → TaskState
    → String
    → String
    → String
    → SwarmState × List String
    → Type 0
IsSuperseded clock st task node_id new_id by out =
    (out.1 ≡ filter (open_in st.messages) (prior_set node_id new_id task))
    × ((id : String)
        → lookup id out.0.messages ≡ (
            if includes out.1 id
            then Option.map (superseded_record (clock id) by new_id) (lookup id st.messages)
            else lookup id st.messages))
    × ((id : String)
        → includes (prior_set node_id new_id task) id ≡ true
        → open_in out.0.messages id ≡ false)
    × ((id : String)
        → assignee_at (lookup node_id task.nodes) ≡ some id
        → is_stuck (lookup id out.0.agents) ≡ true
        → is_nil (response_missing_records out.0 id) ≡ false)

module _ (clock : String → Stamp) (by new_id : String) (ms : Record MessageRecord)
    (prior : List String) (distinct : IsDistinct prior) where
  abbrev run_of : Supersession
  run_of =
      foldl (supersede_step clock by new_id) (record { messages = ms; superseded_ids = [] }) prior
