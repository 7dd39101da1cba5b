-- ===== src/Examples/Mails.antt =====
-- The mailbox's supersession of assignments and its index of keys.
use pi_graph_loop.Prelude.{
  true, ◌≡◌, refl, none, some, [], ◌∷◌, lookup, put, erase, keys, values, set_add, includes,
  is_truthy, here, there, subst, sym,
}
use pi_graph_loop.Types.{AgentStatus, TaskState, MessageRecord}
use pi_graph_loop.Mailbox.{supersede_open_assignments, supersede_step, may_supersede, prior_ids}
use pi_graph_loop.Mailbox.Index.{
  KeyIndex, find_idempotent_message, current_index, build_index, add_entry, entry_of, entry_key,
}
use pi_graph_loop.Mailbox.Index.Found.{
  IsFiled, IsCurrent, IsAnswer, find_idempotent_message-IsAnswer,
}
use pi_graph_loop.Examples.Samples.{noon, fresh_task}
use pi_graph_loop.Examples.Notices.{swarm, assignment}

-- The task after its tests were handed out with "msg-1".
unfoldable handed_out : TaskState
unfolding fresh_task
handed_out = record fresh_task {
  handoffs =
      record {
        to_node = some "test";
        kind = some "assign";
        message_id = some "msg-1";
        idempotency_key = none;
      }
      ∷ [];
}

handed_out-superseded :
    (supersede_open_assignments
      (λ id. noon)
      noon
      (swarm AgentStatus.running)
      handed_out
      "test"
      "msg-2"
      "root").1
    ≡ "msg-1" ∷ []
unfolding supersede_open_assignments supersede_step may_supersede prior_ids handed_out fresh_task
    lookup set_add includes
handed_out-superseded = refl

abbrev keyed : MessageRecord
keyed = record assignment { idempotency_key = some "task:task-1:test" }

abbrev no_index : KeyIndex
no_index = record { index = none; count = 0 }

no_index-IsCurrent : IsCurrent no_index (("msg-1", keyed) ∷ [])
unfolding IsCurrent current_index
no_index-IsCurrent = refl

keyed-IsFiled : IsFiled (("msg-1", keyed) ∷ [])
unfolding IsFiled values lookup
keyed-IsFiled rec (here e) =
    subst
      (λ (r : MessageRecord).
        (lookup r.id (("msg-1", keyed) ∷ []) ≡ some r) × (is_truthy r.id ≡ true))
      (sym e) (refl, refl)
keyed-IsFiled rec (there m) = elim m [ ]

find_idempotent_message-IsAnswer_example :
    IsAnswer (("msg-1", keyed) ∷ []) (entry_key "root" "tester-01" "task:task-1:test") (
      find_idempotent_message no_index
        (("msg-1", keyed) ∷ [])
        "root"
        "tester-01"
        "task:task-1:test")
find_idempotent_message-IsAnswer_example =
    find_idempotent_message-IsAnswer no_index (("msg-1", keyed) ∷ []) "root" "tester-01"
      "task:task-1:test" keyed-IsFiled no_index-IsCurrent

-- The index is built for one message; another is added and the first one is collected, so there are as
-- many as before, and the key of the new one is not found.
overlooked :
    (find_idempotent_message
      (find_idempotent_message no_index
        (("msg-0", assignment) ∷ [])
        "root"
        "tester-01"
        "task:task-1:test").0
      (erase "msg-0" (put "msg-1" keyed (("msg-0", assignment) ∷ [])))
      "root"
      "tester-01"
      "task:task-1:test").1
    ≡ none
unfolding find_idempotent_message current_index build_index add_entry entry_of lookup entry_key keys
    values put erase
overlooked = refl
