-- ===== src/Mailbox/Result.antt =====
-- mailbox.ts: `validateResultMessage`. What it throws is a value that carries what the text names.
use pi_graph_loop.Prelude.{
  opt_is, String, Bool, false, not, ◌&&◌, ◌||◌, Option, none, some, List, lookup, is_truthy,
  includes, default_to, opt_eq, ◌==◌, if◌then◌else◌,
}
use pi_graph_loop.Types.{MessageRecord, SwarmState}

-- `INVALID_RESULT_MESSAGE`.
pub data ResultError : Type 0 where
  missing_result : (id : String) → ResultError
  sent_by_other : (id from agent_id : String) → ResultError
  sent_elsewhere : (id to sender : String) → ResultError
  unlinked : (id rec_id conversation_id : String) → ResultError

pub data ResultCheck : Type 0 where
  valid_result : MessageRecord → ResultCheck
  invalid_result : ResultError → ResultCheck

abbrev pub opt_truthy : Option String → Bool
opt_truthy none = false
opt_truthy (some s) = is_truthy s

abbrev pub opt_within : Option (List String) → Option String → Bool
opt_within (some ids) (some id) = includes ids id
opt_within _ _ = false

-- Does the result answer the message, share its conversation, or answer a linked one?
unfoldable pub is_linked : MessageRecord → Option (List String) → MessageRecord → Bool
is_linked rec extra_linked_ids result =
    opt_is result.reply_to rec.id
    || opt_truthy result.conversation_id && opt_eq result.conversation_id rec.conversation_id
    || opt_within extra_linked_ids result.reply_to

unfoldable pub check_result :
    MessageRecord → String → String → Option (List String) → Option MessageRecord → ResultCheck
check_result rec id agent_id extra_linked_ids none = invalid_result (missing_result id)
check_result rec id agent_id extra_linked_ids (some result) =
    if not (result.from == agent_id)
    then invalid_result (sent_by_other id result.from agent_id)
    else if not (result.to == rec.from)
    then invalid_result (sent_elsewhere id result.to rec.from)
    else if not (is_linked rec extra_linked_ids result)
    then invalid_result (unlinked id rec.id (default_to "(none)" rec.conversation_id))
    else valid_result result

unfoldable pub validate_result_message :
    SwarmState → MessageRecord → String → String → Option (List String) → ResultCheck
validate_result_message st rec result_message_id agent_id extra_linked_ids =
    check_result rec result_message_id agent_id extra_linked_ids
      (lookup result_message_id st.messages)
