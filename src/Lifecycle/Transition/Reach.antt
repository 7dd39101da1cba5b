-- ===== src/Lifecycle/Transition/Reach.antt =====
-- lifecycle.ts: the statuses that a node can come to by allowed transitions.
use pi_graph_loop.Prelude.{true, false, ◌≡◌, ◌≢◌, refl, ◌↔◌, subst, sym, ◌∙◌, arith}
use pi_graph_loop.Types.{TaskNodeStatus}
use pi_graph_loop.Lifecycle.Transition.{is_terminal_node_status, is_allowed_node_transition}

pub data Reach (s : TaskNodeStatus) : TaskNodeStatus → Type 0 where
  stay : Reach s s
  next : {t u : TaskNodeStatus} → Reach s t → is_allowed_node_transition t u ≡ true → Reach s u

-- One transition out of a terminal status is none.
terminal_stays :
    (s t : TaskNodeStatus)
    → is_terminal_node_status s ≡ true
    → is_allowed_node_transition s t ≡ true
    → t ≡ s
unfolding is_allowed_node_transition
terminal_stays s t h k = ground arith

-- A node that is done, failed, skipped or cancelled has that status after any number of allowed
-- transitions.
pub terminal_forever : {s t : TaskNodeStatus} → is_terminal_node_status s ≡ true → Reach s t → t ≡ s
terminal_forever h stay = refl
terminal_forever {s} h (next {t = t} {u = u} r k) =
    let e = terminal_forever h r in
    terminal_stays t u (subst (λ x. is_terminal_node_status x ≡ true) (sym e) h) k ∙ e

cancel_iff :
    (s : TaskNodeStatus)
    → s ≢ TaskNodeStatus.cancelled
    → (is_allowed_node_transition s TaskNodeStatus.cancelled ≡ true)
      ↔ (is_terminal_node_status s ≡ false)
unfolding is_allowed_node_transition
cancel_iff s h = ground arith

pending_reaches : (s : TaskNodeStatus) → Reach TaskNodeStatus.pending s
unfolding is_allowed_node_transition
pending_reaches TaskNodeStatus.pending = stay
pending_reaches TaskNodeStatus.in_progress =
    next {t = TaskNodeStatus.assigned} (next stay refl) refl
pending_reaches TaskNodeStatus.done = next {t = TaskNodeStatus.assigned} (next stay refl) refl
pending_reaches TaskNodeStatus.ready = next stay refl
pending_reaches TaskNodeStatus.assigned = next stay refl
pending_reaches TaskNodeStatus.blocked = next stay refl
pending_reaches TaskNodeStatus.failed = next stay refl
pending_reaches TaskNodeStatus.skipped = next stay refl
pending_reaches TaskNodeStatus.cancelled = next stay refl

-- Every node that is not cancelled can be cancelled in one transition unless it is done, failed or
-- skipped; and a pending node can come to every status.
cancel_allowed :
    (s : TaskNodeStatus)
    → s ≢ TaskNodeStatus.cancelled
    → ((is_allowed_node_transition s TaskNodeStatus.cancelled ≡ true)
        ↔ (is_terminal_node_status s ≡ false))
      × Reach TaskNodeStatus.pending s
cancel_allowed s h = (cancel_iff s h, pending_reaches s)
