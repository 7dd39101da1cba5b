-- ===== src/Lifecycle/Attempt/Lease.antt =====
-- lifecycle.ts, graph.ts: at most one attempt at a node is active, and it is the node's own.
use pi_graph_loop.Prelude.{
  String, true, false, ◌≡◌, refl, inl, inr, Option, none, some, List, [], ◌∷◌, modify_first,
  default_to, includes, IsDistinct, All, Bool-cases, eq_iff, ◌==◌, ||-false, subst, arith,
}
use pi_graph_loop.Types.{TaskNodeAttempt, TaskNode, Stamp, is_active}
use pi_graph_loop.Graph.Rework.{
  mark_prior, supersede_by_rework, supersede_by_force_reopen, reopen_target,
  suppress_prior_attempt_for_force_reopen,
}
use pi_graph_loop.Lifecycle.Attempt.{supersede_by_mint}

abbrev pub history_of : TaskNode → List TaskNodeAttempt
history_of node = default_to [] node.attempt_history

abbrev pub ids : List TaskNodeAttempt → List String
ids [] = []
ids (a ∷ history) = a.attempt_id ∷ ids history

-- Where `current` is the node's active attempt.
abbrev pub Owned : Option String → TaskNodeAttempt → Type 0
Owned current a = is_active a.status ≡ true → current ≡ some a.attempt_id

abbrev pub Inactive : TaskNodeAttempt → Type 0
Inactive a = is_active a.status ≡ false

-- Each attempt has an id of its own, and an attempt that is active is the one that the node names.
pub record IsLeased (node : TaskNode) : Type 0 where
  pub distinct : IsDistinct (ids (history_of node))
  pub owned : All (Owned node.active_attempt_id) (history_of node)

module _ (f : TaskNodeAttempt → TaskNodeAttempt)
    (same_id : (a : TaskNodeAttempt) → (f a).attempt_id ≡ a.attempt_id) where
  ids-modify_first :
      (id : String) (history : List TaskNodeAttempt)
      → ids (modify_first (λ a. a.attempt_id == id) f history) ≡ ids history
  ids-modify_first id [] = refl
  ids-modify_first id (a ∷ history) = ground (arith, same_id a, ids-modify_first id history)

  pub ids-mark_prior :
      (current : Option String) (history : Option (List TaskNodeAttempt))
      → ids (default_to [] (mark_prior f current history)) ≡ ids (default_to [] history)
  ids-mark_prior (some id) (some history) = ids-modify_first id history
  ids-mark_prior (some id) none = refl
  ids-mark_prior none history = refl

others-Inactive :
    (id : String) (history : List TaskNodeAttempt)
    → All (Owned (some id)) history
    → includes (ids history) id ≡ false
    → All Inactive history
unfolding includes
others-Inactive id [] o n = tt
others-Inactive id (a ∷ history) o n = (
  ground (arith, o.0, eq_iff a.attempt_id id),
  others-Inactive id history o.1 (||-false (a.attempt_id == id) (includes (ids history) id) n).1,
)

module _ (f : TaskNodeAttempt → TaskNodeAttempt)
    (ends : (a : TaskNodeAttempt) → Inactive (f a)) where
  Inactive-modify_first :
      (id : String) (history : List TaskNodeAttempt)
      → All (Owned (some id)) history
      → IsDistinct (ids history)
      → All Inactive (modify_first (λ a. a.attempt_id == id) f history)
  Inactive-modify_first id [] o d = tt
  Inactive-modify_first id (a ∷ history) o d = elim (Bool-cases (a.attempt_id == id)) [
    | inl same ↦ rw same (
      ends a,
      others-Inactive id history o.1
          (subst (λ x. includes (ids history) x ≡ false) ((eq_iff a.attempt_id id).0 same) d.0),
    )
    | inr other ↦ rw other (
      ground (arith, o.0, other, eq_iff a.attempt_id id),
      Inactive-modify_first id history o.1 d.1,
    )
  ]

  unowned-Inactive :
      (history : List TaskNodeAttempt) → All (Owned none) history → All Inactive history
  unowned-Inactive [] o = tt
  unowned-Inactive (a ∷ history) o = (ground (arith, o.0), unowned-Inactive history o.1)

  pub Inactive-mark_prior :
      (current : Option String) (history : Option (List TaskNodeAttempt))
      → All (Owned current) (default_to [] history)
      → IsDistinct (ids (default_to [] history))
      → All Inactive (default_to [] (mark_prior f current history))
  Inactive-mark_prior (some id) (some history) o d = Inactive-modify_first id history o d
  Inactive-mark_prior (some id) none o d = tt
  Inactive-mark_prior none none o d = tt
  Inactive-mark_prior none (some history) o d = unowned-Inactive history o

pub Inactive-Owned :
    (current : Option String) (history : List TaskNodeAttempt)
    → All Inactive history
    → All (Owned current) history
Inactive-Owned current [] h = tt
Inactive-Owned current (a ∷ history) h = (λ e. cc (h.0), Inactive-Owned current history h.1)

rework_ends : (now : Stamp) (a : TaskNodeAttempt) → Inactive (supersede_by_rework now a)
unfolding supersede_by_rework
rework_ends now a = ground arith

rework_id :
    (now : Stamp) (a : TaskNodeAttempt) → (supersede_by_rework now a).attempt_id ≡ a.attempt_id
unfolding supersede_by_rework
rework_id now a = ground arith

force_ends : (now : Stamp) (a : TaskNodeAttempt) → Inactive (supersede_by_force_reopen now a)
unfolding supersede_by_force_reopen
force_ends now a = ground arith

force_id :
    (now : Stamp) (a : TaskNodeAttempt)
    → (supersede_by_force_reopen now a).attempt_id ≡ a.attempt_id
unfolding supersede_by_force_reopen
force_id now a = ground arith

pub mint_ends :
    (now : Stamp) (id : String) (a : TaskNodeAttempt) → Inactive (supersede_by_mint now id a)
unfolding supersede_by_mint
mint_ends now id a = ground arith

pub mint_id :
    (now : Stamp) (id : String) (a : TaskNodeAttempt)
    → (supersede_by_mint now id a).attempt_id ≡ a.attempt_id
unfolding supersede_by_mint
mint_id now id a = ground arith

-- Reopening a node, by a rework edge or by force, leaves no attempt of it active; the attempts keep
-- their ids, and the node's invariant holds again.
pub reopen-IsLeased :
    (now : Stamp) (node : TaskNode)
    → IsLeased node
    → (IsLeased (reopen_target now node) × All Inactive (history_of (reopen_target now node)))
      × (IsLeased (suppress_prior_attempt_for_force_reopen now node).0
          × All Inactive (history_of (suppress_prior_attempt_for_force_reopen now node).0))
unfolding reopen_target suppress_prior_attempt_for_force_reopen
reopen-IsLeased now node l =
    let rework =
      Inactive-mark_prior (supersede_by_rework now) (rework_ends now) node.active_attempt_id
        node.attempt_history l.owned l.distinct in
    let force =
      Inactive-mark_prior (supersede_by_force_reopen now) (force_ends now) node.active_attempt_id
        node.attempt_history l.owned l.distinct in
    (
      (
        record {
          distinct =
              rw
                (ids-mark_prior (supersede_by_rework now) (rework_id now) node.active_attempt_id
                  node.attempt_history)
                l.distinct;
          owned = Inactive-Owned none _ rework;
        },
        rework,
      ),
      (
        record {
          distinct =
              rw
                (ids-mark_prior (supersede_by_force_reopen now) (force_id now)
                  node.active_attempt_id node.attempt_history)
                l.distinct;
          owned = Inactive-Owned none _ force;
        },
        force,
      ),
    )
