-- ===== src/Lifecycle/Attempt/Mint.antt =====
-- lifecycle.ts: what `mintNodeAttempt` leaves behind, on its two branches.
use pi_graph_loop.Prelude.{
  String, true, false, ◌≡◌, refl, inl, inr, Option, none, some, List, [], ◌∷◌, ◌++◌, find,
  modify_first, default_to, includes, IsDistinct-concat, All, All-append, Bool-cases, eq_iff, ◌==◌,
  sym, ◌∙◌, arith, ap,
}
use pi_graph_loop.Types.{TaskNodeAttempt, TaskNode, Stamp}
use pi_graph_loop.Graph.Rework.{find_prior, mark_prior}
use pi_graph_loop.Scope.Resolve.{EffectiveScope}
use pi_graph_loop.Lifecycle.Attempt.{
  supersede_by_mint, new_attempt, mint_node_attempt, same_active_assignment, still_held, touch,
  mint_or_reuse, Minted,
}
use pi_graph_loop.Lifecycle.Attempt.Lease.{
  history_of, ids, Owned, IsLeased, ids-mark_prior, Inactive-mark_prior, Inactive-Owned, mint_ends,
  mint_id,
}

ids-concat :
    (xs : List TaskNodeAttempt) (a : TaskNodeAttempt)
    → ids (xs ++ a ∷ []) ≡ ids xs ++ a.attempt_id ∷ []
ids-concat [] a = refl
ids-concat (x ∷ xs) a = ap (λ l. x.attempt_id ∷ l) (ids-concat xs a)

Owned-touch :
    (now : Stamp) (current : Option String) (id : String) (history : List TaskNodeAttempt)
    → All (Owned current) history
    → All (Owned current) (modify_first (λ a. a.attempt_id == id) (touch now) history)
Owned-touch now current id [] o = tt
Owned-touch now current id (a ∷ history) o = elim (Bool-cases (a.attempt_id == id)) [
  | inl same ↦ rw same o
  | inr other ↦ rw other (o.0, Owned-touch now current id history o.1)
]

Owned-mark_touch :
    (now : Stamp) (current prior : Option String) (history : Option (List TaskNodeAttempt))
    → All (Owned current) (default_to [] history)
    → All (Owned current) (default_to [] (mark_prior (touch now) prior history))
Owned-mark_touch now current (some id) (some history) o = Owned-touch now current id history o
Owned-mark_touch now current (some id) none o = o
Owned-mark_touch now current none history o = o

find_id :
    (id : String) (history : List TaskNodeAttempt) {a : TaskNodeAttempt}
    → find (λ b. b.attempt_id == id) history ≡ some a
    → a.attempt_id ≡ id
find_id id [] e = cc e
find_id id (x ∷ xs) {a} e = elim (Bool-cases (x.attempt_id == id)) [
  | inl same ↦ ground (arith, e, same, eq_iff x.attempt_id id)
  | inr other ↦ find_id id xs {a = a} (ground (arith, e, other))
]

find_prior_id :
    (current : Option String) (history : Option (List TaskNodeAttempt)) {a : TaskNodeAttempt}
    → find_prior current history ≡ some a
    → current ≡ some a.attempt_id
find_prior_id (some id) (some history) e = ap some (sym (find_id id history e))
find_prior_id (some id) none e = cc e
find_prior_id none history e = cc e

still_held-some :
    (node : TaskNode) (assignee : String) (o : Option TaskNodeAttempt) (a : TaskNodeAttempt)
    → still_held node assignee o ≡ some a
    → o ≡ some a
still_held-some node assignee none a e = cc e
still_held-some node assignee (some b) a e = ground arith

same_active_prior :
    (node : TaskNode) (assignee : String) (a : TaskNodeAttempt)
    → same_active_assignment node assignee ≡ some a
    → node.active_attempt_id ≡ some a.attempt_id
unfolding same_active_assignment
same_active_prior node assignee a e =
    find_prior_id node.active_attempt_id node.attempt_history
      (still_held-some node assignee (find_prior node.active_attempt_id node.attempt_history) a e)

-- The postcondition of a call that was given the unused identity `attempt_id`.
pub record IsMinted (node : TaskNode) (attempt_id : String) (m : Minted) : Type 0 where
  pub leased : IsLeased m.node
  pub current : m.node.active_attempt_id ≡ some m.attempt_id
  pub grown : m.created ≡ true → ids (history_of m.node) ≡ ids (history_of node) ++ attempt_id ∷ []
  pub reused : m.created ≡ false → ids (history_of m.node) ≡ ids (history_of node)

module _ (now : Stamp) (node : TaskNode) (assignee attempt_id : String) (scope : EffectiveScope)
    (l : IsLeased node) where
  mint_reused :
      (a : TaskNodeAttempt)
      → node.active_attempt_id ≡ some a.attempt_id
      → IsMinted node attempt_id (mint_or_reuse now (some a) node assignee attempt_id scope)
  unfolding mint_or_reuse
  mint_reused a e =
      let same =
        ids-mark_prior (touch now) (λ b. refl) node.active_attempt_id node.attempt_history in
      record {
        leased = record {
          distinct = rw same l.distinct;
          owned =
              Owned-mark_touch now node.active_attempt_id node.active_attempt_id
                node.attempt_history l.owned;
        };
        current = e;
        grown = λ h. cc h;
        reused = λ h. same;
      }

  mint_created :
      includes (ids (history_of node)) attempt_id ≡ false
      → IsMinted node attempt_id (mint_or_reuse now none node assignee attempt_id scope)
  unfolding mint_or_reuse
  mint_created fresh =
      let f = supersede_by_mint now attempt_id in
      let marked = default_to [] (mark_prior f node.active_attempt_id node.attempt_history) in
      let a = new_attempt now node assignee attempt_id scope in
      let same =
        ids-mark_prior f (mint_id now attempt_id) node.active_attempt_id node.attempt_history in
      let longer : ids (marked ++ a ∷ []) ≡ ids (history_of node) ++ attempt_id ∷ [] =
        ids-concat marked a ∙ ap (λ (x : List String). x ++ attempt_id ∷ []) same in
      record {
        leased = record {
          distinct =
              rw longer (IsDistinct-concat (ids (history_of node)) attempt_id l.distinct fresh);
          owned =
              All-append (Owned (some attempt_id)) marked (a ∷ [])
                (Inactive-Owned (some attempt_id) marked (
                  Inactive-mark_prior f (mint_ends now attempt_id) node.active_attempt_id
                    node.attempt_history l.owned l.distinct))
                (λ e. refl, tt);
        };
        current = refl;
        grown = λ h. longer;
        reused = λ h. cc h;
      }

-- Given an identity that no attempt of the node has, `mintNodeAttempt` keeps the invariant that only
-- the node's own attempt is active, and returns the id of that attempt; it adds one attempt under the
-- new identity when it says `created`, and no attempt when it does not.
pub mint_node_attempt-IsMinted :
    (now : Stamp) (node : TaskNode) (assignee attempt_id : String) (scope : EffectiveScope)
    → IsLeased node
    → includes (ids (history_of node)) attempt_id ≡ false
    → IsMinted node attempt_id (mint_node_attempt now node assignee attempt_id scope)
unfolding mint_node_attempt
mint_node_attempt-IsMinted now node assignee attempt_id scope l fresh =
    at (same_active_assignment node assignee) refl
  where
    at :
        (o : Option TaskNodeAttempt)
        → same_active_assignment node assignee ≡ o
        → IsMinted node attempt_id (mint_or_reuse now o node assignee attempt_id scope)
    at none e = mint_created now node assignee attempt_id scope l fresh
    at (some a) e =
        mint_reused now node assignee attempt_id scope l a (same_active_prior node assignee a e)
