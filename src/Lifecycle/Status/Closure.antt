-- ===== src/Lifecycle/Status/Closure.antt =====
-- lifecycle.ts: when the derived status of a task says that it is closed.
use pi_graph_loop.Prelude.{
  is_nil, Bool, true, false, not, ◌&&◌, ◌≡◌, ◌≢◌, refl, ◌↔◌, ◌⊎◌, inl, inr, List, [], ◌∷◌, any, all,
  All, Bool-cases, &&-split, ||-false, not-true, arith,
}
use pi_graph_loop.Types.{TaskNodeStatus, TaskStatus, TaskNode, TaskState, same_task_status}
use pi_graph_loop.Graph.Readiness.{has_outgoing_task_edge, is_done_or_skipped}
use pi_graph_loop.Lifecycle.Transition.{is_task_cancelled}
use pi_graph_loop.Lifecycle.Status.{
  has_failed, has_live, has_settled, has_all_blocked, has_started, is_failed, is_live, open_nodes,
  terminal_nodes, compute_task_status, apply_task_status, is_closed_status,
}

module _ {A : Type 0} (P : A → Type 0) (p : A → Bool) (sound : (a : A) → (p a ≡ true) ↔ P a) where
  any-false : (xs : List A) → any p xs ≡ false → All (λ a. ¬ P a) xs
  any-false [] h = tt
  any-false (x ∷ xs) h =
      let (no', rest) = ||-false (p x) (any p xs) h in
      (λ y. cc ((sound x).1 y, no'), any-false xs rest)

  any-not : (xs : List A) → All (λ a. ¬ P a) xs → any p xs ≡ false
  any-not [] h = refl
  any-not (x ∷ xs) h = elim (Bool-cases (p x)) [
    | inl t ↦ absurd (h.0 ((sound x).0 t))
    | inr f ↦ rw f (any-not xs h.1)
  ]

  all-true : (xs : List A) → all p xs ≡ true → All P xs
  all-true [] h = tt
  all-true (x ∷ xs) h =
      let (a, rest) = &&-split (p x) (all p xs) h in ((sound x).0 a, all-true xs rest)

  all-holds : (xs : List A) → All P xs → all p xs ≡ true
  all-holds [] h = refl
  all-holds (x ∷ xs) h = rw ((sound x).1 h.0) (all-holds xs h.1)

abbrev Failed : TaskNode → Type 0
Failed n = n.status ≡ TaskNodeStatus.failed

abbrev Live : TaskNode → Type 0
Live n =
    (n.status ≡ TaskNodeStatus.assigned)
    ⊎ (n.status ≡ TaskNodeStatus.in_progress)
    ⊎ (n.status ≡ TaskNodeStatus.ready)

abbrev Settled : TaskNode → Type 0
Settled n = (n.status ≡ TaskNodeStatus.done) ⊎ (n.status ≡ TaskNodeStatus.skipped)

Failed-iff : (n : TaskNode) → (is_failed n.status ≡ true) ↔ Failed n
Failed-iff n = ground arith

Live-iff : (n : TaskNode) → (is_live n.status ≡ true) ↔ Live n
Live-iff n = ground arith

Settled-iff : (n : TaskNode) → (is_done_or_skipped n.status ≡ true) ↔ Settled n
Settled-iff n = ground arith

-- What "done" means, apart from the code: no open node has failed or is still at work, the graph has
-- a terminal node that is not cancelled, and each of these is done or skipped.
pub record IsFinished (task : TaskState) : Type 0 where
  pub none_failed : All (λ n. ¬ Failed n) (open_nodes task)
  pub none_live : All (λ n. ¬ Live n) (open_nodes task)
  pub some_terminal : terminal_nodes task ≢ []
  pub all_settled : All Settled (terminal_nodes task)

nonempty {ℓ} : {A : Type ℓ} (xs : List A) → not (is_nil xs) ≡ true → xs ≢ []
nonempty xs h e = ground arith

nonempty_test {ℓ} : {A : Type ℓ} (xs : List A) → xs ≢ [] → not (is_nil xs) ≡ true
nonempty_test [] h = absurd (h refl)
nonempty_test (x ∷ xs) h = refl

done_split :
    (task : TaskState)
    → compute_task_status task ≡ TaskStatus.done
    → (has_failed task ≡ false) × (has_settled task ≡ true)
unfolding compute_task_status
done_split task h = ground arith

done→IsFinished : (task : TaskState) → compute_task_status task ≡ TaskStatus.done → IsFinished task
unfolding has_failed has_settled has_live
done→IsFinished task h =
    let (f, s) = done_split task h in
    let (nl, a) =
      &&-split (not (is_nil (terminal_nodes task)) && not (has_live task))
        (all (λ n. is_done_or_skipped n.status) (terminal_nodes task)) s in
    let (n, l) = &&-split (not (is_nil (terminal_nodes task))) (not (has_live task)) nl in
    record {
      none_failed = any-false Failed _ Failed-iff (open_nodes task) f;
      none_live = any-false Live _ Live-iff (open_nodes task) (not-true _ l);
      some_terminal = nonempty (terminal_nodes task) n;
      all_settled = all-true Settled _ Settled-iff (terminal_nodes task) a;
    }

finished_tests :
    (task : TaskState) → IsFinished task → (has_failed task ≡ false) × (has_settled task ≡ true)
unfolding has_failed has_settled has_live
finished_tests task f = (
  any-not Failed _ Failed-iff (open_nodes task) f.none_failed,
  rw
      (
        nonempty_test (terminal_nodes task) f.some_terminal,
        any-not Live _ Live-iff (open_nodes task) f.none_live,
      )
      (all-holds Settled _ Settled-iff (terminal_nodes task) f.all_settled),
)

IsFinished→done : (task : TaskState) → IsFinished task → compute_task_status task ≡ TaskStatus.done
unfolding compute_task_status
IsFinished→done task f = let (a, b) = finished_tests task f in rw (a, b)

-- The derived status is "done" exactly when no node that is not cancelled has failed or is still
-- assigned, in progress or ready, there is a terminal node that is not cancelled, and every such
-- terminal node is done or skipped.
pub compute_task_status-done_iff :
    (task : TaskState) → (compute_task_status task ≡ TaskStatus.done) ↔ IsFinished task
compute_task_status-done_iff task = (done→IsFinished task, IsFinished→done task)

status_irrelevant :
    (task : TaskState) (s : TaskStatus)
    → compute_task_status (record task { status = s }) ≡ compute_task_status task
unfolding compute_task_status has_failed has_settled has_all_blocked has_started
    has_outgoing_task_edge
status_irrelevant task s = refl

same_status_refl : (s : TaskStatus) → same_task_status s s ≡ true
same_status_refl s = ground arith

compute-ne-cancelled : (task : TaskState) → is_task_cancelled (compute_task_status task) ≡ false
unfolding compute_task_status
compute-ne-cancelled task = ground arith

-- A cancelled task is left as it is. For any other task a second call changes nothing, the reported
-- `terminal` is that of the status then stored, and the call does not make the task cancelled.
pub apply_task_status_settles :
    (task : TaskState)
    → (is_task_cancelled task.status ≡ true → (apply_task_status task).0 ≡ task)
      × (is_task_cancelled task.status ≡ false
          → ((apply_task_status (apply_task_status task).0).0 ≡ (apply_task_status task).0)
            × ((apply_task_status (apply_task_status task).0).1.changed ≡ false)
            × ((apply_task_status task).1.terminal
                ≡ is_closed_status (apply_task_status task).0.status)
            × (is_task_cancelled (apply_task_status task).0.status ≡ false))
unfolding apply_task_status
apply_task_status_settles task =
    let s = compute_task_status task in
    (
      λ h. rw h,
      λ h.
          rw (h, compute-ne-cancelled task, status_irrelevant task s, same_status_refl s)
            (refl, refl, refl, refl),
    )
