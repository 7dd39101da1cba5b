-- ===== src/Graph/Rework/Ledger.antt =====
-- graph.ts: the ledger of the firings, `task.reworkConsumption`.
use pi_graph_loop.Prelude.{
  ◌+◌, String, false, ◌≡◌, refl, ||-false, List, [], ◌∷◌, ◌++◌, any, length, length-append, All,
  modify, eq_iff, arith,
}
use pi_graph_loop.Types.{TaskNode, TaskEdge, TaskState, ReworkConsumptionRecord, Stamp}
use pi_graph_loop.Graph.Activation.{rework_edge_key, attempt_identity}
use pi_graph_loop.Graph.Rework.{
  ReworkRun, consumes, has_consumed_rework, reopen_target, fire, activate_rework_nodes, suppress,
}
use pi_graph_loop.Graph.Rework.Loop.{Fires, Rule, activate_rework_nodes_ind}

-- The same edge, fired by the same attempt at its source, for the same target.
abbrev SameFiring : ReworkConsumptionRecord → ReworkConsumptionRecord → Type 0
SameFiring r s =
    (r.edge_key ≡ s.edge_key)
    × (r.source_node_id ≡ s.source_node_id)
    × (r.source_attempt_id ≡ s.source_attempt_id)
    × (r.reopened_node_id ≡ s.reopened_node_id)

-- No firing is recorded twice.
abbrev pub IsLedger : List ReworkConsumptionRecord → Type 0
IsLedger [] = Unit
IsLedger (r ∷ rs) = All (λ s. ¬ SameFiring r s) rs × IsLedger rs

abbrev consumption : Stamp → TaskEdge → TaskNode → ReworkConsumptionRecord
consumption now edge from = record {
  edge_key = rework_edge_key edge;
  source_node_id = edge.from;
  source_attempt_id = attempt_identity edge.from from;
  reopened_node_id = edge.to;
  consumed_at = now;
  source_status = from.status;
  source_outcome = from.outcome;
}

module _ (now : Stamp) {run : ReworkRun} {edge : TaskEdge} {from target : TaskNode} where
  -- What a firing leaves of the task.
  fire-task :
      Fires run edge from target
      → (fire now edge from target run).task ≡ record run.task {
        nodes = modify edge.to (reopen_target now) run.task.nodes;
        rework_consumption = run.task.rework_consumption ++ consumption now edge from ∷ [];
      }
  unfolding fire has_consumed_rework
  fire-task h = rw h.fresh

IsLedger-concat :
    (rs : List ReworkConsumptionRecord) (r : ReworkConsumptionRecord)
    → IsLedger rs
    → All (λ s. ¬ SameFiring s r) rs
    → IsLedger (rs ++ r ∷ [])
IsLedger-concat [] r h k = (tt, tt)
IsLedger-concat (s ∷ rs) r h k = (All-concat rs h.0 k.0, IsLedger-concat rs r h.1 k.1)
  where
    All-concat :
        (xs : List ReworkConsumptionRecord)
        → All (λ x. ¬ SameFiring s x) xs
        → ¬ SameFiring s r
        → All (λ x. ¬ SameFiring s x) (xs ++ r ∷ [])
    All-concat [] a p = (p, tt)
    All-concat (x ∷ xs) a p = (a.0, All-concat xs a.1 p)

fresh_firing :
    (edge : TaskEdge) (id to : String) (r s : ReworkConsumptionRecord)
    → r.edge_key ≡ rework_edge_key edge
    → r.source_node_id ≡ edge.from
    → r.source_attempt_id ≡ id
    → r.reopened_node_id ≡ to
    → consumes edge id to s ≡ false
    → ¬ SameFiring s r
unfolding consumes
fresh_firing edge id to r s a b c d e (k, l, m, n) = ground (
  arith,
  eq_iff s.edge_key (rework_edge_key edge),
  eq_iff s.source_node_id edge.from,
  eq_iff s.source_attempt_id id,
  eq_iff s.reopened_node_id to,
)

fresh_firings :
    (edge : TaskEdge) (id to : String) (r : ReworkConsumptionRecord)
    (rs : List ReworkConsumptionRecord)
    → r.edge_key ≡ rework_edge_key edge
    → r.source_node_id ≡ edge.from
    → r.source_attempt_id ≡ id
    → r.reopened_node_id ≡ to
    → any (consumes edge id to) rs ≡ false
    → All (λ s. ¬ SameFiring s r) rs
fresh_firings edge id to r [] a b c d e = tt
fresh_firings edge id to r (s ∷ rs) a b c d e =
    let (new, rest) = ||-false _ _ e in
    (fresh_firing edge id to r s a b c d new, fresh_firings edge id to r rs a b c d rest)

-- A run's ledger, and its growth against that of the task at the start.
record IsAccounted (task : TaskState) (run : ReworkRun) : Type 0 where
  ledger : IsLedger run.task.rework_consumption
  counted :
      length run.task.rework_consumption ≡ length task.rework_consumption + length run.reopened

fire-IsAccounted :
    (now : Stamp) (task : TaskState) (run : ReworkRun) (edge : TaskEdge) (from target : TaskNode)
    → Fires run edge from target
    → IsAccounted task run
    → IsAccounted task (fire now edge from target run)
unfolding fire has_consumed_rework
fire-IsAccounted now task run edge from target h p = rw h.fresh (record {
  ledger =
      IsLedger-concat _ _ p.ledger
        (fresh_firings edge _ _ (consumption now edge from) _ refl refl refl refl h.fresh);
  counted = omega (
    arith,
    p.counted,
    length-append run.task.rework_consumption (consumption now edge from ∷ []),
    length-append run.reopened (edge.to ∷ []),
  );
})

accounting : (now : Stamp) (task : TaskState) → Rule now (IsAccounted task)
unfolding suppress
accounting now task = record {
  fires = fire-IsAccounted now task;
  suppressed = λ run reason edge from target p. record { ledger = p.ledger; counted = p.counted };
}

-- From a ledger without double entries `activateReworkNodes` makes a ledger without double
-- entries, so that no attempt fires one edge twice; and it adds one entry for each reopened node.
pub activate_rework_nodes-IsLedger :
    (now : Stamp) (task : TaskState)
    → IsLedger task.rework_consumption
    → IsLedger (activate_rework_nodes now task).task.rework_consumption
      × (length (activate_rework_nodes now task).task.rework_consumption
          ≡ length task.rework_consumption + length (activate_rework_nodes now task).reopened)
activate_rework_nodes-IsLedger now task h =
    let p =
      activate_rework_nodes_ind now (accounting now task) task
        (record { ledger = h; counted = omega arith }) in
    (p.ledger, p.counted)
