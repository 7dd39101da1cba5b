-- ===== src/Graph/Rework/Loop.antt =====
-- graph.ts: an induction rule for the two loops of `activateReworkNodes`.
use pi_graph_loop.Prelude.{
  String, true, false, ◌≡◌, refl, Option, none, some, List, [], ◌∷◌, foldl, lookup, keys, if_ind,
}
use pi_graph_loop.Types.{TaskNode, TaskEdge, TaskState, Stamp}
use pi_graph_loop.Graph.Activation.{edge_matches_activation, attempt_identity}
use pi_graph_loop.Graph.Rework.{
  ReworkRun, has_consumed_rework, is_reopenable, is_rework_source, fire, suppress, fire_or_suppress,
  activate_found, activate_source, activate_edge, activate_from, activate_rework_nodes,
  source_was_rework_reopened, outgoing,
}

foldl_inv {ℓ κ μ} :
    {S : Type ℓ} {A : Type κ} (P : S → Type μ) (step : S → A → S)
    → ((s : S) (a : A) → P s → P (step s a))
    → (xs : List A) (s : S) → P s
    → P (foldl step s xs)
foldl_inv P step keep [] s p = p
foldl_inv P step keep (x ∷ xs) s p = foldl_inv P step keep xs (step s x) (keep s x p)

-- What is known of an edge when it fires.
pub record Fires (run : ReworkRun) (edge : TaskEdge) (from target : TaskNode) : Type 0 where
  pub matches : edge_matches_activation run.task edge ≡ true
  pub source : lookup edge.from run.task.nodes ≡ some from
  pub found : lookup edge.to run.task.nodes ≡ some target
  pub fresh : has_consumed_rework run.task edge (attempt_identity edge.from from) edge.to ≡ false
  pub reopenable : is_reopenable target.status ≡ true

-- What a run keeps if an edge that fires and a suppressed one keep it.
pub record Rule (now : Stamp) (P : ReworkRun → Type 0) : Type 0 where
  pub fires :
      (run : ReworkRun) (edge : TaskEdge) (from target : TaskNode)
      → Fires run edge from target
      → P run
      → P (fire now edge from target run)
  pub suppressed :
      (run : ReworkRun) (reason : Option String) (edge : TaskEdge) (from target : TaskNode)
      → P run
      → P (suppress now reason edge from target run)

module _ {P : ReworkRun → Type 0} (now : Stamp) (rule : Rule now P) where
  fire_or_suppress_ind :
      (edge : TaskEdge) (from target : TaskNode) (run : ReworkRun)
      → edge_matches_activation run.task edge ≡ true
      → lookup edge.from run.task.nodes ≡ some from
      → lookup edge.to run.task.nodes ≡ some target
      → P run
      → P (fire_or_suppress now edge from target run)
  unfolding fire_or_suppress
  fire_or_suppress_ind edge from target run m s f p =
      if_ind P _ (λ old. rule.suppressed run none edge from target p)
        (λ new.
          if_ind P _
            (λ open'.
              rule.fires run edge from target
                (record { matches = m; source = s; found = f; fresh = new; reopenable = open' }) p)
            (λ shut. rule.suppressed run _ edge from target p))

  activate_found_ind :
      (from target : Option TaskNode) (edge : TaskEdge) (run : ReworkRun)
      → edge_matches_activation run.task edge ≡ true
      → lookup edge.from run.task.nodes ≡ from
      → lookup edge.to run.task.nodes ≡ target
      → P run
      → P (activate_found now from target edge run)
  unfolding activate_found
  activate_found_ind (some from) (some target) edge run m s f p =
      fire_or_suppress_ind edge from target run m s f p
  activate_found_ind (some from) none edge run m s f p = p
  activate_found_ind none target edge run m s f p = p

  activate_edge_ind : (run : ReworkRun) (edge : TaskEdge) → P run → P (activate_edge now run edge)
  unfolding activate_edge
  activate_edge_ind run edge p =
      if_ind P (edge_matches_activation run.task edge)
        (λ m. activate_found_ind _ _ edge run m refl refl p) (λ other. p)

  activate_source_ind :
      (source : Option TaskNode) (run : ReworkRun) (id : String)
      → P run
      → P (activate_source now source run id)
  unfolding activate_source
  activate_source_ind none run id p = p
  activate_source_ind (some source) run id p =
      if_ind P (is_rework_source source.status)
        (λ open'.
          foldl_inv P (activate_edge now) activate_edge_ind
            (outgoing now run.task id (source_was_rework_reopened source)) run p)
        (λ shut. p)

  activate_from_ind : (run : ReworkRun) (id : String) → P run → P (activate_from now run id)
  unfolding activate_from
  activate_from_ind run id p = activate_source_ind (lookup id run.task.nodes) run id p

  pub activate_rework_nodes_ind :
      (task : TaskState)
      → P (record { task = task; reopened = []; traces = [] })
      → P (activate_rework_nodes now task)
  unfolding activate_rework_nodes
  activate_rework_nodes_ind task p =
      foldl_inv P (activate_from now) activate_from_ind (keys task.nodes) _ p
