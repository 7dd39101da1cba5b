-- ===== src/Gc/Safe.antt =====
-- agent-gc.ts: which agents can be purged, and what a purge leaves alone.
use pi_graph_loop.Prelude.{
  ℕ, ◌-◌, ◌≤◌, String, true, false, not, ◌&&◌, ◌≡◌, refl, ◌⊎◌, inl, inr, Option, none, some, List,
  [], ◌∷◌, ◌++◌, foldl, Record, lookup, keys, IsDistinct, All-stored, erase, lookup-erase, All,
  includes, includes-concat, ◌==◌, eq_iff, default_to, if_ind, &&-split, ||-split, not-true, subst,
  arith, sym, ◌∙◌,
}
use pi_graph_loop.Types.{SwarmAgent, SwarmState, AgentStatus}
use pi_graph_loop.Attention.Evidence.{is_stopped}
use pi_graph_loop.Gc.{
  Graphs, stopped_since_ms, is_task_referenced, has_response_debt, StoppedGcCandidate, candidate,
  candidates_of, is_aged, age_of, stopped_gc_candidates, default_stopped_older_than_ms, GcRun,
  purge_agent_ledgers, purge_agent, apply_candidate, apply_stopped_gc,
}

-- What makes the record of an agent disposable.
pub record IsDisposable (st : SwarmState) (min_age now_ms : ℕ) (graphs : Graphs) (id : String)
    : Type 0 where
  pub agent : SwarmAgent
  pub stored : lookup id st.agents ≡ some agent
  pub not_root : (id == "root") ≡ false
  pub stopped : agent.status ≡ AgentStatus.stopped
  pub since : ℕ
  pub stamped : stopped_since_ms agent ≡ some since
  pub old_enough : min_age ≤ now_ms - since
  pub unreferenced : is_task_referenced id graphs ≡ false
  pub debt_free : has_response_debt st id ≡ false

is_aged_split :
    (min_age now_ms : ℕ) (since : Option ℕ)
    → is_aged min_age (age_of now_ms since) ≡ true
    → (t : ℕ) × (since ≡ some t) × (min_age ≤ now_ms - t)
is_aged_split min_age now_ms none h = cc h
is_aged_split min_age now_ms (some t) h = (t, refl, ground arith)

module _ (st : SwarmState) (min_age now_ms : ℕ) (graphs : Graphs) where
  eligible_split :
      (id : String) (agent : SwarmAgent)
      → (candidate st min_age now_ms graphs id agent).eligible ≡ true
      → (is_aged min_age (age_of now_ms (stopped_since_ms agent)) ≡ true)
        × (is_task_referenced id graphs ≡ false)
        × (has_response_debt st id ≡ false)
  unfolding candidate
  eligible_split id agent h = ground arith

  candidate-IsDisposable :
      (id : String) (agent : SwarmAgent)
      → lookup id st.agents ≡ some agent
      → (id == "root") ≡ false
      → is_stopped agent.status ≡ true
      → (candidate st min_age now_ms graphs id agent).eligible ≡ true
      → IsDisposable st min_age now_ms graphs id
  candidate-IsDisposable id agent stored r s h =
      let (aged, unreferenced, debt_free) = eligible_split id agent h in
      let (t, stamped, old_enough) = is_aged_split min_age now_ms (stopped_since_ms agent) aged in
      record {
        agent = agent;
        stored = stored;
        not_root = r;
        stopped = ground (arith, s);
        since = t;
        stamped = stamped;
        old_enough = old_enough;
        unreferenced = unreferenced;
        debt_free = debt_free;
      }

  abbrev Justified : StoppedGcCandidate → Type 0
  Justified c = c.eligible ≡ true → IsDisposable st min_age now_ms graphs c.agent_id

  candidate_id :
      (id : String) (agent : SwarmAgent)
      → (candidate st min_age now_ms graphs id agent).agent_id ≡ id
  unfolding candidate
  candidate_id id agent = refl

  candidates_of-Justified :
      (agents : Record SwarmAgent)
      → All (λ (e : String × SwarmAgent). lookup e.0 st.agents ≡ some e.1) agents
      → All Justified (candidates_of st min_age now_ms graphs agents)
  unfolding candidates_of
  candidates_of-Justified [] stored = tt
  candidates_of-Justified ((id, agent) ∷ agents) (here_stored, stored) =
      if_ind (All Justified) (not (id == "root") && is_stopped agent.status)
        (λ h.
          let (r, s) = &&-split (not (id == "root")) (is_stopped agent.status) h in
          (
            λ e. rw candidate_id (candidate-IsDisposable id agent here_stored (not-true _ r) s e),
            candidates_of-Justified agents stored,
          ))
        (λ h. candidates_of-Justified agents stored)

-- What a run that is not dry has done so far to the records that `st` holds.
pub record IsPurge (st : SwarmState) (D : String → Type 0) (run : GcRun) : Type 0 where
  pub justified : (id : String) → includes run.purged id ≡ true → D id
  pub gone : (id : String) → includes run.purged id ≡ true → lookup id run.st.agents ≡ none
  pub kept :
      (id : String)
      → includes run.purged id ≡ false
      → (lookup id run.st.agents ≡ lookup id st.agents)
        × (lookup id run.st.delivered ≡ lookup id st.delivered)
  pub messages : run.st.messages ≡ st.messages

-- The last id of a list that grew by one either stood in it or is the new one.
includes-grown :
    (xs : List String) (k j : String)
    → includes (xs ++ k ∷ []) j ≡ true
    → (includes xs j ≡ true) ⊎ (k ≡ j)
includes-grown xs k j m =
    elim (||-split (includes xs j) (k == j) (sym (includes-concat xs k j) ∙ m)) [
      | inl old ↦ inl old
      | inr new ↦ inr ((eq_iff k j).0 new)
    ]

includes-not_grown :
    (xs : List String) (k j : String)
    → includes (xs ++ k ∷ []) j ≡ false
    → (includes xs j ≡ false) × ((k == j) ≡ false)
includes-not_grown xs k j m =
    (ground (arith, m, includes-concat xs k j), ground (arith, m, includes-concat xs k j))

module _ {V : Type 0} (k j : String) (r : Record V) where
  lookup-erase_gone : lookup j r ≡ none → lookup j (erase k r) ≡ none
  lookup-erase_gone h = ground (arith, lookup-erase k j r)

  lookup-erase_hit : k ≡ j → lookup j (erase k r) ≡ none
  lookup-erase_hit h = ground (arith, lookup-erase k j r, eq_iff k j)

  lookup-erase_miss : (k == j) ≡ false → lookup j (erase k r) ≡ lookup j r
  lookup-erase_miss h = ground (arith, lookup-erase k j r)

module _ (st : SwarmState) (D : String → Type 0) where
  apply_candidate-IsPurge :
      (run : GcRun) (c : StoppedGcCandidate)
      → (c.eligible ≡ true → D c.agent_id)
      → IsPurge st D run
      → IsPurge st D (apply_candidate false run c)
  unfolding apply_candidate purge_agent purge_agent_ledgers
  apply_candidate-IsPurge run c d p =
      if_ind (IsPurge st D) c.eligible
        (λ e. record {
          justified = λ id m. elim (includes-grown run.purged c.agent_id id m) [
            | inl old ↦ p.justified id old
            | inr new ↦ subst D new (d e)
          ];
          gone = λ id m. elim (includes-grown run.purged c.agent_id id m) [
            | inl old ↦ lookup-erase_gone c.agent_id id run.st.agents (p.gone id old)
            | inr new ↦ lookup-erase_hit c.agent_id id run.st.agents new
          ];
          kept = λ id m.
              let (old, new) = includes-not_grown run.purged c.agent_id id m in
              let (agents, delivered) = p.kept id old in
              (
                lookup-erase_miss c.agent_id id run.st.agents new ∙ agents,
                lookup-erase_miss c.agent_id id run.st.delivered new ∙ delivered,
              );
          messages = p.messages;
        })
        (λ other. record {
          justified = p.justified;
          gone = p.gone;
          kept = p.kept;
          messages = p.messages;
        })

  foldl-IsPurge :
      (cs : List StoppedGcCandidate) (run : GcRun)
      → All (λ (c : StoppedGcCandidate). c.eligible ≡ true → D c.agent_id) cs
      → IsPurge st D run
      → IsPurge st D (foldl (apply_candidate false) run cs)
  foldl-IsPurge [] run ds p = p
  foldl-IsPurge (c ∷ cs) run ds p =
      foldl-IsPurge cs (apply_candidate false run c) ds.1 (apply_candidate-IsPurge run c ds.0 p)

module _ (st : SwarmState) (older_than : Option ℕ) (now_ms : ℕ) (graphs : Graphs) where
  -- Where no id stands twice among the agents, a run over the candidates of a state purges only agents
  -- other than the root whose record in the state is stopped, has a last stamp at least as old as the threshold, is the assignee of no open node and owes no response;
  -- each purged record is gone, every other record, its delivered list and all messages stay.
  pub apply_stopped_gc-IsPurge :
      IsDistinct (keys st.agents)
      → IsPurge st
          (IsDisposable st (default_to default_stopped_older_than_ms older_than) now_ms graphs)
          (apply_stopped_gc st (stopped_gc_candidates st older_than now_ms graphs) false)
  unfolding apply_stopped_gc stopped_gc_candidates includes
  apply_stopped_gc-IsPurge distinct =
      let min_age = default_to default_stopped_older_than_ms older_than in
      foldl-IsPurge st (IsDisposable st min_age now_ms graphs)
        (candidates_of st min_age now_ms graphs st.agents)
        (record { st = st; purged = []; blocked = [] })
        (candidates_of-Justified st min_age now_ms graphs st.agents (All-stored st.agents distinct))
        (record {
          justified = λ id m. cc m;
          gone = λ id m. cc m;
          kept = λ id m. (refl, refl);
          messages = refl;
        })

dry_step :
    (c : StoppedGcCandidate) (dry wet : GcRun)
    → dry.purged ≡ wet.purged
    → ((apply_candidate true dry c).st ≡ dry.st)
      × ((apply_candidate true dry c).purged ≡ (apply_candidate false wet c).purged)
unfolding apply_candidate
dry_step c dry wet h = (ground arith, ground (arith, h))

dry_fold :
    (cs : List StoppedGcCandidate) (dry wet : GcRun)
    → dry.purged ≡ wet.purged
    → ((foldl (apply_candidate true) dry cs).st ≡ dry.st)
      × ((foldl (apply_candidate true) dry cs).purged
          ≡ (foldl (apply_candidate false) wet cs).purged)
dry_fold [] dry wet h = (refl, h)
dry_fold (c ∷ cs) dry wet h =
    let (st, purged) = dry_step c dry wet h in
    let (rest, all) =
      dry_fold cs (apply_candidate true dry c) (apply_candidate false wet c) purged in
    (rest ∙ st, all)

-- A dry run names the same ids as a run that purges them, and changes nothing.
pub apply_stopped_gc-dry :
    (st : SwarmState) (candidates : List StoppedGcCandidate)
    → ((apply_stopped_gc st candidates true).st ≡ st)
      × ((apply_stopped_gc st candidates true).purged
          ≡ (apply_stopped_gc st candidates false).purged)
unfolding apply_stopped_gc
apply_stopped_gc-dry st candidates =
    dry_fold candidates (record { st = st; purged = []; blocked = [] })
      (record { st = st; purged = []; blocked = [] }) refl
