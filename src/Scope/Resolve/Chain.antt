-- ===== src/Scope/Resolve/Chain.antt =====
-- scope.ts: `resolveNodeScope` ends, and its result is what the chain of `allowedFilesFrom` gives.
use pi_graph_loop.Prelude.{
  is_nil, ℕ, zero, suc, ◌<◌, String, true, false, ◌≡◌, ◌⊎◌, inl, inr, refl, sym, ◌∙◌, Option, none,
  some, List, [], lookup, keys, includes, includes-set_add, set_add, length, arith, eq_iff, ◌==◌,
  unseen, unseen-le_length, unseen-concat_lt, includes-keys, length-keys, ||-split, subst, if_ind,
}
use pi_graph_loop.Types.{TaskNode, TaskState, ScopeSource}
use pi_graph_loop.Scope.Resolve.{
  EffectiveScope, resolved, unresolved, scope_of, Round, returned, continued, inherit_round,
  round_at, resolve_round, after_round, resolve_loop, resolve_node_scope,
}

-- `b` has no files of its own and takes those of `c`.
pub record Inherits (task : TaskState) (b c : String) : Type 0 where
  pub node : TaskNode
  pub exists : lookup b task.nodes ≡ some node
  pub no_files : is_nil node.allowed_files ≡ true
  pub from : node.allowed_files_from ≡ some c

pub data Chain (task : TaskState) (a : String) : String → Type 0 where
  start : Chain task a a
  next : {b c : String} → Chain task a b → Inherits task b c → Chain task a c

-- A chain of at least one step.
abbrev Chained : TaskState → String → String → Type 0
Chained task a c = (b : String) × Chain task a b × Inherits task b c

-- The node has files of its own, and these are they.
pub record Grants (task : TaskState) (b : String) (files : List String) : Type 0 where
  pub node : TaskNode
  pub exists : lookup b task.nodes ≡ some node
  pub has_files : is_nil node.allowed_files ≡ false
  pub files_are : node.allowed_files ≡ files

-- The node has no files of its own and inherits none.
pub record Defaults (task : TaskState) (b : String) : Type 0 where
  pub node : TaskNode
  pub exists : lookup b task.nodes ≡ some node
  pub no_files : is_nil node.allowed_files ≡ true
  pub no_from : node.allowed_files_from ≡ none

abbrev ResolvedMeans : TaskState → String → ScopeSource → Option String → List String → Type 0
ResolvedMeans task id ScopeSource.node_explicit none files = Grants task id files
ResolvedMeans task id ScopeSource.node_explicit (some o) files = ⊥
ResolvedMeans task id ScopeSource.node_inherited none files = ⊥
ResolvedMeans task id ScopeSource.node_inherited (some o) files =
    Chained task id o × Grants task o files
ResolvedMeans task id ScopeSource.task_default none files =
    ((o : String) × Chain task id o × Defaults task o) × (files ≡ task.allowed_files)
ResolvedMeans task id ScopeSource.task_default (some o) files = ⊥

-- What the effective scope of the node `id` says about the graph.
abbrev pub ScopeMeans : TaskState → String → EffectiveScope → Type 0
ScopeMeans task id (resolved s) = ResolvedMeans task id s.source s.source_node_id s.files
ScopeMeans task id (unresolved _) =
    (o : String) × Chain task id o × ((lookup o task.nodes ≡ none) ⊎ Chained task o o)

module _ (task : TaskState) (id : String) where
  -- How the loop came to `cur`.
  abbrev Origin : String → Option String → Type 0
  Origin cur none = cur ≡ id
  Origin cur (some o) = (o ≡ cur) × Chained task id cur

  Chain-of_Origin : (cur : String) (source : Option String) → Origin cur source → Chain task id cur
  Chain-of_Origin cur none e = subst (Chain task id) (sym e) start
  Chain-of_Origin cur (some o) (e, (b, c, i)) = next c i

  abbrev SeenLead : List String → String → Type 0
  SeenLead seen cur = (k : String) → includes seen k ≡ true → Chained task k cur

  abbrev RoundMeans : List String → String → Round → Type 0
  RoundMeans seen cur (returned s) = ScopeMeans task id s
  RoundMeans seen cur (continued seen' cur') =
      (seen' ≡ set_add seen cur) × (includes seen cur ≡ false) × Inherits task cur cur'

  scope_of-means :
      (cur : String) (source : Option String) (files : List String)
      → Origin cur source
      → Grants task cur files
      → ScopeMeans task id (scope_of source files)
  scope_of-means cur none files e g = subst (λ b. Grants task b files) e g
  scope_of-means cur (some o) files (e, c) g =
      (subst (Chained task id) (sym e) c, subst (λ b. Grants task b files) (sym e) g)

  module _ (seen : List String) (cur : String) (source : Option String) (lead : SeenLead seen cur)
      (origin : Origin cur source) where
    inherit_round-means :
        (node : TaskNode) (from : Option String)
        → lookup cur task.nodes ≡ some node
        → is_nil node.allowed_files ≡ true
        → node.allowed_files_from ≡ from
        → RoundMeans seen cur (inherit_round task id seen cur from)
    unfolding inherit_round
    inherit_round-means node none e n f = (
      (
        cur,
        Chain-of_Origin cur source origin,
        record { node = node; exists = e; no_files = n; no_from = f },
      ),
      refl,
    )
    inherit_round-means node (some o) e n f =
        if_ind (RoundMeans seen cur) (includes seen cur)
          (λ old. (cur, Chain-of_Origin cur source origin, inr (lead cur old)))
          (λ new. (refl, new, record { node = node; exists = e; no_files = n; from = f }))

    round_at-means :
        (o : Option TaskNode)
        → lookup cur task.nodes ≡ o
        → RoundMeans seen cur (round_at task id seen cur source o)
    unfolding round_at
    round_at-means none e = (cur, Chain-of_Origin cur source origin, inl e)
    round_at-means (some node) e =
        if_ind (RoundMeans seen cur) (is_nil node.allowed_files)
          (λ n. inherit_round-means node node.allowed_files_from e n refl)
          (λ n.
            scope_of-means cur source node.allowed_files origin
              (record { node = node; exists = e; has_files = n; files_are = refl }))

  -- What leads to `cur` leads on to the next node, and so does `cur`.
  SeenLead-next :
      (seen : List String) (cur from : String)
      → includes seen cur ≡ false
      → SeenLead seen cur
      → Inherits task cur from
      → SeenLead (set_add seen cur) from
  SeenLead-next seen cur from new lead i k m =
      elim (||-split (includes seen k) (cur == k) (sym (includes-set_add seen cur k) ∙ m)) [
        | inl old ↦ let (b, c, j) = lead k old in (cur, next c j, i)
        | inr e ↦ (cur, subst (λ x. Chain task x cur) ((eq_iff cur k).0 e) start, i)
      ]

  abbrev Resolves : Option EffectiveScope → Type 0
  Resolves o = (s : EffectiveScope) × (o ≡ some s) × ScopeMeans task id s

  resolve_round-means :
      (seen : List String) (cur : String) (source : Option String)
      → SeenLead seen cur
      → Origin cur source
      → RoundMeans seen cur (resolve_round task id seen cur source)
  unfolding resolve_round
  resolve_round-means seen cur source lead origin =
      round_at-means seen cur source lead origin (lookup cur task.nodes) refl

  set_add-unseen_lt :
      (n : ℕ) (seen : List String) (cur from : String)
      → unseen (keys task.nodes) seen < suc n
      → includes seen cur ≡ false
      → Inherits task cur from
      → unseen (keys task.nodes) (set_add seen cur) < n
  unfolding set_add
  set_add-unseen_lt n seen cur from lt new i = ground (
    arith,
    lt,
    new,
    unseen-concat_lt (keys task.nodes) seen cur (includes-keys cur i.node task.nodes i.exists) new,
  )

  after_round-Resolves :
      (n : ℕ) (seen : List String) (cur : String) (r : Round)
      → unseen (keys task.nodes) seen < suc n
      → SeenLead seen cur
      → RoundMeans seen cur r
      → ((seen' : List String) (cur' : String) (source' : Option String)
          → unseen (keys task.nodes) seen' < n
          → SeenLead seen' cur'
          → Origin cur' source'
          → Resolves (resolve_loop task id n seen' cur' source'))
      → Chain task id cur
      → Resolves (after_round (resolve_loop task id n) r)
  after_round-Resolves n seen cur (returned s) lt lead m ih o = (s, refl, m)
  after_round-Resolves n seen cur (continued seen' cur') lt lead (e, new, i) ih o =
      ih seen' cur' (some cur')
        (subst (λ x. unseen (keys task.nodes) x < n) (sym e)
          (set_add-unseen_lt n seen cur cur' lt new i))
        (subst (λ x. SeenLead x cur') (sym e) (SeenLead-next seen cur cur' new lead i))
        (refl, (cur, o, i))

  resolve_loop-Resolves :
      (n : ℕ) (seen : List String) (cur : String) (source : Option String)
      → unseen (keys task.nodes) seen < n
      → SeenLead seen cur
      → Origin cur source
      → Resolves (resolve_loop task id n seen cur source)
  unfolding resolve_loop
  resolve_loop-Resolves zero seen cur source lt lead origin = absurd (omega (arith, lt))
  resolve_loop-Resolves (suc n) seen cur source lt lead origin =
      after_round-Resolves n seen cur (resolve_round task id seen cur source) lt lead
        (resolve_round-means seen cur source lead origin) (resolve_loop-Resolves n)
        (Chain-of_Origin cur source origin)

-- `resolveNodeScope` always ends with a scope. Files are the node's own, those of the first node
-- with files on its chain of `allowedFilesFrom`, or the task's where the chain ends without any;
-- the scope is unresolved only where the chain leads to a missing node or into a cycle.
pub resolve_node_scope_correct :
    (task : TaskState) (id : String)
    → (s : EffectiveScope) × (resolve_node_scope task id ≡ some s) × ScopeMeans task id s
unfolding resolve_node_scope includes
resolve_node_scope_correct task id =
    resolve_loop-Resolves task id (suc (length task.nodes)) [] id none
      (omega (arith, unseen-le_length (keys task.nodes) [], length-keys task.nodes)) (λ k m. cc m)
      refl
