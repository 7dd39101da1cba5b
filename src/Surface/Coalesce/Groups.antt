-- ===== src/Surface/Coalesce/Groups.antt =====
-- surface/coalesce.ts: the loop over the plan, and what the map holds of the messages seen so far.
use pi_graph_loop.Prelude.{
  some_inj, String, Bool, true, false, ◌≡◌, refl, sym, ◌∙◌, ap, subst, Option, some, List, [], ◌∷◌,
  Member, here, there, Record, lookup, put, keys, lookup-put, foldl, includes, set_add,
  includes-set_add, eq_iff, ◌==◌, if◌then◌else◌, arith, Bool-cases, inl, inr, ◌⊎◌, ◌↔◌, IsDistinct,
  put-IsDistinct,
}
use pi_graph_loop.Types.{TaskState, SwarmMessage, SwarmState}
use pi_graph_loop.Surface.Rank.{root_surface_group_key}
use pi_graph_loop.Surface.Staleness.{SurfaceStale, record_of}
use pi_graph_loop.Surface.Coalesce.{
  CoalescedEntry, Coalescing, Fate, shown, consumed_now, suppressed, coalesce, fate_of, plan_step,
}
use pi_graph_loop.Surface.Coalesce.Merge.{
  shown_not_consumed, shown_not_suppressed, consumed_not_suppressed, Fate-cases, IsPlaced,
  coalesce_lem,
}

module _ (lower : String → String) (tasks : Record TaskState) (st : SwarmState)
    (stale : SwarmMessage → Option SurfaceStale) where
  abbrev pub fate : SwarmMessage → Fate
  fate m = fate_of lower tasks st m (stale m)

  abbrev pub group : SwarmMessage → String
  group m = root_surface_group_key (record_of st m)

  -- What the map and the consumed ids say of the messages that the loop has seen.
  pub record IsCoalesced (seen : List SwarmMessage) (run : Coalescing) : Type 0 where
    pub distinct : IsDistinct (keys run.coalesced)
    pub kept :
        (key : String) (e : CoalescedEntry)
        → lookup key run.coalesced ≡ some e
        → Member e.msg seen × (fate e.msg ≡ shown) × (group e.msg ≡ key)
    pub placed :
        (m : SwarmMessage)
        → Member m seen
        → fate m ≡ shown
        → (e : CoalescedEntry) × (lookup (group m) run.coalesced ≡ some e) × IsPlaced m e
    pub gone :
        (m : SwarmMessage)
        → Member m seen
        → fate m ≡ consumed_now
        → includes run.consumed m.id ≡ true

  abbrev IsKept : List SwarmMessage → String → SwarmMessage → Type 0
  IsKept seen key m = Member m seen × (fate m ≡ shown) × (group m ≡ key)

  keep_later :
      (seen : List SwarmMessage) (key : String) (m n : SwarmMessage)
      → IsKept seen key n
      → IsKept (m ∷ seen) key n
  keep_later seen key m n (k, f, g) = (there k, f, g)

  -- The map with a group's entry put.
  module _ (seen : List SwarmMessage) (run : Coalescing) (m : SwarmMessage) (e : CoalescedEntry)
      (is_shown : fate m ≡ shown) (inv : IsCoalesced seen run)
      (put_e : coalesce run.coalesced (group m) m ≡ put (group m) e run.coalesced)
      (new : IsPlaced m e)
      (from : (e.msg ≡ m)
        ⊎ ((old : CoalescedEntry) × (lookup (group m) run.coalesced ≡ some old)
            × (e.msg ≡ old.msg)))
      (old : (n : SwarmMessage) (o : CoalescedEntry)
        → lookup (group m) run.coalesced ≡ some o
        → IsPlaced n o
        → IsPlaced n e) where
    look :
        (key : String)
        → lookup key (coalesce run.coalesced (group m) m)
          ≡ (if group m == key then some e else lookup key run.coalesced)
    look key = ap (lookup key) put_e ∙ lookup-put (group m) key e run.coalesced

    look_same :
        (key : String)
        → (group m == key) ≡ true
        → lookup key (coalesce run.coalesced (group m) m) ≡ some e
    look_same key h = look key ∙ ap (λ (b : Bool). if b then some e else lookup key run.coalesced) h

    look_other :
        (key : String)
        → (group m == key) ≡ false
        → lookup key (coalesce run.coalesced (group m) m) ≡ lookup key run.coalesced
    look_other key h =
        look key ∙ ap (λ (b : Bool). if b then some e else lookup key run.coalesced) h

    IsKept-entry : IsKept (m ∷ seen) (group m) e.msg
    IsKept-entry = elim from [
      | inl same ↦ subst (IsKept (m ∷ seen) (group m)) (sym same) (here refl, is_shown, refl)
      | inr (o, f, same) ↦
          subst (IsKept (m ∷ seen) (group m)) (sym same)
            (keep_later seen (group m) m o.msg (inv.kept (group m) o f))
    ]

    IsKept-after :
        (key : String) (x : CoalescedEntry)
        → lookup key (coalesce run.coalesced (group m) m) ≡ some x
        → IsKept (m ∷ seen) key x.msg
    IsKept-after key x h = elim (Bool-cases (group m == key)) [
      | inl q ↦
          subst (λ (y : CoalescedEntry). IsKept (m ∷ seen) key y.msg)
            (some_inj (sym (look_same key q) ∙ h))
            (subst (λ (k : String). IsKept (m ∷ seen) k e.msg) ((eq_iff (group m) key).0 q)
              IsKept-entry)
      | inr q ↦ keep_later seen key m x.msg (inv.kept key x (sym (look_other key q) ∙ h))
    ]

    IsPlaced-after :
        (n : SwarmMessage)
        → Member n (m ∷ seen)
        → fate n ≡ shown
        → (x : CoalescedEntry) × (lookup (group n) (coalesce run.coalesced (group m) m) ≡ some x)
          × IsPlaced n x
    IsPlaced-after n (here q) sh = (
      e,
      look_same (group n) ((eq_iff (group m) (group n)).1 (ap group (sym q))),
      subst (λ (y : SwarmMessage). IsPlaced y e) (sym q) new,
    )
    IsPlaced-after n (there k) sh =
        let (o, f, p) = inv.placed n k sh in
        elim (Bool-cases (group m == group n)) [
          | inl q ↦ (
            e,
            look_same (group n) q,
            old n o
                (ap (λ (g : String). lookup g run.coalesced) ((eq_iff (group m) (group n)).0 q) ∙ f)
                p,
          )
          | inr q ↦ (o, look_other (group n) q ∙ f, p)
        ]

  shown_step :
      (seen : List SwarmMessage) (run : Coalescing) (m : SwarmMessage)
      → fate m ≡ shown
      → IsCoalesced seen run
      → IsCoalesced (m ∷ seen) (record run { coalesced = coalesce run.coalesced (group m) m })
  shown_step seen run m is_shown inv =
      let (e, put_e, new, from, old) = coalesce_lem run.coalesced (group m) m in
      record {
        distinct =
            subst (λ (r : Record CoalescedEntry). IsDistinct (keys r)) (sym put_e)
              (put-IsDistinct (group m) e run.coalesced inv.distinct);
        kept = λ key x h. IsKept-after seen run m e is_shown inv put_e new from old key x h;
        placed = λ n k sh. IsPlaced-after seen run m e is_shown inv put_e new from old n k sh;
        gone = λ n k h. elim k [
          | here q ↦ elim (shown_not_consumed (sym is_shown ∙ ap fate (sym q) ∙ h)) [ ]
          | there l ↦ inv.gone n l h
        ];
      }

  consumed_step :
      (seen : List SwarmMessage) (run : Coalescing) (m : SwarmMessage)
      → fate m ≡ consumed_now
      → IsCoalesced seen run
      → IsCoalesced (m ∷ seen) (record run { consumed = set_add run.consumed m.id })
  consumed_step seen run m is_gone inv = record {
    distinct = inv.distinct;
    kept = λ key x h. keep_later seen key m x.msg (inv.kept key x h);
    placed = λ n k sh. elim k [
      | here q ↦ elim (shown_not_consumed (sym sh ∙ ap fate q ∙ is_gone)) [ ]
      | there l ↦ inv.placed n l sh
    ];
    gone = λ n k h. elim k [
      | here q ↦
          includes-set_add run.consumed m.id n.id
          ∙ ground (arith, eq_iff m.id n.id, ap (λ (y : SwarmMessage). y.id) q)
      | there l ↦ includes-set_add run.consumed m.id n.id ∙ ground (arith, inv.gone n l h)
    ];
  }

  suppressed_step :
      (seen : List SwarmMessage) (run : Coalescing) (m : SwarmMessage)
      → fate m ≡ suppressed
      → IsCoalesced seen run
      → IsCoalesced (m ∷ seen) run
  suppressed_step seen run m is_held inv = record {
    distinct = inv.distinct;
    kept = λ key x h. keep_later seen key m x.msg (inv.kept key x h);
    placed = λ n k sh. elim k [
      | here q ↦ elim (shown_not_suppressed (sym sh ∙ ap fate q ∙ is_held)) [ ]
      | there l ↦ inv.placed n l sh
    ];
    gone = λ n k h. elim k [
      | here q ↦ elim (consumed_not_suppressed (sym h ∙ ap fate q ∙ is_held)) [ ]
      | there l ↦ inv.gone n l h
    ];
  }

  plan_step-IsCoalesced :
      (seen : List SwarmMessage) (run : Coalescing) (m : SwarmMessage)
      → IsCoalesced seen run
      → IsCoalesced (m ∷ seen) (plan_step lower tasks st stale run m)
  unfolding plan_step
  plan_step-IsCoalesced seen run m inv = elim (Fate-cases (fate m)) [
    | inl h ↦
        let e : record run { coalesced = coalesce run.coalesced (group m) m }
            ≡ plan_step lower tasks st stale run m =
          ground (arith, h) in
        subst (IsCoalesced (m ∷ seen)) e (shown_step seen run m h inv)
    | inr (inl h) ↦
        let e : record run { consumed = set_add run.consumed m.id }
            ≡ plan_step lower tasks st stale run m =
          ground (arith, h) in
        subst (IsCoalesced (m ∷ seen)) e (consumed_step seen run m h inv)
    | inr (inr h) ↦
        let e : run ≡ plan_step lower tasks st stale run m = ground (arith, h) in
        subst (IsCoalesced (m ∷ seen)) e (suppressed_step seen run m h inv)
  ]

  pub fold-IsCoalesced :
      (plan seen : List SwarmMessage) (run : Coalescing)
      → IsCoalesced seen run
      → (done : List SwarmMessage) × ((m : SwarmMessage)
          → Member m done ↔ (Member m plan ⊎ Member m seen))
        × IsCoalesced done (foldl (plan_step lower tasks st stale) run plan)
  fold-IsCoalesced [] seen run inv =
      (seen, λ m. (inr, λ h. elim h [ inl k ↦ elim k [ ] | inr k ↦ k ]), inv)
  fold-IsCoalesced (x ∷ plan) seen run inv =
      let (done, same, after) =
        fold-IsCoalesced plan (x ∷ seen) (plan_step lower tasks st stale run x)
          (plan_step-IsCoalesced seen run x inv) in
      (
        done,
        λ m. (
          λ k. elim ((same m).0 k) [
            | inl l ↦ inl (there l)
            | inr l ↦ elim l [ here q ↦ inl (here q) | there j ↦ inr j ]
          ],
          λ k. elim k [
            | inl l ↦ elim l [ here q ↦ (same m).1 (inr (here q)) | there j ↦ (same m).1 (inl j) ]
            | inr l ↦ (same m).1 (inr (there l))
          ],
        ),
        after,
      )
