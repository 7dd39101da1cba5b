-- ===== src/Graph/Validate/Queue.antt =====
-- graph.ts: what a round of the search in `validateTaskGraph` does to the set and to the queue.
use pi_graph_loop.Prelude.{
  ℕ, ◌+◌, ◌≤◌, String, true, ◌≡◌, ◌⊎◌, inl, inr, refl, sym, ◌∙◌, List, [], ◌∷◌, ◌++◌, foldl, ap,
  Record, keys, includes, includes-concat, length, length-append, Member, here, there, arith, ◌==◌,
  eq_iff, ==-refl, ◌||◌, unseen, unseen-concat_lt, ||-split, if_ind, subst,
}
use pi_graph_loop.Types.{TaskNode}
use pi_graph_loop.Graph.Validate.{Search, enqueue}

-- What enqueueing some nodes does to the search.
pub record IsGrown (s : Search) (ns : List String) (s' : Search) : Type 0 where
  pub reached : (k : String) → includes s.reachable k ≡ true → includes s'.reachable k ≡ true
  pub queued : (k : String) → includes s.queue k ≡ true → includes s'.queue k ≡ true
  pub all_new : (k : String) → includes ns k ≡ true → includes s'.reachable k ≡ true
  pub only_new :
      (k : String)
      → includes s'.reachable k ≡ true
      → (includes s.reachable k ≡ true) ⊎ ((includes ns k ≡ true) × (includes s'.queue k ≡ true))
  pub queue_only :
      (k : String)
      → includes s'.queue k ≡ true
      → (includes s.queue k ≡ true) ⊎ (includes ns k ≡ true)

-- What is still to be done: the queue, and the nodes that did not enter it yet.
abbrev pub work : List String → Search → ℕ
work ks s = length s.queue + unseen ks s.reachable

includes-grow :
    (xs : List String) (n k : String) → includes xs k ≡ true → includes (xs ++ n ∷ []) k ≡ true
includes-grow xs n k h = ground (arith, h, includes-concat xs n k)

includes-new : (xs : List String) (n k : String) → n ≡ k → includes (xs ++ n ∷ []) k ≡ true
includes-new xs n k e = ground (arith, eq_iff n k, e, includes-concat xs n k)

pub includes-one : (n k : String) → includes (n ∷ []) k ≡ (n == k)
unfolding includes
includes-one n k = ground arith

pub includes-cons :
    (n : String) (ns : List String) (k : String) → includes (n ∷ ns) k ≡ (n == k || includes ns k)
unfolding includes
includes-cons n ns k = refl

pub includes-head : (n : String) (ns : List String) → includes (n ∷ ns) n ≡ true
includes-head n ns = ground (arith, includes-cons n ns n, ==-refl n)

enqueue-IsGrown : (s : Search) (n : String) → IsGrown s (n ∷ []) (enqueue s n)
unfolding enqueue
enqueue-IsGrown s n =
    if_ind (IsGrown s (n ∷ [])) (includes s.reachable n)
      (λ old. record {
        reached = λ k h. h;
        queued = λ k h. h;
        all_new = λ k h. subst (λ x. includes s.reachable x ≡ true) (of_one n k h) old;
        only_new = λ k h. inl h;
        queue_only = λ k h. inl h;
      })
      (λ new. record {
        reached = includes-grow s.reachable n;
        queued = includes-grow s.queue n;
        all_new = λ k h. includes-new s.reachable n k (of_one n k h);
        only_new = λ k h.
            elim (||-split (includes s.reachable k) (n == k)
              (sym (includes-concat s.reachable n k) ∙ h)) [
                | inl old ↦ inl old
                | inr e ↦ inr (one_of n k e, includes-new s.queue n k ((eq_iff n k).0 e))
              ];
        queue_only = λ k h.
            elim (||-split (includes s.queue k) (n == k) (sym (includes-concat s.queue n k) ∙ h)) [
              | inl old ↦ inl old
              | inr e ↦ inr (one_of n k e)
            ];
      })
  where
    of_one : (n k : String) → includes (n ∷ []) k ≡ true → n ≡ k
    of_one n k h = ground (arith, includes-one n k, h, eq_iff n k)

    one_of : (n k : String) → (n == k) ≡ true → includes (n ∷ []) k ≡ true
    one_of n k e = includes-one n k ∙ e

enqueue-work :
    (ks : List String) (s : Search) (n : String)
    → includes ks n ≡ true
    → work ks (enqueue s n) ≤ work ks s
unfolding enqueue
enqueue-work ks s n h =
    if_ind (λ (s' : Search). work ks s' ≤ work ks s) (includes s.reachable n) (λ old. omega arith)
      (λ new.
        omega (arith, length-append s.queue (n ∷ []), unseen-concat_lt ks s.reachable n h new))

IsGrown-cons :
    (s s' s'' : Search) (n : String) (ns : List String)
    → IsGrown s (n ∷ []) s'
    → IsGrown s' ns s''
    → IsGrown s (n ∷ ns) s''
IsGrown-cons s s' s'' n ns g h = record {
  reached = λ k m. h.reached k (g.reached k m);
  queued = λ k m. h.queued k (g.queued k m);
  all_new = λ k m. elim (||-split (n == k) (includes ns k) (sym (includes-cons n ns k) ∙ m)) [
    | inl e ↦ h.reached k (g.all_new k (includes-one n k ∙ e))
    | inr later ↦ h.all_new k later
  ];
  only_new = λ k m. elim (h.only_new k m) [
    | inr (new, queued) ↦ inr (later n ns k new, queued)
    | inl old ↦ elim (g.only_new k old) [
      | inl older ↦ inl older
      | inr (new, queued) ↦ inr (now n ns k new, h.queued k queued)
    ]
  ];
  queue_only = λ k m. elim (h.queue_only k m) [
    | inr new ↦ inr (later n ns k new)
    | inl old ↦ elim (g.queue_only k old) [ inl older ↦ inl older | inr new ↦ inr (now n ns k new) ]
  ];
}
  where
    later :
        (n : String) (ns : List String) (k : String)
        → includes ns k ≡ true
        → includes (n ∷ ns) k ≡ true
    later n ns k h = ground (arith, h, includes-cons n ns k)

    now :
        (n : String) (ns : List String) (k : String)
        → includes (n ∷ []) k ≡ true
        → includes (n ∷ ns) k ≡ true
    now n ns k h = ground (arith, h, includes-cons n ns k, includes-one n k)

pub enqueue_all-IsGrown : (ns : List String) (s : Search) → IsGrown s ns (foldl enqueue s ns)
unfolding includes
enqueue_all-IsGrown [] s = record {
  reached = λ k m. m;
  queued = λ k m. m;
  all_new = λ k m. cc m;
  only_new = λ k m. inl m;
  queue_only = λ k m. inl m;
}
enqueue_all-IsGrown (n ∷ ns) s =
    IsGrown-cons s (enqueue s n) (foldl enqueue (enqueue s n) ns) n ns (enqueue-IsGrown s n)
      (enqueue_all-IsGrown ns (enqueue s n))

pub enqueue_all-work :
    (ks ns : List String) (s : Search)
    → ((k : String) → includes ns k ≡ true → includes ks k ≡ true)
    → work ks (foldl enqueue s ns) ≤ work ks s
unfolding includes
enqueue_all-work ks [] s sub = omega arith
enqueue_all-work ks (n ∷ ns) s sub = omega (
  arith,
  enqueue-work ks s n (sub n (ground (arith, ==-refl n))),
  enqueue_all-work ks ns (enqueue s n) (λ k h. sub k (ground (arith, h))),
)

pub member_known :
    (nodes : Record TaskNode) (id : String) (node : TaskNode)
    → Member (id, node) nodes
    → includes (keys nodes) id ≡ true
unfolding keys includes
member_known [] id node m = elim m [ ]
member_known ((j, w) ∷ nodes) id node (here e) = ground (arith, eq_iff j id, fst_eq e)
  where
    fst_eq : ◌≡◌ {A = String × TaskNode} (id, node) (j, w) → id ≡ j
    fst_eq e = ap (λ (x : String × TaskNode). x.0) e
member_known ((j, w) ∷ nodes) id node (there m) = ground (arith, member_known nodes id node m)
