-- ===== src/Streaks/Throttle.antt =====
-- hooks/streaks.ts and hooks/pool-swap.ts: the times of the notices that no slot is left.
use pi_graph_loop.Prelude.{
  ℕ, ◌+◌, ◌<◌, String, Bool, true, ◌≡◌, refl, Option, none, some, List, [], ◌∷◌, Record, lookup,
  lookup-put, subst, sym, foldl, if_ind, if◌then◌else◌, ◌==◌, eq_iff, arith, Bool-cases, inl, inr,
}
use pi_graph_loop.Streaks.{
  notify_due, swap_chain_reset_ms, should_notify_no_candidate, note_no_candidate_notified,
}

pub record Notices : Type 0 where
  pub notified : Record ℕ
  pub sent : List (String × ℕ)  -- the latest first

-- hooks/pool-swap.ts: one error turn without a candidate.
unfoldable pub no_candidate_turn : Notices → String × ℕ → Notices
no_candidate_turn n (id, now_ms) =
    if should_notify_no_candidate n.notified id now_ms
    then record {
      notified = note_no_candidate_notified n.notified id now_ms;
      sent = (id, now_ms) ∷ n.sent;
    }
    else n

unfoldable pub sent_to : String → List (String × ℕ) → List ℕ
sent_to id [] = []
sent_to id ((j, t) ∷ sent) = if j == id then t ∷ sent_to id sent else sent_to id sent

abbrev pub IsSpaced : List ℕ → Type 0
IsSpaced [] = Unit
IsSpaced (t ∷ []) = Unit
IsSpaced (t ∷ u ∷ ts) = (u + swap_chain_reset_ms < t) × IsSpaced (u ∷ ts)

abbrev pub latest : List ℕ → Option ℕ
latest [] = none
latest (t ∷ ts) = some t

-- The map holds the latest notice of the agent, and the agent's notices are spaced.
record IsThrottled (id : String) (n : Notices) : Type 0 where
  last_noted : lookup id n.notified ≡ latest (sent_to id n.sent)
  spaced : IsSpaced (sent_to id n.sent)

IsSpaced-after :
    (ts : List ℕ) (t : ℕ) → IsSpaced ts → notify_due (latest ts) t ≡ true → IsSpaced (t ∷ ts)
IsSpaced-after [] t h due = tt
IsSpaced-after (u ∷ ts) t h due = (ground (arith, due), h)

sent_step :
    (id j : String) (t : ℕ) (n : Notices)
    → should_notify_no_candidate n.notified j t ≡ true
    → IsThrottled id n
    → IsThrottled id
        (record { notified = note_no_candidate_notified n.notified j t; sent = (j, t) ∷ n.sent })
unfolding should_notify_no_candidate note_no_candidate_notified sent_to
sent_step id j t n due h = elim (Bool-cases (j == id)) [
  | inl e ↦
      let noted : notify_due (latest (sent_to id n.sent)) t ≡ true =
        ground (arith, due, e, eq_iff j id, h.last_noted) in
      record {
        last_noted = ground (arith, e, lookup-put j id t n.notified);
        spaced =
            subst (λ (b : Bool). IsSpaced (if b then t ∷ sent_to id n.sent else sent_to id n.sent))
              (sym e) (IsSpaced-after (sent_to id n.sent) t h.spaced noted);
      }
  | inr e ↦ record {
    last_noted = ground (arith, e, lookup-put j id t n.notified, h.last_noted);
    spaced =
        subst (λ (b : Bool). IsSpaced (if b then t ∷ sent_to id n.sent else sent_to id n.sent))
          (sym e) h.spaced;
  }
]

turn-IsThrottled :
    (id : String) (n : Notices) (turn : String × ℕ)
    → IsThrottled id n
    → IsThrottled id (no_candidate_turn n turn)
unfolding no_candidate_turn
turn-IsThrottled id n (j, t) h =
    if_ind (IsThrottled id) (should_notify_no_candidate n.notified j t)
      (λ due. sent_step id j t n due h) (λ held. h)

turns-IsThrottled :
    (id : String) (turns : List (String × ℕ)) (n : Notices)
    → IsThrottled id n
    → IsThrottled id (foldl no_candidate_turn n turns)
turns-IsThrottled id [] n h = h
turns-IsThrottled id (turn ∷ turns) n h =
    turns-IsThrottled id turns (no_candidate_turn n turn) (turn-IsThrottled id n turn h)

-- However many error turns find no slot, and whenever they come, two notices to the operator about
-- one agent are more than five minutes apart.
pub notices-IsSpaced :
    (id : String) (turns : List (String × ℕ))
    → IsSpaced
        (sent_to id (foldl no_candidate_turn (record { notified = []; sent = [] }) turns).sent)
unfolding lookup sent_to
notices-IsSpaced id turns =
    (turns-IsThrottled id turns (record { notified = []; sent = [] })
      (record { last_noted = refl; spaced = tt })).spaced
