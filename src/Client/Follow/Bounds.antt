-- ===== src/Client/Follow/Bounds.antt =====
-- That what is remembered of a followed context stays within its bound and in step with the order in
-- which it is forgotten, and that a turn is sent once while it is remembered.
use cxdb.Prelude.{
  ℕ, ◌≤◌, ◌<◌, ◌≡◌, ◌∙◌, refl, sym, false, not, ◌&&◌, ◌||◌, Option, List, [], ◌∷◌, ◌++◌, length,
  ltb, leb, ◌==◌, nat_eq, Bool-cases, Option-cases, inl, inr, arith,
}
use cxdb.Prelude.HashSet
use cxdb.Prelude.HashSet.{HashSet, Distinct, contains, contains-insert, contains-remove}
use cxdb.Client.{HeadView, TurnView}
use cxdb.Client.Follow.{
  Fetched, done, failed, FollowError, FollowState, TurnClient, new_state, seen_turn, forget,
  note_last, record_turn, send_turns, with_turns, with_head, sync_context, missing_of,
}

-- The ids that are remembered are those of the order, each once, and no more than the bound.
pub record IsBounded (s : FollowState) : Type 0 where
  pub bounded : length s.seen_order ≤ s.max_seen
  pub in_step : (c : ℕ) → contains c s.seen ≡ contains c s.seen_order
  pub distinct : Distinct s.seen_order
  pub some_room : 0 < s.max_seen

still :
    (oldest : ℕ) (order : List ℕ) (seen : HashSet)
    → contains oldest order ≡ false
    → ((c : ℕ) → contains c seen ≡ contains c (oldest ∷ order))
    → (c : ℕ) → contains c (HashSet.remove oldest seen) ≡ contains c order
unfolding contains
still oldest order seen fresh h c = elim (Bool-cases (oldest == c)) [
  | inl same ↦
      let e : oldest ≡ c = ground arith in
      contains-remove c oldest seen ∙ rw same (sym (rw e at fresh))
  | inr other ↦ contains-remove c oldest seen ∙ rw other (h c ∙ rw other refl)
]

forget-in_step :
    (max_seen : ℕ) (order : List ℕ) (seen : HashSet)
    → Distinct order
    → ((c : ℕ) → contains c seen ≡ contains c order)
    → (length (forget max_seen order seen).0 ≤ max_seen)
      × ((c : ℕ)
          → contains c (forget max_seen order seen).1 ≡ contains c (forget max_seen order seen).0)
      × Distinct (forget max_seen order seen).0
unfolding forget
forget-in_step max_seen [] seen distinct h = (omega arith, h, tt)
forget-in_step max_seen (oldest ∷ order) seen (fresh, distinct) h =
    elim (Bool-cases (ltb max_seen (length (oldest ∷ order)))) [
      | inl over ↦ rw over (
          forget-in_step max_seen order (HashSet.remove oldest seen) distinct
            (still oldest order seen fresh h))
      | inr fits ↦ rw fits (ground arith, h, (fresh, distinct))
    ]

contains-append :
    (c d : ℕ) (order : List ℕ) → contains c (order ++ (d ∷ [])) ≡ (d == c || contains c order)
unfolding contains
contains-append c d [] = refl
contains-append c d (e ∷ order) = ground (arith, contains-append c d order)

Distinct-append :
    (d : ℕ) (order : List ℕ)
    → Distinct order
    → contains d order ≡ false
    → Distinct (order ++ (d ∷ []))
unfolding contains
Distinct-append d [] distinct fresh = (refl, tt)
Distinct-append d (e ∷ order) (first, distinct) fresh =
    (ground (arith, contains-append e d order), Distinct-append d order distinct (ground arith))

note_last-IsBounded :
    (turn : TurnView) (s : FollowState) → IsBounded s → IsBounded (note_last turn s)
note_last-IsBounded turn s b =
    elim (Bool-cases (not s.has_last || leb s.last_seen_depth turn.depth)) [
      | inl newer ↦ rw newer (record {
        bounded = b.bounded;
        in_step = b.in_step;
        distinct = b.distinct;
        some_room = b.some_room;
      })
      | inr older ↦ rw older b
    ]

record_turn-IsBounded :
    (turn : TurnView) (s : FollowState)
    → IsBounded s
    → seen_turn turn.turn_id s ≡ false
    → IsBounded (record_turn turn s)
unfolding record_turn seen_turn
record_turn-IsBounded turn s b fresh =
    let unordered : contains turn.turn_id s.seen_order ≡ false =
      sym (b.in_step turn.turn_id) ∙ fresh in
    let kept =
      forget-in_step s.max_seen (s.seen_order ++ (turn.turn_id ∷ []))
        (HashSet.insert turn.turn_id s.seen)
        (Distinct-append turn.turn_id s.seen_order b.distinct unordered)
        (λ c.
          contains-insert c turn.turn_id s.seen
          ∙ (rw (b.in_step c) (sym (contains-append c turn.turn_id s.seen_order)))) in
    let room = b.some_room in
    note_last-IsBounded turn _
      (record { bounded = kept.0; in_step = kept.1; distinct = kept.2; some_room = room })

send_turns-IsBounded :
    (send : TurnView → Option FollowError) (turns : List TurnView) (s : FollowState)
    → IsBounded s
    → IsBounded (send_turns send turns s).1
unfolding send_turns
send_turns-IsBounded send [] s b = b
send_turns-IsBounded send (turn ∷ turns) s b = elim (Bool-cases (seen_turn turn.turn_id s)) [
  | inl again ↦ rw again (send_turns-IsBounded send turns s b)
  | inr fresh ↦ rw fresh (elim (Option-cases (send turn)) [
    | inl taken ↦ rw taken (
        send_turns-IsBounded send turns (record_turn turn s) (record_turn-IsBounded turn s b fresh))
    | inr (e, lost) ↦ rw lost b
  ])
]

with_turns-IsBounded :
    (send : TurnView → Option FollowError) (s : FollowState) (r : Fetched (List TurnView))
    → IsBounded s
    → IsBounded (with_turns send s r).1
with_turns-IsBounded send s (done turns) b = send_turns-IsBounded send turns s b
with_turns-IsBounded send s (failed e) b = b

with_head-IsBounded :
    (c : TurnClient) (send : TurnView → Option FollowError) (s : FollowState) (r : Fetched HeadView)
    → IsBounded s
    → IsBounded (with_head c send s r).1
with_head-IsBounded c send s (failed e) b = b
with_head-IsBounded c send s (done head) b =
    elim (Bool-cases (s.has_last && ltb head.head_depth s.last_seen_depth)) [
      | inl back ↦ rw back b
      | inr forth ↦ rw forth (elim (Bool-cases (missing_of head s == 0)) [
        | inl nothing ↦ rw nothing b
        | inr some_turns ↦
            rw some_turns (with_turns-IsBounded send s (c.get_last (missing_of head s)) b)
      ])
    ]

-- From a bounded state, a sync of a followed context, whatever the client answers and whether the channel
-- takes the turns, leaves a bounded state: at most `max_seen` turn ids are remembered, each once, and the
-- set and the order of forgetting hold the same ids.
pub sync_context-IsBounded :
    (c : TurnClient) (send : TurnView → Option FollowError) (s : FollowState)
    → IsBounded s
    → IsBounded (sync_context c send s).1
unfolding sync_context
sync_context-IsBounded c send s b = with_head-IsBounded c send s c.get_head b

pub new_state-IsBounded : (max_seen : ℕ) → IsBounded (new_state max_seen)
unfolding new_state contains
new_state-IsBounded max_seen = record {
  bounded = omega arith;
  in_step = λ c. refl;
  distinct = tt;
  some_room = ground arith;
}
