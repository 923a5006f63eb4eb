-- ===== src/Client/Follow/Once.antt =====
-- That a followed turn is not sent again while there is room to remember it.
use cxdb.Prelude.{
  ℕ, suc, ◌+◌, ◌≤◌, ◌<◌, ◌≡◌, ◌∙◌, refl, ap, Bool, true, false, not, ◌||◌, Option, none, List, [],
  ◌∷◌, ◌++◌, length, length-append, ltb, leb, ◌==◌, nat_eq, Bool-cases, Option-cases, inl, inr,
  arith,
}
use cxdb.Prelude.HashSet
use cxdb.Prelude.HashSet.{HashSet, contains, contains-insert}
use cxdb.Client.{TurnView}
use cxdb.Client.Follow.{
  FollowError, FollowState, seen_turn, forget, note_last, record_turn, send_turns,
}

forget_room :
    (max_seen : ℕ) (order : List ℕ) (seen : HashSet)
    → length order ≤ max_seen
    → forget max_seen order seen ≡ (order, seen)
unfolding forget
forget_room max_seen [] seen h = refl
forget_room max_seen (oldest ∷ order) seen h =
    let fits : ltb max_seen (length (oldest ∷ order)) ≡ false = ground arith in rw fits refl

note_last-kept :
    (turn : TurnView) (s : FollowState)
    → ((note_last turn s).seen ≡ s.seen)
      × ((note_last turn s).seen_order ≡ s.seen_order)
      × ((note_last turn s).max_seen ≡ s.max_seen)
note_last-kept turn s = elim (Bool-cases (not s.has_last || leb s.last_seen_depth turn.depth)) [
  | inl newer ↦ rw newer (refl, refl, refl)
  | inr older ↦ rw older (refl, refl, refl)
]

or_true : (b : Bool) → (b || true) ≡ true
or_true true = refl
or_true false = refl

-- With room for one more id, recording a turn remembers it and forgets none.
record_turn_room :
    (turn : TurnView) (s : FollowState)
    → length s.seen_order < s.max_seen
    → ((record_turn turn s).seen ≡ HashSet.insert turn.turn_id s.seen)
      × (length (record_turn turn s).seen_order ≡ suc (length s.seen_order))
      × ((record_turn turn s).max_seen ≡ s.max_seen)
unfolding record_turn
record_turn_room turn s h =
    let order = s.seen_order ++ (turn.turn_id ∷ []) in
    let seen = HashSet.insert turn.turn_id s.seen in
    let grown = length-append s.seen_order (turn.turn_id ∷ []) in
    let kept = forget_room s.max_seen order seen (omega arith) in
    let noted = note_last-kept turn (record s {
      seen = (forget s.max_seen order seen).1;
      seen_order = (forget s.max_seen order seen).0;
    }) in
    (
      noted.0 ∙ ap (λ p. p.1) kept,
      ap length noted.1 ∙ (ap (λ p. length p.0) kept ∙ omega arith),
      noted.2,
    )

still_seen :
    (turn : TurnView) (s : FollowState) (c : ℕ)
    → length s.seen_order < s.max_seen
    → contains c s.seen ≡ true
    → contains c (record_turn turn s).seen ≡ true
still_seen turn s c h there =
    rw (record_turn_room turn s h).0
      (contains-insert c turn.turn_id s.seen ∙ rw there (or_true (turn.turn_id == c)))

now_seen :
    (turn : TurnView) (s : FollowState)
    → length s.seen_order < s.max_seen
    → contains turn.turn_id (record_turn turn s).seen ≡ true
now_seen turn s h =
    rw (record_turn_room turn s h).0
      (contains-insert turn.turn_id turn.turn_id s.seen ∙ ground arith)

abbrev Room : List TurnView → FollowState → Type 0
Room turns s = length s.seen_order + length turns ≤ s.max_seen

next-Room :
    (turn : TurnView) (turns : List TurnView) (s : FollowState)
    → Room (turn ∷ turns) s
    → Room turns (record_turn turn s)
next-Room turn turns s room =
    let r = record_turn_room turn s (omega arith) in rw r.2 (omega (arith, r.1))

-- What was seen stays seen, and every turn that went through is seen.
send_turns-seen :
    (send : TurnView → Option FollowError) (turns : List TurnView) (s : FollowState) (c : ℕ)
    → Room turns s
    → contains c s.seen ≡ true
    → contains c (send_turns send turns s).1.seen ≡ true
unfolding send_turns
send_turns-seen send [] s c room there = there
send_turns-seen send (turn ∷ turns) s c room there = elim (Bool-cases (seen_turn turn.turn_id s)) [
  | inl again ↦ rw again (send_turns-seen send turns s c (omega arith) there)
  | inr fresh ↦ rw fresh (elim (Option-cases (send turn)) [
    | inl taken ↦ rw taken (
        send_turns-seen send turns (record_turn turn s) c (next-Room turn turns s room)
          (still_seen turn s c (omega arith) there))
    | inr (e, lost) ↦ rw lost there
  ])
]

data AllSeen (s : FollowState) : List TurnView → Type 0 where
  none_left : AllSeen s []
  one_more :
      (turn : TurnView) (turns : List TurnView)
      → contains turn.turn_id s.seen ≡ true
      → AllSeen s turns
      → AllSeen s (turn ∷ turns)

fresh_AllSeen :
    (send : TurnView → Option FollowError) (turn : TurnView) (turns : List TurnView)
    (s : FollowState)
    → Room (turn ∷ turns) s
    → contains turn.turn_id s.seen ≡ false
    → (send_turns send (turn ∷ turns) s).2 ≡ none
    → ((t : FollowState)
        → Room turns t
        → (send_turns send turns t).2 ≡ none
        → AllSeen (send_turns send turns t).1 turns)
    → AllSeen (send_turns send (turn ∷ turns) s).1 (turn ∷ turns)
unfolding send_turns seen_turn
fresh_AllSeen send turn turns s room fresh fine go = elim (Option-cases (send turn)) [
  | inl taken ↦
      let next = next-Room turn turns s room in
      rw (fresh, taken)
        (AllSeen.one_more turn turns
          (send_turns-seen send turns (record_turn turn s) turn.turn_id next
            (now_seen turn s (omega arith)))
          (go (record_turn turn s) next (rw (fresh, taken) at fine)))
  | inr (e, lost) ↦ let bad = rw (fresh, lost) at fine in cc
]

send_turns-AllSeen :
    (send : TurnView → Option FollowError) (turns : List TurnView) (s : FollowState)
    → Room turns s
    → (send_turns send turns s).2 ≡ none
    → AllSeen (send_turns send turns s).1 turns
unfolding send_turns seen_turn
send_turns-AllSeen send [] s room fine = AllSeen.none_left
send_turns-AllSeen send (turn ∷ turns) s room fine =
    elim (Bool-cases (contains turn.turn_id s.seen)) [
      | inl again ↦ rw again (
          AllSeen.one_more turn turns
            (send_turns-seen send turns s turn.turn_id (omega arith) again)
            (send_turns-AllSeen send turns s (omega arith) (rw again at fine)))
      | inr fresh ↦ fresh_AllSeen send turn turns s room fresh fine (send_turns-AllSeen send turns)
    ]

resend :
    (send : TurnView → Option FollowError) (turns : List TurnView) (s : FollowState)
    → AllSeen s turns
    → send_turns send turns s ≡ ([], s, none)
unfolding send_turns seen_turn
resend send [] s AllSeen.none_left = refl
resend send (turn ∷ turns) s (AllSeen.one_more _ _ first seen) = rw first (resend send turns s seen)

-- Where the turns of a page went through and there was room to remember them all, sending the same page
-- again sends nothing and leaves the state as it is.
pub send_turns_again :
    (send again : TurnView → Option FollowError) (turns : List TurnView) (s : FollowState)
    → length s.seen_order + length turns ≤ s.max_seen
    → (send_turns send turns s).2 ≡ none
    → send_turns again turns (send_turns send turns s).1 ≡ ([], (send_turns send turns s).1, none)
send_turns_again send again turns s room fine =
    resend again turns (send_turns send turns s).1 (send_turns-AllSeen send turns s room fine)
