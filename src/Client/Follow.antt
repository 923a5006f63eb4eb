-- ===== src/Client/Follow.antt =====
-- clients/rust/src/follow.rs: what the client remembers of a context that it follows, and how it brings
-- itself up to date. The client is the answers that it gives, and the channel says for each turn whether
-- it takes it; `sync_context` gives what it sent, the new state and an error.
pub mod Bounds
pub mod Once
use cxdb.Prelude.{
  ℕ, zero, suc, ◌+◌, ◌-◌, ◌%◌, ◌^◌, Bool, true, false, not, ◌&&◌, ◌||◌, Option, none, some, List,
  [], ◌∷◌, ◌++◌, length, ltb, leb, ◌==◌, nat_eq, if◌then◌else◌, String,
}
use cxdb.Prelude.HashSet
use cxdb.Prelude.HashSet.{HashSet, contains}
use cxdb.Client.{ClientError, HeadView, TurnView}

pub data FollowError : Type 0 where
  cancelled : FollowError
  timeout : FollowError
  decode : String → FollowError
  client : ClientError → FollowError
  other : String → FollowError

pub record FollowState : Type 0 where
  pub has_last : Bool
  pub last_seen_turn_id : ℕ
  pub last_seen_depth : ℕ
  pub seen : HashSet
  pub seen_order : List ℕ
  pub max_seen : ℕ

abbrev pub default_max_seen_per_context : ℕ
default_max_seen_per_context = 2048

unfoldable pub new_state : ℕ → FollowState
new_state max_seen = record {
  has_last = false;
  last_seen_turn_id = 0;
  last_seen_depth = 0;
  seen = [];
  seen_order = [];
  max_seen = if max_seen == 0 then default_max_seen_per_context else max_seen;
}

-- `Result<A, Error>` of the client.
pub data Fetched {ℓ} (A : Type ℓ) : Type ℓ where
  done : A → Fetched A
  failed : ClientError → Fetched A

-- What the client answers: the context's head, and its last turns for a limit.
pub record TurnClient : Type 0 where
  pub get_head : Fetched HeadView
  pub get_last : ℕ → Fetched (List TurnView)

unfoldable pub seen_turn : ℕ → FollowState → Bool
seen_turn turn_id s = contains turn_id s.seen

-- `while self.seen_order.len() > self.max_seen`: the oldest ids are forgotten.
unfoldable pub forget : ℕ → List ℕ → HashSet → List ℕ × HashSet
forget max_seen [] seen = ([], seen)
forget max_seen (oldest ∷ order) seen =
    let rest = forget max_seen order (HashSet.remove oldest seen) in
    if ltb max_seen (length (oldest ∷ order)) then rest else (oldest ∷ order, seen)

abbrev pub note_last : TurnView → FollowState → FollowState
note_last turn s =
    if not s.has_last || leb s.last_seen_depth turn.depth
    then record s {
      last_seen_depth = turn.depth;
      last_seen_turn_id = turn.turn_id;
      has_last = true;
    }
    else s

unfoldable pub record_turn : TurnView → FollowState → FollowState
unfolding forget
record_turn turn s =
    let kept =
      forget s.max_seen (s.seen_order ++ (turn.turn_id ∷ []))
        (HashSet.insert turn.turn_id s.seen) in
    note_last turn (record s { seen = kept.1; seen_order = kept.0 })

abbrev pub Synced : Type 0
Synced = List TurnView × FollowState × Option FollowError

abbrev pub send_first : TurnView → Synced → Synced
send_first turn r = (turn ∷ r.0, r.1, r.2)

abbrev pub stop_at : FollowState → FollowError → Synced
stop_at s e = ([], s, some e)

-- The loop over the turns: those that were seen are left out, and a channel that fails ends it.
unfoldable pub send_turns : (TurnView → Option FollowError) → List TurnView → FollowState → Synced
unfolding seen_turn record_turn
send_turns send [] s = ([], s, none)
send_turns send (turn ∷ turns) s =
    let skipped = send_turns send turns s in
    let sent = send_first turn (send_turns send turns (record_turn turn s)) in
    if seen_turn turn.turn_id s
    then skipped
    else elim (send turn) [ none ↦ sent | some e ↦ stop_at s e ]

abbrev pub is_empty : HashSet → Bool
is_empty [] = true
is_empty (c ∷ s) = false

abbrev pub missing_of : HeadView → FollowState → ℕ
missing_of head s =
    if s.has_last && not (is_empty s.seen)
    then head.head_depth - s.last_seen_depth
    else (head.head_depth + 1) % 2 ^ 32

abbrev pub with_turns :
    (TurnView → Option FollowError) → FollowState → Fetched (List TurnView) → Synced
with_turns send s (done turns) = send_turns send turns s
with_turns send s (failed e) = stop_at s (FollowError.client e)

abbrev pub with_head :
    TurnClient → (TurnView → Option FollowError) → FollowState → Fetched HeadView → Synced
with_head c send s (failed e) = stop_at s (FollowError.client e)
with_head c send s (done head) =
    if s.has_last && ltb head.head_depth s.last_seen_depth
    then stop_at s (FollowError.other "follow turns: head depth regressed")
    else if missing_of head s == 0
    then ([], s, none)
    else with_turns send s (c.get_last (missing_of head s))

unfoldable pub sync_context : TurnClient → (TurnView → Option FollowError) → FollowState → Synced
unfolding send_turns
sync_context c send s = with_head c send s c.get_head
