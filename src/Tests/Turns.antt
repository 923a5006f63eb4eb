-- ===== src/Tests/Turns.antt =====
-- The properties of the turn store at concrete stores and files.
use cxdb.Prelude.{◌≡◌, refl, List, [], ◌∷◌, ◌++◌, some, reverse, take, length, arith, nat_eq}
use cxdb.Prelude.Dict
use cxdb.Prelude.Result.{ok}
use cxdb.Wire.Utf8.{is_utf8}
use cxdb.Turns.{TurnRecord, ContextHead, IsTurnRecord, IsTurnMeta, IsContextHead}
use cxdb.Turns.Codec.{encode_turn_record, read_turn_record}
use cxdb.Turns.Codec.RoundTrip.{read_turn_record-encode_turn_record}
use cxdb.Turns.Store.{TurnStore, open_disk, rebuild_index, load_turns, load_meta, load_heads}
use cxdb.Turns.Store.Replay.{encode_turns, replay_turns, replay_index, load_turns-encode_turns}
use cxdb.Turns.Store.Metas.{encode_metas, replay_metas, load_meta-encode_metas}
use cxdb.Turns.Store.Heads.{encode_heads, replay_heads, heads_kept, load_heads-encode_heads}
use cxdb.Turns.Ops.{
  new_head, walk_back, get_last, get_before, get_first_turn, get_turn_meta, append_turn, base_turn,
  commit_context, write_head, create_context, fork_context,
}
use cxdb.Turns.Ops.WellFormed.{WellFormed, append_turn-WellFormed, create_context-WellFormed}
use cxdb.Turns.Ops.History.{Line, get_last-Line}
use cxdb.Turns.Ops.Pages.{get_before-get_last, get_first_turn-get_last}
use cxdb.Turns.Ops.Append.{get_last-append_turn, get_last-append_turn_ne, get_last-fork_context}
use cxdb.Turns.Ops.Runs.{
  Op, create, append, run, AllAdmissible, new_store, open_disk-run, run-WellFormed,
}
use cxdb.Tests.{
  sample_crates, zero_hash, turn_one, meta_one, head_one, one_turn, one_turn-WellFormed,
}

pub turn_one-IsTurnRecord : IsTurnRecord turn_one
turn_one-IsTurnRecord = record {
  turn_id = omega arith;
  parent_turn_id = omega arith;
  depth = omega arith;
  codec = omega arith;
  type_tag = omega arith;
  payload_hash = refl;
  flags = omega arith;
  created_at_unix_ms = omega arith;
}

pub meta_one-IsTurnMeta : IsTurnMeta meta_one
unfolding is_utf8
meta_one-IsTurnMeta = record {
  declared_type_id = refl;
  type_id_len = omega arith;
  declared_type_version = omega arith;
  encoding = omega arith;
  compression = omega arith;
  uncompressed_len = omega arith;
}

head_one-IsContextHead : IsContextHead head_one
head_one-IsContextHead = record {
  context_id = omega arith;
  head_turn_id = omega arith;
  head_depth = omega arith;
  created_at_unix_ms = omega arith;
  flags = omega arith;
}

-- A context, and an append to a context that exists.
abbrev ops : List Op
ops = create 7 0 ∷ append 8 1 0 zero_hash meta_one ∷ []

ops-AllAdmissible : AllAdmissible ops new_store
unfolding create_context base_turn commit_context write_head Dict.get Dict.insert
ops-AllAdmissible = (
  (omega arith, omega arith, omega arith),
  (
    (
      omega arith,
      omega arith,
      refl,
      meta_one-IsTurnMeta,
      omega arith,
      (new_head 7 (0, 0) new_store, refl),
    ),
    tt,
  ),
)

open_disk-run_example : open_disk (run ops new_store).disk ≡ ok (rebuild_index (run ops new_store))
open_disk-run_example = open_disk-run ops ops-AllAdmissible

run-WellFormed_example : WellFormed (run ops new_store)
run-WellFormed_example = run-WellFormed ops ops-AllAdmissible

create_context-WellFormed_example : WellFormed (create_context 9 1 one_turn).1
create_context-WellFormed_example = create_context-WellFormed 9 1 one_turn-WellFormed

append_turn-WellFormed_example : WellFormed (append_turn 9 1 1 zero_hash meta_one one_turn).1
append_turn-WellFormed_example =
    append_turn-WellFormed 9 1 1 zero_hash meta_one one_turn-WellFormed (omega arith)

pub one_turn-head : Dict.get 1 one_turn.heads ≡ some head_one
unfolding Dict.get
one_turn-head = refl

get_last-Line_example :
    (rs : List TurnRecord) × Line one_turn.turns 1 rs
    × (length rs ≡ 1)
    × (get_last 1 10 one_turn ≡ ok (reverse (take 10 rs)))
get_last-Line_example = get_last-Line one_turn-WellFormed 1 10 head_one one_turn-head

get_before-get_last_example :
    (older : List TurnRecord) × (get_before 1 1 5 one_turn ≡ ok older)
    × (get_last 1 8 one_turn ≡ ok (older ++ (turn_one ∷ [])))
unfolding get_last walk_back Dict.get
get_before-get_last_example =
    get_before-get_last one_turn-WellFormed 1 3 5 head_one turn_one [] one_turn-head refl

get_first_turn-get_last_example :
    (first : TurnRecord) × (later : List TurnRecord) × ((get_first_turn 1 one_turn ≡ ok first)
      × (first.depth ≡ 0)
      × (get_last 1 1 one_turn ≡ ok (first ∷ later)))
get_first_turn-get_last_example =
    get_first_turn-get_last one_turn-WellFormed 1 head_one one_turn-head (λ z. absurd (omega arith))

get_last-append_turn_example :
    (r : TurnRecord) × (older : List TurnRecord) × ((append_turn 9 1 0 zero_hash meta_one
        one_turn).0
      ≡ ok r)
    × (get_last 1 4 one_turn ≡ ok older)
    × (get_last 1 5 (append_turn 9 1 0 zero_hash meta_one one_turn).1 ≡ ok (older ++ (r ∷ [])))
    × (r.payload_hash ≡ zero_hash)
    × (get_turn_meta r.turn_id (append_turn 9 1 0 zero_hash meta_one one_turn).1 ≡ ok meta_one)
get_last-append_turn_example =
    get_last-append_turn one_turn-WellFormed 9 1 zero_hash meta_one 4 head_one one_turn-head

get_last-append_turn_ne_example :
    get_last 1 4 (append_turn 9 7 1 zero_hash meta_one one_turn).1 ≡ get_last 1 4 one_turn
get_last-append_turn_ne_example =
    get_last-append_turn_ne one_turn-WellFormed 9 7 1 1 4 zero_hash meta_one
      (λ e. absurd (omega arith))

get_last-fork_context_example :
    (fork : ContextHead) × ((fork_context 9 1 one_turn).0 ≡ ok fork)
    × (fork.context_id ≡ 2)
    × (get_last fork.context_id 4 (fork_context 9 1 one_turn).1 ≡ get_last 1 4 one_turn)
get_last-fork_context_example =
    get_last-fork_context one_turn-WellFormed 9 1 4 head_one one_turn-head

-- Files with one record each and a torn end.
abbrev torn_files : TurnStore
torn_files = record one_turn {
  disk = record {
    turns_log = encode_turns (turn_one ∷ []) ++ (1 ∷ 2 ∷ []);
    turns_idx = [];
    turns_meta = encode_metas ((1, meta_one) ∷ []) ++ (1 ∷ 2 ∷ []);
    heads_tbl = encode_heads (head_one ∷ []) ++ (1 ∷ 0 ∷ 0 ∷ 0 ∷ 0 ∷ 0 ∷ 0 ∷ 0 ∷ 5 ∷ []);
  };
}

load_turns-encode_turns_example :
    load_turns torn_files
    ≡ ok (record torn_files {
      disk = record torn_files.disk { turns_log = encode_turns (turn_one ∷ []) };
      turns = replay_turns (turn_one ∷ []) [];
      turn_index = replay_index 0 (turn_one ∷ []) [];
    })
load_turns-encode_turns_example =
    load_turns-encode_turns torn_files (turn_one ∷ []) (1 ∷ 2 ∷ []) (turn_one-IsTurnRecord, tt)
      (omega arith) refl

load_meta-encode_metas_example :
    load_meta torn_files
    ≡ ok (record torn_files { turn_meta = replay_metas ((1, meta_one) ∷ []) [] })
load_meta-encode_metas_example =
    load_meta-encode_metas torn_files ((1, meta_one) ∷ []) (1 ∷ 2 ∷ [])
      ((omega arith, meta_one-IsTurnMeta), tt) (omega arith) refl

load_heads-encode_heads_example :
    load_heads torn_files
    ≡ ok (record torn_files {
      disk = record torn_files.disk {
        heads_tbl = heads_kept (head_one ∷ []) (1 ∷ 0 ∷ 0 ∷ 0 ∷ 0 ∷ 0 ∷ 0 ∷ 0 ∷ 5 ∷ []);
      };
      heads = replay_heads (head_one ∷ []) [];
    })
load_heads-encode_heads_example =
    load_heads-encode_heads torn_files (head_one ∷ []) (1 ∷ 0 ∷ 0 ∷ 0 ∷ 0 ∷ 0 ∷ 0 ∷ 0 ∷ 5 ∷ [])
      (head_one-IsContextHead, tt) (omega arith) refl

read_turn_record-encode_turn_record_example :
    read_turn_record (encode_turn_record turn_one ++ (9 ∷ [])) ≡ ok (turn_one, 9 ∷ [])
read_turn_record-encode_turn_record_example =
    read_turn_record-encode_turn_record turn_one (9 ∷ []) turn_one-IsTurnRecord
