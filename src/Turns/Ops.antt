-- ===== src/Turns/Ops.antt =====
-- The operations of `TurnStore` in server/src/turn_store/mod.rs. An operation that changes the store
-- returns its result and the new store; the clock's value is an argument, and the writes and syncs
-- of the files do not fail.
pub mod WellFormed
pub mod History
pub mod Pages
pub mod Runs
pub mod Durable
pub mod Append
use cxdb.Prelude.{
  ℕ, zero, suc, ◌+◌, ◌%◌, ◌^◌, Bool, true, false, ◌||◌, Option, none, some, List, [], ◌∷◌, ◌++◌,
  length, take, leb, map, reverse, ◌==◌, nat_eq, if◌then◌else◌,
}
use cxdb.Prelude.Dict
use cxdb.Prelude.Dict.{Dict}
use cxdb.Prelude.Result.{Result, ok, err, stuck, not_found, ◌>>=◌, ok_or}
use cxdb.Wire.{Bytes, Crates, put_u64}
use cxdb.Turns.{TurnRecord, TurnMeta, ContextHead}
use cxdb.Turns.Codec.{encode_turn_record, encode_meta, encode_head}
use cxdb.Turns.Store.{TurnStore}

-- A step that may fail before anything has changed.
abbrev pub attempt {ℓ κ} :
    {A : Type ℓ} {B : Type κ}
    → Result A
    → (A → Result B × TurnStore)
    → TurnStore
    → Result B × TurnStore
attempt (ok a) k s = k a
attempt (err e) k s = (err e, s)
attempt stuck k s = (stuck, s)

-- The turn that a new context starts from, with its depth.
unfoldable pub base_turn : ℕ → TurnStore → Result (ℕ × ℕ)
base_turn base_turn_id s = if base_turn_id == 0 then ok (0, 0) else do
  turn ← ok_or (Dict.get base_turn_id s.turns) (not_found "base turn")
  ok (turn.turn_id, turn.depth)

-- The parent of a new turn, with the depth of the new turn: a `u32`, which wraps.
abbrev child_of : TurnRecord → ℕ × ℕ
child_of parent = (parent.turn_id, (parent.depth + 1) % 2 ^ 32)

pub parent_turn : ℕ → ℕ → TurnStore → Result (ℕ × ℕ)
parent_turn context_id parent_turn_id s =
    if parent_turn_id == 0
    then (do
      head ← ok_or (Dict.get context_id s.heads) (not_found "context")
      if head.head_turn_id == 0 then ok (0, 0) else do
        parent ← ok_or (Dict.get head.head_turn_id s.turns) (not_found "head turn")
        ok (child_of parent))
    else do
      parent ← ok_or (Dict.get parent_turn_id s.turns) (not_found "parent turn")
      ok (child_of parent)

-- The record that `append_turn` makes.
abbrev pub new_turn : ℕ → ℕ × ℕ → Bytes → TurnMeta → TurnStore → TurnRecord
new_turn now (parent_id, depth) payload_hash m s = record {
  turn_id = s.next_turn_id;
  parent_turn_id = parent_id;
  depth = depth;
  codec = m.encoding;
  type_tag = 0;
  payload_hash = payload_hash;
  flags = 0;
  created_at_unix_ms = now;
}

abbrev pub head_of : ℕ → TurnRecord → ContextHead
head_of context_id r = record {
  context_id = context_id;
  head_turn_id = r.turn_id;
  head_depth = r.depth;
  created_at_unix_ms = r.created_at_unix_ms;
  flags = 0;
}

-- The head that `create_context` makes.
abbrev pub new_head : ℕ → ℕ × ℕ → TurnStore → ContextHead
new_head now (head_turn_id, head_depth) s = record {
  context_id = s.next_context_id;
  head_turn_id = head_turn_id;
  head_depth = head_depth;
  created_at_unix_ms = now;
  flags = 0;
}

module _ ⦃x : Crates⦄ where
  unfoldable pub write_head : ContextHead → TurnStore → TurnStore
  write_head head s = record s {
    disk = record s.disk { heads_tbl = s.heads_tbl ++ encode_head head };
  }

  -- What `create_context` does once it has found the base turn.
  unfoldable pub commit_context : ℕ → TurnStore → ℕ × ℕ → Result ContextHead × TurnStore
  unfolding write_head
  commit_context now s base =
      let context_id = s.next_context_id in
      let s₁ : TurnStore = record s { next_context_id = (s.next_context_id + 1) % 2 ^ 64 } in
      let head = new_head now base s in
      let s₂ = write_head head s₁ in
      (ok head, record s₂ { heads = Dict.insert context_id head s₂.heads })

  unfoldable pub create_context : ℕ → ℕ → TurnStore → Result ContextHead × TurnStore
  unfolding base_turn commit_context
  create_context now base_turn_id s = attempt (base_turn base_turn_id s) (commit_context now s) s

  pub fork_context : ℕ → ℕ → TurnStore → Result ContextHead × TurnStore
  unfolding create_context
  fork_context now base_turn_id s = create_context now base_turn_id s

  -- The writes of `append_turn` to turns.log, turns.idx and turns.meta.
  pub write_turn : TurnRecord → TurnStore → TurnStore
  write_turn r s = record s {
    disk = record s.disk { turns_log = s.turns_log ++ encode_turn_record r };
  }

  pub write_index : ℕ → ℕ → TurnStore → TurnStore
  write_index turn_id offset s = record s {
    disk = record s.disk { turns_idx = s.turns_idx ++ (put_u64 turn_id ++ put_u64 offset) };
  }

  pub write_meta : ℕ → TurnMeta → TurnStore → TurnStore
  write_meta turn_id m s = record s {
    disk = record s.disk { turns_meta = s.turns_meta ++ encode_meta turn_id m };
  }

  -- What `append_turn` does once it has found the parent.
  pub commit_turn : ℕ → ℕ → Bytes → TurnMeta → TurnStore → ℕ × ℕ → Result TurnRecord × TurnStore
  unfolding write_turn write_index write_meta write_head
  commit_turn now context_id payload_hash m s parent =
      let turn_id = s.next_turn_id in
      let r = new_turn now parent payload_hash m s in
      let s₁ : TurnStore = record s { next_turn_id = (s.next_turn_id + 1) % 2 ^ 64 } in
      let offset = length s₁.turns_log in
      let s₂ = write_meta turn_id m (write_index turn_id offset (write_turn r s₁)) in
      let s₃ : TurnStore = record s₂ {
        turn_meta = Dict.insert turn_id m s₂.turn_meta;
        turns = Dict.insert turn_id r s₂.turns;
        turn_index = Dict.insert turn_id offset s₂.turn_index;
      } in
      let head = head_of context_id r in
      let s₄ = write_head head s₃ in
      (ok r, record s₄ { heads = Dict.insert context_id head s₄.heads })

  -- `m` holds the arguments `declared_type_id`, `declared_type_version`, `encoding`, `compression`
  -- and `uncompressed_len`.
  pub append_turn : ℕ → ℕ → ℕ → Bytes → TurnMeta → TurnStore → Result TurnRecord × TurnStore
  unfolding parent_turn commit_turn
  append_turn now context_id parent_turn_id payload_hash m s =
      attempt (parent_turn context_id parent_turn_id s)
        (commit_turn now context_id payload_hash m s) s

abbrev pub get_head : ℕ → TurnStore → Result ContextHead
get_head context_id s = ok_or (Dict.get context_id s.heads) (not_found "context")

abbrev pub get_turn : ℕ → TurnStore → Result TurnRecord
get_turn turn_id s = ok_or (Dict.get turn_id s.turns) (not_found "turn")

pub get_turn_meta : ℕ → TurnStore → Result TurnMeta
get_turn_meta turn_id s = ok_or (Dict.get turn_id s.turn_meta) (not_found "turn meta")

-- The loop of `get_last` and `get_before`: `left` is `limit - results.len()`, so the loop ends.
unfoldable pub walk_back : ℕ → Dict ℕ TurnRecord → ℕ → List TurnRecord → Result (List TurnRecord)
walk_back zero turns current results = ok results
walk_back (suc left) turns current results = elim (current == 0) [
  | true ↦ ok results
  | false ↦ do
    rec ← ok_or (Dict.get current turns) (not_found "turn")
    walk_back left turns rec.parent_turn_id (results ++ (rec ∷ []))
]

unfoldable pub get_last : ℕ → ℕ → TurnStore → Result (List TurnRecord)
unfolding walk_back
get_last context_id limit s = do
  head ← ok_or (Dict.get context_id s.heads) (not_found "context")
  results ← walk_back limit s.turns head.head_turn_id []
  ok (reverse results)

pub get_before : ℕ → ℕ → ℕ → TurnStore → Result (List TurnRecord)
unfolding get_last
get_before context_id before_turn_id limit s = do
  head ← ok_or (Dict.get context_id s.heads) (not_found "context")
  if before_turn_id == 0 || head.head_turn_id == 0 then get_last context_id limit s else do
    before ← ok_or (Dict.get before_turn_id s.turns) (not_found "before turn")
    results ← walk_back limit s.turns before.parent_turn_id []
    ok (reverse results)

-- The loop of `get_first_turn`, which has no bound of its own: it takes fuel.
pub first_turn_loop : ℕ → Dict ℕ TurnRecord → ℕ → Result TurnRecord
first_turn_loop zero turns current = stuck
first_turn_loop (suc fuel) turns current = elim (current == 0) [
  | true ↦ err (not_found "first turn")
  | false ↦ do
    rec ← ok_or (Dict.get current turns) (not_found "turn")
    elim (rec.depth == 0) [ true ↦ ok rec | false ↦ first_turn_loop fuel turns rec.parent_turn_id ]
]

pub get_first_turn : ℕ → TurnStore → Result TurnRecord
unfolding first_turn_loop
get_first_turn context_id s = do
  head ← ok_or (Dict.get context_id s.heads) (not_found "context")
  first_turn_loop (suc head.head_turn_id) s.turns head.head_turn_id

-- `sort_by` with the later `created_at_unix_ms` first, which keeps the order of equals.
pub insert_recent : ContextHead → List ContextHead → List ContextHead
insert_recent h [] = h ∷ []
insert_recent h (k ∷ ks) =
    if leb k.created_at_unix_ms h.created_at_unix_ms then h ∷ k ∷ ks else k ∷ insert_recent h ks

pub sort_recent : List ContextHead → List ContextHead
unfolding insert_recent
sort_recent [] = []
sort_recent (h ∷ hs) = insert_recent h (sort_recent hs)

abbrev pub list_recent_contexts : ℕ → TurnStore → List ContextHead
unfolding sort_recent
list_recent_contexts limit s = take limit (sort_recent (map (λ (k, h). h) s.heads))
