-- ===== src/Turns/Store.antt =====
-- `TurnStore` of server/src/turn_store/mod.rs: its four files, its tables and its counters, and how
-- `open` rebuilds the tables from the files.
pub mod Replay
pub mod Open
pub mod Heads
pub mod Metas
use cxdb.Prelude.{
  ℕ, zero, suc, ◌+◌, ◌-◌, ◌%◌, ◌^◌, Bool, true, false, Option, none, some, List, [], ◌∷◌, ◌++◌,
  length, take, leb, foldl, ◌==◌, nat_eq, if◌then◌else◌,
}
use cxdb.Prelude.Dict
use cxdb.Prelude.Dict.{Dict}
use cxdb.Prelude.Result.{Result, ok, err, stuck, io, unexpected_eof, corrupt, ◌>>=◌}
use cxdb.Wire.{Bytes, Crates, put_u64, read_u64}
use cxdb.Turns.{TurnRecord, TurnMeta, ContextHead}
use cxdb.Turns.Codec.{read_turn_record, read_meta_fields, read_head_fields}

-- The contents of turns.log, turns.idx, turns.meta and heads.tbl.
pub record Disk : Type 0 where
  pub turns_log : Bytes
  pub turns_idx : Bytes
  pub turns_meta : Bytes
  pub heads_tbl : Bytes

pub record TurnStore : Type 0 where
  pub disk : Disk
  pub open disk use *
  pub turns : Dict ℕ TurnRecord
  pub turn_index : Dict ℕ ℕ
  pub turn_meta : Dict ℕ TurnMeta
  pub heads : Dict ℕ ContextHead
  pub next_turn_id : ℕ
  pub next_context_id : ℕ

-- What the scan of turns.log has gathered; `len` is the length that the file keeps.
pub record LogScan : Type 0 where
  pub turns : Dict ℕ TurnRecord
  pub index : Dict ℕ ℕ
  pub len : ℕ

module _ {ℓ} {V : Type ℓ} where
  -- `keys().max()`
  abbrev pub max_key : Dict ℕ V → Option ℕ
  max_key [] = none
  max_key ((k, v) ∷ m) = elim (max_key m) [
    | none ↦ some k
    | some j ↦ some (if leb k j then j else k)
  ]

-- `max_id + 1` where there is a record, and the value of the start otherwise. A u64 wraps.
abbrev pub counter : Option ℕ → ℕ → ℕ
counter none n = n
counter (some k) n = (k + 1) % 2 ^ 64

pub update_counters : TurnStore → TurnStore
update_counters s = record s {
  next_turn_id = counter (max_key s.turns) s.next_turn_id;
  next_context_id = counter (max_key s.heads) s.next_context_id;
}

module _ ⦃x : Crates⦄ where
  -- The loop of `load_turns`, on what is left of `file`. A round that reads a record takes 80
  -- bytes, so `length file + 1` rounds are enough. `stream_position()` is what has been read.
  pub load_turns_loop : ℕ → (file rest : Bytes) → ℕ → Dict ℕ TurnRecord → Dict ℕ ℕ → Result LogScan
  load_turns_loop zero file rest offset turns index = stuck
  load_turns_loop (suc fuel) file rest offset turns index =
      let start = length file - length rest in
      let kept : LogScan = record { turns = turns; index = index; len = start } in
      elim (read_turn_record rest) [
        | ok (r, rest') ↦
            load_turns_loop fuel file rest' (length file - length rest')
              (Dict.insert r.turn_id r turns) (Dict.insert r.turn_id offset index)
        | err (corrupt _) ↦ ok kept
        | err (io unexpected_eof) ↦ ok kept
        | err e ↦ err e
        | stuck ↦ stuck
      ]

  pub load_turns : TurnStore → Result TurnStore
  unfolding load_turns_loop
  load_turns s = do
    scan ← load_turns_loop (suc (length s.turns_log)) s.turns_log s.turns_log 0 [] []
    ok (record s {
      disk = record s.disk { turns_log = take scan.len s.turns_log };
      turns = scan.turns;
      turn_index = scan.index;
    })

  -- The loop of `load_meta`: the table and the length that the file keeps. A file that ends inside
  -- a turn id is not cut.
  pub load_meta_loop : ℕ → (file rest : Bytes) → Dict ℕ TurnMeta → Result (Dict ℕ TurnMeta × ℕ)
  load_meta_loop zero file rest metas = stuck
  load_meta_loop (suc fuel) file rest metas =
      let start = length file - length rest in
      elim (read_u64 rest) [
        | ok (turn_id, rest₁) ↦ elim (read_meta_fields rest₁) [
          | ok (m, rest₂) ↦ load_meta_loop fuel file rest₂ (Dict.insert turn_id m metas)
          | err (io unexpected_eof) ↦ ok (metas, start)
          | err e ↦ err e
          | stuck ↦ stuck
        ]
        | err (io unexpected_eof) ↦ ok (metas, length file)
        | err e ↦ err e
        | stuck ↦ stuck
      ]

  pub load_meta : TurnStore → Result TurnStore
  unfolding load_meta_loop
  load_meta s = do
    (metas, len) ← load_meta_loop (suc (length s.turns_meta)) s.turns_meta s.turns_meta []
    ok (record s { disk = record s.disk { turns_meta = take len s.turns_meta }; turn_meta = metas })

  -- The loop of `load_heads`; a later record of a context replaces an earlier one. A file that
  -- ends inside a context id is not cut.
  pub load_heads_loop :
      ℕ → (file rest : Bytes) → Dict ℕ ContextHead → Result (Dict ℕ ContextHead × ℕ)
  load_heads_loop zero file rest heads = stuck
  load_heads_loop (suc fuel) file rest heads =
      let start = length file - length rest in
      elim (read_u64 rest) [
        | ok (context_id, rest₁) ↦ elim (read_head_fields context_id rest₁) [
          | ok (h, rest₂) ↦ load_heads_loop fuel file rest₂ (Dict.insert context_id h heads)
          | err (io unexpected_eof) ↦ ok (heads, start)
          | err (corrupt _) ↦ ok (heads, start)
          | err e ↦ err e
          | stuck ↦ stuck
        ]
        | err (io unexpected_eof) ↦ ok (heads, length file)
        | err e ↦ err e
        | stuck ↦ stuck
      ]

  pub load_heads : TurnStore → Result TurnStore
  unfolding load_heads_loop
  load_heads s = do
    (heads, len) ← load_heads_loop (suc (length s.heads_tbl)) s.heads_tbl s.heads_tbl []
    ok (record s { disk = record s.disk { heads_tbl = take len s.heads_tbl }; heads = heads })

  abbrev index_entries : Dict ℕ ℕ → Bytes
  index_entries [] = []
  index_entries ((turn_id, offset) ∷ m) = put_u64 turn_id ++ (put_u64 offset ++ index_entries m)

  pub rebuild_index : TurnStore → TurnStore
  rebuild_index s = record s { disk = record s.disk { turns_idx = index_entries s.turn_index } }

  pub open_disk : Disk → Result TurnStore
  unfolding load_turns load_meta load_heads rebuild_index update_counters
  open_disk disk = do
    let store : TurnStore = record {
      disk = disk;
      turns = [];
      turn_index = [];
      turn_meta = [];
      heads = [];
      next_turn_id = 1;
      next_context_id = 1;
    }
    s₁ ← load_turns store
    s₂ ← load_meta s₁
    s₃ ← load_heads s₂
    ok (update_counters (rebuild_index s₃))
