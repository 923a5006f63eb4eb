-- ===== src/FsRoots.antt =====
-- `FsRootsIndex` of server/src/fs_store/mod.rs: which turns have a snapshot of a file system, in
-- roots.idx and in a table, and how a turn inherits that of an earlier one.
pub mod Inherit
use cxdb.Prelude.{
  ℕ, zero, suc, ◌+◌, ◌-◌, ◌%◌, ◌^◌, Bool, true, false, Option, none, some, List, [], ◌∷◌, ◌++◌,
  length, take, ◌==◌, nat_eq, if◌then◌else◌,
}
use cxdb.Prelude.Dict
use cxdb.Prelude.Dict.{Dict}
use cxdb.Prelude.Result.{Result, ok, err, stuck, corrupt, ensure}
use cxdb.Wire.{
  Bytes, Crates, put_u32, put_u64, Read, ◌>>=◌, ◌>>◌, pure, lift, read_exact, read_u32, read_u64,
}
use cxdb.Turns.{TurnRecord}

pub record FsRootsIndex : Type 0 where
  pub file : Bytes
  pub roots : Dict ℕ Bytes

module _ ⦃x : Crates⦄ where
  -- `compute_crc`
  abbrev pub root_crc : ℕ → Bytes → ℕ
  root_crc turn_id fs_root_hash = x.crc32 (put_u64 turn_id ++ fs_root_hash)

  unfoldable pub encode_root : ℕ → Bytes → Bytes
  encode_root turn_id fs_root_hash =
      put_u64 turn_id ++ (fs_root_hash ++ put_u32 (root_crc turn_id fs_root_hash))

  -- A record behind its turn id. Whatever goes wrong there cuts the file off before the record.
  unfoldable pub read_root : ℕ → Read Bytes
  read_root turn_id = do
    fs_root_hash ← read_exact 32
    crc ← read_u32
    lift (ensure (crc == root_crc turn_id fs_root_hash) (corrupt "crc"))
    pure fs_root_hash

  -- The loop of `load` on what is left of `file`: the table, and the length that the file keeps. A
  -- round takes 44 bytes, so `length file + 1` rounds are enough.
  unfoldable pub load_loop : ℕ → (file rest : Bytes) → Dict ℕ Bytes → Result (Dict ℕ Bytes × ℕ)
  unfolding read_root
  load_loop zero file rest roots = stuck
  load_loop (suc fuel) file rest roots = elim (read_u64 rest) [
    | ok (turn_id, behind_id) ↦ elim (read_root turn_id behind_id) [
      | ok (fs_root_hash, rest') ↦
          load_loop fuel file rest' (Dict.insert turn_id fs_root_hash roots)
      | err e ↦ ok (roots, length file - length rest)
      | stuck ↦ stuck
    ]
    | err e ↦ ok (roots, length file)
    | stuck ↦ stuck
  ]

  unfoldable pub open_roots : Bytes → Result FsRootsIndex
  unfolding load_loop
  open_roots file = elim (load_loop (suc (length file)) file file []) [
    | ok (roots, len) ↦ ok (record { file = take len file; roots = roots })
    | err e ↦ err e
    | stuck ↦ stuck
  ]

  unfoldable pub attach : ℕ → Bytes → FsRootsIndex → FsRootsIndex
  attach turn_id fs_root_hash s = record {
    file = s.file ++ encode_root turn_id fs_root_hash;
    roots = Dict.insert turn_id fs_root_hash s.roots;
  }

-- The walk of `get_inherited`, which has no bound of its own: it takes fuel.
unfoldable pub walk_roots : ℕ → Dict ℕ TurnRecord → Dict ℕ Bytes → ℕ → Result (Option Bytes)
walk_roots zero turns roots current = stuck
walk_roots (suc fuel) turns roots current = elim (current == 0) [
  | true ↦ ok none
  | false ↦ elim (Dict.get current turns) [
    | none ↦ ok none
    | some turn ↦ elim (Dict.get turn.turn_id roots) [
      | some hash ↦ ok (some hash)
      | none ↦ walk_roots fuel turns roots turn.parent_turn_id
    ]
  ]
]

unfoldable pub get_inherited : ℕ → Dict ℕ TurnRecord → FsRootsIndex → Result (Option Bytes)
unfolding walk_roots
get_inherited turn_id turns s = elim (Dict.get turn_id s.roots) [
  | some hash ↦ ok (some hash)
  | none ↦ walk_roots (suc turn_id) turns s.roots turn_id
]
