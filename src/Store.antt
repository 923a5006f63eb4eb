-- ===== src/Store.antt =====
-- `Store` of server/src/store.rs over the turn store and the blob store: how a turn and its payload
-- are stored and read back, and the answer to GET_LAST that server/src/main.rs writes. The metadata
-- cache and the secondary indexes are not here.
pub mod Append
pub mod Interop
use cxdb.Prelude.{
  ℕ, zero, suc, ◌%◌, ◌^◌, String, Bool, Option, none, some, List, [], ◌∷◌, ◌++◌, length, ◌==◌,
  nat_eq, bytes_eq, if◌then◌else◌,
}
use cxdb.Prelude.Result.{
  Result, ok, err, stuck, not_found, invalid_input, ensure, ok_or, ◌>>=◌, ◌>>◌,
}
use cxdb.Wire.{Bytes, Crates, put_u32, put_u64}
use cxdb.Turns.{TurnRecord, TurnMeta}
use cxdb.Turns.Store.{TurnStore}
use cxdb.Turns.Ops
use cxdb.BlobStore.{BlobStore}
use cxdb.FsRoots.{FsRootsIndex, attach}
use cxdb.BlobStore.Ops.{contains, put_if_absent, get_blob}

pub record Store : Type 0 where
  pub blob_store : BlobStore
  pub turn_store : TurnStore
  pub fs_roots : FsRootsIndex

pub record TurnWithMeta : Type 0 where
  pub turn : TurnRecord
  pub meta : TurnMeta
  pub payload : Option Bytes

-- `format!("unsupported compression: {other}")` and the end of a failing decoder
abbrev pub zstd_error : String
zstd_error = "zstd decode failed: {e}"

module _ ⦃x : Crates⦄ where
  -- The payload as it was before the client compressed it.
  abbrev pub raw_of : ℕ → Bytes → Result Bytes
  raw_of zero payload = ok payload
  raw_of (suc zero) payload = ok_or (x.zstd_decode_all payload) (invalid_input zstd_error)
  raw_of (suc (suc other)) payload = err (invalid_input "unsupported compression: {other}")

  -- The checks of `append_turn` before it writes.
  unfoldable pub check_payload : TurnMeta → Bytes → Bytes → Result Bytes
  check_payload m content_hash payload_bytes = do
    raw ← raw_of m.compression payload_bytes
    ensure (length raw % 2 ^ 32 == m.uncompressed_len)
        (invalid_input "uncompressed length mismatch")
    ensure (x.blake3 raw == content_hash) (invalid_input "content hash mismatch")
    ok raw

  -- What `append_turn` does with a payload that is right. The blob stays where the turn fails.
  abbrev pub store_turn :
      ℕ → ℕ → ℕ → TurnMeta → Bytes → Store → Result Bytes → Result TurnRecord × Store
  store_turn now context_id parent_turn_id m content_hash s (ok raw) =
      let blobs = (put_if_absent content_hash raw s.blob_store).1 in
      let out = Ops.append_turn now context_id parent_turn_id content_hash m s.turn_store in
      (out.0, record s { blob_store = blobs; turn_store = out.1 })
  store_turn now context_id parent_turn_id m content_hash s (err e) = (err e, s)
  store_turn now context_id parent_turn_id m content_hash s stuck = (stuck, s)

  unfoldable pub append_turn :
      ℕ → ℕ → ℕ → TurnMeta → Bytes → Bytes → Store → Result TurnRecord × Store
  append_turn now context_id parent_turn_id m content_hash payload_bytes s =
      store_turn now context_id parent_turn_id m content_hash s
        (check_payload m content_hash payload_bytes)

  -- The turn must exist, and the blob store must have the tree.
  unfoldable pub attach_fs : ℕ → Bytes → Store → Result Store
  attach_fs turn_id fs_root_hash s = do
    turn ← Ops.get_turn turn_id s.turn_store
    ensure (contains fs_root_hash s.blob_store) (not_found "fs root tree blob")
    ok (record s { fs_roots = attach turn_id fs_root_hash s.fs_roots })

  abbrev pub load_payload : Bool → Bytes → BlobStore → Result (Option Bytes)
  load_payload include_payload hash blobs =
      if include_payload then (do payload ← get_blob hash blobs; ok (some payload)) else ok none

  -- The loop of `get_last` and `get_before`.
  unfoldable pub load_turns : Bool → List TurnRecord → Store → Result (List TurnWithMeta)
  load_turns include_payload [] s = ok []
  load_turns include_payload (turn ∷ turns) s = do
    meta ← Ops.get_turn_meta turn.turn_id s.turn_store
    payload ← load_payload include_payload turn.payload_hash s.blob_store
    out ← load_turns include_payload turns s
    ok (record { turn = turn; meta = meta; payload = payload } ∷ out)

  unfoldable pub get_last : ℕ → ℕ → Bool → Store → Result (List TurnWithMeta)
  unfolding load_turns
  get_last context_id limit include_payload s = do
    turns ← Ops.get_last context_id limit s.turn_store
    load_turns include_payload turns s

  unfoldable pub get_before : ℕ → ℕ → ℕ → Bool → Store → Result (List TurnWithMeta)
  unfolding load_turns
  get_before context_id before_turn_id limit include_payload s = do
    turns ← Ops.get_before context_id before_turn_id limit s.turn_store
    load_turns include_payload turns s

  -- The raw payload is what the answer holds, so its compression is 0 and its length is its own.
  abbrev pub payload_fields : TurnMeta → Bytes → Option Bytes → Bytes
  payload_fields m hash none = put_u32 m.compression ++ (put_u32 m.uncompressed_len ++ hash)
  payload_fields m hash (some payload) =
      put_u32 0
      ++ (put_u32 (length payload % 2 ^ 32)
          ++ (hash ++ (put_u32 (length payload % 2 ^ 32) ++ payload)))

  unfoldable pub encode_item : TurnWithMeta → Bytes
  encode_item item =
      put_u64 item.turn.turn_id
      ++ (put_u64 item.turn.parent_turn_id
          ++ (put_u32 item.turn.depth
              ++ (put_u32 (length item.meta.declared_type_id % 2 ^ 32)
                  ++ (item.meta.declared_type_id
                      ++ (put_u32 item.meta.declared_type_version
                          ++ (put_u32 item.meta.encoding
                              ++ payload_fields item.meta item.turn.payload_hash item.payload))))))

  abbrev pub encode_items : List TurnWithMeta → Bytes
  encode_items [] = []
  encode_items (item ∷ items) = encode_item item ++ encode_items items

  -- The payload of the answer to GET_LAST.
  unfoldable pub encode_get_last_resp : List TurnWithMeta → Bytes
  encode_get_last_resp items = put_u32 (length items % 2 ^ 32) ++ encode_items items
