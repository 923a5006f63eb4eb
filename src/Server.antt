-- ===== src/Server.antt =====
-- `handle_client` of server/src/main.rs: what one request does to the store, and its answer. The
-- connection is closed by an error that `?` passes on, and stays open after an answer or an ERROR
-- frame. Sessions, events and metrics are not here.
pub mod Requests
pub mod Refusals
use cxdb.Prelude.{
  ℕ, ◌%◌, ◌^◌, Bool, true, false, not, Option, none, some, List, ◌++◌, length, ◌==◌, nat_eq,
  bytes_eq, if◌then◌else◌, String,
}
use cxdb.Prelude.Result.{Result, ok, err, stuck, StoreError, io, corrupt, not_found, invalid_input}
use cxdb.Wire.{Bytes, Crates, put_u32}
use cxdb.Turns.{TurnRecord, TurnMeta, ContextHead}
use cxdb.Turns.Ops
use cxdb.BlobStore.Ops.{contains, put_if_absent, get_blob}
use cxdb.Store.{Store, TurnWithMeta, append_turn, get_last, attach_fs, encode_get_last_resp}
use cxdb.Protocol.{
  MsgType, msg_code, AppendTurnRequest, AttachFsRequest, PutBlobRequest, GetLastRequest,
  HelloRequest,
}
use cxdb.Protocol.Requests.{
  parse_hello, parse_ctx_create, parse_ctx_fork, parse_get_head, parse_append_turn, parse_attach_fs,
  parse_put_blob, parse_get_last, parse_get_blob,
}
use cxdb.Protocol.Responses.{
  encode_hello_resp, encode_ctx_create_resp, encode_append_ack, encode_attach_fs_resp,
  encode_put_blob_resp,
}

pub data Answer : Type 0 where
  reply : MsgType → Bytes → Answer
  refuse : StoreError → Answer
  close : StoreError → Answer
  -- no Rust value: a loop of the model ran out of fuel
  endless : Answer

-- The code of an ERROR frame.
abbrev pub map_error : StoreError → ℕ
map_error (not_found m) = 404
map_error (invalid_input m) = 422
map_error (corrupt m) = 500
map_error (io k) = 500

-- `f(..)?`, where nothing has changed yet
unfoldable pub or_close {ℓ} :
    {A : Type ℓ} → Result A → Store → (A → Answer × Store) → Answer × Store
or_close (ok a) s k = k a
or_close (err e) s k = (close e, s)
or_close stuck s k = (endless, s)

-- `match f(..) { Ok(..) => .., Err(e) => Err(e) }`
unfoldable pub or_refuse {ℓ} :
    {A : Type ℓ} → Result A → Store → (A → Answer × Store) → Answer × Store
or_refuse (ok a) s k = k a
or_refuse (err e) s k = (refuse e, s)
or_refuse stuck s k = (endless, s)

module _ ⦃x : Crates⦄ where
  abbrev pub head_resp : ContextHead → Bytes
  head_resp head = encode_ctx_create_resp head.context_id head.head_turn_id head.head_depth

  abbrev pub meta_of : AppendTurnRequest → TurnMeta
  meta_of req = record {
    declared_type_id = req.declared_type_id;
    declared_type_version = req.declared_type_version;
    encoding = req.encoding;
    compression = req.compression;
    uncompressed_len = req.uncompressed_len;
  }

  -- `store.attach_fs` for a turn that asks for it
  abbrev pub attach_requested : ℕ → Option Bytes → Store → Result Store
  attach_requested turn_id none s = ok s
  attach_requested turn_id (some hash) s = attach_fs turn_id hash s

  abbrev pub handle_new_context : MsgType → Result ContextHead × Store → Answer × Store
  handle_new_context msg_type out =
      or_close (out.0) (out.1) λ head. (reply msg_type (head_resp head), out.1)

  unfoldable pub handle_append_turn : ℕ → AppendTurnRequest → Store → Answer × Store
  handle_append_turn now req s =
      let out =
        append_turn now req.context_id req.parent_turn_id (meta_of req) req.content_hash
          req.payload_bytes s in
      or_close (out.0) (out.1) λ r.
        or_close (attach_requested r.turn_id req.fs_root_hash (out.1)) (out.1) λ s'. (
          reply MsgType.append_turn
              (encode_append_ack req.context_id r.turn_id r.depth r.payload_hash),
          s',
        )

  unfoldable pub handle_put_blob : PutBlobRequest → Store → Answer × Store
  handle_put_blob req s =
      if x.blake3 req.payload == req.hash
      then (let was_new = not (contains req.hash s.blob_store) in
          (
            reply MsgType.put_blob (encode_put_blob_resp req.hash was_new),
            record s { blob_store = (put_if_absent req.hash req.payload s.blob_store).1 },
          ))
      else (refuse (invalid_input "blob hash mismatch"), s)

  unfoldable pub handle : ℕ → ℕ → MsgType → ℕ → Bytes → Store → Answer × Store
  unfolding handle_append_turn handle_put_blob
  handle session_id now MsgType.hello flags payload s =
      or_close (parse_hello payload) s
        λ hello. (reply MsgType.hello (encode_hello_resp session_id 1), s)
  handle session_id now MsgType.ctx_create flags payload s =
      or_close (parse_ctx_create payload) s λ base_turn_id.
        let out = Ops.create_context now base_turn_id s.turn_store in
        handle_new_context MsgType.ctx_create (out.0, record s { turn_store = out.1 })
  handle session_id now MsgType.ctx_fork flags payload s =
      or_close (parse_ctx_fork payload) s λ base_turn_id.
        let out = Ops.fork_context now base_turn_id s.turn_store in
        handle_new_context MsgType.ctx_fork (out.0, record s { turn_store = out.1 })
  handle session_id now MsgType.get_head flags payload s =
      or_close (parse_get_head payload) s λ context_id.
        or_refuse (Ops.get_head context_id s.turn_store) s
          λ head. (reply MsgType.get_head (head_resp head), s)
  handle session_id now MsgType.append_turn flags payload s =
      or_close (parse_append_turn payload flags) s λ req. handle_append_turn now req s
  handle session_id now MsgType.attach_fs flags payload s =
      or_close (parse_attach_fs payload) s λ req.
        or_close (attach_fs req.turn_id req.fs_root_hash s) s
          λ s'. (reply MsgType.attach_fs (encode_attach_fs_resp req.turn_id req.fs_root_hash), s')
  handle session_id now MsgType.put_blob flags payload s =
      or_close (parse_put_blob payload) s λ req. handle_put_blob req s
  handle session_id now MsgType.get_last flags payload s =
      or_close (parse_get_last payload) s λ req.
        or_close (get_last req.context_id req.limit (not (req.include_payload == 0)) s) s
          λ items. (reply MsgType.get_last (encode_get_last_resp items), s)
  handle session_id now MsgType.get_blob flags payload s =
      or_close (parse_get_blob payload) s λ hash.
        or_refuse (get_blob hash s.blob_store) s
          λ blob. (reply MsgType.get_blob (put_u32 (length blob % 2 ^ 32) ++ blob), s)
  handle session_id now MsgType.get_before flags payload s =
      (refuse (invalid_input "unknown msg_type"), s)
  handle session_id now MsgType.get_range_by_depth flags payload s =
      (refuse (invalid_input "unknown msg_type"), s)
  handle session_id now MsgType.error flags payload s =
      (refuse (invalid_input "unknown msg_type"), s)
