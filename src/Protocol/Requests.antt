-- ===== src/Protocol/Requests.antt =====
-- The parsers of request payloads in server/src/protocol/mod.rs. A parser reads from a cursor over
-- the payload and drops what it has not read.
use cxdb.Prelude.{
  ℕ, ◌+◌, ◌%◌, Option, none, some, [], ◌∷◌, length, ltb, leb, ◌==◌, nat_eq, if◌then◌else◌,
}
use cxdb.Prelude.Result.{Result, ok, err, invalid_input, ensure, ok_or}
use cxdb.Wire.{
  Bytes, Crates, Read, from_cursor, ◌>>=◌, ◌>>◌, pure, lift, read_exact, read_u16, read_u32,
  read_u64,
}
use cxdb.Wire.Utf8.{from_utf8}
use cxdb.Protocol.{AppendTurnRequest, AttachFsRequest, PutBlobRequest, GetLastRequest, HelloRequest}

-- `if idempotency_len > 0 { cursor.read_exact(..)? }`, and likewise for other lengths
abbrev pub read_nonempty : ℕ → Read Bytes
read_nonempty n = if ltb 0 n then read_exact n else pure []

-- `flags & 1 != 0` asks for the hash of a file system snapshot.
abbrev pub read_fs_root_hash : ℕ → Read (Option Bytes)
read_fs_root_hash flags =
    if flags % 2 == 1 then (do hash ← read_exact 32; pure (some hash)) else pure none

abbrev read_client_meta : ℕ → Read (Option Bytes)
read_client_meta len =
    if ltb 0 len
    then (do
      meta_bytes ← read_exact len
      meta ← lift (ok_or (from_utf8 meta_bytes) (invalid_input "client_meta_json not utf8"))
      pure (some meta))
    else pure none

module _ ⦃x : Crates⦄ where
  unfoldable pub parse_ctx_create : Bytes → Result ℕ
  parse_ctx_create payload = from_cursor read_u64 payload

  unfoldable pub parse_ctx_fork : Bytes → Result ℕ
  unfolding parse_ctx_create
  parse_ctx_fork payload = parse_ctx_create payload

  unfoldable pub parse_get_head : Bytes → Result ℕ
  unfolding parse_ctx_create
  parse_get_head payload = parse_ctx_create payload

  unfoldable pub parse_get_last : Bytes → Result GetLastRequest
  parse_get_last payload =
      from_cursor
        (do
          context_id ← read_u64
          limit ← read_u32
          include_payload ← read_u32
          pure (record {
            context_id = context_id;
            limit = limit;
            include_payload = include_payload;
          }))
        payload

  unfoldable pub parse_get_blob : Bytes → Result Bytes
  parse_get_blob payload =
      if length payload == 32 then ok payload else err (invalid_input "invalid blob hash length")

  unfoldable pub read_append_turn : ℕ → Read AppendTurnRequest
  read_append_turn flags = do
    context_id ← read_u64
    parent_turn_id ← read_u64
    type_id_len ← read_u32
    type_id_bytes ← read_exact type_id_len
    declared_type_id ←
        lift (ok_or (from_utf8 type_id_bytes) (invalid_input "declared_type_id not utf8"))
    declared_type_version ← read_u32
    encoding ← read_u32
    compression ← read_u32
    uncompressed_len ← read_u32
    content_hash ← read_exact 32
    payload_len ← read_u32
    payload_bytes ← read_exact payload_len
    idempotency_len ← read_u32
    idempotency_key ← read_nonempty idempotency_len
    fs_root_hash ← read_fs_root_hash flags
    pure (record {
      context_id = context_id;
      parent_turn_id = parent_turn_id;
      declared_type_id = declared_type_id;
      declared_type_version = declared_type_version;
      encoding = encoding;
      compression = compression;
      uncompressed_len = uncompressed_len;
      content_hash = content_hash;
      payload_bytes = payload_bytes;
      idempotency_key = idempotency_key;
      fs_root_hash = fs_root_hash;
    })

  unfoldable pub parse_append_turn : Bytes → ℕ → Result AppendTurnRequest
  unfolding read_append_turn
  parse_append_turn payload flags = from_cursor (read_append_turn flags) payload

  unfoldable pub parse_attach_fs : Bytes → Result AttachFsRequest
  parse_attach_fs payload =
      if ltb (length payload) 40
      then err (invalid_input "attach_fs payload too short")
      else from_cursor
          (do
            turn_id ← read_u64
            fs_root_hash ← read_exact 32
            pure (record { turn_id = turn_id; fs_root_hash = fs_root_hash }))
          payload

  unfoldable pub parse_put_blob : Bytes → Result PutBlobRequest
  parse_put_blob payload =
      if ltb (length payload) 36
      then err (invalid_input "put_blob payload too short")
      else from_cursor
          (do
            hash ← read_exact 32
            data_len ← read_u32
            blob ← read_exact data_len
            pure (record { hash = hash; payload = blob }))
          payload

  -- `total` is the length of the payload.
  unfoldable pub read_hello : ℕ → Read HelloRequest
  read_hello total = do
    protocol_version ← read_u16
    client_tag_len ← read_u16
    lift (ensure (leb (4 + client_tag_len + 4) total) (invalid_input "hello payload truncated"))
    client_tag_bytes ← read_nonempty client_tag_len
    client_tag ← lift (ok_or (from_utf8 client_tag_bytes) (invalid_input "client_tag not utf8"))
    client_meta_json_len ← read_u32
    client_meta_json ← read_client_meta client_meta_json_len
    pure (record {
      protocol_version = protocol_version;
      client_tag = client_tag;
      client_meta_json = client_meta_json;
    })

  -- An empty payload is that of an old client.
  unfoldable pub parse_hello : Bytes → Result HelloRequest
  unfolding read_hello
  parse_hello [] = ok (record { protocol_version = 0; client_tag = []; client_meta_json = none })
  parse_hello (b ∷ bs) =
      let payload = b ∷ bs in
      if ltb (length payload) 4
      then err (invalid_input "hello payload too short")
      else from_cursor (read_hello (length payload)) payload
