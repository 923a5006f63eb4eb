-- ===== src/Protocol/Responses.antt =====
-- The encoders of response payloads in server/src/protocol/mod.rs.
use cxdb.Prelude.{ℕ, ◌%◌, ◌^◌, ◌++◌, Bool, [], ◌∷◌, length, if◌then◌else◌}
use cxdb.Wire.{Bytes, Crates, put_u16, put_u32, put_u64}

unfoldable pub encode_put_blob_resp : Bytes → Bool → Bytes
encode_put_blob_resp hash was_new = hash ++ ((if was_new then 1 else 0) ∷ [])

module _ ⦃x : Crates⦄ where
  unfoldable pub encode_attach_fs_resp : ℕ → Bytes → Bytes
  encode_attach_fs_resp turn_id fs_root_hash = put_u64 turn_id ++ fs_root_hash

  unfoldable pub encode_ctx_create_resp : ℕ → ℕ → ℕ → Bytes
  encode_ctx_create_resp context_id head_turn_id head_depth =
      put_u64 context_id ++ (put_u64 head_turn_id ++ put_u32 head_depth)

  unfoldable pub encode_append_ack : ℕ → ℕ → ℕ → Bytes → Bytes
  encode_append_ack context_id new_turn_id new_depth hash =
      put_u64 context_id ++ (put_u64 new_turn_id ++ (put_u32 new_depth ++ hash))

  -- `detail.len() as u32` keeps 32 bits.
  unfoldable pub encode_error : ℕ → Bytes → Bytes
  encode_error code detail = put_u32 code ++ (put_u32 (length detail % 2 ^ 32) ++ detail)

  unfoldable pub encode_hello_resp : ℕ → ℕ → Bytes
  encode_hello_resp session_id protocol_version = put_u64 session_id ++ put_u16 protocol_version
