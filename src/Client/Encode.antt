-- ===== src/Client/Encode.antt =====
-- The request payloads that the Rust client writes (clients/rust/src/turn.rs, context.rs, fs.rs,
-- client.rs).
pub mod Interop
use cxdb.Prelude.{
  ℕ, ◌%◌, ◌^◌, Bool, Option, none, some, List, [], ◌++◌, length, ltb, ◌==◌, nat_eq, if◌then◌else◌,
}
use cxdb.Wire.{Bytes, Crates, put_u16, put_u32, put_u64}
use cxdb.Client.{AppendRequest}

abbrev pub encoding_msgpack : ℕ
encoding_msgpack = 1

abbrev pub encoding_or_default : AppendRequest → ℕ
encoding_or_default req = if req.encoding == 0 then encoding_msgpack else req.encoding

-- The bytes of a `[u8; 32]` that may be missing, and the bit of the frame's flags that says so.
abbrev pub fs_root_bytes : Option Bytes → Bytes
fs_root_bytes none = []
fs_root_bytes (some hash) = hash

abbrev pub fs_root_flags : Option Bytes → ℕ
fs_root_flags none = 0
fs_root_flags (some hash) = 1

module _ ⦃x : Crates⦄ where
  -- The payload of `append_turn_with_fs`. Each `len() as u32` keeps 32 bits.
  unfoldable pub append_turn_with_fs_payload : AppendRequest → Option Bytes → Bytes
  append_turn_with_fs_payload req fs_root_hash =
      put_u64 req.context_id
      ++ (put_u64 req.parent_turn_id
          ++ (put_u32 (length req.type_id % 2 ^ 32)
              ++ (req.type_id
                  ++ (put_u32 req.type_version
                      ++ (put_u32 (encoding_or_default req)
                          ++ (put_u32 req.compression
                              ++ (put_u32 (length req.payload % 2 ^ 32)
                                  ++ (x.blake3 req.payload
                                      ++ (put_u32 (length req.payload % 2 ^ 32)
                                          ++ (req.payload
                                              ++ (put_u32 (length req.idempotency_key % 2 ^ 32)
                                                  ++ (req.idempotency_key
                                                      ++ fs_root_bytes fs_root_hash))))))))))))

  -- The payload of `append_turn`.
  unfoldable pub append_turn_payload : AppendRequest → Bytes
  append_turn_payload req =
      put_u64 req.context_id
      ++ (put_u64 req.parent_turn_id
          ++ (put_u32 (length req.type_id % 2 ^ 32)
              ++ (req.type_id
                  ++ (put_u32 req.type_version
                      ++ (put_u32 (encoding_or_default req)
                          ++ (put_u32 req.compression
                              ++ (put_u32 (length req.payload % 2 ^ 32)
                                  ++ (x.blake3 req.payload
                                      ++ (put_u32 (length req.payload % 2 ^ 32)
                                          ++ (req.payload
                                              ++ (put_u32 (length req.idempotency_key % 2 ^ 32)
                                                  ++ req.idempotency_key)))))))))))

  -- `create_context`, `fork_context` and `get_head` send one id.
  unfoldable pub context_payload : ℕ → Bytes
  context_payload id = put_u64 id

  unfoldable pub get_last_payload : ℕ → ℕ → Bool → Bytes
  get_last_payload context_id limit include_payload =
      put_u64 context_id
      ++ (put_u32 (if limit == 0 then 10 else limit) ++ put_u32 (if include_payload then 1 else 0))

  unfoldable pub attach_fs_payload : ℕ → Bytes → Bytes
  attach_fs_payload turn_id fs_root_hash = put_u64 turn_id ++ fs_root_hash

  unfoldable pub put_blob_payload : Bytes → Bytes
  put_blob_payload blob = x.blake3 blob ++ (put_u32 (length blob % 2 ^ 32) ++ blob)

  -- `client_tag.len() as u16` keeps 16 bits.
  unfoldable pub hello_payload : Bytes → Bytes
  hello_payload client_tag =
      put_u16 1 ++ (put_u16 (length client_tag % 2 ^ 16) ++ (client_tag ++ put_u32 0))
