-- ===== src/Protocol.antt =====
-- server/src/protocol/mod.rs: message types, frames and the records of the requests.
pub mod Frames
pub mod Requests
pub mod Responses
use cxdb.Prelude.{ℕ, ◌*◌, ◌%◌, ◌^◌, ◌++◌, Option, length, leb}
use cxdb.Prelude.Result.{invalid_input, ensure}
use cxdb.Wire.{
  Bytes, Crates, put_u16, put_u32, put_u64, Read, ◌>>=◌, ◌>>◌, pure, lift, read_exact, read_u16,
  read_u32, read_u64,
}

abbrev pub max_frame_size : ℕ
max_frame_size = 64 * 1024 * 1024

pub data MsgType : Type 0 where
  hello ctx_create ctx_fork get_head append_turn get_last get_before get_range_by_depth : MsgType
  get_blob attach_fs put_blob error : MsgType

-- `msg_type as u16`
abbrev pub msg_code : MsgType → ℕ
msg_code MsgType.hello = 1
msg_code MsgType.ctx_create = 2
msg_code MsgType.ctx_fork = 3
msg_code MsgType.get_head = 4
msg_code MsgType.append_turn = 5
msg_code MsgType.get_last = 6
msg_code MsgType.get_before = 7
msg_code MsgType.get_range_by_depth = 8
msg_code MsgType.get_blob = 9
msg_code MsgType.attach_fs = 10
msg_code MsgType.put_blob = 11
msg_code MsgType.error = 255

pub record FrameHeader : Type 0 where
  pub len : ℕ
  pub msg_type : ℕ
  pub flags : ℕ
  pub req_id : ℕ

pub record AppendTurnRequest : Type 0 where
  pub context_id : ℕ
  pub parent_turn_id : ℕ
  pub declared_type_id : Bytes
  pub declared_type_version : ℕ
  pub encoding : ℕ
  pub compression : ℕ
  pub uncompressed_len : ℕ
  pub content_hash : Bytes
  pub payload_bytes : Bytes
  pub idempotency_key : Bytes
  pub fs_root_hash : Option Bytes

pub record AttachFsRequest : Type 0 where
  pub turn_id : ℕ
  pub fs_root_hash : Bytes

pub record PutBlobRequest : Type 0 where
  pub hash : Bytes
  pub payload : Bytes

pub record GetLastRequest : Type 0 where
  pub context_id : ℕ
  pub limit : ℕ
  pub include_payload : ℕ

pub record HelloRequest : Type 0 where
  pub protocol_version : ℕ
  pub client_tag : Bytes
  pub client_meta_json : Option Bytes

module _ ⦃x : Crates⦄ where
  unfoldable pub read_frame : Read (FrameHeader × Bytes)
  read_frame = do
    len ← read_u32
    lift (ensure (leb len max_frame_size) (invalid_input "frame size {} exceeds maximum {}"))
    msg_type ← read_u16
    flags ← read_u16
    req_id ← read_u64
    payload ← read_exact len
    pure (record { len = len; msg_type = msg_type; flags = flags; req_id = req_id }, payload)

  -- What `write_frame` sends; `payload.len() as u32` keeps 32 bits.
  unfoldable pub write_frame : ℕ → ℕ → ℕ → Bytes → Bytes
  write_frame msg_type flags req_id payload =
      put_u32 (length payload % 2 ^ 32)
      ++ (put_u16 msg_type ++ (put_u16 flags ++ (put_u64 req_id ++ payload)))
