-- ===== src/Turns.antt =====
-- server/src/turn_store/mod.rs: the data of the turn store.
pub mod Codec
pub mod Store
pub mod Ops
use cxdb.Prelude.{ℕ, ◌≡◌, true, length}
use cxdb.Wire.{Bytes, IsU32, IsU64, IsHash}
use cxdb.Wire.Utf8.{is_utf8}

pub record TurnRecord : Type 0 where
  pub turn_id : ℕ
  pub parent_turn_id : ℕ
  pub depth : ℕ
  pub codec : ℕ
  pub type_tag : ℕ
  pub payload_hash : Bytes
  pub flags : ℕ
  pub created_at_unix_ms : ℕ

pub record TurnMeta : Type 0 where
  pub declared_type_id : Bytes
  pub declared_type_version : ℕ
  pub encoding : ℕ
  pub compression : ℕ
  pub uncompressed_len : ℕ

pub record ContextHead : Type 0 where
  pub context_id : ℕ
  pub head_turn_id : ℕ
  pub head_depth : ℕ
  pub created_at_unix_ms : ℕ
  pub flags : ℕ

-- What the Rust types of the fields say of their values.
pub record IsTurnRecord (r : TurnRecord) : Type 0 where
  pub turn_id : IsU64 r.turn_id
  pub parent_turn_id : IsU64 r.parent_turn_id
  pub depth : IsU32 r.depth
  pub codec : IsU32 r.codec
  pub type_tag : IsU64 r.type_tag
  pub payload_hash : IsHash r.payload_hash
  pub flags : IsU32 r.flags
  pub created_at_unix_ms : IsU64 r.created_at_unix_ms

pub record IsTurnMeta (m : TurnMeta) : Type 0 where
  pub declared_type_id : is_utf8 m.declared_type_id ≡ true
  pub type_id_len : IsU32 (length m.declared_type_id)
  pub declared_type_version : IsU32 m.declared_type_version
  pub encoding : IsU32 m.encoding
  pub compression : IsU32 m.compression
  pub uncompressed_len : IsU32 m.uncompressed_len

pub record IsContextHead (h : ContextHead) : Type 0 where
  pub context_id : IsU64 h.context_id
  pub head_turn_id : IsU64 h.head_turn_id
  pub head_depth : IsU32 h.head_depth
  pub created_at_unix_ms : IsU64 h.created_at_unix_ms
  pub flags : IsU32 h.flags
