-- ===== src/Client.antt =====
-- clients/rust/src: the Rust client's messages (turn.rs, context.rs, fs.rs), as its `Client` sends
-- them and reads the answers. An idle connection, timeouts and TLS are not modelled.
pub mod Encode
pub mod Decode
pub mod Follow
use cxdb.Prelude.{ℕ, Option}
use cxdb.Prelude.Result.{ErrorKind}
use cxdb.Wire.{Bytes}
use cxdb.Prelude.{String}

-- The errors of clients/rust/src/error.rs that reading an answer gives.
pub data ClientError : Type 0 where
  io : ErrorKind → ClientError
  invalid_response : String → ClientError

pub record AppendRequest : Type 0 where
  pub context_id : ℕ
  pub parent_turn_id : ℕ
  pub type_id : Bytes
  pub type_version : ℕ
  pub payload : Bytes
  pub idempotency_key : Bytes
  pub encoding : ℕ
  pub compression : ℕ

pub record AppendResult : Type 0 where
  pub context_id : ℕ
  pub turn_id : ℕ
  pub depth : ℕ
  pub payload_hash : Bytes

-- `ContextHead` of context.rs.
pub record HeadView : Type 0 where
  pub context_id : ℕ
  pub head_turn_id : ℕ
  pub head_depth : ℕ

-- `TurnRecord` of turn.rs.
pub record TurnView : Type 0 where
  pub turn_id : ℕ
  pub parent_id : ℕ
  pub depth : ℕ
  pub type_id : Bytes
  pub type_version : ℕ
  pub encoding : ℕ
  pub compression : ℕ
  pub payload_hash : Bytes
  pub payload : Bytes
