-- ===== src/Client/Decode.antt =====
-- How the Rust client reads the answers (clients/rust/src/turn.rs, context.rs, fs.rs).
pub mod Acks
use cxdb.Prelude.{ℕ, zero, suc, List, [], ◌∷◌, length, ltb, if◌then◌else◌}
use cxdb.Prelude.Result.{Result, StoreError, ok, err, corrupt, ok_or}
use cxdb.Wire.{Bytes, Crates, Read, ◌>>=◌, pure, lift, read_exact, read_u32, read_u64}
use cxdb.Wire.Utf8.{from_utf8}
use cxdb.Client.{ClientError, invalid_response, AppendResult, HeadView, TurnView}

pub data ClientResult {ℓ} (A : Type ℓ) : Type ℓ where
  done : A → ClientResult A
  failed : ClientError → ClientResult A
  -- no Rust value: a read that does not end
  endless : ClientResult A

-- The readers are the server's; an error of theirs that is no `io::Error` stands for the
-- `invalid_response` with the same message.
abbrev client_error : StoreError → ClientError
client_error (StoreError.io k) = ClientError.io k
client_error (StoreError.corrupt m) = invalid_response m
client_error (StoreError.not_found m) = invalid_response m
client_error (StoreError.invalid_input m) = invalid_response m

abbrev pub answer_of {ℓ} : {A : Type ℓ} → Result (A × Bytes) → ClientResult A
answer_of (ok (a, rest)) = done a
answer_of (err e) = failed (client_error e)
answer_of Result.stuck = endless

abbrev pub from_answer {ℓ} : {A : Type ℓ} → Read A → Bytes → ClientResult A
from_answer rd payload = answer_of (rd payload)

module _ ⦃x : Crates⦄ where
  unfoldable pub parse_append_result : Bytes → ClientResult AppendResult
  parse_append_result payload =
      if ltb (length payload) 52
      then failed (invalid_response "append response too short ({} bytes)")
      else from_answer
          (do
            context_id ← read_u64
            turn_id ← read_u64
            depth ← read_u32
            hash ← read_exact 32
            pure (record {
              context_id = context_id;
              turn_id = turn_id;
              depth = depth;
              payload_hash = hash;
            }))
          payload

  unfoldable pub parse_context_head : Bytes → ClientResult HeadView
  parse_context_head payload =
      if ltb (length payload) 20
      then failed (invalid_response "context head too short ({} bytes)")
      else from_answer
          (do
            context_id ← read_u64
            head_turn_id ← read_u64
            head_depth ← read_u32
            pure (record {
              context_id = context_id;
              head_turn_id = head_turn_id;
              head_depth = head_depth;
            }))
          payload

  unfoldable pub read_turn_view : Read TurnView
  read_turn_view = do
    turn_id ← read_u64
    parent_id ← read_u64
    depth ← read_u32
    type_len ← read_u32
    type_bytes ← read_exact type_len
    type_id ← lift (ok_or (from_utf8 type_bytes) (corrupt "type_id not utf8"))
    type_version ← read_u32
    encoding ← read_u32
    compression ← read_u32
    uncompressed_len ← read_u32
    payload_hash ← read_exact 32
    payload_len ← read_u32
    payload_bytes ← read_exact payload_len
    pure (record {
      turn_id = turn_id;
      parent_id = parent_id;
      depth = depth;
      type_id = type_id;
      type_version = type_version;
      encoding = encoding;
      compression = compression;
      payload_hash = payload_hash;
      payload = payload_bytes;
    })

  -- `for _ in 0..count`
  unfoldable pub read_turn_views : ℕ → Read (List TurnView)
  unfolding read_turn_view
  read_turn_views zero = pure []
  read_turn_views (suc count) = do
    view ← read_turn_view
    views ← read_turn_views count
    pure (view ∷ views)

  unfoldable pub parse_turn_records : Bytes → ClientResult (List TurnView)
  unfolding read_turn_views
  parse_turn_records payload =
      if ltb (length payload) 4
      then failed (invalid_response "turn records too short")
      else from_answer (do count ← read_u32; read_turn_views count) payload
