-- ===== src/Client/Decode/Acks.antt =====
-- The Rust client (clients/rust/src/turn.rs, context.rs) reads the acknowledgements that the server
-- writes (server/src/protocol/mod.rs).
use cxdb.Prelude.{ℕ, ◌≡◌, refl, ap, false, [], ◌++◌, length, length-append, arith, ltb}
use cxdb.Prelude.Result.{ok}
use cxdb.Wire.{Bytes, Crates, IsHash, IsU32, IsU64, put_u32, put_u64}
use cxdb.Wire.Reads.{read_uint-put_le, read_uint_all, read_exact_all}
use cxdb.Protocol.Responses.{encode_append_ack, encode_ctx_create_resp}
use cxdb.Client.Decode.{done, answer_of, parse_append_result, parse_context_head}

module _ ⦃x : Crates⦄ where
  -- The client reads the ids, the depth and the hash of an acknowledged append.
  pub parse_append_result-encode_append_ack :
      (context_id turn_id depth : ℕ) (hash : Bytes)
      → IsU64 context_id
      → IsU64 turn_id
      → IsU32 depth
      → IsHash hash
      → parse_append_result (encode_append_ack context_id turn_id depth hash)
        ≡ done (record {
          context_id = context_id;
          turn_id = turn_id;
          depth = depth;
          payload_hash = hash;
        })
  unfolding parse_append_result encode_append_ack
  parse_append_result-encode_append_ack context_id turn_id depth hash hc ht hd hh =
      let behind = put_u64 turn_id ++ (put_u32 depth ++ hash) in
      let long : ltb (length (put_u64 context_id ++ behind)) 52 ≡ false = ground (
        arith,
        length-append (put_u64 context_id) behind,
        length-append (put_u64 turn_id) (put_u32 depth ++ hash),
        length-append (put_u32 depth) hash,
        x.length-put_le 8 context_id,
        x.length-put_le 8 turn_id,
        x.length-put_le 4 depth,
      ) in
      rw long (
        ap answer_of
          {y = ok (
            record {
              context_id = context_id;
              turn_id = turn_id;
              depth = depth;
              payload_hash = hash;
            },
            [],
          )}
          (simp (read_uint-put_le, read_exact_all 32 hash hh, hc, ht, hd) refl))

  -- The client reads the ids and the depth of a created or forked context, or of a head.
  pub parse_context_head-encode_ctx_create_resp :
      (context_id head_turn_id head_depth : ℕ)
      → IsU64 context_id
      → IsU64 head_turn_id
      → IsU32 head_depth
      → parse_context_head (encode_ctx_create_resp context_id head_turn_id head_depth)
        ≡ done (record {
          context_id = context_id;
          head_turn_id = head_turn_id;
          head_depth = head_depth;
        })
  unfolding parse_context_head encode_ctx_create_resp
  parse_context_head-encode_ctx_create_resp context_id head_turn_id head_depth hc ht hd =
      let behind = put_u64 head_turn_id ++ put_u32 head_depth in
      let long : ltb (length (put_u64 context_id ++ behind)) 20 ≡ false = ground (
        arith,
        length-append (put_u64 context_id) behind,
        length-append (put_u64 head_turn_id) (put_u32 head_depth),
        x.length-put_le 8 context_id,
        x.length-put_le 8 head_turn_id,
        x.length-put_le 4 head_depth,
      ) in
      rw long (
        ap answer_of
          {y = ok (
            record {
              context_id = context_id;
              head_turn_id = head_turn_id;
              head_depth = head_depth;
            },
            [],
          )}
          (simp (read_uint-put_le, read_uint_all, hc, ht, hd) refl))
