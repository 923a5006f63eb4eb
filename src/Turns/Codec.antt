-- ===== src/Turns/Codec.antt =====
-- The records of turns.log, turns.meta and heads.tbl in server/src/turn_store/mod.rs: what is
-- written for one, and how one is read back.
pub mod RoundTrip
use cxdb.Prelude.{ℕ, ◌%◌, ◌^◌, ◌++◌, length, ◌==◌, nat_eq}
use cxdb.Prelude.Result.{corrupt, ensure, ok_or}
use cxdb.Wire.{
  Bytes, Crates, put_u32, put_u64, Read, ◌>>=◌, ◌>>◌, pure, lift, read_exact, read_u32, read_u64,
}
use cxdb.Wire.Utf8.{from_utf8}
use cxdb.Turns.{TurnRecord, TurnMeta, ContextHead}

module _ ⦃x : Crates⦄ where
  -- The 76 bytes before the checksum.
  unfoldable pub turn_record_fields : TurnRecord → Bytes
  turn_record_fields r =
      put_u64 r.turn_id
      ++ (put_u64 r.parent_turn_id
          ++ (put_u32 r.depth
              ++ (put_u32 r.codec
                  ++ (put_u64 r.type_tag
                      ++ (r.payload_hash ++ (put_u32 r.flags ++ put_u64 r.created_at_unix_ms))))))

  pub encode_turn_record : TurnRecord → Bytes
  encode_turn_record r = let buf = turn_record_fields r in buf ++ put_u32 (x.crc32 buf)

  pub read_turn_record : Read TurnRecord
  read_turn_record = do
    turn_id ← read_u64
    parent_turn_id ← read_u64
    depth ← read_u32
    codec ← read_u32
    type_tag ← read_u64
    payload_hash ← read_exact 32
    flags ← read_u32
    created_at_unix_ms ← read_u64
    crc ← read_u32
    let r : TurnRecord = record {
      turn_id = turn_id;
      parent_turn_id = parent_turn_id;
      depth = depth;
      codec = codec;
      type_tag = type_tag;
      payload_hash = payload_hash;
      flags = flags;
      created_at_unix_ms = created_at_unix_ms;
    }
    lift (ensure (crc == x.crc32 (turn_record_fields r)) (corrupt "turn crc mismatch"))
    pure r

  -- One record of turns.meta behind its turn id: `declared_type_id.len() as u32` keeps 32 bits.
  pub encode_meta_fields : TurnMeta → Bytes
  encode_meta_fields m =
      put_u32 (length m.declared_type_id % 2 ^ 32)
      ++ (m.declared_type_id
          ++ (put_u32 m.declared_type_version
              ++ (put_u32 m.encoding ++ (put_u32 m.compression ++ put_u32 m.uncompressed_len))))

  pub encode_meta : ℕ → TurnMeta → Bytes
  encode_meta turn_id m = put_u64 turn_id ++ encode_meta_fields m

  pub read_meta_fields : Read TurnMeta
  read_meta_fields = do
    len ← read_u32
    buf ← read_exact len
    declared_type_id ← lift (ok_or (from_utf8 buf) (corrupt "invalid type id utf8"))
    declared_type_version ← read_u32
    encoding ← read_u32
    compression ← read_u32
    uncompressed_len ← read_u32
    pure (record {
      declared_type_id = declared_type_id;
      declared_type_version = declared_type_version;
      encoding = encoding;
      compression = compression;
      uncompressed_len = uncompressed_len;
    })

  unfoldable pub head_fields : ContextHead → Bytes
  head_fields h =
      put_u64 h.context_id
      ++ (put_u64 h.head_turn_id
          ++ (put_u32 h.head_depth ++ (put_u32 h.flags ++ put_u64 h.created_at_unix_ms)))

  -- What `write_head` appends to heads.tbl.
  pub encode_head : ContextHead → Bytes
  encode_head h = let buf = head_fields h in buf ++ put_u32 (x.crc32 buf)

  -- The part of a record of heads.tbl behind its context id.
  pub read_head_fields : ℕ → Read ContextHead
  read_head_fields context_id = do
    head_turn_id ← read_u64
    head_depth ← read_u32
    flags ← read_u32
    created_at_unix_ms ← read_u64
    crc ← read_u32
    let h : ContextHead = record {
      context_id = context_id;
      head_turn_id = head_turn_id;
      head_depth = head_depth;
      created_at_unix_ms = created_at_unix_ms;
      flags = flags;
    }
    lift (ensure (crc == x.crc32 (head_fields h)) (corrupt "head crc mismatch"))
    pure h
