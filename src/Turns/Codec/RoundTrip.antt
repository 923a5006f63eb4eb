-- ===== src/Turns/Codec/RoundTrip.antt =====
-- Reading gives back what was written, and a cut record ends by an unexpected end of file.
use cxdb.Prelude.{refl, ℕ, ◌≡◌, ◌++◌, length, length-append, append_assoc, nat_eq}
use native.Mathlib.Nat.{mod-eq_of_lt}
use cxdb.Prelude.Result.{ok}
use cxdb.Wire.{Bytes, Crates, IsHash}
use cxdb.Wire.Reads.{
  Sized-uint, Sized-exact, checked_self, read_exact-append, read_uint-put_le, Sized, Sized-checked,
}
use cxdb.Turns.{TurnRecord, IsTurnRecord, TurnMeta, IsTurnMeta, ContextHead, IsContextHead}
use cxdb.Turns.Codec.{
  turn_record_fields, encode_turn_record, read_turn_record, encode_meta, encode_meta_fields,
  read_meta_fields, head_fields, encode_head, read_head_fields,
}
use cxdb.Wire.{put_u64, put_u32}
use cxdb.Wire.Utf8.{from_utf8}

module _ ⦃x : Crates⦄ where
  -- A turn record is read back from its encoding, with what follows it left over.
  pub read_turn_record-encode_turn_record :
      (r : TurnRecord) (rest : Bytes)
      → IsTurnRecord r
      → read_turn_record (encode_turn_record r ++ rest) ≡ ok (r, rest)
  unfolding read_turn_record encode_turn_record
  read_turn_record-encode_turn_record r rest h =
      unfold turn_record_fields in
      simp
        (
          append_assoc, read_uint-put_le, read_exact-append, h.turn_id, h.parent_turn_id, h.depth,
          h.codec, h.type_tag, h.flags, h.created_at_unix_ms, h.payload_hash, x.crc32-IsU32,
        )
        (checked_self (x.crc32 (turn_record_fields r)) _ r rest)

  pub read_meta-encode_meta :
      (m : TurnMeta) (rest : Bytes)
      → IsTurnMeta m
      → read_meta_fields (encode_meta_fields m ++ rest) ≡ ok (m, rest)
  unfolding read_meta_fields encode_meta_fields from_utf8
  read_meta-encode_meta m rest h =
      simp
        (
          append_assoc, read_uint-put_le, read_exact-append, mod-eq_of_lt, h.declared_type_id,
          h.type_id_len, h.declared_type_version, h.encoding, h.compression, h.uncompressed_len,
        )
        refl

  -- encode_head without its first 8 bytes
  unfoldable pub head_tail : ContextHead → Bytes
  head_tail c =
      put_u64 c.head_turn_id
      ++ (put_u32 c.head_depth
          ++ (put_u32 c.flags
              ++ (put_u64 c.created_at_unix_ms ++ put_u32 (x.crc32 (head_fields c)))))

  pub encode_head_split : (c : ContextHead) → encode_head c ≡ put_u64 c.context_id ++ head_tail c
  unfolding encode_head head_tail
  encode_head_split c = unfold head_fields in simp append_assoc

  pub read_head_fields-head_tail :
      (c : ContextHead) (rest : Bytes)
      → IsContextHead c
      → read_head_fields c.context_id (head_tail c ++ rest) ≡ ok (c, rest)
  unfolding read_head_fields head_tail
  read_head_fields-head_tail c rest h =
      simp
        (
          append_assoc, read_uint-put_le, h.head_turn_id, h.head_depth, h.flags,
          h.created_at_unix_ms, x.crc32-IsU32,
        )
        (checked_self (x.crc32 (head_fields c)) _ c rest)

  pub Sized-read_turn_record : Sized 80 read_turn_record
  unfolding read_turn_record
  Sized-read_turn_record = Sized-uint 8 72 λ _. Sized-uint 8 64 λ _. Sized-uint 4 60 λ _.
      Sized-uint 4 56 λ _. Sized-uint 8 48 λ _.
        Sized-exact 32 16
          λ _. Sized-uint 4 12 λ _. Sized-uint 8 4 λ _. Sized-uint 4 0 λ _. Sized-checked _ _ _

  pub Sized-read_head_fields : (context_id : ℕ) → Sized 28 (read_head_fields context_id)
  unfolding read_head_fields
  Sized-read_head_fields context_id = Sized-uint 8 20 λ _.
      Sized-uint 4 16
        λ _. Sized-uint 4 12 λ _. Sized-uint 8 4 λ _. Sized-uint 4 0 λ _. Sized-checked _ _ _

  pub length-encode_turn_record :
      (r : TurnRecord) → IsHash r.payload_hash → length (encode_turn_record r) ≡ 80
  unfolding encode_turn_record turn_record_fields
  length-encode_turn_record r h = simp (length-append, x.length-put_le, h)

  pub length-head_tail : (c : ContextHead) → length (head_tail c) ≡ 28
  unfolding head_tail
  length-head_tail c = simp (length-append, x.length-put_le)

  pub encode_meta_lem :
      (id : ℕ) (m : TurnMeta) → encode_meta id m ≡ put_u64 id ++ encode_meta_fields m
  unfolding encode_meta
  encode_meta_lem id m = refl
