-- ===== src/Client/Encode/Interop.antt =====
-- The server's parsers (server/src/protocol/mod.rs) read what the Rust client writes.
use cxdb.Prelude.{
  ℕ, ◌+◌, ◌%◌, ◌^◌, ◌<◌, ◌≡◌, ◌∙◌, ap, refl, Bool, true, false, Option, none, some, [], ◌∷◌, ◌++◌,
  length, length-append, append_assoc, arith, ltb, leb, ◌==◌, nat_eq, if◌then◌else◌,
}
use native.Mathlib.Nat.{mod-eq_of_lt}
use cxdb.Prelude.Result.{Result, ok}
use cxdb.Wire.{
  Bytes, Crates, IsHash, IsU16, IsU32, IsU64, put_u32, put_u64, IsU16, put_u16, value_of,
}
use cxdb.Wire.Reads.{read_uint-put_le, read_exact-append, read_exact_all, read_uint_all}
use cxdb.Wire.Utf8.{is_utf8, from_utf8}
use cxdb.Protocol.{AppendTurnRequest}
use cxdb.Protocol.Requests.{
  parse_put_blob, parse_attach_fs, parse_get_last, parse_hello, read_hello, read_append_turn,
  parse_append_turn, read_nonempty, read_fs_root_hash,
}
use cxdb.Client.{AppendRequest}
use cxdb.Client.Encode.{
  put_blob_payload, attach_fs_payload, get_last_payload, hello_payload, encoding_or_default,
  fs_root_bytes, fs_root_flags, append_turn_with_fs_payload,
}

-- What the Rust types of the fields say, with lengths that a frame can hold.
pub record IsAppendRequest (req : AppendRequest) : Type 0 where
  pub context_id : IsU64 req.context_id
  pub parent_turn_id : IsU64 req.parent_turn_id
  pub type_id : is_utf8 req.type_id ≡ true
  pub type_id_len : IsU32 (length req.type_id)
  pub type_version : IsU32 req.type_version
  pub payload_len : IsU32 (length req.payload)
  pub idempotency_len : IsU32 (length req.idempotency_key)
  pub encoding : IsU32 req.encoding
  pub compression : IsU32 req.compression

abbrev pub IsOptionHash : Option Bytes → Type 0
IsOptionHash none = Unit {0}
IsOptionHash (some hash) = IsHash hash

-- The request that the server reads.
abbrev pub received : ⦃x : Crates⦄ → AppendRequest → Option Bytes → AppendTurnRequest
received ⦃x⦄ req fs = record {
  context_id = req.context_id;
  parent_turn_id = req.parent_turn_id;
  declared_type_id = req.type_id;
  declared_type_version = req.type_version;
  encoding = encoding_or_default req;
  compression = req.compression;
  uncompressed_len = length req.payload;
  content_hash = x.blake3 req.payload;
  payload_bytes = req.payload;
  idempotency_key = req.idempotency_key;
  fs_root_hash = fs;
}

encoding-IsU32 : (req : AppendRequest) → IsU32 req.encoding → IsU32 (encoding_or_default req)
encoding-IsU32 req h = ground arith

read_nonempty-append :
    (key rest : Bytes) → read_nonempty (length key) (key ++ rest) ≡ ok (key, rest)
read_nonempty-append [] rest = refl
read_nonempty-append (b ∷ key) rest =
    ground (arith, read_exact-append (length (b ∷ key)) (b ∷ key) rest refl)

read_fs_root_hash-flags :
    (fs : Option Bytes)
    → IsOptionHash fs
    → read_fs_root_hash (fs_root_flags fs) (fs_root_bytes fs) ≡ ok (fs, [])
read_fs_root_hash-flags none h = refl
read_fs_root_hash-flags (some hash) h = rw (read_exact_all 32 hash h)

value_ok : {A : Type 0} {r : Result (A × Bytes)} {v : A} → r ≡ ok (v, []) → value_of r ≡ ok v
value_ok e = ap value_of e

module _ ⦃x : Crates⦄ where
  parse_hello_long :
      (payload : Bytes)
      → ltb (length payload) 4 ≡ false
      → parse_hello payload ≡ value_of (read_hello (length payload) payload)
  unfolding parse_hello
  parse_hello_long [] h = cc
  parse_hello_long (b ∷ bs) h = rw h

  one-lt : 1 < 256 ^ 2
  one-lt = omega arith

  zero-lt : 0 < 256 ^ 4
  zero-lt = omega arith

  read_append_turn-payload :
      (req : AppendRequest) (fs : Option Bytes)
      → IsAppendRequest req
      → IsOptionHash fs
      → read_append_turn (fs_root_flags fs) (append_turn_with_fs_payload req fs)
        ≡ ok (received req fs, [])
  unfolding read_append_turn append_turn_with_fs_payload from_utf8
  read_append_turn-payload req fs h hf =
      simp
        (
          append_assoc,
          read_uint-put_le,
          read_exact-append,
          mod-eq_of_lt,
          h.context_id,
          h.parent_turn_id,
          h.type_id,
          h.type_id_len,
          h.type_version,
          h.payload_len,
          h.idempotency_len,
          encoding-IsU32 req h.encoding,
          h.compression,
          x.blake3-IsHash,
          read_nonempty-append,
          read_fs_root_hash-flags fs hf,
        )
        refl

  -- Whatever the client sends by `append_turn_with_fs`, the server's parser gives back every field,
  -- with the encoding that the client puts for 0, the hash of the payload, and the snapshot's hash
  -- exactly when one was given.
  pub parse_append_turn-payload :
      (req : AppendRequest) (fs : Option Bytes)
      → IsAppendRequest req
      → IsOptionHash fs
      → parse_append_turn (append_turn_with_fs_payload req fs) (fs_root_flags fs)
        ≡ ok (received req fs)
  unfolding parse_append_turn
  parse_append_turn-payload req fs h hf = ap value_of (read_append_turn-payload req fs h hf)

  -- The server's parser gives back the blob that the client puts, with its hash.
  pub parse_put_blob-payload :
      (blob : Bytes)
      → IsU32 (length blob)
      → parse_put_blob (put_blob_payload blob)
        ≡ ok (record { hash = x.blake3 blob; payload = blob })
  unfolding parse_put_blob put_blob_payload
  parse_put_blob-payload blob h =
      let hash = x.blake3 blob in
      let size = length blob % 2 ^ 32 in
      let long : ltb (length (hash ++ (put_u32 size ++ blob))) 36 ≡ false = ground (
        arith,
        length-append hash (put_u32 size ++ blob),
        length-append (put_u32 size) blob,
        x.length-put_le 4 size,
        x.blake3-IsHash blob,
      ) in
      rw long (
        value_ok (
          simp
            (read_exact-append, read_uint-put_le, read_exact_all, x.blake3-IsHash, mod-eq_of_lt, h)
            refl))

  -- The server's parser gives back the turn and the snapshot's hash that the client attaches.
  pub parse_attach_fs-payload :
      (turn_id : ℕ) (hash : Bytes)
      → IsU64 turn_id
      → IsHash hash
      → parse_attach_fs (attach_fs_payload turn_id hash)
        ≡ ok (record { turn_id = turn_id; fs_root_hash = hash })
  unfolding parse_attach_fs attach_fs_payload
  parse_attach_fs-payload turn_id hash h hh =
      let long : ltb (length (put_u64 turn_id ++ hash)) 40 ≡ false =
        ground (arith, length-append (put_u64 turn_id) hash, x.length-put_le 8 turn_id) in
      rw long (value_ok (simp (read_uint-put_le, read_exact_all 32 hash hh, h) refl))

  -- The limit 0 asks for 10 turns.
  pub parse_get_last-payload :
      (context_id limit : ℕ) (include_payload : Bool)
      → IsU64 context_id
      → IsU32 limit
      → parse_get_last (get_last_payload context_id limit include_payload)
        ≡ ok (record {
          context_id = context_id;
          limit = if limit == 0 then 10 else limit;
          include_payload = if include_payload then 1 else 0;
        })
  unfolding parse_get_last get_last_payload
  parse_get_last-payload context_id limit include_payload h hl =
      let asked : IsU32 (if limit == 0 then 10 else limit) = ground arith in
      let flag : IsU32 (if include_payload then 1 else 0) = ground arith in
      value_ok (simp (read_uint-put_le, read_uint_all, h, asked, flag) refl)

  read_hello-payload :
      (total : ℕ) (client_tag : Bytes)
      → is_utf8 client_tag ≡ true
      → IsU16 (length client_tag)
      → leb (4 + length client_tag + 4) total ≡ true
      → read_hello total (hello_payload client_tag)
        ≡ ok (record { protocol_version = 1; client_tag = client_tag; client_meta_json = none }, [])
  unfolding hello_payload read_hello from_utf8
  read_hello-payload total client_tag h hl fits =
      simp
        (
          mod-eq_of_lt, read_uint-put_le, read_uint_all, read_nonempty-append, one-lt, zero-lt, hl,
          fits, h,
        )
        refl

  -- A tag of fewer than 2^16 bytes reaches the server; the client sends no meta data.
  pub parse_hello-payload :
      (client_tag : Bytes)
      → is_utf8 client_tag ≡ true
      → IsU16 (length client_tag)
      → parse_hello (hello_payload client_tag)
        ≡ ok (record { protocol_version = 1; client_tag = client_tag; client_meta_json = none })
  unfolding hello_payload
  parse_hello-payload client_tag h hl =
      let tag_len = length client_tag % 2 ^ 16 in
      let payload = put_u16 1 ++ (put_u16 tag_len ++ (client_tag ++ put_u32 0)) in
      let kept : tag_len ≡ length client_tag = mod-eq_of_lt hl in
      let total : length payload ≡ 4 + length client_tag + 4 = omega (
        arith,
        length-append (put_u16 1) (put_u16 tag_len ++ (client_tag ++ put_u32 0)),
        length-append (put_u16 tag_len) (client_tag ++ put_u32 0),
        length-append client_tag (put_u32 0),
        x.length-put_le 2 1,
        x.length-put_le 2 tag_len,
        x.length-put_le 4 0,
      ) in
      let long : ltb (length payload) 4 ≡ false = ground arith in
      let fits : leb (4 + length client_tag + 4) (length payload) ≡ true = ground arith in
      parse_hello_long payload long
      ∙ value_ok (read_hello-payload (length payload) client_tag h hl fits)
