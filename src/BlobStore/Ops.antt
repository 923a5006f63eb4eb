-- ===== src/BlobStore/Ops.antt =====
-- The operations of `BlobStore` (server/src/blob_store/mod.rs). Reading and writing the files
-- does not fail; the torn end of blobs.idx that a crash leaves is an input of `open`.
pub mod Puts
pub mod RoundTrip
pub mod Keeps
pub mod Reload
use cxdb.Prelude.{
  ℕ, zero, suc, ◌+◌, ◌-◌, ◌%◌, ◌^◌, Bool, true, false, Option, none, some, List, [], ◌∷◌, ◌++◌,
  length, take, drop, ltb, leb, ◌==◌, nat_eq, bytes_eq, if◌then◌else◌,
}
use cxdb.Prelude.Dict
use cxdb.Prelude.Dict.{Dict}
use cxdb.Prelude.Result.{
  Result, ok, err, stuck, io, corrupt, not_found, invalid_input, ensure, ok_or, ◌>>=◌, ◌>>◌,
}
use cxdb.Wire.{Bytes, Crates, put_u32, from_cursor, read_u32}
use cxdb.BlobStore.{
  BlobCodec, plain, zstd, codec_of, BlobIndexEntry, BlobStore, BlobHeader, encode_header,
  encode_index_entry, read_index_entry, read_header,
}

-- `read_at_exact`
unfoldable pub read_at_exact : Bytes → ℕ → ℕ → Result Bytes
read_at_exact pack offset n =
    let rest = drop offset pack in
    if leb n (length rest) then ok (take n rest) else err (corrupt "unexpected EOF reading blob")

abbrev pub contains : Bytes → BlobStore → Bool
contains hash s = elim (Dict.get hash s.index) [ none ↦ false | some entry ↦ true ]

abbrev pub raw_len : Bytes → BlobStore → Option ℕ
raw_len hash s = elim (Dict.get hash s.index) [ none ↦ none | some entry ↦ some entry.raw_len ]

abbrev pub stored_len : Bytes → BlobStore → Option ℕ
stored_len hash s = elim (Dict.get hash s.index) [
  | none ↦ none
  | some entry ↦ some entry.stored_len
]

abbrev pub smaller : Bytes → Option Bytes → Bytes × BlobCodec
smaller raw none = (raw, plain)
smaller raw (some packed) =
    if ltb (length packed) (length raw) then (packed, zstd) else (raw, plain)

module _ ⦃x : Crates⦄ where
  -- The loop of `load_index` on what is left of `file`: the table, and the length that the file
  -- keeps. A round takes 52 bytes, so `length file + 1` rounds are enough.
  unfoldable pub load_index_loop :
      ℕ → (file rest : Bytes) → Dict Bytes BlobIndexEntry → Result (Dict Bytes BlobIndexEntry × ℕ)
  load_index_loop zero file rest index = stuck
  load_index_loop (suc fuel) file rest index =
      let kept = length file - length rest in
      if ltb (length rest) 52 then ok (index, kept) else elim (read_index_entry rest) [
        | ok ((hash, entry), rest') ↦ load_index_loop fuel file rest' (Dict.insert hash entry index)
        | err (corrupt m) ↦ err (corrupt m)
        | err (io k) ↦ ok (index, kept)
        | err (not_found m) ↦ ok (index, kept)
        | err (invalid_input m) ↦ ok (index, kept)
        | stuck ↦ stuck
      ]

  -- `open`, on the contents of the two files
  unfoldable pub open_blobs : Bytes → Bytes → Result BlobStore
  unfolding load_index_loop
  open_blobs pack idx = do
    (index, valid_len) ← load_index_loop (suc (length idx)) idx idx []
    ok (record { pack = pack; idx = take valid_len idx; index = index })

  -- The bytes that are stored: zstd's where they are fewer.
  abbrev pub compress : Bytes → Bytes × BlobCodec
  compress raw = smaller raw (x.zstd_encode_all raw)

  abbrev pub new_entry : Bytes → Bytes → BlobIndexEntry
  new_entry pack raw = record {
    offset = length pack;
    raw_len = length raw % 2 ^ 32;
    stored_len = length ((compress raw).0) % 2 ^ 32;
    codec = (compress raw).1;
  }

  -- The record that `put_if_absent` appends to blobs.pack.
  abbrev pub pack_record : BlobIndexEntry → Bytes → Bytes → Bytes
  pack_record entry hash stored =
      encode_header entry hash ++ (stored ++ put_u32 (x.crc32 (encode_header entry hash ++ stored)))

  -- `put_if_absent` where the table has no entry
  abbrev pub store_new : Bytes → Bytes → BlobStore → BlobIndexEntry × BlobStore
  store_new hash raw s =
      let entry = new_entry s.pack raw in
      (
        entry,
        record {
          pack = s.pack ++ pack_record entry hash ((compress raw).0);
          idx = s.idx ++ encode_index_entry hash entry;
          index = Dict.insert hash entry s.index;
        },
      )

  unfoldable pub put_if_absent : Bytes → Bytes → BlobStore → BlobIndexEntry × BlobStore
  put_if_absent hash raw s = elim (Dict.get hash s.index) [
    | some entry ↦ (entry, s)
    | none ↦ store_new hash raw s
  ]

  abbrev pub decompress : BlobCodec → Bytes → Result Bytes
  decompress plain stored = ok stored
  decompress zstd stored = ok_or (x.zstd_decode_all stored) (corrupt "zstd decode failed: {e}")

  -- The rest of `get`, from the body that stands behind the header.
  unfoldable pub check_body : Bytes → BlobHeader → Bytes → Result Bytes
  check_body header_bytes header body = do
    let stored = take header.stored_len body
    crc ← from_cursor read_u32 (drop header.stored_len body)
    ensure (crc == x.crc32 (header_bytes ++ stored)) (corrupt "blob crc mismatch")
    codec ← codec_of header.codec_raw
    raw ← decompress codec stored
    ensure (length raw % 2 ^ 32 == header.raw_len) (corrupt "blob length mismatch")
    ok raw

  -- `get` once the table has given the entry
  -- What `get` checks between the header and the body.
  unfoldable pub check_header : Bytes → BlobIndexEntry → BlobHeader → Result (Unit {0})
  check_header hash entry header = do
    ensure (header.stored_hash == hash) (corrupt "blob hash mismatch")
    ensure
        (if header.stored_len == entry.stored_len then header.raw_len == entry.raw_len else false)
        (corrupt "blob index/header length mismatch")
    ensure (ltb (entry.offset + 48) (2 ^ 64)) (corrupt "blob offset overflow")
    ensure (ltb (header.stored_len + 4) (2 ^ 64)) (corrupt "blob length overflow")

  -- `get` once it has the bytes of the header
  unfoldable pub get_body : Bytes → BlobIndexEntry → Bytes → Bytes → Result Bytes
  unfolding check_body check_header
  get_body hash entry pack header_bytes = do
    header ← from_cursor read_header header_bytes
    check_header hash entry header
    body ← read_at_exact pack (entry.offset + 48) (header.stored_len + 4)
    check_body header_bytes header body

  -- `get` once the table has given the entry
  unfoldable pub get_entry : Bytes → BlobIndexEntry → Bytes → Result Bytes
  unfolding get_body
  get_entry hash entry pack = do
    header_bytes ← read_at_exact pack entry.offset 48
    get_body hash entry pack header_bytes

  unfoldable pub get_blob : Bytes → BlobStore → Result Bytes
  unfolding get_entry
  get_blob hash s = do
    entry ← ok_or (Dict.get hash s.index) (not_found "blob")
    get_entry hash entry s.pack
