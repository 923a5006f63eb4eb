-- ===== src/BlobStore/Ops/RoundTrip.antt =====
-- What `put_if_absent` stores, `get` gives back (server/src/blob_store/mod.rs).
use cxdb.Prelude.{
  ℕ, ◌+◌, ◌%◌, ◌^◌, ◌<◌, ◌≤◌, ◌≡◌, ◌∙◌, ap, sym, refl, Bool, true, false, Option, none, some, [],
  ◌++◌, length, take-append, drop-append, length-append, append_assoc, append-nil, arith, ltb,
  nat_eq, bytes_eq, if◌then◌else◌, nat_beq, nat_beq_iff,
}
use native.Mathlib.Nat.{mod-eq_of_lt}
use cxdb.Prelude.Dict
use cxdb.Prelude.Result.{Result, ok, StoreError, ensure, ◌>>◌}
use cxdb.Wire.{Bytes, Crates, IsHash, IsU32, IsU64, put_u32}
use cxdb.Wire.Reads.{read_uint-put_le, read_exact-append, read_exact_all, read_uint_all}
use cxdb.BlobStore.{
  blob_magic, BlobCodec, plain, zstd, codec_code, codec_of, BlobIndexEntry, IsIndexEntry, BlobStore,
  BlobHeader, encode_header, encode_index_entry, read_index_entry, read_header,
}
use cxdb.BlobStore.Ops.Puts.{put_if_absent_new}
use cxdb.BlobStore.Ops.{
  read_at_exact, compress, smaller, new_entry, pack_record, decompress, check_body, check_header,
  get_body, get_entry, get_blob, put_if_absent,
}

read_at_exact-append :
    (before xs after : Bytes) (n : ℕ)
    → length xs ≡ n
    → read_at_exact (before ++ (xs ++ after)) (length before) n ≡ ok xs
unfolding read_at_exact
read_at_exact-append before xs after n h =
    rw (drop-append before (xs ++ after))
      (rw (← h) (rw (take-append xs after) (ground (arith, length-append xs after))))

-- A record of a head and a body, read as `get` does.
read_at_head :
    (before head body after : Bytes) (n : ℕ)
    → length head ≡ n
    → read_at_exact (before ++ ((head ++ body) ++ after)) (length before) n ≡ ok head
read_at_head before head body after n h =
    rw (append_assoc head body after) (read_at_exact-append before head (body ++ after) n h)

read_at_body :
    (before head body after : Bytes) (n m : ℕ)
    → length head ≡ n
    → length body ≡ m
    → read_at_exact (before ++ ((head ++ body) ++ after)) (length before + n) m ≡ ok body
read_at_body before head body after n m hn hm = rw (append_assoc head body after) (
    rw (← append_assoc before head (body ++ after)) (
      rw (← hn)
        (rw (← length-append before head) (read_at_exact-append (before ++ head) body after m hm))))

-- A test that succeeds, and what is left behind it.
pass {ℓ} :
    {B : Type ℓ} (t : Bool) (e : StoreError) (k : Result B) {r : B}
    → t ≡ true
    → k ≡ ok r
    → ensure t e >> k ≡ ok r
pass t e k h hk = rw h hk

nat_beq_self : (n : ℕ) → nat_beq n n ≡ true
nat_beq_self n = (nat_beq_iff n n).1 refl

if_true : (t u : Bool) → t ≡ true → u ≡ true → (if t then u else false) ≡ true
if_true t u h k = rw h k

module _ ⦃x : Crates⦄ where
  decompress_if :
      (fewer : Bool) (raw packed : Bytes)
      → x.zstd_decode_all packed ≡ some raw
      → let kept : Bytes × BlobCodec = if fewer then (packed, zstd) else (raw, plain) in
        decompress kept.1 kept.0 ≡ ok raw
  decompress_if true raw packed e = rw e
  decompress_if false raw packed e = refl

  decompress-smaller :
      (raw : Bytes) (o : Option Bytes)
      → x.zstd_encode_all raw ≡ o
      → decompress ((smaller raw o).1) ((smaller raw o).0) ≡ ok raw
  decompress-smaller raw none e = refl
  decompress-smaller raw (some packed) e =
      decompress_if _ raw packed (x.zstd_decode_all-encode_all raw packed e)

  length-smaller : (raw : Bytes) (o : Option Bytes) → length ((smaller raw o).0) ≤ length raw
  length-smaller raw none = omega arith
  length-smaller raw (some packed) = ground arith

  codec_of-codec_code : (c : BlobCodec) → codec_of (codec_code c) ≡ ok c
  codec_of-codec_code plain = refl
  codec_of-codec_code zstd = refl

  codec_code-lt : (c : BlobCodec) → codec_code c < 2 ^ 16
  codec_code-lt plain = omega arith
  codec_code-lt zstd = omega arith

  pub length-encode_header :
      (entry : BlobIndexEntry) (hash : Bytes) → IsHash hash → length (encode_header entry hash) ≡ 48
  unfolding encode_header
  length-encode_header entry hash h = simp (length-append, x.length-put_le, h)

  abbrev header_of : BlobIndexEntry → Bytes → BlobHeader
  header_of entry hash = record {
    codec_raw = codec_code entry.codec;
    raw_len = entry.raw_len;
    stored_len = entry.stored_len;
    stored_hash = hash;
  }

  magic-lt : blob_magic < 256 ^ 4
  magic-lt = omega arith

  version-lt : 1 < 256 ^ 2
  version-lt = omega arith

  zero-lt : 0 < 256 ^ 2
  zero-lt = omega arith

  read_header-encode_header :
      (entry : BlobIndexEntry) (hash : Bytes)
      → IsIndexEntry entry
      → IsHash hash
      → read_header (encode_header entry hash) ≡ ok (header_of entry hash, [])
  unfolding read_header encode_header
  read_header-encode_header entry hash h hh =
      simp
        (
          read_uint-put_le,
          read_exact_all 32 hash hh,
          codec_code-lt,
          h.raw_len,
          h.stored_len,
          magic-lt,
          version-lt,
        )
        refl

  pub read_index_entry-encode_index_entry :
      (hash : Bytes) (entry : BlobIndexEntry) (rest : Bytes)
      → IsHash hash
      → IsIndexEntry entry
      → read_index_entry (encode_index_entry hash entry ++ rest) ≡ ok ((hash, entry), rest)
  unfolding read_index_entry encode_index_entry
  read_index_entry-encode_index_entry hash entry rest hh h =
      simp
        (
          append_assoc, read_uint-put_le, read_exact-append, codec_of-codec_code, codec_code-lt,
          h.offset, h.raw_len, h.stored_len, hh, zero-lt,
        )
        refl

  abbrev entry_of : ℕ → BlobCodec → Bytes → Bytes → BlobIndexEntry
  entry_of offset codec stored raw = record {
    offset = offset;
    raw_len = length raw % 2 ^ 32;
    stored_len = length stored;
    codec = codec;
  }

  check_body_lem :
      (hb : Bytes) (offset : ℕ) (codec : BlobCodec) (hash stored raw : Bytes)
      → decompress codec stored ≡ ok raw
      → check_body hb
          (header_of (entry_of offset codec stored raw) hash)
          (stored ++ put_u32 (x.crc32 (hb ++ stored)))
        ≡ ok raw
  unfolding check_body
  check_body_lem hb offset codec hash stored raw hd =
      simp (drop-append, take-append, read_uint_all, x.crc32-IsU32, codec_of-codec_code, hd)
        (pass _ _ _ (nat_beq_self (x.crc32 (hb ++ stored)))
          (pass _ _ _ (nat_beq_self (length raw % 2 ^ 32)) refl))

  check_header_lem :
      (entry : BlobIndexEntry) (hash : Bytes)
      → IsU64 (entry.offset + 48)
      → IsU32 entry.stored_len
      → check_header hash entry (header_of entry hash) ≡ ok tt
  unfolding check_header
  check_header_lem entry hash ho hs = pass _ _ _ (((bytes_eq).eq_iff hash hash).1 refl) (
      pass _ _ _ (if_true _ _ (nat_beq_self entry.stored_len) (nat_beq_self entry.raw_len))
        (pass (ltb (entry.offset + 48) (2 ^ 64)) _ _ (ground arith) (ground arith)))

  get_entry_lem :
      (before after : Bytes) (codec : BlobCodec) (hash stored raw : Bytes)
      → decompress codec stored ≡ ok raw
      → IsHash hash
      → IsU32 (length stored)
      → IsU64 (length before + 48)
      → let entry = entry_of (length before) codec stored raw in
        get_entry hash entry (before ++ (pack_record entry hash stored ++ after)) ≡ ok raw
  unfolding get_entry
  get_entry_lem before after codec hash stored raw hd hh hs ho =
      let entry = entry_of (length before) codec stored raw in
      let hb = encode_header entry hash in
      let body = stored ++ put_u32 (x.crc32 (hb ++ stored)) in
      let head_read = read_at_head before hb body after 48 (length-encode_header entry hash hh) in
      let body_read =
        read_at_body before hb body after 48 (length stored + 4)
          (length-encode_header entry hash hh)
          (rw (length-append stored (put_u32 (x.crc32 (hb ++ stored))), x.length-put_le)) in
      let typed : IsIndexEntry entry = record {
        offset = omega arith;
        raw_len = omega arith;
        stored_len = hs;
      } in
      let parsed = read_header-encode_header entry hash typed hh in
      let checked = check_body_lem hb (length before) codec hash stored raw hd in
      let passed = check_header_lem entry hash ho hs in
      rw (head_read, get_entry) (rw (parsed, get_body) (rw passed (rw body_read checked)))

  pub compress_entry :
      (pack raw : Bytes)
      → IsU32 (length raw)
      → new_entry pack raw ≡ entry_of (length pack) ((compress raw).1) ((compress raw).0) raw
  compress_entry pack raw h =
      let shorter = length-smaller raw (x.zstd_encode_all raw) in
      let same : length ((compress raw).0) % 2 ^ 32 ≡ length ((compress raw).0) =
        mod-eq_of_lt (omega arith) in
      rw same

  pub get_blob_entry :
      (hash : Bytes) (s : BlobStore) (entry : BlobIndexEntry)
      → Dict.get hash s.index ≡ some entry
      → get_blob hash s ≡ get_entry hash entry s.pack
  unfolding get_blob
  get_blob_entry hash s entry there = rw there

  -- A blob whose hash the store does not have, put into it, is what `get` then gives, compressed or
  -- not, for a blob of fewer than 2^32 bytes and a pack whose next record begins below 2^64 - 48.
  pub get_blob-put_if_absent :
      (hash raw : Bytes) (s : BlobStore)
      → Dict.get hash s.index ≡ none
      → IsHash hash
      → IsU32 (length raw)
      → IsU64 (length s.pack + 48)
      → get_blob hash ((put_if_absent hash raw s).1) ≡ ok raw
  get_blob-put_if_absent hash raw s missing hh hr ho =
      let stored = (compress raw).0 in
      let shorter = length-smaller raw (x.zstd_encode_all raw) in
      let got =
        get_entry_lem s.pack [] ((compress raw).1) hash stored raw
          (decompress-smaller raw (x.zstd_encode_all raw) refl) hh (omega arith) ho in
      rw (put_if_absent_new hash raw s missing) (
        get_blob_entry hash _ (new_entry s.pack raw) (Dict.get-insert_self hash _ s.index)
        ∙ rw (compress_entry s.pack raw hr) (
            ap
              (λ r.
                get_entry hash (entry_of (length s.pack) ((compress raw).1) stored raw)
                  (s.pack ++ r))
              (sym (
                append-nil (
                  pack_record (entry_of (length s.pack) ((compress raw).1) stored raw) hash
                    stored)))
            ∙ got))
