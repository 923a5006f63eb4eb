-- ===== src/BlobStore.antt =====
-- server/src/blob_store/mod.rs: the records of blobs.pack and blobs.idx, and their readers.
pub mod Ops
use cxdb.Prelude.{ℕ, zero, suc, Option, none, some, ◌++◌, ◌==◌, nat_eq}
use cxdb.Prelude.Dict.{Dict}
use cxdb.Prelude.Result.{Result, ok, err, corrupt, ensure}
use cxdb.Wire.{
  Bytes, Crates, IsHash, IsU32, IsU64, put_u16, put_u32, put_u64, Read, ◌>>=◌, ◌>>◌, pure, lift,
  read_exact, read_u16, read_u32, read_u64,
}

abbrev pub blob_magic : ℕ
blob_magic = 1112755266

abbrev pub blob_version : ℕ
blob_version = 1

-- `BlobCodec::None` and `BlobCodec::Zstd`
pub data BlobCodec : Type 0 where
  plain zstd : BlobCodec

-- `codec as u16`
abbrev pub codec_code : BlobCodec → ℕ
codec_code plain = 0
codec_code zstd = 1

-- `match codec_raw { 0 => .., 1 => .., _ => return Err(..) }`
abbrev pub codec_of : ℕ → Result BlobCodec
codec_of zero = ok plain
codec_of (suc zero) = ok zstd
codec_of (suc (suc n)) = err (corrupt "unknown blob codec")

pub record BlobIndexEntry : Type 0 where
  pub offset : ℕ
  pub raw_len : ℕ
  pub stored_len : ℕ
  pub codec : BlobCodec

-- The contents of blobs.pack and blobs.idx, and the table of the index.
pub record BlobStore : Type 0 where
  pub pack : Bytes
  pub idx : Bytes
  pub index : Dict Bytes BlobIndexEntry

-- What `get` reads from the header of a record in blobs.pack.
pub record BlobHeader : Type 0 where
  pub codec_raw : ℕ
  pub raw_len : ℕ
  pub stored_len : ℕ
  pub stored_hash : Bytes

pub record IsIndexEntry (entry : BlobIndexEntry) : Type 0 where
  pub offset : IsU64 entry.offset
  pub raw_len : IsU32 entry.raw_len
  pub stored_len : IsU32 entry.stored_len

module _ ⦃x : Crates⦄ where
  unfoldable pub encode_header : BlobIndexEntry → Bytes → Bytes
  encode_header entry hash =
      put_u32 blob_magic
      ++ (put_u16 blob_version
          ++ (put_u16 (codec_code entry.codec)
              ++ (put_u32 entry.raw_len ++ (put_u32 entry.stored_len ++ hash))))

  unfoldable pub encode_index_entry : Bytes → BlobIndexEntry → Bytes
  encode_index_entry hash entry =
      hash
      ++ (put_u64 entry.offset
          ++ (put_u32 entry.raw_len
              ++ (put_u32 entry.stored_len ++ (put_u16 (codec_code entry.codec) ++ put_u16 0))))

  unfoldable pub read_index_entry : Read (Bytes × BlobIndexEntry)
  read_index_entry = do
    hash ← read_exact 32
    offset ← read_u64
    raw_len ← read_u32
    stored_len ← read_u32
    codec_raw ← read_u16
    reserved ← read_u16
    codec ← lift (codec_of codec_raw)
    pure (
      hash,
      record { offset = offset; raw_len = raw_len; stored_len = stored_len; codec = codec },
    )

  unfoldable pub read_header : Read BlobHeader
  read_header = do
    magic ← read_u32
    lift (ensure (magic == blob_magic) (corrupt "invalid blob magic"))
    version ← read_u16
    lift (ensure (version == blob_version) (corrupt "unsupported blob version"))
    codec_raw ← read_u16
    raw_len ← read_u32
    stored_len ← read_u32
    stored_hash ← read_exact 32
    pure (record {
      codec_raw = codec_raw;
      raw_len = raw_len;
      stored_len = stored_len;
      stored_hash = stored_hash;
    })
