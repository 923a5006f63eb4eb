-- ===== src/Wire.antt =====
-- What the Rust code takes from its crates (byteorder, crc32fast, zstd, blake3), as an interface,
-- and the readers and writers that the storage and protocol code build from it. A byte sequence
-- (a `Vec<u8>`, a slice, the contents of a file) is a list of numbers.
pub mod Reads
pub mod Utf8
use cxdb.Prelude.{ℕ, zero, suc, ◌^◌, ◌<◌, ◌≡◌, Option, none, some, List, [], ◌∷◌, ◌++◌, length}
use cxdb.Prelude.Result.{Result, ok, err, stuck, io, unexpected_eof}

abbrev pub Bytes : Type 0
Bytes = List ℕ

abbrev pub IsU16 : ℕ → Type 0
IsU16 v = v < 2 ^ 16

abbrev pub IsU32 : ℕ → Type 0
IsU32 v = v < 2 ^ 32

abbrev pub IsU64 : ℕ → Type 0
IsU64 v = v < 2 ^ 64

-- A `[u8; 32]`.
abbrev pub IsHash : Bytes → Type 0
IsHash h = length h ≡ 32

-- `put_le w v` is what byteorder's little-endian writers append for a value of `w` bytes, and
-- `get_le` the value that its readers give for those bytes.
pub record Crates : Type 0 where
  pub put_le : ℕ → ℕ → Bytes
  pub get_le : Bytes → ℕ
  pub length-put_le : (w v : ℕ) → length (put_le w v) ≡ w
  pub get_le-put_le : (w v : ℕ) → v < 256 ^ w → get_le (put_le w v) ≡ v
  pub crc32 : Bytes → ℕ
  pub crc32-IsU32 : (bs : Bytes) → IsU32 (crc32 bs)
  pub zstd_encode_all : Bytes → Option Bytes
  pub zstd_decode_all : Bytes → Option Bytes
  pub zstd_decode_all-encode_all :
      (raw packed : Bytes) → zstd_encode_all raw ≡ some packed → zstd_decode_all packed ≡ some raw
  pub blake3 : Bytes → Bytes
  pub blake3-IsHash : (bs : Bytes) → IsHash (blake3 bs)

module _ ⦃x : Crates⦄ where
  abbrev pub put_u16 : ℕ → Bytes
  put_u16 v = x.put_le 2 v

  abbrev pub put_u32 : ℕ → Bytes
  put_u32 v = x.put_le 4 v

  abbrev pub put_u64 : ℕ → Bytes
  put_u64 v = x.put_le 8 v

-- A read from a file or a cursor: the value, and the bytes behind it.
abbrev pub Read {ℓ} : Type ℓ → Type ℓ
Read A = Bytes → Result (A × Bytes)

abbrev continue {ℓ κ} :
    {A : Type ℓ} {B : Type κ} → Result (A × Bytes) → (A → Read B) → Result (B × Bytes)
continue (ok (a, rest)) f = f a rest
continue (err e) f = err e
continue stuck f = stuck

infixl 5 ◌>>=◌ ◌>>◌
abbrev pub ◌>>=◌ {ℓ κ} : {A : Type ℓ} {B : Type κ} → Read A → (A → Read B) → Read B
◌>>=◌ m f s = continue (m s) f

abbrev pub ◌>>◌ {ℓ κ} : {A : Type ℓ} {B : Type κ} → Read A → Read B → Read B
m >> k = m >>= λ _. k

abbrev pub pure {ℓ} : {A : Type ℓ} → A → Read A
pure a s = ok (a, s)

-- What has been read, without the bytes behind it.
abbrev pub value_of {ℓ} : {A : Type ℓ} → Result (A × Bytes) → Result A
value_of (ok (a, rest)) = ok a
value_of (err e) = err e
value_of stuck = stuck

-- `Cursor::new(payload)` and the reads from it.
abbrev pub from_cursor {ℓ} : {A : Type ℓ} → Read A → Bytes → Result A
from_cursor rd payload = value_of (rd payload)

-- A step that reads nothing.
abbrev pub lift {ℓ} : {A : Type ℓ} → Result A → Read A
lift (ok a) s = ok (a, s)
lift (err e) s = err e
lift stuck s = stuck

keep : ℕ → Option (Bytes × Bytes) → Option (Bytes × Bytes)
keep b none = none
keep b (some (front, rest)) = some (b ∷ front, rest)

split_at? : ℕ → Bytes → Option (Bytes × Bytes)
unfolding keep
split_at? zero s = some ([], s)
split_at? (suc n) [] = none
split_at? (suc n) (b ∷ s) = keep b (split_at? n s)

-- `Read::read_exact` into a buffer of `n` bytes.
unfoldable pub read_exact : ℕ → Read Bytes
unfolding split_at?
read_exact n s = elim (split_at? n s) [ none ↦ err (io unexpected_eof) | some p ↦ ok p ]

module _ ⦃x : Crates⦄ where
  unfoldable pub read_uint : ℕ → Read ℕ
  unfolding read_exact
  read_uint w = do bs ← read_exact w; pure (x.get_le bs)

  abbrev pub read_u16 : Read ℕ
  read_u16 = read_uint 2

  abbrev pub read_u32 : Read ℕ
  read_u32 = read_uint 4

  abbrev pub read_u64 : Read ℕ
  read_u64 = read_uint 8
