-- ===== src/Tests.antt =====
-- Concrete crates and stores, and the properties applied to them.
mod Turns
mod Wires
mod Queries
mod Runs
mod Types
use cxdb.Prelude.{
  ℕ, zero, suc, ◌+◌, ◌*◌, ◌/◌, ◌%◌, ◌^◌, ◌<◌, ◌≤◌, ◌≡◌, ◌∙◌, ap, refl, Bool, true, false, Option,
  none, some, List, [], ◌∷◌, length, foldl, arith, ◌==◌, nat_eq, bytes_eq, if◌then◌else◌,
  Bool-cases, inl, inr, nat_beq, nat_beq_iff,
}
use native.Mathlib.Nat.{pow-suc}
use cxdb.Prelude.Dict
use cxdb.Prelude.Dict.{Dict}
use cxdb.Wire.{Bytes, Crates, IsU32, IsHash}
use cxdb.Turns.{TurnRecord, TurnMeta, ContextHead}
use cxdb.Turns.Store.{TurnStore}
use cxdb.Turns.Ops.WellFormed.{WellFormed}

unfoldable pub put_le : ℕ → ℕ → Bytes
put_le zero v = []
put_le (suc w) v = v % 256 ∷ put_le w (v / 256)

unfoldable pub get_le : Bytes → ℕ
get_le [] = 0
get_le (b ∷ bs) = b + 256 * get_le bs

pub length-put_le : (w v : ℕ) → length (put_le w v) ≡ w
unfolding put_le
length-put_le zero v = refl
length-put_le (suc w) v = ap suc (length-put_le w (v / 256))

pub get_le-put_le : (w v : ℕ) → v < 256 ^ w → get_le (put_le w v) ≡ v
unfolding put_le get_le
get_le-put_le zero v h = let small : v < 1 = h in omega arith
get_le-put_le (suc w) v h =
    let whole : v < 256 ^ w * 256 = rw pow-suc at h in
    let rest = get_le-put_le w (v / 256) (omega arith) in omega (arith, rest)

unfoldable pub checksum : Bytes → ℕ
checksum bs = foldl (λ n b. n + b) 0 bs % 2 ^ 32

pub checksum-IsU32 : (bs : Bytes) → IsU32 (checksum bs)
unfolding checksum
checksum-IsU32 bs = omega arith

-- Four zero bytes become none; other bytes are stored behind a mark.
unfoldable pub pack : Bytes → Option Bytes
pack raw = some (if raw == (0 ∷ 0 ∷ 0 ∷ 0 ∷ []) then [] else 1 ∷ raw)

unfoldable pub unpack : Bytes → Option Bytes
unpack [] = some (0 ∷ 0 ∷ 0 ∷ 0 ∷ [])
unpack (b ∷ bs) = some bs

pub unpack-pack : (raw packed : Bytes) → pack raw ≡ some packed → unpack packed ≡ some raw
unfolding pack unpack
unpack-pack raw packed h = elim (Bool-cases (raw == (0 ∷ 0 ∷ 0 ∷ 0 ∷ []))) [
  | inl zeros ↦
      let e = rw zeros at h in
      let p : [] ≡ packed = cc in
      let q = ((bytes_eq).eq_iff raw (0 ∷ 0 ∷ 0 ∷ 0 ∷ [])).0 zeros in rw (← p, q)
  | inr other ↦ let e = rw other at h in let p : 1 ∷ raw ≡ packed = cc in rw (← p)
]

unfoldable pub hash : Bytes → Bytes
hash bs =
    foldl (λ n b. n + b) (length bs) bs % 256
    ∷ 0
    ∷ 0
    ∷ 0
    ∷ 0
    ∷ 0
    ∷ 0
    ∷ 0
    ∷ 0
    ∷ 0
    ∷ 0
    ∷ 0
    ∷ 0
    ∷ 0
    ∷ 0
    ∷ 0
    ∷ 0
    ∷ 0
    ∷ 0
    ∷ 0
    ∷ 0
    ∷ 0
    ∷ 0
    ∷ 0
    ∷ 0
    ∷ 0
    ∷ 0
    ∷ 0
    ∷ 0
    ∷ 0
    ∷ 0
    ∷ 0
    ∷ []

pub hash-IsHash : (bs : Bytes) → IsHash (hash bs)
unfolding hash
hash-IsHash bs = refl

instance abbrev pub sample_crates : Crates
sample_crates = record {
  put_le = put_le;
  get_le = get_le;
  length-put_le = length-put_le;
  get_le-put_le = get_le-put_le;
  crc32 = checksum;
  crc32-IsU32 = checksum-IsU32;
  zstd_encode_all = pack;
  zstd_decode_all = unpack;
  zstd_decode_all-encode_all = unpack-pack;
  blake3 = hash;
  blake3-IsHash = hash-IsHash;
}

abbrev pub zero_hash : Bytes
zero_hash =
    0 ∷ 0 ∷ 0 ∷ 0 ∷ 0 ∷ 0 ∷ 0 ∷ 0 ∷ 0 ∷ 0 ∷ 0 ∷ 0 ∷ 0 ∷ 0 ∷ 0 ∷ 0 ∷ 0 ∷ 0 ∷ 0 ∷ 0 ∷ 0 ∷ 0 ∷ 0 ∷ 0
    ∷ 0 ∷ 0 ∷ 0 ∷ 0 ∷ 0 ∷ 0 ∷ 0 ∷ 0 ∷ []

abbrev pub turn_one : TurnRecord
turn_one = record {
  turn_id = 1;
  parent_turn_id = 0;
  depth = 0;
  codec = 1;
  type_tag = 0;
  payload_hash = zero_hash;
  flags = 0;
  created_at_unix_ms = 5;
}

abbrev pub meta_one : TurnMeta
meta_one = record {
  declared_type_id = 97 ∷ [];
  declared_type_version = 1;
  encoding = 1;
  compression = 0;
  uncompressed_len = 3;
}

abbrev pub head_one : ContextHead
head_one = record {
  context_id = 1;
  head_turn_id = 1;
  head_depth = 0;
  created_at_unix_ms = 5;
  flags = 0;
}

-- One context with one turn; the files are those of a store that has forgotten them.
abbrev pub one_turn : TurnStore
one_turn = record {
  disk = record { turns_log = []; turns_idx = []; turns_meta = []; heads_tbl = [] };
  turns = (1, turn_one) ∷ [];
  turn_index = (1, 0) ∷ [];
  turn_meta = (1, meta_one) ∷ [];
  heads = (1, head_one) ∷ [];
  next_turn_id = 2;
  next_context_id = 2;
}

only {ℓ} : {V : Type ℓ} (k j : ℕ) (v u : V) → Dict.get j ((k, v) ∷ []) ≡ some u → (k ≡ j) × (v ≡ u)
unfolding Dict.get
only k j v u h = elim (Bool-cases (nat_beq k j)) [
  | inl same ↦ let e = rw same at h in ((nat_beq_iff k j).0 same, cc)
  | inr other ↦ let e = rw other at h in cc
]

pub one_turn-WellFormed : WellFormed one_turn
unfolding Dict.get
one_turn-WellFormed = record {
  next_positive = omega arith;
  turn = λ k r found.
      let (key, same) = only 1 k turn_one r found in
      rw (← key, ← same)
        (record {
          key = refl;
          positive = omega arith;
          below = omega arith;
          parent_below = omega arith;
          depth_below = omega arith;
          hangs = inl (refl, refl);
        });
  head = λ k h found.
      let (key, same) = only 1 k head_one h found in
      rw (← key, ← same) (record { key = refl; stands = inr (turn_one, refl, refl) });
  meta = λ k r found. let (key, same) = only 1 k turn_one r found in (meta_one, rw (← key));
}
