-- ===== src/BlobStore/Ops/Puts.antt =====
-- `put_if_absent` under a hash that the table has and one that it does not have
-- (server/src/blob_store/mod.rs).
use cxdb.Prelude.{◌≡◌, none, some, Option-cases, inl, inr, bytes_eq}
use cxdb.Prelude.Dict
use cxdb.Prelude.Result.{ok}
use cxdb.Wire.{Bytes, Crates}
use cxdb.BlobStore.{BlobIndexEntry, BlobStore}
use cxdb.BlobStore.Ops.{store_new, get_blob, put_if_absent, new_entry}

module _ ⦃x : Crates⦄ where
  pub put_if_absent_new :
      (hash raw : Bytes) (s : BlobStore)
      → Dict.get hash s.index ≡ none
      → put_if_absent hash raw s ≡ store_new hash raw s
  unfolding put_if_absent
  put_if_absent_new hash raw s missing = rw (missing, put_if_absent)

  pub put_if_absent_there :
      (hash raw : Bytes) (s : BlobStore) (entry : BlobIndexEntry)
      → Dict.get hash s.index ≡ some entry
      → put_if_absent hash raw s ≡ (entry, s)
  unfolding put_if_absent
  put_if_absent_there hash raw s entry known = rw (known, put_if_absent)

  -- A second put of a blob that `get` already gives changes nothing.
  pub put_if_absent_again :
      (hash raw other : Bytes) (s : BlobStore)
      → get_blob hash s ≡ ok raw
      → (put_if_absent hash other s).1 ≡ s
  unfolding put_if_absent get_blob
  put_if_absent_again hash raw other s there = elim (Option-cases (Dict.get hash s.index)) [
    | inl missing ↦ let bad = rw missing at there in cc
    | inr (entry, known) ↦ rw (known, put_if_absent)
  ]

  -- Whatever the store and the bytes, a second put under the same hash changes nothing and answers with
  -- the entry of the first, also where its bytes are others.
  pub put_if_absent_twice :
      (hash raw other : Bytes) (s : BlobStore)
      → put_if_absent hash other ((put_if_absent hash raw s).1) ≡ put_if_absent hash raw s
  put_if_absent_twice hash raw other s = elim (Option-cases (Dict.get hash s.index)) [
    | inl missing ↦ rw (put_if_absent_new hash raw s missing) (
        put_if_absent_there hash other ((store_new hash raw s).1) (new_entry s.pack raw)
          (Dict.get-insert_self hash _ s.index))
    | inr (entry, known) ↦
        rw (put_if_absent_there hash raw s entry known)
          (put_if_absent_there hash other s entry known)
  ]
