-- ===== src/BlobStore/Ops/Keeps.antt =====
-- Later puts keep the blobs that are there (server/src/blob_store/mod.rs).
use cxdb.Prelude.{
  ℕ, zero, suc, ◌+◌, ◌≤◌, ◌≡◌, ◌≢◌, ◌∙◌, ap, refl, true, some, [], ◌∷◌, ◌++◌, length, take, drop,
  length-append, arith, leb, nat_eq, bytes_eq, Option-cases, Bool-cases, inl, inr,
}
use native.Mathlib.Decide.{dec_lt}
use cxdb.Prelude.Dict
use cxdb.Prelude.Result.{ok, Result-cases}
use cxdb.Wire.{Bytes, Crates, from_cursor}
use cxdb.BlobStore.{BlobIndexEntry, BlobStore, read_header}
use cxdb.BlobStore.Ops.{
  read_at_exact, check_header, get_body, get_entry, get_blob, put_if_absent, new_entry,
}
use cxdb.BlobStore.Ops.Puts.{put_if_absent_new, put_if_absent_there}
use cxdb.BlobStore.Ops.RoundTrip.{get_blob_entry}

drop-append_within : (n : ℕ) (xs ys : Bytes) → n ≤ length xs → drop n (xs ++ ys) ≡ drop n xs ++ ys
drop-append_within zero xs ys h = refl
drop-append_within (suc n) [] ys h = absurd (omega arith)
drop-append_within (suc n) (x ∷ xs) ys h = drop-append_within n xs ys (omega arith)

take-append_within : (n : ℕ) (xs ys : Bytes) → n ≤ length xs → take n (xs ++ ys) ≡ take n xs
take-append_within zero xs ys h = refl
take-append_within (suc n) [] ys h = absurd (omega arith)
take-append_within (suc n) (x ∷ xs) ys h = rw (take-append_within n xs ys (omega arith))

drop_past : (n : ℕ) (xs : Bytes) → length xs ≤ n → drop n xs ≡ []
drop_past zero [] h = refl
drop_past zero (x ∷ xs) h = absurd (omega arith)
drop_past (suc n) [] h = refl
drop_past (suc n) (x ∷ xs) h = drop_past n xs (omega arith)

-- What could be read from the pack can be read from the pack with more behind it.
read_at_exact_kept :
    (pack more bs : Bytes) (offset n : ℕ)
    → n ≢ 0
    → read_at_exact pack offset n ≡ ok bs
    → read_at_exact (pack ++ more) offset n ≡ ok bs
unfolding read_at_exact
read_at_exact_kept pack more bs offset n some_bytes h =
    elim (Bool-cases (leb n (length (drop offset pack)))) [
      | inr cut ↦ let bad = rw cut at h in cc
      | inl whole ↦
          let enough : n ≤ length (drop offset pack) = ground arith in
          let inside : offset ≤ length pack = elim (dec_lt (length pack) offset) [
            | yes past ↦
                let none_left =
                  ap (λ (l : Bytes). length l) (drop_past offset pack (omega arith)) in
                omega arith
            | no within ↦ omega arith
          ] in
          let still : leb n (length (drop offset pack ++ more)) ≡ true =
            ground (arith, length-append (drop offset pack) more) in
          let found = rw whole at h in
          rw (drop-append_within offset pack more inside)
            (rw still (rw (take-append_within n (drop offset pack) more enough) found))
    ]

module _ ⦃x : Crates⦄ where
  get_body_kept :
      (hash : Bytes) (entry : BlobIndexEntry) (pack more header_bytes raw : Bytes)
      → get_body hash entry pack header_bytes ≡ ok raw
      → get_body hash entry (pack ++ more) header_bytes ≡ ok raw
  unfolding get_body
  get_body_kept hash entry pack more header_bytes raw h =
      elim (Result-cases (from_cursor read_header header_bytes)) [
        | inr (inl (t, e)) ↦ let bad = rw (e, get_body) at h in cc
        | inr (inr e) ↦ let bad = rw (e, get_body) at h in cc
        | inl (header, parsed) ↦
            let h₁ = rw (parsed, get_body) at h in
            elim (Result-cases (check_header hash entry header)) [
              | inr (inl (t, e)) ↦ let bad = rw e at h₁ in cc
              | inr (inr e) ↦ let bad = rw e at h₁ in cc
              | inl (u, passed) ↦
                  let h₂ = rw passed at h₁ in
                  elim (Result-cases
                    (read_at_exact pack (entry.offset + 48) (header.stored_len + 4))) [
                      | inr (inl (t, e)) ↦ let bad = rw e at h₂ in cc
                      | inr (inr e) ↦ let bad = rw e at h₂ in cc
                      | inl (body, there) ↦
                          let checked = rw there at h₂ in
                          rw (parsed, get_body)
                            (rw passed (
                              rw
                                (read_at_exact_kept pack more body (entry.offset + 48)
                                  (header.stored_len + 4) (λ z. absurd (omega arith)) there)
                                checked))
                    ]
            ]
      ]

  get_entry_kept :
      (hash : Bytes) (entry : BlobIndexEntry) (pack more raw : Bytes)
      → get_entry hash entry pack ≡ ok raw
      → get_entry hash entry (pack ++ more) ≡ ok raw
  unfolding get_entry
  get_entry_kept hash entry pack more raw h =
      elim (Result-cases (read_at_exact pack entry.offset 48)) [
        | inr (inl (t, e)) ↦ let bad = rw (e, get_entry) at h in cc
        | inr (inr e) ↦ let bad = rw (e, get_entry) at h in cc
        | inl (header_bytes, there) ↦
            let h₁ = rw (there, get_entry) at h in
            rw
              (
                read_at_exact_kept pack more header_bytes entry.offset 48
                    (λ z. absurd (omega arith)) there,
                get_entry,
              )
              (get_body_kept hash entry pack more header_bytes raw h₁)
      ]

  get_entry_of :
      (hash raw : Bytes) (s : BlobStore)
      → get_blob hash s ≡ ok raw
      → (entry : BlobIndexEntry) × (Dict.get hash s.index ≡ some entry)
        × (get_entry hash entry s.pack ≡ ok raw)
  unfolding get_blob
  get_entry_of hash raw s h = elim (Option-cases (Dict.get hash s.index)) [
    | inl missing ↦ let bad = rw (missing, get_blob) at h in cc
    | inr (entry, known) ↦ (entry, known, rw (known, get_blob) at h)
  ]

  -- A blob that `get` gives, it still gives after any put, of another blob or of the same.
  pub get_blob-put_if_absent_kept :
      (hash other raw raw' : Bytes) (s : BlobStore)
      → get_blob hash s ≡ ok raw
      → get_blob hash ((put_if_absent other raw' s).1) ≡ ok raw
  get_blob-put_if_absent_kept hash other raw raw' s h =
      let (entry, known, got) = get_entry_of hash raw s h in
      elim (Option-cases (Dict.get other s.index)) [
        | inr (there, e) ↦ rw (put_if_absent_there other raw' s there e) h
        | inl missing ↦
            let apart : other ≢ hash =
              λ same. (let e = rw same at missing in let f = rw known at e in cc) in
            rw (put_if_absent_new other raw' s missing) (
              get_blob_entry hash _ entry
                (Dict.get-insert_ne other hash (new_entry s.pack raw') s.index apart ∙ known)
              ∙ get_entry_kept hash entry s.pack _ raw got)
      ]
