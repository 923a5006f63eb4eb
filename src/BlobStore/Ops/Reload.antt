-- ===== src/BlobStore/Ops/Reload.antt =====
-- Loading blobs.idx (`load_index` of server/src/blob_store/mod.rs) replays its entries in order.
use cxdb.Prelude.{
  ℕ, zero, suc, ◌-◌, ◌*◌, ◌<◌, ◌≡◌, ◌∙◌, true, false, List, [], ◌∷◌, ◌++◌, length, All,
  length-append, take-append, append_assoc, arith, bytes_eq, ltb,
}
use cxdb.Prelude.Dict
use cxdb.Prelude.Dict.{Dict}
use cxdb.Prelude.Result.{ok}
use cxdb.Wire.{Bytes, Crates, IsHash}
use cxdb.BlobStore.{BlobIndexEntry, IsIndexEntry, encode_index_entry}
use cxdb.BlobStore.Ops.{load_index_loop, open_blobs}
use cxdb.BlobStore.Ops.RoundTrip.{read_index_entry-encode_index_entry}

abbrev pub IsEntry : Bytes × BlobIndexEntry → Type 0
IsEntry (hash, entry) = IsHash hash × IsIndexEntry entry

abbrev pub replay_entries :
    List (Bytes × BlobIndexEntry) → Dict Bytes BlobIndexEntry → Dict Bytes BlobIndexEntry
replay_entries [] index = index
replay_entries ((hash, entry) ∷ es) index = replay_entries es (Dict.insert hash entry index)

module _ ⦃x : Crates⦄ where
  abbrev pub encode_entries : List (Bytes × BlobIndexEntry) → Bytes
  encode_entries [] = []
  encode_entries ((hash, entry) ∷ es) = encode_index_entry hash entry ++ encode_entries es

  length-encode_index_entry :
      (hash : Bytes) (entry : BlobIndexEntry)
      → IsHash hash
      → length (encode_index_entry hash entry) ≡ 52
  unfolding encode_index_entry
  length-encode_index_entry hash entry h = simp (length-append, x.length-put_le, h)

  length-encode_entries :
      (es : List (Bytes × BlobIndexEntry))
      → All IsEntry es
      → length (encode_entries es) ≡ 52 * length es
  length-encode_entries [] h = omega arith
  length-encode_entries ((hash, entry) ∷ es) ((hh, he), hes) = omega (
    arith,
    length-append (encode_index_entry hash entry) (encode_entries es),
    length-encode_index_entry hash entry hh,
    length-encode_entries es hes,
  )

  load_index_loop_step :
      (fuel : ℕ) (file rest : Bytes) (index : Dict Bytes BlobIndexEntry) (hash : Bytes)
      (entry : BlobIndexEntry)
      → IsHash hash
      → IsIndexEntry entry
      → load_index_loop (suc fuel) file (encode_index_entry hash entry ++ rest) index
        ≡ load_index_loop fuel file rest (Dict.insert hash entry index)
  unfolding load_index_loop
  load_index_loop_step fuel file rest index hash entry hh he =
      let bytes = encode_index_entry hash entry in
      let enough : ltb (length (bytes ++ rest)) 52 ≡ false =
        ground (arith, length-append bytes rest, length-encode_index_entry hash entry hh) in
      rw enough (rw (read_index_entry-encode_index_entry hash entry rest hh he))

  load_index_loop_torn :
      (fuel : ℕ) (file torn : Bytes) (index : Dict Bytes BlobIndexEntry)
      → length torn < 52
      → load_index_loop (suc fuel) file torn index ≡ ok (index, length file - length torn)
  unfolding load_index_loop
  load_index_loop_torn fuel file torn index short =
      let cut : ltb (length torn) 52 ≡ true = ground arith in rw cut

  load_index_loop-encode_entries :
      (es : List (Bytes × BlobIndexEntry)) (fuel : ℕ) (file torn : Bytes)
      (index : Dict Bytes BlobIndexEntry)
      → All IsEntry es
      → length torn < 52
      → length es < fuel
      → load_index_loop fuel file (encode_entries es ++ torn) index
        ≡ ok (replay_entries es index, length file - length torn)
  load_index_loop-encode_entries es zero file torn index h short more = absurd (omega arith)
  load_index_loop-encode_entries [] (suc fuel) file torn index h short more =
      load_index_loop_torn fuel file torn index short
  load_index_loop-encode_entries ((hash, entry) ∷ es) (suc fuel) file torn index ((hh, he), hes)
        short more =
      rw (append_assoc (encode_index_entry hash entry) (encode_entries es) torn) (
        load_index_loop_step fuel file (encode_entries es ++ torn) index hash entry hh he
        ∙ load_index_loop-encode_entries es fuel file torn _ hes short (omega arith))

  -- A blobs.idx that holds whole entries, and behind them fewer bytes than an entry has, opens as
  -- the replay of the entries, and the file is cut back to them.
  pub open_blobs-encode_entries :
      (pack torn : Bytes) (es : List (Bytes × BlobIndexEntry))
      → All IsEntry es
      → length torn < 52
      → open_blobs pack (encode_entries es ++ torn)
        ≡ ok (record { pack = pack; idx = encode_entries es; index = replay_entries es [] })
  unfolding open_blobs
  open_blobs-encode_entries pack torn es h short =
      let file = encode_entries es ++ torn in
      let joined = length-append (encode_entries es) torn in
      let scan =
        load_index_loop-encode_entries es (suc (length file)) file torn [] h short
          (omega (arith, length-encode_entries es h, joined)) in
      let cut : length file - length torn ≡ length (encode_entries es) = omega (arith, joined) in
      rw scan (rw cut (rw (take-append (encode_entries es) torn)))
