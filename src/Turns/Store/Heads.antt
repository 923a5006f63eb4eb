-- ===== src/Turns/Store/Heads.antt =====
-- Loading heads.tbl (`load_heads` of server/src/turn_store/mod.rs) replays its records in order.
use cxdb.Prelude.{
  ℕ, zero, suc, ◌-◌, ◌*◌, ◌<◌, ◌≡◌, ◌∙◌, List, [], ◌∷◌, ◌++◌, length, take, take_all, All,
  length-append, take-append, append_assoc, arith, nat_eq, if◌then◌else◌, ltb,
}
use mathlib.Core.Logic.{inl, inr}
use native.Mathlib.Decide.{dec_lt}
use cxdb.Prelude.{Bool-cases}
use cxdb.Prelude.Dict
use cxdb.Prelude.Dict.{Dict}
use cxdb.Prelude.Result.{ok}
use cxdb.Wire.{Bytes, Crates, put_u64}
use cxdb.Wire.Reads.{Sized-eof, read_uint-put_le, Takes-read_uint}
use cxdb.Turns.{ContextHead, IsContextHead}
use cxdb.Turns.Codec.{encode_head}
use cxdb.Turns.Codec.RoundTrip.{
  head_tail, encode_head_split, read_head_fields-head_tail, length-head_tail,
  Sized-read_head_fields,
}
use cxdb.Turns.Store.{TurnStore, load_heads_loop, load_heads}

abbrev pub replay_heads : List ContextHead → Dict ℕ ContextHead → Dict ℕ ContextHead
replay_heads [] heads = heads
replay_heads (h ∷ hs) heads = replay_heads hs (Dict.insert h.context_id h heads)

module _ ⦃x : Crates⦄ where
  abbrev pub encode_heads : List ContextHead → Bytes
  encode_heads [] = []
  encode_heads (h ∷ hs) = encode_head h ++ encode_heads hs

  length-encode_head : (h : ContextHead) → length (encode_head h) ≡ 36
  length-encode_head h = rw (encode_head_split h) (
      omega (
        arith,
        length-append (put_u64 h.context_id) (head_tail h),
        x.length-put_le 8 h.context_id,
        length-head_tail h,
      ))

  load_heads_loop_step :
      (fuel : ℕ) (file rest : Bytes) (heads : Dict ℕ ContextHead) (h : ContextHead)
      → IsContextHead h
      → load_heads_loop (suc fuel) file (encode_head h ++ rest) heads
        ≡ load_heads_loop fuel file rest (Dict.insert h.context_id h heads)
  unfolding load_heads_loop
  load_heads_loop_step fuel file rest heads h typed =
      let id_read = read_uint-put_le 8 h.context_id (head_tail h ++ rest) typed.context_id in
      let tail_read = read_head_fields-head_tail h rest typed in
      rw (encode_head_split h, append_assoc (put_u64 h.context_id) (head_tail h) rest)
        (rw (id_read, load_heads_loop) (rw tail_read))

  -- The length that the file keeps where `torn` is left of a record that was being written.
  abbrev pub kept_len : Bytes → Bytes → ℕ
  kept_len file torn = if ltb (length torn) 8 then length file else length file - length torn

  load_heads_loop_torn :
      (fuel : ℕ) (file torn : Bytes) (heads : Dict ℕ ContextHead)
      → length torn < 36
      → load_heads_loop (suc fuel) file torn heads ≡ ok (heads, kept_len file torn)
  unfolding load_heads_loop
  load_heads_loop_torn fuel file torn heads short = elim (dec_lt (length torn) 8) [
    | yes cut ↦ ground (arith, (Takes-read_uint 8).short torn cut)
    | no whole ↦
        let (id, rest, e, len) = (Takes-read_uint 8).long torn (omega arith) in
        ground (arith, e, Sized-eof (Sized-read_head_fields id) rest (omega arith))
  ]

  load_heads_loop-encode_heads :
      (hs : List ContextHead) (fuel : ℕ) (file torn : Bytes) (heads : Dict ℕ ContextHead)
      → All IsContextHead hs
      → length torn < 36
      → length hs < fuel
      → load_heads_loop fuel file (encode_heads hs ++ torn) heads
        ≡ ok (replay_heads hs heads, kept_len file torn)
  load_heads_loop-encode_heads hs zero file torn heads h short more = absurd (omega arith)
  load_heads_loop-encode_heads [] (suc fuel) file torn heads h short more =
      load_heads_loop_torn fuel file torn heads short
  load_heads_loop-encode_heads (c ∷ hs) (suc fuel) file torn heads (hc, hhs) short more =
      rw (append_assoc (encode_head c) (encode_heads hs) torn) (
        load_heads_loop_step fuel file (encode_heads hs ++ torn) heads c hc
        ∙ load_heads_loop-encode_heads hs fuel file torn _ hhs short (omega arith))

  pub length-encode_heads : (hs : List ContextHead) → length (encode_heads hs) ≡ 36 * length hs
  length-encode_heads [] = omega arith
  length-encode_heads (h ∷ hs) = omega (
    arith,
    length-append (encode_head h) (encode_heads hs),
    length-encode_head h,
    length-encode_heads hs,
  )

  -- What is left of heads.tbl where a crash cut the last record short: fewer than 8 bytes of it
  -- stay in the file, and 8 or more are cut off.
  abbrev pub heads_kept : List ContextHead → Bytes → Bytes
  heads_kept hs torn = if ltb (length torn) 8 then encode_heads hs ++ torn else encode_heads hs

  -- A heads.tbl that holds whole records, and behind them fewer bytes than a record has, loads as
  -- the replay of the records. The rest is cut off, but for a rest of fewer than 8 bytes, which
  -- stays in the file.
  pub load_heads-encode_heads :
      (s : TurnStore) (hs : List ContextHead) (torn : Bytes)
      → All IsContextHead hs
      → length torn < 36
      → s.heads_tbl ≡ encode_heads hs ++ torn
      → load_heads s
        ≡ ok (record s {
          disk = record s.disk { heads_tbl = heads_kept hs torn };
          heads = replay_heads hs [];
        })
  unfolding load_heads
  load_heads-encode_heads s hs torn h short e =
      let file = encode_heads hs ++ torn in
      let joined = length-append (encode_heads hs) torn in
      let scan =
        load_heads_loop-encode_heads hs (suc (length file)) file torn [] h short
          (omega (arith, length-encode_heads hs, joined)) in
      let cut : length file - length torn ≡ length (encode_heads hs) = omega (arith, joined) in
      let kept : take (kept_len file torn) file ≡ heads_kept hs torn =
        elim (Bool-cases (ltb (length torn) 8)) [
          | inl few ↦ rw few (take_all (length file) file (omega arith))
          | inr many ↦ rw many (rw cut (take-append (encode_heads hs) torn))
        ] in
      rw (e, scan, kept)
