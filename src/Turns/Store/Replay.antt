-- ===== src/Turns/Store/Replay.antt =====
-- Loading the files of `TurnStore` (server/src/turn_store/mod.rs) replays the records that were
-- written to them, in order.
use cxdb.Prelude.{
  ℕ, zero, suc, ◌+◌, ◌-◌, ◌*◌, ◌<◌, ◌≡◌, ◌∙◌, ap, List, [], ◌∷◌, ◌++◌, length, All, length-append,
  take-append, append_assoc, arith, nat_eq,
}
use cxdb.Prelude.Dict
use cxdb.Prelude.Dict.{Dict}
use cxdb.Prelude.Result.{ok}
use cxdb.Wire.{Bytes, Crates}
use cxdb.Wire.Reads.{Sized-eof}
use cxdb.Turns.{TurnRecord, IsTurnRecord}
use cxdb.Turns.Codec.{encode_turn_record}
use cxdb.Turns.Codec.RoundTrip.{
  read_turn_record-encode_turn_record, length-encode_turn_record, Sized-read_turn_record,
}
use cxdb.Turns.Store.{TurnStore, load_turns_loop, load_turns}

-- The tables that a list of records makes.
abbrev pub replay_turns : List TurnRecord → Dict ℕ TurnRecord → Dict ℕ TurnRecord
replay_turns [] turns = turns
replay_turns (r ∷ rs) turns = replay_turns rs (Dict.insert r.turn_id r turns)

-- Each record of turns.log takes 80 bytes.
abbrev pub replay_index : ℕ → List TurnRecord → Dict ℕ ℕ → Dict ℕ ℕ
replay_index offset [] index = index
replay_index offset (r ∷ rs) index =
    replay_index (offset + 80) rs (Dict.insert r.turn_id offset index)

module _ ⦃x : Crates⦄ where
  abbrev pub encode_turns : List TurnRecord → Bytes
  encode_turns [] = []
  encode_turns (r ∷ rs) = encode_turn_record r ++ encode_turns rs

  load_turns_loop_step :
      (fuel : ℕ) (file rest : Bytes) (offset : ℕ) (turns : Dict ℕ TurnRecord) (index : Dict ℕ ℕ)
      (r : TurnRecord)
      → IsTurnRecord r
      → length file ≡ offset + length (encode_turn_record r ++ rest)
      → load_turns_loop (suc fuel) file (encode_turn_record r ++ rest) offset turns index
        ≡ load_turns_loop fuel file rest
            (offset + 80)
            (Dict.insert r.turn_id r turns)
            (Dict.insert r.turn_id offset index)
  unfolding load_turns_loop
  load_turns_loop_step fuel file rest offset turns index r h len =
      rw (read_turn_record-encode_turn_record r rest h, load_turns_loop)
        (ap
          (λ o.
            load_turns_loop fuel file rest o (Dict.insert r.turn_id r turns)
              (Dict.insert r.turn_id offset index))
          (omega (
            arith,
            length-append (encode_turn_record r) rest,
            length-encode_turn_record r h.payload_hash,
          )))

  -- `torn` is what a crash left of a record that was being written.
  load_turns_loop-encode_turns :
      (rs : List TurnRecord) (fuel : ℕ) (file torn : Bytes) (offset : ℕ) (turns : Dict ℕ TurnRecord)
      (index : Dict ℕ ℕ)
      → All IsTurnRecord rs
      → length torn < 80
      → length rs < fuel
      → length file ≡ offset + length (encode_turns rs ++ torn)
      → load_turns_loop fuel file (encode_turns rs ++ torn) offset turns index
        ≡ ok (record {
          turns = replay_turns rs turns;
          index = replay_index offset rs index;
          len = length file - length torn;
        })
  load_turns_loop-encode_turns rs zero file torn offset turns index h short fuel len =
      absurd (omega arith)
  load_turns_loop-encode_turns [] (suc fuel) file torn offset turns index h short more len =
      unfold load_turns_loop in ground (arith, Sized-eof Sized-read_turn_record torn short)
  load_turns_loop-encode_turns (r ∷ rs) (suc fuel) file torn offset turns index (hr, hrs) short more
        len =
      let split = append_assoc (encode_turn_record r) (encode_turns rs) torn in
      let whole : length file
          ≡ offset + length (encode_turn_record r ++ (encode_turns rs ++ torn)) =
        len ∙ ap (λ (l : Bytes). offset + length l) split in
      rw split (
        load_turns_loop_step fuel file (encode_turns rs ++ torn) offset turns index r hr whole
        ∙ load_turns_loop-encode_turns rs fuel file torn (offset + 80) _ _ hrs short (omega arith) (
            omega (
              arith,
              length-append (encode_turn_record r) (encode_turns rs ++ torn),
              length-encode_turn_record r hr.payload_hash,
            )))

  pub length-encode_turns :
      (rs : List TurnRecord) → All IsTurnRecord rs → length (encode_turns rs) ≡ 80 * length rs
  length-encode_turns [] h = omega arith
  length-encode_turns (r ∷ rs) (hr, hrs) = omega (
    arith,
    length-append (encode_turn_record r) (encode_turns rs),
    length-encode_turn_record r hr.payload_hash,
    length-encode_turns rs hrs,
  )

  -- A turns.log that holds whole records, and behind them fewer bytes than a record has, loads
  -- as the replay of the records, and the file is cut back to them.
  pub load_turns-encode_turns :
      (s : TurnStore) (rs : List TurnRecord) (torn : Bytes)
      → All IsTurnRecord rs
      → length torn < 80
      → s.turns_log ≡ encode_turns rs ++ torn
      → load_turns s
        ≡ ok (record s {
          disk = record s.disk { turns_log = encode_turns rs };
          turns = replay_turns rs [];
          turn_index = replay_index 0 rs [];
        })
  unfolding load_turns
  load_turns-encode_turns s rs torn h short e =
      let file = encode_turns rs ++ torn in
      let cut : length file - length torn ≡ length (encode_turns rs) =
        omega (arith, length-append (encode_turns rs) torn) in
      let scan =
        load_turns_loop-encode_turns rs (suc (length file)) file torn 0 [] [] h short
          (omega (arith, length-encode_turns rs h, length-append (encode_turns rs) torn))
          (omega arith) in
      rw (e, scan, cut, take-append (encode_turns rs) torn)
