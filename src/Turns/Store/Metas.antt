-- ===== src/Turns/Store/Metas.antt =====
-- Loading turns.meta (`load_meta` of server/src/turn_store/mod.rs) replays its records in order.
use cxdb.Prelude.{
  ℕ, zero, suc, ◌<◌, ◌≤◌, ◌≡◌, ◌∙◌, ap, List, [], ◌∷◌, ◌++◌, length, take_all, All, length-append,
  append_assoc, arith, nat_eq,
}
use cxdb.Prelude.Dict
use cxdb.Prelude.Dict.{Dict}
use cxdb.Prelude.Result.{ok}
use cxdb.Wire.{Bytes, Crates, IsU64, put_u64}
use cxdb.Wire.Reads.{read_uint-put_le, Takes-read_uint}
use cxdb.Turns.{TurnMeta, IsTurnMeta}
use cxdb.Turns.Codec.{encode_meta, encode_meta_fields}
use cxdb.Turns.Codec.RoundTrip.{read_meta-encode_meta, encode_meta_lem}
use cxdb.Turns.Store.{TurnStore, load_meta_loop, load_meta}

abbrev pub replay_metas : List (ℕ × TurnMeta) → Dict ℕ TurnMeta → Dict ℕ TurnMeta
replay_metas [] metas = metas
replay_metas ((id, m) ∷ ms) metas = replay_metas ms (Dict.insert id m metas)

abbrev pub IsMetaEntry : ℕ × TurnMeta → Type 0
IsMetaEntry (id, m) = IsU64 id × IsTurnMeta m

module _ ⦃x : Crates⦄ where
  abbrev pub encode_metas : List (ℕ × TurnMeta) → Bytes
  encode_metas [] = []
  encode_metas ((id, m) ∷ ms) = encode_meta id m ++ encode_metas ms

  load_meta_loop_step :
      (fuel : ℕ) (file rest : Bytes) (metas : Dict ℕ TurnMeta) (id : ℕ) (m : TurnMeta)
      → IsMetaEntry (id, m)
      → load_meta_loop (suc fuel) file (encode_meta id m ++ rest) metas
        ≡ load_meta_loop fuel file rest (Dict.insert id m metas)
  unfolding load_meta_loop
  load_meta_loop_step fuel file rest metas id m (id_typed, typed) =
      rw (encode_meta_lem id m, append_assoc (put_u64 id) (encode_meta_fields m) rest)
        (rw (read_uint-put_le 8 id (encode_meta_fields m ++ rest) id_typed, load_meta_loop)
          (rw (read_meta-encode_meta m rest typed)))

  load_meta_loop-encode_metas :
      (ms : List (ℕ × TurnMeta)) (fuel : ℕ) (file torn : Bytes) (metas : Dict ℕ TurnMeta)
      → All IsMetaEntry ms
      → length torn < 8
      → length ms < fuel
      → load_meta_loop fuel file (encode_metas ms ++ torn) metas
        ≡ ok (replay_metas ms metas, length file)
  load_meta_loop-encode_metas ms zero file torn metas h short more = absurd (omega arith)
  load_meta_loop-encode_metas [] (suc fuel) file torn metas h short more =
      unfold load_meta_loop in ground (arith, (Takes-read_uint 8).short torn short)
  load_meta_loop-encode_metas ((id, m) ∷ ms) (suc fuel) file torn metas (hm, hms) short more =
      rw (append_assoc (encode_meta id m) (encode_metas ms) torn) (
        load_meta_loop_step fuel file (encode_metas ms ++ torn) metas id m hm
        ∙ load_meta_loop-encode_metas ms fuel file torn _ hms short (omega arith))

  length-encode_metas : (ms : List (ℕ × TurnMeta)) → length ms ≤ length (encode_metas ms)
  length-encode_metas [] = omega arith
  length-encode_metas ((id, m) ∷ ms) = omega (
    arith,
    length-append (encode_meta id m) (encode_metas ms),
    ap (λ (b : Bytes). length b) (encode_meta_lem id m),
    length-append (put_u64 id) (encode_meta_fields m),
    x.length-put_le 8 id,
    length-encode_metas ms,
  )

  -- A turns.meta that holds whole records loads as the replay of the records. Fewer than 8 bytes
  -- behind them stay in the file.
  pub load_meta-encode_metas :
      (s : TurnStore) (ms : List (ℕ × TurnMeta)) (torn : Bytes)
      → All IsMetaEntry ms
      → length torn < 8
      → s.turns_meta ≡ encode_metas ms ++ torn
      → load_meta s ≡ ok (record s { turn_meta = replay_metas ms [] })
  unfolding load_meta
  load_meta-encode_metas s ms torn h short e =
      let file = encode_metas ms ++ torn in
      let scan =
        load_meta_loop-encode_metas ms (suc (length file)) file torn [] h short
          (omega (arith, length-encode_metas ms, length-append (encode_metas ms) torn)) in
      rw (e, scan) (rw (take_all (length file) file (omega arith)))
