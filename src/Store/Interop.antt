-- ===== src/Store/Interop.antt =====
-- The Rust client (clients/rust/src/turn.rs) reads the answer to GET_LAST that the server
-- (server/src/main.rs) writes.
use cxdb.Prelude.{
  ◌%◌, ◌^◌, ◌<◌, ◌≡◌, ap, refl, false, some, List, [], ◌∷◌, ◌++◌, length, length-append, length-map,
  map, append_assoc, arith, All, ltb,
}
use native.Mathlib.Nat.{mod-eq_of_lt}
use cxdb.Prelude.Result.{ok}
use cxdb.Wire.{Bytes, Crates, IsU32, put_u32}
use cxdb.Wire.Reads.{read_uint-put_le, read_exact-append}
use cxdb.Wire.Utf8.{from_utf8}
use cxdb.Turns.{TurnRecord, TurnMeta, IsTurnRecord, IsTurnMeta}
use cxdb.Client.{TurnView}
use cxdb.Client.Decode.{done, answer_of, read_turn_view, read_turn_views, parse_turn_records}
use cxdb.Store.{TurnWithMeta, encode_item, encode_items, encode_get_last_resp}

-- A stored turn with its payload, as `get_last` gives it when payloads are asked for.
pub record Loaded : Type 0 where
  pub turn : TurnRecord
  pub meta : TurnMeta
  pub payload : Bytes

abbrev pub item_of : Loaded → TurnWithMeta
item_of l = record { turn = l.turn; meta = l.meta; payload = some l.payload }

abbrev pub IsLoaded : Loaded → Type 0
IsLoaded l = IsTurnRecord l.turn × IsTurnMeta l.meta × IsU32 (length l.payload)

-- What the client makes of it: the payload is raw, so the compression is 0.
abbrev pub view_of : Loaded → TurnView
view_of l = record {
  turn_id = l.turn.turn_id;
  parent_id = l.turn.parent_turn_id;
  depth = l.turn.depth;
  type_id = l.meta.declared_type_id;
  type_version = l.meta.declared_type_version;
  encoding = l.meta.encoding;
  compression = 0;
  payload_hash = l.turn.payload_hash;
  payload = l.payload;
}

module _ ⦃x : Crates⦄ where
  zero-lt : 0 < 256 ^ 4
  zero-lt = omega arith

  read_turn_view-encode_item :
      (l : Loaded) (rest : Bytes)
      → IsLoaded l
      → read_turn_view (encode_item (item_of l) ++ rest) ≡ ok (view_of l, rest)
  unfolding read_turn_view encode_item from_utf8
  read_turn_view-encode_item l rest (hr, hm, hp) =
      simp
        (
          append_assoc, read_uint-put_le, read_exact-append, mod-eq_of_lt, zero-lt, hr.turn_id,
          hr.parent_turn_id, hr.depth, hr.payload_hash, hm.declared_type_id, hm.type_id_len,
          hm.declared_type_version, hm.encoding, hp,
        )
        refl

  read_turn_views-encode_items :
      (ls : List Loaded)
      → All IsLoaded ls
      → read_turn_views (length ls) (encode_items (map item_of ls)) ≡ ok (map view_of ls, [])
  unfolding read_turn_views
  read_turn_views-encode_items [] h = refl
  read_turn_views-encode_items (l ∷ ls) (hl, hls) =
      rw (read_turn_view-encode_item l (encode_items (map item_of ls)) hl)
        (rw (read_turn_views-encode_items ls hls))

  -- The client reads the answer to GET_LAST that the server writes for turns with their payloads,
  -- every field of every turn, in the same order.
  pub parse_turn_records-encode_get_last_resp :
      (ls : List Loaded)
      → All IsLoaded ls
      → IsU32 (length ls)
      → parse_turn_records (encode_get_last_resp (map item_of ls)) ≡ done (map view_of ls)
  unfolding parse_turn_records encode_get_last_resp
  parse_turn_records-encode_get_last_resp ls h hl =
      let count = length ls % 2 ^ 32 in
      let items = encode_items (map item_of ls) in
      let long : ltb (length (put_u32 count ++ items)) 4 ≡ false =
        ground (arith, length-append (put_u32 count) items, x.length-put_le 4 count) in
      let counted : count ≡ length ls = mod-eq_of_lt hl in
      let same : length (map item_of ls) ≡ length ls = length-map item_of ls in
      rw same (
        rw long (
          rw (read_uint-put_le 4 count items (omega arith), counted)
            (ap answer_of (read_turn_views-encode_items ls h))))
