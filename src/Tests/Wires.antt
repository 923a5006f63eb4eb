-- ===== src/Tests/Wires.antt =====
-- The properties of the protocol, the client, the blob store, the snapshots and the server at
-- concrete messages and stores.
use cxdb.Prelude.{
  ◌≡◌, refl, List, [], ◌∷◌, ◌++◌, none, some, true, map, arith, nat_eq, bytes_eq, inl,
}
use cxdb.Prelude.Dict
use cxdb.Prelude.Result.{ok, invalid_input}
use cxdb.Wire.{Bytes}
use cxdb.Wire.Utf8.{is_utf8}
use cxdb.Turns.{TurnRecord, TurnMeta}
use cxdb.Turns.Ops.History.{Line}
use cxdb.Protocol.{MsgType, read_frame, write_frame}
use cxdb.Protocol.Frames.{read_frame-write_frame}
use cxdb.Protocol.Requests.{parse_append_turn}
use cxdb.Protocol.Responses.{encode_append_ack}
use cxdb.Client.{AppendRequest}
use cxdb.Client.Encode.{append_turn_with_fs_payload, get_last_payload}
use cxdb.Client.Encode.Interop.{IsAppendRequest, received, parse_append_turn-payload}
use cxdb.Client.Decode.{done, parse_turn_records}
use cxdb.BlobStore.{BlobStore}
use cxdb.BlobStore.Ops.{put_if_absent, get_blob}
use cxdb.BlobStore.Ops.Puts.{put_if_absent_twice}
use cxdb.BlobStore.Ops.RoundTrip.{get_blob-put_if_absent}
use cxdb.BlobStore.Ops.Keeps.{get_blob-put_if_absent_kept}
use cxdb.BlobStore.Ops.{open_blobs}
use cxdb.BlobStore.{BlobIndexEntry, zstd}
use cxdb.BlobStore.Ops.Reload.{encode_entries, replay_entries, open_blobs-encode_entries}
use cxdb.FsRoots.{FsRootsIndex, get_inherited}
use cxdb.FsRoots.Inherit.{nearest, get_inherited-Line}
use cxdb.Store.{Store, check_payload, append_turn, get_last, encode_get_last_resp}
use cxdb.Store.Append.{get_last-append_turn_payload}
use cxdb.Store.Interop.{Loaded, item_of, view_of, parse_turn_records-encode_get_last_resp}
use cxdb.Server.{reply, handle, meta_of}
use cxdb.Server.Requests.{handle-append_turn-get_last}
use cxdb.Server.Refusals.{handle_refused}
use cxdb.Tests.{
  sample_crates, hash, unpack, zero_hash, turn_one, meta_one, head_one, one_turn,
  one_turn-WellFormed,
}
use cxdb.Tests.Turns.{turn_one-IsTurnRecord, meta_one-IsTurnMeta, one_turn-head}

read_frame-write_frame_example :
    read_frame (write_frame 5 1 7 (1 ∷ 2 ∷ []) ++ (9 ∷ []))
    ≡ ok ((record { len = 2; msg_type = 5; flags = 1; req_id = 7 }, 1 ∷ 2 ∷ []), 9 ∷ [])
read_frame-write_frame_example =
    read_frame-write_frame 5 1 7 (1 ∷ 2 ∷ []) (9 ∷ []) (omega arith) (omega arith) (omega arith)
      (omega arith)

abbrev request : AppendRequest
request = record {
  context_id = 1;
  parent_turn_id = 0;
  type_id = 97 ∷ [];
  type_version = 1;
  payload = 0 ∷ 0 ∷ 0 ∷ 0 ∷ [];
  idempotency_key = 107 ∷ [];
  encoding = 0;
  compression = 0;
}

request-IsAppendRequest : IsAppendRequest request
unfolding is_utf8
request-IsAppendRequest = record {
  context_id = omega arith;
  parent_turn_id = omega arith;
  type_id = refl;
  type_id_len = omega arith;
  type_version = omega arith;
  payload_len = omega arith;
  idempotency_len = omega arith;
  encoding = omega arith;
  compression = omega arith;
}

parse_append_turn-payload_example :
    parse_append_turn (append_turn_with_fs_payload request (some zero_hash)) 1
    ≡ ok (received request (some zero_hash))
parse_append_turn-payload_example =
    parse_append_turn-payload request (some zero_hash) request-IsAppendRequest refl

abbrev no_blobs : BlobStore
no_blobs = record { pack = []; idx = []; index = [] }

abbrev zeros : Bytes
zeros = 0 ∷ 0 ∷ 0 ∷ 0 ∷ []

no_entry : (h : Bytes) → Dict.get h no_blobs.index ≡ none
unfolding Dict.get
no_entry h = refl

get_blob-put_if_absent_example :
    get_blob (hash zeros) ((put_if_absent (hash zeros) zeros no_blobs).1) ≡ ok zeros
get_blob-put_if_absent_example =
    get_blob-put_if_absent (hash zeros) zeros no_blobs (no_entry (hash zeros))
      (sample_crates.blake3-IsHash zeros) (omega arith) (omega arith)

abbrev one_blob : BlobStore
one_blob = (put_if_absent zero_hash zeros no_blobs).1

zeros_there : get_blob zero_hash one_blob ≡ ok zeros
zeros_there =
    get_blob-put_if_absent zero_hash zeros no_blobs (no_entry zero_hash) refl (omega arith)
      (omega arith)

put_if_absent_twice_example :
    put_if_absent (hash zeros) zeros ((put_if_absent (hash zeros) (7 ∷ []) one_blob).1)
    ≡ put_if_absent (hash zeros) (7 ∷ []) one_blob
put_if_absent_twice_example = put_if_absent_twice (hash zeros) (7 ∷ []) zeros one_blob

get_blob-put_if_absent_kept_example :
    get_blob zero_hash ((put_if_absent (hash zeros) (7 ∷ []) one_blob).1) ≡ ok zeros
get_blob-put_if_absent_kept_example =
    get_blob-put_if_absent_kept zero_hash (hash zeros) zeros (7 ∷ []) one_blob zeros_there

abbrev one_entry : BlobIndexEntry
one_entry = record { offset = 0; raw_len = 4; stored_len = 0; codec = zstd }

open_blobs-encode_entries_example :
    open_blobs (1 ∷ []) (encode_entries ((zero_hash, one_entry) ∷ []) ++ (1 ∷ 2 ∷ []))
    ≡ ok (record {
      pack = 1 ∷ [];
      idx = encode_entries ((zero_hash, one_entry) ∷ []);
      index = replay_entries ((zero_hash, one_entry) ∷ []) [];
    })
open_blobs-encode_entries_example =
    open_blobs-encode_entries (1 ∷ []) (1 ∷ 2 ∷ []) ((zero_hash, one_entry) ∷ [])
      ((refl, record { offset = omega arith; raw_len = omega arith; stored_len = omega arith }), tt)
      (omega arith)

abbrev one_root : FsRootsIndex
one_root = record { file = []; roots = (1, zero_hash) ∷ [] }

one_turn-turn : Dict.get 1 one_turn.turns ≡ some turn_one
unfolding Dict.get
one_turn-turn = refl

get_inherited-Line_example :
    (rs : List TurnRecord) × Line one_turn.turns 1 (turn_one ∷ rs)
    × (get_inherited 1 one_turn.turns one_root ≡ ok (nearest one_root.roots (turn_one ∷ rs)))
get_inherited-Line_example =
    get_inherited-Line one_turn-WellFormed one_root 1 turn_one one_turn-turn

abbrev sample_store : Store
sample_store = record { blob_store = no_blobs; turn_store = one_turn; fs_roots = one_root }

abbrev zeros_meta : TurnMeta
zeros_meta = record meta_one { uncompressed_len = 4; compression = 1 }

zeros_checked : check_payload zeros_meta (hash zeros) [] ≡ ok zeros
unfolding check_payload hash unpack
zeros_checked = refl

get_last-append_turn_payload_example :
    (r : TurnRecord) × ((append_turn 9 1 0 zeros_meta (hash zeros) [] sample_store).0 ≡ ok r)
    × (get_last 1 1 true ((append_turn 9 1 0 zeros_meta (hash zeros) [] sample_store).1)
        ≡ ok (record { turn = r; meta = zeros_meta; payload = some zeros } ∷ []))
get_last-append_turn_payload_example =
    get_last-append_turn_payload 9 1 zeros_meta (hash zeros) [] zeros head_one sample_store
      one_turn-WellFormed one_turn-head zeros_checked
      (inl (no_entry (hash zeros), sample_crates.blake3-IsHash zeros, omega arith, omega arith))

abbrev loaded : Loaded
loaded = record { turn = turn_one; meta = meta_one; payload = 1 ∷ 2 ∷ 3 ∷ [] }

parse_turn_records-encode_get_last_resp_example :
    parse_turn_records (encode_get_last_resp (map item_of (loaded ∷ [])))
    ≡ done (map view_of (loaded ∷ []))
parse_turn_records-encode_get_last_resp_example =
    parse_turn_records-encode_get_last_resp (loaded ∷ [])
      ((turn_one-IsTurnRecord, meta_one-IsTurnMeta, omega arith), tt) (omega arith)

handle-append_turn-get_last_example :
    (r : TurnRecord) × (s' : Store) × (handle 3 9 MsgType.append_turn 0
        (append_turn_with_fs_payload request none)
        sample_store
      ≡ (reply MsgType.append_turn (encode_append_ack 1 r.turn_id r.depth r.payload_hash), s'))
    × (handle 3 9 MsgType.get_last 0 (get_last_payload 1 1 true) s' ≡ (
      reply MsgType.get_last (
          encode_get_last_resp (
            record { turn = r; meta = meta_of (received request none); payload = some zeros }
            ∷ [])),
      s',
    ))
handle-append_turn-get_last_example =
    handle-append_turn-get_last 3 9 request head_one sample_store request-IsAppendRequest refl refl
      one_turn-WellFormed one_turn-head (inl (no_entry (hash zeros), omega arith))

handle_refused_example : (handle 3 9 MsgType.get_before 0 [] sample_store).1 ≡ sample_store
unfolding handle
handle_refused_example =
    handle_refused 3 9 MsgType.get_before 0 [] sample_store (invalid_input "unknown msg_type") refl
