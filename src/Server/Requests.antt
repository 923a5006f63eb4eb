-- ===== src/Server/Requests.antt =====
-- Requests of the Rust client (clients/rust/src) as `handle_client` (server/src/main.rs) serves
-- them.
use cxdb.Prelude.{
  inl, inr, ℕ, ◌+◌, ◌%◌, ◌^◌, ◌≡◌, refl, true, none, some, [], ◌∷◌, length, arith, nat_eq, bytes_eq,
  ◌==◌, ◌⊎◌,
}
use native.Mathlib.Nat.{mod-eq_of_lt}
use cxdb.Prelude.Dict
use cxdb.Prelude.Result.{ok}
use cxdb.Wire.{Crates, IsHash, IsU32, IsU64}
use cxdb.Turns.{TurnRecord, ContextHead}
use cxdb.Turns.Ops.WellFormed.{WellFormed}
use cxdb.BlobStore.Ops.{get_blob}
use cxdb.Store.{Store, check_payload, append_turn, encode_get_last_resp}
use cxdb.Store.Append.{get_last-append_turn_payload}
use cxdb.Protocol.{MsgType}
use cxdb.Protocol.Responses.{encode_append_ack}
use cxdb.Client.{AppendRequest}
use cxdb.Client.Encode.{append_turn_with_fs_payload, get_last_payload}
use cxdb.Client.Encode.Interop.{
  IsAppendRequest, received, parse_append_turn-payload, parse_get_last-payload,
}
use cxdb.Server.{reply, handle, handle_append_turn, meta_of, or_close}

module _ ⦃x : Crates⦄ where
  -- What the client sends uncompressed passes the server's checks.
  check_payload-received :
      (req : AppendRequest)
      → IsAppendRequest req
      → req.compression ≡ 0
      → check_payload (meta_of (received req none)) (x.blake3 req.payload) req.payload
        ≡ ok req.payload
  unfolding check_payload
  check_payload-received req h plain =
      let same : (x.blake3 req.payload == x.blake3 req.payload) ≡ true =
        ((bytes_eq).eq_iff (x.blake3 req.payload) (x.blake3 req.payload)).1 refl in
      let fits : length req.payload % 2 ^ 32 ≡ length req.payload = mod-eq_of_lt h.payload_len in
      let size : (length req.payload == length req.payload) ≡ true =
        ((nat_eq).eq_iff (length req.payload) (length req.payload)).1 refl in
      rw (plain, fits) (rw (size, same))

  -- A blob that is new and has room, or one that is there, with what the client's types say.
  blob_typed :
      {P Q R : Type 0} (req : AppendRequest)
      → IsAppendRequest req
      → (P × Q) ⊎ R
      → (P × IsHash (x.blake3 req.payload) × IsU32 (length req.payload) × Q) ⊎ R
  blob_typed req h (inl (missing, room)) =
      inl (missing, x.blake3-IsHash req.payload, h.payload_len, room)
  blob_typed req h (inr there) = inr there

  -- Over a well-formed turn store, where the Rust client sends an append of an uncompressed turn
  -- with no parent named, with any idempotency key or none, to a context that exists, and the store
  -- already gives the payload's bytes for their hash, or has no blob under the hash and room for a
  -- new one: the server acknowledges the append, and then answers a GET_LAST of one turn with that
  -- turn and those bytes.
  pub handle-append_turn-get_last :
      (session_id now : ℕ) (req : AppendRequest) (h : ContextHead) (s : Store)
      → IsAppendRequest req
      → req.compression ≡ 0
      → req.parent_turn_id ≡ 0
      → WellFormed s.turn_store
      → Dict.get req.context_id s.turn_store.heads ≡ some h
      → ((Dict.get (x.blake3 req.payload) s.blob_store.index ≡ none)
          × IsU64 (length s.blob_store.pack + 48))
        ⊎ (get_blob (x.blake3 req.payload) s.blob_store ≡ ok req.payload)
      → (r : TurnRecord) × (s' : Store) × (handle session_id now MsgType.append_turn 0
            (append_turn_with_fs_payload req none)
            s
          ≡ (
            reply MsgType.append_turn
                (encode_append_ack req.context_id r.turn_id r.depth r.payload_hash),
            s',
          ))
        × (handle session_id now MsgType.get_last 0 (get_last_payload req.context_id 1 true) s' ≡ (
          reply MsgType.get_last (
              encode_get_last_resp (
                record { turn = r; meta = meta_of (received req none); payload = some req.payload }
                ∷ [])),
          s',
        ))
  unfolding handle handle_append_turn or_close
  handle-append_turn-get_last session_id now req h s typed plain root w known blob =
      let m = meta_of (received req none) in
      let hash = x.blake3 req.payload in
      let (r, appended, shown) =
        get_last-append_turn_payload now req.context_id m hash req.payload req.payload h s w known
          (check_payload-received req typed plain) (blob_typed req typed blob) in
      let s' = (append_turn now req.context_id 0 m hash req.payload s).1 in
      (
        r,
        s',
        rw (parse_append_turn-payload req none typed tt) (rw (root) (rw (appended))),
        rw (parse_get_last-payload req.context_id 1 true typed.context_id (omega arith)) (rw shown),
      )
