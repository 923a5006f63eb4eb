-- ===== src/Store/Append.antt =====
-- What a client gets back of a turn that `Store::append_turn` took (server/src/store.rs).
use cxdb.Prelude.{ℕ, ◌+◌, ◌≡◌, true, none, some, [], ◌∷◌, ◌⊎◌, length, nat_eq, bytes_eq, inl, inr}
use cxdb.Prelude.Dict
use cxdb.Prelude.Result.{ok}
use cxdb.Wire.{Bytes, Crates, IsHash, IsU32, IsU64}
use cxdb.Turns.{TurnRecord, TurnMeta, ContextHead}
use cxdb.Turns.Store.{TurnStore}
use cxdb.Turns.Ops
use cxdb.Turns.Ops.WellFormed.{WellFormed}
use cxdb.Turns.Ops.Append.{get_last-append_turn}
use cxdb.BlobStore.{BlobStore}
use cxdb.BlobStore.Ops.{put_if_absent, get_blob}
use cxdb.BlobStore.Ops.Puts.{put_if_absent_again}
use cxdb.BlobStore.Ops.RoundTrip.{get_blob-put_if_absent}
use cxdb.Store.{Store, check_payload, append_turn, load_turns, get_last}

module _ ⦃x : Crates⦄ where
  -- After `put_if_absent`, the store gives the blob, where it gave it before or had none.
  blob_there :
      (hash raw : Bytes) (s : BlobStore)
      → ((Dict.get hash s.index ≡ none)
          × IsHash hash
          × IsU32 (length raw)
          × IsU64 (length s.pack + 48))
        ⊎ (get_blob hash s ≡ ok raw)
      → get_blob hash ((put_if_absent hash raw s).1) ≡ ok raw
  blob_there hash raw s (inl (missing, hh, hr, ho)) =
      get_blob-put_if_absent hash raw s missing hh hr ho
  blob_there hash raw s (inr there) = rw (put_if_absent_again hash raw raw s there) there

  get_last_none :
      (context_id : ℕ) (h : ContextHead) (s : TurnStore)
      → Dict.get context_id s.heads ≡ some h
      → Ops.get_last context_id 0 s ≡ ok []
  unfolding Ops.get_last
  get_last_none context_id h s known = rw known

  -- Over a well-formed turn store, where the store already gives the decompressed payload for its
  -- hash, or has no blob under the hash and room for a new one: a turn appended to an existing
  -- context with no parent named and a payload that passes the checks is the context's last turn,
  -- and its decompressed payload comes back with it.
  pub get_last-append_turn_payload :
      (now context_id : ℕ) (m : TurnMeta) (hash payload raw : Bytes) (h : ContextHead) (s : Store)
      → WellFormed s.turn_store
      → Dict.get context_id s.turn_store.heads ≡ some h
      → check_payload m hash payload ≡ ok raw
      → ((Dict.get hash s.blob_store.index ≡ none)
          × IsHash hash
          × IsU32 (length raw)
          × IsU64 (length s.blob_store.pack + 48))
        ⊎ (get_blob hash s.blob_store ≡ ok raw)
      → (r : TurnRecord) × ((append_turn now context_id 0 m hash payload s).0 ≡ ok r)
        × (get_last context_id 1 true ((append_turn now context_id 0 m hash payload s).1)
            ≡ ok (record { turn = r; meta = m; payload = some raw } ∷ []))
  unfolding append_turn get_last load_turns
  get_last-append_turn_payload now context_id m hash payload raw h s w known checked blob =
      let (r, older, appended, before, after, hashed, meta) =
        get_last-append_turn w now context_id hash m 0 h known in
      let none_before = get_last_none context_id h s.turn_store known in
      let e : older ≡ [] = cc in
      let there = blob_there hash raw s.blob_store blob in
      (r, rw checked appended, rw checked (rw after (rw e (rw (meta, hashed) (rw there)))))
