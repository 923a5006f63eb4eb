-- ===== src/Server/Refusals.antt =====
-- What an ERROR frame of `handle_client` (server/src/main.rs) says of the store.
use cxdb.Prelude.{ℕ, ◌≡◌, refl, Bool, true, false, nat_eq, bytes_eq, if◌then◌else◌}
use cxdb.Prelude.Result.{Result, ok, err, stuck, StoreError}
use cxdb.Wire.{Bytes, Crates}
use cxdb.Store.{Store}
use cxdb.Protocol.{MsgType}
use cxdb.Server.{
  Answer, reply, refuse, or_close, or_refuse, handle, handle_append_turn, handle_put_blob,
}

-- Where the answer is an ERROR frame, the store is `s`.
record Kept (s : Store) (out : Answer × Store) : Type 0 where
  kept : (e : StoreError) → out.0 ≡ refuse e → out.1 ≡ s

Kept-reply : (s s' : Store) (msg_type : MsgType) (resp : Bytes) → Kept s (reply msg_type resp, s')
Kept-reply s s' msg_type resp = record { kept = λ e h. cc }

Kept-or_close {ℓ} :
    {A : Type ℓ} (s s' : Store) (r : Result A) (k : A → Answer × Store)
    → ((a : A) → Kept s (k a))
    → Kept s (or_close r s' k)
unfolding or_close
Kept-or_close s s' (ok a) k hk = hk a
Kept-or_close s s' (err t) k hk = record { kept = λ e h. cc }
Kept-or_close s s' stuck k hk = record { kept = λ e h. cc }

Kept-or_refuse {ℓ} :
    {A : Type ℓ} (s : Store) (r : Result A) (k : A → Answer × Store)
    → ((a : A) → Kept s (k a))
    → Kept s (or_refuse r s k)
unfolding or_refuse
Kept-or_refuse s (ok a) k hk = hk a
Kept-or_refuse s (err t) k hk = record { kept = λ e h. refl }
Kept-or_refuse s stuck k hk = record { kept = λ e h. cc }

Kept-if :
    (s s' : Store) (test : Bool) (msg_type : MsgType) (resp : Bytes) (t : StoreError)
    → Kept s (if test then (reply msg_type resp, s') else (refuse t, s))
Kept-if s s' true msg_type resp t = record { kept = λ e h. cc }
Kept-if s s' false msg_type resp t = record { kept = λ e h. refl }

module _ ⦃x : Crates⦄ where
  handle-Kept :
      (session_id now : ℕ) (msg_type : MsgType) (flags : ℕ) (payload : Bytes) (s : Store)
      → Kept s (handle session_id now msg_type flags payload s)
  unfolding handle handle_append_turn handle_put_blob
  handle-Kept session_id now MsgType.hello flags payload s =
      Kept-or_close s _ _ _ λ a. Kept-reply s _ _ _
  handle-Kept session_id now MsgType.ctx_create flags payload s =
      Kept-or_close s _ _ _ λ a. Kept-or_close s _ _ _ λ b. Kept-reply s _ _ _
  handle-Kept session_id now MsgType.ctx_fork flags payload s =
      Kept-or_close s _ _ _ λ a. Kept-or_close s _ _ _ λ b. Kept-reply s _ _ _
  handle-Kept session_id now MsgType.get_head flags payload s =
      Kept-or_close s _ _ _ λ a. Kept-or_refuse s _ _ λ b. Kept-reply s _ _ _
  handle-Kept session_id now MsgType.append_turn flags payload s =
      Kept-or_close s _ _ _
        λ a. Kept-or_close s _ _ _ λ b. Kept-or_close s _ _ _ λ c. Kept-reply s _ _ _
  handle-Kept session_id now MsgType.attach_fs flags payload s =
      Kept-or_close s _ _ _ λ a. Kept-or_close s _ _ _ λ b. Kept-reply s _ _ _
  handle-Kept session_id now MsgType.put_blob flags payload s =
      Kept-or_close s _ _ _ λ a. Kept-if s _ _ _ _ _
  handle-Kept session_id now MsgType.get_last flags payload s =
      Kept-or_close s _ _ _ λ a. Kept-or_close s _ _ _ λ b. Kept-reply s _ _ _
  handle-Kept session_id now MsgType.get_blob flags payload s =
      Kept-or_close s _ _ _ λ a. Kept-or_refuse s _ _ λ b. Kept-reply s _ _ _
  handle-Kept session_id now MsgType.get_before flags payload s = record { kept = λ e h. refl }
  handle-Kept session_id now MsgType.get_range_by_depth flags payload s = record {
    kept = λ e h. refl;
  }
  handle-Kept session_id now MsgType.error flags payload s = record { kept = λ e h. refl }

  -- Whatever the request, and whatever its bytes: where the answer is an ERROR frame, the store is
  -- as it was before.
  pub handle_refused :
      (session_id now : ℕ) (msg_type : MsgType) (flags : ℕ) (payload : Bytes) (s : Store)
      (e : StoreError)
      → (handle session_id now msg_type flags payload s).0 ≡ refuse e
      → (handle session_id now msg_type flags payload s).1 ≡ s
  handle_refused session_id now msg_type flags payload s e h =
      (handle-Kept session_id now msg_type flags payload s).kept e h
