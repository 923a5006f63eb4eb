-- ===== src/Protocol/Frames.antt =====
-- `read_frame` and `write_frame` of server/src/protocol/mod.rs against each other.
use cxdb.Prelude.{ℕ, ◌<◌, ◌≤◌, ◌≡◌, refl, true, false, ◌++◌, length, append_assoc, arith, leb}
use native.Mathlib.Nat.{mod-eq_of_lt}
use cxdb.Prelude.Result.{ok, err, invalid_input}
use cxdb.Wire.{Bytes, Crates, IsU16, IsU32, IsU64, put_u32}
use cxdb.Wire.Reads.{read_uint-put_le, read_exact-append}
use cxdb.Protocol.{max_frame_size, read_frame, write_frame}

module _ ⦃x : Crates⦄ where
  -- A frame whose payload is not over the maximum is read back, with what follows it left over.
  pub read_frame-write_frame :
      (msg_type flags req_id : ℕ) (payload rest : Bytes)
      → IsU16 msg_type
      → IsU16 flags
      → IsU64 req_id
      → length payload ≤ max_frame_size
      → read_frame (write_frame msg_type flags req_id payload ++ rest)
        ≡ ok (
          (
            record { len = length payload; msg_type = msg_type; flags = flags; req_id = req_id },
            payload,
          ),
          rest,
        )
  unfolding read_frame write_frame
  read_frame-write_frame msg_type flags req_id payload rest ht hf hr small =
      let typed : IsU32 (length payload) = omega arith in
      let allowed : leb (length payload) max_frame_size ≡ true = ground arith in
      simp
        (
          append_assoc, read_uint-put_le, read_exact-append, mod-eq_of_lt, ht, hf, hr, typed,
          allowed,
        )
        refl

  -- The length is looked at first: a frame that announces more than the maximum is refused whatever
  -- follows, and no payload is read.
  pub read_frame_oversized :
      (len : ℕ) (rest : Bytes)
      → IsU32 len
      → max_frame_size < len
      → read_frame (put_u32 len ++ rest) ≡ err (invalid_input "frame size {} exceeds maximum {}")
  unfolding read_frame
  read_frame_oversized len rest h over =
      let refused : leb len max_frame_size ≡ false = ground arith in
      simp (read_uint-put_le, h, refused)
