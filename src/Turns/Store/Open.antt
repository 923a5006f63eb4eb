-- ===== src/Turns/Store/Open.antt =====
-- Opening the four files of `TurnStore` (`open` of server/src/turn_store/mod.rs).
use cxdb.Prelude.{
  ℕ, ◌+◌, ◌<◌, ◌≤◌, ◌≡◌, refl, Option, none, some, List, [], ◌∷◌, ◌++◌, length, All, arith, ◌==◌,
  nat_eq, leb, if◌then◌else◌, Option-cases, Bool-cases, inl, inr, ◌%◌, ◌^◌,
}
use cxdb.Prelude.Dict
use cxdb.Prelude.Dict.{Dict}
use cxdb.Prelude.Result.{ok}
use cxdb.Wire.{Bytes, Crates}
use cxdb.Turns.{TurnRecord, TurnMeta, ContextHead, IsTurnRecord, IsContextHead}
use cxdb.Turns.Store.{Disk, TurnStore, max_key, counter, rebuild_index, open_disk}
use cxdb.Turns.Store.Replay.{replay_turns, replay_index, encode_turns, load_turns-encode_turns}
use cxdb.Turns.Store.Heads.{replay_heads, encode_heads, heads_kept, load_heads-encode_heads}
use cxdb.Turns.Store.Metas.{replay_metas, IsMetaEntry, encode_metas, load_meta-encode_metas}

join_max : ℕ → Option ℕ → ℕ
join_max k none = k
join_max k (some j) = if leb k j then j else k

module _ {ℓ} {V : Type ℓ} where
  max_key-insert :
      (k : ℕ) (v : V) (m : Dict ℕ V) → max_key (Dict.insert k v m) ≡ some (join_max k (max_key m))
  unfolding join_max Dict.insert
  max_key-insert k v [] = refl
  max_key-insert k v ((i, w) ∷ m) = ground (arith, max_key-insert k v m)

  max_key_cons :
      (i : ℕ) (w : V) (m : Dict ℕ V) → max_key ((i, w) ∷ m) ≡ some (join_max i (max_key m))
  unfolding join_max
  max_key_cons i w m = ground arith

  max_key_bound :
      (k : ℕ) (v : V) (m : Dict ℕ V)
      → Dict.get k m ≡ some v
      → (j : ℕ) × (max_key m ≡ some j) × (k ≤ j)
  unfolding Dict.get join_max
  max_key_bound k v [] found = absurd (ground arith)
  max_key_bound k v ((i, w) ∷ m) found = elim (Bool-cases (i == k)) [
    | inl here ↦ (join_max i (max_key m), max_key_cons i w m, ground arith)
    | inr further ↦
        let (j, e, le) = max_key_bound k v m (ground arith) in
        (join_max i (max_key m), max_key_cons i w m, ground arith)
  ]

  max_key_is_key : (j : ℕ) (m : Dict ℕ V) → max_key m ≡ some j → (v : V) × (Dict.get j m ≡ some v)
  unfolding Dict.get
  max_key_is_key j [] e = absurd (ground arith)
  max_key_is_key j ((i, w) ∷ m) e = elim (Bool-cases (i == j)) [
    | inl here ↦ (w, ground arith)
    | inr further ↦ let (v, found) = max_key_is_key j m (ground arith) in (v, ground arith)
  ]

  -- All keys are below `n`, and `n` is what the counter of `open` comes out at.
  pub record Counts (m : Dict ℕ V) (n : ℕ) : Type ℓ where
    pub at : counter (max_key m) 1 ≡ n
    pub below : (k : ℕ) (v : V) → Dict.get k m ≡ some v → k < n

  pub Counts-insert_next :
      (m : Dict ℕ V) (n : ℕ) (v : V)
      → Counts m n
      → n + 1 < 2 ^ 64
      → Counts (Dict.insert n v m) ((n + 1) % 2 ^ 64)
  unfolding join_max
  Counts-insert_next m n v c fits = record {
    at = elim (Option-cases (max_key m)) [
      | inl empty ↦ rw (max_key-insert n v m) (rw empty)
      | inr (j, e) ↦
          let (u, found) = max_key_is_key j m e in
          let lt : j < n = c.below j u found in rw (max_key-insert n v m) (rw e (ground arith))
    ];
    below = λ k u found. elim (Dict.get-insert_cases n k v u m found) [
      | inl (same, new) ↦ omega arith
      | inr (other, old) ↦ omega (arith, c.below k u old)
    ];
  }

  pub Counts-insert_old :
      (m : Dict ℕ V) (n k : ℕ) (v w : V)
      → Counts m n
      → Dict.get k m ≡ some w
      → Counts (Dict.insert k v m) n
  unfolding join_max
  Counts-insert_old m n k v w c found =
      let (j, e, le) = max_key_bound k w m found in
      record {
        at = rw (max_key-insert k v m) (rw e (ground (arith, c.at)));
        below = λ i u at_i. elim (Dict.get-insert_cases k i v u m at_i) [
          | inl (same, new) ↦ omega (arith, c.below k w found)
          | inr (other, old) ↦ c.below i u old
        ];
      }

module _ ⦃x : Crates⦄ where
  -- What `open` makes of the records `rs`, `ms` and `hs`, with the counters at `n` and `c`.
  abbrev pub recovered :
      Disk → List TurnRecord → List (ℕ × TurnMeta) → List ContextHead → Bytes → ℕ → ℕ → TurnStore
  recovered disk rs ms hs torn_head n c = record {
    disk = record disk { turns_log = encode_turns rs; heads_tbl = heads_kept hs torn_head };
    turns = replay_turns rs [];
    turn_index = replay_index 0 rs [];
    turn_meta = replay_metas ms [];
    heads = replay_heads hs [];
    next_turn_id = n;
    next_context_id = c;
  }

  -- `open` on files that hold whole records, with what a crash may have left behind them.
  pub open_disk-replay :
      (disk : Disk) (rs : List TurnRecord) (ms : List (ℕ × TurnMeta)) (hs : List ContextHead)
      (torn torn_meta torn_head : Bytes) (n c : ℕ)
      → All IsTurnRecord rs
      → All IsMetaEntry ms
      → All IsContextHead hs
      → length torn < 80
      → length torn_meta < 8
      → length torn_head < 36
      → disk.turns_log ≡ encode_turns rs ++ torn
      → disk.turns_meta ≡ encode_metas ms ++ torn_meta
      → disk.heads_tbl ≡ encode_heads hs ++ torn_head
      → Counts (replay_turns rs []) n
      → Counts (replay_heads hs []) c
      → open_disk disk ≡ ok (rebuild_index (recovered disk rs ms hs torn_head n c))
  unfolding open_disk
  open_disk-replay disk rs ms hs torn torn_meta torn_head n c hr hm hh st sm sh er em eh cr ch =
      let s₀ : TurnStore = record {
        disk = disk;
        turns = [];
        turn_index = [];
        turn_meta = [];
        heads = [];
        next_turn_id = 1;
        next_context_id = 1;
      } in
      let s₁ : TurnStore = record s₀ {
        disk = record disk { turns_log = encode_turns rs };
        turns = replay_turns rs [];
        turn_index = replay_index 0 rs [];
      } in
      let s₂ : TurnStore = record s₁ { turn_meta = replay_metas ms [] } in
      rw (load_turns-encode_turns s₀ rs torn hr st er) (
        rw (load_meta-encode_metas s₁ ms torn_meta hm sm em) (
          rw (load_heads-encode_heads s₂ hs torn_head hh sh eh)
            (λ i. ok (rebuild_index (recovered disk rs ms hs torn_head (cr.at i) (ch.at i))))))
