-- ===== src/Turns/Ops/Runs.antt =====
-- Sequences of operations on a `TurnStore` that starts from empty files, and what a restart finds.
use cxdb.Prelude.{ℕ, ◌+◌, ◌^◌, ◌<◌, ◌≤◌, ◌≡◌, refl, inl, inr, some, List, [], ◌∷◌, arith, nat_eq}
use cxdb.Prelude.Dict
use cxdb.Prelude.Result.{ok, Result-cases}
use cxdb.Wire.{Bytes, Crates, IsU32, IsU64, IsHash}
use cxdb.Turns.{TurnMeta, ContextHead, IsTurnMeta}
use cxdb.Turns.Store.{TurnStore, rebuild_index, open_disk}
use cxdb.Turns.Ops.{attempt, base_turn, parent_turn, create_context, append_turn}
use cxdb.Turns.Ops.WellFormed.{
  WellFormed, Stands, base_turn-Stands, parent_turn-Hangs, depth_bound, create_context-WellFormed,
  append_turn-WellFormed,
}
use cxdb.Turns.Ops.Durable.{Durable, commit_context-Durable, commit_turn-Durable, open_disk-Durable}

-- A call with the clock's value and the arguments of `create_context` or `append_turn`.
pub data Op : Type 0 where
  create : ℕ → ℕ → Op
  append : ℕ → ℕ → ℕ → Bytes → TurnMeta → Op

module _ ⦃x : Crates⦄ where
  abbrev pub step : Op → TurnStore → TurnStore
  step (create now base_turn_id) s = (create_context now base_turn_id s).1
  step (append now context_id parent_turn_id payload_hash m) s =
      (append_turn now context_id parent_turn_id payload_hash m s).1

  abbrev pub run : List Op → TurnStore → TurnStore
  run [] s = s
  run (op ∷ ops) s = run ops (step op s)

  -- The arguments have their Rust types, an append is to a context that exists, and the counters
  -- have not reached the end of their range: depths are 32 bits wide.
  abbrev pub Admissible : Op → TurnStore → Type 0
  Admissible (create now base_turn_id) s =
      IsU64 now × (s.next_context_id + 1 < 2 ^ 64) × (s.next_turn_id ≤ 2 ^ 32)
  Admissible (append now context_id parent_turn_id payload_hash m) s =
      IsU64 now
      × IsU64 context_id
      × IsHash payload_hash
      × IsTurnMeta m
      × (s.next_turn_id < 2 ^ 32)
      × ((h : ContextHead) × (Dict.get context_id s.heads ≡ some h))

  abbrev pub AllAdmissible : List Op → TurnStore → Type 0
  AllAdmissible [] s = Unit {0}
  AllAdmissible (op ∷ ops) s = Admissible op s × AllAdmissible ops (step op s)

  pub record Sound (s : TurnStore) : Type 0 where
    pub well_formed : WellFormed s
    pub durable : Durable s

  Stands-typed :
      {s : TurnStore} (id depth : ℕ)
      → WellFormed s
      → s.next_turn_id ≤ 2 ^ 32
      → Stands s.turns id depth
      → IsU64 id × IsU32 depth
  Stands-typed id depth w room (inl (z, first)) = omega arith
  Stands-typed id depth w room (inr (r, found, e)) =
      let ok_r = w.turn id r found in
      (omega (arith, ok_r.below), omega (arith, ok_r.below, ok_r.depth_below))

  create-Sound :
      {s : TurnStore} (now base_turn_id : ℕ)
      → Sound s
      → Admissible (create now base_turn_id) s
      → Sound (create_context now base_turn_id s).1
  create-Sound {s} now base_turn_id h (clock, room, small) = record {
    well_formed = create_context-WellFormed now base_turn_id h.well_formed;
    durable =
        unfold create_context in
        elim (Result-cases (base_turn base_turn_id s)) [
          | inl ((id, depth), e) ↦
              let typed =
                Stands-typed id depth h.well_formed small
                  (base_turn-Stands base_turn_id id depth h.well_formed e) in
              rw (e, attempt)
                (commit_context-Durable now (id, depth) h.durable
                  (record {
                    context_id = omega arith;
                    head_turn_id = typed.0;
                    head_depth = typed.1;
                    created_at_unix_ms = clock;
                    flags = omega arith;
                  })
                  room)
          | inr (inl (t, e)) ↦ rw (e, attempt) h.durable
          | inr (inr e) ↦ rw (e, attempt) h.durable
        ];
  }

  append-Sound :
      {s : TurnStore} (now context_id parent_turn_id : ℕ) (payload_hash : Bytes) (m : TurnMeta)
      → Sound s
      → Admissible (append now context_id parent_turn_id payload_hash m) s
      → Sound (append_turn now context_id parent_turn_id payload_hash m s).1
  append-Sound {s} now context_id parent_turn_id payload_hash m h
        (clock, ctx, hash, meta, fits, (head, known)) =
      record {
        well_formed =
            append_turn-WellFormed now context_id parent_turn_id payload_hash m h.well_formed fits;
        durable =
            unfold append_turn in
            elim (Result-cases (parent_turn context_id parent_turn_id s)) [
              | inl ((id, depth), e) ↦
                  let (below, hangs) =
                    parent_turn-Hangs context_id parent_turn_id id depth h.well_formed fits e in
                  let deep = depth_bound id depth h.well_formed below hangs in
                  rw (e, attempt)
                    (commit_turn-Durable now context_id payload_hash m (id, depth) head h.durable
                      known
                      (record {
                        turn_id = omega arith;
                        parent_turn_id = omega arith;
                        depth = omega arith;
                        codec = meta.encoding;
                        type_tag = omega arith;
                        payload_hash = hash;
                        flags = omega arith;
                        created_at_unix_ms = clock;
                      })
                      meta
                      (record {
                        context_id = ctx;
                        head_turn_id = omega arith;
                        head_depth = omega arith;
                        created_at_unix_ms = clock;
                        flags = omega arith;
                      })
                      (omega arith))
              | inr (inl (t, e)) ↦ rw (e, attempt) h.durable
              | inr (inr e) ↦ rw (e, attempt) h.durable
            ];
      }

  step-Sound : (op : Op) {s : TurnStore} → Sound s → Admissible op s → Sound (step op s)
  step-Sound (create now base_turn_id) h ok_op = create-Sound now base_turn_id h ok_op
  step-Sound (append now context_id parent_turn_id payload_hash m) h ok_op =
      append-Sound now context_id parent_turn_id payload_hash m h ok_op

  pub run-Sound :
      (ops : List Op) {s : TurnStore} → Sound s → AllAdmissible ops s → Sound (run ops s)
  run-Sound [] h all_ok = h
  run-Sound (op ∷ ops) h (ok_op, all_ok) = run-Sound ops (step-Sound op h ok_op) all_ok

-- The store that `open` makes of empty files.
abbrev pub new_store : TurnStore
new_store = record {
  disk = record { turns_log = []; turns_idx = []; turns_meta = []; heads_tbl = [] };
  turns = [];
  turn_index = [];
  turn_meta = [];
  heads = [];
  next_turn_id = 1;
  next_context_id = 1;
}

module _ ⦃x : Crates⦄ where
  new_store-Sound : Sound new_store
  unfolding Dict.get
  new_store-Sound = record {
    well_formed = record {
      next_positive = omega arith;
      turn = λ k r found. cc;
      head = λ k h found. cc;
      meta = λ k r found. cc;
    };
    durable = record {
      written_turns = [];
      written_metas = [];
      written_heads = [];
      turns_typed = tt;
      metas_typed = tt;
      heads_typed = tt;
      log_file = refl;
      meta_file = refl;
      head_file = refl;
      turns = refl;
      index = refl;
      metas = refl;
      heads = refl;
      turn_counter = record { at = refl; below = λ k v found. cc };
      context_counter = record { at = refl; below = λ k v found. cc };
    };
  }

  -- After any sequence of admissible operations on a new store, some of which may have failed, opening
  -- the files gives the store back: all turns, heads, metadata, offsets and counters. Only turns.idx
  -- is written anew.
  pub open_disk-run :
      (ops : List Op)
      → AllAdmissible ops new_store
      → open_disk (run ops new_store).disk ≡ ok (rebuild_index (run ops new_store))
  open_disk-run ops all_ok =
      open_disk-Durable (run ops new_store) (run-Sound ops new_store-Sound all_ok).durable

  -- After any sequence of admissible operations on a new store the tables are well formed.
  pub run-WellFormed :
      (ops : List Op) → AllAdmissible ops new_store → WellFormed (run ops new_store)
  run-WellFormed ops all_ok = (run-Sound ops new_store-Sound all_ok).well_formed
