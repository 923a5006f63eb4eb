-- ===== src/Turns/Ops/Durable.antt =====
-- What the operations of `TurnStore` write is what `open` reads: the tables in memory are the
-- replay of the files, whatever operations ran.
use cxdb.Prelude.{
  ℕ, ◌+◌, ◌*◌, ◌^◌, ◌<◌, ◌≡◌, ◌∙◌, refl, sym, ap, some, List, [], ◌∷◌, ◌++◌, length, All,
  All-append, append-nil, append_assoc, arith, nat_eq,
}
use cxdb.Prelude.Dict
use cxdb.Prelude.Dict.{Dict}
use cxdb.Prelude.Result.{ok}
use cxdb.Wire.{Bytes, Crates}
use cxdb.Turns.{TurnRecord, TurnMeta, ContextHead, IsTurnRecord, IsTurnMeta, IsContextHead}
use cxdb.Turns.Codec.{encode_turn_record, encode_meta, encode_head}
use cxdb.Turns.Store.{TurnStore, rebuild_index, open_disk}
use cxdb.Turns.Store.Replay.{replay_turns, replay_index, encode_turns, length-encode_turns}
use cxdb.Turns.Store.Heads.{replay_heads, encode_heads}
use cxdb.Turns.Store.Metas.{replay_metas, IsMetaEntry, encode_metas}
use cxdb.Turns.Store.Open.{
  Counts, Counts-insert_next, Counts-insert_old, open_disk-replay, recovered,
}
use cxdb.Turns.Ops.{new_head, commit_context, new_turn, head_of, commit_turn}

replay_turns-snoc :
    (rs : List TurnRecord) (r : TurnRecord) (turns : Dict ℕ TurnRecord)
    → replay_turns (rs ++ (r ∷ [])) turns ≡ Dict.insert r.turn_id r (replay_turns rs turns)
replay_turns-snoc [] r turns = refl
replay_turns-snoc (q ∷ rs) r turns = replay_turns-snoc rs r (Dict.insert q.turn_id q turns)

replay_index-snoc :
    (offset : ℕ) (rs : List TurnRecord) (r : TurnRecord) (index : Dict ℕ ℕ)
    → replay_index offset (rs ++ (r ∷ [])) index
      ≡ Dict.insert r.turn_id (offset + 80 * length rs) (replay_index offset rs index)
replay_index-snoc offset [] r index = ap (λ o. Dict.insert r.turn_id o index) (omega arith)
replay_index-snoc offset (q ∷ rs) r index =
    replay_index-snoc (offset + 80) rs r (Dict.insert q.turn_id offset index)
    ∙ ap
        (λ o.
          Dict.insert r.turn_id o
            (replay_index (offset + 80) rs (Dict.insert q.turn_id offset index)))
        (omega arith)

replay_metas-snoc :
    (ms : List (ℕ × TurnMeta)) (id : ℕ) (m : TurnMeta) (metas : Dict ℕ TurnMeta)
    → replay_metas (ms ++ ((id, m) ∷ [])) metas ≡ Dict.insert id m (replay_metas ms metas)
replay_metas-snoc [] id m metas = refl
replay_metas-snoc ((i, n) ∷ ms) id m metas = replay_metas-snoc ms id m (Dict.insert i n metas)

replay_heads-snoc :
    (hs : List ContextHead) (h : ContextHead) (heads : Dict ℕ ContextHead)
    → replay_heads (hs ++ (h ∷ [])) heads ≡ Dict.insert h.context_id h (replay_heads hs heads)
replay_heads-snoc [] h heads = refl
replay_heads-snoc (g ∷ hs) h heads = replay_heads-snoc hs h (Dict.insert g.context_id g heads)

module _ ⦃x : Crates⦄ where
  encode_turns-snoc :
      (rs : List TurnRecord) (r : TurnRecord)
      → encode_turns (rs ++ (r ∷ [])) ≡ encode_turns rs ++ encode_turn_record r
  encode_turns-snoc [] r = append-nil _
  encode_turns-snoc (q ∷ rs) r = simp (encode_turns-snoc rs r, append_assoc)

  encode_metas-snoc :
      (ms : List (ℕ × TurnMeta)) (id : ℕ) (m : TurnMeta)
      → encode_metas (ms ++ ((id, m) ∷ [])) ≡ encode_metas ms ++ encode_meta id m
  encode_metas-snoc [] id m = append-nil _
  encode_metas-snoc ((i, n) ∷ ms) id m = simp (encode_metas-snoc ms id m, append_assoc)

  encode_heads-snoc :
      (hs : List ContextHead) (h : ContextHead)
      → encode_heads (hs ++ (h ∷ [])) ≡ encode_heads hs ++ encode_head h
  encode_heads-snoc [] h = append-nil _
  encode_heads-snoc (g ∷ hs) h = simp (encode_heads-snoc hs h, append_assoc)

  -- The files hold whole records, the tables are their replay, and the counters are those of `open`.
  pub record Durable (s : TurnStore) : Type 0 where
    pub written_turns : List TurnRecord
    pub written_metas : List (ℕ × TurnMeta)
    pub written_heads : List ContextHead
    pub turns_typed : All IsTurnRecord written_turns
    pub metas_typed : All IsMetaEntry written_metas
    pub heads_typed : All IsContextHead written_heads
    pub log_file : s.turns_log ≡ encode_turns written_turns
    pub meta_file : s.turns_meta ≡ encode_metas written_metas
    pub head_file : s.heads_tbl ≡ encode_heads written_heads
    pub turns : s.turns ≡ replay_turns written_turns []
    pub index : s.turn_index ≡ replay_index 0 written_turns []
    pub metas : s.turn_meta ≡ replay_metas written_metas []
    pub heads : s.heads ≡ replay_heads written_heads []
    pub turn_counter : Counts s.turns s.next_turn_id
    pub context_counter : Counts s.heads s.next_context_id

  pub commit_context-Durable :
      {s : TurnStore} (now : ℕ) (base : ℕ × ℕ)
      → Durable s
      → IsContextHead (new_head now base s)
      → s.next_context_id + 1 < 2 ^ 64
      → Durable (commit_context now s base).1
  unfolding commit_context
  commit_context-Durable {s} now base d typed fits =
      let h = new_head now base s in
      record {
        written_turns = d.written_turns;
        written_metas = d.written_metas;
        written_heads = d.written_heads ++ (h ∷ []);
        turns_typed = d.turns_typed;
        metas_typed = d.metas_typed;
        heads_typed = All-append IsContextHead d.written_heads (h ∷ []) d.heads_typed (typed, tt);
        log_file = d.log_file;
        meta_file = d.meta_file;
        head_file = rw (encode_heads-snoc, d.head_file);
        turns = d.turns;
        index = d.index;
        metas = d.metas;
        heads = rw (replay_heads-snoc, d.heads);
        turn_counter = d.turn_counter;
        context_counter = Counts-insert_next s.heads s.next_context_id h d.context_counter fits;
      }

  pub commit_turn-Durable :
      {s : TurnStore} (now context_id : ℕ) (payload_hash : Bytes) (m : TurnMeta) (parent : ℕ × ℕ)
      (h : ContextHead)
      → Durable s
      → Dict.get context_id s.heads ≡ some h
      → IsTurnRecord (new_turn now parent payload_hash m s)
      → IsTurnMeta m
      → IsContextHead (head_of context_id (new_turn now parent payload_hash m s))
      → s.next_turn_id + 1 < 2 ^ 64
      → Durable (commit_turn now context_id payload_hash m s parent).1
  unfolding commit_turn
  commit_turn-Durable {s} now context_id payload_hash m parent h d known tr tm th fits =
      let r = new_turn now parent payload_hash m s in
      let head = head_of context_id r in
      record {
        written_turns = d.written_turns ++ (r ∷ []);
        written_metas = d.written_metas ++ ((s.next_turn_id, m) ∷ []);
        written_heads = d.written_heads ++ (head ∷ []);
        turns_typed = All-append IsTurnRecord d.written_turns (r ∷ []) d.turns_typed (tr, tt);
        metas_typed =
            All-append IsMetaEntry d.written_metas ((s.next_turn_id, m) ∷ []) d.metas_typed
              ((tr.turn_id, tm), tt);
        heads_typed = All-append IsContextHead d.written_heads (head ∷ []) d.heads_typed (th, tt);
        log_file = rw (encode_turns-snoc, d.log_file);
        meta_file = rw (encode_metas-snoc, d.meta_file);
        head_file = rw (encode_heads-snoc, d.head_file);
        turns = rw (replay_turns-snoc, d.turns);
        index =
            rw (replay_index-snoc 0 d.written_turns r [], ← d.index)
              (ap (λ o. Dict.insert s.next_turn_id o s.turn_index)
                (omega (
                  arith,
                  ap (λ (b : Bytes). length b) d.log_file,
                  length-encode_turns d.written_turns d.turns_typed,
                )));
        metas = rw (replay_metas-snoc, d.metas);
        heads = rw (replay_heads-snoc, d.heads);
        turn_counter = Counts-insert_next s.turns s.next_turn_id r d.turn_counter fits;
        context_counter =
            Counts-insert_old s.heads s.next_context_id context_id head h d.context_counter known;
      }

  -- Opening the files of the store gives the store back, with turns.idx written anew.
  pub open_disk-Durable : (s : TurnStore) → Durable s → open_disk s.disk ≡ ok (rebuild_index s)
  open_disk-Durable s d =
      let same : recovered s.disk d.written_turns d.written_metas d.written_heads [] s.next_turn_id
            s.next_context_id
          ≡ s =
        λ i. record {
          disk = record {
            turns_log = sym d.log_file i;
            turns_idx = s.turns_idx;
            turns_meta = s.turns_meta;
            heads_tbl = (append-nil (encode_heads d.written_heads) ∙ sym d.head_file) i;
          };
          turns = sym d.turns i;
          turn_index = sym d.index i;
          turn_meta = sym d.metas i;
          heads = sym d.heads i;
          next_turn_id = s.next_turn_id;
          next_context_id = s.next_context_id;
        } in
      open_disk-replay s.disk d.written_turns d.written_metas d.written_heads [] [] []
        s.next_turn_id s.next_context_id d.turns_typed d.metas_typed d.heads_typed (omega arith)
        (omega arith) (omega arith) (d.log_file ∙ sym (append-nil _))
        (d.meta_file ∙ sym (append-nil _)) (d.head_file ∙ sym (append-nil _))
        (rw (← d.turns) d.turn_counter) (rw (← d.heads) d.context_counter)
      ∙ ap (λ t. ok (rebuild_index t)) same
