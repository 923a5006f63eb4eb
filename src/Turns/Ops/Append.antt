-- ===== src/Turns/Ops/Append.antt =====
-- What `append_turn` and `create_context` of server/src/turn_store/mod.rs do to the histories that
-- `get_last` shows.
use cxdb.Prelude.{
  ℕ, suc, ◌+◌, ◌%◌, ◌^◌, ◌≡◌, ◌≢◌, ◌∙◌, refl, sym, ap, inl, inr, none, some, List, [], ◌∷◌, ◌++◌,
  take, reverse, arith, nat_eq, Option-cases,
}
use mathlib.Core.List.{reverse-append}
use cxdb.Prelude.Dict
use cxdb.Prelude.Dict.{Dict}
use cxdb.Prelude.Result.{ok, err, not_found, Result-cases}
use cxdb.Wire.{Bytes, Crates}
use cxdb.Turns.{TurnRecord, TurnMeta, ContextHead}
use cxdb.Turns.Store.{TurnStore}
use cxdb.Turns.Ops.{
  attempt, base_turn, parent_turn, new_turn, head_of, commit_turn, append_turn, commit_context,
  new_head, fork_context, get_last, get_turn_meta,
}
use cxdb.Turns.Ops.WellFormed.{WellFormed, get_old}
use cxdb.Turns.Ops.History.{Line, get_last-Line_known, Line-of}

Line-old :
    {s : TurnStore} (w : WellFormed s) (v : TurnRecord) (id : ℕ) (rs : List TurnRecord)
    → Line s.turns id rs
    → Line (Dict.insert s.next_turn_id v s.turns) id rs
Line-old w v id [] line = line
Line-old w v id (r ∷ rs) (nz, found, line) =
    (nz, get_old w v id r found, Line-old w v r.parent_turn_id rs line)

-- With no parent named, the parent is the head's turn.
parent_turn_of_head :
    {s : TurnStore} (w : WellFormed s) (context_id : ℕ) (h : ContextHead)
    → Dict.get context_id s.heads ≡ some h
    → (depth : ℕ) × (parent_turn context_id 0 s ≡ ok (h.head_turn_id, depth))
unfolding parent_turn
parent_turn_of_head {s} w context_id h known = elim ((w.head context_id h known).stands) [
  | inl (z, first) ↦ (0, ground arith)
  | inr (p, found, d) ↦
      let ok_p = w.turn h.head_turn_id p found in
      ((p.depth + 1) % 2 ^ 32, ground (arith, ok_p.positive, ok_p.key))
]

base_turn_of_head :
    {s : TurnStore} (w : WellFormed s) (context_id : ℕ) (h : ContextHead)
    → Dict.get context_id s.heads ≡ some h
    → (depth : ℕ) × (base_turn h.head_turn_id s ≡ ok (h.head_turn_id, depth))
unfolding base_turn
base_turn_of_head {s} w context_id h known = elim ((w.head context_id h known).stands) [
  | inl (z, first) ↦ (0, ground arith)
  | inr (r, found, d) ↦
      let ok_r = w.turn h.head_turn_id r found in (r.depth, ground (arith, ok_r.positive, ok_r.key))
]

get_last_missing :
    (s : TurnStore) (context_id limit : ℕ)
    → Dict.get context_id s.heads ≡ none
    → get_last context_id limit s ≡ err (not_found "context")
unfolding get_last
get_last_missing s context_id limit missing = rw missing

module _ ⦃x : Crates⦄ {s : TurnStore} (w : WellFormed s) where
  commit_turn-Line :
      (now context_id : ℕ) (payload_hash : Bytes) (m : TurnMeta) (limit id depth : ℕ)
      (rs : List TurnRecord)
      → Line s.turns id rs
      → get_last context_id (suc limit) (commit_turn now context_id payload_hash m s (id, depth)).1
        ≡ ok (reverse (take limit rs) ++ (new_turn now (id, depth) payload_hash m s ∷ []))
  unfolding commit_turn
  commit_turn-Line now context_id payload_hash m limit id depth rs line =
      let r = new_turn now (id, depth) payload_hash m s in
      get_last-Line_known (commit_turn now context_id payload_hash m s (id, depth)).1 context_id
        (suc limit) (head_of context_id r) (r ∷ rs)
        (Dict.get-insert_self context_id (head_of context_id r) s.heads)
        (
          omega (arith, w.next_positive),
          Dict.get-insert_self s.next_turn_id r s.turns,
          Line-old w r id rs line,
        )
      ∙ ap ok (reverse-append (r ∷ []) (take limit rs))

  -- In a well-formed store, in a context that exists, appending with no parent named succeeds, and what `get_last` then
  -- shows is what it showed before with the new turn behind it, for every limit. The turn has the
  -- payload's hash, and its meta data is stored.
  pub get_last-append_turn :
      (now context_id : ℕ) (payload_hash : Bytes) (m : TurnMeta) (limit : ℕ) (h : ContextHead)
      → Dict.get context_id s.heads ≡ some h
      → (r : TurnRecord) × (older : List TurnRecord) × ((append_turn now context_id 0 payload_hash m
            s).0
          ≡ ok r)
        × (get_last context_id limit s ≡ ok older)
        × (get_last context_id (suc limit) (append_turn now context_id 0 payload_hash m s).1
            ≡ ok (older ++ (r ∷ [])))
        × (r.payload_hash ≡ payload_hash)
        × (get_turn_meta r.turn_id (append_turn now context_id 0 payload_hash m s).1 ≡ ok m)
  unfolding append_turn commit_turn get_turn_meta
  get_last-append_turn now context_id payload_hash m limit h known =
      let (depth, e) = parent_turn_of_head w context_id h known in
      let (rs, line, len) =
        Line-of w h.head_turn_id h.head_depth (w.head context_id h known).stands in
      (
        new_turn now (h.head_turn_id, depth) payload_hash m s,
        reverse (take limit rs),
        rw (e, attempt),
        get_last-Line_known s context_id limit h rs known line,
        rw (e, attempt)
            (commit_turn-Line now context_id payload_hash m limit h.head_turn_id depth rs line),
        refl,
        rw (e, attempt) (rw (Dict.get-insert_self s.next_turn_id m s.turn_meta)),
      )

  commit_turn_others :
      (now context_id other limit : ℕ) (payload_hash : Bytes) (m : TurnMeta) (parent : ℕ × ℕ)
      → context_id ≢ other
      → get_last other limit (commit_turn now context_id payload_hash m s parent).1
        ≡ get_last other limit s
  unfolding commit_turn
  commit_turn_others now context_id other limit payload_hash m parent ne =
      let kept =
        Dict.get-insert_ne context_id other
          (head_of context_id (new_turn now parent payload_hash m s)) s.heads ne in
      elim (Option-cases (Dict.get other s.heads)) [
        | inl missing ↦
            get_last_missing _ other limit (kept ∙ missing)
            ∙ sym (get_last_missing s other limit missing)
        | inr (h, known) ↦
            let (rs, line, len) =
              Line-of w h.head_turn_id h.head_depth (w.head other h known).stands in
            get_last-Line_known _ other limit h rs (kept ∙ known)
              (Line-old w (new_turn now parent payload_hash m s) h.head_turn_id rs line)
            ∙ sym (get_last-Line_known s other limit h rs known line)
      ]

  -- In a well-formed store an append, whether it succeeds or fails, leaves the history of every other context as it was.
  pub get_last-append_turn_ne :
      (now context_id parent_turn_id other limit : ℕ) (payload_hash : Bytes) (m : TurnMeta)
      → context_id ≢ other
      → get_last other limit (append_turn now context_id parent_turn_id payload_hash m s).1
        ≡ get_last other limit s
  unfolding append_turn
  get_last-append_turn_ne now context_id parent_turn_id other limit payload_hash m ne =
      elim (Result-cases (parent_turn context_id parent_turn_id s)) [
        | inl (parent, e) ↦
            rw (e, attempt) (commit_turn_others now context_id other limit payload_hash m parent ne)
        | inr (inl (t, e)) ↦ rw (e, attempt)
        | inr (inr e) ↦ rw (e, attempt)
      ]

  -- In a well-formed store a fork at the head of a context succeeds, and the new context starts with the history of the
  -- old one, for every limit.
  pub get_last-fork_context :
      (now context_id limit : ℕ) (h : ContextHead)
      → Dict.get context_id s.heads ≡ some h
      → (fork : ContextHead) × ((fork_context now h.head_turn_id s).0 ≡ ok fork)
        × (fork.context_id ≡ s.next_context_id)
        × (get_last fork.context_id limit (fork_context now h.head_turn_id s).1
            ≡ get_last context_id limit s)
  unfolding fork_context
  get_last-fork_context now context_id limit h known =
      let (depth, e) = base_turn_of_head w context_id h known in
      let (rs, line, len) =
        Line-of w h.head_turn_id h.head_depth (w.head context_id h known).stands in
      let fork = new_head now (h.head_turn_id, depth) s in
      (
        fork,
        unfold commit_context in rw (e, attempt),
        refl,
        rw (e, attempt)
            (unfold commit_context in
              get_last-Line_known _ s.next_context_id limit fork rs
                (Dict.get-insert_self s.next_context_id fork s.heads) line
              ∙ sym (get_last-Line_known s context_id limit h rs known line)),
      )
