-- ===== src/Turns/Ops/History.antt =====
-- The reads of `TurnStore` that walk back along parents: `get_last`, `get_before`,
-- `get_first_turn`.
use cxdb.Prelude.{
  ℕ, zero, suc, ◌+◌, ◌<◌, ◌≡◌, ◌≢◌, inl, inr, some, List, [], ◌∷◌, ◌++◌, length, take, reverse,
  append-nil, append_assoc, arith, ◌==◌, nat_eq, if◌then◌else◌,
}
use cxdb.Prelude.Dict
use cxdb.Prelude.Dict.{Dict}
use cxdb.Prelude.Result.{ok}
use cxdb.Turns.{TurnRecord, ContextHead}
use cxdb.Turns.Store.{TurnStore}
use cxdb.Turns.Ops.{walk_back, get_last}
use cxdb.Turns.Ops.WellFormed.{WellFormed, Hangs, Stands}

-- The line of a turn, from the turn back to the first of the line; turn 0 is before all of them.
abbrev pub Line : Dict ℕ TurnRecord → ℕ → List TurnRecord → Type 0
Line turns id [] = id ≡ 0
Line turns id (r ∷ rs) = (id ≢ 0) × (Dict.get id turns ≡ some r) × Line turns r.parent_turn_id rs

pub walk_back-Line :
    (limit : ℕ) (turns : Dict ℕ TurnRecord) (id : ℕ) (acc rs : List TurnRecord)
    → Line turns id rs
    → walk_back limit turns id acc ≡ ok (acc ++ take limit rs)
unfolding walk_back
walk_back-Line zero turns id acc rs h = rw append-nil
walk_back-Line (suc limit) turns id acc [] h = rw append-nil (ground arith)
walk_back-Line (suc limit) turns id acc (r ∷ rs) (nz, found, line) = ground (
  arith,
  walk_back-Line limit turns r.parent_turn_id (acc ++ (r ∷ [])) rs line,
  append_assoc acc (r ∷ []) (take limit rs),
)

pub get_last-Line_known :
    (s : TurnStore) (context_id limit : ℕ) (h : ContextHead) (rs : List TurnRecord)
    → Dict.get context_id s.heads ≡ some h
    → Line s.turns h.head_turn_id rs
    → get_last context_id limit s ≡ ok (reverse (take limit rs))
unfolding get_last
get_last-Line_known s context_id limit h rs known line =
    ground (arith, walk_back-Line limit s.turns h.head_turn_id [] rs line)

module _ {s : TurnStore} (w : WellFormed s) where
  -- Parents have smaller ids, so every line ends.
  pub Line-below :
      (fuel id depth : ℕ)
      → id < fuel
      → Hangs s.turns id depth
      → (rs : List TurnRecord) × Line s.turns id rs × (length rs ≡ depth)
  Line-below zero id depth lt h = absurd (omega arith)
  Line-below (suc fuel) id depth lt (inl (z, first)) = ([], z, omega arith)
  Line-below (suc fuel) id depth lt (inr (p, found, d)) =
      let ok_p = w.turn id p found in
      let (rs, line, len) =
        Line-below fuel p.parent_turn_id p.depth (omega (arith, ok_p.parent_below)) ok_p.hangs in
      (p ∷ rs, (omega (arith, ok_p.positive), found, line), omega arith)

  -- The line of a place in the tree.
  pub Line-of :
      (id depth : ℕ)
      → Stands s.turns id depth
      → (rs : List TurnRecord) × Line s.turns id rs
        × (length rs ≡ (if id == 0 then 0 else depth + 1))
  Line-of id depth (inl (z, first)) = ([], z, ground arith)
  Line-of id depth (inr (r, found, d)) =
      let ok_r = w.turn id r found in
      let (rs, line, len) =
        Line-below (suc id) id (depth + 1) (omega arith) (inr (r, found, omega arith)) in
      (rs, line, ground (arith, ok_r.positive))

  -- In a well-formed store `get_last` succeeds for every context that exists and every limit: it gives the newest `limit` turns of the line
  -- of the context's head, oldest first, and that line has `head_depth + 1` turns (none, where
  -- the context has no turn).
  pub get_last-Line :
      (context_id limit : ℕ) (h : ContextHead)
      → Dict.get context_id s.heads ≡ some h
      → (rs : List TurnRecord) × Line s.turns h.head_turn_id rs
        × (length rs ≡ (if h.head_turn_id == 0 then 0 else h.head_depth + 1))
        × (get_last context_id limit s ≡ ok (reverse (take limit rs)))
  get_last-Line context_id limit h known =
      let (rs, line, len) =
        Line-of h.head_turn_id h.head_depth (w.head context_id h known).stands in
      (rs, line, len, get_last-Line_known s context_id limit h rs known line)
