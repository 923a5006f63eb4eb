-- ===== src/Turns/Ops/Pages.antt =====
-- Paging through a context with `get_last` and `get_before`, and its first turn.
use cxdb.Prelude.{
  ℕ, zero, suc, ◌+◌, ◌<◌, ◌≤◌, ◌≡◌, ◌≢◌, ◌∙◌, refl, sym, ap, ◌⊎◌, inl, inr, some, List, [], ◌∷◌,
  ◌++◌, length, take, drop, take_all, take-add, reverse, arith, nat_eq,
}
use mathlib.Core.List.{reverse-append, reverse-reverse}
use cxdb.Prelude.Dict
use cxdb.Prelude.Dict.{Dict}
use cxdb.Prelude.Result.{ok}
use cxdb.Turns.{TurnRecord, ContextHead}
use cxdb.Turns.Store.{TurnStore}
use cxdb.Turns.Ops.{get_last, get_before, first_turn_loop, get_first_turn}
use cxdb.Turns.Ops.WellFormed.{WellFormed, Hangs}
use cxdb.Turns.Ops.History.{Line, walk_back-Line, get_last-Line_known, Line-of}

module _ {s : TurnStore} (w : WellFormed s) where
  -- The oldest turn `p` of the newest `n` turns: the rest of the line is that of its parent.
  oldest-Line :
      (n id : ℕ) (rs front : List TurnRecord) (p : TurnRecord)
      → Line s.turns id rs
      → take n rs ≡ front ++ (p ∷ [])
      → (id ≢ 0)
        × (Dict.get p.turn_id s.turns ≡ some p)
        × (p.turn_id ≢ 0)
        × Line s.turns p.parent_turn_id (drop n rs)
  oldest-Line zero id rs [] p line e = cc
  oldest-Line zero id rs (f ∷ front) p line e = cc
  oldest-Line (suc n) id [] [] p line e = cc
  oldest-Line (suc n) id [] (f ∷ front) p line e = cc
  oldest-Line (suc n) id (r ∷ rs) (f ∷ front) p (nz, found, line) e =
      let (_, here, pos, rest) = oldest-Line n r.parent_turn_id rs front p line (ground arith) in
      (nz, here, pos, rest)
  oldest-Line (suc zero) id (r ∷ rs) [] p (nz, found, line) e =
      let ok_r = w.turn id r found in
      (nz, ground (arith, ok_r), ground (arith, ok_r), ground (arith, ok_r))
  oldest-Line (suc (suc n)) id (r ∷ []) [] p (nz, found, line) e =
      let ok_r = w.turn id r found in
      (nz, ground (arith, ok_r), ground (arith, ok_r), ground (arith, ok_r))
  oldest-Line (suc (suc n)) id (r ∷ r' ∷ rs) [] p (nz, found, line) e = absurd (ground arith)

  -- In a well-formed store paging loses no turn and repeats none: behind a page of `get_last` that begins with the turn
  -- `p`, `get_before` at `p` succeeds, and the two pages together are what `get_last` gives for
  -- the sum of the limits.
  pub get_before-get_last :
      (context_id n m : ℕ) (h : ContextHead) (p : TurnRecord) (page : List TurnRecord)
      → Dict.get context_id s.heads ≡ some h
      → get_last context_id n s ≡ ok (p ∷ page)
      → (older : List TurnRecord) × (get_before context_id p.turn_id m s ≡ ok older)
        × (get_last context_id (n + m) s ≡ ok (older ++ (p ∷ page)))
  unfolding get_before
  get_before-get_last context_id n m h p page known e =
      let (rs, line, len) =
        Line-of w h.head_turn_id h.head_depth (w.head context_id h known).stands in
      let same : reverse (take n rs) ≡ p ∷ page =
        cc (get_last-Line_known s context_id n h rs known line) in
      let newest : take n rs ≡ reverse page ++ (p ∷ []) =
        sym (reverse-reverse (take n rs)) ∙ ap reverse same ∙ reverse-append (p ∷ []) page in
      let (stands, found, nz, rest) =
        oldest-Line n h.head_turn_id rs (reverse page) p line newest in
      let both : reverse (take (n + m) rs) ≡ reverse (take m (drop n rs)) ++ (p ∷ page) =
        ap reverse (take-add n m rs)
        ∙ reverse-append (take n rs) (take m (drop n rs))
        ∙ ap (λ l. reverse (take m (drop n rs)) ++ l) same in
      (
        reverse (take m (drop n rs)),
        ground (arith, walk_back-Line m s.turns p.parent_turn_id [] (drop n rs) rest),
        get_last-Line_known s context_id (n + m) h rs known line ∙ ap ok both,
      )

  parentless-depth :
      (id depth : ℕ) → Hangs s.turns id depth → ((id ≡ 0) × (depth ≡ 0)) ⊎ ((id ≢ 0) × (depth ≢ 0))
  parentless-depth id depth (inl first) = inl first
  parentless-depth id depth (inr (p, found, d)) =
      inr (omega (arith, (w.turn id p found).positive), omega arith)

  -- On a line the turn of depth 0 is the last one, and the loop of `get_first_turn` finds it.
  first_turn_loop-Line :
      (fuel id : ℕ) (r : TurnRecord) (rs : List TurnRecord)
      → id < fuel
      → Line s.turns id (r ∷ rs)
      → (first : TurnRecord) × (front : List TurnRecord) × (r ∷ rs ≡ front ++ (first ∷ []))
        × (first_turn_loop fuel s.turns id ≡ ok first)
        × (first.depth ≡ 0)
  unfolding first_turn_loop
  first_turn_loop-Line zero id r rs lt line = absurd (omega arith)
  first_turn_loop-Line (suc fuel) id r [] lt (nz, found, line) =
      let top = parentless-depth r.parent_turn_id r.depth (w.turn id r found).hangs in
      (r, [], refl, ground (arith, top), ground (arith, top))
  first_turn_loop-Line (suc fuel) id r (r' ∷ rs) lt (nz, found, line) =
      let ok_r = w.turn id r found in
      let (first, front, e, loop, d) =
        first_turn_loop-Line fuel r.parent_turn_id r' rs (omega (arith, ok_r.parent_below)) line in
      (
        first,
        r ∷ front,
        rw e,
        ground (arith, parentless-depth r.parent_turn_id r.depth ok_r.hangs),
        d,
      )

  abbrev FirstOf : ℕ → ContextHead → TurnRecord → List TurnRecord → Type 0
  FirstOf context_id h first later =
      (get_first_turn context_id s ≡ ok first)
      × (first.depth ≡ 0)
      × (get_last context_id (h.head_depth + 1) s ≡ ok (first ∷ later))

  FirstOf-Line :
      (context_id : ℕ) (h : ContextHead) (rs : List TurnRecord)
      → Dict.get context_id s.heads ≡ some h
      → h.head_turn_id ≢ 0
      → Line s.turns h.head_turn_id rs
      → length rs ≤ h.head_depth + 1
      → (first : TurnRecord) × (later : List TurnRecord) × FirstOf context_id h first later
  unfolding get_first_turn
  FirstOf-Line context_id h [] known nz line len = absurd (nz line)
  FirstOf-Line context_id h (r ∷ rs) known nz line len =
      let (first, front, e, loop, d) =
        first_turn_loop-Line (suc h.head_turn_id) h.head_turn_id r rs (omega arith) line in
      let whole : take (h.head_depth + 1) (r ∷ rs) ≡ front ++ (first ∷ []) =
        take_all (h.head_depth + 1) (r ∷ rs) len ∙ e in
      (
        first,
        reverse front,
        (
          ground (arith, loop),
          d,
          get_last-Line_known s context_id (h.head_depth + 1) h (r ∷ rs) known line
              ∙ ap ok (ap reverse whole ∙ reverse-append front (first ∷ [])),
        ),
      )

  -- In a well-formed store, in a context that has a turn, `get_first_turn` succeeds: its loop ends, on a turn of depth 0,
  -- which is the first of the turns that `get_last` gives for a limit above the head's depth.
  pub get_first_turn-get_last :
      (context_id : ℕ) (h : ContextHead)
      → Dict.get context_id s.heads ≡ some h
      → h.head_turn_id ≢ 0
      → (first : TurnRecord) × (later : List TurnRecord) × ((get_first_turn context_id s ≡ ok first)
          × (first.depth ≡ 0)
          × (get_last context_id (h.head_depth + 1) s ≡ ok (first ∷ later)))
  get_first_turn-get_last context_id h known nz =
      let (rs, line, len) =
        Line-of w h.head_turn_id h.head_depth (w.head context_id h known).stands in
      FirstOf-Line context_id h rs known nz line (ground arith)
