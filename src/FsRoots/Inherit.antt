-- ===== src/FsRoots/Inherit.antt =====
-- `get_inherited` of server/src/fs_store/mod.rs against the line of a turn.
use cxdb.Prelude.{
  ℕ, zero, suc, ◌<◌, ◌≡◌, inl, inr, Option, none, some, List, [], ◌∷◌, arith, nat_eq, Option-cases,
}
use cxdb.Prelude.Dict
use cxdb.Prelude.Dict.{Dict}
use cxdb.Prelude.Result.{ok}
use cxdb.Wire.{Bytes}
use cxdb.Turns.{TurnRecord}
use cxdb.Turns.Store.{TurnStore}
use cxdb.Turns.Ops.WellFormed.{WellFormed}
use cxdb.Turns.Ops.History.{Line, Line-below}
use cxdb.FsRoots.{FsRootsIndex, walk_roots, get_inherited}

abbrev or_else : Option Bytes → Option Bytes → Option Bytes
or_else (some hash) later = some hash
or_else none later = later

-- The snapshot of the turn that comes first in the list, of those that have one.
abbrev pub nearest : Dict ℕ Bytes → List TurnRecord → Option Bytes
nearest roots [] = none
nearest roots (r ∷ rs) = or_else (Dict.get r.turn_id roots) (nearest roots rs)

module _ {s : TurnStore} (w : WellFormed s) where
  walk_roots-Line :
      (fuel : ℕ) (roots : Dict ℕ Bytes) (id : ℕ) (rs : List TurnRecord)
      → id < fuel
      → Line s.turns id rs
      → walk_roots fuel s.turns roots id ≡ ok (nearest roots rs)
  unfolding walk_roots
  walk_roots-Line zero roots id rs lt line = absurd (omega arith)
  walk_roots-Line (suc fuel) roots id [] lt line = ground arith
  walk_roots-Line (suc fuel) roots id (r ∷ rs) lt (nz, found, line) =
      let ok_r = w.turn id r found in
      let later =
        walk_roots-Line fuel roots r.parent_turn_id rs (omega (arith, ok_r.parent_below)) line in
      elim (Option-cases (Dict.get r.turn_id roots)) [
        | inl bare ↦ ground (arith, found, bare, later)
        | inr (hash, attached) ↦ ground (arith, found, attached)
      ]

  -- In a well-formed store a turn that exists shows the snapshot of the nearest turn of its line, itself first, that has one, and none
  -- where no turn of the line has one; the walk along the parents ends.
  pub get_inherited-Line :
      (f : FsRootsIndex) (id : ℕ) (r : TurnRecord)
      → Dict.get id s.turns ≡ some r
      → (rs : List TurnRecord) × Line s.turns id (r ∷ rs)
        × (get_inherited id s.turns f ≡ ok (nearest f.roots (r ∷ rs)))
  unfolding get_inherited
  get_inherited-Line f id r found =
      let ok_r = w.turn id r found in
      let (rs, older, len) =
        Line-below w (suc r.parent_turn_id) r.parent_turn_id r.depth (omega arith) ok_r.hangs in
      let line : Line s.turns id (r ∷ rs) = (omega (arith, ok_r.positive), found, older) in
      elim (Option-cases (Dict.get id f.roots)) [
        | inl bare ↦ (
          rs,
          line,
          rw (bare, get_inherited)
              (walk_roots-Line (suc id) f.roots id (r ∷ rs) (omega arith) line),
        )
        | inr (hash, attached) ↦
            (rs, line, rw (attached, get_inherited) (rw ok_r.key (rw attached)))
      ]
