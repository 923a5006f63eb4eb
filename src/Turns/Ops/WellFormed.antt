-- ===== src/Turns/Ops/WellFormed.antt =====
-- The invariant of the tables of `TurnStore`: turns form a forest that grows at its leaves, heads
-- stand on turns, and every turn has its metadata. Both operations that change the store keep it.
use cxdb.Prelude.{
  ℕ, ◌+◌, ◌^◌, ◌<◌, ◌≡◌, ◌∙◌, refl, ◌⊎◌, inl, inr, some, arith, ◌==◌, nat_eq, Bool-cases,
  Option-cases,
}
use cxdb.Prelude.Dict
use cxdb.Prelude.Dict.{Dict}
use cxdb.Prelude.Result.{ok, Result-cases}
use cxdb.Wire.{Bytes, Crates}
use cxdb.Turns.{TurnRecord, TurnMeta, ContextHead}
use cxdb.Turns.Store.{TurnStore}
use cxdb.Turns.Ops.{
  attempt, base_turn, parent_turn, child_of, commit_context, create_context, commit_turn,
  append_turn,
}

-- A place in the tree: no turn and depth 0, or a turn of the table.
abbrev pub Stands : Dict ℕ TurnRecord → ℕ → ℕ → Type 0
Stands turns id depth =
    ((id ≡ 0) × (depth ≡ 0)) ⊎ ((r : TurnRecord) × (Dict.get id turns ≡ some r) × (r.depth ≡ depth))

-- Where the turn `r` of the table hangs: it is the first of its line, or one deeper than its parent.
abbrev pub Hangs : Dict ℕ TurnRecord → ℕ → ℕ → Type 0
Hangs turns parent_id depth =
    ((parent_id ≡ 0) × (depth ≡ 0))
    ⊎ ((p : TurnRecord) × (Dict.get parent_id turns ≡ some p) × (depth ≡ p.depth + 1))

pub record TurnOk (turns : Dict ℕ TurnRecord) (next k : ℕ) (r : TurnRecord) : Type 0 where
  pub key : r.turn_id ≡ k
  pub positive : 0 < k
  pub below : k < next
  pub parent_below : r.parent_turn_id < k
  pub depth_below : r.depth < k
  pub hangs : Hangs turns r.parent_turn_id r.depth

pub record HeadOk (turns : Dict ℕ TurnRecord) (k : ℕ) (h : ContextHead) : Type 0 where
  pub key : h.context_id ≡ k
  pub stands : Stands turns h.head_turn_id h.head_depth

pub record WellFormed (s : TurnStore) : Type 0 where
  pub next_positive : 0 < s.next_turn_id
  pub turn :
      (k : ℕ) (r : TurnRecord) → Dict.get k s.turns ≡ some r → TurnOk s.turns s.next_turn_id k r
  pub head : (k : ℕ) (h : ContextHead) → Dict.get k s.heads ≡ some h → HeadOk s.turns k h
  pub meta :
      (k : ℕ) (r : TurnRecord)
      → Dict.get k s.turns ≡ some r
      → (m : TurnMeta) × (Dict.get k s.turn_meta ≡ some m)

pub base_turn-Stands :
    {s : TurnStore} (base_turn_id id depth : ℕ)
    → WellFormed s
    → base_turn base_turn_id s ≡ ok (id, depth)
    → Stands s.turns id depth
unfolding base_turn
base_turn-Stands {s} base_turn_id id depth w e = elim (Bool-cases (base_turn_id == 0)) [
  | inl z ↦ inl (ground arith)
  | inr nz ↦ elim (Option-cases (Dict.get base_turn_id s.turns)) [
    | inl missing ↦ absurd (ground arith)
    | inr (r, found) ↦
        let ok_r = w.turn base_turn_id r found in inr (r, ground (arith, ok_r), ground arith)
  ]
]

child_of-Hangs :
    {s : TurnStore} (k : ℕ) (p : TurnRecord)
    → WellFormed s
    → s.next_turn_id < 2 ^ 32
    → Dict.get k s.turns ≡ some p
    → ((child_of p).0 < s.next_turn_id) × Hangs s.turns (child_of p).0 (child_of p).1
child_of-Hangs {s} k p w fits found =
    let ok_p = w.turn k p found in (omega arith, inr (p, ground (arith, ok_p), omega arith))

pub parent_turn-Hangs :
    {s : TurnStore} (context_id parent_turn_id id depth : ℕ)
    → WellFormed s
    → s.next_turn_id < 2 ^ 32
    → parent_turn context_id parent_turn_id s ≡ ok (id, depth)
    → (id < s.next_turn_id) × Hangs s.turns id depth
unfolding parent_turn
parent_turn-Hangs {s} context_id parent_turn_id id depth w fits e =
    elim (Bool-cases (parent_turn_id == 0)) [
      | inr given ↦ elim (Option-cases (Dict.get parent_turn_id s.turns)) [
        | inl missing ↦ absurd (ground arith)
        | inr (p, found) ↦ ground (arith, child_of-Hangs parent_turn_id p w fits found)
      ]
      | inl none_given ↦ elim (Option-cases (Dict.get context_id s.heads)) [
        | inl missing ↦ absurd (ground arith)
        | inr (h, known) ↦ elim (Bool-cases (h.head_turn_id == 0)) [
          | inl fresh ↦ (ground (arith, w.next_positive), inl (ground arith))
          | inr stands ↦ elim (Option-cases (Dict.get h.head_turn_id s.turns)) [
            | inl missing ↦ absurd (ground arith)
            | inr (p, found) ↦ ground (arith, child_of-Hangs h.head_turn_id p w fits found)
          ]
        ]
      ]
    ]

module _ {s : TurnStore} (w : WellFormed s) (v : TurnRecord) where
  pub get_old :
      (k : ℕ) (r : TurnRecord)
      → Dict.get k s.turns ≡ some r
      → Dict.get k (Dict.insert s.next_turn_id v s.turns) ≡ some r
  get_old k r found =
      Dict.get-insert_ne s.next_turn_id k v s.turns
        (λ e. absurd (omega (arith, (w.turn k r found).below)))
      ∙ found

  Stands-old :
      (id depth : ℕ)
      → Stands s.turns id depth
      → Stands (Dict.insert s.next_turn_id v s.turns) id depth
  Stands-old id depth (inl none_yet) = inl none_yet
  Stands-old id depth (inr (r, found, d)) = inr (r, get_old id r found, d)

  Hangs-old :
      (id depth : ℕ)
      → Hangs s.turns id depth
      → Hangs (Dict.insert s.next_turn_id v s.turns) id depth
  Hangs-old id depth (inl first) = inl first
  Hangs-old id depth (inr (p, found, d)) = inr (p, get_old id p found, d)

pub depth_bound :
    {s : TurnStore} (id depth : ℕ)
    → WellFormed s
    → id < s.next_turn_id
    → Hangs s.turns id depth
    → depth < s.next_turn_id
depth_bound id depth w below (inl (z, first)) = omega (arith, w.next_positive)
depth_bound id depth w below (inr (p, found, d)) =
    omega (arith, (w.turn id p found).depth_below, (w.turn id p found).below)

module _ ⦃x : Crates⦄ where
  commit_context-WellFormed :
      {s : TurnStore} (now id depth : ℕ)
      → WellFormed s
      → Stands s.turns id depth
      → WellFormed (commit_context now s (id, depth)).1
  unfolding commit_context
  commit_context-WellFormed {s} now id depth w st = record {
    next_positive = w.next_positive;
    turn = w.turn;
    head = λ k h found. elim (Dict.get-insert_cases s.next_context_id k _ h s.heads found) [
      | inl (same, new) ↦ rw (← new) (record { key = same; stands = st })
      | inr (other, old) ↦ w.head k h old
    ];
    meta = w.meta;
  }

  module _ {s : TurnStore} (now context_id : ℕ) (payload_hash : Bytes) (m : TurnMeta) (id depth : ℕ)
      (w : WellFormed s) (fits : s.next_turn_id < 2 ^ 32) (below : id < s.next_turn_id)
      (hangs : Hangs s.turns id depth) where
    after : TurnStore
    after = (commit_turn now context_id payload_hash m s (id, depth)).1

    commit_turn-TurnOk :
        (k : ℕ) (r : TurnRecord)
        → Dict.get k after.turns ≡ some r
        → TurnOk after.turns after.next_turn_id k r
    unfolding commit_turn after
    commit_turn-TurnOk k r found = elim (Dict.get-insert_cases s.next_turn_id k _ r s.turns found) [
      | inl (same, new) ↦ rw (← new) (record {
        key = same;
        positive = omega (arith, w.next_positive);
        below = omega arith;
        parent_below = omega arith;
        depth_below = omega (arith, depth_bound id depth w below hangs);
        hangs = Hangs-old w _ id depth hangs;
      })
      | inr (other, old) ↦
          let ok_r = w.turn k r old in
          record {
            key = ok_r.key;
            positive = ok_r.positive;
            below = omega (arith, ok_r.below);
            parent_below = ok_r.parent_below;
            depth_below = ok_r.depth_below;
            hangs = Hangs-old w _ r.parent_turn_id r.depth ok_r.hangs;
          }
    ]

    commit_turn-HeadOk :
        (k : ℕ) (h : ContextHead) → Dict.get k after.heads ≡ some h → HeadOk after.turns k h
    unfolding commit_turn after
    commit_turn-HeadOk k h found = elim (Dict.get-insert_cases context_id k _ h s.heads found) [
      | inl (same, new) ↦ rw (← new) (record {
        key = same;
        stands = inr (_, Dict.get-insert_self s.next_turn_id _ s.turns, refl);
      })
      | inr (other, old) ↦
          let ok_h = w.head k h old in
          record { key = ok_h.key; stands = Stands-old w _ h.head_turn_id h.head_depth ok_h.stands }
    ]

    commit_turn-meta :
        (k : ℕ) (r : TurnRecord)
        → Dict.get k after.turns ≡ some r
        → (n : TurnMeta) × (Dict.get k after.turn_meta ≡ some n)
    unfolding commit_turn after
    commit_turn-meta k r found = elim (Dict.get-insert_cases s.next_turn_id k _ r s.turns found) [
      | inl (same, new) ↦ (m, rw (← same) (Dict.get-insert_self s.next_turn_id m s.turn_meta))
      | inr (other, old) ↦
          let (n, e) = w.meta k r old in
          (n, Dict.get-insert_ne s.next_turn_id k m s.turn_meta other ∙ e)
    ]

    commit_turn-WellFormed : WellFormed after
    unfolding commit_turn after
    commit_turn-WellFormed = record {
      next_positive = omega arith;
      turn = commit_turn-TurnOk;
      head = commit_turn-HeadOk;
      meta = commit_turn-meta;
    }

  -- Creating or forking a context keeps a well-formed store well formed, also where the base turn is
  -- unknown and the call fails.
  pub create_context-WellFormed :
      {s : TurnStore} (now base_turn_id : ℕ)
      → WellFormed s
      → WellFormed (create_context now base_turn_id s).1
  unfolding create_context
  create_context-WellFormed {s} now base_turn_id w =
      elim (Result-cases (base_turn base_turn_id s)) [
        | inl ((id, depth), e) ↦
            rw (e, attempt)
              (commit_context-WellFormed now id depth w
                (base_turn-Stands base_turn_id id depth w e))
        | inr (inl (t, e)) ↦ rw (e, attempt) w
        | inr (inr e) ↦ rw (e, attempt) w
      ]

  -- Appending a turn, with the parent named or taken from the head, keeps a well-formed store well
  -- formed, also where the call fails, as long as turn ids have not passed the range of a depth.
  pub append_turn-WellFormed :
      {s : TurnStore} (now context_id parent_turn_id : ℕ) (payload_hash : Bytes) (m : TurnMeta)
      → WellFormed s
      → s.next_turn_id < 2 ^ 32
      → WellFormed (append_turn now context_id parent_turn_id payload_hash m s).1
  unfolding append_turn
  append_turn-WellFormed {s} now context_id parent_turn_id payload_hash m w fits =
      elim (Result-cases (parent_turn context_id parent_turn_id s)) [
        | inl ((id, depth), e) ↦
            let (below, hangs) = parent_turn-Hangs context_id parent_turn_id id depth w fits e in
            rw (e, attempt)
              (unfold after in
                commit_turn-WellFormed now context_id payload_hash m id depth w fits below hangs)
        | inr (inl (t, e)) ↦ rw (e, attempt) w
        | inr (inr e) ↦ rw (e, attempt) w
      ]
