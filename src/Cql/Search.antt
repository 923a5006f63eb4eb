-- ===== src/Cql/Search.antt =====
-- `search_contexts` and `search_contexts_parsed` of server/src/store.rs, without the time they take.
use cxdb.Prelude.{
  ℕ, ◌<◌, false, ◌≡◌, ◌≢◌, ◌∙◌, refl, ap, ◌||◌, Option, none, some, List, [], ◌∷◌, length, take,
  All, ltb, ◌==◌, nat_eq, if◌then◌else◌, Bool-cases, inl, inr, arith,
}
use cxdb.Prelude.HashSet.{HashSet, Distinct, contains}
use cxdb.Cql.Order.{Text}
use cxdb.Cql.Ast
use cxdb.Cql.Ast.{Answer, CqlError, CqlErrorType, CqlQuery, QueryCrates, map_ok}
use cxdb.Turns.{ContextHead}
use cxdb.Cql.Metadata.{MetadataCache}
use cxdb.Cql.Indexes.{SecondaryIndexes, empty_indexes, build_from_cache}
use cxdb.Cql.Lexer.{Outcome, ok, err, stuck, ◌>>=◌}
use cxdb.Cql.Parser.{parse}
use cxdb.Cql.Parser.Typed.{parse-IsQuery}
use cxdb.Cql.Executor.{execute}
use cxdb.Cql.Executor.Reference.{satisfies}
use cxdb.Cql.Executor.Rebuilt.{execute-build_from_cache}
use cxdb.Cql.Indexes.Once.{build_from_cache-IsOnce}
use cxdb.Cql.Executor.Once.{FindsOnce, execute-FindsOnce}
use cxdb.Cql.Executor.Kinds.{execute-ne-unknown_field}

pub record SearchResult : Type 0 where
  pub context_ids : List ℕ
  pub total_count : ℕ
  pub query : CqlQuery

insert_descending : ℕ → List ℕ → List ℕ
insert_descending n [] = n ∷ []
insert_descending n (m ∷ ms) = if ltb m n then n ∷ m ∷ ms else m ∷ insert_descending n ms

-- `sort_by(|a, b| b.cmp(a))`
unfoldable pub sort_descending : List ℕ → List ℕ
unfolding insert_descending
sort_descending [] = []
sort_descending (n ∷ ns) = insert_descending n (sort_descending ns)

abbrev pub truncated : Option ℕ → List ℕ → List ℕ
truncated none ids = ids
truncated (some limit) ids = take limit ids

-- Each below the one before it, so that no id stands twice.
abbrev pub IsDescending : List ℕ → Type 0
IsDescending [] = Unit
IsDescending (n ∷ ns) = All (λ m. m < n) ns × IsDescending ns

-- What is found, from the highest id down and cut at the limit.
abbrev pub ranked : CqlQuery → Option ℕ → Answer HashSet → Outcome SearchResult
ranked query limit (Ast.ok found) =
    let ids = sort_descending found in
    ok (record { context_ids = truncated limit ids; total_count = length ids; query = query })
ranked query limit (Ast.err e) = err e

module _ ⦃x : QueryCrates⦄ (s : SecondaryIndexes) (now : ℕ) (live : HashSet)
    (limit : Option ℕ) where
  unfoldable pub search_contexts_parsed : CqlQuery → Outcome SearchResult
  unfolding sort_descending
  search_contexts_parsed query = ranked query limit (execute s now live query.ast)

  unfoldable pub search_contexts : Text → Outcome SearchResult
  unfolding search_contexts_parsed
  search_contexts query = parse query >>= search_contexts_parsed

contains-insert_descending :
    (c n : ℕ) (ns : List ℕ) → contains c (insert_descending n ns) ≡ (n == c || contains c ns)
unfolding insert_descending contains
contains-insert_descending c n [] = refl
contains-insert_descending c n (m ∷ ms) = ground (arith, contains-insert_descending c n ms)

contains-sort_descending : (c : ℕ) (ns : List ℕ) → contains c (sort_descending ns) ≡ contains c ns
unfolding sort_descending contains
contains-sort_descending c [] = refl
contains-sort_descending c (n ∷ ns) =
    contains-insert_descending c n (sort_descending ns) ∙ rw (contains-sort_descending c ns) refl

insert_descending-All :
    (Holds : ℕ → Type 0) (n : ℕ) (ns : List ℕ)
    → Holds n
    → All Holds ns
    → All Holds (insert_descending n ns)
unfolding insert_descending
insert_descending-All Holds n [] h hs = (h, tt)
insert_descending-All Holds n (m ∷ ms) h (first, rest) = elim (Bool-cases (ltb m n)) [
  | inl less ↦ rw less (h, (first, rest))
  | inr other ↦ rw other (first, insert_descending-All Holds n ms h rest)
]

below-All : (m n : ℕ) (ns : List ℕ) → m < n → All (λ k. k < m) ns → All (λ k. k < n) ns
below-All m n [] h hs = tt
below-All m n (k ∷ ks) h (first, rest) = (omega arith, below-All m n ks h rest)

insert_descending-IsDescending :
    (n : ℕ) (ns : List ℕ)
    → contains n ns ≡ false
    → IsDescending ns
    → IsDescending (insert_descending n ns)
unfolding insert_descending contains
insert_descending-IsDescending n [] fresh down = (tt, tt)
insert_descending-IsDescending n (m ∷ ms) fresh (below, down) = elim (Bool-cases (ltb m n)) [
  | inl less ↦
      let lt : m < n = ground arith in rw less ((lt, below-All m n ms lt below), (below, down))
  | inr other ↦
      let apart : contains n ms ≡ false = ground (arith, fresh) in
      let lt : n < m = ground (arith, fresh) in
      rw other (
        insert_descending-All (λ k. k < m) n ms lt below,
        insert_descending-IsDescending n ms apart down,
      )
]

sort_descending-IsDescending : (ns : List ℕ) → Distinct ns → IsDescending (sort_descending ns)
unfolding sort_descending
sort_descending-IsDescending [] once = tt
sort_descending-IsDescending (n ∷ ns) (fresh, once) =
    insert_descending-IsDescending n (sort_descending ns) (contains-sort_descending n ns ∙ fresh)
      (sort_descending-IsDescending ns once)

-- What a search gives: all the contexts of the table that satisfy its query, each once and from the
-- highest id down, as many as the limit lets through, and their number.
pub record Answers ⦃x : QueryCrates⦄ (cache : MetadataCache) (heads : List ContextHead)
    (live : HashSet) (now : ℕ) (limit : Option ℕ) (r : SearchResult) (all : List ℕ) : Type 0 where
  pub shown : r.context_ids ≡ truncated limit all
  pub counted : r.total_count ≡ length all
  pub descending : IsDescending all
  pub satisfying : (c : ℕ) → Ast.ok (contains c all) ≡ satisfies cache heads live c now r.query.ast

module _ ⦃x : QueryCrates⦄ (now : ℕ) (live : HashSet) (limit : Option ℕ) where
  ranked-Answers :
      (cache : MetadataCache) (heads : List ContextHead) (q : CqlQuery) (r : SearchResult)
      (a : Answer HashSet)
      → ((c : ℕ) → map_ok (contains c) a ≡ satisfies cache heads live c now q.ast)
      → FindsOnce a
      → ranked q limit a ≡ ok r
      → (all : List ℕ) × Answers cache heads live now limit r all
  ranked-Answers cache heads q r (Ast.ok found) meets once h =
      let all = sort_descending found in
      let same : record { context_ids = truncated limit all; total_count = length all; query = q }
          ≡ r =
        cc in
      (
        all,
        rw (← same) (record {
          shown = refl;
          counted = refl;
          descending = sort_descending-IsDescending found once;
          satisfying = λ c. ap Ast.ok (contains-sort_descending c found) ∙ meets c;
        }),
      )
  ranked-Answers cache heads q r (Ast.err e) meets once h = cc

  from_query :
      (cache : MetadataCache) (heads : List ContextHead) (r : SearchResult) (p : Outcome CqlQuery)
      → Distinct live
      → (p >>= search_contexts_parsed (build_from_cache cache heads empty_indexes) now live limit)
        ≡ ok r
      → (all : List ℕ) × Answers cache heads live now limit r all
  unfolding search_contexts_parsed
  from_query cache heads r (ok q) once h =
      ranked-Answers cache heads q r
        (execute (build_from_cache cache heads empty_indexes) now live q.ast)
        (λ c. execute-build_from_cache cache heads live c now q.ast)
        (execute-FindsOnce (build_from_cache cache heads empty_indexes)
          (build_from_cache-IsOnce cache heads) now live q.ast once)
        h
  from_query cache heads r (err e) once h = cc
  from_query cache heads r stuck once h = cc

  -- A search by text over the indexes that are built from a metadata cache and the heads, with the live
  -- contexts given as a list that has each once: where it succeeds, it gives the contexts that satisfy
  -- the query that it reports, evaluated on their own metadata, each once, from the highest id down and
  -- cut at the limit, with the number of all of them.
  pub search_contexts-Answers :
      (cache : MetadataCache) (heads : List ContextHead) (text : Text) (r : SearchResult)
      → Distinct live
      → search_contexts (build_from_cache cache heads empty_indexes) now live limit text ≡ ok r
      → (all : List ℕ) × Answers cache heads live now limit r all
  unfolding search_contexts
  search_contexts-Answers cache heads text r once h = from_query cache heads r (parse text) once h

  ranked_refused :
      (q : CqlQuery) (why : CqlError) (a : Answer HashSet)
      → ranked q limit a ≡ err why
      → a ≡ Ast.err why
  ranked_refused q why (Ast.ok found) h = cc
  ranked_refused q why (Ast.err e) h = let same : e ≡ why = cc in ap Ast.err same

  -- Where a text is parsed, a search for it that is refused is not refused for an unknown field, whatever
  -- the indexes.
  pub search_contexts_known :
      (s : SecondaryIndexes) (text : Text) (q : CqlQuery) (why : CqlError)
      → parse text ≡ ok q
      → search_contexts s now live limit text ≡ err why
      → why.error_type ≢ CqlErrorType.unknown_field
  unfolding search_contexts search_contexts_parsed
  search_contexts_known s text q why parsed h =
      execute-ne-unknown_field s now live q.ast why (parse-IsQuery text q parsed).0
        (ranked_refused q why (execute s now live q.ast) (rw parsed at h))
