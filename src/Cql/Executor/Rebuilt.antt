-- ===== src/Cql/Executor/Rebuilt.antt =====
-- The indexes over a whole run: built from the cache and the heads at the start, and kept up as
-- contexts get their first turns.
use cxdb.Prelude.{ℕ, ◌≡◌, ◌∙◌, sym, Option, List, [], ◌∷◌, nat_eq, bytes_eq}
use cxdb.Prelude.HashSet.{HashSet, contains}
use cxdb.Turns.{ContextHead}
use cxdb.Cql.Ast.{Expression, QueryCrates, map_ok}
use cxdb.Cql.Metadata.{ContextMetadata, MetadataCache}
use cxdb.Cql.Indexes.{SecondaryIndexes, empty_indexes, build_from_cache, add_context}
use cxdb.Cql.Indexes.Sound.{Sound, Ordered}
use cxdb.Cql.Indexes.Build.{
  build_from_cache-Sound, build_from_cache-Ordered, add_context-Sound, add_context-Ordered,
}
use cxdb.Cql.Executor
use cxdb.Cql.Executor.{
  StringField, unknown, no_string, no_number, no_list, bad_operator, collect_in, known_id, others,
  is_live_value,
}
use cxdb.Cql.Executor.Reference.{satisfies}
use cxdb.Cql.Executor.Agrees.{execute-satisfies}

-- A context's first turn: its head, and the metadata if there is any.
abbrev pub Addition : Type 0
Addition = ContextHead × Option ContextMetadata

-- The cache and the heads with the additions in them.
abbrev pub cached : List Addition → MetadataCache → MetadataCache
cached [] cache = cache
cached ((h, m) ∷ more) cache = cached more ((h.context_id, m) ∷ cache)

abbrev pub headed : List Addition → List ContextHead → List ContextHead
headed [] heads = heads
headed ((h, m) ∷ more) heads = headed more (h ∷ heads)

module _ ⦃x : QueryCrates⦄ where
  unfoldable pub add_contexts : List Addition → SecondaryIndexes → SecondaryIndexes
  add_contexts [] s = s
  add_contexts ((h, m) ∷ more) s =
      add_contexts more (add_context h.context_id m h.created_at_unix_ms h.head_depth s)

  add_contexts-Sound :
      (more : List Addition) {s : SecondaryIndexes} {cache : MetadataCache}
      {heads : List ContextHead}
      → Sound s cache heads
      → Sound (add_contexts more s) (cached more cache) (headed more heads)
  unfolding add_contexts
  add_contexts-Sound [] holds = holds
  add_contexts-Sound ((h, m) ∷ more) holds = add_contexts-Sound more (add_context-Sound h m holds)

  add_contexts-Ordered :
      (more : List Addition) (s : SecondaryIndexes) → Ordered s → Ordered (add_contexts more s)
  unfolding add_contexts
  add_contexts-Ordered [] s ordered = ordered
  add_contexts-Ordered ((h, m) ∷ more) s ordered =
      add_contexts-Ordered more (add_context h.context_id m h.created_at_unix_ms h.head_depth s)
        (add_context-Ordered h.context_id h.created_at_unix_ms h.head_depth m s ordered)

  module _ (cache : MetadataCache) (heads : List ContextHead) (live : HashSet) (c now : ℕ)
      (expr : Expression) where
    -- Executing any expression on the indexes built from a cache and heads, and asking whether a context
    -- is in the result, is evaluating the expression on the context's own metadata and heads with no
    -- index; the errors are the same.
    pub execute-build_from_cache :
        map_ok
          (contains c)
          (Executor.execute (build_from_cache cache heads empty_indexes) now live expr)
        ≡ satisfies cache heads live c now expr
    execute-build_from_cache =
        execute-satisfies (build_from_cache cache heads empty_indexes) cache heads live c
          (build_from_cache-Sound cache heads) (build_from_cache-Ordered cache heads empty_indexes)
          now expr

    -- Indexes that are kept up by `add_context`, for any contexts after the start, answer every expression
    -- about every context, errors included, as the indexes do that are built anew from the cache and the
    -- heads with those contexts in them.
    pub execute-add_contexts :
        (more : List Addition)
        → map_ok (contains c) (
            Executor.execute
              (add_contexts more (build_from_cache cache heads empty_indexes))
              now
              live
              expr)
          ≡ map_ok (contains c) (
              Executor.execute
                (build_from_cache (cached more cache) (headed more heads) empty_indexes)
                now
                live
                expr)
    execute-add_contexts more =
        let built = build_from_cache cache heads empty_indexes in
        let rebuilt = build_from_cache (cached more cache) (headed more heads) empty_indexes in
        execute-satisfies (add_contexts more built) (cached more cache) (headed more heads) live c
          (add_contexts-Sound more (build_from_cache-Sound cache heads))
          (add_contexts-Ordered more built (build_from_cache-Ordered cache heads empty_indexes)) now
          expr
        ∙ sym (
            execute-satisfies rebuilt (cached more cache) (headed more heads) live c
              (build_from_cache-Sound (cached more cache) (headed more heads))
              (build_from_cache-Ordered (cached more cache) (headed more heads) empty_indexes) now
              expr)
