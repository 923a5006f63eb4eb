-- ===== src/Cql/Indexes/Build.antt =====
-- That `build_from_cache` and `add_context` keep the indexes true to the metadata cache and the heads,
-- and their sorted parts in order.
use cxdb.Prelude.{
  ℕ, ◌≡◌, refl, ◌∙◌, Bool, true, ◌||◌, Option, none, some, List, [], ◌∷◌, ◌==◌, nat_eq, bytes_eq,
  arith,
}
use cxdb.Prelude.HashSet.{HashSet, contains, insert, contains-insert}
use cxdb.Cql.Order.{Text}
use cxdb.Turns.{ContextHead}
use cxdb.Cql.Ast.{QueryCrates}
use cxdb.Cql.Metadata.{ContextMetadata, MetadataCache, some_meta, is_some_and}
use cxdb.Cql.Indexes.{
  FieldIndex, SecondaryIndexes, empty_indexes, sort_indexes, add_known, add_head, index_cache,
  index_heads, build_from_cache, add_context, index_metadata,
}
use cxdb.Cql.Indexes.Holds.{some_head, has_value, has_label, FieldHolds, add_id-HeadHolds}
use cxdb.Cql.Indexes.Sound.{
  in_cache, is_known, Sound, Ordered, empty_indexes-Sound, add_known-Sound, index_metadata-Sound,
  sort_indexes-Sound, sort_indexes-Ordered, lowered, tag_of, title_of, user_of, service_of, host_of,
  trace_id_of, parent_of, root_of,
}

-- Two caches, and two lists of heads, that no test tells apart.
pub record Alike (a b : MetadataCache) (p q : List ContextHead) : Type 0 where
  pub metas : (test : ContextMetadata → Bool) (c : ℕ) → some_meta test c a ≡ some_meta test c b
  pub entries : (c : ℕ) → in_cache c a ≡ in_cache c b
  pub heads : (test : ContextHead → Bool) (c : ℕ) → some_head test c p ≡ some_head test c q

module _ {a b : MetadataCache} {p q : List ContextHead} (alike : Alike a b p q) where
  field-alike :
      (f : FieldIndex) (field : ContextMetadata → Option Text)
      → FieldHolds f field a
      → FieldHolds f field b
  field-alike f field holds = record {
    exact = λ v c. holds.exact v c ∙ alike.metas (has_value field v) c;
    sorted = λ test c. holds.sorted test c ∙ alike.metas (λ m. is_some_and test (field m)) c;
  }

  module _ ⦃x : QueryCrates⦄ where
    pub Sound-alike : {s : SecondaryIndexes} → Sound s a p → Sound s b q
    unfolding is_known
    Sound-alike {s} holds = record {
      tag = field-alike s.tag tag_of holds.tag;
      tag_lower = field-alike s.tag_lower (lowered tag_of) holds.tag_lower;
      title = field-alike s.title title_of holds.title;
      title_lower = field-alike s.title_lower (lowered title_of) holds.title_lower;
      user = field-alike s.user user_of holds.user;
      user_lower = field-alike s.user_lower (lowered user_of) holds.user_lower;
      service = field-alike s.service service_of holds.service;
      service_lower = field-alike s.service_lower (lowered service_of) holds.service_lower;
      host = field-alike s.host host_of holds.host;
      label_exact = λ v c. holds.label_exact v c ∙ alike.metas (has_label v) c;
      trace_id_exact = λ v c. holds.trace_id_exact v c ∙ alike.metas (has_value trace_id_of v) c;
      parent_exact = λ v c. holds.parent_exact v c ∙ alike.metas (has_value parent_of v) c;
      root_exact = λ v c. holds.root_exact v c ∙ alike.metas (has_value root_of v) c;
      created_btree = record {
        exact =
            λ v c. holds.created_btree.exact v c ∙ alike.heads (λ h. h.created_at_unix_ms == v) c;
        ranges = λ test c.
            holds.created_btree.ranges test c ∙ alike.heads (λ h. test h.created_at_unix_ms) c;
      };
      depth_btree = record {
        exact = λ v c. holds.depth_btree.exact v c ∙ alike.heads (λ h. h.head_depth == v) c;
        ranges = λ test c. holds.depth_btree.ranges test c ∙ alike.heads (λ h. test h.head_depth) c;
      };
      all_context_ids =
          λ c. holds.all_context_ids c ∙ rw (alike.entries c) (rw (alike.heads (λ h. true) c) refl);
    }

-- The list `xs` turned round in front of `done`.
onto {ℓ} : {A : Type ℓ} → List A → List A → List A
onto [] done = done
onto (y ∷ ys) done = onto ys (y ∷ done)

module _ (c : ℕ) where
  some_meta-onto :
      (test : ContextMetadata → Bool) (cache done : MetadataCache)
      → some_meta test c (onto cache done) ≡ (some_meta test c cache || some_meta test c done)
  unfolding onto some_meta
  some_meta-onto test [] done = refl
  some_meta-onto test ((k, m) ∷ cache) done =
      ground (arith, some_meta-onto test cache ((k, m) ∷ done))

  in_cache-onto :
      (cache done : MetadataCache)
      → in_cache c (onto cache done) ≡ (in_cache c cache || in_cache c done)
  unfolding onto in_cache
  in_cache-onto [] done = refl
  in_cache-onto ((k, m) ∷ cache) done = ground (arith, in_cache-onto cache ((k, m) ∷ done))

  some_head-onto :
      (test : ContextHead → Bool) (heads past : List ContextHead)
      → some_head test c (onto heads past) ≡ (some_head test c heads || some_head test c past)
  unfolding onto some_head
  some_head-onto test [] past = refl
  some_head-onto test (h ∷ heads) past = ground (arith, some_head-onto test heads (h ∷ past))

onto-Alike :
    (cache : MetadataCache) (heads : List ContextHead)
    → Alike (onto cache []) cache (onto heads []) heads
unfolding some_meta in_cache some_head
onto-Alike cache heads = record {
  metas = λ test c. ground (arith, some_meta-onto c test cache []);
  entries = λ c. ground (arith, in_cache-onto c cache []);
  heads = λ test c. ground (arith, some_head-onto c test heads []);
}

module _ ⦃x : QueryCrates⦄ where
  index_cache-Sound :
      (rest : MetadataCache) {s : SecondaryIndexes} {done : MetadataCache}
      {heads : List ContextHead}
      → Sound s done heads
      → Sound (index_cache rest s) (onto rest done) heads
  unfolding index_cache onto
  index_cache-Sound [] holds = holds
  index_cache-Sound ((id, none) ∷ rest) holds = index_cache-Sound rest (add_known-Sound id holds)
  index_cache-Sound ((id, some m) ∷ rest) holds =
      index_cache-Sound rest (index_metadata-Sound id m holds)

  -- A head goes in, where the set of known contexts has its context.
  add_head-Sound :
      (h : ContextHead) (ids : HashSet) {s : SecondaryIndexes} {cache : MetadataCache}
      {heads : List ContextHead}
      → Sound s cache heads
      → ((c : ℕ) → contains c ids ≡ is_known c cache (h ∷ heads))
      → Sound
          (add_head h.context_id h.created_at_unix_ms h.head_depth
            (record s { all_context_ids = ids }))
          cache
          (h ∷ heads)
  add_head-Sound h ids {s} {cache} {heads} holds known = record {
    tag = holds.tag;
    tag_lower = holds.tag_lower;
    title = holds.title;
    title_lower = holds.title_lower;
    user = holds.user;
    user_lower = holds.user_lower;
    service = holds.service;
    service_lower = holds.service_lower;
    host = holds.host;
    label_exact = holds.label_exact;
    trace_id_exact = holds.trace_id_exact;
    parent_exact = holds.parent_exact;
    root_exact = holds.root_exact;
    created_btree =
        add_id-HeadHolds h heads s.created_btree (λ g. g.created_at_unix_ms) holds.created_btree;
    depth_btree = add_id-HeadHolds h heads s.depth_btree (λ g. g.head_depth) holds.depth_btree;
    all_context_ids = known;
  }

  index_heads-Sound :
      (rest : List ContextHead) {s : SecondaryIndexes} {cache : MetadataCache}
      {heads : List ContextHead}
      → Sound s cache heads
      → Sound (index_heads rest s) cache (onto rest heads)
  unfolding index_heads onto is_known some_head
  index_heads-Sound [] holds = holds
  index_heads-Sound (h ∷ rest) {s} {cache} {heads} holds = index_heads-Sound rest (
      add_head-Sound h (insert h.context_id s.all_context_ids) holds (λ c.
        ground (arith, contains-insert c h.context_id s.all_context_ids, holds.all_context_ids c)))

  pub build_from_cache-Sound :
      (cache : MetadataCache) (heads : List ContextHead)
      → Sound (build_from_cache cache heads empty_indexes) cache heads
  unfolding build_from_cache
  build_from_cache-Sound cache heads =
      Sound-alike (onto-Alike cache heads)
        (sort_indexes-Sound (index_heads-Sound heads (index_cache-Sound cache empty_indexes-Sound)))

  pub build_from_cache-Ordered :
      (cache : MetadataCache) (heads : List ContextHead) (s : SecondaryIndexes)
      → Ordered (build_from_cache cache heads s)
  unfolding build_from_cache
  build_from_cache-Ordered cache heads s =
      sort_indexes-Ordered (index_heads heads (index_cache cache s))

  pub add_context-Ordered :
      (id created_at depth : ℕ) (m : Option ContextMetadata) (s : SecondaryIndexes)
      → Ordered s
      → Ordered (add_context id m created_at depth s)
  unfolding add_context
  add_context-Ordered id created_at depth none s ordered = record {
    tag = ordered.tag;
    tag_lower = ordered.tag_lower;
    title = ordered.title;
    title_lower = ordered.title_lower;
    user = ordered.user;
    user_lower = ordered.user_lower;
    service = ordered.service;
    service_lower = ordered.service_lower;
    host = ordered.host;
  }
  add_context-Ordered id created_at depth (some m) s ordered =
      let sorted = sort_indexes-Ordered (index_metadata id m (add_known id s)) in
      record {
        tag = sorted.tag;
        tag_lower = sorted.tag_lower;
        title = sorted.title;
        title_lower = sorted.title_lower;
        user = sorted.user;
        user_lower = sorted.user_lower;
        service = sorted.service;
        service_lower = sorted.service_lower;
        host = sorted.host;
      }

  entry_known :
      (h : ContextHead) (m : Option ContextMetadata) (c : ℕ) (cache : MetadataCache)
      (heads : List ContextHead)
      → is_known c ((h.context_id, m) ∷ cache) heads
        ≡ is_known c ((h.context_id, m) ∷ cache) (h ∷ heads)
  unfolding is_known in_cache some_head
  entry_known h m c cache heads = ground arith

  pub add_context-Sound :
      (h : ContextHead) (m : Option ContextMetadata) {s : SecondaryIndexes} {cache : MetadataCache}
      {heads : List ContextHead}
      → Sound s cache heads
      → Sound
          (add_context h.context_id m h.created_at_unix_ms h.head_depth s)
          ((h.context_id, m) ∷ cache)
          (h ∷ heads)
  unfolding add_context
  add_context-Sound h none {s} {cache} {heads} holds =
      let entered = add_known-Sound h.context_id holds in
      add_head-Sound h (insert h.context_id s.all_context_ids) entered
        (λ c. entered.all_context_ids c ∙ entry_known h none c cache heads)
  add_context-Sound h (some m) {s} {cache} {heads} holds =
      let entered = sort_indexes-Sound (index_metadata-Sound h.context_id m holds) in
      add_head-Sound h
        (sort_indexes (index_metadata h.context_id m (add_known h.context_id s))).all_context_ids
        entered (λ c. entered.all_context_ids c ∙ entry_known h (some m) c cache heads)
