-- ===== src/Cql/Indexes/Sound.antt =====
-- What it means that the indexes answer for a metadata cache and a list of heads, and that putting a
-- context in and sorting keep it.
use cxdb.Prelude.{
  ℕ, ◌≡◌, refl, Bool, true, false, ◌||◌, Option, none, some, List, [], ◌∷◌, ◌==◌, nat_eq, bytes_eq,
  arith,
}
use cxdb.Prelude.Dict.{get}
use cxdb.Prelude.HashSet.{contains, contains-insert}
use cxdb.Cql.Order.{Text}
use cxdb.Turns.{ContextHead}
use cxdb.Cql.Ast.{QueryCrates}
use cxdb.Cql.Order.{IsSorted, sort-IsSorted, any_entry}
use cxdb.Cql.Metadata.{ContextMetadata, MetadataCache, some_meta, of_provenance}
use cxdb.Cql.Indexes.{
  SecondaryIndexes, empty_indexes, lower, index_metadata, sort_indexes, add_known, lookup,
}
use cxdb.Cql.Indexes.Holds.{
  some_head, Exact, has_value, has_label, FieldHolds, HeadHolds, add_option-Exact, add_labels-Exact,
  add_text-FieldHolds, none-FieldHolds, none-Exact, sort-FieldHolds, any_key,
}

-- Whether the cache has an entry for the context, with metadata or without.
unfoldable pub in_cache : ℕ → MetadataCache → Bool
in_cache c [] = false
in_cache c ((k, m) ∷ cache) = k == c || in_cache c cache

unfoldable pub is_known : ℕ → MetadataCache → List ContextHead → Bool
is_known c cache heads = in_cache c cache || some_head (λ h. true) c heads

abbrev pub tag_of : ContextMetadata → Option Text
tag_of m = m.client_tag

abbrev pub title_of : ContextMetadata → Option Text
title_of m = m.title

abbrev pub user_of : ContextMetadata → Option Text
user_of = of_provenance λ p. p.on_behalf_of

abbrev pub service_of : ContextMetadata → Option Text
service_of = of_provenance λ p. p.service_name

abbrev pub host_of : ContextMetadata → Option Text
host_of = of_provenance λ p. p.host_name

abbrev pub trace_id_of : ContextMetadata → Option Text
trace_id_of = of_provenance λ p. p.trace_id

abbrev pub parent_of : ContextMetadata → Option ℕ
parent_of = of_provenance λ p. p.parent_context_id

abbrev pub root_of : ContextMetadata → Option ℕ
root_of = of_provenance λ p. p.root_context_id

module _ ⦃x : QueryCrates⦄ where
  abbrev pub lowered : (ContextMetadata → Option Text) → ContextMetadata → Option Text
  lowered field m = lower (field m)

  -- Every index answers for the cache and the heads.
  pub record Sound (s : SecondaryIndexes) (cache : MetadataCache) (heads : List ContextHead)
      : Type 0 where
    pub tag : FieldHolds s.tag tag_of cache
    pub tag_lower : FieldHolds s.tag_lower (lowered tag_of) cache
    pub title : FieldHolds s.title title_of cache
    pub title_lower : FieldHolds s.title_lower (lowered title_of) cache
    pub user : FieldHolds s.user user_of cache
    pub user_lower : FieldHolds s.user_lower (lowered user_of) cache
    pub service : FieldHolds s.service service_of cache
    pub service_lower : FieldHolds s.service_lower (lowered service_of) cache
    pub host : FieldHolds s.host host_of cache
    pub label_exact : Exact s.label_exact has_label cache
    pub trace_id_exact : Exact s.trace_id_exact (has_value trace_id_of) cache
    pub parent_exact : Exact s.parent_exact (has_value parent_of) cache
    pub root_exact : Exact s.root_exact (has_value root_of) cache
    pub created_btree : HeadHolds s.created_btree (λ h. h.created_at_unix_ms) heads
    pub depth_btree : HeadHolds s.depth_btree (λ h. h.head_depth) heads
    pub all_context_ids : (c : ℕ) → contains c s.all_context_ids ≡ is_known c cache heads

  -- The indexes that are searched by prefix are in order.
  pub record Ordered (s : SecondaryIndexes) : Type 0 where
    pub tag : IsSorted s.tag.sorted
    pub tag_lower : IsSorted s.tag_lower.sorted
    pub title : IsSorted s.title.sorted
    pub title_lower : IsSorted s.title_lower.sorted
    pub user : IsSorted s.user.sorted
    pub user_lower : IsSorted s.user_lower.sorted
    pub service : IsSorted s.service.sorted
    pub service_lower : IsSorted s.service_lower.sorted
    pub host : IsSorted s.host.sorted

  pub empty_indexes-Sound : Sound empty_indexes [] []
  unfolding lookup get contains some_meta is_known in_cache some_head any_key any_entry
  empty_indexes-Sound = record {
    tag = record { exact = λ v c. refl; sorted = λ test c. refl };
    tag_lower = record { exact = λ v c. refl; sorted = λ test c. refl };
    title = record { exact = λ v c. refl; sorted = λ test c. refl };
    title_lower = record { exact = λ v c. refl; sorted = λ test c. refl };
    user = record { exact = λ v c. refl; sorted = λ test c. refl };
    user_lower = record { exact = λ v c. refl; sorted = λ test c. refl };
    service = record { exact = λ v c. refl; sorted = λ test c. refl };
    service_lower = record { exact = λ v c. refl; sorted = λ test c. refl };
    host = record { exact = λ v c. refl; sorted = λ test c. refl };
    label_exact = λ v c. refl;
    trace_id_exact = λ v c. refl;
    parent_exact = λ v c. refl;
    root_exact = λ v c. refl;
    created_btree = record { exact = λ v c. refl; ranges = λ test c. refl };
    depth_btree = record { exact = λ v c. refl; ranges = λ test c. refl };
    all_context_ids = λ c. refl;
  }

  -- An entry of the cache with no metadata.
  pub add_known-Sound :
      (id : ℕ) {s : SecondaryIndexes} {cache : MetadataCache} {heads : List ContextHead}
      → Sound s cache heads
      → Sound (add_known id s) ((id, none) ∷ cache) heads
  unfolding is_known in_cache
  add_known-Sound id {s} {cache} {heads} holds = record {
    tag = none-FieldHolds id cache s.tag tag_of holds.tag;
    tag_lower = none-FieldHolds id cache s.tag_lower (lowered tag_of) holds.tag_lower;
    title = none-FieldHolds id cache s.title title_of holds.title;
    title_lower = none-FieldHolds id cache s.title_lower (lowered title_of) holds.title_lower;
    user = none-FieldHolds id cache s.user user_of holds.user;
    user_lower = none-FieldHolds id cache s.user_lower (lowered user_of) holds.user_lower;
    service = none-FieldHolds id cache s.service service_of holds.service;
    service_lower =
        none-FieldHolds id cache s.service_lower (lowered service_of) holds.service_lower;
    host = none-FieldHolds id cache s.host host_of holds.host;
    label_exact = none-Exact id cache s.label_exact has_label holds.label_exact;
    trace_id_exact =
        none-Exact id cache s.trace_id_exact (has_value trace_id_of) holds.trace_id_exact;
    parent_exact = none-Exact id cache s.parent_exact (has_value parent_of) holds.parent_exact;
    root_exact = none-Exact id cache s.root_exact (has_value root_of) holds.root_exact;
    created_btree = holds.created_btree;
    depth_btree = holds.depth_btree;
    all_context_ids =
        λ c. ground (arith, contains-insert c id s.all_context_ids, holds.all_context_ids c);
  }

  pub index_metadata-Sound :
      (id : ℕ) (m : ContextMetadata) {s : SecondaryIndexes} {cache : MetadataCache}
      {heads : List ContextHead}
      → Sound s cache heads
      → Sound (index_metadata id m (add_known id s)) ((id, some m) ∷ cache) heads
  unfolding index_metadata is_known in_cache
  index_metadata-Sound id m {s} {cache} {heads} holds = record {
    tag = add_text-FieldHolds id m cache s.tag tag_of holds.tag;
    tag_lower = add_text-FieldHolds id m cache s.tag_lower (lowered tag_of) holds.tag_lower;
    title = add_text-FieldHolds id m cache s.title title_of holds.title;
    title_lower = add_text-FieldHolds id m cache s.title_lower (lowered title_of) holds.title_lower;
    user = add_text-FieldHolds id m cache s.user user_of holds.user;
    user_lower = add_text-FieldHolds id m cache s.user_lower (lowered user_of) holds.user_lower;
    service = add_text-FieldHolds id m cache s.service service_of holds.service;
    service_lower =
        add_text-FieldHolds id m cache s.service_lower (lowered service_of) holds.service_lower;
    host = add_text-FieldHolds id m cache s.host host_of holds.host;
    label_exact = add_labels-Exact id m cache s.label_exact holds.label_exact;
    trace_id_exact = add_option-Exact id m cache s.trace_id_exact trace_id_of holds.trace_id_exact;
    parent_exact = add_option-Exact id m cache s.parent_exact parent_of holds.parent_exact;
    root_exact = add_option-Exact id m cache s.root_exact root_of holds.root_exact;
    created_btree = holds.created_btree;
    depth_btree = holds.depth_btree;
    all_context_ids =
        λ c. ground (arith, contains-insert c id s.all_context_ids, holds.all_context_ids c);
  }

  pub sort_indexes-Sound :
      {s : SecondaryIndexes} {cache : MetadataCache} {heads : List ContextHead}
      → Sound s cache heads
      → Sound (sort_indexes s) cache heads
  unfolding sort_indexes
  sort_indexes-Sound {s} {cache} {heads} holds = record {
    tag = sort-FieldHolds cache s.tag tag_of holds.tag;
    tag_lower = sort-FieldHolds cache s.tag_lower (lowered tag_of) holds.tag_lower;
    title = sort-FieldHolds cache s.title title_of holds.title;
    title_lower = sort-FieldHolds cache s.title_lower (lowered title_of) holds.title_lower;
    user = sort-FieldHolds cache s.user user_of holds.user;
    user_lower = sort-FieldHolds cache s.user_lower (lowered user_of) holds.user_lower;
    service = sort-FieldHolds cache s.service service_of holds.service;
    service_lower = sort-FieldHolds cache s.service_lower (lowered service_of) holds.service_lower;
    host = sort-FieldHolds cache s.host host_of holds.host;
    label_exact = holds.label_exact;
    trace_id_exact = holds.trace_id_exact;
    parent_exact = holds.parent_exact;
    root_exact = holds.root_exact;
    created_btree = holds.created_btree;
    depth_btree = holds.depth_btree;
    all_context_ids = holds.all_context_ids;
  }

  pub sort_indexes-Ordered : (s : SecondaryIndexes) → Ordered (sort_indexes s)
  unfolding sort_indexes
  sort_indexes-Ordered s = record {
    tag = sort-IsSorted s.tag.sorted;
    tag_lower = sort-IsSorted s.tag_lower.sorted;
    title = sort-IsSorted s.title.sorted;
    title_lower = sort-IsSorted s.title_lower.sorted;
    user = sort-IsSorted s.user.sorted;
    user_lower = sort-IsSorted s.user_lower.sorted;
    service = sort-IsSorted s.service.sorted;
    service_lower = sort-IsSorted s.service_lower.sorted;
    host = sort-IsSorted s.host.sorted;
  }
