-- ===== src/Cql/Indexes/Once.antt =====
-- That a set of contexts under a key of the secondary indexes has each context once.
use cxdb.Prelude.{
  ℕ, Option, none, some, List, [], ◌∷◌, PartialEq, ◌==◌, nat_eq, bytes_eq, Bool-cases, inl, inr,
}
use mathlib.Core.Path.{subst, sym}
use cxdb.Prelude.Dict.{Dict, get, get-insert}
use cxdb.Prelude.HashSet
use cxdb.Prelude.HashSet.{HashSet, Distinct, insert-Distinct}
use cxdb.Cql.Order.{Text}
use cxdb.Turns.{ContextHead}
use cxdb.Cql.Ast.{QueryCrates}
use cxdb.Cql.Metadata.{ContextMetadata, MetadataCache, of_provenance}
use cxdb.Cql.Indexes.{
  FieldIndex, SecondaryIndexes, empty_indexes, or_default, lookup, add_id, add_option, add_list,
  add_labels, add_text, lower, index_metadata, sort_indexes, add_known, add_head, index_entry,
  index_cache, index_heads, build_from_cache,
}

module _ {K : Type 0} ⦃e : PartialEq K⦄ where
  abbrev pub HasOnce : Dict K HashSet → Type 0
  HasOnce d = (k : K) → Distinct (lookup k d)

  empty-HasOnce : HasOnce []
  unfolding lookup get
  empty-HasOnce k = tt

  add_id-HasOnce : (id : ℕ) (k : K) (d : Dict K HashSet) → HasOnce d → HasOnce (add_id id k d)
  unfolding add_id lookup
  add_id-HasOnce id k d h j = elim (Bool-cases (k == j)) [
    | inl same ↦
        subst (λ found. Distinct (or_default found))
          (sym (get-insert k j (HashSet.insert id (lookup k d)) d))
          (rw same (insert-Distinct id (lookup k d) (h k)))
    | inr other ↦
        subst (λ found. Distinct (or_default found))
          (sym (get-insert k j (HashSet.insert id (lookup k d)) d)) (rw other (h j))
  ]

  add_option-HasOnce :
      (id : ℕ) (k : Option K) (d : Dict K HashSet) → HasOnce d → HasOnce (add_option id k d)
  add_option-HasOnce id none d h = h
  add_option-HasOnce id (some k) d h = add_id-HasOnce id k d h

  add_list-HasOnce :
      (id : ℕ) (ks : List K) (d : Dict K HashSet) → HasOnce d → HasOnce (add_list id ks d)
  add_list-HasOnce id [] d h = h
  add_list-HasOnce id (k ∷ ks) d h =
      add_list-HasOnce id ks (add_id id k d) (add_id-HasOnce id k d h)

add_labels-HasOnce :
    (id : ℕ) (labels : Option (List Text)) (d : Dict Text HashSet)
    → HasOnce d
    → HasOnce (add_labels id labels d)
add_labels-HasOnce id none d h = h
add_labels-HasOnce id (some labels) d h = add_list-HasOnce id labels d h

add_text-HasOnce :
    (id : ℕ) (text : Option Text) (f : FieldIndex)
    → HasOnce f.exact
    → HasOnce (add_text id text f).exact
add_text-HasOnce id none f h = h
add_text-HasOnce id (some text) f h = add_id-HasOnce id text f.exact h

pub record IsOnce (s : SecondaryIndexes) : Type 0 where
  pub tag : HasOnce s.tag.exact
  pub tag_lower : HasOnce s.tag_lower.exact
  pub title : HasOnce s.title.exact
  pub title_lower : HasOnce s.title_lower.exact
  pub user : HasOnce s.user.exact
  pub user_lower : HasOnce s.user_lower.exact
  pub service : HasOnce s.service.exact
  pub service_lower : HasOnce s.service_lower.exact
  pub host : HasOnce s.host.exact
  pub label_exact : HasOnce s.label_exact
  pub trace_id_exact : HasOnce s.trace_id_exact
  pub parent_exact : HasOnce s.parent_exact
  pub root_exact : HasOnce s.root_exact
  pub created_btree : HasOnce s.created_btree
  pub depth_btree : HasOnce s.depth_btree
  pub known : Distinct s.all_context_ids

empty_indexes-IsOnce : IsOnce empty_indexes
empty_indexes-IsOnce = record {
  tag = empty-HasOnce;
  tag_lower = empty-HasOnce;
  title = empty-HasOnce;
  title_lower = empty-HasOnce;
  user = empty-HasOnce;
  user_lower = empty-HasOnce;
  service = empty-HasOnce;
  service_lower = empty-HasOnce;
  host = empty-HasOnce;
  label_exact = empty-HasOnce;
  trace_id_exact = empty-HasOnce;
  parent_exact = empty-HasOnce;
  root_exact = empty-HasOnce;
  created_btree = empty-HasOnce;
  depth_btree = empty-HasOnce;
  known = tt;
}

module _ ⦃x : QueryCrates⦄ where
  add_known-IsOnce : (id : ℕ) (s : SecondaryIndexes) → IsOnce s → IsOnce (add_known id s)
  add_known-IsOnce id s h = record {
    tag = h.tag;
    tag_lower = h.tag_lower;
    title = h.title;
    title_lower = h.title_lower;
    user = h.user;
    user_lower = h.user_lower;
    service = h.service;
    service_lower = h.service_lower;
    host = h.host;
    label_exact = h.label_exact;
    trace_id_exact = h.trace_id_exact;
    parent_exact = h.parent_exact;
    root_exact = h.root_exact;
    created_btree = h.created_btree;
    depth_btree = h.depth_btree;
    known = insert-Distinct id s.all_context_ids h.known;
  }

  add_head-IsOnce :
      (id created_at depth : ℕ) (s : SecondaryIndexes)
      → IsOnce s
      → IsOnce (add_head id created_at depth s)
  add_head-IsOnce id created_at depth s h = record {
    tag = h.tag;
    tag_lower = h.tag_lower;
    title = h.title;
    title_lower = h.title_lower;
    user = h.user;
    user_lower = h.user_lower;
    service = h.service;
    service_lower = h.service_lower;
    host = h.host;
    label_exact = h.label_exact;
    trace_id_exact = h.trace_id_exact;
    parent_exact = h.parent_exact;
    root_exact = h.root_exact;
    created_btree = add_id-HasOnce id created_at s.created_btree h.created_btree;
    depth_btree = add_id-HasOnce id depth s.depth_btree h.depth_btree;
    known = h.known;
  }

  index_metadata-IsOnce :
      (id : ℕ) (m : ContextMetadata) (s : SecondaryIndexes)
      → IsOnce s
      → IsOnce (index_metadata id m s)
  unfolding index_metadata
  index_metadata-IsOnce id m s h = record {
    tag = add_text-HasOnce id m.client_tag s.tag h.tag;
    tag_lower = add_text-HasOnce id (lower m.client_tag) s.tag_lower h.tag_lower;
    title = add_text-HasOnce id m.title s.title h.title;
    title_lower = add_text-HasOnce id (lower m.title) s.title_lower h.title_lower;
    user = add_text-HasOnce id (of_provenance (λ p. p.on_behalf_of) m) s.user h.user;
    user_lower =
        add_text-HasOnce id (lower (of_provenance (λ p. p.on_behalf_of) m)) s.user_lower
          h.user_lower;
    service = add_text-HasOnce id (of_provenance (λ p. p.service_name) m) s.service h.service;
    service_lower =
        add_text-HasOnce id (lower (of_provenance (λ p. p.service_name) m)) s.service_lower
          h.service_lower;
    host = add_text-HasOnce id (of_provenance (λ p. p.host_name) m) s.host h.host;
    label_exact = add_labels-HasOnce id m.labels s.label_exact h.label_exact;
    trace_id_exact =
        add_option-HasOnce id (of_provenance (λ p. p.trace_id) m) s.trace_id_exact h.trace_id_exact;
    parent_exact =
        add_option-HasOnce id (of_provenance (λ p. p.parent_context_id) m) s.parent_exact
          h.parent_exact;
    root_exact =
        add_option-HasOnce id (of_provenance (λ p. p.root_context_id) m) s.root_exact h.root_exact;
    created_btree = h.created_btree;
    depth_btree = h.depth_btree;
    known = h.known;
  }

  sort_indexes-IsOnce : (s : SecondaryIndexes) → IsOnce s → IsOnce (sort_indexes s)
  unfolding sort_indexes
  sort_indexes-IsOnce s h = record {
    tag = h.tag;
    tag_lower = h.tag_lower;
    title = h.title;
    title_lower = h.title_lower;
    user = h.user;
    user_lower = h.user_lower;
    service = h.service;
    service_lower = h.service_lower;
    host = h.host;
    label_exact = h.label_exact;
    trace_id_exact = h.trace_id_exact;
    parent_exact = h.parent_exact;
    root_exact = h.root_exact;
    created_btree = h.created_btree;
    depth_btree = h.depth_btree;
    known = h.known;
  }

  index_entry-IsOnce :
      (entry : ℕ × Option ContextMetadata) (s : SecondaryIndexes)
      → IsOnce s
      → IsOnce (index_entry entry s)
  index_entry-IsOnce (id, none) s h = add_known-IsOnce id s h
  index_entry-IsOnce (id, some m) s h =
      index_metadata-IsOnce id m (add_known id s) (add_known-IsOnce id s h)

  index_cache-IsOnce :
      (cache : MetadataCache) (s : SecondaryIndexes) → IsOnce s → IsOnce (index_cache cache s)
  unfolding index_cache
  index_cache-IsOnce [] s h = h
  index_cache-IsOnce (entry ∷ cache) s h =
      index_cache-IsOnce cache (index_entry entry s) (index_entry-IsOnce entry s h)

  index_heads-IsOnce :
      (heads : List ContextHead) (s : SecondaryIndexes) → IsOnce s → IsOnce (index_heads heads s)
  unfolding index_heads
  index_heads-IsOnce [] s h = h
  index_heads-IsOnce (c ∷ heads) s h =
      index_heads-IsOnce heads
        (add_head c.context_id c.created_at_unix_ms c.head_depth (add_known c.context_id s))
        (add_head-IsOnce c.context_id c.created_at_unix_ms c.head_depth (add_known c.context_id s)
          (add_known-IsOnce c.context_id s h))

  pub build_from_cache-IsOnce :
      (cache : MetadataCache) (heads : List ContextHead)
      → IsOnce (build_from_cache cache heads empty_indexes)
  unfolding build_from_cache
  build_from_cache-IsOnce cache heads =
      let cached = index_cache cache empty_indexes in
      sort_indexes-IsOnce (index_heads heads cached) (
        index_heads-IsOnce heads cached
          (index_cache-IsOnce cache empty_indexes empty_indexes-IsOnce))
