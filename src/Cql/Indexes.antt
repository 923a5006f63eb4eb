-- ===== src/Cql/Indexes.antt =====
-- server/src/cql/indexes.rs: `SecondaryIndexes`, how a context's metadata and head go in, and the
-- lookups. The four fields `tag_exact`, `tag_sorted`, `tag_lower_exact` and `tag_lower_sorted` are
-- `tag.exact`, `tag.sorted`, `tag_lower.exact` and `tag_lower.sorted` here, and so for the others.
pub mod Holds
pub mod Sound
pub mod Lookups
pub mod Build
pub mod Once
use cxdb.Prelude.{
  ℕ, Bool, true, false, Option, none, some, List, [], ◌∷◌, ◌++◌, foldl, drop, PartialEq, nat_eq,
  bytes_eq, ltb, leb, if◌then◌else◌, suc,
}
use cxdb.Prelude.Dict.{Dict, get, insert}
use cxdb.Prelude.HashSet
use cxdb.Prelude.HashSet.{HashSet}
use cxdb.Cql.Order.{Text}
use cxdb.Turns.{ContextHead}
use cxdb.Cql.Ast.{QueryCrates}
use cxdb.Cql.Order.{Entries, less, starts_with, sort}
use cxdb.Cql.Metadata.{ContextMetadata, MetadataCache, Provenance, of_provenance}

-- The exact and the sorted index of one text field.
pub record FieldIndex : Type 0 where
  pub exact : Dict Text HashSet
  pub sorted : Entries

pub record SecondaryIndexes : Type 0 where
  pub tag : FieldIndex
  pub tag_lower : FieldIndex
  pub title : FieldIndex
  pub title_lower : FieldIndex
  pub label_exact : Dict Text HashSet
  pub user : FieldIndex
  pub user_lower : FieldIndex
  pub service : FieldIndex
  pub service_lower : FieldIndex
  pub host : FieldIndex
  pub trace_id_exact : Dict Text HashSet
  pub parent_exact : Dict ℕ HashSet
  pub root_exact : Dict ℕ HashSet
  pub created_btree : Dict ℕ HashSet
  pub depth_btree : Dict ℕ HashSet
  pub all_context_ids : HashSet

abbrev pub empty_field : FieldIndex
empty_field = record { exact = []; sorted = [] }

abbrev pub empty_indexes : SecondaryIndexes
empty_indexes = record {
  tag = empty_field;
  tag_lower = empty_field;
  title = empty_field;
  title_lower = empty_field;
  label_exact = [];
  user = empty_field;
  user_lower = empty_field;
  service = empty_field;
  service_lower = empty_field;
  host = empty_field;
  trace_id_exact = [];
  parent_exact = [];
  root_exact = [];
  created_btree = [];
  depth_btree = [];
  all_context_ids = [];
}

abbrev pub or_default : Option HashSet → HashSet
or_default none = []
or_default (some ids) = ids

module _ {K : Type 0} ⦃e : PartialEq K⦄ where
  -- `get(k).cloned().unwrap_or_default()`
  unfoldable pub lookup : K → Dict K HashSet → HashSet
  lookup k d = or_default (get k d)

  -- `entry(k).or_default().insert(context_id)`
  unfoldable pub add_id : ℕ → K → Dict K HashSet → Dict K HashSet
  unfolding lookup
  add_id context_id k d = insert k (HashSet.insert context_id (lookup k d)) d

  -- The same under `if let Some(k)`.
  abbrev pub add_option : ℕ → Option K → Dict K HashSet → Dict K HashSet
  add_option context_id none d = d
  add_option context_id (some k) d = add_id context_id k d

  abbrev pub add_list : ℕ → List K → Dict K HashSet → Dict K HashSet
  add_list context_id [] d = d
  add_list context_id (k ∷ ks) d = add_list context_id ks (add_id context_id k d)

abbrev pub add_labels : ℕ → Option (List Text) → Dict Text HashSet → Dict Text HashSet
add_labels context_id none d = d
add_labels context_id (some labels) d = add_list context_id labels d

-- A text goes into the exact index and to the end of the sorted one.
abbrev pub add_text : ℕ → Option Text → FieldIndex → FieldIndex
add_text context_id none f = f
add_text context_id (some text) f = record {
  exact = add_id context_id text f.exact;
  sorted = f.sorted ++ ((text, context_id) ∷ []);
}

abbrev pub sort_field : FieldIndex → FieldIndex
sort_field f = record f { sorted = sort f.sorted }

module _ ⦃x : QueryCrates⦄ where
  abbrev pub lower : Option Text → Option Text
  lower none = none
  lower (some text) = some (x.to_lowercase text)

  unfoldable pub index_metadata : ℕ → ContextMetadata → SecondaryIndexes → SecondaryIndexes
  index_metadata id m s =
      let user = of_provenance (λ p. p.on_behalf_of) m in
      let service = of_provenance (λ p. p.service_name) m in
      record s {
        tag = add_text id m.client_tag s.tag;
        tag_lower = add_text id (lower m.client_tag) s.tag_lower;
        title = add_text id m.title s.title;
        title_lower = add_text id (lower m.title) s.title_lower;
        label_exact = add_labels id m.labels s.label_exact;
        user = add_text id user s.user;
        user_lower = add_text id (lower user) s.user_lower;
        service = add_text id service s.service;
        service_lower = add_text id (lower service) s.service_lower;
        host = add_text id (of_provenance (λ p. p.host_name) m) s.host;
        trace_id_exact = add_option id (of_provenance (λ p. p.trace_id) m) s.trace_id_exact;
        parent_exact = add_option id (of_provenance (λ p. p.parent_context_id) m) s.parent_exact;
        root_exact = add_option id (of_provenance (λ p. p.root_context_id) m) s.root_exact;
      }

  unfoldable pub sort_indexes : SecondaryIndexes → SecondaryIndexes
  sort_indexes s = record s {
    tag = sort_field s.tag;
    tag_lower = sort_field s.tag_lower;
    title = sort_field s.title;
    title_lower = sort_field s.title_lower;
    user = sort_field s.user;
    user_lower = sort_field s.user_lower;
    service = sort_field s.service;
    service_lower = sort_field s.service_lower;
    host = sort_field s.host;
  }

  abbrev pub add_known : ℕ → SecondaryIndexes → SecondaryIndexes
  add_known id s = record s { all_context_ids = HashSet.insert id s.all_context_ids }

  abbrev pub add_head : ℕ → ℕ → ℕ → SecondaryIndexes → SecondaryIndexes
  add_head id created_at depth s = record s {
    created_btree = add_id id created_at s.created_btree;
    depth_btree = add_id id depth s.depth_btree;
  }

  abbrev pub index_entry : ℕ × Option ContextMetadata → SecondaryIndexes → SecondaryIndexes
  index_entry (id, none) s = add_known id s
  index_entry (id, some m) s = index_metadata id m (add_known id s)

  unfoldable pub index_cache : MetadataCache → SecondaryIndexes → SecondaryIndexes
  index_cache [] s = s
  index_cache (entry ∷ cache) s = index_cache cache (index_entry entry s)

  unfoldable pub index_heads : List ContextHead → SecondaryIndexes → SecondaryIndexes
  index_heads [] s = s
  index_heads (h ∷ heads) s =
      index_heads heads
        (add_head h.context_id h.created_at_unix_ms h.head_depth (add_known h.context_id s))

  unfoldable pub build_from_cache :
      MetadataCache → List ContextHead → SecondaryIndexes → SecondaryIndexes
  unfolding index_cache index_heads sort_indexes
  build_from_cache cache heads s = sort_indexes (index_heads heads (index_cache cache s))

  -- The indexes of a context are sorted again only where it has metadata.
  abbrev pub index_new : ℕ → Option ContextMetadata → SecondaryIndexes → SecondaryIndexes
  index_new id none s = s
  index_new id (some m) s = sort_indexes (index_metadata id m s)

  unfoldable pub add_context :
      ℕ → Option ContextMetadata → ℕ → ℕ → SecondaryIndexes → SecondaryIndexes
  unfolding sort_indexes index_metadata
  add_context id metadata created_at depth s =
      add_head id created_at depth (index_new id metadata (add_known id s))
