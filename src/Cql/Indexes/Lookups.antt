-- ===== src/Cql/Indexes/Lookups.antt =====
-- The lookups of server/src/cql/indexes.rs, and that a prefix search on a sorted index and a range
-- search find what a walk over every entry finds.
use cxdb.Prelude.{
  ℕ, ◌≡◌, ◌∙◌, refl, Bool, false, [], ◌∷◌, All, drop, suc, ltb, leb, nat_eq, bytes_eq,
  if◌then◌else◌, Bool-cases, inl, inr, arith,
}
use cxdb.Prelude.Dict.{Dict}
use cxdb.Prelude.HashSet.{HashSet, contains, insert, union, contains-insert, contains-union}
use cxdb.Cql.Order.{Text}
use cxdb.Cql.Ast.{QueryCrates}
use cxdb.Cql.Order.{
  Entries, less, starts_with, IsSorted, any_entry, less-starts_with, less_trans, starts_with-past,
}
use cxdb.Cql.Indexes.{SecondaryIndexes, lookup}
use cxdb.Cql.Indexes.Holds.{any_key}

-- `partition_point(|(s, _)| s < prefix)` of a sorted list.
unfoldable pub partition_point : Text → Entries → ℕ
partition_point prefix [] = 0
partition_point prefix (e ∷ es) =
    let rest = partition_point prefix es in if less e.0 prefix then suc rest else 0

-- The loop: it stops at the first text without the prefix.
unfoldable pub collect_prefix : Text → Entries → HashSet
collect_prefix prefix [] = []
collect_prefix prefix (e ∷ es) =
    let rest = collect_prefix prefix es in if starts_with e.0 prefix then insert e.1 rest else []

unfoldable pub prefix_search : Entries → Text → HashSet
unfolding partition_point collect_prefix
prefix_search [] prefix = []
prefix_search (e ∷ es) prefix =
    collect_prefix prefix (drop (partition_point prefix (e ∷ es)) (e ∷ es))

-- `range(..).flat_map(..).collect()`
unfoldable pub range : (ℕ → Bool) → Dict ℕ HashSet → HashSet
range test [] = []
range test ((k, ids) ∷ d) = let rest = range test d in if test k then union ids rest else rest

abbrev pub lookup_tag_exact : SecondaryIndexes → Text → HashSet
lookup_tag_exact s value = lookup value s.tag.exact

abbrev pub lookup_tag_prefix : SecondaryIndexes → Text → HashSet
lookup_tag_prefix s prefix = prefix_search s.tag.sorted prefix

abbrev pub lookup_title_exact : SecondaryIndexes → Text → HashSet
lookup_title_exact s value = lookup value s.title.exact

abbrev pub lookup_title_prefix : SecondaryIndexes → Text → HashSet
lookup_title_prefix s prefix = prefix_search s.title.sorted prefix

abbrev pub lookup_user_exact : SecondaryIndexes → Text → HashSet
lookup_user_exact s value = lookup value s.user.exact

abbrev pub lookup_user_prefix : SecondaryIndexes → Text → HashSet
lookup_user_prefix s prefix = prefix_search s.user.sorted prefix

abbrev pub lookup_service_exact : SecondaryIndexes → Text → HashSet
lookup_service_exact s value = lookup value s.service.exact

abbrev pub lookup_service_prefix : SecondaryIndexes → Text → HashSet
lookup_service_prefix s prefix = prefix_search s.service.sorted prefix

abbrev pub lookup_label_exact : SecondaryIndexes → Text → HashSet
lookup_label_exact s value = lookup value s.label_exact

abbrev pub lookup_host_exact : SecondaryIndexes → Text → HashSet
lookup_host_exact s value = lookup value s.host.exact

abbrev pub lookup_host_prefix : SecondaryIndexes → Text → HashSet
lookup_host_prefix s prefix = prefix_search s.host.sorted prefix

abbrev pub lookup_trace_id_exact : SecondaryIndexes → Text → HashSet
lookup_trace_id_exact s value = lookup value s.trace_id_exact

abbrev pub lookup_parent_exact : SecondaryIndexes → ℕ → HashSet
lookup_parent_exact s value = lookup value s.parent_exact

abbrev pub lookup_root_exact : SecondaryIndexes → ℕ → HashSet
lookup_root_exact s value = lookup value s.root_exact

abbrev pub lookup_created_gt : SecondaryIndexes → ℕ → HashSet
lookup_created_gt s timestamp = range (λ k. ltb timestamp k) s.created_btree

abbrev pub lookup_created_gte : SecondaryIndexes → ℕ → HashSet
lookup_created_gte s timestamp = range (λ k. leb timestamp k) s.created_btree

abbrev pub lookup_created_lt : SecondaryIndexes → ℕ → HashSet
lookup_created_lt s timestamp = range (λ k. ltb k timestamp) s.created_btree

abbrev pub lookup_created_lte : SecondaryIndexes → ℕ → HashSet
lookup_created_lte s timestamp = range (λ k. leb k timestamp) s.created_btree

abbrev pub lookup_created_eq : SecondaryIndexes → ℕ → HashSet
lookup_created_eq s timestamp = lookup timestamp s.created_btree

abbrev pub lookup_depth_gt : SecondaryIndexes → ℕ → HashSet
lookup_depth_gt s depth = range (λ k. ltb depth k) s.depth_btree

abbrev pub lookup_depth_gte : SecondaryIndexes → ℕ → HashSet
lookup_depth_gte s depth = range (λ k. leb depth k) s.depth_btree

abbrev pub lookup_depth_lt : SecondaryIndexes → ℕ → HashSet
lookup_depth_lt s depth = range (λ k. ltb k depth) s.depth_btree

abbrev pub lookup_depth_lte : SecondaryIndexes → ℕ → HashSet
lookup_depth_lte s depth = range (λ k. leb k depth) s.depth_btree

abbrev pub lookup_depth_eq : SecondaryIndexes → ℕ → HashSet
lookup_depth_eq s depth = lookup depth s.depth_btree

module _ ⦃x : QueryCrates⦄ where
  abbrev pub lookup_tag_exact_ci : SecondaryIndexes → Text → HashSet
  lookup_tag_exact_ci s value = lookup (x.to_lowercase value) s.tag_lower.exact

  abbrev pub lookup_tag_prefix_ci : SecondaryIndexes → Text → HashSet
  lookup_tag_prefix_ci s prefix = prefix_search s.tag_lower.sorted (x.to_lowercase prefix)

  abbrev pub lookup_title_exact_ci : SecondaryIndexes → Text → HashSet
  lookup_title_exact_ci s value = lookup (x.to_lowercase value) s.title_lower.exact

  abbrev pub lookup_title_prefix_ci : SecondaryIndexes → Text → HashSet
  lookup_title_prefix_ci s prefix = prefix_search s.title_lower.sorted (x.to_lowercase prefix)

  abbrev pub lookup_user_exact_ci : SecondaryIndexes → Text → HashSet
  lookup_user_exact_ci s value = lookup (x.to_lowercase value) s.user_lower.exact

  abbrev pub lookup_user_prefix_ci : SecondaryIndexes → Text → HashSet
  lookup_user_prefix_ci s prefix = prefix_search s.user_lower.sorted (x.to_lowercase prefix)

  abbrev pub lookup_service_exact_ci : SecondaryIndexes → Text → HashSet
  lookup_service_exact_ci s value = lookup (x.to_lowercase value) s.service_lower.exact

  abbrev pub lookup_service_prefix_ci : SecondaryIndexes → Text → HashSet
  lookup_service_prefix_ci s prefix = prefix_search s.service_lower.sorted (x.to_lowercase prefix)

-- Entries that are not below `s`, with a text `s` past the prefix: none starts with it.
any_entry-past :
    (prefix s : Text) (c : ℕ) (es : Entries)
    → less s prefix ≡ false
    → starts_with s prefix ≡ false
    → All (λ f. less f.0 s ≡ false) es
    → any_entry (λ t. starts_with t prefix) c es ≡ false
unfolding any_entry
any_entry-past prefix s c [] h k hs = refl
any_entry-past prefix s c ((t, j) ∷ es) h k (first, hs) =
    rw (starts_with-past prefix s t h k first) (ground (arith, any_entry-past prefix s c es h k hs))

collect_prefix_lem :
    (prefix : Text) (c : ℕ) (es : Entries)
    → All (λ f. less f.0 prefix ≡ false) es
    → IsSorted es
    → contains c (collect_prefix prefix es) ≡ any_entry (λ t. starts_with t prefix) c es
unfolding collect_prefix any_entry contains
collect_prefix_lem prefix c [] hs sorted = refl
collect_prefix_lem prefix c ((t, j) ∷ es) (first, hs) (below, sorted) =
    elim (Bool-cases (starts_with t prefix)) [
      | inl there ↦ rw there (
          contains-insert c j (collect_prefix prefix es)
          ∙ rw (collect_prefix_lem prefix c es hs sorted) (ground arith))
      | inr past ↦ rw past (rw (any_entry-past prefix t c es first past below) (ground arith))
    ]

not_below :
    (prefix s : Text) (es : Entries)
    → less s prefix ≡ false
    → All (λ f. less f.0 s ≡ false) es
    → All (λ f. less f.0 prefix ≡ false) es
not_below prefix s [] h hs = tt
not_below prefix s (f ∷ es) h (first, hs) =
    (less_trans prefix s f.0 h first, not_below prefix s es h hs)

from_partition_point :
    (prefix : Text) (c : ℕ) (es : Entries)
    → IsSorted es
    → contains c (collect_prefix prefix (drop (partition_point prefix es) es))
      ≡ any_entry (λ t. starts_with t prefix) c es
unfolding partition_point any_entry
from_partition_point prefix c [] sorted = collect_prefix_lem prefix c [] tt tt
from_partition_point prefix c ((t, j) ∷ es) (below, sorted) = elim (Bool-cases (less t prefix)) [
  | inl before ↦
      rw before
        (from_partition_point prefix c es sorted ∙ ground (arith, less-starts_with t prefix))
  | inr there ↦ rw there (
      collect_prefix_lem prefix c ((t, j) ∷ es) (there, not_below prefix t es there below)
        (below, sorted))
]

-- On a sorted index the binary search and the walk behind it find exactly the contexts that have an
-- entry with the prefix.
pub prefix_search_lem :
    (prefix : Text) (c : ℕ) (es : Entries)
    → IsSorted es
    → contains c (prefix_search es prefix) ≡ any_entry (λ t. starts_with t prefix) c es
unfolding prefix_search contains any_entry
prefix_search_lem prefix c [] sorted = refl
prefix_search_lem prefix c (e ∷ es) sorted = from_partition_point prefix c (e ∷ es) sorted

pub contains-range :
    (test : ℕ → Bool) (c : ℕ) (d : Dict ℕ HashSet) → contains c (range test d) ≡ any_key test c d
unfolding range any_key contains
contains-range test c [] = refl
contains-range test c ((k, ids) ∷ d) =
    ground (arith, contains-range test c d, contains-union c ids (range test d))
