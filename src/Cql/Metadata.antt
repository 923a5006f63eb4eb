-- ===== src/Cql/Metadata.antt =====
-- `ContextMetadata` of server/src/store.rs, which the first turn of a context carries, and the
-- cache of it. Of `Provenance` the fields that queries read are here.
use cxdb.Prelude.{ℕ, Bool, false, ◌&&◌, ◌||◌, Option, none, some, List, [], ◌∷◌, ◌==◌, nat_eq}
use cxdb.Prelude.Dict.{Dict}
use cxdb.Cql.Order.{Text}

pub record Provenance : Type 0 where
  pub parent_context_id : Option ℕ
  pub root_context_id : Option ℕ
  pub trace_id : Option Text
  pub on_behalf_of : Option Text
  pub service_name : Option Text
  pub host_name : Option Text

pub record ContextMetadata : Type 0 where
  pub client_tag : Option Text
  pub title : Option Text
  pub labels : Option (List Text)
  pub provenance : Option Provenance

-- `context_metadata_cache`: `none` where a context is known to have no metadata.
abbrev pub MetadataCache : Type 0
MetadataCache = Dict ℕ (Option ContextMetadata)

-- Whether the option holds a value that the test accepts.
abbrev pub is_some_and {ℓ} : {A : Type ℓ} → (A → Bool) → Option A → Bool
is_some_and test none = false
is_some_and test (some a) = test a

abbrev pub any {ℓ} : {A : Type ℓ} → (A → Bool) → List A → Bool
any test [] = false
any test (a ∷ rest) = test a || any test rest

-- Whether the cache has metadata for the context that the test accepts.
unfoldable pub some_meta : (ContextMetadata → Bool) → ℕ → MetadataCache → Bool
some_meta test c [] = false
some_meta test c ((k, m) ∷ cache) = (k == c && is_some_and test m) || some_meta test c cache

-- `and_then` on the provenance.
abbrev pub of_provenance {ℓ} : {A : Type ℓ} → (Provenance → Option A) → ContextMetadata → Option A
of_provenance {A} field m = elim m.provenance as (λ _. Option A) [ none ↦ none | some p ↦ field p ]
