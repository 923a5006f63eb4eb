-- ===== src/Tests/Types.antt =====
-- The properties of the registry of types at concrete bundles.
use cxdb.Prelude.{
  ℕ, ◌≡◌, refl, Option, none, some, List, [], ◌∷◌, nat_eq, bytes_eq, ◌==◌, if◌then◌else◌,
}
use cxdb.Prelude.Dict.{get, insert}
use cxdb.Prelude.Result.{ok, err, invalid_input}
use cxdb.Wire.{Bytes}
use cxdb.Registry.{
  FieldDef, TypeVersion, RegistryBundle, TypeVersionSpec, PutOutcome, Registry, RegistryCrates,
  signature, field_of, get_type_version,
}
use cxdb.Registry.Ingest.{put_bundle}
use cxdb.Registry.Open.{new_registry, open_bundles}
use cxdb.Registry.Puts.{put_all, put_all-signature, put_all-fields, put_bundle_again}

abbrev text_field : Bytes → FieldDef
text_field name = record {
  name = name;
  field_type = 115 ∷ [];
  enum_ref = none;
  type_ref = none;
  is_optional = none;
  items = none;
}

abbrev count_field : FieldDef
count_field = record {
  name = 110 ∷ [];
  field_type = 117 ∷ [];
  enum_ref = none;
  type_ref = none;
  is_optional = none;
  items = none;
}

abbrev one_field : FieldDef → TypeVersion
one_field f = record { fields = (49 ∷ [], f) ∷ []; renderer = none }

abbrev bundle : Bytes → Bytes → TypeVersion → RegistryBundle
bundle id version d = record {
  registry_version = 1;
  bundle_id = id;
  types = (84 ∷ [], (version, d) ∷ []) ∷ [];
  enums = [];
}

-- Two versions of a type whose field under the tag 1 is renamed, and a third that changes its type.
abbrev parsed : Bytes → Option RegistryBundle
parsed raw =
    if raw == (1 ∷ [])
    then some (bundle (65 ∷ []) (49 ∷ []) (one_field (text_field (97 ∷ []))))
    else if raw == (2 ∷ [])
    then some (bundle (66 ∷ []) (50 ∷ []) (one_field (text_field (98 ∷ []))))
    else if raw == (3 ∷ [])
    then some (bundle (67 ∷ []) (51 ∷ []) (one_field count_field))
    else none

abbrev digit : Bytes → Option ℕ
digit text =
    if text == (49 ∷ [])
    then some 1
    else if text == (50 ∷ [])
    then some 2
    else if text == (51 ∷ [])
    then some 3
    else none

instance abbrev sample_registry_crates : RegistryCrates
sample_registry_crates = record { parse_bundle = parsed; parse_u32 = digit; parse_u64 = digit }

-- The registry is opened on the first bundle's file, and the other two are put.
abbrev files : List Bytes
files = (1 ∷ []) ∷ []

abbrev opened : Registry
opened = (put_bundle (65 ∷ []) (1 ∷ []) new_registry).1

abbrev puts : List (Bytes × Bytes)
puts = (66 ∷ [], 2 ∷ []) ∷ (67 ∷ [], 3 ∷ []) ∷ []

opened_held : open_bundles files ≡ ok opened
unfolding open_bundles put_bundle get insert
opened_held = refl

abbrev version : ℕ → FieldDef → TypeVersionSpec
version v f = record { version = v; fields = (1, field_of f) ∷ []; renderer = none }

first_held :
    get_type_version (84 ∷ []) 1 (put_all puts opened).types
    ≡ some (version 1 (text_field (97 ∷ [])))
unfolding put_all put_bundle get insert
first_held = refl

second_held :
    get_type_version (84 ∷ []) 2 (put_all puts opened).types
    ≡ some (version 2 (text_field (98 ∷ [])))
unfolding put_all put_bundle get insert
second_held = refl

third_refused : get_type_version (84 ∷ []) 3 (put_all puts opened).types ≡ none
unfolding put_all put_bundle get insert
third_refused = refl

first_put : (put_bundle (65 ∷ []) (1 ∷ []) new_registry).0 ≡ ok PutOutcome.created
unfolding put_bundle get insert
first_put = refl

put_all-signature_example :
    signature (field_of (text_field (97 ∷ []))) ≡ signature (field_of (text_field (98 ∷ [])))
unfolding get
put_all-signature_example =
    put_all-signature files opened puts (84 ∷ []) 1 2 (version 1 (text_field (97 ∷ [])))
      (version 2 (text_field (98 ∷ []))) 1 (field_of (text_field (97 ∷ [])))
      (field_of (text_field (98 ∷ []))) opened_held first_held second_held refl refl

put_all-fields_example :
    (m : TypeVersionSpec) × (get_type_version (84 ∷ []) 1 (put_all puts (put_all puts opened)).types
      ≡ some m)
    × (m.fields ≡ (1, field_of (text_field (97 ∷ []))) ∷ [])
put_all-fields_example =
    put_all-fields files opened puts puts (84 ∷ []) 1 (version 1 (text_field (97 ∷ []))) opened_held
      first_held

put_bundle_again_example :
    (put_bundle (65 ∷ []) (1 ∷ []) (put_bundle (65 ∷ []) (1 ∷ []) new_registry).1
      ≡ (ok PutOutcome.already_exists, (put_bundle (65 ∷ []) (1 ∷ []) new_registry).1))
    × (put_bundle (65 ∷ []) (2 ∷ []) (put_bundle (65 ∷ []) (1 ∷ []) new_registry).1 ≡ (
      err (invalid_input "bundle_id already exists with different content"),
      (put_bundle (65 ∷ []) (1 ∷ []) new_registry).1,
    ))
put_bundle_again_example =
    put_bundle_again (65 ∷ []) (1 ∷ []) (2 ∷ []) new_registry PutOutcome.created first_put
      (λ same. cc)
