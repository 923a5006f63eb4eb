-- ===== src/Registry/Ingest.antt =====
-- `put_bundle` and `ingest_bundle`: enums and types are merged one by one, and what was merged before a
-- failure stays.
use cxdb.Prelude.{
  ℕ, Bool, true, false, ◌&&◌, Option, none, some, [], ◌∷◌, ◌==◌, nat_eq, bytes_eq, if◌then◌else◌,
}
use cxdb.Prelude.Dict.{Dict, get, insert}
use cxdb.Prelude.Result.{Result, ok, err, stuck, invalid_input, ensure, ok_or, ◌>>=◌}
use cxdb.Wire.{Bytes}
use cxdb.Registry.{
  FieldDef, TypeVersion, RegistryBundle, FieldSpec, TypeVersionSpec, FieldSignature, TypeSpec,
  Registry, RendererSpec, PutOutcome, RegistryCrates, signature_beq, fields_beq, mapping_beq,
  signature, field_of,
}

-- A result, and the state behind it.
abbrev pub After {ℓ} : Type ℓ → Type ℓ
After S = Result (Unit {0}) × S

-- A step that goes on with the state of the one before, or ends with its error.
abbrev pub then_on {ℓ} : {S : Type ℓ} → After S → (S → After S) → After S
then_on (ok t, s) next = next s
then_on (err e, s) next = (err e, s)
then_on (stuck, s) next = (stuck, s)

abbrev pub merge_mapping :
    Bytes
    → Dict Bytes Bytes
    → Dict Bytes (Dict Bytes Bytes)
    → Option (Dict Bytes Bytes)
    → After (Dict Bytes (Dict Bytes Bytes))
merge_mapping id mapping enums none = (ok tt, insert id mapping enums)
merge_mapping id mapping enums (some existing) =
    if mapping_beq existing mapping
    then (ok tt, enums)
    else (err (invalid_input "enum already exists with different mapping"), enums)

unfoldable pub merge_enums :
    Dict Bytes (Dict Bytes Bytes)
    → Dict Bytes (Dict Bytes Bytes)
    → After (Dict Bytes (Dict Bytes Bytes))
merge_enums [] enums = (ok tt, enums)
merge_enums ((id, mapping) ∷ more) enums =
    then_on (merge_mapping id mapping enums (get id enums)) (merge_enums more)

abbrev pub merge_tag :
    ℕ
    → FieldSignature
    → Dict ℕ FieldSignature
    → Option FieldSignature
    → After (Dict ℕ FieldSignature)
merge_tag tag sig schema none = (ok tt, insert tag sig schema)
merge_tag tag sig schema (some existing) =
    if signature_beq existing sig
    then (ok tt, schema)
    else (err (invalid_input "tag reuse conflict"), schema)

unfoldable pub merge_tags : Dict ℕ FieldSpec → Dict ℕ FieldSignature → After (Dict ℕ FieldSignature)
merge_tags [] schema = (ok tt, schema)
merge_tags ((tag, field) ∷ fields) schema =
    then_on (merge_tag tag (signature field) schema (get tag schema)) (merge_tags fields)

-- A renderer is taken where there was none.
abbrev pub keep_renderer : Option RendererSpec → Option RendererSpec → Option RendererSpec
keep_renderer none offered = offered
keep_renderer (some r) offered = some r

abbrev pub with_version :
    ℕ → TypeVersionSpec → TypeSpec → After (Dict ℕ FieldSignature) → After TypeSpec
with_version v n spec (ok t, schema) =
    (ok tt, record { versions = insert v n spec.versions; tag_schema = schema })
with_version v n spec (err e, schema) = (err e, record spec { tag_schema = schema })
with_version v n spec (stuck, schema) = (stuck, record spec { tag_schema = schema })

abbrev pub merge_into : ℕ → TypeVersionSpec → TypeSpec → Option TypeVersionSpec → After TypeSpec
merge_into v n spec none = with_version v n spec (merge_tags n.fields spec.tag_schema)
merge_into v n spec (some existing) =
    if fields_beq existing.fields n.fields
    then (
      ok tt,
      record spec {
        versions =
            insert v (record existing { renderer = keep_renderer existing.renderer n.renderer })
              spec.versions;
      },
    )
    else (err (invalid_input "type version differs from existing"), spec)

unfoldable pub merge_version : ℕ → TypeVersionSpec → TypeSpec → After TypeSpec
unfolding merge_tags
merge_version v n spec = merge_into v n spec (get v spec.versions)

abbrev pub with_normalized : ℕ → TypeSpec → Result TypeVersionSpec → After TypeSpec
with_normalized v spec (ok n) = merge_version v n spec
with_normalized v spec (err e) = (err e, spec)
with_normalized v spec stuck = (stuck, spec)

abbrev pub has_enum : Dict Bytes (Dict Bytes Bytes) → Option Bytes → Bool
has_enum enums none = true
has_enum enums (some id) = elim (get id enums) [ none ↦ false | some mapping ↦ true ]

abbrev pub fields_have_enums : Dict Bytes (Dict Bytes Bytes) → Dict ℕ FieldSpec → Bool
fields_have_enums enums [] = true
fields_have_enums enums ((tag, f) ∷ fields) =
    has_enum enums f.enum_ref && fields_have_enums enums fields

abbrev pub versions_have_enums : Dict Bytes (Dict Bytes Bytes) → Dict ℕ TypeVersionSpec → Bool
versions_have_enums enums [] = true
versions_have_enums enums ((v, n) ∷ versions) =
    fields_have_enums enums n.fields && versions_have_enums enums versions

abbrev pub types_have_enums : Dict Bytes (Dict Bytes Bytes) → Dict Bytes TypeSpec → Bool
types_have_enums enums [] = true
types_have_enums enums ((id, spec) ∷ types) =
    versions_have_enums enums spec.versions && types_have_enums enums types

abbrev pub new_type : TypeSpec
new_type = record { versions = []; tag_schema = [] }

abbrev pub or_new : Option TypeSpec → TypeSpec
or_new none = new_type
or_new (some spec) = spec

module _ ⦃x : RegistryCrates⦄ where
  unfoldable pub normalize_fields :
      Dict Bytes FieldDef → Dict ℕ FieldSpec → Result (Dict ℕ FieldSpec)
  normalize_fields [] fields = ok fields
  normalize_fields ((tag_str, f) ∷ more) fields = do
    tag ← ok_or (x.parse_u64 tag_str) (invalid_input "invalid field tag")
    normalize_fields more (insert tag (field_of f) fields)

  unfoldable pub normalize_version : ℕ → TypeVersion → Result TypeVersionSpec
  unfolding normalize_fields
  normalize_version version d = do
    fields ← normalize_fields d.fields []
    ok (record { version = version; fields = fields; renderer = d.renderer })

  abbrev pub ingest_version : Bytes → TypeVersion → TypeSpec → Result ℕ → After TypeSpec
  ingest_version version_str d spec (ok v) = with_normalized v spec (normalize_version v d)
  ingest_version version_str d spec (err e) = (err e, spec)
  ingest_version version_str d spec stuck = (stuck, spec)

  abbrev pub parse_version : Bytes → Result ℕ
  parse_version version = ok_or (x.parse_u32 version) (invalid_input "invalid type version")

  unfoldable pub ingest_versions : Dict Bytes TypeVersion → TypeSpec → After TypeSpec
  unfolding normalize_version merge_version
  ingest_versions [] spec = (ok tt, spec)
  ingest_versions ((version_str, d) ∷ more) spec =
      then_on (ingest_version version_str d spec (parse_version version_str)) (ingest_versions more)

  abbrev pub with_type : Bytes → Dict Bytes TypeSpec → After TypeSpec → After (Dict Bytes TypeSpec)
  with_type id types (r, spec) = (r, insert id spec types)

  unfoldable pub ingest_types :
      Dict Bytes (Dict Bytes TypeVersion) → Dict Bytes TypeSpec → After (Dict Bytes TypeSpec)
  unfolding ingest_versions
  ingest_types [] types = (ok tt, types)
  ingest_types ((id, versions) ∷ more) types =
      then_on (with_type id types (ingest_versions versions (or_new (get id types))))
        (ingest_types more)

  abbrev pub with_types : Registry → After (Dict Bytes TypeSpec) → After Registry
  with_types r (ok t, types) = (
    ensure (types_have_enums r.enums types) (invalid_input "missing enum"),
    record r { types = types },
  )
  with_types r (err e, types) = (err e, record r { types = types })
  with_types r (stuck, types) = (stuck, record r { types = types })

  abbrev pub with_enums :
      RegistryBundle → Registry → After (Dict Bytes (Dict Bytes Bytes)) → After Registry
  with_enums b r (ok t, enums) =
      with_types (record r { enums = enums }) (ingest_types b.types r.types)
  with_enums b r (err e, enums) = (err e, record r { enums = enums })
  with_enums b r (stuck, enums) = (stuck, record r { enums = enums })

  unfoldable pub ingest_bundle : RegistryBundle → Registry → After Registry
  unfolding merge_enums ingest_types
  ingest_bundle b r =
      if b.registry_version == 0
      then (err (invalid_input "registry_version must be > 0"), r)
      else with_enums b r (merge_enums b.enums r.enums)

  -- Where the bundle went in, it is kept with its bytes.
  abbrev pub record_bundle : Bytes → Bytes → After Registry → Result PutOutcome × Registry
  record_bundle id raw (ok t, r) = (
    ok PutOutcome.created,
    record r { bundles = insert id raw r.bundles; last_bundle_id = some id },
  )
  record_bundle id raw (err e, r) = (err e, r)
  record_bundle id raw (stuck, r) = (stuck, r)

  abbrev pub put_new :
      Bytes → Bytes → Registry → Option RegistryBundle → Result PutOutcome × Registry
  put_new id raw r none = (err (invalid_input "invalid json"), r)
  put_new id raw r (some b) =
      if b.bundle_id == id
      then record_bundle id raw (ingest_bundle b r)
      else (err (invalid_input "bundle_id does not match path"), r)

  abbrev pub put_at : Bytes → Bytes → Registry → Option Bytes → Result PutOutcome × Registry
  put_at id raw r (some existing) =
      if existing == raw
      then (ok PutOutcome.already_exists, r)
      else (err (invalid_input "bundle_id already exists with different content"), r)
  put_at id raw r none = put_new id raw r (x.parse_bundle raw)

  unfoldable pub put_bundle : Bytes → Bytes → Registry → Result PutOutcome × Registry
  unfolding ingest_bundle
  put_bundle id raw r = put_at id raw r (get id r.bundles)
