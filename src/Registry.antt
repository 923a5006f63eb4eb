-- ===== src/Registry.antt =====
-- server/src/registry/mod.rs: the registry of types. An operation gives its result and the new registry,
-- also where it fails part of the way. The writing of files, their names and the statistics are left out.
pub mod Ingest
pub mod Keeps
pub mod Stable
pub mod Open
pub mod Puts
use cxdb.Prelude.{
  ℕ, Bool, true, false, ◌&&◌, Option, none, some, List, [], ◌∷◌, ◌==◌, nat_eq, bytes_eq,
  if◌then◌else◌, length, nat_beq, bytes_beq,
}
use cxdb.Prelude.Dict.{Dict, get, insert}
use cxdb.Prelude.Result.{
  Result, ok, err, stuck, invalid_input, ensure, ok_or, ◌>>=◌, ◌>>◌, StoreError,
}
use cxdb.Wire.{Bytes}

-- What the code asks of a `serde_json::Value` that stands for items: a text, or an object with the
-- texts under `type` and `ref`.
pub data JsonItems : Type 0 where
  text : Bytes → JsonItems
  object : Option Bytes → Option Bytes → JsonItems
  other : JsonItems

pub record RendererSpec : Type 0 where
  pub esm_url : Bytes
  pub renderer_component : Option Bytes
  pub integrity : Option Bytes

pub record FieldDef : Type 0 where
  pub name : Bytes
  pub field_type : Bytes
  pub enum_ref : Option Bytes
  pub type_ref : Option Bytes
  pub is_optional : Option Bool
  pub items : Option JsonItems

pub record TypeVersion : Type 0 where
  pub fields : Dict Bytes FieldDef
  pub renderer : Option RendererSpec

-- A `TypeEntry` is its versions, by their texts.
pub record RegistryBundle : Type 0 where
  pub registry_version : ℕ
  pub bundle_id : Bytes
  pub types : Dict Bytes (Dict Bytes TypeVersion)
  pub enums : Dict Bytes (Dict Bytes Bytes)

pub data ItemsSpec : Type 0 where
  simple : Bytes → ItemsSpec
  reference : Bytes → ItemsSpec

pub record FieldSpec : Type 0 where
  pub name : Bytes
  pub field_type : Bytes
  pub enum_ref : Option Bytes
  pub type_ref : Option Bytes
  pub is_optional : Bool
  pub items : Option ItemsSpec

pub record TypeVersionSpec : Type 0 where
  pub version : ℕ
  pub fields : Dict ℕ FieldSpec
  pub renderer : Option RendererSpec

pub record FieldSignature : Type 0 where
  pub field_type : Bytes
  pub enum_ref : Option Bytes

pub record TypeSpec : Type 0 where
  pub versions : Dict ℕ TypeVersionSpec
  pub tag_schema : Dict ℕ FieldSignature

pub record Registry : Type 0 where
  pub bundles : Dict Bytes Bytes
  pub types : Dict Bytes TypeSpec
  pub enums : Dict Bytes (Dict Bytes Bytes)
  pub last_bundle_id : Option Bytes

pub data PutOutcome : Type 0 where
  created : PutOutcome
  already_exists : PutOutcome

-- serde_json on a bundle's bytes, and `str::parse` for `u32` and `u64`.
pub record RegistryCrates : Type 0 where
  pub parse_bundle : Bytes → Option RegistryBundle
  pub parse_u32 : Bytes → Option ℕ
  pub parse_u64 : Bytes → Option ℕ

-- The derived `==`.
abbrev pub option_beq : Option Bytes → Option Bytes → Bool
option_beq none none = true
option_beq none (some b) = false
option_beq (some a) none = false
option_beq (some a) (some b) = a == b

abbrev pub signature_beq : FieldSignature → FieldSignature → Bool
signature_beq s t = s.field_type == t.field_type && option_beq s.enum_ref t.enum_ref

abbrev pub bool_beq : Bool → Bool → Bool
bool_beq true b = b
bool_beq false true = false
bool_beq false false = true

abbrev pub items_beq : Option ItemsSpec → Option ItemsSpec → Bool
items_beq none none = true
items_beq (some (ItemsSpec.simple a)) (some (ItemsSpec.simple b)) = a == b
items_beq (some (ItemsSpec.reference a)) (some (ItemsSpec.reference b)) = a == b
items_beq _ _ = false

abbrev pub field_beq : FieldSpec → FieldSpec → Bool
field_beq f g =
    f.name == g.name
    && (f.field_type == g.field_type
        && (option_beq f.enum_ref g.enum_ref
            && (option_beq f.type_ref g.type_ref
                && (bool_beq f.is_optional g.is_optional && items_beq f.items g.items))))

abbrev pub holds_at {ℓ} : {V : Type ℓ} → (V → Bool) → Option V → Bool
holds_at test none = false
holds_at test (some v) = test v

-- `==` of two maps: as many keys, and every entry of the one in the other.
abbrev pub fields_in : Dict ℕ FieldSpec → Dict ℕ FieldSpec → Bool
fields_in [] e = true
fields_in ((k, v) ∷ d) e = holds_at (field_beq v) (get k e) && fields_in d e

abbrev pub fields_beq : Dict ℕ FieldSpec → Dict ℕ FieldSpec → Bool
fields_beq d e = nat_beq (length d) (length e) && fields_in d e

abbrev pub mapping_in : Dict Bytes Bytes → Dict Bytes Bytes → Bool
mapping_in [] e = true
mapping_in ((k, v) ∷ d) e = holds_at (bytes_beq v) (get k e) && mapping_in d e

abbrev pub mapping_beq : Dict Bytes Bytes → Dict Bytes Bytes → Bool
mapping_beq d e = nat_beq (length d) (length e) && mapping_in d e

abbrev pub signature : FieldSpec → FieldSignature
signature f = record { field_type = f.field_type; enum_ref = f.enum_ref }

-- A `ref` makes a reference where there is no `type` or the type is `ref`.
abbrev pub object_items : Option Bytes → Option Bytes → Option ItemsSpec
object_items none none = none
object_items none (some r) = some (ItemsSpec.reference r)
object_items (some t) none = if t == (114 ∷ 101 ∷ 102 ∷ []) then none else some (ItemsSpec.simple t)
object_items (some t) (some r) =
    if t == (114 ∷ 101 ∷ 102 ∷ []) then some (ItemsSpec.reference r) else some (ItemsSpec.simple t)

abbrev pub items_of : Option JsonItems → Option ItemsSpec
items_of none = none
items_of (some (JsonItems.text s)) = some (ItemsSpec.simple s)
items_of (some (JsonItems.object t r)) = object_items t r
items_of (some JsonItems.other) = none

abbrev pub or_false : Option Bool → Bool
or_false none = false
or_false (some b) = b

abbrev pub field_of : FieldDef → FieldSpec
field_of f = record {
  name = f.name;
  field_type = f.field_type;
  enum_ref = f.enum_ref;
  type_ref = f.type_ref;
  is_optional = or_false f.is_optional;
  items = items_of f.items;
}

abbrev pub version_of : ℕ → Option TypeSpec → Option TypeVersionSpec
version_of version none = none
version_of version (some spec) = get version spec.versions

abbrev pub get_type_version : Bytes → ℕ → Dict Bytes TypeSpec → Option TypeVersionSpec
get_type_version type_id version types = version_of version (get type_id types)
