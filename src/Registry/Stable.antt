-- ===== src/Registry/Stable.antt =====
-- `put_bundle`: the types of a registry, followed over each step of a bundle's merge.
use cxdb.Prelude.{
  ℕ, ◌≡◌, ◌∙◌, refl, sym, Option, none, some, [], ◌∷◌, ◌==◌, nat_eq, bytes_eq, bytes_beq_iff,
  Bool-cases, Option-cases, inl, inr, arith,
}
use mathlib.Core.Path.{subst}
use cxdb.Prelude.Dict.{Dict, get, insert, get-insert_cases, get-insert_self, get-insert_ne}
use cxdb.Prelude.Result.{Result, ok, err, stuck}
use cxdb.Wire.{Bytes}
use cxdb.Registry.{
  TypeVersion, RegistryBundle, TypeVersionSpec, TypeSpec, Registry, RegistryCrates,
  get_type_version,
}
use cxdb.Registry.Ingest.{
  After, with_normalized, new_type, or_new, normalize_version, ingest_version, ingest_versions,
  parse_version, with_type, ingest_types, with_types, with_enums, merge_enums, ingest_bundle,
  record_bundle, put_new, put_at, put_bundle,
}
use cxdb.Registry.Keeps.{IsConsistent, Follows, then_on-Carries, merge_version-Follows}

Follows-refl : (spec : TypeSpec) → IsConsistent spec → Follows spec spec
Follows-refl spec h = record { consistent = h; keeps = λ v n at. (n, at, refl) }

new_type-IsConsistent : IsConsistent new_type
unfolding get
new_type-IsConsistent = record { agree = λ v n at. cc }

-- What the types are after some went in: the tags of each agree, and no version lost its fields.
pub record Extends (old : Dict Bytes TypeSpec) (types : Dict Bytes TypeSpec) : Type 0 where
  pub consistent : (id : Bytes) (spec : TypeSpec) → get id types ≡ some spec → IsConsistent spec
  pub keeps :
      (id : Bytes) (v : ℕ) (n : TypeVersionSpec)
      → get_type_version id v old ≡ some n
      → (m : TypeVersionSpec) × (get_type_version id v types ≡ some m) × (m.fields ≡ n.fields)

get_type_version-or_new :
    (id : Bytes) (v : ℕ) (types : Dict Bytes TypeSpec)
    → get_type_version id v types ≡ get v (or_new (get id types)).versions
unfolding get
get_type_version-or_new id v types = elim (Option-cases (get id types)) [
  | inl absent ↦ rw absent
  | inr (spec, there) ↦ rw there
]

or_new-IsConsistent :
    (id : Bytes) (old types : Dict Bytes TypeSpec)
    → Extends old types
    → IsConsistent (or_new (get id types))
or_new-IsConsistent id old types h = elim (Option-cases (get id types)) [
  | inl absent ↦ subst (λ s. IsConsistent (or_new s)) (sym absent) new_type-IsConsistent
  | inr (spec, there) ↦
      subst (λ s. IsConsistent (or_new s)) (sym there) (h.consistent id spec there)
]

get_type_version-insert :
    (id j : Bytes) (v : ℕ) (spec : TypeSpec) (types : Dict Bytes TypeSpec) (k : TypeVersionSpec)
    → Follows (or_new (get id types)) spec
    → get_type_version j v types ≡ some k
    → (m : TypeVersionSpec) × (get_type_version j v (insert id spec types) ≡ some m)
      × (m.fields ≡ k.fields)
get_type_version-insert id j v spec types k new there = elim (Bool-cases (id == j)) [
  | inl same ↦
      let e : j ≡ id = sym ((bytes_beq_iff id j).0 same) in
      let there_at : get v (or_new (get id types)).versions ≡ some k =
        sym (get_type_version-or_new id v types)
        ∙ subst (λ i. get_type_version i v types ≡ some k) e there in
      let (m, at, fields) = new.keeps v k there_at in
      (m, rw (e, get-insert_self id spec types) at, fields)
  | inr other ↦
      (k, rw (get-insert_ne id j spec types (λ e. ground (arith, bytes_beq_iff id j))) there, refl)
]

insert-Extends :
    (old types : Dict Bytes TypeSpec) (id : Bytes) (spec : TypeSpec)
    → Extends old types
    → Follows (or_new (get id types)) spec
    → Extends old (insert id spec types)
insert-Extends old types id spec h new = record {
  consistent = λ j s at. elim (get-insert_cases id j spec s types at) [
    | inl (same, value) ↦ subst IsConsistent value new.consistent
    | inr (other, there) ↦ h.consistent j s there
  ];
  keeps = λ j v n at.
      let (k, there, fields) = h.keeps j v n at in
      let (m, now, kept) = get_type_version-insert id j v spec types k new there in
      (m, now, kept ∙ fields);
}

module _ ⦃x : RegistryCrates⦄ where
  with_normalized-Follows :
      (old spec : TypeSpec) (v : ℕ) (n : Result TypeVersionSpec)
      → Follows old spec
      → Follows old (with_normalized v spec n).1
  with_normalized-Follows old spec v (ok n) h = merge_version-Follows old spec v n h
  with_normalized-Follows old spec v (err e) h = h
  with_normalized-Follows old spec v stuck h = h

  ingest_version-Follows :
      (old spec : TypeSpec) (version_str : Bytes) (d : TypeVersion) (v : Result ℕ)
      → Follows old spec
      → Follows old (ingest_version version_str d spec v).1
  ingest_version-Follows old spec version_str d (ok v) h =
      with_normalized-Follows old spec v (normalize_version v d) h
  ingest_version-Follows old spec version_str d (err e) h = h
  ingest_version-Follows old spec version_str d stuck h = h

  ingest_versions-Follows :
      (versions : Dict Bytes TypeVersion) (old spec : TypeSpec)
      → Follows old spec
      → Follows old (ingest_versions versions spec).1
  unfolding ingest_versions
  ingest_versions-Follows [] old spec h = h
  ingest_versions-Follows ((version_str, d) ∷ more) old spec h =
      then_on-Carries (Follows old) (ingest_version version_str d spec (parse_version version_str))
        (ingest_versions more)
        (ingest_version-Follows old spec version_str d (parse_version version_str) h)
        (λ s. ingest_versions-Follows more old s)

  with_type-Extends :
      (old types : Dict Bytes TypeSpec) (id : Bytes) (a : After TypeSpec)
      → Extends old types
      → Follows (or_new (get id types)) a.1
      → Extends old (with_type id types a).1
  with_type-Extends old types id (t, spec) h new = insert-Extends old types id spec h new

  ingest_types-Extends :
      (entries : Dict Bytes (Dict Bytes TypeVersion)) (old types : Dict Bytes TypeSpec)
      → Extends old types
      → Extends old (ingest_types entries types).1
  unfolding ingest_types
  ingest_types-Extends [] old types h = h
  ingest_types-Extends ((id, versions) ∷ more) old types h =
      let before = or_new (get id types) in
      let went = ingest_versions versions before in
      let follows =
        ingest_versions-Follows versions before before
          (Follows-refl before (or_new-IsConsistent id old types h)) in
      then_on-Carries (Extends old) (with_type id types went) (ingest_types more)
        (with_type-Extends old types id went h follows) (λ s. ingest_types-Extends more old s)

  with_types-Extends :
      (old : Dict Bytes TypeSpec) (r : Registry) (a : After (Dict Bytes TypeSpec))
      → Extends old a.1
      → Extends old (with_types r a).1.types
  with_types-Extends old r (ok t, types) h = h
  with_types-Extends old r (err e, types) h = h
  with_types-Extends old r (stuck, types) h = h

  with_enums-Extends :
      (old : Dict Bytes TypeSpec) (b : RegistryBundle) (r : Registry)
      (a : After (Dict Bytes (Dict Bytes Bytes)))
      → Extends old r.types
      → Extends old (with_enums b r a).1.types
  with_enums-Extends old b r (ok t, enums) h =
      with_types-Extends old (record r { enums = enums }) (ingest_types b.types r.types)
        (ingest_types-Extends b.types old r.types h)
  with_enums-Extends old b r (err e, enums) h = h
  with_enums-Extends old b r (stuck, enums) h = h

  pub ingest_bundle-Extends :
      (old : Dict Bytes TypeSpec) (b : RegistryBundle) (r : Registry)
      → Extends old r.types
      → Extends old (ingest_bundle b r).1.types
  unfolding ingest_bundle
  ingest_bundle-Extends old b r h = elim (Bool-cases (b.registry_version == 0)) [
    | inl zero_version ↦ rw zero_version (h)
    | inr other ↦ rw other (with_enums-Extends old b r (merge_enums b.enums r.enums) h)
  ]

  record_bundle-types :
      (id raw : Bytes) (a : After Registry) → (record_bundle id raw a).1.types ≡ a.1.types
  record_bundle-types id raw (ok t, r) = refl
  record_bundle-types id raw (err e, r) = refl
  record_bundle-types id raw (stuck, r) = refl

  put_new-Extends :
      (old : Dict Bytes TypeSpec) (id raw : Bytes) (r : Registry) (b : Option RegistryBundle)
      → Extends old r.types
      → Extends old (put_new id raw r b).1.types
  put_new-Extends old id raw r none h = h
  put_new-Extends old id raw r (some b) h = elim (Bool-cases (b.bundle_id == id)) [
    | inl same ↦
        rw (same, record_bundle-types id raw (ingest_bundle b r)) (ingest_bundle-Extends old b r h)
    | inr other ↦ rw other (h)
  ]

  put_at-Extends :
      (old : Dict Bytes TypeSpec) (id raw : Bytes) (r : Registry) (at : Option Bytes)
      → Extends old r.types
      → Extends old (put_at id raw r at).1.types
  put_at-Extends old id raw r none h = put_new-Extends old id raw r (x.parse_bundle raw) h
  put_at-Extends old id raw r (some existing) h = elim (Bool-cases (existing == raw)) [
    | inl same ↦ rw same (h)
    | inr other ↦ rw other (h)
  ]

  pub put_bundle-Extends :
      (old : Dict Bytes TypeSpec) (id raw : Bytes) (r : Registry)
      → Extends old r.types
      → Extends old (put_bundle id raw r).1.types
  unfolding put_bundle
  put_bundle-Extends old id raw r h = put_at-Extends old id raw r (get id r.bundles) h
