-- ===== src/Registry/Puts.antt =====
-- `put_bundle`, one call after the other, on a registry that was opened on the files of a directory.
use cxdb.Prelude.{
  ℕ, ◌≡◌, ◌≢◌, ◌∙◌, refl, ap, Option, none, some, List, [], ◌∷◌, All, ◌==◌, nat_eq, bytes_eq,
  bytes_beq_iff, nat_beq_iff, Bool-cases, Option-cases, inl, inr,
}
use mathlib.Core.Path.{subst}
use cxdb.Prelude.Dict.{Dict, get, get-insert_self}
use cxdb.Prelude.Result.{ok, err, stuck, invalid_input}
use cxdb.Wire.{Bytes}
use cxdb.Registry.{
  RegistryBundle, FieldSpec, TypeVersionSpec, FieldSignature, TypeSpec, Registry, PutOutcome,
  RegistryCrates, signature, get_type_version,
}
use cxdb.Registry.Ingest.{After, ingest_bundle, record_bundle, put_new, put_at, put_bundle}
use cxdb.Registry.Open.{open_bundles, open_bundles-Extends}
use cxdb.Registry.Stable.{Extends, put_bundle-Extends}

All-get :
    (tag : ℕ) (f : FieldSpec) (schema : Dict ℕ FieldSignature) (fields : Dict ℕ FieldSpec)
    → All (λ g. get g.0 schema ≡ some (signature g.1)) fields
    → get tag fields ≡ some f
    → get tag schema ≡ some (signature f)
unfolding get
All-get tag f schema [] all h = cc
All-get tag f schema ((j, g) ∷ fields) (first, rest) h = elim (Bool-cases (j == tag)) [
  | inl same ↦
      let e : j ≡ tag = (nat_beq_iff j tag).0 same in
      let at : some g ≡ some f = rw same at h in
      let value : g ≡ f = cc in
      subst (λ i. get i schema ≡ some (signature f)) e (first ∙ ap (λ k. some (signature k)) value)
  | inr other ↦
      let there : get tag fields ≡ some f = rw other at h in All-get tag f schema fields rest there
]

Extends-refl : (old types : Dict Bytes TypeSpec) → Extends old types → Extends types types
Extends-refl old types h = record { consistent = h.consistent; keeps = λ id v n at. (n, at, refl) }

-- The tags of a type's versions, once the types are consistent.
Extends-signature :
    (old types : Dict Bytes TypeSpec) (id : Bytes) (v w : ℕ) (n m : TypeVersionSpec) (tag : ℕ)
    (f g : FieldSpec)
    → Extends old types
    → get_type_version id v types ≡ some n
    → get_type_version id w types ≡ some m
    → get tag n.fields ≡ some f
    → get tag m.fields ≡ some g
    → signature f ≡ signature g
Extends-signature old types id v w n m tag f g h one two has_f has_g =
    elim (Option-cases (get id types)) [
      | inl absent ↦ let e : none ≡ some n = rw absent at one in cc
      | inr (spec, there) ↦
          let good = h.consistent id spec there in
          let at_v : get v spec.versions ≡ some n = rw there at one in
          let at_w : get w spec.versions ≡ some m = rw there at two in
          let tag_f = All-get tag f spec.tag_schema n.fields (good.agree v n at_v) has_f in
          let tag_g = All-get tag g spec.tag_schema m.fields (good.agree w m at_w) has_g in cc
    ]

module _ ⦃x : RegistryCrates⦄ where
  -- Every bundle is put, whether or not the ones before it went in.
  unfoldable pub put_all : List (Bytes × Bytes) → Registry → Registry
  unfolding put_bundle
  put_all [] r = r
  put_all ((id, raw) ∷ more) r = put_all more (put_bundle id raw r).1

  put_all-Extends :
      (puts : List (Bytes × Bytes)) (old : Dict Bytes TypeSpec) (r : Registry)
      → Extends old r.types
      → Extends old (put_all puts r).types
  unfolding put_all
  put_all-Extends [] old r h = h
  put_all-Extends ((id, raw) ∷ more) old r h =
      put_all-Extends more old (put_bundle id raw r).1 (put_bundle-Extends old id raw r h)

  -- After a registry was opened on any files and any bundles were put into it, accepted or not, two
  -- fields that stand under one tag in two versions of a type have the same type and the same enum.
  pub put_all-signature :
      (files : List Bytes) (opened : Registry) (puts : List (Bytes × Bytes)) (id : Bytes) (v w : ℕ)
      (n m : TypeVersionSpec) (tag : ℕ) (f g : FieldSpec)
      → open_bundles files ≡ ok opened
      → get_type_version id v (put_all puts opened).types ≡ some n
      → get_type_version id w (put_all puts opened).types ≡ some m
      → get tag n.fields ≡ some f
      → get tag m.fields ≡ some g
      → signature f ≡ signature g
  put_all-signature files opened puts id v w n m tag f g went =
      Extends-signature [] (put_all puts opened).types id v w n m tag f g
        (put_all-Extends puts [] opened (open_bundles-Extends files opened went))

  -- A version of a type that a registry holds, after it was opened on any files and any bundles were put
  -- into it, is still held with the same fields after any further bundles, accepted or not.
  pub put_all-fields :
      (files : List Bytes) (opened : Registry) (puts later : List (Bytes × Bytes)) (id : Bytes)
      (v : ℕ) (n : TypeVersionSpec)
      → open_bundles files ≡ ok opened
      → get_type_version id v (put_all puts opened).types ≡ some n
      → (m : TypeVersionSpec) × (get_type_version id v (put_all later (put_all puts opened)).types
          ≡ some m)
        × (m.fields ≡ n.fields)
  put_all-fields files opened puts later id v n went h =
      let r = put_all puts opened in
      let at_start = open_bundles-Extends files opened went in
      let so_far = Extends-refl [] r.types (put_all-Extends puts [] opened at_start) in
      (put_all-Extends later r.types r so_far).keeps id v n h

  record_bundle-created :
      (id raw : Bytes) (a : After Registry) (o : PutOutcome)
      → (record_bundle id raw a).0 ≡ ok o
      → get id (record_bundle id raw a).1.bundles ≡ some raw
  record_bundle-created id raw (ok t, r) o h = get-insert_self id raw r.bundles
  record_bundle-created id raw (err e, r) o h = cc
  record_bundle-created id raw (stuck, r) o h = cc

  put_new-created :
      (id raw : Bytes) (r : Registry) (b : Option RegistryBundle) (o : PutOutcome)
      → (put_new id raw r b).0 ≡ ok o
      → get id (put_new id raw r b).1.bundles ≡ some raw
  put_new-created id raw r none o h = cc
  put_new-created id raw r (some b) o h = elim (Bool-cases (b.bundle_id == id)) [
    | inl same ↦
        let went : (record_bundle id raw (ingest_bundle b r)).0 ≡ ok o = rw same at h in
        rw same (record_bundle-created id raw (ingest_bundle b r) o went)
    | inr other ↦ cc
  ]

  put_at-created :
      (id raw : Bytes) (r : Registry) (at : Option Bytes) (o : PutOutcome)
      → get id r.bundles ≡ at
      → (put_at id raw r at).0 ≡ ok o
      → get id (put_at id raw r at).1.bundles ≡ some raw
  put_at-created id raw r none o absent h = put_new-created id raw r (x.parse_bundle raw) o h
  put_at-created id raw r (some existing) o at h = elim (Bool-cases (existing == raw)) [
    | inl same ↦ rw same (at ∙ ap some ((bytes_beq_iff existing raw).0 same))
    | inr other ↦ cc
  ]

  put_at_same :
      (id raw : Bytes) (r : Registry)
      → put_at id raw r (some raw) ≡ (ok PutOutcome.already_exists, r)
  put_at_same id raw r = rw ((bytes_beq_iff raw raw).1 refl)

  put_at_other :
      (id raw other : Bytes) (r : Registry)
      → raw ≢ other
      → put_at id other r (some raw)
        ≡ (err (invalid_input "bundle_id already exists with different content"), r)
  put_at_other id raw other r apart = elim (Bool-cases (raw == other)) [
    | inl same ↦ elim (apart ((bytes_beq_iff raw other).0 same)) [ ]
    | inr differs ↦ rw differs
  ]

  -- Once a bundle was put with success, putting the same bytes under its id again answers that it is
  -- there, other bytes are refused, and neither changes the registry.
  pub put_bundle_again :
      (id raw other : Bytes) (r : Registry) (o : PutOutcome)
      → (put_bundle id raw r).0 ≡ ok o
      → raw ≢ other
      → (put_bundle id raw (put_bundle id raw r).1
          ≡ (ok PutOutcome.already_exists, (put_bundle id raw r).1))
        × (put_bundle id other (put_bundle id raw r).1 ≡ (
          err (invalid_input "bundle_id already exists with different content"),
          (put_bundle id raw r).1,
        ))
  unfolding put_bundle
  put_bundle_again id raw other r o h apart =
      let there = put_at-created id raw r (get id r.bundles) o refl h in
      let after = (put_at id raw r (get id r.bundles)).1 in
      (
        ap (put_at id raw after) there ∙ put_at_same id raw after,
        ap (put_at id other after) there ∙ put_at_other id raw other after apart,
      )
