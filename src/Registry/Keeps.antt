-- ===== src/Registry/Keeps.antt =====
-- The merge of a version into a `TypeSpec`: the agreement of its tags over its versions, and the fields
-- that its versions have.
use cxdb.Prelude.{
  ℕ, ◌≡◌, ◌∙◌, refl, sym, ap, Bool, true, false, ◌&&◌, Option, none, some, [], ◌∷◌, All, ◌==◌,
  nat_eq, bytes_eq, bytes_beq_iff, nat_beq_iff, Bool-cases, inl, inr, arith,
}
use mathlib.Core.Path.{subst}
use cxdb.Prelude.Dict.{Dict, get, insert, get-insert_cases, get-insert_self, get-insert_ne}
use cxdb.Prelude.Result.{ok, err, stuck}
use cxdb.Wire.{Bytes}
use cxdb.Registry.{
  RendererSpec, FieldSpec, TypeVersionSpec, FieldSignature, TypeSpec, option_beq, signature_beq,
  fields_beq, signature,
}
use cxdb.Registry.Ingest.{
  After, then_on, merge_tag, merge_tags, keep_renderer, merge_version, with_version, merge_into,
}

-- Every field of the version has the signature that the type has for its tag.
abbrev pub Agrees : Dict ℕ FieldSignature → TypeVersionSpec → Type 0
Agrees schema v = All (λ f. get f.0 schema ≡ some (signature f.1)) v.fields

pub record IsConsistent (spec : TypeSpec) : Type 0 where
  pub agree :
      (v : ℕ) (n : TypeVersionSpec) → get v spec.versions ≡ some n → Agrees spec.tag_schema n

-- All that one table holds is in the other.
abbrev Grows : Dict ℕ FieldSignature → Dict ℕ FieldSignature → Type 0
Grows a b = (tag : ℕ) (s : FieldSignature) → get tag a ≡ some s → get tag b ≡ some s

option_beq_eq : (a b : Option Bytes) → option_beq a b ≡ true → a ≡ b
option_beq_eq none none h = refl
option_beq_eq none (some b) h = cc
option_beq_eq (some a) none h = cc
option_beq_eq (some a) (some b) h = ap some ((bytes_beq_iff a b).0 h)

and_both : (a b : Bool) → (a && b) ≡ true → (a ≡ true) × (b ≡ true)
and_both true b h = (refl, h)
and_both false b h = cc

signature_beq_eq : (s t : FieldSignature) → signature_beq s t ≡ true → s ≡ t
signature_beq_eq s t h =
    let both = and_both _ _ h in
    let kind = (bytes_beq_iff s.field_type t.field_type).0 both.0 in
    let enum = option_beq_eq s.enum_ref t.enum_ref both.1 in
    λ i. record { field_type = kind i; enum_ref = enum i }

pub then_on-Carries {ℓ κ} :
    {S : Type ℓ} (P : S → Type κ) (a : After S) (next : S → After S)
    → P a.1
    → ((s : S) → P s → P (next s).1)
    → P (then_on a next).1
then_on-Carries P (ok t, s) next h step = step s h
then_on-Carries P (err e, s) next h step = h
then_on-Carries P (stuck, s) next h step = h

merge_tag-Grows :
    (tag : ℕ) (s : FieldSignature) (schema : Dict ℕ FieldSignature) (at : Option FieldSignature)
    → get tag schema ≡ at
    → Grows schema (merge_tag tag s schema at).1
merge_tag-Grows tag s schema none absent j t there =
    get-insert_ne tag j s schema (λ same. cc) ∙ there
merge_tag-Grows tag s schema (some old) at j t there = elim (Bool-cases (signature_beq old s)) [
  | inl same ↦ rw same there
  | inr other ↦ rw other there
]

merge_tag-Agrees :
    (tag : ℕ) (s : FieldSignature) (schema : Dict ℕ FieldSignature) (at : Option FieldSignature)
    (u : Unit {0})
    → get tag schema ≡ at
    → (merge_tag tag s schema at).0 ≡ ok u
    → get tag (merge_tag tag s schema at).1 ≡ some s
merge_tag-Agrees tag s schema none u absent good = get-insert_self tag s schema
merge_tag-Agrees tag s schema (some old) u at good = elim (Bool-cases (signature_beq old s)) [
  | inl same ↦ rw same (at ∙ ap some (signature_beq_eq old s same))
  | inr other ↦ cc
]

merge_tags-Grows :
    (fields : Dict ℕ FieldSpec) (base schema : Dict ℕ FieldSignature)
    → Grows base schema
    → Grows base (merge_tags fields schema).1
unfolding merge_tags
merge_tags-Grows [] base schema h = h
merge_tags-Grows ((tag, f) ∷ fields) base schema h =
    then_on-Carries (Grows base) (merge_tag tag (signature f) schema (get tag schema))
      (merge_tags fields)
      (λ j t there.
        merge_tag-Grows tag (signature f) schema (get tag schema) refl j t (h j t there))
      (λ s held. merge_tags-Grows fields base s held)

then_on-ok {ℓ} :
    {S : Type ℓ} (a : After S) (next : S → After S) (u : Unit {0})
    → (then_on a next).0 ≡ ok u
    → (a.0 ≡ ok tt) × (then_on a next ≡ next a.1) × ((next a.1).0 ≡ ok u)
then_on-ok (ok t, s) next u h = (refl, refl, h)
then_on-ok (err e, s) next u h = cc
then_on-ok (stuck, s) next u h = cc

merge_tags-Agrees :
    (fields : Dict ℕ FieldSpec) (schema : Dict ℕ FieldSignature) (u : Unit {0})
    → (merge_tags fields schema).0 ≡ ok u
    → All (λ f. get f.0 (merge_tags fields schema).1 ≡ some (signature f.1)) fields
unfolding merge_tags
merge_tags-Agrees [] schema u h = tt
merge_tags-Agrees ((tag, f) ∷ fields) schema u h =
    let first = merge_tag tag (signature f) schema (get tag schema) in
    let (good, same, rest) = then_on-ok first (merge_tags fields) u h in
    let at = merge_tag-Agrees tag (signature f) schema (get tag schema) tt refl good in
    subst (λ a. All (λ g. get g.0 a.1 ≡ some (signature g.1)) ((tag, f) ∷ fields)) (sym same)
      (
        merge_tags-Grows fields first.1 first.1 (λ j t there. there) tag (signature f) at,
        merge_tags-Agrees fields first.1 u rest,
      )

All-Grows :
    (a b : Dict ℕ FieldSignature) (fields : Dict ℕ FieldSpec)
    → Grows a b
    → All (λ f. get f.0 a ≡ some (signature f.1)) fields
    → All (λ f. get f.0 b ≡ some (signature f.1)) fields
All-Grows a b [] h old = tt
All-Grows a b ((tag, f) ∷ fields) h (first, rest) =
    (h tag (signature f) first, All-Grows a b fields h rest)

-- What a type is after versions went into it: its tags agree, and no version lost its fields.
pub record Follows (old : TypeSpec) (spec : TypeSpec) : Type 0 where
  pub consistent : IsConsistent spec
  pub keeps :
      (v : ℕ) (n : TypeVersionSpec)
      → get v old.versions ≡ some n
      → (m : TypeVersionSpec) × (get v spec.versions ≡ some m) × (m.fields ≡ n.fields)

IsConsistent-Grows :
    (spec : TypeSpec) (schema : Dict ℕ FieldSignature)
    → Grows spec.tag_schema schema
    → IsConsistent spec
    → IsConsistent (record spec { tag_schema = schema })
IsConsistent-Grows spec schema h good = record {
  agree = λ v n at. All-Grows spec.tag_schema schema n.fields h (good.agree v n at);
}

IsConsistent-insert :
    (v : ℕ) (n : TypeVersionSpec) (spec : TypeSpec)
    → Agrees spec.tag_schema n
    → IsConsistent spec
    → IsConsistent (record spec { versions = insert v n spec.versions })
IsConsistent-insert v n spec new good = record {
  agree = λ j m at. elim (get-insert_cases v j n m spec.versions at) [
    | inl (same, value) ↦ subst (Agrees spec.tag_schema) value new
    | inr (other, old) ↦ good.agree j m old
  ];
}

-- A version that goes in under its number with the fields that stood there.
keeps-insert :
    (old spec : TypeSpec) (v : ℕ) (n : TypeVersionSpec) (schema : Dict ℕ FieldSignature)
    → Follows old spec
    → ((m : TypeVersionSpec) → get v spec.versions ≡ some m → n.fields ≡ m.fields)
    → IsConsistent (record { versions = insert v n spec.versions; tag_schema = schema })
    → Follows old (record { versions = insert v n spec.versions; tag_schema = schema })
keeps-insert old spec v n schema before same_fields good = record {
  consistent = good;
  keeps = λ j m at.
      let (k, there, fields) = before.keeps j m at in
      elim (Bool-cases (v == j)) [
        | inl same ↦
            let e : v ≡ j = (nat_beq_iff v j).0 same in
            (
              n,
              subst (λ i. get i (insert v n spec.versions) ≡ some n) e
                  (get-insert_self v n spec.versions),
              same_fields k (rw e there) ∙ fields,
            )
        | inr other ↦ (
          k,
          get-insert_ne v j n spec.versions (λ e. ground (arith, nat_beq_iff v j)) ∙ there,
          fields,
        )
      ];
}

with_version-Follows :
    (old spec : TypeSpec) (v : ℕ) (n : TypeVersionSpec) (a : After (Dict ℕ FieldSignature))
    → Follows old spec
    → get v spec.versions ≡ none
    → Grows spec.tag_schema a.1
    → ((u : Unit {0}) → a.0 ≡ ok u → Agrees a.1 n)
    → Follows old (with_version v n spec a).1
with_version-Follows old spec v n (ok t, schema) before absent grows agrees =
    keeps-insert old spec v n schema before (λ m at. cc)
      (IsConsistent-insert v n (record spec { tag_schema = schema }) (agrees t refl)
        (IsConsistent-Grows spec schema grows before.consistent))
with_version-Follows old spec v n (err e, schema) before absent grows agrees = record {
  consistent = IsConsistent-Grows spec schema grows before.consistent;
  keeps = before.keeps;
}
with_version-Follows old spec v n (stuck, schema) before absent grows agrees = record {
  consistent = IsConsistent-Grows spec schema grows before.consistent;
  keeps = before.keeps;
}

with_renderer-Follows :
    (old spec : TypeSpec) (v : ℕ) (existing : TypeVersionSpec) (r : Option RendererSpec)
    → Follows old spec
    → get v spec.versions ≡ some existing
    → Follows old
        (record spec { versions = insert v (record existing { renderer = r }) spec.versions })
with_renderer-Follows old spec v existing r before at =
    keeps-insert old spec v (record existing { renderer = r }) spec.tag_schema before
      (λ m there. let e : existing ≡ m = cc in ap (λ k. k.fields) e)
      (IsConsistent-insert v (record existing { renderer = r }) spec
        (before.consistent.agree v existing at) before.consistent)

merge_into-Follows :
    (old spec : TypeSpec) (v : ℕ) (n : TypeVersionSpec) (at : Option TypeVersionSpec)
    → Follows old spec
    → get v spec.versions ≡ at
    → Follows old (merge_into v n spec at).1
merge_into-Follows old spec v n none before absent =
    with_version-Follows old spec v n (merge_tags n.fields spec.tag_schema) before absent
      (merge_tags-Grows n.fields spec.tag_schema spec.tag_schema (λ j t there. there))
      (merge_tags-Agrees n.fields spec.tag_schema)
merge_into-Follows old spec v n (some existing) before at =
    elim (Bool-cases (fields_beq existing.fields n.fields)) [
      | inl same ↦ rw same (
          with_renderer-Follows old spec v existing (keep_renderer existing.renderer n.renderer)
            before at)
      | inr other ↦ rw other (before)
    ]

pub merge_version-Follows :
    (old spec : TypeSpec) (v : ℕ) (n : TypeVersionSpec)
    → Follows old spec
    → Follows old (merge_version v n spec).1
unfolding merge_version
merge_version-Follows old spec v n before =
    merge_into-Follows old spec v n (get v spec.versions) before refl
