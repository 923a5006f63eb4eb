-- ===== src/Registry/Open.antt =====
-- `open`: the bundles of the files, in the order in which the directory is read; `open` fails with the
-- first that does. The files that are no JSON are left out.
use cxdb.Prelude.{◌≡◌, Option, none, some, List, [], ◌∷◌, bytes_eq, inl, inr}
use mathlib.Core.Path.{subst}
use cxdb.Prelude.Dict.{Dict, get, insert}
use cxdb.Prelude.Result.{Result, Result-cases, ok, err, stuck, corrupt, ◌>>=◌}
use cxdb.Wire.{Bytes}
use cxdb.Registry.{RegistryBundle, TypeSpec, Registry, RegistryCrates}
use cxdb.Registry.Ingest.{After, ingest_bundle}
use cxdb.Registry.Stable.{Extends, ingest_bundle-Extends}

abbrev pub new_registry : Registry
new_registry = record { bundles = []; types = []; enums = []; last_bundle_id = none }

ok_same : (r s : Registry) → ok r ≡ ok s → r ≡ s
ok_same r s h = cc

empty-Extends : Extends [] []
unfolding get
empty-Extends = record { consistent = λ id spec at. cc; keeps = λ id v n at. cc }

module _ ⦃x : RegistryCrates⦄ where
  abbrev pub record_file : Bytes → RegistryBundle → After Registry → Result Registry
  record_file raw b (ok t, r) =
      ok
        (record r { bundles = insert b.bundle_id raw r.bundles; last_bundle_id = some b.bundle_id })
  record_file raw b (err e, r) = err e
  record_file raw b (stuck, r) = stuck

  abbrev pub load_file : Bytes → Registry → Option RegistryBundle → Result Registry
  load_file raw r none = err (corrupt "invalid bundle json")
  load_file raw r (some b) = record_file raw b (ingest_bundle b r)

  unfoldable pub load_files : List Bytes → Registry → Result Registry
  unfolding ingest_bundle
  load_files [] r = ok r
  load_files (raw ∷ files) r = do
    loaded ← load_file raw r (x.parse_bundle raw)
    load_files files loaded

  unfoldable pub open_bundles : List Bytes → Result Registry
  unfolding load_files
  open_bundles files = load_files files new_registry

  record_file-Extends :
      (old : Dict Bytes TypeSpec) (raw : Bytes) (b : RegistryBundle) (a : After Registry)
      (r : Registry)
      → Extends old a.1.types
      → record_file raw b a ≡ ok r
      → Extends old r.types
  record_file-Extends old raw b (ok t, s) r h went =
      subst (λ s. Extends old s.types) (ok_same _ _ went) h
  record_file-Extends old raw b (err e, s) r h went = cc
  record_file-Extends old raw b (stuck, s) r h went = cc

  load_file-Extends :
      (old : Dict Bytes TypeSpec) (raw : Bytes) (r loaded : Registry) (b : Option RegistryBundle)
      → Extends old r.types
      → load_file raw r b ≡ ok loaded
      → Extends old loaded.types
  load_file-Extends old raw r loaded none h went = cc
  load_file-Extends old raw r loaded (some b) h went =
      record_file-Extends old raw b (ingest_bundle b r) loaded (ingest_bundle-Extends old b r h)
        went

  load_files-Extends :
      (files : List Bytes) (old : Dict Bytes TypeSpec) (r opened : Registry)
      → Extends old r.types
      → load_files files r ≡ ok opened
      → Extends old opened.types
  unfolding load_files
  load_files-Extends [] old r opened h went = subst (λ s. Extends old s.types) (ok_same _ _ went) h
  load_files-Extends (raw ∷ files) old r opened h went =
      elim (Result-cases (load_file raw r (x.parse_bundle raw))) [
        | inl (loaded, first) ↦
            let rest : load_files files loaded ≡ ok opened = rw first at went in
            load_files-Extends files old loaded opened
              (load_file-Extends old raw r loaded (x.parse_bundle raw) h first) rest
        | inr (inl (e, bad)) ↦ let no : err e ≡ ok opened = rw bad at went in cc
        | inr (inr bad) ↦ let no : stuck ≡ ok opened = rw bad at went in cc
      ]

  -- The types of a registry that was opened on any files.
  pub open_bundles-Extends :
      (files : List Bytes) (opened : Registry)
      → open_bundles files ≡ ok opened
      → Extends [] opened.types
  unfolding open_bundles
  open_bundles-Extends files opened went =
      load_files-Extends files [] new_registry opened empty-Extends went
