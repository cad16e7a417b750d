-- ===== src/Cdn/Published.antt =====
-- What a publication leaves on the content service, services/cdn-node/src/main.rs.
use open_agenet.Base.{
  ℕ, String, ◌≡◌, refl, ap, ◌∙◌, not, some, List, [], ◌∷◌, arith, ◌==◌, eq_iff, retain, push, ok,
  unwrap_or, if◌then◌else◌,
}
use open_agenet.Base.Maps.{insert, lookup-insert_self}
use open_agenet.Cdn.{
  Store, empty_manifest, path_in, manifest, read_by_did, get_package, get_document, get_metadata,
  entry_of, with_package, publish_package,
}
use open_agenet.Json.{Time, Value}
use open_agenet.Package.{VerifiedPackage, Manifest, ManifestEntry}
use open_agenet.Storage.{Disk, holds, Files, read_file}

-- The entries of one agent.
abbrev pub entries_of : String → List ManifestEntry → List ManifestEntry
entries_of did entries = retain (λ entry. entry.did == did) entries

entries_of-push :
    (did : String) (new : ManifestEntry) (entries : List ManifestEntry)
    → entries_of did (push (retain (λ entry. not (entry.did == new.did)) entries) new)
      ≡ (if new.did == did then new ∷ [] else entries_of did entries)
entries_of-push did new [] = refl
entries_of-push did new (entry ∷ entries) = ground (
  arith,
  eq_iff entry.did new.did,
  eq_iff new.did did,
  eq_iff entry.did did,
  entries_of-push did new entries,
)

module _ (disk : Disk) (now : ℕ → Time) where
  -- The manifest that a publication starts from: the file's, or an empty one.
  abbrev pub old_manifest : VerifiedPackage → Store → Manifest
  old_manifest pkg s =
      unwrap_or (read_file s.manifest_file) (empty_manifest pkg.root_proof.root_did (now 0))

  published_files :
      (pkg : VerifiedPackage) (s s' : Store) (v : Value)
      → publish_package disk now pkg s ≡ (ok v, s')
      → ◌≡◌ {A = Store} s' (record s {
        documents = insert (path_in "documents" pkg.did) (holds pkg.did_document) s.documents;
        metadata = insert (path_in "metadata" pkg.did) (holds pkg.metadata) s.metadata;
        packages = insert (path_in "packages" pkg.did) (holds pkg) s.packages;
        manifest_file = some (holds (with_package (now 1) (now 2) pkg (old_manifest pkg s)));
      })
  unfolding publish_package
  published_files pkg s s' v h = ground arith

  read_by_did-insert :
      {A : Type 0} (kind did : String) (a : A) (files : Files A)
      → read_by_did kind did (insert (path_in kind did) (holds a) files) ≡ ok a
  unfolding read_by_did
  read_by_did-insert kind did a files =
      rw (lookup-insert_self (path_in kind did) (holds a) files) refl

  -- A package that was published is served: the package, its document and its metadata are what
  -- the three endpoints answer for its DID.
  pub publish_package-get :
      (pkg : VerifiedPackage) (s s' : Store) (v : Value)
      → publish_package disk now pkg s ≡ (ok v, s')
      → (get_package pkg.did s' ≡ ok pkg)
        × (get_document pkg.did s' ≡ ok pkg.did_document)
        × (get_metadata pkg.did s' ≡ ok pkg.metadata)
  unfolding get_package get_document get_metadata
  publish_package-get pkg s s' v h =
      let e = published_files pkg s s' v h in
      (
        ap (λ t. read_by_did "packages" pkg.did t.packages) e
            ∙ read_by_did-insert "packages" pkg.did pkg s.packages,
        ap (λ t. read_by_did "documents" pkg.did t.documents) e
            ∙ read_by_did-insert "documents" pkg.did pkg.did_document s.documents,
        ap (λ t. read_by_did "metadata" pkg.did t.metadata) e
            ∙ read_by_did-insert "metadata" pkg.did pkg.metadata s.metadata,
      )

  -- After a publication the manifest can be read and has exactly one entry for the agent of the
  -- package, the new one, and for every other agent the entries that it had.
  pub publish_package-manifest :
      (pkg : VerifiedPackage) (s s' : Store) (v : Value) (did : String)
      → publish_package disk now pkg s ≡ (ok v, s')
      → (m : Manifest) × (manifest s' ≡ ok m)
        × (entries_of did m.packages ≡ (
            if pkg.did == did
            then entry_of (now 2) pkg ∷ []
            else entries_of did (old_manifest pkg s).packages))
  unfolding manifest with_package entry_of
  publish_package-manifest pkg s s' v did h = (
    with_package (now 1) (now 2) pkg (old_manifest pkg s),
    ap manifest (published_files pkg s s' v h),
    entries_of-push did (entry_of (now 2) pkg) (old_manifest pkg s).packages,
  )
