-- ===== src/Cdn.antt =====
-- services/cdn-node/src/main.rs: the content service. `Store` is the files of its data folder, by
-- their paths below it; `disk` says which writes go through and `now` is the clock.
pub mod Published
pub mod Roles
pub mod Reads
use Prim.Native.String.{◌++◌}
use open_agenet.Base.{
  ℕ, ◌+◌, String, Bool, true, false, not, Option, none, some, List, [], ◌∷◌, ◌==◌, Result, ok, err,
  map_err, unwrap_or, to_option, retain, push, length, if◌then◌else◌,
}
use open_agenet.Base.Action.{Action, pure, gets, attempt, ◌>>=◌, ◌>>◌}
use open_agenet.Base.Maps.{Map, lookup, insert}
use open_agenet.Core.{DidDocument}
use open_agenet.Core.Json.{natural}
use open_agenet.Json.{
  Time, Value, string, null, json, Fields, end, object, as_u64, insert_field, find_field,
}
use open_agenet.Package.{AgentMetadata, VerifiedPackage, Manifest, ManifestEntry}
use open_agenet.Storage.{StorageError, io, Disk, File, holds, Files, read_file, did_to_file_name}

pub data ApiError : Type 0 where
  not_found : String → ApiError
  internal : StorageError → ApiError

pub record Store : Type 0 where
  pub manifest_file : Option (File Manifest)
  pub documents : Files DidDocument
  pub metadata : Files AgentMetadata
  pub packages : Files VerifiedPackage
  pub history : Option (File (List Value))

-- What the endpoints show for a missing or unreadable manifest.
abbrev pub empty_manifest : String → Time → Manifest
empty_manifest root_did now = record {
  version = "0.1.0";
  generated_at = now;
  root_did = root_did;
  packages = [];
}

abbrev pub path_in : String → String → String
path_in kind did = kind ++ ("/" ++ did_to_file_name did)

unfoldable pub manifest : Store → Result ApiError Manifest
manifest s = map_err internal (read_file s.manifest_file)

-- `read_by_did` on the files of one kind.
unfoldable pub read_by_did : {A : Type 0} → String → String → Files A → Result ApiError A
read_by_did kind did files =
    map_err (λ _. not_found (kind ++ (" not found for " ++ did)))
      (read_file (lookup (path_in kind did) files))

unfoldable pub get_package : String → Store → Result ApiError VerifiedPackage
unfolding read_by_did
get_package did s = read_by_did "packages" did s.packages

unfoldable pub get_document : String → Store → Result ApiError DidDocument
unfolding read_by_did
get_document did s = read_by_did "documents" did s.documents

unfoldable pub get_metadata : String → Store → Result ApiError AgentMetadata
unfolding read_by_did
get_metadata did s = read_by_did "metadata" did s.metadata

-- The entry of a package in the manifest.
unfoldable pub entry_of : Time → VerifiedPackage → ManifestEntry
entry_of now pkg = record {
  did = pkg.did;
  role = pkg.metadata.role;
  document_path = "/cdn/documents/" ++ pkg.did;
  metadata_path = "/cdn/metadata/" ++ pkg.did;
  package_path = "/cdn/packages/" ++ pkg.did;
  did_document_hash = pkg.did_document_hash;
  updated_at = now;
}

-- The manifest with a package: an older entry of the agent goes, the new one is the last.
unfoldable pub with_package : Time → Time → VerifiedPackage → Manifest → Manifest
unfolding entry_of
with_package generated updated pkg m = record m {
  root_did = pkg.root_proof.root_did;
  generated_at = generated;
  packages = push (retain (λ entry. not (entry.did == pkg.did)) m.packages) (entry_of updated pkg);
}

module _ (disk : Disk) (now : ℕ → Time) where
  -- The clock is read for a missing manifest (0), the manifest (1) and the entry (2).
  unfoldable pub publish_package : VerifiedPackage → Action Store ApiError Value
  unfolding with_package
  publish_package pkg = do
    attempt (disk (path_in "documents" pkg.did)) (internal io) (λ s. record s {
      documents = insert (path_in "documents" pkg.did) (holds pkg.did_document) s.documents;
    })
    attempt (disk (path_in "metadata" pkg.did)) (internal io) (λ s. record s {
      metadata = insert (path_in "metadata" pkg.did) (holds pkg.metadata) s.metadata;
    })
    attempt (disk (path_in "packages" pkg.did)) (internal io)
        (λ s. record s { packages = insert (path_in "packages" pkg.did) (holds pkg) s.packages })
    m ← gets (λ s.
        unwrap_or (read_file s.manifest_file) (empty_manifest pkg.root_proof.root_did (now 0)))
    attempt (disk "manifest.json") (internal io)
        (λ s. record s { manifest_file = some (holds (with_package (now 1) (now 2) pkg m)) })
    pure (json (("status", string "published") ∷ ("did", string pkg.did) ∷ []))

-- `role_counts`: the number of entries of each role.
unfoldable pub count_roles : List ManifestEntry → Fields → Fields
count_roles [] counts = counts
count_roles (entry ∷ rest) counts =
    let before : ℕ = elim (find_field entry.role counts) [
      | none ↦ 0
      | some v ↦ elim (as_u64 v) [ none ↦ 0 | some n ↦ n ]
    ] in
    count_roles rest (insert_field entry.role (natural (before + 1)) counts)

-- The object of the counts that `api_manifest_stats` shows.
unfoldable pub role_counts : Manifest → Value
unfolding count_roles
role_counts m = object (count_roles m.packages end)

unfoldable pub api_manifest_stats : Time → Store → Value
unfolding role_counts
api_manifest_stats now s =
    let m = unwrap_or (read_file s.manifest_file) (empty_manifest "" now) in
    json (
      ("packageCount", natural (length m.packages))
      ∷ ("roleCounts", role_counts m)
      ∷ ("version", string m.version)
      ∷ [])
