-- ===== src/Package/Json.antt =====
-- The derived `Serialize` of the types of crates/oan-package/src/lib.rs.
use open_agenet.Base.{[], ◌∷◌, ◌++◌}
use open_agenet.Core.Json.{present, did_document_value}
use open_agenet.Crypto.Crates.{Primitives}
use open_agenet.Json.{Value, string, json, optional}
use open_agenet.Package.{RootProof, VerifiedPackage, ManifestEntry, metadata_value}

unfoldable pub root_proof_value : RootProof → Value
root_proof_value r = json (
    ("rootDid", string r.root_did)
    ∷ ("bulletinEventHash", optional string r.bulletin_event_hash)
    ∷ ("signature", optional string r.signature)
    ∷ [])

module _ ⦃p : Primitives⦄ where
  open p use {time_text}

  unfoldable pub package_value : VerifiedPackage → Value
  unfolding root_proof_value
  package_value pkg = json (
      ("packageVersion", string pkg.package_version)
      ∷ ("did", string pkg.did)
      ∷ ("didDocument", did_document_value pkg.did_document)
      ∷ ("didDocumentHash", string pkg.did_document_hash)
      ∷ (present "metadataHash" string pkg.metadata_hash
          ++ (("metadata", metadata_value pkg.metadata)
              ∷ ("rootProof", root_proof_value pkg.root_proof)
              ∷ ("createdAt", string (time_text pkg.created_at))
              ∷ [])))

  unfoldable pub manifest_entry_value : ManifestEntry → Value
  manifest_entry_value e = json (
      ("did", string e.did)
      ∷ ("role", string e.role)
      ∷ ("documentPath", string e.document_path)
      ∷ ("metadataPath", string e.metadata_path)
      ∷ ("packagePath", string e.package_path)
      ∷ ("didDocumentHash", string e.did_document_hash)
      ∷ ("updatedAt", string (time_text e.updated_at))
      ∷ [])
