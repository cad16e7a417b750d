-- ===== src/Package.antt =====
-- crates/oan-package/src/lib.rs: what the root publishes and the content service keeps.
pub mod Json
use open_agenet.Base.{
  String, Option, none, some, List, [], ◌∷◌, map, ◌==◌, Result, ok, ◌>>=◌, require, map_err,
}
use open_agenet.Core.{ServiceEndpoint, DidDocument}
use open_agenet.Core.Json.{service_endpoint_value, did_document_serialize}
use open_agenet.Crypto.{CryptoError, hash_json}
use open_agenet.Crypto.Crates.{Primitives}
use open_agenet.Json.{Time, Value, string, array, items, texts, json, Serialize}

pub data PackageError : Type 0 where
  crypto : CryptoError → PackageError
  did_document_hash_mismatch metadata_hash_mismatch : PackageError

pub record AgentMetadata : Type 0 where
  pub did : String
  pub role : String
  pub identity_type : String
  pub did_document_hash : String
  pub capability_tags : List String
  pub services : List ServiceEndpoint
  pub status : String
  pub updated_at : Time

pub record RootProof : Type 0 where
  pub root_did : String
  pub bulletin_event_hash : Option String
  pub signature : Option String

pub record VerifiedPackage : Type 0 where
  pub package_version : String
  pub did : String
  pub did_document : DidDocument
  pub did_document_hash : String
  pub metadata_hash : Option String
  pub metadata : AgentMetadata
  pub root_proof : RootProof
  pub created_at : Time

pub record ManifestEntry : Type 0 where
  pub did : String
  pub role : String
  pub document_path : String
  pub metadata_path : String
  pub package_path : String
  pub did_document_hash : String
  pub updated_at : Time

pub record Manifest : Type 0 where
  pub version : String
  pub generated_at : Time
  pub root_did : String
  pub packages : List ManifestEntry

module _ ⦃p : Primitives⦄ where
  open p use {time_text}

  -- The derived `Serialize`.
  unfoldable pub metadata_value : AgentMetadata → Value
  metadata_value m = json (
      ("did", string m.did)
      ∷ ("role", string m.role)
      ∷ ("identityType", string m.identity_type)
      ∷ ("didDocumentHash", string m.did_document_hash)
      ∷ ("capabilityTags", texts m.capability_tags)
      ∷ ("services", array (items (map service_endpoint_value m.services)))
      ∷ ("status", string m.status)
      ∷ ("updatedAt", string (time_text m.updated_at))
      ∷ [])

  instance abbrev pub metadata_serialize : Serialize AgentMetadata
  metadata_serialize = record { to_value = λ m. some (metadata_value m) }

  unfoldable pub verify_document_hash : VerifiedPackage → Result PackageError (Unit {0})
  verify_document_hash pkg = do
    actual_hash ← map_err crypto (hash_json pkg.did_document)
    require (actual_hash == pkg.did_document_hash) did_document_hash_mismatch

  unfoldable pub verify_metadata_hash : VerifiedPackage → Result PackageError (Unit {0})
  verify_metadata_hash pkg = elim pkg.metadata_hash [
    | none ↦ ok tt
    | some expected_hash ↦ do
      actual_hash ← map_err crypto (hash_json pkg.metadata)
      require (actual_hash == expected_hash) metadata_hash_mismatch
  ]
