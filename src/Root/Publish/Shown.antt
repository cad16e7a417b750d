-- ===== src/Root/Publish/Shown.antt =====
-- What the endpoints of services/root-node/src/main.rs show of an agent after
-- `verify_and_publish` has answered.
use Prim.Native.String.{◌++◌}
use open_agenet.Base.{
  ℕ, String, ◌≡◌, refl, ap, ◌∙◌, subst, some, [], ◌∷◌, ok, Bool-cases, inl, inr, ◌==◌,
}
use open_agenet.Base.Maps.{Map, lookup, insert, lookup-insert, lookup-insert_self}
use open_agenet.Base.Texts.{decimal}
use open_agenet.Bulletin.{BulletinEvent}
use open_agenet.Core.Json.{did_document_value}
use open_agenet.Crypto.Crates.{Primitives}
use open_agenet.Json.{Value, string, json}
use open_agenet.Package.{AgentMetadata, VerifiedPackage, metadata_value}
use open_agenet.Package.Json.{package_value}
use open_agenet.Protocol.{VerifyAndPublishRequest}
use open_agenet.Root.{Store, Node, World, VerifyResponse}
use open_agenet.Root.Files.{read_list, read_latest_versions}
use open_agenet.Root.Publish.{package_of, operation_of, version_of, verify_and_publish}
use open_agenet.Root.Publish.Outcome.{
  entry_of, distribute-verify_response, verify_and_publish-IsVersioned,
}
use open_agenet.Root.Publish.Packages.{Stores, published, distribute-Stores}
use open_agenet.Root.Publish.Taken.{Taken, publish-Taken, verify_and_publish-publish}
use open_agenet.Root.Reads.Agents.{
  archive_root, version_prefix, api_agent_detail, api_agent_version_detail,
}
use open_agenet.Root.Requests.{verify_request_nonce}
use open_agenet.Storage.{holds}

lookup-insert_both :
    {A : Type 0} (key wanted : String) (value : A) (entries : Map A)
    → lookup wanted entries ≡ some value
    → lookup wanted (insert key value entries) ≡ some value
lookup-insert_both key wanted value entries h =
    lookup-insert key wanted value entries
    ∙ elim (Bool-cases (key == wanted)) [ inl e ↦ rw e refl | inr e ↦ rw e h ]

module _ ⦃p : Primitives⦄ where
  -- What the endpoint of one version shows.
  abbrev pub shown_version : String → String → VerifiedPackage → Value
  shown_version did version pkg = json (
      ("did", string did)
      ∷ ("version", string version)
      ∷ ("didDocument", did_document_value pkg.did_document)
      ∷ ("metadata", metadata_value pkg.metadata)
      ∷ ("package", package_value pkg)
      ∷ [])

  Stores-api_agent_version_detail :
      (node : Node) (world : World) (r : VerifyAndPublishRequest) (metadata : AgentMetadata)
      (did_hash metadata_hash operation : String) (version : ℕ) (event : BulletinEvent)
      (s s' : Store)
      → Stores node world r metadata did_hash metadata_hash operation version event s s'
      → api_agent_version_detail r.agent_did (decimal version) s'
        ≡ shown_version r.agent_did
            (decimal version)
            (published node world r metadata did_hash metadata_hash operation version event)
  unfolding api_agent_version_detail package_of
  Stores-api_agent_version_detail node world r metadata did_hash metadata_hash operation version
        event s s' stores =
      let prefix = version_prefix r.agent_did (decimal version) in
      let pkg = published node world r metadata did_hash metadata_hash operation version event in
      let document : lookup (prefix ++ "/did-document.json") s'.documents
          ≡ some (holds r.did_document) =
        ap (lookup (prefix ++ "/did-document.json")) stores.documents
        ∙ lookup-insert_self (prefix ++ "/did-document.json") (holds r.did_document) s.documents in
      let described : lookup (prefix ++ "/metadata.json") s'.metadata ≡ some (holds metadata) =
        ap (lookup (prefix ++ "/metadata.json")) stores.metadata_files
        ∙ lookup-insert_self (prefix ++ "/metadata.json") (holds metadata) s.metadata in
      let packed : lookup (prefix ++ "/package.json") s'.packages ≡ some (holds pkg) =
        ap (lookup (prefix ++ "/package.json")) stores.packages
        ∙ lookup-insert_both _ (prefix ++ "/package.json") (holds pkg) _
            (lookup-insert_self (prefix ++ "/package.json") (holds pkg) s.packages) in
      rw document (rw described (rw packed refl))

  Taken-api_agent_version_detail :
      (node : Node) (world : World) (r : VerifyAndPublishRequest) (s s' : Store)
      (v : VerifyResponse)
      → Taken node world r s s' v
      → (pkg : VerifiedPackage) × (pkg.did_document ≡ r.did_document)
        × (pkg.did_document_hash ≡ v.did_document_hash)
        × (pkg.metadata_hash ≡ some v.metadata_hash)
        × (api_agent_version_detail r.agent_did (decimal v.document_version) s'
            ≡ shown_version r.agent_did (decimal v.document_version) pkg)
  unfolding package_of
  Taken-api_agent_version_detail node world r s s' v steps =
      let previous = lookup r.agent_did (read_latest_versions s) in
      let operation = operation_of previous steps.did_hash in
      let version = version_of previous steps.did_hash in
      let answer =
        distribute-verify_response node world r steps.metadata steps.did_hash steps.metadata_hash
          operation version steps.event steps.between s' v steps.distributed in
      let pkg =
        published node world r steps.metadata steps.did_hash steps.metadata_hash operation version
          steps.event in
      (
        pkg,
        refl,
        ap (λ a. a.did_document_hash) answer,
        ap (λ a. some a.metadata_hash) answer,
        subst
            (λ n.
              api_agent_version_detail r.agent_did (decimal n) s'
              ≡ shown_version r.agent_did (decimal n) pkg)
            (ap (λ a. a.document_version) answer)
            (Stores-api_agent_version_detail node world r steps.metadata steps.did_hash
              steps.metadata_hash operation version steps.event steps.between s'
              (distribute-Stores node world r steps.metadata steps.did_hash steps.metadata_hash
                operation version steps.event steps.between s' v steps.distributed)),
      )

  -- After the root has answered a request with a result, its endpoint for the version that the
  -- answer names shows the document of the request with the package and the metadata that were
  -- published, under the hashes of the answer, and the endpoint for the agent shows that version
  -- with these hashes and the number of the event as the latest one.
  pub verify_and_publish-api_agent_version_detail :
      (node : Node) (world : World) (r : VerifyAndPublishRequest) (s s' : Store)
      (v : VerifyResponse)
      → verify_and_publish node world r s ≡ (ok v, s')
      → ((pkg : VerifiedPackage) × (pkg.did_document ≡ r.did_document)
          × (pkg.did_document_hash ≡ v.did_document_hash)
          × (pkg.metadata_hash ≡ some v.metadata_hash)
          × (api_agent_version_detail r.agent_did (decimal v.document_version) s'
              ≡ shown_version r.agent_did (decimal v.document_version) pkg))
        × (api_agent_detail r.agent_did s'
            ≡ json (
                ("did", string r.agent_did)
                ∷ ("latest", entry_of node world v)
                ∷ ("archiveRoot", string (archive_root r.agent_did))
                ∷ []))
  unfolding api_agent_detail read_latest_versions
  verify_and_publish-api_agent_version_detail node world r s s' v h =
      let m = verify_request_nonce node world (world.now 0) r s in
      let versioned = verify_and_publish-IsVersioned node world r s s' v h in
      let latest : lookup r.agent_did (read_latest_versions s') ≡ some (entry_of node world v) =
        ap (λ f. lookup r.agent_did (read_list f)) versioned.indexed
        ∙ lookup-insert_self r.agent_did (entry_of node world v) (read_latest_versions s) in
      (
        Taken-api_agent_version_detail node world r m.1 s' v (
            publish-Taken node world r m.1 s' v (verify_and_publish-publish node world r s s' v h)),
        rw latest refl,
      )
