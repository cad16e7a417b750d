-- ===== src/Tests/Network.antt =====
-- What the other nodes and the root's endpoints make of the first run of the root.
use open_agenet.Base.{◌≡◌, some, [], ◌∷◌}
use open_agenet.Base.Texts.{decimal}
use open_agenet.Json.{string, json}
use open_agenet.Network.Publication.{Accepted, verify_and_publish-Accepted}
use open_agenet.Package.{VerifiedPackage}
use open_agenet.Root.Publish.Outcome.{entry_of}
use open_agenet.Root.Publish.Shown.{shown_version, verify_and_publish-api_agent_version_detail}
use open_agenet.Root.Reads.Agents.{archive_root, api_agent_detail, api_agent_version_detail}
use open_agenet.Tests.Discovery
use open_agenet.Tests.Root.{first_ok}
use open_agenet.Tests.Runs.{agent_did, node, world, joined_store, request, first, first_answer}
use open_agenet.Tests.Toy.{toy, toy-SigningLaws}

verify_and_publish-Accepted_example : Accepted ⦃p = toy⦄ node Discovery.node 0 (request "n") first.1
verify_and_publish-Accepted_example =
    verify_and_publish-Accepted ⦃p = toy⦄ toy-SigningLaws node world Discovery.node 0 (request "n")
      joined_store first.1 first_answer first_ok

verify_and_publish-api_agent_version_detail_example :
    ((pkg : VerifiedPackage) × (pkg.did_document ≡ (request "n").did_document)
      × (pkg.did_document_hash ≡ first_answer.did_document_hash)
      × (pkg.metadata_hash ≡ some first_answer.metadata_hash)
      × (api_agent_version_detail ⦃p = toy⦄ agent_did
            (decimal first_answer.document_version)
            first.1
          ≡ shown_version ⦃p = toy⦄ agent_did (decimal first_answer.document_version) pkg))
    × (api_agent_detail agent_did first.1
        ≡ json (
            ("did", string agent_did)
            ∷ ("latest", entry_of ⦃p = toy⦄ node world first_answer)
            ∷ ("archiveRoot", string (archive_root agent_did))
            ∷ []))
verify_and_publish-api_agent_version_detail_example =
    verify_and_publish-api_agent_version_detail ⦃p = toy⦄ node world (request "n") joined_store
      first.1 first_answer first_ok
