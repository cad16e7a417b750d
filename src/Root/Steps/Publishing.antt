-- ===== src/Root/Steps/Publishing.antt =====
-- `verify_and_publish` of services/root-node/src/main.rs and the bulletin.
use open_agenet.Base.{ℕ, String, refl, arith, map_err}
use open_agenet.Base.Action.Keeps.{
  Composes, Keeps, pure-Keeps, lift-Keeps, gets-Keeps, reads-Keeps, raising-Keeps, bind-Keeps,
  then-Keeps,
}
use open_agenet.Base.Maps.{lookup}
use open_agenet.Bulletin.{BulletinEvent}
use open_agenet.Crypto.Crates.{Primitives, SigningLaws}
use open_agenet.Crypto.{hash_json}
use open_agenet.Core.Json.{did_document_serialize}
use open_agenet.Package.{metadata_serialize}
use open_agenet.Json.{Time, Value}
use open_agenet.Package.{AgentMetadata, VerifiedPackage}
use open_agenet.Protocol.{VerifyAndPublishRequest}
use open_agenet.Root.{Node, World, internal, crypto, bad_request}
use open_agenet.Root.Files.{read_latest_versions, save_nonce_store}
use open_agenet.Root.Publish.{
  archive_verified, update_latest_version, mirror_latest_version_sqlite, enqueue_cdn,
  enqueue_discovery, publish, distribute, package_of, event_payload, version_entry, operation_of,
  version_of, event_type_of, verify_and_publish,
}
use open_agenet.Root.Requests.{
  build_metadata, verify_request_signature, verify_request_nonce, verify_request,
}
use open_agenet.Root.Requests.Nonces.{verify_request_nonce-remembers}
use open_agenet.Root.Steps.{Extends, same_file-Extends, Extends-Composes, append_event-Extends}
use open_agenet.Root.Steps.Writes.{same_file-Keeps, write-Extends}

module _ ⦃p : Primitives⦄ (node : Node) (world : World) where
  abbrev rules : Composes (Extends node)
  rules = Extends-Composes node

  pub verify_request_nonce-Extends :
      (seen : Time) (r : VerifyAndPublishRequest)
      → Keeps (Extends node) (verify_request_nonce node world seen r)
  unfolding verify_request_nonce save_nonce_store
  verify_request_nonce-Extends seen r = record {
    kept = λ s.
        same_file-Extends node s (verify_request_nonce node world seen r s).1
          (ground arith, λ nonce was. verify_request_nonce-remembers node world seen r s nonce was);
  }

  archive_verified-Extends :
      (r : VerifyAndPublishRequest) (metadata : AgentMetadata) (pkg : VerifiedPackage) (version : ℕ)
      → Keeps (Extends node) (archive_verified node world r metadata pkg version)
  unfolding archive_verified
  archive_verified-Extends r metadata pkg version =
      then-Keeps rules (write-Extends node world _ _ (λ s. (refl, refl))) (
        then-Keeps rules (write-Extends node world _ _ (λ s. (refl, refl))) (
          then-Keeps rules (write-Extends node world _ _ (λ s. (refl, refl)))
            (write-Extends node world _ _ (λ s. (refl, refl)))))

  enqueue_cdn-Extends :
      (at_row : Time) (pkg : VerifiedPackage)
      → Keeps (Extends node) (enqueue_cdn node world at_row pkg)
  unfolding enqueue_cdn
  enqueue_cdn-Extends at_row pkg =
      same_file-Keeps node world (enqueue_cdn node world at_row pkg)
        (λ s. (ground arith, ground arith))

  enqueue_discovery-Extends :
      (at_row : Time) (pkg : VerifiedPackage) (sequence : ℕ) (event_hash : String)
      → Keeps (Extends node) (enqueue_discovery node world at_row pkg sequence event_hash)
  unfolding enqueue_discovery
  enqueue_discovery-Extends at_row pkg sequence event_hash =
      same_file-Keeps node world (enqueue_discovery node world at_row pkg sequence event_hash)
        (λ s. (ground arith, ground arith))

  update_latest_version-Extends :
      (updated : Time) (did : String) (version : ℕ) (did_hash metadata_hash : String) (sequence : ℕ)
      → Keeps
          (Extends node)
          (update_latest_version node world updated did version did_hash metadata_hash sequence)
  unfolding update_latest_version
  update_latest_version-Extends updated did version did_hash metadata_hash sequence =
      same_file-Keeps node world
        (update_latest_version node world updated did version did_hash metadata_hash sequence)
        (λ s. (ground arith, ground arith))

  mirror-Extends :
      (at_row : Time) (did : String) (value : Value)
      → Keeps (Extends node) (mirror_latest_version_sqlite node world at_row did value)
  unfolding mirror_latest_version_sqlite
  mirror-Extends at_row did value =
      same_file-Keeps node world (mirror_latest_version_sqlite node world at_row did value)
        (λ s. (ground arith, ground arith))

  distribute-Extends :
      (r : VerifyAndPublishRequest) (metadata : AgentMetadata)
      (did_hash metadata_hash operation : String) (version : ℕ) (event : BulletinEvent)
      → Keeps
          (Extends node)
          (distribute node world r metadata did_hash metadata_hash operation version event)
  unfolding distribute
  distribute-Extends r metadata did_hash metadata_hash operation version event =
      let pkg = package_of node world (world.now 5) r metadata did_hash metadata_hash event in
      then-Keeps rules (archive_verified-Extends r metadata pkg version) (
        then-Keeps rules
          (update_latest_version-Extends (world.now 6) r.agent_did version did_hash metadata_hash
            event.core.sequence)
          (then-Keeps rules
            (mirror-Extends (world.now 8) r.agent_did (
              version_entry p.time_text version did_hash metadata_hash event.core.sequence
                (world.now 7)))
            (then-Keeps rules (enqueue_cdn-Extends (world.now 9) pkg) (
              then-Keeps rules
                (enqueue_discovery-Extends (world.now 10) pkg event.core.sequence event.event_hash)
                (pure-Keeps rules _)))))

  module _ (laws : SigningLaws p) where
    pub publish-Extends :
        (r : VerifyAndPublishRequest) → Keeps (Extends node) (publish node world r)
    unfolding publish
    publish-Extends r =
        bind-Keeps rules (lift-Keeps rules (map_err crypto (hash_json r.did_document))) (λ did_hash.
          bind-Keeps rules (lift-Keeps rules (build_metadata node world (world.now 2) r did_hash))
            (λ metadata.
              bind-Keeps rules (lift-Keeps rules (map_err crypto (hash_json metadata)))
                (λ metadata_hash.
                  bind-Keeps rules (gets-Keeps rules read_latest_versions) (λ latest.
                    let operation = operation_of (lookup r.agent_did latest) did_hash in
                    let version = version_of (lookup r.agent_did latest) did_hash in
                    bind-Keeps rules
                      (append_event-Extends node laws world (world.now 3) (world.now 4)
                        (event_type_of operation) r.agent_did
                        (event_payload node world r metadata did_hash metadata_hash operation
                          version))
                      (distribute-Extends r metadata did_hash metadata_hash operation version)))))

    pub verify_and_publish-Extends :
        (r : VerifyAndPublishRequest) → Keeps (Extends node) (verify_and_publish node world r)
    unfolding verify_and_publish
    verify_and_publish-Extends r =
        then-Keeps rules (lift-Keeps rules (map_err bad_request (verify_request_signature r))) (
          then-Keeps rules (raising-Keeps rules bad_request (verify_request_nonce-Extends _ r)) (
            then-Keeps rules
              (reads-Keeps rules
                (λ s. map_err bad_request (verify_request node world (world.now 1) r s)))
              (raising-Keeps rules internal (publish-Extends r))))
