-- ===== src/Root/Publish/Taken.antt =====
-- The steps of `verify_and_publish` of services/root-node/src/main.rs, one after the other.
use open_agenet.Base.{String, ◌≡◌, ap, arith, inl, inr, ok, Result-cases}
use open_agenet.Base.Maps.{lookup}
use open_agenet.Bulletin.{BulletinEvent}
use open_agenet.Core.Json.{did_document_serialize}
use open_agenet.Crypto.{hash_json}
use open_agenet.Crypto.Crates.{Primitives}
use open_agenet.Package.{AgentMetadata, metadata_serialize}
use open_agenet.Protocol.{VerifyAndPublishRequest}
use open_agenet.Root.{Store, Node, World, VerifyResponse}
use open_agenet.Root.Events.{append_event}
use open_agenet.Root.Files.{read_latest_versions}
use open_agenet.Root.Publish.{
  operation_of, version_of, event_type_of, event_payload, distribute, publish, verify_and_publish,
}
use open_agenet.Root.Requests.{verify_request_nonce, build_metadata, verify_content, verify_request}

module _ ⦃p : Primitives⦄ (node : Node) (world : World) where
  -- What each step of a call of `publish` that ends with an answer has given.
  pub record Taken (r : VerifyAndPublishRequest) (s s' : Store) (v : VerifyResponse) : Type 0 where
    pub did_hash : String
    pub hashed : hash_json r.did_document ≡ ok did_hash
    pub metadata : AgentMetadata
    pub built : build_metadata node world (world.now 2) r did_hash ≡ ok metadata
    pub metadata_hash : String
    pub described : hash_json metadata ≡ ok metadata_hash
    pub event : BulletinEvent
    pub between : Store
    pub appended :
        append_event node world
          (world.now 3)
          (world.now 4)
          (event_type_of (operation_of (lookup r.agent_did (read_latest_versions s)) did_hash))
          r.agent_did
          (event_payload node world r metadata did_hash metadata_hash
            (operation_of (lookup r.agent_did (read_latest_versions s)) did_hash)
            (version_of (lookup r.agent_did (read_latest_versions s)) did_hash))
          s
        ≡ (ok event, between)
    pub distributed :
        distribute node world r metadata did_hash metadata_hash
          (operation_of (lookup r.agent_did (read_latest_versions s)) did_hash)
          (version_of (lookup r.agent_did (read_latest_versions s)) did_hash)
          event
          between
        ≡ (ok v, s')

  pub publish-Taken :
      (r : VerifyAndPublishRequest) (s s' : Store) (v : VerifyResponse)
      → publish node world r s ≡ (ok v, s')
      → Taken r s s' v
  unfolding publish
  publish-Taken r s s' v h = elim (Result-cases (hash_json r.did_document)) [
    | inr (f, e1) ↦ absurd (ground (arith, e1))
    | inl (did_hash, e1) ↦
        elim (Result-cases (build_metadata node world (world.now 2) r did_hash)) [
          | inr (f, e2) ↦ absurd (ground (arith, e1, e2))
          | inl (metadata, e2) ↦ elim (Result-cases (hash_json metadata)) [
            | inr (f, e3) ↦ absurd (ground (arith, e1, e2, e3))
            | inl (metadata_hash, e3) ↦
                let previous = lookup r.agent_did (read_latest_versions s) in
                let operation = operation_of previous did_hash in
                let version = version_of previous did_hash in
                let m =
                  append_event node world (world.now 3) (world.now 4) (event_type_of operation)
                    r.agent_did
                    (event_payload node world r metadata did_hash metadata_hash operation version)
                    s in
                elim (Result-cases m.0) [
                  | inr (f, e4) ↦ absurd (ground (arith, e1, e2, e3, e4))
                  | inl (event, e4) ↦ record {
                    did_hash = did_hash;
                    hashed = e1;
                    metadata = metadata;
                    built = e2;
                    metadata_hash = metadata_hash;
                    described = e3;
                    event = event;
                    between = m.1;
                    appended = ap (λ o. (o, m.1)) e4;
                    distributed = ground (arith, e1, e2, e3, e4);
                  }
                ]
          ]
        ]
  ]

  -- A request that is answered has passed the check of its contents.
  pub verify_and_publish-verify_content :
      (r : VerifyAndPublishRequest) (s s' : Store) (v : VerifyResponse)
      → verify_and_publish node world r s ≡ (ok v, s')
      → verify_content r ≡ ok tt
  unfolding verify_and_publish verify_request
  verify_and_publish-verify_content r s s' v h = ground (arith, h)

  pub verify_and_publish-publish :
      (r : VerifyAndPublishRequest) (s s' : Store) (v : VerifyResponse)
      → verify_and_publish node world r s ≡ (ok v, s')
      → publish node world r (verify_request_nonce node world (world.now 0) r s).1 ≡ (ok v, s')
  unfolding verify_and_publish
  verify_and_publish-publish r s s' v h = ground (arith, h)
