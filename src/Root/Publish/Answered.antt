-- ===== src/Root/Publish/Answered.antt =====
-- When `verify_and_publish` of services/root-node/src/main.rs answers a request with a result.
use open_agenet.Base.{
  ℕ, String, ◌≡◌, refl, true, arith, Bool-cases, some, [], ◌∙◌, ◌↔◌, inl, inr, ok, Result-cases,
  Option-cases,
}
use open_agenet.Base.Action.Answers.{continue_rule}
use open_agenet.Core.{AnsMetadata}
use open_agenet.Bulletin.{BulletinEventType, BulletinEvent, Bulletin, sign_core, core_hash}
use open_agenet.Core.Json.{did_document_serialize}
use open_agenet.Crypto.{hash_json, canonical_json}
use open_agenet.Crypto.Crates.{Primitives}
use open_agenet.Json.{Time, Value}
use open_agenet.Package.{AgentMetadata, metadata_serialize}
use open_agenet.Protocol.{VerifyAndPublishRequest}
use open_agenet.Root.{VerifyResponse, Store, Node, World}
use open_agenet.Root.Events.{append_event}
use open_agenet.Root.Files.{read_bulletin, write_bulletin, save_nonce_store}
use open_agenet.Root.Publish.{
  archive_verified, verify_response, update_latest_version, mirror_latest_version_sqlite,
  enqueue_cdn, enqueue_discovery, distribute, publish, verify_and_publish,
}
use open_agenet.Root.Requests.{
  verify_request_signature, verify_request_nonce, verify_request, verify_content, build_metadata,
}

-- The world where no write and no statement fails.
abbrev pub working : World → World
working world = record world { disk = λ path. true; database = λ namespace. true }

module _ ⦃p : Primitives⦄ (node : Node) (world : World) where
  distribute-answer :
      (r : VerifyAndPublishRequest) (metadata : AgentMetadata) (did_hash metadata_hash : String)
      (operation : String) (version : ℕ) (event : BulletinEvent) (s : Store)
      → (distribute node
          (working world)
          r
          metadata
          did_hash
          metadata_hash
          operation
          version
          event
          s).0
        ≡ ok (verify_response node (working world) r did_hash metadata_hash operation version event)
  unfolding distribute archive_verified update_latest_version mirror_latest_version_sqlite
      enqueue_cdn enqueue_discovery hash_json canonical_json
  distribute-answer r metadata did_hash metadata_hash operation version event s =
      elim (Bool-cases node.has_sqlite) [ inl e ↦ rw e refl | inr e ↦ rw e refl ]

  append_event-answer :
      (opened created : Time) (event_type : BulletinEventType) (did : String) (payload : Value)
      (s : Store) (b : Bulletin)
      → read_bulletin node opened s ≡ ok b
      → (event : BulletinEvent) × ((append_event node
            (working world)
            opened
            created
            event_type
            did
            payload
            s).0
          ≡ ok event)
  unfolding append_event sign_core core_hash hash_json canonical_json write_bulletin
  append_event-answer opened created event_type did payload s b read = rw read (_, refl)

  built :
      (updated : Time) (r : VerifyAndPublishRequest) (did_hash : String) (ans : AnsMetadata)
      → r.did_document.ans_metadata ≡ some ans
      → (m : AgentMetadata) × (build_metadata node (working world) updated r did_hash ≡ ok m)
  unfolding build_metadata
  built updated r did_hash ans described = rw described (_, refl)

  publish-answer :
      (r : VerifyAndPublishRequest) (s : Store) (b : Bulletin) (ans : AnsMetadata)
      → read_bulletin node (world.now 3) s ≡ ok b
      → r.did_document.ans_metadata ≡ some ans
      → (v : VerifyResponse) × ((publish node (working world) r s).0 ≡ ok v)
  unfolding publish hash_json canonical_json
  publish-answer r s b ans read described =
      let metadata = built (world.now 2) r _ ans described in
      let event = append_event-answer (world.now 3) (world.now 4) _ r.agent_did _ s b read in
      continue_rule _ _ metadata.0 s metadata.1
        (continue_rule _ _ event.0 _ event.1 (_, distribute-answer r metadata.0 _ _ _ _ event.0 _))

  read_again :
      (t t' : Time) (s : Store) (b : Bulletin)
      → read_bulletin node t s ≡ ok b
      → (b' : Bulletin) × (read_bulletin node t' s ≡ ok b')
  unfolding read_bulletin
  read_again t t' s b read = elim (Option-cases s.bulletin_file) [
    | inl e ↦ (
      record { version = "0.1.0"; root_did = node.root_did; created_at = t'; events = [] },
      rw e refl,
    )
    | inr (f, e) ↦ (b, ground (arith, e, read))
  ]

  described :
      (r : VerifyAndPublishRequest)
      → verify_content r ≡ ok tt
      → (ans : AnsMetadata) × (r.did_document.ans_metadata ≡ some ans)
  unfolding verify_content
  described r h = elim (Option-cases r.did_document.ans_metadata) [
    | inl e ↦ absurd (ground (arith, e, h))
    | inr found ↦ found
  ]

  nonce-verify_request :
      (t t' : Time) (r : VerifyAndPublishRequest) (s : Store)
      → verify_request node (working world) t' r (verify_request_nonce node (working world) t r s).1
        ≡ verify_request node (working world) t' r s
  unfolding verify_request_nonce save_nonce_store verify_request read_bulletin
  nonce-verify_request t t' r s = ground arith

  accepted :
      (r : VerifyAndPublishRequest) (s : Store)
      → verify_request node (working world) (world.now 1) r s ≡ ok tt
      → (v : VerifyResponse) × ((publish node (working world) r s).0 ≡ ok v)
  unfolding verify_request
  accepted r s h = elim (Result-cases (read_bulletin node (world.now 1) s)) [
    | inr (e, read) ↦ absurd (ground (arith, read, h))
    | inl (b, read) ↦
        let again = read_again (world.now 1) (world.now 3) s b read in
        let found = described r (ground (arith, read, h)) in
        publish-answer r s again.0 found.0 again.1 found.1
  ]

  -- If no write and no statement fails, a request is published exactly if its signature, its nonce
  -- and its contents pass their checks: after the checks nothing else can fail.
  pub verify_and_publish_iff :
      (r : VerifyAndPublishRequest) (s : Store)
      → ((v : VerifyResponse) × ((verify_and_publish node (working world) r s).0 ≡ ok v)) ↔ (
          (verify_request_signature r ≡ ok tt)
          × ((verify_request_nonce node (working world) (world.now 0) r s).0 ≡ ok tt)
          × (verify_request node (working world) (world.now 1) r s ≡ ok tt))
  unfolding verify_and_publish
  verify_and_publish_iff r s =
      let m = verify_request_nonce node (working world) (world.now 0) r s in
      let same = nonce-verify_request (world.now 0) (world.now 1) r s in
      (
        λ (v, h). (ground (arith, h), ground (arith, h), ground (arith, h, same)),
        λ (signed, fresh, sound).
            let now : verify_request node (working world) (world.now 1) r m.1 ≡ ok tt =
              same ∙ sound in
            let done = accepted r m.1 now in (done.0, ground (arith, signed, fresh, now, done.1)),
      )
