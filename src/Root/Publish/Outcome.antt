-- ===== src/Root/Publish/Outcome.antt =====
-- The versions that `verify_and_publish` of services/root-node/src/main.rs gives.
use open_agenet.Base.{
  ℕ, ◌+◌, String, ◌≡◌, refl, sym, ap, subst, ◌∙◌, some, arith, ◌==◌, ok, Bool-cases, inl, inr,
  if◌then◌else◌,
}
use open_agenet.Base.Maps.{Map, lookup, insert, lookup-insert_self}
use open_agenet.Root.Events.{append_event}
use open_agenet.Root.Requests.{verify_request_nonce}
use open_agenet.Package.{metadata_serialize}
use open_agenet.Core.Json.{did_document_serialize}
use open_agenet.Bulletin.{BulletinEventType, BulletinEvent}
use open_agenet.Crypto.{hash_json}
use open_agenet.Crypto.Crates.{Primitives}
use open_agenet.Json.{at, get, find_field, fields_of, insert_field, Time, Value}
use open_agenet.Package.{AgentMetadata}
use open_agenet.Protocol.{VerifyAndPublishRequest}
use open_agenet.Root.{Store, Node, World, VerifyResponse}
use open_agenet.Root.Files.{read_list, save_nonce_store, write_bulletin, read_latest_versions}
use open_agenet.Root.Publish.{
  operation_of, version_of, event_type_of, verify_response, version_entry, archive_verified,
  update_latest_version, mirror_latest_version_sqlite, enqueue_cdn, enqueue_discovery, distribute,
  publish, verify_and_publish,
}
use open_agenet.Root.Publish.Taken.{publish-Taken}
use open_agenet.Storage.{holds}

module _ ⦃p : Primitives⦄ (node : Node) (world : World) where
  -- The entry of the index that an answer speaks of.
  abbrev pub entry_of : VerifyResponse → Value
  entry_of v =
      version_entry p.time_text v.document_version v.did_document_hash v.metadata_hash
        v.bulletin_sequence (world.now 6)

  append_event_versions :
      (opened created : Time) (event_type : BulletinEventType) (did : String) (payload : Value)
      (s : Store)
      → read_latest_versions (append_event node world opened created event_type did payload s).1
        ≡ read_latest_versions s
  unfolding append_event write_bulletin read_latest_versions
  append_event_versions opened created event_type did payload s = ground arith

  pub distribute-verify_response :
      (r : VerifyAndPublishRequest) (metadata : AgentMetadata)
      (did_hash metadata_hash operation : String) (version : ℕ) (event : BulletinEvent)
      (s s' : Store) (v : VerifyResponse)
      → distribute node world r metadata did_hash metadata_hash operation version event s
        ≡ (ok v, s')
      → verify_response node world r did_hash metadata_hash operation version event ≡ v
  unfolding distribute
  distribute-verify_response r metadata did_hash metadata_hash operation version event s s' v h =
      ground arith

  distribute_latest :
      (r : VerifyAndPublishRequest) (metadata : AgentMetadata)
      (did_hash metadata_hash operation : String) (version : ℕ) (event : BulletinEvent)
      (s s' : Store) (v : VerifyResponse)
      → distribute node world r metadata did_hash metadata_hash operation version event s
        ≡ (ok v, s')
      → s'.latest_file
        ≡ some (
            holds (
              insert r.agent_did
                (version_entry p.time_text version did_hash metadata_hash event.core.sequence
                  (world.now 6))
                (read_latest_versions s)))
  unfolding distribute archive_verified update_latest_version mirror_latest_version_sqlite
      enqueue_cdn enqueue_discovery read_latest_versions
  distribute_latest r metadata did_hash metadata_hash operation version event s s' v h =
      ground arith

  -- What an answer says of the version, and what the index holds then.
  pub record IsVersioned (r : VerifyAndPublishRequest) (latest : Map Value) (s' : Store)
      (v : VerifyResponse) : Type 0 where
    pub hashed : hash_json r.did_document ≡ ok v.did_document_hash
    pub decided : v.operation ≡ operation_of (lookup r.agent_did latest) v.did_document_hash
    pub counted : v.document_version ≡ version_of (lookup r.agent_did latest) v.did_document_hash
    pub indexed : s'.latest_file ≡ some (holds (insert r.agent_did (entry_of v) latest))

  publish-IsVersioned :
      (r : VerifyAndPublishRequest) (s s' : Store) (v : VerifyResponse)
      → publish node world r s ≡ (ok v, s')
      → IsVersioned r (read_latest_versions s) s' v
  publish-IsVersioned r s s' v h =
      let steps = publish-Taken node world r s s' v h in
      let previous = lookup r.agent_did (read_latest_versions s) in
      let operation = operation_of previous steps.did_hash in
      let version = version_of previous steps.did_hash in
      let kept : read_latest_versions steps.between ≡ read_latest_versions s =
        sym (ap (λ m. read_latest_versions m.1) steps.appended)
        ∙ append_event_versions (world.now 3) (world.now 4) (event_type_of operation) r.agent_did _
            s in
      subst (IsVersioned r (read_latest_versions s) s')
        (distribute-verify_response r steps.metadata steps.did_hash steps.metadata_hash operation
          version steps.event steps.between s' v steps.distributed)
        (record {
          hashed = steps.hashed;
          decided = refl;
          counted = refl;
          indexed =
              distribute_latest r steps.metadata steps.did_hash steps.metadata_hash operation
                version steps.event steps.between s' v steps.distributed
              ∙ ap
                  (λ latest. some (
                    holds (
                      insert r.agent_did
                        (version_entry p.time_text version steps.did_hash steps.metadata_hash
                          steps.event.core.sequence (world.now 6))
                        latest)))
                  kept;
        })

  nonce_versions :
      (r : VerifyAndPublishRequest) (s : Store)
      → read_latest_versions (verify_request_nonce node world (world.now 0) r s).1
        ≡ read_latest_versions s
  unfolding verify_request_nonce save_nonce_store read_latest_versions
  nonce_versions r s = ground arith

  pub verify_and_publish-IsVersioned :
      (r : VerifyAndPublishRequest) (s s' : Store) (v : VerifyResponse)
      → verify_and_publish node world r s ≡ (ok v, s')
      → IsVersioned r (read_latest_versions s) s' v
  unfolding verify_and_publish
  verify_and_publish-IsVersioned r s s' v h =
      let m = verify_request_nonce node world (world.now 0) r s in
      subst (λ latest. IsVersioned r latest s' v) (nonce_versions r s)
        (publish-IsVersioned r m.1 s' v (ground arith))

module _ ⦃p : Primitives⦄ (node : Node) (world world' : World) where
  -- The entry that an answer left in the index decides the next version.
  next_operation :
      (v : VerifyResponse) (did_hash : String)
      → operation_of (some (entry_of node world v)) did_hash
        ≡ (if v.did_document_hash == did_hash then "no-op" else "update")
  unfolding operation_of at get find_field fields_of insert_field
  next_operation v did_hash = refl

  next_version :
      (v : VerifyResponse) (did_hash : String)
      → version_of (some (entry_of node world v)) did_hash
        ≡ v.document_version + (if v.did_document_hash == did_hash then 0 else 1)
  unfolding version_of operation_of at get find_field fields_of insert_field
  next_version v did_hash = elim (Bool-cases (v.did_document_hash == did_hash)) [
    | inl e ↦ rw e refl
    | inr e ↦ rw e refl
  ]

  -- After a request of an agent is published, take any store whose index has the same entry for
  -- this agent. A request of the agent that is published there counts as "no-op" and keeps the
  -- version if its document has the same hash, and counts as "update" and has the next version
  -- otherwise.
  pub verify_and_publish-versions :
      (r r' : VerifyAndPublishRequest) (s s' t t' : Store) (v v' : VerifyResponse)
      → verify_and_publish node world r s ≡ (ok v, s')
      → lookup r.agent_did (read_latest_versions t) ≡ lookup r.agent_did (read_latest_versions s')
      → r'.agent_did ≡ r.agent_did
      → verify_and_publish node world' r' t ≡ (ok v', t')
      → (v'.operation ≡ (if v.did_document_hash == v'.did_document_hash then "no-op" else "update"))
        × (v'.document_version
            ≡ v.document_version + (if v.did_document_hash == v'.did_document_hash then 0 else 1))
  unfolding read_latest_versions
  verify_and_publish-versions r r' s s' t t' v v' h same agent h' =
      let one = verify_and_publish-IsVersioned node world r s s' v h in
      let two = verify_and_publish-IsVersioned node world' r' t t' v' h' in
      let entry : lookup r'.agent_did (read_latest_versions t) ≡ some (entry_of node world v) =
        ap (λ d. lookup d (read_latest_versions t)) agent
        ∙ same
        ∙ ap (λ f. lookup r.agent_did (read_list f)) one.indexed
        ∙ lookup-insert_self r.agent_did (entry_of node world v) (read_latest_versions s) in
      (
        two.decided
            ∙ ap (λ o. operation_of o v'.did_document_hash) entry
            ∙ next_operation v v'.did_document_hash,
        two.counted
            ∙ ap (λ o. version_of o v'.did_document_hash) entry
            ∙ next_version v v'.did_document_hash,
      )
