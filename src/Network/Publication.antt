-- ===== src/Network/Publication.antt =====
-- What `verify_and_publish` of services/root-node/src/main.rs publishes, as `sync_from_cdn` of
-- services/discovery-node/src/main.rs looks at it.
use mathlib.Core.List.{◌++◌}
use open_agenet.Base.{
  ℕ, last, last-append, none, retain, ◌==◌, String, ◌≡◌, refl, sym, ap, ◌∙◌, true, not, some, List,
  [], ◌∷◌, arith, ok, Option-cases, inl, inr, eq_refl, if◌then◌else◌,
}
use open_agenet.Base.Maps.{lookup, lookup-insert_self}
use open_agenet.Bulletin.{BulletinEventType, BulletinEvent, Bulletin, bulletin_value}
use open_agenet.Core.Json.{did_document_serialize}
use open_agenet.Crypto.{hash_json}
use open_agenet.Crypto.Crates.{Primitives, SigningLaws}
use open_agenet.Crypto.Signing.{verify_bytes-sign_bytes}
use open_agenet.Discovery.{
  is_indexable_agent, authorized_domains_match, discovery_authorized_domains,
  verify_package_root_proof,
}
use open_agenet.Discovery.Sync
use open_agenet.Discovery.Sync.{reason_against}
use open_agenet.Json.{Time, Value}
use open_agenet.Network.Events.{events_of-bulletin_value, any-newest, sign_core-subject}
use open_agenet.Package.{
  VerifiedPackage, AgentMetadata, metadata_serialize, verify_document_hash, verify_metadata_hash,
}
use open_agenet.Protocol.{VerifyAndPublishRequest}
use open_agenet.Root.{Store, Node, World, VerifyResponse}
use open_agenet.Root.Events.Growth.{Appended, append_event-Appended}
use open_agenet.Root.Files.{read_bulletin, read_list, read_latest_versions}
use open_agenet.Root.Publish.{
  operation_of, version_of, event_type_of, event_payload, package_of, replace_package,
  verify_and_publish,
}
use open_agenet.Root.Publish.Packages.{verified_path, Stores, distribute-Stores}
use open_agenet.Root.Publish.Taken.{
  Taken, publish-Taken, verify_and_publish-publish, verify_and_publish-verify_content,
}
use open_agenet.Root.Requests.{build_metadata, verify_content, verify_request_nonce}
use open_agenet.Storage.{holds, read_file}

module _ ⦃p : Primitives⦄ where
  module _ (node : Node) (world : World) (created : Time) (r : VerifyAndPublishRequest)
      (metadata : AgentMetadata) (did_hash metadata_hash : String) (event : BulletinEvent) where
    abbrev published : VerifiedPackage
    published = package_of node world created r metadata did_hash metadata_hash event

    published-verify_document_hash :
        hash_json r.did_document ≡ ok did_hash → verify_document_hash published ≡ ok tt
    unfolding package_of verify_document_hash
    published-verify_document_hash h = rw h (rw (eq_refl did_hash) refl)

    published-verify_metadata_hash :
        hash_json metadata ≡ ok metadata_hash → verify_metadata_hash published ≡ ok tt
    unfolding package_of verify_metadata_hash
    published-verify_metadata_hash h = rw h (rw (eq_refl metadata_hash) refl)

    published-is_indexable_agent :
        (updated : Time)
        → build_metadata node world updated r did_hash ≡ ok metadata
        → verify_content r ≡ ok tt
        → is_indexable_agent published ≡ true
    unfolding package_of is_indexable_agent build_metadata verify_content
    published-is_indexable_agent updated h c = elim (Option-cases r.did_document.ans_metadata) [
      | inl e ↦ absurd (ground (arith, e, c))
      | inr (ans, e) ↦ ground (arith, e, c, h)
    ]

    published-verify_package_root_proof :
        SigningLaws p
        → (b : Bulletin) (old : List BulletinEvent) → b.events ≡ old ++ event ∷ []
        → event.core.subject_did ≡ r.agent_did
        → verify_package_root_proof published (bulletin_value b) (p.verifying_key node.signing_key)
          ≡ true
    unfolding package_of verify_package_root_proof
    published-verify_package_root_proof laws b old grown about = rw (events_of-bulletin_value b) (
        rw grown (
          rw (sym about) (
            rw (any-newest old event)
              (rw (verify_bytes-sign_bytes laws node.signing_key event.event_hash) refl))))

  pub read_new_bulletin :
      (node : Node) (opened : Time) (s : Store) (b : Bulletin)
      → s.bulletin_file ≡ some (holds b)
      → read_bulletin node opened s ≡ ok b
  unfolding read_bulletin
  read_new_bulletin node opened s b h = rw h refl

  last-replace_package :
      (pkg : VerifiedPackage) (queue : List VerifiedPackage)
      → last (replace_package pkg queue) ≡ some pkg
  unfolding replace_package
  last-replace_package pkg queue =
      last-append (retain (λ item. not (item.did == pkg.did)) queue) pkg

  reason_against_lem :
      (discovery : Sync.Node) (value : Value) (key : p.VerifyingKey) (pkg : VerifiedPackage)
      → is_indexable_agent pkg ≡ true
      → verify_document_hash pkg ≡ ok tt
      → verify_metadata_hash pkg ≡ ok tt
      → verify_package_root_proof pkg value key ≡ true
      → reason_against discovery value key pkg ≡ (
          if authorized_domains_match discovery.tree pkg
            (discovery_authorized_domains value discovery.did)
          then none
          else some "unauthorized_domains")
  unfolding reason_against
  reason_against_lem discovery value key pkg i d m s = rw i (rw d (rw m (rw s refl)))

  -- A package of the request is kept and queued, and a discovery node with the bulletin has nothing
  -- against it but its domains.
  pub record Accepted (node : Node) (discovery : Sync.Node) (opened : Time)
      (r : VerifyAndPublishRequest) (s' : Store) : Type 0 where
    pub bulletin : Bulletin
    pub pkg : VerifiedPackage
    pub read : read_bulletin node opened s' ≡ ok bulletin
    pub kept : read_file (lookup (verified_path r.agent_did) s'.packages) ≡ ok pkg
    pub queued : last (read_list s'.cdn_queue_file) ≡ some pkg
    pub document : pkg.did_document ≡ r.did_document
    pub unopposed :
        reason_against discovery (bulletin_value bulletin) (p.verifying_key node.signing_key) pkg
        ≡ (if authorized_domains_match discovery.tree pkg
              (discovery_authorized_domains (bulletin_value bulletin) discovery.did)
            then none
            else some "unauthorized_domains")

  module _ (laws : SigningLaws p) (node : Node) (world : World) (discovery : Sync.Node)
      (opened : Time) (r : VerifyAndPublishRequest) (metadata : AgentMetadata)
      (did_hash metadata_hash operation : String) (version : ℕ) (event_type : BulletinEventType)
      (payload : Value) (event : BulletinEvent) where
    steps-Accepted :
        (s between s' : Store) (v : VerifyResponse)
        → verify_content r ≡ ok tt
        → hash_json r.did_document ≡ ok did_hash
        → build_metadata node world (world.now 2) r did_hash ≡ ok metadata
        → hash_json metadata ≡ ok metadata_hash
        → Appended node world
            (world.now 3)
            (world.now 4)
            event_type
            r.agent_did
            payload
            s
            between
            event
        → Stores node world r metadata did_hash metadata_hash operation version event between s'
        → Accepted node discovery opened r s'
    unfolding package_of
    steps-Accepted s between s' v content hashed built described added stores =
        let b : Bulletin = record added.old { events = added.old.events ++ event ∷ [] } in
        let pkg = published node world (world.now 5) r metadata did_hash metadata_hash event in
        record {
          bulletin = b;
          pkg = pkg;
          read =
              read_new_bulletin node opened s' b
                (stores.bulletin ∙ ap (λ x. x.bulletin_file) added.left);
          kept =
              ap (λ files. read_file (lookup (verified_path r.agent_did) files)) stores.packages
              ∙ ap read_file (lookup-insert_self (verified_path r.agent_did) (holds pkg) _);
          queued =
              ap (λ f. last (read_list f)) stores.queued
              ∙ last-replace_package pkg (read_list between.cdn_queue_file);
          document = refl;
          unopposed =
              reason_against_lem discovery (bulletin_value b) (p.verifying_key node.signing_key) pkg
                (published-is_indexable_agent node world (world.now 5) r metadata did_hash
                  metadata_hash event (world.now 2) built content)
                (published-verify_document_hash node world (world.now 5) r metadata did_hash
                  metadata_hash event hashed)
                (published-verify_metadata_hash node world (world.now 5) r metadata did_hash
                  metadata_hash event described)
                (published-verify_package_root_proof node world (world.now 5) r metadata did_hash
                  metadata_hash event laws b added.old.events refl
                  (ap (λ c. c.subject_did)
                    (sign_core-subject node.signing_key _ event added.signed)));
        }

  publish-Accepted :
      SigningLaws p
      → (node : Node) (world : World) (discovery : Sync.Node) (opened : Time)
        (r : VerifyAndPublishRequest) (s s' : Store) (v : VerifyResponse)
      → verify_content r ≡ ok tt
      → Taken node world r s s' v
      → Accepted node discovery opened r s'
  publish-Accepted laws node world discovery opened r s s' v content steps =
      let previous = lookup r.agent_did (read_latest_versions s) in
      steps-Accepted laws node world discovery opened r steps.metadata steps.did_hash
        steps.metadata_hash (operation_of previous steps.did_hash)
        (version_of previous steps.did_hash) (event_type_of (operation_of previous steps.did_hash))
        (event_payload node world r steps.metadata steps.did_hash steps.metadata_hash
          (operation_of previous steps.did_hash) (version_of previous steps.did_hash))
        steps.event s steps.between s' v content steps.hashed steps.built steps.described
        (append_event-Appended node world (world.now 3) (world.now 4) _ r.agent_did _ s
          steps.between steps.event steps.appended)
        (distribute-Stores node world r steps.metadata steps.did_hash steps.metadata_hash _ _
          steps.event steps.between s' v steps.distributed)

  -- If the key's crate keeps `SigningLaws`, then after the root has answered a request with a
  -- result, the bulletin can be read, the root keeps one package of the agent among its verified
  -- packages and as the last one of the queue for the content service, the package has the document
  -- of the request, and a discovery node that holds this bulletin and the root's key has nothing
  -- against it, unless it is outside the domains of the node.
  pub verify_and_publish-Accepted :
      SigningLaws p
      → (node : Node) (world : World) (discovery : Sync.Node) (opened : Time)
        (r : VerifyAndPublishRequest) (s s' : Store) (v : VerifyResponse)
      → verify_and_publish node world r s ≡ (ok v, s')
      → Accepted node discovery opened r s'
  verify_and_publish-Accepted laws node world discovery opened r s s' v h =
      publish-Accepted laws node world discovery opened r
        (verify_request_nonce node world (world.now 0) r s).1 s' v
        (verify_and_publish-verify_content node world r s s' v h)
        (publish-Taken node world r (verify_request_nonce node world (world.now 0) r s).1 s' v
          (verify_and_publish-publish node world r s s' v h))
