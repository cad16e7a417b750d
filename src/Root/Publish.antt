-- ===== src/Root/Publish.antt =====
-- `verify_and_publish` of services/root-node/src/main.rs and the steps that it takes.
pub mod Taken
pub mod Packages
pub mod Shown
pub mod Answered
pub mod Outcome
pub mod Queues
use Prim.Native.String.{◌++◌}
use open_agenet.Base.{
  ℕ, ◌+◌, ◌/◌, String, Bool, true, false, not, Option, none, some, List, [], ◌∷◌, ◌==◌, Result, ok,
  err, map_err, retain, push, if◌then◌else◌,
}
use open_agenet.Base.Action.{Action, pure, lift, reads, gets, raising, ◌>>=◌, ◌>>◌}
use open_agenet.Base.Maps.{Map, lookup, insert}
use open_agenet.Base.Texts.{decimal, trim_end_text}
use open_agenet.Bulletin.{
  BulletinEventType, agent_did_document_updated, agent_did_document_anchored, BulletinEvent,
}
use open_agenet.Core.Json.{natural, did_document_serialize}
use open_agenet.Crypto.{hash_json, sign_bytes}
use open_agenet.Crypto.Crates.{Primitives}
use open_agenet.Json.{Time, Value, string, json, texts, at, as_u64, is_text}
use open_agenet.Package.{AgentMetadata, VerifiedPackage, metadata_serialize}
use open_agenet.Protocol.{VerifyAndPublishRequest}
use open_agenet.Root.{
  Failure, crypto, ApiError, bad_request, internal, VerifyResponse, Store, Node, World,
}
use open_agenet.Root.Events.{append_event}
use open_agenet.Root.Files.{read_list, read_latest_versions, write_data, statement}
use open_agenet.Root.Requests.{
  verify_request_signature, verify_request_nonce, verify_request, build_metadata,
}
use open_agenet.Storage.{holds, did_to_file_name}
use open_agenet.Storage.Sqlite.{upsert_json}

-- `previous`: what `latest-did-document-versions.json` holds for the agent.
unfoldable pub operation_of : Option Value → String → String
operation_of none hash = "create"
operation_of (some value) hash =
    if is_text (at value "didDocumentHash") hash then "no-op" else "update"

abbrev pub version_before : Option Value → ℕ
version_before none = 0
version_before (some value) = elim (as_u64 (at value "documentVersion")) [ none ↦ 0 | some n ↦ n ]

-- `u64::from(operation != "no-op")` is added.
unfoldable pub version_of : Option Value → String → ℕ
unfolding operation_of
version_of previous hash =
    version_before previous + (if operation_of previous hash == "no-op" then 0 else 1)

unfoldable pub event_type_of : String → BulletinEventType
event_type_of operation =
    if operation == "update" then agent_did_document_updated else agent_did_document_anchored

-- The entry of an agent in the index, with the time at which it is made.
abbrev pub version_entry : (text : Time → String) → ℕ → String → String → ℕ → Time → Value
version_entry text version did_hash metadata_hash sequence updated = json (
    ("documentVersion", natural version)
    ∷ ("didDocumentHash", string did_hash)
    ∷ ("metadataHash", string metadata_hash)
    ∷ ("bulletinSequence", natural sequence)
    ∷ ("updatedAt", string (text updated))
    ∷ [])

abbrev pub archive_prefix : String → ℕ → String
archive_prefix did version =
    "archive/" ++ (trim_end_text ".json" (did_to_file_name did) ++ ("/v" ++ decimal version))

-- The queue of packages after `retain` and `push`: the newest package of an agent replaces the
-- older one and goes to the end.
unfoldable pub replace_package : VerifiedPackage → List VerifiedPackage → List VerifiedPackage
replace_package pkg queue = push (retain (λ item. not (item.did == pkg.did)) queue) pkg

module _ ⦃p : Primitives⦄ (node : Node) (world : World) where
  open p use {time_text}

  unfoldable pub archive_verified :
      VerifyAndPublishRequest
      → AgentMetadata
      → VerifiedPackage
      → ℕ
      → Action Store Failure (Unit {0})
  archive_verified r metadata pkg version = do
    let name = did_to_file_name r.agent_did
    let prefix = archive_prefix r.agent_did version
    write_data node world (prefix ++ "/did-document.json") (λ s. record s {
      documents = insert (prefix ++ "/did-document.json") (holds r.did_document) s.documents;
    })
    write_data node world (prefix ++ "/metadata.json") (λ s. record s {
      metadata = insert (prefix ++ "/metadata.json") (holds metadata) s.metadata;
    })
    write_data node world (prefix ++ "/package.json")
        (λ s. record s { packages = insert (prefix ++ "/package.json") (holds pkg) s.packages })
    write_data node world ("verified-packages/" ++ name)
        (λ s. record s { packages = insert ("verified-packages/" ++ name) (holds pkg) s.packages })

  unfoldable pub update_latest_version :
      Time → String → ℕ → String → String → ℕ → Action Store Failure (Unit {0})
  update_latest_version updated agent_did version did_hash metadata_hash sequence = do
    latest ← gets read_latest_versions
    write_data node world "indexes/latest-did-document-versions.json" (λ s. record s {
      latest_file = some (
          holds (
            insert agent_did
              (version_entry time_text version did_hash metadata_hash sequence updated) latest));
    })

  -- The clock of the database is read for the row.
  unfoldable pub mirror_latest_version_sqlite :
      Time → String → Value → Action Store Failure (Unit {0})
  mirror_latest_version_sqlite at_row agent_did value =
      statement node world "root.latest_versions" (λ s. record s {
        value_rows = upsert_json at_row "root.latest_versions" agent_did value s.value_rows;
      })

  unfoldable pub enqueue_cdn : Time → VerifiedPackage → Action Store Failure (Unit {0})
  unfolding replace_package
  enqueue_cdn at_row pkg = do
    queue ← gets (λ s. read_list s.cdn_queue_file)
    write_data node world "queues/cdn-publish.json"
        (λ s. record s { cdn_queue_file = some (holds (replace_package pkg queue)) })
    statement node world "root.cdn_publish_queue" (λ s. record s {
      package_rows = upsert_json at_row "root.cdn_publish_queue" pkg.did pkg s.package_rows;
    })

  -- The notification of a package; `timestamp()` is in seconds.
  abbrev pub notification : VerifiedPackage → String → ℕ → String → Value
  notification pkg metadata_hash bulletin_sequence event_hash = json (
      ("agentDid", string pkg.did)
      ∷ ("operation", string "upsert")
      ∷ ("documentVersion", natural (pkg.metadata.updated_at / 1_000_000_000))
      ∷ ("didDocumentHash", string pkg.did_document_hash)
      ∷ ("metadataHash", string metadata_hash)
      ∷ ("bulletinSequence", natural bulletin_sequence)
      ∷ ("bulletinEventHash", string event_hash)
      ∷ ("capabilityTags", texts pkg.metadata.capability_tags)
      ∷ [])

  unfoldable pub enqueue_discovery :
      Time → VerifiedPackage → ℕ → String → Action Store Failure (Unit {0})
  enqueue_discovery at_row pkg bulletin_sequence event_hash = do
    queue ← gets (λ s. read_list s.discovery_queue_file)
    metadata_hash ← lift (map_err crypto (hash_json pkg.metadata))
    let item = notification pkg metadata_hash bulletin_sequence event_hash
    write_data node world "queues/discovery-notify.json"
        (λ s. record s { discovery_queue_file = some (holds (push queue item)) })
    statement node world "root.discovery_notify_queue" (λ s. record s {
      value_rows =
          upsert_json at_row "root.discovery_notify_queue"
            (pkg.did ++ (":" ++ decimal bulletin_sequence)) item s.value_rows;
    })

  -- The payload of the event.
  abbrev pub event_payload :
      VerifyAndPublishRequest
      → AgentMetadata
      → (did_hash metadata_hash : String) → (operation : String) → (version : ℕ) → Value
  event_payload r metadata did_hash metadata_hash operation version = json (
      ("registrarDid", string r.registrar_did)
      ∷ ("didDocumentHash", string did_hash)
      ∷ ("metadataHash", string metadata_hash)
      ∷ ("documentVersion", natural version)
      ∷ ("operation", string operation)
      ∷ ("capabilityTags", texts metadata.capability_tags)
      ∷ [])

  -- The package that is published for an event, signed by the root.
  unfoldable pub package_of :
      Time
      → VerifyAndPublishRequest
      → AgentMetadata
      → (did_hash metadata_hash : String) → BulletinEvent
      → VerifiedPackage
  package_of created r metadata did_hash metadata_hash event = record {
    package_version = "0.1.0";
    did = r.agent_did;
    did_document = r.did_document;
    did_document_hash = did_hash;
    metadata_hash = some metadata_hash;
    metadata = metadata;
    root_proof = record {
      root_did = node.root_did;
      bulletin_event_hash = some event.event_hash;
      signature = some (sign_bytes node.signing_key event.event_hash);
    };
    created_at = created;
  }

  abbrev pub verify_response :
      VerifyAndPublishRequest
      → (did_hash metadata_hash : String) → (operation : String) → (version : ℕ) → BulletinEvent
      → VerifyResponse
  verify_response r did_hash metadata_hash operation version event = record {
    status = "verified-and-queued";
    operation = operation;
    agent_did = r.agent_did;
    did_document_hash = did_hash;
    metadata_hash = metadata_hash;
    document_version = version;
    bulletin_sequence = event.core.sequence;
    bulletin_event_hash = event.event_hash;
    cdn_dispatch_status = "queued";
    discovery_notify_status = "queued";
  }

  -- What is done once the event is on the bulletin. The clock is read for the package (5), the
  -- index (6, 7) and the rows of the database (8 to 10).
  unfoldable pub distribute :
      VerifyAndPublishRequest
      → AgentMetadata
      → (did_hash metadata_hash : String) → (operation : String) → (version : ℕ) → BulletinEvent
      → Action Store Failure VerifyResponse
  unfolding package_of
  distribute r metadata did_hash metadata_hash operation version event = do
    let pkg = package_of (world.now 5) r metadata did_hash metadata_hash event
    archive_verified r metadata pkg version
    update_latest_version (world.now 6) r.agent_did version did_hash metadata_hash
        event.core.sequence
    mirror_latest_version_sqlite (world.now 8) r.agent_did
        (version_entry time_text version did_hash metadata_hash event.core.sequence (world.now 7))
    enqueue_cdn (world.now 9) pkg
    enqueue_discovery (world.now 10) pkg event.core.sequence event.event_hash
    pure (verify_response r did_hash metadata_hash operation version event)

  -- The part of `verify_and_publish` that comes after the checks. The clock is read for the
  -- metadata (2), a missing bulletin (3) and the event (4).
  unfoldable pub publish : VerifyAndPublishRequest → Action Store Failure VerifyResponse
  publish r = do
    did_hash ← lift (map_err crypto (hash_json r.did_document))
    metadata ← lift (build_metadata node world (world.now 2) r did_hash)
    metadata_hash ← lift (map_err crypto (hash_json metadata))
    latest ← gets read_latest_versions
    let operation = operation_of (lookup r.agent_did latest) did_hash
    let version = version_of (lookup r.agent_did latest) did_hash
    event ←
        append_event node world (world.now 3) (world.now 4) (event_type_of operation) r.agent_did
          (event_payload r metadata did_hash metadata_hash operation version)
    distribute r metadata did_hash metadata_hash operation version event

  -- The clock is read for the nonce (0) and a missing bulletin (1).
  unfoldable pub verify_and_publish : VerifyAndPublishRequest → Action Store ApiError VerifyResponse
  unfolding publish
  verify_and_publish r = do
    lift (map_err bad_request (verify_request_signature r))
    raising bad_request (verify_request_nonce node world (world.now 0) r)
    reads (λ s. map_err bad_request (verify_request node world (world.now 1) r s))
    raising internal (publish r)
