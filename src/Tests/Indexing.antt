-- ===== src/Tests/Indexing.antt =====
-- A sync of a discovery node after the first run of the root.
use open_agenet.Base.{List}
use open_agenet.Bulletin.{event_value}
use open_agenet.Bulletin.{verify_event}
use open_agenet.Base.{true}
use open_agenet.Bulletin.{core_hash, core_value, event_type_text, sign_core, verify_hash_chain}
use open_agenet.Core.Tags.{matches_authorized_domains, normalize_tag, normalized}
use open_agenet.Root.Requests.{
  build_metadata, dedup, sort_texts, verify_content, verify_issuer_key, verify_request,
  verify_request_nonce, verify_request_signature,
}
use open_agenet.Root.Files.{
  current_authorizations, load_authorization_state, load_nonce_store, read_bulletin,
  read_latest_versions, save_nonce_store, write_authorizations, write_bulletin,
}
use open_agenet.Crypto.{
  canonical_json, canonical_json_value, hash_json, sha256_hex, sign_bytes, strip_z, verify_bytes,
  verifying_key_from_bytes, verifying_key_from_public_key_jwk,
  verifying_key_from_public_key_multibase,
}
use open_agenet.Root.Events.{append_event}
use open_agenet.Root.Authorize.{authorize_registrar, update_authorization_state, with_authorization}
use open_agenet.Base.Maps.{insert, lookup}
use open_agenet.Did.{parse, parse_parts}
use open_agenet.Base.Texts.{is_alphanumeric, split_colon, trim_end, trim_end_text}
use open_agenet.Core.Documents.{validate_mvp}
use open_agenet.Core.Json.{did_document_value, service_endpoint_value}
use open_agenet.Core.{is_agent}
use open_agenet.Credentials.Reading.{agent_registration_of_value, proof_of_value}
use open_agenet.Credentials.{
  agent_registration_value, proof_payload_hash, verify_agent_registration_credential,
  verify_signed_payload,
}
use open_agenet.Json.{at, fields_of, find_field, get, insert_field}
use open_agenet.Package.{metadata_value, verify_document_hash, verify_metadata_hash}
use open_agenet.Root.Publish.{
  archive_verified, distribute, enqueue_cdn, enqueue_discovery, event_type_of,
  mirror_latest_version_sqlite, operation_of, package_of, publish, replace_package,
  update_latest_version, verify_and_publish, version_of,
}
use open_agenet.Storage.Sqlite.{delete_namespace, upsert_json}
use open_agenet.Storage.{did_to_file_name, join, resolve}
use open_agenet.Discovery.Sync.{
  append_json_log, collect, log_progress, reason_against, store_progress, sync_from_cdn,
  upsert_each, verify_bulletin_state, write_indexed_packages, write_sync_history_sqlite,
}
use open_agenet.Discovery.{
  authorized_domains_match, discovery_authorized_domains, is_indexable_agent,
  verify_package_root_proof,
}
use open_agenet.Discovery.Service.{
  package_url, replace_did, resolve_cdn_service, root_verifying_key,
}
use open_agenet.Base.{refl, none, Result, ok, here, unwrap_or}
use open_agenet.Base.Maps.{lookup}
use open_agenet.Bulletin.{
  Bulletin, BulletinEvent, registrar_authorized, agent_did_document_anchored, bulletin_value,
}
use open_agenet.Core.Json.{natural}
use open_agenet.Discovery.Service.{Failure}
use open_agenet.Discovery.Sync
use open_agenet.Discovery.Sync.{Peers, received}
use open_agenet.Json.{Value, null, texts}
use open_agenet.Network.Indexing.{Has, verify_and_publish-sync_from_cdn}
use open_agenet.Root.Files.{read_bulletin}
use open_agenet.Root.Publish.Packages.{verified_path}
use open_agenet.Storage.{holds, read_file}
use open_agenet.Tests.Runs.{document, registrar_did, echo_package}
use open_agenet.Base.{◌≡◌, some, [], ◌∷◌}
use open_agenet.Base.Texts.{decimal}
use open_agenet.Json.{string, json}
use open_agenet.Package.{VerifiedPackage}
use open_agenet.Tests.Discovery
use open_agenet.Tests.Root.{first_ok}
use open_agenet.Tests.Runs.{agent_did, node, world, joined_store, request, first, first_answer}
use open_agenet.Tests.Toy.{toy, toy-SigningLaws}

-- The bulletin and the package after the run.
abbrev joined_event : BulletinEvent
joined_event = record {
  core = record {
    sequence = 1;
    previous_hash = none;
    event_type = registrar_authorized;
    subject_did = registrar_did;
    actor_did = node.root_did;
    payload = json (("targetRole", string "registrar") ∷ ("didDocumentHash", string "396") ∷ []);
    created_at = 1;
  };
  event_hash = "254";
  signature = "aaa,";
}

abbrev anchored_event : BulletinEvent
anchored_event = record {
  core = record {
    sequence = 2;
    previous_hash = some "254";
    event_type = agent_did_document_anchored;
    subject_did = agent_did;
    actor_did = node.root_did;
    payload = json (
        ("registrarDid", string registrar_did)
        ∷ ("didDocumentHash", string "598")
        ∷ ("metadataHash", string "283")
        ∷ ("documentVersion", natural 1)
        ∷ ("operation", string "create")
        ∷ ("capabilityTags", texts ("a2a" ∷ "echo" ∷ []))
        ∷ []);
    created_at = 4;
  };
  event_hash = "391";
  signature = "aaa,";
}

abbrev anchored_bulletin : Bulletin
anchored_bulletin = record {
  version = "0.1.0";
  root_did = node.root_did;
  created_at = 0;
  events = joined_event ∷ anchored_event ∷ [];
}

abbrev anchored_package : VerifiedPackage
anchored_package = record (echo_package "0.1.0") {
  metadata_hash = some "283";
  root_proof = record {
    root_did = node.root_did;
    bulletin_event_hash = some "391";
    signature = some "aaa,";
  };
  created_at = 5;
}

anchored_read : read_bulletin node 0 first.1 ≡ ok anchored_bulletin
unfolding verify_and_publish authorize_registrar verify_request_signature verify_request_nonce
    load_nonce_store hash_json append_event read_bulletin sign_core write_bulletin
    update_authorization_state write_authorizations lookup save_nonce_store verify_request parse
    split_colon is_alphanumeric validate_mvp insert decimal trim_end_text core_hash core_value
    event_type_text did_document_value service_endpoint_value normalize_tag normalized is_agent
    agent_registration_of_value proof_of_value agent_registration_value proof_payload_hash
    verify_agent_registration_credential verify_signed_payload canonical_json canonical_json_value
    sha256_hex sign_bytes strip_z verify_bytes verifying_key_from_bytes
    verifying_key_from_public_key_jwk verifying_key_from_public_key_multibase parse_parts at
    fields_of find_field get insert_field metadata_value with_authorization current_authorizations
    load_authorization_state read_latest_versions archive_verified distribute enqueue_cdn
    enqueue_discovery event_type_of mirror_latest_version_sqlite operation_of package_of publish
    replace_package update_latest_version version_of build_metadata dedup sort_texts verify_content
    verify_issuer_key upsert_json did_to_file_name join resolve
anchored_read = refl

anchored_kept : read_file (lookup (verified_path agent_did) first.1.packages) ≡ ok anchored_package
unfolding verify_and_publish authorize_registrar verify_request_signature verify_request_nonce
    load_nonce_store hash_json append_event read_bulletin sign_core write_bulletin
    update_authorization_state write_authorizations lookup save_nonce_store verify_request parse
    split_colon is_alphanumeric validate_mvp insert decimal trim_end_text core_hash core_value
    event_type_text did_document_value service_endpoint_value normalize_tag normalized is_agent
    agent_registration_of_value proof_of_value agent_registration_value proof_payload_hash
    verify_agent_registration_credential verify_signed_payload canonical_json canonical_json_value
    sha256_hex sign_bytes strip_z verify_bytes verifying_key_from_bytes
    verifying_key_from_public_key_jwk verifying_key_from_public_key_multibase parse_parts at
    fields_of find_field get insert_field metadata_value with_authorization current_authorizations
    load_authorization_state read_latest_versions archive_verified distribute enqueue_cdn
    enqueue_discovery event_type_of mirror_latest_version_sqlite operation_of package_of publish
    replace_package update_latest_version version_of build_metadata dedup sort_texts verify_content
    verify_issuer_key upsert_json did_to_file_name join resolve
anchored_kept = refl

-- The content service has the package.
abbrev peers : Peers
peers = record Discovery.peers {
  fetch_bulletin = ok (bulletin_value ⦃p = toy⦄ anchored_bulletin);
  bulletin_of_value = λ v. some anchored_bulletin;
  fetch_package = λ url. received anchored_package;
}

abbrev synced : Result Failure Value × Sync.Store
synced = Sync.sync_from_cdn ⦃p = toy⦄ Discovery.node Discovery.world peers Discovery.empty_store

abbrev sync_answer : Value
sync_answer = unwrap_or synced.0 null

synced_ok : synced ≡ (ok sync_answer, synced.1)
unfolding verify_hash_chain sync_from_cdn verify_bulletin_state collect write_indexed_packages
    is_indexable_agent is_agent verify_document_hash hash_json did_document_value fields_of
    verify_metadata_hash verify_package_root_proof at verify_bytes authorized_domains_match
    matches_authorized_domains service_endpoint_value canonical_json canonical_json_value sha256_hex
    append_json_log log_progress reason_against store_progress upsert_each write_sync_history_sqlite
    discovery_authorized_domains find_field get insert_field delete_namespace upsert_json join
    resolve decimal root_verifying_key resolve_cdn_service package_url replace_did trim_end
    verifying_key_from_public_key_jwk verifying_key_from_bytes verify_event core_hash core_value
    event_type_text bulletin_value metadata_value
synced_ok = refl

cdn_ok :
    resolve_cdn_service Discovery.node.cdn_endpoint (bulletin_value ⦃p = toy⦄ anchored_bulletin)
    ≡ ok Discovery.cdn
unfolding resolve_cdn_service bulletin_value event_value at get find_field fields_of insert_field
    event_type_text trim_end
cdn_ok = refl

within_domains :
    authorized_domains_match Discovery.node.tree anchored_package
      (discovery_authorized_domains (bulletin_value ⦃p = toy⦄ anchored_bulletin) Discovery.node.did)
    ≡ true
unfolding authorized_domains_match discovery_authorized_domains matches_authorized_domains
    bulletin_value event_value at get find_field fields_of insert_field event_type_text
within_domains = refl

verify_and_publish-sync_from_cdn_example :
    (packages : List VerifiedPackage) × (synced.1.index_file ≡ some (holds packages))
    × Has anchored_package packages
verify_and_publish-sync_from_cdn_example =
    verify_and_publish-sync_from_cdn ⦃p = toy⦄ toy-SigningLaws node world (request "n") joined_store
      first.1 first_answer 0 anchored_bulletin anchored_package Discovery.node Discovery.world peers
      Discovery.empty_store synced.1 sync_answer (document node.root_did none) Discovery.cdn
      Discovery.one_entry first_ok anchored_read anchored_kept refl refl Discovery.root_key_ok
      cdn_ok refl (here refl) within_domains synced_ok
