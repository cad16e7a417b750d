-- ===== src/Tests/Root.antt =====
-- Runs of the root node.
use mathlib.Core.Option
use open_agenet.Base.{◌==◌, if◌then◌else◌, Some, contains, map, ◌↔◌}
use open_agenet.Bulletin.{registrar_revoked, verify_hash_chain}
use open_agenet.Root.{bad_request, VerifyResponse}
use open_agenet.Root.Authorize.{revoked_node}
use open_agenet.Root.Authorize.Revoked.{revoke_node-verify_request}
use open_agenet.Bulletin.Chain.{verify_hash_chain_iff}
use open_agenet.Root.Publish.Answered.{verify_and_publish_iff}
use open_agenet.Root.Publish.Outcome.{verify_and_publish-versions}
use open_agenet.Root.Requests.{described_tags}
use open_agenet.Root.Requests.Checks.{IsAbout, IsSound, verify_request_iff}
use open_agenet.Root.Requests.Metadata.{Ascends, build_metadata-capability_tags}
use open_agenet.Root.Steps.Runs.{
  start, next, published, registrar_joined, Run-verify_hash_chain, Run-no_replay,
}
use open_agenet.Root.Requests.{
  build_metadata, dedup, sort_texts, verify_content, verify_issuer_key, verify_request,
  verify_request_nonce, verify_request_signature,
}
use open_agenet.Root.Files.{
  current_authorizations, load_authorization_state, load_nonce_store, read_bulletin,
  read_latest_versions, save_nonce_store, write_authorizations, write_bulletin,
}
use open_agenet.Crypto.{
  canonical_json, canonical_json_value, hash_json, sha256_hex, sign_bytes, strip_z, verify_bytes,
  verifying_key_from_bytes, verifying_key_from_public_key_jwk,
  verifying_key_from_public_key_multibase,
}
use open_agenet.Root.Events.{append_event}
use open_agenet.Bulletin.{core_hash, core_value, event_type_text, sign_core}
use open_agenet.Root.Authorize.{
  revoke_authorization_state, without_authorization, change, status_ok, revoke_node,
  update_authorization_state, with_authorization,
}
use open_agenet.Base.Maps.{insert, lookup}
use open_agenet.Did.{parse, parse_parts}
use open_agenet.Base.Texts.{is_alphanumeric, split_colon, trim_end_text}
use open_agenet.Core.Documents.{validate_mvp}
use open_agenet.Core.Json.{did_document_value, service_endpoint_value}
use open_agenet.Core.Tags.{normalize_tag, normalized}
use open_agenet.Core.{is_agent}
use open_agenet.Credentials.Reading.{agent_registration_of_value, proof_of_value}
use open_agenet.Credentials.{
  agent_registration_value, proof_payload_hash, verify_agent_registration_credential,
  verify_signed_payload,
}
use open_agenet.Json.{at, fields_of, find_field, get, insert_field}
use open_agenet.Package.{metadata_value}
use open_agenet.Root.Publish.{
  archive_verified, distribute, enqueue_cdn, enqueue_discovery, event_type_of,
  mirror_latest_version_sqlite, operation_of, package_of, publish, replace_package,
  update_latest_version, version_of,
}
use open_agenet.Storage.Sqlite.{upsert_json}
use open_agenet.Storage.{did_to_file_name, join, resolve}
use open_agenet.Base.{◌+◌, String, ◌≡◌, refl, [], ◌∷◌, ok, err}
use open_agenet.Base.Texts.{decimal}
use open_agenet.Bulletin.{Bulletin, registrar_authorized}
use open_agenet.Json.{null}
use open_agenet.Root.Authorize.{authorize_registrar}
use open_agenet.Root.Publish.{verify_and_publish}
use open_agenet.Tests.Toy.{toy, toy-SigningLaws}
use open_agenet.Tests.Runs.{
  echo_metadata, registrar_did, echo_agent, node, world, empty_store, joining, joined_store,
  request, first, first_answer, joined_bulletin, no_bulletin, first_bulletin, second, second_answer,
  revoking,
}

pub first_ok : first ≡ (ok first_answer, first.1)
unfolding verify_and_publish authorize_registrar verify_request_signature verify_request_nonce
    load_nonce_store hash_json append_event read_bulletin sign_core write_bulletin
    update_authorization_state write_authorizations lookup save_nonce_store verify_request parse
    split_colon is_alphanumeric validate_mvp insert decimal trim_end_text core_hash core_value
    event_type_text did_document_value service_endpoint_value normalize_tag normalized is_agent
    agent_registration_of_value proof_of_value agent_registration_value proof_payload_hash
    verify_agent_registration_credential verify_signed_payload canonical_json canonical_json_value
    sha256_hex sign_bytes strip_z verify_bytes verifying_key_from_bytes
    verifying_key_from_public_key_jwk verifying_key_from_public_key_multibase parse_parts at
    fields_of find_field get insert_field metadata_value with_authorization current_authorizations
    load_authorization_state read_latest_versions archive_verified distribute enqueue_cdn
    enqueue_discovery event_type_of mirror_latest_version_sqlite operation_of package_of publish
    replace_package update_latest_version version_of build_metadata dedup sort_texts verify_content
    verify_issuer_key upsert_json did_to_file_name join resolve
first_ok = refl

second_ok : second ≡ (ok second_answer, second.1)
unfolding verify_and_publish authorize_registrar verify_request_signature verify_request_nonce
    load_nonce_store hash_json append_event read_bulletin sign_core write_bulletin
    update_authorization_state write_authorizations lookup save_nonce_store verify_request parse
    split_colon is_alphanumeric validate_mvp insert decimal trim_end_text core_hash core_value
    event_type_text did_document_value service_endpoint_value normalize_tag normalized is_agent
    agent_registration_of_value proof_of_value agent_registration_value proof_payload_hash
    verify_agent_registration_credential verify_signed_payload canonical_json canonical_json_value
    sha256_hex sign_bytes strip_z verify_bytes verifying_key_from_bytes
    verifying_key_from_public_key_jwk verifying_key_from_public_key_multibase parse_parts at
    fields_of find_field get insert_field metadata_value with_authorization current_authorizations
    load_authorization_state read_latest_versions archive_verified distribute enqueue_cdn
    enqueue_discovery event_type_of mirror_latest_version_sqlite operation_of package_of publish
    replace_package update_latest_version version_of build_metadata dedup sort_texts verify_content
    verify_issuer_key upsert_json did_to_file_name join resolve
second_ok = refl

joined_read : read_bulletin node 0 joined_store ≡ ok joined_bulletin
unfolding authorize_registrar append_event read_bulletin write_bulletin sign_core core_hash
    core_value hash_json canonical_json canonical_json_value sha256_hex did_document_value
    service_endpoint_value fields_of insert_field decimal event_type_text sign_bytes
    update_authorization_state write_authorizations
joined_read = refl

first_read : read_bulletin node 0 first.1 ≡ ok first_bulletin
unfolding verify_and_publish authorize_registrar verify_request_signature verify_request_nonce
    load_nonce_store hash_json append_event read_bulletin sign_core write_bulletin
    update_authorization_state write_authorizations lookup save_nonce_store verify_request parse
    split_colon is_alphanumeric validate_mvp insert decimal trim_end_text core_hash core_value
    event_type_text did_document_value service_endpoint_value normalize_tag normalized is_agent
    agent_registration_of_value proof_of_value agent_registration_value proof_payload_hash
    verify_agent_registration_credential verify_signed_payload canonical_json canonical_json_value
    sha256_hex sign_bytes strip_z verify_bytes verifying_key_from_bytes
    verifying_key_from_public_key_jwk verifying_key_from_public_key_multibase parse_parts at
    fields_of find_field get insert_field metadata_value with_authorization current_authorizations
    load_authorization_state read_latest_versions archive_verified distribute enqueue_cdn
    enqueue_discovery event_type_of mirror_latest_version_sqlite operation_of package_of publish
    replace_package update_latest_version version_of build_metadata dedup sort_texts verify_content
    verify_issuer_key upsert_json did_to_file_name join resolve
first_read = refl

revoking_ok : revoking ≡ (ok status_ok, revoking.1)
unfolding revoke_node revoke_authorization_state without_authorization change verify_and_publish
    authorize_registrar verify_request_signature verify_request_nonce load_nonce_store hash_json
    append_event read_bulletin sign_core write_bulletin update_authorization_state
    write_authorizations lookup save_nonce_store verify_request parse split_colon is_alphanumeric
    validate_mvp insert decimal trim_end_text core_hash core_value event_type_text
    did_document_value service_endpoint_value normalize_tag normalized is_agent
    agent_registration_of_value proof_of_value agent_registration_value proof_payload_hash
    verify_agent_registration_credential verify_signed_payload canonical_json canonical_json_value
    sha256_hex sign_bytes strip_z verify_bytes verifying_key_from_bytes
    verifying_key_from_public_key_jwk verifying_key_from_public_key_multibase parse_parts at
    fields_of find_field get insert_field metadata_value with_authorization current_authorizations
    load_authorization_state read_latest_versions archive_verified distribute enqueue_cdn
    enqueue_discovery event_type_of mirror_latest_version_sqlite operation_of package_of publish
    replace_package update_latest_version version_of build_metadata dedup sort_texts verify_content
    verify_issuer_key upsert_json did_to_file_name join resolve
revoking_ok = refl

empty_read : read_bulletin node 0 empty_store ≡ ok no_bulletin
unfolding read_bulletin
empty_read = refl

no_bulletin_checked : verify_hash_chain ⦃p = toy⦄ tt no_bulletin ≡ ok tt
no_bulletin_checked = (verify_hash_chain_iff ⦃p = toy⦄ tt no_bulletin).1 tt

echo_metadata_made : build_metadata node world 2 (request "n") "598" ≡ ok echo_metadata
unfolding build_metadata normalized normalize_tag sort_texts dedup
echo_metadata_made = refl

Run-verify_hash_chain_example : verify_hash_chain ⦃p = toy⦄ tt first_bulletin ≡ ok tt
Run-verify_hash_chain_example =
    Run-verify_hash_chain node toy-SigningLaws empty_store first.1
      (next (next start (registrar_joined world joining empty_store))
        (published world (request "n") joined_store))
      0 0 no_bulletin first_bulletin empty_read no_bulletin_checked first_read

Run-no_replay_example :
    (reason : String) × (verify_and_publish node world (request "n") second.1
      ≡ (err (bad_request reason), second.1))
Run-no_replay_example =
    Run-no_replay node toy-SigningLaws world world (request "n") (request "n") joined_store first.1
      second.1 first_answer "n" refl refl first_ok
      (next start (published world (request "m") first.1))

verify_request_iff_example : (verify_request node world 0 (request "n") joined_store ≡ ok tt) ↔ (
    Some (IsAbout registrar_did registrar_authorized) joined_bulletin.events
    × ¬ Some (IsAbout registrar_did registrar_revoked) joined_bulletin.events
    × IsSound (request "n"))
verify_request_iff_example =
    verify_request_iff node world 0 (request "n") joined_store joined_bulletin joined_read

verify_and_publish-versions_example :
    (second_answer.operation ≡ (
      if first_answer.did_document_hash == second_answer.did_document_hash
      then "no-op"
      else "update"))
    × (second_answer.document_version
        ≡ first_answer.document_version
          + (if first_answer.did_document_hash == second_answer.did_document_hash then 0 else 1))
verify_and_publish-versions_example =
    verify_and_publish-versions node world world (request "n") (request "m") joined_store first.1
      first.1 second.1 first_answer second_answer first_ok refl refl second_ok

revoke_node-verify_request_example :
    (lookup registrar_did (current_authorizations node revoking.1).registrars
      ≡ Option.map
          (revoked_node 2)
          (lookup registrar_did (current_authorizations node joined_store).registrars))
    × (verify_request node world 0 (request "n") revoking.1
        ≡ verify_request node world 0 (request "n") joined_store)
revoke_node-verify_request_example =
    revoke_node-verify_request node world registrar_did null status_ok joined_store revoking.1 0
      joined_bulletin (request "n") revoking_ok joined_read

build_metadata-capability_tags_example :
    Ascends ("a2a" ∷ "echo" ∷ [])
    × (contains "echo" ("a2a" ∷ "echo" ∷ [])
        ≡ contains "echo" (map (normalized node.tag_tree) (described_tags echo_agent)))
build_metadata-capability_tags_example =
    build_metadata-capability_tags node world 2 (request "n") "598" echo_metadata echo_agent "echo"
      echo_metadata_made refl

verify_and_publish_iff_example :
    ((v : VerifyResponse) × ((verify_and_publish node world (request "n") joined_store).0 ≡ ok v))
    ↔ ((verify_request_signature (request "n") ≡ ok tt)
        × ((verify_request_nonce node world 0 (request "n") joined_store).0 ≡ ok tt)
        × (verify_request node world 1 (request "n") joined_store ≡ ok tt))
verify_and_publish_iff_example = verify_and_publish_iff node world (request "n") joined_store
