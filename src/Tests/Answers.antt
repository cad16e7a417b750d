-- ===== src/Tests/Answers.antt =====
-- Answers of the discovery node after a sync.
use open_agenet.Discovery.Complete.{is_unopposed, packages_for, sync_from_cdn_lem}
use open_agenet.Discovery.Service.{package_url}
use open_agenet.Base.{retain}
use open_agenet.Discovery.Answer.{read_indexed_packages, sign_discovery_response}
use open_agenet.Storage.Sqlite.{read_namespace}
use open_agenet.Base.{◌≡◌, refl, none, [], All, length, Result, ok, err}
use open_agenet.Bulletin.{verify_hash_chain}
use open_agenet.Discovery.Sync.{
  append_json_log, collect, log_progress, reason_against, store_progress, upsert_each,
  write_indexed_packages, write_sync_history_sqlite,
}
use open_agenet.Discovery.{
  authorized_domains_match, discovery_authorized_domains, is_indexable_agent,
  verify_package_root_proof,
}
use open_agenet.Core.{is_agent}
use open_agenet.Package.{verify_document_hash, verify_metadata_hash}
use open_agenet.Crypto.{
  canonical_json, canonical_json_value, hash_json, sha256_hex, verify_bytes,
  verifying_key_from_public_key_jwk, verifying_key_from_bytes,
}
use open_agenet.Core.Json.{did_document_value, service_endpoint_value}
use open_agenet.Json.{at, fields_of, find_field, get, insert_field}
use open_agenet.Core.Tags.{matches_authorized_domains}
use open_agenet.Storage.Sqlite.{delete_namespace, upsert_json}
use open_agenet.Storage.{join, resolve}
use open_agenet.Base.Texts.{decimal, trim_end}
use open_agenet.Discovery.Indexed.{IsVerified}
use open_agenet.Discovery.Query.{candidates}
use open_agenet.Discovery.Service.{
  Failure, package_url, replace_did, resolve_cdn_service, root_verifying_key,
}
use open_agenet.Discovery.Sync.{Store, verify_bulletin_state, sync_from_cdn}
use open_agenet.Discovery.Answer.{query}
use open_agenet.Discovery.Answered.{query-IsVerified}
use open_agenet.Discovery.Indexed.{IsVerified}
use open_agenet.Discovery.Signed.{IsSigned, query-IsSigned}
use open_agenet.Discovery.Service.{Failure}
use open_agenet.Discovery.Stands.{Stands}
use open_agenet.Json.{float}
use open_agenet.Protocol.{DiscoveryResponse}
use open_agenet.Tests.Discovery.{
  node, world, peers, empty_store, synced, sync_answer, proved_package, bulletin_value, cdn,
  one_entry, echo_query, root_key_ok, cdn_ok,
}
use open_agenet.Discovery.Sync.{Store}
use open_agenet.Storage.{holds}
use open_agenet.Base.{some, ◌∷◌}
use open_agenet.Tests.Runs.{document, agent_did}
use open_agenet.Tests.Toy.{toy, toy-SigningLaws}

-- The store after the sync, with the row and the file of the index written out.
abbrev after : Store
after = record synced.1 {
  index_file = some (holds (proved_package ∷ []));
  package_rows =
      record {
        namespace = "discovery.indexed_packages";
        record_key = agent_did;
        value = proved_package;
        updated_at = 0;
      }
      ∷ [];
}

synced_after : synced ≡ (ok sync_answer, after)
unfolding verify_hash_chain sync_from_cdn verify_bulletin_state collect write_indexed_packages
    is_indexable_agent is_agent verify_document_hash hash_json did_document_value fields_of
    verify_metadata_hash verify_package_root_proof at verify_bytes authorized_domains_match
    matches_authorized_domains service_endpoint_value canonical_json canonical_json_value sha256_hex
    append_json_log log_progress reason_against store_progress upsert_each write_sync_history_sqlite
    discovery_authorized_domains find_field get insert_field delete_namespace upsert_json join
    resolve decimal root_verifying_key resolve_cdn_service package_url replace_did trim_end
    verifying_key_from_public_key_jwk verifying_key_from_bytes
synced_after = refl

abbrev answered : Result Failure DiscoveryResponse
answered = query ⦃p = toy⦄ float node world tt echo_query after

abbrev value_of : Result Failure DiscoveryResponse → DiscoveryResponse
value_of (ok r) = r
value_of (err e) = record {
  discovery_did = "";
  candidates = [];
  created_at = 0;
  signature = "";
  proof = none;
}

abbrev answer : DiscoveryResponse
answer = value_of answered

answered_ok : answered ≡ ok answer
unfolding query read_indexed_packages read_namespace sign_discovery_response hash_json
answered_ok = refl

-- The answer names one package.
answered_one : length answer.candidates ≡ 1
unfolding query read_indexed_packages read_namespace sign_discovery_response hash_json candidates
answered_one = refl

query-IsVerified_example :
    All (Stands (IsVerified ⦃p = toy⦄ node bulletin_value tt) echo_query) answer.candidates
query-IsVerified_example =
    query-IsVerified ⦃p = toy⦄ float node world world peers empty_store after sync_answer
      bulletin_value (document "did:ans:AGRT:efrrrrrrrrrrrrrrrrrrrrrrrr" none) tt cdn one_entry tt
      echo_query answer refl refl root_key_ok cdn_ok refl synced_after answered_ok

query-IsSigned_example : IsSigned ⦃p = toy⦄ float tt answer
query-IsSigned_example =
    query-IsSigned ⦃p = toy⦄ float toy-SigningLaws node world tt echo_query after answer answered_ok

sync_from_cdn_lem_example :
    after.index_file
    ≡ some (
        holds (
          retain
            (is_unopposed ⦃p = toy⦄ node bulletin_value tt)
            (packages_for (λ did. peers.fetch_package (package_url cdn did)) one_entry.packages)))
sync_from_cdn_lem_example =
    sync_from_cdn_lem ⦃p = toy⦄ node world peers empty_store after sync_answer bulletin_value
      (document "did:ans:AGRT:efrrrrrrrrrrrrrrrrrrrrrrrr" none) tt cdn one_entry refl refl
      root_key_ok cdn_ok refl synced_after
