-- ===== src/Tests/Discovery.antt =====
-- Runs of the discovery node.
use open_agenet.Bulletin.{verify_hash_chain}
use open_agenet.Discovery.Sync.{
  append_json_log, collect, log_progress, reason_against, store_progress, upsert_each,
  write_indexed_packages, write_sync_history_sqlite,
}
use open_agenet.Discovery.{
  authorized_domains_match, discovery_authorized_domains, is_indexable_agent,
  verify_package_root_proof,
}
use open_agenet.Core.{is_agent}
use open_agenet.Package.{verify_document_hash, verify_metadata_hash}
use open_agenet.Crypto.{
  canonical_json, canonical_json_value, hash_json, sha256_hex, verify_bytes,
  verifying_key_from_public_key_jwk, verifying_key_from_bytes,
}
use open_agenet.Core.Json.{did_document_value, service_endpoint_value}
use open_agenet.Json.{at, fields_of, find_field, get, insert_field}
use open_agenet.Core.Tags.{matches_authorized_domains}
use open_agenet.Storage.Sqlite.{delete_namespace, upsert_json}
use open_agenet.Storage.{join, resolve}
use open_agenet.Base.Texts.{decimal, trim_end}
use open_agenet.Base.{
  ◌≤◌, ◌≡◌, refl, Bool, true, none, some, [], ◌∷◌, map, retain, take, length, Result, ok, err,
  unwrap_or,
}
use open_agenet.Core.Tags.{nil}
use open_agenet.Discovery.Query.{matches_query, candidate_of, ranked, candidates}
use open_agenet.Discovery.Ranking.{Descends, number_of, candidates-ranked}
use open_agenet.Discovery.Unreachable.{sync_from_cdn-unreachable}
use open_agenet.Discovery.Service.{
  Failure, CdnServiceInfo, package_url, replace_did, resolve_cdn_service, root_verifying_key,
}
use open_agenet.Discovery.Sync.{
  Store, received, unreachable, Peers, Node, World, verify_bulletin_state, sync_from_cdn,
}
use open_agenet.Json.{Value, null, string, array, items, json}
use open_agenet.Package.{VerifiedPackage, Manifest, ManifestEntry}
use open_agenet.Protocol.{DiscoveryQuery, DiscoveryCandidate}
use open_agenet.Storage.{holds}
use open_agenet.Tests.Runs.{document, echo_package, agent_did, no_bulletin}
use open_agenet.Tests.Toy.{toy}

abbrev pub echo_query : DiscoveryQuery
echo_query = record {
  capability_tags = "echo" ∷ [];
  service_type = none;
  protocol = none;
  limit = 1;
}

abbrev any_candidate : DiscoveryCandidate → Bool
any_candidate = λ c. true

candidates-ranked_example :
    (length (candidates (echo_package "1" ∷ echo_package "2" ∷ []) echo_query) ≤ 1)
    × Descends (candidates (echo_package "1" ∷ echo_package "2" ∷ []) echo_query)
    × (candidates (echo_package "1" ∷ echo_package "2" ∷ []) echo_query
        ≡ take 1 (ranked (echo_package "1" ∷ echo_package "2" ∷ []) echo_query))
    × Descends (ranked (echo_package "1" ∷ echo_package "2" ∷ []) echo_query)
    × (number_of any_candidate (ranked (echo_package "1" ∷ echo_package "2" ∷ []) echo_query)
        ≡ number_of any_candidate (
            map (candidate_of echo_query) (
              retain
                (λ pkg. matches_query pkg echo_query)
                (echo_package "1" ∷ echo_package "2" ∷ []))))
candidates-ranked_example =
    candidates-ranked (echo_package "1" ∷ echo_package "2" ∷ []) echo_query any_candidate

-- A package with the hash of an event and the stand-in's signature of it.
abbrev pub proved_package : VerifiedPackage
proved_package = record (echo_package "1") {
  root_proof = record {
    root_did = "did:ans:AGRT:efrrrrrrrrrrrrrrrrrrrrrrrr";
    bulletin_event_hash = some "388";
    signature = some "aaa,";
  };
}

abbrev pub bulletin_value : Value
bulletin_value = json (
    (
      "events",
      array (
          items (
            json (
              ("eventHash", string "388")
              ∷ ("subjectDid", string agent_did)
              ∷ ("eventType", string "AGENT_DID_DOCUMENT_ANCHORED")
              ∷ [])
            ∷ [])),
    )
    ∷ [])

abbrev entry : ManifestEntry
entry = record {
  did = agent_did;
  role = "Service Agent";
  document_path = "";
  metadata_path = "";
  package_path = "";
  did_document_hash = "598";
  updated_at = 0;
}

abbrev pub one_entry : Manifest
one_entry = record { version = "0.1.0"; generated_at = 0; root_did = "did"; packages = entry ∷ [] }

abbrev pub peers : Peers
peers = record {
  fetch_bulletin = ok bulletin_value;
  fetch_root_document = ok (document "did:ans:AGRT:efrrrrrrrrrrrrrrrrrrrrrrrr" none);
  bulletin_of_value = λ v. some no_bulletin;
  fetch_manifest = λ url. ok one_entry;
  fetch_package = λ url. received proved_package;
}

abbrev pub node : Node
node = record {
  index = record { root = "index" };
  did = "did:ans:AGDS:efdddddddddddddddddddddddd";
  has_sqlite = true;
  cdn_endpoint = some "http://cdn";
  tree = record { version = 1; tags = []; tree = nil };
}

abbrev pub world : World
world = record { now = λ k. k; disk = λ path. true; database = λ namespace. true }

abbrev pub empty_store : Store
empty_store = record {
  index_file = none;
  rejected_file = none;
  history_file = none;
  package_rows = [];
  value_rows = [];
}

abbrev pub cdn : CdnServiceInfo
cdn = record {
  manifest_url = "http://cdn/cdn/manifest";
  packages_url_template = none;
  base_url = some "http://cdn";
}

pub root_key_ok :
    root_verifying_key ⦃p = toy⦄ (document "did:ans:AGRT:efrrrrrrrrrrrrrrrrrrrrrrrr" none) ≡ ok tt
unfolding root_verifying_key verifying_key_from_public_key_jwk get fields_of
    verifying_key_from_bytes
root_key_ok = refl

pub cdn_ok : resolve_cdn_service node.cdn_endpoint bulletin_value ≡ ok cdn
unfolding resolve_cdn_service at trim_end fields_of
cdn_ok = refl

abbrev pub synced : Result Failure Value × Store
synced = sync_from_cdn ⦃p = toy⦄ node world peers empty_store

abbrev pub sync_answer : Value
sync_answer = unwrap_or synced.0 null

-- The package is in the index.
synced_index : synced.1.index_file ≡ some (holds (proved_package ∷ []))
unfolding verify_hash_chain sync_from_cdn verify_bulletin_state collect write_indexed_packages
    is_indexable_agent is_agent verify_document_hash hash_json did_document_value fields_of
    verify_metadata_hash verify_package_root_proof at verify_bytes authorized_domains_match
    matches_authorized_domains service_endpoint_value canonical_json canonical_json_value sha256_hex
    append_json_log log_progress reason_against store_progress upsert_each write_sync_history_sqlite
    discovery_authorized_domains find_field get insert_field delete_namespace upsert_json join
    resolve decimal root_verifying_key resolve_cdn_service package_url replace_did trim_end
    verifying_key_from_public_key_jwk verifying_key_from_bytes
synced_index = refl

-- The content service does not answer.
abbrev silent_peers : Peers
silent_peers = record peers { fetch_package = λ url. unreachable }

sync_from_cdn-unreachable_example :
    (e : Failure) × (sync_from_cdn ⦃p = toy⦄ node world silent_peers empty_store
      ≡ (err e, empty_store))
sync_from_cdn-unreachable_example =
    sync_from_cdn-unreachable ⦃p = toy⦄ node world silent_peers empty_store bulletin_value cdn
      one_entry refl cdn_ok refl refl
