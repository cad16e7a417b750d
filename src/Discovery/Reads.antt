-- ===== src/Discovery/Reads.antt =====
-- The endpoints of services/discovery-node/src/main.rs that change nothing. What the root answers
-- and the texts of errors are arguments, and so is serde_json's number for a score, `quarters`.
use open_agenet.Base.{
  ℕ, ◌+◌, String, true, false, ◌&&◌, Option, none, some, List, [], ◌∷◌, ◌==◌, Result, ok, err,
  ◌>>=◌, map_err, map, length, any, find, last, retain, contains, if◌then◌else◌, ltb, leb,
}
use open_agenet.Core.{DidDocument}
use open_agenet.Core.Json.{natural, service_endpoint_value}
use open_agenet.Crypto.Crates.{Primitives}
use open_agenet.Discovery.{discovery_authorization_status, discovery_authorized_domains}
use open_agenet.Discovery.Answer.{list_in, read_indexed_packages, read_sync_history}
use open_agenet.Discovery.Query.{has_protocol, matches_query, score}
use open_agenet.Discovery.Service.{Failure, storage}
use open_agenet.Discovery.Sync.{Store, Node, World}
use open_agenet.Json.{
  Number, Value, bool, number, string, array, items, json, texts, optional, as_u64, Fields, end,
  object, find_field, insert_field,
}
use open_agenet.Package.{VerifiedPackage}
use open_agenet.Package.Json.{package_value}
use open_agenet.Protocol.{HealthResponse, DiscoveryQuery, query_value}
use open_agenet.Storage.{File, read_file}

abbrev pub list_answer : List Value → Value
list_answer vs = json (("items", array (items vs)) ∷ ("count", natural (length vs)) ∷ [])

-- `document_file` is `did-document.json` of the data folder.
unfoldable pub discovery_did_document : Option (File DidDocument) → Result Failure DidDocument
discovery_did_document document_file = map_err storage (read_file document_file)

unfoldable pub health : Node → HealthResponse
health node = record { status = "ok"; node_type = "discovery"; did = some node.did }

abbrev pub count_before : Option Value → ℕ
count_before none = 0
count_before (some v) = elim (as_u64 v) [ none ↦ 0 | some n ↦ n ]

-- The loop over the tags of a package, and the one over the packages.
unfoldable pub count_tags : List String → Fields → Fields
count_tags [] counts = counts
count_tags (tag ∷ tags) counts =
    count_tags tags (insert_field tag (natural (count_before (find_field tag counts) + 1)) counts)

unfoldable pub tag_counts : List VerifiedPackage → Fields → Fields
unfolding count_tags
tag_counts [] counts = counts
tag_counts (pkg ∷ rest) counts = tag_counts rest (count_tags pkg.metadata.capability_tags counts)

-- The root's answer to the request for the tree: an error with its text, or a status and the body,
-- if it is JSON.
pub data Answered : Type 0 where
  failed : String → Answered
  answered : ℕ → Result Failure Value → Answered

unfoldable pub api_capability_tree : Answered → Result Failure Value
api_capability_tree (failed e) =
    ok (
      json
        (("source", string "root") ∷ ("status", string "unavailable") ∷ ("error", string e) ∷ []))
api_capability_tree (answered status body) =
    if leb 200 status && ltb status 300
    then body
    else ok (
        json (
          ("source", string "root")
          ∷ ("status", string "unavailable")
          ∷ ("statusCode", natural status)
          ∷ []))

unfoldable pub api_rejected_packages : Store → Value
api_rejected_packages s = list_answer (list_in s.rejected_file)

module _ (node : Node) where
  unfoldable pub api_root_authorization : (Failure → String) → Result Failure Value → Value
  api_root_authorization failure_text (ok bulletin) = json (
      ("discoveryDid", string node.did)
      ∷ ("rootReachable", bool true)
      ∷ ("status", string (discovery_authorization_status bulletin node.did))
      ∷ ("authorizedDomains", texts (discovery_authorized_domains bulletin node.did))
      ∷ [])
  api_root_authorization failure_text (err e) = json (
      ("discoveryDid", string node.did)
      ∷ ("rootReachable", bool false)
      ∷ ("status", string "unknown")
      ∷ ("error", string (failure_text e))
      ∷ [])

  unfoldable pub api_authorized_domains : Result Failure Value → Result Failure Value
  api_authorized_domains fetched = do
    bulletin ← fetched
    ok (
        json (
          ("discoveryDid", string node.did)
          ∷ ("authorizedDomains", texts (discovery_authorized_domains bulletin node.did))
          ∷ []))

  module _ (world : World) where
    unfoldable pub route_lookup : String → Store → Result Failure Value
    route_lookup did s = do
      packages ← read_indexed_packages node world s
      ok (elim (find (λ pkg. pkg.did == did) packages) [
        | some pkg ↦ json (
            ("did", string pkg.did)
            ∷ ("status", string pkg.metadata.status)
            ∷ ("services", array (items (map service_endpoint_value pkg.metadata.services)))
            ∷ [])
        | none ↦ json (("did", string did) ∷ ("status", string "not-found") ∷ [])
      ])

    abbrev pub shown_status : Result Failure Value → String
    shown_status (ok bulletin) = discovery_authorization_status bulletin node.did
    shown_status (err e) = "unknown"

    unfoldable pub api_status : String → Result Failure Value → Store → Result Failure Value
    api_status root_endpoint fetched s = do
      packages ← read_indexed_packages node world s
      history ← read_sync_history node world s
      ok (
          json (
            ("discoveryDid", string node.did)
            ∷ ("rootEndpoint", string root_endpoint)
            ∷ ("cdnEndpoint", optional string node.cdn_endpoint)
            ∷ ("indexedAgentCount", natural (length packages))
            ∷ ("lastSync", optional (λ v. v) (last history))
            ∷ ("rootAuthorizationStatus", string (shown_status fetched))
            ∷ []))

    unfoldable pub api_sync_history : Store → Result Failure Value
    api_sync_history s = do history ← read_sync_history node world s; ok (list_answer history)

    unfoldable pub api_index_stats : Store → Result Failure Value
    unfolding tag_counts
    api_index_stats s = do
      packages ← read_indexed_packages node world s
      ok (
          json (
            ("indexedAgentCount", natural (length packages))
            ∷ ("capabilityTagCounts", object (tag_counts packages end))
            ∷ []))

    module _ ⦃p : Primitives⦄ where
      abbrev pub index_item : VerifiedPackage → Value
      index_item pkg = json (
          ("did", string pkg.did)
          ∷ ("capabilityTags", texts pkg.metadata.capability_tags)
          ∷ ("services", array (items (map service_endpoint_value pkg.metadata.services)))
          ∷ ("status", string pkg.metadata.status)
          ∷ ("updatedAt", string (p.time_text pkg.metadata.updated_at))
          ∷ [])

      unfoldable pub api_index_agents : Store → Result Failure Value
      api_index_agents s = do
        packages ← read_indexed_packages node world s
        ok (list_answer (map index_item packages))

      unfoldable pub api_index_agent_detail : String → Store → Result Failure Value
      api_index_agent_detail did s = do
        packages ← read_indexed_packages node world s
        ok (
            json (
              ("did", string did)
              ∷ ("package", optional package_value (find (λ pkg. pkg.did == did) packages))
              ∷ []))

    module _ (quarters : ℕ → Number) (q : DiscoveryQuery) where
      abbrev pub service_type_matched : VerifiedPackage → Value
      service_type_matched pkg =
          optional
            (λ service_type.
              bool (any (λ service. service.service_type == service_type) pkg.metadata.services))
            q.service_type

      abbrev pub protocol_matched : VerifiedPackage → Value
      protocol_matched pkg =
          optional (λ protocol. bool (any (has_protocol protocol) pkg.metadata.services)) q.protocol

      unfoldable pub explanation : VerifiedPackage → Value
      explanation pkg = json (
          ("did", string pkg.did)
          ∷ ("matched", bool (matches_query pkg q))
          ∷ ("score", number (quarters (if matches_query pkg q then score pkg q else 0)))
          ∷ (
            "capabilityTagOverlap",
            texts (retain (λ tag. contains tag pkg.metadata.capability_tags) q.capability_tags),
          )
          ∷ ("serviceTypeMatched", service_type_matched pkg)
          ∷ ("protocolMatched", protocol_matched pkg)
          ∷ [])

      unfoldable pub api_query_explain : Store → Result Failure Value
      unfolding explanation
      api_query_explain s = do
        packages ← read_indexed_packages node world s
        ok (
            json
              (("query", query_value q) ∷ ("items", array (items (map explanation packages))) ∷ []))
