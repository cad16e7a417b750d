-- ===== src/Root/Reads.antt =====
-- The endpoints of services/root-node/src/main.rs that change nothing. A missing bulletin is read
-- as an empty one that is made at the time `opened`.
pub mod Agents
use Prim.Native.String.{◌++◌}
use open_agenet.Base.{
  ℕ, String, Bool, true, false, ◌&&◌, ◌||◌, Option, none, some, List, [], ◌∷◌, ◌==◌, eqb, Result,
  ok, ◌>>=◌, map_err, to_option, map, length, is_empty, any, find, retain, filter_map, find_last,
  if◌then◌else◌,
}
use open_agenet.Base.Maps.{lookup}
use open_agenet.Base.Texts.{trim_end_text}
use open_agenet.Bulletin.{
  BulletinEventType, discovery_node_revoked, is_registrar_authorized, is_registrar_revoked,
  is_node_revoked, discovery_node_authorized, discovery_node_domains_updated, event_type_text,
  BulletinEvent, Bulletin, event_value,
}
use open_agenet.Core.{DidDocument}
use open_agenet.Core.Json.{natural, did_document_value}
use open_agenet.Core.Tags.{CapabilityTagTree, normalize_tag}
use open_agenet.Crypto.Crates.{Primitives}
use open_agenet.Json.{
  Time, Value, bool, string, array, items, json, texts, optional, at, as_str, as_array,
}
use open_agenet.Package.{metadata_value}
use open_agenet.Package.Json.{package_value}
use open_agenet.Protocol.{HealthResponse}
use open_agenet.Storage.{File, Files, read_file, did_to_file_name}
use open_agenet.Root.{
  NodeAuthorizationState, DiscoveryAuthorizationState, storage, ApiError, internal, Store, Node,
  World,
}
use open_agenet.Root.Files.{
  read_latest_versions, read_bulletin, current_authorizations, read_cdn_queue, read_discovery_queue,
}

-- `matches!(event_type, DiscoveryNodeDomainsUpdated)`.
abbrev pub is_domains_update : BulletinEventType → Bool
is_domains_update discovery_node_domains_updated = true
is_domains_update _ = false

-- The types of events that the list of registrars and the list of discovery nodes fall back on.
abbrev pub is_about_registrar : BulletinEventType → Bool
is_about_registrar t = is_registrar_authorized t || is_registrar_revoked t

abbrev pub is_about_discovery : BulletinEventType → Bool
is_about_discovery discovery_node_authorized = true
is_about_discovery discovery_node_domains_updated = true
is_about_discovery discovery_node_revoked = true
is_about_discovery _ = false

abbrev pub event_of_node : BulletinEvent → Value
event_of_node event = json (
    ("did", string event.core.subject_did)
    ∷ ("eventType", string (event_type_text event.core.event_type))
    ∷ ("sequence", natural event.core.sequence)
    ∷ ("payload", event.core.payload)
    ∷ [])

abbrev pub event_about : BulletinEvent → Value
event_about event = json (
    ("sequence", natural event.core.sequence)
    ∷ ("eventType", string (event_type_text event.core.event_type))
    ∷ ("payload", event.core.payload)
    ∷ [])

abbrev pub events_about : String → Bulletin → List Value
events_about did b = map event_about (retain (λ event. event.core.subject_did == did) b.events)

unfoldable pub latest_node_status : Bulletin → String → String
latest_node_status b did =
    if any (λ event. event.core.subject_did == did && is_node_revoked event.core.event_type)
      b.events
    then "revoked"
    else "active"

abbrev pub list_of : List Value → Value
list_of vs = json (("items", array (items vs)) ∷ [])

abbrev pub counted_list : List Value → Value
counted_list vs = json (("items", array (items vs)) ∷ ("count", natural (length vs)) ∷ [])

-- `document_file` is `did-document.json` of the data folder.
unfoldable pub root_did_document : Option (File DidDocument) → Result ApiError DidDocument
root_did_document document_file = map_err (λ e. internal (storage e)) (read_file document_file)

module _ ⦃p : Primitives⦄ (node : Node) where
  open p use {time_text}

  unfoldable pub health : HealthResponse
  health = record { status = "ok"; node_type = "root"; did = some node.root_did }

  unfoldable pub api_capability_tree : CapabilityTagTree
  api_capability_tree = node.tag_tree

  abbrev pub registrar_item : String × NodeAuthorizationState → Value
  registrar_item (did, entry) = json (
      ("did", string did)
      ∷ ("status", string entry.status)
      ∷ ("didDocumentHash", string entry.did_document_hash)
      ∷ ("updatedAt", string (time_text entry.updated_at))
      ∷ [])

  abbrev pub discovery_item : String × DiscoveryAuthorizationState → Value
  discovery_item (did, entry) = json (
      ("did", string did)
      ∷ ("status", string entry.status)
      ∷ ("didDocumentHash", string entry.did_document_hash)
      ∷ ("authorizedDomains", texts entry.authorized_domains)
      ∷ ("tagTreeVersion", natural entry.tag_tree_version)
      ∷ ("updatedAt", string (time_text entry.updated_at))
      ∷ [])

  module _ (opened : Time) where
    -- The endpoint `bulletin`.
    unfoldable pub bulletin_endpoint : Store → Result ApiError Bulletin
    bulletin_endpoint s = map_err internal (read_bulletin node opened s)

    -- The entries of the file where there are some, and the events otherwise.
    abbrev pub items_or_events :
        (BulletinEventType → Bool) → List Value → Store → Result ApiError Value
    items_or_events about found s =
        if is_empty found
        then (do
          b ← map_err internal (read_bulletin node opened s)
          ok (list_of (map event_of_node (retain (λ event. about event.core.event_type) b.events))))
        else ok (list_of found)

    unfoldable pub api_registrars : Store → Result ApiError Value
    api_registrars s =
        items_or_events is_about_registrar
          (map registrar_item (current_authorizations node s).registrars) s

    unfoldable pub api_discovery_nodes : Store → Result ApiError Value
    api_discovery_nodes s =
        items_or_events is_about_discovery
          (map discovery_item (current_authorizations node s).discovery_nodes) s

    unfoldable pub api_registrar_detail : String → Store → Result ApiError Value
    api_registrar_detail did s = do
      b ← map_err internal (read_bulletin node opened s)
      ok (json (("did", string did) ∷ ("events", array (items (events_about did b))) ∷ []))

    -- The payload of the newest event that updates the domains of the node.
    abbrev pub latest_domains : String → Bulletin → Value
    latest_domains did b =
        elim (find_last
          (λ event. event.core.subject_did == did && is_domains_update event.core.event_type)
          b.events) [
            | some event ↦ event.core.payload
            | none ↦ json (("authorizedDomains", texts ("*" ∷ [])) ∷ [])
          ]

    unfoldable pub api_discovery_detail : String → Store → Result ApiError Value
    unfolding latest_node_status
    api_discovery_detail did s = do
      b ← map_err internal (read_bulletin node opened s)
      ok (
          json (
            ("did", string did)
            ∷ ("status", string (latest_node_status b did))
            ∷ ("latestDomains", latest_domains did b)
            ∷ ("events", array (items (events_about did b)))
            ∷ []))

    unfoldable pub api_bulletin_events : Store → Result ApiError Value
    api_bulletin_events s = do
      b ← map_err internal (read_bulletin node opened s)
      ok (list_of (map event_value b.events))

    unfoldable pub api_bulletin_event_detail : ℕ → Store → Result ApiError Value
    api_bulletin_event_detail sequence s = do
      b ← map_err internal (read_bulletin node opened s)
      let event = find (λ event. eqb event.core.sequence sequence) b.events
      ok (json (("event", optional event_value event) ∷ []))

  module _ (world : World) where
    unfoldable pub api_cdn_publish_queue : Store → Result ApiError Value
    api_cdn_publish_queue s = do
      queue ← map_err internal (read_cdn_queue node world s)
      ok (counted_list (map package_value queue))

    unfoldable pub api_discovery_notify_queue : Store → Result ApiError Value
    api_discovery_notify_queue s = do
      queue ← map_err internal (read_discovery_queue node world s)
      ok (counted_list queue)

    -- A missing bulletin is made at the first time that the clock is read.
    unfoldable pub api_status : Store → Result ApiError Value
    api_status s = do
      b ← map_err internal (read_bulletin node (world.now 0) s)
      cdn_queue ← map_err internal (read_cdn_queue node world s)
      discovery_queue ← map_err internal (read_discovery_queue node world s)
      let authorizations = current_authorizations node s
      ok (
          json (
            ("rootDid", string node.root_did)
            ∷ ("bulletinEventCount", natural (length b.events))
            ∷ ("latestVersionCount", natural (length (read_latest_versions s)))
            ∷ ("cdnQueueCount", natural (length cdn_queue))
            ∷ ("discoveryQueueCount", natural (length discovery_queue))
            ∷ ("capabilityTreeVersion", natural node.tag_tree.version)
            ∷ ("registrarAuthorizationCount", natural (length authorizations.registrars))
            ∷ ("discoveryAuthorizationCount", natural (length authorizations.discovery_nodes))
            ∷ ("vcIssuerAuthorizationCount", natural (length authorizations.vc_issuers))
            ∷ []))
