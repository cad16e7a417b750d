-- ===== src/Root/Authorize.antt =====
-- The authorizations of services/root-node/src/main.rs: `authorize_registrar`,
-- `authorize_discovery`, `update_discovery_domains`, `revoke_node` and the functions that change
-- the file of authorizations.
pub mod Revoked
use open_agenet.Base.{
  ℕ, String, Bool, true, false, ◌||◌, Option, none, some, List, [], ◌∷◌, ◌==◌, filter_map, map_err,
  if◌then◌else◌,
}
use open_agenet.Base.Action.{Action, pure, lift, gets, raising, ◌>>=◌, ◌>>◌}
use open_agenet.Base.Maps.{Map, lookup, insert}
use open_agenet.Bulletin.{
  registrar_authorized, discovery_node_authorized, discovery_node_domains_updated, node_revoked,
}
use open_agenet.Core.Json.{did_document_serialize}
use open_agenet.Crypto.{hash_json}
use open_agenet.Crypto.Crates.{Primitives}
use open_agenet.Json.{Time, Value, string, json, at, as_array, as_str}
use open_agenet.Protocol.{RootAuthorizeRequest}
use open_agenet.Root.{
  NodeAuthorizationState, DiscoveryAuthorizationState, AuthorizationState, Failure, crypto,
  ApiError, internal, Store, Node, World,
}
use open_agenet.Root.Events.{append_event}
use open_agenet.Root.Files.{current_authorizations, write_authorizations}

-- `if let Some(entry) = map.get_mut(did)`.
unfoldable pub change {ℓ} : {V : Type ℓ} → String → (V → V) → Map V → Map V
change did f m = elim (lookup did m) [ none ↦ m | some entry ↦ insert did (f entry) m ]

-- The arm of a `match role`.
abbrev pub is_discovery_role : String → Bool
is_discovery_role role = role == "discovery" || (role == "Discovery" || role == "Discovery Node")

abbrev pub is_vc_issuer_role : String → Bool
is_vc_issuer_role role = role == "vc-issuer" || role == "VC Issuer"

-- An unknown role counts as a registrar's.
unfoldable pub with_authorization :
    String
    → NodeAuthorizationState
    → String
    → Option DiscoveryAuthorizationState
    → AuthorizationState
    → AuthorizationState
with_authorization did entry role discovery a =
    if is_discovery_role role
    then elim discovery [
      | none ↦ a
      | some d ↦ record a { discovery_nodes = insert did d a.discovery_nodes }
    ]
    else if is_vc_issuer_role role
    then record a { vc_issuers = insert did entry a.vc_issuers }
    else record a { registrars = insert did entry a.registrars }

abbrev pub revoked_node : Time → NodeAuthorizationState → NodeAuthorizationState
revoked_node updated entry = record entry { status = "revoked"; updated_at = updated }

abbrev pub revoked_discovery : Time → DiscoveryAuthorizationState → DiscoveryAuthorizationState
revoked_discovery updated entry = record entry { status = "revoked"; updated_at = updated }

-- The clock is read for each of the three entries.
unfoldable pub without_authorization :
    (Time × Time × Time) → String → AuthorizationState → AuthorizationState
without_authorization (t, u, v) did a = record {
  registrars = change did (revoked_node t) a.registrars;
  discovery_nodes = change did (revoked_discovery u) a.discovery_nodes;
  vc_issuers = change did (revoked_node v) a.vc_issuers;
}

abbrev pub domains_in : Value → List String
domains_in payload = elim (as_array (at payload "authorizedDomains")) [
  | none ↦ []
  | some values ↦ filter_map as_str values
]

abbrev pub status_ok : Value
status_ok = json (("status", string "ok") ∷ [])

module _ ⦃p : Primitives⦄ (node : Node) (world : World) where
  unfoldable pub update_authorization_state :
      String
      → NodeAuthorizationState
      → String
      → Option DiscoveryAuthorizationState
      → Action Store Failure (Unit {0})
  unfolding with_authorization
  update_authorization_state did entry role discovery = do
    a ← gets (current_authorizations node)
    write_authorizations node world (with_authorization did entry role discovery a)

  unfoldable pub update_discovery_authorization_state :
      String → DiscoveryAuthorizationState → Action Store Failure (Unit {0})
  update_discovery_authorization_state did entry = do
    a ← gets (current_authorizations node)
    write_authorizations node world
        (record a { discovery_nodes = insert did entry a.discovery_nodes })

  unfoldable pub revoke_authorization_state :
      (Time × Time × Time) → String → Action Store Failure (Unit {0})
  revoke_authorization_state times did = do
    a ← gets (current_authorizations node)
    write_authorizations node world (without_authorization times did a)

  abbrev pub authorization_payload : RootAuthorizeRequest → String → Value
  authorization_payload r did_document_hash =
      json
        (("targetRole", string r.target_role) ∷ ("didDocumentHash", string did_document_hash) ∷ [])

  -- The clock is read for a missing bulletin (0), the event (1) and the entry (2).
  unfoldable pub authorize_registrar : RootAuthorizeRequest → Action Store ApiError Value
  authorize_registrar r = do
    did_document_hash ← lift (map_err (λ e. internal (crypto e)) (hash_json r.did_document))
    event ← raising internal (
        append_event node world (world.now 0) (world.now 1) registrar_authorized r.target_did
          (authorization_payload r did_document_hash))
    raising internal (
        update_authorization_state r.target_did
          (record {
            status = "active";
            updated_at = world.now 2;
            did_document_hash = did_document_hash;
          })
          r.target_role none)
    pure status_ok

  unfoldable pub authorize_discovery : RootAuthorizeRequest → Action Store ApiError Value
  authorize_discovery r = do
    did_document_hash ← lift (map_err (λ e. internal (crypto e)) (hash_json r.did_document))
    event ← raising internal (
        append_event node world (world.now 0) (world.now 1) discovery_node_authorized r.target_did
          (authorization_payload r did_document_hash))
    raising internal (
        update_discovery_authorization_state r.target_did (record {
          status = "active";
          updated_at = world.now 2;
          did_document_hash = did_document_hash;
          authorized_domains = "*" ∷ [];
          tag_tree_version = node.tag_tree.version;
        }))
    pure status_ok

  -- The entry of a node whose domains change.
  with_domains : List String → Time → DiscoveryAuthorizationState → DiscoveryAuthorizationState
  with_domains domains updated entry = record entry {
    authorized_domains = domains;
    tag_tree_version = node.tag_tree.version;
    updated_at = updated;
  }

  -- The file is written only if the node has an entry. The clock is read for it (2).
  unfoldable pub update_entry : String → List String → Action Store ApiError Value
  unfolding with_domains
  update_entry did domains = do
    a ← gets (current_authorizations node)
    elim (lookup did a.discovery_nodes) [
      | none ↦ pure tt
      | some entry ↦ raising internal (
          write_authorizations node world (record a {
            discovery_nodes =
                insert did (with_domains domains (world.now 2) entry) a.discovery_nodes;
          }))
    ]
    pure status_ok

  unfoldable pub update_discovery_domains : String → Value → Action Store ApiError Value
  unfolding update_entry
  update_discovery_domains did payload = do
    event ← raising internal (
        append_event node world (world.now 0) (world.now 1) discovery_node_domains_updated did
          payload)
    update_entry did (domains_in payload)

  unfoldable pub revoke_node : String → Value → Action Store ApiError Value
  revoke_node did payload = do
    event ←
        raising internal
          (append_event node world (world.now 0) (world.now 1) node_revoked did payload)
    raising internal (revoke_authorization_state (world.now 2, world.now 3, world.now 4) did)
    pure status_ok
