-- ===== src/Root/Steps/Authorizing.antt =====
-- The handlers of services/root-node/src/main.rs that authorize and revoke nodes, and the bulletin.
use open_agenet.Base.{String, Option, none, List, [], ◌∷◌, arith, map_err, Option-cases, inl, inr}
use open_agenet.Base.Action.Keeps.{
  Composes, Keeps, pure-Keeps, lift-Keeps, raising-Keeps, bind-Keeps, then-Keeps,
}
use open_agenet.Base.Maps.{lookup}
use open_agenet.Bulletin.{
  registrar_authorized, discovery_node_authorized, node_revoked, discovery_node_domains_updated,
}
use open_agenet.Crypto.Crates.{Primitives, SigningLaws}
use open_agenet.Crypto.{hash_json}
use open_agenet.Core.Json.{did_document_serialize}
use open_agenet.Package.{metadata_serialize}
use open_agenet.Json.{Time, Value}
use open_agenet.Protocol.{RootAuthorizeRequest}
use open_agenet.Root.{
  Node, World, internal, crypto, NodeAuthorizationState, DiscoveryAuthorizationState,
}
use open_agenet.Root.Authorize.{
  update_authorization_state, update_discovery_authorization_state, revoke_authorization_state,
  authorize_registrar, authorize_discovery, authorization_payload, status_ok, update_entry,
  domains_in, update_discovery_domains, revoke_node,
}
use open_agenet.Root.Files.{current_authorizations, write_authorizations}
use open_agenet.Root.Steps.{Extends, Extends-Composes, append_event-Extends}
use open_agenet.Root.Steps.Writes.{other_files-Extends, same_file-Keeps}

module _ ⦃p : Primitives⦄ (node : Node) (world : World) where
  abbrev rules : Composes (Extends node)
  rules = Extends-Composes node

  update_authorization_state-Extends :
      (did : String) (entry : NodeAuthorizationState) (role : String)
      (discovery : Option DiscoveryAuthorizationState)
      → Keeps (Extends node) (update_authorization_state node world did entry role discovery)
  unfolding update_authorization_state write_authorizations
  update_authorization_state-Extends did entry role discovery =
      same_file-Keeps node world (update_authorization_state node world did entry role discovery)
        (λ s. (ground arith, ground arith))

  update_discovery_authorization_state-Extends :
      (did : String) (entry : DiscoveryAuthorizationState)
      → Keeps (Extends node) (update_discovery_authorization_state node world did entry)
  unfolding update_discovery_authorization_state write_authorizations
  update_discovery_authorization_state-Extends did entry =
      same_file-Keeps node world (update_discovery_authorization_state node world did entry)
        (λ s. (ground arith, ground arith))

  revoke_authorization_state-Extends :
      (times : Time × Time × Time) (did : String)
      → Keeps (Extends node) (revoke_authorization_state node world times did)
  unfolding revoke_authorization_state write_authorizations
  revoke_authorization_state-Extends times did =
      same_file-Keeps node world (revoke_authorization_state node world times did)
        (λ s. (ground arith, ground arith))

  update_entry-Extends :
      (did : String) (domains : List String)
      → Keeps (Extends node) (update_entry node world did domains)
  unfolding update_entry write_authorizations
  update_entry-Extends did domains = record {
    kept = λ s.
        other_files-Extends node world s (update_entry node world did domains s).1
          (elim (Option-cases (lookup did (current_authorizations node s).discovery_nodes)) [
            | inl e ↦ (ground (arith, e), ground (arith, e))
            | inr (entry, e) ↦ (ground (arith, e), ground (arith, e))
          ]);
  }

  module _ (laws : SigningLaws p) where
    pub authorize_registrar-Extends :
        (r : RootAuthorizeRequest) → Keeps (Extends node) (authorize_registrar node world r)
    unfolding authorize_registrar
    authorize_registrar-Extends r =
        bind-Keeps rules
          (lift-Keeps rules (map_err (λ e. internal (crypto e)) (hash_json r.did_document)))
          (λ did_hash.
            bind-Keeps rules
              (raising-Keeps rules internal (
                append_event-Extends node laws world (world.now 0) (world.now 1)
                  registrar_authorized r.target_did (authorization_payload node world r did_hash)))
              (λ event.
                then-Keeps rules
                  (raising-Keeps rules internal (
                    update_authorization_state-Extends r.target_did
                      (record {
                        status = "active";
                        updated_at = world.now 2;
                        did_document_hash = did_hash;
                      })
                      r.target_role none))
                  (pure-Keeps rules status_ok)))

    pub authorize_discovery-Extends :
        (r : RootAuthorizeRequest) → Keeps (Extends node) (authorize_discovery node world r)
    unfolding authorize_discovery
    authorize_discovery-Extends r =
        bind-Keeps rules
          (lift-Keeps rules (map_err (λ e. internal (crypto e)) (hash_json r.did_document)))
          (λ did_hash.
            bind-Keeps rules
              (raising-Keeps rules internal (
                append_event-Extends node laws world (world.now 0) (world.now 1)
                  discovery_node_authorized r.target_did
                  (authorization_payload node world r did_hash)))
              (λ event.
                then-Keeps rules
                  (raising-Keeps rules internal (
                    update_discovery_authorization_state-Extends r.target_did (record {
                      status = "active";
                      updated_at = world.now 2;
                      did_document_hash = did_hash;
                      authorized_domains = "*" ∷ [];
                      tag_tree_version = node.tag_tree.version;
                    })))
                  (pure-Keeps rules status_ok)))

    pub revoke_node-Extends :
        (did : String) (payload : Value) → Keeps (Extends node) (revoke_node node world did payload)
    unfolding revoke_node
    revoke_node-Extends did payload =
        bind-Keeps rules
          (raising-Keeps rules internal (
            append_event-Extends node laws world (world.now 0) (world.now 1) node_revoked did
              payload))
          (λ event.
            then-Keeps rules
              (raising-Keeps rules internal
                (revoke_authorization_state-Extends (world.now 2, world.now 3, world.now 4) did))
              (pure-Keeps rules status_ok))

    pub update_discovery_domains-Extends :
        (did : String) (payload : Value)
        → Keeps (Extends node) (update_discovery_domains node world did payload)
    unfolding update_discovery_domains
    update_discovery_domains-Extends did payload =
        bind-Keeps rules
          (raising-Keeps rules internal (
            append_event-Extends node laws world (world.now 0) (world.now 1)
              discovery_node_domains_updated did payload))
          (λ event. update_entry-Extends did (domains_in payload))
