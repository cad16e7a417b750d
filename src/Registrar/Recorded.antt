-- ===== src/Registrar/Recorded.antt =====
-- What `register_agent` of services/registrar-node/src/main.rs leaves of a registration.
use open_agenet.Base.{String, Bool, ◌≡◌, ◌&&◌, some, arith, ◌==◌, is_ok, if◌then◌else◌}
use open_agenet.Base.Maps.{lookup, lookup-insert}
use open_agenet.Core.Documents.{validate_mvp}
use open_agenet.Core.Json.{did_document_value}
use open_agenet.Crypto.{hash_json, canonical_json, canonical_json_value, sha256_hex}
use open_agenet.Crypto.Crates.{Primitives}
use open_agenet.Storage.{holds, resolve, did_to_file_name}
use open_agenet.Registrar.{RegisterRequest, Store, Node, World}
use open_agenet.Registrar.Drafts.{mirror_sqlite_json}
use open_agenet.Registrar.Register.{record_of, write_record, register_agent}

-- The checks that `register_agent` makes itself.
abbrev pub passes : RegisterRequest → Bool
passes r = r.agent_did == r.did_document.id && is_ok (validate_mvp r.did_document)

module _ ⦃p : Primitives⦄ (node : Node) (world : World) where
  -- A registration that passes the registrar's checks is in the file of its agent, with the hash of
  -- its document, as soon as the disk takes that write, whatever the database and the root do after
  -- it; without the checks or the write nothing is recorded. Other files of records and all drafts
  -- stay as they are.
  pub register_agent-records :
      (r : RegisterRequest) (s : Store) (wanted : String)
      → let path = resolve node.records_store (did_to_file_name r.agent_did) in
        let hash = sha256_hex (canonical_json_value (did_document_value r.did_document)) in
        (lookup wanted (register_agent node world r s).1.records ≡ (
          if passes r && (world.disk path && path == wanted)
          then some (holds (record_of node world (world.now 0) r hash))
          else lookup wanted s.records))
        × ((register_agent node world r s).1.drafts ≡ s.drafts)
  unfolding register_agent write_record mirror_sqlite_json hash_json canonical_json sha256_hex
  register_agent-records r s wanted =
      let path = resolve node.records_store (did_to_file_name r.agent_did) in
      let hash = sha256_hex (canonical_json_value (did_document_value r.did_document)) in
      let law =
        lookup-insert path wanted (holds (record_of node world (world.now 0) r hash)) s.records in
      (ground (arith, law), ground arith)
