-- ===== src/Registrar/Register.antt =====
-- `register_agent` and `api_submit_draft` of services/registrar-node/src/main.rs: what the registrar
-- records of an agent, and the request that it sends to the root.
use Prim.Native.String.{◌++◌}
use open_agenet.Base.{
  ℕ, ◌^◌, String, Bool, ◌&&◌, none, some, [], ◌∷◌, ◌==◌, ltb, leb, Result, ok, err, map_err, ok_or,
  require, if◌then◌else◌,
}
use open_agenet.Base.Action.{Action, lift, reads, attempt, ◌>>=◌, ◌>>◌}
use open_agenet.Base.Maps.{insert}
use open_agenet.Base.Texts.{decimal}
use open_agenet.Core.{DidDocument}
use open_agenet.Core.Documents.{validate_mvp}
use open_agenet.Core.Json.{did_document_serialize}
use open_agenet.Crypto.{hash_json}
use open_agenet.Crypto.Crates.{Primitives}
use open_agenet.Json.{Time, Value, string, json}
use open_agenet.Protocol.{VerifyAndPublishRequest}
use open_agenet.Storage.{io, holds, read_file, resolve, did_to_file_name}
use open_agenet.Registrar.{
  DraftRecord, RegisterRequest, storage, crypto, http, ApiError, bad_request, internal, passed_on,
  Store, Node, Reply, unreachable, undecodable, answered, World, did_document_error_text,
}
use open_agenet.Registrar.Drafts.{read_draft, mirror_sqlite_json}

-- `timestamp_nanos_opt().unwrap_or_default()`: the nanoseconds, where an `i64` holds them.
abbrev pub nonce_at : Time → String
nonce_at t = "nonce-" ++ (if ltb t (2 ^ 63) then decimal t else "0")

-- `StatusCode::is_success`.
abbrev pub is_success : ℕ → Bool
is_success status = leb 200 status && ltb status 300

-- What the root's answer is to the caller.
unfoldable pub outcome_of : Reply → Result ApiError Value
outcome_of unreachable = err (internal http)
outcome_of (undecodable status) = err (internal http)
outcome_of (answered status body) =
    if is_success status then ok body else err (passed_on status body)

module _ ⦃p : Primitives⦄ (node : Node) (world : World) where
  open p use {time_text}

  -- What is kept of a registration.
  unfoldable pub record_of : Time → RegisterRequest → String → Value
  record_of submitted r did_document_hash = json (
      ("agentDid", string r.agent_did)
      ∷ ("didDocumentHash", string did_document_hash)
      ∷ ("metadata", r.metadata)
      ∷ ("registrationCredential", r.registration_credential)
      ∷ ("submittedAt", string (time_text submitted))
      ∷ [])

  unfoldable pub write_record : String → Value → Action Store ApiError (Unit {0})
  write_record did value =
      let path = resolve node.records_store (did_to_file_name did) in
      attempt (world.disk path) (internal (storage io))
        (λ s. record s { records = insert path (holds value) s.records })

  -- The request to the root, which the registrar does not sign.
  unfoldable pub root_request : RegisterRequest → DidDocument → VerifyAndPublishRequest
  root_request r own = record {
    registrar_did = node.did;
    registrar_did_document = own;
    agent_did = r.agent_did;
    did_document = r.did_document;
    metadata = r.metadata;
    registration_credential = r.registration_credential;
    request_timestamp = some (world.now 2);
    request_nonce = some (nonce_at (world.now 3));
    request_signature = none;
  }

  abbrev pub read_own_document : Store → Result ApiError DidDocument
  read_own_document s = map_err (λ e. internal (storage e)) (read_file s.own_document)

  -- The clock is read for the record (0), its row (1), and the request (2, 3).
  unfoldable pub register_agent : RegisterRequest → Action Store ApiError Value
  unfolding record_of
  register_agent r = do
    lift (require (r.agent_did == r.did_document.id) (bad_request "did_document_id_mismatch"))
    lift (map_err (λ e. bad_request (did_document_error_text e)) (validate_mvp r.did_document))
    did_document_hash ← lift (map_err (λ e. internal (crypto e)) (hash_json r.did_document))
    let value = record_of (world.now 0) r did_document_hash
    write_record r.agent_did value
    mirror_sqlite_json node world (world.now 1) "registrar.records" r.agent_did value
    own ← reads read_own_document
    lift (outcome_of (world.publish_at_root (root_request r own)))

  abbrev pub request_of : DraftRecord → DidDocument → Value → RegisterRequest
  request_of draft document credential = record {
    agent_did = draft.agent_did;
    did_document = document;
    registration_credential = credential;
    metadata = draft.metadata;
  }

  unfoldable pub api_submit_draft : String → Action Store ApiError Value
  api_submit_draft draft_id = do
    draft ← reads (read_draft node draft_id)
    document ← lift (ok_or draft.did_document (bad_request "draft_missing_did_document"))
    credential ←
        lift (
          ok_or draft.registration_credential (bad_request "draft_missing_registration_credential"))
    register_agent (request_of draft document credential)
