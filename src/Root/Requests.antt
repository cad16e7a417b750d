-- ===== src/Root/Requests.antt =====
-- The checks of a request and the metadata that it yields, services/root-node/src/main.rs.
pub mod Checks
pub mod Nonces
pub mod Metadata
use open_agenet.Base.{
  ℕ, String, Bool, true, false, not, ◌&&◌, ◌||◌, Option, none, some, List, [], ◌∷◌, ◌==◌, any, find,
  is_empty, is_some, contains, map, Result, ok, err, ◌>>=◌, ◌>>◌, require, ok_or, map_err,
  if◌then◌else◌,
}
use open_agenet.Base.Action
use open_agenet.Base.Action.{Action, raising, lift}
use open_agenet.Base.Maps.{Map, lookup, insert, before}
use open_agenet.Bulletin.{Bulletin, BulletinEvent, is_registrar_authorized, is_registrar_revoked}
use open_agenet.Core.{AnsMetadata, DidDocument, VerificationMethod, is_agent}
use open_agenet.Core.Documents.{validate_mvp}
use open_agenet.Core.Json.{did_document_serialize}
use open_agenet.Core.Tags.{normalized}
use open_agenet.Credentials.{verify_agent_registration_credential}
use open_agenet.Credentials.Reading.{agent_registration_of_value}
use open_agenet.Crypto.{
  hash_json, verify_bytes, verifying_key_from_public_key_jwk,
  verifying_key_from_public_key_multibase,
}
use open_agenet.Crypto.Crates.{Primitives}
use open_agenet.Did.{parse}
use open_agenet.Json.{Time, Value, null, string, json, at, is_text, optional, value_serialize}
use open_agenet.Package.{AgentMetadata}
use open_agenet.Protocol.{VerifyAndPublishRequest}
use open_agenet.Root.{
  RequestNonceStore, Failure, message, ApiError, bad_request, Store, Node, World,
}
use open_agenet.Root.Files.{read_bulletin, load_nonce_store, save_nonce_store}

-- `bulletin.events.iter().any(..)` for the two kinds of events that `verify_request` looks for.
abbrev pub was_authorized : String → BulletinEvent → Bool
was_authorized did event =
    event.core.subject_did == did && is_registrar_authorized event.core.event_type

abbrev pub was_revoked : String → BulletinEvent → Bool
was_revoked did event = event.core.subject_did == did && is_registrar_revoked event.core.event_type

-- The tags of the description, if there is one.
abbrev pub described_tags : AnsMetadata → List String
described_tags ans = elim ans.agent_description [ none ↦ [] | some d ↦ d.capability_tags ]

-- `sort()` and `dedup()`.
insert_text : String → List String → List String
insert_text t [] = t ∷ []
insert_text t (u ∷ us) = let rest = insert_text t us in if before u t then u ∷ rest else t ∷ u ∷ us

unfoldable pub sort_texts : List String → List String
unfolding insert_text
sort_texts [] = []
sort_texts (t ∷ ts) = insert_text t (sort_texts ts)

abbrev pub push_new : String → List String → List String
push_new t [] = t ∷ []
push_new t (u ∷ us) = if t == u then u ∷ us else t ∷ u ∷ us

-- Of equal neighbours one stays.
unfoldable pub dedup : List String → List String
dedup [] = []
dedup (t ∷ ts) = push_new t (dedup ts)

module _ ⦃p : Primitives⦄ where
  open p use {VerifyingKey, did_pattern, time_text}

  -- The method that a document makes assertions with.
  abbrev pub assertion_key_method : DidDocument → Option VerificationMethod
  assertion_key_method d = find (λ m. contains m.id d.assertion_method) d.verification_method

  key_of_method : VerificationMethod → Result String VerifyingKey
  key_of_method m = elim m.public_key_jwk [
    | some jwk ↦ map_err (λ _. "invalid_issuer_key") (verifying_key_from_public_key_jwk jwk)
    | none ↦ elim m.public_key_multibase [
      | some multibase ↦
          map_err (λ _. "invalid_issuer_key") (verifying_key_from_public_key_multibase multibase)
      | none ↦ err "invalid_issuer_key"
    ]
  ]

  unfoldable pub verify_issuer_key : DidDocument → Result String VerifyingKey
  unfolding key_of_method
  verify_issuer_key d = do
    method ← ok_or (assertion_key_method d) "missing_issuer_verification_method"
    key_of_method method

  -- What the request's signature is made over.
  abbrev pub signed_request : VerifyAndPublishRequest → String → String → Value
  signed_request r document_hash metadata_hash = json (
      ("registrarDid", string r.registrar_did)
      ∷ ("agentDid", string r.agent_did)
      ∷ ("didDocumentHash", string document_hash)
      ∷ ("metadataHash", string metadata_hash)
      ∷ ("registrationCredential", r.registration_credential)
      ∷ ("requestTimestamp", optional (λ t. string (time_text t)) r.request_timestamp)
      ∷ ("requestNonce", optional string r.request_nonce)
      ∷ [])

  verify_signature : VerifyAndPublishRequest → String → Result String (Unit {0})
  verify_signature r signature = do
    registrar_key ← verify_issuer_key r.registrar_did_document
    document_hash ← map_err (λ _. "invalid_request_signature") (hash_json r.did_document)
    metadata_hash ← map_err (λ _. "invalid_request_signature") (hash_json r.metadata)
    payload_hash ←
        map_err (λ _. "invalid_request_signature")
          (hash_json (signed_request r document_hash metadata_hash))
    map_err (λ _. "invalid_request_signature") (verify_bytes registrar_key payload_hash signature)

  -- A request without a signature passes.
  unfoldable pub verify_request_signature : VerifyAndPublishRequest → Result String (Unit {0})
  unfolding verify_signature
  verify_request_signature r = elim r.request_signature [
    | none ↦ ok tt
    | some signature ↦ verify_signature r signature
  ]

  -- The tests of `verify_request` on the bulletin.
  abbrev pub is_active_registrar : Bulletin → String → Bool
  is_active_registrar b did =
      any (was_authorized did) b.events && not (any (was_revoked did) b.events)

  -- The tests of `verify_request` after those on the bulletin.
  unfoldable pub verify_content : VerifyAndPublishRequest → Result String (Unit {0})
  verify_content r = do
    map_err (λ _. "invalid_did") (parse did_pattern r.agent_did)
    require (r.did_document.id == r.agent_did) "did_document_id_mismatch"
    map_err (λ _. "invalid_did_document_structure") (validate_mvp r.did_document)
    metadata ← ok_or r.did_document.ans_metadata "invalid_subject_type"
    require (is_agent metadata.subject) "invalid_subject_type"
    require (not (is_empty r.did_document.service)) "invalid_service_endpoint"
    require (is_text (at r.registration_credential "issuer") r.registrar_did)
        "invalid_registration_credential"
    require (is_text (at r.registration_credential "subject") r.agent_did)
        "invalid_registration_credential"
    require (is_text (at r.registration_credential "status") "active")
        "invalid_registration_credential"
    credential ←
        ok_or (agent_registration_of_value r.registration_credential)
          "invalid_registration_credential"
    key ← verify_issuer_key r.registrar_did_document
    map_err (λ _. "invalid_registration_credential_signature")
        (verify_agent_registration_credential credential key)

  module _ (node : Node) (world : World) where
    unfoldable pub verify_request :
        Time → VerifyAndPublishRequest → Store → Result String (Unit {0})
    unfolding verify_content
    verify_request opened r s = do
      b ← map_err world.failure_text (read_bulletin node opened s)
      require (is_active_registrar b r.registrar_did) "registrar_not_authorized"
      verify_content r

    -- The nonce is stored before the rest of the request is checked.
    unfoldable pub verify_request_nonce :
        Time → VerifyAndPublishRequest → Action Store String (Unit {0})
    verify_request_nonce seen r s = elim r.request_nonce [
      | none ↦ (ok tt, s)
      | some nonce ↦ elim (load_nonce_store s) [
        | err _ ↦ (err "invalid_nonce_store", s)
        | ok stored ↦
            if is_some (lookup nonce stored.nonces)
            then (err "replayed_request_nonce", s)
            else raising (λ _. "invalid_nonce_store")
                (save_nonce_store node world (record { nonces = insert nonce seen stored.nonces }))
                s
      ]
    ]

    unfoldable pub build_metadata :
        Time → VerifyAndPublishRequest → String → Result Failure AgentMetadata
    unfolding sort_texts dedup
    build_metadata updated r did_document_hash = do
      ans ← ok_or r.did_document.ans_metadata (message "ansMetadata missing")
      let tags = map (normalized node.tag_tree) (described_tags ans)
      ok (record {
        did = r.agent_did;
        role = "Service Agent";
        identity_type = ans.identity_type;
        did_document_hash = did_document_hash;
        capability_tags = dedup (sort_texts tags);
        services = r.did_document.service;
        status = "active";
        updated_at = updated;
      })
