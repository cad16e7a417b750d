-- ===== src/Credentials.antt =====
-- crates/oan-credentials/src/lib.rs: credentials and their proofs.
pub mod Proofs
pub mod Reading
pub mod RoundTrip
use open_agenet.Base.{
  String, Bool, true, false, Option, none, some, List, [], ◌∷◌, ◌++◌, Result, ok, err, ◌>>=◌, ◌>>◌,
  ok_or, map_err,
}
use open_agenet.Core.Json.{present}
use open_agenet.Crypto.{CryptoError, hash_json, sign_bytes, verify_bytes}
use open_agenet.Crypto.Crates.{Primitives}
use open_agenet.Json.{Time, Value, string, json, Serialize, optional, value_serialize}

pub data CredentialError : Type 0 where
  crypto : CryptoError → CredentialError
  missing_proof invalid_signature : CredentialError

pub record CredentialProof : Type 0 where
  pub proof_type : String
  pub creator : String
  pub created : Time
  pub proof_purpose : String
  pub proof_value : String

pub record NodeAuthorizationCredential : Type 0 where
  pub credential_type : String
  pub issuer : String
  pub subject : String
  pub role : String
  pub status : String
  pub issued_at : Time
  pub expires_at : Option Time
  pub claims : Value
  pub proof : Option CredentialProof

pub record AgentRegistrationCredential : Type 0 where
  pub credential_type : String
  pub issuer : String
  pub subject : String
  pub status : String
  pub issued_at : Time
  pub expires_at : Option Time
  pub claims : Value
  pub proof : Option CredentialProof

module _ ⦃p : Primitives⦄ where
  open p use {SigningKey, VerifyingKey, time_text}

  -- The derived `Serialize`.
  proof_value_of : CredentialProof → Value
  proof_value_of c = json (
      ("type", string c.proof_type)
      ∷ ("creator", string c.creator)
      ∷ ("created", string (time_text c.created))
      ∷ ("proofPurpose", string c.proof_purpose)
      ∷ ("proofValue", string c.proof_value)
      ∷ [])

  unfoldable pub node_authorization_value : NodeAuthorizationCredential → Value
  unfolding proof_value_of
  node_authorization_value c = json (
      ("type", string c.credential_type)
      ∷ ("issuer", string c.issuer)
      ∷ ("subject", string c.subject)
      ∷ ("role", string c.role)
      ∷ ("status", string c.status)
      ∷ ("issuedAt", string (time_text c.issued_at))
      ∷ ("claims", c.claims)
      ∷ (present "expiresAt" (λ t. string (time_text t)) c.expires_at
          ++ present "proof" proof_value_of c.proof))

  unfoldable pub agent_registration_value : AgentRegistrationCredential → Value
  unfolding proof_value_of
  agent_registration_value c = json (
      ("type", string c.credential_type)
      ∷ ("issuer", string c.issuer)
      ∷ ("subject", string c.subject)
      ∷ ("status", string c.status)
      ∷ ("issuedAt", string (time_text c.issued_at))
      ∷ ("claims", c.claims)
      ∷ (present "expiresAt" (λ t. string (time_text t)) c.expires_at
          ++ present "proof" proof_value_of c.proof))

  instance abbrev pub node_authorization_serialize : Serialize NodeAuthorizationCredential
  node_authorization_serialize = record { to_value = λ c. some (node_authorization_value c) }

  instance abbrev pub agent_registration_serialize : Serialize AgentRegistrationCredential
  agent_registration_serialize = record { to_value = λ c. some (agent_registration_value c) }

  module _ {T : Type 0} ⦃s : Serialize T⦄ where
    unfoldable pub proof_payload_hash : T → Result CredentialError String
    proof_payload_hash credential = map_err crypto (hash_json credential)

    -- The clock gives the time of the proof.
    unfoldable pub sign_credential :
        Time → T → String → SigningKey → Result CredentialError CredentialProof
    sign_credential now credential_without_proof creator signing_key = do
      payload_hash ← proof_payload_hash credential_without_proof
      ok (record {
        proof_type = "Ed25519Signature2020";
        creator = creator;
        created = now;
        proof_purpose = "assertionMethod";
        proof_value = sign_bytes signing_key payload_hash;
      })

    unfoldable pub verify_signed_payload :
        T → Option CredentialProof → VerifyingKey → Result CredentialError (Unit {0})
    verify_signed_payload payload_without_proof proof verifying_key = do
      found ← ok_or proof missing_proof
      payload_hash ← proof_payload_hash payload_without_proof
      map_err (λ _. invalid_signature) (verify_bytes verifying_key payload_hash found.proof_value)

    pub proof_matches_payload : T → Option CredentialProof → Result CredentialError String
    unfolding proof_payload_hash
    proof_matches_payload payload_without_proof proof = do
      found ← ok_or proof missing_proof
      payload_hash ← proof_payload_hash payload_without_proof
      map_err crypto (
          hash_json (
            json (
              ("payloadHash", string payload_hash)
              ∷ ("proofValue", string found.proof_value)
              ∷ [])))

  -- `NodeAuthorizationCredential::unsigned` and `sign`.
  unfoldable pub unsigned_node_authorization :
      Time → (issuer subject role : String) → Value → NodeAuthorizationCredential
  unsigned_node_authorization now issuer subject role claims = record {
    credential_type = "NodeAuthorizationCredential";
    issuer = issuer;
    subject = subject;
    role = role;
    status = "active";
    issued_at = now;
    expires_at = none;
    claims = claims;
    proof = none;
  }

  unfoldable pub sign_node_authorization :
      Time
      → NodeAuthorizationCredential
      → String
      → SigningKey
      → Result CredentialError NodeAuthorizationCredential
  sign_node_authorization now c key_id signing_key = do
    proof ← sign_credential now (record c { proof = none }) key_id signing_key
    ok (record c { proof = some proof })

  -- `AgentRegistrationCredential::unsigned` and `sign`.
  unfoldable pub unsigned_agent_registration :
      Time → (issuer subject : String) → Value → AgentRegistrationCredential
  unsigned_agent_registration now issuer subject claims = record {
    credential_type = "AgentRegistrationCredential";
    issuer = issuer;
    subject = subject;
    status = "active";
    issued_at = now;
    expires_at = none;
    claims = claims;
    proof = none;
  }

  unfoldable pub sign_agent_registration :
      Time
      → AgentRegistrationCredential
      → String
      → SigningKey
      → Result CredentialError AgentRegistrationCredential
  sign_agent_registration now c key_id signing_key = do
    proof ← sign_credential now (record c { proof = none }) key_id signing_key
    ok (record c { proof = some proof })

  unfoldable pub verify_agent_registration_credential :
      AgentRegistrationCredential → VerifyingKey → Result CredentialError (Unit {0})
  verify_agent_registration_credential credential issuer_verifying_key =
      verify_signed_payload (record credential { proof = none }) credential.proof
        issuer_verifying_key
