-- ===== src/Credentials/Reading.antt =====
-- The derived `Deserialize` of `AgentRegistrationCredential` (crates/oan-credentials/src/lib.rs):
-- an optional field may be missing or null, any other field must be there and have its type.
use open_agenet.Base.{String, Option, none, some}
use open_agenet.Credentials.{CredentialProof, AgentRegistrationCredential}
use open_agenet.Crypto.Crates.{Primitives}
use open_agenet.Json.{Time, Value, null, string, get, as_str}

infixl 5 ◌>>=◌
abbrev pub ◌>>=◌ : {A B : Type 0} → Option A → (A → Option B) → Option B
none >>= k = none
some a >>= k = k a

abbrev text_field : Value → String → Option String
text_field v k = do as_str (← get v k)

module _ ⦃p : Primitives⦄ where
  open p use {time_of}

  abbrev time_field : Value → String → Option Time
  time_field v k = do time_of (← text_field v k)

  abbrev optional_time : Option Value → Option (Option Time)
  optional_time none = some none
  optional_time (some null) = some none
  optional_time (some (string t)) = do some (some (← time_of t))
  optional_time (some _) = none

  unfoldable pub proof_of_value : Value → Option CredentialProof
  proof_of_value v = do
    proof_type ← text_field v "type"
    creator ← text_field v "creator"
    created ← time_field v "created"
    proof_purpose ← text_field v "proofPurpose"
    proof_value ← text_field v "proofValue"
    some (record {
      proof_type = proof_type;
      creator = creator;
      created = created;
      proof_purpose = proof_purpose;
      proof_value = proof_value;
    })

  abbrev optional_proof : Option Value → Option (Option CredentialProof)
  optional_proof none = some none
  optional_proof (some null) = some none
  optional_proof (some v) = do some (some (← proof_of_value v))

  unfoldable pub agent_registration_of_value : Value → Option AgentRegistrationCredential
  unfolding proof_of_value
  agent_registration_of_value v = do
    credential_type ← text_field v "type"
    issuer ← text_field v "issuer"
    subject ← text_field v "subject"
    status ← text_field v "status"
    issued_at ← time_field v "issuedAt"
    expires_at ← optional_time (get v "expiresAt")
    claims ← get v "claims"
    proof ← optional_proof (get v "proof")
    some (record {
      credential_type = credential_type;
      issuer = issuer;
      subject = subject;
      status = status;
      issued_at = issued_at;
      expires_at = expires_at;
      claims = claims;
      proof = proof;
    })
