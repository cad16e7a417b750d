-- ===== src/Tests/Credentials.antt =====
-- Runs on credentials.
use open_agenet.Base.{◌≡◌, refl, none, some, ok, unwrap_or}
use open_agenet.Base.Texts.{decimal}
use open_agenet.Credentials.{
  CredentialProof, AgentRegistrationCredential, agent_registration_value, proof_payload_hash,
  sign_credential, verify_signed_payload, sign_agent_registration, unsigned_agent_registration,
  verify_agent_registration_credential,
}
use open_agenet.Credentials.Proofs.{verify-sign_credential, verify-sign_agent_registration}
use open_agenet.Credentials.Reading.{agent_registration_of_value}
use open_agenet.Credentials.RoundTrip.{agent_registration_of_value-agent_registration_value}
use open_agenet.Crypto.{hash_json, canonical_json, canonical_json_value, sha256_hex, sign_bytes}
use open_agenet.Json.{null, string, value_serialize, fields_of, insert_field}
use open_agenet.Tests.Toy.{toy, toy-SigningLaws, toy-TimeLaws}

abbrev proof : CredentialProof
proof = record {
  proof_type = "Ed25519Signature2020";
  creator = "k";
  created = 5;
  proof_purpose = "assertionMethod";
  proof_value = sign_bytes ⦃p = toy⦄ tt "7";
}

proof_made : sign_credential ⦃p = toy⦄ 5 (string "claim") "k" tt ≡ ok proof
unfolding sign_credential proof_payload_hash hash_json canonical_json canonical_json_value
    sha256_hex decimal
proof_made = refl

verify-sign_credential_example :
    verify_signed_payload ⦃p = toy⦄ (string "claim") (some proof) tt ≡ ok tt
verify-sign_credential_example =
    verify-sign_credential ⦃p = toy⦄ toy-SigningLaws 5 (string "claim") "k" tt {proof = proof}
      proof_made

abbrev plain : AgentRegistrationCredential
plain = unsigned_agent_registration ⦃p = toy⦄ 3 "did:registrar" "did:agent" null

abbrev with_proof : AgentRegistrationCredential
with_proof = unwrap_or (sign_agent_registration ⦃p = toy⦄ 5 plain "k" tt) plain

with_proof_made : sign_agent_registration ⦃p = toy⦄ 5 plain "k" tt ≡ ok with_proof
unfolding sign_agent_registration sign_credential proof_payload_hash hash_json canonical_json
    canonical_json_value sha256_hex decimal agent_registration_value fields_of insert_field
    unsigned_agent_registration
with_proof_made = refl

verify-sign_agent_registration_example :
    (verify_agent_registration_credential ⦃p = toy⦄ with_proof tt ≡ ok tt)
    × ◌≡◌ {A = AgentRegistrationCredential}
        (record with_proof { proof = none })
        (record plain { proof = none })
verify-sign_agent_registration_example =
    verify-sign_agent_registration ⦃p = toy⦄ toy-SigningLaws 5 plain "k" tt {signed = with_proof}
      with_proof_made

agent_registration_of_value-agent_registration_value_example :
    agent_registration_of_value ⦃p = toy⦄ (agent_registration_value ⦃p = toy⦄ with_proof)
    ≡ some with_proof
agent_registration_of_value-agent_registration_value_example =
    agent_registration_of_value-agent_registration_value ⦃p = toy⦄ toy-TimeLaws with_proof
