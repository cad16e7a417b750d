-- ===== src/Credentials/Proofs.antt =====
-- Signed credentials of crates/oan-credentials/src/lib.rs pass the check that they are made for.
use open_agenet.Base.{String, ◌≡◌, refl, none, some, ok, arith, Result-cases, inl, inr}
use open_agenet.Crypto.{sign_bytes}
use open_agenet.Crypto.Crates.{Primitives, SigningLaws}
use open_agenet.Crypto.Signing.{verify_bytes-sign_bytes}
use open_agenet.Credentials.{
  AgentRegistrationCredential, CredentialProof, proof_payload_hash, sign_credential,
  verify_signed_payload, sign_agent_registration, verify_agent_registration_credential,
  agent_registration_serialize,
}
use open_agenet.Json.{Time, Serialize}

module _ ⦃p : Primitives⦄ where
  open p use {SigningKey, VerifyingKey, verifying_key}

  -- If the crates keep `SigningLaws`, a proof made over a payload passes the check of that payload
  -- with the public half of the key.
  pub verify-sign_credential :
      {T : Type 0} ⦃s : Serialize T⦄
      → SigningLaws p
      → (now : Time) (payload : T) (creator : String) (key : SigningKey) {proof : CredentialProof}
      → sign_credential now payload creator key ≡ ok proof
      → verify_signed_payload payload (some proof) (verifying_key key) ≡ ok tt
  unfolding sign_credential verify_signed_payload
  verify-sign_credential laws now payload creator key {proof} made =
      elim (Result-cases (proof_payload_hash payload)) [
        | inl (hash, e) ↦
            let value : proof.proof_value ≡ sign_bytes key hash = ground arith in
            rw e (rw value (rw (verify_bytes-sign_bytes laws key hash)))
        | inr (f, e) ↦ absurd (ground arith)
      ]

  -- If the crates keep `SigningLaws`, a registration credential that was signed, whatever proof it
  -- carried before, passes the check with the signer's public key, and only its proof has changed.
  pub verify-sign_agent_registration :
      SigningLaws p
      → (now : Time) (c : AgentRegistrationCredential) (key_id : String) (key : SigningKey)
        {signed : AgentRegistrationCredential}
      → sign_agent_registration now c key_id key ≡ ok signed
      → (verify_agent_registration_credential signed (verifying_key key) ≡ ok tt)
        × (◌≡◌ {A = AgentRegistrationCredential}
            (record signed { proof = none })
            (record c { proof = none }))
  unfolding sign_agent_registration verify_agent_registration_credential
  verify-sign_agent_registration laws now c key_id key {signed} made =
      elim (Result-cases (sign_credential now (record c { proof = none }) key_id key)) [
        | inl (proof, e) ↦
            let result : ◌≡◌ {A = AgentRegistrationCredential} (record c { proof = some proof })
                signed =
              ground arith in
            rw (← result)
              (verify-sign_credential laws now (record c { proof = none }) key_id key e, refl)
        | inr (f, e) ↦ absurd (ground arith)
      ]
