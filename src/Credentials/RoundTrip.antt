-- ===== src/Credentials/RoundTrip.antt =====
-- Registration credentials of crates/oan-credentials/src/lib.rs are read back from their JSON.
use open_agenet.Base.{◌≡◌, refl, Option, none, some}
use open_agenet.Credentials.{
  CredentialProof, AgentRegistrationCredential, proof_value_of, agent_registration_value,
}
use open_agenet.Credentials.Reading.{agent_registration_of_value}
use open_agenet.Crypto.Crates.{Primitives, TimeLaws}
use open_agenet.Json.{Time, string, at, get, find_field, fields_of, insert_field}

module _ ⦃p : Primitives⦄ (laws : TimeLaws p) where
  with_parts :
      (c : AgentRegistrationCredential) (expires_at : Option Time) (proof : Option CredentialProof)
      → agent_registration_of_value
          (agent_registration_value (record c { expires_at = expires_at; proof = proof }))
        ≡ some (record c { expires_at = expires_at; proof = proof })
  unfolding agent_registration_of_value agent_registration_value proof_value_of get find_field
      fields_of insert_field
  with_parts c none none = rw (laws.time_of-text c.issued_at)
  with_parts c (some t) none = rw (laws.time_of-text c.issued_at, laws.time_of-text t)
  with_parts c none (some q) = rw (laws.time_of-text c.issued_at, laws.time_of-text q.created)
  with_parts c (some t) (some q) =
      rw (laws.time_of-text c.issued_at, laws.time_of-text t, laws.time_of-text q.created)

  -- If chrono reads the times that it prints, the JSON of a registration credential, with or without
  -- a time of expiry and a proof, is read as that credential.
  pub agent_registration_of_value-agent_registration_value :
      (c : AgentRegistrationCredential)
      → agent_registration_of_value (agent_registration_value c) ≡ some c
  agent_registration_of_value-agent_registration_value c = with_parts c c.expires_at c.proof

module _ ⦃p : Primitives⦄ where
  fields_with :
      (c : AgentRegistrationCredential) (expires_at : Option Time) (proof : Option CredentialProof)
      → let v = agent_registration_value (record c { expires_at = expires_at; proof = proof }) in
        (at v "issuer" ≡ string c.issuer)
        × (at v "subject" ≡ string c.subject)
        × (at v "status" ≡ string c.status)
  unfolding agent_registration_value proof_value_of at get find_field fields_of insert_field
  fields_with c none none = (refl, refl, refl)
  fields_with c (some t) none = (refl, refl, refl)
  fields_with c none (some q) = (refl, refl, refl)
  fields_with c (some t) (some q) = (refl, refl, refl)

  -- The fields that the root compares.
  pub at-agent_registration_value :
      (c : AgentRegistrationCredential)
      → (at (agent_registration_value c) "issuer" ≡ string c.issuer)
        × (at (agent_registration_value c) "subject" ≡ string c.subject)
        × (at (agent_registration_value c) "status" ≡ string c.status)
  at-agent_registration_value c = fields_with c c.expires_at c.proof
