-- ===== src/Registrar/Issued.antt =====
-- The credentials that services/registrar-node/src/main.rs issues, and the root's check of the
-- requests that carry them.
use Prim.Native.String.{◌++◌}
use open_agenet.Base.{◌≡◌, ◌≢◌, some, [], arith, ok, sym, ap, ◌∙◌, Result-cases, inl, inr}
use open_agenet.Core.{AnsMetadata, DidDocument, agent}
use open_agenet.Core.Documents.{validate_mvp}
use open_agenet.Credentials.{
  AgentRegistrationCredential, sign_agent_registration, unsigned_agent_registration,
  agent_registration_value, verify_agent_registration_credential,
}
use open_agenet.Credentials.Proofs.{verify-sign_agent_registration}
use open_agenet.Credentials.Reading.{agent_registration_of_value}
use open_agenet.Credentials.RoundTrip.{
  agent_registration_of_value-agent_registration_value, at-agent_registration_value,
}
use open_agenet.Crypto.Crates.{Primitives, SigningLaws, TimeLaws}
use open_agenet.Did.{DidAns, parse}
use open_agenet.Json.{string, at}
use open_agenet.Registrar.{DraftRecord, RegisterRequest, Node, World}
use open_agenet.Registrar.Drafts.{issued_credential, registration_claims}
use open_agenet.Registrar.Register.{root_request}
use open_agenet.Root.Requests.{verify_issuer_key}
use open_agenet.Root.Requests.Checks.{IsSound}

module _ ⦃p : Primitives⦄ where
  -- A document that the root accepts for an agent.
  pub record IsAgentDocument (d : DidDocument) : Type 0 where
    pub parsed : DidAns
    pub identifier : parse p.did_pattern d.id ≡ ok parsed
    pub complete : validate_mvp d ≡ ok tt
    pub ans : AnsMetadata
    pub described : d.ans_metadata ≡ some ans
    pub of_agent : ans.subject ≡ agent
    pub reachable : d.service ≢ []

module _ ⦃p : Primitives⦄ (laws : SigningLaws p) (times : TimeLaws p) (node : Node)
    (world : World) where
  issued_parts :
      (draft : DraftRecord) (c : AgentRegistrationCredential)
      → issued_credential node world draft ≡ ok c
      → (c.issuer ≡ node.did)
        × (c.subject ≡ draft.agent_did)
        × (c.status ≡ "active")
        × (verify_agent_registration_credential c (p.verifying_key node.signing_key) ≡ ok tt)
  unfolding issued_credential unsigned_agent_registration
  issued_parts draft c made =
      let plain =
        unsigned_agent_registration (world.now 0) node.did draft.agent_did
          (registration_claims node world draft.did_document) in
      elim (Result-cases
        (sign_agent_registration (world.now 1) plain (node.did ++ "#key-1") node.signing_key)) [
          | inr (f, e) ↦ absurd (ground (arith, e, made))
          | inl (signed, e) ↦
              let same : signed ≡ c = ground (arith, e, made) in
              let checked =
                verify-sign_agent_registration laws (world.now 1) plain (node.did ++ "#key-1")
                  node.signing_key e in
              rw (← same) (
                ap (λ x. x.issuer) checked.1,
                ap (λ x. x.subject) checked.1,
                ap (λ x. x.status) checked.1,
                checked.0,
              )
        ]

  -- A request with the credential that was issued for the agent's draft is sound.
  pub issued-IsSound :
      (later : World) (draft : DraftRecord) (r : RegisterRequest) (own : DidDocument)
      (c : AgentRegistrationCredential)
      → issued_credential node world draft ≡ ok c
      → verify_issuer_key own ≡ ok (p.verifying_key node.signing_key)
      → IsAgentDocument r.did_document
      → r.did_document.id ≡ r.agent_did
      → r.agent_did ≡ draft.agent_did
      → r.registration_credential ≡ agent_registration_value c
      → IsSound (root_request node later r own)
  unfolding root_request
  issued-IsSound later draft r own c made key d same granted carried =
      let parts = issued_parts draft c made in
      let fields = at-agent_registration_value c in
      record {
        parsed = d.parsed;
        identifier = ap (parse p.did_pattern) (sym same) ∙ d.identifier;
        same_subject = same;
        complete = d.complete;
        ans = d.ans;
        described = d.described;
        of_agent = d.of_agent;
        reachable = d.reachable;
        issued = ap (λ x. at x "issuer") carried ∙ fields.0 ∙ ap string parts.0;
        granted = ap (λ x. at x "subject") carried ∙ fields.1 ∙ ap string (parts.1 ∙ sym granted);
        active = ap (λ x. at x "status") carried ∙ fields.2 ∙ ap string parts.2;
        credential = c;
        readable =
            ap agent_registration_of_value carried
            ∙ agent_registration_of_value-agent_registration_value times c;
        key = p.verifying_key node.signing_key;
        named_key = key;
        signed = parts.3;
      }
