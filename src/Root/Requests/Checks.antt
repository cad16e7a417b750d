-- ===== src/Root/Requests/Checks.antt =====
-- Which requests pass `verify_request` of services/root-node/src/main.rs.
use open_agenet.Base.{
  any_iff, String, ◌≡◌, refl, Bool, true, false, not, some, List, [], ◌∷◌, arith, eq_iff, ◌↔◌, ◌≢◌,
  is_empty, Some, ok, Result-cases, Option-cases, inl, inr,
}
use open_agenet.Bulletin.{
  BulletinEventType, Bulletin, BulletinEvent, registrar_authorized, registrar_revoked,
}
use open_agenet.Core.{AnsMetadata, SubjectType, agent, infrastructure_node, is_agent}
use open_agenet.Core.Documents.{validate_mvp}
use open_agenet.Credentials.{AgentRegistrationCredential, verify_agent_registration_credential}
use open_agenet.Credentials.Reading.{agent_registration_of_value}
use open_agenet.Crypto.Crates.{Primitives}
use open_agenet.Did.{DidAns, parse}
use open_agenet.Json.{Time, Value, null, bool, number, array, object, string, at, is_text}
use open_agenet.Protocol.{VerifyAndPublishRequest}
use open_agenet.Root.{Store, Node, World}
use open_agenet.Root.Files.{read_bulletin}
use open_agenet.Root.Requests.{
  was_authorized, was_revoked, verify_issuer_key, verify_content, verify_request,
}

not_true : (b : Bool) → ¬ (b ≡ true) → b ≡ false
not_true true h = absurd (h refl)
not_true false h = refl

-- An event of this type on this subject.
abbrev pub IsAbout : String → BulletinEventType → BulletinEvent → Type 0
IsAbout did event_type event = (event.core.subject_did ≡ did) × (event.core.event_type ≡ event_type)

was_authorized_iff :
    (did : String) (event : BulletinEvent)
    → (was_authorized did event ≡ true) ↔ IsAbout did registrar_authorized event
was_authorized_iff did event = (
  λ h. (ground (arith, eq_iff event.core.subject_did did), ground arith),
  λ h. ground (arith, h.0, h.1, eq_iff event.core.subject_did did),
)

was_revoked_iff :
    (did : String) (event : BulletinEvent)
    → (was_revoked did event ≡ true) ↔ IsAbout did registrar_revoked event
was_revoked_iff did event = (
  λ h. (ground (arith, eq_iff event.core.subject_did did), ground arith),
  λ h. ground (arith, h.0, h.1, eq_iff event.core.subject_did did),
)

module _ ⦃p : Primitives⦄ where
  open p use {VerifyingKey, did_pattern}

  -- What `verify_request` asks of the request itself.
  pub record IsSound (r : VerifyAndPublishRequest) : Type 0 where
    pub parsed : DidAns
    pub identifier : parse did_pattern r.agent_did ≡ ok parsed
    pub same_subject : r.did_document.id ≡ r.agent_did
    pub complete : validate_mvp r.did_document ≡ ok tt
    pub ans : AnsMetadata
    pub described : r.did_document.ans_metadata ≡ some ans
    pub of_agent : ans.subject ≡ agent
    pub reachable : r.did_document.service ≢ []
    pub issued : at r.registration_credential "issuer" ≡ string r.registrar_did
    pub granted : at r.registration_credential "subject" ≡ string r.agent_did
    pub active : at r.registration_credential "status" ≡ string "active"
    pub credential : AgentRegistrationCredential
    pub readable : agent_registration_of_value r.registration_credential ≡ some credential
    pub key : VerifyingKey
    pub named_key : verify_issuer_key r.registrar_did_document ≡ ok key
    pub signed : verify_agent_registration_credential credential key ≡ ok tt

  is_text_iff : (v : Value) (t : String) → (is_text v t ≡ true) ↔ (v ≡ string t)
  is_text_iff null t = (λ h. absurd (ground arith), λ h. absurd (ground arith))
  is_text_iff (bool b) t = (λ h. absurd (ground arith), λ h. absurd (ground arith))
  is_text_iff (number n) t = (λ h. absurd (ground arith), λ h. absurd (ground arith))
  is_text_iff (string s) t = (λ h. ground (arith, eq_iff s t), λ h. ground (arith, eq_iff s t))
  is_text_iff (array vs) t = (λ h. absurd (ground arith), λ h. absurd (ground arith))
  is_text_iff (object fs) t = (λ h. absurd (ground arith), λ h. absurd (ground arith))

  is_agent_iff : (x : SubjectType) → (is_agent x ≡ true) ↔ (x ≡ agent)
  unfolding is_agent
  is_agent_iff agent = (λ h. refl, λ h. refl)
  is_agent_iff infrastructure_node = (λ h. absurd (ground arith), λ h. absurd (ground arith))

  is_empty_iff : {A : Type 0} (xs : List A) → (not (is_empty xs) ≡ true) ↔ (xs ≢ [])
  is_empty_iff [] = (λ h. absurd (ground arith), λ h. absurd (h refl))
  is_empty_iff (x ∷ xs) = (λ h e. absurd (ground arith), λ h. refl)

  verify_content-IsSound : (r : VerifyAndPublishRequest) → verify_content r ≡ ok tt → IsSound r
  unfolding verify_content
  verify_content-IsSound r h =
      let c = r.registration_credential in
      elim (Result-cases (parse did_pattern r.agent_did)) [
        | inr (f, e) ↦ absurd (ground (arith, e))
        | inl (d, e) ↦ elim (Option-cases r.did_document.ans_metadata) [
          | inl f ↦ absurd (ground (arith, e, f))
          | inr (m, f) ↦ elim (Option-cases (agent_registration_of_value c)) [
            | inl g ↦ absurd (ground (arith, e, f, g))
            | inr (vc, g) ↦ elim (Result-cases (verify_issuer_key r.registrar_did_document)) [
              | inr (x, k) ↦ absurd (ground (arith, e, f, g, k))
              | inl (x, k) ↦ record {
                parsed = d;
                identifier = e;
                same_subject = ground (arith, eq_iff r.did_document.id r.agent_did);
                complete = ground arith;
                ans = m;
                described = f;
                of_agent = (is_agent_iff m.subject).0 (ground arith);
                reachable = (is_empty_iff r.did_document.service).0 (ground arith);
                issued = (is_text_iff (at c "issuer") r.registrar_did).0 (ground arith);
                granted = (is_text_iff (at c "subject") r.agent_did).0 (ground arith);
                active = (is_text_iff (at c "status") "active").0 (ground arith);
                credential = vc;
                readable = g;
                key = x;
                named_key = k;
                signed = ground arith;
              }
            ]
          ]
        ]
      ]

  IsSound-verify_content : (r : VerifyAndPublishRequest) → IsSound r → verify_content r ≡ ok tt
  unfolding verify_content
  IsSound-verify_content r a = rw a.identifier (
      rw ((eq_iff r.did_document.id r.agent_did).1 a.same_subject) (
        rw a.complete (
          rw a.described (
            rw ((is_agent_iff a.ans.subject).1 a.of_agent) (
              rw ((is_empty_iff r.did_document.service).1 a.reachable) (
                rw
                  ((is_text_iff (at r.registration_credential "issuer") r.registrar_did).1 a.issued)
                  (rw
                    ((is_text_iff (at r.registration_credential "subject") r.agent_did).1 a.granted)
                    (rw ((is_text_iff (at r.registration_credential "status") "active").1 a.active)
                      (rw a.readable (rw a.named_key (rw a.signed refl)))))))))))

  module _ (node : Node) (world : World) where
    -- `verify_request` accepts exactly the requests for which the bulletin can be read and has a
    -- REGISTRAR_AUTHORIZED event and no REGISTRAR_REVOKED event with the registrar's DID as the
    -- subject, the agent's DID and document are well formed and belong together, the document is
    -- that of an agent with a service, and the credential names the registrar, the agent and the
    -- status "active" and carries a signature by the key of the registrar's document.
    pub verify_request_iff :
        (opened : Time) (r : VerifyAndPublishRequest) (s : Store) (b : Bulletin)
        → read_bulletin node opened s ≡ ok b
        → (verify_request node world opened r s ≡ ok tt) ↔ (
            Some (IsAbout r.registrar_did registrar_authorized) b.events
            × ¬ Some (IsAbout r.registrar_did registrar_revoked) b.events
            × IsSound r)
    unfolding verify_request
    verify_request_iff opened r s b read =
        let joined =
          any_iff (was_authorized r.registrar_did) b.events (was_authorized_iff r.registrar_did) in
        let left =
          any_iff (was_revoked r.registrar_did) b.events (was_revoked_iff r.registrar_did) in
        (
          λ h. (
            joined.0 (ground arith),
            λ found. absurd (ground (arith, left.1 found)),
            verify_content-IsSound r (ground arith),
          ),
          λ h.
              ground (
                arith,
                joined.1 h.0,
                IsSound-verify_content r h.2,
                not_true _ (λ e. h.1 (left.0 e)),
              ),
        )
