-- ===== src/Registrar/Published.antt =====
-- The registrar (services/registrar-node/src/main.rs) and the root (services/root-node/src/main.rs)
-- together: a draft whose credential has been issued is published when it is submitted.
use open_agenet.Base.{
  String, ◌≡◌, refl, ◌∙◌, ap, true, none, some, [], ◌∷◌, arith, eq_iff, Some, Result, ok, err,
  Result-cases, inl, inr,
}
use open_agenet.Base.Maps.{lookup}
use open_agenet.Bulletin.{Bulletin, registrar_authorized, registrar_revoked}
use open_agenet.Core.{DidDocument}
use open_agenet.Core.Documents.{validate_mvp}
use open_agenet.Core.Json.{natural}
use open_agenet.Credentials.{AgentRegistrationCredential, agent_registration_value}
use open_agenet.Crypto.{hash_json, canonical_json}
use open_agenet.Crypto.Crates.{Primitives, SigningLaws, TimeLaws}
use open_agenet.Json.{Value, string, json}
use open_agenet.Protocol.{VerifyAndPublishRequest}
use open_agenet.Root
use open_agenet.Root.{VerifyResponse, RequestNonceStore}
use open_agenet.Root.Files.{read_bulletin, load_nonce_store, save_nonce_store}
use open_agenet.Root.Publish.{verify_and_publish}
use open_agenet.Root.Publish.Answered.{working, verify_and_publish_iff}
use open_agenet.Root.Requests.{verify_request_signature, verify_request_nonce, verify_issuer_key}
use open_agenet.Root.Requests.Checks.{IsAbout, IsSound, verify_request_iff}
use open_agenet.Storage.{holds, resolve, did_to_file_name}
use open_agenet.Registrar.{DraftRecord, Store, Node, World, Reply, answered, non_null}
use open_agenet.Registrar.Drafts.{
  read_draft, mirror_sqlite_json, save_draft, issued_credential, issued_draft,
  api_issue_registration_credential,
}
use open_agenet.Registrar.Issued.{IsAgentDocument, issued-IsSound}
use open_agenet.Registrar.Register.{
  nonce_at, outcome_of, write_record, root_request, request_of, register_agent, api_submit_draft,
}
use open_agenet.Registrar.Filed.{IsFiled, filed_at}
use open_agenet.Registrar.Stored.{saved}

-- The derived `Serialize` of the root's `VerifyResponse`.
unfoldable pub verify_response_value : VerifyResponse → Value
verify_response_value v = json (
    ("status", string v.status)
    ∷ ("operation", string v.operation)
    ∷ ("agentDid", string v.agent_did)
    ∷ ("didDocumentHash", string v.did_document_hash)
    ∷ ("metadataHash", string v.metadata_hash)
    ∷ ("documentVersion", natural v.document_version)
    ∷ ("bulletinSequence", natural v.bulletin_sequence)
    ∷ ("bulletinEventHash", string v.bulletin_event_hash)
    ∷ ("cdnDispatchStatus", string v.cdn_dispatch_status)
    ∷ ("discoveryNotifyStatus", string v.discovery_notify_status)
    ∷ [])

-- `into_response` of the root's results.
unfoldable pub root_reply : (Root.Failure → String) → Result Root.ApiError VerifyResponse → Reply
root_reply text (ok v) = answered 200 (verify_response_value v)
root_reply text (err (Root.ApiError.bad_request m)) = answered 400 (json (("error", string m) ∷ []))
root_reply text (err (Root.ApiError.internal f)) =
    answered 500 (json (("error", string (text f)) ∷ []))

module _ ⦃p : Primitives⦄ (node : Node) where
  -- After a credential has been issued for a draft, the draft is read with it.
  issued :
      (world : World) (draft_id : String) (s s' : Store) (v : Value) (draft : DraftRecord)
      → read_draft node draft_id s ≡ ok draft
      → IsFiled node s
      → api_issue_registration_credential node world draft_id s ≡ (ok v, s')
      → (c : AgentRegistrationCredential) × (issued_credential node world draft ≡ ok c)
        × (read_draft node draft_id s' ≡ ok (issued_draft node world draft c))
        × (s'.own_document ≡ s.own_document)
  unfolding api_issue_registration_credential agent_registration_value non_null
  issued world draft_id s s' v draft found filed h =
      elim (Result-cases (issued_credential node world draft)) [
        | inr (f, e) ↦ absurd (ground (arith, found, e, h))
        | inl (c, e) ↦
            let wrote : save_draft node world (world.now 3) (issued_draft node world draft c) s
                ≡ (ok tt, s') =
              ground (arith, found, e, h) in
            let kept =
              saved node world (world.now 3) draft_id (issued_draft node world draft c) s s'
                wrote in
            let path = filed_at node draft_id s draft filed found in
            let same = (eq_iff _ _).1 path in (c, e, kept.0 ∙ rw same, kept.1)
      ]

  -- What a submission that nothing stands in the way of gives is what the root answers.
  submitted :
      (world : World) (draft_id : String) (s : Store) (draft : DraftRecord)
      (document own : DidDocument) (credential : Value)
      → read_draft node draft_id s ≡ ok draft
      → draft.did_document ≡ some document
      → draft.registration_credential ≡ some credential
      → document.id ≡ draft.agent_did
      → validate_mvp document ≡ ok tt
      → s.own_document ≡ some (holds own)
      → world.disk (resolve node.records_store (did_to_file_name draft.agent_did)) ≡ true
      → world.database "registrar.records" ≡ true
      → (api_submit_draft node world draft_id s).0
        ≡ outcome_of (
            world.publish_at_root
              (root_request node world (request_of node world draft document credential) own))
  unfolding api_submit_draft register_agent write_record mirror_sqlite_json hash_json canonical_json
  submitted world draft_id s draft document own credential found d c same complete kept disk rows =
      ground (arith, found, d, c, eq_iff draft.agent_did document.id, complete, kept, disk, rows)

module _ ⦃p : Primitives⦄ (laws : SigningLaws p) (times : TimeLaws p) (node : Node)
    (root_node : Root.Node) (root_world : Root.World) where
  -- A sound request with a new nonce, of a registrar that is authorized and not revoked, is
  -- answered with a success.
  answered_well :
      (rs : Root.Store) (b : Bulletin) (nonces : RequestNonceStore) (r : VerifyAndPublishRequest)
      (nonce : String)
      → read_bulletin root_node (root_world.now 1) rs ≡ ok b
      → load_nonce_store rs ≡ ok nonces
      → lookup nonce nonces.nonces ≡ none
      → r.request_nonce ≡ some nonce
      → r.request_signature ≡ none
      → Some (IsAbout r.registrar_did registrar_authorized) b.events
      → ¬ Some (IsAbout r.registrar_did registrar_revoked) b.events
      → IsSound r
      → (v : VerifyResponse) × ((verify_and_publish root_node (working root_world) r rs).0 ≡ ok v)
  unfolding verify_request_signature verify_request_nonce save_nonce_store
  answered_well rs b nonces r nonce read known fresh named plain joined unrevoked sound =
      (verify_and_publish_iff root_node root_world r rs).1 (
        rw plain,
        ground (arith, named, known, fresh),
        (verify_request_iff root_node (working root_world) (root_world.now 1) r rs b read).1
            (joined, unrevoked, sound),
      )

  -- If the crates keep `SigningLaws` and `TimeLaws`: let each draft stand in the file of its
  -- identifier, let a draft have the document of a complete agent with a service, and let the
  -- registrar issue a credential for it. If the registrar's own document names its signing key, the
  -- root can read its bulletin and its nonces, the registrar is authorized in the bulletin and not
  -- revoked, the nonce is new to the root, no write fails at the root, and the registrar's own write
  -- and statement for the record go through, then the submission of the draft is a success: the root
  -- publishes the agent.
  pub issue-submit_published :
      (world world' : World) (draft_id : String) (s s' : Store) (v : Value) (draft : DraftRecord)
      (document own : DidDocument) (rs : Root.Store) (b : Bulletin) (nonces : RequestNonceStore)
      → read_draft node draft_id s ≡ ok draft
      → IsFiled node s
      → draft.did_document ≡ some document
      → document.id ≡ draft.agent_did
      → IsAgentDocument document
      → s.own_document ≡ some (holds own)
      → verify_issuer_key own ≡ ok (p.verifying_key node.signing_key)
      → api_issue_registration_credential node world draft_id s ≡ (ok v, s')
      → world'.disk (resolve node.records_store (did_to_file_name draft.agent_did)) ≡ true
      → world'.database "registrar.records" ≡ true
      → world'.publish_at_root ≡ (λ r.
        root_reply root_world.failure_text
          (verify_and_publish root_node (working root_world) r rs).0)
      → read_bulletin root_node (root_world.now 1) rs ≡ ok b
      → Some (IsAbout node.did registrar_authorized) b.events
      → ¬ Some (IsAbout node.did registrar_revoked) b.events
      → load_nonce_store rs ≡ ok nonces
      → lookup (nonce_at (world'.now 3)) nonces.nonces ≡ none
      → (published : VerifyResponse) × ((api_submit_draft node world' draft_id s').0
          ≡ ok (verify_response_value published))
  unfolding root_request root_reply outcome_of
  issue-submit_published world world' draft_id s s' v draft document own rs b nonces found filed
        described same fits kept key made disk rows root read joined unrevoked known fresh =
      let (c, signed, reread, still) = issued node world draft_id s s' v draft found filed made in
      let next = issued_draft node world draft c in
      let request = request_of node world' next document (agent_registration_value c) in
      let r = root_request node world' request own in
      let sound : IsSound r =
        issued-IsSound laws times node world world' draft request own c signed key fits same refl
          refl in
      let answer =
        answered_well rs b nonces r (nonce_at (world'.now 3)) read known fresh refl refl joined
          unrevoked sound in
      let sent =
        submitted node world' draft_id s' next document own (agent_registration_value c) reread
          described refl same fits.complete (still ∙ kept) disk rows in
      (
        answer.0,
        sent
            ∙ ap (λ f. outcome_of (f r)) root
            ∙ ap (λ x. outcome_of (root_reply root_world.failure_text x)) answer.1,
      )
