-- ===== src/Registrar/Validation.antt =====
-- Which drafts of services/registrar-node/src/main.rs are valid, and which may be submitted.
use open_agenet.Base.{
  String, ◌≡◌, ◌≢◌, ◌↔◌, true, some, arith, ◌==◌, eq_iff, is_empty, ok, err, Bool-cases,
  Option-cases, Result-cases, inl, inr,
}
use open_agenet.Core.{DidDocument}
use open_agenet.Core.Documents.{validate_mvp, validate_mvp_iff, IsComplete}
use open_agenet.Crypto.{hash_json, canonical_json}
use open_agenet.Crypto.Crates.{Primitives}
use open_agenet.Json.{Value, bool, at, get, find_field, fields_of, insert_field}
use open_agenet.Registrar.{
  DraftRecord, RegisterRequest, bad_request, Store, Node, World, did_document_error_text, Reply,
  unreachable, undecodable, answered,
}
use open_agenet.Registrar.Drafts.{
  draft_errors, validate_draft_record, read_draft, mirror_sqlite_json,
}
use open_agenet.Registrar.Register.{
  outcome_of, read_own_document, root_request, request_of, write_record, register_agent,
  api_submit_draft,
}

-- A draft that has all that a registration needs.
pub record IsReady (draft : DraftRecord) : Type 0 where
  pub document : DidDocument
  pub described : draft.did_document ≡ some document
  pub same_agent : document.id ≡ draft.agent_did
  pub complete : IsComplete document
  pub credential : Value
  pub issued : draft.registration_credential ≡ some credential

draft_errors_iff : (draft : DraftRecord) → (is_empty (draft_errors draft) ≡ true) ↔ IsReady draft
unfolding draft_errors
draft_errors_iff draft = (
  λ h. elim (Option-cases draft.did_document) [
    | inl e ↦ absurd (ground (arith, e, h))
    | inr (d, e) ↦ elim (Option-cases draft.registration_credential) [
      | inl c ↦ absurd (ground (arith, e, c, h))
      | inr (credential, c) ↦ record {
        document = d;
        described = e;
        same_agent = ground (arith, e, c, h, eq_iff d.id draft.agent_did);
        complete = (validate_mvp_iff d).0 (ground (arith, e, c, h));
        credential = credential;
        issued = c;
      }
    ]
  ],
  λ r. rw r.described (
      rw r.issued (
        ground (
          arith,
          r.same_agent,
          eq_iff r.document.id draft.agent_did,
          (validate_mvp_iff r.document).1 r.complete,
        ))),
)

valid_iff :
    (draft : DraftRecord)
    → (at (validate_draft_record draft) "valid" ≡ bool true)
      ↔ (is_empty (draft_errors draft) ≡ true)
unfolding validate_draft_record at get find_field fields_of insert_field
valid_iff draft = (λ h. cc, λ h. rw h)

module _ ⦃p : Primitives⦄ (node : Node) (world : World) where
  -- The root's answers are not bad requests of the registrar.
  outcome-ne-bad_request : (reply : Reply) (e : String) → outcome_of reply ≢ err (bad_request e)
  unfolding outcome_of
  outcome-ne-bad_request unreachable e h = cc
  outcome-ne-bad_request (undecodable n) e h = cc
  outcome-ne-bad_request (answered n v) e h = ground arith

  -- A registration that passes the two checks is not refused as a bad request.
  registered :
      (r : RegisterRequest) (s : Store) (e : String)
      → (r.agent_did == r.did_document.id) ≡ true
      → validate_mvp r.did_document ≡ ok tt
      → (register_agent node world r s).0 ≢ err (bad_request e)
  unfolding register_agent write_record mirror_sqlite_json hash_json canonical_json
  registered r s e same complete h = elim (Result-cases (read_own_document node world s)) [
    | inr (f, q) ↦ ground (arith, same, complete, h, q)
    | inl (own, q) ↦
        let reply = world.publish_at_root (root_request node world r own) in
        ground (arith, same, complete, h, q, outcome-ne-bad_request reply e)
  ]

  IsReady-submit :
      (draft_id : String) (s : Store) (draft : DraftRecord) (e : String)
      → read_draft node draft_id s ≡ ok draft
      → IsReady draft
      → (api_submit_draft node world draft_id s).0 ≢ err (bad_request e)
  unfolding api_submit_draft
  IsReady-submit draft_id s draft e found r h =
      registered (request_of node world draft r.document r.credential) s e
        (ground (arith, r.same_agent, eq_iff draft.agent_did r.document.id))
        ((validate_mvp_iff r.document).1 r.complete)
        (ground (arith, found, r.described, r.issued, h))

  submit-IsReady :
      (draft_id : String) (s : Store) (draft : DraftRecord)
      → read_draft node draft_id s ≡ ok draft
      → ((e : String) → (api_submit_draft node world draft_id s).0 ≢ err (bad_request e))
      → IsReady draft
  unfolding api_submit_draft register_agent
  submit-IsReady draft_id s draft found good = elim (Option-cases draft.did_document) [
    | inl d ↦ absurd (good "draft_missing_did_document" (ground (arith, found, d)))
    | inr (document, d) ↦ elim (Option-cases draft.registration_credential) [
      | inl c ↦ absurd (good "draft_missing_registration_credential" (ground (arith, found, d, c)))
      | inr (credential, c) ↦ elim (Bool-cases (draft.agent_did == document.id)) [
        | inr other ↦ absurd (good "did_document_id_mismatch" (ground (arith, found, d, c, other)))
        | inl same ↦ elim (Result-cases (validate_mvp document)) [
          | inr (f, bad) ↦
              absurd (good (did_document_error_text f) (ground (arith, found, d, c, same, bad)))
          | inl (checked, fine) ↦ record {
            document = document;
            described = d;
            same_agent = ground (arith, eq_iff draft.agent_did document.id);
            complete = (validate_mvp_iff document).0 fine;
            credential = credential;
            issued = c;
          }
        ]
      ]
    ]
  ]

  -- A draft that can be read is called valid exactly if it has a complete document, of the draft's
  -- own agent, and a credential; and exactly then its submission is not refused as a bad request of
  -- the registrar, whatever the files, the database and the root do.
  pub api_submit_draft_iff :
      (draft_id : String) (s : Store) (draft : DraftRecord)
      → read_draft node draft_id s ≡ ok draft
      → ((at (validate_draft_record draft) "valid" ≡ bool true) ↔ IsReady draft)
        × (IsReady draft
            ↔ ((e : String) → (api_submit_draft node world draft_id s).0 ≢ err (bad_request e)))
  api_submit_draft_iff draft_id s draft found =
      let valid = valid_iff draft in
      let ready = draft_errors_iff draft in
      (
        (λ h. ready.0 (valid.0 h), λ r. valid.1 (ready.1 r)),
        (
          λ r e. IsReady-submit draft_id s draft e found r,
          λ good. submit-IsReady draft_id s draft found good,
        ),
      )
