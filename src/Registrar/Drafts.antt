-- ===== src/Registrar/Drafts.antt =====
-- The drafts of services/registrar-node/src/main.rs: creating, changing and checking them, and
-- issuing the credential of the registration.
use Prim.Native.String.{◌++◌}
use open_agenet.Base.{
  ℕ, ◌/◌, code, Char, String, Bool, true, false, not, Option, none, some, List, [], ◌∷◌, ◌==◌,
  is_empty, Result, ok, err, map_err, unwrap_or, if◌then◌else◌,
}
use mathlib.Core.Option
use open_agenet.Base.Action.{Action, pure, lift, gets, reads, attempt, ◌>>=◌, ◌>>◌}
use open_agenet.Base.Maps.{insert}
use open_agenet.Base.Texts.{decimal, map_chars}
use open_agenet.Core.{DidDocument}
use open_agenet.Core.Documents.{validate_mvp}
use open_agenet.Core.Json.{did_document_value}
use open_agenet.Credentials.{
  AgentRegistrationCredential, unsigned_agent_registration, sign_agent_registration,
  agent_registration_value,
}
use open_agenet.Crypto.Crates.{Primitives}
use open_agenet.Json.{Time, Value, bool, string, object, end, json, texts, optional, get, as_str}
use open_agenet.Storage.{io, sqlite, holds, is_safe, or_else, resolve, read}
use open_agenet.Storage.Sqlite.{upsert_json}
use open_agenet.Registrar.{
  DraftRecord, storage, credential, ApiError, bad_request, internal, Store, Node, World,
  did_document_error_text, non_null,
}

abbrev safe_char : Char → Char
safe_char c = if is_safe (code c) then c else "_"

unfoldable pub storage_safe_id : String → String
storage_safe_id value = map_chars safe_char value

abbrev pub draft_path : String → String
draft_path draft_id = "drafts/" ++ (storage_safe_id draft_id ++ ".json")

-- `timestamp_millis`.
abbrev pub millis : Time → ℕ
millis t = t / 1_000_000

-- `payload.get(..).and_then(Value::as_str)`.
abbrev pub text_at : Value → String → Option String
text_at v key = elim (get v key) [ none ↦ none | some w ↦ as_str w ]

-- `{}`.
abbrev pub empty_object : Value
empty_object = object end

-- `is_none`.
abbrev pub is_none {ℓ} : {A : Type ℓ} → Option A → Bool
is_none none = true
is_none (some a) = false

abbrev pub document_id : Option DidDocument → Option String
document_id document = Option.map (λ d. d.id) document

-- `unwrap_or`.
abbrev pub or_default {ℓ} : {A : Type ℓ} → Option A → A → A
or_default none b = b
or_default (some a) b = a

-- The tags that the credential claims: those of the document's description, if there is one.
abbrev pub tags_of_document : DidDocument → List String
tags_of_document d = elim d.ans_metadata [
  | none ↦ []
  | some metadata ↦ elim metadata.agent_description [
    | none ↦ []
    | some description ↦ description.capability_tags
  ]
]

abbrev pub claimed_tags : Option DidDocument → List String
claimed_tags none = []
claimed_tags (some d) = tags_of_document d

-- The errors of `validate_draft_record`, in the order in which they are pushed: those of the
-- document, and then `rest`.
abbrev pub structure_errors : DidDocument → List String → List String
structure_errors d rest = elim (validate_mvp d) [
  | ok _ ↦ rest
  | err e ↦ did_document_error_text e ∷ rest
]

abbrev pub document_errors : String → Option DidDocument → List String → List String
document_errors did none rest = "missing_did_document" ∷ rest
document_errors did (some d) rest =
    if not (d.id == did)
    then "did_document_id_mismatch" ∷ structure_errors d rest
    else structure_errors d rest

unfoldable pub draft_errors : DraftRecord → List String
draft_errors draft =
    document_errors draft.agent_did draft.did_document
      (if is_none draft.registration_credential then "missing_registration_credential" ∷ [] else [])

unfoldable pub validate_draft_record : DraftRecord → Value
unfolding draft_errors
validate_draft_record draft =
    json (
      ("valid", bool (is_empty (draft_errors draft))) ∷ ("errors", texts (draft_errors draft)) ∷ [])

-- The derived `Deserialize` after the derived `Serialize`: a credential that is null is no
-- credential once it has been in a file.
abbrev pub stored : DraftRecord → DraftRecord
stored draft = record draft { registration_credential = non_null draft.registration_credential }

module _ ⦃p : Primitives⦄ where
  open p use {time_text}

  -- The derived `Serialize`.
  unfoldable pub draft_value : DraftRecord → Value
  draft_value draft = json (
      ("draftId", string draft.draft_id)
      ∷ ("agentDid", string draft.agent_did)
      ∷ ("didDocument", optional did_document_value draft.did_document)
      ∷ ("registrationCredential", optional (λ v. v) draft.registration_credential)
      ∷ ("metadata", draft.metadata)
      ∷ ("status", string draft.status)
      ∷ ("createdAt", string (time_text draft.created_at))
      ∷ ("updatedAt", string (time_text draft.updated_at))
      ∷ [])

  module _ (node : Node) where
    unfoldable pub read_draft : String → Store → Result ApiError DraftRecord
    read_draft draft_id s =
        map_err (λ _. bad_request "draft_not_found")
          (read node.data_store (draft_path draft_id) s.drafts)

    module _ (world : World) where
      unfoldable pub write_draft : DraftRecord → Action Store ApiError (Unit {0})
      write_draft draft =
          let path = resolve node.data_store (draft_path draft.draft_id) in
          attempt (world.disk path) (internal (storage io))
            (λ s. record s { drafts = insert path (holds (stored draft)) s.drafts })

      -- The time is that of the row.
      unfoldable pub mirror_sqlite_json :
          Time → (namespace key : String) → Value → Action Store ApiError (Unit {0})
      mirror_sqlite_json at_row namespace key value =
          if node.has_sqlite
          then attempt (world.database namespace) (internal (storage sqlite))
              (λ s. record s { rows = upsert_json at_row namespace key value s.rows })
          else pure tt

      -- The two writes with which a handler ends.
      abbrev pub save_draft : Time → DraftRecord → Action Store ApiError (Unit {0})
      save_draft at_row draft =
          write_draft draft
          >> mirror_sqlite_json at_row "registrar.drafts" draft.draft_id (draft_value draft)

      -- The draft that a payload describes. The clock is read once.
      unfoldable pub draft_of : Time → Value → DraftRecord
      draft_of now payload =
          let document : Option DidDocument = elim (get payload "didDocument") [
            | none ↦ none
            | some v ↦ world.document_of_value v
          ] in
          record {
            draft_id = or_default (text_at payload "draftId") ("draft-" ++ decimal (millis now));
            agent_did =
                or_default (or_else (text_at payload "agentDid") (document_id document))
                  ("draft-agent-" ++ decimal (millis now));
            did_document = document;
            registration_credential = get payload "registrationCredential";
            metadata = or_default (get payload "metadata") empty_object;
            status = "draft";
            created_at = now;
            updated_at = now;
          }

      unfoldable pub api_create_draft : Value → Action Store ApiError Value
      unfolding draft_of
      api_create_draft payload = do
        let draft = draft_of (world.now 0) payload
        save_draft (world.now 1) draft
        pure (json (("status", string "created") ∷ ("draft", draft_value draft) ∷ []))

      -- The draft that `api_update_draft` starts with where none can be read.
      abbrev pub new_draft : String → Value → DraftRecord
      new_draft draft_id payload = record {
        draft_id = draft_id;
        agent_did = or_default (text_at payload "agentDid") "unknown";
        did_document = none;
        registration_credential = none;
        metadata = empty_object;
        status = "draft";
        created_at = world.now 0;
        updated_at = world.now 1;
      }

      abbrev pub with_agent_did : Value → DraftRecord → DraftRecord
      with_agent_did payload draft = record draft {
        agent_did = or_default (text_at payload "agentDid") draft.agent_did;
      }

      -- A document in the payload replaces the old one, also by none if it cannot be read.
      abbrev pub with_document : Value → DraftRecord → DraftRecord
      with_document payload draft = elim (get payload "didDocument") [
        | none ↦ draft
        | some v ↦ record draft {
          did_document = world.document_of_value v;
          agent_did = or_default (document_id (world.document_of_value v)) draft.agent_did;
        }
      ]

      abbrev pub with_credential : Value → DraftRecord → DraftRecord
      with_credential payload draft = elim (get payload "registrationCredential") [
        | none ↦ draft
        | some v ↦ record draft { registration_credential = some v }
      ]

      abbrev pub with_metadata : Value → DraftRecord → DraftRecord
      with_metadata payload draft = record draft {
        metadata = or_default (get payload "metadata") draft.metadata;
      }

      unfoldable pub changed : Value → DraftRecord → DraftRecord
      changed payload draft =
          record (with_metadata payload
            (with_credential payload (with_document payload (with_agent_did payload draft)))) {
              updated_at = world.now 2;
            }

      unfoldable pub api_update_draft : String → Value → Action Store ApiError Value
      unfolding changed
      api_update_draft draft_id payload = do
        before ← gets (λ s. unwrap_or (read_draft draft_id s) (new_draft draft_id payload))
        let draft = changed payload before
        save_draft (world.now 3) draft
        pure (json (("status", string "updated") ∷ ("draft", draft_value draft) ∷ []))

      unfoldable pub api_validate_draft : String → Action Store ApiError Value
      api_validate_draft draft_id = do
        draft ← reads (read_draft draft_id)
        pure
            (json (("draftId", string draft_id) ∷ ("validation", validate_draft_record draft) ∷ []))

      abbrev pub registration_claims : Option DidDocument → Value
      registration_claims document = json (
          ("capabilityTags", texts (claimed_tags document))
          ∷ ("assistedBy", string "registrar-capability-tree")
          ∷ ("registrationFlow", string "draft-confirm-submit")
          ∷ [])

      -- The credential that is issued for a draft; the clock is read for its issue (0) and for its
      -- proof (1).
      unfoldable pub issued_credential : DraftRecord → Result ApiError AgentRegistrationCredential
      issued_credential draft =
          map_err (λ e. internal (credential e))
            (sign_agent_registration (world.now 1)
              (unsigned_agent_registration (world.now 0) node.did draft.agent_did
                (registration_claims draft.did_document))
              (node.did ++ "#key-1") node.signing_key)

      abbrev pub issued_draft : DraftRecord → AgentRegistrationCredential → DraftRecord
      issued_draft draft signed = record draft {
        registration_credential = some (agent_registration_value signed);
        status = "credential-issued";
        updated_at = world.now 2;
      }

      unfoldable pub api_issue_registration_credential : String → Action Store ApiError Value
      unfolding issued_credential
      api_issue_registration_credential draft_id = do
        draft ← reads (read_draft draft_id)
        signed ← lift (issued_credential draft)
        save_draft (world.now 3) (issued_draft draft signed)
        pure (
            json
              (("status", string "issued") ∷ ("credential", agent_registration_value signed) ∷ []))
