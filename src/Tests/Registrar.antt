-- ===== src/Tests/Registrar.antt =====
-- Runs of the registrar node, with the root of Tests/Runs behind it.
use open_agenet.Crypto.{verifying_key_from_bytes, verifying_key_from_public_key_jwk}
use open_agenet.Did.{parse}
use open_agenet.Base.Texts.{split_colon}
use open_agenet.Core.Documents.{validate_mvp}
use open_agenet.Credentials.{proof_payload_hash, sign_agent_registration, sign_credential}
use open_agenet.Crypto.{canonical_json, hash_json}
use open_agenet.Registrar.Drafts.{mirror_sqlite_json, storage_safe_id, write_draft}
use open_agenet.Storage.{read, resolve}
use open_agenet.Base.Maps.{insert, lookup}
use open_agenet.Json.{fields_of, get}
use open_agenet.Base.Texts.{is_alphanumeric}
use open_agenet.Registrar.{non_null}
use open_agenet.Base.{
  String, ◌≡◌, refl, ◌≢◌, ◌↔◌, true, none, some, [], ◌∷◌, ok, err, Result, Some, here, there,
  unwrap_or,
}
use open_agenet.Json.{Value, null, string, json, bool, at}
use open_agenet.Registrar.{DraftRecord, RegisterRequest, ApiError, bad_request, Store, Node, World}
use open_agenet.Registrar.Drafts.{
  read_draft, api_create_draft, api_issue_registration_credential, validate_draft_record,
}
use open_agenet.Registrar.Filed.{create, issue, IsFiled, handle, serve, serve-IsFiled}
use open_agenet.Registrar.Issued.{IsAgentDocument}
use open_agenet.Registrar.Published.{root_reply, verify_response_value, issue-submit_published}
use open_agenet.Registrar.Recorded.{passes, register_agent-records}
use open_agenet.Registrar.Register.{record_of, register_agent, api_submit_draft}
use open_agenet.Storage.{resolve, did_to_file_name}
use open_agenet.Crypto.{sha256_hex, canonical_json_value}
use open_agenet.Core.Json.{did_document_value}
use open_agenet.Base.{◌&&◌, ◌==◌, if◌then◌else◌}
use open_agenet.Registrar.Validation.{IsReady, api_submit_draft_iff}
use open_agenet.Root
use open_agenet.Root.{VerifyResponse}
use open_agenet.Root.Files.{read_bulletin, load_nonce_store}
use open_agenet.Root.Requests.{verify_issuer_key}
use open_agenet.Root.Requests.Checks.{IsAbout}
use open_agenet.Bulletin.{Bulletin, registrar_authorized, registrar_revoked}
use open_agenet.Root.Publish.{verify_and_publish}
use open_agenet.Storage.{holds}
use open_agenet.Tests.Runs
use open_agenet.Tests.Runs.{registrar_did, agent_did, document, echo_agent}
use open_agenet.Tests.Toy.{toy, toy-SigningLaws, toy-TimeLaws}

abbrev joined_bulletin : Bulletin
joined_bulletin = record {
  version = "0.1.0";
  root_did = Runs.node.root_did;
  created_at = 0;
  events =
      record {
        core = record {
          sequence = 1;
          previous_hash = none;
          event_type = registrar_authorized;
          subject_did = registrar_did;
          actor_did = Runs.node.root_did;
          payload = null;
          created_at = 0;
        };
        event_hash = "h";
        signature = "s";
      }
      ∷ [];
}

abbrev root_store : Root.Store
root_store = record Runs.empty_store { bulletin_file = some (holds joined_bulletin) }

abbrev node : Node ⦃p = toy⦄
node = record {
  data_store = record { root = "data" };
  records_store = record { root = "records" };
  did = registrar_did;
  signing_key = tt;
  root_endpoint = "http://root";
  has_sqlite = true;
}

abbrev world : World
world = record {
  now = λ k. k;
  disk = λ path. true;
  database = λ namespace. true;
  document_of_value = λ v. some (document agent_did (some echo_agent));
  publish_at_root = λ r.
      root_reply Runs.world.failure_text (verify_and_publish Runs.node Runs.world r root_store).0;
}

abbrev empty_store : Store
empty_store = record {
  own_document = some (holds (document registrar_did none));
  drafts = [];
  records = [];
  rows = [];
}

abbrev payload : Value
payload = json (
    ("draftId", string "d")
    ∷ ("agentDid", string agent_did)
    ∷ ("didDocument", null)
    ∷ ("metadata", null)
    ∷ [])

abbrev created : Store
created = (api_create_draft node world payload empty_store).1

abbrev draft : DraftRecord
draft = record {
  draft_id = "d";
  agent_did = agent_did;
  did_document = some (document agent_did (some echo_agent));
  registration_credential = none;
  metadata = null;
  status = "draft";
  created_at = 0;
  updated_at = 0;
}

created_draft : read_draft node "d" created ≡ ok draft
unfolding read_draft read lookup api_create_draft write_draft mirror_sqlite_json insert resolve
    storage_safe_id get fields_of is_alphanumeric non_null
created_draft = refl

abbrev issuing : Result ApiError Value × Store
issuing = api_issue_registration_credential node world "d" created

abbrev issued_value : Value
issued_value = unwrap_or issuing.0 null

issuing_ok : issuing ≡ (ok issued_value, issuing.1)
unfolding api_issue_registration_credential read_draft read lookup api_create_draft write_draft
    mirror_sqlite_json insert resolve storage_safe_id get fields_of is_alphanumeric
    sign_agent_registration sign_credential proof_payload_hash hash_json canonical_json
issuing_ok = refl

agent_document : IsAgentDocument ⦃p = toy⦄ (document agent_did (some echo_agent))
unfolding parse split_colon is_alphanumeric validate_mvp
agent_document = record {
  parsed = record {
    value = agent_did;
    semantic_code = "AGDM";
    suffix = "efbbbbbbbbbbbbbbbbbbbbbbbb";
  };
  identifier = refl;
  complete = refl;
  ans = echo_agent;
  described = refl;
  of_agent = refl;
  reachable = λ h. cc;
}

unrevoked : ¬ Some (IsAbout registrar_did registrar_revoked) joined_bulletin.events
unrevoked (here (p, q)) = cc
unrevoked (there s) = elim s [ ]

empty-IsFiled : IsFiled ⦃p = toy⦄ node empty_store
unfolding lookup
empty-IsFiled path other h = cc

serve-IsFiled_example :
    IsFiled ⦃p = toy⦄ node
      (serve node ((world, create payload) ∷ (world, issue "d") ∷ []) empty_store)
serve-IsFiled_example =
    serve-IsFiled ⦃p = toy⦄ node ((world, create payload) ∷ (world, issue "d") ∷ []) empty_store
      empty-IsFiled

created-IsFiled : IsFiled ⦃p = toy⦄ node created
unfolding serve handle
created-IsFiled =
    serve-IsFiled ⦃p = toy⦄ node ((world, create payload) ∷ []) empty_store empty-IsFiled

own_key : verify_issuer_key ⦃p = toy⦄ (document registrar_did none) ≡ ok tt
unfolding verify_issuer_key verifying_key_from_public_key_jwk get fields_of verifying_key_from_bytes
own_key = refl

root_read : read_bulletin ⦃p = toy⦄ Runs.node 1 root_store ≡ ok joined_bulletin
unfolding read_bulletin
root_read = refl

no_nonces : load_nonce_store root_store ≡ ok (record { nonces = [] })
unfolding load_nonce_store
no_nonces = refl

issue-submit_published_example :
    (published : VerifyResponse) × ((api_submit_draft ⦃p = toy⦄ node world "d" issuing.1).0
      ≡ ok (verify_response_value published))
unfolding api_create_draft write_draft mirror_sqlite_json lookup
issue-submit_published_example =
    issue-submit_published ⦃p = toy⦄ toy-SigningLaws toy-TimeLaws node Runs.node Runs.world world
      world "d" created issuing.1 issued_value draft (document agent_did (some echo_agent))
      (document registrar_did none) root_store joined_bulletin (record { nonces = [] })
      created_draft created-IsFiled refl refl agent_document refl own_key issuing_ok refl refl refl
      root_read (here (refl, refl)) unrevoked no_nonces refl

api_submit_draft_iff_example :
    ((at (validate_draft_record draft) "valid" ≡ bool true) ↔ IsReady draft)
    × (IsReady draft ↔ (
        (e : String) → (api_submit_draft ⦃p = toy⦄ node world "d" created).0 ≢ err (bad_request e)))
api_submit_draft_iff_example =
    api_submit_draft_iff ⦃p = toy⦄ node world "d" created draft created_draft

abbrev registration : RegisterRequest
registration = record {
  agent_did = agent_did;
  did_document = document agent_did (some echo_agent);
  registration_credential = null;
  metadata = null;
}

abbrev record_path : String
record_path = "records/did_ans_AGDM_efbbbbbbbbbbbbbbbbbbbbbbbb.json"

-- The root refuses the registration, since it carries no credential; the record stays.
register_agent-records_example :
    (lookup record_path (register_agent ⦃p = toy⦄ node world registration empty_store).1.records ≡ (
      if passes registration
        && (world.disk (resolve node.records_store (did_to_file_name agent_did))
            && resolve node.records_store (did_to_file_name agent_did) == record_path)
      then some (
          holds (
            record_of ⦃p = toy⦄ node world (world.now 0) registration (
              sha256_hex ⦃p = toy⦄
                (canonical_json_value ⦃p = toy⦄ (did_document_value registration.did_document)))))
      else lookup record_path empty_store.records))
    × ((register_agent ⦃p = toy⦄ node world registration empty_store).1.drafts ≡ empty_store.drafts)
register_agent-records_example =
    register_agent-records ⦃p = toy⦄ node world registration empty_store record_path
