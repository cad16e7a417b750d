-- ===== src/Tests/Runs.antt =====
-- A root node that authorizes a registrar and publishes an agent.
use open_agenet.Base.{zero, suc}
use open_agenet.Package.{AgentMetadata, VerifiedPackage}
use open_agenet.Root.{DiscoveryAuthorizationState}
use open_agenet.Root.Batches.{notify_discovery_batch}
use open_agenet.Storage.{holds}
use open_agenet.Root.Files.{read_bulletin}
use open_agenet.Root.Files.{read_bulletin}
use open_agenet.Root.Authorize.{revoke_node}
use open_agenet.Base.{ℕ, String, true, Option, none, some, List, [], ◌∷◌, Result, unwrap_or}
use open_agenet.Bulletin.{Bulletin}
use open_agenet.Core.{DidDocument, AnsMetadata, agent}
use open_agenet.Core.Tags.{nil}
use open_agenet.Json.{Value, null, string, json}
use open_agenet.Protocol.{VerifyAndPublishRequest, RootAuthorizeRequest}
use open_agenet.Root
use open_agenet.Root.{Store, Node, World, no_authorizations, VerifyResponse}
use open_agenet.Root.Authorize.{authorize_registrar}
use open_agenet.Root.Publish.{verify_and_publish}
use open_agenet.Tests.Toy.{toy}

abbrev pub registrar_did : String
registrar_did = "did:ans:AGRG:efaaaaaaaaaaaaaaaaaaaaaaaa"

abbrev pub agent_did : String
agent_did = "did:ans:AGDM:efbbbbbbbbbbbbbbbbbbbbbbbb"

-- A document whose only method is the key of the stand-in crates.
abbrev pub document : String → Option AnsMetadata → DidDocument
document did ans = record {
  context = "https://www.w3.org/ns/did/v1" ∷ [];
  id = did;
  verification_method =
      record {
        id = "k";
        method_type = "JsonWebKey2020";
        controller = did;
        public_key_multibase = none;
        public_key_jwk = some (json (("x", string ",,,,,,,,,,,,,,,,,,,,,,,,,,,,,,,,") ∷ []));
      }
      ∷ [];
  authentication = "k" ∷ [];
  assertion_method = "k" ∷ [];
  service =
      record {
        id = "s";
        service_type = "AgentInvokeService";
        service_endpoint = "http://localhost";
        version = none;
        protocol = none;
        server_type = none;
        port = none;
      }
      ∷ [];
  ans_metadata = ans;
}

abbrev pub echo_agent : AnsMetadata
echo_agent = record {
  subject = agent;
  identity_type = "service-agent";
  ttl = none;
  address_bindings = [];
  agent_description = some (record {
    capability_description = "echo";
    capability_tags = "echo" ∷ "a2a" ∷ "echo" ∷ [];
    use_case_examples = [];
  });
  service_policy = none;
  network_scope = none;
  extra = [];
}

abbrev pub node : Node ⦃p = toy⦄
node = record {
  data_store = record { root = "data" };
  paths = record {
    bulletin_file = "bulletin.json";
    authorization_state_file = "authorization.json";
    request_nonce_file = "nonces.json";
  };
  root_did = "did:ans:AGRT:efrrrrrrrrrrrrrrrrrrrrrrrr";
  signing_key = tt;
  tag_tree = record { version = 1; tags = []; tree = nil };
  has_sqlite = true;
  authorization_state = no_authorizations;
}

abbrev pub world : World
world = record {
  now = λ k. k;
  disk = λ path. true;
  database = λ namespace. true;
  failure_text = λ f. "failure";
}

abbrev pub empty_store : Store
empty_store = record {
  bulletin_file = none;
  authorization_file = none;
  nonce_file = none;
  latest_file = none;
  cdn_queue_file = none;
  discovery_queue_file = none;
  documents = [];
  metadata = [];
  packages = [];
  histories = [];
  package_rows = [];
  value_rows = [];
}

abbrev pub joining : RootAuthorizeRequest
joining = record {
  target_did = registrar_did;
  target_role = "registrar";
  did_document = document registrar_did none;
}

-- The store once the registrar is authorized.
abbrev pub joined_store : Store
joined_store = (authorize_registrar node world joining empty_store).1

-- The proof value is what the stand-in key signs.
abbrev pub credential : String → Value
credential proof_value = json (
    ("type", string "AgentRegistrationCredential")
    ∷ ("issuer", string registrar_did)
    ∷ ("subject", string agent_did)
    ∷ ("status", string "active")
    ∷ ("issuedAt", string "a")
    ∷ ("claims", null)
    ∷ (
      "proof",
      json (
          ("type", string "Ed25519Signature2020")
          ∷ ("creator", string "k")
          ∷ ("created", string "a")
          ∷ ("proofPurpose", string "assertionMethod")
          ∷ ("proofValue", string proof_value)
          ∷ []),
    )
    ∷ [])

abbrev pub request : String → VerifyAndPublishRequest
request nonce = record {
  registrar_did = registrar_did;
  registrar_did_document = document registrar_did none;
  agent_did = agent_did;
  did_document = document agent_did (some echo_agent);
  metadata = null;
  registration_credential = credential "aaa,";
  request_timestamp = none;
  request_nonce = some nonce;
  request_signature = none;
}

abbrev pub first : Result Root.ApiError VerifyResponse × Store
first = verify_and_publish node world (request "n") joined_store

abbrev pub no_answer : VerifyResponse
no_answer = record {
  status = "";
  operation = "";
  agent_did = "";
  did_document_hash = "";
  metadata_hash = "";
  document_version = 0;
  bulletin_sequence = 0;
  bulletin_event_hash = "";
  cdn_dispatch_status = "";
  discovery_notify_status = "";
}

abbrev pub first_answer : VerifyResponse
first_answer = unwrap_or first.0 no_answer

abbrev pub no_bulletin : Bulletin
no_bulletin = record { version = "0.1.0"; root_did = node.root_did; created_at = 0; events = [] }

abbrev pub joined_bulletin : Bulletin
joined_bulletin = unwrap_or (read_bulletin node 0 joined_store) no_bulletin

abbrev pub first_bulletin : Bulletin
first_bulletin = unwrap_or (read_bulletin node 0 first.1) no_bulletin

-- The same document with another nonce.
abbrev pub second : Result Root.ApiError VerifyResponse × Store
second = verify_and_publish node world (request "m") first.1

abbrev pub second_answer : VerifyResponse
second_answer = unwrap_or second.0 no_answer

abbrev pub revoking : Result Root.ApiError Value × Store
revoking = revoke_node node world registrar_did null joined_store

abbrev pub echo_metadata : AgentMetadata
echo_metadata = record {
  did = agent_did;
  role = "Service Agent";
  identity_type = "service-agent";
  did_document_hash = "598";
  capability_tags = "a2a" ∷ "echo" ∷ [];
  services = (document agent_did none).service;
  status = "active";
  updated_at = 2;
}

abbrev pub echo_package : String → VerifiedPackage
echo_package version = record {
  package_version = version;
  did = agent_did;
  did_document = document agent_did (some echo_agent);
  did_document_hash = "598";
  metadata_hash = none;
  metadata = echo_metadata;
  root_proof = record { root_did = node.root_did; bulletin_event_hash = none; signature = none };
  created_at = 0;
}

-- A queue of 101 items without tags, and a discovery node that is told of everything.
abbrev copies : ℕ → List Value
copies zero = []
copies (suc n) = null ∷ copies n

abbrev pub many_items : List Value
many_items = copies 101

abbrev pub everywhere : DiscoveryAuthorizationState
everywhere = record {
  status = "active";
  updated_at = 0;
  did_document_hash = "";
  authorized_domains = "*" ∷ [];
  tag_tree_version = 1;
}

abbrev pub waiting_store : Store
waiting_store = record empty_store {
  discovery_queue_file = some (holds many_items);
  authorization_file =
      some (holds (record no_authorizations { discovery_nodes = ("did", everywhere) ∷ [] }));
}

abbrev pub notifying : Result Root.ApiError Value × Store
notifying = notify_discovery_batch node world waiting_store

abbrev pub notified_answer : Value
notified_answer = unwrap_or notifying.0 null
