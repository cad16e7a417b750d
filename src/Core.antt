-- ===== src/Core.antt =====
-- crates/oan-core/src/lib.rs: the types that the services share.
pub mod Documents
pub mod Tags
pub mod Json
use open_agenet.Base.{ℕ, String, Bool, true, false, Option, List}
use open_agenet.Base.Maps.{Map}
use open_agenet.Json.{Value}

pub data SubjectType : Type 0 where
  agent infrastructure_node : SubjectType

pub data NodeRole : Type 0 where
  root registrar discovery service_agent user_agent test_agent : NodeRole

unfoldable pub semantic_code : NodeRole → String
semantic_code root = "AGRT"
semantic_code registrar = "AGRG"
semantic_code discovery = "AGDS"
semantic_code service_agent = "AGDM"
semantic_code user_agent = "AGUS"
semantic_code test_agent = "AGTS"

unfoldable pub subject_type : NodeRole → SubjectType
subject_type service_agent = agent
subject_type user_agent = agent
subject_type test_agent = agent
subject_type root = infrastructure_node
subject_type registrar = infrastructure_node
subject_type discovery = infrastructure_node

-- The derived `==`.
unfoldable pub is_agent : SubjectType → Bool
is_agent agent = true
is_agent infrastructure_node = false

pub record VerificationMethod : Type 0 where
  pub id : String
  pub method_type : String
  pub controller : String
  pub public_key_multibase : Option String
  pub public_key_jwk : Option Value

-- A port is a `u16`.
pub record ServiceEndpoint : Type 0 where
  pub id : String
  pub service_type : String
  pub service_endpoint : String
  pub version : Option String
  pub protocol : Option String
  pub server_type : Option String
  pub port : Option ℕ

pub record AddressBinding : Type 0 where
  pub id : String
  pub address_type : String
  pub network : String
  pub address : String
  pub controller : String
  pub purpose : String

pub record AgentDescription : Type 0 where
  pub capability_description : String
  pub capability_tags : List String
  pub use_case_examples : List String

-- The time to live is a `u64`.
pub record AnsMetadata : Type 0 where
  pub subject : SubjectType
  pub identity_type : String
  pub ttl : Option ℕ
  pub address_bindings : List AddressBinding
  pub agent_description : Option AgentDescription
  pub service_policy : Option String
  pub network_scope : Option String
  pub extra : Map Value

pub record DidDocument : Type 0 where
  pub context : List String
  pub id : String
  pub verification_method : List VerificationMethod
  pub authentication : List String
  pub assertion_method : List String
  pub service : List ServiceEndpoint
  pub ans_metadata : Option AnsMetadata
