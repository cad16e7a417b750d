-- ===== src/Protocol.antt =====
-- crates/oan-protocol/src/lib.rs: the bodies of requests and responses between the nodes.
use open_agenet.Base.{ℕ, String, Option, List, [], ◌∷◌, ◌++◌}
use open_agenet.Core.Json.{natural, present}
use open_agenet.Core.{DidDocument, ServiceEndpoint}
use open_agenet.Json.{Time, Value, string, json, texts}

pub record HealthResponse : Type 0 where
  pub status : String
  pub node_type : String
  pub did : Option String

pub record VerifyAndPublishRequest : Type 0 where
  pub registrar_did : String
  pub registrar_did_document : DidDocument
  pub agent_did : String
  pub did_document : DidDocument
  pub metadata : Value
  pub registration_credential : Value
  pub request_timestamp : Option Time
  pub request_nonce : Option String
  pub request_signature : Option String

pub record RootAuthorizeRequest : Type 0 where
  pub target_did : String
  pub target_role : String
  pub did_document : DidDocument

pub record DiscoveryResponseProof : Type 0 where
  pub proof_type : String
  pub creator : String
  pub created : Time
  pub proof_purpose : String
  pub proof_value : String

-- The limit is a `u32`.
pub record DiscoveryQuery : Type 0 where
  pub capability_tags : List String
  pub service_type : Option String
  pub protocol : Option String
  pub limit : ℕ

-- The derived `Serialize`.
unfoldable pub query_value : DiscoveryQuery → Value
query_value q = json (
    ("capabilityTags", texts q.capability_tags)
    ∷ (present "serviceType" string q.service_type
        ++ (present "protocol" string q.protocol ++ (("limit", natural q.limit) ∷ []))))

-- The score is an `f32`; see Discovery/Query.antt for its quarters.
pub record DiscoveryCandidate : Type 0 where
  pub did : String
  pub score : ℕ
  pub capability_tags : List String
  pub services : List ServiceEndpoint

pub record DiscoveryResponse : Type 0 where
  pub discovery_did : String
  pub candidates : List DiscoveryCandidate
  pub created_at : Time
  pub signature : String
  pub proof : Option DiscoveryResponseProof
