-- ===== src/Root.antt =====
-- services/root-node/src/main.rs: the state of the root node. `Store` is what its handlers change,
-- a field for each file (the configured paths are taken to be different files) and the rows of the
-- SQLite table by what they hold; `Node` is the part of `AppState` that does not change; `World` is
-- the clock, read for the k-th time in a handler, and which writes and statements go through.
pub mod Files
pub mod Events
pub mod Requests
pub mod Publish
pub mod Authorize
pub mod Urls
pub mod Batches
pub mod Steps
pub mod Reads
use open_agenet.Base.{ℕ, String, Bool, Option, none, List, []}
use open_agenet.Base.Maps.{Map}
use open_agenet.Bulletin.{BulletinError, Bulletin}
use open_agenet.Core.{DidDocument}
use open_agenet.Core.Tags.{CapabilityTagTree}
use open_agenet.Crypto.{CryptoError}
use open_agenet.Crypto.Crates.{Primitives}
use open_agenet.Json.{Time, Value}
use open_agenet.Package.{AgentMetadata, VerifiedPackage}
use open_agenet.Storage.{StorageError, Disk, File, JsonStore}
use open_agenet.Storage
use open_agenet.Storage.Sqlite.{Row}

pub record NodeAuthorizationState : Type 0 where
  pub status : String
  pub updated_at : Time
  pub did_document_hash : String

pub record DiscoveryAuthorizationState : Type 0 where
  pub status : String
  pub updated_at : Time
  pub did_document_hash : String
  pub authorized_domains : List String
  pub tag_tree_version : ℕ

pub record AuthorizationState : Type 0 where
  pub registrars : Map NodeAuthorizationState
  pub discovery_nodes : Map DiscoveryAuthorizationState
  pub vc_issuers : Map NodeAuthorizationState

abbrev pub no_authorizations : AuthorizationState
no_authorizations = record { registrars = []; discovery_nodes = []; vc_issuers = [] }

pub record RequestNonceStore : Type 0 where
  pub nonces : Map Time

-- What `anyhow::Error` carries here.
pub data Failure : Type 0 where
  storage : StorageError → Failure
  crypto : CryptoError → Failure
  bulletin : BulletinError → Failure
  message : String → Failure

pub data ApiError : Type 0 where
  bad_request : String → ApiError
  internal : Failure → ApiError

pub record VerifyResponse : Type 0 where
  pub status : String
  pub operation : String
  pub agent_did : String
  pub did_document_hash : String
  pub metadata_hash : String
  pub document_version : ℕ
  pub bulletin_sequence : ℕ
  pub bulletin_event_hash : String
  pub cdn_dispatch_status : String
  pub discovery_notify_status : String

pub record Store : Type 0 where
  pub bulletin_file : Option (File Bulletin)
  pub authorization_file : Option (File AuthorizationState)
  pub nonce_file : Option (File RequestNonceStore)
  pub latest_file : Option (File (Map Value))
  pub cdn_queue_file : Option (File (List VerifiedPackage))
  pub discovery_queue_file : Option (File (List Value))
  pub documents : Storage.Files DidDocument
  pub metadata : Storage.Files AgentMetadata
  pub packages : Storage.Files VerifiedPackage
  pub histories : Storage.Files (List Value)
  pub package_rows : List (Row VerifiedPackage)
  pub value_rows : List (Row Value)

-- `Config`, as far as the handlers read it.
pub record PathConfig : Type 0 where
  pub bulletin_file : String
  pub authorization_state_file : String
  pub request_nonce_file : String

pub record Node ⦃p : Primitives⦄ : Type 0 where
  pub data_store : JsonStore
  pub paths : PathConfig
  pub root_did : String
  pub signing_key : p.SigningKey
  pub tag_tree : CapabilityTagTree
  pub has_sqlite : Bool
  pub authorization_state : AuthorizationState

pub record World : Type 0 where
  pub now : ℕ → Time
  pub disk : Disk
  pub database : Disk
  pub failure_text : Failure → String
