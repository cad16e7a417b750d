-- ===== src/Registrar.antt =====
-- services/registrar-node/src/main.rs: the state of the registrar node. `Store` is what its handlers
-- read and change, a field for each kind of file (the draft files, the record files and the node's
-- own document are taken to be different files) and the rows of its SQLite table; `Node` is the part
-- of `AppState` that does not change; `World` is the clock, which writes go through, what serde
-- reads from a value, and what the root node answers.
pub mod Drafts
pub mod Register
pub mod Validation
pub mod Issued
pub mod Stored
pub mod Published
pub mod Recorded
pub mod Reads
pub mod Filed
use open_agenet.Base.{ℕ, String, Bool, Option, none, some, List}
use open_agenet.Core.{DidDocument}
use open_agenet.Core.Documents.{
  DidDocumentError, empty_id, missing_did_core_context, missing_verification_method,
  missing_authentication, missing_assertion_method,
}
use open_agenet.Credentials.{CredentialError}
use open_agenet.Crypto.{CryptoError}
use open_agenet.Crypto.Crates.{Primitives}
use open_agenet.Json.{Time, Value, null}
use open_agenet.Protocol.{VerifyAndPublishRequest}
use open_agenet.Storage.{StorageError, Disk, File, Files, JsonStore}
use open_agenet.Storage.Sqlite.{Row}

pub record DraftRecord : Type 0 where
  pub draft_id : String
  pub agent_did : String
  pub did_document : Option DidDocument
  pub registration_credential : Option Value
  pub metadata : Value
  pub status : String
  pub created_at : Time
  pub updated_at : Time

pub record RegisterRequest : Type 0 where
  pub agent_did : String
  pub did_document : DidDocument
  pub registration_credential : Value
  pub metadata : Value

-- What `anyhow::Error` carries here; `http` is an error of reqwest.
pub data Failure : Type 0 where
  storage : StorageError → Failure
  crypto : CryptoError → Failure
  credential : CredentialError → Failure
  http : Failure

-- An answer of the root that is no success is passed on: its status code, and the body, of which
-- the message is the text.
pub data ApiError : Type 0 where
  bad_request : String → ApiError
  internal : Failure → ApiError
  passed_on : ℕ → Value → ApiError

pub record Store : Type 0 where
  pub own_document : Option (File DidDocument)
  pub drafts : Files DraftRecord
  pub records : Files Value
  pub rows : List (Row Value)

pub record Node ⦃p : Primitives⦄ : Type 0 where
  pub data_store : JsonStore
  pub records_store : JsonStore
  pub did : String
  pub signing_key : p.SigningKey
  pub root_endpoint : String
  pub has_sqlite : Bool

-- What comes back for an HTTP request: nothing, a body that is no JSON, or a status and a body.
pub data Reply : Type 0 where
  unreachable : Reply
  undecodable : ℕ → Reply
  answered : ℕ → Value → Reply

pub record World : Type 0 where
  pub now : ℕ → Time
  pub disk : Disk
  pub database : Disk
  pub document_of_value : Value → Option DidDocument
  pub publish_at_root : VerifyAndPublishRequest → Reply

-- The messages of `DidDocumentError`.
unfoldable pub did_document_error_text : DidDocumentError → String
did_document_error_text empty_id = "did document id is empty"
did_document_error_text missing_did_core_context =
    "did document context must include https://www.w3.org/ns/did/v1"
did_document_error_text missing_verification_method =
    "did document must include at least one verification method"
did_document_error_text missing_authentication =
    "did document must include at least one authentication method"
did_document_error_text missing_assertion_method =
    "did document must include at least one assertion method"

-- What serde reads back from a draft's file: a field of type `Option<Value>` that was written as
-- null is read as `None`.
unfoldable pub non_null : Option Value → Option Value
non_null none = none
non_null (some null) = none
non_null (some v) = some v
