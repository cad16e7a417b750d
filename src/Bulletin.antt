-- ===== src/Bulletin.antt =====
-- crates/oan-bulletin/src/lib.rs: the signed hash chain of the root's events.
pub mod Chain
pub mod Growth
use open_agenet.Base.{
  ℕ, ◌+◌, String, Bool, true, false, Option, none, some, List, [], ◌∷◌, eqb, ◌==◌, same_text,
  Result, ok, err, ◌>>=◌, ◌>>◌, require, map_err, map,
}
use open_agenet.Json.{
  Time, Value, string, json, optional, Serialize, number, unsigned, array, items,
}
use open_agenet.Crypto.{CryptoError, hash_json, sign_bytes, verify_bytes}
use open_agenet.Crypto.Crates.{Primitives}

pub data BulletinError : Type 0 where
  crypto : CryptoError → BulletinError
  sequence_mismatch : (index expected actual : ℕ) → BulletinError
  previous_hash_mismatch event_hash_mismatch signature_mismatch : (sequence : ℕ) → BulletinError

pub data BulletinEventType : Type 0 where
  root_initialized cdn_service_info_updated : BulletinEventType
  registrar_authorized registrar_revoked : BulletinEventType
  discovery_node_authorized discovery_node_domains_updated discovery_node_revoked :
      BulletinEventType
  node_revoked : BulletinEventType
  agent_did_document_anchored agent_did_document_updated agent_revoked : BulletinEventType
  capability_tag_tree_updated : BulletinEventType

-- The derived serialisation, `rename_all = "SCREAMING_SNAKE_CASE"`.
unfoldable pub event_type_text : BulletinEventType → String
event_type_text root_initialized = "ROOT_INITIALIZED"
event_type_text cdn_service_info_updated = "CDN_SERVICE_INFO_UPDATED"
event_type_text registrar_authorized = "REGISTRAR_AUTHORIZED"
event_type_text registrar_revoked = "REGISTRAR_REVOKED"
event_type_text discovery_node_authorized = "DISCOVERY_NODE_AUTHORIZED"
event_type_text discovery_node_domains_updated = "DISCOVERY_NODE_DOMAINS_UPDATED"
event_type_text discovery_node_revoked = "DISCOVERY_NODE_REVOKED"
event_type_text node_revoked = "NODE_REVOKED"
event_type_text agent_did_document_anchored = "AGENT_DID_DOCUMENT_ANCHORED"
event_type_text agent_did_document_updated = "AGENT_DID_DOCUMENT_UPDATED"
event_type_text agent_revoked = "AGENT_REVOKED"
event_type_text capability_tag_tree_updated = "CAPABILITY_TAG_TREE_UPDATED"

-- `matches!(event_type, ..)` for the types that the services look for.
abbrev pub is_registrar_authorized : BulletinEventType → Bool
is_registrar_authorized registrar_authorized = true
is_registrar_authorized _ = false

abbrev pub is_registrar_revoked : BulletinEventType → Bool
is_registrar_revoked registrar_revoked = true
is_registrar_revoked _ = false

abbrev pub is_node_revoked : BulletinEventType → Bool
is_node_revoked node_revoked = true
is_node_revoked _ = false

pub record BulletinEventCore : Type 0 where
  pub sequence : ℕ
  pub previous_hash : Option String
  pub event_type : BulletinEventType
  pub subject_did : String
  pub actor_did : String
  pub payload : Value
  pub created_at : Time

pub record BulletinEvent : Type 0 where
  pub core : BulletinEventCore
  pub event_hash : String
  pub signature : String

pub record Bulletin : Type 0 where
  pub version : String
  pub root_did : String
  pub created_at : Time
  pub events : List BulletinEvent

module _ ⦃p : Primitives⦄ where
  open p use {SigningKey, VerifyingKey, time_text}

  -- The derived `Serialize`; a missing previous hash is written as null.
  abbrev pub core_fields : BulletinEventCore → List (String × Value)
  core_fields c =
      ("sequence", number (unsigned c.sequence))
      ∷ ("previousHash", optional string c.previous_hash)
      ∷ ("eventType", string (event_type_text c.event_type))
      ∷ ("subjectDid", string c.subject_did)
      ∷ ("actorDid", string c.actor_did)
      ∷ ("payload", c.payload)
      ∷ ("createdAt", string (time_text c.created_at))
      ∷ []

  unfoldable pub core_value : BulletinEventCore → Value
  core_value c = json (core_fields c)

  -- The fields of the core are written flat.
  unfoldable pub event_value : BulletinEvent → Value
  event_value event = json (
      ("eventHash", string event.event_hash)
      ∷ ("signature", string event.signature)
      ∷ core_fields event.core)

  unfoldable pub bulletin_value : Bulletin → Value
  unfolding event_value
  bulletin_value b = json (
      ("version", string b.version)
      ∷ ("rootDid", string b.root_did)
      ∷ ("createdAt", string (time_text b.created_at))
      ∷ ("events", array (items (map event_value b.events)))
      ∷ [])

  instance abbrev pub core_serialize : Serialize BulletinEventCore
  core_serialize = record { to_value = λ c. some (core_value c) }

  -- `BulletinEventCore::hash`.
  unfoldable pub core_hash : BulletinEventCore → Result BulletinError String
  core_hash c = map_err crypto (hash_json c)

  -- `BulletinEventCore::sign`.
  unfoldable pub sign_core : SigningKey → BulletinEventCore → Result BulletinError BulletinEvent
  unfolding core_hash
  sign_core key c = do
    event_hash ← core_hash c
    ok (record { core = c; event_hash = event_hash; signature = sign_bytes key event_hash })

  -- One round of `verify_hash_chain`, up to the update of `previous_hash`.
  unfoldable pub verify_event :
      VerifyingKey → ℕ → Option String → BulletinEvent → Result BulletinError (Unit {0})
  verify_event key index previous_hash event = do
    require (eqb event.core.sequence (index + 1))
        (sequence_mismatch index (index + 1) event.core.sequence)
    require (same_text event.core.previous_hash previous_hash)
        (previous_hash_mismatch event.core.sequence)
    event_hash ← core_hash event.core
    require (event_hash == event.event_hash) (event_hash_mismatch event.core.sequence)
    map_err (λ _. signature_mismatch event.core.sequence)
        (verify_bytes key event.event_hash event.signature)

  pub verify_from :
      VerifyingKey → ℕ → Option String → List BulletinEvent → Result BulletinError (Unit {0})
  verify_from key index previous_hash [] = ok tt
  verify_from key index previous_hash (event ∷ events) =
      verify_event key index previous_hash event
      >> verify_from key (index + 1) (some event.event_hash) events

  unfoldable pub verify_hash_chain : VerifyingKey → Bulletin → Result BulletinError (Unit {0})
  unfolding verify_from
  verify_hash_chain key bulletin = verify_from key 0 none bulletin.events
