-- ===== src/Discovery.antt =====
-- services/discovery-node/src/main.rs: what the discovery node takes from the bulletin, which
-- packages it puts into its index, and which candidates it answers a query with.
pub mod Query
pub mod Ranking
pub mod Service
pub mod Sync
pub mod Indexed
pub mod Unreachable
pub mod Answer
pub mod Answered
pub mod Stands
pub mod Signed
pub mod Complete
pub mod Reads
use open_agenet.Base.{
  find_last, String, Bool, true, false, not, ◌&&◌, Option, none, some, List, [], ◌∷◌, ◌==◌, any,
  is_empty, is_ok, filter_map, if◌then◌else◌,
}
use open_agenet.Core.{is_agent, AnsMetadata}
use open_agenet.Core.Tags.{CapabilityTagTree, matches_authorized_domains}
use open_agenet.Crypto.{verify_bytes}
use open_agenet.Crypto.Crates.{Primitives}
use open_agenet.Json.{Value, at, as_str, as_array, is_text, string}
use open_agenet.Package.{VerifiedPackage}

-- `bulletin["events"].as_array()`, and no events where there is no array.
abbrev pub events_of : Value → List Value
events_of bulletin = elim (as_array (at bulletin "events")) [ none ↦ [] | some events ↦ events ]

-- The test of an event's subject and type.
abbrev pub is_about : String → String → Value → Bool
is_about did event_type event =
    is_text (at event "subjectDid") did && is_text (at event "eventType") event_type

unfoldable pub discovery_authorization_status : Value → String → String
discovery_authorization_status bulletin discovery_did =
    if any (is_about discovery_did "DISCOVERY_NODE_REVOKED") (events_of bulletin)
    then "revoked"
    else "active"

-- Without an event, or without an array in the last one, everything is authorized.
unfoldable pub discovery_authorized_domains : Value → String → List String
discovery_authorized_domains bulletin discovery_did =
    elim (find_last (is_about discovery_did "DISCOVERY_NODE_DOMAINS_UPDATED")
      (events_of bulletin)) [
        | none ↦ "*" ∷ []
        | some event ↦ elim (as_array (at (at event "payload") "authorizedDomains")) [
          | none ↦ "*" ∷ []
          | some domains ↦ filter_map as_str domains
        ]
      ]

unfoldable pub is_indexable_agent : VerifiedPackage → Bool
is_indexable_agent pkg = elim pkg.did_document.ans_metadata [
  | none ↦ false
  | some metadata ↦ is_agent metadata.subject && not (is_empty pkg.metadata.services)
]

abbrev pub is_string : Value → Bool
is_string (string s) = true
is_string _ = false

-- The event that a root proof names.
abbrev pub is_proof_event : String → String → Value → Bool
is_proof_event event_hash did event =
    is_text (at event "eventHash") event_hash
    && (is_text (at event "subjectDid") did && is_string (at event "eventType"))

module _ ⦃p : Primitives⦄ where
  open p use {VerifyingKey}

  unfoldable pub verify_package_root_proof : VerifiedPackage → Value → VerifyingKey → Bool
  verify_package_root_proof pkg bulletin root_key = elim pkg.root_proof.bulletin_event_hash [
    | none ↦ false
    | some event_hash ↦ elim pkg.root_proof.signature [
      | none ↦ false
      | some signature ↦
          any (is_proof_event event_hash pkg.did) (events_of bulletin)
          && is_ok (verify_bytes root_key event_hash signature)
    ]
  ]

-- The tree is what the file at the fixed path holds, or a tree without tags.
unfoldable pub authorized_domains_match : CapabilityTagTree → VerifiedPackage → List String → Bool
authorized_domains_match tree pkg authorized_domains =
    matches_authorized_domains tree pkg.metadata.capability_tags authorized_domains
