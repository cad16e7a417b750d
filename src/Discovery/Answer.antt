-- ===== src/Discovery/Answer.antt =====
-- `query` of services/discovery-node/src/main.rs: the signed answer to a query, from the index.
-- serde_json's number for a score is an argument, `quarters`.
use Prim.Native.String.{◌++◌}
use open_agenet.Base.{
  ℕ, String, Option, none, some, List, [], ◌∷◌, Result, ok, err, ◌>>=◌, map_err, map, is_empty,
  unwrap_or, if◌then◌else◌,
}
use open_agenet.Core.Json.{service_endpoint_value}
use open_agenet.Crypto.{hash_json, sign_bytes}
use open_agenet.Crypto.Crates.{Primitives}
use open_agenet.Discovery.Query.{candidates}
use open_agenet.Discovery.Service.{Failure, storage, crypto}
use open_agenet.Discovery.Sync.{Store, Node, World}
use open_agenet.Json.{Number, Value, number, string, array, items, json, texts, value_serialize}
use open_agenet.Package.{VerifiedPackage}
use open_agenet.Protocol.{DiscoveryQuery, DiscoveryCandidate, DiscoveryResponse}
use open_agenet.Storage.{File, sqlite, read_file}
use open_agenet.Storage.Sqlite.{read_namespace}

-- `read(..).unwrap_or_default()`.
abbrev pub list_in : {A : Type 0} → Option (File (List A)) → List A
list_in f = unwrap_or (read_file f) []

module _ (node : Node) (world : World) where
  -- The rows of a namespace where there are some, and the file's list otherwise.
  abbrev pub rows_or_file : {A : Type 0} → String → List A → List A → Result Failure (List A)
  rows_or_file namespace rows in_file =
      if node.has_sqlite
      then if world.database namespace
        then if is_empty rows then ok in_file else ok rows
        else err (storage sqlite)
      else ok in_file

  unfoldable pub read_indexed_packages : Store → Result Failure (List VerifiedPackage)
  read_indexed_packages s =
      rows_or_file "discovery.indexed_packages"
        (read_namespace "discovery.indexed_packages" s.package_rows) (list_in s.index_file)

  unfoldable pub read_sync_history : Store → Result Failure (List Value)
  read_sync_history s =
      rows_or_file "discovery.sync_history" (read_namespace "discovery.sync_history" s.value_rows)
        (list_in s.history_file)

module _ ⦃p : Primitives⦄ (quarters : ℕ → Number) where
  open p use {SigningKey, time_text}

  -- The derived `Serialize`.
  unfoldable pub candidate_value : DiscoveryCandidate → Value
  candidate_value c = json (
      ("did", string c.did)
      ∷ ("score", number (quarters c.score))
      ∷ ("capabilityTags", texts c.capability_tags)
      ∷ ("services", array (items (map service_endpoint_value c.services)))
      ∷ [])

  -- What the signature of an answer is made over.
  unfoldable pub signed_part : DiscoveryResponse → Value
  unfolding candidate_value
  signed_part r = json (
      ("discoveryDid", string r.discovery_did)
      ∷ ("candidates", array (items (map candidate_value r.candidates)))
      ∷ ("createdAt", string (time_text r.created_at))
      ∷ [])

  unfoldable pub sign_discovery_response : SigningKey → DiscoveryResponse → Result Failure String
  unfolding signed_part
  sign_discovery_response signing_key response = do
    hash ← map_err crypto (hash_json (signed_part response))
    ok (sign_bytes signing_key hash)

  module _ (node : Node) (world : World) (signing_key : SigningKey) where
    abbrev pub unsigned_response : List DiscoveryCandidate → DiscoveryResponse
    unsigned_response cs = record {
      discovery_did = node.did;
      candidates = cs;
      created_at = world.now 0;
      signature = "";
      proof = none;
    }

    -- The answer with its signature.
    abbrev pub answer_of : DiscoveryResponse → String → DiscoveryResponse
    answer_of unsigned signature = record unsigned {
      signature = signature;
      proof = some (record {
        proof_type = "Ed25519Signature2020";
        creator = node.did ++ "#key-1";
        created = world.now 1;
        proof_purpose = "assertionMethod";
        proof_value = signature;
      });
    }

    unfoldable pub query : DiscoveryQuery → Store → Result Failure DiscoveryResponse
    query q s = do
      packages ← read_indexed_packages node world s
      let unsigned = unsigned_response (candidates packages q)
      signature ← sign_discovery_response signing_key unsigned
      ok (answer_of unsigned signature)
