-- ===== src/Discovery/Sync.antt =====
-- `sync_from_cdn` of services/discovery-node/src/main.rs. `Peers` is what the root and the content
-- service answer, `Store` the files of the index and the rows of the database.
use Prim.Native.String.{◌++◌}
use open_agenet.Base.{
  ℕ, ◌^◌, String, Bool, Option, none, some, List, [], ◌∷◌, Result, ok, err, map_err, is_ok, push,
  length, is_empty, ltb, if◌then◌else◌,
}
use open_agenet.Base.Action.{Action, pure, lift, reads, attempt, ◌>>=◌, ◌>>◌}
use open_agenet.Base.Texts.{decimal}
use open_agenet.Bulletin.{Bulletin, verify_hash_chain}
use open_agenet.Core.Json.{natural}
use open_agenet.Core.Tags.{CapabilityTagTree}
use open_agenet.Crypto.Crates.{Primitives}
use open_agenet.Discovery.{
  discovery_authorized_domains, is_indexable_agent, verify_package_root_proof,
  authorized_domains_match,
}
use open_agenet.Core.{DidDocument}
use open_agenet.Discovery.Service.{
  Failure, storage, bulletin, message, root_verifying_key, resolve_cdn_service, package_url,
}
use open_agenet.Json.{Time, Value, null, string, json}
use open_agenet.Package.{
  VerifiedPackage, ManifestEntry, Manifest, verify_document_hash, verify_metadata_hash,
}
use open_agenet.Storage.{Disk, File, holds, decode, io, sqlite, resolve, JsonStore}
use open_agenet.Storage.Sqlite.{Row, upsert_json, delete_namespace}

pub record Store : Type 0 where
  pub index_file : Option (File (List VerifiedPackage))
  pub rejected_file : Option (File (List Value))
  pub history_file : Option (File (List Value))
  pub package_rows : List (Row VerifiedPackage)
  pub value_rows : List (Row Value)

-- A package as the content service sends it: no answer, a body that is no package, or a package.
pub data Fetched : Type 0 where
  unreachable undecodable : Fetched
  received : VerifiedPackage → Fetched

pub record Peers : Type 0 where
  pub fetch_bulletin : Result Failure Value
  pub fetch_root_document : Result Failure DidDocument
  -- `serde_json::from_value`.
  pub bulletin_of_value : Value → Option Bulletin
  -- The manifest and a package by their URLs.
  pub fetch_manifest : String → Result Failure Manifest
  pub fetch_package : String → Fetched

pub record Node : Type 0 where
  pub index : JsonStore
  pub did : String
  pub has_sqlite : Bool
  pub cdn_endpoint : Option String
  -- What `load_from_path` gives for the fixed path.
  pub tree : CapabilityTagTree

pub record World : Type 0 where
  pub now : ℕ → Time
  pub disk : Disk
  pub database : Disk

abbrev pub rejection : String → String → Value
rejection did reason = json (("did", string did) ∷ ("reason", string reason) ∷ [])

-- The packages for the index and the list of rejections.
pub record Progress : Type 0 where
  pub indexed : List VerifiedPackage
  pub rejected : List Value

module _ ⦃p : Primitives⦄ where
  unfoldable pub verify_bulletin_state :
      (Value → Option Bulletin) → Value → p.VerifyingKey → Result Failure (Unit {0})
  verify_bulletin_state read value root_key = elim (read value) [
    | none ↦ err (message "bulletin")
    | some b ↦ map_err bulletin (verify_hash_chain root_key b)
  ]

  module _ (node : Node) (value : Value) (root_key : p.VerifyingKey) where
    -- Why a package is not taken into the index, if it is not.
    unfoldable pub reason_against : VerifiedPackage → Option String
    reason_against pkg =
        if is_indexable_agent pkg
        then if is_ok (verify_document_hash pkg)
          then if is_ok (verify_metadata_hash pkg)
            then if verify_package_root_proof pkg value root_key
              then if authorized_domains_match node.tree pkg
                  (discovery_authorized_domains value node.did)
                then none
                else some "unauthorized_domains"
              else some "invalid_root_proof"
            else some "invalid_metadata_hash"
          else some "invalid_did_document_hash"
        else some "not_indexable"

    abbrev pub take_package : VerifiedPackage → Option String → Progress → Progress
    take_package pkg none done = record done { indexed = push done.indexed pkg }
    take_package pkg (some reason) done = record done {
      rejected = push done.rejected (rejection pkg.did reason);
    }

    -- The loop over the manifest. A package that cannot be fetched ends it.
    unfoldable pub collect :
        (String → Fetched) → List ManifestEntry → Progress → Result Failure Progress
    unfolding reason_against
    collect fetch [] done = ok done
    collect fetch (entry ∷ rest) done = elim (fetch entry.did) [
      | unreachable ↦ err (message ("fetch_cdn_package_failed: " ++ entry.did))
      | undecodable ↦ collect fetch rest (record done {
        rejected = push done.rejected (rejection entry.did "package_decode_failed");
      })
      | received pkg ↦ collect fetch rest (take_package pkg (reason_against pkg) done)
    ]

  module _ (node : Node) (world : World) where
    abbrev pub statement : String → (Store → Store) → Action Store Failure (Unit {0})
    statement namespace change =
        if node.has_sqlite
        then attempt (world.database namespace) (storage sqlite) change
        else pure tt

    -- One statement for each package.
    unfoldable pub upsert_each : Time → List VerifiedPackage → Action Store Failure (Unit {0})
    upsert_each at_row [] = pure tt
    upsert_each at_row (pkg ∷ rest) =
        statement "discovery.indexed_packages" (λ s. record s {
          package_rows = upsert_json at_row "discovery.indexed_packages" pkg.did pkg s.package_rows;
        })
        >> upsert_each at_row rest

    unfoldable pub write_indexed_packages :
        Time → List VerifiedPackage → Action Store Failure (Unit {0})
    unfolding upsert_each
    write_indexed_packages at_row packages = do
      statement "discovery.indexed_packages" (λ s. record s {
        package_rows = delete_namespace "discovery.indexed_packages" s.package_rows;
      })
      upsert_each at_row packages

    -- A log that cannot be read is an error.
    abbrev pub read_log : Option (File (List Value)) → Result Failure (List Value)
    read_log none = ok []
    read_log (some f) = map_err storage (decode f)

    unfoldable pub append_json_log : Value → Action Store Failure (Unit {0})
    append_json_log item = do
      entries ← reads (λ s. read_log s.history_file)
      attempt (world.disk (resolve node.index "sync-history.json")) (storage io)
          (λ s. record s { history_file = some (holds (push entries item)) })

    unfoldable pub write_sync_history_sqlite : Time → Time → Value → Action Store Failure (Unit {0})
    write_sync_history_sqlite keyed at_row item = statement "discovery.sync_history" (λ s.
        record s {
          value_rows =
              upsert_json at_row "discovery.sync_history"
                (if ltb keyed (2 ^ 63) then decimal keyed else "0") item s.value_rows;
        })

    abbrev pub history_of : Time → Progress → String → Value
    history_of synced done url = json (
        ("syncedAt", string (p.time_text synced))
        ∷ ("status", string "synced")
        ∷ ("syncedCount", natural (length done.indexed))
        ∷ ("cdnManifestUrl", string url)
        ∷ [])

    -- What is written after the file of the index. The clock is read for the rows (0), the two
    -- entries of the history (1, 2), and the key and the row of the second one (3, 4).
    unfoldable pub log_progress : Progress → String → Action Store Failure Value
    log_progress done url = do
      write_indexed_packages (world.now 0) done.indexed
      append_json_log (history_of (world.now 1) done url)
      write_sync_history_sqlite (world.now 3) (world.now 4) (history_of (world.now 2) done url)
      (if is_empty done.rejected
          then pure tt
          else attempt (world.disk (resolve node.index "rejected-packages.json")) (storage io)
              (λ s. record s { rejected_file = some (holds done.rejected) }))
      pure (
          json (
            ("status", string "synced")
            ∷ ("syncedCount", natural (length done.indexed))
            ∷ ("rejectedCount", natural (length done.rejected))
            ∷ ("latestSequence", null)
            ∷ ("cdnManifestUrl", string url)
            ∷ []))

    unfoldable pub store_progress : Progress → String → Action Store Failure Value
    unfolding log_progress
    store_progress done url =
        attempt (world.disk (resolve node.index "capabilities.json")) (storage io)
          (λ s. record s { index_file = some (holds done.indexed) })
        >> log_progress done url

    unfoldable pub sync_from_cdn : Peers → Action Store Failure Value
    unfolding store_progress
    sync_from_cdn peers = do
      value ← lift peers.fetch_bulletin
      document ← lift peers.fetch_root_document
      root_key ← lift (root_verifying_key document)
      lift (verify_bulletin_state peers.bulletin_of_value value root_key)
      cdn ← lift (resolve_cdn_service node.cdn_endpoint value)
      manifest ← lift (peers.fetch_manifest cdn.manifest_url)
      done ← lift (
          collect node value root_key (λ did. peers.fetch_package (package_url cdn did))
            manifest.packages (record { indexed = []; rejected = [] }))
      store_progress done cdn.manifest_url
