-- ===== src/Cdn/Reads.antt =====
-- The endpoints under `api` of services/cdn-node/src/main.rs that change nothing.
use open_agenet.Base.{String, [], ◌∷◌, map, length, unwrap_or, to_option}
use open_agenet.Base.Maps.{lookup}
use open_agenet.Core.Json.{natural, did_document_value}
use open_agenet.Crypto.Crates.{Primitives}
use open_agenet.Json.{Time, Value, null, string, array, items, json, optional}
use open_agenet.Package.{Manifest, metadata_value}
use open_agenet.Package.Json.{package_value, manifest_entry_value}
use open_agenet.Storage.{Files, read_file}
use open_agenet.Cdn.{Store, empty_manifest, path_in}

unfoldable pub health : Value
health = json (("status", string "ok") ∷ ("nodeType", string "cdn-service") ∷ ("did", null) ∷ [])

-- A missing or unreadable manifest is shown as an empty one of this time.
abbrev pub shown_manifest : Time → Store → Manifest
shown_manifest now s = unwrap_or (read_file s.manifest_file) (empty_manifest "" now)

-- `read(..).ok()` of a file of one kind, as the endpoints show it.
abbrev pub shown_file : {A : Type 0} → (A → Value) → String → String → Files A → Value
shown_file value kind did files =
    optional value (to_option (read_file (lookup (path_in kind did) files)))

unfoldable pub api_publish_history : Store → Value
api_publish_history s =
    let history = unwrap_or (read_file s.history) [] in
    json (("items", array (items history)) ∷ ("count", natural (length history)) ∷ [])

-- It only makes a path of the identifier in the request and drops it.
unfoldable pub api_purge : Value → Value
api_purge payload =
    json (("status", string "accepted") ∷ ("note", string "MVP purge is advisory only") ∷ [])

unfoldable pub api_document_detail : String → Store → Value
api_document_detail did s = json (
    ("did", string did)
    ∷ ("document", shown_file did_document_value "documents" did s.documents)
    ∷ [])

module _ ⦃p : Primitives⦄ where
  unfoldable pub api_status : Time → Store → Value
  api_status now s =
      let m = shown_manifest now s in
      json (
        ("status", string "ok")
        ∷ ("packageCount", natural (length m.packages))
        ∷ ("rootDid", string m.root_did)
        ∷ ("generatedAt", string (p.time_text m.generated_at))
        ∷ [])

  unfoldable pub api_packages : Time → Store → Value
  api_packages now s =
      let m = shown_manifest now s in
      json (
        ("items", array (items (map manifest_entry_value m.packages)))
        ∷ ("count", natural (length m.packages))
        ∷ [])

  unfoldable pub api_package_detail : String → Store → Value
  api_package_detail did s =
      json
        (("did", string did) ∷ ("package", shown_file package_value "packages" did s.packages) ∷ [])

  unfoldable pub api_metadata_detail : String → Store → Value
  api_metadata_detail did s =
      json (
        ("did", string did)
        ∷ ("metadata", shown_file metadata_value "metadata" did s.metadata)
        ∷ [])
