-- ===== src/Root/Reads/Agents.antt =====
-- The endpoints of services/root-node/src/main.rs that show the agents and their versions, and the
-- one that looks at tags.
use Prim.Native.String.{◌++◌}
use open_agenet.Base.{
  String, Bool, true, false, Option, none, some, List, [], ◌∷◌, to_option, map, retain, filter_map,
}
use open_agenet.Base.Maps.{lookup}
use open_agenet.Base.Texts.{trim_end_text}
use open_agenet.Core.Json.{did_document_value}
use open_agenet.Core.Tags.{CapabilityTagTree, normalize_tag}
use open_agenet.Crypto.Crates.{Primitives}
use open_agenet.Json.{
  Value, bool, string, array, items, json, texts, optional, at, as_str, as_array,
}
use open_agenet.Package.{metadata_value}
use open_agenet.Package.Json.{package_value}
use open_agenet.Storage.{File, Files, read_file, did_to_file_name}
use open_agenet.Root.{Store}
use open_agenet.Root.Files.{read_latest_versions}
use open_agenet.Root.Reads.{list_of}

-- The folder of an agent's versions.
abbrev pub archive_root : String → String
archive_root did = "archive/" ++ trim_end_text ".json" (did_to_file_name did)

-- `state.data.read(path).ok()`.
abbrev pub shown_file : {A : Type 0} → (A → Value) → String → Files A → Value
shown_file value path files = optional value (to_option (read_file (lookup path files)))

unfoldable pub api_agents : Store → Value
api_agents s = list_of (
    map
      (λ (did, value). json (
        ("did", string did)
        ∷ ("documentVersion", at value "documentVersion")
        ∷ ("didDocumentHash", at value "didDocumentHash")
        ∷ ("metadataHash", at value "metadataHash")
        ∷ ("bulletinSequence", at value "bulletinSequence")
        ∷ ("updatedAt", at value "updatedAt")
        ∷ []))
      (read_latest_versions s))

unfoldable pub api_agent_detail : String → Store → Value
api_agent_detail did s = json (
    ("did", string did)
    ∷ ("latest", optional (λ v. v) (lookup did (read_latest_versions s)))
    ∷ ("archiveRoot", string (archive_root did))
    ∷ [])

-- `and_then(|value| value.as_array().cloned()).unwrap_or_default()`.
abbrev pub elements : Option Value → List Value
elements none = []
elements (some v) = elim (as_array v) [ none ↦ [] | some vs ↦ vs ]

-- `index_file` is `index.json` of the agent's folder. No handler writes it.
unfoldable pub api_agent_versions : Option (File Value) → String → Value
api_agent_versions index_file did = json (
    ("did", string did)
    ∷ ("items", array (items (elements (to_option (read_file index_file)))))
    ∷ [])

abbrev pub texts_in : Value → List String
texts_in v = filter_map as_str (elements (some (at v "capabilityTags")))

abbrev pub is_unknown : Option String → Bool
is_unknown none = true
is_unknown (some id) = false

unfoldable pub api_validate_tags : CapabilityTagTree → Value → Value
api_validate_tags tree payload =
    let tags = texts_in payload in
    json (
      ("valid", bool true)
      ∷ ("canonicalTags", texts (filter_map (normalize_tag tree) tags))
      ∷ ("customTags", texts (retain (λ tag. is_unknown (normalize_tag tree tag)) tags))
      ∷ (
        "note",
        string
            "Capability tree tags are recommended for network-wide coarse discovery. Custom tags are allowed and can be used for later fine-grained filtering.",
      )
      ∷ [])

-- The folder of one version, which is a text of the path.
abbrev pub version_prefix : String → String → String
version_prefix did version =
    "archive/" ++ (trim_end_text ".json" (did_to_file_name did) ++ ("/v" ++ version))

module _ ⦃p : Primitives⦄ where
  unfoldable pub api_agent_version_detail : String → String → Store → Value
  api_agent_version_detail did version s =
      let prefix = version_prefix did version in
      json (
        ("did", string did)
        ∷ ("version", string version)
        ∷ (
          "didDocument",
          shown_file did_document_value (prefix ++ "/did-document.json") s.documents,
        )
        ∷ ("metadata", shown_file metadata_value (prefix ++ "/metadata.json") s.metadata)
        ∷ ("package", shown_file package_value (prefix ++ "/package.json") s.packages)
        ∷ [])
