-- ===== src/Registrar/Reads.antt =====
-- The endpoints of services/registrar-node/src/main.rs that change nothing. What the root answers
-- is an argument, and so are the order in which a folder is listed and Rust's `to_lowercase`.
use text.Mathlib.Text.{starts_with}
use open_agenet.Base.{
  ℕ, String, Bool, true, false, not, ◌||◌, Option, none, some, List, [], ◌∷◌, ◌==◌, any, map,
  length, take, retain, Result, ok, err, ◌>>=◌, map_err, to_option, if◌then◌else◌,
}
use open_agenet.Base.Maps.{lookup}
use open_agenet.Base.Texts.{strip_suffix}
use open_agenet.Core.{DidDocument}
use open_agenet.Core.Json.{natural}
use open_agenet.Core.Tags.{CapabilityTag, CapabilityTagTree}
use open_agenet.Crypto.Crates.{Primitives}
use open_agenet.Json.{Value, null, bool, string, array, items, nil, json, optional, get, as_str}
use open_agenet.Protocol.{HealthResponse}
use open_agenet.Storage.{Files, or_else, read_file, read, did_to_file_name}
use open_agenet.Registrar.{ApiError, bad_request, internal, Failure, storage, http, Store, Node}
use open_agenet.Registrar.Drafts.{or_default}
use open_agenet.Registrar.Register.{is_success}

-- `path.extension() == Some("json")`, which does not hold of a file that is named `.json` alone.
unfoldable pub is_json_file : String → Bool
is_json_file path = elim (strip_suffix ".json" path) [
  | none ↦ false
  | some stem ↦ elim (strip_suffix "/" stem) [ none ↦ not (stem == "") | some _ ↦ false ]
]

-- The paths of the files, in the order in which the folder is listed.
unfoldable pub list_json_files : {A : Type 0} → (List String → List String) → Files A → List String
list_json_files listed files = retain is_json_file (listed (map (λ entry. entry.0) files))

-- The first file that cannot be read is an error.
unfoldable pub read_values : List String → Files Value → Result Failure (List Value)
read_values [] files = ok []
read_values (path ∷ paths) files = do
  value ← map_err storage (read_file (lookup path files))
  rest ← read_values paths files
  ok (value ∷ rest)

unfoldable pub read_record_values :
    (List String → List String) → Files Value → Result Failure (List Value)
unfolding read_values
read_record_values listed files = read_values (list_json_files listed files) files

-- Whether a text has another one in it.
unfoldable pub has_text : String → String → Bool
has_text t String.[] = t == ""
has_text t (String.◌∷◌ c s) = starts_with (String.◌∷◌ c s) t || has_text t s

-- What `reqwest` gives of a GET: an error with its text, or a status and the body, if it is JSON.
pub data Fetched : Type 0 where
  failed : String → Fetched
  fetched : ℕ → Option Value → Fetched

-- The status does not matter to `fetch_root_value`; the text is that of an error of the body.
unfoldable pub fetch_root_value : String → Fetched → Result String Value
fetch_root_value text (failed e) = err e
fetch_root_value text (fetched status none) = err text
fetch_root_value text (fetched status (some v)) = ok v

unfoldable pub api_capability_tree : String → Fetched → Value
unfolding fetch_root_value
api_capability_tree text answer = elim (fetch_root_value text answer) [
  | ok value ↦ value
  | err e ↦ json (
      ("version", null)
      ∷ ("tags", array nil)
      ∷ ("tree", array nil)
      ∷ ("source", string "root-unreachable")
      ∷ ("error", string e)
      ∷ [])
]

-- The test of one tag in `api_suggest_tags`.
unfoldable pub is_suggested : (lower : String → String) → String → CapabilityTag → Bool
is_suggested lower keyword tag =
    keyword == ""
    || (has_text keyword (lower tag.id)
        || (has_text keyword (lower tag.label)
            || any (λ alias. has_text keyword (lower alias)) tag.aliases))

unfoldable pub keyword_of : (lower : String → String) → Value → String
keyword_of lower payload = elim (or_else (get payload "query") (get payload "keyword")) [
  | none ↦ lower ""
  | some v ↦ lower (or_default (as_str v) "")
]

abbrev pub suggestion : CapabilityTag → Value
suggestion tag = json (
    ("id", string tag.id)
    ∷ ("label", string tag.label)
    ∷ ("parent", optional string tag.parent)
    ∷ [])

unfoldable pub suggested_tags :
    (lower : String → String) → Value → Option CapabilityTagTree → List Value
unfolding is_suggested keyword_of
suggested_tags lower payload none = []
suggested_tags lower payload (some tree) =
    map suggestion (take 20 (retain (is_suggested lower (keyword_of lower payload)) tree.tags))

abbrev pub list_answer : List Value → Value
list_answer vs = json (("items", array (items vs)) ∷ ("count", natural (length vs)) ∷ [])

-- `tree_of` is serde's reading of a tree; without one there are no suggestions.
unfoldable pub api_suggest_tags :
    (lower : String → String)
    → (tree_of : Value → Option CapabilityTagTree) → Fetched
    → Value
    → Value
unfolding suggested_tags fetch_root_value
api_suggest_tags lower tree_of answer payload = list_answer (
    suggested_tags lower payload
      (elim (fetch_root_value "" answer) [ ok value ↦ tree_of value | err e ↦ none ]))

unfoldable pub registrar_did_document : Store → Result ApiError DidDocument
registrar_did_document s = map_err (λ e. internal (storage e)) (read_file s.own_document)

module _ ⦃p : Primitives⦄ (node : Node) where
  unfoldable pub health : HealthResponse
  health = record { status = "ok"; node_type = "registrar"; did = some node.did }

  -- Without the folder of the drafts, or with one that cannot be listed, no draft is counted.
  unfoldable pub api_status : (List String → List String) → Store → Value
  api_status listed s = json (
      ("registrarDid", string node.did)
      ∷ ("rootEndpoint", string node.root_endpoint)
      ∷ ("registeredAgentCount", natural (length (list_json_files listed s.records)))
      ∷ ("draftCount", natural (length (list_json_files listed s.drafts)))
      ∷ [])

  -- `answer` is what comes for the URL of the root's endpoint for this registrar.
  unfoldable pub api_root_authorization : Fetched → Result ApiError Value
  api_root_authorization (failed e) = ok (
      json (
        ("registrarDid", string node.did)
        ∷ ("rootEndpoint", string node.root_endpoint)
        ∷ ("rootReachable", bool false)
        ∷ ("error", string e)
        ∷ []))
  api_root_authorization (fetched status body) =
      if is_success status
      then elim body [
        | none ↦ err (internal http)
        | some v ↦ ok (
            json (
              ("registrarDid", string node.did)
              ∷ ("rootEndpoint", string node.root_endpoint)
              ∷ ("rootReachable", bool true)
              ∷ ("authorization", v)
              ∷ []))
      ]
      else ok (
          json (
            ("registrarDid", string node.did)
            ∷ ("rootEndpoint", string node.root_endpoint)
            ∷ ("rootReachable", bool true)
            ∷ ("status", string "unknown")
            ∷ ("rootStatusCode", natural status)
            ∷ []))

  unfoldable pub api_agents : (List String → List String) → Store → Result ApiError Value
  api_agents listed s = do
    records ← map_err internal (read_record_values listed s.records)
    ok (list_answer records)

  -- The record of an agent, if there is one that can be read.
  unfoldable pub find_record : String → Store → Option Value
  find_record did s = to_option (read node.records_store (did_to_file_name did) s.records)

  unfoldable pub api_agent_detail : String → Store → Value
  unfolding find_record
  api_agent_detail did s =
      json (("did", string did) ∷ ("record", optional (λ v. v) (find_record did s)) ∷ [])

  abbrev pub one_or_none : Option Value → List Value
  one_or_none none = []
  one_or_none (some v) = v ∷ []

  unfoldable pub api_agent_submissions : String → Store → Value
  unfolding find_record
  api_agent_submissions did s =
      let submissions = one_or_none (find_record did s) in
      json (
        ("did", string did)
        ∷ ("items", array (items submissions))
        ∷ ("count", natural (length submissions))
        ∷ [])

  unfoldable pub api_resubmit_agent : String → Store → Result ApiError Value
  api_resubmit_agent did s = do
    value ←
        map_err (λ _. bad_request "agent_record_not_found")
          (read node.records_store (did_to_file_name did) s.records)
    ok (
        json (
          ("did", string did)
          ∷ ("status", string "resubmit-requires-full-did-document")
          ∷ ("record", value)
          ∷ []))
