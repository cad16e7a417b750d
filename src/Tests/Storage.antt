-- ===== src/Tests/Storage.antt =====
-- Runs on files and rows.
use open_agenet.Storage.Sqlite.View.{view, put, remove, clear, view-Refines}
use open_agenet.Base.{ℕ, ◌≡◌, refl, List, [], ◌∷◌}
use open_agenet.Base.Texts.{is_alphanumeric}
use open_agenet.Did.{DidAns}
use open_agenet.Did.Syntax.{IsDid}
use open_agenet.Storage.Names.{did_to_file_name_inj}
use open_agenet.Storage.Sqlite.{Row, upsert_json, delete_json, delete_namespace}
use open_agenet.Storage.Sqlite.Rows.{IsKeyed, upsert_json-IsKeyed}
use open_agenet.Tests.Runs.{agent_did}

abbrev agent_id : DidAns
agent_id = record {
  value = agent_did;
  semantic_code = "AGDM";
  suffix = "efbbbbbbbbbbbbbbbbbbbbbbbb";
}

agent_id-IsDid : IsDid agent_id
unfolding is_alphanumeric
agent_id-IsDid = record { whole = refl; code_fits = refl; suffix_fits = refl }

did_to_file_name_inj_example : agent_did ≡ agent_did
did_to_file_name_inj_example =
    did_to_file_name_inj agent_id agent_id agent_id-IsDid agent_id-IsDid refl

abbrev rows : List (Row ℕ)
rows =
    record { namespace = "n"; record_key = "k"; value = 1; updated_at = 0 }
    ∷ record { namespace = "n"; record_key = "l"; value = 2; updated_at = 0 }
    ∷ []

rows-IsKeyed : IsKeyed rows
rows-IsKeyed = (refl, (refl, tt))

view-Refines_example :
    (view (upsert_json 9 "n" "k" 3 rows) ≡ put "n" "k" 3 (view rows))
    × (view (delete_json "n" "k" rows) ≡ remove "n" "k" (view rows))
    × (view (delete_namespace "n" rows) ≡ clear "n" (view rows))
view-Refines_example = view-Refines 9 "n" "k" 3 rows

upsert_json-IsKeyed_example : IsKeyed (upsert_json 9 "n" "k" 3 rows)
upsert_json-IsKeyed_example = upsert_json-IsKeyed 9 "n" "k" 3 rows rows-IsKeyed
