-- ===== src/Tests/Cdn.antt =====
-- Runs of the content service.
use open_agenet.Base.{ℕ, ◌≡◌, refl, true, [], ◌∷◌, ◌==◌, none, Result, ok, unwrap_or, if◌then◌else◌}
use open_agenet.Cdn.{
  Store, manifest, get_package, get_document, get_metadata, entry_of, with_package, publish_package,
  empty_manifest, role_counts,
}
use open_agenet.Cdn
use open_agenet.Cdn.Published.{
  old_manifest, entries_of, publish_package-get, publish_package-manifest,
}
use open_agenet.Json.{Value, null}
use open_agenet.Package.{Manifest}
use open_agenet.Storage.{Disk}
use open_agenet.Tests.Runs.{echo_package, agent_did}

abbrev open_disk : Disk
open_disk = λ path. true

abbrev clock : ℕ → ℕ
clock = λ k. k

abbrev empty_store : Store
empty_store = record {
  manifest_file = none;
  documents = [];
  metadata = [];
  packages = [];
  history = none;
}

abbrev after : Result Cdn.ApiError Value × Store
after = publish_package open_disk clock (echo_package "1") empty_store

abbrev after_answer : Value
after_answer = unwrap_or after.0 null

after_ok : after ≡ (ok after_answer, after.1)
unfolding publish_package
after_ok = refl

publish_package-get_example :
    (get_package agent_did after.1 ≡ ok (echo_package "1"))
    × (get_document agent_did after.1 ≡ ok (echo_package "1").did_document)
    × (get_metadata agent_did after.1 ≡ ok (echo_package "1").metadata)
publish_package-get_example =
    publish_package-get open_disk clock (echo_package "1") empty_store after.1 after_answer after_ok

publish_package-manifest_example :
    (m : Manifest) × (manifest after.1 ≡ ok m)
    × (entries_of agent_did m.packages ≡ (
        if agent_did == agent_did
        then entry_of 2 (echo_package "1") ∷ []
        else entries_of agent_did
            (old_manifest open_disk clock (echo_package "1") empty_store).packages))
publish_package-manifest_example =
    publish_package-manifest open_disk clock (echo_package "1") empty_store after.1 after_answer
      agent_did after_ok

abbrev one_package : Manifest
one_package = with_package 1 2 (echo_package "1") (empty_manifest "did" 0)
