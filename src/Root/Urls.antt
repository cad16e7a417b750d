-- ===== src/Root/Urls.antt =====
-- services/root-node/src/main.rs: where the content delivery network is, from the bulletin.
use Prim.Native.String.{◌++◌}
use open_agenet.Base.{
  String, Option, none, some, List, [], ◌∷◌, ◌==◌, Result, ok, err, ◌>>=◌, ok_or, if◌then◌else◌,
}
use open_agenet.Base.Texts.{trim_end, trim_end_text}
use open_agenet.Bulletin.{BulletinEvent, Bulletin, event_type_text}
use open_agenet.Crypto.Crates.{Primitives}
use open_agenet.Json.{Time, Value, at, as_str}
use open_agenet.Root.{Failure, message, Store, Node}
use open_agenet.Root.Files.{read_bulletin}

-- `events.iter().rev().find(..)`: the last event of the list with this name.
abbrev pub latest_named : String → List BulletinEvent → Option Value
latest_named name [] = none
latest_named name (event ∷ events) = elim (latest_named name events) [
  | some payload ↦ some payload
  | none ↦ if event_type_text event.core.event_type == name then some event.core.payload else none
]

unfoldable pub latest_event_payload : Bulletin → String → Option Value
latest_event_payload b name = latest_named name b.events

module _ ⦃p : Primitives⦄ (node : Node) where
  unfoldable pub cdn_publish_url : Time → Store → Result Failure String
  unfolding latest_event_payload
  cdn_publish_url opened s = do
    b ← read_bulletin node opened s
    payload ←
        ok_or (latest_event_payload b "CDN_SERVICE_INFO_UPDATED")
          (message "cdn_service_info_missing")
    elim (as_str (at payload "baseUrl")) [
      | some base_url ↦ ok (trim_end 47 base_url ++ "/cdn/packages")
      | none ↦ elim (as_str (at payload "packagesUrlTemplate")) [
        | some template ↦ ok (trim_end 47 (trim_end_text "{did}" (trim_end_text "/{did}" template)))
        | none ↦ err (message "cdn_publish_url_missing")
      ]
    ]

  unfoldable pub cdn_manifest_url : Time → Store → Result Failure String
  unfolding latest_event_payload
  cdn_manifest_url opened s = do
    b ← read_bulletin node opened s
    payload ←
        ok_or (latest_event_payload b "CDN_SERVICE_INFO_UPDATED")
          (message "cdn_service_info_missing")
    ok_or (as_str (at payload "manifestUrl")) (message "cdn_manifest_url_missing")
