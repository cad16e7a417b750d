-- ===== src/Discovery/Service.antt =====
-- services/discovery-node/src/main.rs: where the content service is, and the key of the root.
use Prim.Native.String.{◌++◌}
use text.Mathlib.Text.{starts_with}
use open_agenet.Base.{
  ℕ, zero, suc, String, Bool, Option, none, some, Result, ok, err, ◌>>=◌, ok_or, map_err, find,
  find_last, contains, if◌then◌else◌,
}
use open_agenet.Base.Texts.{trim_end}
use open_agenet.Bulletin.{BulletinError}
use open_agenet.Core.{DidDocument}
use open_agenet.Crypto.{
  CryptoError, verifying_key_from_public_key_jwk, verifying_key_from_public_key_multibase,
}
use open_agenet.Crypto.Crates.{Primitives}
use open_agenet.Discovery.{events_of}
use open_agenet.Json.{Value, at, as_str, is_text}
use open_agenet.Storage.{StorageError}

-- What `anyhow::Error` carries here.
pub data Failure : Type 0 where
  storage : StorageError → Failure
  crypto : CryptoError → Failure
  bulletin : BulletinError → Failure
  message : String → Failure

pub record CdnServiceInfo : Type 0 where
  pub manifest_url : String
  pub packages_url_template : Option String
  pub base_url : Option String

-- `replace("{did}", did)`, after `n` characters that belong to the last place that was replaced.
unfoldable pub replace_did : String → (n : ℕ) → String → String
replace_did did n String.[] = String.[]
replace_did did (suc n) (String.◌∷◌ c s) = replace_did did n s
replace_did did zero (String.◌∷◌ c s) =
    let here = starts_with (String.◌∷◌ c s) "{did}" in
    let rest = replace_did did (if here then 4 else 0) s in
    if here then did ++ rest else String.◌∷◌ c rest

abbrev pub or_empty : Option String → String
or_empty none = ""
or_empty (some s) = s

unfoldable pub package_url : CdnServiceInfo → String → String
unfolding replace_did
package_url info did = elim info.packages_url_template [
  | some template ↦ replace_did did 0 template
  | none ↦ trim_end b'/' (or_empty info.base_url) ++ ("/cdn/packages/" ++ did)
]

abbrev pub is_service_event : Value → Bool
is_service_event event = is_text (at event "eventType") "CDN_SERVICE_INFO_UPDATED"

-- The endpoint of the configuration.
abbrev pub fallback_service : Option String → Result Failure CdnServiceInfo
fallback_service none = err (message "cdn_service_info_missing")
fallback_service (some fallback) = ok (record {
  manifest_url = trim_end b'/' fallback ++ "/cdn/manifest";
  packages_url_template = none;
  base_url = some fallback;
})

-- The newest service event counts, if it has a URL of the manifest.
unfoldable pub resolve_cdn_service : Option String → Value → Result Failure CdnServiceInfo
resolve_cdn_service cdn_endpoint value = elim (find_last is_service_event (events_of value)) [
  | none ↦ fallback_service cdn_endpoint
  | some event ↦ elim (as_str (at (at event "payload") "manifestUrl")) [
    | none ↦ fallback_service cdn_endpoint
    | some manifest_url ↦ ok (record {
      manifest_url = manifest_url;
      packages_url_template = as_str (at (at event "payload") "packagesUrlTemplate");
      base_url = as_str (at (at event "payload") "baseUrl");
    })
  ]
]

module _ ⦃p : Primitives⦄ where
  -- The part of `root_verifying_key` that comes after the document is fetched.
  unfoldable pub root_verifying_key : DidDocument → Result Failure p.VerifyingKey
  root_verifying_key d = do
    method ←
        ok_or (find (λ m. contains m.id d.assertion_method) d.verification_method)
          (message "missing_root_verification_method")
    elim method.public_key_jwk [
      | some jwk ↦ map_err crypto (verifying_key_from_public_key_jwk jwk)
      | none ↦ elim method.public_key_multibase [
        | some multibase ↦ map_err crypto (verifying_key_from_public_key_multibase multibase)
        | none ↦ err (message "invalid_root_key")
      ]
    ]
