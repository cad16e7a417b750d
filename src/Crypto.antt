-- ===== src/Crypto.antt =====
-- crates/oan-crypto/src/lib.rs. The crates below it (ed25519-dalek, sha2, hex, base64, bs58, the
-- printing of serde_json and chrono) are the record `Primitives`.
pub mod Crates
pub mod Signing
use Prim.Native.String.{◌++◌}
use open_agenet.Base.{
  ℕ, Char, code, String, Bool, true, false, Option, none, some, List, [], ◌∷◌, length, eqb, Result,
  ok, err, ◌>>=◌, ◌>>◌, require, ok_or, map_err, if◌then◌else◌,
}
use open_agenet.Json.{
  Value, null, bool, number, string, array, object, Items, nil, cons, Fields, end, field, get,
  as_str, Serialize,
}
use Crates.{Primitives}

pub data CryptoError : Type 0 where
  invalid_signing_key invalid_verifying_key invalid_public_key_encoding : CryptoError
  invalid_signature verification_failed serialization : CryptoError

-- `strip_prefix('z')`.
unfoldable pub strip_z : String → Option String
strip_z String.[] = none
strip_z (String.◌∷◌ c s) = if eqb (code c) b'z' then some s else none

module _ ⦃p : Primitives⦄ where
  open p use {
    SigningKey, VerifyingKey, Signature, signing_key_of, verifying_key_of, key_bytes, sign, verify,
    signature_bytes, signature_of, base64_encode, base64_decode, bs58_encode, bs58_decode, sha256,
    number_text, quoted,
  }

  pub signing_key_from_bytes : List ℕ → Result CryptoError SigningKey
  signing_key_from_bytes bytes = do
    require (eqb (length bytes) 32) invalid_signing_key
    ok (signing_key_of bytes)

  unfoldable pub verifying_key_from_bytes : List ℕ → Result CryptoError VerifyingKey
  verifying_key_from_bytes bytes = do
    require (eqb (length bytes) 32) invalid_verifying_key
    ok_or (verifying_key_of bytes) invalid_verifying_key

  unfoldable pub verifying_key_from_public_key_multibase : String → Result CryptoError VerifyingKey
  unfolding strip_z
  verifying_key_from_public_key_multibase text = do
    encoded ← ok_or (strip_z text) invalid_public_key_encoding
    bytes ← ok_or (bs58_decode encoded) invalid_public_key_encoding
    verifying_key_from_bytes bytes

  unfoldable pub verifying_key_from_public_key_jwk : Value → Result CryptoError VerifyingKey
  verifying_key_from_public_key_jwk jwk = do
    value ← ok_or (get jwk "x") invalid_public_key_encoding
    x ← ok_or (as_str value) invalid_public_key_encoding
    bytes ← ok_or (base64_decode x) invalid_public_key_encoding
    verifying_key_from_bytes bytes

  unfoldable pub sign_bytes : SigningKey → String → String
  sign_bytes key payload = base64_encode (signature_bytes (sign key payload))

  unfoldable pub verify_bytes : VerifyingKey → String → String → Result CryptoError (Unit {0})
  verify_bytes key payload signature_base64url = do
    bytes ← ok_or (base64_decode signature_base64url) invalid_signature
    signature ← ok_or (signature_of bytes) invalid_signature
    require (verify key payload signature) verification_failed

  unfoldable pub sha256_hex : String → String
  sha256_hex payload = sha256 payload

  unfoldable mutual
    pub canonical_json_value : Value → String
    canonical_json_value null = "null"
    canonical_json_value (bool true) = "true"
    canonical_json_value (bool false) = "false"
    canonical_json_value (number n) = number_text n
    canonical_json_value (string s) = quoted s
    canonical_json_value (array vs) = "[" ++ (joined_items vs ++ "]")
    canonical_json_value (object fs) = "{" ++ (joined_fields fs ++ "}")

    -- The printed items, with a comma between two.
    pub joined_items : Items → String
    joined_items nil = ""
    joined_items (cons v nil) = canonical_json_value v
    joined_items (cons v (cons w vs)) = canonical_json_value v ++ ("," ++ joined_items (cons w vs))

    pub joined_fields : Fields → String
    joined_fields end = ""
    joined_fields (field k v end) = quoted k ++ (":" ++ canonical_json_value v)
    joined_fields (field k v (field j w fs)) =
        quoted k ++ (":" ++ (canonical_json_value v ++ ("," ++ joined_fields (field j w fs))))

  module _ {A : Type 0} ⦃s : Serialize A⦄ where
    unfoldable pub canonical_json : A → Result CryptoError String
    unfolding canonical_json_value
    canonical_json a = do ok (canonical_json_value (← ok_or (s.to_value a) serialization))

    unfoldable pub hash_json : A → Result CryptoError String
    unfolding canonical_json sha256_hex
    hash_json a = do ok (sha256_hex (← canonical_json a))

  unfoldable pub public_key_multibase : VerifyingKey → String
  public_key_multibase key = "z" ++ bs58_encode (key_bytes key)
