-- ===== src/Crypto/Crates.antt =====
-- What crates/oan-crypto takes from other crates. `SigningLaws` and `KeyLaws` state the
-- documented behaviour that some theorems need.
use open_agenet.Base.{ℕ, String, Bool, true, Option, some, List, ◌≡◌, length}
use open_agenet.Json.{Number, Time}

pub record Primitives : Type 1 where
  -- ed25519-dalek
  pub SigningKey : Type 0
  pub VerifyingKey : Type 0
  pub Signature : Type 0
  pub signing_key_of : List ℕ → SigningKey
  pub verifying_key_of : List ℕ → Option VerifyingKey
  pub verifying_key : SigningKey → VerifyingKey
  pub key_bytes : VerifyingKey → List ℕ
  pub sign : SigningKey → String → Signature
  pub verify : VerifyingKey → String → Signature → Bool
  pub signature_bytes : Signature → List ℕ
  pub signature_of : List ℕ → Option Signature
  -- base64 (URL-safe, no padding) and bs58
  pub base64_encode : List ℕ → String
  pub base64_decode : String → Option (List ℕ)
  pub bs58_encode : List ℕ → String
  pub bs58_decode : String → Option (List ℕ)
  -- regex: the test against the pattern of `did_regex` in crates/oan-did-ans
  pub did_pattern : String → Bool
  -- sha2 and hex
  pub sha256 : String → String
  -- serde_json's printing of a number and of a string, chrono's of an instant
  pub number_text : Number → String
  pub quoted : String → String
  pub time_text : Time → String
  -- chrono's reading of an instant
  pub time_of : String → Option Time

pub record SigningLaws (p : Primitives) : Type 0 where
  pub base64_decode-encode : (b : List ℕ) → p.base64_decode (p.base64_encode b) ≡ some b
  pub signature_of-bytes : (s : p.Signature) → p.signature_of (p.signature_bytes s) ≡ some s
  pub verify-sign :
      (k : p.SigningKey) (m : String) → p.verify (p.verifying_key k) m (p.sign k m) ≡ true

pub record KeyLaws (p : Primitives) : Type 0 where
  pub decode_base64 : (b : List ℕ) → p.base64_decode (p.base64_encode b) ≡ some b
  pub decode_bs58 : (b : List ℕ) → p.bs58_decode (p.bs58_encode b) ≡ some b
  pub key_of-bytes : (k : p.VerifyingKey) → p.verifying_key_of (p.key_bytes k) ≡ some k
  pub length-bytes : (k : p.VerifyingKey) → length (p.key_bytes k) ≡ 32

-- chrono reads an instant from the text that it has printed.
pub record TimeLaws (p : Primitives) : Type 0 where
  pub time_of-text : (t : Time) → p.time_of (p.time_text t) ≡ some t
