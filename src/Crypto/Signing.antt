-- ===== src/Crypto/Signing.antt =====
-- Signatures and public keys are read back as they were written.
use text.Mathlib.TextLemmas.{cons-append, nil-append}
use open_agenet.Base.{String, ◌≡◌, ok, arith}
use open_agenet.Crypto.{
  sign_bytes, verify_bytes, verifying_key_from_public_key_multibase, verifying_key_from_bytes,
  public_key_multibase, strip_z,
}
use open_agenet.Crypto.Crates.{Primitives, SigningLaws, KeyLaws}

module _ ⦃p : Primitives⦄ where
  open p use {SigningKey, VerifyingKey, verifying_key, base64_encode, key_bytes}

  -- If the crates keep `SigningLaws`, the public half of a key accepts what the key has signed.
  pub verify_bytes-sign_bytes :
      SigningLaws p
      → (k : SigningKey) (m : String) → verify_bytes (verifying_key k) m (sign_bytes k m) ≡ ok tt
  unfolding verify_bytes sign_bytes
  verify_bytes-sign_bytes laws k m =
      rw (laws.base64_decode-encode _) (rw (laws.signature_of-bytes _) (rw (laws.verify-sign k m)))

  pub verifying_key_from_bytes-key_bytes :
      KeyLaws p → (k : VerifyingKey) → verifying_key_from_bytes (key_bytes k) ≡ ok k
  unfolding verifying_key_from_bytes
  verifying_key_from_bytes-key_bytes laws k =
      ground (arith, laws.length-bytes k, laws.key_of-bytes k)

  -- If the crates keep `KeyLaws`, a public key is read back from its multibase text.
  pub from_public_key_multibase :
      KeyLaws p
      → (k : VerifyingKey) → verifying_key_from_public_key_multibase (public_key_multibase k) ≡ ok k
  unfolding verifying_key_from_public_key_multibase public_key_multibase strip_z
  from_public_key_multibase laws k =
      rw cons-append
        (rw nil-append (rw (laws.decode_bs58 _) (verifying_key_from_bytes-key_bytes laws k)))
