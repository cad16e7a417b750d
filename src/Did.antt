-- ===== src/Did.antt =====
-- crates/oan-did-ans/src/lib.rs: identifiers `did:ans:AGxx:suffix`. The regex crate is the
-- parameter `is_match`, the test against the pattern that `did_regex` compiles.
pub mod Syntax
pub mod Keys
use Prim.Native.String.{◌++◌, len}
use open_agenet.Base.{
  ℕ, String, Bool, true, false, not, ◌&&◌, ◌||◌, List, [], ◌∷◌, leb, eqb, Result, ok, err, ◌>>=◌,
  ◌>>◌, require,
}
use open_agenet.Base.Texts.{is_alphanumeric, all_chars, split_colon, trim_start}
use open_agenet.Crypto.Crates.{Primitives}
use text.Mathlib.Text.{starts_with}

pub data DidAnsError : Type 0 where
  invalid_prefix invalid_part_count invalid_semantic_code invalid_suffix invalid_syntax :
      DidAnsError

pub record DidAns : Type 0 where
  pub value : String
  pub semantic_code : String
  pub suffix : String

abbrev pub did_prefix : String
did_prefix = "did:ans:"

abbrev pub subject_code : String
subject_code = "AG"

-- The test of the semantic code, which `parse` and `validate_semantic_code` share.
abbrev pub is_semantic_code : String → Bool
is_semantic_code c = eqb (len c) 4 && (starts_with c subject_code && all_chars is_alphanumeric c)

abbrev pub is_suffix : String → Bool
is_suffix s = (leb 22 (len s) && leb (len s) 48) && all_chars is_alphanumeric s

-- `validate_semantic_code`.
unfoldable pub validate_semantic_code : String → Result DidAnsError (Unit {0})
validate_semantic_code c = require (is_semantic_code c) invalid_semantic_code

module _ (is_match : String → Bool) where
  -- `parse`, once `value.split(':')` has been counted.
  unfoldable pub parse_parts : String → List String → Result DidAnsError DidAns
  parse_parts value (a ∷ b ∷ code ∷ suffix ∷ []) = do
    require (is_semantic_code code) invalid_semantic_code
    require (is_suffix suffix) invalid_suffix
    require (is_match value) invalid_syntax
    ok (record { value = value; semantic_code = code; suffix = suffix })
  parse_parts value _ = err invalid_part_count

  unfoldable pub parse : String → Result DidAnsError DidAns
  unfolding parse_parts
  parse value = do
    require (starts_with value did_prefix) invalid_prefix
    parse_parts value (split_colon value)

  module _ ⦃p : Primitives⦄ where
    open p use {SigningKey, VerifyingKey, bs58_encode, key_bytes, verifying_key}

    unfoldable pub from_public_key : String → List ℕ → Result DidAnsError DidAns
    unfolding validate_semantic_code
    from_public_key code public_key = do
      validate_semantic_code code
      let suffix = "ef" ++ bs58_encode public_key
      parse (did_prefix ++ (code ++ (":" ++ suffix)))

    -- `generate_ed25519`, for the key that the operating system's randomness gave.
    pub generate_ed25519 : SigningKey → String → Result DidAnsError (DidAns × SigningKey)
    unfolding validate_semantic_code from_public_key
    generate_ed25519 key code = do
      validate_semantic_code code
      did ← from_public_key code (key_bytes (verifying_key key))
      ok (did, key)

unfoldable pub key_id : DidAns → String → String
unfolding trim_start
key_id did fragment = did.value ++ ("#" ++ trim_start b'#' fragment)
