-- ===== src/Did/Keys.antt =====
-- `DidAns::from_public_key` and `DidAns::key_id` of crates/oan-did-ans/src/lib.rs.
use Prim.Native.String.{◌++◌, len}
use text.Mathlib.TextLemmas.{cons-append, nil-append}
use text.Mathlib.TextPositions.{len-append}
use open_agenet.Base.{ℕ, ◌+◌, ◌≤◌, String, ◌≡◌, refl, Bool, true, List, arith, ok, ◌∙◌, ap}
use open_agenet.Base.Texts.{is_alphanumeric, all_chars, trim_start, all_chars-append}
use open_agenet.Crypto.Crates.{Primitives}
use open_agenet.Did.{DidAns, did_prefix, is_semantic_code, is_suffix, from_public_key, key_id}
use open_agenet.Did.Syntax.{Compiled, parse_iff}

ef_suffix :
    (s : String)
    → 20 ≤ len s
    → len s ≤ 46
    → all_chars is_alphanumeric s ≡ true
    → is_suffix ("ef" ++ s) ≡ true
unfolding is_alphanumeric
ef_suffix s low high h =
    let size : len ("ef" ++ s) ≡ 2 + len s = len-append "ef" s in
    let chars : all_chars is_alphanumeric ("ef" ++ s) ≡ all_chars is_alphanumeric s =
      all_chars-append is_alphanumeric "ef" s in
    ground arith

module _ ⦃p : Primitives⦄ where
  open p use {bs58_encode}

  -- If `is_match` tests the pattern of `did_regex`, the code is a semantic code, and bs58 prints the
  -- key in 20 to 46 letters and digits (it prints 32 bytes in 32 to 44), then `from_public_key`
  -- succeeds with that code and the suffix `ef` and the printed key.
  pub from_public_key_lem :
      (is_match : String → Bool)
      → Compiled is_match
      → (code : String) (public_key : List ℕ) → is_semantic_code code ≡ true
      → 20 ≤ len (bs58_encode public_key)
      → len (bs58_encode public_key) ≤ 46
      → all_chars is_alphanumeric (bs58_encode public_key) ≡ true
      → from_public_key is_match code public_key
        ≡ ok (record {
          value = did_prefix ++ (code ++ (":" ++ ("ef" ++ bs58_encode public_key)));
          semantic_code = code;
          suffix = "ef" ++ bs58_encode public_key;
        })
  unfolding from_public_key
  from_public_key_lem is_match compiled code public_key fits low high h = rw fits (
      (parse_iff is_match compiled _ _).1 (
        refl,
        record {
          whole = refl;
          code_fits = fits;
          suffix_fits = ef_suffix (bs58_encode public_key) low high h;
        },
      ))

trim_start_hash : (fragment : String) → trim_start b'#' ("#" ++ fragment) ≡ trim_start b'#' fragment
unfolding trim_start
trim_start_hash fragment =
    ap (trim_start b'#') (cons-append "#" "" fragment ∙ ap (String.◌∷◌ "#") (nil-append fragment))

-- The key id of a fragment is the same with a `#` before the fragment.
pub key_id-hash : (d : DidAns) (fragment : String) → key_id d ("#" ++ fragment) ≡ key_id d fragment
unfolding key_id
key_id-hash d fragment = ap (λ f. d.value ++ ("#" ++ f)) (trim_start_hash fragment)
