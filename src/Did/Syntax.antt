-- ===== src/Did/Syntax.antt =====
-- `DidAns::parse` of crates/oan-did-ans/src/lib.rs: what it accepts, and that its step-by-step
-- tests and its regular expression agree.
pub mod Direct
use Prim.Native.String.{◌++◌, len}
use text.Mathlib.Text.{starts_with}
use text.Mathlib.TextEquality.{starts_with_iff}
use text.Mathlib.TextLemmas.{append_assoc, cons-append, nil-append}
use text.Mathlib.TextPositions.{starts_with-append, len-append}
use open_agenet.Base.{
  ℕ, ◌+◌, ◌≤◌, String, ◌≡◌, ◌≢◌, refl, sym, ap, ◌∙◌, ◌↔◌, Bool, true, false, ◌&&◌, List, [], ◌∷◌,
  arith, leb, eqb, code, Result, ok, err, ◌>>=◌, ◌>>◌, require, require_rest, subst,
}
use open_agenet.Base.Texts.{
  all_chars-append, is_alphanumeric, all_chars, split_colon, join_colon, alphanumeric-no_colon,
  split_colon-append, split_colon_plain, join_colon-split_colon,
}
use open_agenet.Did.{
  DidAns, DidAnsError, invalid_syntax, invalid_prefix, did_prefix, is_semantic_code, is_suffix,
  parse, parse_parts,
}

-- What `^did:ans:AG[A-Za-z0-9]{2}:[A-Za-z0-9]{22,48}$` describes.
pub record FitsPattern (value : String) : Type 0 where
  pub kind : String
  pub suffix : String
  pub whole : value ≡ "did:ans:AG" ++ (kind ++ (":" ++ suffix))
  pub kind_chars : (len kind ≡ 2) × (all_chars is_alphanumeric kind ≡ true)
  pub suffix_chars :
      (22 ≤ len suffix) × (len suffix ≤ 48) × (all_chars is_alphanumeric suffix ≡ true)

-- The regex crate's `is_match` on that pattern.
abbrev pub Compiled : (String → Bool) → Type 0
Compiled is_match = (value : String) → (is_match value ≡ true) ↔ FitsPattern value

-- The parts of an identifier, and the text that they make up.
pub record IsDid (d : DidAns) : Type 0 where
  pub whole : d.value ≡ did_prefix ++ (d.semantic_code ++ (":" ++ d.suffix))
  pub code_fits : is_semantic_code d.semantic_code ≡ true
  pub suffix_fits : is_suffix d.suffix ≡ true

did_prefix-append : (u : String) → did_prefix ++ u ≡ "did" ++ (":" ++ ("ans" ++ (":" ++ u)))
did_prefix-append u =
    append_assoc "did" ":ans:" u
    ∙ ap (λ r. "did" ++ r)
        (append_assoc ":" "ans:" u ∙ ap (λ r. ":" ++ r) (append_assoc "ans" ":" u))

split_colon-did : (u : String) → split_colon (did_prefix ++ u) ≡ "did" ∷ "ans" ∷ split_colon u
split_colon-did u =
    ap split_colon (did_prefix-append u)
    ∙ split_colon-append "did" ("ans" ++ (":" ++ u)) refl
    ∙ ap (λ r. "did" ∷ r) (split_colon-append "ans" u refl)

split_colon-whole :
    (c s : String)
    → is_semantic_code c ≡ true
    → is_suffix s ≡ true
    → split_colon (did_prefix ++ (c ++ (":" ++ s))) ≡ "did" ∷ "ans" ∷ c ∷ s ∷ []
split_colon-whole c s hc hs =
    split_colon-did (c ++ (":" ++ s))
    ∙ ap (λ r. "did" ∷ "ans" ∷ r)
        (split_colon-append c s (alphanumeric-no_colon c (ground arith))
          ∙ ap (λ r. c ∷ r) (split_colon_plain s (alphanumeric-no_colon s (ground arith))))

all_chars_of_subject :
    (k : String) → all_chars is_alphanumeric ("AG" ++ k) ≡ all_chars is_alphanumeric k
unfolding is_alphanumeric
all_chars_of_subject k = all_chars-append is_alphanumeric "AG" k

-- A semantic code is `AG` and two more characters.
code-parts_of :
    (c k : String)
    → "AG" ++ k ≡ c
    → is_semantic_code c ≡ true
    → (len k ≡ 2) × (all_chars is_alphanumeric k ≡ true)
code-parts_of c k e h =
    let two : len c ≡ 2 + len k = ap len (sym e) ∙ len-append "AG" k in
    let both : all_chars is_alphanumeric c ≡ all_chars is_alphanumeric k =
      ap (all_chars is_alphanumeric) (sym e) ∙ all_chars_of_subject k in
    (ground arith, ground arith)

code_of-parts :
    (k : String)
    → len k ≡ 2
    → all_chars is_alphanumeric k ≡ true
    → is_semantic_code ("AG" ++ k) ≡ true
code_of-parts k n h =
    let two : len ("AG" ++ k) ≡ 4 = len-append "AG" k ∙ omega arith in
    let both : all_chars is_alphanumeric ("AG" ++ k) ≡ true = all_chars_of_subject k ∙ h in
    rw (starts_with-append "AG" k) (ground arith)

code_of_subject : (c : String) → is_semantic_code c ≡ true → starts_with c "AG" ≡ true
code_of_subject c h = ground arith

suffix-parts :
    (s : String)
    → is_suffix s ≡ true
    → (22 ≤ len s) × (len s ≤ 48) × (all_chars is_alphanumeric s ≡ true)
suffix-parts s h = ground arith

-- The identifier's parts fit the pattern.
IsDid-FitsPattern : (d : DidAns) → IsDid d → FitsPattern d.value
IsDid-FitsPattern d h =
    let (k, e) =
      (starts_with_iff d.semantic_code "AG").0 (code_of_subject d.semantic_code h.code_fits) in
    record {
      kind = k;
      suffix = d.suffix;
      whole =
          h.whole
          ∙ ap (λ c. did_prefix ++ (c ++ (":" ++ d.suffix))) (sym e)
          ∙ ap (λ r. did_prefix ++ r) (append_assoc "AG" k (":" ++ d.suffix))
          ∙ sym (append_assoc did_prefix "AG" (k ++ (":" ++ d.suffix)));
      kind_chars = code-parts_of d.semantic_code k e h.code_fits;
      suffix_chars = suffix-parts d.suffix h.suffix_fits;
    }

-- A text that fits the pattern is that of an identifier.
FitsPattern-IsDid : (v : String) → FitsPattern v → (d : DidAns) × (d.value ≡ v) × IsDid d
FitsPattern-IsDid v f = (
  record { value = v; semantic_code = "AG" ++ f.kind; suffix = f.suffix },
  refl,
  record {
    whole =
        f.whole
        ∙ append_assoc did_prefix "AG" (f.kind ++ (":" ++ f.suffix))
        ∙ ap (λ r. did_prefix ++ r) (sym (append_assoc "AG" f.kind (":" ++ f.suffix)));
    code_fits = code_of-parts f.kind f.kind_chars.0 f.kind_chars.1;
    suffix_fits = ground arith;
  },
)

module _ (is_match : String → Bool) where
  parse_parts-IsDid :
      (v : String) (parts : List String) (d : DidAns)
      → split_colon v ≡ "did" ∷ "ans" ∷ parts
      → parse_parts is_match v ("did" ∷ "ans" ∷ parts) ≡ ok d
      → (d.value ≡ v) × IsDid d
  unfolding parse_parts
  parse_parts-IsDid v [] d e h = cc
  parse_parts-IsDid v (c ∷ []) d e h = cc
  parse_parts-IsDid v (c ∷ s ∷ x ∷ xs) d e h = cc
  parse_parts-IsDid v (c ∷ s ∷ []) d e h =
      let read : d.value ≡ v = ground arith in
      let code_read : d.semantic_code ≡ c = ground arith in
      let suffix_read : d.suffix ≡ s = ground arith in
      (
        read,
        record {
          whole =
              read
              ∙ sym (join_colon-split_colon v)
              ∙ ap join_colon e
              ∙ sym (did_prefix-append (c ++ (":" ++ s)))
              ∙ cc;
          code_fits = rw code_read (ground arith);
          suffix_fits = rw suffix_read (ground arith);
        },
      )

  parse-IsDid : (v : String) (d : DidAns) → parse is_match v ≡ ok d → (d.value ≡ v) × IsDid d
  unfolding parse
  parse-IsDid v d h =
      let (starts, rest) =
        require_rest (starts_with v did_prefix) invalid_prefix
          (parse_parts is_match v (split_colon v)) h in
      let (u, e) = (starts_with_iff v did_prefix).0 starts in
      let split = ap split_colon (sym e) ∙ split_colon-did u in
      parse_parts-IsDid v (split_colon u) d split (ap (parse_parts is_match v) (sym split) ∙ rest)

  matched-parse : (d : DidAns) → IsDid d → is_match d.value ≡ true → parse is_match d.value ≡ ok d
  unfolding parse parse_parts
  matched-parse d h matched =
      let starts : starts_with d.value did_prefix ≡ true =
        ap (λ v. starts_with v did_prefix) h.whole ∙ starts_with-append did_prefix _ in
      let split =
        ap split_colon h.whole
        ∙ split_colon-whole d.semantic_code d.suffix h.code_fits h.suffix_fits in
      rw (starts, split, h.code_fits, h.suffix_fits, matched)

  IsDid-parse : Compiled is_match → (d : DidAns) → IsDid d → parse is_match d.value ≡ ok d
  IsDid-parse compiled d h = matched-parse d h ((compiled d.value).1 (IsDid-FitsPattern d h))

  -- If `is_match` tests the pattern of `did_regex`, a text is parsed as an identifier exactly when
  -- it is `did:ans:`, the identifier's semantic code, a colon and its suffix, where the code and
  -- the suffix have the lengths and the characters that they need.
  pub parse_iff :
      Compiled is_match
      → (v : String) (d : DidAns) → (parse is_match v ≡ ok d) ↔ ((d.value ≡ v) × IsDid d)
  parse_iff compiled v d =
      (parse-IsDid v d, λ h. ap (parse is_match) (sym h.0) ∙ IsDid-parse compiled d h.1)

  -- If `is_match` tests the pattern of `did_regex`, a text is parsed exactly when it matches: the
  -- tests before the regular expression demand the same.
  pub parse-is_match :
      Compiled is_match
      → (v : String) → (is_match v ≡ true) ↔ ((d : DidAns) × (parse is_match v ≡ ok d))
  parse-is_match compiled v = (
    λ m.
        let (d, same, h) = FitsPattern-IsDid v ((compiled v).0 m) in
        (d, ap (parse is_match) (sym same) ∙ IsDid-parse compiled d h),
    λ (d, e).
        let (same, h) = parse-IsDid v d e in
        (compiled v).1 (subst FitsPattern same (IsDid-FitsPattern d h)),
  )
