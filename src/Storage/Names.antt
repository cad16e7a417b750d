-- ===== src/Storage/Names.antt =====
-- The file names of crates/oan-storage/src/lib.rs.
use Prim.Native.String.{◌++◌, count}
use text.Mathlib.TextEquality.{Char-path}
use text.Mathlib.TextLemmas.{append_cancel_right, cons-eq-cons, nil≢cons, cons≢nil, length-cons}
use open_agenet.Base.{
  ℕ, suc, Char, code, String, ◌≡◌, refl, sym, ap, ◌∙◌, Bool, true, false, arith, eqb, if◌then◌else◌,
  Bool-cases, inl, inr,
}
use open_agenet.Base.Texts.{is_alphanumeric, all_chars, all_chars-append, map_chars}
use open_agenet.Did.{DidAns, did_prefix}
use open_agenet.Did.Syntax.{IsDid}
use open_agenet.Storage.{
  did_to_file_name, storage_safe_name, colon_to_underscore, is_safe, make_safe,
}

abbrev no_underscore : ℕ → Bool
no_underscore c = if eqb c b'_' then false else true

code-colon_to_underscore :
    (c : Char) → code (colon_to_underscore c) ≡ (if eqb (code c) b':' then b'_' else code c)
code-colon_to_underscore c = elim (Bool-cases (eqb (code c) b':')) [ inl e ↦ rw e | inr e ↦ rw e ]

-- What `replace` does to two numbers of characters, neither of them an underscore.
replaced_inj :
    (m n : ℕ)
    → no_underscore m ≡ true
    → no_underscore n ≡ true
    → (if eqb m b':' then b'_' else m) ≡ (if eqb n b':' then b'_' else n)
    → m ≡ n
replaced_inj m n hm hn e = ground arith

colon_to_underscore_inj :
    (c d : Char)
    → no_underscore (code c) ≡ true
    → no_underscore (code d) ≡ true
    → colon_to_underscore c ≡ colon_to_underscore d
    → c ≡ d
colon_to_underscore_inj c d hc hd e = Char-path c d (
    replaced_inj (code c) (code d) hc hd
      (sym (code-colon_to_underscore c) ∙ ap code e ∙ code-colon_to_underscore d))

map_colon_inj :
    (s t : String)
    → all_chars no_underscore s ≡ true
    → all_chars no_underscore t ≡ true
    → map_chars colon_to_underscore s ≡ map_chars colon_to_underscore t
    → s ≡ t
map_colon_inj String.[] String.[] hs ht e = refl
map_colon_inj String.[] (String.◌∷◌ d t) hs ht e = absurd (nil≢cons e)
map_colon_inj (String.◌∷◌ c s) String.[] hs ht e = absurd (cons≢nil e)
map_colon_inj (String.◌∷◌ c s) (String.◌∷◌ d t) hs ht e =
    let (head, tail) = cons-eq-cons.0 e in
    cons-eq-cons.1 (
      colon_to_underscore_inj c d (ground arith) (ground arith) head,
      map_colon_inj s t (ground arith) (ground arith) tail,
    )

alphanumeric-no_underscore :
    (s : String) → all_chars is_alphanumeric s ≡ true → all_chars no_underscore s ≡ true
unfolding is_alphanumeric
alphanumeric-no_underscore String.[] h = refl
alphanumeric-no_underscore (String.◌∷◌ c s) h = ground (arith, alphanumeric-no_underscore s)

IsDid-no_underscore : (d : DidAns) → IsDid d → all_chars no_underscore d.value ≡ true
IsDid-no_underscore d h =
    let tail : all_chars no_underscore (":" ++ d.suffix) ≡ true =
      all_chars-append no_underscore ":" d.suffix
      ∙ alphanumeric-no_underscore d.suffix (ground (arith, h.suffix_fits)) in
    let rest : all_chars no_underscore (d.semantic_code ++ (":" ++ d.suffix)) ≡ true =
      all_chars-append no_underscore d.semantic_code (":" ++ d.suffix)
      ∙ (rw (alphanumeric-no_underscore d.semantic_code (ground (arith, h.code_fits)), tail)) in
    ap (all_chars no_underscore) h.whole
    ∙ all_chars-append no_underscore did_prefix (d.semantic_code ++ (":" ++ d.suffix))
    ∙ rest

-- Two identifiers with one file name are the same text.
pub did_to_file_name_inj :
    (d e : DidAns)
    → IsDid d
    → IsDid e
    → did_to_file_name d.value ≡ did_to_file_name e.value
    → d.value ≡ e.value
unfolding did_to_file_name
did_to_file_name_inj d e hd he same =
    map_colon_inj d.value e.value (IsDid-no_underscore d hd) (IsDid-no_underscore e he)
      (append_cancel_right _ _ ".json" same)

-- Texts that are no identifiers can share a file name.
pub did_to_file_name_clash : did_to_file_name "did:ans" ≡ did_to_file_name "did_ans"
unfolding did_to_file_name
did_to_file_name_clash = refl

make_safe-is_safe : (c : Char) → is_safe (code (make_safe c)) ≡ true
unfolding is_alphanumeric
make_safe-is_safe c = elim (Bool-cases (is_safe (code c))) [ inl e ↦ rw e e | inr e ↦ rw e ]

make_safe_again : (c : Char) → make_safe (make_safe c) ≡ make_safe c
make_safe_again c = rw (make_safe-is_safe c)

all_chars-make_safe : (s : String) → all_chars is_safe (map_chars make_safe s) ≡ true
all_chars-make_safe String.[] = refl
all_chars-make_safe (String.◌∷◌ c s) = rw (make_safe-is_safe c) (all_chars-make_safe s)

map_chars-make_safe_again :
    (s : String) → map_chars make_safe (map_chars make_safe s) ≡ map_chars make_safe s
map_chars-make_safe_again String.[] = refl
map_chars-make_safe_again (String.◌∷◌ c s) =
    cons-eq-cons.1 (make_safe_again c, map_chars-make_safe_again s)

count-map_chars : (f : Char → Char) (s : String) → count (map_chars f s) ≡ count s
count-map_chars f String.[] = refl
count-map_chars f (String.◌∷◌ c s) =
    length-cons _ _ ∙ ap suc (count-map_chars f s) ∙ sym (length-cons c s)

-- A name that `storage_safe_name` makes has only letters, digits, `-`, `_` and `.`, and as many
-- characters as the text; making it safe once more changes nothing.
pub storage_safe_name_lem :
    (s : String)
    → (all_chars is_safe (storage_safe_name s) ≡ true)
      × (count (storage_safe_name s) ≡ count s)
      × (storage_safe_name (storage_safe_name s) ≡ storage_safe_name s)
unfolding storage_safe_name
storage_safe_name_lem s =
    (all_chars-make_safe s, count-map_chars make_safe s, map_chars-make_safe_again s)
