-- ===== src/Tests/Toy.antt =====
-- Stand-ins for the crates, simple enough to compute with, that keep the laws.
use Prim.Native.String.{◌++◌, len}
use open_agenet.Base.{
  ℕ, zero, suc, code, String, ◌≡◌, refl, ap, arith, true, Option, none, some, List, [], ◌∷◌, eqb,
  if◌then◌else◌,
}
use open_agenet.Base.Texts.{decimal}
use open_agenet.Crypto.Crates.{Primitives, SigningLaws, KeyLaws, TimeLaws}
use open_agenet.Json.{Number, unsigned, negative, float}

-- A list of numbers as a text: each number in strokes, with a comma after it.
abbrev pub strokes : ℕ → String → String
strokes zero s = String.◌∷◌ "," s
strokes (suc n) s = String.◌∷◌ "a" (strokes n s)

abbrev pub encode : List ℕ → String
encode [] = String.[]
encode (n ∷ ns) = strokes n (encode ns)

abbrev pub one_more : List ℕ → List ℕ
one_more [] = []
one_more (n ∷ ns) = suc n ∷ ns

abbrev pub read_strokes : String → List ℕ
read_strokes String.[] = []
read_strokes (String.◌∷◌ c s) =
    let rest = read_strokes s in if eqb (code c) b',' then 0 ∷ rest else one_more rest

read_strokes-strokes : (n : ℕ) (s : String) → read_strokes (strokes n s) ≡ n ∷ read_strokes s
read_strokes-strokes zero s = refl
read_strokes-strokes (suc n) s = ap one_more (read_strokes-strokes n s)

pub read_strokes-encode : (ns : List ℕ) → read_strokes (encode ns) ≡ ns
read_strokes-encode [] = refl
read_strokes-encode (n ∷ ns) =
    ground (arith, read_strokes-strokes n (encode ns), read_strokes-encode ns)

abbrev pub zeros : ℕ → List ℕ
zeros zero = []
zeros (suc n) = 0 ∷ zeros n

abbrev pub number_in : Number → ℕ
number_in (unsigned n) = n
number_in (negative n) = n
number_in (float n) = n

-- A time as a text of that length.
abbrev pub letters : ℕ → String
letters zero = String.[]
letters (suc n) = String.◌∷◌ "a" (letters n)

abbrev pub count_letters : String → ℕ
count_letters String.[] = 0
count_letters (String.◌∷◌ c s) = suc (count_letters s)

count_letters-letters : (n : ℕ) → count_letters (letters n) ≡ n
count_letters-letters zero = refl
count_letters-letters (suc n) = ap suc (count_letters-letters n)

-- A signature of one number.
abbrev pub only_number : List ℕ → Option ℕ
only_number (n ∷ []) = some n
only_number _ = none

-- The hash of a text and the signature of a text are its length.
instance abbrev pub toy : Primitives
toy = record {
  SigningKey = Unit {0};
  VerifyingKey = Unit {0};
  Signature = ℕ;
  signing_key_of = λ _. tt;
  verifying_key_of = λ _. some tt;
  verifying_key = λ k. k;
  key_bytes = λ _. zeros 32;
  sign = λ k m. len m;
  verify = λ k m s. eqb (len m) s;
  signature_bytes = λ s. s ∷ [];
  signature_of = only_number;
  base64_encode = encode;
  base64_decode = λ s. some (read_strokes s);
  bs58_encode = encode;
  bs58_decode = λ s. some (read_strokes s);
  did_pattern = λ _. true;
  sha256 = λ s. decimal (len s);
  number_text = λ n. decimal (number_in n);
  quoted = λ s. "\"" ++ (s ++ "\"");
  time_text = letters;
  time_of = λ s. some (count_letters s);
}

pub toy-SigningLaws : SigningLaws toy
toy-SigningLaws = record {
  base64_decode-encode = λ b. ap some (read_strokes-encode b);
  signature_of-bytes = λ s. refl;
  verify-sign = λ k m. ground arith;
}

pub toy-KeyLaws : KeyLaws toy
toy-KeyLaws = record {
  decode_base64 = λ b. ap some (read_strokes-encode b);
  decode_bs58 = λ b. ap some (read_strokes-encode b);
  key_of-bytes = λ k. refl;
  length-bytes = λ k. refl;
}

pub toy-TimeLaws : TimeLaws toy
toy-TimeLaws = record { time_of-text = λ t. ap some (count_letters-letters t) }
