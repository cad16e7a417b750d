-- ===== src/Base/Texts.antt =====
-- What the sources do with texts, character by character.
use Prim.Native.String.{◌++◌, count}
use text.Mathlib.TextLemmas.{nil-append, cons-append}
use mathlib.Core.Path.{◌≡◌, refl, ap, sym, ◌∙◌}
use mathlib.Core.Logic.{inl, inr}
use text.Mathlib.TextEquality.{Char-path}
use mathlib.Core.Bool.{Bool, true, false, ◌&&◌, ◌||◌}
use mathlib.Core.List.{List, [], ◌∷◌}
use native.Mathlib.Omega.{arith}
use Prim.Native.Nat.{ℕ, zero, suc, ◌+◌, ◌/◌, ◌%◌}
use mathlib.Core.Option.{Option, none, some}
use text.Mathlib.Text.{◌==◌}
use Prim.Native.Char.{Char, code}
use Prim.Native.String.{String}
use open_agenet.Base.Tests.{leb, ltb, eqb, if◌then◌else◌, Bool-cases}

-- `ch.is_ascii_alphanumeric()`.
unfoldable pub is_alphanumeric : ℕ → Bool
is_alphanumeric c = (leb 48 c && leb c 57) || ((leb 65 c && leb c 90) || (leb 97 c && leb c 122))

-- `value.chars().all(..)`.
abbrev pub all_chars : (ℕ → Bool) → String → Bool
all_chars f String.[] = true
all_chars f (String.◌∷◌ c s) = f (code c) && all_chars f s

-- A character in front of the first part.
abbrev pub extend : Char → List String → List String
extend c [] = String.◌∷◌ c String.[] ∷ []
extend c (t ∷ ts) = String.◌∷◌ c t ∷ ts

-- `value.split(':')`.
unfoldable pub split_colon : String → List String
split_colon String.[] = String.[] ∷ []
split_colon (String.◌∷◌ c s) =
    let rest = split_colon s in if eqb (code c) b':' then String.[] ∷ rest else extend c rest

-- The parts of a text again, with colons between them.
abbrev pub join_colon : List String → String
join_colon [] = String.[]
join_colon (t ∷ []) = t
join_colon (t ∷ u ∷ ts) = t ++ (":" ++ join_colon (u ∷ ts))

-- `value.trim_start_matches(..)`, `value.trim_end_matches(..)` for one character.
unfoldable pub trim_start : ℕ → String → String
trim_start k String.[] = String.[]
trim_start k (String.◌∷◌ c s) =
    let rest = trim_start k s in if eqb (code c) k then rest else String.◌∷◌ c s

abbrev pub keep_end : ℕ → Char → String → String
keep_end k c String.[] = if eqb (code c) k then String.[] else String.◌∷◌ c String.[]
keep_end k c (String.◌∷◌ d s) = String.◌∷◌ c (String.◌∷◌ d s)

unfoldable pub trim_end : ℕ → String → String
trim_end k String.[] = String.[]
trim_end k (String.◌∷◌ c s) = keep_end k c (trim_end k s)

-- `value.chars().map(..).collect()`.
abbrev pub map_chars : (Char → Char) → String → String
map_chars f String.[] = String.[]
map_chars f (String.◌∷◌ c s) = String.◌∷◌ (f c) (map_chars f s)

-- The decimal digit of a number below ten.
abbrev pub digit : ℕ → String
digit n =
    if eqb n 0
    then "0"
    else if eqb n 1
    then "1"
    else if eqb n 2
    then "2"
    else if eqb n 3
    then "3"
    else if eqb n 4
    then "4"
    else if eqb n 5
    then "5"
    else if eqb n 6
    then "6"
    else if eqb n 7
    then "7"
    else if eqb n 8
    then "8"
    else "9"

decimal_from : ℕ → ℕ → String → String
decimal_from zero n acc = acc
decimal_from (suc f) n acc =
    let rest = decimal_from f (n / 10) (digit (n % 10) ++ acc) in
    if ltb n 10 then digit n ++ acc else rest

-- `to_string` of an unsigned number; each round takes a digit off.
unfoldable pub decimal : ℕ → String
unfolding decimal_from
decimal n = decimal_from (n + 1) n ""

-- `strip_suffix`, and `trim_end_matches`, which strips it as often as it stands there.
abbrev pub strip_suffix : String → String → Option String
strip_suffix t String.[] = if t == "" then some "" else none
strip_suffix t (String.◌∷◌ c s) =
    let rest = strip_suffix t s in
    if String.◌∷◌ c s == t
    then some ""
    else elim rest [ none ↦ none | some r ↦ some (String.◌∷◌ c r) ]

trim_end_from : ℕ → String → String → String
trim_end_from zero t s = s
trim_end_from (suc f) t s = elim (strip_suffix t s) [ none ↦ s | some r ↦ trim_end_from f t r ]

-- A text of no more characters than the fuel has no more copies to strip.
unfoldable pub trim_end_text : String → String → String
unfolding trim_end_from
trim_end_text t s = trim_end_from (count s) t s

-- No character of the text is a colon.
abbrev pub no_colon : String → Bool
no_colon = all_chars (λ c. if eqb c b':' then false else true)

pub alphanumeric-no_colon : (s : String) → all_chars is_alphanumeric s ≡ true → no_colon s ≡ true
unfolding is_alphanumeric
alphanumeric-no_colon String.[] h = refl
alphanumeric-no_colon (String.◌∷◌ c s) h = ground (arith, alphanumeric-no_colon s)

extend_colon : (c : Char) (t : String) (ts : List String) → extend c (t ∷ ts) ≡ String.◌∷◌ c t ∷ ts
extend_colon c t ts = refl

-- A part without colons is split off whole.
pub split_colon-append :
    (s t : String) → no_colon s ≡ true → split_colon (s ++ (":" ++ t)) ≡ s ∷ split_colon t
unfolding split_colon
split_colon-append String.[] t h = rw nil-append (rw cons-append (rw nil-append))
split_colon-append (String.◌∷◌ c s) t h = rw cons-append (elim (Bool-cases (eqb (code c) b':')) [
  | inl e ↦ absurd (ground arith)
  | inr e ↦ rw (e, split_colon-append s t (ground arith))
])

pub split_colon_plain : (s : String) → no_colon s ≡ true → split_colon s ≡ s ∷ []
unfolding split_colon
split_colon_plain String.[] h = refl
split_colon_plain (String.◌∷◌ c s) h = elim (Bool-cases (eqb (code c) b':')) [
  | inl e ↦ absurd (ground arith)
  | inr e ↦ rw (e, split_colon_plain s (ground arith))
]

join_colon-extend :
    (c : Char) (t : String) (ts : List String)
    → join_colon (extend c (t ∷ ts)) ≡ String.◌∷◌ c (join_colon (t ∷ ts))
join_colon-extend c t [] = refl
join_colon-extend c t (u ∷ ts) = cons-append c t _

-- `split` gives at least one part.
pub split_colon-cons : (s : String) → (t : String) × (ts : List String) × (split_colon s ≡ t ∷ ts)
unfolding split_colon
split_colon-cons String.[] = (String.[], [], refl)
split_colon-cons (String.◌∷◌ c s) =
    let (t, ts, e) = split_colon-cons s in
    elim (Bool-cases (eqb (code c) b':')) [
      | inl q ↦ (String.[], split_colon s, rw q)
      | inr q ↦ (String.◌∷◌ c t, ts, rw (q, e))
    ]

-- A character whose number is that of a colon.
cons-colon : (c : Char) (s : String) → eqb (code c) b':' ≡ true → String.◌∷◌ c s ≡ ":" ++ s
cons-colon c s h = rw cons-append (
    rw nil-append
      (let colon : Char = ":" in ap (λ d. String.◌∷◌ d s) (Char-path c colon (ground arith))))

-- Joining what `split` gives restores the text.
pub join_colon-split_colon : (s : String) → join_colon (split_colon s) ≡ s
unfolding split_colon
join_colon-split_colon String.[] = refl
join_colon-split_colon (String.◌∷◌ c s) =
    let (t, ts, e) = split_colon-cons s in
    elim (Bool-cases (eqb (code c) b':')) [
      | inl q ↦
          rw (q, e)
            (rw nil-append (
              ap (λ r. ":" ++ r) (ap join_colon (sym e) ∙ join_colon-split_colon s)
              ∙ sym (cons-colon c s q)))
      | inr q ↦
          rw (q, e, join_colon-extend c t ts)
            (ap (String.◌∷◌ c) (ap join_colon (sym e) ∙ join_colon-split_colon s))
    ]

pub all_chars-append :
    (f : ℕ → Bool) (s t : String) → all_chars f (s ++ t) ≡ (all_chars f s && all_chars f t)
all_chars-append f String.[] t = ap (all_chars f) (nil-append t)
all_chars-append f (String.◌∷◌ c s) t = rw cons-append (ground (arith, all_chars-append f s t))
