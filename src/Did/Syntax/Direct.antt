-- ===== src/Did/Syntax/Direct.antt =====
-- A test for the pattern of `did_regex` that works without a regular expression: the tests that
-- `parse` of crates/oan-did-ans/src/lib.rs makes before it.
use open_agenet.Base.{
  String, refl, sym, ap, ◌∙◌, subst, arith, Bool, true, is_ok, Result-cases, inl, inr,
}
use open_agenet.Did.{parse}
use open_agenet.Did.Syntax.{
  FitsPattern, Compiled, IsDid-FitsPattern, FitsPattern-IsDid, parse-IsDid, matched-parse,
}

abbrev pub is_did : String → Bool
is_did v = is_ok (parse (λ t. true) v)

pub is_did-Compiled : Compiled is_did
is_did-Compiled v = (
  λ h. elim (Result-cases (parse (λ t. true) v)) [
    | inl (d, e) ↦
        let (same, good) = parse-IsDid (λ t. true) v d e in
        subst FitsPattern same (IsDid-FitsPattern d good)
    | inr (f, e) ↦ absurd (ground (arith, e))
  ],
  λ f.
      let (d, same, good) = FitsPattern-IsDid v f in
      ap (λ t. is_did t) (sym same) ∙ ap is_ok (matched-parse (λ t. true) d good refl),
)
