-- ===== src/Base/Order.antt =====
-- The order of texts: of two different ones, one comes first.
use Prim.Native.Nat.compare as compare_ℕ
use Prim.Native.Nat.{ℕ, zero, suc, Ordering, compare as compare_ℕ}
use Prim.Native.Char.{code}
use Prim.Native.String.compare
use Prim.Native.String.{String, [], ◌∷◌, compare, then}
use mathlib.Core.Path.{◌≡◌, refl, sym, ◌∙◌, ap}
use mathlib.Core.Bool.{true, false}
use text.Mathlib.Text.{◌==◌, is_lt, is_eq}
use open_agenet.Base.Maps.{before}

abbrev flip : Ordering → Ordering
flip Ordering.lt = Ordering.gt
flip Ordering.eq = Ordering.eq
flip Ordering.gt = Ordering.lt

flip-then : (o p : Ordering) → flip (then o p) ≡ then (flip o) (flip p)
flip-then Ordering.lt p = refl
flip-then Ordering.eq p = refl
flip-then Ordering.gt p = refl

compare_ℕ-flip : (m n : ℕ) → compare_ℕ n m ≡ flip (compare_ℕ m n)
compare_ℕ-flip zero zero = compare_ℕ.zero-zero ∙ sym (ap flip compare_ℕ.zero-zero)
compare_ℕ-flip zero (suc n) = compare_ℕ.suc-zero n ∙ sym (ap flip (compare_ℕ.zero-suc n))
compare_ℕ-flip (suc m) zero = compare_ℕ.zero-suc m ∙ sym (ap flip (compare_ℕ.suc-zero m))
compare_ℕ-flip (suc m) (suc n) =
    compare_ℕ.suc-suc n m ∙ compare_ℕ-flip m n ∙ sym (ap flip (compare_ℕ.suc-suc m n))

pub compare-flip : (s t : String) → compare t s ≡ flip (compare s t)
compare-flip [] [] = compare.nil-nil ∙ sym (ap flip compare.nil-nil)
compare-flip [] (d ∷ t) = compare.cons-nil d t ∙ sym (ap flip (compare.nil-cons d t))
compare-flip (c ∷ s) [] = compare.nil-cons c s ∙ sym (ap flip (compare.cons-nil c s))
compare-flip (c ∷ s) (d ∷ t) =
    compare.cons-cons d c t s
    ∙ ap (λ o. then o (compare t s)) (compare_ℕ-flip (code c) (code d))
    ∙ ap (then (flip (compare_ℕ (code c) (code d)))) (compare-flip s t)
    ∙ sym (flip-then (compare_ℕ (code c) (code d)) (compare s t))
    ∙ sym (ap flip (compare.cons-cons c d s t))

flipped_lt : (o : Ordering) → is_lt (flip o) ≡ false → is_eq o ≡ false → is_lt o ≡ true
flipped_lt Ordering.lt h k = refl
flipped_lt Ordering.eq h k = sym k
flipped_lt Ordering.gt h k = sym h

pub before_total : (s t : String) → before t s ≡ false → (s == t) ≡ false → before s t ≡ true
before_total s t h k = flipped_lt (compare s t) (sym (ap is_lt (compare-flip s t)) ∙ h) k

flipped_gt : (o : Ordering) → is_lt o ≡ true → is_lt (flip o) ≡ false
flipped_gt Ordering.lt h = refl
flipped_gt Ordering.eq h = refl
flipped_gt Ordering.gt h = sym h

pub before_asym : (s t : String) → before s t ≡ true → before t s ≡ false
before_asym s t h = ap is_lt (compare-flip s t) ∙ flipped_gt (compare s t) h
