-- ===== src/Bigint/Narrowing.antt =====
-- bigintToInt64 of nl-math.c.
use mathlib.Core.Path.{subst}
use newlisp_neo.Prelude.{
  ℕ, zero, suc, ◌+◌, ◌*◌, ◌%◌, ◌≤◌, ◌<◌, ◌≡◌, refl, sym, ap, ◌∙◌, List, [], ◌∷◌, length, arith,
  Bool, true, false, ◌||◌, if◌then◌else◌, if_both, if_true, if_false, Option, none, some, word_size,
  is_negative, neg64, sub64, add64, mul64, ℤ, pos, negsuc, sub_ℕ,
}
use native.Mathlib.Nat.{mul-le-mul_right}
use newlisp_neo.Bigint.Digits.{bigint_base, weight, value, IsNumber, weight_pos}
use newlisp_neo.Bigint.Operations.{Bigint, Order, greater, same, smaller, signed, to_ℤ, cmp_bigint}
use newlisp_neo.Bigint.Ordering.{◌<ℤ◌, Places, cmp_bigint-Places}
use newlisp_neo.Bigint.Differences.{sub_ℕ-same, sub_ℕ-negsuc}
use newlisp_neo.Bigint.Machine.{
  int_value, bigint_to_int64, word_ℤ, max_int, min_int, is_greater, is_smaller,
}

-- Without overflow.
int_value-small :
    (num : ℕ) (ds : List ℕ)
    → num * weight (length ds) + value ds < word_size
    → int_value num ds ≡ num * weight (length ds) + value ds
unfolding int_value weight add64 mul64
int_value-small num [] h = omega arith
int_value-small num (d ∷ ds) h =
    let w = weight (length ds) in
    let one : 1 * (num * bigint_base + d) ≤ w * (num * bigint_base + d) =
      mul-le-mul_right (num * bigint_base + d) (weight_pos (length ds)) in
    let plain : (num * bigint_base % word_size + d) % word_size ≡ num * bigint_base + d =
      omega (arith, h, one) in
    ap (λ t. int_value t ds) plain
    ∙ int_value-small (num * bigint_base + d) ds (omega (arith, h))
    ∙ (omega arith)

-- The numbers of an INT64.
abbrev pub InRange : ℤ → Type 0
InRange (pos n) = n < 9223372036854775808
InRange (negsuc n) = n < 9223372036854775808

abbrev pub Converts : ℤ → Option ℕ → Type 0
Converts n none = ¬ InRange n
Converts n (some w) = (w < word_size) × (word_ℤ w ≡ n) × InRange n

too_great : (n : ℤ) → pos 9223372036854775807 <ℤ n → InRange n → ⊥
too_great (pos n) h k = omega (arith, h, k)
too_great (negsuc n) h k = absurd h

too_small : (n : ℤ) → n <ℤ negsuc 9223372036854775807 → InRange n → ⊥
too_small (pos n) h k = absurd h
too_small (negsuc n) h k = omega (arith, h, k)

abbrev number_in : ℤ → ℕ
number_in (pos n) = n
number_in (negsuc n) = n

in_range :
    (n : ℤ) (o p : Order)
    → Places n (pos 9223372036854775807) o
    → Places n (negsuc 9223372036854775807) p
    → is_greater o || is_smaller p ≡ false
    → InRange n
in_range (pos n) greater p h k e = absurd (ground (arith, e))
in_range (pos n) same p h k e = omega (arith, ap number_in h)
in_range (pos n) smaller p h k e = omega (arith, h)
in_range (negsuc n) o greater h k e = omega (arith, k)
in_range (negsuc n) o same h k e = omega (arith, ap number_in k)
in_range (negsuc n) greater smaller h k e = absurd (ground (arith, e))
in_range (negsuc n) same smaller h k e = absurd (ground (arith, e))
in_range (negsuc n) smaller smaller h k e = absurd (ground (arith, e))

out_of_range :
    (n : ℤ) (o p : Order)
    → Places n (pos 9223372036854775807) o
    → Places n (negsuc 9223372036854775807) p
    → is_greater o || is_smaller p ≡ true
    → InRange n
    → ⊥
out_of_range n greater p h k e = too_great n h
out_of_range n same smaller h k e = too_small n k
out_of_range n smaller smaller h k e = too_small n k
out_of_range n same greater h k e = absurd (ground (arith, e))
out_of_range n same same h k e = absurd (ground (arith, e))
out_of_range n smaller greater h k e = absurd (ground (arith, e))
out_of_range n smaller same h k e = absurd (ground (arith, e))

InRange-value : (s : Bool) (n : ℕ) → InRange (signed s n) → n ≤ 9223372036854775808
InRange-value false n h = omega (arith, h)
InRange-value true zero h = omega arith
InRange-value true (suc n) h =
    let low = subst InRange (sub_ℕ-negsuc 0 (suc n) n (omega arith)) h in omega (arith, low)

-- The sign is put back on the pattern.
word_of_sign :
    (s : Bool) (n : ℕ) → InRange (signed s n) → word_ℤ (if s then neg64 n else n) ≡ signed s n
unfolding neg64 sub64
word_of_sign false n h = if_false (is_negative n) (sub_ℕ n word_size) (pos n) (ground (arith, h))
word_of_sign true zero h = refl
word_of_sign true (suc n) h =
    let bound = InRange-value true (suc n) h in
    let w = neg64 (suc n) in
    let whole : w + suc n ≡ word_size = omega (arith, bound) in
    if_true (is_negative w) (sub_ℕ w word_size) (pos w) (ground (arith, whole, bound))
    ∙ sub_ℕ-same w word_size 0 (suc n) (omega (arith, whole))

pattern_small :
    (s : Bool) (n : ℕ) → n ≤ 9223372036854775808 → (if s then neg64 n else n) < word_size
unfolding neg64 sub64
pattern_small true n h = omega arith
pattern_small false n h = omega (arith, h)

word_stands :
    (x : Bigint)
    → InRange (to_ℤ x)
    → Converts
        (to_ℤ x)
        (some (if x.negative then neg64 (int_value 0 x.digits) else int_value 0 x.digits))
word_stands x h =
    let bound = InRange-value x.negative (value x.digits) h in
    let num = int_value-small 0 x.digits (omega (arith, bound)) in
    let plain : int_value 0 x.digits ≡ value x.digits = omega (arith, num) in
    subst (λ n. Converts (to_ℤ x) (some (if x.negative then neg64 n else n))) (sym plain)
      (
        pattern_small x.negative (value x.digits) bound,
        word_of_sign x.negative (value x.digits) h,
        h,
      )

-- Of a bigint in digits below BIGINT_BASE without a leading zero, bigintToInt64 gives the INT64 that stands for the same
-- integer, and the error exactly when the integer is not from -2^63 to 2^63 - 1.
pub bigint_to_int64-Converts :
    (x : Bigint) → IsNumber x.digits → Converts (to_ℤ x) (bigint_to_int64 x)
unfolding bigint_to_int64 weight
bigint_to_int64-Converts x h =
    let most : Places (to_ℤ x) (pos 9223372036854775807) (cmp_bigint x max_int) =
      cmp_bigint-Places x max_int h
        ((omega arith, (omega arith, (omega arith, tt))), omega arith) in
    let least : Places (to_ℤ x) (negsuc 9223372036854775807) (cmp_bigint x min_int) =
      cmp_bigint-Places x min_int h
        ((omega arith, (omega arith, (omega arith, tt))), omega arith) in
    if_both (Converts (to_ℤ x))
      (is_greater (cmp_bigint x max_int) || is_smaller (cmp_bigint x min_int))
      (λ q. out_of_range (to_ℤ x) (cmp_bigint x max_int) (cmp_bigint x min_int) most least q)
      (λ q.
        word_stands x
          (in_range (to_ℤ x) (cmp_bigint x max_int) (cmp_bigint x min_int) most least q))
