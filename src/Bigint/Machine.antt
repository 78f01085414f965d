-- ===== src/Bigint/Machine.antt =====
-- intToBigint and bigintToInt64 of nl-math.c. An INT64 is its bit pattern.
use newlisp_neo.Prelude.{
  ℕ, ◌+◌, ◌-◌, ◌*◌, ◌/◌, ◌%◌, ◌^◌, List, [], ◌∷◌, Bool, true, false, ◌||◌, if◌then◌else◌, ltb, leb,
  Option, none, some, word_size, is_negative, abs64, neg64, sub64, add64, mul64, ℤ, sub_ℕ, pos,
}
use newlisp_neo.Bigint.Digits.{bigint_base}
use newlisp_neo.Bigint.Operations.{Bigint, Order, greater, same, smaller, cmp_bigint}

abbrev pub bigint_base2 : ℕ
bigint_base2 = 1000000000000000000

-- `a > b` of INT64 numbers, where `b` is not negative.
abbrev pub above : ℕ → ℕ → Bool
above a b = if is_negative a then false else ltb b a

-- The product of two `int`s as an INT64: overflow wraps around, and the sign is kept.
abbrev pub int_product : ℕ → ℕ → ℕ
int_product a b = let p = (a * b) % 2 ^ 32 in if leb (2 ^ 31) p then p + word_size - 2 ^ 32 else p

-- The part from `if(num > BIGINT_BASE)` on. `(int)` leaves the low bits.
unfoldable pub last_digits : ℕ → List ℕ
unfolding sub64
last_digits num =
    if above num bigint_base
    then (num / bigint_base)
      ∷ (sub64 num (int_product (num / bigint_base) bigint_base) % 2 ^ 32)
      ∷ []
    else (num % 2 ^ 32) ∷ []

unfoldable pub int_to_digits : ℕ → List ℕ
unfolding last_digits
int_to_digits num =
    if above num bigint_base2
    then (num / bigint_base2) ∷ last_digits (num - num / bigint_base2 * bigint_base2)
    else last_digits num

unfoldable pub int_to_bigint : ℕ → Bigint
unfolding int_to_digits abs64
int_to_bigint num = record { negative = is_negative num; digits = int_to_digits (abs64 num) }

abbrev pub max_int : Bigint
max_int = record { negative = false; digits = 9 ∷ 223372036 ∷ 854775807 ∷ [] }

abbrev pub min_int : Bigint
min_int = record { negative = true; digits = 9 ∷ 223372036 ∷ 854775808 ∷ [] }

abbrev pub is_greater : Order → Bool
is_greater greater = true
is_greater same = false
is_greater smaller = false

abbrev pub is_smaller : Order → Bool
is_smaller greater = false
is_smaller same = false
is_smaller smaller = true

unfoldable pub int_value : ℕ → List ℕ → ℕ
unfolding add64 mul64
int_value num [] = num
int_value num (d ∷ ds) = int_value (add64 (mul64 num bigint_base) d) ds

-- `none` is ERR_NUMBER_OUT_OF_RANGE.
unfoldable pub bigint_to_int64 : Bigint → Option ℕ
unfolding cmp_bigint int_value neg64
bigint_to_int64 x =
    if is_greater (cmp_bigint x max_int) || is_smaller (cmp_bigint x min_int)
    then none
    else let num = int_value 0 x.digits in some (if x.negative then neg64 num else num)

-- The number that a bit pattern stands for.
abbrev pub word_ℤ : ℕ → ℤ
word_ℤ w = if is_negative w then sub_ℕ w word_size else pos w
