-- ===== src/Bigint/Tests.antt =====
-- Concrete bigints.
use newlisp_neo.Bigint.Digits.{weight}
use newlisp_neo.Prelude.{◌/◌}
use newlisp_neo.Bigint.Division.{Doubles, divides_to, math_error, div_mod_bigint}
use newlisp_neo.Bigint.Conversion.{one_digit}
use newlisp_neo.Prelude.{neg_ℤ}
use newlisp_neo.Bigint.Operators.{
  op_subtract, long, big, subtracts, folded, Results, arithmetic_op, arithmetic_op-Results,
}
use newlisp_neo.Bigint.Rounding.{IsDoubles}
use newlisp_neo.Bigint.DivMod.{IsDivision, div_mod_bigint-IsDivision}
use newlisp_neo.Prelude.{
  ℕ, ◌+◌, ◌-◌, ◌*◌, ◌^◌, ◌≡◌, refl, List, [], ◌∷◌, ◌++◌, true, false, some, none, arith, negsuc,
  ◌+ℤ◌, ◌*ℤ◌, abs64,
}
use newlisp_neo.Bigint.Digits.{IsNumber}
use newlisp_neo.Bigint.Operations.{Bigint, add_bigint, sub_bigint, mul_bigint, cmp_bigint, to_ℤ}
use newlisp_neo.Bigint.Signs.{Means, add_bigint-Means, mul_bigint-Means}
use newlisp_neo.Bigint.Ordering.{Places, cmp_bigint-Places}
use newlisp_neo.Bigint.Text.{bigint_to_digits, str_to_bigint}
use newlisp_neo.Bigint.Decimal.{ten_pow}
use newlisp_neo.Bigint.Reading.{str_to_bigint-Means}
use newlisp_neo.Bigint.RoundTrip.{str_to_bigint-bigint_to_digits}
use newlisp_neo.Bigint.Machine.{int_to_bigint, bigint_to_int64, word_ℤ}
use newlisp_neo.Bigint.Conversion.{two_digits, int_to_bigint-Means, int_to_bigint-lost}
use newlisp_neo.Bigint.Narrowing.{Converts, bigint_to_int64-Converts}

-- 999999999999999999, and -5 and -3000000004.
abbrev nines : Bigint
nines = record { negative = false; digits = 999999999 ∷ 999999999 ∷ [] }

abbrev minus_five : Bigint
minus_five = record { negative = true; digits = 5 ∷ [] }

abbrev minus_long : Bigint
minus_long = record { negative = true; digits = 3 ∷ 4 ∷ [] }

nines-IsNumber : IsNumber nines.digits
nines-IsNumber = ((omega arith, (omega arith, tt)), omega arith)

five-IsNumber : IsNumber minus_five.digits
five-IsNumber = ((omega arith, tt), tt)

long-IsNumber : IsNumber minus_long.digits
long-IsNumber = ((omega arith, (omega arith, tt)), omega arith)

nines_and_nines :
    add_bigint nines nines ≡ record { negative = false; digits = 1 ∷ 999999999 ∷ 999999998 ∷ [] }
unfolding add_bigint
nines_and_nines = refl

five_minus_five : sub_bigint minus_five minus_five ≡ record { negative = false; digits = 0 ∷ [] }
unfolding sub_bigint
five_minus_five = refl

nines_times_five :
    mul_bigint nines minus_five
    ≡ record { negative = true; digits = 4 ∷ 999999999 ∷ 999999995 ∷ [] }
unfolding mul_bigint
nines_times_five = refl

-- -3000000004L
long_text :
    bigint_to_digits minus_long ≡ some (45 ∷ 51 ∷ 48 ∷ 48 ∷ 48 ∷ 48 ∷ 48 ∷ 48 ∷ 48 ∷ 48 ∷ 52 ∷ [])
unfolding bigint_to_digits
long_text = refl

long_read :
    str_to_bigint (45 ∷ 51 ∷ 48 ∷ 48 ∷ 48 ∷ 48 ∷ 48 ∷ 48 ∷ 48 ∷ 48 ∷ 52 ∷ 76 ∷ []) ≡ minus_long
unfolding str_to_bigint
long_read = refl

-- Less than the greatest INT64, and 2^63.
long_word : bigint_to_int64 minus_long ≡ some (2 ^ 64 - 3000000004)
unfolding bigint_to_int64
long_word = refl

too_long :
    bigint_to_int64 (record { negative = false; digits = 9 ∷ 223372036 ∷ 854775808 ∷ [] }) ≡ none
unfolding bigint_to_int64
too_long = refl

add_bigint-Means_example : Means (to_ℤ nines +ℤ to_ℤ minus_long) (add_bigint nines minus_long)
add_bigint-Means_example = add_bigint-Means nines minus_long nines-IsNumber long-IsNumber

mul_bigint-Means_example : Means (to_ℤ nines *ℤ to_ℤ minus_long) (mul_bigint nines minus_long)
mul_bigint-Means_example = mul_bigint-Means nines minus_long nines-IsNumber long-IsNumber

cmp_bigint-Places_example :
    Places (to_ℤ minus_long) (to_ℤ minus_five) (cmp_bigint minus_long minus_five)
cmp_bigint-Places_example = cmp_bigint-Places minus_long minus_five long-IsNumber five-IsNumber

-- -0042L
str_to_bigint-Means_example : Means (negsuc 41) (str_to_bigint (45 ∷ 48 ∷ 48 ∷ 52 ∷ 50 ∷ 76 ∷ []))
unfolding ten_pow
str_to_bigint-Means_example =
    str_to_bigint-Means (some true) (48 ∷ 48 ∷ 52 ∷ 50 ∷ []) true
      (
        (omega arith, omega arith),
        (
          (omega arith, omega arith),
          ((omega arith, omega arith), ((omega arith, omega arith), tt)),
        ),
      )
      (omega arith)

str_to_bigint-bigint_to_digits_example :
    (text : List ℕ) × (bigint_to_digits minus_long ≡ some text)
    × (str_to_bigint (text ++ (76 ∷ [])) ≡ minus_long)
str_to_bigint-bigint_to_digits_example =
    str_to_bigint-bigint_to_digits minus_long long-IsNumber refl

-- (bigint -3000000004)
int_to_bigint-Means_example :
    Means (word_ℤ (2 ^ 64 - 3000000004)) (int_to_bigint (2 ^ 64 - 3000000004))
unfolding abs64
int_to_bigint-Means_example =
    int_to_bigint-Means (2 ^ 64 - 3000000004) (omega arith) (λ e. absurd (omega (arith, e)))
      (two_digits (omega arith) (omega arith))

-- (bigint 5000000000000000007)
int_to_bigint-lost_example :
    int_to_bigint (5 * 1000000000000000000 + 7) ≡ record { negative = false; digits = 5 ∷ 7 ∷ [] }
int_to_bigint-lost_example =
    int_to_bigint-lost 5 7 (omega arith) (omega arith) (omega arith) (omega arith)

bigint_to_int64-Converts_example : Converts (to_ℤ minus_long) (bigint_to_int64 minus_long)
bigint_to_int64-Converts_example = bigint_to_int64-Converts minus_long long-IsNumber

-- Numbers without rounding.
abbrev plain : Doubles
plain = record { round = λ n. n; quotient = λ a b. a / b + 1 }

plain-IsDoubles : IsDoubles plain
plain-IsDoubles = record {
  monotone = λ m n h. h;
  exact = λ m k h l. refl;
  above = λ n h. omega arith;
  below = λ n h. omega arith;
  whole_part = λ a b p h. omega arith;
}

-- (/ 999999999999999999L -3000000004L) and (% 999999999999999999L -3000000004L)
nines_divided :
    div_mod_bigint plain nines minus_long false
    ≡ divides_to (record { negative = true; digits = 333333332 ∷ [] })
unfolding div_mod_bigint
nines_divided = refl

nines_rest :
    div_mod_bigint plain nines minus_long true
    ≡ divides_to (record { negative = false; digits = 2 ∷ 666666671 ∷ [] })
unfolding div_mod_bigint
nines_rest = refl

by_zero :
    div_mod_bigint plain nines (record { negative = false; digits = 0 ∷ [] }) false ≡ math_error
unfolding div_mod_bigint
by_zero = refl

div_mod_bigint-IsDivision_example :
    IsDivision nines minus_long
      (div_mod_bigint plain nines minus_long false)
      (div_mod_bigint plain nines minus_long true)
unfolding weight
div_mod_bigint-IsDivision_example =
    div_mod_bigint-IsDivision plain nines minus_long plain-IsDoubles nines-IsNumber long-IsNumber
      (omega arith)

-- (- 999999999999999999L 7 -5L)
arithmetic_op-Results_example :
    Results
      (folded (λ m n. m +ℤ neg_ℤ n) (to_ℤ nines) (long 7 ∷ big minus_five ∷ []))
      (arithmetic_op plain op_subtract nines (long 7 ∷ big minus_five ∷ []))
unfolding abs64
arithmetic_op-Results_example =
    arithmetic_op-Results plain op_subtract (λ m n. m +ℤ neg_ℤ n) nines (long 7)
      (big minus_five ∷ []) subtracts nines-IsNumber
      (
        (omega arith, (λ e. absurd (omega (arith, e))), one_digit (omega arith)),
        (five-IsNumber, tt),
      )
