-- ===== src/Bigint/Division.antt =====
-- divModBigint and bigintToAbsFloat of nl-math.c. The doubles here are natural numbers.
use newlisp_neo.Prelude.{
  ℕ, zero, suc, ◌+◌, ◌-◌, ◌*◌, ◌/◌, ◌%◌, List, [], ◌∷◌, ◌++◌, length, Bool, true, false, not, ◌&&◌,
  if◌then◌else◌, ◌==◌, ltb, Option, none, some,
}
use newlisp_neo.Bigint.Digits.{bigint_base}
use newlisp_neo.Bigint.Operations.{
  Bigint, greater, same, smaller, cmp_abs_bigint, trim, sub_abs, differ, is_zero,
}
use newlisp_neo.Bigint.Machine.{is_smaller}

-- The floating-point unit: the double nearest to an integer, and `(int)(a / b + 1.0)`.
pub record Doubles : Type 0 where
  pub round : ℕ → ℕ
  pub quotient : ℕ → ℕ → ℕ

unfoldable pub abs_float : Doubles → ℕ → ℕ → List ℕ → ℕ
abs_float fpu value zero ds = value
abs_float fpu value (suc n) [] = value
abs_float fpu value (suc n) (d ∷ ds) =
    abs_float fpu (fpu.round (fpu.round (value * bigint_base) + d)) n ds

-- Of the first `n` digits, but of one at least.
unfoldable pub bigint_to_abs_float : Doubles → List ℕ → ℕ → ℕ
unfolding abs_float
bigint_to_abs_float fpu [] n = 0
bigint_to_abs_float fpu (d ∷ ds) n = abs_float fpu d (n - 1) ds

-- PRODUCT: `y` times the digit `q`.
unfoldable pub times_digit : ℕ → List ℕ → ℕ × List ℕ
times_digit q [] = (0, [])
times_digit q (y ∷ ys) =
    let (carry, p) = times_digit q ys in
    let digit = y * q + carry in (digit / bigint_base, (digit % bigint_base) ∷ p)

abbrev pub shift_right : ℕ × List ℕ → List ℕ
shift_right (carry, p) = if carry == 0 then p else carry ∷ p

-- "q[sq] too big": it is counted down until the product is not above `r`. `none` where it falls below zero.
unfoldable pub lower : List ℕ → List ℕ → ℕ → Option (ℕ × List ℕ)
unfolding times_digit cmp_abs_bigint
lower r y zero =
    let p = shift_right (times_digit zero y) in
    elim (cmp_abs_bigint r p) [ greater ↦ some (zero, p) | same ↦ some (zero, p) | smaller ↦ none ]
lower r y (suc q) =
    let p = shift_right (times_digit (suc q) y) in
    elim (cmp_abs_bigint r p) [
      | greater ↦ some (suc q, p)
      | same ↦ some (suc q, p)
      | smaller ↦ lower r y q
    ]

abbrev pub starts_with_zero : List ℕ → Bool
starts_with_zero [] = false
starts_with_zero (d ∷ ds) = d == 0

-- From TRIM_ZEROS on, with the rest `r` trimmed and the digit `d` of the quotient.
abbrev pub next_rest : Bool → List ℕ → List ℕ
next_rest is_last r = if starts_with_zero r && not is_last then [] else r

unfoldable pub subtracted_part :
    Bool → List ℕ → List ℕ → Option (ℕ × List ℕ) → Option (List ℕ × List ℕ)
unfolding sub_abs
subtracted_part is_last r q none = none
subtracted_part is_last r q (some (d, p)) = some (next_rest is_last (sub_abs r p), q ++ (d ∷ []))

-- `rFloat / yFloat + 1.0`, or 1 where they are equal.
unfoldable pub estimate : Doubles → ℕ → ℕ → ℕ
estimate fpu r_float y_float = if y_float == r_float then 1 else fpu.quotient r_float y_float

-- How many digits of the rest are compared with the first two of a long divisor.
abbrev pub top_count : List ℕ → List ℕ → ℕ
top_count r y = if ltb 2 (length y) then length r + 2 - length y else length r

unfoldable pub y_float : Doubles → List ℕ → ℕ
unfolding bigint_to_abs_float
y_float fpu y = bigint_to_abs_float fpu y (if ltb 2 (length y) then 2 else length y)

unfoldable pub r_float : Doubles → List ℕ → List ℕ → ℕ
unfolding bigint_to_abs_float
r_float fpu r y = bigint_to_abs_float fpu r (top_count r y)

-- One digit of the quotient.
unfoldable pub quotient_digit : Doubles → List ℕ → Bool → List ℕ → List ℕ → Option (List ℕ × List ℕ)
unfolding y_float r_float estimate lower subtracted_part trim
quotient_digit fpu y is_last r q =
    if ltb (r_float fpu r y) (y_float fpu y)
    then some (next_rest is_last (trim r), q ++ (0 ∷ []))
    else subtracted_part is_last r q (lower r y (estimate fpu (r_float fpu r y) (y_float fpu y)))

abbrev pub is_empty : List ℕ → Bool
is_empty [] = true
is_empty (d ∷ ds) = false

-- The turn of the loop for the digit `x`.
unfoldable pub divide_digit :
    Doubles → List ℕ → Bool → List ℕ → List ℕ → ℕ → Option (List ℕ × List ℕ)
unfolding quotient_digit cmp_abs_bigint
divide_digit fpu y is_last r q x =
    if is_empty q && is_smaller (cmp_abs_bigint (r ++ (x ∷ [])) y)
    then some (r ++ (x ∷ []), q)
    else quotient_digit fpu y is_last (r ++ (x ∷ [])) q

-- The loop over the digits of `x`: the rest, and the digits of the quotient.
unfoldable pub divide_digits :
    Doubles → List ℕ → List ℕ → List ℕ → List ℕ → Option (List ℕ × List ℕ)
unfolding divide_digit
divide_digits fpu y r q [] = some (r, q)
divide_digits fpu y r q (x ∷ xs) = elim (divide_digit fpu y (is_empty xs) r q x) [
  | none ↦ none
  | some p ↦ divide_digits fpu y p.0 p.1 xs
]

-- ERR_MATH, or the quotient or the rest.
pub data Division : Type 0 where
  math_error endless : Division
  divides_to : Bigint → Division

abbrev pub result_of : Bool → Bigint → Bigint → Option (List ℕ × List ℕ) → Division
result_of rmndr x y none = endless
result_of true x y (some (r, q)) = divides_to (record { negative = x.negative; digits = r })
result_of false x y (some (r, q)) =
    divides_to (record { negative = differ x.negative y.negative; digits = q })

-- `abs(x) < abs(y)`
abbrev pub small_dividend : Bool → Bigint → Division
small_dividend true x = divides_to x
small_dividend false x = divides_to (record { negative = false; digits = 0 ∷ [] })

unfoldable pub div_mod_bigint : Doubles → Bigint → Bigint → Bool → Division
unfolding divide_digits cmp_abs_bigint
div_mod_bigint fpu x y rmndr =
    if is_zero y.digits
    then math_error
    else if is_smaller (cmp_abs_bigint x.digits y.digits)
    then small_dividend rmndr x
    else result_of rmndr x y (divide_digits fpu y.digits [] [] x.digits)
