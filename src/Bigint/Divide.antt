-- ===== src/Bigint/Divide.antt =====
-- The long division of divModBigint in nl-math.c.
use native.Mathlib.Nat.{mul-le-mul_right}
use newlisp_neo.Prelude.{
  ℕ, suc, ◌+◌, ◌-◌, ◌*◌, ◌≤◌, ◌<◌, ◌≡◌, refl, List, [], ◌∷◌, ◌++◌, length, arith, Bool, true,
  Option, none, some, if_both, ltb,
}
use newlisp_neo.Bigint.Digits.{
  bigint_base, weight, value, AreDigits, IsNumber, value-lt, trimmed_le,
}
use newlisp_neo.Bigint.Operations.{trim, sub_abs}
use newlisp_neo.Bigint.Subtract.{trim-value, trim-IsNumber, sub_abs-value}
use newlisp_neo.Bigint.Compare.{weight_le}
use newlisp_neo.Bigint.Division.{
  Doubles, next_rest, subtracted_part, y_float, r_float, quotient_digit,
}
use newlisp_neo.Bigint.Quotient.{IsQuotient, lower-IsQuotient}
use newlisp_neo.Bigint.Rounding.{IsDoubles}
use newlisp_neo.Bigint.Tops.{shorter_float, r_float-less, estimate-enough}

-- One more digit of the quotient, and the rest that it leaves.
abbrev pub Steps : Bool → ℕ → ℕ → List ℕ → Option (List ℕ × List ℕ) → Type 0
Steps is_last n m q out =
    (d : ℕ) × (r : List ℕ) × (out ≡ some (next_rest is_last r, q ++ (d ∷ [])))
    × (value r + d * m ≡ n)
    × (value r < m)
    × IsNumber r
    × (d < bigint_base)

digit_below : (d n m : ℕ) → d * m ≤ n → n < bigint_base * m → d < bigint_base
digit_below d n m h k =
    if_both (λ (_ : Bool). d < bigint_base) (ltb d bigint_base) {x = true} {y = true}
      (λ q. ground (arith, q))
      (λ q.
        let great : bigint_base ≤ d = ground (arith, q) in
        absurd (omega (arith, h, k, mul-le-mul_right m great)))

subtracted_part-Steps :
    (is_last : Bool) (r q : List ℕ) (m : ℕ) (found : Option (ℕ × List ℕ))
    → IsNumber r
    → value r < bigint_base * m
    → IsQuotient r m found
    → Steps is_last (value r) m q (subtracted_part is_last r q found)
unfolding subtracted_part
subtracted_part-Steps is_last r q m none a b h = absurd h
subtracted_part-Steps is_last r q m (some (d, p)) a b (e, low, high, short, digits) =
    let (v, number) = sub_abs-value r p short a.0 digits low in
    (
      d,
      sub_abs r p,
      refl,
      omega (arith, v, e),
      omega (arith, v, high),
      number,
      digit_below d (value r) m (omega (arith, e, low)) b,
    )

-- The rest is not longer than the divisor and one digit.
not_much_longer :
    (r y : List ℕ)
    → IsNumber r
    → AreDigits y
    → value r < bigint_base * value y
    → length r ≤ suc (length y)
unfolding weight
not_much_longer r y (a, t) b h =
    if_both (λ (_ : Bool). length r ≤ suc (length y)) (ltb (suc (length y)) (length r)) {x = true}
      {y = true}
      (λ q.
        let long : suc (length y) < length r = ground (arith, q) in
        absurd (
          omega (
            arith,
            h,
            value-lt y b,
            trimmed_le r t (omega (arith, long)),
            weight_le (suc (length y)) (length r - 1) (omega (arith, long)),
          )))
      (λ q. ground (arith, q))

module _ (fpu : Doubles) (ieee : IsDoubles fpu) (y : List ℕ) (number : IsNumber y)
    (positive : 0 < value y) where
  pub quotient_digit-Steps :
      (is_last : Bool) (r q : List ℕ)
      → IsNumber r
      → value r < bigint_base * value y
      → Steps is_last (value r) (value y) q (quotient_digit fpu y is_last r q)
  unfolding quotient_digit
  quotient_digit-Steps is_last r q a b =
      let few = not_much_longer r y a number.0 b in
      if_both (Steps is_last (value r) (value y) q) (ltb (r_float fpu r y) (y_float fpu y))
        (λ s.
          let less = r_float-less fpu ieee r y a number few (ground (arith, s)) in
          (
            0,
            trim r,
            refl,
            omega (arith, trim-value r),
            omega (arith, trim-value r, less),
            trim-IsNumber r a.0,
            omega arith,
          ))
        (λ s.
          let long : length y ≤ length r =
            if_both (λ (_ : Bool). length y ≤ length r) (ltb (length r) (length y)) {x = true}
              {y = true}
              (λ t.
                absurd (ground (arith, s, shorter_float fpu ieee r y a number (ground (arith, t)))))
              (λ t. ground (arith, t)) in
          subtracted_part-Steps is_last r q (value y) _ a b (
            lower-IsQuotient r y _ a number long few
              (estimate-enough fpu ieee r y a number positive long few b)))
