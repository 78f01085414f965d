-- ===== src/Bigint/DivMod.antt =====
-- The quotient and the rest that divModBigint of nl-math.c gives.
use mathlib.Core.Path.{subst}
use newlisp_neo.Prelude.{
  ℕ, zero, suc, ◌+◌, ◌*◌, ◌≤◌, ◌<◌, ◌≡◌, refl, sym, ap, ◌∙◌, List, [], ◌∷◌, arith, Bool, true,
  false, if_both, if◌then◌else◌, pos, ◌+ℤ◌, ◌*ℤ◌,
}
use newlisp_neo.Bigint.Digits.{weight, value, IsNumber}
use newlisp_neo.Bigint.Operations.{Bigint, cmp_abs_bigint, is_zero, differ, signed, to_ℤ}
use newlisp_neo.Bigint.Machine.{is_smaller}
use newlisp_neo.Bigint.Compare.{cmp_abs_bigint-Compares}
use newlisp_neo.Bigint.Ordering.{is_zero-value}
use newlisp_neo.Bigint.Differences.{signed-multiply, signed-add_same}
use newlisp_neo.Bigint.Division.{
  Doubles, Division, math_error, divides_to, result_of, small_dividend, divide_digits,
  div_mod_bigint,
}
use newlisp_neo.Bigint.Rounding.{IsDoubles}
use newlisp_neo.Bigint.LongDivision.{IsLead, IsReady, smaller_one, not_smaller, long_division}

signed_zero : (s : Bool) → signed s 0 ≡ pos 0
signed_zero true = refl
signed_zero false = refl

differ_twice : (s t : Bool) → differ (differ s t) t ≡ s
differ_twice true true = refl
differ_twice true false = refl
differ_twice false true = refl
differ_twice false false = refl

signed_division :
    (s t : Bool) (q m r n : ℕ)
    → r + q * m ≡ n
    → signed (differ s t) q *ℤ signed t m +ℤ signed s r ≡ signed s n
signed_division s t q m r n e =
    ap (λ z. z +ℤ signed s r)
      (sym (signed-multiply (differ s t) t q m) ∙ ap (λ b. signed b (q * m)) (differ_twice s t))
    ∙ sym (signed-add_same s (q * m) r)
    ∙ ap (signed s) (omega (arith, e))

small_division : (s t : Bool) (m n : ℕ) → pos 0 *ℤ signed t m +ℤ signed s n ≡ signed s n
small_division s t m n =
    ap (λ z. z *ℤ signed t m +ℤ signed s n) (sym (signed_zero (differ s t)))
    ∙ signed_division s t 0 m n n (omega arith)

-- Quotient and rest, cut towards zero.
abbrev pub IsDivision : Bigint → Bigint → Division → Division → Type 0
IsDivision x y quotient rest =
    (q : Bigint) × (r : Bigint) × (quotient ≡ divides_to q)
    × (rest ≡ divides_to r)
    × IsNumber q.digits
    × IsNumber r.digits
    × (to_ℤ q *ℤ to_ℤ y +ℤ to_ℤ r ≡ to_ℤ x)
    × (value r.digits < value y.digits)
    × (r.negative ≡ x.negative)

zero_digit : value (0 ∷ []) ≡ 0
zero_digit = omega arith

IsReady-at_first : (xs : List ℕ) → IsNumber xs → 0 < value xs → IsReady [] [] xs
unfolding weight
IsReady-at_first [] (a, t) p = absurd t
IsReady-at_first (d ∷ []) ((h, hs), t) p = (((h, tt), tt), λ e. omega (arith, p))
IsReady-at_first (d ∷ e ∷ xs) ((h, hs), t) p = (((h, tt), tt), λ s. t)

lead-IsNumber : (q : List ℕ) → IsLead q → 0 < value q → IsNumber q
lead-IsNumber [] l p = absurd (omega arith)
lead-IsNumber (d ∷ []) (p, l) k = (l, tt)
lead-IsNumber (d ∷ e ∷ q) (p, l) k = (l, p)

some_quotient : (q r m n : ℕ) → r + q * m ≡ n → r < m → m ≤ n → 0 < q
some_quotient zero r m n e h k = absurd (omega (arith, e, h, k))
some_quotient (suc q) r m n e h k = omega arith

-- A quotient that is not zero.
divided :
    (fpu : Doubles) (x y : Bigint)
    → IsDoubles fpu
    → IsNumber x.digits
    → IsNumber y.digits
    → 0 < value y.digits
    → value y.digits ≤ value x.digits
    → IsDivision x y
        (result_of false x y (divide_digits fpu y.digits [] [] x.digits))
        (result_of true x y (divide_digits fpu y.digits [] [] x.digits))
divided fpu x y ieee a b p h =
    let (r, q, out, total, small, number, lead) =
      long_division fpu ieee y.digits b p x.digits [] [] a.0 p tt
        (IsReady-at_first x.digits a (omega (arith, h, p))) in
    let whole : value r + value q * value y.digits ≡ value x.digits = omega (arith, total) in
    let quotient =
      lead-IsNumber q lead
        (some_quotient (value q) (value r) (value y.digits) (value x.digits) whole small h) in
    (
      record { negative = differ x.negative y.negative; digits = q },
      record { negative = x.negative; digits = r },
      ap (result_of false x y) out,
      ap (result_of true x y) out,
      quotient,
      number,
      signed_division x.negative y.negative (value q) (value y.digits) (value r) (value x.digits)
          whole,
      small,
      refl,
    )

small_dividend-IsDivision :
    (x y : Bigint)
    → IsNumber x.digits
    → value x.digits < value y.digits
    → IsDivision x y (small_dividend false x) (small_dividend true x)
small_dividend-IsDivision x y a h = (
  record { negative = false; digits = 0 ∷ [] },
  x,
  refl,
  refl,
  ((omega arith, tt), tt),
  a,
  ap (λ n. pos n *ℤ to_ℤ y +ℤ to_ℤ x) zero_digit
      ∙ small_division x.negative y.negative (value y.digits) (value x.digits),
  h,
  refl,
)

both_ifs :
    (P : Division → Division → Type 0) (b : Bool) {k l m n : Division}
    → (b ≡ true → P k l)
    → (b ≡ false → P m n)
    → P (if b then k else m) (if b then l else n)
both_ifs P true t f = t refl
both_ifs P false t f = f refl

-- The test of the divisor.
abbrev unless : Bool → Division → Division
unless z d = if z then math_error else d

abbrev div_branch : Doubles → Bigint → Bigint → Bool → Division
div_branch fpu x y rmndr =
    if is_smaller (cmp_abs_bigint x.digits y.digits)
    then small_dividend rmndr x
    else result_of rmndr x y (divide_digits fpu y.digits [] [] x.digits)

-- For doubles as in IEEE 754, two bigints in digits below BIGINT_BASE without a leading zero, and a divisor that is not zero,
-- divModBigint ends and gives a quotient and a rest in digits of this form: the quotient times the divisor and the rest
-- added are the dividend as integers, the rest is below the divisor in absolute value, and it has the sign of the dividend.
pub div_mod_bigint-IsDivision :
    (fpu : Doubles) (x y : Bigint)
    → IsDoubles fpu
    → IsNumber x.digits
    → IsNumber y.digits
    → 0 < value y.digits
    → IsDivision x y (div_mod_bigint fpu x y false) (div_mod_bigint fpu x y true)
unfolding div_mod_bigint
div_mod_bigint-IsDivision fpu x y ieee a b p =
    let not_zero : is_zero y.digits ≡ false =
      if_both (λ (_ : Bool). is_zero y.digits ≡ false) (is_zero y.digits) {x = true} {y = true}
        (λ z. absurd (omega (arith, p, is_zero-value y.digits z))) (λ z. z) in
    let found = cmp_abs_bigint-Compares x.digits y.digits a b in
    let order = cmp_abs_bigint x.digits y.digits in
    subst
      (λ z.
        IsDivision x y (unless z (div_branch fpu x y false)) (unless z (div_branch fpu x y true)))
      (sym not_zero)
      (both_ifs (IsDivision x y) (is_smaller order)
        (λ less.
          small_dividend-IsDivision x y a
            (smaller_one (value x.digits) (value y.digits) order found less))
        (λ more.
          divided fpu x y ieee a b p
            (not_smaller (value x.digits) (value y.digits) order found more)))
