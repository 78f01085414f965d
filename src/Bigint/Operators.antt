-- ===== src/Bigint/Operators.antt =====
-- arithmetikOp of nl-math.c when its first argument is a bigint, with the arguments evaluated.
use mathlib.Core.Path.{subst}
use newlisp_neo.Prelude.{
  ℕ, ◌<◌, ◌≡◌, ◌≢◌, ◌^◌, refl, ap, ◌∙◌, List, [], ◌∷◌, true, false, not, word_size, abs64, ℤ, ◌+ℤ◌,
  ◌*ℤ◌, neg_ℤ,
}
use newlisp_neo.Bigint.Digits.{IsNumber}
use newlisp_neo.Bigint.Operations.{Bigint, add_bigint, sub_bigint, mul_bigint, to_ℤ}
use newlisp_neo.Bigint.Signs.{Means, add_bigint-Means, sub_bigint-Means, mul_bigint-Means}
use newlisp_neo.Bigint.Machine.{int_to_bigint, word_ℤ}
use newlisp_neo.Bigint.Conversion.{IsExact, int_to_bigint-Means}
use newlisp_neo.Bigint.Division.{Doubles, Division, math_error, endless, divides_to, div_mod_bigint}

pub data Operator : Type 0 where
  op_add op_subtract op_multiply op_divide op_modulo : Operator
  op_bit_or op_bit_and op_bit_xor op_shiftl op_shiftr : Operator

-- An argument, an INT or a bigint.
pub data Argument : Type 0 where
  long : ℕ → Argument
  big : Bigint → Argument

-- A result, ERR_MATH, ERR_BIGINT_NOT_ALLOWED, or no end.
pub data Outcome : Type 0 where
  done : Bigint → Outcome
  err_math err_not_allowed no_end : Outcome

-- getBigintSizeDirect
unfoldable pub direct_bigint : Argument → Bigint
unfolding int_to_bigint
direct_bigint (long n) = int_to_bigint n
direct_bigint (big x) = x

abbrev pub division_outcome : Division → Outcome
division_outcome math_error = err_math
division_outcome endless = no_end
division_outcome (divides_to x) = done x

unfoldable pub bigint_operation : Doubles → Operator → Bigint → Bigint → Outcome
unfolding add_bigint sub_bigint mul_bigint div_mod_bigint
bigint_operation fpu op_add x y = done (add_bigint x y)
bigint_operation fpu op_subtract x y = done (sub_bigint x y)
bigint_operation fpu op_multiply x y = done (mul_bigint x y)
bigint_operation fpu op_divide x y = division_outcome (div_mod_bigint fpu x y false)
bigint_operation fpu op_modulo x y = division_outcome (div_mod_bigint fpu x y true)
bigint_operation fpu op_bit_or x y = err_not_allowed
bigint_operation fpu op_bit_and x y = err_not_allowed
bigint_operation fpu op_bit_xor x y = err_not_allowed
bigint_operation fpu op_shiftl x y = err_not_allowed
bigint_operation fpu op_shiftr x y = err_not_allowed

-- From NEXT_FIRST_BIGINT on, with the arguments that are left.
unfoldable pub next_bigint : Doubles → Operator → Bigint → List Argument → Outcome
unfolding bigint_operation direct_bigint
next_bigint fpu op x [] = done x
next_bigint fpu op x (y ∷ ys) = elim (bigint_operation fpu op x (direct_bigint y)) [
  | done z ↦ next_bigint fpu op z ys
  | err_math ↦ err_math
  | err_not_allowed ↦ err_not_allowed
  | no_end ↦ no_end
]

-- One argument.
abbrev pub single_bigint : Operator → Bigint → Outcome
single_bigint op_add x = done x
single_bigint op_subtract x = done (record x { negative = not x.negative })
single_bigint op_multiply x = done x
single_bigint op_divide x = done x
single_bigint op_modulo x = done x
single_bigint op_bit_or x = err_not_allowed
single_bigint op_bit_and x = err_not_allowed
single_bigint op_bit_xor x = err_not_allowed
single_bigint op_shiftl x = err_not_allowed
single_bigint op_shiftr x = err_not_allowed

unfoldable pub arithmetic_op : Doubles → Operator → Bigint → List Argument → Outcome
unfolding next_bigint
arithmetic_op fpu op x [] = single_bigint op x
arithmetic_op fpu op x (y ∷ ys) = next_bigint fpu op x (y ∷ ys)

-- The operators that give an integer of any two.
pub data IsRing : Operator → (ℤ → ℤ → ℤ) → Type 0 where
  adds : IsRing op_add ◌+ℤ◌
  subtracts : IsRing op_subtract (λ m n. m +ℤ neg_ℤ n)
  multiplies : IsRing op_multiply ◌*ℤ◌

abbrev pub argument_ℤ : Argument → ℤ
argument_ℤ (long n) = word_ℤ n
argument_ℤ (big x) = to_ℤ x

-- An INT whose digits intToBigint writes out in full, or a bigint as the program makes them.
abbrev pub IsKept : Argument → Type 0
IsKept (long n) = (n < word_size) × (n ≢ 2 ^ 63) × IsExact (abs64 n)
IsKept (big x) = IsNumber x.digits

abbrev pub AreKept : List Argument → Type 0
AreKept [] = Unit
AreKept (y ∷ ys) = IsKept y × AreKept ys

abbrev pub folded : (ℤ → ℤ → ℤ) → ℤ → List Argument → ℤ
folded f n [] = n
folded f n (y ∷ ys) = folded f (f n (argument_ℤ y)) ys

direct_bigint-Means : (y : Argument) → IsKept y → Means (argument_ℤ y) (direct_bigint y)
unfolding direct_bigint
direct_bigint-Means (long n) (h, k, e) = int_to_bigint-Means n h k e
direct_bigint-Means (big x) h = (refl, h)

abbrev pub Results : ℤ → Outcome → Type 0
Results n out = (z : Bigint) × (out ≡ done z) × Means n z

bigint_operation-Results :
    (fpu : Doubles) (op : Operator) (f : ℤ → ℤ → ℤ) (x y : Bigint)
    → IsRing op f
    → IsNumber x.digits
    → IsNumber y.digits
    → Results (f (to_ℤ x) (to_ℤ y)) (bigint_operation fpu op x y)
unfolding bigint_operation
bigint_operation-Results fpu op_add f x y adds a b =
    (add_bigint x y, refl, add_bigint-Means x y a b)
bigint_operation-Results fpu op_subtract f x y subtracts a b =
    (sub_bigint x y, refl, sub_bigint-Means x y a b)
bigint_operation-Results fpu op_multiply f x y multiplies a b =
    (mul_bigint x y, refl, mul_bigint-Means x y a b)
bigint_operation-Results fpu op_divide f x y r a b = elim r [ ]
bigint_operation-Results fpu op_modulo f x y r a b = elim r [ ]
bigint_operation-Results fpu op_bit_or f x y r a b = elim r [ ]
bigint_operation-Results fpu op_bit_and f x y r a b = elim r [ ]
bigint_operation-Results fpu op_bit_xor f x y r a b = elim r [ ]
bigint_operation-Results fpu op_shiftl f x y r a b = elim r [ ]
bigint_operation-Results fpu op_shiftr f x y r a b = elim r [ ]

next_bigint-Results :
    (fpu : Doubles) (op : Operator) (f : ℤ → ℤ → ℤ) (x : Bigint) (ys : List Argument)
    → IsRing op f
    → IsNumber x.digits
    → AreKept ys
    → Results (folded f (to_ℤ x) ys) (next_bigint fpu op x ys)
unfolding next_bigint
next_bigint-Results fpu op f x [] r a h = (x, refl, (refl, a))
next_bigint-Results fpu op f x (y ∷ ys) r a (h, hs) =
    let (e, b) = direct_bigint-Means y h in
    let (z, out, (v, c)) = bigint_operation-Results fpu op f x (direct_bigint y) r a b in
    let (last, found, means) = next_bigint-Results fpu op f z ys r c hs in
    (
      last,
      ap
            (λ o. elim o [
              | done t ↦ next_bigint fpu op t ys
              | err_math ↦ err_math
              | err_not_allowed ↦ err_not_allowed
              | no_end ↦ no_end
            ])
            out
          ∙ found,
      subst (λ n. Means (folded f n ys) last) (v ∙ ap (f (to_ℤ x)) e) means,
    )

-- For `+`, `-` and `*`, a bigint and at least one further argument, arithmetikOp gives a bigint that
-- stands for the integer which the operation on integers gives from left to right. The bigints are
-- in digits below BIGINT_BASE without a leading zero, and so is the result. An INT among the
-- arguments is not the smallest one, and its absolute value is below 10^9, or between 10^9 and
-- 10^18, or above 10^18 with a rest modulo 10^18 that is above 10^9; the bounds are left out.
pub arithmetic_op-Results :
    (fpu : Doubles) (op : Operator) (f : ℤ → ℤ → ℤ) (x : Bigint) (y : Argument) (ys : List Argument)
    → IsRing op f
    → IsNumber x.digits
    → AreKept (y ∷ ys)
    → Results (folded f (to_ℤ x) (y ∷ ys)) (arithmetic_op fpu op x (y ∷ ys))
unfolding arithmetic_op
arithmetic_op-Results fpu op f x y ys r a h = next_bigint-Results fpu op f x (y ∷ ys) r a h
