-- ===== src/Bigint/Signs.antt =====
-- What addBigint, subBigint, mulBigint and cmpBigint of nl-math.c do to the numbers meant.
use mathlib.Core.Path.{subst}
use newlisp_neo.Prelude.{
  ℕ, ◌+◌, ◌≤◌, ◌≡◌, refl, sym, ap, ◌∙◌, arith, List, length, if_both, Bool, true, false, not, ltb,
  ℤ, neg_ℤ, ◌+ℤ◌, ◌*ℤ◌,
}
use newlisp_neo.Bigint.Digits.{value, IsNumber}
use newlisp_neo.Bigint.Operations.{
  Bigint, differ, Order, greater, same, smaller, sub_abs, cmp_abs_bigint, sub_same_sign, add_longer,
  add_bigint, sub_bigint, mul_bigint, signed, to_ℤ,
}
use newlisp_neo.Bigint.Add.{add_abs-value, add_abs-IsNumber}
use newlisp_neo.Bigint.Subtract.{sub_abs-value}
use newlisp_neo.Bigint.Compare.{Compares, cmp_abs_bigint-Compares, not_longer}
use newlisp_neo.Bigint.Multiply.{mul_digits-value}
use newlisp_neo.Bigint.Differences.{
  signed-difference, signed-add_same, signed-opposite, signed-multiply, add_comm-ℤ,
}

-- A bigint as the program keeps it, that stands for this number.
abbrev pub Means : ℤ → Bigint → Type 0
Means n x = (to_ℤ x ≡ n) × IsNumber x.digits

opposed : (s t : Bool) → differ s t ≡ true → not s ≡ t
opposed true true h = absurd (ground (arith, h))
opposed true false h = refl
opposed false true h = refl
opposed false false h = absurd (ground (arith, h))

agreed : (s t : Bool) → differ s t ≡ false → s ≡ t
agreed true true h = refl
agreed true false h = absurd (ground (arith, h))
agreed false true h = absurd (ground (arith, h))
agreed false false h = refl

differ_comm : (s t : Bool) → differ t s ≡ differ s t
differ_comm true true = refl
differ_comm true false = refl
differ_comm false true = refl
differ_comm false false = refl

-- The difference with the sign of the greater one.
signed_back : (s : Bool) (m n d : ℕ) → d + m ≡ n → signed (not s) d ≡ signed s m +ℤ signed (not s) n
signed_back true m n d h =
    signed-difference false n m d h ∙ add_comm-ℤ (signed false n) (signed true m)
signed_back false m n d h =
    signed-difference true n m d h ∙ add_comm-ℤ (signed true n) (signed false m)

swapped :
    (s : Bool) (xs ys : List ℕ)
    → IsNumber xs
    → IsNumber ys
    → value xs ≤ value ys
    → Means
        (signed s (value xs) +ℤ signed (not s) (value ys))
        (record { negative = not s; digits = sub_abs ys xs })
swapped s xs ys a b h =
    let (v, n) = sub_abs-value ys xs (not_longer ys xs b a.1 h) b.0 a.0 h in
    (signed_back s (value xs) (value ys) (value (sub_abs ys xs)) v, n)

chosen :
    (s : Bool) (xs ys : List ℕ)
    → IsNumber xs
    → IsNumber ys
    → (o : Order) → Compares (value xs) (value ys) o
    → Means (signed s (value xs) +ℤ signed (not s) (value ys)) (elim o [
      | greater ↦ record { negative = s; digits = sub_abs xs ys }
      | same ↦ record { negative = not s; digits = sub_abs ys xs }
      | smaller ↦ record { negative = not s; digits = sub_abs ys xs }
    ])
chosen s xs ys a b greater h =
    let (v, n) =
      sub_abs-value xs ys (not_longer xs ys a b.1 (omega (arith, h))) a.0 b.0 (omega (arith, h)) in
    (signed-difference s (value xs) (value ys) (value (sub_abs xs ys)) v, n)
chosen s xs ys a b same h = swapped s xs ys a b (omega (arith, h))
chosen s xs ys a b smaller h = swapped s xs ys a b (omega (arith, h))

sub_same_sign-Means :
    (s : Bool) (xs ys : List ℕ)
    → IsNumber xs
    → IsNumber ys
    → Means (signed s (value xs) +ℤ signed (not s) (value ys)) (sub_same_sign s xs ys)
unfolding sub_same_sign
sub_same_sign-Means s xs ys a b =
    chosen s xs ys a b (cmp_abs_bigint xs ys) (cmp_abs_bigint-Compares xs ys a b)

-- Addition of a number that is not longer.
add_longer-Means :
    (x y : Bigint)
    → IsNumber x.digits
    → IsNumber y.digits
    → length y.digits ≤ length x.digits
    → Means (to_ℤ x +ℤ to_ℤ y) (add_longer x y)
unfolding add_longer
add_longer-Means x y a b h =
    if_both (Means (to_ℤ x +ℤ to_ℤ y)) (differ x.negative y.negative)
      (λ q.
        subst
          (λ t.
            Means (to_ℤ x +ℤ signed t (value y.digits))
              (sub_same_sign x.negative x.digits y.digits))
          (opposed x.negative y.negative q) (sub_same_sign-Means x.negative x.digits y.digits a b))
      (λ q. (
        ap (signed x.negative) (add_abs-value x.digits y.digits h)
            ∙ signed-add_same x.negative (value x.digits) (value y.digits)
            ∙ ap (λ t. to_ℤ x +ℤ signed t (value y.digits)) (agreed x.negative y.negative q),
        add_abs-IsNumber x.digits y.digits h a b.0,
      ))

-- For two bigints of digits below BIGINT_BASE without a leading zero, of any signs and lengths, addBigint gives a bigint of
-- this form that stands for the sum of the two integers.
pub add_bigint-Means :
    (x y : Bigint)
    → IsNumber x.digits
    → IsNumber y.digits
    → Means (to_ℤ x +ℤ to_ℤ y) (add_bigint x y)
unfolding add_bigint
add_bigint-Means x y a b =
    if_both (Means (to_ℤ x +ℤ to_ℤ y)) (ltb (length x.digits) (length y.digits))
      (λ q.
        subst (λ n. Means n (add_longer y x)) (add_comm-ℤ (to_ℤ y) (to_ℤ x))
          (add_longer-Means y x b a (ground (arith, q))))
      (λ q. add_longer-Means x y a b (ground (arith, q)))

-- subBigint gives such a bigint for the difference.
pub sub_bigint-Means :
    (x y : Bigint)
    → IsNumber x.digits
    → IsNumber y.digits
    → Means (to_ℤ x +ℤ neg_ℤ (to_ℤ y)) (sub_bigint x y)
unfolding sub_bigint
sub_bigint-Means x y a b =
    let opposite = ap (λ n. to_ℤ x +ℤ n) (signed-opposite y.negative (value y.digits)) in
    if_both (Means (to_ℤ x +ℤ neg_ℤ (to_ℤ y))) (differ x.negative y.negative)
      (λ q.
        subst (λ n. Means n (add_bigint x (record y { negative = x.negative })))
          (ap (λ t. to_ℤ x +ℤ signed t (value y.digits))
              (sym (opposed y.negative x.negative (differ_comm x.negative y.negative ∙ q)))
            ∙ opposite)
          (add_bigint-Means x (record y { negative = x.negative }) a b))
      (λ q.
        subst (λ n. Means n (sub_same_sign x.negative x.digits y.digits))
          (ap (λ t. to_ℤ x +ℤ signed (not t) (value y.digits)) (agreed x.negative y.negative q)
            ∙ opposite)
          (sub_same_sign-Means x.negative x.digits y.digits a b))

-- For two bigints of digits below BIGINT_BASE without a leading zero, mulBigint gives a bigint of this form that stands for
-- the product of the two integers.
pub mul_bigint-Means :
    (x y : Bigint)
    → IsNumber x.digits
    → IsNumber y.digits
    → Means (to_ℤ x *ℤ to_ℤ y) (mul_bigint x y)
unfolding mul_bigint
mul_bigint-Means x y a b =
    let (v, n) = mul_digits-value x.digits y.digits a.0 b.0 in
    (
      ap (signed (differ x.negative y.negative)) v
          ∙ signed-multiply x.negative y.negative (value x.digits) (value y.digits),
      n,
    )
