-- ===== src/Bigint/Ordering.antt =====
-- The order that cmpBigint of nl-math.c finds between the numbers meant.
use mathlib.Core.Path.{subst}
use newlisp_neo.Prelude.{
  ℕ, zero, suc, ◌+◌, ◌-◌, ◌<◌, ◌≡◌, refl, sym, ap, ◌∙◌, arith, List, [], ◌∷◌, length, if_both, Bool,
  true, false, ◌&&◌, ℤ, pos, negsuc, sub_ℕ,
}
use newlisp_neo.Bigint.Digits.{value, IsNumber, weight_pos, trimmed_le}
use newlisp_neo.Bigint.Operations.{
  Bigint, Order, greater, same, smaller, reversed, is_zero, cmp_abs_bigint, cmp_bigint, signed,
  to_ℤ,
}
use newlisp_neo.Bigint.Compare.{Compares, cmp_abs_bigint-Compares}
use newlisp_neo.Bigint.Differences.{over, under, difference, plus, minus, signed-sub}

infix 50 ◌<ℤ◌
abbrev pub ◌<ℤ◌ : ℤ → ℤ → Type 0
pos m <ℤ pos n = m < n
pos m <ℤ negsuc n = ⊥
negsuc m <ℤ pos n = Unit
negsuc m <ℤ negsuc n = n < m

abbrev pub Places : ℤ → ℤ → Order → Type 0
Places m n greater = n <ℤ m
Places m n same = m ≡ n
Places m n smaller = m <ℤ n

less_ℤ : (a b c d : ℕ) → a + d < c + b → sub_ℕ a b <ℤ sub_ℕ c d
less_ℤ a b c d h = elim (difference a b) [
  | over n e p ↦ elim (difference c d) [
    | over m f q ↦
        subst (λ z. z <ℤ sub_ℕ c d) (sym p)
          (subst (λ z. pos n <ℤ z) (sym q) (omega (arith, h, e, f)))
    | under m f q ↦ absurd (omega (arith, h, e, f))
  ]
  | under n e p ↦ elim (difference c d) [
    | over m f q ↦ subst (λ z. z <ℤ sub_ℕ c d) (sym p) (subst (λ z. negsuc n <ℤ z) (sym q) tt)
    | under m f q ↦
        subst (λ z. z <ℤ sub_ℕ c d) (sym p)
          (subst (λ z. negsuc n <ℤ z) (sym q) (omega (arith, h, e, f)))
  ]
]

signed-less :
    (s t : Bool) (m n : ℕ) → plus s m + minus t n < plus t n + minus s m → signed s m <ℤ signed t n
signed-less s t m n h =
    subst (λ z. z <ℤ signed t n) (sym (signed-sub s m))
      (subst (λ z. sub_ℕ (plus s m) (minus s m) <ℤ z) (sym (signed-sub t n))
        (less_ℤ (plus s m) (minus s m) (plus t n) (minus t n) h))

-- A number that is not the digit zero.
is_zero-pos : (ds : List ℕ) → IsNumber ds → is_zero ds ≡ false → 0 < value ds
is_zero-pos [] (a, t) h = absurd t
is_zero-pos (zero ∷ []) a h = absurd (ground (arith, h))
is_zero-pos (suc d ∷ []) a h = omega (arith, weight_pos 0)
is_zero-pos (d ∷ e ∷ ds) (a, t) h =
    omega (arith, trimmed_le (d ∷ e ∷ ds) t (omega arith), weight_pos (length (d ∷ e ∷ ds) - 1))

pub is_zero-value : (ds : List ℕ) → is_zero ds ≡ true → value ds ≡ 0
is_zero-value [] h = absurd (ground (arith, h))
is_zero-value (zero ∷ []) h = omega arith
is_zero-value (suc d ∷ []) h = absurd (ground (arith, h))
is_zero-value (d ∷ e ∷ ds) h = absurd (ground (arith, h))

signed-zero : (s : Bool) → signed s 0 ≡ pos 0
signed-zero true = refl
signed-zero false = refl

both : (a b : Bool) → a && b ≡ true → (a ≡ true) × (b ≡ true)
both true true h = (refl, refl)
both true false h = absurd (ground (arith, h))
both false b h = absurd (ground (arith, h))

not_both :
    (xs ys : List ℕ)
    → IsNumber xs
    → IsNumber ys
    → is_zero xs && is_zero ys ≡ false
    → 0 < value xs + value ys
not_both xs ys a b h =
    if_both (λ (_ : Bool). 0 < value xs + value ys) (is_zero xs) {x = true} {y = true}
      (λ q. omega (arith, is_zero-pos ys b (ap (λ t. t && is_zero ys) (sym q) ∙ h)))
      (λ q. omega (arith, is_zero-pos xs a q))

Places-plain : (m n : ℕ) (o : Order) → Compares m n o → Places (signed false m) (signed false n) o
Places-plain m n greater h = h
Places-plain m n same h = ap pos h
Places-plain m n smaller h = h

Places-reversed :
    (m n : ℕ) (o : Order) → Compares m n o → Places (signed true m) (signed true n) (reversed o)
Places-reversed m n greater h = signed-less true true m n (omega (arith, h))
Places-reversed m n same h = ap (signed true) h
Places-reversed m n smaller h = signed-less true true n m (omega (arith, h))

by_signs :
    (s t : Bool) (m n : ℕ) (o : Order)
    → Compares m n o
    → 0 < m + n
    → Places (signed s m) (signed t n) (elim s [
      | true ↦ elim t [ true ↦ reversed o | false ↦ smaller ]
      | false ↦ elim t [ true ↦ greater | false ↦ o ]
    ])
by_signs true true m n o h k = Places-reversed m n o h
by_signs true false m n o h k = signed-less true false m n (omega (arith, k))
by_signs false true m n o h k = signed-less true false n m (omega (arith, k))
by_signs false false m n o h k = Places-plain m n o h

-- For two bigints of digits below BIGINT_BASE without a leading zero, cmpBigint gives 1 exactly when the first integer is
-- greater, -1 when it is smaller and 0 when they are equal, where -0 is equal to 0.
pub cmp_bigint-Places :
    (x y : Bigint)
    → IsNumber x.digits
    → IsNumber y.digits
    → Places (to_ℤ x) (to_ℤ y) (cmp_bigint x y)
unfolding cmp_bigint
cmp_bigint-Places x y a b =
    if_both (Places (to_ℤ x) (to_ℤ y)) (is_zero x.digits && is_zero y.digits)
      (λ q.
        let (h, k) = both (is_zero x.digits) (is_zero y.digits) q in
        ap (signed x.negative) (is_zero-value x.digits h)
        ∙ signed-zero x.negative
        ∙ sym (signed-zero y.negative)
        ∙ ap (signed y.negative) (sym (is_zero-value y.digits k)))
      (λ q.
        by_signs x.negative y.negative (value x.digits) (value y.digits)
          (cmp_abs_bigint x.digits y.digits) (cmp_abs_bigint-Compares x.digits y.digits a b)
          (not_both x.digits y.digits a b q))
