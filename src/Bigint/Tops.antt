-- ===== src/Bigint/Tops.antt =====
-- The first digits of the rest and of the divisor, which divModBigint of nl-math.c compares.
use mathlib.Core.Path.{subst}
use newlisp_neo.Prelude.{
  ℕ, zero, suc, ◌+◌, ◌-◌, ◌*◌, ◌≤◌, ◌<◌, ◌≡◌, refl, sym, ap, ◌∙◌, List, [], ◌∷◌, length,
  length-drop, take, drop, take-append-drop, arith, Bool, true, if_both, if◌then◌else◌, ltb,
}
use newlisp_neo.Bigint.Digits.{
  bigint_base, weight, value, AreDigits, IsNumber, value-lt, value-append, trimmed_le,
}
use newlisp_neo.Bigint.Add.{AreDigits-drop, longer_one}
use newlisp_neo.Bigint.Compare.{weight_le, not_longer}
use newlisp_neo.Bigint.Division.{
  Doubles, bigint_to_abs_float, abs_float, top_count, y_float, r_float, estimate,
}
use newlisp_neo.Bigint.Rounding.{IsDoubles, Near, float-Near, float_le, shifted_digit, two_float}
use newlisp_neo.Bigint.Estimate.{tops_le, tops_lt, estimate_enough}

-- What stands behind the first digits.
parted :
    (n : ℕ) (ds : List ℕ)
    → AreDigits ds
    → (value ds ≡ value (take n ds) * weight (length ds - n) + value (drop n ds))
      × (value (drop n ds) < weight (length ds - n))
parted n ds h =
    let rest = drop n ds in
    let place = ap weight (length-drop n ds) in
    (
      sym (ap value (take-append-drop n ds))
          ∙ value-append (take n ds) rest
          ∙ (omega (arith, ap (λ t. value (take n ds) * t) place)),
      omega (arith, value-lt rest (AreDigits-drop n ds h), place),
    )

one_place : weight 0 ≡ 1
unfolding weight
one_place = refl

module _ (fpu : Doubles) (ieee : IsDoubles fpu) where
  first_digit_float :
      (n : ℕ) (r : List ℕ) → n ≤ 1 → AreDigits r → bigint_to_abs_float fpu r n < bigint_base
  unfolding bigint_to_abs_float abs_float
  first_digit_float n [] k h = omega arith
  first_digit_float zero (d ∷ r) k (h, hs) = h
  first_digit_float (suc zero) (d ∷ r) k (h, hs) = h
  first_digit_float (suc (suc n)) (d ∷ r) k h = absurd (omega arith)

  two_digits_float :
      (y : List ℕ) → IsNumber y → 1 < length y → bigint_base ≤ bigint_to_abs_float fpu y 2
  unfolding bigint_to_abs_float abs_float
  two_digits_float [] h k = absurd (omega arith)
  two_digits_float (d ∷ []) h k = absurd (omega arith)
  two_digits_float (d ∷ e ∷ ds) ((a, rest), t) k =
      let least = ieee.monotone (1 * bigint_base) (d * bigint_base + e) (omega (arith, t)) in
      omega (arith, least, shifted_digit fpu ieee 1 (omega arith), two_float fpu ieee d e a)

  -- A shorter rest has a smaller double.
  pub shorter_float :
      (r y : List ℕ)
      → IsNumber r
      → IsNumber y
      → length r < length y
      → r_float fpu r y < y_float fpu y
  unfolding r_float y_float
  shorter_float r y a b h =
      let some_digit = longer_one r a.1 in
      let few : top_count r y ≤ 1 =
        if_both (λ (n : ℕ). n ≤ 1) (ltb 2 (length y)) (λ q. omega (arith, h))
          (λ q. ground (arith, h, q, some_digit)) in
      let count : (if ltb 2 (length y) then 2 else length y) ≡ 2 =
        if_both (λ (n : ℕ). n ≡ 2) (ltb 2 (length y)) (λ q. refl)
          (λ q. ground (arith, h, q, some_digit)) in
      omega (
        arith,
        first_digit_float (top_count r y) r few a.0,
        two_digits_float y b (omega (arith, h, some_digit)),
        ap (bigint_to_abs_float fpu y) count,
      )

  -- The digits left out of the divisor.
  abbrev left_out : List ℕ → ℕ
  left_out y = length y - 2

  y_float-count : (y : List ℕ) → y_float fpu y ≡ bigint_to_abs_float fpu y (length y - left_out y)
  unfolding y_float
  y_float-count y = ap (bigint_to_abs_float fpu y) (
      if_both (λ (n : ℕ). n ≡ length y - left_out y) (ltb 2 (length y)) (λ q. ground (arith, q))
        (λ q. ground (arith, q)))

  r_float-count :
      (r y : List ℕ) → r_float fpu r y ≡ bigint_to_abs_float fpu r (length r - left_out y)
  unfolding r_float
  r_float-count r y = ap (bigint_to_abs_float fpu r) (
      if_both (λ (n : ℕ). n ≡ length r - left_out y) (ltb 2 (length y)) (λ q. ground (arith, q))
        (λ q. ground (arith, q)))

  -- The first digits, what stands behind them, and what a one of them is worth.
  abbrev Splits : ℕ → ℕ → ℕ → ℕ → Type 0
  Splits n top rest place = (n ≡ top * place + rest) × (rest < place)

  split_at :
      (y ds : List ℕ)
      → AreDigits ds
      → length y ≤ length ds
      → Splits
          (value ds)
          (value (take (length ds - left_out y) ds))
          (value (drop (length ds - left_out y) ds))
          (weight (left_out y))
  split_at y ds h k =
      let n = length ds - left_out y in
      let (v, l) = parted n ds h in
      let place : length ds - n ≡ left_out y = omega (arith, k) in
      (
        omega (arith, v, ap (λ t. value (take n ds) * weight t) place),
        omega (arith, l, ap weight place),
      )

  -- The first digits of the divisor are not zero.
  top-pos : (y : List ℕ) → IsNumber y → 0 < value y → 0 < value (take (length y - left_out y) y)
  top-pos y (a, t) p =
      let (v, l) = split_at y y a (omega arith) in
      if_both (λ (_ : Bool). 0 < value (take (length y - left_out y) y))
        (ltb 0 (value (take (length y - left_out y) y))) {x = true} {y = true}
        (λ q. ground (arith, q))
        (λ q.
          let none_left : value (take (length y - left_out y) y) ≡ 0 = ground (arith, q) in
          let gone = ap (λ s. s * weight (left_out y)) none_left in
          if_both (λ (_ : Bool). 0 < value (take (length y - left_out y) y)) (ltb 1 (length y))
            {x = true} {y = true}
            (λ s.
              let long : 1 < length y = ground (arith, s) in
              absurd (
                omega (
                  arith,
                  v,
                  l,
                  gone,
                  trimmed_le y t long,
                  weight_le (left_out y) (length y - 1) (omega (arith, long)),
                )))
            (λ s.
              let short : left_out y ≡ 0 = ground (arith, s) in
              absurd (omega (arith, v, l, gone, p, ap weight short, one_place))))

  -- The quotient is not zero unless the double of the rest is smaller.
  pub r_float-less :
      (r y : List ℕ)
      → IsNumber r
      → IsNumber y
      → length r ≤ suc (length y)
      → r_float fpu r y < y_float fpu y
      → value r < value y
  r_float-less r y a b m h =
      if_both (λ (_ : Bool). value r < value y) (ltb (value r) (value y)) {x = true} {y = true}
        (λ q. ground (arith, q))
        (λ q.
          let least : value y ≤ value r = ground (arith, q) in
          let long = not_longer r y a b.1 least in
          let (v, l) = split_at y r a.0 long in
          let (v', l') = split_at y y b.0 (omega arith) in
          let n = length r - left_out y in
          let k = length y - left_out y in
          let some_digit = longer_one y b.1 in
          let tops =
            tops_le (value (take n r)) (value (drop n r)) (value (take k y)) (value (drop k y))
              (weight (left_out y)) 1 l (omega (arith, v, v', least)) in
          absurd (
            omega (
              arith,
              h,
              r_float-count r y,
              y_float-count y,
              float_le fpu ieee n k r y (omega arith) (omega arith) (omega (arith, some_digit))
                  (omega arith) (omega (arith, long)) (omega (arith, m)) a.0 b.0 a.1
                  (omega (arith, tops)),
            )))

  -- Otherwise the estimate is not too small.
  pub estimate-enough :
      (r y : List ℕ)
      → IsNumber r
      → IsNumber y
      → 0 < value y
      → length y ≤ length r
      → length r ≤ suc (length y)
      → value r < bigint_base * value y
      → value r < suc (estimate fpu (r_float fpu r y) (y_float fpu y)) * value y
  estimate-enough r y a b p long m h =
      let (v, l) = split_at y r a.0 long in
      let (v', l') = split_at y y b.0 (omega arith) in
      let n = length r - left_out y in
      let k = length y - left_out y in
      let some_digit = longer_one y b.1 in
      let top = value (take n r) in
      let top' = value (take k y) in
      let bound =
        tops_lt top (value (drop n r)) top' (value (drop k y)) (weight (left_out y)) l'
          (omega (arith, h, v, ap (λ t. bigint_base * t) v')) in
      let near =
        float-Near fpu ieee n r (omega (arith, some_digit, long)) (omega (arith, m)) (omega arith)
          a.0 in
      let near' =
        float-Near fpu ieee k y (omega (arith, some_digit)) (omega arith) (omega arith) b.0 in
      let q = estimate fpu (r_float fpu r y) (y_float fpu y) in
      let enough : top < suc q * top' =
        estimate_enough fpu ieee top top' (r_float fpu r y) (y_float fpu y)
          (subst (Near top) (sym (r_float-count r y)) near)
          (subst (Near top') (sym (y_float-count y)) near') (top-pos y b p) bound in
      if_both (λ (_ : Bool). value r < suc q * value y) (ltb (value r) (suc q * value y)) {x = true}
        {y = true} (λ s. ground (arith, s))
        (λ s.
          let least : suc q * value y ≤ value r = ground (arith, s) in
          let scaled = ap (λ t. suc q * t) v' in
          absurd (
            omega (
              arith,
              enough,
              tops_le top (value (drop n r)) top' (value (drop k y)) (weight (left_out y)) (suc q) l
                  (omega (arith, scaled, least, v)),
            )))
