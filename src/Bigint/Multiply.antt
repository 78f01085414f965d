-- ===== src/Bigint/Multiply.antt =====
-- The rows of a product in nl-math.c.
use native.Mathlib.Nat.{mul-le-mul_right}
use newlisp_neo.Prelude.{
  ℕ, zero, suc, ◌+◌, ◌*◌, ◌%◌, ◌≤◌, ◌<◌, ◌≡◌, refl, ap, ◌∙◌, List, [], ◌∷◌, length, replicate,
  arith, Bool, true, ltb, if_both,
}
use newlisp_neo.Bigint.Digits.{
  bigint_base, weight, value, AreDigits, IsNumber, weight_pos, weight-add, value-lt,
}
use newlisp_neo.Bigint.Operations.{mul_row, mul_rows, trim}
use newlisp_neo.Bigint.Add.{Stands, Stands-digit}
use newlisp_neo.Bigint.Subtract.{trim-value, trim-IsNumber}

-- A row whose digits end where those of `xs` do: `x` times the digit is added from the last digit of `p` but `n` on.
mul_row-Stands :
    (y : ℕ) (xs p : List ℕ) (n : ℕ)
    → length p ≡ length xs + n
    → AreDigits p
    → Stands (length p) (value p + y * value xs * weight n) (mul_row y xs p)
unfolding mul_row weight
mul_row-Stands y [] p n e d = (omega arith, refl, d)
mul_row-Stands y (x ∷ xs) [] n e d = absurd (omega arith)
mul_row-Stands y (x ∷ xs) (q ∷ p) n e (d, ds) =
    let shorter : length p ≡ length xs + n = omega arith in
    let (v, l, h) = mul_row-Stands y xs p n shorter ds in
    let m = length p in
    let carry = (mul_row y xs p).0 in
    let r = (mul_row y xs p).1 in
    let (v', l', h') = Stands-digit m (value r) (q + y * x + carry) r (omega arith, l, h) in
    let place : weight m ≡ weight (length xs) * weight n =
      ap weight shorter ∙ weight-add (length xs) n in
    let scaled = ap (λ t. y * x * t) place in (omega (arith, v, v', scaled), l', h')

zeros : (n : ℕ) → Stands n 0 (0, replicate n 0)
zeros zero = (omega arith, refl, tt)
zeros (suc n) = let (v, l, h) = zeros n in (omega (arith, v), omega (arith, l), (omega arith, h))

-- A carry past the first digit would be worth too much.
one_digit :
    (carry w rest total : ℕ)
    → carry * w + rest ≡ total
    → total < bigint_base * w
    → carry < bigint_base
one_digit carry w rest total e h =
    if_both (λ (_ : Bool). carry < bigint_base) (ltb carry bigint_base) {x = true} {y = true}
      (λ q. ground (arith, q))
      (λ q.
        let least : bigint_base ≤ carry = ground (arith, q) in
        absurd (omega (arith, e, h, mul-le-mul_right w least)))

product_lt : (a b c d : ℕ) → a < b → c < d → a * c < b * d
product_lt a b c d h k =
    let left = mul-le-mul_right d h in
    let right : c * a ≤ d * a = mul-le-mul_right a (omega (arith, k)) in
    omega (arith, left, right, k)

mul_rows-Stands :
    (xs ys : List ℕ)
    → AreDigits xs
    → AreDigits ys
    → Stands (length xs + length ys) (value xs * value ys) (0, mul_rows xs ys)
unfolding mul_rows weight
mul_rows-Stands xs [] h k =
    let (v, l, d) = zeros (length xs) in
    (omega (arith, v, weight_pos (length xs)), omega (arith, l), d)
mul_rows-Stands xs (y ∷ ys) h (k, ks) =
    let (v, l, d) = mul_rows-Stands xs ys h ks in
    let n = length ys in
    let p = mul_rows xs ys in
    let (v', l', d') = mul_row-Stands y xs p n l d in
    let carry = (mul_row y xs p).0 in
    let r = (mul_row y xs p).1 in
    let total : carry * weight (length p) + value r ≡ value xs * (y * weight n + value ys) =
      omega (arith, v, v') in
    let place : weight (length p) ≡ weight (length xs) * weight n =
      ap weight l ∙ weight-add (length xs) n in
    let bound =
      product_lt (value xs) (weight (length xs)) (value (y ∷ ys)) (weight (suc n)) (value-lt xs h)
        (value-lt (y ∷ ys) (k, ks)) in
    let small : carry < bigint_base =
      one_digit carry (weight (length p)) (value r) _ total (omega (arith, bound, place)) in
    let kept : carry % bigint_base ≡ carry = omega (arith, small) in
    let first = ap (λ (c : ℕ). c * weight (length r)) kept in
    let behind : carry * weight (length r) ≡ carry * weight (length p) =
      ap (λ (m : ℕ). carry * weight m) l' in
    (omega (arith, first, behind, total), omega (arith, l, l'), (omega arith, d'))

pub mul_digits-value :
    (xs ys : List ℕ)
    → AreDigits xs
    → AreDigits ys
    → (value (trim (mul_rows xs ys)) ≡ value xs * value ys) × IsNumber (trim (mul_rows xs ys))
mul_digits-value xs ys h k =
    let (v, l, d) = mul_rows-Stands xs ys h k in
    (omega (arith, v, trim-value (mul_rows xs ys)), trim-IsNumber (mul_rows xs ys) d)
