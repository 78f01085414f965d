-- ===== src/Bigint/Rounding.antt =====
-- What the doubles of nl-math.c say of the first digits of a bigint.
use newlisp_neo.Prelude.{
  ℕ, zero, suc, ◌+◌, ◌-◌, ◌*◌, ◌/◌, ◌^◌, ◌≤◌, ◌<◌, ◌≡◌, sym, ap, ◌∙◌, List, [], ◌∷◌, length, take,
  arith,
}
use newlisp_neo.Bigint.Digits.{bigint_base, weight, value, AreDigits, IsTrimmed}
use newlisp_neo.Bigint.Division.{Doubles, abs_float, bigint_to_abs_float}

-- The doubles of IEEE 754 below 2^100: rounding keeps the order, the numbers of 53 bits, and each number up to
-- one part of 2^53; a quotient that fits in an `int` is not
-- rounded below its whole part, nor is the sum with one.
pub record IsDoubles (fpu : Doubles) : Type 0 where
  pub monotone : (m n : ℕ) → m ≤ n → fpu.round m ≤ fpu.round n
  pub exact : (m k : ℕ) → m ≤ 2 ^ 53 → k ≤ 40 → fpu.round (m * 2 ^ k) ≡ m * 2 ^ k
  pub above : (n : ℕ) → n < 2 ^ 100 → 2 ^ 53 * fpu.round n ≤ (2 ^ 53 + 1) * n
  pub below : (n : ℕ) → n < 2 ^ 100 → (2 ^ 53 - 1) * n ≤ 2 ^ 53 * fpu.round n
  pub whole_part : (a b : ℕ) → 0 < b → a / b < 2147483646 → a / b + 1 ≤ fpu.quotient a b

-- Up to one part of 2^51.
abbrev pub Near : ℕ → ℕ → Type 0
Near n float = ((2 ^ 51 - 1) * n ≤ 2 ^ 51 * float) × (2 ^ 51 * float ≤ (2 ^ 51 + 1) * n)

module _ (fpu : Doubles) (ieee : IsDoubles fpu) where
  -- A digit before another is exact.
  pub shifted_digit : (d : ℕ) → d ≤ 1000000000 → fpu.round (d * bigint_base) ≡ d * bigint_base
  shifted_digit d h =
      let split : d * bigint_base ≡ d * 1953125 * 2 ^ 9 = omega arith in
      ap fpu.round split ∙ ieee.exact (d * 1953125) 9 (omega (arith, h)) (omega arith) ∙ sym split

  pub two_float :
      (d e : ℕ) → d < 1000000000 → abs_float fpu d 1 (e ∷ []) ≡ fpu.round (d * bigint_base + e)
  unfolding abs_float
  two_float d e h = ap (λ t. fpu.round (t + e)) (shifted_digit d (omega (arith, h)))

  two-Near :
      (d e : ℕ)
      → d < 1000000000
      → e < 1000000000
      → Near (d * bigint_base + e) (fpu.round (d * bigint_base + e))
  two-Near d e h k =
      let n = d * bigint_base + e in
      (
        omega (arith, ieee.below n (omega (arith, h, k))),
        omega (arith, ieee.above n (omega (arith, h, k))),
      )

  three-Near :
      (d e f : ℕ)
      → d < 1000000000
      → e < 1000000000
      → f < 1000000000
      → Near
          ((d * bigint_base + e) * bigint_base + f)
          (fpu.round (fpu.round (fpu.round (d * bigint_base + e) * bigint_base) + f))
  three-Near d e f h k l =
      let n = d * bigint_base + e in
      let a = fpu.round n in
      let up = ieee.above n (omega (arith, h, k)) in
      let low = ieee.below n (omega (arith, h, k)) in
      let b = fpu.round (a * bigint_base) in
      let up' = ieee.above (a * bigint_base) (omega (arith, h, k, up)) in
      let low' = ieee.below (a * bigint_base) (omega (arith, h, k, up)) in
      let up'' = ieee.above (b + f) (omega (arith, h, k, l, up, up')) in
      let low'' = ieee.below (b + f) (omega (arith, h, k, l, up, up')) in
      (omega (arith, low, low', low''), omega (arith, up, up', up'', l))

  -- The first digits of a number, and the double made of them.
  pub float-Near :
      (n : ℕ) (ds : List ℕ)
      → 0 < n
      → n ≤ 3
      → n ≤ length ds
      → AreDigits ds
      → Near (value (take n ds)) (bigint_to_abs_float fpu ds n)
  unfolding bigint_to_abs_float abs_float weight
  float-Near zero ds p k l h = absurd (omega arith)
  float-Near (suc n) [] p k l h = absurd (omega arith)
  float-Near (suc zero) (d ∷ ds) p k l h = (omega arith, omega arith)
  float-Near (suc (suc n)) (d ∷ []) p k l h = absurd (omega arith)
  float-Near (suc (suc zero)) (d ∷ e ∷ ds) p k l (h, (i, hs)) =
      let (low, up) = two-Near d e h i in
      let same = two_float d e h in (omega (arith, low, same), omega (arith, up, same))
  float-Near (suc (suc (suc n))) (d ∷ e ∷ []) p k l h = absurd (omega arith)
  float-Near (suc (suc (suc zero))) (d ∷ e ∷ f ∷ ds) p k l (h, (i, (j, hs))) =
      let (low, up) = three-Near d e f h i j in
      let same = ap (λ t. fpu.round (fpu.round (t * bigint_base) + f)) (two_float d e h) in
      (omega (arith, low, same), omega (arith, up, same))
  float-Near (suc (suc (suc (suc n)))) ds p k l h = absurd (omega arith)

  square : fpu.round (bigint_base * bigint_base) ≡ bigint_base * bigint_base
  square = ieee.exact 3814697265625 18 (omega arith) (omega arith)

  -- A double of more digits is not less, if the number is not.
  pub float_le :
      (n m : ℕ) (rs ys : List ℕ)
      → n ≤ length rs
      → m ≤ length ys
      → 0 < m
      → m ≤ 2
      → m ≤ n
      → n ≤ suc m
      → AreDigits rs
      → AreDigits ys
      → IsTrimmed rs
      → value (take m ys) ≤ value (take n rs)
      → bigint_to_abs_float fpu ys m ≤ bigint_to_abs_float fpu rs n
  unfolding bigint_to_abs_float abs_float weight
  float_le n zero rs ys l k p i j u a b t h = absurd (omega arith)
  float_le n (suc m) rs [] l k p i j u a b t h = absurd (omega arith)
  float_le zero (suc m) rs ys l k p i j u a b t h = absurd (omega arith)
  float_le (suc n) (suc m) [] ys l k p i j u a b t h = absurd (omega arith)
  float_le (suc zero) (suc zero) (d ∷ rs) (y ∷ ys) l k p i j u a b t h = omega (arith, h)
  float_le (suc (suc n)) (suc m) (d ∷ []) (y ∷ ys) l k p i j u a b t h = absurd (omega arith)
  float_le (suc (suc zero)) (suc zero) (d ∷ e ∷ rs) (y ∷ ys) l k p i j u (a, rest) (b, bs) t h =
      let whole : y * 2 ^ 0 ≡ y = omega arith in
      let same = ap fpu.round (sym whole) ∙ ieee.exact y 0 (omega (arith, b)) (omega arith) in
      omega (arith, same, two_float d e a, ieee.monotone y (d * bigint_base + e) (omega (arith, h)))
  float_le (suc (suc (suc n))) (suc zero) rs ys l k p i j u a b t h = absurd (omega arith)
  float_le (suc zero) (suc (suc m)) rs ys l k p i j u a b t h = absurd (omega arith)
  float_le (suc (suc n)) (suc (suc m)) rs (y ∷ []) l k p i j u a b t h = absurd (omega arith)
  float_le (suc (suc zero)) (suc (suc zero)) (d ∷ e ∷ rs) (y ∷ z ∷ ys) l k p i j u (a, rest) (b, bs)
        t h =
      omega (
        arith,
        two_float d e a,
        two_float y z b,
        ieee.monotone (y * bigint_base + z) (d * bigint_base + e) (omega (arith, h)),
      )
  float_le (suc (suc (suc n))) (suc (suc zero)) (d ∷ e ∷ []) ys l k p i j u a b t h =
      absurd (omega arith)
  float_le (suc (suc (suc zero))) (suc (suc zero)) (d ∷ e ∷ f ∷ rs) (y ∷ z ∷ ys) l k p i j u
        (a, rest) (b, (c, bs)) t h =
      let one = ieee.monotone (1 * bigint_base) (d * bigint_base + e) (omega (arith, t)) in
      let first = shifted_digit 1 (omega arith) in
      let next =
        ieee.monotone (bigint_base * bigint_base) (abs_float fpu d 1 (e ∷ []) * bigint_base)
          (omega (arith, one, first, two_float d e a)) in
      let last =
        ieee.monotone (bigint_base * bigint_base)
          (fpu.round (abs_float fpu d 1 (e ∷ []) * bigint_base) + f)
          (omega (arith, next, square)) in
      let below_square =
        ieee.monotone (y * bigint_base + z) (bigint_base * bigint_base) (omega (arith, b, c)) in
      omega (arith, last, below_square, two_float y z b)
  float_le (suc (suc (suc (suc n)))) (suc (suc zero)) rs ys l k p i j u a b t h =
      absurd (omega arith)
  float_le n (suc (suc (suc m))) rs ys l k p i j u a b t h = absurd (omega arith)
