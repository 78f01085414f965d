-- ===== src/Bigint/Estimate.antt =====
-- The estimate of a digit of a quotient in nl-math.c is not too small.
use native.Mathlib.Nat.{mul-le-mul_right, lt-div-mul-add, div-mul-le_self}
use newlisp_neo.Prelude.{
  ℕ, suc, ◌+◌, ◌*◌, ◌/◌, ◌≤◌, ◌<◌, ◌≡◌, arith, Bool, true, if_both, ltb, ◌==◌, ==_iff,
}
use newlisp_neo.Bigint.Digits.{bigint_base}
use newlisp_neo.Bigint.Division.{Doubles, estimate}
use newlisp_neo.Bigint.Rounding.{IsDoubles, Near}

-- The first digits of two numbers, with as many behind them.
pub tops_le : (a a' b b' w d : ℕ) → a' < w → d * (b * w + b') ≤ a * w + a' → d * b ≤ a
tops_le a a' b b' w d h k =
    if_both (λ (_ : Bool). d * b ≤ a) (ltb a (d * b)) {x = true} {y = true}
      (λ q.
        let more : suc a ≤ d * b = ground (arith, q) in
        absurd (omega (arith, h, k, mul-le-mul_right w more)))
      (λ q. ground (arith, q))

pub tops_lt :
    (a a' b b' w : ℕ) → b' < w → a * w + a' < bigint_base * (b * w + b') → a < bigint_base * (b + 1)
tops_lt a a' b b' w h k =
    if_both (λ (_ : Bool). a < bigint_base * (b + 1)) (ltb a (bigint_base * (b + 1))) {x = true}
      {y = true} (λ q. ground (arith, q))
      (λ q.
        let more : bigint_base * (b + 1) ≤ a = ground (arith, q) in
        absurd (omega (arith, h, k, mul-le-mul_right w more)))

-- The quotient of the doubles fits in an `int`.
small_quotient :
    (a b f g : ℕ) → Near a f → Near b g → 0 < b → a < bigint_base * (b + 1) → f / g < 2147483646
small_quotient a b f g (low, up) (low', up') p h =
    if_both (λ (_ : Bool). f / g < 2147483646) (ltb (f / g) 2147483646) {x = true} {y = true}
      (λ q. ground (arith, q))
      (λ q.
        let many : 2147483646 ≤ f / g = ground (arith, q) in
        let product = div-mul-le_self f g in
        let least = mul-le-mul_right g many in
        absurd (omega (arith, h, p, product, least, up, low')))

quotient_enough :
    (a b f g q : ℕ)
    → Near a f
    → Near b g
    → 0 < b
    → 0 < g
    → f / g < 2147483646
    → f / g + 1 ≤ q
    → a < suc q * b
quotient_enough a b f g q (low, up) (low', up') p r h k =
    if_both (λ (_ : Bool). a < suc q * b) (ltb a (suc q * b)) {x = true} {y = true}
      (λ t. ground (arith, t))
      (λ t.
        let least : suc q * b ≤ a = ground (arith, t) in
        let n = f / g in
        let left = lt-div-mul-add {a = f} r in
        let more = mul-le-mul_right b k in
        let scaled = mul-le-mul_right (n + 1) up' in
        let bound = mul-le-mul_right b (let small : n ≤ 2147483646 = omega (arith, h) in small) in
        absurd (omega (arith, least, left, more, scaled, bound, low, p)))

twice : (a b f g : ℕ) → Near a f → Near b g → 0 < b → g ≡ f → a < 2 * b
twice a b f g (low, up) (low', up') p e =
    if_both (λ (_ : Bool). a < 2 * b) (ltb a (2 * b)) {x = true} {y = true} (λ t. ground (arith, t))
      (λ t.
        let least : 2 * b ≤ a = ground (arith, t) in absurd (omega (arith, least, low, up', e, p)))

pub estimate_enough :
    (fpu : Doubles)
    → IsDoubles fpu
    → (a b f g : ℕ) → Near a f
    → Near b g
    → 0 < b
    → a < bigint_base * (b + 1)
    → a < suc (estimate fpu f g) * b
unfolding estimate
estimate_enough fpu ieee a b f g h k p l =
    if_both (λ (q : ℕ). a < suc q * b) (g == f)
      (λ e. omega (arith, twice a b f g h k p ((==_iff g f).0 e)))
      (λ e.
        let positive : 0 < g = omega (arith, p, k.0) in
        let small = small_quotient a b f g h k p l in
        quotient_enough a b f g (fpu.quotient f g) h k p positive small
          (ieee.whole_part f g positive small))
