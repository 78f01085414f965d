-- ===== src/Bigint/Quotient.antt =====
-- One digit of a quotient in nl-math.c: the product with an estimate, which is counted down.
use mathlib.Core.Path.{subst}
use native.Mathlib.Nat.{mul-le-mul_right}
use newlisp_neo.Prelude.{
  ℕ, zero, suc, ◌+◌, ◌-◌, ◌*◌, ◌≤◌, ◌<◌, ◌≡◌, ◌≢◌, ◌⊎◌, inl, inr, refl, sym, ap, List, [], ◌∷◌,
  length, arith, Bool, true, Option, none, some, if_both, if_false, ◌==◌, ltb,
}
use newlisp_neo.Bigint.Digits.{
  weight, value, AreDigits, IsTrimmed, IsNumber, weight_pos, value-lt, trimmed_le, IsTrimmed-of_le,
}
use newlisp_neo.Bigint.Operations.{Order, greater, same, smaller, cmp_abs_bigint}
use newlisp_neo.Bigint.Add.{Stands, Stands-digit, longer_one}
use newlisp_neo.Bigint.Compare.{
  Compares, AreTailDigits, AreTailDigits-of_digits, cmp_abs_bigint-loosely, cmp_abs_bigint-zeros,
  weight_le, not_longer,
}
use newlisp_neo.Bigint.Division.{times_digit, shift_right, lower}

times_digit-Stands : (q : ℕ) (ys : List ℕ) → Stands (length ys) (value ys * q) (times_digit q ys)
unfolding times_digit weight
times_digit-Stands q [] = (omega arith, refl, tt)
times_digit-Stands q (y ∷ ys) =
    let (v, l, d) = times_digit-Stands q ys in
    let n = length ys in
    let carry = (times_digit q ys).0 in
    let p = (times_digit q ys).1 in
    let (v', l', d') = Stands-digit n (value p) (y * q + carry) p (omega arith, l, d) in
    (omega (arith, v, v'), l', d')

-- The product: its first digit, a carry, may be too great for a digit if it is longer than the number.
abbrev IsProduct : ℕ → ℕ → List ℕ → Type 0
IsProduct n total p =
    (value p ≡ total) × AreTailDigits p × IsTrimmed p × (AreDigits p ⊎ (length p ≡ suc n))

carried :
    (n total carry : ℕ) (ds : List ℕ)
    → Stands n total (carry, ds)
    → 0 < n
    → (1 < n → weight (n - 1) ≤ total)
    → IsProduct n total (shift_right (carry, ds))
carried n total zero ds (v, l, d) p k = (
  omega (arith, v),
  AreTailDigits-of_digits ds d,
  IsTrimmed-of_le ds d (omega (arith, l, p)) (λ two.
      let place : length ds - 1 ≡ n - 1 = omega (arith, l) in
      omega (arith, v, ap weight place, k (omega (arith, l, two)))),
  inl d,
)
carried n total (suc c) [] (v, l, d) p k = absurd (omega (arith, l, p))
carried n total (suc c) (d ∷ ds) (v, l, h) p k =
    subst (IsProduct n total) (sym (if_false (suc c == 0) (d ∷ ds) (suc c ∷ d ∷ ds) (ground arith)))
      (omega (arith, v, ap (λ t. suc c * weight t) l), h, omega arith, inr (omega (arith, l)))

IsProduct-of :
    (q : ℕ) (ys : List ℕ)
    → IsNumber ys
    → 0 < q
    → IsProduct (length ys) (q * value ys) (shift_right (times_digit q ys))
IsProduct-of q ys (a, t) p =
    let one = mul-le-mul_right (value ys) p in
    let (v, l, d) = times_digit-Stands q ys in
    carried (length ys) (q * value ys) (times_digit q ys).0 (times_digit q ys).1
      (omega (arith, v), l, d) (longer_one ys t) (λ two. omega (arith, one, trimmed_le ys t two))

-- A digit of the quotient, and the product with it.
abbrev pub IsQuotient : List ℕ → ℕ → Option (ℕ × List ℕ) → Type 0
IsQuotient r m none = ⊥
IsQuotient r m (some (d, p)) =
    (value p ≡ d * m)
    × (value p ≤ value r)
    × (value r < value p + m)
    × (length p ≤ length r)
    × AreDigits p

-- A product of this length that is not above a number below `bigint_base` places more is made of digits.
product_digits :
    (n : ℕ) (p : List ℕ)
    → AreTailDigits p
    → AreDigits p ⊎ (length p ≡ suc n)
    → value p < weight (suc n)
    → AreDigits p
unfolding weight
product_digits n p h (inl d) k = d
product_digits n [] h (inr e) k = tt
product_digits n (c ∷ ds) h (inr e) k =
    let place : c * weight (length ds) ≡ c * weight n =
      ap (λ t. c * weight t) (let l : length ds ≡ n = omega (arith, e) in l) in
    (
      if_both (λ (_ : Bool). c < 1000000000) (ltb c 1000000000) {x = true} {y = true}
          (λ q. ground (arith, q))
          (λ q.
            let great : 1000000000 ≤ c = ground (arith, q) in
            absurd (omega (arith, k, place, mul-le-mul_right (weight n) great))),
      h,
    )

few :
    (r p : List ℕ) (n : ℕ)
    → length r ≤ suc n
    → AreDigits p ⊎ (length p ≡ suc n)
    → (length r ≤ length p) ⊎ AreDigits p
few r p n h (inl d) = inr d
few r p n h (inr e) = inl (omega (arith, h, e))

counted_down :
    (r p y : List ℕ) (q n : ℕ) (rest : Option (ℕ × List ℕ)) (o : Order)
    → Compares (value r) (value p) o
    → value p ≡ suc q * value y
    → AreTailDigits p
    → AreDigits p ⊎ (length p ≡ suc n)
    → value r < weight (suc n)
    → value r < suc (suc q) * value y
    → (value p ≤ value r → length p ≤ length r)
    → (value r < suc q * value y → IsQuotient r (value y) rest)
    → IsQuotient r
        (value y)
        (elim o [ greater ↦ some (suc q, p) | same ↦ some (suc q, p) | smaller ↦ rest ])
counted_down r p y q n rest greater c e t d b h f k = (
  e,
  omega (arith, c),
  omega (arith, e, h),
  f (omega (arith, c)),
  product_digits n p t d (omega (arith, c, b)),
)
counted_down r p y q n rest same c e t d b h f k = (
  e,
  omega (arith, c),
  omega (arith, e, h),
  f (omega (arith, c)),
  product_digits n p t d (omega (arith, c, b)),
)
counted_down r p y q n rest smaller c e t d b h f k = k (omega (arith, c, e))

stopped :
    (r p y : List ℕ) (o : Order)
    → o ≢ smaller
    → value p ≡ 0
    → AreDigits p
    → length p ≤ length r
    → value r < value y
    → IsQuotient r
        (value y)
        (elim o [ greater ↦ some (0, p) | same ↦ some (0, p) | smaller ↦ none ])
stopped r p y greater h e d f k = (omega (arith, e), omega (arith, e), omega (arith, e, k), f, d)
stopped r p y same h e d f k = (omega (arith, e), omega (arith, e), omega (arith, e, k), f, d)
stopped r p y smaller h e d f k = absurd (h refl)

no_product :
    (n carry : ℕ) (ds : List ℕ)
    → Stands n 0 (carry, ds)
    → (value (shift_right (carry, ds)) ≡ 0)
      × AreDigits (shift_right (carry, ds))
      × (length (shift_right (carry, ds)) ≡ n)
no_product n zero ds (v, l, d) = (omega (arith, v), d, l)
no_product n (suc c) ds (v, l, d) = absurd (omega (arith, v, weight_pos n))

-- An estimate that is not too small is counted down to the digit.
pub lower-IsQuotient :
    (r y : List ℕ) (q : ℕ)
    → IsNumber r
    → IsNumber y
    → length y ≤ length r
    → length r ≤ suc (length y)
    → value r < suc q * value y
    → IsQuotient r (value y) (lower r y q)
unfolding lower
lower-IsQuotient r y zero a b l m h =
    let (v, s, d) = times_digit-Stands 0 y in
    let (e, digits, long) =
      no_product (length y) (times_digit 0 y).0 (times_digit 0 y).1 (omega (arith, v), s, d) in
    stopped r (shift_right (times_digit 0 y)) y (cmp_abs_bigint r (shift_right (times_digit 0 y)))
      (cmp_abs_bigint-zeros r (shift_right (times_digit 0 y)) a.0 digits (omega (arith, long, l)) e)
      e digits (omega (arith, long, l)) (omega (arith, h))
lower-IsQuotient r y (suc q) a b l m h =
    let p = shift_right (times_digit (suc q) y) in
    let (e, t, u, d) = IsProduct-of (suc q) y b (omega arith) in
    counted_down r p y q (length y) (lower r y q) (cmp_abs_bigint r p)
      (cmp_abs_bigint-loosely r p a t u (few r p (length y) m d)) e t d
      (omega (arith, value-lt r a.0, weight_le (length r) (suc (length y)) m)) h
      (not_longer r p a u) (λ k. lower-IsQuotient r y q a b l m k)
