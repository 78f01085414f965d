-- ===== src/Bigint/Compare.antt =====
-- cmpAbsBigint of nl-math.c.
use mathlib.Core.Path.{subst}
use native.Mathlib.Nat.{mul-le-mul_right}
use newlisp_neo.Prelude.{
  ◌⊎◌, inl, inr, ◌≢◌, Bool, true, ℕ, ◌+◌, ◌-◌, ◌*◌, ◌≤◌, ◌<◌, ◌≡◌, refl, sym, ap, ◌∙◌, List, [],
  ◌∷◌, length, arith, if_both, ◌==◌, ==_iff, ltb,
}
use newlisp_neo.Bigint.Digits.{
  weight, value, AreDigits, IsTrimmed, IsNumber, weight_pos, weight-add, value-lt, trimmed_le,
}
use newlisp_neo.Bigint.Operations.{Order, greater, same, smaller, cmp_digits, cmp_abs_bigint}
use newlisp_neo.Bigint.Add.{longer_one}

abbrev pub Compares : ℕ → ℕ → Order → Type 0
Compares m n greater = n < m
Compares m n same = m ≡ n
Compares m n smaller = m < n

abbrev IsGreater : Order → Type 0
IsGreater greater = Unit
IsGreater same = ⊥
IsGreater smaller = ⊥

-- A greater first digit decides.
first_digit : (x y n v w : ℕ) → y < x → w < weight n → y * weight n + w < x * weight n + v
first_digit x y n v w h k = omega (arith, k, mul-le-mul_right (weight n) h)

before :
    (x y n v w : ℕ) (o : Order)
    → x ≡ y
    → Compares v w o
    → Compares (x * weight n + v) (y * weight n + w) o
before x y n v w greater e h = omega (arith, h, ap (λ (k : ℕ). k * weight n) e)
before x y n v w same e h = omega (arith, h, ap (λ (k : ℕ). k * weight n) e)
before x y n v w smaller e h = omega (arith, h, ap (λ (k : ℕ). k * weight n) e)

-- All but the first one are digits.
abbrev pub AreTailDigits : List ℕ → Type 0
AreTailDigits [] = Unit
AreTailDigits (d ∷ ds) = AreDigits ds

pub AreTailDigits-of_digits : (ds : List ℕ) → AreDigits ds → AreTailDigits ds
AreTailDigits-of_digits [] h = tt
AreTailDigits-of_digits (d ∷ ds) (h, hs) = hs

cmp_digits-Compares :
    (xs ys : List ℕ)
    → length xs ≡ length ys
    → AreTailDigits xs
    → AreTailDigits ys
    → Compares (value xs) (value ys) (cmp_digits xs ys)
cmp_digits-Compares [] [] e h k = refl
cmp_digits-Compares [] (y ∷ ys) e h k = absurd (omega arith)
cmp_digits-Compares (x ∷ xs) [] e h k = absurd (omega arith)
cmp_digits-Compares (x ∷ xs) (y ∷ ys) e hs ks =
    let same_long : length xs ≡ length ys = omega arith in
    let n = length ys in
    let first : x * weight (length xs) ≡ x * weight n = ap (λ t. x * weight t) same_long in
    let rest =
      cmp_digits-Compares xs ys same_long (AreTailDigits-of_digits xs hs)
        (AreTailDigits-of_digits ys ks) in
    let shown : Compares (x * weight n + value xs) (y * weight n + value ys)
        (cmp_digits (x ∷ xs) (y ∷ ys)) =
      if_both (Compares (x * weight n + value xs) (y * weight n + value ys)) (ltb y x)
        (λ q. first_digit x y n (value xs) (value ys) (ground (arith, q)) (value-lt ys ks))
        (λ q.
          if_both (Compares (x * weight n + value xs) (y * weight n + value ys)) (ltb x y)
            (λ r.
              first_digit y x n (value ys) (value xs) (ground (arith, r))
                (subst (λ t. value xs < weight t) same_long (value-lt xs hs)))
            (λ r. before x y n (value xs) (value ys) _ (ground (arith, q, r)) rest)) in
    subst (λ t. Compares (t + value xs) (y * weight n + value ys) (cmp_digits (x ∷ xs) (y ∷ ys)))
      (sym first) shown

pub weight_le : (m n : ℕ) → m ≤ n → weight m ≤ weight n
weight_le m n h =
    let apart : m + (n - m) ≡ n = omega arith in
    let product = mul-le-mul_right (weight m) (weight_pos (n - m)) in
    omega (arith, ap weight (sym apart) ∙ weight-add m (n - m), product)

-- A number with more digits is greater.
pub longer-lt :
    (xs ys : List ℕ) → IsNumber xs → IsTrimmed ys → length xs < length ys → value xs < value ys
longer-lt xs ys (a, t) u h = omega (
  arith,
  value-lt xs a,
  weight_le (length xs) (length ys - 1) (omega arith),
  trimmed_le ys u (omega (arith, longer_one xs t)),
)

pub not_longer :
    (xs ys : List ℕ) → IsNumber xs → IsTrimmed ys → value ys ≤ value xs → length ys ≤ length xs
not_longer xs ys a b h =
    if_both (λ (_ : Bool). length ys ≤ length xs) (ltb (length xs) (length ys)) {x = true}
      {y = true} (λ q. absurd (omega (arith, h, longer-lt xs ys a b (ground (arith, q)))))
      (λ q. ground (arith, q))

-- A first digit of `ys` that is too great does not matter if `xs` is not longer.
pub cmp_abs_bigint-loosely :
    (xs ys : List ℕ)
    → IsNumber xs
    → AreTailDigits ys
    → IsTrimmed ys
    → (length xs ≤ length ys) ⊎ AreDigits ys
    → Compares (value xs) (value ys) (cmp_abs_bigint xs ys)
unfolding cmp_abs_bigint
cmp_abs_bigint-loosely xs ys a b t few =
    if_both (Compares (value xs) (value ys)) (length xs == length ys)
      (λ e.
        cmp_digits-Compares xs ys ((==_iff (length xs) (length ys)).0 e)
          (AreTailDigits-of_digits xs a.0) b)
      (λ e.
        if_both (Compares (value xs) (value ys)) (ltb (length ys) (length xs))
          (λ q.
            let longer : length ys < length xs = ground (arith, q) in
            elim few [
              | inl m ↦ absurd (omega (arith, m, longer))
              | inr c ↦ longer-lt ys xs (c, t) a.1 longer
            ])
          (λ q. longer-lt xs ys a t (ground (arith, e, q))))

pub cmp_abs_bigint-Compares :
    (xs ys : List ℕ)
    → IsNumber xs
    → IsNumber ys
    → Compares (value xs) (value ys) (cmp_abs_bigint xs ys)
cmp_abs_bigint-Compares xs ys a (b, t) =
    cmp_abs_bigint-loosely xs ys a (AreTailDigits-of_digits ys b) t (inr b)

-- Zeros are not greater, leading or not.
pub cmp_abs_bigint-zeros :
    (xs ys : List ℕ)
    → AreDigits xs
    → AreDigits ys
    → length ys ≤ length xs
    → value ys ≡ 0
    → cmp_abs_bigint xs ys ≢ smaller
unfolding cmp_abs_bigint
cmp_abs_bigint-zeros xs ys a b h z =
    if_both (λ (o : Order). o ≢ smaller) (length xs == length ys)
      (λ e q.
        let found =
          cmp_digits-Compares xs ys ((==_iff (length xs) (length ys)).0 e)
            (AreTailDigits-of_digits xs a) (AreTailDigits-of_digits ys b) in
        omega (arith, z, subst (Compares (value xs) (value ys)) q found))
      (λ e.
        if_both (λ (o : Order). o ≢ smaller) (ltb (length ys) (length xs))
          (λ q r. subst IsGreater r tt) (λ q r. ground (arith, h, e, q)))
