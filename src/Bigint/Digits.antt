-- ===== src/Bigint/Digits.antt =====
-- The digits of the bigints of nl-math.c: numbers below BIGINT_BASE, the most significant first, and
-- what they stand for.
use native.Mathlib.Nat.{mul-le-mul_right}
use newlisp_neo.Prelude.{
  ℕ, zero, suc, ◌+◌, ◌-◌, ◌*◌, ◌≤◌, ◌<◌, ◌≡◌, ap, ◌∙◌, List, [], ◌∷◌, ◌++◌, length, length-append,
  arith,
}

abbrev pub bigint_base : ℕ
bigint_base = 1000000000

-- What a one is worth with so many digits behind it.
unfoldable pub weight : ℕ → ℕ
weight zero = 1
weight (suc n) = 1000000000 * weight n

abbrev pub value : List ℕ → ℕ
value [] = 0
value (d ∷ ds) = d * weight (length ds) + value ds

abbrev pub AreDigits : List ℕ → Type 0
AreDigits [] = Unit
AreDigits (d ∷ ds) = (d < 1000000000) × AreDigits ds

-- No leading zero, but for the number zero.
abbrev pub IsTrimmed : List ℕ → Type 0
IsTrimmed [] = ⊥
IsTrimmed (d ∷ []) = Unit
IsTrimmed (d ∷ e ∷ ds) = 0 < d

abbrev pub IsNumber : List ℕ → Type 0
IsNumber ds = AreDigits ds × IsTrimmed ds

pub weight_pos : (n : ℕ) → 0 < weight n
unfolding weight
weight_pos zero = omega arith
weight_pos (suc n) = omega (arith, weight_pos n)

-- Digits are worth less than a one before them.
pub value-lt : (ds : List ℕ) → AreDigits ds → value ds < weight (length ds)
unfolding weight
value-lt [] h = omega arith
value-lt (d ∷ ds) (h, hs) = grind (arith, value-lt ds hs, weight_pos (length ds))

pub weight-add : (m n : ℕ) → weight (m + n) ≡ weight m * weight n
unfolding weight
weight-add zero n = let same : zero + n ≡ n = omega arith in ap weight same ∙ (omega arith)
weight-add (suc m) n =
    let next : suc m + n ≡ suc (m + n) = omega arith in
    ap weight next ∙ (omega (arith, weight-add m n))

pub value-append : (xs ys : List ℕ) → value (xs ++ ys) ≡ value xs * weight (length ys) + value ys
value-append [] ys = omega arith
value-append (x ∷ xs) ys = omega (
  arith,
  value-append xs ys,
  ap (λ (t : ℕ). x * t) (ap weight (length-append xs ys) ∙ weight-add (length xs) (length ys)),
)

-- A number of more digits than one is trimmed if it is not less than a one in the first place.
pub trimmed_le : (ds : List ℕ) → IsTrimmed ds → 1 < length ds → weight (length ds - 1) ≤ value ds
unfolding weight
trimmed_le [] t h = absurd t
trimmed_le (d ∷ []) t h = absurd (omega arith)
trimmed_le (d ∷ e ∷ ds) t h =
    let place : length (d ∷ e ∷ ds) - 1 ≡ suc (length ds) = omega arith in
    let big = mul-le-mul_right (weight (suc (length ds))) t in omega (arith, ap weight place, big)

pub IsTrimmed-of_le :
    (ds : List ℕ)
    → AreDigits ds
    → 0 < length ds
    → (1 < length ds → weight (length ds - 1) ≤ value ds)
    → IsTrimmed ds
IsTrimmed-of_le [] h p k = absurd (omega arith)
IsTrimmed-of_le (d ∷ []) h p k = tt
IsTrimmed-of_le (zero ∷ e ∷ ds) (h, hs) p k =
    let place : length (zero ∷ e ∷ ds) - 1 ≡ length (e ∷ ds) = omega arith in
    absurd (omega (arith, k (omega arith), value-lt (e ∷ ds) hs, ap weight place))
IsTrimmed-of_le (suc d ∷ e ∷ ds) h p k = omega arith
