-- ===== src/Bigint/Add.antt =====
-- The addition of absolute values in nl-math.c.
use mathlib.Core.Path.{subst}
use Prim.Native.Nat.{◌≤◌}
use native.Mathlib.Nat.{div-add-mod}
use newlisp_neo.Prelude.{
  ℕ, zero, suc, ◌+◌, ◌-◌, ◌*◌, ◌/◌, ◌%◌, ◌<◌, ◌≡◌, refl, sym, ap, ◌∙◌, List, [], ◌∷◌, ◌++◌, length,
  length-append, length-drop, take, drop, take-append-drop, arith, if_both, if_false, ◌==◌, ==_iff,
}
use newlisp_neo.Bigint.Digits.{
  bigint_base, weight, value, AreDigits, IsTrimmed, IsNumber, weight-add, value-append, trimmed_le,
  IsTrimmed-of_le,
}
use newlisp_neo.Bigint.Operations.{add_digits, carry_into, with_carry, add_abs}

-- A carry and so many digits that stand for this number together.
abbrev pub Stands : ℕ → ℕ → ℕ × List ℕ → Type 0
Stands n total (carry, ds) = (carry * weight n + value ds ≡ total) × (length ds ≡ n) × AreDigits ds

-- A digit is written and the rest of it carried.
pub Stands-digit :
    (n total digit : ℕ) (ds : List ℕ)
    → Stands n total (0, ds)
    → Stands (suc n) (digit * weight n + total) (digit / bigint_base, (digit % bigint_base) ∷ ds)
unfolding weight
Stands-digit n total digit ds (v, l, h) =
    let split = ap (λ (k : ℕ). k * weight n) (div-add-mod digit bigint_base) in
    (
      omega (arith, v, split, ap (λ (k : ℕ). digit % bigint_base * weight k) l),
      omega (arith, l),
      (omega arith, h),
    )

pub all_digits : (xs ys : List ℕ) → AreDigits xs → AreDigits ys → AreDigits (xs ++ ys)
all_digits [] ys h k = k
all_digits (x ∷ xs) ys (h, hs) k = (h, all_digits xs ys hs k)

add_digits-Stands :
    (xs ys : List ℕ)
    → length xs ≡ length ys
    → Stands (length xs) (value xs + value ys) (add_digits xs ys)
unfolding add_digits weight
add_digits-Stands [] [] h = (omega arith, refl, tt)
add_digits-Stands [] (y ∷ ys) h = absurd (omega arith)
add_digits-Stands (x ∷ xs) [] h = absurd (omega arith)
add_digits-Stands (x ∷ xs) (y ∷ ys) h =
    let n = length xs in
    let (v, l, d) = add_digits-Stands xs ys (omega arith) in
    let carry = (add_digits xs ys).0 in
    let sm = (add_digits xs ys).1 in
    let (v', l', d') = Stands-digit n (value sm) (x + y + carry) sm (omega arith, l, d) in
    (omega (arith, v, v', ap (λ (k : ℕ). y * weight k) h), l', d')

carry_into-Stands : (xs : List ℕ) (c : ℕ) → Stands (length xs) (value xs + c) (carry_into xs c)
unfolding carry_into weight
carry_into-Stands [] c = (omega arith, refl, tt)
carry_into-Stands (x ∷ xs) c =
    let n = length xs in
    let (v, l, d) = carry_into-Stands xs c in
    let carry = (carry_into xs c).0 in
    let sm = (carry_into xs c).1 in
    let (v', l', d') = Stands-digit n (value sm) (x + carry) sm (omega arith, l, d) in
    (omega (arith, v, v'), l', d')

-- The carry of one digit at most.
add_digits-carry : (xs ys : List ℕ) → AreDigits xs → AreDigits ys → (add_digits xs ys).0 < 2
unfolding add_digits
add_digits-carry [] ys h k = omega arith
add_digits-carry (x ∷ xs) [] h k = omega arith
add_digits-carry (x ∷ xs) (y ∷ ys) (h, hs) (k, ks) = omega (arith, add_digits-carry xs ys hs ks)

carry_into-carry : (xs : List ℕ) (c : ℕ) → AreDigits xs → c < 2 → (carry_into xs c).0 < 2
unfolding carry_into
carry_into-carry [] c h k = k
carry_into-carry (x ∷ xs) c (h, hs) k = omega (arith, carry_into-carry xs c hs k)

pub AreDigits-drop : (n : ℕ) (xs : List ℕ) → AreDigits xs → AreDigits (drop n xs)
AreDigits-drop zero xs h = h
AreDigits-drop (suc n) [] h = tt
AreDigits-drop (suc n) (x ∷ xs) (h, hs) = AreDigits-drop n xs hs

pub AreDigits-take : (n : ℕ) (xs : List ℕ) → AreDigits xs → AreDigits (take n xs)
AreDigits-take zero xs h = tt
AreDigits-take (suc n) [] h = tt
AreDigits-take (suc n) (x ∷ xs) (h, hs) = (h, AreDigits-take n xs hs)

with_carry-Stands :
    (c : ℕ) (high low : List ℕ)
    → value (with_carry (c, high) low) ≡ c * weight (length (high ++ low)) + value (high ++ low)
with_carry-Stands c high low =
    if_both (λ (ds : List ℕ). value ds ≡ c * weight (length (high ++ low)) + value (high ++ low))
      (c == 0)
      (λ h. omega (arith, ap (λ (k : ℕ). k * weight (length (high ++ low))) ((==_iff c 0).0 h)))
      (λ h. refl)

-- Addition by parts: the digits over which both numbers have digits, and those before them.
added :
    (front back ys : List ℕ)
    → length back ≡ length ys
    → value (with_carry (carry_into front (add_digits back ys).0) (add_digits back ys).1)
      ≡ value (front ++ back) + value ys
added front back ys h =
    let (v, l, d) = add_digits-Stands back ys h in
    let (v', l', d') = carry_into-Stands front (add_digits back ys).0 in
    let low = (add_digits back ys).1 in
    let high = (carry_into front (add_digits back ys).0).1 in
    let carry = (carry_into front (add_digits back ys).0).0 in
    let n = length front in
    let m = length back in
    let long : length (high ++ low) ≡ n + m = omega (arith, length-append high low, l, l') in
    let places = ap (λ (k : ℕ). carry * k) (ap weight long ∙ weight-add n m) in
    let scaled = ap (λ (k : ℕ). k * weight m) v' in
    let inner = ap (λ (k : ℕ). value high * weight k) l in
    omega (
      arith,
      with_carry-Stands carry high low,
      value-append high low,
      value-append front back,
      places,
      scaled,
      inner,
      v,
    )

with_carry-IsTrimmed :
    (c : ℕ) (high low : List ℕ)
    → c < 2
    → AreDigits (high ++ low)
    → 0 < length (high ++ low)
    → (1 < length (high ++ low)
        → weight (length (high ++ low) - 1) ≤ value (with_carry (c, high) low))
    → AreDigits (with_carry (c, high) low) × IsTrimmed (with_carry (c, high) low)
with_carry-IsTrimmed zero high low h d p k = (d, IsTrimmed-of_le (high ++ low) d p k)
with_carry-IsTrimmed (suc c) high low h d p k =
    let ds = suc c ∷ (high ++ low) in
    let all : AreDigits ds = (omega arith, d) in
    let place : length ds - 1 ≡ length (high ++ low) = omega arith in
    subst IsNumber (sym (if_false (suc c == 0) (high ++ low) ds (ground arith)))
      (all, IsTrimmed-of_le ds all (omega arith) (λ _. omega (arith, ap weight place)))

pub longer_one : (ds : List ℕ) → IsTrimmed ds → 0 < length ds
longer_one [] t = absurd t
longer_one (d ∷ ds) t = omega arith

added-IsNumber :
    (front back ys : List ℕ)
    → length back ≡ length ys
    → AreDigits front
    → AreDigits back
    → AreDigits ys
    → IsTrimmed (front ++ back)
    → IsNumber (with_carry (carry_into front (add_digits back ys).0) (add_digits back ys).1)
added-IsNumber front back ys h f b k t =
    let (v, l, d) = add_digits-Stands back ys h in
    let (v', l', d') = carry_into-Stands front (add_digits back ys).0 in
    let low = (add_digits back ys).1 in
    let high = (carry_into front (add_digits back ys).0).1 in
    let long : length (high ++ low) ≡ length (front ++ back) =
      omega (arith, length-append high low, length-append front back, l, l') in
    let place : length (high ++ low) - 1 ≡ length (front ++ back) - 1 = omega (arith, long) in
    with_carry-IsTrimmed (carry_into front (add_digits back ys).0).0 high low
      (carry_into-carry front (add_digits back ys).0 f (add_digits-carry back ys b k))
      (all_digits high low d' d) (omega (arith, long, longer_one (front ++ back) t))
      (λ two. omega (
        arith,
        added front back ys h,
        trimmed_le (front ++ back) t (omega (arith, two, long)),
        ap weight place,
      ))

-- The sum of absolute values.
pub add_abs-value :
    (xs ys : List ℕ) → length ys ≤ length xs → value (add_abs xs ys) ≡ value xs + value ys
unfolding add_abs
add_abs-value xs ys h =
    let d = length xs - length ys in
    added (take d xs) (drop d xs) ys (omega (arith, length-drop d xs))
    ∙ ap (λ zs. value zs + value ys) (take-append-drop d xs)

pub add_abs-IsNumber :
    (xs ys : List ℕ) → length ys ≤ length xs → IsNumber xs → AreDigits ys → IsNumber (add_abs xs ys)
unfolding add_abs
add_abs-IsNumber xs ys h (a, t) b =
    let d = length xs - length ys in
    added-IsNumber (take d xs) (drop d xs) ys (omega (arith, length-drop d xs))
      (AreDigits-take d xs a) (AreDigits-drop d xs a) b
      (subst IsTrimmed (sym (take-append-drop d xs)) t)
