-- ===== src/Bigint/Parsing.antt =====
-- The number that strToBigint of nl-math.c reads.
use native.Mathlib.Nat.{mul-le-mul_right}
use newlisp_neo.Prelude.{
  ℕ, zero, suc, ◌+◌, ◌-◌, ◌*◌, ◌/◌, ◌%◌, ◌≤◌, ◌<◌, ◌≡◌, refl, sym, ap, ◌∙◌, List, [], ◌∷◌, length,
  length-take, length-drop, take, drop, take-append-drop, arith, if_both, ◌==◌, ==_iff,
}
use newlisp_neo.Bigint.Digits.{weight, value, AreDigits, IsNumber, IsTrimmed-of_le}
use newlisp_neo.Bigint.Text.{group, groups, str_to_digits}
use newlisp_neo.Bigint.Decimal.{
  ten_pow, decimal, AreNumerals, ten_pow-le, weight-ten, decimal-append, decimal-lt, group-decimal,
}

pub AreNumerals-take : (n : ℕ) (s : List ℕ) → AreNumerals s → AreNumerals (take n s)
AreNumerals-take zero s h = tt
AreNumerals-take (suc n) [] h = tt
AreNumerals-take (suc n) (c ∷ s) (h, hs) = (h, AreNumerals-take n s hs)

pub AreNumerals-drop : (n : ℕ) (s : List ℕ) → AreNumerals s → AreNumerals (drop n s)
AreNumerals-drop zero s h = h
AreNumerals-drop (suc n) [] h = tt
AreNumerals-drop (suc n) (c ∷ s) (h, hs) = AreNumerals-drop n s hs

-- A group of nine numerals at most is one digit.
group-digit :
    (cut : ℕ) (s : List ℕ)
    → AreNumerals s
    → cut ≤ 9
    → cut ≤ length s
    → (group 0 (take cut s) ≡ decimal (take cut s)) × (group 0 (take cut s) < 1000000000)
unfolding ten_pow
group-digit cut s h k m =
    let few = AreNumerals-take cut s h in
    let v = group-decimal 0 (take cut s) few in
    let short : length (take cut s) ≤ 9 = omega (arith, length-take cut s m) in
    (
      omega (arith, v),
      omega (arith, v, decimal-lt (take cut s) few, ten_pow-le (length (take cut s)) 9 short),
    )

-- What the groups say, and how many there are.
abbrev Reads : ℕ → List ℕ → List ℕ → Type 0
Reads n s ds = (value ds ≡ decimal s) × (length ds ≡ n) × AreDigits ds

first_group :
    (n cut : ℕ) (s ds : List ℕ)
    → AreNumerals s
    → cut ≤ 9
    → length s ≡ cut + 9 * n
    → Reads n (drop cut s) ds
    → Reads (suc n) s (group 0 (take cut s) ∷ ds)
first_group n cut s ds h k e (w, l, a) =
    let (v, small) = group-digit cut s h k (omega (arith, e)) in
    let place : weight (length ds) ≡ ten_pow (length (drop cut s)) =
      ap weight l ∙ weight-ten n ∙ ap ten_pow (omega (arith, length-drop cut s, e)) in
    let split =
      ap decimal (sym (take-append-drop cut s)) ∙ decimal-append (take cut s) (drop cut s) in
    let first : group 0 (take cut s) * weight (length ds)
        ≡ decimal (take cut s) * ten_pow (length (drop cut s)) =
      ap (λ t. t * weight (length ds)) v ∙ ap (λ t. decimal (take cut s) * t) place in
    (omega (arith, first, w, split), omega (arith, l), (small, a))

nines : (n : ℕ) (s : List ℕ) → AreNumerals s → length s ≡ 9 * n → Reads n s (groups n 9 s)
unfolding groups
nines zero [] h e = (omega arith, refl, tt)
nines zero (c ∷ s) h e = absurd (omega (arith, e))
nines (suc n) s h e =
    let rest = nines n (drop 9 s) (AreNumerals-drop 9 s h) (omega (arith, length-drop 9 s, e)) in
    first_group n 9 s (groups n 9 (drop 9 s)) h (omega arith) (omega (arith, e)) rest

-- How many groups of nine numerals there are, the first one with fewer.
abbrev pub HasGroups : ℕ → List ℕ → Type 0
HasGroups n s = (length s ≤ 9 * n) × (9 * n < length s + 9)

str_to_digits-Reads :
    (s : List ℕ) → AreNumerals s → (n : ℕ) × HasGroups n s × Reads n s (str_to_digits s)
unfolding str_to_digits groups
str_to_digits-Reads s h =
    let len = length s in
    if_both (λ (ds : List ℕ). (n : ℕ) × HasGroups n s × Reads n s ds) (len % 9 == 0)
      (λ q.
        let even : len % 9 ≡ 0 = (==_iff (len % 9) 0).0 q in
        (
          len / 9,
          (omega (arith, even), omega (arith, even)),
          nines (len / 9) s h (omega (arith, even)),
        ))
      (λ q.
        let n = len / 9 in
        let cut = len % 9 in
        let odd : 0 < cut = ground (arith, q) in
        (
          suc n,
          (omega (arith, odd), omega (arith, odd)),
          first_group n cut s (groups n 9 (drop cut s)) h (omega arith) (omega arith)
              (nines n (drop cut s) (AreNumerals-drop cut s h) (omega (arith, length-drop cut s))),
        ))

-- No zero before another numeral.
abbrev pub NoLeadingZero : List ℕ → Type 0
NoLeadingZero [] = ⊥
NoLeadingZero (c ∷ []) = Unit
NoLeadingZero (c ∷ d ∷ s) = 48 < c

decimal-least : (s : List ℕ) → NoLeadingZero s → 1 < length s → ten_pow (length s - 1) ≤ decimal s
unfolding ten_pow
decimal-least [] h k = absurd h
decimal-least (c ∷ []) h k = absurd (omega arith)
decimal-least (c ∷ d ∷ s) h k =
    let place : length (c ∷ d ∷ s) - 1 ≡ suc (length s) = omega arith in
    let one : 1 ≤ c - 48 = omega arith in
    omega (arith, ap ten_pow place, mul-le-mul_right (ten_pow (suc (length s))) one)

some_numeral : (s : List ℕ) → NoLeadingZero s → 0 < length s
some_numeral [] h = absurd h
some_numeral (c ∷ s) h = omega arith

pub str_to_digits-value : (s : List ℕ) → AreNumerals s → value (str_to_digits s) ≡ decimal s
str_to_digits-value s h = let (n, few, (v, l, a)) = str_to_digits-Reads s h in v

pub str_to_digits-IsNumber :
    (s : List ℕ) → AreNumerals s → NoLeadingZero s → IsNumber (str_to_digits s)
str_to_digits-IsNumber s h k =
    let (n, (low, high), (v, l, a)) = str_to_digits-Reads s h in
    let ds = str_to_digits s in
    let some_text = some_numeral s k in
    (
      a,
      IsTrimmed-of_le ds a (omega (arith, low, l, some_text)) (λ two.
          let place : weight (length ds - 1) ≡ ten_pow (9 * (n - 1)) =
            weight-ten (length ds - 1) ∙ ap ten_pow (omega (arith, l)) in
          let shorter = ten_pow-le (9 * (n - 1)) (length s - 1) (omega (arith, high, l, two)) in
          omega (arith, place, shorter, v, decimal-least s k (omega (arith, high, l, two)))),
    )
