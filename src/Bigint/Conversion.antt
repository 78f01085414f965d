-- ===== src/Bigint/Conversion.antt =====
-- Between INT64 and bigint in nl-math.c.
use mathlib.Core.Path.{subst}
use newlisp_neo.Prelude.{
  ℕ, ◌+◌, ◌-◌, ◌*◌, ◌/◌, ◌%◌, ◌^◌, ◌≤◌, ◌<◌, ◌≡◌, ◌≢◌, refl, sym, ap, ap₂, ◌∙◌, List, [], ◌∷◌,
  arith, Bool, true, false, if◌then◌else◌, if_both, if_true, if_false, leb, word_size, is_negative,
  abs64, neg64, sub64, pos, sub_ℕ,
}
use newlisp_neo.Bigint.Digits.{bigint_base, weight, value, IsNumber}
use newlisp_neo.Bigint.Operations.{signed}
use newlisp_neo.Bigint.Signs.{Means}
use newlisp_neo.Bigint.Differences.{sub_ℕ-same}
use newlisp_neo.Bigint.Machine.{
  bigint_base2, above, int_product, last_digits, int_to_digits, int_to_bigint, word_ℤ,
}

-- Two digits at most.
last_digits-one : (n : ℕ) → n < 1000000000 → last_digits n ≡ n ∷ []
unfolding last_digits
last_digits-one n h =
    if_false (above n bigint_base) _ _ (ground (arith, h)) ∙ ap (λ d. d ∷ []) (omega (arith, h))

-- The low bits of the rest are right although the product may overflow.
low_part : (n p : ℕ) → p ≤ n → (n + word_size - p % 2 ^ 32) % word_size % 2 ^ 32 ≡ (n - p) % 2 ^ 32
low_part n p h = omega (arith, h)

low_part_negative :
    (n p : ℕ)
    → p ≤ n
    → 2 ^ 31 ≤ p % 2 ^ 32
    → (n + word_size - (p % 2 ^ 32 + word_size - 2 ^ 32)) % word_size % 2 ^ 32 ≡ (n - p) % 2 ^ 32
low_part_negative n p h k = omega (arith, h, k)

rest-int_product :
    (n q : ℕ)
    → q * 1000000000 ≤ n
    → sub64 n (int_product q bigint_base) % 2 ^ 32 ≡ (n - q * 1000000000) % 2 ^ 32
unfolding sub64
rest-int_product n q h =
    if_both
      (λ (p : ℕ).
        (n + word_size - p % word_size) % word_size % 2 ^ 32 ≡ (n - q * 1000000000) % 2 ^ 32)
      (leb (2 ^ 31) (q * bigint_base % 2 ^ 32))
      (λ e.
        let whole : (q * 1000000000 % 2 ^ 32 + word_size - 2 ^ 32) % word_size
            ≡ q * 1000000000 % 2 ^ 32 + word_size - 2 ^ 32 =
          omega arith in
        ap (λ (p : ℕ). (n + word_size - p) % word_size % 2 ^ 32) whole
        ∙ low_part_negative n (q * 1000000000) h (ground (arith, e)))
      (λ e.
        let whole : q * 1000000000 % 2 ^ 32 % word_size ≡ q * 1000000000 % 2 ^ 32 = omega arith in
        ap (λ (p : ℕ). (n + word_size - p) % word_size % 2 ^ 32) whole
        ∙ low_part n (q * 1000000000) h)

last_digits-two :
    (n : ℕ) → 1000000000 < n → n < 2 ^ 63 → last_digits n ≡ (n / 1000000000) ∷ (n % 1000000000) ∷ []
unfolding last_digits
last_digits-two n h k =
    if_true (above n bigint_base) _ _ (ground (arith, h, k))
    ∙ ap (λ d. (n / 1000000000) ∷ d ∷ [])
        (rest-int_product n (n / 1000000000) (omega arith) ∙ (omega arith))

int_to_digits-low : (n : ℕ) → n ≤ 1000000000000000000 → int_to_digits n ≡ last_digits n
unfolding int_to_digits
int_to_digits-low n h = if_false (above n bigint_base2) _ _ (ground (arith, h))

int_to_digits-high :
    (n : ℕ)
    → 1000000000000000000 < n
    → n < 2 ^ 63
    → int_to_digits n ≡ (n / 1000000000000000000) ∷ last_digits (n % 1000000000000000000)
unfolding int_to_digits
int_to_digits-high n h k =
    if_true (above n bigint_base2) _ _ (ground (arith, h, k))
    ∙ ap (λ r. (n / 1000000000000000000) ∷ last_digits r)
        (let rest : n - n / bigint_base2 * bigint_base2 ≡ n % 1000000000000000000 = omega arith in
          rest)

-- The absolute values that keep all of their digits.
pub data IsExact (m : ℕ) : Type 0 where
  one_digit : m < 1000000000 → IsExact m
  two_digits : 1000000000 < m → m < 1000000000000000000 → IsExact m
  three_digits : 1000000000000000000 < m → 1000000000 < m % 1000000000000000000 → IsExact m

-- The digits of a number.
abbrev IsWritten : ℕ → List ℕ → Type 0
IsWritten m ds = (value ds ≡ m) × IsNumber ds

int_to_digits-IsWritten : (m : ℕ) → m < 2 ^ 63 → IsExact m → IsWritten m (int_to_digits m)
unfolding weight
int_to_digits-IsWritten m k (one_digit h) =
    subst (IsWritten m) (sym (int_to_digits-low m (omega (arith, h)) ∙ last_digits-one m h))
      (omega arith, ((h, tt), tt))
int_to_digits-IsWritten m k (two_digits l h) =
    subst (IsWritten m) (sym (int_to_digits-low m (omega (arith, h)) ∙ last_digits-two m l k))
      (omega arith, ((omega arith, (omega arith, tt)), omega (arith, l)))
int_to_digits-IsWritten m k (three_digits l h) =
    let r = m % 1000000000000000000 in
    subst (IsWritten m)
      (sym (
        int_to_digits-high m l k
        ∙ ap (λ t. (m / 1000000000000000000) ∷ t) (last_digits-two r h (omega arith))))
      (omega arith, ((omega (arith, k), (omega arith, (omega arith, tt))), omega (arith, l)))

pub neg64-negative : (n : ℕ) → n < word_size → 2 ^ 63 ≤ n → neg64 n + n ≡ word_size
unfolding neg64 sub64
neg64-negative n h k = omega (arith, h, k)

pub by_sign :
    (n : ℕ) (b : Bool)
    → n < word_size
    → (b ≡ true → 2 ^ 63 ≤ n)
    → (if b then sub_ℕ n word_size else pos n) ≡ signed b (if b then neg64 n else n)
by_sign n true h k = sub_ℕ-same n word_size 0 (neg64 n) (omega (arith, neg64-negative n h (k refl)))
by_sign n false h k = refl

word_ℤ-signed : (n : ℕ) → n < word_size → word_ℤ n ≡ signed (is_negative n) (abs64 n)
unfolding abs64
word_ℤ-signed n h = by_sign n (is_negative n) h (λ q. ground (arith, q))

abs64-small : (n : ℕ) → n < word_size → n ≢ 2 ^ 63 → abs64 n < 2 ^ 63
unfolding abs64
abs64-small n h k =
    if_both (λ (m : ℕ). m < 2 ^ 63) (is_negative n)
      (λ q.
        let low : 2 ^ 63 ≤ n = ground (arith, q) in omega (arith, neg64-negative n h low, low, k))
      (λ q. ground (arith, q))

-- For an INT64 other than the smallest, intToBigint gives a bigint of the same integer, in digits below BIGINT_BASE without a
-- leading zero, if the absolute value is below 10^9, or between 10^9 and 10^18, or above 10^18 with a rest modulo 10^18 that is
-- above 10^9; the bounds themselves are left out.
pub int_to_bigint-Means :
    (n : ℕ) → n < word_size → n ≢ 2 ^ 63 → IsExact (abs64 n) → Means (word_ℤ n) (int_to_bigint n)
unfolding int_to_bigint
int_to_bigint-Means n h k e =
    let (v, d) = int_to_digits-IsWritten (abs64 n) (abs64-small n h k) e in
    (ap (signed (is_negative n)) v ∙ sym (word_ℤ-signed n h), d)

two_left :
    (q r m : ℕ)
    → m ≡ q * 1000000000000000000 + r
    → 0 < q
    → 0 < r
    → r < 1000000000
    → m < 2 ^ 63
    → int_to_digits m ≡ q ∷ r ∷ []
two_left q r m e p c h k =
    let first : m / 1000000000000000000 ≡ q = omega (arith, e, h) in
    let rest : m % 1000000000000000000 ≡ r = omega (arith, e, h) in
    int_to_digits-high m (omega (arith, e, p, c)) k
    ∙ ap₂ ◌∷◌ first (ap last_digits rest ∙ last_digits-one r h)

-- For q above 0 and r from 1 to 10^9 - 1 whose q * 10^18 + r is an INT64, intToBigint gives the two digits q and r of that
-- number: the zero between them is missing.
pub int_to_bigint-lost :
    (q r : ℕ)
    → 0 < q
    → 0 < r
    → r < 1000000000
    → q * 1000000000000000000 + r < 2 ^ 63
    → int_to_bigint (q * 1000000000000000000 + r) ≡ record { negative = false; digits = q ∷ r ∷ [] }
unfolding int_to_bigint abs64
int_to_bigint-lost q r p c h k =
    let m = q * 1000000000000000000 + r in
    let positive : is_negative m ≡ false = ground (arith, k) in
    let plain : abs64 m ≡ m = if_false (is_negative m) (neg64 m) m positive in
    let split = two_left q r m refl p c h k in
    ap₂ (λ (s : Bool) (ds : List ℕ). record { negative = s; digits = ds }) positive
      (ap int_to_digits plain ∙ split)
