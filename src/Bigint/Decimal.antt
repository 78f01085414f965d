-- ===== src/Bigint/Decimal.antt =====
-- Decimal numerals, which nl-math.c reads and writes nine at a time.
use native.Mathlib.Nat.{mul-le-mul_right, div-mul-le_self, div-lt_iff_lt-mul, lt-div-mul-add}
use newlisp_neo.Prelude.{
  ℕ, zero, suc, ◌+◌, ◌-◌, ◌*◌, ◌/◌, ◌≤◌, ◌<◌, ◌≡◌, refl, sym, ap, ◌∙◌, List, [], ◌∷◌, ◌++◌, length,
  length-append, arith,
}
use newlisp_neo.Bigint.Digits.{weight}
use newlisp_neo.Bigint.Text.{group, write_digit}

unfoldable pub ten_pow : ℕ → ℕ
ten_pow zero = 1
ten_pow (suc n) = 10 * ten_pow n

-- What a text of numerals says.
abbrev pub decimal : List ℕ → ℕ
decimal [] = 0
decimal (c ∷ s) = (c - 48) * ten_pow (length s) + decimal s

abbrev pub AreNumerals : List ℕ → Type 0
AreNumerals [] = Unit
AreNumerals (c ∷ s) = ((48 ≤ c) × (c < 58)) × AreNumerals s

pub ten_pow-pos : (n : ℕ) → 0 < ten_pow n
unfolding ten_pow
ten_pow-pos zero = omega arith
ten_pow-pos (suc n) = omega (arith, ten_pow-pos n)

pub ten_pow-add : (m n : ℕ) → ten_pow (m + n) ≡ ten_pow m * ten_pow n
unfolding ten_pow
ten_pow-add zero n = let same : zero + n ≡ n = omega arith in ap ten_pow same ∙ (omega arith)
ten_pow-add (suc m) n =
    let next : suc m + n ≡ suc (m + n) = omega arith in
    ap ten_pow next ∙ (omega (arith, ten_pow-add m n))

pub ten_pow-le : (m n : ℕ) → m ≤ n → ten_pow m ≤ ten_pow n
ten_pow-le m n h =
    let apart : m + (n - m) ≡ n = omega arith in
    let product = mul-le-mul_right (ten_pow m) (ten_pow-pos (n - m)) in
    omega (arith, ap ten_pow (sym apart) ∙ ten_pow-add m (n - m), product)

nine : ten_pow 9 ≡ 1000000000
unfolding ten_pow
nine = refl

pub weight-ten : (n : ℕ) → weight n ≡ ten_pow (9 * n)
unfolding weight ten_pow
weight-ten zero = refl
weight-ten (suc n) =
    let next : 9 * suc n ≡ 9 + 9 * n = omega arith in
    sym (
      ap ten_pow next
      ∙ ten_pow-add 9 (9 * n)
      ∙ ap (λ t. t * ten_pow (9 * n)) nine
      ∙ (omega (arith, weight-ten n)))

pub decimal-append : (s t : List ℕ) → decimal (s ++ t) ≡ decimal s * ten_pow (length t) + decimal t
decimal-append [] t = omega arith
decimal-append (c ∷ s) t = omega (
  arith,
  decimal-append s t,
  ap (λ k. (c - 48) * k) (ap ten_pow (length-append s t) ∙ ten_pow-add (length s) (length t)),
)

pub decimal-lt : (s : List ℕ) → AreNumerals s → decimal s < ten_pow (length s)
unfolding ten_pow
decimal-lt [] h = omega arith
decimal-lt (c ∷ s) ((h, k), hs) =
    let digit =
      mul-le-mul_right (ten_pow (length s)) (let least : c - 48 ≤ 9 = omega arith in least) in
    omega (arith, decimal-lt s hs, digit)

pub group-decimal :
    (num : ℕ) (s : List ℕ) → AreNumerals s → group num s ≡ num * ten_pow (length s) + decimal s
unfolding group ten_pow
group-decimal num [] h = omega arith
group-decimal num (c ∷ s) ((h, k), hs) =
    let digit : 10 * num + c - 48 ≡ 10 * num + (c - 48) = omega arith in
    group-decimal (10 * num + c - 48) s hs ∙ (omega (arith, ap (λ t. t * ten_pow (length s)) digit))

pub all_numerals : (s t : List ℕ) → AreNumerals s → AreNumerals t → AreNumerals (s ++ t)
all_numerals [] t h k = k
all_numerals (c ∷ s) t (h, hs) k = (h, all_numerals s t hs k)

-- A text of numerals of this length that says this number.
abbrev pub Writes : ℕ → ℕ → List ℕ → Type 0
Writes n d s = (decimal s ≡ d) × (length s ≡ n) × AreNumerals s

pub write_digit-Writes :
    (n d b : ℕ) → b ≡ ten_pow n → d < 10 * b → Writes (suc n) d (write_digit (suc n) d b)
unfolding write_digit ten_pow
write_digit-Writes zero d b e h =
    let one : d / b ≡ d = ap (λ t. d / t) e ∙ (omega arith) in
    (omega (arith, one), refl, ((omega arith, omega (arith, one, e, h)), tt))
write_digit-Writes (suc n) d b e h =
    let positive : 0 < b = omega (arith, e, ten_pow-pos n) in
    let q = d / b in
    let small : q < 10 = (div-lt_iff_lt-mul positive).1 h in
    let part = div-mul-le_self d b in
    let left = lt-div-mul-add {a = d} positive in
    let rest =
      write_digit-Writes n (d - q * b) (b / 10) (omega (arith, e)) (omega (arith, e, part, left)) in
    let (v, l, a) = rest in
    let place = ap (λ t. q * t) (ap ten_pow l) in
    let digit : q + 48 - 48 ≡ q = omega arith in
    let first = ap (λ t. t * ten_pow (length (write_digit (suc n) (d - q * b) (b / 10)))) digit in
    (
      omega (arith, v, first, place, part, ap (λ t. q * t) e),
      omega (arith, l),
      ((omega arith, omega (arith, small)), a),
    )
