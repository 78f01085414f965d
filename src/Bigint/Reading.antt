-- ===== src/Bigint/Reading.antt =====
-- The texts that strToBigint of nl-math.c reads: a sign, numerals and an L.
use mathlib.Core.Path.{subst}
use newlisp_neo.Prelude.{
  ℕ, ◌-◌, ◌*◌, ◌<◌, ◌≡◌, refl, sym, ap, ap₂, ◌∙◌, List, [], ◌∷◌, ◌++◌, append-nil, length, arith,
  Bool, true, false, Option, none, some, if_both, if_false, ◌==◌, ==_iff,
}
use newlisp_neo.Bigint.Digits.{value, IsNumber}
use newlisp_neo.Bigint.Operations.{Bigint, signed}
use newlisp_neo.Bigint.Signs.{Means}
use newlisp_neo.Bigint.Text.{without_l, leading_sign, without_zeros, str_to_digits, str_to_bigint}
use newlisp_neo.Bigint.Decimal.{decimal, AreNumerals, ten_pow}
use newlisp_neo.Bigint.Parsing.{NoLeadingZero, str_to_digits-value, str_to_digits-IsNumber}

-- A sign that may be left out; `true` is the minus.
abbrev pub sign_written : Option Bool → List ℕ
sign_written none = []
sign_written (some true) = 45 ∷ []
sign_written (some false) = 43 ∷ []

abbrev pub is_minus : Option Bool → Bool
is_minus none = false
is_minus (some b) = b

abbrev pub l_written : Bool → List ℕ
l_written true = 76 ∷ []
l_written false = []

without_l-append : (s t : List ℕ) → 0 < length t → without_l (s ++ t) ≡ s ++ without_l t
unfolding without_l
without_l-append [] t h = refl
without_l-append (c ∷ []) [] h = absurd (omega arith)
without_l-append (c ∷ []) (d ∷ t) h = refl
without_l-append (c ∷ d ∷ s) t h = ap (λ r. c ∷ r) (without_l-append (d ∷ s) t h)

without_l-numerals : (s : List ℕ) → AreNumerals s → without_l s ≡ s
unfolding without_l
without_l-numerals [] h = refl
without_l-numerals (c ∷ []) ((h, k), hs) = if_false (c == 76) [] (c ∷ []) (ground arith)
without_l-numerals (c ∷ d ∷ s) (h, hs) = ap (λ r. c ∷ r) (without_l-numerals (d ∷ s) hs)

without_l-written : (s : List ℕ) (l : Bool) → AreNumerals s → without_l (s ++ l_written l) ≡ s
unfolding without_l
without_l-written s true h = without_l-append s (76 ∷ []) (omega arith) ∙ append-nil s
without_l-written s false h = ap without_l (append-nil s) ∙ without_l-numerals s h

longer_text : (s t : List ℕ) → 0 < length s → 0 < length (s ++ t)
longer_text [] t h = absurd (omega arith)
longer_text (c ∷ s) t h = omega arith

numerals_only : (s : List ℕ) → AreNumerals s → leading_sign s ≡ (false, s)
numerals_only [] h = refl
numerals_only (c ∷ s) ((h, k), hs) =
    if_false (c == 45) (true, s) _ (ground arith)
    ∙ if_false (c == 43) (false, s) (false, c ∷ s) (ground arith)

pub sign_text_read :
    (sign : Option Bool) (s : List ℕ)
    → AreNumerals s
    → leading_sign (sign_written sign ++ s) ≡ (is_minus sign, s)
sign_text_read none s h = numerals_only s h
sign_text_read (some true) s h = refl
sign_text_read (some false) s h = refl

abbrev Plain : ℕ → List ℕ → Type 0
Plain n s = AreNumerals s × NoLeadingZero s × (decimal s ≡ n)

without_zeros-Plain :
    (s : List ℕ) → AreNumerals s → 0 < length s → Plain (decimal s) (without_zeros s)
unfolding without_zeros
without_zeros-Plain [] h k = absurd (omega arith)
without_zeros-Plain (c ∷ []) h k = (h, tt, refl)
without_zeros-Plain (c ∷ d ∷ s) (h, hs) k =
    if_both (Plain (decimal (c ∷ d ∷ s))) (c == 48)
      (λ q.
        let (a, b, e) = without_zeros-Plain (d ∷ s) hs (omega arith) in
        let gone = ap (λ t. (t - 48) * ten_pow (length (d ∷ s))) ((==_iff c 48).0 q) in
        (a, b, omega (arith, e, gone)))
      (λ q. ((h, hs), ground (arith, h, q), refl))

-- The sign, and the digits of a number.
abbrev pub HasParts : Bool → ℕ → Bigint → Type 0
HasParts negative n x = (x.negative ≡ negative) × (value x.digits ≡ n) × IsNumber x.digits

pub str_to_bigint-HasParts :
    (sign : Option Bool) (s : List ℕ) (l : Bool)
    → AreNumerals s
    → 0 < length s
    → HasParts (is_minus sign) (decimal s) (str_to_bigint (sign_written sign ++ (s ++ l_written l)))
unfolding str_to_bigint
str_to_bigint-HasParts sign s l h k =
    let whole =
      without_l-append (sign_written sign) (s ++ l_written l) (longer_text s (l_written l) k)
      ∙ ap (λ t. sign_written sign ++ t) (without_l-written s l h) in
    let split = ap leading_sign whole ∙ sign_text_read sign s h in
    let (a, b, e) = without_zeros-Plain s h k in
    subst
      (λ (p : Bool × List ℕ).
        HasParts (is_minus sign) (decimal s)
          (record { negative = p.0; digits = str_to_digits (without_zeros p.1) }))
      (sym split)
      (
        refl,
        str_to_digits-value (without_zeros s) a ∙ e,
        str_to_digits-IsNumber (without_zeros s) a b,
      )

-- For a sign or none, numerals, at least one, and an L or none, strToBigint gives the integer that the text says in decimal,
-- in digits below BIGINT_BASE without a leading zero.
pub str_to_bigint-Means :
    (sign : Option Bool) (s : List ℕ) (l : Bool)
    → AreNumerals s
    → 0 < length s
    → Means
        (signed (is_minus sign) (decimal s))
        (str_to_bigint (sign_written sign ++ (s ++ l_written l)))
str_to_bigint-Means sign s l h k =
    let (e, v, n) = str_to_bigint-HasParts sign s l h k in (ap₂ signed e v, n)
