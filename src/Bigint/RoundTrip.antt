-- ===== src/Bigint/RoundTrip.antt =====
-- Printing of a bigint by bigintToDigits and reading by strToBigint of nl-math.c.
use newlisp_neo.Prelude.{
  ℕ, ◌+◌, ◌*◌, ◌<◌, ◌≡◌, ◌≢◌, refl, sym, ap, ap₂, ◌∙◌, List, [], ◌∷◌, ◌++◌, append_assoc, length,
  arith, Bool, true, false, not, ◌&&◌, Option, none, some, if_both, ltb,
}
use native.Mathlib.Nat.{mul-le-mul_right}
use newlisp_neo.Bigint.Digits.{weight, value, AreDigits, IsNumber, value-lt}
use newlisp_neo.Bigint.Operations.{Bigint, is_zero}
use newlisp_neo.Bigint.Compare.{longer-lt}
use newlisp_neo.Bigint.Text.{sign_text, bigint_to_digits, str_to_bigint}
use newlisp_neo.Bigint.Parsing.{NoLeadingZero}
use newlisp_neo.Bigint.Printing.{bigint_to_digits-Printed}
use newlisp_neo.Bigint.Reading.{sign_written, is_minus, l_written, str_to_bigint-HasParts}

not_less : (x y w v u : ℕ) → x < y → v < w → x * w + v ≢ y * w + u
not_less x y w v u l h e = omega (arith, mul-le-mul_right w l, h, e)

digit_same : (x y w v u : ℕ) → v < w → u < w → x * w + v ≡ y * w + u → (x ≡ y) × (v ≡ u)
digit_same x y w v u h k e =
    if_both (λ (_ : Bool). (x ≡ y) × (v ≡ u)) (ltb x y) {x = true} {y = true}
      (λ q. absurd (not_less x y w v u (ground (arith, q)) h e))
      (λ q.
        if_both (λ (_ : Bool). (x ≡ y) × (v ≡ u)) (ltb y x) {x = true} {y = true}
          (λ r. absurd (not_less y x w u v (ground (arith, r)) k (sym e)))
          (λ r.
            let same : x ≡ y = ground (arith, q, r) in
            (same, omega (arith, e, ap (λ t. t * w) same))))

digits_same :
    (xs ys : List ℕ)
    → AreDigits xs
    → AreDigits ys
    → length xs ≡ length ys
    → value xs ≡ value ys
    → xs ≡ ys
digits_same [] [] h k l e = refl
digits_same [] (y ∷ ys) h k l e = absurd (omega arith)
digits_same (x ∷ xs) [] h k l e = absurd (omega arith)
digits_same (x ∷ xs) (y ∷ ys) (h, hs) (k, ks) l e =
    let same : length xs ≡ length ys = omega arith in
    let place = ap weight same in
    let (f, r) =
      digit_same x y (weight (length xs)) (value xs) (value ys) (value-lt xs hs)
        (omega (arith, value-lt ys ks, place)) (omega (arith, e, ap (λ t. y * t) place)) in
    ap₂ ◌∷◌ f (digits_same xs ys hs ks same r)

-- Two numbers of the same value have the same digits.
pub value-injective : (xs ys : List ℕ) → IsNumber xs → IsNumber ys → value xs ≡ value ys → xs ≡ ys
value-injective xs ys a b e =
    if_both (λ (_ : Bool). xs ≡ ys) (ltb (length xs) (length ys)) {x = true} {y = true}
      (λ q. absurd (omega (arith, e, longer-lt xs ys a b.1 (ground (arith, q)))))
      (λ q.
        if_both (λ (_ : Bool). xs ≡ ys) (ltb (length ys) (length xs)) {x = true} {y = true}
          (λ r. absurd (omega (arith, e, longer-lt ys xs b a.1 (ground (arith, r)))))
          (λ r. digits_same xs ys a.0 b.0 (ground (arith, q, r)) e))

written_before : (b : Bool) → (o : Option Bool) × (sign_written o ≡ sign_text b) × (is_minus o ≡ b)
written_before true = (some true, refl, refl)
written_before false = (none, refl, refl)

some_text : (s : List ℕ) → NoLeadingZero s → 0 < length s
some_text [] h = absurd h
some_text (c ∷ s) h = omega arith

kept : (a b : Bool) → a && b ≡ false → a && not b ≡ a
kept true true h = absurd (ground (arith, h))
kept true false h = refl
kept false b h = refl

-- For a bigint other than -0 in digits below BIGINT_BASE without a leading zero, bigintToDigits with the offset 48 gives a text, and
-- strToBigint reads this text with an L behind it as the same sign and digits.
pub str_to_bigint-bigint_to_digits :
    (x : Bigint)
    → IsNumber x.digits
    → x.negative && is_zero x.digits ≡ false
    → (text : List ℕ) × (bigint_to_digits x ≡ some text) × (str_to_bigint (text ++ (76 ∷ [])) ≡ x)
str_to_bigint-bigint_to_digits x h k =
    let (s, e, c, (a, z, v)) = bigint_to_digits-Printed x h in
    let (o, w, m) = written_before (x.negative && not (is_zero x.digits)) in
    let (sign, val, number) = str_to_bigint-HasParts o s true a (some_text s z) in
    let text = sign_text (x.negative && not (is_zero x.digits)) ++ s in
    let whole : text ++ (76 ∷ []) ≡ sign_written o ++ (s ++ l_written true) =
      append_assoc (sign_text (x.negative && not (is_zero x.digits))) s (76 ∷ [])
      ∙ ap (λ t. t ++ (s ++ l_written true)) (sym w) in
    let read = str_to_bigint (sign_written o ++ (s ++ l_written true)) in
    let same : read ≡ x =
      ap₂ (λ (n : Bool) (ds : List ℕ). record { negative = n; digits = ds })
        (sign ∙ m ∙ kept x.negative (is_zero x.digits) k)
        (value-injective read.digits x.digits number h (val ∙ v)) in
    (text, e, ap str_to_bigint whole ∙ same)
