-- ===== src/Bigint/Printing.antt =====
-- What bigintToDigits and lengthBigint of nl-math.c find in the digits of a number.
use mathlib.Core.Option.{map}
use native.Mathlib.Nat.{lt-div-mul-add, le-div_iff_mul-le}
use newlisp_neo.Prelude.{
  ℕ, zero, suc, ◌+◌, ◌-◌, ◌*◌, ◌/◌, ◌≤◌, ◌<◌, ◌≡◌, refl, sym, ap, ap₂, ◌∙◌, List, [], ◌∷◌, ◌++◌,
  length, length-append, arith, Bool, true, false, not, ◌&&◌, Option, some, if_both, ◌==◌, ==_iff,
}
use newlisp_neo.Bigint.Digits.{weight, value, AreDigits, IsNumber}
use newlisp_neo.Bigint.Operations.{Bigint, is_zero}
use newlisp_neo.Bigint.Text.{
  first_place, write_digit, write_rest, sign_text, digits_text, length_of, bigint_to_digits,
  length_bigint,
}
use newlisp_neo.Bigint.Decimal.{
  ten_pow, decimal, AreNumerals, ten_pow-pos, weight-ten, decimal-append, all_numerals, Writes,
  write_digit-Writes,
}
use newlisp_neo.Bigint.Parsing.{NoLeadingZero}

-- The place of the first numeral of a number.
abbrev FirstPlace : ℕ → Option (ℕ × ℕ) → Type 0
FirstPlace d place =
    (n : ℕ) × (place ≡ some (ten_pow n, suc n)) × (ten_pow n ≤ d) × (d < ten_pow (suc n))

first_place-FirstPlace :
    (n fuel d b cnt : ℕ)
    → n < fuel
    → 0 < d
    → b ≡ ten_pow n
    → cnt ≡ suc n
    → d < ten_pow (suc n)
    → FirstPlace d (first_place fuel d b cnt)
unfolding first_place ten_pow
first_place-FirstPlace n zero d b cnt f p e c h = absurd (omega arith)
first_place-FirstPlace n (suc fuel) d zero cnt f p e c h = absurd (omega (arith, e, ten_pow-pos n))
first_place-FirstPlace zero (suc fuel) d (suc b) cnt f p e c h =
    if_both (FirstPlace d) (d / suc b == 0)
      (λ q.
        let none_left : d / suc b ≡ 0 = (==_iff (d / suc b) 0).0 q in
        let left = lt-div-mul-add {a = d} {b = suc b} (omega arith) in
        absurd (omega (arith, e, p, left, ap (λ t. t * suc b) none_left)))
      (λ q. (0, ap₂ (λ t u. some (t, u)) e c, p, h))
first_place-FirstPlace (suc n) (suc fuel) d (suc b) cnt f p e c h =
    let left = lt-div-mul-add {a = d} {b = suc b} (omega arith) in
    if_both (FirstPlace d) (d / suc b == 0)
      (λ q.
        let none_left : d / suc b ≡ 0 = (==_iff (d / suc b) 0).0 q in
        first_place-FirstPlace n fuel d (suc b / 10) (cnt - 1) (omega arith) p (omega (arith, e))
          (omega (arith, c)) (omega (arith, e, left, ap (λ t. t * suc b) none_left)))
      (λ q.
        let one : 1 ≤ d / suc b = ground (arith, q) in
        let least = (le-div_iff_mul-le {k = suc b} (omega arith)).0 one in
        (suc n, ap₂ (λ t u. some (t, u)) e c, omega (arith, e, least), h))

write_rest-Writes : (ds : List ℕ) → AreDigits ds → Writes (9 * length ds) (value ds) (write_rest ds)
unfolding write_rest ten_pow
write_rest-Writes [] h = (omega arith, omega arith, tt)
write_rest-Writes (d ∷ ds) (h, hs) =
    let (v, l, a) = write_digit-Writes 8 d 100000000 refl (omega arith) in
    let (v', l', a') = write_rest-Writes ds hs in
    let first = write_digit 9 d 100000000 in
    let rest = write_rest ds in
    let place : ten_pow (length rest) ≡ weight (length ds) =
      ap ten_pow l' ∙ sym (weight-ten (length ds)) in
    (
      omega (arith, decimal-append first rest, v', ap₂ (λ t u. t * u) v place),
      omega (arith, length-append first rest, l, l'),
      all_numerals first rest a a',
    )

-- Numerals without a leading zero that say this number.
abbrev pub Prints : ℕ → List ℕ → Type 0
Prints n s = AreNumerals s × NoLeadingZero s × (decimal s ≡ n)

no_leading : (c : ℕ) (s : List ℕ) → 48 < c → NoLeadingZero (c ∷ s)
no_leading c [] h = tt
no_leading c (d ∷ s) h = h

-- The first digit, and the others behind it.
digits_written :
    (n d : ℕ) (ds : List ℕ)
    → AreDigits ds
    → ten_pow n ≤ d
    → d < ten_pow (suc n)
    → let s = write_digit (suc n) d (ten_pow n) ++ write_rest ds in
      Prints (value (d ∷ ds)) s × (length s ≡ 9 * length ds + suc n)
unfolding write_digit ten_pow
digits_written n d ds h k m =
    let (v, l, a) = write_digit-Writes n d (ten_pow n) refl m in
    let (v', l', a') = write_rest-Writes ds h in
    let first = write_digit (suc n) d (ten_pow n) in
    let rest = write_rest ds in
    let place : ten_pow (length rest) ≡ weight (length ds) =
      ap ten_pow l' ∙ sym (weight-ten (length ds)) in
    let one : 1 ≤ d / ten_pow n = (le-div_iff_mul-le (ten_pow-pos n)).1 (omega (arith, k)) in
    (
      (
        all_numerals first rest a a',
        no_leading (d / ten_pow n + 48) _ (omega (arith, one)),
        omega (arith, decimal-append first rest, v', ap₂ (λ t u. t * u) v place),
      ),
      omega (arith, length-append first rest, l, l'),
    )

-- A sign if the number is negative, numerals, and how many there are.
abbrev pub Printed : Bool → ℕ → Option (List ℕ) → Option ℕ → Type 0
Printed negative n text count =
    (s : List ℕ) × (text ≡ some (sign_text negative ++ s)) × (count ≡ some (length s)) × Prints n s

printed :
    (negative : Bool) (d : ℕ) (ds : List ℕ)
    → suc d < 1000000000
    → AreDigits ds
    → Printed negative
        (value (suc d ∷ ds))
        (digits_text negative (suc d ∷ ds))
        (length_of (suc d ∷ ds))
unfolding digits_text length_of ten_pow
printed negative d ds h k =
    let (n, e, low, high) =
      first_place-FirstPlace 8 10 (suc d) 100000000 9 (omega arith) (omega arith) refl refl h in
    let (p, l) = digits_written n (suc d) ds k low high in
    (
      write_digit (suc n) (suc d) (ten_pow n) ++ write_rest ds,
      ap
          (map (λ (place : ℕ × ℕ).
            sign_text negative ++ (write_digit place.1 (suc d) place.0 ++ write_rest ds)))
          e,
      ap (map (λ (place : ℕ × ℕ). 9 * length ds + place.1)) e ∙ ap some (sym l),
      p,
    )

digits-Printed :
    (negative : Bool) (ds : List ℕ)
    → IsNumber ds
    → let x : Bigint = record { negative = negative; digits = ds } in
      Printed (negative && not (is_zero ds)) (value ds) (bigint_to_digits x) (length_bigint x)
unfolding bigint_to_digits length_bigint weight ten_pow
digits-Printed negative [] (h, t) = absurd t
digits-Printed true (zero ∷ []) h =
    (48 ∷ [], refl, refl, (((omega arith, omega arith), tt), tt, refl))
digits-Printed false (zero ∷ []) h =
    (48 ∷ [], refl, refl, (((omega arith, omega arith), tt), tt, refl))
digits-Printed true (suc d ∷ []) ((h, hs), t) = printed true d [] h hs
digits-Printed false (suc d ∷ []) ((h, hs), t) = printed false d [] h hs
digits-Printed negative (zero ∷ e ∷ ds) (h, t) = absurd (omega (arith, t))
digits-Printed true (suc d ∷ e ∷ ds) ((h, hs), t) = printed true d (e ∷ ds) h hs
digits-Printed false (suc d ∷ e ∷ ds) ((h, hs), t) = printed false d (e ∷ ds) h hs

-- Of a bigint in digits below BIGINT_BASE without a leading zero, bigintToDigits with the offset 48 writes the decimal numerals without
-- a leading zero, after a minus if it is negative and not zero, and lengthBigint gives their number.
pub bigint_to_digits-Printed :
    (x : Bigint)
    → IsNumber x.digits
    → Printed
        (x.negative && not (is_zero x.digits))
        (value x.digits)
        (bigint_to_digits x)
        (length_bigint x)
bigint_to_digits-Printed x h = digits-Printed x.negative x.digits h
