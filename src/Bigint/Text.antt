-- ===== src/Bigint/Text.antt =====
-- strToBigint, bigintToDigits and lengthBigint of nl-math.c. A text is the list of its bytes.
use newlisp_neo.Prelude.{
  ℕ, zero, suc, ◌+◌, ◌-◌, ◌*◌, ◌/◌, ◌%◌, List, [], ◌∷◌, ◌++◌, length, take, drop, Bool, true, false,
  if◌then◌else◌, ◌==◌, Option, none, some,
}
use mathlib.Core.Option.{map}
use newlisp_neo.Bigint.Digits.{bigint_base}
use newlisp_neo.Bigint.Operations.{Bigint, is_zero}

-- "don't look at trailing L"
unfoldable pub without_l : List ℕ → List ℕ
without_l [] = []
without_l (c ∷ []) = if c == 76 then [] else c ∷ []
without_l (c ∷ d ∷ s) = c ∷ without_l (d ∷ s)

-- "skip leading sign"
abbrev pub leading_sign : List ℕ → Bool × List ℕ
leading_sign [] = (false, [])
leading_sign (c ∷ s) = if c == 45 then (true, s) else if c == 43 then (false, s) else (false, c ∷ s)

-- "remove leading zeros"
unfoldable pub without_zeros : List ℕ → List ℕ
without_zeros [] = []
without_zeros (c ∷ []) = c ∷ []
without_zeros (c ∷ d ∷ s) = let rest = without_zeros (d ∷ s) in if c == 48 then rest else c ∷ d ∷ s

-- The loop over `j`.
unfoldable pub group : ℕ → List ℕ → ℕ
group num [] = num
group num (c ∷ s) = group (10 * num + c - 48) s

-- The loop over `i`.
unfoldable pub groups : ℕ → ℕ → List ℕ → List ℕ
unfolding group
groups zero cut s = []
groups (suc n) cut s = group 0 (take cut s) ∷ groups n 9 (drop cut s)

unfoldable pub str_to_digits : List ℕ → List ℕ
unfolding groups
str_to_digits s =
    let len = length s in
    let cut = len % 9 in if cut == 0 then groups (len / 9) 9 s else groups (suc (len / 9)) cut s

unfoldable pub str_to_bigint : List ℕ → Bigint
unfolding without_l without_zeros str_to_digits
str_to_bigint str =
    let (negative, s) = leading_sign (without_l str) in
    record { negative = negative; digits = str_to_digits (without_zeros s) }

-- "cnt of digits in first big digit": `basediv` for the first of them, and how many there are, which is
-- counted down. `none` stands for a division by zero.
unfoldable pub first_place : ℕ → ℕ → ℕ → ℕ → Option (ℕ × ℕ)
first_place zero bigdigit basediv cnt = none
first_place (suc fuel) bigdigit zero cnt = none
first_place (suc fuel) bigdigit (suc b) cnt =
    let rest = first_place fuel bigdigit (suc b / 10) (cnt - 1) in
    if bigdigit / suc b == 0 then rest else some (suc b, cnt)

-- The loop over `j`, with the offset 48.
unfoldable pub write_digit : ℕ → ℕ → ℕ → List ℕ
write_digit zero bigdigit basediv = []
write_digit (suc cnt) bigdigit basediv =
    let q = bigdigit / basediv in (q + 48) ∷ write_digit cnt (bigdigit - q * basediv) (basediv / 10)

unfoldable pub write_rest : List ℕ → List ℕ
unfolding write_digit
write_rest [] = []
write_rest (d ∷ ds) = write_digit 9 d (bigint_base / 10) ++ write_rest ds

abbrev pub sign_text : Bool → List ℕ
sign_text true = 45 ∷ []
sign_text false = []

-- `none` where the program does not end, or there is no digit to read.
unfoldable pub digits_text : Bool → List ℕ → Option (List ℕ)
unfolding first_place write_rest
digits_text negative [] = none
digits_text negative (d ∷ ds) =
    map (λ (basediv, cnt). sign_text negative ++ (write_digit cnt d basediv ++ write_rest ds))
      (first_place 10 d (bigint_base / 10) 9)

unfoldable pub bigint_to_digits : Bigint → Option (List ℕ)
unfolding digits_text
bigint_to_digits x = if is_zero x.digits then some (48 ∷ []) else digits_text x.negative x.digits

unfoldable pub length_of : List ℕ → Option ℕ
unfolding first_place
length_of [] = none
length_of (zero ∷ ds) = some 1
length_of (suc d ∷ ds) =
    map (λ (basediv, cnt). 9 * length ds + cnt) (first_place 10 (suc d) (bigint_base / 10) 9)

-- `9 * (len - 1) + 9 - cnt`
unfoldable pub length_bigint : Bigint → Option ℕ
unfolding length_of
length_bigint x = length_of x.digits
