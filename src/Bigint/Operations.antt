-- ===== src/Bigint/Operations.antt =====
-- addBigint, subBigint, mulBigint and cmpBigint of nl-math.c. An array is its sign, x[0], and the list of the
-- digits behind it. A loop from the last digit to the first one is recursion on the list, its carry the
-- carry of the rest.
use newlisp_neo.Prelude.{
  ℕ, zero, suc, ◌+◌, ◌-◌, ◌*◌, ◌/◌, ◌%◌, List, [], ◌∷◌, ◌++◌, length, take, drop, replicate, Bool,
  true, false, not, ◌&&◌, if◌then◌else◌, ltb, ◌==◌, ℤ, pos, sub_ℕ,
}
use newlisp_neo.Bigint.Digits.{bigint_base, value}

pub record Bigint : Type 0 where
  pub negative : Bool
  pub digits : List ℕ

-- The two loops of addBigint: `ny` digits of both, then the others of the longer one.
unfoldable pub add_digits : List ℕ → List ℕ → ℕ × List ℕ
add_digits [] ys = (0, [])
add_digits (x ∷ xs) [] = (0, [])
add_digits (x ∷ xs) (y ∷ ys) =
    let (carry, sm) = add_digits xs ys in
    let digit = x + y + carry in (digit / bigint_base, (digit % bigint_base) ∷ sm)

unfoldable pub carry_into : List ℕ → ℕ → ℕ × List ℕ
carry_into [] carry = (carry, [])
carry_into (x ∷ xs) c =
    let (carry, sm) = carry_into xs c in
    let digit = x + carry in (digit / bigint_base, (digit % bigint_base) ∷ sm)

-- `if(*ptr == 0)` the digits are moved to the front.
abbrev pub with_carry : ℕ × List ℕ → List ℕ → List ℕ
with_carry (carry, high) low = if carry == 0 then high ++ low else carry ∷ (high ++ low)

-- `*x != *y`, of signs; the sign of a product is also negative then.
abbrev pub differ : Bool → Bool → Bool
differ true b = not b
differ false b = b

-- The part of addBigint behind the test of the signs; `xs` is not shorter.
unfoldable pub add_abs : List ℕ → List ℕ → List ℕ
unfolding add_digits carry_into
add_abs xs ys =
    let d = length xs - length ys in
    let (carry, low) = add_digits (drop d xs) ys in with_carry (carry_into (take d xs) carry) low

-- The loop of subBigint: the digits of both, then those of the longer one.
abbrev pub borrow : ℕ → ℕ → List ℕ → ℕ × List ℕ
borrow x amount sm =
    if ltb x amount then (1, (x + bigint_base - amount) ∷ sm) else (0, (x - amount) ∷ sm)

unfoldable pub sub_digits : List ℕ → List ℕ → ℕ × List ℕ
sub_digits [] ys = (0, [])
sub_digits (x ∷ xs) [] = (0, [])
sub_digits (x ∷ xs) (y ∷ ys) = let (carry, sm) = sub_digits xs ys in borrow x (y + carry) sm

unfoldable pub borrow_from : List ℕ → ℕ → ℕ × List ℕ
borrow_from [] carry = (carry, [])
borrow_from (x ∷ xs) c = let (carry, sm) = borrow_from xs c in borrow x carry sm

-- "remove leading zero's"
unfoldable pub trim : List ℕ → List ℕ
trim [] = 0 ∷ []
trim (d ∷ ds) = let rest = trim ds in if d == 0 then rest else d ∷ ds

unfoldable pub sub_abs : List ℕ → List ℕ → List ℕ
unfolding sub_digits borrow_from trim
sub_abs xs ys =
    let d = length xs - length ys in
    let (carry, low) = sub_digits (drop d xs) ys in trim ((borrow_from (take d xs) carry).1 ++ low)

-- 1, 0 and -1.
pub data Order : Type 0 where
  greater same smaller : Order

abbrev pub cmp_digits : List ℕ → List ℕ → Order
cmp_digits [] ys = same
cmp_digits (x ∷ xs) [] = same
cmp_digits (x ∷ xs) (y ∷ ys) =
    let rest = cmp_digits xs ys in if ltb y x then greater else if ltb x y then smaller else rest

unfoldable pub cmp_abs_bigint : List ℕ → List ℕ → Order
cmp_abs_bigint xs ys =
    if length xs == length ys
    then cmp_digits xs ys
    else if ltb (length ys) (length xs)
    then greater
    else smaller

abbrev pub reversed : Order → Order
reversed greater = smaller
reversed same = same
reversed smaller = greater

abbrev pub is_zero : List ℕ → Bool
is_zero [] = false
is_zero (zero ∷ []) = true
is_zero (suc d ∷ []) = false
is_zero (d ∷ e ∷ ds) = false

unfoldable pub cmp_bigint : Bigint → Bigint → Order
unfolding cmp_abs_bigint
cmp_bigint x y =
    let cmp = cmp_abs_bigint x.digits y.digits in
    if is_zero x.digits && is_zero y.digits then same else elim x.negative [
      | true ↦ elim y.negative [ true ↦ reversed cmp | false ↦ smaller ]
      | false ↦ elim y.negative [ true ↦ greater | false ↦ cmp ]
    ]

-- "compare and subtract the abs(smaller) from the abs(greater)", for two numbers of this sign.
unfoldable pub sub_same_sign : Bool → List ℕ → List ℕ → Bigint
unfolding cmp_abs_bigint sub_abs
sub_same_sign negative xs ys =
    let swapped : Bigint = record { negative = not negative; digits = sub_abs ys xs } in
    elim (cmp_abs_bigint xs ys) [
      | greater ↦ record { negative = negative; digits = sub_abs xs ys }
      | same ↦ swapped
      | smaller ↦ swapped
    ]

-- addBigint once `x` is the longer one.
unfoldable pub add_longer : Bigint → Bigint → Bigint
unfolding add_abs sub_same_sign
add_longer x y =
    if differ x.negative y.negative
    then sub_same_sign x.negative x.digits y.digits
    else record { negative = x.negative; digits = add_abs x.digits y.digits }

unfoldable pub add_bigint : Bigint → Bigint → Bigint
unfolding add_longer
add_bigint x y = if ltb (length x.digits) (length y.digits) then add_longer y x else add_longer x y

unfoldable pub sub_bigint : Bigint → Bigint → Bigint
unfolding add_bigint sub_same_sign
sub_bigint x y =
    if differ x.negative y.negative
    then add_bigint x (record y { negative = x.negative })
    else sub_same_sign x.negative x.digits y.digits

-- The loop over `j`: the row of the digit `y`, added to the first digits of the product so far.
unfoldable pub mul_row : ℕ → List ℕ → List ℕ → ℕ × List ℕ
mul_row y [] p = (0, p)
mul_row y (x ∷ xs) [] = (0, [])
mul_row y (x ∷ xs) (q ∷ p) =
    let (carry, r) = mul_row y xs p in
    let digit = q + y * x + carry in (digit / bigint_base, (digit % bigint_base) ∷ r)

-- The loop over `i`: the product with the digits of `y` from here on.
unfoldable pub mul_rows : List ℕ → List ℕ → List ℕ
unfolding mul_row
mul_rows xs [] = replicate (length xs) 0
mul_rows xs (y ∷ ys) = let (carry, r) = mul_row y xs (mul_rows xs ys) in (carry % bigint_base) ∷ r

unfoldable pub mul_bigint : Bigint → Bigint → Bigint
unfolding mul_rows trim
mul_bigint x y = record {
  negative = differ x.negative y.negative;
  digits = trim (mul_rows x.digits y.digits);
}

-- The number that is meant.
abbrev pub signed : Bool → ℕ → ℤ
signed true n = sub_ℕ 0 n
signed false n = pos n

abbrev pub to_ℤ : Bigint → ℤ
to_ℤ x = signed x.negative (value x.digits)
