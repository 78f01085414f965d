-- ===== src/Bigint/Subtract.antt =====
-- The subtraction of absolute values in nl-math.c.
use mathlib.Core.Path.{subst}
use newlisp_neo.Prelude.{
  ℕ, zero, suc, ◌+◌, ◌-◌, ◌*◌, ◌≤◌, ◌<◌, ◌≡◌, refl, sym, ap, ◌∙◌, List, [], ◌∷◌, ◌++◌, length,
  length-append, length-drop, take, drop, take-append-drop, arith, if_both, ◌==◌, ==_iff, ltb,
}
use newlisp_neo.Bigint.Digits.{
  bigint_base, weight, value, AreDigits, IsNumber, weight-add, value-lt, value-append,
}
use newlisp_neo.Bigint.Operations.{borrow, sub_digits, borrow_from, trim, sub_abs}
use newlisp_neo.Bigint.Add.{all_digits, AreDigits-drop, AreDigits-take}

-- So many digits of a difference, and what is borrowed for it.
abbrev Owes : ℕ → ℕ → ℕ → ℕ × List ℕ → Type 0
Owes n from amount (carry, ds) =
    (carry * weight n + from ≡ amount + value ds) × (length ds ≡ n) × AreDigits ds × (carry < 2)

borrow-Owes :
    (n x y carry amount from minus : ℕ) (sm : List ℕ)
    → x < 1000000000
    → y < 1000000000
    → amount ≡ y + carry
    → Owes n from minus (carry, sm)
    → Owes (suc n) (x * weight n + from) (y * weight n + minus) (borrow x amount sm)
unfolding weight
borrow-Owes n x y carry amount from minus sm h k e (v, l, d, c) =
    if_both (Owes (suc n) (x * weight n + from) (y * weight n + minus)) (ltb x amount)
      (λ q.
        let less : x < amount = ground (arith, q) in
        let digit = x + bigint_base - amount in
        let place = ap (λ (k : ℕ). digit * weight k) l in
        let whole : digit + (y + carry) ≡ x + bigint_base = omega (arith, e, h, k, c) in
        let scaled = ap (λ (k : ℕ). k * weight n) whole in
        (omega (arith, place, scaled, v), omega (arith, l), (omega (arith, e), d), omega arith))
      (λ q.
        let least : amount ≤ x = ground (arith, q) in
        let digit = x - amount in
        let place = ap (λ (k : ℕ). digit * weight k) l in
        let whole : digit + (y + carry) ≡ x = omega (arith, e, least) in
        let scaled = ap (λ (k : ℕ). k * weight n) whole in
        (omega (arith, place, scaled, v), omega (arith, l), (omega (arith, e), d), omega arith))

sub_digits-Owes :
    (xs ys : List ℕ)
    → length xs ≡ length ys
    → AreDigits xs
    → AreDigits ys
    → Owes (length xs) (value xs) (value ys) (sub_digits xs ys)
unfolding sub_digits
sub_digits-Owes [] [] e h k = (omega arith, refl, tt, omega arith)
sub_digits-Owes [] (y ∷ ys) e h k = absurd (omega arith)
sub_digits-Owes (x ∷ xs) [] e h k = absurd (omega arith)
sub_digits-Owes (x ∷ xs) (y ∷ ys) e (h, hs) (k, ks) =
    let same : length xs ≡ length ys = omega arith in
    subst
      (λ n.
        Owes (suc (length xs)) (x * weight (length xs) + value xs) (y * weight n + value ys)
          (sub_digits (x ∷ xs) (y ∷ ys)))
      same
      (borrow-Owes (length xs) x y (sub_digits xs ys).0 _ (value xs) (value ys) (sub_digits xs ys).1
        h k refl (sub_digits-Owes xs ys same hs ks))

borrow_from-Owes :
    (xs : List ℕ) (c : ℕ) → AreDigits xs → c < 2 → Owes (length xs) (value xs) c (borrow_from xs c)
unfolding borrow_from weight
borrow_from-Owes [] c h k = (omega arith, refl, tt, k)
borrow_from-Owes (x ∷ xs) c (h, hs) k =
    let (v, l, d, b) =
      borrow-Owes (length xs) x 0 (borrow_from xs c).0 (borrow_from xs c).0 (value xs) c
        (borrow_from xs c).1 h (omega arith) (omega arith) (borrow_from-Owes xs c hs k) in
    (omega (arith, v), l, d, b)

pub trim-value : (ds : List ℕ) → value (trim ds) ≡ value ds
unfolding trim weight
trim-value [] = omega arith
trim-value (d ∷ ds) =
    if_both (λ (es : List ℕ). value es ≡ d * weight (length ds) + value ds) (d == 0)
      (λ h. omega (arith, trim-value ds, ap (λ (k : ℕ). k * weight (length ds)) ((==_iff d 0).0 h)))
      (λ h. refl)

pub trim-IsNumber : (ds : List ℕ) → AreDigits ds → IsNumber (trim ds)
unfolding trim
trim-IsNumber [] h = ((omega arith, tt), tt)
trim-IsNumber (d ∷ []) (h, hs) =
    if_both IsNumber (d == 0) (λ q. ((omega arith, tt), tt)) (λ q. ((h, tt), tt))
trim-IsNumber (d ∷ e ∷ ds) (h, hs) =
    if_both IsNumber (d == 0) (λ q. trim-IsNumber (e ∷ ds) hs) (λ q. ((h, hs), ground (arith, q)))

-- Nothing is borrowed in the end if the number is not smaller.
no_borrow :
    (carry place from amount rest : ℕ)
    → carry < 2
    → carry * place + from ≡ amount + rest
    → rest < place
    → amount ≤ from
    → rest + amount ≡ from
no_borrow zero place from amount rest c e r h = omega (arith, e)
no_borrow (suc zero) place from amount rest c e r h = absurd (omega (arith, e))
no_borrow (suc (suc c)) place from amount rest h e r k = absurd (omega arith)

subtracted :
    (front back ys : List ℕ)
    → length back ≡ length ys
    → AreDigits front
    → AreDigits back
    → AreDigits ys
    → value ys ≤ value (front ++ back)
    → let (carry, low) = sub_digits back ys in
      let ds = (borrow_from front carry).1 ++ low in
      (value ds + value ys ≡ value (front ++ back)) × AreDigits ds
subtracted front back ys e f b k h =
    let (v, l, d, c) = sub_digits-Owes back ys e b k in
    let carry = (sub_digits back ys).0 in
    let low = (sub_digits back ys).1 in
    let (v', l', d', c') = borrow_from-Owes front carry f c in
    let high = (borrow_from front carry).1 in
    let last = (borrow_from front carry).0 in
    let n = length front in
    let m = length back in
    let ds = high ++ low in
    let long : length ds ≡ n + m = omega (arith, length-append high low, l, l') in
    let places = ap weight long ∙ weight-add n m in
    let scaled = ap (λ (t : ℕ). t * weight m) v' in
    let inner = ap (λ (t : ℕ). value high * weight t) l in
    let digits = all_digits high low d' d in
    let total : last * (weight n * weight m) + value (front ++ back) ≡ value ys + value ds =
      omega (arith, value-append high low, value-append front back, scaled, inner, v) in
    let small = value-lt ds digits in
    (
      no_borrow last (weight n * weight m) (value (front ++ back)) (value ys) (value ds) c' total
          (omega (arith, small, places)) h,
      digits,
    )

-- The difference of absolute values, of a number that is not smaller and not shorter.
pub sub_abs-value :
    (xs ys : List ℕ)
    → length ys ≤ length xs
    → AreDigits xs
    → AreDigits ys
    → value ys ≤ value xs
    → (value (sub_abs xs ys) + value ys ≡ value xs) × IsNumber (sub_abs xs ys)
unfolding sub_abs
sub_abs-value xs ys h a b k =
    let d = length xs - length ys in
    let whole = take-append-drop d xs in
    let (v, digits) =
      subtracted (take d xs) (drop d xs) ys (omega (arith, length-drop d xs))
        (AreDigits-take d xs a) (AreDigits-drop d xs a) b
        (subst (λ zs. value ys ≤ value zs) (sym whole) k) in
    let (carry, low) = sub_digits (drop d xs) ys in
    let ds = (borrow_from (take d xs) carry).1 ++ low in
    (omega (arith, trim-value ds, v, ap value whole), trim-IsNumber ds digits)
