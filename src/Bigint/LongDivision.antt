-- ===== src/Bigint/LongDivision.antt =====
-- The loop of divModBigint in nl-math.c over the digits of the dividend.
use mathlib.Core.Path.{subst}
use newlisp_neo.Prelude.{
  ℕ, zero, suc, ◌+◌, ◌*◌, ◌≤◌, ◌<◌, ◌≡◌, ◌≢◌, refl, sym, ap, ◌∙◌, List, [], ◌∷◌, ◌++◌, length,
  arith, Bool, true, false, ◌&&◌, Option, none, some, if_both, if_false, ◌==◌,
}
use newlisp_neo.Bigint.Digits.{bigint_base, weight, value, AreDigits, IsNumber, value-append}
use newlisp_neo.Bigint.Operations.{Order, greater, same, smaller, cmp_abs_bigint}
use newlisp_neo.Bigint.Add.{all_digits}
use newlisp_neo.Bigint.Machine.{is_smaller}
use newlisp_neo.Bigint.Compare.{Compares, cmp_abs_bigint-Compares}
use newlisp_neo.Bigint.Division.{Doubles, next_rest, is_empty, divide_digit, divide_digits}
use newlisp_neo.Bigint.Rounding.{IsDoubles}
use newlisp_neo.Bigint.Divide.{quotient_digit-Steps}

abbrev StartsAbove : List ℕ → Type 0
StartsAbove [] = ⊥
StartsAbove (d ∷ ds) = 0 < d

-- The digits of the quotient so far.
abbrev pub IsLead : List ℕ → Type 0
IsLead [] = Unit
IsLead (d ∷ ds) = (0 < d) × AreDigits (d ∷ ds)

-- A rest to which the next digit can be put, or a rest at the end.
abbrev pub IsReady : List ℕ → List ℕ → List ℕ → Type 0
IsReady r q [] = IsNumber r
IsReady r q (x ∷ xs) = IsNumber (r ++ (x ∷ [])) × (is_empty q ≡ true → StartsAbove (r ++ (x ∷ [])))

longer-IsNumber :
    (r : List ℕ) (x : ℕ) → AreDigits r → StartsAbove r → x < bigint_base → IsNumber (r ++ (x ∷ []))
longer-IsNumber [] x a s h = absurd s
longer-IsNumber (d ∷ []) x (a, rest) s h = ((a, (h, tt)), s)
longer-IsNumber (d ∷ e ∷ r) x (a, rest) s h = ((a, all_digits (e ∷ r) (x ∷ []) rest (h, tt)), s)

longer-StartsAbove : (r : List ℕ) (x : ℕ) → StartsAbove r → StartsAbove (r ++ (x ∷ []))
longer-StartsAbove [] x s = absurd s
longer-StartsAbove (d ∷ r) x s = s

-- Without a test a rest that is kept is ready.
kept-IsReady : (r q xs : List ℕ) → IsNumber r → StartsAbove r → AreDigits xs → IsReady r q xs
kept-IsReady r q [] a s h = a
kept-IsReady r q (x ∷ xs) (a, t) s (h, hs) =
    (longer-IsNumber r x a s h, λ e. longer-StartsAbove r x s)

not_empty : (q : List ℕ) (d : ℕ) → is_empty (q ++ (d ∷ [])) ≢ true
not_empty [] d e = ground (arith, e)
not_empty (c ∷ q) d e = ground (arith, e)

kept_rest : (is_last : Bool) (c : ℕ) (r : List ℕ) → next_rest is_last (suc c ∷ r) ≡ suc c ∷ r
kept_rest true c r = if_false ((suc c == 0) && false) [] (suc c ∷ r) (ground arith)
kept_rest false c r = if_false ((suc c == 0) && true) [] (suc c ∷ r) (ground arith)

-- A rest after a digit: without its zero, if another digit comes.
next_rest-IsReady :
    (r q xs : List ℕ) (d : ℕ)
    → IsNumber r
    → AreDigits xs
    → IsReady (next_rest (is_empty xs) r) (q ++ (d ∷ [])) xs
      × (value (next_rest (is_empty xs) r) ≡ value r)
next_rest-IsReady [] q xs d (a, t) h = absurd t
next_rest-IsReady (zero ∷ []) q [] d a h = (a, refl)
next_rest-IsReady (zero ∷ []) q (x ∷ xs) d a (h, hs) =
    ((((h, tt), tt), λ e. absurd (not_empty q d e)), omega arith)
next_rest-IsReady (suc c ∷ r) q xs d a h =
    let same = kept_rest (is_empty xs) c r in
    (
      subst (λ s. IsReady s (q ++ (d ∷ [])) xs) (sym same)
          (kept-IsReady (suc c ∷ r) (q ++ (d ∷ [])) xs a (omega arith) h),
      ap value same,
    )
next_rest-IsReady (zero ∷ e ∷ r) q xs d (a, t) h = absurd (omega (arith, t))

IsLead-longer :
    (q : List ℕ) (d : ℕ)
    → IsLead q
    → d < bigint_base
    → (is_empty q ≡ true → 0 < d)
    → IsLead (q ++ (d ∷ []))
IsLead-longer [] d l h p = (p refl, (h, tt))
IsLead-longer (c ∷ q) d (p, l) h k = (p, all_digits (c ∷ q) (d ∷ []) l (h, tt))

lead-digits : (q : List ℕ) → IsLead q → AreDigits q
lead-digits [] h = tt
lead-digits (c ∷ q) (p, l) = l

empty-value : (q : List ℕ) → is_empty q ≡ true → value q ≡ 0
empty-value [] e = refl
empty-value (c ∷ q) e = absurd (ground (arith, e))

both : (a b : Bool) → a && b ≡ true → (a ≡ true) × (b ≡ true)
both true true h = (refl, refl)
both true false h = absurd (ground (arith, h))
both false b h = absurd (ground (arith, h))

pub smaller_one : (m n : ℕ) (o : Order) → Compares m n o → is_smaller o ≡ true → m < n
smaller_one m n greater c e = absurd (ground (arith, e))
smaller_one m n same c e = absurd (ground (arith, e))
smaller_one m n smaller c e = c

pub not_smaller : (m n : ℕ) (o : Order) → Compares m n o → is_smaller o ≡ false → n ≤ m
not_smaller m n greater c e = omega (arith, c)
not_smaller m n same c e = omega (arith, c)
not_smaller m n smaller c e = absurd (ground (arith, e))

first_above : (d s n m : ℕ) → s + d * m ≡ n → s < m → m ≤ n → 0 < d
first_above zero s n m e h k = absurd (omega (arith, e, h, k))
first_above (suc d) s n m e h k = omega arith

module _ (fpu : Doubles) (ieee : IsDoubles fpu) (y : List ℕ) (number : IsNumber y)
    (positive : 0 < value y) where
  -- One turn of the loop.
  Turn : List ℕ → List ℕ → ℕ → List ℕ → Option (List ℕ × List ℕ) → Type 0
  Turn r q x xs out =
      (r' : List ℕ) × (q' : List ℕ) × (out ≡ some (r', q'))
      × (value r' + value q' * value y ≡ (value r + value q * value y) * bigint_base + x)
      × (value r' < value y)
      × IsLead q'
      × IsReady r' q' xs

  divide_digit-Turn :
      (r q : List ℕ) (x : ℕ) (xs : List ℕ)
      → AreDigits (x ∷ xs)
      → value r < value y
      → IsLead q
      → IsReady r q (x ∷ xs)
      → Turn r q x xs (divide_digit fpu y (is_empty xs) r q x)
  unfolding Turn divide_digit weight
  divide_digit-Turn r q x xs (h, hs) small lead (a, live) =
      let next = r ++ (x ∷ []) in
      let longer : value next ≡ value r * bigint_base + x =
        omega (arith, value-append r (x ∷ [])) in
      let found = cmp_abs_bigint-Compares next y a number in
      if_both (Turn r q x xs) (is_empty q && is_smaller (cmp_abs_bigint next y))
        (λ e.
          let (first, less) = both (is_empty q) (is_smaller (cmp_abs_bigint next y)) e in
          let none_yet = ap (λ t. t * value y) (empty-value q first) in
          (
            next,
            q,
            refl,
            omega (arith, longer, none_yet),
            smaller_one (value next) (value y) (cmp_abs_bigint next y) found less,
            lead,
            kept-IsReady next q xs a (live first) hs,
          ))
        (λ e.
          let (d, s, out, total, below, rest, bound) =
            quotient_digit-Steps fpu ieee y number positive (is_empty xs) next q a
              (omega (arith, longer, small, h)) in
          let (ready, kept) = next_rest-IsReady s q xs d rest hs in
          let more : value (q ++ (d ∷ [])) ≡ value q * bigint_base + d =
            omega (arith, value-append q (d ∷ [])) in
          let scaled = ap (λ t. t * value y) more in
          (
            next_rest (is_empty xs) s,
            q ++ (d ∷ []),
            out,
            omega (arith, total, longer, kept, scaled),
            omega (arith, kept, below),
            IsLead-longer q d lead bound (λ first.
                let enough =
                  not_smaller (value next) (value y) (cmp_abs_bigint next y) found
                    (ap (λ t. t && is_smaller (cmp_abs_bigint next y)) (sym first) ∙ e) in
                first_above d (value s) (value next) (value y) total below enough),
            ready,
          ))

  -- The whole loop.
  pub long_division :
      (xs r q : List ℕ)
      → AreDigits xs
      → value r < value y
      → IsLead q
      → IsReady r q xs
      → (r' : List ℕ) × (q' : List ℕ) × (divide_digits fpu y r q xs ≡ some (r', q'))
        × (value r' + value q' * value y
            ≡ (value r + value q * value y) * weight (length xs) + value xs)
        × (value r' < value y)
        × IsNumber r'
        × IsLead q'
  unfolding Turn divide_digits weight
  long_division [] r q h small lead ready = (r, q, refl, omega arith, small, ready, lead)
  long_division (x ∷ xs) r q (h, hs) small lead ready =
      let (r', q', out, total, small', lead', ready') =
        divide_digit-Turn r q x xs (h, hs) small lead ready in
      let (r'', q'', out', total', small'', number', lead'') =
        long_division xs r' q' hs small' lead' ready' in
      let scaled = ap (λ t. t * weight (length xs)) total in
      (
        r'',
        q'',
        ap (λ o. elim o [ none ↦ none | some p ↦ divide_digits fpu y p.0 p.1 xs ]) out ∙ out',
        omega (arith, total', scaled),
        small'',
        number',
        lead'',
      )
