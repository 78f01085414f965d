-- ===== src/Lists/Turns.antt =====
-- The counts of a rotation: adjustCount of nl-liststr.c, and `p_rotate` on a string.
use native.Mathlib.Nat.{zero-mod, mod_self}
use newlisp_neo.Prelude.{
  ℤ, pos, negsuc, ℕ, suc, ◌-◌, ◌%◌, ◌<◌, ◌≡◌, ◌≢◌, refl, sym, ap, ap₂, ◌∙◌, List, [], ◌∷◌, ◌++◌,
  ◌^◌, ltb, Option, some, none, if◌then◌else◌, if_false, ◌==◌, length, take, drop, take-append,
  arith, length-append,
}
use newlisp_neo.Lists.Index.{adjust_count}

-- A rotation that brings so many of the `n` cells from the end to the front: a count modulo `n`.
abbrev pub Turns : ℤ → ℕ → ℕ → Type 0
Turns (pos k) behind n = k % n ≡ behind
Turns (negsuc k) behind n = suc k % n ≡ n - behind

-- The counts whose negative is an `ssize_t` too: all but -2^63.
abbrev pub IsCount : ℤ → Type 0
IsCount (pos k) = k < 2 ^ 63
IsCount (negsuc k) = suc k < 2 ^ 63

zero_turns : (k n : ℕ) → k ≡ 0 → k % n ≡ 0
zero_turns k n h = ap (λ j. j % n) h ∙ zero-mod n

full_turns : (k n : ℕ) → n ≡ k → k % n ≡ 0
full_turns k n h = ap (λ j. j % n) (sym h) ∙ mod_self n

pub adjust_count-Turns :
    (count : ℤ) (behind n : ℕ)
    → 0 < behind
    → behind < n
    → IsCount count
    → Turns count behind n
    → adjust_count count n ≡ behind
unfolding adjust_count
adjust_count-Turns (pos k) behind n p l c h = ground (arith, h, zero_turns k n, full_turns k n)
adjust_count-Turns (negsuc k) behind n p l c h =
    ground (arith, c, h, zero_turns (suc k) n, full_turns (suc k) n)

-- A negative multiple of the length, but the length itself.
pub adjust_count_whole :
    (k n : ℕ) → 1 < n → suc k ≢ n → suc k % n ≡ 0 → adjust_count (negsuc k) n ≡ n
unfolding adjust_count
adjust_count_whole k n l d h = ground (arith, h, d)

-- The bytes of the string, without the final 0: the two copies into the new buffer, which are outside
-- of it and of the string if the count is above the length.
abbrev pub rotated : List ℕ → ℕ → Option (List ℕ)
rotated str count =
    if count == 0
    then some str
    else if ltb (length str) count
    then none
    else some (drop (length str - count) str ++ take (length str - count) str)

unfoldable pub rotate_string : List ℕ → ℤ → Option (List ℕ)
unfolding adjust_count
rotate_string str count = rotated str (adjust_count count (length str))

drop_front : (xs ys : List ℕ) → drop (length xs) (xs ++ ys) ≡ ys
drop_front [] ys = refl
drop_front (x ∷ xs) ys = drop_front xs ys

-- `p_rotate` on a string, with a count other than -2^63, brings the last bytes to the front, as many
-- as the count modulo the length, where that is not 0.
pub rotate_string-Turns :
    (xs ys : List ℕ) (count : ℤ)
    → 0 < length xs
    → 0 < length ys
    → IsCount count
    → Turns count (length ys) (length (xs ++ ys))
    → rotate_string (xs ++ ys) count ≡ some (ys ++ xs)
unfolding rotate_string
rotate_string-Turns xs ys count p q c t =
    let str = xs ++ ys in
    let n = length-append xs ys in
    let before : length str - length ys ≡ length xs = omega (arith, n) in
    ap (rotated str) (adjust_count-Turns count (length ys) (length str) q (omega (arith, n, p)) c t)
    ∙ if_false (length ys == 0) (some str) _ (ground (arith, q))
    ∙ if_false (ltb (length str) (length ys)) none _ (ground (arith, n))
    ∙ ap (λ k. some (drop k str ++ take k str)) before
    ∙ ap₂ (λ a b. some (a ++ b)) (drop_front xs ys) (take-append xs ys)
