-- ===== src/Bigint/Differences.antt =====
-- Integers as differences of two numbers: the arithmetic that the sign of a bigint stands for.
use newlisp_neo.Prelude.{
  ℕ, zero, suc, ◌+◌, ◌-◌, ◌*◌, ◌≡◌, refl, sym, ap, ap₂, ◌∙◌, arith, if_true, if_false, if_both,
  Bool, true, false, not, leb, ℤ, pos, negsuc, sub_ℕ, neg_ℤ, ◌+ℤ◌, ◌*ℤ◌,
}
use newlisp_neo.Bigint.Operations.{differ, signed}

pub sub_ℕ-pos : (a b d : ℕ) → a ≡ d + b → sub_ℕ a b ≡ pos d
sub_ℕ-pos a b d h =
    if_true (leb b a) (pos (a - b)) (negsuc (b - a - 1)) (ground (arith, h))
    ∙ ap pos (omega (arith, h))

pub sub_ℕ-negsuc : (a b d : ℕ) → b ≡ suc d + a → sub_ℕ a b ≡ negsuc d
sub_ℕ-negsuc a b d h =
    if_false (leb b a) (pos (a - b)) (negsuc (b - a - 1)) (ground (arith, h))
    ∙ ap negsuc (omega (arith, h))

-- A difference is a number or the opposite of a positive one.
pub data Difference (a b : ℕ) : Type 0 where
  over : (d : ℕ) → a ≡ d + b → sub_ℕ a b ≡ pos d → Difference a b
  under : (d : ℕ) → b ≡ suc d + a → sub_ℕ a b ≡ negsuc d → Difference a b

pub difference : (a b : ℕ) → Difference a b
difference a b =
    if_both (λ (_ : Bool). Difference a b) (leb b a) {x = true} {y = true}
      (λ q. let h : a ≡ (a - b) + b = ground (arith, q) in over (a - b) h (sub_ℕ-pos a b (a - b) h))
      (λ q.
        let h : b ≡ suc (b - a - 1) + a = ground (arith, q) in
        under (b - a - 1) h (sub_ℕ-negsuc a b (b - a - 1) h))

pub sub_ℕ-same : (a b c d : ℕ) → a + d ≡ c + b → sub_ℕ a b ≡ sub_ℕ c d
sub_ℕ-same a b c d h = elim (difference a b) [
  | over n e p ↦ p ∙ sym (sub_ℕ-pos c d n (omega (arith, h, e)))
  | under n e p ↦ p ∙ sym (sub_ℕ-negsuc c d n (omega (arith, h, e)))
]

pub sub_ℕ-add : (a b c d : ℕ) → sub_ℕ a b +ℤ sub_ℕ c d ≡ sub_ℕ (a + c) (b + d)
sub_ℕ-add a b c d = elim (difference a b) [
  | over n e p ↦ elim (difference c d) [
    | over m f q ↦ ap₂ ◌+ℤ◌ p q ∙ sym (sub_ℕ-pos (a + c) (b + d) (n + m) (omega (arith, e, f)))
    | under m f q ↦ ap₂ ◌+ℤ◌ p q ∙ sub_ℕ-same n (suc m) (a + c) (b + d) (omega (arith, e, f))
  ]
  | under n e p ↦ elim (difference c d) [
    | over m f q ↦ ap₂ ◌+ℤ◌ p q ∙ sub_ℕ-same m (suc n) (a + c) (b + d) (omega (arith, e, f))
    | under m f q ↦
        ap₂ ◌+ℤ◌ p q ∙ sym (sub_ℕ-negsuc (a + c) (b + d) (suc (n + m)) (omega (arith, e, f)))
  ]
]

pub sub_ℕ-neg : (a b : ℕ) → neg_ℤ (sub_ℕ a b) ≡ sub_ℕ b a
sub_ℕ-neg a b = elim (difference a b) [
  | over n e p ↦ ap neg_ℤ p ∙ sub_ℕ-same 0 n b a (omega (arith, e))
  | under n e p ↦ ap neg_ℤ p ∙ sym (sub_ℕ-pos b a (suc n) e)
]

-- The numbers that a sign and an absolute value are the difference of.
abbrev pub plus : Bool → ℕ → ℕ
plus true n = 0
plus false n = n

abbrev pub minus : Bool → ℕ → ℕ
minus true n = n
minus false n = 0

pub signed-sub : (s : Bool) (n : ℕ) → signed s n ≡ sub_ℕ (plus s n) (minus s n)
signed-sub true n = refl
signed-sub false n = sym (sub_ℕ-pos n 0 n (omega arith))

pub signed-add :
    (s t : Bool) (m n : ℕ)
    → signed s m +ℤ signed t n ≡ sub_ℕ (plus s m + plus t n) (minus s m + minus t n)
signed-add s t m n =
    ap₂ ◌+ℤ◌ (signed-sub s m) (signed-sub t n)
    ∙ sub_ℕ-add (plus s m) (minus s m) (plus t n) (minus t n)

pub signed-add_same : (s : Bool) (m n : ℕ) → signed s (m + n) ≡ signed s m +ℤ signed s n
signed-add_same true m n =
    sub_ℕ-same 0 (m + n) (0 + 0) (m + n) (omega arith) ∙ sym (signed-add true true m n)
signed-add_same false m n = refl

-- The sign of the number with the greater absolute value.
pub signed-difference :
    (s : Bool) (m n d : ℕ) → d + n ≡ m → signed s d ≡ signed s m +ℤ signed (not s) n
signed-difference true m n d h =
    sub_ℕ-same 0 d (0 + n) (m + 0) (omega (arith, h)) ∙ sym (signed-add true false m n)
signed-difference false m n d h =
    signed-sub false d
    ∙ sub_ℕ-same d 0 (m + 0) (0 + n) (omega (arith, h))
    ∙ sym (signed-add false true m n)

pub signed-opposite : (s : Bool) (n : ℕ) → signed (not s) n ≡ neg_ℤ (signed s n)
signed-opposite true n = signed-sub false n ∙ sym (sub_ℕ-neg 0 n)
signed-opposite false n = refl

pub add_comm-ℤ : (x y : ℤ) → x +ℤ y ≡ y +ℤ x
add_comm-ℤ (pos a) (pos b) = ap pos (omega arith)
add_comm-ℤ (pos a) (negsuc b) = refl
add_comm-ℤ (negsuc a) (pos b) = refl
add_comm-ℤ (negsuc a) (negsuc b) = ap negsuc (omega arith)

-- The rule of signs.
negative_left : (m n : ℕ) → sub_ℕ 0 (m * n) ≡ sub_ℕ 0 m *ℤ pos n
negative_left zero n = sub_ℕ-pos 0 (zero * n) (zero * n) (omega arith)
negative_left (suc m) n = ap (λ z. z *ℤ pos n) (sym (sub_ℕ-negsuc 0 (suc m) m (omega arith)))

negative_right : (m n : ℕ) → sub_ℕ 0 (m * n) ≡ pos m *ℤ sub_ℕ 0 n
negative_right m zero = sub_ℕ-pos 0 (m * zero) (m * zero) (omega arith)
negative_right m (suc n) = ap (λ z. pos m *ℤ z) (sym (sub_ℕ-negsuc 0 (suc n) n (omega arith)))

negative_both : (m n : ℕ) → pos (m * n) ≡ sub_ℕ 0 m *ℤ sub_ℕ 0 n
negative_both zero zero = refl
negative_both zero (suc n) = sym (
    ap (λ z. pos zero *ℤ z) (sub_ℕ-negsuc 0 (suc n) n (omega arith))
    ∙ sub_ℕ-pos 0 (zero * suc n) (zero * suc n) (omega arith))
negative_both (suc m) zero = sym (
    ap (λ z. z *ℤ pos zero) (sub_ℕ-negsuc 0 (suc m) m (omega arith))
    ∙ sub_ℕ-pos 0 (suc m * zero) (suc m * zero) (omega arith))
negative_both (suc m) (suc n) =
    sym (ap₂ ◌*ℤ◌ (sub_ℕ-negsuc 0 (suc m) m (omega arith)) (sub_ℕ-negsuc 0 (suc n) n (omega arith)))

pub signed-multiply :
    (s t : Bool) (m n : ℕ) → signed (differ s t) (m * n) ≡ signed s m *ℤ signed t n
signed-multiply false false m n = refl
signed-multiply false true m n = negative_right m n
signed-multiply true false m n = negative_left m n
signed-multiply true true m n = negative_both m n
