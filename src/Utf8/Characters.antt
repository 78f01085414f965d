-- ===== src/Utf8/Characters.antt =====
-- One character of nl-utf8.c, encoded and read again.
use Prim.Native.Nat.{◌≤◌}
use newlisp_neo.Prelude.{
  ℕ, suc, ◌%◌, ◌<◌, ◌≡◌, ◌⊎◌, List, [], ◌∷◌, ◌++◌, some, length, arith, if◌then◌else◌, leb, if_both,
}
use newlisp_neo.Utf8.Encode.{fill, breakpoint, utf8_table1, wchar_utf8}
use newlisp_neo.Utf8.Decode.{utf8_wchar, utf8_table4}

split :
    (P : ℕ → Type 0) (c t : ℕ) {n m : ℕ}
    → (c ≤ t → P n)
    → (t < c → P m)
    → P (if leb c t then n else m)
split P c t h k = if_both P (leb c t) (λ q. h (ground arith)) (λ q. k (ground arith))

-- A character by the number of its additional bytes.
breakpoint_cases :
    (P : ℕ → Type 0) (c : ℕ)
    → c < 2147483648
    → (c ≤ 127 → P 0)
    → (127 < c → c ≤ 2047 → P 1)
    → (2047 < c → c ≤ 65535 → P 2)
    → (65535 < c → c ≤ 2097151 → P 3)
    → (2097151 < c → c ≤ 67108863 → P 4)
    → (67108863 < c → c ≤ 2147483647 → P 5)
    → P (breakpoint c utf8_table1)
breakpoint_cases P c h p0 p1 p2 p3 p4 p5 = split P c 127 p0 λ k0.
    split (λ n. P (suc n)) c 2047 (p1 k0)
      λ k1.
        split (λ n. P (suc (suc n))) c 65535 (p2 k1)
          λ k2.
            split (λ n. P (suc (suc (suc n)))) c 2097151 (p3 k2)
              λ k3.
                split (λ n. P (suc (suc (suc (suc n))))) c 67108863 (p4 k3)
                  λ k4.
                    split (λ n. P (suc (suc (suc (suc (suc n)))))) c 2147483647 (p5 k4)
                      λ k5. absurd (omega arith)

-- A character from 0 to 2 ^ 31 - 1 is read back from its bytes, whatever follows them.
pub utf8_wchar-wchar_utf8 :
    (c : ℕ) (rest : List ℕ) → c < 2147483648 → utf8_wchar (wchar_utf8 c ++ rest) ≡ some (c, rest)
unfolding utf8_wchar wchar_utf8
utf8_wchar-wchar_utf8 c rest h =
    breakpoint_cases (λ i. utf8_wchar (fill i i c [] ++ rest) ≡ some (c, rest)) c h
      (λ k. ground arith) (λ k k'. ground arith) (λ k k'. ground arith) (λ k k'. ground arith)
      (λ k k'. ground arith) (λ k k'. ground arith)

-- What the first byte says of those behind it.
abbrev pub Announces : ℕ → List ℕ → Type 0
Announces b more =
    ((b < 192) × (length more ≡ 0)) ⊎ ((192 ≤ b) × (utf8_table4 (b % 64) ≡ length more))

abbrev pub HasShape : ℕ → List ℕ → Type 0
HasShape c [] = ⊥
HasShape c (b ∷ more) = Announces b more × (0 < c → 0 < b)

pub shape : (c : ℕ) → c < 2147483648 → HasShape c (wchar_utf8 c)
unfolding wchar_utf8
shape c h =
    breakpoint_cases (λ i. HasShape c (fill i i c [])) c h (λ k. ground arith)
      (λ k k'. ground arith) (λ k k'. ground arith) (λ k k'. ground arith) (λ k k'. ground arith)
      (λ k k'. ground arith)

pub length-wchar_utf8 : (c : ℕ) → c < 2147483648 → length (wchar_utf8 c) ≤ 6
unfolding wchar_utf8
length-wchar_utf8 c h =
    breakpoint_cases (λ i. length (fill i i c []) ≤ 6) c h (λ k. omega arith) (λ k k'. omega arith)
      (λ k k'. omega arith) (λ k k'. omega arith) (λ k k'. omega arith) (λ k k'. omega arith)
