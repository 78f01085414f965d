-- ===== src/Utf8/Encode.antt =====
-- `wchar_utf8` and `wstr_utf8` of nl-utf8.c. Where the code joins bits with `|` they do not overlap,
-- and the sum is written here; `>> 6` and `& 0x3f` are the quotient and the remainder by 64.
use newlisp_neo.Prelude.{
  ℕ, zero, suc, ◌+◌, ◌/◌, ◌%◌, List, [], ◌∷◌, ◌++◌, Option, none, some, length, if◌then◌else◌, ltb,
  leb, ◌==◌,
}

-- The breakpoints for different numbers of bytes.
abbrev pub utf8_table1 : List ℕ
utf8_table1 = 127 ∷ 2047 ∷ 65535 ∷ 2097151 ∷ 67108863 ∷ 2147483647 ∷ []

-- A table's entry; the index is never out of range.
abbrev pub entry : List ℕ → ℕ → ℕ
entry [] i = 0
entry (t ∷ ts) zero = t
entry (t ∷ ts) (suc i) = entry ts i

-- The indicator bits in the first byte, by the number of additional bytes.
abbrev pub utf8_table2 : List ℕ
utf8_table2 = 0 ∷ 192 ∷ 224 ∷ 240 ∷ 248 ∷ 252 ∷ []

-- The loop over the breakpoints: the number of additional bytes.
abbrev pub breakpoint : ℕ → List ℕ → ℕ
breakpoint cvalue [] = 0
breakpoint cvalue (t ∷ ts) = let next = breakpoint cvalue ts in if leb cvalue t then 0 else suc next

-- The loop that fills the buffer from its end: the bytes from the first one on.
abbrev pub fill : ℕ → ℕ → ℕ → List ℕ → List ℕ
fill i zero cvalue buffer = (entry utf8_table2 i + cvalue) ∷ buffer
fill i (suc j) cvalue buffer = fill i j (cvalue / 64) ((128 + cvalue % 64) ∷ buffer)

-- The bytes of a character from 0 to 2 ^ 31 - 1.
unfoldable pub wchar_utf8 : ℕ → List ℕ
wchar_utf8 cvalue = let i = breakpoint cvalue utf8_table1 in fill i i cvalue []

-- The loop over the characters up to the final 0, while `size` is less than `maxstr`. The array's
-- end without a 0 is a read outside of it.
unfoldable pub wstr_utf8 : List ℕ → ℕ → ℕ → Option (List ℕ)
unfolding wchar_utf8
wstr_utf8 [] maxstr size = none
wstr_utf8 (c ∷ unicode) maxstr size =
    let bytes = wchar_utf8 c in
    let others = wstr_utf8 unicode maxstr (size + length bytes) in
    if c == 0
    then some []
    else if ltb size maxstr
    then elim others [ none ↦ none | some b ↦ some (bytes ++ b) ]
    else some []
