-- ===== src/Lists/Index.antt =====
-- `adjustNegativeIndex` and `adjustCount` of nl-liststr.c.
use newlisp_neo.Prelude.{
  ℕ, suc, ◌+◌, ◌-◌, ◌%◌, ◌^◌, ◌||◌, if◌then◌else◌, ◌==◌, leb, ltb, Option, some, none, ℤ, pos,
  negsuc,
}

-- Of the smallest `ssize_t`, -2^63, the absolute value wraps around to the number itself; 2^63 stands
-- for it here, which is no length either.
abbrev pub labs : ℤ → ℕ
labs (pos n) = n
labs (negsuc n) = suc n

-- `length - -count % length` for a negative count. The negative of -2^63 is -2^63, so its remainder
-- is negative and the result above the length.
abbrev pub complement : ℕ → ℕ → ℕ
complement n length = if n == 2 ^ 63 then length + n % length else length - n % length

-- A count is an `ssize_t`, from -2^63 to 2^63 - 1, a length below 2^63.
unfoldable pub adjust_count : ℤ → ℕ → ℕ
adjust_count count length =
    if leb length 1 || (labs count == 0 || length == labs count)
    then 0
    else elim count [ pos n ↦ n % length | negsuc n ↦ complement (suc n) length ]

-- `none` is ERR_STRING_INDEX_INVALID.
unfoldable pub adjust_negative_index : ℤ → ℕ → Option ℕ
adjust_negative_index (pos i) length = if ltb length (i + 1) then none else some i
adjust_negative_index (negsuc i) length = if leb (suc i) length then some (length - suc i) else none
