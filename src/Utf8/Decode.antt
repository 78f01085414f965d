-- ===== src/Utf8/Decode.antt =====
-- GETCHARINC, and what nl-utf8.c does with it. A pointer to a string is the list of the bytes from
-- there to the end of the memory that belongs to it; `none` stands for a read behind that.
use newlisp_neo.Prelude.{
  ℕ, zero, suc, ◌+◌, ◌-◌, ◌*◌, ◌%◌, ◌^◌, Bool, List, [], ◌∷◌, Option, none, some, if◌then◌else◌,
  ltb, leb, ◌==◌,
}
use newlisp_neo.Utf8.Encode.{entry}

-- The mask of the data bits in the first byte is one less than this.
abbrev pub utf8_table3 : List ℕ
utf8_table3 = 256 ∷ 32 ∷ 16 ∷ 8 ∷ 4 ∷ 2 ∷ []

-- The number of extra bytes, by the first one masked with 0x3f.
abbrev pub utf8_table4 : ℕ → ℕ
utf8_table4 c =
    if ltb c 32
    then 1
    else if ltb c 48
    then 2
    else if ltb c 56
    then 3
    else if ltb c 60
    then 4
    else 5

-- `(c & 0xc0) == 0xc0`, for a byte.
abbrev pub is_lead : ℕ → Bool
is_lead c = leb 192 c

-- The bits of the bytes that follow: so many of them are left.
abbrev pub more_bits : ℕ → ℕ → List ℕ → Option (ℕ × List ℕ)
more_bits zero c bytes = some (c, bytes)
more_bits (suc gcaa) c [] = none
more_bits (suc gcaa) c (b ∷ bytes) = more_bits gcaa (c + b % 64 * 2 ^ (6 * gcaa)) bytes

-- The character and the pointer behind it.
unfoldable pub utf8_wchar : List ℕ → Option (ℕ × List ℕ)
utf8_wchar [] = none
utf8_wchar (c ∷ bytes) =
    let gcaa = utf8_table4 (c % 64) in
    if is_lead c
    then more_bits gcaa (c % entry utf8_table3 gcaa * 2 ^ (6 * gcaa)) bytes
    else some (c, bytes)

-- The bytes that are passed without a look at them, and how far the limit is away: 0 when it is
-- passed. The first byte is read before the limit is tested.
unfoldable pub utf8_wlen : ℕ → List ℕ → ℕ → Option ℕ
utf8_wlen skip [] limit = none
utf8_wlen (suc skip) (c ∷ bytes) limit = utf8_wlen skip bytes (limit - 1)
utf8_wlen zero (c ∷ bytes) limit =
    let plain = utf8_wlen 0 bytes (limit - 1) in
    let after = utf8_wlen (utf8_table4 (c % 64)) bytes (limit - 1) in
    if c == 0
    then some 0
    else if ltb 1 limit
    then elim (if is_lead c then after else plain) [ none ↦ none | some n ↦ some (suc n) ]
    else some 0

-- `idx` is not negative here.
unfoldable pub utf8_index : ℕ → List ℕ → ℕ → Option (List ℕ)
utf8_index skip [] idx = none
utf8_index (suc skip) (c ∷ bytes) idx = utf8_index skip bytes idx
utf8_index zero (c ∷ bytes) zero = some (c ∷ bytes)
utf8_index zero (c ∷ bytes) (suc idx) =
    let plain = utf8_index 0 bytes idx in
    let after = utf8_index (utf8_table4 (c % 64)) bytes idx in
    if c == 0 then some (c ∷ bytes) else if is_lead c then after else plain

unfoldable pub utf8_1st_len : List ℕ → Option ℕ
utf8_1st_len [] = none
utf8_1st_len (c ∷ bytes) =
    if c == 0 then some 0 else if is_lead c then some (utf8_table4 (c % 64) + 1) else some 1

-- At most `maxwc` characters, without the final 0.
unfoldable pub utf8_wstr : List ℕ → ℕ → Option (List ℕ)
unfolding utf8_wchar
utf8_wstr bytes zero = some []
utf8_wstr [] (suc maxwc) = none
utf8_wstr (c ∷ bytes) (suc maxwc) = elim (utf8_wchar (c ∷ bytes)) [
  | none ↦ none
  | some (wchar, rest) ↦
      let others = utf8_wstr rest maxwc in
      if c == 0 then some [] else elim others [ none ↦ none | some ws ↦ some (wchar ∷ ws) ]
]
