-- ===== src/Utf8/Tests.antt =====
-- Concrete texts.
use newlisp_neo.Prelude.{
  ℕ, zero, suc, ◌≡◌, refl, List, [], ◌∷◌, ◌++◌, drop, some, none, length, arith,
}
use newlisp_neo.Utf8.Encode.{wchar_utf8, wstr_utf8}
use newlisp_neo.Utf8.Decode.{
  utf8_wchar, utf8_wlen, utf8_index, utf8_1st_len, utf8_wstr, utf8_table4,
}
use newlisp_neo.Utf8.Texts.{
  encoding, IsText, utf8_1st_len-wchar_utf8, utf8_wlen-encoding, utf8_index-encoding,
}
use newlisp_neo.Utf8.Conversion.{utf8_wstr-wstr_utf8, Written, wstr_utf8-room}

-- `a`, `ä`, the euro sign and a character behind the first 2 ^ 16.
abbrev text : List ℕ
text = 97 ∷ 228 ∷ 8364 ∷ 128512 ∷ []

text-IsText : IsText text
text-IsText = (
  omega arith,
  omega arith,
  (omega arith, omega arith, (omega arith, omega arith, (omega arith, omega arith, tt))),
)

euro : wchar_utf8 8364 ≡ 226 ∷ 130 ∷ 172 ∷ []
unfolding wchar_utf8
euro = refl

utf8_1st_len-wchar_utf8_example :
    utf8_1st_len (wchar_utf8 8364 ++ (0 ∷ [])) ≡ some (length (wchar_utf8 8364))
utf8_1st_len-wchar_utf8_example = utf8_1st_len-wchar_utf8 8364 (0 ∷ []) (omega arith) (omega arith)

utf8_wlen-encoding_example : utf8_wlen 0 (encoding text ++ (0 ∷ 255 ∷ [])) 11 ≡ some (length text)
utf8_wlen-encoding_example =
    utf8_wlen-encoding text (255 ∷ []) 11 text-IsText (unfold wchar_utf8 in omega arith)

utf8_index-encoding_example :
    utf8_index 0 (encoding text ++ (0 ∷ [])) 2 ≡ some (encoding (drop 2 text) ++ (0 ∷ []))
utf8_index-encoding_example = utf8_index-encoding text [] 2 text-IsText

utf8_wstr-wstr_utf8_example :
    (bytes : List ℕ) × (wstr_utf8 (text ++ (0 ∷ [])) 16 0 ≡ some bytes)
    × (utf8_wstr (bytes ++ (0 ∷ [])) 8 ≡ some text)
utf8_wstr-wstr_utf8_example =
    utf8_wstr-wstr_utf8 text [] [] 16 8 text-IsText (unfold wchar_utf8 in omega arith) (omega arith)

wstr_utf8-room_example : (k : ℕ) × Written text [] 2 0 k
wstr_utf8-room_example = wstr_utf8-room text [] 2 text-IsText

-- A lead byte at the end of the memory: what it announces is read behind it.
truncated : utf8_wstr (226 ∷ 0 ∷ []) 2 ≡ none
unfolding utf8_wstr utf8_wchar
truncated = refl

abbrev table4 : ℕ → List ℕ
table4 zero = []
table4 (suc n) = table4 n ++ (utf8_table4 n ∷ [])

table4_values :
    table4 64
    ≡ 1 ∷ 1 ∷ 1 ∷ 1 ∷ 1 ∷ 1 ∷ 1 ∷ 1 ∷ 1 ∷ 1 ∷ 1 ∷ 1 ∷ 1 ∷ 1 ∷ 1 ∷ 1 ∷ 1 ∷ 1 ∷ 1 ∷ 1 ∷ 1 ∷ 1 ∷ 1 ∷ 1
      ∷ 1 ∷ 1 ∷ 1 ∷ 1 ∷ 1 ∷ 1 ∷ 1 ∷ 1 ∷ 2 ∷ 2 ∷ 2 ∷ 2 ∷ 2 ∷ 2 ∷ 2 ∷ 2 ∷ 2 ∷ 2 ∷ 2 ∷ 2 ∷ 2 ∷ 2 ∷ 2
      ∷ 2 ∷ 3 ∷ 3 ∷ 3 ∷ 3 ∷ 3 ∷ 3 ∷ 3 ∷ 3 ∷ 4 ∷ 4 ∷ 4 ∷ 4 ∷ 5 ∷ 5 ∷ 5 ∷ 5 ∷ []
table4_values = refl
