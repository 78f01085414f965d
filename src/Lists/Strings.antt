-- ===== src/Lists/Strings.antt =====
-- `popString` and `pushOnString` of nl-liststr.c, with UTF-8. A string is the list of its bytes, the final 0
-- included; `str->aux` is their number.
use newlisp_neo.Prelude.{
  ℤ, pos, negsuc, ℕ, zero, suc, ◌+◌, ◌-◌, List, [], ◌∷◌, ◌++◌, if◌then◌else◌, ltb, length, take,
  drop, Option, some, none,
}
use newlisp_neo.Utf8.Decode.{utf8_wlen, utf8_index}
use newlisp_neo.Lists.Index.{adjust_negative_index}

-- What a call ends in: the string and the result; ERR_STRING_INDEX_INVALID; ERR_INVALID_UTF8; or a read
-- behind the string.
pub data Outcome : Type 0 where
  done : List ℕ → List ℕ → Outcome
  index_invalid invalid_utf8 overrun : Outcome

-- The part of the string from here to there is taken out: `len` is the offset of its end.
abbrev pub cut_out : List ℕ → ℕ → ℕ → Outcome
cut_out str index len =
    if ltb (length str - 1) len
    then invalid_utf8
    else done (take index str ++ drop len str) (take (len - index) (drop index str) ++ (0 ∷ []))

-- Where a pointer leads to in the string.
abbrev pub offset : List ℕ → List ℕ → ℕ
offset str rest = length str - length rest

-- What follows the two calls of utf8_index.
abbrev pub pop_to : List ℕ → List ℕ → Option (List ℕ) → Outcome
pop_to str start none = overrun
pop_to str start (some end) = cut_out str (offset str start) (offset str end)

unfoldable pub pop_from : List ℕ → ℕ → Option (List ℕ) → Outcome
unfolding utf8_index
pop_from str len none = overrun
pop_from str len (some start) = pop_to str start (utf8_index 0 start len)

-- `if(len < 1) len = 0`
abbrev pub at_least_0 : ℤ → ℕ
at_least_0 (pos n) = n
at_least_0 (negsuc n) = 0

-- `index` and `len` in characters, the latter cut at the end of the string.
unfoldable pub pop_at : List ℕ → ℕ → ℕ → Option ℕ → Outcome
unfolding utf8_index pop_from
pop_at str len size none = index_invalid
pop_at str len size (some index) =
    pop_from str (if ltb size (index + len) then size - index else len) (utf8_index 0 str index)

unfoldable pub pop_sized : List ℕ → ℤ → ℤ → Option ℕ → Outcome
unfolding adjust_negative_index pop_at
pop_sized str index len none = overrun
pop_sized str index len (some size) =
    if ltb (length str) 2
    then done str (0 ∷ [])
    else pop_at str (at_least_0 len) size (adjust_negative_index index size)

unfoldable pub pop_string : List ℕ → ℤ → ℤ → Outcome
unfolding utf8_wlen pop_sized
pop_string str index len = pop_sized str index len (utf8_wlen 0 str (length str))

-- "convert index into characters to skip before the new one is inserted"
abbrev pub skip_characters : ℤ → ℕ → ℕ
skip_characters (pos index) len = if ltb len index then len else index
skip_characters (negsuc index) len = len - index

abbrev pub push_at : List ℕ → List ℕ → Option (List ℕ) → Option (List ℕ)
push_at new str none = none
push_at new str (some rest) = some (take (offset str rest) str ++ (new ++ rest))

unfoldable pub push_sized : List ℕ → List ℕ → ℤ → Option ℕ → Option (List ℕ)
unfolding utf8_index
push_sized new str index none = none
push_sized new str index (some len) = push_at new str (utf8_index 0 str (skip_characters index len))

-- The string after the call; `new` is the other one without its final 0. The index -1 appends.
unfoldable pub push_on_string : List ℕ → List ℕ → ℤ → Option (List ℕ)
unfolding utf8_wlen push_sized
push_on_string new str (negsuc zero) = some (take (length str - 1) str ++ (new ++ (0 ∷ [])))
push_on_string new str (negsuc (suc i)) =
    push_sized new str (negsuc (suc i)) (utf8_wlen 0 str (length str))
push_on_string new str (pos i) = push_sized new str (pos i) (utf8_wlen 0 str (length str))
