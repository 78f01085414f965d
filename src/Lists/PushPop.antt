-- ===== src/Lists/PushPop.antt =====
-- `popString` and `pushOnString` of nl-liststr.c on texts of whole characters.
use Prim.Native.Nat.{◌≤◌}
use newlisp_neo.Prelude.{
  pos, ℕ, suc, ◌+◌, ◌-◌, ◌<◌, ◌≡◌, refl, sym, ap, ap₂, ◌∙◌, List, [], ◌∷◌, ◌++◌, append_assoc,
  false, if_false, ltb, length, length-append, take, drop, take-append, some, none, arith,
}
use newlisp_neo.Utf8.Decode.{utf8_wlen, utf8_index}
use newlisp_neo.Utf8.Encode.{wchar_utf8}
use newlisp_neo.Utf8.Characters.{shape}
use newlisp_neo.Utf8.Texts.{
  encoding, IsText, pass_index, longer, utf8_wlen-encoding, utf8_index-encoding,
}
use newlisp_neo.Lists.Index.{adjust_negative_index}
use newlisp_neo.Lists.Strings.{
  done, cut_out, offset, pop_to, pop_from, pop_at, pop_sized, pop_string, push_at, push_sized,
  push_on_string,
}

drop_front : (xs ys : List ℕ) → drop (length xs) (xs ++ ys) ≡ ys
drop_front [] ys = refl
drop_front (x ∷ xs) ys = drop_front xs ys

encoding-append : (fs ms : List ℕ) → encoding (fs ++ ms) ≡ encoding fs ++ encoding ms
encoding-append [] ms = refl
encoding-append (a ∷ fs) ms =
    ap (λ l. wchar_utf8 a ++ l) (encoding-append fs ms)
    ∙ sym (append_assoc (wchar_utf8 a) (encoding fs) (encoding ms))

IsText-append : (fs ms : List ℕ) → IsText fs → IsText ms → IsText (fs ++ ms)
IsText-append [] ms t u = u
IsText-append (a ∷ fs) ms (p, h, t) u = (p, h, IsText-append fs ms t u)

-- A text in memory.
abbrev pub stored : List ℕ → List ℕ
stored cs = encoding cs ++ (0 ∷ [])

stored-append : (fs ms : List ℕ) → stored (fs ++ ms) ≡ encoding fs ++ stored ms
stored-append fs ms =
    ap (λ l. l ++ (0 ∷ [])) (encoding-append fs ms)
    ∙ append_assoc (encoding fs) (encoding ms) (0 ∷ [])

at_front :
    (fs ms : List ℕ)
    → IsText fs
    → IsText ms
    → utf8_index 0 (encoding fs ++ stored ms) (length fs) ≡ some (stored ms)
at_front [] ms t u = utf8_index-encoding ms [] 0 u
at_front (a ∷ fs) ms (p, h, t) u =
    ap (λ z. utf8_index 0 z (suc (length fs)))
      (append_assoc (wchar_utf8 a) (encoding fs) (stored ms))
    ∙ pass_index a (wchar_utf8 a) (encoding fs ++ stored ms) (length fs) p (shape a h)
    ∙ at_front fs ms t u

offset_lem : (xs ys : List ℕ) → offset (xs ++ ys) ys ≡ length xs
offset_lem xs ys = omega (arith, length-append xs ys)

-- The parts of a text's bytes.
cut_parts :
    (xs ys zs : List ℕ)
    → cut_out (xs ++ (ys ++ (zs ++ (0 ∷ [])))) (length xs) (length xs + length ys)
      ≡ done (xs ++ (zs ++ (0 ∷ []))) (ys ++ (0 ∷ []))
cut_parts xs ys zs =
    let rest = zs ++ (0 ∷ []) in
    let str = xs ++ (ys ++ rest) in
    let long = length-append xs (ys ++ rest) in
    let long' = length-append ys rest in
    let long'' = length-append zs (0 ∷ []) in
    let inside : ltb (length str - 1) (length xs + length ys) ≡ false =
      ground (arith, long, long', long'') in
    let end : drop (length xs + length ys) str ≡ rest =
      ap (λ n. drop n str) (sym (length-append xs ys))
      ∙ ap (drop (length (xs ++ ys))) (sym (append_assoc xs ys rest))
      ∙ drop_front (xs ++ ys) rest in
    let middle : take (length xs + length ys - length xs) (drop (length xs) str) ≡ ys =
      ap (λ n. take n (drop (length xs) str)) (omega arith)
      ∙ ap (take (length ys)) (drop_front xs (ys ++ rest))
      ∙ take-append ys rest in
    if_false (ltb (length str - 1) (length xs + length ys)) _ _ inside
    ∙ ap₂ done (ap₂ (λ a b. a ++ b) (take-append xs (ys ++ rest)) end)
        (ap (λ l. l ++ (0 ∷ [])) middle)

bytes_le : (cs : List ℕ) → IsText cs → length cs ≤ length (encoding cs)
bytes_le [] t = omega arith
bytes_le (c ∷ cs) (p, h, t) = omega (
  arith,
  bytes_le cs t,
  longer c (wchar_utf8 c) (shape c h),
  length-append (wchar_utf8 c) (encoding cs),
)

pop_from-parts :
    (fs ms es : List ℕ)
    → IsText ms
    → IsText es
    → pop_from (stored (fs ++ (ms ++ es))) (length ms) (some (stored (ms ++ es)))
      ≡ done (stored (fs ++ es)) (stored ms)
unfolding pop_from
pop_from-parts fs ms es u v =
    let str = stored (fs ++ (ms ++ es)) in
    let first = encoding fs in
    let middle = encoding ms in
    let rest = stored-append ms es in
    let second = ap (λ z. utf8_index 0 z (length ms)) rest ∙ at_front ms es u v in
    let whole : str ≡ first ++ (middle ++ stored es) =
      stored-append fs (ms ++ es) ∙ ap (λ z. first ++ z) rest in
    let whole' : str ≡ (first ++ middle) ++ stored es =
      whole ∙ sym (append_assoc first middle (stored es)) in
    let start : offset str (stored (ms ++ es)) ≡ length first =
      ap₂ offset whole rest ∙ offset_lem first (middle ++ stored es) in
    let end : offset str (stored es) ≡ length first + length middle =
      ap (λ z. offset z (stored es)) whole'
      ∙ offset_lem (first ++ middle) (stored es)
      ∙ length-append first middle in
    ap (pop_to str (stored (ms ++ es))) second
    ∙ ap₂ (cut_out str) start end
    ∙ ap (λ z. cut_out z (length first) (length first + length middle)) whole
    ∙ cut_parts first middle (encoding es)
    ∙ ap (λ z. done z (stored ms)) (sym (stored-append fs es))

whole_text :
    (fs ms : List ℕ)
    → IsText fs
    → IsText ms
    → utf8_wlen 0 (stored (fs ++ ms)) (length (stored (fs ++ ms))) ≡ some (length (fs ++ ms))
whole_text fs ms t u =
    utf8_wlen-encoding (fs ++ ms) [] (length (stored (fs ++ ms))) (IsText-append fs ms t u)
      (omega (arith, length-append (encoding (fs ++ ms)) (0 ∷ [])))

to_part :
    (fs ms : List ℕ)
    → IsText fs
    → IsText ms
    → utf8_index 0 (stored (fs ++ ms)) (length fs) ≡ some (stored ms)
to_part fs ms t u = ap (λ z. utf8_index 0 z (length fs)) (stored-append fs ms) ∙ at_front fs ms t u

-- `popString` takes the characters `ms` out of the text, by the index of the first one and their
-- number, and gives them back: no byte of another character is touched.
pub pop_string-parts :
    (fs ms es : List ℕ)
    → IsText fs
    → IsText ms
    → IsText es
    → 0 < length (ms ++ es)
    → pop_string (stored (fs ++ (ms ++ es))) (pos (length fs)) (pos (length ms))
      ≡ done (stored (fs ++ es)) (stored ms)
unfolding pop_string pop_sized pop_at adjust_negative_index
pop_string-parts fs ms es t u v p =
    let cs = fs ++ (ms ++ es) in
    let str = stored cs in
    let n = length cs in
    let text = IsText-append ms es u v in
    let long = length-append fs (ms ++ es) in
    let long' = length-append ms es in
    let bytes = bytes_le cs (IsText-append fs (ms ++ es) t text) in
    let small : ltb (length str) 2 ≡ false =
      ground (arith, p, long, bytes, length-append (encoding cs) (0 ∷ [])) in
    let inside : ltb n (length fs + 1) ≡ false = ground (arith, p, long) in
    let enough : ltb n (length fs + length ms) ≡ false = ground (arith, long, long') in
    ap (pop_sized str (pos (length fs)) (pos (length ms))) (whole_text fs (ms ++ es) t text)
    ∙ if_false (ltb (length str) 2) _ _ small
    ∙ ap (pop_at str (length ms) n)
        (if_false (ltb n (length fs + 1)) none (some (length fs)) inside)
    ∙ ap (λ k. pop_from str k (utf8_index 0 str (length fs)))
        (if_false (ltb n (length fs + length ms)) (n - length fs) (length ms) enough)
    ∙ ap (pop_from str (length ms)) (to_part fs (ms ++ es) t text)
    ∙ pop_from-parts fs ms es u v

-- `pushOnString` with the index of a character, or one behind the last, puts the new text before that character.
pub push_on_string-parts :
    (fs ms es : List ℕ)
    → IsText fs
    → IsText es
    → push_on_string (encoding ms) (stored (fs ++ es)) (pos (length fs))
      ≡ some (stored (fs ++ (ms ++ es)))
unfolding push_on_string push_sized
push_on_string-parts fs ms es t v =
    let str = stored (fs ++ es) in
    let n = length (fs ++ es) in
    let whole = stored-append fs es in
    let inside : ltb n (length fs) ≡ false = ground (arith, length-append fs es) in
    let start = ap (λ z. offset z (stored es)) whole ∙ offset_lem (encoding fs) (stored es) in
    let front = ap₂ take start whole ∙ take-append (encoding fs) (stored es) in
    ap (push_sized (encoding ms) str (pos (length fs))) (whole_text fs es t v)
    ∙ ap (λ k. push_at (encoding ms) str (utf8_index 0 str k))
        (if_false (ltb n (length fs)) n (length fs) inside)
    ∙ ap (push_at (encoding ms) str) (to_part fs es t v)
    ∙ ap (λ z. some (z ++ (encoding ms ++ stored es))) front
    ∙ ap (λ z. some (encoding fs ++ z)) (sym (stored-append ms es))
    ∙ ap some (sym (stored-append fs (ms ++ es)))
