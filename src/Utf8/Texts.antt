-- ===== src/Utf8/Texts.antt =====
-- Strings of characters in nl-utf8.c, counted and indexed.
use mathlib.Core.Path.{subst}
use newlisp_neo.Prelude.{
  ℕ, zero, suc, ◌-◌, ◌<◌, ◌≡◌, inl, inr, refl, sym, ap, ◌∙◌, List, [], ◌∷◌, ◌++◌, append_assoc,
  some, length, length-append, drop, arith,
}
use newlisp_neo.Utf8.Encode.{wchar_utf8}
use newlisp_neo.Utf8.Decode.{utf8_wlen, utf8_index, utf8_1st_len}
use newlisp_neo.Utf8.Characters.{HasShape, shape}

-- The bytes of a text.
abbrev pub encoding : List ℕ → List ℕ
encoding [] = []
encoding (c ∷ cs) = wchar_utf8 c ++ encoding cs

abbrev pub IsText : List ℕ → Type 0
IsText [] = Unit
IsText (c ∷ cs) = (0 < c) × (c < 2147483648) × IsText cs

-- The first byte of a character tells how many bytes it has.
pub utf8_1st_len-wchar_utf8 :
    (c : ℕ) (rest : List ℕ)
    → 0 < c
    → c < 2147483648
    → utf8_1st_len (wchar_utf8 c ++ rest) ≡ some (length (wchar_utf8 c))
unfolding utf8_1st_len
utf8_1st_len-wchar_utf8 c rest p h = first (wchar_utf8 c) (shape c h)
  where
    first : (bytes : List ℕ) → HasShape c bytes → utf8_1st_len (bytes ++ rest) ≡ some (length bytes)
    first [] s = absurd s
    first (b ∷ more) (inl a, q) = ground (arith, q p)
    first (b ∷ more) (inr a, q) = ground (arith, q p)

-- A character is passed in one turn of the loops that count and index.
skip_wlen :
    (more rest : List ℕ) (limit : ℕ)
    → utf8_wlen (length more) (more ++ rest) limit ≡ utf8_wlen 0 rest (limit - length more)
unfolding utf8_wlen
skip_wlen [] rest limit = ap (utf8_wlen 0 rest) (omega arith)
skip_wlen (b ∷ more) rest limit =
    skip_wlen more rest (limit - 1) ∙ ap (utf8_wlen 0 rest) (omega arith)

skip_index :
    (more rest : List ℕ) (idx : ℕ)
    → utf8_index (length more) (more ++ rest) idx ≡ utf8_index 0 rest idx
unfolding utf8_index
skip_index [] rest idx = refl
skip_index (b ∷ more) rest idx = skip_index more rest idx

pass_wlen :
    (c : ℕ) (bytes rest : List ℕ) (limit n : ℕ)
    → 0 < c
    → HasShape c bytes
    → 1 < limit
    → utf8_wlen 0 rest (limit - length bytes) ≡ some n
    → utf8_wlen 0 (bytes ++ rest) limit ≡ some (suc n)
unfolding utf8_wlen
pass_wlen c [] rest limit n p s l h = absurd s
pass_wlen c (b ∷ []) rest limit n p (inl a, q) l h = ground (arith, q p)
pass_wlen c (b ∷ b' ∷ more) rest limit n p (inl a, q) l h = absurd (omega (arith, a.1))
pass_wlen c (b ∷ more) rest limit n p (inr a, q) l h =
    let skipped = skip_wlen more rest (limit - 1) in
    let same : limit - 1 - length more ≡ limit - suc (length more) = omega arith in
    let rest_counted =
      ap (λ k. utf8_wlen k (more ++ rest) (limit - 1)) a.1
      ∙ skipped
      ∙ ap (utf8_wlen 0 rest) same
      ∙ h in
    ground (arith, q p, rest_counted)

pub pass_index :
    (c : ℕ) (bytes rest : List ℕ) (idx : ℕ)
    → 0 < c
    → HasShape c bytes
    → utf8_index 0 (bytes ++ rest) (suc idx) ≡ utf8_index 0 rest idx
unfolding utf8_index
pass_index c [] rest idx p s = absurd s
pass_index c (b ∷ []) rest idx p (inl a, q) = ground (arith, q p)
pass_index c (b ∷ b' ∷ more) rest idx p (inl a, q) = absurd (omega (arith, a.1))
pass_index c (b ∷ more) rest idx p (inr a, q) =
    let passed = ap (λ k. utf8_index k (more ++ rest) idx) a.1 ∙ skip_index more rest idx in
    ground (arith, q p, passed)

pub longer : (c : ℕ) (bytes : List ℕ) → HasShape c bytes → 0 < length bytes
longer c [] s = absurd s
longer c (b ∷ more) s = omega arith

-- For a text with a final 0 inside the limit `utf8_wlen` gives the number of its characters.
pub utf8_wlen-encoding :
    (cs more : List ℕ) (limit : ℕ)
    → IsText cs
    → length (encoding cs) < limit
    → utf8_wlen 0 (encoding cs ++ (0 ∷ more)) limit ≡ some (length cs)
utf8_wlen-encoding [] more limit t l = unfold utf8_wlen in refl
utf8_wlen-encoding (c ∷ cs) more limit (p, h, t) l =
    let bytes = wchar_utf8 c in
    let long = length-append bytes (encoding cs) in
    let there = longer c bytes (shape c h) in
    subst (λ z. utf8_wlen 0 z limit ≡ some (suc (length cs)))
      (sym (append_assoc bytes (encoding cs) (0 ∷ more)))
      (pass_wlen c bytes (encoding cs ++ (0 ∷ more)) limit (length cs) p (shape c h) (omega arith)
        (utf8_wlen-encoding cs more (limit - length bytes) t (omega arith)))

start_index :
    (c : ℕ) (bytes rest : List ℕ)
    → HasShape c bytes
    → utf8_index 0 (bytes ++ rest) 0 ≡ some (bytes ++ rest)
unfolding utf8_index
start_index c [] rest s = absurd s
start_index c (b ∷ more) rest s = refl

-- The pointer of `utf8_index` is the one to the rest of the text, from the character of that index on;
-- to the final 0, if there is none.
pub utf8_index-encoding :
    (cs more : List ℕ) (idx : ℕ)
    → IsText cs
    → utf8_index 0 (encoding cs ++ (0 ∷ more)) idx ≡ some (encoding (drop idx cs) ++ (0 ∷ more))
utf8_index-encoding [] more zero t = unfold utf8_index in refl
utf8_index-encoding [] more (suc idx) t = unfold utf8_index in refl
utf8_index-encoding (c ∷ cs) more zero (p, h, t) =
    let bytes = wchar_utf8 c in
    let all = append_assoc bytes (encoding cs) (0 ∷ more) in
    ap (λ z. utf8_index 0 z 0) all
    ∙ start_index c bytes (encoding cs ++ (0 ∷ more)) (shape c h)
    ∙ ap some (sym all)
utf8_index-encoding (c ∷ cs) more (suc idx) (p, h, t) =
    let bytes = wchar_utf8 c in
    ap (λ z. utf8_index 0 z (suc idx)) (append_assoc bytes (encoding cs) (0 ∷ more))
    ∙ pass_index c bytes (encoding cs ++ (0 ∷ more)) idx p (shape c h)
    ∙ utf8_index-encoding cs more idx t
