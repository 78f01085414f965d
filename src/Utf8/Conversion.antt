-- ===== src/Utf8/Conversion.antt =====
-- Strings of characters in nl-utf8.c, converted in both directions.
use Prim.Native.Nat.{◌≤◌}
use newlisp_neo.Prelude.{
  ℕ, zero, suc, ◌+◌, ◌<◌, ◌≡◌, ◌⊎◌, inl, inr, refl, ap, ◌∙◌, List, [], ◌∷◌, ◌++◌, append_assoc,
  some, length, length-append, take, arith, ltb, ltb→lt, Bool-cases, true, false, tests,
}
use newlisp_neo.Utf8.Encode.{wchar_utf8, wstr_utf8}
use newlisp_neo.Utf8.Decode.{utf8_wchar, utf8_wstr}
use newlisp_neo.Utf8.Characters.{HasShape, shape, utf8_wchar-wchar_utf8, length-wchar_utf8}
use newlisp_neo.Utf8.Texts.{encoding, IsText, longer}

next_wstr :
    (c : ℕ) (bytes rest : List ℕ) (maxwc : ℕ) (ws : List ℕ)
    → 0 < c
    → HasShape c bytes
    → utf8_wchar (bytes ++ rest) ≡ some (c, rest)
    → utf8_wstr rest maxwc ≡ some ws
    → utf8_wstr (bytes ++ rest) (suc maxwc) ≡ some (c ∷ ws)
unfolding utf8_wstr utf8_wchar
next_wstr c [] rest maxwc ws p s h k = absurd s
next_wstr c (b ∷ more) rest maxwc ws p (a, q) h k = ground (arith, q p, h, k)

-- The bytes of a text are read back, as many characters as are wanted.
pub utf8_wstr-encoding :
    (cs more : List ℕ) (maxwc : ℕ)
    → IsText cs
    → utf8_wstr (encoding cs ++ (0 ∷ more)) maxwc ≡ some (take maxwc cs)
utf8_wstr-encoding cs more zero t = unfold utf8_wstr in refl
utf8_wstr-encoding [] more (suc maxwc) t = unfold utf8_wstr utf8_wchar in refl
utf8_wstr-encoding (c ∷ cs) more (suc maxwc) (p, h, t) =
    let bytes = wchar_utf8 c in
    let rest = encoding cs ++ (0 ∷ more) in
    ap (λ z. utf8_wstr z (suc maxwc)) (append_assoc bytes (encoding cs) (0 ∷ more))
    ∙ next_wstr c bytes rest maxwc (take maxwc cs) p (shape c h) (utf8_wchar-wchar_utf8 c rest h)
        (utf8_wstr-encoding cs more maxwc t)

pub wstr_utf8-encoding :
    (cs more : List ℕ) (maxstr size : ℕ)
    → IsText cs
    → size + length (encoding cs) ≤ maxstr
    → wstr_utf8 (cs ++ (0 ∷ more)) maxstr size ≡ some (encoding cs)
unfolding wstr_utf8
wstr_utf8-encoding [] more maxstr size t l = refl
wstr_utf8-encoding (c ∷ cs) more maxstr size (p, h, t) l =
    let long = length-append (wchar_utf8 c) (encoding cs) in
    let there = longer c (wchar_utf8 c) (shape c h) in
    let rest = wstr_utf8-encoding cs more maxstr (size + length (wchar_utf8 c)) t (omega arith) in
    ground (arith, rest)

take_all : (cs : List ℕ) (n : ℕ) → length cs ≤ n → take n cs ≡ cs
take_all [] zero h = refl
take_all [] (suc n) h = refl
take_all (c ∷ cs) zero h = absurd (omega arith)
take_all (c ∷ cs) (suc n) h = ap (λ l. c ∷ l) (take_all cs n (omega arith))

-- A text of characters from 1 to 2 ^ 31 - 1 that `wstr_utf8` converts with enough room is what
-- `utf8_wstr` makes of the result, with room for as many characters.
pub utf8_wstr-wstr_utf8 :
    (cs more more' : List ℕ) (maxstr maxwc : ℕ)
    → IsText cs
    → length (encoding cs) ≤ maxstr
    → length cs ≤ maxwc
    → (bytes : List ℕ) × (wstr_utf8 (cs ++ (0 ∷ more)) maxstr 0 ≡ some bytes)
      × (utf8_wstr (bytes ++ (0 ∷ more')) maxwc ≡ some cs)
utf8_wstr-wstr_utf8 cs more more' maxstr maxwc t l m = (
  encoding cs,
  wstr_utf8-encoding cs more maxstr 0 t (omega arith),
  utf8_wstr-encoding cs more' maxwc t ∙ ap some (take_all cs maxwc m),
)

-- The last of the first `k` characters begins before so many bytes are written.
abbrev pub IsBegun : List ℕ → ℕ → ℕ → ℕ → Type 0
IsBegun cs maxstr size zero = Unit
IsBegun cs maxstr size (suc k) = size + length (encoding (take k cs)) < maxstr

-- What `wstr_utf8` writes: the first `k` characters.
abbrev pub Written : List ℕ → List ℕ → ℕ → ℕ → ℕ → Type 0
Written cs more maxstr size k =
    (wstr_utf8 (cs ++ (0 ∷ more)) maxstr size ≡ some (encoding (take k cs)))
    × ((k ≡ length cs) ⊎ (maxstr ≤ size + length (encoding (take k cs))))
    × IsBegun cs maxstr size k
    × (size + length (encoding (take k cs)) ≤ maxstr + 5)

IsBegun-next :
    (c : ℕ) (cs : List ℕ) (maxstr size k : ℕ)
    → size < maxstr
    → IsBegun cs maxstr (size + length (wchar_utf8 c)) k
    → IsBegun (c ∷ cs) maxstr size (suc k)
IsBegun-next c cs maxstr size zero l h = omega (arith, l)
IsBegun-next c cs maxstr size (suc k) l h =
    omega (arith, h, length-append (wchar_utf8 c) (encoding (take k cs)))

ended_next :
    (c : ℕ) (cs : List ℕ) (maxstr size k : ℕ)
    → (k ≡ length cs) ⊎ (maxstr ≤ size + length (wchar_utf8 c) + length (encoding (take k cs)))
    → (suc k ≡ length (c ∷ cs)) ⊎ (maxstr ≤ size + length (encoding (take (suc k) (c ∷ cs))))
ended_next c cs maxstr size k (inl e) = inl (omega (arith, e))
ended_next c cs maxstr size k (inr l) =
    inr (omega (arith, l, length-append (wchar_utf8 c) (encoding (take k cs))))

room :
    (cs more : List ℕ) (maxstr size : ℕ)
    → IsText cs
    → size ≤ maxstr + 5
    → (k : ℕ) × Written cs more maxstr size k
unfolding wstr_utf8
room [] more maxstr size t l = (0, (refl, inl refl, tt, omega arith))
room (c ∷ cs) more maxstr size (p, h, t) l =
    written (Bool-cases (ltb size maxstr)) (room cs more maxstr (size + length (wchar_utf8 c)) t)
  where
    written :
        (ltb size maxstr ≡ true) ⊎ (ltb size maxstr ≡ false)
        → (size + length (wchar_utf8 c) ≤ maxstr + 5
            → (k : ℕ) × Written cs more maxstr (size + length (wchar_utf8 c)) k)
        → (k : ℕ) × Written (c ∷ cs) more maxstr size k
    written (inr q) others = (0, (ground (arith, q), inr (ground (arith, q)), tt, omega arith))
    written (inl q) others =
        let (k, (e, ended, begun, b)) = others (omega (tests, q, length-wchar_utf8 c h)) in
        (
          suc k,
          (
            ground (arith, q, e),
            ended_next c cs maxstr size k ended,
            IsBegun-next c cs maxstr size k (ltb→lt size maxstr q) begun,
            omega (arith, b, length-append (wchar_utf8 c) (encoding (take k cs))),
          ),
        )

-- `wstr_utf8` writes the first characters of a text of characters from 1 to 2 ^ 31 - 1: all of them,
-- or so many that `maxstr` bytes are reached; the last of them begins before `maxstr` bytes are
-- written, so that they take up to five bytes more.
pub wstr_utf8-room :
    (cs more : List ℕ) (maxstr : ℕ) → IsText cs → (k : ℕ) × Written cs more maxstr 0 k
wstr_utf8-room cs more maxstr t = room cs more maxstr 0 t (omega arith)
