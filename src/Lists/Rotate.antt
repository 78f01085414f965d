-- ===== src/Lists/Rotate.antt =====
-- `p_rotate` of nl-liststr.c, on a list.
use newlisp_neo.Prelude.{
  ℤ, negsuc, ℕ, zero, suc, ◌+◌, ◌-◌, ◌%◌, ◌<◌, ◌≤◌, ltb, ◌≡◌, ◌≢◌, refl, sym, ap, ◌∙◌, List, [],
  ◌∷◌, ◌++◌, if◌then◌else◌, if_false, ◌==◌, length, Option, some, none, arith, length-append,
}
use newlisp_neo.Lists.Index.{adjust_count}
use newlisp_neo.Lists.Turns.{Turns, IsCount, adjust_count-Turns, adjust_count_whole}
use newlisp_neo.Lists.Heap.{
  Heap, write, Segment, Chain, Distinct, last_of, Segment-write, Segment-write_last, Segment-append,
  Segment-split, Distinct-left, Distinct-right, write_other, write_same, Differs-last_of,
  last_of-Differs, Differs-last_of_right,
}

-- The loop that counts the cells and remembers the last one; the fuel is the number of turns.
unfoldable pub measure : ℕ → Heap → ℕ → ℕ → ℕ → Option (ℕ × ℕ)
measure zero next cell length last = none
measure (suc fuel) next cell length last =
    let rest = measure fuel next (next cell) (suc length) cell in
    if cell == 0 then some (length, last) else rest

-- The loop that goes `index` cells on: `previous` and `cell` at its end.
unfoldable pub advance : ℕ → Heap → ℕ → ℕ → ℕ × ℕ
advance zero next previous cell = (previous, cell)
advance (suc index) next previous cell = advance index next cell (next cell)

-- `previous->next = nilCell`, `last->next` is the first cell, and the list starts at `cell`.
abbrev pub link : Heap → ℕ → ℕ → ℕ × ℕ → Heap × ℕ
link next first last (previous, cell) = (write (write next previous 0) last first, cell)

-- The links and the first cell, once the list is known to have so many cells and this last one. If the
-- count is above the length, `index` wraps around and the walk does not come to an end in practice.
unfoldable pub relink : Heap → ℕ → ℤ → ℕ → ℕ → Option (Heap × ℕ)
unfolding adjust_count advance
relink next first count length last =
    let n = adjust_count count length in
    if n == 0
    then some (next, first)
    else if ltb length n
    then none
    else some (link next first last (advance (length - n) next first first))

unfoldable pub rotate_list : ℕ → Heap → ℕ → ℤ → Option (Heap × ℕ)
unfolding measure relink
rotate_list fuel next first count = elim (measure fuel next first 0 0) [
  | none ↦ none
  | some (length, last) ↦ relink next first count length last
]

measure_lem :
    (fuel : ℕ) (next : Heap) (p : ℕ) (xs : List ℕ) (n last : ℕ)
    → length xs < fuel
    → Chain next p xs
    → measure fuel next p n last ≡ some (n + length xs, last_of last xs)
unfolding measure
measure_lem zero next p xs n last f c = absurd (omega arith)
measure_lem (suc fuel) next p [] n last f c = ground (arith, c)
measure_lem (suc fuel) next p (x ∷ xs) n last f (e, z, c) =
    let rest = measure_lem fuel next (next x) xs (suc n) x (omega arith) c in
    let same : suc n + length xs ≡ n + suc (length xs) = omega arith in
    let all =
      ap (λ y. measure fuel next (next y) (suc n) y) e
      ∙ rest
      ∙ ap (λ k. some (k, last_of x xs)) same in
    ground (arith, e, z, all)

advance_lem :
    (xs : List ℕ) (next : Heap) (previous p q : ℕ)
    → Segment next p xs q
    → advance (length xs) next previous p ≡ (last_of previous xs, q)
unfolding advance
advance_lem [] next previous p q e = ap (λ k. (previous, k)) e
advance_lem (x ∷ xs) next previous p q (e, z, s) =
    ap (λ y. advance (length xs) next y (next y)) e ∙ advance_lem xs next x (next x) q s

-- What the two writes do: the list is cut behind its first part, which is hung on the second one.
relinked :
    (next : Heap) (p x : ℕ) (xs : List ℕ) (y : ℕ) (ys : List ℕ) (m : ℕ)
    → Distinct ((x ∷ xs) ++ (y ∷ ys))
    → Segment next p (x ∷ xs) m
    → Chain next m (y ∷ ys)
    → Chain (write (write next (last_of x xs) 0) (last_of y ys) p) m ((y ∷ ys) ++ (x ∷ xs))
relinked next p x xs y ys m d s c =
    let a = last_of x xs in
    let b = last_of y ys in
    let cut = write next a 0 in
    Segment-append (write cut b p) m (y ∷ ys) (x ∷ xs) p 0
      (Segment-write_last cut p m y ys 0 (Distinct-right (x ∷ xs) (y ∷ ys) d)
        (Segment-write next a 0 m (y ∷ ys) 0 (last_of-Differs x xs (y ∷ ys) d) c))
      (Segment-write cut b p p (x ∷ xs) 0 (Differs-last_of_right (x ∷ xs) y ys d)
        (Segment-write_last next 0 p x xs m (Distinct-left (x ∷ xs) (y ∷ ys) d) s))

measured :
    (fuel : ℕ) (next : Heap) (p x : ℕ) (xs : List ℕ) (count : ℤ)
    → length (x ∷ xs) < fuel
    → Chain next p (x ∷ xs)
    → rotate_list fuel next p count ≡ relink next p count (length (x ∷ xs)) (last_of x xs)
unfolding rotate_list
measured fuel next p x xs count f c =
    let count_all : 0 + length (x ∷ xs) ≡ length (x ∷ xs) = omega arith in
    ap
      (λ o. elim o as (λ _. Option (Heap × ℕ)) [
        | none ↦ none
        | some (length, last) ↦ relink next p count length last
      ])
      (measure_lem fuel next p (x ∷ xs) 0 0 f c ∙ ap (λ n. some (n, last_of x xs)) count_all)

last_of-append :
    (x : ℕ) (xs : List ℕ) (y : ℕ) (ys : List ℕ) → last_of x (xs ++ (y ∷ ys)) ≡ last_of y ys
last_of-append x [] y ys = refl
last_of-append x (x' ∷ xs) y ys = last_of-append x' xs y ys

relink_lem :
    (next : Heap) (first previous cell last n : ℕ) (count : ℤ) (length : ℕ)
    → adjust_count count length ≡ suc n
    → suc n ≤ length
    → advance (length - suc n) next first first ≡ (previous, cell)
    → relink next first count length last ≡ some (write (write next previous 0) last first, cell)
unfolding relink
relink_lem next first previous cell last n count length h l a =
    ap
      (λ k.
        if k == 0
        then some (next, first)
        else if ltb length k
        then none
        else some (link next first last (advance (length - k) next first first)))
      h
    ∙ if_false (suc n == 0) _ _ (ground arith)
    ∙ if_false (ltb length (suc n)) _ _ (ground (arith, l))
    ∙ ap (λ s. some (link next first last s)) a

-- `p_rotate` with a count that is no multiple of the length, nor -2^63, brings the part of the list behind, as
-- long as the count modulo the length, to the front: the links lead through all cells, in that order.
pub rotate_list-Chain :
    (next : Heap) (p x : ℕ) (xs : List ℕ) (y : ℕ) (ys : List ℕ) (count : ℤ) (fuel : ℕ)
    → Distinct ((x ∷ xs) ++ (y ∷ ys))
    → Chain next p ((x ∷ xs) ++ (y ∷ ys))
    → IsCount count
    → Turns count (length (y ∷ ys)) (length ((x ∷ xs) ++ (y ∷ ys)))
    → length ((x ∷ xs) ++ (y ∷ ys)) < fuel
    → (after : Heap) × (q : ℕ) × (rotate_list fuel next p count ≡ some (after, q))
      × Chain after q ((y ∷ ys) ++ (x ∷ xs))
rotate_list-Chain next p x xs y ys count fuel d c range t f =
    let (m, s, c') = Segment-split next p (x ∷ xs) (y ∷ ys) 0 c in
    let n = length ((x ∷ xs) ++ (y ∷ ys)) in
    let long = length-append (x ∷ xs) (y ∷ ys) in
    (
      write (write next (last_of x xs) 0) (last_of y ys) p,
      m,
      measured fuel next p x (xs ++ (y ∷ ys)) count f c
          ∙ ap (λ l. relink next p count n l) (last_of-append x xs y ys)
          ∙ relink_lem next p (last_of x xs) m (last_of y ys) (length ys) count n
              (adjust_count-Turns count (length (y ∷ ys)) n (omega arith) (omega (arith, long))
                range t)
              (omega (arith, long))
              (ap (λ i. advance i next p p) (omega (arith, long))
                ∙ advance_lem (x ∷ xs) next p p m s),
      relinked next p x xs y ys m d s c',
    )

-- `p_rotate` with a count of minus a multiple of the length, but not minus the length, cuts all
-- cells off the list behind its first one.
pub rotate_list-loses :
    (next : Heap) (p x y : ℕ) (ys : List ℕ) (k fuel : ℕ)
    → Distinct (x ∷ y ∷ ys)
    → Chain next p (x ∷ y ∷ ys)
    → suc k ≢ length (x ∷ y ∷ ys)
    → suc k % length (x ∷ y ∷ ys) ≡ 0
    → length (x ∷ y ∷ ys) < fuel
    → (after : Heap) × (rotate_list fuel next p (negsuc k) ≡ some (after, p))
      × Chain after p (x ∷ [])
rotate_list-loses next p x y ys k fuel (d, ds) (e, z, c) other whole f =
    let n = length (x ∷ y ∷ ys) in
    let last = last_of y ys in
    let cut = write next p 0 in
    let none_left : n - n ≡ 0 = omega arith in
    (
      write cut last p,
      measured fuel next p x (y ∷ ys) (negsuc k) f (e, z, c)
          ∙ relink_lem next p p p last (suc (length ys)) (negsuc k) n
              (adjust_count_whole k n (omega arith) other whole) (omega arith)
              (ap (λ i. advance i next p p) none_left ∙ (unfold advance in refl)),
      (
        e,
        z,
        write_other cut last p x (Differs-last_of x y ys d)
            ∙ ap (write next p 0) (sym e)
            ∙ write_same next p 0,
      ),
    )
