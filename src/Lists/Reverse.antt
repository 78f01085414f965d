-- ===== src/Lists/Reverse.antt =====
-- `p_reverse` of nl-liststr.c, on a list.
use mathlib.Core.Path.{subst}
use mathlib.Core.List.{reverse_aux}
use newlisp_neo.Prelude.{
  ℕ, zero, suc, ◌+◌, ◌<◌, ◌≡◌, refl, sym, ap, ◌∙◌, List, [], ◌∷◌, reverse, if◌then◌else◌, if_false,
  ◌==◌, length, Option, some, none, arith,
}
use newlisp_neo.Lists.Heap.{Heap, write, Chain, Differs, Distinct, Segment-write, write_same}

-- The loop: `cell` is the latest cell of the reversed part and `next_cell` the first one of the rest. The fuel is
-- the number of turns.
unfoldable pub reverse_cells : ℕ → Heap → ℕ → ℕ → ℕ → Option (Heap × ℕ)
reverse_cells zero next previous cell next_cell = none
reverse_cells (suc fuel) next previous cell next_cell =
    let after = if next_cell == 0 then next else write next next_cell cell in
    let rest = reverse_cells fuel after cell next_cell (next next_cell) in
    if cell == 0 then some (next, previous) else rest

-- `next = cell->next; cell->next = nilCell;` on the first cell, and the loop.
unfoldable pub reverse_list : ℕ → Heap → ℕ → Option (Heap × ℕ)
unfolding reverse_cells
reverse_list fuel next first = reverse_cells fuel (write next first 0) first first (next first)

-- No cell of one list is in the other.
abbrev Apart : List ℕ → List ℕ → Type 0
Apart [] ds = Unit
Apart (x ∷ xs) ds = Differs x ds × Apart xs ds

Apart-cons : (xs ds : List ℕ) (d : ℕ) → Differs d xs → Apart xs ds → Apart xs (d ∷ ds)
Apart-cons [] ds d n a = tt
Apart-cons (x ∷ xs) ds d (n, ns) (a, others) = (((λ e. n (sym e)), a), Apart-cons xs ds d ns others)

Apart-one : (xs : List ℕ) (d : ℕ) → Differs d xs → Apart xs (d ∷ [])
Apart-one [] d n = tt
Apart-one (x ∷ xs) d (n, ns) = (((λ e. n (sym e)), tt), Apart-one xs d ns)

abbrev Reversed : List ℕ → Option (Heap × ℕ) → Type 0
Reversed xs o = (after : Heap) × (q : ℕ) × (o ≡ some (after, q)) × Chain after q xs

reverse_cells-Chain :
    (rest : List ℕ) (fuel : ℕ) (next : Heap) (previous cell : ℕ) (d : ℕ) (ds : List ℕ) (p : ℕ)
    → length rest + 1 < fuel
    → Chain next cell (d ∷ ds)
    → Chain next p rest
    → Distinct rest
    → Apart rest (d ∷ ds)
    → Reversed (reverse_aux rest (d ∷ ds)) (reverse_cells fuel next previous cell p)
unfolding reverse_cells
reverse_cells-Chain rest zero next previous cell d ds p f c r n a = absurd (omega arith)
reverse_cells-Chain [] (suc zero) next previous cell d ds p f c r n a = absurd (omega arith)
reverse_cells-Chain [] (suc (suc fuel)) next previous cell d ds p f c r n a =
    (next, cell, ground (arith, c.0, c.1, r), c)
reverse_cells-Chain (x ∷ rest) (suc fuel) next previous cell d ds p f c (e, z, r) (n, ns)
      (a, others) =
    let after = write next x cell in
    let done =
      subst (λ k. Chain after k (d ∷ ds)) (sym (write_same next x cell))
        (Segment-write next x cell cell (d ∷ ds) 0 a c) in
    let (end, q, o, s) =
      reverse_cells-Chain rest fuel after cell x x (d ∷ ds) (next x) (omega arith) (refl, z, done)
        (Segment-write next x cell (next x) rest 0 n r) ns (Apart-cons rest (d ∷ ds) x n others) in
    (end, q, turn o, s)
  where
    turn :
        {end : Heap} {q : ℕ}
        → reverse_cells fuel (write next x cell) cell x (next x) ≡ some (end, q)
        → reverse_cells (suc fuel) next previous cell p ≡ some (end, q)
    turn o =
        if_false (cell == 0) _ _ (ground (arith, c.0, c.1))
        ∙ ap (λ h. reverse_cells fuel h cell p (next p))
            (if_false (p == 0) next (write next p cell) (ground (arith, e, z)))
        ∙ ap (λ y. reverse_cells fuel (write next y cell) cell y (next y)) e
        ∙ o

-- `p_reverse` ends on a list of distinct cells that is not empty, with the links through the same cells in the
-- reversed order.
pub reverse_list-Chain :
    (next : Heap) (p x : ℕ) (xs : List ℕ) (fuel : ℕ)
    → Distinct (x ∷ xs)
    → Chain next p (x ∷ xs)
    → length (x ∷ xs) < fuel
    → (after : Heap) × (q : ℕ) × (reverse_list fuel next p ≡ some (after, q))
      × Chain after q (reverse (x ∷ xs))
unfolding reverse_list
reverse_list-Chain next p x xs fuel (n, ns) (e, z, c) f =
    let cut = write next p 0 in
    let apart = subst (λ y. Differs y xs) (sym e) n in
    reverse_cells-Chain xs fuel cut p p x [] (next p) (omega arith)
      (e, z, subst (λ y. cut y ≡ 0) e (write_same next p 0))
      (Segment-write next p 0 (next p) xs 0 apart (subst (λ y. Chain next (next y) xs) (sym e) c))
      ns (Apart-one xs x n)
