-- ===== src/Lists/Sort.antt =====
-- `binsort` of nl-list.c: the array as a list. `le` is the comparison: `compareCells(..) <= 0`, the
-- order of the positions, or the call of a newLISP function.
pub mod Merging
pub mod Sorting
use newlisp_neo.Prelude.{
  ℕ, zero, suc, ◌+◌, ◌≡◌, List, [], ◌∷◌, ◌++◌, Bool, true, if◌then◌else◌, ltb, length, take, drop,
  Option, some, none,
}

module _ {A : Type 0} (le : A → A → Bool) where
  -- The loop over `j`, with so many turns: `y[j]` is the next one of the two runs.
  unfoldable pub merge_runs : ℕ → List A → List A → List A
  merge_runs zero xs ys = []
  merge_runs (suc n) [] [] = []
  merge_runs (suc n) [] (y ∷ ys) = y ∷ merge_runs n [] ys
  merge_runs (suc n) (x ∷ xs) [] = x ∷ merge_runs n xs []
  merge_runs (suc n) (x ∷ xs) (y ∷ ys) =
      let from_left = merge_runs n xs (y ∷ ys) in
      let from_right = merge_runs n (x ∷ xs) ys in if le x y then x ∷ from_left else y ∷ from_right

  -- The loop over `i`, on the part of the array that begins there; the fuel is the number of turns. A run that
  -- the array's end leaves empty or cuts short is what is there of it.
  unfoldable pub merge_pass : ℕ → ℕ → List A → Option (List A)
  unfolding merge_runs
  merge_pass fuel m [] = some []
  merge_pass zero m (x ∷ xs) = none
  merge_pass (suc fuel) m (x ∷ xs) =
      let left = take m (x ∷ xs) in
      let right = take m (drop m (x ∷ xs)) in
      let others = merge_pass fuel m (drop m (drop m (x ∷ xs))) in
      elim others [
        | none ↦ none
        | some ys ↦ some (merge_runs (length left + length right) left right ++ ys)
      ]

  -- `while(m < n)`
  unfoldable pub sort_loop : ℕ → ℕ → List A → Option (List A)
  unfolding merge_pass
  sort_loop zero m xs = none
  sort_loop (suc fuel) m xs =
      let sorted : Option (List A) = elim (merge_pass (length xs) m xs) [
        | none ↦ none
        | some ys ↦ sort_loop fuel (m + m) ys
      ] in
      if ltb m (length xs) then sorted else some xs

  unfoldable pub binsort : List A → Option (List A)
  unfolding sort_loop
  binsort xs = sort_loop (length xs + 1) 1 xs

  abbrev pub Lower : A → List A → Type 0
  Lower x [] = Unit
  Lower x (y ∷ ys) = (le x y ≡ true) × Lower x ys

  abbrev pub IsOrdered : List A → Type 0
  IsOrdered [] = Unit
  IsOrdered (x ∷ xs) = Lower x xs × IsOrdered xs
