-- ===== src/Lists/Sort/Merging.antt =====
-- One merge of binsort in nl-list.c.
use mathlib.Core.List.Perm
use mathlib.Core.List.{Perm, perm_middle}
use newlisp_neo.Prelude.{
  ℕ, zero, suc, ◌+◌, ◌≡◌, refl, ap, List, [], ◌∷◌, ◌++◌, Bool, true, false, if_both, length, arith,
}
use newlisp_neo.Lists.Sort.{merge_runs, Lower, IsOrdered}

module _ {A : Type 0} (le : A → A → Bool) where
  pub merge_runs-Perm :
      (n : ℕ) (xs ys : List A) → n ≡ length xs + length ys → Perm (merge_runs le n xs ys) (xs ++ ys)
  unfolding merge_runs
  merge_runs-Perm zero [] [] h = Perm.refl []
  merge_runs-Perm zero [] (y ∷ ys) h = absurd (omega arith)
  merge_runs-Perm zero (x ∷ xs) ys h = absurd (omega arith)
  merge_runs-Perm (suc n) [] [] h = absurd (omega arith)
  merge_runs-Perm (suc n) [] (y ∷ ys) h = Perm.cons y (merge_runs-Perm n [] ys (omega arith))
  merge_runs-Perm (suc n) (x ∷ xs) [] h = Perm.cons x (merge_runs-Perm n xs [] (omega arith))
  merge_runs-Perm (suc n) (x ∷ xs) (y ∷ ys) h =
      if_both (λ l. Perm l ((x ∷ xs) ++ (y ∷ ys))) (le x y)
        (λ _. Perm.cons x (merge_runs-Perm n xs (y ∷ ys) (omega arith)))
        (λ _.
          Perm.trans (Perm.cons y (merge_runs-Perm n (x ∷ xs) ys (omega arith)))
            (Perm.symm (perm_middle (x ∷ xs) ys)))

  Lower-merge_runs :
      (z : A) (n : ℕ) (xs ys : List A)
      → Lower le z xs
      → Lower le z ys
      → Lower le z (merge_runs le n xs ys)
  unfolding merge_runs
  Lower-merge_runs z zero xs ys h k = tt
  Lower-merge_runs z (suc n) [] [] h k = tt
  Lower-merge_runs z (suc n) [] (y ∷ ys) h (k, ks) = (k, Lower-merge_runs z n [] ys h ks)
  Lower-merge_runs z (suc n) (x ∷ xs) [] (h, hs) k = (h, Lower-merge_runs z n xs [] hs k)
  Lower-merge_runs z (suc n) (x ∷ xs) (y ∷ ys) (h, hs) (k, ks) =
      if_both (Lower le z) (le x y) (λ _. (h, Lower-merge_runs z n xs (y ∷ ys) hs (k, ks)))
        (λ _. (k, Lower-merge_runs z n (x ∷ xs) ys (h, hs) ks))

  pub length-merge_runs :
      (n : ℕ) (xs ys : List A) → n ≡ length xs + length ys → length (merge_runs le n xs ys) ≡ n
  unfolding merge_runs
  length-merge_runs zero xs ys h = refl
  length-merge_runs (suc n) [] [] h = absurd (omega arith)
  length-merge_runs (suc n) [] (y ∷ ys) h = ap suc (length-merge_runs n [] ys (omega arith))
  length-merge_runs (suc n) (x ∷ xs) [] h = ap suc (length-merge_runs n xs [] (omega arith))
  length-merge_runs (suc n) (x ∷ xs) (y ∷ ys) h =
      if_both (λ (l : List A). length l ≡ suc n) (le x y)
        (λ _. ap suc (length-merge_runs n xs (y ∷ ys) (omega arith)))
        (λ _. ap suc (length-merge_runs n (x ∷ xs) ys (omega arith)))

  module _ (trans : (x y z : A) → le x y ≡ true → le y z ≡ true → le x z ≡ true)
      (total : (x y : A) → le x y ≡ false → le y x ≡ true) where
    Lower-le : (x y : A) (ys : List A) → le x y ≡ true → Lower le y ys → Lower le x ys
    Lower-le x y [] h k = tt
    Lower-le x y (z ∷ zs) h (k, ks) = (trans x y z h k, Lower-le x y zs h ks)

    pub IsOrdered-merge_runs :
        (n : ℕ) (xs ys : List A)
        → IsOrdered le xs
        → IsOrdered le ys
        → IsOrdered le (merge_runs le n xs ys)
    unfolding merge_runs
    IsOrdered-merge_runs zero xs ys h k = tt
    IsOrdered-merge_runs (suc n) [] [] h k = tt
    IsOrdered-merge_runs (suc n) [] (y ∷ ys) h (k, ks) =
        (Lower-merge_runs y n [] ys tt k, IsOrdered-merge_runs n [] ys h ks)
    IsOrdered-merge_runs (suc n) (x ∷ xs) [] (h, hs) k =
        (Lower-merge_runs x n xs [] h tt, IsOrdered-merge_runs n xs [] hs k)
    IsOrdered-merge_runs (suc n) (x ∷ xs) (y ∷ ys) (h, hs) (k, ks) =
        if_both (IsOrdered le) (le x y)
          (λ q. (
            Lower-merge_runs x n xs (y ∷ ys) h (q, Lower-le x y ys q k),
            IsOrdered-merge_runs n xs (y ∷ ys) hs (k, ks),
          ))
          (λ q. (
            Lower-merge_runs y n (x ∷ xs) ys (total x y q, Lower-le y x xs (total x y q) h) k,
            IsOrdered-merge_runs n (x ∷ xs) ys (h, hs) ks,
          ))
