-- ===== src/Lists/Sort/Sorting.antt =====
-- The passes of binsort in nl-list.c.
use mathlib.Core.List.Perm
use mathlib.Core.List.{Perm}
use mathlib.Core.Path.{subst}
use Prim.Native.Nat.{◌≤◌}
use newlisp_neo.Prelude.{
  ℕ, zero, suc, ◌+◌, ◌<◌, ◌≡◌, inl, inr, refl, sym, ap, ap₂, ◌∙◌, List, [], ◌∷◌, ◌++◌, append-nil,
  append_assoc, Bool, true, false, if_true, if_false, ltb, Bool-cases, tests, length, length-append,
  length-take, length-drop, take, drop, take-append-drop, take-append, Option, some, none, arith,
}
use newlisp_neo.Lists.Sort.{merge_runs, merge_pass, sort_loop, binsort, IsOrdered}
use newlisp_neo.Lists.Sort.Merging.{merge_runs-Perm, length-merge_runs, IsOrdered-merge_runs}

-- Runs of this length, the last one perhaps shorter.
pub data Runs {A : Type 0} (le : A → A → Bool) (m : ℕ) : List A → Type 0 where
  one : (xs : List A) → length xs ≤ m → IsOrdered le xs → Runs le m xs
  more :
      (xs run rest : List A)
      → length run ≡ m
      → IsOrdered le run
      → Runs le m rest
      → xs ≡ run ++ rest
      → Runs le m xs

module _ {A : Type 0} where
  take_short : (m : ℕ) (xs : List A) → length xs ≤ m → take m xs ≡ xs
  take_short zero [] h = refl
  take_short zero (x ∷ xs) h = absurd (omega arith)
  take_short (suc m) [] h = refl
  take_short (suc m) (x ∷ xs) h = ap (λ l. x ∷ l) (take_short m xs (omega arith))

  drop_short : (m : ℕ) (xs : List A) → length xs ≤ m → drop m xs ≡ []
  drop_short zero [] h = refl
  drop_short zero (x ∷ xs) h = absurd (omega arith)
  drop_short (suc m) [] h = refl
  drop_short (suc m) (x ∷ xs) h = drop_short m xs (omega arith)

  drop_whole : (xs ys : List A) → drop (length xs) (xs ++ ys) ≡ ys
  drop_whole [] ys = refl
  drop_whole (x ∷ xs) ys = drop_whole xs ys

  length-take_le : (m : ℕ) (xs : List A) → length (take m xs) ≤ m
  length-take_le zero xs = omega arith
  length-take_le (suc m) [] = omega arith
  length-take_le (suc m) (x ∷ xs) = omega (arith, length-take_le m xs)

module _ {A : Type 0} (le : A → A → Bool) where
  -- The first run and the others.
  first_run :
      (m : ℕ) (xs : List A) → Runs le m xs → IsOrdered le (take m xs) × Runs le m (drop m xs)
  first_run m xs (one _ short s) = (
    subst (IsOrdered le) (sym (take_short m xs short)) s,
    subst (Runs le m) (sym (drop_short m xs short)) (one [] (omega arith) tt),
  )
  first_run m xs (more _ run rest l s r e) =
      let front = ap₂ take (sym l) e ∙ take-append run rest in
      let back = ap₂ drop (sym l) e ∙ drop_whole run rest in
      (subst (IsOrdered le) (sym front) s, subst (Runs le m) (sym back) r)

  more-Runs :
      (m : ℕ) (run ys : List A)
      → IsOrdered le run
      → Runs le m ys
      → length run ≤ m
      → (0 < length ys → length run ≡ m)
      → Runs le m (run ++ ys)
  more-Runs m run [] s r h k =
      one (run ++ []) (omega (arith, ap length (append-nil run)))
        (subst (IsOrdered le) (sym (append-nil run)) s)
  more-Runs m run (y ∷ ys) s r h k = more (run ++ (y ∷ ys)) run (y ∷ ys) (k (omega arith)) s r refl

  last_run : (m : ℕ) (xs : List A) → Runs le m xs → length xs ≤ m → IsOrdered le xs
  last_run m xs r h = subst (IsOrdered le) (take_short m xs h) (first_run m xs r).0

  -- What a pass gives, for what the array held.
  abbrev Passed : ℕ → List A → Option (List A) → Type 0
  Passed m xs o =
      (ys : List A) × (o ≡ some ys) × Perm ys xs × (length ys ≡ length xs) × Runs le m ys

  -- The two runs of a turn and what is behind them.
  in_parts : (m : ℕ) (xs : List A) → (take m xs ++ take m (drop m xs)) ++ drop m (drop m xs) ≡ xs
  in_parts m xs =
      append_assoc (take m xs) (take m (drop m xs)) (drop m (drop m xs))
      ∙ ap (λ l. take m xs ++ l) (take-append-drop m (drop m xs))
      ∙ take-append-drop m xs

  module _ (trans : (x y z : A) → le x y ≡ true → le y z ≡ true → le x z ≡ true)
      (total : (x y : A) → le x y ≡ false → le y x ≡ true) where
    -- One turn of the loop over `i`.
    joined :
        (m : ℕ) (xs : List A) (o : Option (List A))
        → Runs le m xs
        → Passed (m + m) (drop m (drop m xs)) o
        → let left = take m xs in
          let right = take m (drop m xs) in
          Passed (m + m) xs (elim o [
            | none ↦ none
            | some ys ↦ some (merge_runs le (length left + length right) left right ++ ys)
          ])
    joined m xs o r (ys, e, q, l, r') =
        let left = take m xs in
        let right = take m (drop m xs) in
        let merged = merge_runs le (length left + length right) left right in
        let (s, others) = first_run m xs r in
        let s' = (first_run m (drop m xs) others).0 in
        let n = length-merge_runs le (length left + length right) left right refl in
        let parts = ap length (in_parts m xs) in
        let two = length-append left right in
        let three = length-append (left ++ right) (drop m (drop m xs)) in
        let all = length-append merged ys in
        let after = length-drop m (drop m xs) in
        let after' = length-drop m xs in
        (
          merged ++ ys,
          ap
              (λ o. elim o [
                | none ↦ none
                | some ys ↦ some (merge_runs le (length left + length right) left right ++ ys)
              ])
              e,
          subst (Perm (merged ++ ys)) (in_parts m xs)
              (Perm.append (merge_runs-Perm le (length left + length right) left right refl) q),
          omega (arith, n, parts, two, three, all, l),
          more-Runs (m + m) merged ys
              (IsOrdered-merge_runs le trans total (length left + length right) left right s s') r'
              (omega (arith, n, length-take_le m xs, length-take_le m (drop m xs)))
              (λ h. omega (
                arith,
                h,
                n,
                l,
                after,
                after',
                length-take m xs (omega (arith, h, l, after, after')),
                length-take m (drop m xs) (omega (arith, h, l, after, after')),
              )),
        )

    pass_lem :
        (fuel m : ℕ) (xs : List A)
        → 0 < m
        → length xs ≤ fuel
        → Runs le m xs
        → Passed (m + m) xs (merge_pass le fuel m xs)
    unfolding merge_pass
    pass_lem zero m [] p h r = ([], refl, Perm.refl [], refl, one [] (omega arith) tt)
    pass_lem zero m (x ∷ xs) p h r = absurd (omega arith)
    pass_lem (suc fuel) m [] p h r = ([], refl, Perm.refl [], refl, one [] (omega arith) tt)
    pass_lem (suc fuel) m (x ∷ xs) p h r =
        let rest = drop m (drop m (x ∷ xs)) in
        joined m (x ∷ xs) (merge_pass le fuel m rest) r (
          pass_lem fuel m rest p
            (omega (arith, length-drop m (drop m (x ∷ xs)), length-drop m (x ∷ xs)))
            (first_run m (drop m (x ∷ xs)) (first_run m (x ∷ xs) r).1).1)

    abbrev Sorts : List A → Option (List A) → Type 0
    Sorts xs o = (ys : List A) × (o ≡ some ys) × Perm ys xs × IsOrdered le ys

    loop_lem :
        (fuel m : ℕ) (xs : List A)
        → 0 < m
        → 0 < fuel
        → length xs < m + fuel
        → Runs le m xs
        → Sorts xs (sort_loop le fuel m xs)
    unfolding sort_loop
    loop_lem zero m xs p f h r = absurd (omega arith)
    loop_lem (suc fuel) m xs p f h r = elim (Bool-cases (ltb m (length xs))) [
      | inl q ↦
          let (ys, e, pass, l, r') = pass_lem (length xs) m xs p (omega arith) r in
          let (zs, e', sorted, s) =
            loop_lem fuel (m + m) ys (omega arith) (omega (tests, q)) (omega (arith, l)) r' in
          (
            zs,
            if_true (ltb m (length xs)) _ _ q
                ∙ ap
                    (λ o. elim o as (λ _. Option (List A)) [
                      | none ↦ none
                      | some ys ↦ sort_loop le fuel (m + m) ys
                    ])
                    e
                ∙ e',
            Perm.trans sorted pass,
            s,
          )
      | inr q ↦ (
        xs,
        if_false (ltb m (length xs)) _ _ q,
        Perm.refl xs,
        last_run m xs r (ground (arith, q)),
      )
    ]

    single-Runs : (xs : List A) → Runs le 1 xs
    single-Runs [] = one [] (omega arith) tt
    single-Runs (x ∷ xs) = more (x ∷ xs) (x ∷ []) xs refl (tt, tt) (single-Runs xs) refl

    -- For a comparison that is transitive and decides any two elements one way or the other, `binsort` ends; it
    -- leaves the elements of the array in another order, each before those that it compares lower to.
    pub binsort-IsOrdered :
        (xs : List A) → (ys : List A) × (binsort le xs ≡ some ys) × Perm ys xs × IsOrdered le ys
    unfolding binsort
    binsort-IsOrdered xs =
        loop_lem (length xs + 1) 1 xs (omega arith) (omega arith) (omega arith) (single-Runs xs)
