-- ===== src/Lists/Heap.antt =====
-- The `next` links of the cells: a cell is its address, and nilCell, which ends every list, is 0.
use mathlib.Core.Path.{subst}
use newlisp_neo.Prelude.{
  ℕ, ◌<◌, ◌≡◌, ◌≢◌, refl, sym, List, [], ◌∷◌, ◌++◌, if◌then◌else◌, ◌==◌, arith,
}

abbrev pub Heap : Type 0
Heap = ℕ → ℕ

-- `cell->next = value`
abbrev pub write : Heap → ℕ → ℕ → Heap
write next cell value other = if cell == other then value else next other

-- The links lead from `p` through these cells to `q`.
abbrev pub Segment : Heap → ℕ → List ℕ → ℕ → Type 0
Segment next p [] q = p ≡ q
Segment next p (x ∷ xs) q = (p ≡ x) × (0 < x) × Segment next (next x) xs q

-- `p` is the list of these cells.
abbrev pub Chain : Heap → ℕ → List ℕ → Type 0
Chain next p xs = Segment next p xs 0

abbrev pub Differs : ℕ → List ℕ → Type 0
Differs a [] = Unit
Differs a (x ∷ xs) = (a ≢ x) × Differs a xs

abbrev pub Distinct : List ℕ → Type 0
Distinct [] = Unit
Distinct (x ∷ xs) = Differs x xs × Distinct xs

abbrev pub last_of : ℕ → List ℕ → ℕ
last_of x [] = x
last_of x (y ∷ ys) = last_of y ys

pub write_same : (next : Heap) (a v : ℕ) → write next a v a ≡ v
write_same next a v = ground arith

pub write_other : (next : Heap) (a v b : ℕ) → a ≢ b → write next a v b ≡ next b
write_other next a v b h = ground (arith, h)

-- A write to another cell.
pub Segment-write :
    (next : Heap) (a v p : ℕ) (xs : List ℕ) (q : ℕ)
    → Differs a xs
    → Segment next p xs q
    → Segment (write next a v) p xs q
Segment-write next a v p [] q d s = s
Segment-write next a v p (x ∷ xs) q (d, ds) (e, z, s) = (
  e,
  z,
  subst (λ k. Segment (write next a v) k xs q) (sym (write_other next a v x d))
      (Segment-write next a v (next x) xs q ds s),
)

pub Differs-last_of : (a x : ℕ) (xs : List ℕ) → Differs a (x ∷ xs) → last_of x xs ≢ a
Differs-last_of a x [] (d, _) = λ e. d (sym e)
Differs-last_of a x (y ∷ ys) (_, d) = Differs-last_of a y ys d

-- A write to the last cell.
pub Segment-write_last :
    (next : Heap) (v p x : ℕ) (xs : List ℕ) (q : ℕ)
    → Distinct (x ∷ xs)
    → Segment next p (x ∷ xs) q
    → Segment (write next (last_of x xs) v) p (x ∷ xs) v
Segment-write_last next v p x [] q d (e, z, s) = (e, z, write_same next x v)
Segment-write_last next v p x (y ∷ ys) q (d, ds) (e, z, s) = (
  e,
  z,
  subst (λ k. Segment (write next (last_of y ys) v) k (y ∷ ys) v)
      (sym (write_other next (last_of y ys) v x (Differs-last_of x y ys d)))
      (Segment-write_last next v (next x) y ys q ds s),
)

pub Segment-append :
    (next : Heap) (p : ℕ) (xs ys : List ℕ) (m q : ℕ)
    → Segment next p xs m
    → Segment next m ys q
    → Segment next p (xs ++ ys) q
Segment-append next p [] ys m q s t = subst (λ k. Segment next k ys q) (sym s) t
Segment-append next p (x ∷ xs) ys m q (e, z, s) t =
    (e, z, Segment-append next (next x) xs ys m q s t)

pub Segment-split :
    (next : Heap) (p : ℕ) (xs ys : List ℕ) (q : ℕ)
    → Segment next p (xs ++ ys) q
    → (m : ℕ) × Segment next p xs m × Segment next m ys q
Segment-split next p [] ys q s = (p, refl, s)
Segment-split next p (x ∷ xs) ys q (e, z, s) =
    let (m, a, b) = Segment-split next (next x) xs ys q s in (m, (e, z, a), b)

Differs-left : (a : ℕ) (xs ys : List ℕ) → Differs a (xs ++ ys) → Differs a xs
Differs-left a [] ys d = tt
Differs-left a (x ∷ xs) ys (d, ds) = (d, Differs-left a xs ys ds)

Differs-right : (a : ℕ) (xs ys : List ℕ) → Differs a (xs ++ ys) → Differs a ys
Differs-right a [] ys d = d
Differs-right a (x ∷ xs) ys (d, ds) = Differs-right a xs ys ds

pub Distinct-left : (xs ys : List ℕ) → Distinct (xs ++ ys) → Distinct xs
Distinct-left [] ys d = tt
Distinct-left (x ∷ xs) ys (d, ds) = (Differs-left x xs ys d, Distinct-left xs ys ds)

pub Distinct-right : (xs ys : List ℕ) → Distinct (xs ++ ys) → Distinct ys
Distinct-right [] ys d = d
Distinct-right (x ∷ xs) ys (d, ds) = Distinct-right xs ys ds

-- The last cell of one part is none of the other part's.
pub last_of-Differs :
    (x : ℕ) (xs ys : List ℕ) → Distinct ((x ∷ xs) ++ ys) → Differs (last_of x xs) ys
last_of-Differs x [] ys (d, _) = d
last_of-Differs x (x' ∷ xs) ys (_, d) = last_of-Differs x' xs ys d

pub Differs-last_of_right :
    (xs : List ℕ) (y : ℕ) (ys : List ℕ) → Distinct (xs ++ (y ∷ ys)) → Differs (last_of y ys) xs
Differs-last_of_right [] y ys d = tt
Differs-last_of_right (x ∷ xs) y ys (d, ds) =
    (Differs-last_of x y ys (Differs-right x xs (y ∷ ys) d), Differs-last_of_right xs y ys ds)
