-- ===== src/Lists/Tests.antt =====
-- Concrete lists of cells.
use newlisp_neo.Prelude.{
  none, ◌^◌, ◌-◌, pos, negsuc, true, false, leb, ℕ, ◌≡◌, refl, List, [], ◌∷◌, ◌++◌, some, reverse,
  if◌then◌else◌, ◌==◌, arith,
}
use newlisp_neo.Lists.Heap.{Heap, Chain, Distinct}
use newlisp_neo.Lists.Index.{adjust_count}
use newlisp_neo.Lists.Turns.{rotate_string, rotate_string-Turns}
use newlisp_neo.Lists.Rotate.{rotate_list, rotate_list-Chain, rotate_list-loses}
use newlisp_neo.Lists.Reverse.{reverse_list, reverse_list-Chain}
use newlisp_neo.Lists.Sort.{merge_runs, merge_pass, sort_loop, binsort, IsOrdered}
use newlisp_neo.Lists.Sort.Sorting.{binsort-IsOrdered}
use mathlib.Core.List.{Perm}
use newlisp_neo.Utf8.Texts.{encoding, IsText}
use newlisp_neo.Lists.Strings.{done, pop_string, push_on_string}
use newlisp_neo.Lists.PushPop.{stored, pop_string-parts, push_on_string-parts}

-- The cells 10, 20 and 30, linked in this order.
abbrev next : Heap
next cell = if cell == 10 then 20 else if cell == 20 then 30 else 0

three-Chain : Chain next 10 (10 ∷ 20 ∷ 30 ∷ [])
three-Chain = (refl, omega arith, (refl, omega arith, (refl, omega arith, refl)))

three-Distinct : Distinct (10 ∷ 20 ∷ 30 ∷ [])
three-Distinct = (
  ((λ e. absurd (omega (arith, e))), ((λ e. absurd (omega (arith, e))), tt)),
  (((λ e. absurd (omega (arith, e))), tt), (tt, tt)),
)

-- (rotate lst), of three.
rotate_list-Chain_example :
    (after : Heap) × (q : ℕ) × (rotate_list 4 next 10 (pos 1) ≡ some (after, q))
    × Chain after q ((30 ∷ []) ++ (10 ∷ 20 ∷ []))
rotate_list-Chain_example =
    rotate_list-Chain next 10 10 (20 ∷ []) 30 [] (pos 1) 4 three-Distinct three-Chain (omega arith)
      refl (omega arith)

-- (rotate lst -6), of three.
rotate_list-loses_example :
    (after : Heap) × (rotate_list 4 next 10 (negsuc 5) ≡ some (after, 10))
    × Chain after 10 (10 ∷ [])
rotate_list-loses_example =
    rotate_list-loses next 10 10 20 (30 ∷ []) 5 4 three-Distinct three-Chain
      (λ e. absurd (omega (arith, e))) refl (omega arith)

reverse_list-Chain_example :
    (after : Heap) × (q : ℕ) × (reverse_list 4 next 10 ≡ some (after, q))
    × Chain after q (reverse (10 ∷ 20 ∷ 30 ∷ []))
reverse_list-Chain_example =
    reverse_list-Chain next 10 10 (20 ∷ 30 ∷ []) 4 three-Distinct three-Chain (omega arith)

-- `a`, the euro sign twice and `b`.
abbrev euros : List ℕ
euros = 8364 ∷ 8364 ∷ []

euros-IsText : IsText euros
euros-IsText = (omega arith, omega arith, (omega arith, omega arith, tt))

a-IsText : IsText (97 ∷ [])
a-IsText = (omega arith, omega arith, tt)

pop_string-parts_example :
    pop_string (stored ((97 ∷ []) ++ (euros ++ (98 ∷ [])))) (pos 1) (pos 2)
    ≡ done (stored ((97 ∷ []) ++ (98 ∷ []))) (stored euros)
pop_string-parts_example =
    pop_string-parts (97 ∷ []) euros (98 ∷ []) a-IsText euros-IsText (omega arith, omega arith, tt)
      (omega arith)

push_on_string-parts_example :
    push_on_string (encoding euros) (stored ((97 ∷ []) ++ (98 ∷ []))) (pos 1)
    ≡ some (stored ((97 ∷ []) ++ (euros ++ (98 ∷ []))))
push_on_string-parts_example =
    push_on_string-parts (97 ∷ []) euros (98 ∷ []) a-IsText (omega arith, omega arith, tt)

-- (rotate lst -3) of three cells, and (rotate lst -1).
counts :
    (adjust_count (negsuc 2) 3 ≡ 0)
    × (adjust_count (negsuc 0) 3 ≡ 2)
    × (adjust_count (negsuc 5) 3 ≡ 3)
unfolding adjust_count
counts = (refl, refl, refl)

-- -2^63 of three gives a count above the length.
smallest_count :
    (adjust_count (negsuc (2 ^ 63 - 1)) 3 ≡ 5)
    × (rotate_string (97 ∷ 98 ∷ 99 ∷ []) (negsuc (2 ^ 63 - 1)) ≡ none)
unfolding adjust_count rotate_string
smallest_count = (refl, refl)

abbrev numbers : List ℕ
numbers = 3 ∷ 1 ∷ 2 ∷ 1 ∷ 5 ∷ []

leb_trans : (x y z : ℕ) → leb x y ≡ true → leb y z ≡ true → leb x z ≡ true
leb_trans x y z h k = ground (arith, h, k)

leb_total : (x y : ℕ) → leb x y ≡ false → leb y x ≡ true
leb_total x y h = ground (arith, h)

binsort-IsOrdered_example :
    (ys : List ℕ) × (binsort leb numbers ≡ some ys) × Perm ys numbers × IsOrdered leb ys
binsort-IsOrdered_example = binsort-IsOrdered leb leb_trans leb_total numbers

sorted_numbers : binsort leb numbers ≡ some (1 ∷ 1 ∷ 2 ∷ 3 ∷ 5 ∷ [])
unfolding binsort sort_loop merge_pass merge_runs
sorted_numbers = refl

-- (rotate "abc" -4)
rotate_string-Turns_example :
    rotate_string ((97 ∷ []) ++ (98 ∷ 99 ∷ [])) (negsuc 3) ≡ some ((98 ∷ 99 ∷ []) ++ (97 ∷ []))
rotate_string-Turns_example =
    rotate_string-Turns (97 ∷ []) (98 ∷ 99 ∷ []) (negsuc 3) (omega arith) (omega arith)
      (omega arith) refl
