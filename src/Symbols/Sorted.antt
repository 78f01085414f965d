-- ===== src/Symbols/Sorted.antt =====
-- A context's symbols as its tree should hold them: a list in the order of the names, without one
-- name twice, and what finding, inserting and deleting mean on it.
use Prim.Native.Nat.{Ordering}
use newlisp_neo.Prelude.{◌≡◌, refl, List, [], ◌∷◌, ◌++◌, Option, none, some, arith}
use newlisp_neo.Symbols.Name.{Name, name_order, Before, gt_of_lt}
use newlisp_neo.Symbols.Tree.{Entry}
use newlisp_neo.Symbols.Insert.{new_entry}

abbrev pub All : (Entry → Type 0) → List Entry → Type 0
All P [] = Unit
All P (e ∷ es) = P e × All P es

abbrev pub Below : Name → List Entry → Type 0
Below key es = All (λ e. Before e.name key) es

abbrev pub Above : Name → List Entry → Type 0
Above key es = All (λ e. Before key e.name) es

abbrev pub IsSorted : List Entry → Type 0
IsSorted [] = Unit
IsSorted (e ∷ es) = Above e.name es × IsSorted es

unfoldable pub find : Name → List Entry → Option Entry
find key [] = none
find key (e ∷ es) =
    let rest = find key es in elim (name_order key e.name) [ Ordering.eq ↦ some e | _ ↦ rest ]

-- A symbol of that name, if there is none.
unfoldable pub insert : Name → List Entry → List Entry
insert key [] = new_entry key ∷ []
insert key (e ∷ es) =
    let rest = insert key es in
    elim (name_order key e.name) [
      | Ordering.lt ↦ new_entry key ∷ e ∷ es
      | Ordering.eq ↦ e ∷ es
      | Ordering.gt ↦ e ∷ rest
    ]

unfoldable pub remove : Name → List Entry → List Entry
remove key [] = []
remove key (e ∷ es) =
    let rest = remove key es in elim (name_order key e.name) [ Ordering.eq ↦ es | _ ↦ e ∷ rest ]

pub All-append : (P : Entry → Type 0) (xs ys : List Entry) → All P xs → All P ys → All P (xs ++ ys)
All-append P [] ys h k = k
All-append P (x ∷ xs) ys (p, h) k = (p, All-append P xs ys h k)

pub All-left : (P : Entry → Type 0) (xs ys : List Entry) → All P (xs ++ ys) → All P xs
All-left P [] ys h = tt
All-left P (x ∷ xs) ys (p, h) = (p, All-left P xs ys h)

pub All-right : (P : Entry → Type 0) (xs ys : List Entry) → All P (xs ++ ys) → All P ys
All-right P [] ys h = h
All-right P (x ∷ xs) ys (p, h) = All-right P xs ys h

pub All-imp :
    (P Q : Entry → Type 0) → ((e : Entry) → P e → Q e) → (es : List Entry) → All P es → All Q es
All-imp P Q f [] h = tt
All-imp P Q f (e ∷ es) (p, h) = (f e p, All-imp P Q f es h)

-- What stands around one symbol of a sorted list.
pub around_one :
    (xs : List Entry) (e : Entry) (ys : List Entry)
    → IsSorted (xs ++ (e ∷ ys))
    → Below e.name xs × Above e.name ys
around_one [] e ys (above, s) = (tt, above)
around_one (x ∷ xs) e ys (above, s) =
    let (below, rest) = around_one xs e ys s in
    (((All-right (λ f. Before x.name f.name) xs (e ∷ ys) above).0, below), rest)

module _ (key : Name) where
  pub find_absent :
      (xs : List Entry) (ys : List Entry) → Below key xs → Above key ys → find key (xs ++ ys) ≡ none
  unfolding find
  find_absent [] [] b a = refl
  find_absent [] (y ∷ ys) b (p, a) = ground (arith, p, find_absent [] ys tt a)
  find_absent (x ∷ xs) ys (p, b) a = ground (arith, gt_of_lt x.name key p, find_absent xs ys b a)

  pub find_present :
      (xs : List Entry) (e : Entry) (ys : List Entry)
      → Below key xs
      → name_order key e.name ≡ Ordering.eq
      → find key (xs ++ (e ∷ ys)) ≡ some e
  unfolding find
  find_present [] e ys b h = ground (arith, h)
  find_present (x ∷ xs) e ys (p, b) h =
      ground (arith, gt_of_lt x.name key p, find_present xs e ys b h)

  pub insert_absent :
      (xs ys : List Entry)
      → Below key xs
      → Above key ys
      → insert key (xs ++ ys) ≡ xs ++ (new_entry key ∷ ys)
  unfolding insert
  insert_absent [] [] b a = refl
  insert_absent [] (y ∷ ys) b (p, a) = ground (arith, p)
  insert_absent (x ∷ xs) ys (p, b) a =
      ground (arith, gt_of_lt x.name key p, insert_absent xs ys b a)

  pub insert_present :
      (xs : List Entry) (e : Entry) (ys : List Entry)
      → Below key xs
      → name_order key e.name ≡ Ordering.eq
      → insert key (xs ++ (e ∷ ys)) ≡ xs ++ (e ∷ ys)
  unfolding insert
  insert_present [] e ys b h = ground (arith, h)
  insert_present (x ∷ xs) e ys (p, b) h =
      ground (arith, gt_of_lt x.name key p, insert_present xs e ys b h)

  pub remove_absent :
      (xs ys : List Entry) → Below key xs → Above key ys → remove key (xs ++ ys) ≡ xs ++ ys
  unfolding remove
  remove_absent [] [] b a = refl
  remove_absent [] (y ∷ ys) b (p, a) = ground (arith, p, remove_absent [] ys tt a)
  remove_absent (x ∷ xs) ys (p, b) a =
      ground (arith, gt_of_lt x.name key p, remove_absent xs ys b a)

  pub remove_present :
      (xs : List Entry) (e : Entry) (ys : List Entry)
      → Below key xs
      → name_order key e.name ≡ Ordering.eq
      → remove key (xs ++ (e ∷ ys)) ≡ xs ++ ys
  unfolding remove
  remove_present [] e ys b h = ground (arith, h)
  remove_present (x ∷ xs) e ys (p, b) h =
      ground (arith, gt_of_lt x.name key p, remove_present xs e ys b h)

pub IsSorted-without :
    (xs : List Entry) (e : Entry) (ys : List Entry)
    → IsSorted (xs ++ (e ∷ ys))
    → IsSorted (xs ++ ys)
IsSorted-without [] e ys (above, s) = s
IsSorted-without (x ∷ xs) e ys (above, s) = (
  All-append _ xs ys (All-left _ xs (e ∷ ys) above) (All-right _ xs (e ∷ ys) above).1,
  IsSorted-without xs e ys s,
)

pub IsSorted-with :
    (xs : List Entry) (e : Entry) (ys : List Entry)
    → IsSorted (xs ++ ys)
    → Below e.name xs
    → Above e.name ys
    → IsSorted (xs ++ (e ∷ ys))
IsSorted-with [] e ys s b a = (a, s)
IsSorted-with (x ∷ xs) e ys (above, s) (p, b) a = (
  All-append _ xs (e ∷ ys) (All-left _ xs ys above) (p, All-right _ xs ys above),
  IsSorted-with xs e ys s b a,
)
