-- ===== src/Symbols/Name.antt =====
-- The order of symbol names in nl-symbol.c: `str2cmp`, then `strcmp`.
-- A name is the list of its bytes, without the final 0.
use Prim.Native.Nat.{compare, Ordering}
use newlisp_neo.Prelude.{ℕ, ◌+◌, ◌*◌, ◌<◌, ◌≡◌, refl, List, [], ◌∷◌, arith}

abbrev pub Name : Type 0
Name = List ℕ

-- The first byte and the one behind it; the final 0 where the name is shorter. Of an empty name
-- the code reads a byte behind the final 0, which is taken to be 0 here.
unfoldable pub first_two : Name → ℕ
first_two [] = 0
first_two (a ∷ []) = a * 256
first_two (a ∷ b ∷ s) = a * 256 + b

-- The sign of `str2cmp(s1,s2)`.
unfoldable pub str2cmp : Name → Name → Ordering
unfolding first_two
str2cmp s t = compare (first_two s) (first_two t)

-- The C library's order of byte strings.
unfoldable pub strcmp : Name → Name → Ordering
strcmp [] [] = Ordering.eq
strcmp [] (b ∷ t) = Ordering.lt
strcmp (a ∷ s) [] = Ordering.gt
strcmp (a ∷ s) (b ∷ t) =
    let rest = strcmp s t in
    elim (compare a b) [
      | Ordering.eq ↦ rest
      | Ordering.lt ↦ Ordering.lt
      | Ordering.gt ↦ Ordering.gt
    ]

abbrev pub then : Ordering → Ordering → Ordering
then Ordering.eq second = second
then first _ = first

-- The sign of `c` after `(c = str2cmp(key, name)) == 0 && (c = strcmp(key, name)) == 0`.
unfoldable pub name_order : Name → Name → Ordering
unfolding str2cmp strcmp
name_order s t = then (str2cmp s t) (strcmp s t)

strcmp_refl : (s : Name) → strcmp s s ≡ Ordering.eq
unfolding strcmp
strcmp_refl [] = refl
strcmp_refl (a ∷ s) = ground (arith, strcmp_refl s)

eq_of_strcmp : (s t : Name) → strcmp s t ≡ Ordering.eq → s ≡ t
unfolding strcmp
eq_of_strcmp [] [] h = refl
eq_of_strcmp [] (b ∷ t) h = absurd (ground (arith, h))
eq_of_strcmp (a ∷ s) [] h = absurd (ground (arith, h))
eq_of_strcmp (a ∷ s) (b ∷ t) h = ground (arith, eq_of_strcmp s t)

strcmp_flip : (s t : Name) → strcmp s t ≡ Ordering.gt → strcmp t s ≡ Ordering.lt
unfolding strcmp
strcmp_flip [] [] h = absurd (ground (arith, h))
strcmp_flip [] (b ∷ t) h = absurd (ground (arith, h))
strcmp_flip (a ∷ s) [] h = refl
strcmp_flip (a ∷ s) (b ∷ t) h = ground (arith, strcmp_flip s t)

strcmp_flip' : (s t : Name) → strcmp s t ≡ Ordering.lt → strcmp t s ≡ Ordering.gt
unfolding strcmp
strcmp_flip' [] [] h = absurd (ground (arith, h))
strcmp_flip' [] (b ∷ t) h = refl
strcmp_flip' (a ∷ s) [] h = absurd (ground (arith, h))
strcmp_flip' (a ∷ s) (b ∷ t) h = ground (arith, strcmp_flip' s t)

strcmp_trans :
    (s t u : Name) → strcmp s t ≡ Ordering.lt → strcmp t u ≡ Ordering.lt → strcmp s u ≡ Ordering.lt
unfolding strcmp
strcmp_trans [] [] u h k = absurd (ground (arith, h))
strcmp_trans [] (b ∷ t) [] h k = absurd (ground (arith, k))
strcmp_trans [] (b ∷ t) (c ∷ u) h k = refl
strcmp_trans (a ∷ s) [] u h k = absurd (ground (arith, h))
strcmp_trans (a ∷ s) (b ∷ t) [] h k = absurd (ground (arith, k))
strcmp_trans (a ∷ s) (b ∷ t) (c ∷ u) h k = ground (arith, strcmp_trans s t u)

-- `s` stands before `t`.
abbrev pub Before : Name → Name → Type 0
Before s t = name_order s t ≡ Ordering.lt

pub name_order_refl : (s : Name) → name_order s s ≡ Ordering.eq
unfolding name_order
name_order_refl s = ground (arith, strcmp_refl s)

pub eq_of_name_order : (s t : Name) → name_order s t ≡ Ordering.eq → s ≡ t
unfolding name_order
eq_of_name_order s t h = ground (arith, eq_of_strcmp s t)

pub lt_of_gt : (s t : Name) → name_order s t ≡ Ordering.gt → Before t s
unfolding name_order
lt_of_gt s t h = ground (arith, strcmp_flip s t)

pub gt_of_lt : (s t : Name) → Before s t → name_order t s ≡ Ordering.gt
unfolding name_order
gt_of_lt s t h = ground (arith, strcmp_flip' s t)

pub Before-trans : (s t u : Name) → Before s t → Before t u → Before s u
unfolding name_order
Before-trans s t u h k = ground (arith, strcmp_trans s t u)

-- The bytes of a C string.
abbrev pub IsBytes : Name → Type 0
IsBytes [] = Unit
IsBytes (a ∷ s) = (0 < a) × (a < 256) × IsBytes s

-- On C strings that are not empty `str2cmp` decides as `strcmp` does, where it decides: the order of
-- their symbols is that of `strcmp`.
pub name_order-strcmp :
    (a b : ℕ) (s t : Name)
    → IsBytes (a ∷ s)
    → IsBytes (b ∷ t)
    → name_order (a ∷ s) (b ∷ t) ≡ strcmp (a ∷ s) (b ∷ t)
unfolding name_order strcmp str2cmp first_two
name_order-strcmp a b [] [] h k = ground arith
name_order-strcmp a b [] (b' ∷ t) h k = ground arith
name_order-strcmp a b (a' ∷ s) [] h k = ground arith
name_order-strcmp a b (a' ∷ s) (b' ∷ t) h k = ground arith
