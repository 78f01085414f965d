-- ===== src/Symbols/Tree.antt =====
-- The tree of nl-symbol.c. A pointer to a symbol in it is the subtree there with the path from it up
-- to the root: the path is what the `parent` links lead through. NIL_SYM is `leaf`.
use Prim.Native.Nat.{Ordering}
use newlisp_neo.Prelude.{◌≡◌, refl, ℕ, List, [], ◌∷◌, ◌++◌, Option, none, some}
use newlisp_neo.Symbols.Name.{Name, name_order}

pub data Color : Type 0 where
  black red : Color

abbrev pub if_red : {A : Type 0} → Color → A → A → A
if_red red x y = x
if_red black x y = y

pub if_red_both :
    {A : Type 0} (P : A → Type 0) (c : Color) {x y : A}
    → (c ≡ red → P x)
    → (c ≡ black → P y)
    → P (if_red c x y)
if_red_both P red h k = h refl
if_red_both P black h k = k refl

pub Ordering_both :
    {A : Type 0} (P : A → Type 0) (o : Ordering) {x y z : A}
    → (o ≡ Ordering.eq → P x)
    → (o ≡ Ordering.lt → P y)
    → (o ≡ Ordering.gt → P z)
    → P (elim o [ Ordering.eq ↦ x | Ordering.lt ↦ y | Ordering.gt ↦ z ])
Ordering_both P Ordering.eq f g h = f refl
Ordering_both P Ordering.lt f g h = g refl
Ordering_both P Ordering.gt f g h = h refl

-- What a SYMBOL holds besides its links and its color.
pub record Entry : Type 0 where
  pub name : Name
  pub contents : ℕ

pub data Tree : Type 0 where
  leaf : Tree
  node : Color → Tree → Entry → Tree → Tree

pub data Side : Type 0 where
  left right : Side

-- The parent of a subtree that hangs on one side of it.
pub record Crumb : Type 0 where
  pub side : Side
  pub color : Color
  pub entry : Entry
  pub sibling : Tree

-- The innermost parent first.
abbrev pub Parents : Type 0
Parents = List Crumb

abbrev pub opposite : Side → Side
opposite left = right
opposite right = left

abbrev pub join : Side → Color → Tree → Entry → Tree → Tree
join left c x e s = node c x e s
join right c x e s = node c s e x

-- A subtree put back under its parent.
abbrev pub attach : Crumb → Tree → Tree
attach p x = join p.side p.color x p.entry p.sibling

unfoldable pub plug : Parents → Tree → Tree
plug [] t = t
plug (p ∷ ps) t = plug ps (attach p t)

-- The sentinel is black and stays so.
unfoldable pub color_of : Tree → Color
color_of leaf = black
color_of (node c l e r) = c

unfoldable pub paint : Color → Tree → Tree
paint c leaf = leaf
paint c (node d l e r) = node c l e r

-- The links that rotateLeft (`left`) or rotateRight changes in the subtree of `x`; the child that is
-- lifted must not be the sentinel, whose links are shared.
unfoldable pub rotate : Side → Tree → Option Tree
rotate left (node c a e (node d b f t)) = some (node d (node c a e b) f t)
rotate right (node c (node d a f b) e t) = some (node d a f (node c b e t))
rotate side t = none

-- The walk down to the symbol of a name, or to the leaf where it belongs.
unfoldable pub descend : Name → Tree → Parents → Tree × Parents
descend key leaf ps = (leaf, ps)
descend key (node c l e r) ps = elim (name_order key e.name) [
  | Ordering.eq ↦ (node c l e r, ps)
  | Ordering.lt ↦ descend key l (record { side = left; color = c; entry = e; sibling = r } ∷ ps)
  | Ordering.gt ↦ descend key r (record { side = right; color = c; entry = e; sibling = l } ∷ ps)
]

-- The tree of a context and `symbolCount`.
pub record Symbols : Type 0 where
  pub root : Tree
  pub symbol_count : ℕ

-- The symbols that `collectSymbols` lists, in its order.
unfoldable pub collect_symbols : Tree → List Entry
collect_symbols leaf = []
collect_symbols (node c l e r) = collect_symbols l ++ (e ∷ collect_symbols r)
