-- ===== src/Symbols/Balance.antt =====
-- The red-black invariant of the tree of nl-symbol.c, and of a place in it.
pub mod Inserting
pub mod Deleting
use mathlib.Core.Path.{subst}
use newlisp_neo.Prelude.{
  ℕ, zero, suc, ◌+◌, ◌≡◌, refl, sym, ap, ◌∙◌, List, [], ◌∷◌, Option, none, some, arith,
}
use newlisp_neo.Symbols.Insert.{◌>>=◌}
use newlisp_neo.Symbols.Name.{Name, name_order}
use newlisp_neo.Symbols.Tree.{
  Color, black, red, Entry, Tree, leaf, node, Side, left, right, Crumb, Parents, attach, plug,
  color_of, paint, descend, Ordering_both,
}

abbrev pub weight : Color → ℕ
weight black = 1
weight red = 0

-- The black symbols on the way down the left side.
abbrev pub black_height : Tree → ℕ
black_height leaf = 0
black_height (node c l e r) = black_height l + weight c

abbrev pub IsBlack : Tree → Type 0
IsBlack t = color_of t ≡ black

-- No red symbol has a red child, and there are as many black ones on every way down.
abbrev pub Beside : Color → Tree → Type 0
Beside black t = Unit
Beside red t = IsBlack t

abbrev pub IsBalanced : Tree → Type 0
IsBalanced leaf = Unit
IsBalanced (node c l e r) =
    (black_height l ≡ black_height r) × Beside c l × Beside c r × IsBalanced l × IsBalanced r

abbrev pub IsRedBlack : Tree → Type 0
IsRedBlack t = IsBlack t × IsBalanced t

abbrev pub Good : Tree → ℕ → Type 0
Good t n = (black_height t ≡ n) × IsBalanced t

-- A place whose subtree has the color fits below these parents.
abbrev pub Allowed : Color → Parents → Type 0
Allowed black ps = Unit
Allowed red [] = ⊥
Allowed red (p ∷ ps) = p.color ≡ black

-- Parents around a place for a subtree of this black height.
abbrev pub Fits : Parents → ℕ → Type 0
Fits [] n = Unit
Fits (p ∷ ps) n =
    Good p.sibling n × Beside p.color p.sibling × Allowed p.color ps × Fits ps (n + weight p.color)

-- A partial operation that gives a result, and one with this property.
abbrev pub Gives : (Tree → Type 0) → Option Tree → Type 0
Gives P none = ⊥
Gives P (some t) = P t

pub attach-Good :
    (side : Side) (c : Color) (e : Entry) (s x : Tree) (n : ℕ)
    → Good x n
    → Good s n
    → Beside c x
    → Beside c s
    → Good (attach (record { side = side; color = c; entry = e; sibling = s }) x) (n + weight c)
attach-Good left c e s x n (h, b) (h', b') k k' = (omega arith, (omega arith, k, k', b, b'))
attach-Good right c e s x n (h, b) (h', b') k k' = (omega arith, (omega arith, k', k, b', b))

pub attach-Allowed :
    (side : Side) (c : Color) (e : Entry) (s x : Tree) (ps : Parents)
    → Allowed c ps
    → Allowed (color_of (attach (record { side = side; color = c; entry = e; sibling = s }) x)) ps
unfolding color_of
attach-Allowed left c e s x ps h = h
attach-Allowed right c e s x ps h = h

-- A subtree of a color that is allowed may hang below a parent.
pub Allowed-Beside :
    (c : Color) (t : Tree) (side : Side) (e : Entry) (s : Tree) (ps : Parents)
    → Allowed (color_of t) (record { side = side; color = c; entry = e; sibling = s } ∷ ps)
    → Beside c t
unfolding color_of
Allowed-Beside black t side e s ps h = tt
Allowed-Beside red leaf side e s ps h = refl
Allowed-Beside red (node black l f r) side e s ps h = refl
Allowed-Beside red (node red l f r) side e s ps h = h

root-IsBlack : (t : Tree) → Allowed (color_of t) [] → IsBlack t
unfolding color_of
root-IsBlack leaf h = refl
root-IsBlack (node black l e r) h = refl
root-IsBlack (node red l e r) h = absurd h

pub plug-IsRedBlack :
    (ps : Parents) (t : Tree) (n : ℕ)
    → Good t n
    → Fits ps n
    → Allowed (color_of t) ps
    → IsRedBlack (plug ps t)
unfolding plug
plug-IsRedBlack [] t n g f a = (root-IsBlack t a, g.1)
plug-IsRedBlack (p ∷ ps) t n g f a =
    plug-IsRedBlack ps (attach p t) (n + weight p.color)
      (attach-Good p.side p.color p.entry p.sibling t n g f.0
        (Allowed-Beside p.color t p.side p.entry p.sibling ps a) f.1)
      f.3 (attach-Allowed p.side p.color p.entry p.sibling t ps f.2)

pub paint-IsBlack : (t : Tree) → IsBlack (paint black t)
unfolding paint color_of
paint-IsBlack leaf = refl
paint-IsBlack (node c l e r) = refl

pub paint-IsBalanced : (t : Tree) → IsBalanced t → IsBalanced (paint black t)
unfolding paint
paint-IsBalanced leaf h = tt
paint-IsBalanced (node c l e r) (h, k, k', b, b') = (h, tt, tt, b, b')

pub Beside-Allowed :
    (c : Color) (t : Tree) (side : Side) (e : Entry) (s : Tree) (ps : Parents)
    → Beside c t
    → Allowed (color_of t) (record { side = side; color = c; entry = e; sibling = s } ∷ ps)
unfolding color_of
Beside-Allowed c leaf side e s ps h = tt
Beside-Allowed c (node black l f r) side e s ps h = tt
Beside-Allowed black (node red l f r) side e s ps h = refl
Beside-Allowed red (node red l f r) side e s ps h = h

-- A subtree that fits the place where it is.
abbrev pub Placed : Tree × Parents → Type 0
Placed (x, ps) = (n : ℕ) × Good x n × Fits ps n × Allowed (color_of x) ps

pub descend-Placed :
    (key : Name) (t : Tree) (ps : Parents) → Placed (t, ps) → Placed (descend key t ps)
unfolding descend color_of
descend-Placed key leaf ps h = h
descend-Placed key (node c l e r) ps (n, (height, (same, bl, br, hl, hr)), f, a) =
    let fits = subst (Fits ps) (sym height) f in
    Ordering_both Placed (name_order key e.name) (λ _. (n, (height, (same, bl, br, hl, hr)), f, a))
      (λ _. descend-Placed key l _ (
        black_height l,
        (refl, hl),
        ((sym same, hr), br, a, fits),
        Beside-Allowed c l left e r ps bl,
      ))
      (λ _. descend-Placed key r _ (
        black_height l,
        (sym same, hr),
        ((refl, hl), bl, a, fits),
        Beside-Allowed c r right e l ps br,
      ))

pub IsBlack-Allowed : (t : Tree) (ps : Parents) → IsBlack t → Allowed (color_of t) ps
unfolding color_of
IsBlack-Allowed leaf ps h = tt
IsBlack-Allowed (node black l e r) ps h = tt
IsBlack-Allowed (node red l e r) ps h = absurd (ground (arith, h))

pub Gives-bind :
    (P Q : Tree → Type 0) (o : Option Tree) (f : Tree → Option Tree)
    → Gives P o
    → ((t : Tree) → P t → Gives Q (f t))
    → Gives Q (o >>= f)
Gives-bind P Q none f h k = absurd h
Gives-bind P Q (some t) f h k = k t h

pub blackened : (t : Tree) → IsBalanced t → Gives IsRedBlack (some (paint black t))
blackened t h = (paint-IsBlack t, paint-IsBalanced t h)
