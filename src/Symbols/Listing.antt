-- ===== src/Symbols/Listing.antt =====
-- The symbols of a tree of nl-symbol.c in their order, before and after insertFixup.
pub mod Deletion
use mathlib.Core.Path.{subst}
use newlisp_neo.Prelude.{
  ◌≡◌, refl, sym, ap, ap₂, ◌∙◌, List, [], ◌∷◌, ◌++◌, append-nil, append_assoc, Option, none, some,
  arith,
}
use newlisp_neo.Symbols.Tree.{
  Color, if_red_both, black, red, Entry, Tree, leaf, node, Side, left, right, Crumb, Parents,
  opposite, join, attach, plug, color_of, paint, rotate, collect_symbols,
}
use newlisp_neo.Symbols.Insert.{◌>>=◌, recolor, straighten, rebalance, insert_fixup}

-- What is listed before a subtree with these parents, and behind it.
unfoldable pub listed_before : Parents → List Entry
listed_before [] = []
listed_before (p ∷ ps) = elim p.side [
  | left ↦ listed_before ps
  | right ↦ listed_before ps ++ (collect_symbols p.sibling ++ (p.entry ∷ []))
]

unfoldable pub listed_behind : Parents → List Entry
listed_behind [] = []
listed_behind (p ∷ ps) = elim p.side [
  | left ↦ (p.entry ∷ collect_symbols p.sibling) ++ listed_behind ps
  | right ↦ listed_behind ps
]

-- All that is listed, with these symbols in the place of the subtree.
abbrev pub around : Parents → List Entry → List Entry
around ps es = listed_before ps ++ (es ++ listed_behind ps)

pub ruleset laws = (append_assoc, append-nil)

abbrev pub SameListing : Tree → Tree → Type 0
SameListing s t = collect_symbols s ≡ collect_symbols t

pub attach_lists :
    (side : Side) (c : Color) (e : Entry) (s : Tree) (ps : Parents) (t : Tree)
    → let p : Crumb = record { side = side; color = c; entry = e; sibling = s } in
      around ps (collect_symbols (attach p t)) ≡ around (p ∷ ps) (collect_symbols t)
unfolding listed_before listed_behind collect_symbols
attach_lists left c e s ps t = simp laws
attach_lists right c e s ps t = simp laws

pub collect_symbols-plug :
    (ps : Parents) (t : Tree) → collect_symbols (plug ps t) ≡ around ps (collect_symbols t)
unfolding plug listed_before listed_behind
collect_symbols-plug [] t = simp laws
collect_symbols-plug (p ∷ ps) t =
    collect_symbols-plug ps (attach p t) ∙ attach_lists p.side p.color p.entry p.sibling ps t

pub collect_symbols-paint : (c : Color) (t : Tree) → SameListing (paint c t) t
unfolding paint collect_symbols
collect_symbols-paint c leaf = refl
collect_symbols-paint c (node d l e r) = refl

-- Whatever a partial operation gives lists these symbols.
abbrev pub Lists : List Entry → Option Tree → Type 0
Lists es none = Unit
Lists es (some t) = collect_symbols t ≡ es

collect_symbols-rotate : (side : Side) (t : Tree) → Lists (collect_symbols t) (rotate side t)
unfolding rotate collect_symbols
collect_symbols-rotate left (node c a e (node d b f t)) = simp laws
collect_symbols-rotate right (node c (node d a f b) e t) = simp laws
collect_symbols-rotate left leaf = tt
collect_symbols-rotate right leaf = tt
collect_symbols-rotate left (node c a e leaf) = tt
collect_symbols-rotate right (node c leaf e t) = tt

pub Lists-bind :
    (es es' : List Entry) (o : Option Tree) (f : Tree → Option Tree)
    → Lists es o
    → ((t : Tree) → collect_symbols t ≡ es → Lists es' (f t))
    → Lists es' (o >>= f)
Lists-bind es es' none f h k = tt
Lists-bind es es' (some t) f h k = k t h

pub join_same :
    (side : Side) (c c' : Color) (e : Entry) (x x' s s' : Tree)
    → SameListing x x'
    → SameListing s s'
    → SameListing (join side c x e s) (join side c' x' e s')
unfolding collect_symbols
join_same left c c' e x x' s s' h k = ap₂ (λ a b. a ++ (e ∷ b)) h k
join_same right c c' e x x' s s' h k = ap₂ (λ a b. a ++ (e ∷ b)) k h

pub same : (t : Tree) → SameListing t t
same t = refl

pub Lists-rotate :
    (side : Side) (es : List Entry) (t : Tree) → collect_symbols t ≡ es → Lists es (rotate side t)
Lists-rotate side es t h = subst (λ l. Lists l (rotate side t)) h (collect_symbols-rotate side t)

-- The end of both loops: the root turns black.
pub blacken_root :
    (ps : Parents) (t : Tree)
    → collect_symbols (paint black (plug ps t)) ≡ around ps (collect_symbols t)
blacken_root ps t = collect_symbols-paint black (plug ps t) ∙ collect_symbols-plug ps t

pub around-attach :
    (p : Crumb) (ps : Parents) (x t : Tree)
    → SameListing t (attach p x)
    → around ps (collect_symbols t) ≡ around (p ∷ ps) (collect_symbols x)
around-attach p ps x t h = ap (around ps) h ∙ attach_lists p.side p.color p.entry p.sibling ps x

module _ (x : Tree) (p : Crumb) where
  Lists-straighten : (side : Side) → Lists (collect_symbols (attach p x)) (straighten x p side)
  unfolding straighten
  Lists-straighten side = straightened p.side side
    where
      straightened :
          (s side : Side)
          → Lists (collect_symbols (attach p x)) (elim s [
            | left ↦ elim side [ left ↦ some (attach p x) | right ↦ rotate right (attach p x) ]
            | right ↦ elim side [ left ↦ rotate left (attach p x) | right ↦ some (attach p x) ]
          ])
      straightened left left = refl
      straightened left right = collect_symbols-rotate right (attach p x)
      straightened right left = collect_symbols-rotate left (attach p x)
      straightened right right = refl

  module _ (g : Crumb) where
    recolor_same : SameListing (recolor x p g) (attach g (attach p x))
    unfolding recolor
    recolor_same =
        join_same g.side red g.color g.entry _ _ _ _
          (join_same p.side black p.color p.entry _ _ _ _ (same x) (same p.sibling))
          (collect_symbols-paint black g.sibling)

    Lists-rebalance : Lists (collect_symbols (attach g (attach p x))) (rebalance x p g)
    unfolding rebalance
    Lists-rebalance = Lists-bind _ _ (straighten x p g.side) _ (Lists-straighten g.side) λ t h.
        Lists-rotate (opposite g.side) _ _ (
          join_same g.side red g.color g.entry _ _ _ _ (collect_symbols-paint black t ∙ h)
            (same g.sibling))

-- insertFixup keeps the listing.
pub Lists-insert_fixup :
    (x : Tree) (ps : Parents) → Lists (around ps (collect_symbols x)) (insert_fixup x ps)
unfolding insert_fixup listed_before listed_behind
Lists-insert_fixup x [] = blacken_root [] x
Lists-insert_fixup x (p ∷ []) =
    if_red_both (Lists (around (p ∷ []) (collect_symbols x))) p.color (λ _. tt)
      (λ _. blacken_root (p ∷ []) x)
Lists-insert_fixup x (p ∷ g ∷ ps) =
    let P = Lists (around (p ∷ g ∷ ps) (collect_symbols x)) in
    let up : (t : Tree)
        → SameListing t (attach g (attach p x))
        → around ps (collect_symbols t) ≡ around (p ∷ g ∷ ps) (collect_symbols x) =
      λ t h. around-attach g ps (attach p x) t h ∙ around-attach p (g ∷ ps) x (attach p x) refl in
    if_red_both P p.color
      (λ _.
        if_red_both P (color_of g.sibling)
          (λ _.
            subst (λ l. Lists l (insert_fixup (recolor x p g) ps))
              (up (recolor x p g) (recolor_same x p g)) (Lists-insert_fixup (recolor x p g) ps))
          (λ _.
            Lists-bind _ _ (rebalance x p g) _ (Lists-rebalance x p g)
              λ t h. blacken_root ps t ∙ up t h))
      (λ _. blacken_root (p ∷ g ∷ ps) x)
