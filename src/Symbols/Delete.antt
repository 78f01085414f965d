-- ===== src/Symbols/Delete.antt =====
-- `deleteSymbol` and `deleteFixup` of nl-symbol.c.
use newlisp_neo.Prelude.{◌+◌, ◌-◌, ◌%◌, ◌^◌, Bool, true, false, [], ◌∷◌, Option, none, some}
use newlisp_neo.Symbols.Name.{Name}
use newlisp_neo.Symbols.Tree.{
  Color, if_red, black, red, Entry, Tree, leaf, node, Side, left, right, Crumb, Parents, opposite,
  join, attach, plug, color_of, paint, rotate, descend, Symbols,
}
use newlisp_neo.Symbols.Insert.{◌>>=◌}

-- How a round of the loop ends: `x` is the parent now, or it is the root.
pub data Round : Type 0 where
  climbed settled : Tree → Round

-- The child of `w` on the side of `x`, and the other one.
abbrev pub near : Side → Tree → Tree → Tree
near left l r = l
near right l r = r

abbrev pub far : Side → Tree → Tree → Tree
far left l r = r
far right l r = l

-- `if (w->right->color == BLACK)`, for `x` on the left: the near child of `w` is lifted.
unfoldable pub lift_near : Side → Tree → Option Tree
unfolding color_of paint rotate
lift_near side leaf = none
lift_near side (node c l e r) =
    if_red (color_of (far side l r)) (some (node c l e r))
      (rotate (opposite side) (join side red (paint black (near side l r)) e (far side l r)))

-- `w->color = x->parent->color`, and its far child turns black.
unfoldable pub take_color : Side → Color → Tree → Tree
unfolding paint
take_color side c leaf = leaf
take_color left c (node d l e r) = node c l e (paint black r)
take_color right c (node d l e r) = node c (paint black l) e r

-- The round once the sibling `w` is black.
unfoldable pub black_sibling : Tree → Crumb → Option Round
unfolding color_of lift_near take_color rotate
black_sibling x p =
    let settle = lift_near p.side p.sibling >>= λ w.
    rotate p.side (attach (record p { color = black; sibling = take_color p.side p.color w }) x)
    >>= λ t. some (settled t) in
    elim p.sibling [
      | leaf ↦ none
      | node c l e r ↦ if_red (color_of l) settle (
          if_red (color_of r) settle
            (some (climbed (attach (record p { sibling = node red l e r }) x))))
    ]

-- `w` is red: it turns black, the parent red, and `w` is rotated above the parent. `x` has a black
-- sibling then; if the round climbs, it is to the red parent, where the loop ends.
unfoldable pub red_sibling : Tree → Crumb → Parents → Option Tree
unfolding black_sibling paint plug
red_sibling x p ps = elim p.sibling [
  | leaf ↦ none
  | node c l e r ↦
      let top : Crumb = record {
        side = p.side;
        color = black;
        entry = e;
        sibling = far p.side l r;
      } in
      let parent = record p { color = red; sibling = near p.side l r } in
      black_sibling x parent >>= λ round. elim round [
        | climbed t ↦ some (plug (top ∷ ps) (paint black t))
        | settled t ↦ some (paint black (plug (top ∷ ps) t))
      ]
]

-- The two mirrored halves of the loop's body are one, by the side of `x`. Where `x` and its sibling
-- both are the sentinel the code takes `x` for the left child; the round fails on either side.
unfoldable pub delete_fixup : Tree → Parents → Option Tree
unfolding color_of paint plug red_sibling black_sibling
delete_fixup x [] = some (paint black x)
delete_fixup x (p ∷ ps) = if_red (color_of x) (some (plug (p ∷ ps) (paint black x))) (
    if_red (color_of p.sibling) (red_sibling x p ps) (elim (black_sibling x p) [
      | none ↦ none
      | some (climbed t) ↦ delete_fixup t ps
      | some (settled t) ↦ some (paint black (plug ps t))
    ]))

-- `y` leaves its place to its only child, or to a sentinel.
unfoldable pub splice : Color → Tree → Parents → Option Tree
unfolding delete_fixup plug
splice black x ps = delete_fixup x ps
splice red x ps = some (plug ps x)

-- `while (y->left != NIL_SYM) y = y->left`: the least symbol of a subtree that is no sentinel.
unfoldable pub least : Tree → Entry → Entry
least leaf e = e
least (node c l e r) _ = least l e

-- It is taken out of the subtree with these parents.
unfoldable pub splice_least : Color → Tree → Tree → Entry → Parents → Option Tree
unfolding splice
splice_least c leaf r e ps = splice c r ps
splice_least c (node d l f s) r e ps =
    splice_least d l s f (record { side = left; color = c; entry = e; sibling = r } ∷ ps)

-- The symbol found is taken out, or its successor, which takes its place and its color.
unfoldable pub remove_node : Color → Tree → Entry → Tree → Parents → Option Tree
unfolding splice splice_least least
remove_node c leaf e r ps = splice c r ps
remove_node c (node d a f b) e leaf ps = splice c (node d a f b) ps
remove_node c (node d a f b) e (node d' a' f' b') ps =
    splice_least d' a' b' f'
      (record { side = right; color = c; entry = least a' f'; sibling = node d a f b } ∷ ps)

-- The end of the walk: the tree without the symbol and 1, or 0 if there is none.
unfoldable pub delete_at : Symbols → Tree × Parents → Option (Symbols × Bool)
unfolding remove_node
delete_at s (leaf, ps) = some (s, false)
delete_at s (node c l e r, ps) = remove_node c l e r ps >>= λ t.
    some (record { root = t; symbol_count = (s.symbol_count + (2 ^ 64 - 1)) % 2 ^ 64 }, true)

unfoldable pub delete_symbol : Name → Symbols → Option (Symbols × Bool)
unfolding descend delete_at
delete_symbol key s = delete_at s (descend key s.root [])
