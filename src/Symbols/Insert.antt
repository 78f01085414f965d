-- ===== src/Symbols/Insert.antt =====
-- `findInsertSymbol` and `insertFixup` of nl-symbol.c.
use newlisp_neo.Prelude.{◌+◌, ◌%◌, ◌^◌, Bool, [], ◌∷◌, Option, none, some, if◌then◌else◌}
use newlisp_neo.Symbols.Name.{Name}
use newlisp_neo.Symbols.Tree.{
  if_red, black, red, Entry, Tree, leaf, node, Side, left, right, Crumb, Parents, opposite, attach,
  plug, color_of, paint, rotate, descend, Symbols,
}

infixl 5 ◌>>=◌
abbrev pub ◌>>=◌ : {A B : Type 0} → Option A → (A → Option B) → Option B
none >>= f = none
some a >>= f = f a

-- "uncle is RED": both children of the grandparent turn black, and it turns red.
unfoldable pub recolor : Tree → Crumb → Crumb → Tree
unfolding paint
recolor x p g =
    attach (record g { color = red; sibling = paint black g.sibling })
      (attach (record p { color = black }) x)

-- "make x a left child" (or a right one): the parent and `x` change places if `x` is an inner
-- grandchild. The parent's new subtree.
unfoldable pub straighten : Tree → Crumb → Side → Option Tree
unfolding rotate
straighten x p side = elim p.side [
  | left ↦ elim side [ left ↦ some (attach p x) | right ↦ rotate right (attach p x) ]
  | right ↦ elim side [ left ↦ rotate left (attach p x) | right ↦ some (attach p x) ]
]

-- "uncle is BLACK": "recolor and rotate".
unfoldable pub rebalance : Tree → Crumb → Crumb → Option Tree
unfolding straighten rotate paint
rebalance x p g = straighten x p g.side >>= λ y.
    rotate (opposite g.side) (attach (record g { color = red }) (paint black y))

-- The two mirrored halves of the loop's body are one, by the side of the parent. `none` stands for
-- a link of NULL or of the sentinel that is followed.
unfoldable pub insert_fixup : Tree → Parents → Option Tree
unfolding recolor rebalance color_of paint plug
insert_fixup x [] = some (paint black x)
insert_fixup x (p ∷ []) = if_red p.color none (some (paint black (attach p x)))
insert_fixup x (p ∷ g ∷ ps) =
    if_red p.color
      (if_red (color_of g.sibling) (insert_fixup (recolor x p g) ps)
        (rebalance x p g >>= λ t. some (paint black (plug ps t))))
      (some (paint black (plug (p ∷ g ∷ ps) x)))

-- A new symbol: the memory is cleared, and the callers enter the name.
abbrev pub new_entry : Name → Entry
new_entry key = record { name = key; contents = 0 }

-- The end of the walk: a found symbol, a new one, or NULL if none is to be made.
unfoldable pub insert_at : Name → Bool → Symbols → Tree × Parents → Option (Symbols × Option Entry)
unfolding insert_fixup
insert_at key force_creation s (node c l e r, ps) = some (s, some e)
insert_at key force_creation s (leaf, ps) =
    let created = insert_fixup (node red leaf (new_entry key) leaf) ps >>= λ t.
    some
      (record { root = t; symbol_count = (s.symbol_count + 1) % 2 ^ 64 }, some (new_entry key)) in
    if force_creation then created else some (s, none)

unfoldable pub find_insert_symbol : Name → Bool → Symbols → Option (Symbols × Option Entry)
unfolding descend insert_at
find_insert_symbol key force_creation s = insert_at key force_creation s (descend key s.root [])
