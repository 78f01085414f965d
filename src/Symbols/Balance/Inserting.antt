-- ===== src/Symbols/Balance/Inserting.antt =====
-- insertFixup of nl-symbol.c and the red-black invariant.
use mathlib.Core.Path.{subst}
use newlisp_neo.Prelude.{ℕ, ◌+◌, ◌≡◌, refl, sym, ◌∙◌, [], ◌∷◌, some, arith}
use newlisp_neo.Symbols.Tree.{
  Color, if_red_both, black, red, Entry, Tree, leaf, node, Side, left, right, Crumb, Parents, plug,
  color_of, paint, rotate,
}
use newlisp_neo.Symbols.Insert.{recolor, straighten, rebalance, insert_fixup}
use newlisp_neo.Symbols.Balance.{
  IsBlack, Beside, IsRedBlack, Good, Allowed, Fits, Gives, attach-Good, plug-IsRedBlack,
  Beside-Allowed, IsBlack-Allowed, Gives-bind, blackened,
}

-- A subtree that takes the place of a black one of this height.
abbrev Restored : ℕ → Tree → Type 0
Restored n t = Good t (n + 1) × IsBlack t

-- The parent is red and the grandparent black.
module _ (n : ℕ) (pe ge : Entry) (ps' gs : Tree) where
  abbrev parent : Side → Crumb
  parent s = record { side = s; color = red; entry = pe; sibling = ps' }

  abbrev grandparent : Side → Crumb
  grandparent s = record { side = s; color = black; entry = ge; sibling = gs }

  rebalance-Restored :
      (s t : Side) (a : Tree) (e : Entry) (b : Tree)
      → Good (node red a e b) n
      → Good ps' n
      → IsBlack ps'
      → Good gs n
      → IsBlack gs
      → Gives (Restored n) (rebalance (node red a e b) (parent s) (grandparent t))
  unfolding rebalance straighten rotate paint color_of
  rebalance-Restored left left a e b x p bp g bg = ground arith
  rebalance-Restored left right a e b x p bp g bg = ground arith
  rebalance-Restored right left a e b x p bp g bg = ground arith
  rebalance-Restored right right a e b x p bp g bg = ground arith

abbrev IsRed : Tree → Type 0
IsRed t = color_of t ≡ red

recolor-IsRed :
    (x : Tree) (p : Crumb) (side : Side) (c : Color) (e : Entry) (s : Tree)
    → IsRed (recolor x p (record { side = side; color = c; entry = e; sibling = s }))
unfolding recolor color_of
recolor-IsRed x p left c e s = refl
recolor-IsRed x p right c e s = refl

-- Both the parent and the uncle are red.
recolor-Good :
    (x : Tree) (n : ℕ) (pe ge : Entry) (ps' u : Tree) (s t : Side)
    → Good x n
    → Good ps' n
    → Good u n
    → IsRed u
    → Good (recolor x (parent n pe ge ps' u s) (grandparent n pe ge ps' u t)) (n + 1)
unfolding recolor paint color_of
recolor-Good x n pe ge ps' leaf s t x' p' u' h = absurd (ground (arith, h))
recolor-Good x n pe ge ps' (node black a e b) s t x' p' u' h = absurd (ground (arith, h))
recolor-Good x n pe ge ps' (node red a e b) left left x' p' u' h = ground arith
recolor-Good x n pe ge ps' (node red a e b) left right x' p' u' h = ground arith
recolor-Good x n pe ge ps' (node red a e b) right left x' p' u' h = ground arith
recolor-Good x n pe ge ps' (node red a e b) right right x' p' u' h = ground arith

rebalance_lem :
    (x : Tree) (n : ℕ) (pe ge : Entry) (ps' gs : Tree) (s t : Side)
    → IsRed x
    → Good x n
    → Good ps' n
    → IsBlack ps'
    → Good gs n
    → IsBlack gs
    → Gives (Restored n) (rebalance x (parent n pe ge ps' gs s) (grandparent n pe ge ps' gs t))
unfolding color_of
rebalance_lem leaf n pe ge ps' gs s t r = absurd (ground (arith, r))
rebalance_lem (node black a e b) n pe ge ps' gs s t r = absurd (ground (arith, r))
rebalance_lem (node red a e b) n pe ge ps' gs s t r = rebalance-Restored n pe ge ps' gs s t a e b

-- One round of the loop, the parents in parts, and the rounds that follow it.
round_lem :
    (x : Tree) (n : ℕ) (s : Side) (pe : Entry) (ps' : Tree) (t : Side) (ge : Entry) (gs : Tree)
    (ps : Parents) (pc gc : Color)
    → let p : Crumb = record { side = s; color = pc; entry = pe; sibling = ps' } in
      let g : Crumb = record { side = t; color = gc; entry = ge; sibling = gs } in
      IsRed x
      → Good x n
      → Fits (p ∷ g ∷ ps) n
      → ((y : Tree)
          → IsRed y
          → Good y (n + 1)
          → Fits ps (n + 1)
          → Gives IsRedBlack (insert_fixup y ps))
      → Gives IsRedBlack (insert_fixup x (p ∷ g ∷ ps))
unfolding insert_fixup
round_lem x n s pe ps' t ge gs ps black gc r g f up =
    let g' : Crumb = record { side = t; color = gc; entry = ge; sibling = gs } in
    blackened _
      (plug-IsRedBlack (record { side = s; color = black; entry = pe; sibling = ps' } ∷ g' ∷ ps) x n
        g f (Beside-Allowed black x s pe ps' (g' ∷ ps) tt)).1
round_lem x n s pe ps' t ge gs ps red red r g f up = absurd (ground (arith, f.2))
round_lem x n s pe ps' t ge gs ps red black r g (p, bp, _, (u, _, _, f)) up =
    let same : n + 0 ≡ n = omega arith in
    let uncle : Good gs n = (u.0 ∙ same, u.1) in
    let fits = subst (λ k. Fits ps (k + 1)) same f in
    if_red_both (Gives IsRedBlack) (color_of gs)
      (λ h.
        up _ (recolor-IsRed x (parent n pe ge ps' gs s) t black ge gs)
          (recolor-Good x n pe ge ps' gs s t g p uncle h) fits)
      (λ h.
        Gives-bind (Restored n) IsRedBlack
          (rebalance x (parent n pe ge ps' gs s) (grandparent n pe ge ps' gs t))
          (λ y. some (paint black (plug ps y)))
          (rebalance_lem x n pe ge ps' gs s t r g p bp uncle h)
          λ y k. blackened _ (plug-IsRedBlack ps y (n + 1) k.0 fits (IsBlack-Allowed y ps k.1)).1)

pub insert_fixup-IsRedBlack :
    (x : Tree) (ps : Parents) (n : ℕ)
    → IsRed x
    → Good x n
    → Fits ps n
    → Gives IsRedBlack (insert_fixup x ps)
insert_fixup-IsRedBlack x [] n r g f = unfold insert_fixup in blackened x g.1
insert_fixup-IsRedBlack x (p ∷ []) n r g f =
    unfold insert_fixup in
    if_red_both (Gives IsRedBlack) p.color (λ h. subst (λ c. Allowed c []) h f.2)
      (λ h.
        blackened _
          (attach-Good p.side p.color p.entry p.sibling x n g f.0
            (subst (λ c. Beside c x) (sym h) tt) f.1).1)
insert_fixup-IsRedBlack x (p ∷ g ∷ ps) n r k f =
    round_lem x n p.side p.entry p.sibling g.side g.entry g.sibling ps p.color g.color r k f
      λ y r' k' f'. insert_fixup-IsRedBlack y ps (n + 1) r' k' f'
