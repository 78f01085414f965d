-- ===== src/Symbols/Balance/Deleting.antt =====
-- deleteFixup of nl-symbol.c and the red-black invariant.
use mathlib.Core.Path.{subst}
use newlisp_neo.Prelude.{ℕ, ◌+◌, ◌≡◌, refl, sym, ◌∙◌, [], ◌∷◌, Option, none, some, arith}
use newlisp_neo.Symbols.Tree.{
  Color, if_red_both, black, red, Entry, Tree, leaf, node, Side, left, right, Crumb, Parents, plug,
  color_of, paint, rotate,
}
use newlisp_neo.Symbols.Insert.{◌>>=◌}
use newlisp_neo.Symbols.Delete.{
  Round, climbed, settled, near, far, lift_near, take_color, black_sibling, red_sibling,
  delete_fixup,
}
use newlisp_neo.Symbols.Balance.{
  weight, IsBlack, Beside, IsRedBlack, Good, Allowed, Fits, Gives, plug-IsRedBlack, paint-IsBlack,
  Beside-Allowed, IsBlack-Allowed, blackened,
}

-- How a round leaves the subtree of the parent, whose color was `c` and stays it: one black symbol
-- short, unless that color is red and turns black; or repaired.
abbrev Mended : ℕ → Color → Option Round → Type 0
Mended n c none = ⊥
Mended n c (some (climbed t)) = Good (paint black t) (n + 1) × (color_of t ≡ c)
Mended n c (some (settled t)) = Good t (n + 1 + weight c) × (color_of t ≡ c)

-- `x` is one black symbol short beside a black sibling, which is no leaf then.
black_sibling-Mended :
    (side : Side) (c : Color) (e : Entry) (x l : Tree) (f : Entry) (r : Tree) (n : ℕ)
    → Good x n
    → IsBlack x
    → Good (node black l f r) (n + 1)
    → Mended n c
        (black_sibling x (record { side = side; color = c; entry = e; sibling = node black l f r }))
unfolding black_sibling lift_near take_color rotate paint color_of
black_sibling-Mended left c e x leaf f leaf n g b w = ground arith
black_sibling-Mended left c e x leaf f (node black p h q) n g b w = ground arith
black_sibling-Mended left c e x leaf f (node red p h q) n g b w = ground arith
black_sibling-Mended left c e x (node black p h q) f leaf n g b w = ground arith
black_sibling-Mended left c e x (node black p h q) f (node black p' h' q') n g b w = ground arith
black_sibling-Mended left c e x (node black p h q) f (node red p' h' q') n g b w = ground arith
black_sibling-Mended left c e x (node red p h q) f leaf n g b w = ground arith
black_sibling-Mended left c e x (node red p h q) f (node black p' h' q') n g b w = ground arith
black_sibling-Mended left c e x (node red p h q) f (node red p' h' q') n g b w = ground arith
black_sibling-Mended right c e x leaf f leaf n g b w = ground arith
black_sibling-Mended right c e x leaf f (node black p h q) n g b w = ground arith
black_sibling-Mended right c e x leaf f (node red p h q) n g b w = ground arith
black_sibling-Mended right c e x (node black p h q) f leaf n g b w = ground arith
black_sibling-Mended right c e x (node black p h q) f (node black p' h' q') n g b w = ground arith
black_sibling-Mended right c e x (node black p h q) f (node red p' h' q') n g b w = ground arith
black_sibling-Mended right c e x (node red p h q) f leaf n g b w = ground arith
black_sibling-Mended right c e x (node red p h q) f (node black p' h' q') n g b w = ground arith
black_sibling-Mended right c e x (node red p h q) f (node red p' h' q') n g b w = ground arith

-- A subtree one black symbol short at a place for this height, unless it is red and turns black.
abbrev pub Short : Color → Tree → ℕ → Type 0
Short red t n = Good (paint black t) n
Short black t n = (m : ℕ) × (n ≡ m + 1) × Good t m

paint_black : (t : Tree) → IsBlack t → paint black t ≡ t
unfolding paint color_of
paint_black leaf h = refl
paint_black (node black l e r) h = refl
paint_black (node red l e r) h = absurd (ground (arith, h))

-- The subtree of the parent after a round that climbs.
climbed-Short :
    (c : Color) (t : Tree) (n : ℕ)
    → Good (paint black t) (n + 1)
    → color_of t ≡ c
    → Short c t (n + 1 + weight c)
climbed-Short red t n g e = (g.0 ∙ (omega arith), g.1)
climbed-Short black t n g e = (n + 1, refl, subst (λ x. Good x (n + 1)) (paint_black t e) g)

black_round :
    (s : Side) (c : Color) (e : Entry) (x w : Tree) (n : ℕ)
    → IsBlack x
    → IsBlack w
    → Good x n
    → Good w (n + 1)
    → Mended n c (black_sibling x (record { side = s; color = c; entry = e; sibling = w }))
unfolding color_of
black_round s c e x leaf n b bw g gw = absurd (omega arith)
black_round s c e x (node red l h r) n b bw g gw = absurd (ground (arith, bw))
black_round s c e x (node black l h r) n b bw g gw = black_sibling-Mended s c e x l h r n g b gw

-- The loop's step over a black sibling.
after_black :
    (p : Crumb) (ps : Parents) (n : ℕ) (o : Option Round)
    → Mended n p.color o
    → Allowed p.color ps
    → Fits ps (n + 1 + weight p.color)
    → ((t : Tree)
        → color_of t ≡ p.color
        → Short p.color t (n + 1 + weight p.color)
        → Gives IsRedBlack (delete_fixup t ps))
    → Gives IsRedBlack (elim o [
      | none ↦ none
      | some (climbed t) ↦ delete_fixup t ps
      | some (settled t) ↦ some (paint black (plug ps t))
    ])
after_black p ps n none h a f up = absurd h
after_black p ps n (some (climbed t)) (h, q) a f up = up t q (climbed-Short p.color t n h q)
after_black p ps n (some (settled t)) (h, q) a f up =
    blackened _ (plug-IsRedBlack ps t _ h f (subst (λ d. Allowed d ps) (sym q) a)).1

-- The sibling as the new parent of the old one.
abbrev top : Side → Entry → Tree → Crumb
top s e w = record { side = s; color = black; entry = e; sibling = w }

-- The round over a red sibling ends the loop: the parent is black.
after_red :
    (s : Side) (e : Entry) (x w : Tree) (ps : Parents) (n : ℕ)
    → IsBlack x
    → color_of w ≡ red
    → Good x n
    → Good w (n + 1)
    → Fits ps (n + 1 + 1)
    → Gives IsRedBlack
        (red_sibling x (record { side = s; color = black; entry = e; sibling = w }) ps)
unfolding red_sibling
after_red s e x leaf ps n b bw g gw f = absurd (omega arith)
after_red s e x (node black l h r) ps n b bw g gw f = absurd (unfold color_of in ground (arith, bw))
after_red s e x (node red l h r) ps n b bw g (height, (same, bl, br, gl, gr)) f =
    rounds s (sides s).2
      (black_sibling x (record { side = s; color = red; entry = e; sibling = near s l r }))
      (black_round s red e x (near s l r) n b (sides s).1 g (sides s).0)
  where
    sides : (s : Side) → Good (near s l r) (n + 1) × IsBlack (near s l r) × Good (far s l r) (n + 1)
    sides left = ((omega arith, gl), bl, (omega arith, gr))
    sides right = ((omega arith, gr), br, (omega arith, gl))

    rounds :
        (s : Side)
        → Good (far s l r) (n + 1)
        → (o : Option Round) → Mended n red o
        → Gives IsRedBlack (
            o >>= λ round. elim round [
              | climbed t ↦ some (plug (top s h (far s l r) ∷ ps) (paint black t))
              | settled t ↦ some (paint black (plug (top s h (far s l r) ∷ ps) t))
            ])
    rounds s gf none q = absurd q
    rounds s gf (some (climbed t)) (q, c) =
        plug-IsRedBlack (top s h (far s l r) ∷ ps) (paint black t) (n + 1) q (gf, tt, tt, f)
          (IsBlack-Allowed (paint black t) (top s h (far s l r) ∷ ps) (paint-IsBlack t))
    rounds s gf (some (settled t)) (q, c) =
        blackened _
          (plug-IsRedBlack (top s h (far s l r) ∷ ps) t (n + 1) (subst (Good t) (omega arith) q)
            (gf, tt, tt, f) (Beside-Allowed black t s h (far s l r) ps tt)).1

-- A red sibling's parent is black.
red_round :
    (s : Side) (c : Color) (e : Entry) (x w : Tree) (ps : Parents) (n : ℕ)
    → IsBlack x
    → color_of w ≡ red
    → Beside c w
    → Good x n
    → Good w (n + 1)
    → Fits ps (n + 1 + weight c)
    → Gives IsRedBlack (red_sibling x (record { side = s; color = c; entry = e; sibling = w }) ps)
red_round s red e x w ps n b bw bp g gw f = absurd (ground (arith, bw, bp))
red_round s black e x w ps n b bw bp g gw f = after_red s e x w ps n b bw g gw f

pub delete_fixup-IsRedBlack :
    (x : Tree) (ps : Parents) (n : ℕ) (c : Color)
    → color_of x ≡ c
    → Short c x n
    → Fits ps n
    → Gives IsRedBlack (delete_fixup x ps)
unfolding delete_fixup
delete_fixup-IsRedBlack x [] n red q g f = (paint-IsBlack x, g.1)
delete_fixup-IsRedBlack x [] n black q (m, _, g) f = blackened x g.1
delete_fixup-IsRedBlack x (p ∷ ps) n red q g f =
    if_red_both (Gives IsRedBlack) (color_of x)
      (λ _.
        plug-IsRedBlack (p ∷ ps) (paint black x) n g f
          (IsBlack-Allowed (paint black x) (p ∷ ps) (paint-IsBlack x)))
      (λ k. absurd (ground (arith, k, q)))
delete_fixup-IsRedBlack x (p ∷ ps) n black q (m, up, g) (gs, bp, a, f) =
    let gw = subst (Good p.sibling) up gs in
    let f' = subst (λ k. Fits ps (k + weight p.color)) up f in
    if_red_both (Gives IsRedBlack) (color_of x) (λ k. absurd (ground (arith, k, q)))
      (λ _.
        if_red_both (Gives IsRedBlack) (color_of p.sibling)
          (λ h. red_round p.side p.color p.entry x p.sibling ps m q h bp g gw f')
          (λ h.
            after_black p ps m (black_sibling x p)
              (black_round p.side p.color p.entry x p.sibling m q h g gw) a f'
              λ t k g'. delete_fixup-IsRedBlack t ps (m + 1 + weight p.color) p.color k g' f'))
