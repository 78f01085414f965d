-- ===== src/Symbols/Listing/Deletion.antt =====
-- The symbols of a tree of nl-symbol.c in their order, before and after deleteFixup.
use mathlib.Core.Path.{subst}
use newlisp_neo.Prelude.{◌≡◌, refl, sym, ap, ◌∙◌, List, [], ◌∷◌, ◌++◌, Option, none, some}
use newlisp_neo.Symbols.Tree.{
  Color, if_red_both, black, red, Entry, Tree, leaf, node, Side, left, right, Crumb, Parents,
  attach, plug, color_of, paint, collect_symbols,
}
use newlisp_neo.Symbols.Insert.{◌>>=◌}
use newlisp_neo.Symbols.Delete.{
  Round, climbed, settled, near, far, lift_near, take_color, black_sibling, red_sibling,
  delete_fixup, splice,
}
use newlisp_neo.Symbols.Listing.{
  around, laws, SameListing, Lists, Lists-rotate, join_same, same, collect_symbols-paint,
  collect_symbols-plug, blacken_root, around-attach,
}

lift_near-Lists : (side : Side) (w : Tree) → Lists (collect_symbols w) (lift_near side w)
unfolding lift_near
lift_near-Lists side leaf = tt
lift_near-Lists left (node c l e r) =
    if_red_both (Lists (collect_symbols (node c l e r))) (color_of r) (λ _. refl)
      (λ _.
        Lists-rotate right _ _
          (join_same left red c e _ _ _ _ (collect_symbols-paint black l) (same r)))
lift_near-Lists right (node c l e r) =
    if_red_both (Lists (collect_symbols (node c l e r))) (color_of l) (λ _. refl)
      (λ _.
        Lists-rotate left _ _
          (join_same right red c e _ _ _ _ (collect_symbols-paint black r) (same l)))

take_color_same : (side : Side) (c : Color) (w : Tree) → SameListing (take_color side c w) w
unfolding take_color collect_symbols
take_color_same left c leaf = refl
take_color_same right c leaf = refl
take_color_same left c (node d l e r) =
    ap (λ k. collect_symbols l ++ (e ∷ k)) (collect_symbols-paint black r)
take_color_same right c (node d l e r) =
    ap (λ k. k ++ (e ∷ collect_symbols r)) (collect_symbols-paint black l)

-- What a round leaves at the parent's place lists these symbols.
abbrev RoundLists : List Entry → Option Round → Type 0
RoundLists es none = Unit
RoundLists es (some (climbed t)) = collect_symbols t ≡ es
RoundLists es (some (settled t)) = collect_symbols t ≡ es

settled_Lists :
    (es : List Entry) (o : Option Tree) → Lists es o → RoundLists es (o >>= λ t. some (settled t))
settled_Lists es none h = tt
settled_Lists es (some t) h = h

bind_Lists :
    (es es' : List Entry) (o : Option Tree) (f : Tree → Option Round)
    → Lists es o
    → ((t : Tree) → collect_symbols t ≡ es → RoundLists es' (f t))
    → RoundLists es' (o >>= f)
bind_Lists es es' none f h k = tt
bind_Lists es es' (some t) f h k = k t h

module _ (x : Tree) (side : Side) (pc : Color) (pe : Entry) where
  abbrev parent : Tree → Crumb
  parent w = record { side = side; color = pc; entry = pe; sibling = w }

  black_sibling-Lists :
      (w : Tree) → RoundLists (collect_symbols (attach (parent w) x)) (black_sibling x (parent w))
  unfolding black_sibling collect_symbols
  black_sibling-Lists leaf = tt
  black_sibling-Lists (node c l e r) =
      let w = node c l e r in
      let P = RoundLists (collect_symbols (attach (parent w) x)) in
      let settle =
        bind_Lists _ (collect_symbols (attach (parent w) x)) (lift_near side w) _
          (lift_near-Lists side w)
          λ t h. settled_Lists _ _ (
            Lists-rotate side _ _
              (join_same side black pc pe _ _ _ _ (same x) (take_color_same side pc t ∙ h))) in
      if_red_both P (color_of l) (λ _. settle)
        (λ _.
          if_red_both P (color_of r) (λ _. settle)
            (λ _. join_same side pc pc pe _ _ _ _ (same x) refl))

  -- The sibling `node c l e r` rotated above the parent.
  abbrev top : Tree → Entry → Tree → Crumb
  top l e r = record { side = side; color = black; entry = e; sibling = far side l r }

  abbrev lowered : Tree → Tree → Crumb
  lowered l r = record { side = side; color = red; entry = pe; sibling = near side l r }

lowered_same :
    (x : Tree) (side : Side) (pc : Color) (pe : Entry) (c : Color) (l : Tree) (e : Entry) (r : Tree)
    → SameListing
        (attach (top x side pc pe l e r) (attach (lowered x side pc pe l r) x))
        (attach (parent x side pc pe (node c l e r)) x)
unfolding collect_symbols
lowered_same x left pc pe c l e r = simp laws
lowered_same x right pc pe c l e r = simp laws

red_sibling-Lists :
    (x : Tree) (side : Side) (pc : Color) (pe : Entry) (w : Tree) (ps : Parents)
    → let p = parent x side pc pe w in
      Lists (around (p ∷ ps) (collect_symbols x)) (red_sibling x p ps)
unfolding red_sibling
red_sibling-Lists x side pc pe leaf ps = tt
red_sibling-Lists x side pc pe (node c l e r) ps =
    let p = parent x side pc pe (node c l e r) in
    let above = top x side pc pe l e r in
    let below = lowered x side pc pe l r in
    let all : (t : Tree)
        → SameListing t (attach below x)
        → around (above ∷ ps) (collect_symbols t) ≡ around (p ∷ ps) (collect_symbols x) =
      λ t h.
        sym (around-attach above ps t (attach above t) refl)
        ∙ around-attach p ps x (attach above t) (
            join_same side black black e _ _ _ _ h (same (far side l r))
            ∙ lowered_same x side pc pe c l e r) in
    round_Lists (black_sibling x below) (black_sibling-Lists x side red pe (near side l r)) all
  where
    round_Lists :
        (o : Option Round)
        → RoundLists (collect_symbols (attach (lowered x side pc pe l r) x)) o
        → ((t : Tree)
            → SameListing t (attach (lowered x side pc pe l r) x)
            → around (top x side pc pe l e r ∷ ps) (collect_symbols t)
              ≡ around (parent x side pc pe (node c l e r) ∷ ps) (collect_symbols x))
        → Lists (around (parent x side pc pe (node c l e r) ∷ ps) (collect_symbols x)) (
            o >>= λ round. elim round [
              | climbed t ↦ some (plug (top x side pc pe l e r ∷ ps) (paint black t))
              | settled t ↦ some (paint black (plug (top x side pc pe l e r ∷ ps) t))
            ])
    round_Lists none h all = tt
    round_Lists (some (climbed t)) h all =
        collect_symbols-plug (top x side pc pe l e r ∷ ps) (paint black t)
        ∙ all (paint black t) (collect_symbols-paint black t ∙ h)
    round_Lists (some (settled t)) h all = blacken_root (top x side pc pe l e r ∷ ps) t ∙ all t h

-- deleteFixup keeps the listing.
pub Lists-delete_fixup :
    (x : Tree) (ps : Parents) → Lists (around ps (collect_symbols x)) (delete_fixup x ps)
unfolding delete_fixup
Lists-delete_fixup x [] = blacken_root [] x
Lists-delete_fixup x (p ∷ ps) =
    let P = Lists (around (p ∷ ps) (collect_symbols x)) in
    if_red_both P (color_of x)
      (λ _.
        collect_symbols-plug (p ∷ ps) (paint black x)
        ∙ ap (around (p ∷ ps)) (collect_symbols-paint black x))
      (λ _.
        if_red_both P (color_of p.sibling)
          (λ _. red_sibling-Lists x p.side p.color p.entry p.sibling ps)
          (λ _.
            round_Lists (black_sibling x p) (λ t. Lists-delete_fixup t ps)
              (black_sibling-Lists x p.side p.color p.entry p.sibling)))
  where
    round_Lists :
        (o : Option Round)
        → ((t : Tree) → Lists (around ps (collect_symbols t)) (delete_fixup t ps))
        → RoundLists (collect_symbols (attach p x)) o
        → Lists (around (p ∷ ps) (collect_symbols x)) (elim o [
          | none ↦ none
          | some (climbed t) ↦ delete_fixup t ps
          | some (settled t) ↦ some (paint black (plug ps t))
        ])
    round_Lists none up h = tt
    round_Lists (some (climbed t)) up h =
        subst (λ l. Lists l (delete_fixup t ps)) (around-attach p ps x t h) (up t)
    round_Lists (some (settled t)) up h = blacken_root ps t ∙ around-attach p ps x t h

pub Lists-splice :
    (c : Color) (x : Tree) (ps : Parents) → Lists (around ps (collect_symbols x)) (splice c x ps)
unfolding splice
Lists-splice black x ps = Lists-delete_fixup x ps
Lists-splice red x ps = collect_symbols-plug ps x
