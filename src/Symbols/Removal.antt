-- ===== src/Symbols/Removal.antt =====
-- `deleteSymbol` of nl-symbol.c takes one symbol out of the tree: what is listed then, and the
-- red-black invariant.
use mathlib.Core.Path.{subst}
use newlisp_neo.Prelude.{ℕ, ◌+◌, ◌≡◌, refl, sym, ap, ◌∙◌, List, ◌∷◌, ◌++◌, append-nil, arith}
use newlisp_neo.Symbols.Tree.{
  Color, black, red, Entry, Tree, leaf, node, left, right, Crumb, Parents, color_of, paint,
  collect_symbols,
}
use newlisp_neo.Symbols.Delete.{splice, least, splice_least, remove_node}
use newlisp_neo.Symbols.Listing.{listed_before, listed_behind, around, laws, Lists}
use newlisp_neo.Symbols.Listing.Deletion.{Lists-splice}
use newlisp_neo.Symbols.Balance.{
  weight, black_height, Beside, IsRedBlack, Good, Allowed, Fits, Gives, plug-IsRedBlack,
  Beside-Allowed, IsBlack-Allowed,
}
use newlisp_neo.Symbols.Balance.Deleting.{Short, delete_fixup-IsRedBlack}

-- What a subtree lists without its least symbol.
abbrev rest : Tree → Entry → Tree → List Entry
rest leaf e r = collect_symbols r
rest (node c l f s) e r = rest l f s ++ (e ∷ collect_symbols r)

least-rest :
    (l : Tree) (e : Entry) (r : Tree)
    → collect_symbols l ++ (e ∷ collect_symbols r) ≡ least l e ∷ rest l e r
unfolding collect_symbols least
least-rest leaf e r = refl
least-rest (node c l f s) e r = ap (λ k. k ++ (e ∷ collect_symbols r)) (least-rest l f s)

Lists-splice_least :
    (c : Color) (l : Tree) (e : Entry) (r : Tree) (ps : Parents)
    → Lists (around ps (rest l e r)) (splice_least c l r e ps)
unfolding splice_least listed_before listed_behind
Lists-splice_least c leaf e r ps = Lists-splice c r ps
Lists-splice_least c (node d l f s) e r ps =
    let p : Crumb = record { side = left; color = c; entry = e; sibling = r } in
    let same : around (p ∷ ps) (rest l f s) ≡ around ps (rest l f s ++ (e ∷ collect_symbols r)) =
      simp laws in
    subst (λ es. Lists es (splice_least d l s f (p ∷ ps))) same
      (Lists-splice_least d l f s (p ∷ ps))

append_leaf : (es : List Entry) → es ++ collect_symbols leaf ≡ es
unfolding collect_symbols
append_leaf es = append-nil es

pub Lists-remove_node :
    (c : Color) (l : Tree) (e : Entry) (r : Tree) (ps : Parents)
    → Lists (around ps (collect_symbols l ++ collect_symbols r)) (remove_node c l e r ps)
unfolding remove_node listed_before listed_behind collect_symbols
Lists-remove_node c leaf e r ps = Lists-splice c r ps
Lists-remove_node c (node d a f b) e leaf ps =
    subst (λ es. Lists (around ps es) (splice c (node d a f b) ps))
      (sym (append_leaf (collect_symbols (node d a f b)))) (Lists-splice c (node d a f b) ps)
Lists-remove_node c (node d a f b) e (node d' a' f' b') ps =
    let l = node d a f b in
    let p : Crumb = record { side = right; color = c; entry = least a' f'; sibling = l } in
    let split : around (p ∷ ps) (rest a' f' b')
        ≡ around ps (collect_symbols l ++ (least a' f' ∷ rest a' f' b')) =
      simp laws in
    let same = ap (λ k. around ps (collect_symbols l ++ k)) (sym (least-rest a' f' b')) in
    subst (λ es. Lists es (splice_least d' a' b' f' (p ∷ ps))) (split ∙ same)
      (Lists-splice_least d' a' f' b' (p ∷ ps))

-- A child in the place of a symbol of this color.
dropped : (c : Color) (x : Tree) → color_of x ≡ c → Good x 0 → Short c x 1
unfolding color_of paint
dropped black x h g = (0, refl, g)
dropped red leaf h g = absurd (ground (arith, h))
dropped red (node d l e r) h g = ground arith

splice-IsRedBlack :
    (c : Color) (x : Tree) (ps : Parents)
    → Good x 0
    → Beside c x
    → Fits ps (0 + weight c)
    → Gives IsRedBlack (splice c x ps)
unfolding splice
splice-IsRedBlack black x ps g b f =
    delete_fixup-IsRedBlack x ps 1 (color_of x) refl (dropped (color_of x) x refl g) f
splice-IsRedBlack red x ps g b f = plug-IsRedBlack ps x 0 g f (IsBlack-Allowed x ps b)

splice_least-IsRedBlack :
    (c : Color) (l : Tree) (e : Entry) (r : Tree) (ps : Parents) (n : ℕ)
    → Good (node c l e r) n
    → Fits ps n
    → Allowed c ps
    → Gives IsRedBlack (splice_least c l r e ps)
unfolding splice_least
splice_least-IsRedBlack c leaf e r ps n (height, (same, bl, br, gl, gr)) f a =
    splice-IsRedBlack c r ps (sym same, gr) br (subst (Fits ps) (sym height) f)
splice_least-IsRedBlack c (node d l g s) e r ps n (height, (same, bl, br, gl, gr)) f a =
    splice_least-IsRedBlack d l g s _ (black_height (node d l g s)) (refl, gl)
      ((sym same, gr), br, a, subst (Fits ps) (sym height) f)
      (unfold color_of in Beside-Allowed c (node d l g s) left e r ps bl)

pub remove_node-IsRedBlack :
    (c : Color) (l : Tree) (e : Entry) (r : Tree) (ps : Parents) (n : ℕ)
    → Good (node c l e r) n
    → Fits ps n
    → Allowed c ps
    → Gives IsRedBlack (remove_node c l e r ps)
unfolding remove_node
remove_node-IsRedBlack c leaf e r ps n (height, (same, bl, br, gl, gr)) f a =
    splice-IsRedBlack c r ps (sym same, gr) br (subst (Fits ps) (sym height) f)
remove_node-IsRedBlack c (node d l g s) e leaf ps n (height, (same, bl, br, gl, gr)) f a =
    splice-IsRedBlack c (node d l g s) ps (same, gl) bl
      (subst (Fits ps) (sym height ∙ ap (λ k. k + weight c) same) f)
remove_node-IsRedBlack c (node d l g s) e (node d' l' g' s') ps n (height, (same, bl, br, gl, gr)) f
      a =
    let h = least l' g' in
    splice_least-IsRedBlack d' l' g' s' _ (black_height (node d' l' g' s')) (refl, gr)
      ((same, gl), bl, a, subst (Fits ps) (sym height ∙ ap (λ k. k + weight c) same) f)
      (unfold color_of in Beside-Allowed c (node d' l' g' s') right h (node d l g s) ps br)
