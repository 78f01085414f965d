-- ===== src/Symbols/Search.antt =====
-- Where the walk down the tree of nl-symbol.c ends.
use Prim.Native.Nat.{Ordering}
use mathlib.Core.Path.{subst}
use newlisp_neo.Prelude.{◌≡◌, refl, sym, List, ◌∷◌, ◌++◌}
use newlisp_neo.Symbols.Name.{Name, name_order, Before, lt_of_gt, Before-trans}
use newlisp_neo.Symbols.Tree.{
  Color, Entry, Tree, leaf, node, left, right, Parents, Ordering_both, descend, collect_symbols,
}
use newlisp_neo.Symbols.Listing.{around, listed_before, listed_behind, laws, attach_lists}
use newlisp_neo.Symbols.Sorted.{
  Below, Above, IsSorted, All-append, All-left, All-right, All-imp, around_one,
}

abbrev pub Hit : Name → Tree → Type 0
Hit key leaf = Unit
Hit key (node c l e r) = name_order key e.name ≡ Ordering.eq

-- A place that is right for a name: it lists these symbols with what stands around it, smaller names
-- before and greater ones behind.
abbrev pub Located : Name → List Entry → Tree × Parents → Type 0
Located key es (x, ps) =
    (around ps (collect_symbols x) ≡ es)
    × Below key (listed_before ps)
    × Above key (listed_behind ps)
    × Hit key x

-- A listing around a node, with the node's own symbol in the middle.
pub middle :
    (ps : Parents) (c : Color) (l : Tree) (e : Entry) (r : Tree)
    → around ps (collect_symbols (node c l e r))
      ≡ (listed_before ps ++ collect_symbols l) ++ (e ∷ (collect_symbols r ++ listed_behind ps))
unfolding collect_symbols
middle ps c l e r = simp laws

pub descend-Located :
    (key : Name) (t : Tree) (ps : Parents)
    → IsSorted (around ps (collect_symbols t))
    → Below key (listed_before ps)
    → Above key (listed_behind ps)
    → Located key (around ps (collect_symbols t)) (descend key t ps)
unfolding descend listed_before listed_behind
descend-Located key leaf ps s b a = (refl, b, a, tt)
descend-Located key (node c l e r) ps s b a =
    let es = around ps (collect_symbols (node c l e r)) in
    let both = around_one _ e _ (subst IsSorted (middle ps c l e r) s) in
    Ordering_both (Located key es) (name_order key e.name) (λ h. (refl, b, a, h))
      (λ h.
        let q = attach_lists left c e r ps l in
        let above =
          All-imp (λ f. Before e.name f.name) _ (λ f k. Before-trans key e.name f.name h k)
            (collect_symbols r) (All-left _ (collect_symbols r) _ both.1) in
        subst
          (λ z.
            Located key z
              (descend key l (record { side = left; color = c; entry = e; sibling = r } ∷ ps)))
          (sym q)
          (descend-Located key l (record { side = left; color = c; entry = e; sibling = r } ∷ ps)
            (subst IsSorted q s) b (h, All-append _ (collect_symbols r) _ above a)))
      (λ h.
        let q = attach_lists right c e l ps r in
        let low = lt_of_gt key e.name h in
        let below =
          All-imp (λ f. Before f.name e.name) _ (λ f k. Before-trans f.name e.name key k low)
            (collect_symbols l) (All-right _ (listed_before ps) _ both.0) in
        subst
          (λ z.
            Located key z
              (descend key r (record { side = right; color = c; entry = e; sibling = l } ∷ ps)))
          (sym q)
          (descend-Located key r (record { side = right; color = c; entry = e; sibling = l } ∷ ps)
            (subst IsSorted q s)
            (All-append _ (listed_before ps) _ b
              (All-append _ (collect_symbols l) _ below (low, tt)))
            a))
