-- ===== src/Symbols/Refinement/Deletion.antt =====
-- deleteSymbol of nl-symbol.c on a valid tree, against the sorted list of its symbols.
use mathlib.Core.Path.{subst}
use newlisp_neo.Prelude.{
  ◌+◌, ◌-◌, ◌%◌, ◌^◌, ◌≡◌, sym, ap, ◌∙◌, Bool, true, false, List, ◌++◌, Option, none, some,
}
use newlisp_neo.Symbols.Name.{Name}
use newlisp_neo.Symbols.Tree.{Entry, Tree, leaf, node, Parents, color_of, Symbols, collect_symbols}
use newlisp_neo.Symbols.Insert.{◌>>=◌}
use newlisp_neo.Symbols.Delete.{remove_node, delete_at, delete_symbol}
use newlisp_neo.Symbols.Listing.{listed_before, listed_behind, around, laws, Lists}
use newlisp_neo.Symbols.Sorted.{
  IsSorted, find, remove, find_absent, find_present, remove_absent, remove_present,
  IsSorted-without,
}
use newlisp_neo.Symbols.Search.{Located}
use newlisp_neo.Symbols.Balance.{IsRedBlack, Gives, Placed}
use newlisp_neo.Symbols.Removal.{Lists-remove_node, remove_node-IsRedBlack}
use newlisp_neo.Symbols.Refinement.{
  listing, IsValid, located, placed, found, unless_found, front, back,
}

-- The state and the result of deleteSymbol.
abbrev pub Removed : Name → Symbols → Option (Symbols × Bool) → Type 0
Removed key s o =
    let n = s.symbol_count in
    (t : Symbols) × (o ≡ some (t, elim (find key (listing s)) [ none ↦ false | some e ↦ true ]))
    × IsValid t
    × (listing t ≡ remove key (listing s))
    × (t.symbol_count ≡ unless_found (find key (listing s)) n ((n + (2 ^ 64 - 1)) % 2 ^ 64))

removed :
    (key : Name) (s : Symbols) (e : Entry) (o : Option Tree) (es : List Entry)
    → Gives IsRedBlack o
    → Lists es o
    → IsSorted es
    → (es ≡ remove key (listing s))
    → (find key (listing s) ≡ some e)
    → Removed key s (
        o >>= λ t.
        some (record { root = t; symbol_count = (s.symbol_count + (2 ^ 64 - 1)) % 2 ^ 64 }, true))
removed key s e none es g l sorted now old = absurd g
removed key s e (some t) es g l sorted now old =
    let n = s.symbol_count in
    let s' : Symbols = record { root = t; symbol_count = (n + (2 ^ 64 - 1)) % 2 ^ 64 } in
    (
      s',
      ap (λ f. some (s', elim f [ none ↦ false | some e ↦ true ])) (sym old),
      (g, subst IsSorted (sym l) sorted),
      l ∙ now,
      ap (λ f. unless_found f n ((n + (2 ^ 64 - 1)) % 2 ^ 64)) (sym old),
    )

delete_at-Removed :
    (key : Name) (s : Symbols) (z : Tree × Parents)
    → IsValid s
    → Located key (listing s) z
    → Placed z
    → Removed key s (delete_at s z)
unfolding delete_at
delete_at-Removed key s (leaf, ps) v (same, below, above, _) fits =
    let n = s.symbol_count in
    let xs = listed_before ps in
    let ys = listed_behind ps in
    let es : listing s ≡ xs ++ ys = sym (unfold collect_symbols in same) in
    let old = ap (find key) es ∙ find_absent key xs ys below above in
    (
      s,
      ap (λ f. some (s, elim f [ none ↦ false | some e ↦ true ])) (sym old),
      v,
      sym (ap (remove key) es ∙ remove_absent key xs ys below above ∙ sym es),
      ap (λ f. unless_found f n ((n + (2 ^ 64 - 1)) % 2 ^ 64)) (sym old),
    )
delete_at-Removed key s (node c l e r, ps) v place (n, g, f, a) =
    let xs = front ps l in
    let ys = back ps r in
    let (es, below) = found key (listing s) c l e r ps place v.1 in
    let together : around ps (collect_symbols l ++ collect_symbols r) ≡ xs ++ ys = simp laws in
    removed key s e (remove_node c l e r ps) _
      (remove_node-IsRedBlack c l e r ps n g f (unfold color_of in a))
      (Lists-remove_node c l e r ps)
      (subst IsSorted (sym together) (IsSorted-without xs e ys (subst IsSorted es v.1)))
      (together ∙ sym (ap (remove key) es ∙ remove_present key xs e ys below place.3))
      (ap (find key) es ∙ find_present key xs e ys below place.3)

-- On a valid tree `deleteSymbol` follows no missing link; its result says whether the name was
-- there; the tree stays valid and lists the sorted list without that name; `symbolCount` shrinks by one,
-- modulo 2 ^ 64, exactly if the name was there.
pub delete_symbol-Removed :
    (key : Name) (s : Symbols) → IsValid s → Removed key s (delete_symbol key s)
unfolding delete_symbol
delete_symbol-Removed key s v = delete_at-Removed key s _ v (located key s v) (placed key s v)
