-- ===== src/Symbols/Refinement.antt =====
-- findInsertSymbol of nl-symbol.c on a valid tree, against the sorted list of its symbols.
pub mod Deletion
use mathlib.Core.Path.{subst}
use newlisp_neo.Prelude.{
  ℕ, ◌+◌, ◌-◌, ◌%◌, ◌^◌, ◌≡◌, refl, sym, ap, ◌∙◌, Bool, true, false, List, [], ◌∷◌, ◌++◌,
  append-nil, Option, none, some,
}
use newlisp_neo.Symbols.Name.{Name, name_order_refl, eq_of_name_order}
use newlisp_neo.Symbols.Tree.{
  Color, red, Entry, Tree, leaf, node, Parents, color_of, descend, Symbols, collect_symbols,
}
use newlisp_neo.Symbols.Insert.{◌>>=◌, insert_fixup, new_entry, insert_at, find_insert_symbol}
use newlisp_neo.Symbols.Delete.{remove_node, delete_at, delete_symbol}
use newlisp_neo.Symbols.Listing.{
  listed_before, listed_behind, around, laws, Lists, Lists-insert_fixup,
}
use newlisp_neo.Symbols.Sorted.{
  Below, IsSorted, find, insert, remove, around_one, find_absent, find_present, insert_absent,
  insert_present, remove_absent, remove_present, IsSorted-without, IsSorted-with,
}
use newlisp_neo.Symbols.Search.{Located, middle, descend-Located}
use newlisp_neo.Symbols.Balance.{
  black_height, IsRedBlack, Gives, Fits, Placed, descend-Placed, IsBlack-Allowed,
}
use newlisp_neo.Symbols.Balance.Inserting.{insert_fixup-IsRedBlack}
use newlisp_neo.Symbols.Removal.{Lists-remove_node, remove_node-IsRedBlack}

-- The symbols of a tree, in its order.
abbrev pub listing : Symbols → List Entry
listing s = collect_symbols s.root

-- What every operation keeps: a red-black tree, with the symbols in the order of their names.
abbrev pub IsValid : Symbols → Type 0
IsValid s = IsRedBlack s.root × IsSorted (listing s)

pub located :
    (key : Name) (s : Symbols) → IsValid s → Located key (listing s) (descend key s.root [])
unfolding listed_before listed_behind
located key s (_, sorted) =
    let same : around [] (listing s) ≡ listing s = append-nil (listing s) in
    subst (λ es. Located key es (descend key s.root [])) same
      (descend-Located key s.root [] (subst IsSorted (sym same) sorted) tt tt)

pub placed : (key : Name) (s : Symbols) → IsValid s → Placed (descend key s.root [])
placed key s ((b, h), _) =
    descend-Placed key s.root [] (black_height s.root, (refl, h), tt, IsBlack-Allowed s.root [] b)

-- What stands before the symbol found, and behind it.
abbrev pub front : Parents → Tree → List Entry
front ps l = listed_before ps ++ collect_symbols l

abbrev pub back : Parents → Tree → List Entry
back ps r = collect_symbols r ++ listed_behind ps

pub found :
    (key : Name) (es : List Entry) (c : Color) (l : Tree) (e : Entry) (r : Tree) (ps : Parents)
    → Located key es (node c l e r, ps)
    → IsSorted es
    → (es ≡ front ps l ++ (e ∷ back ps r)) × Below key (front ps l)
found key es c l e r ps (same, below, above, hit) sorted =
    let split = sym same ∙ middle ps c l e r in
    (
      split,
      subst (λ k. Below k (front ps l)) (sym (eq_of_name_order key e.name hit))
          (around_one (front ps l) e (back ps r) (subst IsSorted split sorted)).0,
    )

abbrev pub unless_found : Option Entry → ℕ → ℕ → ℕ
unless_found none n m = n
unless_found (some e) n m = m

-- The state and the result of findInsertSymbol with FORCE_CREATION.
abbrev pub Inserted : Name → Symbols → Option (Symbols × Option Entry) → Type 0
Inserted key s o =
    let n = s.symbol_count in
    (t : Symbols) × (o ≡ some (t, find key (insert key (listing s))))
    × IsValid t
    × (listing t ≡ insert key (listing s))
    × (t.symbol_count ≡ unless_found (find key (listing s)) ((n + 1) % 2 ^ 64) n)

created :
    (key : Name) (s : Symbols) (ps : Parents) (o : Option Tree)
    → IsSorted (listing s)
    → Located key (listing s) (leaf, ps)
    → Gives IsRedBlack o
    → Lists (around ps (new_entry key ∷ [])) o
    → Inserted key s (
        o >>= λ t.
        some
          (record { root = t; symbol_count = (s.symbol_count + 1) % 2 ^ 64 }, some (new_entry key)))
created key s ps none sorted place g l = absurd g
created key s ps (some t) sorted (same, below, above, _) g l =
    let n = s.symbol_count in
    let xs = listed_before ps in
    let ys = listed_behind ps in
    let es : listing s ≡ xs ++ ys = sym (unfold collect_symbols in same) in
    let now = ap (insert key) es ∙ insert_absent key xs ys below above in
    let new =
      ap (find key) now ∙ find_present key xs (new_entry key) ys below (name_order_refl key) in
    let s' : Symbols = record { root = t; symbol_count = (n + 1) % 2 ^ 64 } in
    (
      s',
      ap (λ e. some (s', e)) (sym new),
      (
        g,
        subst IsSorted (sym l)
            (IsSorted-with xs (new_entry key) ys (subst IsSorted es sorted) below above),
      ),
      l ∙ sym now,
      ap (λ e. unless_found e ((n + 1) % 2 ^ 64) n)
          (sym (ap (find key) es ∙ find_absent key xs ys below above)),
    )

insert_at-Inserted :
    (key : Name) (s : Symbols) (z : Tree × Parents)
    → IsValid s
    → Located key (listing s) z
    → Placed z
    → Inserted key s (insert_at key true s z)
unfolding insert_at
insert_at-Inserted key s (leaf, ps) v place (n, g, f, _) =
    let new = node red leaf (new_entry key) leaf in
    created key s ps (insert_fixup new ps) v.1 place
      (insert_fixup-IsRedBlack new ps 0 (unfold color_of in refl)
        (refl, (refl, unfold color_of in refl, unfold color_of in refl, tt, tt))
        (subst (Fits ps) (sym g.0) f))
      (unfold collect_symbols in Lists-insert_fixup new ps)
insert_at-Inserted key s (node c l e r, ps) v place fits =
    let n = s.symbol_count in
    let xs = front ps l in
    let ys = back ps r in
    let (es, below) = found key (listing s) c l e r ps place v.1 in
    let now : insert key (listing s) ≡ listing s =
      ap (insert key) es ∙ insert_present key xs e ys below place.3 ∙ sym es in
    let old = ap (find key) es ∙ find_present key xs e ys below place.3 in
    (
      s,
      ap (λ f. some (s, f)) (sym (ap (find key) now ∙ old)),
      v,
      sym now,
      ap (λ f. unless_found f ((n + 1) % 2 ^ 64) n) (sym old),
    )

-- On a valid tree `findInsertSymbol` with FORCE_CREATION follows no missing link; its result is the
-- symbol of that name, an old one or a new one; the tree stays valid and lists the sorted list with that name
-- inserted; `symbolCount` grows by one, modulo 2 ^ 64, exactly if the name was new.
pub find_insert_symbol-Inserted :
    (key : Name) (s : Symbols) → IsValid s → Inserted key s (find_insert_symbol key true s)
unfolding find_insert_symbol
find_insert_symbol-Inserted key s v =
    insert_at-Inserted key s _ v (located key s v) (placed key s v)

-- On a valid tree `findInsertSymbol` with LOOKUP_ONLY changes nothing and its result is the symbol
-- of that name in the sorted list, or none.
pub find_insert_symbol-find :
    (key : Name) (s : Symbols)
    → IsValid s
    → find_insert_symbol key false s ≡ some (s, find key (listing s))
unfolding find_insert_symbol insert_at
find_insert_symbol-find key s v = at_place (descend key s.root []) (located key s v)
  where
    at_place :
        (z : Tree × Parents)
        → Located key (listing s) z
        → insert_at key false s z ≡ some (s, find key (listing s))
    at_place (leaf, ps) (same, below, above, _) =
        let es : listing s ≡ listed_before ps ++ listed_behind ps =
          sym (unfold collect_symbols in same) in
        ap (λ e. some (s, e))
          (sym
            (ap (find key) es ∙ find_absent key (listed_before ps) (listed_behind ps) below above))
    at_place (node c l e r, ps) place =
        let (es, below) = found key (listing s) c l e r ps place v.1 in
        ap (λ e. some (s, e))
          (sym (ap (find key) es ∙ find_present key (front ps l) e (back ps r) below place.3))
