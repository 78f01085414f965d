-- ===== src/Symbols/Associations.antt =====
-- collectSymbolAssocs of nl-symbol.c: a context used as a dictionary.
use Prim.Native.Nat.{Ordering}
use mathlib.Core.Path.{subst}
use newlisp_neo.Prelude.{
  ℕ, ◌≡◌, refl, sym, ap, ◌∙◌, false, List, [], ◌∷◌, ◌++◌, append_assoc, append-nil, Option, none,
  some, if◌then◌else◌, ◌==◌, arith,
}
use newlisp_neo.Symbols.Name.{Name, name_order, name_order_refl, eq_of_name_order}
use newlisp_neo.Symbols.Tree.{Entry, Tree, leaf, node, Symbols, collect_symbols}
use newlisp_neo.Symbols.Sorted.{find}
use newlisp_neo.Symbols.Insert.{find_insert_symbol}
use newlisp_neo.Symbols.Refinement.{listing, IsValid, find_insert_symbol-find}

-- `*sPtr->name == '_'`: the pair of the name behind the underscore and the value.
abbrev pub association_of : Name → ℕ → List (Name × ℕ)
association_of [] contents = []
association_of (c ∷ s) contents = if c == 95 then (s, contents) ∷ [] else []

-- The list and the pairs appended to it, as `assocList->aux` leads to its last one.
unfoldable pub collect_symbol_assocs : Tree → List (Name × ℕ) → List (Name × ℕ)
collect_symbol_assocs leaf assoc_list = assoc_list
collect_symbol_assocs (node c l e r) assoc_list =
    collect_symbol_assocs r (collect_symbol_assocs l assoc_list ++ association_of e.name e.contents)

unfoldable pub associations_from_tree : Tree → List (Name × ℕ)
unfolding collect_symbol_assocs
associations_from_tree t = collect_symbol_assocs t []

abbrev associations : List Entry → List (Name × ℕ)
associations [] = []
associations (e ∷ es) = association_of e.name e.contents ++ associations es

associations-append :
    (es fs : List Entry) → associations (es ++ fs) ≡ associations es ++ associations fs
associations-append [] fs = refl
associations-append (e ∷ es) fs =
    ap (λ l. association_of e.name e.contents ++ l) (associations-append es fs)
    ∙ sym (append_assoc (association_of e.name e.contents) (associations es) (associations fs))

collect_symbol_assocs_lem :
    (t : Tree) (ps : List (Name × ℕ))
    → collect_symbol_assocs t ps ≡ ps ++ associations (collect_symbols t)
unfolding collect_symbol_assocs collect_symbols
collect_symbol_assocs_lem leaf ps = sym (append-nil ps)
collect_symbol_assocs_lem (node c l e r) ps =
    collect_symbol_assocs_lem r _
    ∙ ap (λ k. (k ++ association_of e.name e.contents) ++ associations (collect_symbols r))
        (collect_symbol_assocs_lem l ps)
    ∙ simp (append_assoc, associations-append)

-- The value of a key in an association list.
unfoldable pub lookup : Name → List (Name × ℕ) → Option ℕ
lookup key [] = none
lookup key ((s, v) ∷ ps) =
    let others = lookup key ps in elim (name_order key s) [ Ordering.eq ↦ some v | _ ↦ others ]

abbrev pub value : Option Entry → Option ℕ
value none = none
value (some e) = some e.contents

underscore_eq :
    (k s : Name) → name_order k s ≡ Ordering.eq → name_order (95 ∷ k) (95 ∷ s) ≡ Ordering.eq
underscore_eq k s h =
    subst (λ t. name_order (95 ∷ k) (95 ∷ t) ≡ Ordering.eq) (eq_of_name_order k s h)
      (name_order_refl (95 ∷ k))

eq_underscore :
    (k s : Name) (c : ℕ)
    → name_order (95 ∷ k) (c ∷ s) ≡ Ordering.eq
    → (name_order k s ≡ Ordering.eq) × (c ≡ 95)
eq_underscore k s c h =
    let q = eq_of_name_order (95 ∷ k) (c ∷ s) h in ground (arith, q, name_order_refl k)

lookup-associations :
    (k : Name) (es : List Entry) → lookup k (associations es) ≡ value (find (95 ∷ k) es)
unfolding lookup find
lookup-associations k [] = refl
lookup-associations k (e ∷ es) = named e.name (lookup-associations k es)
  where
    named :
        (s : Name)
        → lookup k (associations es) ≡ value (find (95 ∷ k) es)
        → lookup k (association_of s e.contents ++ associations es)
          ≡ value (elim (name_order (95 ∷ k) s) [ Ordering.eq ↦ some e | _ ↦ find (95 ∷ k) es ])
    named [] h = ground (arith, h, eq_of_name_order (95 ∷ k) [])
    named (c ∷ s) h = ground (arith, h, eq_underscore k s c, underscore_eq k s)

-- In a valid context `findInsertSymbol`, asked for a key with an underscore before it, gives the symbol
-- whose value the association list of the context has for the key, or no symbol where the list has no value.
pub lookup-associations_from_tree :
    (key : Name) (s : Symbols)
    → IsValid s
    → (o : Option Entry) × (find_insert_symbol (95 ∷ key) false s ≡ some (s, o))
      × (lookup key (associations_from_tree s.root) ≡ value o)
unfolding associations_from_tree
lookup-associations_from_tree key s v = (
  find (95 ∷ key) (listing s),
  find_insert_symbol-find (95 ∷ key) s v,
  ap (lookup key) (collect_symbol_assocs_lem s.root []) ∙ lookup-associations key (listing s),
)
