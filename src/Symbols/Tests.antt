-- ===== src/Symbols/Tests.antt =====
-- Concrete symbol trees.
use Prim.Native.Nat.{◌≤◌}
use newlisp_neo.Prelude.{
  ℕ, ◌*◌, ◌^◌, ◌+◌, ◌≡◌, refl, true, false, List, [], ◌∷◌, Option, some, length, arith,
}
use newlisp_neo.Symbols.Name.{Name, str2cmp, strcmp, first_two, name_order, name_order-strcmp}
use newlisp_neo.Symbols.Tree.{
  black, red, Entry, leaf, node, Symbols, color_of, descend, collect_symbols, plug, rotate, paint,
}
use newlisp_neo.Symbols.Insert.{
  recolor, straighten, rebalance, insert_fixup, insert_at, find_insert_symbol,
}
use newlisp_neo.Symbols.Delete.{
  lift_near, take_color, black_sibling, red_sibling, delete_fixup, splice, splice_least,
  remove_node, delete_at, delete_symbol, least,
}
use newlisp_neo.Symbols.Balance.{black_height}
use newlisp_neo.Symbols.Sorted.{find}
use newlisp_neo.Symbols.Refinement.{
  listing, IsValid, Inserted, find_insert_symbol-Inserted, find_insert_symbol-find,
}
use newlisp_neo.Symbols.Refinement.Deletion.{Removed, delete_symbol-Removed}
use newlisp_neo.Symbols.Rounds.{descend_le}
use newlisp_neo.Symbols.History.{
  Call, create, look_up, delete, perform, run_calls, history, Valid, empty, empty-IsValid,
  run_calls-Valid,
}
use newlisp_neo.Symbols.Associations.{
  collect_symbol_assocs, associations_from_tree, lookup, value, lookup-associations_from_tree,
}

abbrev entry : Name → ℕ → Entry
entry s v = record { name = s; contents = v }

-- The names `_b`, `_c` and `x`.
abbrev sample : Symbols
sample = record {
  root =
      node black (node red leaf (entry (95 ∷ 98 ∷ []) 7) leaf) (entry (95 ∷ 99 ∷ []) 8)
        (node red leaf (entry (120 ∷ []) 9) leaf);
  symbol_count = 3;
}

sample-IsValid : IsValid sample
unfolding color_of collect_symbols name_order str2cmp strcmp first_two
sample-IsValid = (
  (refl, (refl, tt, tt, (refl, refl, refl, tt, tt), (refl, refl, refl, tt, tt))),
  ((refl, (refl, tt)), ((refl, tt), (tt, tt))),
)

find_insert_symbol-Inserted_example :
    Inserted (97 ∷ []) sample (find_insert_symbol (97 ∷ []) true sample)
find_insert_symbol-Inserted_example = find_insert_symbol-Inserted (97 ∷ []) sample sample-IsValid

find_insert_symbol-find_example :
    find_insert_symbol (120 ∷ []) false sample ≡ some (sample, find (120 ∷ []) (listing sample))
find_insert_symbol-find_example = find_insert_symbol-find (120 ∷ []) sample sample-IsValid

delete_symbol-Removed_example : Removed (95 ∷ 99 ∷ []) sample (delete_symbol (95 ∷ 99 ∷ []) sample)
delete_symbol-Removed_example = delete_symbol-Removed (95 ∷ 99 ∷ []) sample sample-IsValid

abbrev calls : List Call
calls =
    create (98 ∷ [])
    ∷ create (97 ∷ [])
    ∷ create (99 ∷ [])
    ∷ look_up (97 ∷ [])
    ∷ delete (98 ∷ [])
    ∷ []

run_calls-Valid_example : Valid (history calls (listing empty)) (run_calls calls empty)
run_calls-Valid_example = run_calls-Valid calls empty empty-IsValid

descend_le_example :
    (length (descend (97 ∷ []) sample.root []).1 ≤ 2 * black_height sample.root)
    × (2 ^ black_height sample.root ≤ length (collect_symbols sample.root) + 1)
descend_le_example = descend_le (97 ∷ []) sample sample-IsValid.0

lookup-associations_from_tree_example :
    (o : Option Entry) × (find_insert_symbol (95 ∷ 99 ∷ []) false sample ≡ some (sample, o))
    × (lookup (99 ∷ []) (associations_from_tree sample.root) ≡ value o)
lookup-associations_from_tree_example =
    lookup-associations_from_tree (99 ∷ []) sample sample-IsValid

name_order-strcmp_example :
    name_order (97 ∷ 98 ∷ 99 ∷ []) (97 ∷ 98 ∷ 100 ∷ [])
    ≡ strcmp (97 ∷ 98 ∷ 99 ∷ []) (97 ∷ 98 ∷ 100 ∷ [])
name_order-strcmp_example =
    name_order-strcmp 97 97 (98 ∷ 99 ∷ []) (98 ∷ 100 ∷ [])
      (omega arith, omega arith, (omega arith, omega arith, (omega arith, omega arith, tt)))
      (omega arith, omega arith, (omega arith, omega arith, (omega arith, omega arith, tt)))

-- Three symbols created and the root deleted: its successor takes its place.
calls_run :
    run_calls calls empty
    ≡ some (record {
      root = node black (node red leaf (entry (97 ∷ []) 0) leaf) (entry (99 ∷ []) 0) leaf;
      symbol_count = 2;
    })
unfolding run_calls perform find_insert_symbol insert_at delete_symbol delete_at descend
    insert_fixup recolor straighten rebalance remove_node splice splice_least delete_fixup
    black_sibling red_sibling lift_near take_color plug rotate paint color_of name_order str2cmp
    strcmp first_two least
calls_run = refl

sample_associations : associations_from_tree sample.root ≡ (98 ∷ [], 7) ∷ (99 ∷ [], 8) ∷ []
unfolding associations_from_tree collect_symbol_assocs
sample_associations = refl
