-- ===== src/Symbols/History.antt =====
-- Any run of findInsertSymbol and deleteSymbol of nl-symbol.c, from an empty tree.
use newlisp_neo.Prelude.{◌≡◌, refl, ap, ◌∙◌, true, false, List, [], ◌∷◌, Option, some}
use newlisp_neo.Symbols.Name.{Name}
use newlisp_neo.Symbols.Tree.{Entry, leaf, color_of, Symbols, collect_symbols}
use newlisp_neo.Symbols.Insert.{◌>>=◌, find_insert_symbol}
use newlisp_neo.Symbols.Delete.{delete_symbol}
use newlisp_neo.Symbols.Sorted.{insert, remove}
use newlisp_neo.Symbols.Refinement.{
  listing, IsValid, find_insert_symbol-Inserted, find_insert_symbol-find,
}
use newlisp_neo.Symbols.Refinement.Deletion.{delete_symbol-Removed}

pub data Call : Type 0 where
  create look_up delete : Name → Call

-- `root` is NULL, or NIL_SYM.
abbrev pub empty : Symbols
empty = record { root = leaf; symbol_count = 0 }

unfoldable pub perform : Call → Symbols → Option Symbols
unfolding find_insert_symbol delete_symbol
perform (create key) s = find_insert_symbol key true s >>= λ z. some z.0
perform (look_up key) s = find_insert_symbol key false s >>= λ z. some z.0
perform (delete key) s = delete_symbol key s >>= λ z. some z.0

unfoldable pub run_calls : List Call → Symbols → Option Symbols
unfolding perform
run_calls [] s = some s
run_calls (c ∷ cs) s = perform c s >>= run_calls cs

-- The calls on a sorted list.
abbrev pub meaning : Call → List Entry → List Entry
meaning (create key) es = insert key es
meaning (look_up key) es = es
meaning (delete key) es = remove key es

abbrev pub history : List Call → List Entry → List Entry
history [] es = es
history (c ∷ cs) es = history cs (meaning c es)

abbrev pub Valid : List Entry → Option Symbols → Type 0
Valid es o = (t : Symbols) × (o ≡ some t) × IsValid t × (listing t ≡ es)

perform_lem : (c : Call) (s : Symbols) → IsValid s → Valid (meaning c (listing s)) (perform c s)
unfolding perform
perform_lem (create key) s v =
    let (t, q, v', l, _) = find_insert_symbol-Inserted key s v in
    (t, ap (λ o. o >>= λ z. some z.0) q, v', l)
perform_lem (look_up key) s v =
    (s, ap (λ o. o >>= λ z. some z.0) (find_insert_symbol-find key s v), v, refl)
perform_lem (delete key) s v =
    let (t, q, v', l, _) = delete_symbol-Removed key s v in
    (t, ap (λ o. o >>= λ z. some z.0) q, v', l)

-- From a valid tree, any sequence of creations, look-ups and deletions gives a result: a valid tree
-- that lists what the same operations make of the sorted list.
pub run_calls-Valid :
    (cs : List Call) (s : Symbols) → IsValid s → Valid (history cs (listing s)) (run_calls cs s)
unfolding run_calls
run_calls-Valid [] s v = (s, refl, v, refl)
run_calls-Valid (c ∷ cs) s v =
    let (t, q, v', l) = perform_lem c s v in
    let (u, q', v'', l') = run_calls-Valid cs t v' in
    (u, ap (λ o. o >>= run_calls cs) q ∙ q', v'', l' ∙ ap (history cs) l)

pub empty-IsValid : IsValid empty
unfolding color_of collect_symbols
empty-IsValid = ((refl, tt), tt)
