-- ===== src/Vm/Bindings.antt =====
-- Locals in nl-vm.c: a variable is found in the slot that it was given last, and what that means
-- for `let`.
use newlisp_neo.Prelude.{
  ℕ, ◌<◌, ◌≡◌, ◌∙◌, ap, ap₂, sym, false, found_or, if◌then◌else◌, List, ◌∷◌, length, Option, some,
  arith, if_true, ◌==◌,
}
use newlisp_neo.Vm.Cell.{Symbol, symbol, end, cons}
use newlisp_neo.Vm.State.{
  Compiler, add_local, find_local, emit_op, emit_load_local, emit_store_local, max_locals_limit,
}
use newlisp_neo.Vm.Opcode.{op_load_self, op_load_global}
use newlisp_neo.Vm.Forms.{is_self}
use newlisp_neo.Vm.Compile.{emit_global, compile, compile_symbol, compile_bindings}

find_local_new : (a : ℕ) (ls : List (Option ℕ)) → find_local (some a ∷ ls) a ≡ some (length ls)
unfolding find_local
find_local_new a ls = if_true (a == a) _ _ (ground arith)

compile_symbol-local :
    (c : Compiler) (s : Symbol) (slot : ℕ)
    → find_local c.locals s.address ≡ some slot
    → compile_symbol c s ≡ emit_load_local c slot
unfolding compile_symbol
compile_symbol-local c s slot h =
    ap
      (λ (o : Option ℕ).
        found_or o (λ i. emit_load_local c i)
          (if is_self c s then emit_op c op_load_self else emit_global c op_load_global s))
      h

module _ (c : Compiler) (sym : Option ℕ) (room : length c.locals < max_locals_limit) where
  add_local-locals : (add_local c sym).0.locals ≡ sym ∷ c.locals
  unfolding add_local
  add_local-locals = ground arith

  add_local-slot : (add_local c sym).1 ≡ length c.locals
  unfolding add_local
  add_local-slot = ground arith

-- A local that was just entered is found in its own slot, whatever other locals there are, as long
-- as there is room for it.
pub find_local-add_local :
    (c : Compiler) (a : ℕ)
    → length c.locals < max_locals_limit
    → find_local (add_local c (some a)).0.locals a ≡ some (add_local c (some a)).1
find_local-add_local c a room =
    ap (λ ls. find_local ls a) (add_local-locals c (some a) room)
    ∙ find_local_new a c.locals
    ∙ ap some (sym (add_local-slot c (some a) room))

-- In `(let (x x) ...)` the initial value is not the outer x: it is loaded from the slot that the new
-- x has just been given, the next free one, whether or not there is an outer x. This needs room
-- for one more local.
pub let_reads_itself :
    (c : Compiler) (s : Symbol)
    → length c.locals < max_locals_limit
    → let slot = length c.locals in
      let entered = (add_local c (some s.address)).0 in
      compile_bindings c (cons (symbol s) (cons (symbol s) end))
      ≡ (emit_store_local (emit_load_local entered slot) slot, false)
unfolding compile
let_reads_itself c s room =
    let slot = add_local-slot c (some s.address) room in
    let found = find_local-add_local c s.address room ∙ ap some slot in
    ap₂ (λ d i. (emit_store_local d i, false)) (compile_symbol-local _ s (length c.locals) found)
      slot
