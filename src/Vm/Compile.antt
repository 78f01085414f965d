-- ===== src/Vm/Compile.antt =====
-- `compileExpr` of nl-vm.c: the code of an expression, form by form.
-- Each function takes the compiler, the rest of the expression and, where it matters, `is_tail`.
use newlisp_neo.Prelude.{
  ℕ, suc, ◌-◌, ◌%◌, Bool, true, false, Option, none, some, List, [], ◌∷◌, ◌++◌, length, drop, ltb,
  ◌==◌, if◌then◌else◌, found_or,
}
use newlisp_neo.Vm.Opcode.{
  Opcode, op_nil, op_true, op_pop, op_dup, op_load_global, op_store_global, op_load_self, op_jump,
  op_jump_if_nil, op_jump_if_not_nil, op_lt, op_add, op_sub, op_mul, op_div, op_neg, op_call,
  op_call_self, op_const_0, op_const_1, op_const_2, op_sub_1, op_sub_2, op_add_1, op_tail_call,
  op_tail_call_self,
}
use newlisp_neo.Vm.Cell.{
  Symbol, Cell, Cells, nil, true_cell, long, float, string, quote, symbol, expression, end, cons,
}
use newlisp_neo.Vm.State.{
  Compiler, code_size, fail, emit_byte, emit_op, emit_uint16, emit_jump, write_offset, patch_jump,
  add_symbol, add_local, find_local, emit_load_local, emit_store_local, emit_const,
}
use newlisp_neo.Vm.Forms.{
  if_form, when_form, cond_form, and_form, or_form, begin_form, while_form, let_form, local_form,
  dotimes_form, set_form, inc_form, compare_form, add_form, sub_form, mul_form, div_form, self_form,
  special_form, call_form, is_self, classify,
}

-- `end_jumps` and `exit_jumps` hold 64 positions.
abbrev pub max_jumps : ℕ
max_jumps = 64

-- CELL_LONG: the numbers 0, 1 and 2 have instructions of their own.
unfoldable pub compile_long : Compiler → ℕ → Compiler
compile_long c v =
    if v == 0
    then emit_op c op_const_0
    else if v == 1
    then emit_op c op_const_1
    else if v == 2
    then emit_op c op_const_2
    else emit_const c (long v)

unfoldable pub emit_global : Compiler → Opcode → Symbol → Compiler
emit_global c op s = let (c', idx) = add_symbol c s in emit_uint16 (emit_op c' op) idx

-- CELL_SYMBOL: a local, the lambda itself, or a global.
unfoldable pub compile_symbol : Compiler → Symbol → Compiler
unfolding emit_global
compile_symbol c s =
    found_or (find_local c.locals s.address) (λ slot. emit_load_local c slot)
      (if is_self c s then emit_op c op_load_self else emit_global c op_load_global s)

unfoldable pub patch_jumps : Compiler → List ℕ → Compiler
patch_jumps c [] = c
patch_jumps c (pos ∷ ends) = patch_jumps (patch_jump c pos) ends

-- `c->num_locals = old_locals`: the newer locals go.
unfoldable pub restore_locals : Compiler → ℕ → Compiler
restore_locals c old = record c { locals = drop (length c.locals - old) c.locals }

-- The variables of `local`, each set to nil; true if the form was given up on the way.
unfoldable pub declare_locals : Compiler → Cells → Compiler × Bool
declare_locals c end = (c, false)
declare_locals c (cons (symbol s) vars) =
    let (c', slot) = add_local c (some s.address) in
    declare_locals (emit_store_local (emit_op c' op_nil) slot) vars
declare_locals c (cons _ vars) = (fail c, true)

-- What `setq` (true) or `set` assigns to: a symbol, or a quoted one.
unfoldable pub set_target : Bool → Cell → Option Symbol
set_target true (symbol s) = some s
set_target false (quote (symbol s)) = some s
set_target _ _ = none

-- What `inc` and `dec` change: a symbol, quoted or not.
unfoldable pub inc_target : Cell → Option Symbol
inc_target (symbol s) = some s
inc_target (quote (symbol s)) = some s
inc_target _ = none

unfoldable pub store_variable : Compiler → Option ℕ → Symbol → Compiler
unfolding emit_global
store_variable c (some slot) s = emit_store_local c slot
store_variable c none s = emit_global c op_store_global s

unfoldable pub is_long : ℕ → Cell → Bool
is_long n (long v) = v == n
is_long n _ = false

unfoldable pub count : Cells → ℕ
count end = 0
count (cons e es) = suc (count es)

-- The exits of `and` leave nil on the stack.
unfoldable pub finish_and : Compiler → List ℕ → Compiler
unfolding patch_jumps
finish_and c [] = c
finish_and c (pos ∷ exits) =
    let (c₁, end_jump) = emit_jump c op_jump in
    patch_jump (emit_op (patch_jumps c₁ (pos ∷ exits)) op_nil) end_jump

-- A call with its count of arguments in a byte, in tail position the variant that reuses the frame.
unfoldable pub emit_call : Compiler → Opcode → Opcode → Bool → ℕ → Compiler
emit_call c op tail_op t argc = emit_byte (emit_op c (if t then tail_op else op)) (argc % 256)

unfoldable mutual
  pub compile : Compiler → Cell → Bool → Compiler
  compile c nil t = emit_op c op_nil
  compile c true_cell t = emit_op c op_true
  compile c (long v) t = compile_long c v
  compile c (float v) t = emit_const c (float v)
  compile c (string v) t = emit_const c (string v)
  compile c (quote e) t = emit_const c e
  compile c (symbol s) t = compile_symbol c s
  compile c (expression end) t = emit_op c op_nil
  compile c (expression (cons (symbol s) es)) t =
      let form : Compiler = elim (classify c s) [
        | if_form ↦ compile_if c es t
        | when_form ↦ compile_when c es t
        | cond_form ↦ compile_cond (emit_op c op_nil) es t []
        | and_form ↦ compile_and c es t []
        | or_form ↦ compile_or c es t []
        | begin_form ↦ compile_begin c es t
        | while_form ↦ compile_while c es
        | let_form ↦ compile_let c es t
        | local_form ↦ compile_local c es t
        | dotimes_form ↦ compile_dotimes c es
        | set_form is_setq ↦ compile_set c es is_setq
        | inc_form is_inc ↦ compile_inc c es is_inc
        | compare_form op ↦ compile_compare c es op
        | add_form ↦ compile_add c es
        | sub_form ↦ compile_sub c es
        | mul_form ↦ compile_mul c es
        | div_form ↦ compile_div c es
        | self_form ↦ emit_call (compile_args c es) op_call_self op_tail_call_self t (count es)
        | special_form ↦ fail c
        | call_form ↦
            emit_call (compile_args (compile_symbol c s) es) op_call op_tail_call t (count es)
      ] in
      if c.failed then emit_op c op_nil else form
  compile c (expression (cons head es)) t =
      let call =
        emit_call (compile_args (compile c head false) es) op_call op_tail_call t (count es) in
      if c.failed then emit_op c op_nil else call
  compile c _ t = if c.failed then emit_op c op_nil else fail c

  -- The arguments of a call, each left on the stack.
  pub compile_args : Compiler → Cells → Compiler
  compile_args c end = c
  compile_args c (cons e es) = compile_args (compile c e false) es

  -- A sequence of which the last value is left on the stack, its last expression in tail position.
  pub compile_body : Compiler → Cells → Bool → Compiler
  compile_body c end t = c
  compile_body c (cons e end) t = compile c e t
  compile_body c (cons e es) t = compile_body (emit_op (compile c e false) op_pop) es t

  -- A sequence of which no value is left: the body of a loop.
  pub compile_discard : Compiler → Cells → Compiler
  compile_discard c end = c
  compile_discard c (cons e es) = compile_discard (emit_op (compile c e false) op_pop) es

  -- (if cond then-expr [else-expr])
  pub compile_if : Compiler → Cells → Bool → Compiler
  compile_if c end t = fail c
  compile_if c (cons cond end) t = fail c
  compile_if c (cons cond (cons then_expr end)) t =
      let (c₁, else_jump) = emit_jump (compile c cond false) op_jump_if_nil in
      let (c₂, end_jump) = emit_jump (compile c₁ then_expr t) op_jump in
      patch_jump (emit_op (patch_jump c₂ else_jump) op_nil) end_jump
  compile_if c (cons cond (cons then_expr (cons else_expr es))) t =
      let (c₁, else_jump) = emit_jump (compile c cond false) op_jump_if_nil in
      let (c₂, end_jump) = emit_jump (compile c₁ then_expr t) op_jump in
      patch_jump (compile (patch_jump c₂ else_jump) else_expr t) end_jump

  -- (when cond body...)
  pub compile_when : Compiler → Cells → Bool → Compiler
  compile_when c end t = fail c
  compile_when c (cons cond end) t = compile c cond t
  compile_when c (cons cond body) t =
      let (c₁, else_jump) = emit_jump (compile c cond false) op_jump_if_nil in
      let (c₂, end_jump) = emit_jump (compile_body c₁ body t) op_jump in
      patch_jump (emit_op (patch_jump c₂ else_jump) op_nil) end_jump

  -- (cond (c1 e11...) (c2 e21...) ...), after the nil that the first clause pops.
  pub compile_cond : Compiler → Cells → Bool → List ℕ → Compiler
  compile_cond c end t ends = patch_jumps c ends
  compile_cond c (cons (expression end) es) t ends = compile_cond c es t ends
  compile_cond c (cons (expression (cons test body)) es) t ends =
      let c₁ = emit_op (compile (emit_op c op_pop) test false) op_dup in
      let (c₂, false_jump) = emit_jump c₁ op_jump_if_nil in
      let c₃ = compile_clause c₂ body t in
      let (c₄, end_jump) = emit_jump c₃ op_jump in
      let rest = compile_cond (patch_jump c₄ false_jump) es t (ends ++ end_jump ∷ []) in
      if ltb (length ends) max_jumps then rest else fail c₃
  compile_cond c (cons _ es) t ends = fail c

  -- The body of a clause; without one the value of the test stays.
  pub compile_clause : Compiler → Cells → Bool → Compiler
  compile_clause c end t = c
  compile_clause c (cons e end) t = compile (emit_op c op_pop) e t
  compile_clause c (cons e es) t =
      compile_body (emit_op (compile (emit_op c op_pop) e false) op_pop) es t

  -- (and expr...)
  pub compile_and : Compiler → Cells → Bool → List ℕ → Compiler
  compile_and c end t exits = emit_op c op_true
  compile_and c (cons e end) t exits = finish_and (compile c e t) exits
  compile_and c (cons e es) t exits =
      let c₁ = compile c e false in
      let (c₂, exit_jump) = emit_jump c₁ op_jump_if_nil in
      let rest = compile_and c₂ es t (exits ++ exit_jump ∷ []) in
      if ltb (length exits) max_jumps then rest else fail c₁

  -- (or expr...)
  pub compile_or : Compiler → Cells → Bool → List ℕ → Compiler
  compile_or c end t exits = emit_op c op_nil
  compile_or c (cons e end) t exits = patch_jumps (compile c e t) exits
  compile_or c (cons e es) t exits =
      let c₁ = emit_op (compile c e false) op_dup in
      let (c₂, exit_jump) = emit_jump c₁ op_jump_if_not_nil in
      let rest = compile_or (emit_op c₂ op_pop) es t (exits ++ exit_jump ∷ []) in
      if ltb (length exits) max_jumps then rest else fail c₁

  -- (begin expr...)
  pub compile_begin : Compiler → Cells → Bool → Compiler
  compile_begin c end t = emit_op c op_nil
  compile_begin c (cons e end) t = compile c e t
  compile_begin c (cons e es) t = compile_body (emit_op (compile c e false) op_pop) es t

  -- (while cond body...). The jump back is written without a test of `failed`.
  pub compile_while : Compiler → Cells → Compiler
  compile_while c end = fail c
  compile_while c (cons cond body) =
      let (c₁, exit_jump) = emit_jump (compile c cond false) op_jump_if_nil in
      let (c₂, back_jump) = emit_jump (compile_discard c₁ body) op_jump in
      let c₃ = write_offset c₂ back_jump (code_size c) in emit_op (patch_jump c₃ exit_jump) op_nil

  -- (let (var1 val1 ...) body...) or (let ((var1 val1) ...) body...)
  pub compile_let : Compiler → Cells → Bool → Compiler
  compile_let c end t = fail c
  compile_let c (cons (expression bindings) body) t =
      let (c₁, stopped) = compile_bindings c bindings in
      let done = restore_locals (compile_begin c₁ body t) (length c.locals) in
      if stopped then c₁ else done
  compile_let c (cons _ body) t = fail c

  -- Each variable is entered before its value is compiled. True if the form was given up.
  pub compile_bindings : Compiler → Cells → Compiler × Bool
  compile_bindings c end = (c, false)
  compile_bindings c (cons (expression (cons (symbol s) end)) bs) =
      let (c₁, slot) = add_local c (some s.address) in
      compile_bindings (emit_store_local (emit_op c₁ op_nil) slot) bs
  compile_bindings c (cons (expression (cons (symbol s) (cons init _))) bs) =
      let (c₁, slot) = add_local c (some s.address) in
      compile_bindings (emit_store_local (compile c₁ init false) slot) bs
  compile_bindings c (cons (symbol s) end) =
      let (c₁, slot) = add_local c (some s.address) in
      (emit_store_local (emit_op c₁ op_nil) slot, false)
  compile_bindings c (cons (symbol s) (cons init bs)) =
      let (c₁, slot) = add_local c (some s.address) in
      compile_bindings (emit_store_local (compile c₁ init false) slot) bs
  compile_bindings c (cons _ bs) = (fail c, true)

  -- (local (v1 v2 ...) body...)
  pub compile_local : Compiler → Cells → Bool → Compiler
  compile_local c (cons (expression vars) body) t =
      let (c₁, stopped) = declare_locals c vars in
      let done = restore_locals (compile_begin c₁ body t) (length c.locals) in
      if stopped then c₁ else done
  compile_local c _ t = fail c

  -- (dotimes (var count) body...): a hidden local holds the count.
  pub compile_dotimes : Compiler → Cells → Compiler
  compile_dotimes c (cons (expression (cons (symbol s) (cons count_expr _))) body) =
      let (c₁, count_slot) = add_local c none in
      let c₂ = emit_store_local (compile c₁ count_expr false) count_slot in
      let (c₃, var_slot) = add_local c₂ (some s.address) in
      let c₄ = emit_store_local (emit_op c₃ op_const_0) var_slot in
      let c₅ = emit_op (emit_load_local (emit_load_local c₄ var_slot) count_slot) op_lt in
      let (c₆, exit_jump) = emit_jump c₅ op_jump_if_nil in
      let c₇ = compile_rounds c₆ body in
      let c₈ = emit_store_local (emit_op (emit_load_local c₇ var_slot) op_add_1) var_slot in
      let (c₉, back_jump) = emit_jump c₈ op_jump in
      let done = patch_jump (write_offset c₉ back_jump (code_size c₄)) exit_jump in
      restore_locals (emit_op done op_nil) (length c.locals)
  compile_dotimes c _ = fail c

  pub compile_rounds : Compiler → Cells → Compiler
  compile_rounds c end = emit_op (emit_op c op_nil) op_pop
  compile_rounds c (cons e es) = compile_discard (emit_op (compile c e false) op_pop) es

  -- (setq var val ...) or (set 'var val ...)
  pub compile_set : Compiler → Cells → Bool → Compiler
  compile_set c end is_setq = fail c
  compile_set c (cons target end) is_setq = fail c
  compile_set c (cons target (cons val end)) is_setq =
      let value = emit_op (compile c val false) op_dup in
      found_or (set_target is_setq target)
        (λ s. store_variable value (find_local c.locals s.address) s) (fail c)
  compile_set c (cons target (cons val pairs)) is_setq =
      let value = emit_op (compile c val false) op_dup in
      found_or (set_target is_setq target)
        (λ s.
          compile_set (emit_op (store_variable value (find_local c.locals s.address) s) op_pop)
            pairs is_setq)
        (fail c)

  -- (inc var [delta]) or (dec var [delta])
  pub compile_inc : Compiler → Cells → Bool → Compiler
  compile_inc c end is_inc = fail c
  compile_inc c (cons target es) is_inc =
      found_or (inc_target target)
        (λ s.
          found_or (find_local c.locals s.address)
            (λ slot.
              emit_store_local (emit_op (compile_delta (emit_load_local c slot) es is_inc) op_dup)
                slot)
            (let (c₁, idx) = add_symbol c s in
              let c₂ = compile_delta (emit_uint16 (emit_op c₁ op_load_global) idx) es is_inc in
              emit_uint16 (emit_op (emit_op c₂ op_dup) op_store_global) idx))
        (fail c)

  pub compile_delta : Compiler → Cells → Bool → Compiler
  compile_delta c end is_inc = emit_op c (if is_inc then op_add_1 else op_sub_1)
  compile_delta c (cons delta _) is_inc =
      emit_op (compile c delta false) (if is_inc then op_add else op_sub)

  -- The comparison operators take exactly two arguments.
  pub compile_compare : Compiler → Cells → Opcode → Compiler
  compile_compare c (cons a (cons b end)) op = emit_op (compile (compile c a false) b false) op
  compile_compare c _ op = fail c

  -- The operands after the first, each followed by the operation.
  pub compile_operands : Compiler → Cells → Opcode → Compiler
  compile_operands c end op = c
  compile_operands c (cons e es) op = compile_operands (emit_op (compile c e false) op) es op

  -- (+ ...): (+ a 1) and (+ 1 a) have an instruction of their own.
  pub compile_add : Compiler → Cells → Compiler
  compile_add c end = emit_op c op_const_0
  compile_add c (cons a end) = compile c a false
  compile_add c (cons a (cons b end)) =
      let first = compile c a false in
      let second = compile c b false in
      let both = compile first b false in
      if is_long 1 b
      then emit_op first op_add_1
      else if is_long 1 a
      then emit_op second op_add_1
      else emit_op both op_add
  compile_add c (cons a es) = compile_operands (compile c a false) es op_add

  -- (- ...): (- a 1) and (- a 2) have an instruction of their own.
  pub compile_sub : Compiler → Cells → Compiler
  compile_sub c end = fail c
  compile_sub c (cons a end) = emit_op (compile c a false) op_neg
  compile_sub c (cons a (cons b end)) =
      let first = compile c a false in
      let both = compile first b false in
      if is_long 1 b
      then emit_op first op_sub_1
      else if is_long 2 b
      then emit_op first op_sub_2
      else emit_op both op_sub
  compile_sub c (cons a es) = compile_operands (compile c a false) es op_sub

  pub compile_mul : Compiler → Cells → Compiler
  compile_mul c end = emit_op c op_const_1
  compile_mul c (cons a es) = compile_operands (compile c a false) es op_mul

  -- (/ ...) takes two arguments or more.
  pub compile_div : Compiler → Cells → Compiler
  compile_div c end = fail c
  compile_div c (cons a end) = fail c
  compile_div c (cons a es) = compile_operands (compile c a false) es op_div
