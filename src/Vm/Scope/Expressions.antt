-- ===== src/Vm/Scope/Expressions.antt =====
-- `compileExpr` of nl-vm.c leaves the locals in scope as they were.
use newlisp_neo.Prelude.{
  ℕ, arith, ◌≡◌, refl, true, Bool, false, List, [], length, ltb, ◌==◌, if_both, found_both, Option,
  none, some,
}
use newlisp_neo.Vm.Opcode.{
  Opcode, op_call, op_tail_call, op_call_self, op_tail_call_self, op_nil, op_jump, op_jump_if_nil,
  op_jump_if_not_nil,
}
use newlisp_neo.Vm.Cell.{
  Symbol, Cell, Cells, nil, true_cell, long, float, string, quote, symbol, expression, lambda,
  other, end, cons,
}
use newlisp_neo.Vm.State.{
  Compiler, code_size, fail, emit_op, emit_jump, find_local, patch_jump, write_offset,
}
use newlisp_neo.Vm.Forms.{
  if_form, when_form, cond_form, and_form, or_form, begin_form, while_form, let_form, local_form,
  dotimes_form, set_form, inc_form, compare_form, add_form, sub_form, mul_form, div_form, self_form,
  special_form, call_form, is_self, classify,
}
use newlisp_neo.Vm.Compile.{
  emit_call, count, max_jumps, compile, compile_args, compile_body, compile_discard, compile_if,
  compile_when, compile_cond, compile_clause, compile_and, compile_or, compile_begin, compile_while,
  compile_let, compile_bindings, compile_local, compile_dotimes, compile_rounds, compile_set,
  compile_inc, compile_delta, compile_compare, compile_operands, compile_add, compile_sub,
  compile_mul, compile_div, compile_long, compile_symbol, declare_locals, set_target, inc_target,
  store_variable, is_long,
}
use newlisp_neo.Vm.Scope.{
  Scoped, Scoped-refl, ◌▸◌, Opens, Opens-trans, ◌▸▸◌, Scoped-Opens, fail-Scoped, emit_byte-Scoped,
  emit_uint16-Scoped, emit_jump-Scoped, write_offset-Scoped, patch_jump-Scoped, patch_jumps-Scoped,
  finish_and-Scoped, add_symbol-Scoped, add_local-Opens, restore_locals-Scoped,
  emit_load_local-Scoped, emit_store_local-Scoped, emit_const-Scoped, emit_global-Scoped,
  emit_call-Scoped,
}

compile_long-Scoped : (c : Compiler) (v : ℕ) → Scoped c (compile_long c v)
unfolding compile_long
compile_long-Scoped c v =
    if_both (Scoped c) (v == 0) (λ _. emit_byte-Scoped c _)
      λ _.
        if_both (Scoped c) (v == 1) (λ _. emit_byte-Scoped c _)
          λ _. if_both (Scoped c) (v == 2) (λ _. emit_byte-Scoped c _) (λ _. emit_const-Scoped c _)

compile_symbol-Scoped : (c : Compiler) (s : Symbol) → Scoped c (compile_symbol c s)
unfolding compile_symbol
compile_symbol-Scoped c s =
    found_both (Scoped c) (find_local c.locals s.address) (λ slot. emit_load_local-Scoped c slot)
      (if_both (Scoped c) (is_self c s) (λ _. emit_byte-Scoped c _) (λ _. emit_global-Scoped c _ s))

store_variable-Scoped :
    (c : Compiler) (slot : Option ℕ) (s : Symbol) → Scoped c (store_variable c slot s)
unfolding store_variable
store_variable-Scoped c none s = emit_global-Scoped c _ s
store_variable-Scoped c (some slot) s = emit_store_local-Scoped c slot

declare_locals-Opens : (vars : Cells) (c : Compiler) → Opens c (declare_locals c vars).0
unfolding declare_locals
declare_locals-Opens end c = Scoped-Opens (Scoped-refl c)
declare_locals-Opens (cons (symbol s) vars) c =
    Opens-trans (add_local-Opens c _ ▸▸ emit_byte-Scoped _ _ ▸▸ emit_store_local-Scoped _ _)
      (declare_locals-Opens vars _)
declare_locals-Opens (cons _ vars) c = Scoped-Opens (fail-Scoped c)

declare_locals-stopped :
    (vars : Cells) (c : Compiler)
    → (declare_locals c vars).1 ≡ true
    → (declare_locals c vars).0.failed ≡ true
unfolding declare_locals
declare_locals-stopped end c h = absurd (ground arith)
declare_locals-stopped (cons (symbol s) vars) c h = declare_locals-stopped vars _ h
declare_locals-stopped (cons _ vars) c h = refl

compile_bindings-stopped :
    (bs : Cells) (c : Compiler)
    → (compile_bindings c bs).1 ≡ true
    → (compile_bindings c bs).0.failed ≡ true
unfolding compile
compile_bindings-stopped end c h = absurd (ground arith)
compile_bindings-stopped (cons (expression (cons (symbol s) end)) bs) c h =
    compile_bindings-stopped bs _ h
compile_bindings-stopped (cons (expression (cons (symbol s) (cons init _))) bs) c h =
    compile_bindings-stopped bs _ h
compile_bindings-stopped (cons (symbol s) end) c h = absurd (ground arith)
compile_bindings-stopped (cons (symbol s) (cons init bs)) c h = compile_bindings-stopped bs _ h
compile_bindings-stopped (cons _ bs) c h = refl

-- A form that was given up has failed, and nothing is said of the locals it leaves.
given_up : {c d : Compiler} → d.failed ≡ true → Opens c d → Scoped c d
given_up f o = record { alive = o.alive; kept = λ h. absurd (ground arith); room = o.room }

branch-Scoped :
    {c test then_ : Compiler} (els : Compiler → Compiler)
    → Scoped c test
    → Scoped (emit_jump test op_jump_if_nil).0 then_
    → ((x : Compiler) → Scoped x (els x))
    → Scoped c (
        patch_jump
          (els (patch_jump (emit_jump then_ op_jump).0 (emit_jump test op_jump_if_nil).1))
          (emit_jump then_ op_jump).1)
branch-Scoped els g h k =
    g
    ▸ emit_jump-Scoped _ _
    ▸ h
    ▸ emit_jump-Scoped _ _
    ▸ patch_jump-Scoped _ _
    ▸ k _
    ▸ patch_jump-Scoped _ _

loop-Scoped :
    (c test : Compiler) {rounds : Compiler} (op : Opcode)
    → Scoped c test
    → Scoped (emit_jump test op).0 rounds
    → Scoped c (
        patch_jump
          (write_offset (emit_jump rounds op_jump).0 (emit_jump rounds op_jump).1 (code_size c))
          (emit_jump test op).1)
loop-Scoped c test op g h =
    g
    ▸ emit_jump-Scoped test op
    ▸ h
    ▸ emit_jump-Scoped _ _
    ▸ write_offset-Scoped _ _ _
    ▸ patch_jump-Scoped _ _

mutual
  unfolding compile

  cell-Scoped : (e : Cell) (c : Compiler) (t : Bool) → Scoped c (compile c e t)
  cell-Scoped nil c t = emit_byte-Scoped c _
  cell-Scoped true_cell c t = emit_byte-Scoped c _
  cell-Scoped (long v) c t = compile_long-Scoped c v
  cell-Scoped (float v) c t = emit_const-Scoped c _
  cell-Scoped (string v) c t = emit_const-Scoped c _
  cell-Scoped (quote e) c t = emit_const-Scoped c _
  cell-Scoped (symbol s) c t = compile_symbol-Scoped c s
  cell-Scoped (expression end) c t = emit_byte-Scoped c _
  cell-Scoped (expression (cons (symbol s) es)) c t =
      if_both (Scoped c) c.failed (λ _. emit_byte-Scoped c _)
        (λ _.
          (elim (classify c s)
            as (λ f. Scoped c (elim f [
              | if_form ↦ compile_if c es t
              | when_form ↦ compile_when c es t
              | cond_form ↦ compile_cond (emit_op c op_nil) es t []
              | and_form ↦ compile_and c es t []
              | or_form ↦ compile_or c es t []
              | begin_form ↦ compile_begin c es t
              | while_form ↦ compile_while c es
              | let_form ↦ compile_let c es t
              | local_form ↦ compile_local c es t
              | dotimes_form ↦ compile_dotimes c es
              | set_form is_setq ↦ compile_set c es is_setq
              | inc_form is_inc ↦ compile_inc c es is_inc
              | compare_form op ↦ compile_compare c es op
              | add_form ↦ compile_add c es
              | sub_form ↦ compile_sub c es
              | mul_form ↦ compile_mul c es
              | div_form ↦ compile_div c es
              | self_form ↦
                  emit_call (compile_args c es) op_call_self op_tail_call_self t (count es)
              | special_form ↦ fail c
              | call_form ↦
                  emit_call (compile_args (compile_symbol c s) es) op_call op_tail_call t (count es)
            ])) [
              | if_form ↦ if-Scoped es c t
              | when_form ↦ when-Scoped es c t
              | cond_form ↦ emit_byte-Scoped c _ ▸ cond-Scoped es _ t []
              | and_form ↦ and-Scoped es c t []
              | or_form ↦ or-Scoped es c t []
              | begin_form ↦ begin-Scoped es c t
              | while_form ↦ while-Scoped es c
              | let_form ↦ let-Scoped es c t
              | local_form ↦ local-Scoped es c t
              | dotimes_form ↦ dotimes-Scoped es c
              | set_form q ↦ set-Scoped es c q
              | inc_form q ↦ inc-Scoped es c q
              | compare_form op ↦ compare-Scoped es c op
              | add_form ↦ add-Scoped es c
              | sub_form ↦ sub-Scoped es c
              | mul_form ↦ mul-Scoped es c
              | div_form ↦ div-Scoped es c
              | self_form ↦ args-Scoped es c ▸ emit_call-Scoped _ _ _ t _
              | special_form ↦ fail-Scoped c
              | call_form ↦
                  compile_symbol-Scoped c s ▸ args-Scoped es _ ▸ emit_call-Scoped _ _ _ t _
            ]))
  cell-Scoped (expression (cons head es)) c t =
      if_both (Scoped c) c.failed (λ _. emit_byte-Scoped c _)
        (λ _. cell-Scoped head c false ▸ args-Scoped es _ ▸ emit_call-Scoped _ _ _ t _)
  cell-Scoped (lambda es) c t =
      if_both (Scoped c) c.failed (λ _. emit_byte-Scoped c _) (λ _. fail-Scoped c)
  cell-Scoped (other k) c t =
      if_both (Scoped c) c.failed (λ _. emit_byte-Scoped c _) (λ _. fail-Scoped c)

  args-Scoped : (es : Cells) (c : Compiler) → Scoped c (compile_args c es)
  args-Scoped end c = Scoped-refl c
  args-Scoped (cons e es) c = cell-Scoped e c false ▸ args-Scoped es _

  body-Scoped : (es : Cells) (c : Compiler) (t : Bool) → Scoped c (compile_body c es t)
  body-Scoped end c t = Scoped-refl c
  body-Scoped (cons e end) c t = cell-Scoped e c t
  body-Scoped (cons e es) c t = cell-Scoped e c false ▸ emit_byte-Scoped _ _ ▸ body-Scoped es _ t

  discard-Scoped : (es : Cells) (c : Compiler) → Scoped c (compile_discard c es)
  discard-Scoped end c = Scoped-refl c
  discard-Scoped (cons e es) c = cell-Scoped e c false ▸ emit_byte-Scoped _ _ ▸ discard-Scoped es _

  if-Scoped : (es : Cells) (c : Compiler) (t : Bool) → Scoped c (compile_if c es t)
  if-Scoped end c t = fail-Scoped c
  if-Scoped (cons cond end) c t = fail-Scoped c
  if-Scoped (cons cond (cons a end)) c t =
      branch-Scoped (λ x. emit_op x op_nil) (cell-Scoped cond c false) (cell-Scoped a _ t)
        (λ x. emit_byte-Scoped x _)
  if-Scoped (cons cond (cons a (cons b es))) c t =
      branch-Scoped (λ x. compile x b t) (cell-Scoped cond c false) (cell-Scoped a _ t)
        (λ x. cell-Scoped b x t)

  when-Scoped : (es : Cells) (c : Compiler) (t : Bool) → Scoped c (compile_when c es t)
  when-Scoped end c t = fail-Scoped c
  when-Scoped (cons cond end) c t = cell-Scoped cond c t
  when-Scoped (cons cond es) c t =
      branch-Scoped (λ x. emit_op x op_nil) (cell-Scoped cond c false) (body-Scoped es _ t)
        (λ x. emit_byte-Scoped x _)

  cond-Scoped :
      (es : Cells) (c : Compiler) (t : Bool) (ends : List ℕ) → Scoped c (compile_cond c es t ends)
  cond-Scoped end c t ends = patch_jumps-Scoped c ends
  cond-Scoped (cons (expression end) es) c t ends = cond-Scoped es c t ends
  cond-Scoped (cons (expression (cons test body)) es) c t ends =
      let g =
        emit_byte-Scoped c _
        ▸ cell-Scoped test _ false
        ▸ emit_byte-Scoped _ _
        ▸ emit_jump-Scoped _ op_jump_if_nil
        ▸ clause-Scoped body _ t in
      if_both (Scoped c) (ltb (length ends) max_jumps)
        (λ _. g ▸ emit_jump-Scoped _ op_jump ▸ patch_jump-Scoped _ _ ▸ cond-Scoped es _ t _)
        (λ _. g ▸ fail-Scoped _)
  cond-Scoped (cons _ es) c t ends = fail-Scoped c

  clause-Scoped : (es : Cells) (c : Compiler) (t : Bool) → Scoped c (compile_clause c es t)
  clause-Scoped end c t = Scoped-refl c
  clause-Scoped (cons e end) c t = emit_byte-Scoped c _ ▸ cell-Scoped e _ t
  clause-Scoped (cons e es) c t =
      emit_byte-Scoped c _ ▸ cell-Scoped e _ false ▸ emit_byte-Scoped _ _ ▸ body-Scoped es _ t

  and-Scoped :
      (es : Cells) (c : Compiler) (t : Bool) (exits : List ℕ) → Scoped c (compile_and c es t exits)
  and-Scoped end c t exits = emit_byte-Scoped c _
  and-Scoped (cons e end) c t exits = cell-Scoped e c t ▸ finish_and-Scoped _ exits
  and-Scoped (cons e es) c t exits =
      let g = cell-Scoped e c false in
      if_both (Scoped c) (ltb (length exits) max_jumps)
        (λ _. g ▸ emit_jump-Scoped _ op_jump_if_nil ▸ and-Scoped es _ t _) (λ _. g ▸ fail-Scoped _)

  or-Scoped :
      (es : Cells) (c : Compiler) (t : Bool) (exits : List ℕ) → Scoped c (compile_or c es t exits)
  or-Scoped end c t exits = emit_byte-Scoped c _
  or-Scoped (cons e end) c t exits = cell-Scoped e c t ▸ patch_jumps-Scoped _ exits
  or-Scoped (cons e es) c t exits =
      let g = cell-Scoped e c false ▸ emit_byte-Scoped _ _ in
      if_both (Scoped c) (ltb (length exits) max_jumps)
        (λ _. g ▸ emit_jump-Scoped _ op_jump_if_not_nil ▸ emit_byte-Scoped _ _ ▸ or-Scoped es _ t _)
        (λ _. g ▸ fail-Scoped _)

  begin-Scoped : (es : Cells) (c : Compiler) (t : Bool) → Scoped c (compile_begin c es t)
  begin-Scoped end c t = emit_byte-Scoped c _
  begin-Scoped (cons e end) c t = cell-Scoped e c t
  begin-Scoped (cons e es) c t = cell-Scoped e c false ▸ emit_byte-Scoped _ _ ▸ body-Scoped es _ t

  while-Scoped : (es : Cells) (c : Compiler) → Scoped c (compile_while c es)
  while-Scoped end c = fail-Scoped c
  while-Scoped (cons e es) c =
      loop-Scoped c _ op_jump_if_nil (cell-Scoped e c false) (discard-Scoped es _)
      ▸ emit_byte-Scoped _ _

  let-Scoped : (es : Cells) (c : Compiler) (t : Bool) → Scoped c (compile_let c es t)
  let-Scoped end c t = fail-Scoped c
  let-Scoped (cons (expression bs) body) c t =
      let b = bindings-Opens bs c in
      if_both (Scoped c) (compile_bindings c bs).1
        (λ h. given_up (compile_bindings-stopped bs c h) b)
        (λ _. restore_locals-Scoped (b ▸▸ begin-Scoped body _ t))
  let-Scoped (cons _ body) c t = fail-Scoped c

  bindings-Opens : (bs : Cells) (c : Compiler) → Opens c (compile_bindings c bs).0
  bindings-Opens end c = Scoped-Opens (Scoped-refl c)
  bindings-Opens (cons (expression (cons (symbol s) end)) bs) c =
      Opens-trans (add_local-Opens c _ ▸▸ emit_byte-Scoped _ _ ▸▸ emit_store_local-Scoped _ _)
        (bindings-Opens bs _)
  bindings-Opens (cons (expression (cons (symbol s) (cons init _))) bs) c =
      Opens-trans (add_local-Opens c _ ▸▸ cell-Scoped init _ false ▸▸ emit_store_local-Scoped _ _)
        (bindings-Opens bs _)
  bindings-Opens (cons (symbol s) end) c =
      add_local-Opens c _ ▸▸ emit_byte-Scoped _ _ ▸▸ emit_store_local-Scoped _ _
  bindings-Opens (cons (symbol s) (cons init bs)) c =
      Opens-trans (add_local-Opens c _ ▸▸ cell-Scoped init _ false ▸▸ emit_store_local-Scoped _ _)
        (bindings-Opens bs _)
  bindings-Opens (cons _ bs) c = Scoped-Opens (fail-Scoped c)

  local-Scoped : (es : Cells) (c : Compiler) (t : Bool) → Scoped c (compile_local c es t)
  local-Scoped (cons (expression vars) body) c t =
      let b = declare_locals-Opens vars c in
      if_both (Scoped c) (declare_locals c vars).1
        (λ h. given_up (declare_locals-stopped vars c h) b)
        (λ _. restore_locals-Scoped (b ▸▸ begin-Scoped body _ t))
  local-Scoped _ c t = fail-Scoped c

  dotimes-Scoped : (es : Cells) (c : Compiler) → Scoped c (compile_dotimes c es)
  dotimes-Scoped (cons (expression (cons (symbol s) (cons e _))) body) c =
      let g =
        Opens-trans (add_local-Opens c _ ▸▸ cell-Scoped e _ false ▸▸ emit_store_local-Scoped _ _)
          (add_local-Opens _ _ ▸▸ emit_byte-Scoped _ _ ▸▸ emit_store_local-Scoped _ _) in
      let t = emit_load_local-Scoped _ _ ▸ emit_load_local-Scoped _ _ ▸ emit_byte-Scoped _ _ in
      let r =
        rounds-Scoped body _
        ▸ emit_load_local-Scoped _ _
        ▸ emit_byte-Scoped _ _
        ▸ emit_store_local-Scoped _ _ in
      restore_locals-Scoped (g ▸▸ loop-Scoped _ _ op_jump_if_nil t r ▸▸ emit_byte-Scoped _ _)
  dotimes-Scoped _ c = fail-Scoped c

  rounds-Scoped : (es : Cells) (c : Compiler) → Scoped c (compile_rounds c es)
  rounds-Scoped end c = emit_byte-Scoped c _ ▸ emit_byte-Scoped _ _
  rounds-Scoped (cons e es) c = cell-Scoped e c false ▸ emit_byte-Scoped _ _ ▸ discard-Scoped es _

  set-Scoped : (es : Cells) (c : Compiler) (is_setq : Bool) → Scoped c (compile_set c es is_setq)
  set-Scoped end c q = fail-Scoped c
  set-Scoped (cons target end) c q = fail-Scoped c
  set-Scoped (cons target (cons val end)) c q =
      found_both (Scoped c) (set_target q target)
        (λ s. cell-Scoped val c false ▸ emit_byte-Scoped _ _ ▸ store_variable-Scoped _ _ s)
        (fail-Scoped c)
  set-Scoped (cons target (cons val es)) c q =
      found_both (Scoped c) (set_target q target)
        (λ s.
          cell-Scoped val c false
          ▸ emit_byte-Scoped _ _
          ▸ store_variable-Scoped _ _ s
          ▸ emit_byte-Scoped _ _
          ▸ set-Scoped es _ q)
        (fail-Scoped c)

  inc-Scoped : (es : Cells) (c : Compiler) (is_inc : Bool) → Scoped c (compile_inc c es is_inc)
  inc-Scoped end c q = fail-Scoped c
  inc-Scoped (cons target es) c q =
      found_both (Scoped c) (inc_target target)
        (λ s.
          found_both (Scoped c) (find_local c.locals s.address)
            (λ slot.
              emit_load_local-Scoped c slot
              ▸ delta-Scoped es _ q
              ▸ emit_byte-Scoped _ _
              ▸ emit_store_local-Scoped _ slot)
            (add_symbol-Scoped c s
              ▸ emit_byte-Scoped _ _
              ▸ emit_uint16-Scoped _ _
              ▸ delta-Scoped es _ q
              ▸ emit_byte-Scoped _ _
              ▸ emit_byte-Scoped _ _
              ▸ emit_uint16-Scoped _ _))
        (fail-Scoped c)

  delta-Scoped : (es : Cells) (c : Compiler) (is_inc : Bool) → Scoped c (compile_delta c es is_inc)
  delta-Scoped end c q = emit_byte-Scoped c _
  delta-Scoped (cons e _) c q = cell-Scoped e c false ▸ emit_byte-Scoped _ _

  compare-Scoped : (es : Cells) (c : Compiler) (op : Opcode) → Scoped c (compile_compare c es op)
  compare-Scoped (cons a (cons b end)) c op =
      cell-Scoped a c false ▸ cell-Scoped b _ false ▸ emit_byte-Scoped _ _
  compare-Scoped _ c op = fail-Scoped c

  operands-Scoped : (es : Cells) (c : Compiler) (op : Opcode) → Scoped c (compile_operands c es op)
  operands-Scoped end c op = Scoped-refl c
  operands-Scoped (cons e es) c op =
      cell-Scoped e c false ▸ emit_byte-Scoped _ _ ▸ operands-Scoped es _ op

  add-Scoped : (es : Cells) (c : Compiler) → Scoped c (compile_add c es)
  add-Scoped end c = emit_byte-Scoped c _
  add-Scoped (cons a end) c = cell-Scoped a c false
  add-Scoped (cons a (cons b end)) c =
      if_both (Scoped c) (is_long 1 b) (λ _. cell-Scoped a c false ▸ emit_byte-Scoped _ _)
        λ _.
          if_both (Scoped c) (is_long 1 a) (λ _. cell-Scoped b c false ▸ emit_byte-Scoped _ _)
            (λ _. cell-Scoped a c false ▸ cell-Scoped b _ false ▸ emit_byte-Scoped _ _)
  add-Scoped (cons a es) c = cell-Scoped a c false ▸ operands-Scoped es _ _

  sub-Scoped : (es : Cells) (c : Compiler) → Scoped c (compile_sub c es)
  sub-Scoped end c = fail-Scoped c
  sub-Scoped (cons a end) c = cell-Scoped a c false ▸ emit_byte-Scoped _ _
  sub-Scoped (cons a (cons b end)) c =
      if_both (Scoped c) (is_long 1 b) (λ _. cell-Scoped a c false ▸ emit_byte-Scoped _ _)
        λ _.
          if_both (Scoped c) (is_long 2 b) (λ _. cell-Scoped a c false ▸ emit_byte-Scoped _ _)
            (λ _. cell-Scoped a c false ▸ cell-Scoped b _ false ▸ emit_byte-Scoped _ _)
  sub-Scoped (cons a es) c = cell-Scoped a c false ▸ operands-Scoped es _ _

  mul-Scoped : (es : Cells) (c : Compiler) → Scoped c (compile_mul c es)
  mul-Scoped end c = emit_byte-Scoped c _
  mul-Scoped (cons a es) c = cell-Scoped a c false ▸ operands-Scoped es _ _

  div-Scoped : (es : Cells) (c : Compiler) → Scoped c (compile_div c es)
  div-Scoped end c = fail-Scoped c
  div-Scoped (cons a end) c = fail-Scoped c
  div-Scoped (cons a es) c = cell-Scoped a c false ▸ operands-Scoped es _ _

-- Unless compiling an expression fails, the same locals are in scope after it as before it, in the
-- same slots: what `let`, `local` and `dotimes` enter is gone at their end. If the frame had a slot
-- for each local in scope it has one still.
pub compile-Scoped : (c : Compiler) (e : Cell) (t : Bool) → Scoped c (compile c e t)
compile-Scoped c e t = cell-Scoped e c t
