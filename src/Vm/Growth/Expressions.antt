-- ===== src/Vm/Growth/Expressions.antt =====
-- `compileExpr` of nl-vm.c keeps what was emitted before it.
use newlisp_neo.Prelude.{
  ℕ, Bool, false, List, [], length, ltb, ◌==◌, if_both, found_both, Option, none, some,
}
use newlisp_neo.Vm.Opcode.{
  Opcode, opcode, op_call, op_tail_call, op_call_self, op_tail_call_self, op_nil, op_pop, op_jump,
  op_jump_if_nil, op_jump_if_not_nil,
}
use newlisp_neo.Vm.Cell.{
  Symbol, Cell, Cells, nil, true_cell, long, float, string, quote, symbol, expression, lambda,
  other, end, cons,
}
use newlisp_neo.Vm.State.{
  Compiler, code_size, fail, emit_op, emit_jump, find_local, patch_jump, write_offset,
}
use newlisp_neo.Vm.Forms.{
  if_form, when_form, cond_form, and_form, or_form, begin_form, while_form, let_form, local_form,
  dotimes_form, set_form, inc_form, compare_form, add_form, sub_form, mul_form, div_form, self_form,
  special_form, call_form, is_self, classify,
}
use newlisp_neo.Vm.Compile.{
  emit_call, count, max_jumps, compile, compile_args, compile_body, compile_discard, compile_if,
  compile_when, compile_cond, compile_clause, compile_and, compile_or, compile_begin, compile_while,
  compile_let, compile_bindings, compile_local, compile_dotimes, compile_rounds, compile_set,
  compile_inc, compile_delta, compile_compare, compile_operands, compile_add, compile_sub,
  compile_mul, compile_div, compile_long, compile_symbol, declare_locals, set_target, inc_target,
  store_variable, is_long,
}
use newlisp_neo.Vm.Growth.{
  Later-trans, Grows, Grows-refl, ◌▸◌, fail-Grows, emit_byte-Grows, emit_uint16-Grows,
  emit_jump-Grows, add_symbol-Grows, add_local-Grows, restore_locals-Grows, emit_load_local-Grows,
  emit_store_local-Grows, emit_const-Grows, emit_global-Grows, emit_call-Grows,
}
use newlisp_neo.Vm.Growth.Patches.{
  Owned-Later, patch_jump-Later, patch_jump-Grows, write_offset-Later, write_offset-Grows,
  emit_jump-Owned, AllOwned, AllOwned-Later, AllOwned-append, patch_jumps-Grows, finish_and-Grows,
}

compile_long-Grows : (c : Compiler) (v : ℕ) → Grows c (compile_long c v)
unfolding compile_long
compile_long-Grows c v =
    if_both (Grows c) (v == 0) (λ _. emit_byte-Grows c _)
      λ _.
        if_both (Grows c) (v == 1) (λ _. emit_byte-Grows c _)
          λ _. if_both (Grows c) (v == 2) (λ _. emit_byte-Grows c _) (λ _. emit_const-Grows c _)

compile_symbol-Grows : (c : Compiler) (s : Symbol) → Grows c (compile_symbol c s)
unfolding compile_symbol
compile_symbol-Grows c s =
    found_both (Grows c) (find_local c.locals s.address) (λ slot. emit_load_local-Grows c slot)
      (if_both (Grows c) (is_self c s) (λ _. emit_byte-Grows c _) (λ _. emit_global-Grows c _ s))

store_variable-Grows :
    (c : Compiler) (slot : Option ℕ) (s : Symbol) → Grows c (store_variable c slot s)
unfolding store_variable
store_variable-Grows c none s = emit_global-Grows c _ s
store_variable-Grows c (some slot) s = emit_store_local-Grows c slot

declare_locals-Grows : (vars : Cells) (c : Compiler) → Grows c (declare_locals c vars).0
unfolding declare_locals
declare_locals-Grows end c = Grows-refl c
declare_locals-Grows (cons (symbol s) vars) c =
    add_local-Grows c _
    ▸ emit_byte-Grows _ _
    ▸ emit_store_local-Grows _ _
    ▸ declare_locals-Grows vars _
declare_locals-Grows (cons _ vars) c = fail-Grows c

-- A test, a branch taken if it holds, and one taken if it does not.
branch-Grows :
    {c test then_ : Compiler} (els : Compiler → Compiler)
    → Grows c test
    → Grows (emit_jump test op_jump_if_nil).0 then_
    → ((x : Compiler) → Grows x (els x))
    → Grows c (
        patch_jump
          (els (patch_jump (emit_jump then_ op_jump).0 (emit_jump test op_jump_if_nil).1))
          (emit_jump then_ op_jump).1)
branch-Grows {c} {test} {then_} els g h k =
    let j₁ = emit_jump-Grows test op_jump_if_nil in
    let j₂ = emit_jump-Grows then_ op_jump in
    let o₁ = Owned-Later (Owned-Later (emit_jump-Owned op_jump_if_nil g.later) h.later) j₂.later in
    let at_end = g ▸ j₁ ▸ h in
    let p = patch_jump-Grows o₁ (at_end ▸ j₂) in
    let l = patch_jump-Later (emit_jump then_ op_jump).0 (emit_jump test op_jump_if_nil).1 in
    let e = k (patch_jump (emit_jump then_ op_jump).0 (emit_jump test op_jump_if_nil).1) in
    patch_jump-Grows (Owned-Later (Owned-Later (emit_jump-Owned op_jump at_end.later) l) e.later)
      (p ▸ e)

-- A loop: a test, rounds that end in a jump back to the start, and the way out.
loop-Grows :
    (c test : Compiler) {rounds : Compiler} (op : Opcode)
    → Grows c test
    → Grows (emit_jump test op).0 rounds
    → Grows c (
        patch_jump
          (write_offset (emit_jump rounds op_jump).0 (emit_jump rounds op_jump).1 (code_size c))
          (emit_jump test op).1)
loop-Grows c test {rounds} op g h =
    let at_end = g ▸ emit_jump-Grows test op ▸ h in
    let j = emit_jump-Grows rounds op_jump in
    let w = write_offset-Grows (code_size c) (emit_jump-Owned op_jump at_end.later) (at_end ▸ j) in
    let l = write_offset-Later _ _ _ in
    patch_jump-Grows (Owned-Later (Owned-Later (emit_jump-Owned op g.later) (h ▸ j).later) l) w

mutual
  unfolding compile

  cell-Grows : (e : Cell) (c : Compiler) (t : Bool) → Grows c (compile c e t)
  cell-Grows nil c t = emit_byte-Grows c _
  cell-Grows true_cell c t = emit_byte-Grows c _
  cell-Grows (long v) c t = compile_long-Grows c v
  cell-Grows (float v) c t = emit_const-Grows c _
  cell-Grows (string v) c t = emit_const-Grows c _
  cell-Grows (quote e) c t = emit_const-Grows c _
  cell-Grows (symbol s) c t = compile_symbol-Grows c s
  cell-Grows (expression end) c t = emit_byte-Grows c _
  cell-Grows (expression (cons (symbol s) es)) c t =
      if_both (Grows c) c.failed (λ _. emit_byte-Grows c _)
        (λ _.
          (elim (classify c s)
            as (λ f. Grows c (elim f [
              | if_form ↦ compile_if c es t
              | when_form ↦ compile_when c es t
              | cond_form ↦ compile_cond (emit_op c op_nil) es t []
              | and_form ↦ compile_and c es t []
              | or_form ↦ compile_or c es t []
              | begin_form ↦ compile_begin c es t
              | while_form ↦ compile_while c es
              | let_form ↦ compile_let c es t
              | local_form ↦ compile_local c es t
              | dotimes_form ↦ compile_dotimes c es
              | set_form is_setq ↦ compile_set c es is_setq
              | inc_form is_inc ↦ compile_inc c es is_inc
              | compare_form op ↦ compile_compare c es op
              | add_form ↦ compile_add c es
              | sub_form ↦ compile_sub c es
              | mul_form ↦ compile_mul c es
              | div_form ↦ compile_div c es
              | self_form ↦
                  emit_call (compile_args c es) op_call_self op_tail_call_self t (count es)
              | special_form ↦ fail c
              | call_form ↦
                  emit_call (compile_args (compile_symbol c s) es) op_call op_tail_call t (count es)
            ])) [
              | if_form ↦ if-Grows es c t
              | when_form ↦ when-Grows es c t
              | cond_form ↦ cond-Grows es _ t c [] tt (emit_byte-Grows c _)
              | and_form ↦ and-Grows es c t c [] tt (Grows-refl c)
              | or_form ↦ or-Grows es c t c [] tt (Grows-refl c)
              | begin_form ↦ begin-Grows es c t
              | while_form ↦ while-Grows es c
              | let_form ↦ let-Grows es c t
              | local_form ↦ local-Grows es c t
              | dotimes_form ↦ dotimes-Grows es c
              | set_form q ↦ set-Grows es c q
              | inc_form q ↦ inc-Grows es c q
              | compare_form op ↦ compare-Grows es c op
              | add_form ↦ add-Grows es c
              | sub_form ↦ sub-Grows es c
              | mul_form ↦ mul-Grows es c
              | div_form ↦ div-Grows es c
              | self_form ↦ args-Grows es c ▸ emit_call-Grows _ _ _ t _
              | special_form ↦ fail-Grows c
              | call_form ↦ compile_symbol-Grows c s ▸ args-Grows es _ ▸ emit_call-Grows _ _ _ t _
            ]))
  cell-Grows (expression (cons head es)) c t =
      if_both (Grows c) c.failed (λ _. emit_byte-Grows c _)
        (λ _. cell-Grows head c false ▸ args-Grows es _ ▸ emit_call-Grows _ _ _ t _)
  cell-Grows (lambda es) c t =
      if_both (Grows c) c.failed (λ _. emit_byte-Grows c _) (λ _. fail-Grows c)
  cell-Grows (other k) c t =
      if_both (Grows c) c.failed (λ _. emit_byte-Grows c _) (λ _. fail-Grows c)

  args-Grows : (es : Cells) (c : Compiler) → Grows c (compile_args c es)
  args-Grows end c = Grows-refl c
  args-Grows (cons e es) c = cell-Grows e c false ▸ args-Grows es _

  body-Grows : (es : Cells) (c : Compiler) (t : Bool) → Grows c (compile_body c es t)
  body-Grows end c t = Grows-refl c
  body-Grows (cons e end) c t = cell-Grows e c t
  body-Grows (cons e es) c t = cell-Grows e c false ▸ emit_byte-Grows _ _ ▸ body-Grows es _ t

  discard-Grows : (es : Cells) (c : Compiler) → Grows c (compile_discard c es)
  discard-Grows end c = Grows-refl c
  discard-Grows (cons e es) c = cell-Grows e c false ▸ emit_byte-Grows _ _ ▸ discard-Grows es _

  if-Grows : (es : Cells) (c : Compiler) (t : Bool) → Grows c (compile_if c es t)
  if-Grows end c t = fail-Grows c
  if-Grows (cons cond end) c t = fail-Grows c
  if-Grows (cons cond (cons a end)) c t =
      branch-Grows (λ x. emit_op x op_nil) (cell-Grows cond c false) (cell-Grows a _ t)
        (λ x. emit_byte-Grows x _)
  if-Grows (cons cond (cons a (cons b es))) c t =
      branch-Grows (λ x. compile x b t) (cell-Grows cond c false) (cell-Grows a _ t)
        (λ x. cell-Grows b x t)

  when-Grows : (es : Cells) (c : Compiler) (t : Bool) → Grows c (compile_when c es t)
  when-Grows end c t = fail-Grows c
  when-Grows (cons cond end) c t = cell-Grows cond c t
  when-Grows (cons cond es) c t =
      branch-Grows (λ x. emit_op x op_nil) (cell-Grows cond c false) (body-Grows es _ t)
        (λ x. emit_byte-Grows x _)

  cond-Grows :
      (es : Cells) (c : Compiler) (t : Bool) (c₀ : Compiler) (ends : List ℕ)
      → AllOwned c₀ c ends
      → Grows c₀ c
      → Grows c₀ (compile_cond c es t ends)
  cond-Grows end c t c₀ ends os g = patch_jumps-Grows c ends os g
  cond-Grows (cons (expression end) es) c t c₀ ends os g = cond-Grows es c t c₀ ends os g
  cond-Grows (cons (expression (cons test body)) es) c t c₀ ends os g =
      let i = emit_byte-Grows c _ ▸ cell-Grows test _ false ▸ emit_byte-Grows _ _ in
      let j₁ = emit_jump-Grows _ op_jump_if_nil in
      let k = clause-Grows body _ t in
      let at_end = g ▸ i ▸ j₁ ▸ k in
      let j₂ = emit_jump-Grows _ op_jump in
      let o₁ = Owned-Later (emit_jump-Owned op_jump_if_nil (g ▸ i).later) (k ▸ j₂).later in
      let l = patch_jump-Later _ _ in
      let later = Later-trans (i ▸ j₁ ▸ k ▸ j₂).later l in
      let o₂ = Owned-Later (emit_jump-Owned op_jump at_end.later) l in
      if_both (Grows c₀) (ltb (length ends) max_jumps)
        (λ _.
          cond-Grows es _ t c₀ _ (AllOwned-append c₀ _ ends (AllOwned-Later c₀ ends os later) o₂)
            (patch_jump-Grows o₁ (at_end ▸ j₂)))
        (λ _. at_end ▸ fail-Grows _)
  cond-Grows (cons _ es) c t c₀ ends os g = g ▸ fail-Grows c

  clause-Grows : (es : Cells) (c : Compiler) (t : Bool) → Grows c (compile_clause c es t)
  clause-Grows end c t = Grows-refl c
  clause-Grows (cons e end) c t = emit_byte-Grows c _ ▸ cell-Grows e _ t
  clause-Grows (cons e es) c t =
      emit_byte-Grows c _ ▸ cell-Grows e _ false ▸ emit_byte-Grows _ _ ▸ body-Grows es _ t

  and-Grows :
      (es : Cells) (c : Compiler) (t : Bool) (c₀ : Compiler) (exits : List ℕ)
      → AllOwned c₀ c exits
      → Grows c₀ c
      → Grows c₀ (compile_and c es t exits)
  and-Grows end c t c₀ exits os g = g ▸ emit_byte-Grows c _
  and-Grows (cons e end) c t c₀ exits os g =
      let k = cell-Grows e c t in
      finish_and-Grows _ exits (AllOwned-Later c₀ exits os k.later) (g ▸ k)
  and-Grows (cons e es) c t c₀ exits os g =
      let k = cell-Grows e c false in
      let j = emit_jump-Grows _ op_jump_if_nil in
      let os' = AllOwned-Later c₀ exits os (k ▸ j).later in
      let o = emit_jump-Owned op_jump_if_nil (g ▸ k).later in
      if_both (Grows c₀) (ltb (length exits) max_jumps)
        (λ _. and-Grows es _ t c₀ _ (AllOwned-append c₀ _ exits os' o) (g ▸ k ▸ j))
        (λ _. g ▸ k ▸ fail-Grows _)

  or-Grows :
      (es : Cells) (c : Compiler) (t : Bool) (c₀ : Compiler) (exits : List ℕ)
      → AllOwned c₀ c exits
      → Grows c₀ c
      → Grows c₀ (compile_or c es t exits)
  or-Grows end c t c₀ exits os g = g ▸ emit_byte-Grows c _
  or-Grows (cons e end) c t c₀ exits os g =
      let k = cell-Grows e c t in
      patch_jumps-Grows _ exits (AllOwned-Later c₀ exits os k.later) (g ▸ k)
  or-Grows (cons e es) c t c₀ exits os g =
      let k = cell-Grows e c false ▸ emit_byte-Grows _ _ in
      let j = emit_jump-Grows _ op_jump_if_not_nil in
      let d = emit_byte-Grows _ (opcode op_pop) in
      let os' = AllOwned-Later c₀ exits os (k ▸ j ▸ d).later in
      let o = Owned-Later (emit_jump-Owned op_jump_if_not_nil (g ▸ k).later) d.later in
      if_both (Grows c₀) (ltb (length exits) max_jumps)
        (λ _. or-Grows es _ t c₀ _ (AllOwned-append c₀ _ exits os' o) (g ▸ k ▸ j ▸ d))
        (λ _. g ▸ k ▸ fail-Grows _)

  begin-Grows : (es : Cells) (c : Compiler) (t : Bool) → Grows c (compile_begin c es t)
  begin-Grows end c t = emit_byte-Grows c _
  begin-Grows (cons e end) c t = cell-Grows e c t
  begin-Grows (cons e es) c t = cell-Grows e c false ▸ emit_byte-Grows _ _ ▸ body-Grows es _ t

  while-Grows : (es : Cells) (c : Compiler) → Grows c (compile_while c es)
  while-Grows end c = fail-Grows c
  while-Grows (cons e es) c =
      loop-Grows c _ op_jump_if_nil (cell-Grows e c false) (discard-Grows es _)
      ▸ emit_byte-Grows _ _

  let-Grows : (es : Cells) (c : Compiler) (t : Bool) → Grows c (compile_let c es t)
  let-Grows end c t = fail-Grows c
  let-Grows (cons (expression bs) body) c t =
      let b = bindings-Grows bs c in
      if_both (Grows c) (compile_bindings c bs).1 (λ _. b)
        (λ _. b ▸ begin-Grows body _ t ▸ restore_locals-Grows _ _)
  let-Grows (cons _ body) c t = fail-Grows c

  bindings-Grows : (bs : Cells) (c : Compiler) → Grows c (compile_bindings c bs).0
  bindings-Grows end c = Grows-refl c
  bindings-Grows (cons (expression (cons (symbol s) end)) bs) c =
      add_local-Grows c _ ▸ emit_byte-Grows _ _ ▸ emit_store_local-Grows _ _ ▸ bindings-Grows bs _
  bindings-Grows (cons (expression (cons (symbol s) (cons init _))) bs) c =
      add_local-Grows c _
      ▸ cell-Grows init _ false
      ▸ emit_store_local-Grows _ _
      ▸ bindings-Grows bs _
  bindings-Grows (cons (symbol s) end) c =
      add_local-Grows c _ ▸ emit_byte-Grows _ _ ▸ emit_store_local-Grows _ _
  bindings-Grows (cons (symbol s) (cons init bs)) c =
      add_local-Grows c _
      ▸ cell-Grows init _ false
      ▸ emit_store_local-Grows _ _
      ▸ bindings-Grows bs _
  bindings-Grows (cons _ bs) c = fail-Grows c

  local-Grows : (es : Cells) (c : Compiler) (t : Bool) → Grows c (compile_local c es t)
  local-Grows (cons (expression vars) body) c t =
      let b = declare_locals-Grows vars c in
      if_both (Grows c) (declare_locals c vars).1 (λ _. b)
        (λ _. b ▸ begin-Grows body _ t ▸ restore_locals-Grows _ _)
  local-Grows _ c t = fail-Grows c

  dotimes-Grows : (es : Cells) (c : Compiler) → Grows c (compile_dotimes c es)
  dotimes-Grows (cons (expression (cons (symbol s) (cons e _))) body) c =
      let g =
        add_local-Grows c _
        ▸ cell-Grows e _ false
        ▸ emit_store_local-Grows _ _
        ▸ add_local-Grows _ _
        ▸ emit_byte-Grows _ _
        ▸ emit_store_local-Grows _ _ in
      let t = emit_load_local-Grows _ _ ▸ emit_load_local-Grows _ _ ▸ emit_byte-Grows _ _ in
      let r =
        rounds-Grows body _
        ▸ emit_load_local-Grows _ _
        ▸ emit_byte-Grows _ _
        ▸ emit_store_local-Grows _ _ in
      g ▸ loop-Grows _ _ op_jump_if_nil t r ▸ emit_byte-Grows _ _ ▸ restore_locals-Grows _ _
  dotimes-Grows _ c = fail-Grows c

  rounds-Grows : (es : Cells) (c : Compiler) → Grows c (compile_rounds c es)
  rounds-Grows end c = emit_byte-Grows c _ ▸ emit_byte-Grows _ _
  rounds-Grows (cons e es) c = cell-Grows e c false ▸ emit_byte-Grows _ _ ▸ discard-Grows es _

  set-Grows : (es : Cells) (c : Compiler) (is_setq : Bool) → Grows c (compile_set c es is_setq)
  set-Grows end c q = fail-Grows c
  set-Grows (cons target end) c q = fail-Grows c
  set-Grows (cons target (cons val end)) c q =
      found_both (Grows c) (set_target q target)
        (λ s. cell-Grows val c false ▸ emit_byte-Grows _ _ ▸ store_variable-Grows _ _ s)
        (fail-Grows c)
  set-Grows (cons target (cons val es)) c q =
      found_both (Grows c) (set_target q target)
        (λ s.
          cell-Grows val c false
          ▸ emit_byte-Grows _ _
          ▸ store_variable-Grows _ _ s
          ▸ emit_byte-Grows _ _
          ▸ set-Grows es _ q)
        (fail-Grows c)

  inc-Grows : (es : Cells) (c : Compiler) (is_inc : Bool) → Grows c (compile_inc c es is_inc)
  inc-Grows end c q = fail-Grows c
  inc-Grows (cons target es) c q =
      found_both (Grows c) (inc_target target)
        (λ s.
          found_both (Grows c) (find_local c.locals s.address)
            (λ slot.
              emit_load_local-Grows c slot
              ▸ delta-Grows es _ q
              ▸ emit_byte-Grows _ _
              ▸ emit_store_local-Grows _ slot)
            (add_symbol-Grows c s
              ▸ emit_byte-Grows _ _
              ▸ emit_uint16-Grows _ _
              ▸ delta-Grows es _ q
              ▸ emit_byte-Grows _ _
              ▸ emit_byte-Grows _ _
              ▸ emit_uint16-Grows _ _))
        (fail-Grows c)

  delta-Grows : (es : Cells) (c : Compiler) (is_inc : Bool) → Grows c (compile_delta c es is_inc)
  delta-Grows end c q = emit_byte-Grows c _
  delta-Grows (cons e _) c q = cell-Grows e c false ▸ emit_byte-Grows _ _

  compare-Grows : (es : Cells) (c : Compiler) (op : Opcode) → Grows c (compile_compare c es op)
  compare-Grows (cons a (cons b end)) c op =
      cell-Grows a c false ▸ cell-Grows b _ false ▸ emit_byte-Grows _ _
  compare-Grows _ c op = fail-Grows c

  operands-Grows : (es : Cells) (c : Compiler) (op : Opcode) → Grows c (compile_operands c es op)
  operands-Grows end c op = Grows-refl c
  operands-Grows (cons e es) c op =
      cell-Grows e c false ▸ emit_byte-Grows _ _ ▸ operands-Grows es _ op

  add-Grows : (es : Cells) (c : Compiler) → Grows c (compile_add c es)
  add-Grows end c = emit_byte-Grows c _
  add-Grows (cons a end) c = cell-Grows a c false
  add-Grows (cons a (cons b end)) c =
      if_both (Grows c) (is_long 1 b) (λ _. cell-Grows a c false ▸ emit_byte-Grows _ _)
        λ _.
          if_both (Grows c) (is_long 1 a) (λ _. cell-Grows b c false ▸ emit_byte-Grows _ _)
            (λ _. cell-Grows a c false ▸ cell-Grows b _ false ▸ emit_byte-Grows _ _)
  add-Grows (cons a es) c = cell-Grows a c false ▸ operands-Grows es _ _

  sub-Grows : (es : Cells) (c : Compiler) → Grows c (compile_sub c es)
  sub-Grows end c = fail-Grows c
  sub-Grows (cons a end) c = cell-Grows a c false ▸ emit_byte-Grows _ _
  sub-Grows (cons a (cons b end)) c =
      if_both (Grows c) (is_long 1 b) (λ _. cell-Grows a c false ▸ emit_byte-Grows _ _)
        λ _.
          if_both (Grows c) (is_long 2 b) (λ _. cell-Grows a c false ▸ emit_byte-Grows _ _)
            (λ _. cell-Grows a c false ▸ cell-Grows b _ false ▸ emit_byte-Grows _ _)
  sub-Grows (cons a es) c = cell-Grows a c false ▸ operands-Grows es _ _

  mul-Grows : (es : Cells) (c : Compiler) → Grows c (compile_mul c es)
  mul-Grows end c = emit_byte-Grows c _
  mul-Grows (cons a es) c = cell-Grows a c false ▸ operands-Grows es _ _

  div-Grows : (es : Cells) (c : Compiler) → Grows c (compile_div c es)
  div-Grows end c = fail-Grows c
  div-Grows (cons a end) c = fail-Grows c
  div-Grows (cons a es) c = cell-Grows a c false ▸ operands-Grows es _ _

-- Compiling any expression keeps the code that was there and adds to it. It keeps the code within
-- its buffer, writes nowhere outside of the buffer unless it fails, undoes no failure, leaves the
-- count of parameters alone, and needs no fewer locals than before and no more than 256.
pub compile-Grows : (c : Compiler) (e : Cell) (t : Bool) → Grows c (compile c e t)
compile-Grows c e t = cell-Grows e c t
