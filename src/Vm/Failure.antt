-- ===== src/Vm/Failure.antt =====
-- How compiling fails in nl-vm.c: a compiler that has failed stays as it is, but for the jump back
-- of a loop, which is written all the same.
use newlisp_neo.Prelude.{
  ℕ, ◌+◌, ◌/◌, ◌%◌, ◌^◌, ◌≤◌, if◌then◌else◌, ◌≡◌, refl, ◌∙◌, ap, Bool, true, false, if_true,
  if_false, if_both, found_both, ltb, ◌==◌, arith,
}
use newlisp_neo.Vm.Opcode.{Opcode, opcode, op_const, op_pop, op_jump_if_nil, op_jump, op_nil}
use newlisp_neo.Vm.Cell.{
  Symbol, Cell, Cells, nil, true_cell, long, float, string, quote, symbol, expression, lambda,
  other, end, cons,
}
use newlisp_neo.Vm.State.{
  Compiler, code_size, emit_byte, emit_op, emit_uint16, emit_jump, write_code, offset16,
  write_offset, patch_jump, add_constant, add_symbol, find_local, emit_load_local, emit_const,
}
use newlisp_neo.Vm.Forms.{is_self}
use newlisp_neo.Vm.Compile.{
  compile, compile_long, compile_symbol, emit_global, compile_discard, compile_while,
}

module _ (c : Compiler) (failed : c.failed ≡ true) where
  emit_byte-failed : (b : ℕ) → emit_byte c b ≡ c
  unfolding emit_byte
  emit_byte-failed b = if_true c.failed _ _ failed

module _ (c : Compiler) (failed : c.failed ≡ true) where
  emit_uint16-failed : (v : ℕ) → emit_uint16 c v ≡ c
  unfolding emit_uint16
  emit_uint16-failed v =
      let e = emit_byte-failed c failed (v % 256) in
      ap (λ d. emit_byte d (v / 256 % 256)) e ∙ emit_byte-failed c failed (v / 256 % 256)

  add_constant-failed : (v : Cell) → add_constant c v ≡ (c, 0)
  unfolding add_constant
  add_constant-failed v = if_true c.failed _ _ failed

  add_symbol-failed : (s : Symbol) → add_symbol c s ≡ (c, 0)
  unfolding add_symbol
  add_symbol-failed s = if_true c.failed _ _ failed

  emit_load_local-failed : (slot : ℕ) → emit_load_local c slot ≡ c
  unfolding emit_load_local
  emit_load_local-failed slot =
      if_both (λ d. d ≡ c) (ltb slot 4) (λ _. emit_byte-failed c failed _)
        (λ _.
          ap (λ d. emit_uint16 d (slot % 2 ^ 16)) (emit_byte-failed c failed _)
          ∙ emit_uint16-failed _)

  emit_const-failed : (v : Cell) → emit_const c v ≡ c
  unfolding emit_const
  emit_const-failed v =
      ap (λ (p : Compiler × ℕ). emit_uint16 (emit_op p.0 op_const) p.1) (add_constant-failed v)
      ∙ ap (λ d. emit_uint16 d 0) (emit_byte-failed c failed _)
      ∙ emit_uint16-failed 0

  emit_global-failed : (op : Opcode) (s : Symbol) → emit_global c op s ≡ c
  unfolding emit_global
  emit_global-failed op s =
      ap (λ (p : Compiler × ℕ). emit_uint16 (emit_op p.0 op) p.1) (add_symbol-failed s)
      ∙ ap (λ d. emit_uint16 d 0) (emit_byte-failed c failed _)
      ∙ emit_uint16-failed 0

  compile_long-failed : (v : ℕ) → compile_long c v ≡ c
  unfolding compile_long
  compile_long-failed v =
      if_both (λ d. d ≡ c) (v == 0) (λ _. emit_byte-failed c failed _)
        λ _.
          if_both (λ d. d ≡ c) (v == 1) (λ _. emit_byte-failed c failed _)
            λ _.
              if_both (λ d. d ≡ c) (v == 2) (λ _. emit_byte-failed c failed _)
                (λ _. emit_const-failed _)

  compile_symbol-failed : (s : Symbol) → compile_symbol c s ≡ c
  unfolding compile_symbol
  compile_symbol-failed s =
      found_both (λ d. d ≡ c) (find_local c.locals s.address) emit_load_local-failed
        (if_both (λ d. d ≡ c) (is_self c s) (λ _. emit_byte-failed c failed _)
          (λ _. emit_global-failed _ s))

  given_up : (d : Compiler) → (if c.failed then emit_op c op_nil else d) ≡ c
  given_up d = if_true c.failed _ d failed ∙ emit_byte-failed c failed _

  -- Once compiling has failed, no expression changes anything any more: not the code, the tables,
  -- the locals nor the frame's size.
  pub compile-failed : (e : Cell) (t : Bool) → compile c e t ≡ c
  unfolding compile
  compile-failed nil t = emit_byte-failed c failed _
  compile-failed true_cell t = emit_byte-failed c failed _
  compile-failed (long v) t = compile_long-failed v
  compile-failed (float v) t = emit_const-failed _
  compile-failed (string v) t = emit_const-failed _
  compile-failed (quote e) t = emit_const-failed e
  compile-failed (symbol s) t = compile_symbol-failed s
  compile-failed (expression end) t = emit_byte-failed c failed _
  compile-failed (expression (cons (symbol s) es)) t = given_up _
  compile-failed (expression (cons _ es)) t = given_up _
  compile-failed (lambda es) t = given_up _
  compile-failed (other k) t = given_up _

  emit_jump-failed : (op : Opcode) → emit_jump c op ≡ (c, code_size c)
  unfolding emit_jump
  emit_jump-failed op =
      ap (λ d. (emit_uint16 d 0, code_size d)) (emit_byte-failed c failed (opcode op))
      ∙ ap (λ d. (d, code_size c)) (emit_uint16-failed 0)

compile_discard-failed : (es : Cells) (c : Compiler) → c.failed ≡ true → compile_discard c es ≡ c
unfolding compile
compile_discard-failed end c failed = refl
compile_discard-failed (cons e es) c failed =
    ap (λ d. compile_discard (emit_op d op_pop) es) (compile-failed c failed e false)
    ∙ ap (λ d. compile_discard d es) (emit_byte-failed c failed (opcode op_pop))
    ∙ compile_discard-failed es c failed

write_code-outside :
    (c : Compiler) (pos b : ℕ)
    → c.code_capacity ≤ pos
    → write_code c pos b ≡ record c { fault = true }
unfolding write_code
write_code-outside c pos b h = if_false (ltb pos c.code_capacity) _ _ (ground arith)

patch_jump-failed : (c : Compiler) (pos : ℕ) → c.failed ≡ true → patch_jump c pos ≡ c
unfolding patch_jump
patch_jump-failed c pos failed = if_true c.failed _ _ failed

write_offset-outside :
    (c : Compiler) (pos to : ℕ)
    → c.code_capacity ≤ pos
    → write_offset c pos to ≡ record c { fault = true }
unfolding write_offset
write_offset-outside c pos to h =
    let hi = offset16 pos to / 256 % 256 in
    ap (λ d. write_code d (pos + 1) hi) (write_code-outside c pos _ h)
    ∙ write_code-outside (record c { fault = true }) (pos + 1) hi (omega arith)

-- The end of a loop, from its last jump on.
abbrev close_loop : ℕ → ℕ → Compiler × ℕ → Compiler
close_loop start exit_jump p = emit_op (patch_jump (write_offset p.0 p.1 start) exit_jump) op_nil

close_loop-outside :
    (d : Compiler) (start exit_jump : ℕ)
    → d.failed ≡ true
    → d.code_capacity ≤ code_size d
    → close_loop start exit_jump (d, code_size d) ≡ record d { fault = true }
close_loop-outside d start exit_jump failed full =
    ap (λ x. emit_op (patch_jump x exit_jump) op_nil)
      (write_offset-outside d (code_size d) start full)
    ∙ ap (λ x. emit_op x op_nil) (patch_jump-failed (record d { fault = true }) exit_jump failed)
    ∙ emit_byte-failed (record d { fault = true }) failed (opcode op_nil)

-- If compiling the test of a `while` fails when the code buffer is full or not yet there, the jump
-- back of the loop is written outside of the buffer: at its end, whatever the body is.
pub compile_while-faults :
    (c : Compiler) (test : Cell) (body : Cells)
    → (compile c test false).failed ≡ true
    → (compile c test false).code_capacity ≤ code_size (compile c test false)
    → (compile_while c (cons test body)).fault ≡ true
unfolding compile
compile_while-faults c test body failed full =
    let d = compile c test false in
    let start = code_size c in
    let step =
      λ (p : Compiler × ℕ). close_loop start p.1 (emit_jump (compile_discard p.0 body) op_jump) in
    let loop = ap step (emit_jump-failed d failed op_jump_if_nil) in
    let round =
      ap (λ x. close_loop start (code_size d) (emit_jump x op_jump))
        (compile_discard-failed body d failed) in
    let jump = ap (close_loop start (code_size d)) (emit_jump-failed d failed op_jump) in
    ap (λ (x : Compiler). x.fault)
      (loop ∙ round ∙ jump ∙ close_loop-outside d start (code_size d) failed full)
