-- ===== src/Vm/Tests.antt =====
-- Small programs compiled, byte by byte, and run; and the theorems about the compiler and the
-- machine at concrete inputs.
use Prim.Native.String.{String}
use Prim.Native.Nat.{Ordering}
use newlisp_neo.Prelude.{
  ◌+◌, ◌-◌, suc, length, arith, ℕ, ◌≡◌, refl, true, false, Option, none, some, List, [], ◌∷◌,
}
use newlisp_neo.Vm.Opcode.{
  opcode, decode, op_const_1, op_const_2, op_add, op_sub, op_add_1, op_sub_1, op_sub_2,
}
use newlisp_neo.Vm.Cell.{Symbol, Cell, Cells, nil, long, symbol, expression, lambda, end, cons}
use newlisp_neo.Vm.State.{
  Compiler, Host, code_size, offset16, emit_byte, emit_uint16, emit_jump, patch_jump, add_constant,
  add_symbol, add_local, find_local, emit_load_local, emit_store_local, emit_const,
}
use newlisp_neo.Vm.Forms.{classify}
use newlisp_neo.Vm.Compile.{
  compile, compile_while, compile_bindings, compile_long, emit_global, compile_symbol, patch_jumps,
  restore_locals, declare_locals, set_target, inc_target, store_variable, is_long, count,
  finish_and, emit_call,
}
use newlisp_neo.Vm.Lambda.{compile_lambda, Bytecode, new_compiler}
use newlisp_neo.Vm.Growth.{Grows}
use newlisp_neo.Vm.Growth.Expressions.{compile-Grows}
use newlisp_neo.Vm.Scope.{Scoped}
use newlisp_neo.Vm.Scope.Expressions.{compile-Scoped}
use newlisp_neo.Vm.Growth.Lambdas.{IsBounded, compile_lambda-IsBounded}
use newlisp_neo.Vm.Failure.{compile_while-faults}
use newlisp_neo.Vm.Bindings.{let_reads_itself}
use newlisp_neo.Vm.Machine.{
  Runtime, Machine, running, returned, hangs, vm_sp, push, stack_at, operand16, jump_to,
}
use newlisp_neo.Vm.Step.{execute, do_call_self, do_tail_call_self, count_params, step, run, start}
use newlisp_neo.Vm.Jumps.{jump_to-offset16}
use newlisp_neo.Vm.Locals.{step-emit_store_local}
use newlisp_neo.Vm.Arithmetic.{
  Arith, number_1, number_2, local, add, sub, word, source, InScope, Holds, compile-run,
}
use newlisp_neo.Vm.TailCalls.{frame, do_tail_call_self-do_call_self, do_call_self_hangs}
use newlisp_neo.Vm.Superinstructions.{◌then◌, short_arithmetic}

abbrev host : Host
host = record { grants = λ n. true; same_cells = λ a b. false }

abbrev sym : ℕ → String → Symbol
sym a n = record { address = a; name = n; flags = 0; fexpr = false }

abbrev call : ℕ → String → Cells → Cell
call a n es = expression (cons (symbol (sym a n)) es)

code_of : Cell → Option (List ℕ)
unfolding compile_lambda compile classify emit_byte emit_uint16 emit_jump patch_jump add_constant
    add_symbol add_local find_local emit_load_local emit_store_local emit_const opcode compile_long
    emit_global compile_symbol patch_jumps restore_locals declare_locals set_target inc_target
    store_variable is_long count finish_and emit_call
code_of e = elim (compile_lambda host e none) [ none ↦ none | some b ↦ some b.code ]

abbrev x : Cell
x = symbol (sym 100 "x")

-- (fn (x) (if (< x 2) x (self (- x 1))))
abbrev countdown : Cell
countdown = lambda (
    cons (expression (cons x end)) (
      cons
        (call 1 "if" (
          cons (call 2 "<" (cons x (cons (long 2) end))) (
            cons x
              (cons (call 3 "self" (cons (call 4 "-" (cons x (cons (long 1) end))) end)) end))))
        end))

countdown_code :
    code_of countdown
    ≡ some (29 ∷ 39 ∷ 15 ∷ 12 ∷ 4 ∷ 0 ∷ 29 ∷ 11 ∷ 4 ∷ 0 ∷ 29 ∷ 40 ∷ 44 ∷ 1 ∷ 14 ∷ [])
unfolding code_of
countdown_code = refl

-- Nothing is asked of the world outside.
abbrev rt : Runtime
rt = record {
  compare_cells = λ a b. Ordering.eq;
  p_add = λ args. none;
  p_subtract = λ args. none;
  p_multiply = λ args. none;
  p_divide = λ args. none;
  p_modulo = λ args. none;
  nil_symbol = 0;
  cached = λ f. none;
  evaluate_lambda = λ es args globals. none;
  index_list = λ es args. none;
  index_string = λ s args. none;
  nrest_slice = λ v args. none;
  apply_other = λ n args globals. none;
  compile_host = host;
}

abbrev countdown_bytecode : Bytecode
countdown_bytecode = record {
  code = 29 ∷ 39 ∷ 15 ∷ 12 ∷ 4 ∷ 0 ∷ 29 ∷ 11 ∷ 4 ∷ 0 ∷ 29 ∷ 40 ∷ 44 ∷ 1 ∷ 14 ∷ [];
  constants = [];
  symbols = [];
  num_params = 1;
  num_locals = 1;
}

abbrev countdown_start : ℕ → Machine
countdown_start n = start countdown_bytecode countdown (long n ∷ []) [] (λ a. nil)

result : ℕ → Machine → Option Cell
unfolding run step decode operand16 start
result fuel m = elim (run fuel rt m) [ returned v m' ↦ some v | _ ↦ none ]

-- (countdown 9) is 1.
countdown_runs : result 100 (countdown_start 9) ≡ some (long 1)
unfolding result mathlib.Core.Bool.xor
countdown_runs = refl

abbrev fresh : Compiler
fresh = new_compiler host none

compile-Grows_example : Grows fresh (compile fresh x false)
compile-Grows_example = compile-Grows fresh x false

-- (let (y x) y), which has a local of its own.
abbrev own_local : Cell
own_local =
    let y = symbol (sym 101 "y") in
    call 6 "let" (cons (expression (cons y (cons x end))) (cons y end))

compile-Scoped_example : Scoped fresh (compile fresh own_local true)
compile-Scoped_example = compile-Scoped fresh own_local true

-- One frame with one slot below, and an argument on the stack.
abbrev before_call : Machine
before_call = push (long 7) (countdown_start 9)

do_tail_call_self-do_call_self_example :
    (c : Machine) × (t : Machine) × (do_call_self 1 before_call ≡ running c)
    × (do_tail_call_self 1 before_call ≡ running t)
    × (frame t ≡ frame c)
    × (t.ip ≡ c.ip)
    × (t.current_bc ≡ c.current_bc)
    × (t.current_self ≡ c.current_self)
    × (length c.frames ≡ suc (length before_call.frames))
    × (length t.frames ≡ length before_call.frames)
    × (t.fp ≡ before_call.fp)
    × (vm_sp t ≡ before_call.fp + (before_call.current_bc.num_locals - 1) + 1)
unfolding start
do_tail_call_self-do_call_self_example =
    do_tail_call_self-do_call_self 1 before_call (omega arith) (omega arith) (omega arith)
      (omega arith) (omega arith)

short_arithmetic_example :
    ((execute rt op_const_1 before_call then execute rt op_add) ≡ execute rt op_add_1 before_call)
    × ((execute rt op_const_1 before_call then execute rt op_sub) ≡ execute rt op_sub_1 before_call)
    × ((execute rt op_const_2 before_call then execute rt op_sub) ≡ execute rt op_sub_2 before_call)
short_arithmetic_example = short_arithmetic rt before_call

-- A jump over two instructions.
abbrev jumping : Compiler
jumping = record fresh { code = 11 ∷ 0 ∷ 0 ∷ 1 ∷ 4 ∷ []; code_capacity = 64 }

abbrev at_jump : Machine
at_jump = record (countdown_start 9) {
  ip = 1;
  current_bc = record countdown_bytecode { code = 11 ∷ 2 ∷ 0 ∷ 1 ∷ 4 ∷ [] };
}

compile_lambda-IsBounded_example :
    IsBounded
      (record { code = 29 ∷ 14 ∷ []; constants = []; symbols = []; num_params = 1; num_locals = 1 })
unfolding code_of
compile_lambda-IsBounded_example =
    compile_lambda-IsBounded host (lambda (cons (expression (cons x end)) (cons x end))) none _ refl

-- (while (catch 1) x) at the start of a function's body: the buffer is not there yet.
abbrev catch : Cell
catch = call 5 "catch" (cons (long 1) end)

compile_while-faults_example : (compile_while fresh (cons catch (cons x end))).fault ≡ true
unfolding code_of
compile_while-faults_example = compile_while-faults fresh catch (cons x end) refl (omega arith)

let_reads_itself_example :
    compile_bindings fresh (cons (symbol (sym 100 "x")) (cons (symbol (sym 100 "x")) end))
    ≡ (emit_store_local (emit_load_local (add_local fresh (some 100)).0 0) 0, false)
let_reads_itself_example = let_reads_itself fresh (sym 100 "x") (omega arith)

jump_to-offset16_example : jump_to (40 + 2) (offset16 40 7) ≡ 7
jump_to-offset16_example = jump_to-offset16 40 7 (omega arith) (omega arith)

do_call_self_hangs_example :
    (count_params 1000 256 1 ≡ none)
    × (do_call_self 1
          (record before_call { current_bc = record countdown_bytecode { num_params = 256 } })
        ≡ hangs)
unfolding start
do_call_self_hangs_example =
    do_call_self_hangs 1000 1
      (record before_call { current_bc = record countdown_bytecode { num_params = 256 } })
      (omega arith) (omega arith) refl

-- A load of slot 5 and a store into slot 0, each behind one instruction and before OP_RET.
abbrev after_one : Compiler
after_one = record fresh { code = 0 ∷ []; code_capacity = 64 }

abbrev running_code : List ℕ → Machine
running_code code = record (countdown_start 9) {
  ip = 1;
  current_bc = record countdown_bytecode { code = code };
}

abbrev load_code : Machine
load_code = running_code (0 ∷ 6 ∷ 5 ∷ 0 ∷ 14 ∷ [])

-- The parameter 9 becomes 7.
abbrev store_code : Machine
store_code = push (long 7) (running_code (0 ∷ 33 ∷ 14 ∷ []))

step-emit_store_local_example :
    step rt store_code ≡ running (record store_code { stack = long 7 ∷ []; ip = 2 })
unfolding emit_store_local emit_byte opcode start
step-emit_store_local_example =
    step-emit_store_local rt store_code after_one 0 (14 ∷ []) (long 7) (long 9) [] [] refl
      (omega arith) refl refl refl refl

-- (- (+ 1 x) 2) where x is 7.
abbrev sum : Arith
sum = sub (add number_1 (local (sym 100 "x"))) number_2

abbrev one_local : Compiler
one_local = record fresh { locals = some 100 ∷ []; max_locals = 1 }

sum_code : (compile one_local (source (λ n. 0) sum) false).code ≡ 29 ∷ 42 ∷ 41 ∷ []
unfolding source code_of
sum_code = refl

sum_value : word (λ a. 7) sum ≡ 6
unfolding word newlisp_neo.Prelude.sub64 newlisp_neo.Prelude.add64
sum_value = refl

abbrev before_sum : Machine
before_sum = record (countdown_start 7) {
  current_bc = record countdown_bytecode { code = 29 ∷ 42 ∷ 41 ∷ 14 ∷ [] };
  stack = long 7 ∷ [];
}

one_local-Holds : Holds rt one_local.locals (λ a. 7) before_sum
unfolding Holds find_local stack_at start
one_local-Holds a slot h = ground arith

compile-run_example :
    (n : ℕ) × (run n rt before_sum
      ≡ running (record before_sum {
        stack = long (word (λ a. 7) sum) ∷ before_sum.stack;
        ip = code_size (compile one_local (source (λ n. 0) sum) false);
      }))
unfolding source code_of InScope find_local start
compile-run_example =
    compile-run rt (λ a. 7) (λ n. 0) sum one_local before_sum (14 ∷ [])
      ((tt, (0, refl, omega arith)), tt) one_local-Holds refl refl refl
