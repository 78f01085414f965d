-- ===== src/Vm/Step.antt =====
-- The instruction handlers of `executeBytecode` in nl-vm.c, and one step of its dispatch loop.
use Prim.Native.Nat.{Ordering}
use newlisp_neo.Prelude.{
  ℕ, zero, suc, ◌+◌, ◌%◌, ◌^◌, found_or, ◌-◌, Bool, true, false, xor, Option, none, some, List, [],
  ◌∷◌, ◌++◌, length, drop, get_elem?, ltb, leb, ◌==◌, if◌then◌else◌, reverse, add64, sub64, mul64,
  neg64, div64, mod64,
}
use newlisp_neo.Vm.Opcode.{
  Opcode, decode, op_nop, op_nil, op_true, op_const, op_pop, op_dup, op_load_local, op_store_local,
  op_load_global, op_store_global, op_load_self, op_jump, op_jump_if_nil, op_jump_if_not_nil,
  op_ret, op_lt, op_gt, op_le, op_ge, op_eq, op_add, op_sub, op_mul, op_div, op_mod, op_neg,
  op_call, op_call_self, op_load_local_0, op_load_local_1, op_load_local_2, op_load_local_3,
  op_store_local_0, op_store_local_1, op_store_local_2, op_store_local_3, op_const_0, op_const_1,
  op_const_2, op_sub_1, op_sub_2, op_add_1, op_tail_call, op_tail_call_self,
}
use newlisp_neo.Vm.Cell.{Cell, nil, true_cell, long}
use newlisp_neo.Vm.Lambda.{Bytecode}
use newlisp_neo.Vm.Machine.{
  Runtime, Frame, Machine, Outcome, running, returned, math_error, raised, hangs, fault, operand16,
  jump_to, vm_sp, stack_at, stack_set, push, skip, ◌>>=◌, pop, is_false, order, target_bytecode,
  top, pad, apply,
}

unfoldable pub truth : Bool → Cell
truth b = if b then true_cell else nil

-- The sign of compareCells that each comparison accepts.
unfoldable pub accepts : Opcode → Ordering → Bool
accepts op_lt o = elim o [ Ordering.lt ↦ true | _ ↦ false ]
accepts op_le o = elim o [ Ordering.gt ↦ false | _ ↦ true ]
accepts op_gt o = elim o [ Ordering.gt ↦ true | _ ↦ false ]
accepts op_ge o = elim o [ Ordering.lt ↦ false | _ ↦ true ]
accepts op_eq o = elim o [ Ordering.eq ↦ true | _ ↦ false ]
accepts _ o = elim o [ Ordering.eq ↦ false | _ ↦ true ]

-- A value, or what a division by zero or a primitive raises instead.
pub data Value : Type 0 where
  value : Cell → Value
  zero_divisor failure : Value

abbrev pub primitive : Option Cell → Value
primitive none = failure
primitive (some v) = value v

-- Two numbers are calculated with as INT, all else by the primitive of the operation.
unfoldable pub arithmetic : Runtime → Opcode → Cell → Cell → Value
unfolding add64 sub64 mul64 div64 mod64
arithmetic rt op_add (long a) (long b) = value (long (add64 a b))
arithmetic rt op_add a b = primitive (rt.p_add (a ∷ b ∷ []))
arithmetic rt op_sub (long a) (long b) = value (long (sub64 a b))
arithmetic rt op_sub a b = primitive (rt.p_subtract (a ∷ b ∷ []))
arithmetic rt op_mul (long a) (long b) = value (long (mul64 a b))
arithmetic rt op_mul a b = primitive (rt.p_multiply (a ∷ b ∷ []))
arithmetic rt op_div (long a) (long b) = if b == 0 then zero_divisor else value (long (div64 a b))
arithmetic rt op_div a b = primitive (rt.p_divide (a ∷ b ∷ []))
arithmetic rt _ (long a) (long b) = if b == 0 then zero_divisor else value (long (mod64 a b))
arithmetic rt _ a b = primitive (rt.p_modulo (a ∷ b ∷ []))

-- The instructions that work on the top of the stack in place.
unfoldable pub adjust : Runtime → Opcode → Cell → Value
unfolding add64 sub64 neg64
adjust rt op_add_1 (long a) = value (long (add64 a 1))
adjust rt op_add_1 a = primitive (rt.p_add (a ∷ long 1 ∷ []))
adjust rt op_sub_1 (long a) = value (long (sub64 a 1))
adjust rt op_sub_1 a = primitive (rt.p_subtract (a ∷ long 1 ∷ []))
adjust rt op_sub_2 (long a) = value (long (sub64 a 2))
adjust rt op_sub_2 a = primitive (rt.p_subtract (a ∷ long 2 ∷ []))
adjust rt _ (long a) = value (long (neg64 a))
adjust rt _ a = primitive (rt.p_subtract (a ∷ []))

abbrev pub finish : Value → Machine → Outcome
finish (value v) m = running (push v m)
finish zero_divisor m = math_error
finish failure m = raised

unfoldable pub do_compare : Runtime → Opcode → Machine → Outcome
unfolding pop truth accepts order
do_compare rt op m =
    pop m λ b m₁. pop m₁ λ a m₂. running (push (truth (accepts op (order rt a b))) m₂)

unfoldable pub do_arithmetic : Runtime → Opcode → Machine → Outcome
unfolding pop arithmetic
do_arithmetic rt op m = pop m λ b m₁. pop m₁ λ a m₂. finish (arithmetic rt op a b) m₂

unfoldable pub do_adjust : Runtime → Opcode → Machine → Outcome
unfolding pop adjust
do_adjust rt op m = pop m λ a m₁. finish (adjust rt op a) m₁

unfoldable pub do_load_local : ℕ → Machine → Outcome
unfolding stack_at
do_load_local slot m = stack_at m.stack (m.fp + slot) >>= λ v. running (push v m)

-- The value is popped before the write, which must hit the stack that is left.
unfoldable pub do_store_local : ℕ → Machine → Outcome
unfolding pop stack_set
do_store_local slot m =
    pop m λ v m'. stack_set m'.stack (m.fp + slot) v >>= λ s. running (record m' { stack = s })

unfoldable pub do_jump_if : Bool → Runtime → ℕ → Machine → Outcome
unfolding pop is_false jump_to
do_jump_if on_nil rt offset m = pop m λ v m'.
    running (if xor on_nil (is_false rt v) then m' else record m' { ip = jump_to m'.ip offset })

-- vm_frames[vm_frame_count - 1].ip = ip
unfoldable pub save_ip : ℕ → List Frame → List Frame
save_ip ip [] = []
save_ip ip (f ∷ fs) = record f { ip = ip } ∷ fs

-- `while (call_argc < num_params) call_argc++` on a uint8_t, in so many rounds; none if the loop
-- has not ended by then.
unfoldable pub count_params : ℕ → ℕ → ℕ → Option ℕ
count_params zero num_params argc = if ltb argc num_params then none else some argc
count_params (suc rounds) num_params argc =
    let rest = count_params rounds num_params ((argc + 1) % 2 ^ 8) in
    if ltb argc num_params then rest else some argc

-- A new frame over the arguments, with nil for the missing parameters and for the locals.
unfoldable pub push_frame : Bytecode → Cell → ℕ → ℕ → Machine → Machine
unfolding save_ip
push_frame bc self argc new_fp m =
    let frame : Frame = record {
      bytecode = bc;
      ip = 0;
      fp = new_fp;
      argc = argc;
      self_cell = self;
    } in
    record m {
      stack = pad (new_fp + bc.num_locals) (pad (new_fp + argc) m.stack);
      frames = frame ∷ save_ip m.ip m.frames;
      current_bc = bc;
      current_self = self;
      ip = 0;
      fp = new_fp;
    }

-- 256 rounds show whether the loop ends: it has then been through every value of the count.
unfoldable pub enter : Bytecode → Cell → ℕ → ℕ → Machine → Outcome
unfolding push_frame count_params
enter bc self argc new_fp m =
    found_or (count_params 256 bc.num_params argc)
      (λ full. running (push_frame bc self full new_fp m)) hangs

unfoldable pub do_call_self : ℕ → Machine → Outcome
unfolding enter
do_call_self argc m =
    if leb argc (vm_sp m) then enter m.current_bc m.current_self argc (vm_sp m - argc) m else fault

-- The frame is used again: its slots are the arguments, then nil for all that is missing.
unfoldable pub reuse_frame : Bytecode → Cell → ℕ → Machine → Machine
reuse_frame bc self argc m =
    let args = pad bc.num_locals (top argc m) in
    let below = drop (vm_sp m - m.fp) m.stack in
    record m { stack = args ++ below; current_bc = bc; current_self = self; ip = 0 }

-- The frame of `reuse_frame` in place of the newest one.
unfoldable pub replace_frame : Bytecode → Cell → ℕ → Machine → List Frame → List Frame
replace_frame bc self argc m [] = []
replace_frame bc self argc m (f ∷ fs) =
    let frame : Frame = record {
      bytecode = bc;
      ip = 0;
      fp = m.fp;
      argc = argc;
      self_cell = self;
    } in
    frame ∷ fs

-- Only the count and the position change in the frame of a call of the function itself.
unfoldable pub restart_frame : ℕ → List Frame → List Frame
restart_frame argc [] = []
restart_frame argc (f ∷ fs) = record f { argc = argc; ip = 0 } ∷ fs

unfoldable pub do_tail_call_self : ℕ → Machine → Outcome
unfolding reuse_frame restart_frame
do_tail_call_self argc m =
    let again = reuse_frame m.current_bc m.current_self argc m in
    if leb argc (vm_sp m)
    then running (record again { frames = restart_frame argc m.frames })
    else fault

-- The newest frame is left with its result: back in its caller, or out of the machine.
unfoldable pub leave : Cell → Machine → Outcome
leave v m = elim m.frames [
  | [] ↦ fault
  | f ∷ fs ↦ elim fs [
    | [] ↦ returned v (record m { frames = []; stack = drop (vm_sp m - m.start_sp) m.stack })
    | caller ∷ rest ↦ running (record m {
      stack = v ∷ drop (vm_sp m - m.fp) m.stack;
      frames = caller ∷ rest;
      current_bc = caller.bytecode;
      current_self = caller.self_cell;
      ip = caller.ip;
      fp = caller.fp;
    })
  ]
]

unfoldable pub do_ret : Machine → Outcome
unfolding pop leave
do_ret m = pop m leave

-- The result of a function that has no bytecode, with the globals as it leaves them, or the error
-- that it raised.
unfoldable pub do_fallback : Runtime → Cell → ℕ → Machine → (Cell → Machine → Outcome) → Outcome
unfolding apply
do_fallback rt fn argc m k = elim (apply rt fn (reverse (top argc m)) m.globals) [
  | none ↦ raised
  | some (v, globals) ↦ k v (record m { globals = globals })
]

-- A call of `fn` with the newest values of the stack: with bytecode they become the new frame;
-- else the result takes their place.
unfoldable pub call_target : Runtime → ℕ → Machine → Cell → Option Bytecode → Outcome
unfolding enter do_fallback
call_target rt argc m fn (some bc) =
    let below = drop (argc + 1) m.stack in
    enter bc fn argc (length below) (record m { stack = top argc m ++ below })
call_target rt argc m fn none =
    do_fallback rt fn argc m λ v m'. running (record m' { stack = v ∷ drop (argc + 1) m.stack })

-- The function lies below its arguments.
unfoldable pub do_call : Runtime → ℕ → Machine → Outcome
unfolding call_target target_bytecode
do_call rt argc m =
    get_elem? m.stack argc >>= λ fn. call_target rt argc m fn (target_bytecode rt fn)

-- In tail position the frame is used again, or left with the result.
unfoldable pub tail_call_target : Runtime → ℕ → Machine → Cell → Option Bytecode → Outcome
unfolding reuse_frame replace_frame do_fallback leave
tail_call_target rt argc m fn (some bc) =
    running (record (reuse_frame bc fn argc m) { frames = replace_frame bc fn argc m m.frames })
tail_call_target rt argc m fn none = do_fallback rt fn argc m leave

unfoldable pub do_tail_call : Runtime → ℕ → Machine → Outcome
unfolding tail_call_target target_bytecode
do_tail_call rt argc m =
    get_elem? m.stack argc >>= λ fn. tail_call_target rt argc m fn (target_bytecode rt fn)

-- The global gets a copy of the value.
unfoldable pub do_store_global : ℕ → Machine → Outcome
unfolding pop
do_store_global idx m = pop m λ v m'. get_elem? m.current_bc.symbols idx >>= λ s.
    running (record m' { globals = λ a. if a == s.address then v else m'.globals a })

-- The operand bytes are read, and `ip` stands behind them when the handler runs.
abbrev with8 : Machine → (ℕ → Machine → Outcome) → Outcome
with8 m k = get_elem? m.current_bc.code m.ip >>= λ n. k n (skip 1 m)

abbrev with16 : Machine → (ℕ → Machine → Outcome) → Outcome
with16 m k = operand16 m.current_bc.code m.ip >>= λ n. k n (skip 2 m)

-- One instruction, `ip` behind its opcode.
unfoldable pub execute : Runtime → Opcode → Machine → Outcome
unfolding operand16 jump_to do_compare do_arithmetic do_adjust do_load_local do_store_local
    do_jump_if do_call_self do_tail_call_self do_ret do_call do_tail_call do_store_global pop
execute rt op_nop m = running m
execute rt op_nil m = running (push nil m)
execute rt op_true m = running (push true_cell m)
execute rt op_const m =
    with16 m λ idx m'. get_elem? m'.current_bc.constants idx >>= λ v. running (push v m')
execute rt op_const_0 m = running (push (long 0) m)
execute rt op_const_1 m = running (push (long 1) m)
execute rt op_const_2 m = running (push (long 2) m)
execute rt op_pop m = pop m λ v m'. running m'
execute rt op_dup m = pop m λ v m'. running (push v m)
execute rt op_load_local m = with16 m do_load_local
execute rt op_load_local_0 m = do_load_local 0 m
execute rt op_load_local_1 m = do_load_local 1 m
execute rt op_load_local_2 m = do_load_local 2 m
execute rt op_load_local_3 m = do_load_local 3 m
execute rt op_store_local m = with16 m do_store_local
execute rt op_store_local_0 m = do_store_local 0 m
execute rt op_store_local_1 m = do_store_local 1 m
execute rt op_store_local_2 m = do_store_local 2 m
execute rt op_store_local_3 m = do_store_local 3 m
execute rt op_load_global m =
    with16 m λ idx m'.
      get_elem? m'.current_bc.symbols idx >>= λ s. running (push (m'.globals s.address) m')
execute rt op_store_global m = with16 m do_store_global
execute rt op_load_self m = running (push m.current_self m)
execute rt op_jump m = with16 m λ offset m'. running (record m' { ip = jump_to m'.ip offset })
execute rt op_jump_if_nil m = with16 m (do_jump_if true rt)
execute rt op_jump_if_not_nil m = with16 m (do_jump_if false rt)
execute rt op_add m = do_arithmetic rt op_add m
execute rt op_sub m = do_arithmetic rt op_sub m
execute rt op_mul m = do_arithmetic rt op_mul m
execute rt op_div m = do_arithmetic rt op_div m
execute rt op_mod m = do_arithmetic rt op_mod m
execute rt op_add_1 m = do_adjust rt op_add_1 m
execute rt op_sub_1 m = do_adjust rt op_sub_1 m
execute rt op_sub_2 m = do_adjust rt op_sub_2 m
execute rt op_neg m = do_adjust rt op_neg m
execute rt op_call_self m = with8 m do_call_self
execute rt op_tail_call_self m = with8 m do_tail_call_self
execute rt op_call m = with8 m (do_call rt)
execute rt op_tail_call m = with8 m (do_tail_call rt)
execute rt op_ret m = do_ret m
execute rt op m = do_compare rt op m

-- DISPATCH(); a byte that no opcode has jumps through an entry that the table does not have.
unfoldable pub step : Runtime → Machine → Outcome
unfolding execute
step rt m = get_elem? m.current_bc.code m.ip >>= λ b. decode b >>= λ op. execute rt op (skip 1 m)

-- So many steps at most; `running` if that was not enough.
unfoldable pub run : ℕ → Runtime → Machine → Outcome
run zero rt m = running m
run (suc fuel) rt m = elim (step rt m) [ running m' ↦ run fuel rt m' | result ↦ result ]

-- The start of `executeBytecode`, with the arguments evaluated and on the stack that is there.
unfoldable pub start : Bytecode → Cell → List Cell → List Cell → (ℕ → Cell) → Machine
start bc self args stack globals =
    let start_sp = length stack in
    let full = if ltb (length args) bc.num_params then bc.num_params else length args in
    let frame : Frame = record {
      bytecode = bc;
      ip = 0;
      fp = start_sp;
      argc = full;
      self_cell = self;
    } in
    record {
      stack = pad (start_sp + bc.num_locals) (pad (start_sp + full) (reverse args ++ stack));
      frames = frame ∷ [];
      current_bc = bc;
      current_self = self;
      ip = 0;
      fp = start_sp;
      start_sp = start_sp;
      globals = globals;
    }
