-- ===== src/Vm/Machine.antt =====
-- The execution engine of nl-vm.c: the state that `executeBytecode` works on and what it calls.
-- Growing the operand stack and the frame stack (VM_CHECK_STACK, VM_CHECK_FRAMES) is taken to
-- succeed; reference counts and the collector are left out.
use Prim.Native.String.{String}
use Prim.Native.Nat.{compare, Ordering}
use newlisp_neo.Prelude.{
  ℕ, ◌+◌, ◌-◌, ◌*◌, ◌^◌, Bool, true, false, Option, none, some, List, [], ◌∷◌, ◌++◌, length,
  get_elem?, set, replicate, take, ltb, ◌==◌, if◌then◌else◌, found_or, bias64,
}
use newlisp_neo.Vm.Cell.{
  Cell, Cells, nil, float, string, other, long, symbol, expression, lambda, end,
}
use newlisp_neo.Vm.State.{Host}
use newlisp_neo.Vm.Lambda.{Bytecode, compile_lambda}

-- The contents of the symbols, by address.
abbrev pub Globals : Type 0
Globals = ℕ → Cell

-- What the machine calls outside nl-vm.c. A primitive that raises an error returns none.
-- `cached` is the object in a lambda's `aux`. The next four are the tree walker's `evaluateLambda`
-- and implicit indexing by a list, a string and a number; `apply_other` is a call of a primitive, a
-- context, an array or any other cell that the model does not look into. A call may change the globals.
pub record Runtime : Type 0 where
  pub compare_cells : Cell → Cell → Ordering
  pub p_add : List Cell → Option Cell
  pub p_subtract : List Cell → Option Cell
  pub p_multiply : List Cell → Option Cell
  pub p_divide : List Cell → Option Cell
  pub p_modulo : List Cell → Option Cell
  pub nil_symbol : ℕ
  pub cached : Cell → Option Bytecode
  pub evaluate_lambda : Cells → List Cell → Globals → Option (Cell × Globals)
  pub index_list : Cells → List Cell → Option Cell
  pub index_string : String → List Cell → Option Cell
  pub nrest_slice : Cell → List Cell → Option Cell
  pub apply_other : ℕ → List Cell → Globals → Option (Cell × Globals)
  pub compile_host : Host

-- VM_FRAME; `ip` is an index into the code.
pub record Frame : Type 0 where
  pub bytecode : Bytecode
  pub ip : ℕ
  pub fp : ℕ
  pub argc : ℕ
  pub self_cell : Cell

-- `stack` holds `vm_stack` below `vm_sp`, the top first; `frames` the frames that were entered
-- since `executeBytecode` was, the newest first; then its registers and the globals' contents.
pub record Machine : Type 0 where
  pub stack : List Cell
  pub frames : List Frame
  pub current_bc : Bytecode
  pub current_self : Cell
  pub ip : ℕ
  pub fp : ℕ
  pub start_sp : ℕ
  pub globals : Globals

-- `math_error` is ERR_MATH, `raised` an error of a primitive, `hangs` a loop that does not end,
-- and `fault` a read or write that C leaves undefined.
pub data Outcome : Type 0 where
  running : Machine → Outcome
  returned : Cell → Machine → Outcome
  math_error raised hangs fault : Outcome

-- ip[0] | (ip[1] << 8)
unfoldable pub operand16 : List ℕ → ℕ → Option ℕ
operand16 code ip = elim (get_elem? code ip) [
  | none ↦ none
  | some lo ↦ elim (get_elem? code (ip + 1)) [ none ↦ none | some hi ↦ some (lo + hi * 256) ]
]

-- `ip + (int16_t)offset`; below 0 there is no code.
unfoldable pub jump_to : ℕ → ℕ → ℕ
jump_to ip offset = if ltb offset (2 ^ 15) then ip + offset else ip + offset - 2 ^ 16

abbrev pub vm_sp : Machine → ℕ
vm_sp m = length m.stack

-- `vm_stack[i]` below `vm_sp`, counted from the bottom.
unfoldable pub stack_at : List Cell → ℕ → Option Cell
stack_at s i = if ltb i (length s) then get_elem? s (length s - 1 - i) else none

unfoldable pub stack_set : List Cell → ℕ → Cell → Option (List Cell)
stack_set s i v = if ltb i (length s) then some (set s (length s - 1 - i) v) else none

abbrev pub push : Cell → Machine → Machine
push v m = record m { stack = v ∷ m.stack }

-- The instruction at `ip` is left behind, with so many bytes of operands.
abbrev pub skip : ℕ → Machine → Machine
skip n m = record m { ip = m.ip + n }

infixl 5 ◌>>=◌
abbrev pub ◌>>=◌ : {A : Type 0} → Option A → (A → Outcome) → Outcome
none >>= f = fault
some a >>= f = f a

-- The top of the stack and the machine without it.
unfoldable pub pop : Machine → (Cell → Machine → Outcome) → Outcome
pop m k = elim m.stack [ [] ↦ fault | v ∷ s ↦ k v (record m { stack = s }) ]

-- cond == nilCell || isNil(cond) || isEmpty(cond)
unfoldable pub is_false : Runtime → Cell → Bool
is_false rt nil = true
is_false rt (symbol s) = s.address == rt.nil_symbol
is_false rt (expression end) = true
is_false rt _ = false

-- Two numbers are compared as INT, all else by compareCells.
unfoldable pub order : Runtime → Cell → Cell → Ordering
unfolding bias64
order rt (long a) (long b) = compare (bias64 a) (bias64 b)
order rt a b = rt.compare_cells a b

-- A function stored in a cell, as bytecode: the object cached, or one compiled now.
unfoldable pub target_bytecode : Runtime → Cell → Option Bytecode
target_bytecode rt (lambda es) =
    found_or (rt.cached (lambda es)) (λ bc. some bc)
      (compile_lambda rt.compile_host (lambda es) none)
target_bytecode rt _ = none

-- The newest `n` elements of the stack, the oldest of them first in the array, newest here.
abbrev pub top : ℕ → Machine → List Cell
top n m = take n m.stack

-- Nil on top of the stack up to a height.
abbrev pub pad : ℕ → List Cell → List Cell
pad height s = replicate (height - length s) nil ++ s

-- A function that has no bytecode, applied to values, the first one first.
abbrev unchanged : Globals → Option Cell → Option (Cell × Globals)
unchanged globals none = none
unchanged globals (some v) = some (v, globals)

unfoldable pub apply : Runtime → Cell → List Cell → Globals → Option (Cell × Globals)
apply rt (lambda es) args globals = rt.evaluate_lambda es args globals
apply rt (expression es) args globals = unchanged globals (rt.index_list es args)
apply rt (string s) args globals = unchanged globals (rt.index_string s args)
apply rt (long v) args globals = unchanged globals (rt.nrest_slice (long v) args)
apply rt (float v) args globals = unchanged globals (rt.nrest_slice (float v) args)
apply rt (other n) args globals = rt.apply_other n args globals
apply rt _ args globals = some (nil, globals)
