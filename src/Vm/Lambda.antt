-- ===== src/Vm/Lambda.antt =====
-- `compileLambda` of nl-vm.c: a lambda's parameters and body become a BYTECODE_OBJ.
use text.Mathlib.Text.{◌==◌ as str_eq}
use newlisp_neo.Prelude.{
  ℕ, ◌+◌, Bool, true, false, Option, none, some, List, [], ◌∷◌, length, leb, if◌then◌else◌,
}
use newlisp_neo.Vm.Opcode.{op_nil, op_pop, op_ret}
use newlisp_neo.Vm.Cell.{Symbol, Cell, Cells, symbol, expression, lambda, end, cons}
use newlisp_neo.Vm.State.{Compiler, Host, emit_op, max_locals_limit}
use newlisp_neo.Vm.Compile.{compile}

-- The fields of BYTECODE_OBJ that the machine reads.
pub record Bytecode : Type 0 where
  pub code : List ℕ
  pub constants : List Cell
  pub symbols : List Symbol
  pub num_params : ℕ
  pub num_locals : ℕ

-- The cleared struct.
abbrev pub new_compiler : Host → Option ℕ → Compiler
new_compiler host self = record {
  locals = [];
  num_params = 0;
  max_locals = 0;
  self_symbol = self;
  code = [];
  code_capacity = 0;
  constants = [];
  constants_capacity = 0;
  symbols = [];
  symbols_capacity = 0;
  failed = false;
  fault = false;
  host = host;
}

-- The parameters; those behind a comma are locals. A parameter that is no symbol, or the 257th, is
-- left to the tree walker.
unfoldable pub parse_params : Compiler → Cells → Bool → Option Compiler
parse_params c end in_locals = some c
parse_params c (cons (symbol s) ps) in_locals =
    let commas = parse_params c ps true in
    let entered = record c {
      locals = some s.address ∷ c.locals;
      num_params = if in_locals then c.num_params else c.num_params + 1;
    } in
    let rest = parse_params entered ps in_locals in
    if str_eq s.name ","
    then commas
    else if leb max_locals_limit (length c.locals)
    then none
    else rest
parse_params c (cons _ ps) in_locals = none

-- The body's expressions, the last one in tail position, then OP_RET.
unfoldable pub compile_lambda_body : Compiler → Cells → Option Compiler
compile_lambda_body c end = some (emit_op (emit_op c op_nil) op_ret)
compile_lambda_body c (cons e end) =
    let c' = compile c e true in if c'.failed then none else some (emit_op c' op_ret)
compile_lambda_body c (cons e es) =
    let c' = compile c e false in
    let rest = compile_lambda_body (emit_op c' op_pop) es in if c'.failed then none else rest

unfoldable pub bytecode_of : Compiler → Option Bytecode
bytecode_of c =
    if c.failed
    then none
    else some (record {
      code = c.code;
      constants = c.constants;
      symbols = c.symbols;
      num_params = c.num_params;
      num_locals = c.max_locals;
    })

infixl 5 ◌>>=◌
abbrev pub ◌>>=◌ : {A B : Type 0} → Option A → (A → Option B) → Option B
none >>= f = none
some a >>= f = f a

-- `none` is NULL: the lambda is left to the tree walker.
unfoldable pub compile_lambda : Host → Cell → Option ℕ → Option Bytecode
unfolding parse_params compile_lambda_body bytecode_of
compile_lambda host (lambda (cons (expression params) body)) self = do
  c ← parse_params (new_compiler host self) params false
  let entered = record c { max_locals = length c.locals }
  c' ← compile_lambda_body entered body
  bytecode_of c'
compile_lambda host _ self = none
