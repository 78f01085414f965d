-- ===== src/Vm/Growth/Lambdas.antt =====
-- What `compileLambda` of nl-vm.c makes of a lambda, if it makes anything: bounds on its frame, and
-- code that the buffer held and that ends in OP_RET.
use text.Mathlib.Text.{◌==◌ as str_eq}
use mathlib.Core.Path.{subst}
use newlisp_neo.Prelude.{
  ℕ, suc, ◌+◌, ◌≤◌, ◌≡◌, refl, sym, Bool, true, false, Option, none, some, List, [], ◌∷◌, ◌++◌,
  length, leb, if◌then◌else◌, arith, if_both,
}
use newlisp_neo.Vm.Opcode.{opcode, op_pop, op_ret}
use newlisp_neo.Vm.Cell.{Cell, Cells, symbol, expression, lambda, end, cons}
use newlisp_neo.Vm.State.{Compiler, Host, emit_op, max_locals_limit}
use newlisp_neo.Vm.Compile.{compile}
use newlisp_neo.Vm.Lambda.{
  Bytecode, new_compiler, parse_params, compile_lambda_body, bytecode_of, compile_lambda, ◌>>=◌,
}
use newlisp_neo.Vm.Jumps.{emit_byte-code}
use newlisp_neo.Vm.Growth.{Grows, ◌▸◌, emit_byte-Grows}
use newlisp_neo.Vm.Growth.Expressions.{compile-Grows}

-- No more parameters than locals, nor more locals than the table holds; no code yet.
record IsEntered (c : Compiler) : Type 0 where
  few_params : c.num_params ≤ length c.locals
  few_locals : length c.locals ≤ max_locals_limit
  no_code : c.code ≡ []
  no_fault : c.fault ≡ false

-- Of a result that may be missing.
abbrev OnSome {ℓ} : {A : Type ℓ} → (A → Type 0) → Option A → Type 0
OnSome P none = Unit
OnSome P (some a) = P a

OnSome-some {ℓ} :
    {A : Type ℓ} (P : A → Type 0) {a : A} (o : Option A) → o ≡ some a → OnSome P o → P a
OnSome-some P o e h = subst (OnSome P) e h

OnSome-map {ℓ} :
    {A : Type ℓ} {P Q : A → Type 0}
    → ((a : A) → P a → Q a)
    → (o : Option A) → OnSome P o
    → OnSome Q o
OnSome-map f none h = tt
OnSome-map f (some a) h = f a h

parse_params-IsEntered :
    (ps : Cells) (c : Compiler) (in_locals : Bool)
    → IsEntered c
    → OnSome IsEntered (parse_params c ps in_locals)
unfolding parse_params
parse_params-IsEntered end c i h = h
parse_params-IsEntered (cons (symbol s) ps) c i h =
    let d = record c {
      locals = some s.address ∷ c.locals;
      num_params = if i then c.num_params else c.num_params + 1;
    } in
    if_both (OnSome IsEntered) (str_eq s.name ",") (λ _. parse_params-IsEntered ps c true h)
      λ _.
        if_both (OnSome IsEntered) (leb max_locals_limit (length c.locals)) (λ _. tt)
          λ room. parse_params-IsEntered ps d i (record {
            few_params =
                if_both (λ n. n ≤ suc (length c.locals)) i (λ _. omega (arith, h.few_params))
                  (λ _. omega (arith, h.few_params));
            few_locals = ground arith;
            no_code = h.no_code;
            no_fault = h.no_fault;
          })
parse_params-IsEntered (cons _ ps) c i h = tt

-- `d` is a compiler to which `c` has grown, with OP_RET behind its code.
record IsFinished (c d : Compiler) : Type 0 where
  before : Compiler
  grown : Grows c before
  finished : d ≡ emit_op before op_ret

IsFinished-after : {c c' d : Compiler} → Grows c c' → IsFinished c' d → IsFinished c d
IsFinished-after g f = record { before = f.before; grown = g ▸ f.grown; finished = f.finished }

body-IsFinished : (es : Cells) (c : Compiler) → OnSome (IsFinished c) (compile_lambda_body c es)
unfolding compile_lambda_body
body-IsFinished end c = record { before = _; grown = emit_byte-Grows c _; finished = refl }
body-IsFinished (cons e end) c =
    if_both (OnSome (IsFinished c)) (compile c e true).failed (λ _. tt)
      (λ _. record { before = _; grown = compile-Grows c e true; finished = refl })
body-IsFinished (cons e (cons e' es)) c =
    let c' = emit_op (compile c e false) op_pop in
    let rest = compile_lambda_body c' (cons e' es) in
    if_both (OnSome (IsFinished c)) (compile c e false).failed (λ _. tt)
      (λ _.
        OnSome-map (λ d. IsFinished-after (compile-Grows c e false ▸ emit_byte-Grows _ _)) rest
          (body-IsFinished (cons e' es) c'))

-- The frame that the code needs, and how the code ends.
pub record IsBounded (bc : Bytecode) : Type 0 where
  pub params_are_locals : bc.num_params ≤ bc.num_locals
  pub few_locals : bc.num_locals ≤ max_locals_limit
  pub ends_in_ret : (front : List ℕ) × (bc.code ≡ front ++ opcode op_ret ∷ [])

abbrev entered : Compiler → Compiler
entered c = record c { max_locals = length c.locals }

bytecode_of-IsBounded :
    (c before : Compiler)
    → IsEntered c
    → Grows (entered c) before
    → OnSome IsBounded (bytecode_of (emit_op before op_ret))
unfolding bytecode_of
bytecode_of-IsBounded c before h g =
    let all = g ▸ emit_byte-Grows before (opcode op_ret) in
    if_both (OnSome IsBounded) (emit_op before op_ret).failed (λ _. tt)
      λ live. record {
        params_are_locals = omega (arith, all.same_params, all.more_locals, h.few_params);
        few_locals = all.few_locals h.few_locals;
        ends_in_ret = (before.code, emit_byte-code before (opcode op_ret) live);
      }

finished-IsBounded :
    (c d : Compiler) → IsEntered c → IsFinished (entered c) d → OnSome IsBounded (bytecode_of d)
finished-IsBounded c d h f =
    subst (λ x. OnSome IsBounded (bytecode_of x)) (sym f.finished)
      (bytecode_of-IsBounded c f.before h f.grown)

OnSome-bind :
    {A B : Type 0} {P : A → Type 0} (Q : B → Type 0) (o : Option A) (f : A → Option B)
    → OnSome P o
    → ((a : A) → P a → OnSome Q (f a))
    → OnSome Q (o >>= f)
OnSome-bind Q none f h k = tt
OnSome-bind Q (some a) f h k = k a h

new_compiler-IsEntered : (host : Host) (self : Option ℕ) → IsEntered (new_compiler host self)
new_compiler-IsEntered host self = record {
  few_params = omega arith;
  few_locals = omega arith;
  no_code = refl;
  no_fault = refl;
}

compile_lambda-OnSome :
    (host : Host) (e : Cell) (self : Option ℕ) → OnSome IsBounded (compile_lambda host e self)
unfolding compile_lambda
compile_lambda-OnSome host (lambda (cons (expression params) body)) self =
    OnSome-bind IsBounded (parse_params (new_compiler host self) params false) _
      (parse_params-IsEntered params _ false (new_compiler-IsEntered host self))
      λ c h.
        OnSome-bind IsBounded (compile_lambda_body (entered c) body) _
          (body-IsFinished body (entered c)) (λ d f. finished-IsBounded c d h f)
compile_lambda-OnSome host _ self = tt

-- If a lambda is compiled, its code ends in OP_RET, its frame holds at least its parameters, and at
-- most 256 locals.
pub compile_lambda-IsBounded :
    (host : Host) (e : Cell) (self : Option ℕ) (bc : Bytecode)
    → compile_lambda host e self ≡ some bc
    → IsBounded bc
compile_lambda-IsBounded host e self bc h =
    OnSome-some IsBounded _ h (compile_lambda-OnSome host e self)
