-- ===== src/Vm/Arithmetic.antt =====
-- Arithmetic on locals, compiled by nl-vm.c and run by its machine, against what it means.
use Prim.Native.String.{String}
use mathlib.Core.Path.{subst}
use newlisp_neo.Prelude.{
  ℕ, suc, ◌+◌, ◌-◌, ◌^◌, ◌<◌, ◌≡◌, refl, sym, ap, ◌∙◌, inl, inr, false, true, Option, some, List,
  ◌∷◌, ◌++◌, append_assoc, length, get_elem?, arith, if_both, if_true, Bool-cases, ltb→lt, lt→ltb,
  found_or, add64, sub64, mul64, neg64, ltb, if◌then◌else◌,
}
use newlisp_neo.Vm.Opcode.{
  Opcode, opcode, decode-opcode, op_const_0, op_const_1, op_const_2, op_add, op_sub, op_mul, op_nil,
  op_neg, op_load_self, op_load_global, op_add_1, op_sub_1, op_sub_2,
}
use newlisp_neo.Vm.Cell.{Symbol, Cell, long, symbol, expression, end, cons}
use newlisp_neo.Vm.State.{Compiler, code_size, emit_byte, emit_op, emit_load_local, find_local}
use newlisp_neo.Vm.Forms.{classify, is_self}
use newlisp_neo.Vm.Compile.{compile, compile_symbol, compile_long, is_long, emit_global}
use newlisp_neo.Vm.Growth.{Grows, emit_byte-Grows}
use newlisp_neo.Vm.Growth.Expressions.{compile-Grows}
use newlisp_neo.Vm.Scope.{Scoped}
use newlisp_neo.Vm.Scope.Expressions.{compile-Scoped}
use newlisp_neo.Vm.Machine.{Runtime, Machine, running, push, stack_at, ◌>>=◌}
use newlisp_neo.Vm.Step.{execute, run, do_load_local}
use newlisp_neo.Vm.Steps.{Reaches, run-Reaches, Reaches-step, Reaches-trans}
use newlisp_neo.Vm.Locals.{short-step, step-emit_load_local}

-- Sums, differences and products of the numbers 0, 1 and 2 and of locals.
pub data Arith : Type 0 where
  number_0 number_1 number_2 : Arith
  local : Symbol → Arith
  add sub mul : Arith → Arith → Arith
  negate : Arith → Arith

-- Its meaning, as a 64-bit word, for the values of the locals by their symbols' addresses.
unfoldable pub word : (ℕ → ℕ) → Arith → ℕ
word values number_0 = 0
word values number_1 = 1
word values number_2 = 2
word values (local s) = values s.address
word values (add a b) = add64 (word values a) (word values b)
word values (sub a b) = sub64 (word values a) (word values b)
word values (mul a b) = mul64 (word values a) (word values b)
word values (negate a) = neg64 (word values a)

-- The symbol of a primitive.
abbrev primitive_symbol : (String → ℕ) → String → Symbol
primitive_symbol addresses name = record {
  address = addresses name;
  name = name;
  flags = 1;
  fexpr = false;
}

-- The expression as newLISP reads it: `(+ a b)`, `(- a b)`, `(* a b)` and `(- a)`.
unfoldable pub source : (String → ℕ) → Arith → Cell
source ad number_0 = long 0
source ad number_1 = long 1
source ad number_2 = long 2
source ad (local s) = symbol s
source ad (add a b) =
    expression
      (cons (symbol (primitive_symbol ad "+")) (cons (source ad a) (cons (source ad b) end)))
source ad (sub a b) =
    expression
      (cons (symbol (primitive_symbol ad "-")) (cons (source ad a) (cons (source ad b) end)))
source ad (mul a b) =
    expression
      (cons (symbol (primitive_symbol ad "*")) (cons (source ad a) (cons (source ad b) end)))
source ad (negate a) = expression (cons (symbol (primitive_symbol ad "-")) (cons (source ad a) end))

stack_at-push :
    (s : List Cell) (v x : Cell) (i : ℕ) → stack_at s i ≡ some x → stack_at (v ∷ s) i ≡ some x
unfolding stack_at
stack_at-push s v x i h = elim (Bool-cases (ltb i (length s))) [
  | inl p ↦
      let low : i < length s = ltb→lt i (length s) p in
      let e : suc (length s) - 1 - i ≡ suc (length s - 1 - i) = omega arith in
      if_true (ltb i (suc (length s))) _ _ (lt→ltb i (suc (length s)) (omega arith))
      ∙ ap (get_elem? (v ∷ s)) e
      ∙ sym (if_true (ltb i (length s)) _ _ p)
      ∙ h
  | inr p ↦ absurd (ground (arith, h, p))
]

add64_comm : (a b : ℕ) → add64 a b ≡ add64 b a
unfolding add64
add64_comm a b = omega arith

module _ (rt : Runtime) (ls : List (Option ℕ)) (values : ℕ → ℕ) where
  -- The slots of the current frame hold the numbers that the locals stand for.
  unfoldable pub Holds : Machine → Type 0
  Holds m =
      (a slot : ℕ)
      → find_local ls a ≡ some slot
      → stack_at m.stack (m.fp + slot) ≡ some (long (values a))

  -- The code added from `c` to `d`, run in a machine that stands before it, pushes a number.
  Computes : Compiler → ℕ → Compiler → Type 0
  Computes c w d =
      (m : Machine) (rest : List ℕ)
      → c.locals ≡ ls
      → d.failed ≡ false
      → m.ip ≡ code_size c
      → m.current_bc.code ≡ d.code ++ rest
      → Holds m
      → (n : ℕ) × Reaches rt n m (record m { stack = long w ∷ m.stack; ip = code_size d })

  Holds-push :
      (m : Machine) (w i : ℕ) → Holds m → Holds (record m { stack = long w ∷ m.stack; ip = i })
  unfolding Holds
  Holds-push m w i h a slot k = stack_at-push m.stack (long w) _ _ (h a slot k)

  literal-Computes :
      (c : Compiler) (w : ℕ) (op : Opcode)
      → ((m : Machine) → execute rt op m ≡ running (push (long w) m))
      → Computes c w (emit_op c op)
  unfolding Computes Reaches
  literal-Computes c w op run_op m rest same live ip code h = (
    1,
    (_, short-step rt m c ip (opcode op) op rest live code (decode-opcode op) ∙ run_op _, refl),
  )

  unary-Computes :
      (c d : Compiler) (w v : ℕ) (op : Opcode)
      → Computes c w d
      → ((m : Machine) → execute rt op (push (long w) m) ≡ running (push (long v) m))
      → Computes c v (emit_op d op)
  unfolding Computes
  unary-Computes c d w v op f run_op m rest same live ip code h =
      let g = emit_byte-Grows d (opcode op) in
      let (bs, a) = g.appended in
      let code' = code ∙ ap (λ l. l ++ rest) a ∙ append_assoc d.code bs rest in
      let (n, r) = f m (bs ++ rest) same (g.later.alive live) ip code' h in
      let m' = record m { stack = long w ∷ m.stack; ip = code_size d } in
      let s =
        short-step rt m' d refl (opcode op) op rest live code (decode-opcode op)
        ∙ run_op (record m { ip = code_size (emit_op d op) }) in
      (suc n, Reaches-step rt n m m' _ r s)

  binary-Computes :
      (c d e : Compiler) (w v u : ℕ) (op : Opcode)
      → Computes c w d
      → Computes d v e
      → Scoped c d
      → Grows d e
      → ((m : Machine)
          → execute rt op (push (long v) (push (long w) m)) ≡ running (push (long u) m))
      → Computes c u (emit_op e op)
  unfolding Computes
  binary-Computes c d e w v u op f f' sc g₁ run_op m rest same live ip code h =
      let g = emit_byte-Grows e (opcode op) in
      let (bs, a) = g.appended in
      let (bs₁, a₁) = g₁.appended in
      let live₁ = g.later.alive live in
      let live₂ = g₁.later.alive live₁ in
      let code₁ = code ∙ ap (λ l. l ++ rest) a ∙ append_assoc e.code bs rest in
      let code₂ = code₁ ∙ ap (λ l. l ++ (bs ++ rest)) a₁ ∙ append_assoc d.code bs₁ (bs ++ rest) in
      let (n, r) = f m (bs₁ ++ (bs ++ rest)) same live₂ ip code₂ h in
      let m₁ = record m { stack = long w ∷ m.stack; ip = code_size d } in
      let (k, r') =
        f' m₁ (bs ++ rest) (sc.kept live₂ ∙ same) live₁ refl code₁ (Holds-push m w _ h) in
      let m₂ = record m { stack = long v ∷ long w ∷ m.stack; ip = code_size e } in
      let (j, both) = Reaches-trans rt n k m m₁ m₂ r r' in
      let s =
        short-step rt m₂ e refl (opcode op) op rest live code (decode-opcode op)
        ∙ run_op (record m { ip = code_size (emit_op e op) }) in
      (suc j, Reaches-step rt j m m₂ _ both s)

  local-Computes :
      (c : Compiler) (a slot : ℕ)
      → find_local ls a ≡ some slot
      → slot < 2 ^ 16
      → Computes c (values a) (emit_load_local c slot)
  unfolding Computes Reaches Holds do_load_local
  local-Computes c a slot found small m rest same live ip code h = (
    1,
    (
      _,
      step-emit_load_local rt m c ip slot rest small live code
          ∙ ap
              (λ (o : Option Cell).
                o >>= λ x. running (push x (record m { ip = code_size (emit_load_local c slot) })))
              (h a slot found),
      refl,
    ),
  )

  -- The locals of an expression are in scope.
  unfoldable pub InScope : Arith → Type 0
  InScope (local s) = (slot : ℕ) × (find_local ls s.address ≡ some slot) × (slot < 2 ^ 16)
  InScope (add a b) = InScope a × InScope b
  InScope (sub a b) = InScope a × InScope b
  InScope (mul a b) = InScope a × InScope b
  InScope (negate a) = InScope a
  InScope _ = Unit

  -- A compiler that has failed computes nothing.
  given_up : (c : Compiler) (w : ℕ) → c.failed ≡ true → Computes c w (emit_op c op_nil)
  unfolding Computes emit_byte
  given_up c w f m rest same live ip code h =
      let still : (emit_op c op_nil).failed ≡ true =
        ap (λ (x : Compiler). x.failed) (if_true c.failed _ _ f) ∙ f in
      absurd (ground (arith, still, live))

  symbol_is_load :
      (c : Compiler) (s : Symbol) (slot : ℕ)
      → c.locals ≡ ls
      → find_local ls s.address ≡ some slot
      → compile_symbol c s ≡ emit_load_local c slot
  unfolding compile_symbol
  symbol_is_load c s slot same found =
      let other = if is_self c s then emit_op c op_load_self else emit_global c op_load_global s in
      ap (λ (o : Option ℕ). found_or o (λ k. emit_load_local c k) other)
        (ap (λ l. find_local l s.address) same ∙ found)

  module _ (ad : String → ℕ) where
    is_long-word : (n : ℕ) (e : Arith) → is_long n (source ad e) ≡ true → word values e ≡ n
    unfolding is_long source word
    is_long-word n number_0 h = ground arith
    is_long-word n number_1 h = ground arith
    is_long-word n number_2 h = ground arith
    is_long-word n (local s) h = absurd (ground arith)
    is_long-word n (add a b) h = absurd (ground arith)
    is_long-word n (sub a b) h = absurd (ground arith)
    is_long-word n (mul a b) h = absurd (ground arith)
    is_long-word n (negate a) h = absurd (ground arith)

    -- Both operands, then the operation.
    both-Computes :
        (a b : Arith) (c : Compiler) (u : ℕ) (op : Opcode)
        → Computes c (word values a) (compile c (source ad a) false)
        → ((d : Compiler) → Computes d (word values b) (compile d (source ad b) false))
        → ((m : Machine)
            → execute rt op (push (long (word values b)) (push (long (word values a)) m))
              ≡ running (push (long u) m))
        → Computes c u (emit_op (compile (compile c (source ad a) false) (source ad b) false) op)
    both-Computes a b c u op f f' run_op =
        binary-Computes c _ _ (word values a) (word values b) u op f (f' _)
          (compile-Scoped c (source ad a) false) (compile-Grows _ (source ad b) false) run_op

    compile-Computes :
        (e : Arith) (c : Compiler)
        → InScope e
        → Computes c (word values e) (compile c (source ad e) false)
    unfolding InScope source compile classify word execute compile_long Computes
    compile-Computes number_0 c ok = literal-Computes c 0 op_const_0 (λ m. refl)
    compile-Computes number_1 c ok = literal-Computes c 1 op_const_1 (λ m. refl)
    compile-Computes number_2 c ok = literal-Computes c 2 op_const_2 (λ m. refl)
    compile-Computes (local s) c (slot, found, small) = λ m rest same.
        subst (Computes c (values s.address)) (sym (symbol_is_load c s slot same found))
          (local-Computes c s.address slot found small) m rest same
    compile-Computes (negate a) c ok =
        if_both (Computes c _) c.failed (λ f. given_up c _ f)
          (λ _. unary-Computes c _ (word values a) _ op_neg (compile-Computes a c ok) (λ m. refl))
    compile-Computes (mul a b) c (ok, ok') =
        if_both (Computes c _) c.failed (λ f. given_up c _ f)
          (λ _.
            both-Computes a b c _ op_mul (compile-Computes a c ok) (λ d. compile-Computes b d ok')
              (λ m. refl))
    compile-Computes (add a b) c (ok, ok') =
        if_both (Computes c _) c.failed (λ f. given_up c _ f)
          λ _.
            if_both (Computes c _) (is_long 1 (source ad b))
              (λ h. unary-Computes c _ (word values a) _ op_add_1 (compile-Computes a c ok) λ m.
                ap (λ k. running (push (long (add64 (word values a) k)) m))
                  (sym (is_long-word 1 b h)))
              λ _.
                if_both (Computes c _) (is_long 1 (source ad a))
                  (λ h.
                    unary-Computes c _ (word values b) _ op_add_1 (compile-Computes b c ok') λ m.
                      ap (λ k. running (push (long k) m))
                        (add64_comm (word values b) 1
                          ∙ ap (λ k. add64 k (word values b)) (sym (is_long-word 1 a h))))
                  (λ _.
                    both-Computes a b c _ op_add (compile-Computes a c ok)
                      (λ d. compile-Computes b d ok') (λ m. refl))
    compile-Computes (sub a b) c (ok, ok') =
        if_both (Computes c _) c.failed (λ f. given_up c _ f)
          λ _.
            if_both (Computes c _) (is_long 1 (source ad b))
              (λ h. unary-Computes c _ (word values a) _ op_sub_1 (compile-Computes a c ok) λ m.
                ap (λ k. running (push (long (sub64 (word values a) k)) m))
                  (sym (is_long-word 1 b h)))
              λ _.
                if_both (Computes c _) (is_long 2 (source ad b))
                  (λ h. unary-Computes c _ (word values a) _ op_sub_2 (compile-Computes a c ok) λ m.
                    ap (λ k. running (push (long (sub64 (word values a) k)) m))
                      (sym (is_long-word 2 b h)))
                  (λ _.
                    both-Computes a b c _ op_sub (compile-Computes a c ok)
                      (λ d. compile-Computes b d ok') (λ m. refl))

-- Compiled arithmetic computes its value. For an expression of `+`, `-` and `*` with two operands and
-- `-` with one, on the numbers 0, 1 and 2 and on locals in scope, the code added by compiling it, run where it was added and with any
-- code behind it, gets in some number of steps behind itself with the expression's 64-bit value
-- pushed on the stack and nothing else changed. Compiling has not failed, and the slots of the
-- current frame hold the numbers that the locals stand for.
pub compile-run :
    (rt : Runtime) (values : ℕ → ℕ) (ad : String → ℕ) (e : Arith) (c : Compiler) (m : Machine)
    (rest : List ℕ)
    → InScope rt c.locals values e
    → Holds rt c.locals values m
    → (compile c (source ad e) false).failed ≡ false
    → m.ip ≡ code_size c
    → m.current_bc.code ≡ (compile c (source ad e) false).code ++ rest
    → (n : ℕ) × (run n rt m
        ≡ running (record m {
          stack = long (word values e) ∷ m.stack;
          ip = code_size (compile c (source ad e) false);
        }))
unfolding Computes
compile-run rt values ad e c m rest ok h live ip code =
    let (n, r) = compile-Computes rt c.locals values ad e c ok m rest refl live ip code h in
    (n, run-Reaches rt n m _ r)
