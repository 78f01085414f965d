-- ===== src/Vm/Locals.antt =====
-- The compiler of nl-vm.c and its machine agree on locals: the code that is emitted to load or store
-- one takes it from, or puts it into, its slot of the frame, in one instruction.
use newlisp_neo.Prelude.{
  ℕ, zero, suc, ◌+◌, ◌-◌, ◌^◌, ◌<◌, ◌≡◌, refl, sym, ap, ◌∙◌, inl, inr, false, Option, some, List,
  [], ◌∷◌, ◌++◌, get_elem?, get_elem?-append, ltb, arith, if_false, if_true, u16, Option-cases,
  length, length-append, set, set-append,
}
use newlisp_neo.Vm.Opcode.{
  Opcode, opcode, decode, decode-opcode, op_load_local, op_load_local_0, op_load_local_1,
  op_load_local_2, op_load_local_3, op_store_local, op_store_local_0, op_store_local_1,
  op_store_local_2, op_store_local_3,
}
use newlisp_neo.Vm.State.{
  Compiler, code_size, emit_byte, emit_op, emit_uint16, emit_load_local, emit_store_local,
}
use newlisp_neo.Vm.Growth.{emit_uint16-Grows}
use newlisp_neo.Vm.Growth.Patches.{emit_byte-size, emit_uint16-size}
use newlisp_neo.Vm.Machine.{
  Runtime, Machine, Outcome, running, fault, operand16, skip, stack_set, pop, ◌>>=◌,
}
use newlisp_neo.Vm.Cell.{Cell}
use newlisp_neo.Vm.Step.{execute, step, do_load_local, do_store_local}
use newlisp_neo.Vm.Jumps.{emit_byte-code, operand16-emit_uint16}

get_elem?-prefix :
    (ys rest : List ℕ) (i b : ℕ) → get_elem? ys i ≡ some b → get_elem? (ys ++ rest) i ≡ some b
get_elem?-prefix [] rest i b h = absurd (ground arith)
get_elem?-prefix (y ∷ ys) rest zero b h = h
get_elem?-prefix (y ∷ ys) rest (suc i) b h = get_elem?-prefix ys rest i b h

operand16-prefix :
    (ys rest : List ℕ) (i v : ℕ) → operand16 ys i ≡ some v → operand16 (ys ++ rest) i ≡ some v
unfolding operand16
operand16-prefix ys rest i v h = elim (Option-cases (get_elem? ys i)) [
  | inl n ↦ absurd (ground (arith, n, h))
  | inr (lo, p) ↦ elim (Option-cases (get_elem? ys (i + 1))) [
    | inl n ↦ absurd (ground (arith, n, h, p))
    | inr (hi, q) ↦
        ground
          (arith, p, q, h, get_elem?-prefix ys rest i lo p, get_elem?-prefix ys rest (i + 1) hi q)
  ]
]

byte_emitted :
    (c : Compiler) (b : ℕ)
    → (emit_byte c b).failed ≡ false
    → get_elem? (emit_byte c b).code (code_size c) ≡ some b
byte_emitted c b live =
    let e : code_size c ≡ code_size c + 0 = omega arith in
    ap (λ l. get_elem? l (code_size c)) (emit_byte-code c b live)
    ∙ ap (get_elem? (c.code ++ b ∷ [])) e
    ∙ get_elem?-append c.code (b ∷ []) 0

-- A position behind a prefix of the code is found there.
prefix_at :
    (xs ys rest : List ℕ) (i n b : ℕ)
    → xs ≡ ys ++ rest
    → n ≡ i
    → get_elem? ys i ≡ some b
    → get_elem? xs n ≡ some b
prefix_at xs ys rest i n b e p h =
    ap (λ l. get_elem? l n) e ∙ ap (get_elem? (ys ++ rest)) p ∙ get_elem?-prefix ys rest i b h

module _ (rt : Runtime) (m : Machine) (c : Compiler) (ip : m.ip ≡ code_size c) where
  fetch :
      (b : ℕ) (op : Opcode)
      → get_elem? m.current_bc.code m.ip ≡ some b
      → decode b ≡ some op
      → step rt m ≡ execute rt op (skip 1 m)
  unfolding step
  fetch b op p q =
      ap (λ (o : Option ℕ). o >>= λ x. decode x >>= λ op'. execute rt op' (skip 1 m)) p
      ∙ ap (λ (o : Option Opcode). o >>= λ op'. execute rt op' (skip 1 m)) q

  -- An instruction of one byte.
  pub short-step :
      (b : ℕ) (op : Opcode) (rest : List ℕ)
      → (emit_byte c b).failed ≡ false
      → m.current_bc.code ≡ (emit_byte c b).code ++ rest
      → decode b ≡ some op
      → step rt m ≡ execute rt op (record m { ip = code_size (emit_byte c b) })
  short-step b op rest live e q =
      let size : m.ip + 1 ≡ code_size (emit_byte c b) =
        omega (arith, ip, emit_byte-size c b live) in
      fetch b op (prefix_at _ (emit_byte c b).code rest _ _ b e ip (byte_emitted c b live)) q
      ∙ ap (λ i. execute rt op (record m { ip = i })) size

  -- An instruction with an operand of two bytes.
  long-step :
      (op : Opcode) (f : ℕ → Machine → Outcome) (v : ℕ) (rest : List ℕ)
      → v < 2 ^ 16
      → (emit_uint16 (emit_op c op) v).failed ≡ false
      → m.current_bc.code ≡ (emit_uint16 (emit_op c op) v).code ++ rest
      → ((m' : Machine)
          → execute rt op m' ≡ (operand16 m'.current_bc.code m'.ip >>= λ n. f n (skip 2 m')))
      → step rt m ≡ f v (record m { ip = code_size (emit_uint16 (emit_op c op) v) })
  long-step op f v rest small live e shape =
      let c' = emit_op c op in
      let g = emit_uint16-Grows c' v in
      let (bs, a) = g.appended in
      let alive = g.later.alive live in
      let one : m.ip + 1 ≡ code_size c' = omega (arith, ip, emit_byte-size c (opcode op) alive) in
      let three : m.ip + 1 + 2 ≡ code_size (emit_uint16 c' v) =
        omega (arith, one, emit_uint16-size c' v live) in
      let first = get_elem?-prefix c'.code bs _ _ (byte_emitted c (opcode op) alive) in
      let byte =
        prefix_at _ _ rest _ _ (opcode op) e ip (ap (λ l. get_elem? l (code_size c)) a ∙ first) in
      let operand =
        ap (λ l. operand16 l (m.ip + 1)) e
        ∙ ap (operand16 ((emit_uint16 c' v).code ++ rest)) one
        ∙ operand16-prefix _ rest _ v (operand16-emit_uint16 c' v small live) in
      fetch (opcode op) op byte (decode-opcode op)
      ∙ shape (skip 1 m)
      ∙ ap (λ (o : Option ℕ). o >>= λ n. f n (skip 2 (skip 1 m))) operand
      ∙ ap (λ i. f v (record m { ip = i })) three

  long-shape_load :
      (m' : Machine)
      → execute rt op_load_local m'
        ≡ (operand16 m'.current_bc.code m'.ip >>= λ n. do_load_local n (skip 2 m'))
  unfolding execute
  long-shape_load m' = refl

  long-shape_store :
      (m' : Machine)
      → execute rt op_store_local m'
        ≡ (operand16 m'.current_bc.code m'.ip >>= λ n. do_store_local n (skip 2 m'))
  unfolding execute
  long-shape_store m' = refl

  long_load :
      (slot : ℕ)
      → slot < 2 ^ 16
      → ltb slot 4 ≡ false
      → emit_load_local c slot ≡ emit_uint16 (emit_op c op_load_local) slot
  unfolding emit_load_local
  long_load slot small far =
      let fits : u16 slot ≡ slot = omega arith in
      if_false (ltb slot 4) _ _ far ∙ ap (emit_uint16 (emit_op c op_load_local)) fits

  long_store :
      (slot : ℕ)
      → slot < 2 ^ 16
      → ltb slot 4 ≡ false
      → emit_store_local c slot ≡ emit_uint16 (emit_op c op_store_local) slot
  unfolding emit_store_local
  long_store slot small far =
      let fits : u16 slot ≡ slot = omega arith in
      if_false (ltb slot 4) _ _ far ∙ ap (emit_uint16 (emit_op c op_store_local)) fits

  -- The code that loads a local, run where it was emitted, takes the value in the local's slot of
  -- the current frame and stands behind that code then, in one instruction, whatever code follows.
  -- The slot fits 16 bits and emitting the code has not failed.
  pub step-emit_load_local :
      (slot : ℕ) (rest : List ℕ)
      → slot < 2 ^ 16
      → (emit_load_local c slot).failed ≡ false
      → m.current_bc.code ≡ (emit_load_local c slot).code ++ rest
      → step rt m ≡ do_load_local slot (record m { ip = code_size (emit_load_local c slot) })
  unfolding emit_load_local execute opcode decode
  step-emit_load_local zero rest h live e = short-step _ op_load_local_0 rest live e refl
  step-emit_load_local (suc zero) rest h live e = short-step _ op_load_local_1 rest live e refl
  step-emit_load_local (suc (suc zero)) rest h live e =
      short-step _ op_load_local_2 rest live e refl
  step-emit_load_local (suc (suc (suc zero))) rest h live e =
      short-step _ op_load_local_3 rest live e refl
  step-emit_load_local (suc (suc (suc (suc n)))) rest h live e =
      let slot = suc (suc (suc (suc n))) in
      let q = long_load slot h (ground arith) in
      long-step op_load_local do_load_local slot rest h (ap (λ x. x.failed) (sym q) ∙ live)
        (e ∙ ap (λ x. x.code ++ rest) q) long-shape_load
      ∙ ap (λ x. do_load_local slot (record m { ip = code_size x })) (sym q)

  step-do_store_local :
      (slot : ℕ) (rest : List ℕ)
      → slot < 2 ^ 16
      → (emit_store_local c slot).failed ≡ false
      → m.current_bc.code ≡ (emit_store_local c slot).code ++ rest
      → step rt m ≡ do_store_local slot (record m { ip = code_size (emit_store_local c slot) })
  unfolding emit_store_local execute opcode decode
  step-do_store_local zero rest h live e = short-step _ op_store_local_0 rest live e refl
  step-do_store_local (suc zero) rest h live e = short-step _ op_store_local_1 rest live e refl
  step-do_store_local (suc (suc zero)) rest h live e =
      short-step _ op_store_local_2 rest live e refl
  step-do_store_local (suc (suc (suc zero))) rest h live e =
      short-step _ op_store_local_3 rest live e refl
  step-do_store_local (suc (suc (suc (suc n)))) rest h live e =
      let slot = suc (suc (suc (suc n))) in
      let q = long_store slot h (ground arith) in
      long-step op_store_local do_store_local slot rest h (ap (λ x. x.failed) (sym q) ∙ live)
        (e ∙ ap (λ x. x.code ++ rest) q) long-shape_store
      ∙ ap (λ x. do_store_local slot (record m { ip = code_size x })) (sym q)

-- A write into a stack, counted from the bottom.
stack_set-append :
    (above below : List Cell) (old v : Cell)
    → stack_set (above ++ (old ∷ below)) (length below) v ≡ some (above ++ (v ∷ below))
unfolding stack_set
stack_set-append above below old v =
    let s = above ++ (old ∷ below) in
    let long = length-append above (old ∷ below) in
    let place : length s - 1 - length below ≡ length above + 0 = omega (arith, long) in
    if_true (ltb (length below) (length s)) _ _ (ground (arith, long))
    ∙ ap some (ap (λ i. set s i v) place ∙ set-append above (old ∷ below) 0 v)

stored :
    (m : Machine) (slot : ℕ) (v old : Cell) (above below : List Cell)
    → m.stack ≡ v ∷ (above ++ (old ∷ below))
    → length below ≡ m.fp + slot
    → do_store_local slot m ≡ running (record m { stack = above ++ (v ∷ below) })
unfolding do_store_local pop
stored m slot v old above below s place =
    ap
      (λ (l : List Cell). elim l as (λ _. Outcome) [
        | [] ↦ fault
        | v' ∷ s' ↦ stack_set s' (m.fp + slot) v' >>= λ s''. running (record m { stack = s'' })
      ])
      s
    ∙ ap (λ i. stack_set (above ++ (old ∷ below)) i v >>= λ s''. running (record m { stack = s'' }))
        (sym place)
    ∙ ap (λ o. o >>= λ s''. running (record m { stack = s'' })) (stack_set-append above below old v)

-- The code that stores a local, run where it was emitted and with any code behind it, takes the top
-- off the stack, writes it over the value in the local's slot of the current frame, stands behind
-- that code then and changes nothing else, in one instruction. The slot, which fits 16 bits, lies in
-- the stack below the top, and emitting the code has not failed.
pub step-emit_store_local :
    (rt : Runtime) (m : Machine) (c : Compiler) (slot : ℕ) (rest : List ℕ) (v old : Cell)
    (above below : List Cell)
    → m.ip ≡ code_size c
    → slot < 2 ^ 16
    → (emit_store_local c slot).failed ≡ false
    → m.current_bc.code ≡ (emit_store_local c slot).code ++ rest
    → m.stack ≡ v ∷ (above ++ (old ∷ below))
    → length below ≡ m.fp + slot
    → step rt m
      ≡ running
          (record m { stack = above ++ (v ∷ below); ip = code_size (emit_store_local c slot) })
step-emit_store_local rt m c slot rest v old above below ip h live e s place =
    let behind = record m { ip = code_size (emit_store_local c slot) } in
    step-do_store_local rt m c ip slot rest h live e ∙ stored behind slot v old above below s place
