-- ===== src/Vm/Superinstructions.antt =====
-- The short instructions of nl-vm.c do what the instructions that they replace do together.
use newlisp_neo.Prelude.{◌≡◌, refl, ap}
use mathlib.Core.Path.{fun_ext}
use newlisp_neo.Vm.Opcode.{op_const_1, op_const_2, op_add, op_sub, op_add_1, op_sub_1, op_sub_2}
use newlisp_neo.Vm.Cell.{Cell, nil, long}
use newlisp_neo.Vm.Machine.{Runtime, Machine, Outcome, running, pop}
use newlisp_neo.Vm.Step.{Value, finish, arithmetic, adjust, execute}

-- One instruction after another.
infixl 5 ◌then◌
abbrev pub ◌then◌ : Outcome → (Machine → Outcome) → Outcome
running m then k = k m
result then k = result

module _ (rt : Runtime) where
  add-one : (a : Cell) → arithmetic rt op_add a (long 1) ≡ adjust rt op_add_1 a
  unfolding arithmetic adjust
  add-one nil = refl
  add-one _ = refl

  sub-one : (a : Cell) → arithmetic rt op_sub a (long 1) ≡ adjust rt op_sub_1 a
  unfolding arithmetic adjust
  sub-one nil = refl
  sub-one _ = refl

  sub-two : (a : Cell) → arithmetic rt op_sub a (long 2) ≡ adjust rt op_sub_2 a
  unfolding arithmetic adjust
  sub-two nil = refl
  sub-two _ = refl

  pop_congr :
      (m : Machine) (f g : Cell → Value)
      → ((a : Cell) → f a ≡ g a)
      → pop m (λ a m'. finish (f a) m') ≡ pop m (λ a m'. finish (g a) m')
  pop_congr m f g h = ap (pop m) (fun_ext λ a. fun_ext λ m'. ap (λ v. finish v m') (h a))

  -- On every machine, with any value or none on its stack, OP_ADD_1 does what OP_CONST_1 and OP_ADD
  -- do one after the other, and so OP_SUB_1 and OP_SUB_2 with OP_SUB: the same machine, error or
  -- fault comes out. The numbers wrap around alike, and other values go to the same primitive.
  pub short_arithmetic :
      (m : Machine)
      → ((execute rt op_const_1 m then execute rt op_add) ≡ execute rt op_add_1 m)
        × ((execute rt op_const_1 m then execute rt op_sub) ≡ execute rt op_sub_1 m)
        × ((execute rt op_const_2 m then execute rt op_sub) ≡ execute rt op_sub_2 m)
  unfolding execute
  short_arithmetic m = (
    pop_congr m (λ a. arithmetic rt op_add a (long 1)) (adjust rt op_add_1) add-one,
    pop_congr m (λ a. arithmetic rt op_sub a (long 1)) (adjust rt op_sub_1) sub-one,
    pop_congr m (λ a. arithmetic rt op_sub a (long 2)) (adjust rt op_sub_2) sub-two,
  )
