-- ===== src/Vm/Opcode.antt =====
-- `VM_OPCODE` of nl-vm.h: the instruction set and its one-byte encoding.
use newlisp_neo.Prelude.{ℕ, Option, some, List, [], ◌∷◌, ◌≡◌, refl, ◌<◌, arith, get_elem?}

-- In the order of the C enumeration, whose numbering starts at 0.
pub data Opcode : Type 0 where
  op_nop op_nil op_true op_const op_pop op_dup : Opcode
  op_load_local op_store_local op_load_global op_store_global op_load_self : Opcode
  op_jump op_jump_if_nil op_jump_if_not_nil op_ret : Opcode
  op_lt op_gt op_le op_ge op_eq op_ne : Opcode
  op_add op_sub op_mul op_div op_mod op_neg : Opcode
  op_call op_call_self : Opcode
  op_load_local_0 op_load_local_1 op_load_local_2 op_load_local_3 : Opcode
  op_store_local_0 op_store_local_1 op_store_local_2 op_store_local_3 : Opcode
  op_const_0 op_const_1 op_const_2 op_sub_1 op_sub_2 op_add_1 : Opcode
  op_tail_call op_tail_call_self : Opcode

unfoldable pub opcode : Opcode → ℕ
opcode op_nop = 0
opcode op_nil = 1
opcode op_true = 2
opcode op_const = 3
opcode op_pop = 4
opcode op_dup = 5
opcode op_load_local = 6
opcode op_store_local = 7
opcode op_load_global = 8
opcode op_store_global = 9
opcode op_load_self = 10
opcode op_jump = 11
opcode op_jump_if_nil = 12
opcode op_jump_if_not_nil = 13
opcode op_ret = 14
opcode op_lt = 15
opcode op_gt = 16
opcode op_le = 17
opcode op_ge = 18
opcode op_eq = 19
opcode op_ne = 20
opcode op_add = 21
opcode op_sub = 22
opcode op_mul = 23
opcode op_div = 24
opcode op_mod = 25
opcode op_neg = 26
opcode op_call = 27
opcode op_call_self = 28
opcode op_load_local_0 = 29
opcode op_load_local_1 = 30
opcode op_load_local_2 = 31
opcode op_load_local_3 = 32
opcode op_store_local_0 = 33
opcode op_store_local_1 = 34
opcode op_store_local_2 = 35
opcode op_store_local_3 = 36
opcode op_const_0 = 37
opcode op_const_1 = 38
opcode op_const_2 = 39
opcode op_sub_1 = 40
opcode op_sub_2 = 41
opcode op_add_1 = 42
opcode op_tail_call = 43
opcode op_tail_call_self = 44

-- The opcodes again in order of their numbers: the dispatch table.
abbrev opcodes : List Opcode
opcodes =
    op_nop ∷ op_nil ∷ op_true ∷ op_const ∷ op_pop ∷ op_dup ∷ op_load_local ∷ op_store_local
    ∷ op_load_global ∷ op_store_global ∷ op_load_self ∷ op_jump ∷ op_jump_if_nil
    ∷ op_jump_if_not_nil ∷ op_ret ∷ op_lt ∷ op_gt ∷ op_le ∷ op_ge ∷ op_eq ∷ op_ne ∷ op_add ∷ op_sub
    ∷ op_mul ∷ op_div ∷ op_mod ∷ op_neg ∷ op_call ∷ op_call_self ∷ op_load_local_0 ∷ op_load_local_1
    ∷ op_load_local_2 ∷ op_load_local_3 ∷ op_store_local_0 ∷ op_store_local_1 ∷ op_store_local_2
    ∷ op_store_local_3 ∷ op_const_0 ∷ op_const_1 ∷ op_const_2 ∷ op_sub_1 ∷ op_sub_2 ∷ op_add_1
    ∷ op_tail_call ∷ op_tail_call_self ∷ []

-- What the dispatch reads from a byte; `none` is a byte that no opcode has.
unfoldable pub decode : ℕ → Option Opcode
decode b = get_elem? opcodes b

-- Every opcode is read back from its byte.
pub decode-opcode : (op : Opcode) → decode (opcode op) ≡ some op
unfolding opcode decode
decode-opcode op_nop = refl
decode-opcode _ = refl

-- An opcode fits the byte it is emitted into.
pub opcode-lt : (op : Opcode) → opcode op < 45
unfolding opcode
opcode-lt op_nop = omega arith
opcode-lt _ = omega arith
