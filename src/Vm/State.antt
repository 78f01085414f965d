-- ===== src/Vm/State.antt =====
-- The struct `Compiler` of nl-vm.c and the helpers that emit code and fill its tables.
-- An array with its count is a list with its length; `code_size` is the length of `code`.
use newlisp_neo.Prelude.{
  ℕ, ◌+◌, ◌-◌, ◌*◌, ◌/◌, ◌%◌, ◌^◌, Bool, true, false, Option, none, some, List, [], ◌∷◌, ◌++◌,
  length, set, u16, leb, ltb, ◌==◌, if◌then◌else◌, found_or,
}
use newlisp_neo.Vm.Opcode.{
  Opcode, opcode, op_const, op_load_local, op_store_local, op_load_local_0, op_store_local_0,
}
use newlisp_neo.Vm.Cell.{Symbol, Cell, nil}

-- What the compiler asks of code outside this file: whether `realloc` grants a block of so many
-- elements, and whether `compareCells` returns 0 for two cells.
pub record Host : Type 0 where
  pub grants : ℕ → Bool
  pub same_cells : Cell → Cell → Bool

-- `locals` holds the newest first and so has slot `num_locals - 1` at its head; `none` is the NULL
-- that `dotimes` enters for its hidden counter. `fault` records a write outside the code buffer.
pub record Compiler : Type 0 where
  pub locals : List (Option ℕ)
  pub num_params : ℕ
  pub max_locals : ℕ
  pub self_symbol : Option ℕ
  pub code : List ℕ
  pub code_capacity : ℕ
  pub constants : List Cell
  pub constants_capacity : ℕ
  pub symbols : List Symbol
  pub symbols_capacity : ℕ
  pub failed : Bool
  pub fault : Bool
  pub host : Host

abbrev pub max_locals_limit : ℕ
max_locals_limit = 256

abbrev pub code_size : Compiler → ℕ
code_size c = length c.code

abbrev pub fail : Compiler → Compiler
fail c = record c { failed = true }

-- The new capacity of an array that is full: `first` elements, then twice as many each time.
unfoldable pub grown : ℕ → ℕ → ℕ
grown capacity first = if capacity == 0 then first else capacity * 2

unfoldable pub emit_byte : Compiler → ℕ → Compiler
unfolding grown
emit_byte c b =
    if c.failed
    then c
    else if leb c.code_capacity (code_size c)
    then if c.host.grants (grown c.code_capacity 64)
      then record c { code = c.code ++ b ∷ []; code_capacity = grown c.code_capacity 64 }
      else fail c
    else record c { code = c.code ++ b ∷ [] }

abbrev pub emit_op : Compiler → Opcode → Compiler
emit_op c op = emit_byte c (opcode op)

unfoldable pub emit_uint16 : Compiler → ℕ → Compiler
emit_uint16 c val = emit_byte (emit_byte c (val % 256)) (val / 256 % 256)

-- The instruction with an empty offset, and the position of the offset.
unfoldable pub emit_jump : Compiler → Opcode → Compiler × ℕ
unfolding emit_uint16
emit_jump c op = let c' = emit_op c op in (emit_uint16 c' 0, code_size c')

-- `c->code[pos] = b`, whatever `pos` is.
unfoldable pub write_code : Compiler → ℕ → ℕ → Compiler
write_code c pos b =
    if ltb pos c.code_capacity
    then record c { code = set c.code pos b }
    else record c { fault = true }

-- `(int16_t)(to - (pos + 2))` as its 16-bit pattern: the distance from the end of the offset at
-- `pos` to `to`, forwards or backwards.
unfoldable pub offset16 : ℕ → ℕ → ℕ
offset16 pos to = (to + 2 ^ 16 - u16 (pos + 2)) % 2 ^ 16

unfoldable pub write_offset : Compiler → ℕ → ℕ → Compiler
unfolding write_code offset16
write_offset c pos to =
    let offset = offset16 pos to in
    write_code (write_code c pos (offset % 256)) (pos + 1) (offset / 256 % 256)

-- A forward jump gets the current end of the code for its target.
unfoldable pub patch_jump : Compiler → ℕ → Compiler
unfolding write_offset
patch_jump c pos = if c.failed then c else write_offset c pos (code_size c)

-- The first index at which a test holds.
unfoldable pub find_index {ℓ} : {A : Type ℓ} → (A → Bool) → List A → ℕ → Option ℕ
find_index p [] i = none
find_index p (x ∷ xs) i = if p x then some i else find_index p xs (i + 1)

-- The constant is stored as it is; copyToGen1 copies it, which keeps all but a bigint, whose digits
-- it copies up to the first zero byte. The index is a uint16_t, also when the new element is stored by it; the slot that is left empty
-- when the index wraps is shown as nil.
unfoldable pub add_constant : Compiler → Cell → Compiler × ℕ
unfolding grown find_index
add_constant c val =
    let n = length c.constants in
    let stored = set (c.constants ++ nil ∷ []) (u16 n) val in
    let capacity = grown c.constants_capacity 16 in
    if c.failed
    then (c, 0)
    else found_or (find_index (λ x. c.host.same_cells x val) c.constants 0) (λ i. (c, u16 i))
        (if leb c.constants_capacity n
          then if c.host.grants capacity
            then (record c { constants = stored; constants_capacity = capacity }, u16 n)
            else (fail c, 0)
          else (record c { constants = stored }, u16 n))

unfoldable pub add_symbol : Compiler → Symbol → Compiler × ℕ
unfolding grown find_index
add_symbol c sym =
    let n = length c.symbols in
    let stored = set (c.symbols ++ sym ∷ []) (u16 n) sym in
    let capacity = grown c.symbols_capacity 16 in
    if c.failed
    then (c, 0)
    else found_or (find_index (λ (s : Symbol). s.address == sym.address) c.symbols 0)
        (λ i. (c, u16 i))
        (if leb c.symbols_capacity n
          then if c.host.grants capacity
            then (record c { symbols = stored; symbols_capacity = capacity }, u16 n)
            else (fail c, 0)
          else (record c { symbols = stored }, u16 n))

-- The slot of the new local; the 257th fails and is given slot 0.
unfoldable pub add_local : Compiler → Option ℕ → Compiler × ℕ
add_local c sym =
    let n = length c.locals in
    if leb max_locals_limit n then (fail c, 0) else (
      record c {
        locals = sym ∷ c.locals;
        max_locals = if ltb c.max_locals (n + 1) then n + 1 else c.max_locals;
      },
      n,
    )

abbrev pub is_local : Option ℕ → ℕ → Bool
is_local none address = false
is_local (some a) address = a == address

-- The newest local of that name, by its slot.
unfoldable pub find_local : List (Option ℕ) → ℕ → Option ℕ
find_local [] address = none
find_local (l ∷ ls) address = if is_local l address then some (length ls) else find_local ls address

-- A load or a store of a local: the short forms for slots 0 to 3.
unfoldable pub emit_load_local : Compiler → ℕ → Compiler
unfolding emit_uint16
emit_load_local c slot =
    if ltb slot 4
    then emit_byte c (opcode op_load_local_0 + slot)
    else emit_uint16 (emit_op c op_load_local) (u16 slot)

unfoldable pub emit_store_local : Compiler → ℕ → Compiler
unfolding emit_uint16
emit_store_local c slot =
    if ltb slot 4
    then emit_byte c (opcode op_store_local_0 + slot)
    else emit_uint16 (emit_op c op_store_local) (u16 slot)

-- A constant: its index in the table, then OP_CONST with that index.
unfoldable pub emit_const : Compiler → Cell → Compiler
unfolding add_constant emit_uint16
emit_const c val = let (c', idx) = add_constant c val in emit_uint16 (emit_op c' op_const) idx
