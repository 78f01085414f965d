-- ===== src/Vm/Jumps.antt =====
-- The compiler of nl-vm.c and its machine agree on operands and jumps: what is emitted and patched
-- is what is fetched.
use newlisp_neo.Prelude.{
  ℕ, ◌+◌, ◌*◌, ◌/◌, ◌%◌, ◌^◌, ◌≤◌, ◌<◌, ◌≡◌, ◌∙◌, ap, false, List, [], ◌∷◌, ◌++◌, some, get_elem?,
  get_elem?-append, append_assoc, arith,
}
use newlisp_neo.Vm.State.{Compiler, code_size, emit_byte, emit_uint16, offset16}
use newlisp_neo.Vm.Growth.{emit_byte-Grows}
use newlisp_neo.Vm.Machine.{Machine, operand16, jump_to}

-- A jump from the end of its offset at `pos` reaches its target again, forwards or backwards, if
-- the distance fits 16 bits.
pub jump_to-offset16 :
    (pos to : ℕ)
    → to < pos + 2 + 2 ^ 15
    → pos + 2 ≤ to + 2 ^ 15
    → jump_to (pos + 2) (offset16 pos to) ≡ to
unfolding jump_to offset16
jump_to-offset16 pos to far near = ground arith

pub emit_byte-code :
    (c : Compiler) (b : ℕ)
    → (emit_byte c b).failed ≡ false
    → (emit_byte c b).code ≡ c.code ++ b ∷ []
unfolding emit_byte
emit_byte-code c b h = ground arith

pub emit_uint16-code :
    (c : Compiler) (v : ℕ)
    → (emit_uint16 c v).failed ≡ false
    → (emit_uint16 c v).code ≡ c.code ++ (v % 256) ∷ (v / 256 % 256) ∷ []
unfolding emit_uint16
emit_uint16-code c v h =
    let c' = emit_byte c (v % 256) in
    let live = (emit_byte-Grows c' (v / 256 % 256)).later.alive h in
    emit_byte-code c' (v / 256 % 256) h
    ∙ ap (λ l. l ++ (v / 256 % 256) ∷ []) (emit_byte-code c (v % 256) live)
    ∙ append_assoc c.code ((v % 256) ∷ []) ((v / 256 % 256) ∷ [])

-- Two bytes in place are read as one number.
pub operand16-of :
    (code : List ℕ) (i lo hi : ℕ)
    → get_elem? code i ≡ some lo
    → get_elem? code (i + 1) ≡ some hi
    → operand16 code i ≡ some (lo + hi * 256)
unfolding operand16
operand16-of code i lo hi p q = ground arith

-- An operand that was emitted is read back from the place where it was emitted, if it fits 16 bits
-- and the compiler has not failed.
pub operand16-emit_uint16 :
    (c : Compiler) (v : ℕ)
    → v < 2 ^ 16
    → (emit_uint16 c v).failed ≡ false
    → operand16 (emit_uint16 c v).code (code_size c) ≡ some v
operand16-emit_uint16 c v h live =
    let bytes = (v % 256) ∷ (v / 256 % 256) ∷ [] in
    let e = ap (λ l. operand16 l (code_size c)) (emit_uint16-code c v live) in
    let at₀ : get_elem? (c.code ++ bytes) (code_size c) ≡ some (v % 256) =
      ap (get_elem? (c.code ++ bytes)) (omega arith) ∙ get_elem?-append c.code bytes 0 in
    let at₁ : get_elem? (c.code ++ bytes) (code_size c + 1) ≡ some (v / 256 % 256) =
      get_elem?-append c.code bytes 1 in
    e ∙ operand16-of (c.code ++ bytes) (code_size c) _ _ at₀ at₁ ∙ ap some (omega arith)
