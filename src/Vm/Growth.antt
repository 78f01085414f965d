-- ===== src/Vm/Growth.antt =====
-- What every step of the compiler of nl-vm.c keeps: the code already emitted, the room in the
-- code buffer, and a failure once it has happened. Here the steps that emit and patch code.
pub mod Patches
pub mod Expressions
pub mod Lambdas
use newlisp_neo.Prelude.{
  ℕ, suc, ◌+◌, ◌-◌, ◌*◌, ◌/◌, ◌%◌, ◌^◌, ◌≤◌, ◌<◌, ◌≡◌, refl, sym, ap, ◌∙◌, ◌⊎◌, inl, inr, Bool,
  true, false, Option, none, some, List, [], ◌∷◌, ◌++◌, append-nil, append_assoc, length, set,
  length-append, length-set, set-append, leb, ltb, if◌then◌else◌, arith, if_both, found_both,
}
use newlisp_neo.Vm.Opcode.{Opcode, opcode}
use newlisp_neo.Vm.Cell.{Symbol, Cell}
use newlisp_neo.Vm.State.{
  max_locals_limit, Compiler, code_size, fail, grown, emit_byte, emit_op, emit_uint16, emit_jump,
  write_code, offset16, write_offset, patch_jump, find_index, add_constant, add_symbol, add_local,
  find_local, emit_load_local, emit_store_local, emit_const,
}
use newlisp_neo.Vm.Compile.{restore_locals, emit_global, emit_call}

abbrev pub Extends : List ℕ → List ℕ → Type 0
Extends xs ys = (bs : List ℕ) × (ys ≡ xs ++ bs)

-- No code is lost, and a compiler that has not failed had not failed before.
pub record Later (c c' : Compiler) : Type 0 where
  pub alive : c'.failed ≡ false → c.failed ≡ false
  pub longer : code_size c ≤ code_size c'

-- `fits`: the code buffer holds the code. `faultless`: while compiling succeeds, no write has
-- gone outside of it.
pub record Grows (c c' : Compiler) : Type 0 where
  pub later : Later c c'
  pub appended : Extends c.code c'.code
  pub fits : code_size c ≤ c.code_capacity → code_size c' ≤ c'.code_capacity
  pub faultless :
      c'.failed ≡ false → code_size c ≤ c.code_capacity → c.fault ≡ false → c'.fault ≡ false
  pub same_params : c'.num_params ≡ c.num_params
  pub more_locals : c.max_locals ≤ c'.max_locals
  pub few_locals : c.max_locals ≤ max_locals_limit → c'.max_locals ≤ max_locals_limit

pub Later-refl : (c : Compiler) → Later c c
Later-refl c = record { alive = λ h. h; longer = omega arith }

pub Later-trans : {c d e : Compiler} → Later c d → Later d e → Later c e
Later-trans p q = record {
  alive = λ h. p.alive (q.alive h);
  longer = omega (arith, p.longer, q.longer);
}

pub Grows-refl : (c : Compiler) → Grows c c
Grows-refl c = record {
  later = Later-refl c;
  appended = ([], sym (append-nil c.code));
  fits = λ h. h;
  faultless = λ f r h. h;
  same_params = refl;
  more_locals = omega arith;
  few_locals = λ h. h;
}

pub Extends-trans : (xs ys zs : List ℕ) → Extends xs ys → Extends ys zs → Extends xs zs
Extends-trans xs ys zs (us, p) (vs, q) = (us ++ vs, q ∙ ap (λ l. l ++ vs) p ∙ append_assoc xs us vs)

infixl 40 ◌▸◌
pub ◌▸◌ : {c d e : Compiler} → Grows c d → Grows d e → Grows c e
p ▸ q = record {
  later = Later-trans p.later q.later;
  appended = Extends-trans _ _ _ p.appended q.appended;
  fits = λ h. q.fits (p.fits h);
  faultless = λ f r h. q.faultless f (p.fits r) (p.faultless (q.later.alive f) r h);
  same_params = q.same_params ∙ p.same_params;
  more_locals = omega (arith, p.more_locals, q.more_locals);
  few_locals = λ h. q.few_locals (p.few_locals h);
}

pub fail-Grows : (c : Compiler) → Grows c (fail c)
fail-Grows c = record {
  later = record { alive = λ h. ground arith; longer = omega arith };
  appended = ([], sym (append-nil c.code));
  fits = λ h. h;
  faultless = λ f r h. h;
  same_params = refl;
  more_locals = omega arith;
  few_locals = λ h. h;
}

-- A byte appended, in a buffer that has room for it.
push-Grows :
    (c : Compiler) (b capacity : ℕ)
    → (code_size c ≤ c.code_capacity → suc (code_size c) ≤ capacity)
    → Grows c (record c { code = c.code ++ b ∷ []; code_capacity = capacity })
push-Grows c b capacity room = record {
  later = record { alive = λ h. h; longer = omega (arith, length-append c.code (b ∷ [])) };
  appended = (b ∷ [], refl);
  fits = λ h. omega (arith, length-append c.code (b ∷ []), room h);
  faultless = λ f r h. h;
  same_params = refl;
  more_locals = omega arith;
  few_locals = λ h. h;
}

pub emit_byte-Grows : (c : Compiler) (b : ℕ) → Grows c (emit_byte c b)
unfolding emit_byte grown
emit_byte-Grows c b =
    if_both (Grows c) c.failed (λ _. Grows-refl c)
      λ _.
        if_both (Grows c) (leb c.code_capacity (code_size c))
          (λ full.
            if_both (Grows c) (c.host.grants (grown c.code_capacity 64))
              (λ _. push-Grows c b (grown c.code_capacity 64) (λ h. ground arith))
              (λ _. fail-Grows c))
          (λ room. push-Grows c b c.code_capacity (λ h. ground arith))

pub emit_uint16-Grows : (c : Compiler) (v : ℕ) → Grows c (emit_uint16 c v)
unfolding emit_uint16
emit_uint16-Grows c v = emit_byte-Grows c _ ▸ emit_byte-Grows _ _

pub emit_jump-Grows : (c : Compiler) (op : Opcode) → Grows c (emit_jump c op).0
unfolding emit_jump
emit_jump-Grows c op = emit_byte-Grows c _ ▸ emit_uint16-Grows _ 0

-- Steps that leave the code alone.
tables-Grows :
    (c : Compiler) (cs : List Cell) (n : ℕ) (ss : List Symbol) (m : ℕ)
    → Grows c
        (record c { constants = cs; constants_capacity = n; symbols = ss; symbols_capacity = m })
tables-Grows c cs n ss m = record {
  later = record { alive = λ h. h; longer = omega arith };
  appended = ([], sym (append-nil c.code));
  fits = λ h. h;
  faultless = λ f r h. h;
  same_params = refl;
  more_locals = omega arith;
  few_locals = λ h. h;
}

abbrev GrowsFirst : Compiler → Compiler × ℕ → Type 0
GrowsFirst c p = Grows c p.0

pub add_constant-Grows : (c : Compiler) (v : Cell) → Grows c (add_constant c v).0
unfolding add_constant
add_constant-Grows c v =
    if_both (GrowsFirst c) c.failed (λ _. Grows-refl c)
      λ _.
        found_both (GrowsFirst c) (find_index _ c.constants 0) (λ i. Grows-refl c)
          (if_both (GrowsFirst c) (leb c.constants_capacity (length c.constants))
            (λ _.
              if_both (GrowsFirst c) (c.host.grants _) (λ _. tables-Grows c _ _ _ _)
                (λ _. fail-Grows c))
            (λ _. tables-Grows c _ _ _ _))

pub add_symbol-Grows : (c : Compiler) (s : Symbol) → Grows c (add_symbol c s).0
unfolding add_symbol
add_symbol-Grows c s =
    if_both (GrowsFirst c) c.failed (λ _. Grows-refl c)
      λ _.
        found_both (GrowsFirst c) (find_index _ c.symbols 0) (λ i. Grows-refl c)
          (if_both (GrowsFirst c) (leb c.symbols_capacity (length c.symbols))
            (λ _.
              if_both (GrowsFirst c) (c.host.grants _) (λ _. tables-Grows c _ _ _ _)
                (λ _. fail-Grows c))
            (λ _. tables-Grows c _ _ _ _))

locals-Grows :
    (c : Compiler) (ls : List (Option ℕ)) (m : ℕ)
    → c.max_locals ≤ m
    → (c.max_locals ≤ max_locals_limit → m ≤ max_locals_limit)
    → Grows c (record c { locals = ls; max_locals = m })
locals-Grows c ls m h k = record {
  later = record { alive = λ h. h; longer = omega arith };
  appended = ([], sym (append-nil c.code));
  fits = λ h. h;
  faultless = λ f r h. h;
  same_params = refl;
  more_locals = h;
  few_locals = k;
}

pub add_local-Grows : (c : Compiler) (s : Option ℕ) → Grows c (add_local c s).0
unfolding add_local
add_local-Grows c s =
    let n = length c.locals in
    if_both (GrowsFirst c) (leb max_locals_limit n) (λ _. fail-Grows c)
      (λ room.
        locals-Grows c (s ∷ c.locals) (if ltb c.max_locals (n + 1) then n + 1 else c.max_locals)
          (ground arith) (λ h. ground arith))

pub restore_locals-Grows : (c : Compiler) (old : ℕ) → Grows c (restore_locals c old)
unfolding restore_locals
restore_locals-Grows c old = locals-Grows c _ _ (omega arith) (λ h. h)

pub emit_load_local-Grows : (c : Compiler) (slot : ℕ) → Grows c (emit_load_local c slot)
unfolding emit_load_local
emit_load_local-Grows c slot =
    if_both (Grows c) (ltb slot 4) (λ _. emit_byte-Grows c _)
      (λ _. emit_byte-Grows c _ ▸ emit_uint16-Grows _ _)

pub emit_store_local-Grows : (c : Compiler) (slot : ℕ) → Grows c (emit_store_local c slot)
unfolding emit_store_local
emit_store_local-Grows c slot =
    if_both (Grows c) (ltb slot 4) (λ _. emit_byte-Grows c _)
      (λ _. emit_byte-Grows c _ ▸ emit_uint16-Grows _ _)

pub emit_const-Grows : (c : Compiler) (v : Cell) → Grows c (emit_const c v)
unfolding emit_const
emit_const-Grows c v = add_constant-Grows c v ▸ emit_byte-Grows _ _ ▸ emit_uint16-Grows _ _

pub emit_global-Grows : (c : Compiler) (op : Opcode) (s : Symbol) → Grows c (emit_global c op s)
unfolding emit_global
emit_global-Grows c op s = add_symbol-Grows c s ▸ emit_byte-Grows _ _ ▸ emit_uint16-Grows _ _

pub emit_call-Grows :
    (c : Compiler) (op tail_op : Opcode) (t : Bool) (argc : ℕ)
    → Grows c (emit_call c op tail_op t argc)
unfolding emit_call
emit_call-Grows c op tail_op t argc = emit_byte-Grows c _ ▸ emit_byte-Grows _ _
