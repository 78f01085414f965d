-- ===== src/Vm/Scope.antt =====
-- The locals that nl-vm.c's compiler has in scope: each step leaves them as they were, or enters
-- new ones on top of them that the end of the form takes away again.
pub mod Expressions
use newlisp_neo.Prelude.{
  ℕ, suc, ◌+◌, ◌-◌, ◌≤◌, ◌≡◌, refl, sym, ap, ◌∙◌, Bool, true, false, Option, none, some, List, [],
  ◌∷◌, ◌++◌, append_assoc, length, drop, length-drop, length-append, leb, ltb, if◌then◌else◌, arith,
  if_both, found_both,
}
use newlisp_neo.Vm.Opcode.{Opcode}
use newlisp_neo.Vm.Cell.{Symbol, Cell}
use newlisp_neo.Vm.State.{
  max_locals_limit, Compiler, fail, grown, emit_byte, emit_uint16, emit_jump, write_code,
  write_offset, patch_jump, find_index, add_constant, add_symbol, add_local, emit_load_local,
  emit_store_local, emit_const,
}
use newlisp_neo.Vm.Compile.{restore_locals, emit_global, emit_call, patch_jumps, finish_and}

-- `kept`: unless the step fails, the same locals are in scope, in the same slots. `room`: the
-- frame has a slot for each local in scope.
pub record Scoped (c c' : Compiler) : Type 0 where
  pub alive : c'.failed ≡ false → c.failed ≡ false
  pub kept : c'.failed ≡ false → c'.locals ≡ c.locals
  pub room : length c.locals ≤ c.max_locals → length c'.locals ≤ c'.max_locals

-- New locals on top of those that were there.
pub record Opens (c c' : Compiler) : Type 0 where
  pub alive : c'.failed ≡ false → c.failed ≡ false
  pub entered : c'.failed ≡ false → (new : List (Option ℕ)) × (c'.locals ≡ new ++ c.locals)
  pub room : length c.locals ≤ c.max_locals → length c'.locals ≤ c'.max_locals

pub Scoped-refl : (c : Compiler) → Scoped c c
Scoped-refl c = record { alive = λ h. h; kept = λ h. refl; room = λ h. h }

infixl 40 ◌▸◌
pub ◌▸◌ : {c d e : Compiler} → Scoped c d → Scoped d e → Scoped c e
p ▸ q = record {
  alive = λ h. p.alive (q.alive h);
  kept = λ h. q.kept h ∙ p.kept (q.alive h);
  room = λ h. q.room (p.room h);
}

pub Scoped-Opens : {c d : Compiler} → Scoped c d → Opens c d
Scoped-Opens p = record { alive = p.alive; entered = λ h. ([], p.kept h); room = p.room }

pub Opens-trans : {c d e : Compiler} → Opens c d → Opens d e → Opens c e
Opens-trans {c} p q = record {
  alive = λ h. p.alive (q.alive h);
  entered = λ h.
      let (xs, a) = p.entered (q.alive h) in
      let (ys, b) = q.entered h in
      (ys ++ xs, b ∙ ap (λ l. ys ++ l) a ∙ sym (append_assoc ys xs c.locals));
  room = λ h. q.room (p.room h);
}

infixl 40 ◌▸▸◌
pub ◌▸▸◌ : {c d e : Compiler} → Opens c d → Scoped d e → Opens c e
p ▸▸ q = Opens-trans p (Scoped-Opens q)

pub fail-Scoped : (c : Compiler) → Scoped c (fail c)
fail-Scoped c = record { alive = λ h. ground arith; kept = λ h. refl; room = λ h. h }

pub emit_byte-Scoped : (c : Compiler) (b : ℕ) → Scoped c (emit_byte c b)
unfolding emit_byte grown
emit_byte-Scoped c b =
    let same : Scoped c (record c { code = c.code ++ b ∷ [] }) = record {
      alive = λ h. h;
      kept = λ h. refl;
      room = λ h. h;
    } in
    if_both (Scoped c) c.failed (λ _. Scoped-refl c)
      λ _.
        if_both (Scoped c) (leb c.code_capacity (length c.code))
          (λ _.
            if_both (Scoped c) (c.host.grants (grown c.code_capacity 64))
              (λ _. record { alive = λ h. h; kept = λ h. refl; room = λ h. h })
              (λ _. fail-Scoped c))
          (λ _. same)

pub emit_uint16-Scoped : (c : Compiler) (v : ℕ) → Scoped c (emit_uint16 c v)
unfolding emit_uint16
emit_uint16-Scoped c v = emit_byte-Scoped c _ ▸ emit_byte-Scoped _ _

pub emit_jump-Scoped : (c : Compiler) (op : Opcode) → Scoped c (emit_jump c op).0
unfolding emit_jump
emit_jump-Scoped c op = emit_byte-Scoped c _ ▸ emit_uint16-Scoped _ 0

write_code-Scoped : (c : Compiler) (pos b : ℕ) → Scoped c (write_code c pos b)
unfolding write_code
write_code-Scoped c pos b =
    if_both (Scoped c) (ltb pos c.code_capacity)
      (λ _. record { alive = λ h. h; kept = λ h. refl; room = λ h. h })
      (λ _. record { alive = λ h. h; kept = λ h. refl; room = λ h. h })

pub write_offset-Scoped : (c : Compiler) (pos to : ℕ) → Scoped c (write_offset c pos to)
unfolding write_offset
write_offset-Scoped c pos to = write_code-Scoped c _ _ ▸ write_code-Scoped _ _ _

pub patch_jump-Scoped : (c : Compiler) (pos : ℕ) → Scoped c (patch_jump c pos)
unfolding patch_jump
patch_jump-Scoped c pos =
    if_both (Scoped c) c.failed (λ _. Scoped-refl c) (λ _. write_offset-Scoped c pos _)

pub patch_jumps-Scoped : (c : Compiler) (ends : List ℕ) → Scoped c (patch_jumps c ends)
unfolding patch_jumps
patch_jumps-Scoped c [] = Scoped-refl c
patch_jumps-Scoped c (pos ∷ ends) =
    patch_jump-Scoped c pos ▸ patch_jumps-Scoped (patch_jump c pos) ends

pub finish_and-Scoped : (c : Compiler) (exits : List ℕ) → Scoped c (finish_and c exits)
unfolding finish_and
finish_and-Scoped c [] = Scoped-refl c
finish_and-Scoped c (pos ∷ exits) =
    emit_jump-Scoped c _
    ▸ patch_jumps-Scoped _ (pos ∷ exits)
    ▸ emit_byte-Scoped _ _
    ▸ patch_jump-Scoped _ _

abbrev ScopedFirst : Compiler → Compiler × ℕ → Type 0
ScopedFirst c p = Scoped c p.0

pub add_constant-Scoped : (c : Compiler) (v : Cell) → Scoped c (add_constant c v).0
unfolding add_constant
add_constant-Scoped c v =
    if_both (ScopedFirst c) c.failed (λ _. Scoped-refl c)
      λ _.
        found_both (ScopedFirst c) (find_index _ c.constants 0) (λ i. Scoped-refl c)
          (if_both (ScopedFirst c) (leb c.constants_capacity (length c.constants))
            (λ _.
              if_both (ScopedFirst c) (c.host.grants _)
                (λ _. record { alive = λ h. h; kept = λ h. refl; room = λ h. h })
                (λ _. fail-Scoped c))
            (λ _. record { alive = λ h. h; kept = λ h. refl; room = λ h. h }))

pub add_symbol-Scoped : (c : Compiler) (s : Symbol) → Scoped c (add_symbol c s).0
unfolding add_symbol
add_symbol-Scoped c s =
    if_both (ScopedFirst c) c.failed (λ _. Scoped-refl c)
      λ _.
        found_both (ScopedFirst c) (find_index _ c.symbols 0) (λ i. Scoped-refl c)
          (if_both (ScopedFirst c) (leb c.symbols_capacity (length c.symbols))
            (λ _.
              if_both (ScopedFirst c) (c.host.grants _)
                (λ _. record { alive = λ h. h; kept = λ h. refl; room = λ h. h })
                (λ _. fail-Scoped c))
            (λ _. record { alive = λ h. h; kept = λ h. refl; room = λ h. h }))

pub emit_load_local-Scoped : (c : Compiler) (slot : ℕ) → Scoped c (emit_load_local c slot)
unfolding emit_load_local
emit_load_local-Scoped c slot =
    if_both (Scoped c) (ltb slot 4) (λ _. emit_byte-Scoped c _)
      (λ _. emit_byte-Scoped c _ ▸ emit_uint16-Scoped _ _)

pub emit_store_local-Scoped : (c : Compiler) (slot : ℕ) → Scoped c (emit_store_local c slot)
unfolding emit_store_local
emit_store_local-Scoped c slot =
    if_both (Scoped c) (ltb slot 4) (λ _. emit_byte-Scoped c _)
      (λ _. emit_byte-Scoped c _ ▸ emit_uint16-Scoped _ _)

pub emit_const-Scoped : (c : Compiler) (v : Cell) → Scoped c (emit_const c v)
unfolding emit_const
emit_const-Scoped c v = add_constant-Scoped c v ▸ emit_byte-Scoped _ _ ▸ emit_uint16-Scoped _ _

pub emit_global-Scoped : (c : Compiler) (op : Opcode) (s : Symbol) → Scoped c (emit_global c op s)
unfolding emit_global
emit_global-Scoped c op s = add_symbol-Scoped c s ▸ emit_byte-Scoped _ _ ▸ emit_uint16-Scoped _ _

pub emit_call-Scoped :
    (c : Compiler) (op tail_op : Opcode) (t : Bool) (argc : ℕ)
    → Scoped c (emit_call c op tail_op t argc)
unfolding emit_call
emit_call-Scoped c op tail_op t argc = emit_byte-Scoped c _ ▸ emit_byte-Scoped _ _

abbrev OpensFirst : Compiler → Compiler × ℕ → Type 0
OpensFirst c p = Opens c p.0

pub add_local-Opens : (c : Compiler) (s : Option ℕ) → Opens c (add_local c s).0
unfolding add_local
add_local-Opens c s =
    let n = length c.locals in
    if_both (OpensFirst c) (leb max_locals_limit n) (λ _. Scoped-Opens (fail-Scoped c))
      (λ _. record { alive = λ h. h; entered = λ h. (s ∷ [], refl); room = λ h. ground arith })

-- What was put on top is what a drop to the old length takes away.
drop_new : (new old : List (Option ℕ)) → drop (length (new ++ old) - length old) (new ++ old) ≡ old
drop_new [] old = let e : length old - length old ≡ 0 = omega arith in ap (λ k. drop k old) e
drop_new (l ∷ new) old =
    let e : suc (length (new ++ old)) - length old ≡ suc (length (new ++ old) - length old) =
      omega (arith, length-append new old) in
    ap (λ k. drop k (l ∷ new ++ old)) e ∙ drop_new new old

pub restore_locals-Scoped :
    {c d : Compiler} → Opens c d → Scoped c (restore_locals d (length c.locals))
unfolding restore_locals
restore_locals-Scoped {c} {d} o = record {
  alive = o.alive;
  kept = λ h.
      let (new, e) = o.entered h in
      ap (λ l. drop (length l - length c.locals) l) e ∙ drop_new new c.locals;
  room = λ h. omega (arith, o.room h, length-drop (length d.locals - length c.locals) d.locals);
}
