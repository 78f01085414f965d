-- ===== src/Vm/Growth/Patches.antt =====
-- Jumps are emitted with an empty offset and patched once their target is known. A patch leaves
-- the code alone that was there before the jump.
use newlisp_neo.Prelude.{
  ℕ, ◌+◌, ◌-◌, ◌/◌, ◌%◌, ◌≤◌, ◌<◌, ◌≡◌, ap₂, ◌∙◌, false, List, [], ◌∷◌, ◌++◌, length, set,
  length-append, length-set, set-append, ltb, arith, if_both,
}
use newlisp_neo.Vm.Opcode.{Opcode, opcode, op_nil, op_jump}
use newlisp_neo.Vm.State.{
  Compiler, code_size, emit_byte, emit_op, emit_uint16, emit_jump, write_code, offset16,
  write_offset, patch_jump,
}
use newlisp_neo.Vm.Compile.{patch_jumps, finish_and}
use newlisp_neo.Vm.Growth.{
  Extends, Later, Later-refl, Later-trans, Grows, ◌▸◌, emit_byte-Grows, emit_jump-Grows,
}

-- A position at which code that was emitted since `c₀` may be written again.
pub record Owned (c₀ c : Compiler) (pos : ℕ) : Type 0 where
  pub behind : code_size c₀ ≤ pos
  pub inside : c.failed ≡ false → pos + 2 ≤ code_size c

pub Owned-Later : {c₀ c d : Compiler} {pos : ℕ} → Owned c₀ c pos → Later c d → Owned c₀ d pos
Owned-Later o l = record {
  behind = o.behind;
  inside = λ h. omega (arith, o.inside (l.alive h), l.longer);
}

write-Extends :
    (xs ys : List ℕ) (pos b : ℕ) → length xs ≤ pos → Extends xs ys → Extends xs (set ys pos b)
write-Extends xs ys pos b h (bs, e) =
    let k = pos - length xs in
    let e' : pos ≡ length xs + k = omega arith in
    (set bs k b, ap₂ (λ l i. set l i b) e e' ∙ set-append xs bs k b)

write_code-Later : (c : Compiler) (pos b : ℕ) → Later c (write_code c pos b)
unfolding write_code
write_code-Later c pos b =
    if_both (Later c) (ltb pos c.code_capacity)
      (λ _. record { alive = λ h. h; longer = omega (arith, length-set c.code pos b) })
      (λ _. record { alive = λ h. h; longer = omega arith })

write_code-Grows :
    (c₀ c : Compiler) (pos b : ℕ)
    → code_size c₀ ≤ pos
    → (c.failed ≡ false → pos < code_size c)
    → Grows c₀ c
    → Grows c₀ (write_code c pos b)
unfolding write_code
write_code-Grows c₀ c pos b behind inside g =
    if_both (Grows c₀) (ltb pos c.code_capacity)
      (λ in_buffer. record {
        later = record {
          alive = g.later.alive;
          longer = omega (arith, g.later.longer, length-set c.code pos b);
        };
        appended = write-Extends c₀.code c.code pos b behind g.appended;
        fits = λ h. omega (arith, g.fits h, length-set c.code pos b);
        faultless = g.faultless;
        same_params = g.same_params;
        more_locals = g.more_locals;
        few_locals = g.few_locals;
      })
      (λ outside. record {
        later = record { alive = g.later.alive; longer = g.later.longer };
        appended = g.appended;
        fits = g.fits;
        faultless = λ f r h. absurd (ground (arith, inside f, g.fits r));
        same_params = g.same_params;
        more_locals = g.more_locals;
        few_locals = g.few_locals;
      })

pub write_offset-Later : (c : Compiler) (pos to : ℕ) → Later c (write_offset c pos to)
unfolding write_offset
write_offset-Later c pos to = Later-trans (write_code-Later c _ _) (write_code-Later _ _ _)

pub write_offset-Grows :
    {c₀ c : Compiler} {pos : ℕ} (to : ℕ)
    → Owned c₀ c pos
    → Grows c₀ c
    → Grows c₀ (write_offset c pos to)
unfolding write_offset
write_offset-Grows {c₀} {c} {pos} to o g =
    let l = write_code-Later c pos (offset16 pos to % 256) in
    write_code-Grows c₀ _ (pos + 1) _ (omega (arith, o.behind))
      (λ h. omega (arith, o.inside (l.alive h), l.longer))
      (write_code-Grows c₀ c pos _ o.behind (λ h. omega (arith, o.inside h)) g)

pub patch_jump-Later : (c : Compiler) (pos : ℕ) → Later c (patch_jump c pos)
unfolding patch_jump
patch_jump-Later c pos =
    if_both (Later c) c.failed (λ _. Later-refl c) (λ _. write_offset-Later c pos _)

pub patch_jump-Grows :
    {c₀ c : Compiler} {pos : ℕ} → Owned c₀ c pos → Grows c₀ c → Grows c₀ (patch_jump c pos)
unfolding patch_jump
patch_jump-Grows {c₀} {c} {pos} o g =
    if_both (Grows c₀) c.failed (λ _. g) (λ _. write_offset-Grows (code_size c) o g)

pub emit_byte-size :
    (c : Compiler) (b : ℕ)
    → (emit_byte c b).failed ≡ false
    → code_size (emit_byte c b) ≡ code_size c + 1
unfolding emit_byte
emit_byte-size c b h = ground (arith, length-append c.code (b ∷ []))

pub emit_uint16-size :
    (c : Compiler) (v : ℕ)
    → (emit_uint16 c v).failed ≡ false
    → code_size (emit_uint16 c v) ≡ code_size c + 2
unfolding emit_uint16
emit_uint16-size c v h =
    let g = emit_byte-Grows (emit_byte c (v % 256)) (v / 256 % 256) in
    omega (arith, emit_byte-size _ _ h, emit_byte-size c (v % 256) (g.later.alive h))

-- The offset of a jump just emitted is owned.
pub emit_jump-Owned :
    {c₀ c : Compiler} (op : Opcode) → Later c₀ c → Owned c₀ (emit_jump c op).0 (emit_jump c op).1
unfolding emit_jump
emit_jump-Owned {c₀} {c} op l = record {
  behind = omega (arith, l.longer, (emit_byte-Grows c (opcode op)).later.longer);
  inside = λ h. omega (arith, emit_uint16-size (emit_op c op) 0 h);
}

-- Several jumps to one target.
abbrev pub AllOwned : Compiler → Compiler → List ℕ → Type 0
AllOwned c₀ c [] = Unit
AllOwned c₀ c (pos ∷ ends) = Owned c₀ c pos × AllOwned c₀ c ends

pub AllOwned-Later :
    (c₀ : Compiler) {c d : Compiler} (ends : List ℕ)
    → AllOwned c₀ c ends
    → Later c d
    → AllOwned c₀ d ends
AllOwned-Later c₀ [] o l = tt
AllOwned-Later c₀ (pos ∷ ends) (o, os) l = (Owned-Later o l, AllOwned-Later c₀ ends os l)

pub AllOwned-append :
    (c₀ c : Compiler) {pos : ℕ} (ends : List ℕ)
    → AllOwned c₀ c ends
    → Owned c₀ c pos
    → AllOwned c₀ c (ends ++ pos ∷ [])
AllOwned-append c₀ c [] os o = (o, tt)
AllOwned-append c₀ c (e ∷ ends) (p, os) o = (p, AllOwned-append c₀ c ends os o)

pub patch_jumps-Later : (c : Compiler) (ends : List ℕ) → Later c (patch_jumps c ends)
unfolding patch_jumps
patch_jumps-Later c [] = Later-refl c
patch_jumps-Later c (pos ∷ ends) =
    Later-trans (patch_jump-Later c pos) (patch_jumps-Later (patch_jump c pos) ends)

pub patch_jumps-Grows :
    {c₀ : Compiler} (c : Compiler) (ends : List ℕ)
    → AllOwned c₀ c ends
    → Grows c₀ c
    → Grows c₀ (patch_jumps c ends)
unfolding patch_jumps
patch_jumps-Grows c [] os g = g
patch_jumps-Grows c (pos ∷ ends) (o, os) g =
    patch_jumps-Grows (patch_jump c pos) ends (AllOwned-Later _ ends os (patch_jump-Later c pos))
      (patch_jump-Grows o g)

pub finish_and-Grows :
    {c₀ : Compiler} (c : Compiler) (exits : List ℕ)
    → AllOwned c₀ c exits
    → Grows c₀ c
    → Grows c₀ (finish_and c exits)
unfolding finish_and
finish_and-Grows c [] os g = g
finish_and-Grows c (pos ∷ exits) os g =
    let j = emit_jump-Grows c op_jump in
    let ends = pos ∷ exits in
    let p = patch_jumps-Grows _ ends (AllOwned-Later _ ends os j.later) (g ▸ j) in
    let e = emit_byte-Grows (patch_jumps (emit_jump c op_jump).0 ends) (opcode op_nil) in
    patch_jump-Grows
      (Owned-Later (emit_jump-Owned op_jump g.later)
        (Later-trans (patch_jumps-Later _ ends) e.later))
      (p ▸ e)
