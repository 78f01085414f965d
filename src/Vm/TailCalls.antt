-- ===== src/Vm/TailCalls.antt =====
-- Calls of nl-vm.c: what a tail call keeps and how it agrees with a call.
use newlisp_neo.Prelude.{
  ℕ, zero, suc, ◌+◌, ◌-◌, ◌≤◌, ◌%◌, ◌^◌, ◌≡◌, refl, ◌∙◌, ap, sym, Option, none, some, List, [], ◌∷◌,
  ◌++◌, append_assoc, length, take, drop, replicate, length-append, length-replicate,
  replicate-append, take-append, take-append-drop, length-take, length-drop, ap₂, ◌⊎◌, arith, ltb,
  leb, if◌then◌else◌, if_true, found_or,
}
use newlisp_neo.Vm.Cell.{Cell, nil}
use newlisp_neo.Vm.Machine.{Frame, Machine, running, hangs, vm_sp, pad}
use newlisp_neo.Vm.Step.{
  count_params, save_ip, push_frame, do_call_self, reuse_frame, restart_frame, do_tail_call_self,
}

-- The slots of the frame that is running, the newest first.
abbrev pub frame : Machine → List Cell
frame m = take (vm_sp m - m.fp) m.stack

-- The count of arguments reaches the parameters in less than 256 rounds, whatever it starts from,
-- if there are at most 255 of them.
count_params_ends :
    (rounds num_params argc : ℕ)
    → num_params ≤ 255
    → num_params ≤ argc + rounds
    → argc ≤ 255
    → count_params rounds num_params argc ≡ some (if ltb argc num_params then num_params else argc)
unfolding count_params
count_params_ends zero np argc h k l = ground arith
count_params_ends (suc r) np argc h k l =
    ground (arith, count_params_ends r np ((argc + 1) % 2 ^ 8))

-- With 256 parameters the uint8_t count wraps around below them for ever.
count_params_wraps : (rounds argc : ℕ) → argc ≤ 255 → count_params rounds 256 argc ≡ none
unfolding count_params
count_params_wraps zero argc h = ground arith
count_params_wraps (suc r) argc h = ground (arith, count_params_wraps r ((argc + 1) % 2 ^ 8))

-- What a frame with these arguments holds: nil on top of them up to the locals.
abbrev slots : ℕ → List Cell → List Cell
slots num_locals args = replicate (num_locals - length args) nil ++ args

length-pad : (n : ℕ) (s : List Cell) → length (pad n s) ≡ (n - length s) + length s
length-pad n s =
    length-append (replicate (n - length s) nil) s
    ∙ ap (λ k. k + length s) (length-replicate (n - length s) nil)

-- Padding for the parameters and then for the locals is padding for the locals.
pad-pad : (n k : ℕ) (s : List Cell) → (k ≤ n) ⊎ (k ≤ length s) → pad n (pad k s) ≡ pad n s
pad-pad n k s h =
    let e : (n - length (pad k s)) + (k - length s) ≡ n - length s =
      omega (arith, length-pad k s) in
    sym (append_assoc (replicate (n - length (pad k s)) nil) (replicate (k - length s) nil) s)
    ∙ ap (λ l. l ++ s)
        (replicate-append (n - length (pad k s)) (k - length s) nil ∙ ap (λ i. replicate i nil) e)

-- Padding the whole stack pads the newest values of it.
pad-slots :
    (nl argc : ℕ) (s : List Cell)
    → argc ≤ length s
    → pad (length s - argc + nl) s ≡ slots nl (take argc s) ++ drop argc s
pad-slots nl argc s h =
    let e : length s - argc + nl - length s ≡ nl - length (take argc s) =
      omega (arith, length-take argc s h) in
    ap₂ (λ i l. replicate i nil ++ l) e (sym (take-append-drop argc s))
    ∙ sym (append_assoc (replicate (nl - length (take argc s)) nil) (take argc s) (drop argc s))

-- The newest part of a stack, counted from the height below it.
take_above :
    (xs ys st : List Cell) (fp : ℕ) → st ≡ xs ++ ys → length ys ≡ fp → take (length st - fp) st ≡ xs
take_above xs ys st fp e h =
    let n : length st - fp ≡ length xs = omega (arith, length-append xs ys, ap length e) in
    ap₂ take n e ∙ take-append xs ys

length-slots :
    (nl : ℕ) (args : List Cell) → length (slots nl args) ≡ (nl - length args) + length args
length-slots nl args = length-pad nl args

abbrev pub call_count : ℕ → ℕ → ℕ
call_count num_params argc = if ltb argc num_params then num_params else argc

module _ (argc : ℕ) (m : Machine) (enough : argc ≤ vm_sp m) where
  abbrev pub called : Machine
  called =
      push_frame m.current_bc m.current_self (call_count m.current_bc.num_params argc)
        (vm_sp m - argc) m

  abbrev pub recalled : Machine
  recalled = record (reuse_frame m.current_bc m.current_self argc m) {
    frames = restart_frame argc m.frames;
  }

  called-stack :
      m.current_bc.num_params ≤ m.current_bc.num_locals
      → called.stack ≡ slots m.current_bc.num_locals (take argc m.stack) ++ drop argc m.stack
  unfolding push_frame
  called-stack few =
      let nl = m.current_bc.num_locals in
      pad-pad (vm_sp m - argc + nl) _ m.stack (ground arith) ∙ pad-slots nl argc m.stack enough

  below-length : m.fp ≤ vm_sp m → length (drop (vm_sp m - m.fp) m.stack) ≡ m.fp
  below-length h = omega (arith, length-drop (vm_sp m - m.fp) m.stack)

  called-frame :
      m.current_bc.num_params ≤ m.current_bc.num_locals
      → frame called ≡ slots m.current_bc.num_locals (take argc m.stack)
  unfolding push_frame
  called-frame few =
      take_above _ (drop argc m.stack) called.stack called.fp (called-stack few)
        (omega (arith, length-drop argc m.stack))

  recalled-frame :
      m.fp ≤ vm_sp m → frame recalled ≡ slots m.current_bc.num_locals (take argc m.stack)
  unfolding reuse_frame
  recalled-frame h =
      take_above (slots m.current_bc.num_locals (take argc m.stack)) (drop (vm_sp m - m.fp) m.stack)
        recalled.stack m.fp refl (below-length h)

  recalled-height : m.fp ≤ vm_sp m → vm_sp recalled ≡ m.fp + (m.current_bc.num_locals - argc) + argc
  unfolding reuse_frame
  recalled-height h = omega (
    arith,
    length-append (slots m.current_bc.num_locals (take argc m.stack))
        (drop (vm_sp m - m.fp) m.stack),
    length-slots m.current_bc.num_locals (take argc m.stack),
    length-take argc m.stack enough,
    below-length h,
  )

length-restart_frame : (argc : ℕ) (fs : List Frame) → length (restart_frame argc fs) ≡ length fs
unfolding restart_frame
length-restart_frame argc [] = refl
length-restart_frame argc (f ∷ fs) = refl

length-save_ip : (ip : ℕ) (fs : List Frame) → length (save_ip ip fs) ≡ length fs
unfolding save_ip
length-save_ip ip [] = refl
length-save_ip ip (f ∷ fs) = refl

-- A call of the function by itself, with at most 255 parameters, and the same call in tail position
-- both succeed and leave the machine in frames with the same contents, at the start of the same
-- code. The call enters a new frame; the tail call adds none, stays at its place in the stack and
-- leaves the stack as high as the larger of its arguments and locals above it, however high it was.
pub do_tail_call_self-do_call_self :
    (argc : ℕ) (m : Machine)
    → argc ≤ vm_sp m
    → argc ≤ 255
    → m.fp ≤ vm_sp m
    → m.current_bc.num_params ≤ 255
    → m.current_bc.num_params ≤ m.current_bc.num_locals
    → (c : Machine) × (t : Machine) × (do_call_self argc m ≡ running c)
      × (do_tail_call_self argc m ≡ running t)
      × (frame t ≡ frame c)
      × (t.ip ≡ c.ip)
      × (t.current_bc ≡ c.current_bc)
      × (t.current_self ≡ c.current_self)
      × (length c.frames ≡ suc (length m.frames))
      × (length t.frames ≡ length m.frames)
      × (t.fp ≡ m.fp)
      × (vm_sp t ≡ m.fp + (m.current_bc.num_locals - argc) + argc)
unfolding do_call_self do_tail_call_self
do_tail_call_self-do_call_self argc m enough byte low few declared = (
  called argc m enough,
  recalled argc m enough,
  if_true (leb argc (vm_sp m)) _ _ (ground arith)
      ∙ ap
          (λ (o : Option ℕ).
            found_or o
              (λ full. running (push_frame m.current_bc m.current_self full (vm_sp m - argc) m))
              hangs)
          (count_params_ends 256 m.current_bc.num_params argc few (omega arith) byte),
  if_true (leb argc (vm_sp m)) _ _ (ground arith),
  recalled-frame argc m enough low ∙ sym (called-frame argc m enough declared),
  unfold reuse_frame push_frame in refl,
  unfold reuse_frame push_frame in refl,
  unfold reuse_frame push_frame in refl,
  unfold push_frame in ap suc (length-save_ip m.ip m.frames),
  length-restart_frame argc m.frames,
  unfold reuse_frame in refl,
  recalled-height argc m enough low,
)

-- With 256 parameters, as many as the compiler accepts, no call of the function by itself with a
-- count in a byte gets anywhere: filling up the missing parameters does not end in any number of
-- rounds.
pub do_call_self_hangs :
    (rounds argc : ℕ) (m : Machine)
    → argc ≤ vm_sp m
    → argc ≤ 255
    → m.current_bc.num_params ≡ 256
    → (count_params rounds m.current_bc.num_params argc ≡ none) × (do_call_self argc m ≡ hangs)
unfolding do_call_self
do_call_self_hangs rounds argc m enough byte many = (
  ap (λ n. count_params rounds n argc) many ∙ count_params_wraps rounds argc byte,
  if_true (leb argc (vm_sp m)) _ _ (ground arith)
      ∙ ap
          (λ (o : Option ℕ).
            found_or o
              (λ full. running (push_frame m.current_bc m.current_self full (vm_sp m - argc) m))
              hangs)
          (ap (λ n. count_params 256 n argc) many ∙ count_params_wraps 256 argc byte),
)
