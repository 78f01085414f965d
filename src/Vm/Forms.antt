-- ===== src/Vm/Forms.antt =====
-- Which form an expression is, by the name of its head symbol: the order of the tests in
-- `compileExpr`, and `isSpecialForm` for the heads that have no code of their own.
use Prim.Native.Nat.{bit_and}
use Prim.Native.String.{String}
use text.Mathlib.Text.{◌==◌ as str_eq}
use newlisp_neo.Prelude.{ℕ, Bool, true, false, not, ◌&&◌, ◌||◌, List, [], ◌∷◌, ◌==◌, if◌then◌else◌}
use newlisp_neo.Vm.Opcode.{Opcode, op_lt, op_gt, op_le, op_ge, op_eq, op_ne}
use newlisp_neo.Vm.Cell.{Symbol}
use newlisp_neo.Vm.State.{Compiler, is_local}

-- `setq` and `set` differ in their targets, `inc` and `dec` in the operation.
pub data Form : Type 0 where
  if_form when_form cond_form and_form or_form begin_form while_form : Form
  let_form local_form dotimes_form : Form
  set_form inc_form : Bool → Form
  compare_form : Opcode → Form
  add_form sub_form mul_form div_form : Form
  self_form special_form call_form : Form

unfoldable pub named : List String → String → Bool
named [] name = false
named (n ∷ ns) name = str_eq name n || named ns name

-- The forms that a built-in symbol may head; every other built-in is special.
abbrev pub builtin_forms : List String
builtin_forms = "if" ∷ "when" ∷ "cond" ∷ "begin" ∷ "while" ∷ "let" ∷ "local" ∷ "dotimes" ∷ []

abbrev pub special_names : List String
special_names =
    "letn" ∷ "letex" ∷ "case" ∷ "until" ∷ "unless" ∷ "if-not" ∷ "macro" ∷ "find-all" ∷ "filter"
    ∷ "clean" ∷ "index" ∷ "catch" ∷ "throw" ∷ "throw-error" ∷ "collect" ∷ "amb" ∷ "dolist"
    ∷ "dotree" ∷ "dostring" ∷ "for" ∷ "for-all" ∷ "do-until" ∷ "do-while" ∷ "doargs" ∷ "setf"
    ∷ "define" ∷ "define-macro" ∷ "def-new" ∷ "new" ∷ "quote" ∷ "time" ∷ "trace" ∷ "trace-highlight"
    ∷ "expand" ∷ "lambda" ∷ "fn" ∷ "lambda-macro" ∷ "fn-macro" ∷ "args" ∷ "env" ∷ "curry"
    ∷ "context" ∷ "eval" ∷ []

-- SYMBOL_MACRO | SYMBOL_DESTRUCTIVE
abbrev pub macro_flags : ℕ
macro_flags = 0x600

unfoldable pub is_special_form : Symbol → Bool
unfolding named
is_special_form s =
    not (bit_and s.flags macro_flags == 0)
    || s.fexpr
    || (not (bit_and s.flags 3 == 0) && not (named builtin_forms s.name))
    || named special_names s.name

-- A reference to the lambda that is being compiled.
unfoldable pub is_self : Compiler → Symbol → Bool
is_self c s = is_local c.self_symbol s.address || str_eq s.name "self"

unfoldable pub classify : Compiler → Symbol → Form
unfolding is_special_form is_self
classify c s =
    if str_eq s.name "if"
    then if_form
    else if str_eq s.name "when"
    then when_form
    else if str_eq s.name "cond"
    then cond_form
    else if str_eq s.name "and"
    then and_form
    else if str_eq s.name "or"
    then or_form
    else if str_eq s.name "begin"
    then begin_form
    else if str_eq s.name "while"
    then while_form
    else if str_eq s.name "let"
    then let_form
    else if str_eq s.name "local"
    then local_form
    else if str_eq s.name "dotimes"
    then dotimes_form
    else if str_eq s.name "setq"
    then set_form true
    else if str_eq s.name "set"
    then set_form false
    else if str_eq s.name "inc"
    then inc_form true
    else if str_eq s.name "dec"
    then inc_form false
    else if str_eq s.name "<"
    then compare_form op_lt
    else if str_eq s.name ">"
    then compare_form op_gt
    else if str_eq s.name "<="
    then compare_form op_le
    else if str_eq s.name ">="
    then compare_form op_ge
    else if str_eq s.name "="
    then compare_form op_eq
    else if str_eq s.name "!="
    then compare_form op_ne
    else if str_eq s.name "+"
    then add_form
    else if str_eq s.name "-"
    then sub_form
    else if str_eq s.name "*"
    then mul_form
    else if str_eq s.name "/"
    then div_form
    else if is_self c s
    then self_form
    else if is_special_form s
    then special_form
    else call_form
