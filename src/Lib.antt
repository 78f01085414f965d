-- ===== src/Lib.antt =====
-- The bytecode compiler and the virtual machine of newLISP (nl-vm.c, nl-vm.h), the tree that holds the
-- symbols of a context (nl-symbol.c), the coding of characters in strings (nl-utf8.c), functions
-- that change lists and strings in place (nl-liststr.c), the sorting of arrays (nl-list.c), and the
-- integers of any size (nl-math.c).
--
-- A lambda that is called for the first time is handed to `compileLambda`, which gives it bytecode
-- or leaves it to the tree walker of newlisp.c; `executeBytecode` runs the bytecode on an operand
-- stack that all calls share and on a stack of frames. The two halves meet in the bytes of the
-- code and in the tables of constants and symbols.
--
-- Which file models what:
--   Prelude        numbers, lists and options as the other files use them; Prelude/Words has the
--                  64-bit arithmetic of INT, with its wrap-around.
--   Vm/Opcode      VM_OPCODE of nl-vm.h.
--   Vm/Cell        CELL and SYMBOL of newlisp.h, as far as nl-vm.c looks into them. A list is the
--                  chain of its cells' `next`.
--   Vm/State       the struct Compiler, and emitByte, emitUint16, emitJump, patchJump, addConstant,
--                  addSymbol, addLocal and findLocal. An allocation that is refused and a write
--                  outside of the code buffer are part of the state.
--   Vm/Forms       isSpecialForm, and the tests by which compileExpr tells the forms apart.
--   Vm/Compile     compileExpr, a function for each form.
--   Vm/Lambda      compileLambda and BYTECODE_OBJ.
--   Vm/Machine     the registers and stacks of executeBytecode, and what it calls.
--   Vm/Step        the instruction handlers; `step` is one turn of the dispatch loop, `run` so many
--                  turns, `start` the entry with the arguments evaluated.
--   Vm/Growth      with its children Patches, Expressions and Lambdas: what compiling keeps.
--   Vm/Scope       with its child Expressions: the locals in scope.
--   Vm/Failure     the compiler after a failure.
--   Vm/Bindings    how names are bound to slots.
--   Vm/Jumps       jumps and operands, from the compiler to the machine.
--   Vm/Locals      loads and stores of locals, from the compiler to the machine.
--   Vm/TailCalls   calls of a function by itself.
--   Vm/Superinstructions  the instructions that have their operand built in.
--   Vm/Steps       runs of several steps.
--   Vm/Arithmetic  arithmetic on locals, compiled and run.
--   Vm/Tests       runs of both halves on small programs, and each theorem applied to one of them.
--
--   Symbols/Name   str2cmp and the order of names.
--   Symbols/Tree   SYMBOL, the rotations and the walk down; Symbols/Insert and Symbols/Delete have
--                  findInsertSymbol and deleteSymbol with their fixups, Symbols/Associations
--                  collectSymbolAssocs.
--   Symbols/Listing  with its child Deletion: what the fixups leave in its order.
--   Symbols/Balance  with its children Inserting and Deleting: the red-black invariant.
--   Symbols/Sorted   the sorted list that a tree stands for; Symbols/Search the walk down in it.
--   Symbols/Removal  what taking a symbol out does; Symbols/Refinement, with its child Deletion, sets the
--                  operations against the sorted list, Symbols/Rounds is about the length of the
--                  walk, Symbols/History about sequences of operations.
--   Symbols/Tests  small trees, and each theorem applied to one of them.
--   Utf8/Encode, Utf8/Decode  wchar_utf8 and wstr_utf8; GETCHARINC, utf8_wlen, utf8_index, utf8_1st_len
--                  and utf8_wstr. Utf8/Characters is about one character, Utf8/Texts and
--                  Utf8/Conversion about strings, Utf8/Tests applies each theorem.
--   Lists/Index    adjustNegativeIndex and adjustCount.
--   Lists/Turns    what the counts mean, and p_rotate on strings.
--   Lists/Heap     cells and their links; Lists/Rotate and Lists/Reverse have
--                  p_rotate and p_reverse on lists.
--   Lists/Strings  popString and pushOnString; Lists/PushPop is about their effect on texts.
--   Lists/Sort     binsort; its child Merging is about one merge, Sorting about the passes.
--   Lists/Tests    lists of three cells and short texts.
--   Bigint/Digits  the digits of a bigint and what they stand for.
--   Bigint/Operations  addBigint, subBigint, mulBigint, cmpAbsBigint and cmpBigint of nl-math.c.
--   Bigint/Add, Bigint/Subtract, Bigint/Compare, Bigint/Multiply  these on absolute values;
--                  Bigint/Differences has the integers as differences, with which Bigint/Signs and
--                  Bigint/Ordering are about the signs.
--   Bigint/Text    strToBigint, bigintToDigits and lengthBigint. Bigint/Decimal, Bigint/Parsing
--                  and Bigint/Reading are about what is read, Bigint/Printing about what is written,
--                  Bigint/RoundTrip about both.
--   Bigint/Machine intToBigint and bigintToInt64; Bigint/Conversion and Bigint/Narrowing are
--                  about one each.
--   Bigint/Division  divModBigint and bigintToAbsFloat. Bigint/Quotient is about one digit of
--                  the quotient, Bigint/Rounding, Bigint/Estimate and Bigint/Tops about its estimate,
--                  Bigint/Divide and Bigint/LongDivision about the loop, Bigint/DivMod about the result.
--   Bigint/Operators  arithmetikOp on bigints, and getBigintSizeDirect.
--   Bigint/Tests   bigints of up to three digits, and each theorem applied to one of them.
--
-- A C array with its count is a list; a pointer into the code is an index; the code that compileExpr
-- repeats (a load or a store of a local, a sequence of expressions) is one function. The compiler is
-- structural recursion on the expression. `run` takes fuel, since programs need not end; a theorem on
-- a run gives the number of steps, the others are about single instructions. The one inner loop of a
-- handler that may not end, `call_argc++` on a byte, gets 256 rounds: as many as the byte has values.
--
-- A pointer to a symbol of a tree is the subtree there with the path from it to the root, which is
-- what the parent links lead through; the two mirrored halves of the fixups are one, by the side. A
-- link that is followed although it is NULL or the sentinel's makes the operation give `none`.
--
-- A string in nl-utf8.c is the list of the bytes from the pointer to the end of its memory, and a read
-- behind that gives `none`. Bits are joined by sums, since they do not overlap.
--
-- The loops of p_rotate and p_reverse get as many turns as fuel says; more than the list has cells are
-- enough. binsort doubles the length of its runs in each pass: one pass for each element, and one
-- more, are enough.
--
-- A bigint is its sign and the list of its digits, without the count; a loop from the last digit to
-- the first is recursion on that list, its carry the carry of the rest. With digits below BIGINT_BASE
-- no sum reaches 2^31 and no product with its carry 2^63, so an overflow is written out in intToBigint
-- and bigintToInt64 only. The loop that looks for the first numeral of a digit gets ten turns, one
-- more than a digit has numerals. The bytes that strToBigint takes for numerals are taken as not below
-- '0', as its callers see to.
--
-- divModBigint estimates a digit with doubles, and counts the digit down until it fits, which is
-- recursion on the estimate. The doubles that it uses are integers, so the floating-point unit is two
-- functions on natural numbers, the record Doubles; IsDoubles says of them what IEEE 754 says of
-- rounding to nearest.
--
-- Taken as parameters: the floating-point unit of divModBigint; the comparison of binsort; what
-- `realloc` grants and `compareCells` (in the record Host); the primitives p_add, p_subtract,
-- p_multiply, p_divide and p_modulo of nl-math.c, and the tree walker's ways to apply a value, which may
-- change the globals (in the record Runtime).
--
-- Not modelled: the growth of the operand stack and of the frame stack, which the C code does not
-- check for failure; reference counts and the garbage collector, which do not change values; the copy
-- of constants into the old generation, which keeps all constants but bigints; the current context; of
-- nl-symbol.c the allocation of symbols and the search for references in the cell memory; an error
-- that a comparison of binsort raises; evaluation of arguments and the other functions of nl-liststr.c
-- and nl-list.c; arithmetikOp on arguments that begin with no bigint, and floats among the others; of
-- the bigints floatToBigint, bigintCellToFloat, the offset 0 of bigintToDigits and the bounds of the
-- arrays; the rest of the interpreter.
pub mod Prelude
pub mod Vm
pub mod Symbols
pub mod Utf8
pub mod Lists
pub mod Bigint
