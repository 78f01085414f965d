-- ===== src/Prelude/Words.antt =====
-- Machine words as native numbers.
use Prim.Native.Nat.{ℕ, ◌+◌, ◌-◌, ◌*◌, ◌/◌, ◌%◌, ◌^◌}
use mathlib.Core.Bool.{Bool}
use newlisp_neo.Prelude.Tests.{leb, if◌then◌else◌}

-- The casts `(uint8_t)` and `(uint16_t)`.
abbrev pub u8 : ℕ → ℕ
u8 n = n % 2 ^ 8

abbrev pub u16 : ℕ → ℕ
u16 n = n % 2 ^ 16

-- A 64-bit `INT` is its bit pattern, the `UINT` of a cell's contents; overflow wraps around.
abbrev pub word_size : ℕ
word_size = 2 ^ 64

abbrev pub sign_bit : ℕ
sign_bit = 2 ^ 63

unfoldable pub add64 : ℕ → ℕ → ℕ
add64 a b = (a + b) % word_size

unfoldable pub sub64 : ℕ → ℕ → ℕ
sub64 a b = (a + word_size - b % word_size) % word_size

unfoldable pub mul64 : ℕ → ℕ → ℕ
mul64 a b = a * b % word_size

unfoldable pub neg64 : ℕ → ℕ
unfolding sub64
neg64 a = sub64 0 a

-- Moves the signed order to the order of the patterns.
unfoldable pub bias64 : ℕ → ℕ
bias64 a = (a + sign_bit) % word_size

abbrev pub is_negative : ℕ → Bool
is_negative a = leb sign_bit a

unfoldable pub abs64 : ℕ → ℕ
unfolding neg64
abs64 a = if is_negative a then neg64 a else a

-- C's `/` and `%` on INT: the quotient is cut towards zero, the remainder has the sign of `a`. The
-- smallest INT divided by -1 wraps around here; in C it is undefined, and traps on common hardware.
unfoldable pub div64 : ℕ → ℕ → ℕ
unfolding abs64
div64 a b =
    let q = abs64 a / abs64 b in
    if is_negative a
    then if is_negative b then q % word_size else neg64 q
    else if is_negative b
    then neg64 q
    else q

unfoldable pub mod64 : ℕ → ℕ → ℕ
unfolding abs64
mod64 a b = let r = abs64 a % abs64 b in if is_negative a then neg64 r else r
